-- ===== src/DynamicInstrumentation/Registry/Sync.antt =====
-- What a polled list of configurations does to the registry, key by key
-- (dynamic-instrumentation/registry/instrumentation-registry.ts and worker.ts).
use aws_otel_js_instrumentat.Prelude.{
  string_test, Option, none, some, List, [], ◌++◌, String, if◌then◌else◌, IsMap,
}
use aws_otel_js_instrumentat.DynamicInstrumentation.Registry.{
  RegistryEntry, Registry, is_unchanged, fresh_entry, get_all_keys, key_map, removed_keys,
}
use aws_otel_js_instrumentat.DynamicInstrumentation.Registry.Classify.{Config, changes}

abbrev over : Option Config → Option RegistryEntry → Option RegistryEntry
over none o = o
over (some c) o = some (fresh_entry c)

-- What stands under a key after a poll, from what stood there and what the poll holds for it.
abbrev pub synced : Option RegistryEntry → Option Config → Option RegistryEntry
synced old none = none
synced none (some c) = some (fresh_entry c)
synced (some old) (some c) = if is_unchanged old.config c then some old else some (fresh_entry c)

-- The configuration that a poll holds for a key: the last one filed under it.
abbrev pub wanted : List Config → List (String × Config)
wanted cs = key_map [] cs

module _ (m : Registry) (cs : List Config) (u : IsMap m) where
  gone : List String
  gone = removed_keys (wanted cs) (get_all_keys m) ++ changes m (wanted cs)
