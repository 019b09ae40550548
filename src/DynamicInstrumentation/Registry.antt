-- ===== src/DynamicInstrumentation/Registry.antt =====
-- dynamic-instrumentation/registry/instrumentation-registry.ts, and the handler of worker.ts that
-- applies a polled list of configurations to it. The registry is a `Map` in insertion order; an
-- entry is a value, since the registry is its only holder between events.
pub mod Classify
pub mod Sync
use aws_otel_js_instrumentat.Prelude.{
  string_test, ℕ, Bool, true, false, ◌&&◌, Option, none, some, List, [], ◌∷◌, ◌++◌, String, map,
  ◌==◌, nat_beq, if◌then◌else◌, lookup, insert, erase, has_key,
}
use aws_otel_js_instrumentat.DynamicInstrumentation.State.{InstrumentationState, new_state}
use aws_otel_js_instrumentat.DynamicInstrumentation.Configuration.{
  InstrumentationConfiguration, compute_registry_key,
}

pub record RegistryEntry : Type 0 where
  pub config : InstrumentationConfiguration
  pub state : InstrumentationState

abbrev pub Registry : Type 0
Registry = List (String × RegistryEntry)

unfoldable pub same_time : Option ℕ → Option ℕ → Bool
same_time none none = true
same_time (some s) (some t) = nat_beq s t
same_time _ _ = false

-- The configuration has not been recreated: same `locationHash`, same `createdAt`.
unfoldable pub is_unchanged : InstrumentationConfiguration → InstrumentationConfiguration → Bool
unfolding same_time
is_unchanged old new =
    old.location_hash == new.location_hash && same_time old.created_at new.created_at

unfoldable pub fresh_entry : InstrumentationConfiguration → RegistryEntry
fresh_entry config = record {
  config = config;
  state =
      new_state config.location_hash config.max_hits config.expires_at config.instrumentation_type
        5;
}

-- The entry that `register` leaves under the key.
pub registered : Option RegistryEntry → InstrumentationConfiguration → RegistryEntry
registered none config = fresh_entry config
registered (some old) config =
    if is_unchanged old.config config then record old { config = config } else fresh_entry config

unfoldable pub register : Registry → InstrumentationConfiguration → Registry
unfolding registered fresh_entry is_unchanged same_time
register entries config =
    let key = compute_registry_key config in
    insert key (registered (lookup key entries) config) entries

unfoldable pub unregister : Registry → String → Option RegistryEntry × Registry
unregister entries key = (lookup key entries, erase key entries)

unfoldable pub get_by_location_hash : Registry → String → Option RegistryEntry
get_by_location_hash [] hash = none
get_by_location_hash ((key, entry) ∷ entries) hash =
    if entry.config.location_hash == hash then some entry else get_by_location_hash entries hash

installed_entry : RegistryEntry → RegistryEntry
installed_entry entry = record entry { state = installed_state }
  where
    installed_state : InstrumentationState
    installed_state = record (entry.state) { installed = true }

mark_if : String → Option RegistryEntry → Registry → Registry
mark_if key none entries = entries
mark_if key (some entry) entries = insert key (installed_entry entry) entries

unfoldable pub mark_installed : Registry → String → Registry
unfolding mark_if installed_entry
mark_installed entries key = mark_if key (lookup key entries) entries

unfoldable pub get_all_keys : Registry → List String
get_all_keys = map (λ e. e.0)

pub record Diff : Type 0 where
  pub to_add : List InstrumentationConfiguration
  pub to_remove : List String
  pub unchanged : List String

-- `newKeyMap`: the last configuration of a key wins, at the place of the first.
unfoldable pub key_map :
    List (String × InstrumentationConfiguration)
    → List InstrumentationConfiguration
    → List (String × InstrumentationConfiguration)
key_map m [] = m
key_map m (config ∷ configs) = key_map (insert (compute_registry_key config) config m) configs

pub removed_keys : List (String × InstrumentationConfiguration) → List String → List String
removed_keys new [] = []
removed_keys new (key ∷ keys) =
    if has_key key new then removed_keys new keys else key ∷ removed_keys new keys

-- One round of the second loop.
pub classify : Option RegistryEntry → String → InstrumentationConfiguration → Diff → Diff
classify none key config d = record d { to_add = d.to_add ++ config ∷ [] }
classify (some old) key config d =
    if is_unchanged old.config config
    then record d { unchanged = d.unchanged ++ key ∷ [] }
    else record d { to_remove = d.to_remove ++ key ∷ []; to_add = d.to_add ++ config ∷ [] }

pub classify_all : Registry → List (String × InstrumentationConfiguration) → Diff → Diff
classify_all entries [] d = d
classify_all entries ((key, config) ∷ new) d =
    classify_all entries new (classify (lookup key entries) key config d)

unfoldable pub compute_diff : Registry → List InstrumentationConfiguration → Diff
unfolding key_map removed_keys classify classify_all is_unchanged same_time
compute_diff entries new_configs =
    let new = key_map [] new_configs in
    classify_all entries new
      (record { to_add = []; to_remove = removed_keys new (get_all_keys entries); unchanged = [] })

pub unregister_all : Registry → List String → Registry
unregister_all entries [] = entries
unregister_all entries (key ∷ keys) = unregister_all (unregister entries key).1 keys

pub register_all : Registry → List InstrumentationConfiguration → Registry
register_all entries [] = entries
register_all entries (config ∷ configs) = register_all (register entries config) configs

-- `onProbeBreakpointConfigs` of worker.ts, as far as the registry goes: no breakpoint call fails.
unfoldable pub apply_configs : Registry → List InstrumentationConfiguration → Registry
unfolding unregister_all register_all
apply_configs entries configs =
    let diff = compute_diff entries configs in
    register_all (unregister_all entries diff.to_remove) diff.to_add
