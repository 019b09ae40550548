-- ===== src/DynamicInstrumentation/Registry/Classify.antt =====
-- The lists that `computeDiff` builds, key by key
-- (dynamic-instrumentation/registry/instrumentation-registry.ts).
use text.Mathlib.TextEquality.{eq_iff}
use aws_otel_js_instrumentat.Prelude.{
  string_test, Bool, false, ◌&&◌, ◌||◌, not, Option, none, some, List, [], ◌∷◌, ◌++◌, String, ◌==◌,
  if◌then◌else◌, lookup, insert, has_key, IsMap, ◌≡◌, refl, sym, ap, ◌∙◌, arith, append-nil,
  append_assoc, insert-IsMap, lookup-has_key,
}
use aws_otel_js_instrumentat.DynamicInstrumentation.Configuration.{
  InstrumentationConfiguration, compute_registry_key,
}
use aws_otel_js_instrumentat.DynamicInstrumentation.Registry.{
  RegistryEntry, Registry, Diff, is_unchanged, key_map, removed_keys, classify, classify_all,
}

abbrev pub Config : Type 0
Config = InstrumentationConfiguration

-- Configurations filed under their own keys.
abbrev pub IsKeyed : List (String × Config) → Type 0
IsKeyed [] = Unit {0}
IsKeyed ((key, config) ∷ m) = (compute_registry_key config ≡ key) × IsKeyed m

abbrev pub by_key : List Config → List (String × Config)
by_key [] = []
by_key (config ∷ configs) = (compute_registry_key config, config) ∷ by_key configs

abbrev pub elem : String → List String → Bool
elem k [] = false
elem k (j ∷ js) = j == k || elem k js

pub elem-append : (k : String) (xs ys : List String) → elem k (xs ++ ys) ≡ (elem k xs || elem k ys)
elem-append k [] ys = refl
elem-append k (x ∷ xs) ys = ground (arith, elem-append k xs ys)

pub insert-IsKeyed :
    (key : String) (config : Config) (m : List (String × Config))
    → compute_registry_key config ≡ key
    → IsKeyed m
    → IsKeyed (insert key config m)
unfolding insert
insert-IsKeyed key config [] e h = (e, tt)
insert-IsKeyed key config ((j, c) ∷ m) e h =
    ground (arith, eq_iff j key, insert-IsKeyed key config m e h.1)

pub key_map-IsKeyed :
    (m : List (String × Config)) (cs : List Config) → IsKeyed m → IsKeyed (key_map m cs)
unfolding key_map
key_map-IsKeyed m [] h = h
key_map-IsKeyed m (c ∷ cs) h =
    key_map-IsKeyed (insert (compute_registry_key c) c m) cs
      (insert-IsKeyed (compute_registry_key c) c m refl h)

pub key_map-IsMap : (m : List (String × Config)) (cs : List Config) → IsMap m → IsMap (key_map m cs)
unfolding key_map
key_map-IsMap m [] h = h
key_map-IsMap m (c ∷ cs) h =
    key_map-IsMap (insert (compute_registry_key c) c m) cs
      (insert-IsMap (compute_registry_key c) c m h)

-- What the second loop of `computeDiff` adds and removes, as lists of their own.
abbrev pub add_one_of : Option RegistryEntry → Config → List Config
add_one_of none c = c ∷ []
add_one_of (some old) c = if is_unchanged old.config c then [] else c ∷ []

abbrev pub remove_one_of : Option RegistryEntry → String → Config → List String
remove_one_of none k c = []
remove_one_of (some old) k c = if is_unchanged old.config c then [] else k ∷ []

abbrev pub adds : Registry → List (String × Config) → List Config
adds m [] = []
adds m ((k, c) ∷ new) = add_one_of (lookup k m) c ++ adds m new

abbrev pub changes : Registry → List (String × Config) → List String
changes m [] = []
changes m ((k, c) ∷ new) = remove_one_of (lookup k m) k c ++ changes m new

pub classify-lists :
    (o : Option RegistryEntry) (k : String) (c : Config) (d : Diff)
    → ((classify o k c d).to_add ≡ d.to_add ++ add_one_of o c)
      × ((classify o k c d).to_remove ≡ d.to_remove ++ remove_one_of o k c)
unfolding classify
classify-lists none k c d = (refl, sym (append-nil d.to_remove))
classify-lists (some old) k c d = ground (arith, append-nil d.to_add, append-nil d.to_remove)

pub classify_all-lists :
    (m : Registry) (new : List (String × Config)) (d : Diff)
    → ((classify_all m new d).to_add ≡ d.to_add ++ adds m new)
      × ((classify_all m new d).to_remove ≡ d.to_remove ++ changes m new)
unfolding classify_all
classify_all-lists m [] d = (sym (append-nil d.to_add), sym (append-nil d.to_remove))
classify_all-lists m ((k, c) ∷ new) d =
    let (a, r) = classify-lists (lookup k m) k c d in
    let (a', r') = classify_all-lists m new (classify (lookup k m) k c d) in
    (
      a'
          ∙ ap (λ xs. xs ++ adds m new) a
          ∙ append_assoc d.to_add (add_one_of (lookup k m) c) (adds m new),
      r'
          ∙ ap (λ xs. xs ++ changes m new) r
          ∙ append_assoc d.to_remove (remove_one_of (lookup k m) k c) (changes m new),
    )

-- Which configuration of the list is added under a key, and which key is removed.
abbrev pub added : Option RegistryEntry → Option Config → Option Config
added o none = none
added none (some c) = some c
added (some old) (some c) = if is_unchanged old.config c then none else some c

abbrev pub changed : Option RegistryEntry → Option Config → Bool
changed o none = false
changed none (some c) = false
changed (some old) (some c) = not (is_unchanged old.config c)

pub has_key-adds :
    (k : String) (m : Registry) (new : List (String × Config))
    → IsKeyed new
    → has_key k new ≡ false
    → has_key k (by_key (adds m new)) ≡ false
unfolding has_key
has_key-adds k m [] h e = refl
has_key-adds k m ((j, c) ∷ new) h e = ground (arith, has_key-adds k m new h.1, eq_iff j k)

pub adds-IsMap :
    (m : Registry) (new : List (String × Config))
    → IsKeyed new
    → IsMap new
    → IsMap (by_key (adds m new))
adds-IsMap m [] h u = tt
adds-IsMap m ((j, c) ∷ new) h u =
    ground (arith, has_key-adds j m new h.1 u.0, adds-IsMap m new h.1 u.1)

pub lookup-adds :
    (k : String) (m : Registry) (new : List (String × Config))
    → IsKeyed new
    → IsMap new
    → lookup k (by_key (adds m new)) ≡ added (lookup k m) (lookup k new)
unfolding lookup
lookup-adds k m [] h u = refl
lookup-adds k m ((j, c) ∷ new) h u =
    ground (arith, eq_iff j k, lookup-adds k m new h.1 u.1, lookup-has_key j new u.0)

pub elem-changes :
    (k : String) (m : Registry) (new : List (String × Config))
    → IsMap new
    → elem k (changes m new) ≡ changed (lookup k m) (lookup k new)
unfolding lookup
elem-changes k m [] u = refl
elem-changes k m ((j, c) ∷ new) u =
    ground (arith, eq_iff j k, elem-changes k m new u.1, lookup-has_key j new u.0)

pub elem-removed_keys :
    (k : String) (new : List (String × Config)) (keys : List String)
    → elem k (removed_keys new keys) ≡ (elem k keys && not (has_key k new))
unfolding removed_keys
elem-removed_keys k new [] = refl
elem-removed_keys k new (j ∷ keys) = ground (arith, eq_iff j k, elem-removed_keys k new keys)
