-- ===== src/Incidents/Collector/Owners.antt =====
-- Maps from error hashes to addresses of objects, each object held under one hash: the two indexes
-- of serviceevents/collectors/incident-snapshot-collector.ts.
use aws_otel_js_instrumentat.Prelude.{
  ℕ, suc, ◌≤◌, ◌<◌, Option, none, some, String, if◌then◌else◌, ◌==◌, string_test, ◌≡◌, arith,
}

abbrev pub IsBelow : ℕ → (String → Option ℕ) → Type 0
IsBelow n f = (hash : String) (a : ℕ) → f hash ≡ some a → a < n

abbrev pub IsInjective : (String → Option ℕ) → Type 0
IsInjective f = (hash other : String) (a : ℕ) → f hash ≡ some a → f other ≡ some a → hash ≡ other

pub IsBelow-more : (n m : ℕ) (f : String → Option ℕ) → n ≤ m → IsBelow n f → IsBelow m f
IsBelow-more n m f le below hash a e = ground (arith, below hash a e)

-- A new object under one hash.
pub IsBelow-set :
    (n a : ℕ) (hash : String) (f g : String → Option ℕ)
    → n ≤ a
    → ((other : String) → g other ≡ (if hash == other then some a else f other))
    → IsBelow n f
    → IsBelow (suc a) g
IsBelow-set n a hash f g le e below other b h = ground (arith, e other, below other b)

pub IsInjective-set :
    (n a : ℕ) (hash : String) (f g : String → Option ℕ)
    → n ≤ a
    → ((other : String) → g other ≡ (if hash == other then some a else f other))
    → IsBelow n f
    → IsInjective f
    → IsInjective g
IsInjective-set n a hash f g le e below inj j k b h1 h2 = ground (
  arith,
  string_test.same_iff hash j,
  string_test.same_iff hash k,
  e j,
  e k,
  below j b,
  below k b,
  inj j k b,
)

-- One hash forgotten.
pub IsBelow-unset :
    (n : ℕ) (hash : String) (f g : String → Option ℕ)
    → ((other : String) → g other ≡ (if hash == other then none else f other))
    → IsBelow n f
    → IsBelow n g
IsBelow-unset n hash f g e below other b h = ground (arith, e other, below other b)

pub IsInjective-unset :
    (hash : String) (f g : String → Option ℕ)
    → ((other : String) → g other ≡ (if hash == other then none else f other))
    → IsInjective f
    → IsInjective g
IsInjective-unset hash f g e inj j k b h1 h2 = ground (arith, e j, e k, inj j k b)
