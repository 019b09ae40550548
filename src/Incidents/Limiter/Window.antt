-- ===== src/Incidents/Limiter/Window.antt =====
-- What the limiters of serviceevents/collectors/incident-snapshot-collector.ts remember of a window
-- of 60 seconds that an attempt may still fall in.
use aws_otel_js_instrumentat.Prelude.{
  ℕ, ◌+◌, ◌≤◌, Bool, true, false, ◌&&◌, List, [], ◌∷◌, ◌++◌, String, length, keep_if, is_empty, leb,
  if◌then◌else◌, lookup, insert, has_key, IsMap, ◌==◌, string_test, ◌≡◌, refl, arith, lookup-insert,
  lookup-has_key,
}
use aws_otel_js_instrumentat.Incidents.Limiter.{period_ms, recent, prune, timestamps_of}

abbrev pub in_window : ℕ → ℕ → Bool
in_window w t = leb w t && leb t (w + period_ms)

abbrev pub count : ℕ → List ℕ → ℕ
count w ts = length (keep_if (in_window w) ts)

pub count-append :
    (w t : ℕ) (ts : List ℕ)
    → count w (ts ++ (t ∷ [])) ≡ count w ts + (if in_window w t then 1 else 0)
count-append w t [] = ground arith
count-append w t (s ∷ ts) = ground (arith, count-append w t ts)

-- Pruning at a time inside the window drops nothing of it.
pub count-recent :
    (w now : ℕ) (ts : List ℕ) → now ≤ w + period_ms → count w (keep_if (recent now) ts) ≡ count w ts
count-recent w now [] h = refl
count-recent w now (t ∷ ts) h = ground (arith, count-recent w now ts h)

pub has_key-prune :
    (now : ℕ) (hash : String) (m : List (String × List ℕ))
    → has_key hash m ≡ false
    → has_key hash (prune now m) ≡ false
unfolding has_key prune
has_key-prune now hash [] h = refl
has_key-prune now hash ((k, ts) ∷ m) h = ground (arith, has_key-prune now hash m)

pub prune-IsMap : (now : ℕ) (m : List (String × List ℕ)) → IsMap m → IsMap (prune now m)
unfolding prune has_key
prune-IsMap now [] h = tt
prune-IsMap now ((k, ts) ∷ m) h = ground (arith, prune-IsMap now m h.1, has_key-prune now k m h.0)

pub is_empty_nil : (ts : List ℕ) → is_empty ts ≡ true → ts ≡ []
is_empty_nil [] h = refl
is_empty_nil (t ∷ ts) h = ground arith

timestamps_of_absent :
    (hash : String) (m : List (String × List ℕ))
    → has_key hash m ≡ false
    → timestamps_of hash m ≡ []
timestamps_of_absent hash m h = ground (arith, lookup-has_key hash m h)

prune_step :
    (now : ℕ) (k hash : String) (ts kept : List ℕ) (m : List (String × List ℕ))
    → has_key k m ≡ false
    → timestamps_of hash m ≡ kept
    → timestamps_of hash (if is_empty ts then m else (k, ts) ∷ m) ≡ (if k == hash then ts else kept)
unfolding lookup
prune_step now k hash ts kept m absent e =
    ground (arith, string_test.same_iff k hash, is_empty_nil ts, timestamps_of_absent k m absent)

pub timestamps_of-prune :
    (now : ℕ) (hash : String) (m : List (String × List ℕ))
    → IsMap m
    → timestamps_of hash (prune now m) ≡ keep_if (recent now) (timestamps_of hash m)
unfolding prune lookup
timestamps_of-prune now hash [] h = refl
timestamps_of-prune now hash ((k, ts) ∷ m) h = ground (
  arith,
  timestamps_of-prune now hash m h.1,
  prune_step now k hash (keep_if (recent now) ts) _ (prune now m) (has_key-prune now k m h.0) refl,
)

pub timestamps_of-insert :
    (hash other : String) (ts : List ℕ) (m : List (String × List ℕ))
    → timestamps_of other (insert hash ts m) ≡ (if hash == other then ts else timestamps_of other m)
timestamps_of-insert hash other ts m = ground (arith, lookup-insert hash other ts m)
