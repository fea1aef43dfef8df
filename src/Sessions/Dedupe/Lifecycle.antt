-- ===== src/Sessions/Dedupe/Lifecycle.antt =====
-- The life of a push: in flight, then sent or failed, until the session is cleared.
use text.Mathlib.TextPositions.{eq_refl}
use text.Mathlib.TextPositions.{starts_with-append}
use citrineos_ocpi.Prelude.{
  ℕ, String, ◌≡◌, refl, ◌≢◌, true, false, ◌||◌, not, none, some, List, [], ◌∷◌, arith, eq_iff,
  str_eq, if◌then◌else◌, ◌⧺◌, Bool-cases, inl, inr,
}
use citrineos_ocpi.Model.{HttpMethod}
use citrineos_ocpi.Sessions.Dedupe.{
  Texts, SessionBody, Dedupe, get, set, has, add, remove, has_prefix, clear_map, clear_set, key,
  fingerprint, should_broadcast, mark_in_flight, mark_sent, mark_failed, clear,
}

pub get-set :
    (k j v : String) (m : List (String × String))
    → get j (set k v m) ≡ (if str_eq k j then some v else get j m)
unfolding get set
get-set k j v [] = refl
get-set k j v ((i, w) ∷ m) = ground (arith, eq_iff i k, eq_iff i j, eq_iff k j, get-set k j v m)

has_found : (k j : String) (s : List String) → has k s ≡ true → has j s ≡ (str_eq k j || has j s)
has_found k j s e = ground (arith, eq_iff k j)

pub has-add : (k j : String) (s : List String) → has j (add k s) ≡ (str_eq k j || has j s)
unfolding add
has-add k j s = elim (Bool-cases (has k s)) [ inl e ↦ rw e (has_found k j s e) | inr e ↦ rw e refl ]

pub has-remove :
    (k j : String) (s : List String) → has j (remove k s) ≡ (if str_eq k j then false else has j s)
unfolding has remove
has-remove k j [] = ground arith
has-remove k j (i ∷ s) = ground (arith, eq_iff i k, eq_iff i j, eq_iff k j, has-remove k j s)

-- A key that starts with the prefix is gone after a clear; every other stays.
pub get-clear_map :
    (prefix j : String) (m : List (String × String))
    → get j (clear_map prefix m) ≡ (if has_prefix j prefix then none else get j m)
unfolding get clear_map
get-clear_map prefix j [] = ground arith
get-clear_map prefix j ((i, v) ∷ m) = ground (arith, eq_iff i j, get-clear_map prefix j m)

pub has-clear_set :
    (prefix j : String) (s : List String)
    → has j (clear_set prefix s) ≡ (if has_prefix j prefix then false else has j s)
unfolding has clear_set
has-clear_set prefix j [] = ground arith
has-clear_set prefix j (i ∷ s) = ground (arith, eq_iff i j, has-clear_set prefix j s)

pub own_prefix :
    (texts : Texts) (tx : String) (p : ℕ) (m : HttpMethod)
    → has_prefix (key texts tx p m) (tx ⧺ ":") ≡ true
unfolding has_prefix key
own_prefix texts tx p m = starts_with-append (tx ⧺ ":") _

module _ (texts : Texts) (s : Dedupe) (tx : String) (p : ℕ) (m : HttpMethod) where
  -- While a push of a key is in flight no body is broadcast under it; once it is marked as sent, a
  -- body is broadcast exactly when its fingerprint differs from that of the body that was sent.
  pub sent_once :
      (body next : SessionBody)
      → (should_broadcast texts (mark_in_flight texts s tx p m) tx p m next ≡ false)
        × (should_broadcast texts (mark_sent texts s tx p m body) tx p m next
            ≡ not (str_eq (fingerprint texts body) (fingerprint texts next)))
  unfolding should_broadcast mark_in_flight mark_sent
  sent_once body next =
      let k = key texts tx p m in
      (
        simp (has-add, eq_refl),
        ground (
          arith,
          has-remove k k s.in_flight,
          get-set k k (fingerprint texts body) s.last_fingerprint,
          eq_iff k k,
        ),
      )

  -- A push that failed can be tried again: a body that was to be broadcast before it went in flight
  -- is so again after the failure.
  pub failed_retries :
      (body : SessionBody)
      → should_broadcast texts s tx p m body ≡ true
      → should_broadcast texts
          (mark_failed texts (mark_in_flight texts s tx p m) tx p m)
          tx
          p
          m
          body
        ≡ true
  unfolding should_broadcast mark_in_flight mark_failed
  failed_retries body h =
      let k = key texts tx p m in ground (arith, has-remove k k (add k s.in_flight), eq_iff k k)

  -- Clearing a transaction lets every body of it be broadcast, to any partner by any method; a key
  -- that does not begin with its id and a colon is treated as before.
  clear_forgets :
      (other : String) (q : ℕ) (n : HttpMethod) (body next : SessionBody)
      → has_prefix (key texts other q n) (tx ⧺ ":") ≡ false
      → (should_broadcast texts (clear s tx) tx p m body ≡ true)
        × (should_broadcast texts (clear s tx) other q n next
            ≡ should_broadcast texts s other q n next)
  unfolding should_broadcast clear
  clear_forgets other q n body next h =
      let k = key texts tx p m in
      let j = key texts other q n in
      (
        ground (
          arith,
          own_prefix texts tx p m,
          has-clear_set (tx ⧺ ":") k s.in_flight,
          get-clear_map (tx ⧺ ":") k s.last_fingerprint,
        ),
        ground (
          arith,
          has-clear_set (tx ⧺ ":") j s.in_flight,
          get-clear_map (tx ⧺ ":") j s.last_fingerprint,
        ),
      )

  -- Marking a push as in flight, sent or failed changes nothing for any other key.
  others_unchanged :
      (other : String) (q : ℕ) (n : HttpMethod) (body next : SessionBody)
      → key texts tx p m ≢ key texts other q n
      → let before = should_broadcast texts s other q n next in
        (should_broadcast texts (mark_in_flight texts s tx p m) other q n next ≡ before)
        × (should_broadcast texts (mark_sent texts s tx p m body) other q n next ≡ before)
        × (should_broadcast texts (mark_failed texts s tx p m) other q n next ≡ before)
  unfolding should_broadcast mark_in_flight mark_sent mark_failed
  others_unchanged other q n body next ne =
      let k = key texts tx p m in
      let j = key texts other q n in
      (
        ground (arith, has-add k j s.in_flight, eq_iff k j),
        ground (
          arith,
          has-remove k j s.in_flight,
          get-set k j (fingerprint texts body) s.last_fingerprint,
          eq_iff k j,
        ),
        ground (arith, has-remove k j s.in_flight, eq_iff k j),
      )
