-- ===== src/Retry/Worker/Rows.antt =====
-- The rows that the end of a retry changes, by their columns.
use citrineos_ocpi.Prelude.{
  ℕ, ◌≡◌, ◌≢◌, refl, ap, ◌⊎◌, inl, inr, true, false, String, none, some, [], ◌∷◌, arith, Bool-cases,
}
use citrineos_ocpi.Retry.Queue.Settled.{IsReleased, Settled}
use citrineos_ocpi.Retry.Queue.{
  Row, Table, Status, status_eq, in_processing, mark_gireve_retry_sent, reschedule_gireve_retry,
}

-- The row has this id, and a run of the worker holds it.
abbrev pub IsHeld : ℕ → Row → Type 0
IsHeld id r = (r.id ≡ id) × (r.status ≡ Status.processing)

-- Row by row: the held one with this id changed so, every other one is as it was.
abbrev pub EachHeld : (Row → Row → Type 0) → ℕ → Table → Table → Type 0
EachHeld P id [] [] = Unit
EachHeld P id (r ∷ rs) (s ∷ ss) =
    ((IsHeld id r × P r s) ⊎ ((¬ IsHeld id r) × (s ≡ r))) × EachHeld P id rs ss
EachHeld P id _ _ = ⊥

-- The row counts as sent at this instant, without a lock or an error.
abbrev pub SentAt : ℕ → Row → Row → Type 0
SentAt now r s =
    (s.status ≡ Status.sent)
    × (s.sent_at ≡ some now)
    × (s.last_error ≡ none)
    × (s.locked_at ≡ none)
    × (s.item ≡ r.item)

-- The row waits again, with these attempts, this due time and this error, and without a lock; what
-- there is to push is as it was.
abbrev pub WaitsAgain : ℕ → ℕ → String → Row → Row → Type 0
WaitsAgain attempt_count next_retry_at last_error r s =
    (s.status ≡ Status.pending)
    × (s.attempt_count ≡ attempt_count)
    × (s.next_retry_at ≡ next_retry_at)
    × (s.last_error ≡ some last_error)
    × (s.locked_at ≡ none)
    × ((s.id ≡ r.id) × (s.key ≡ r.key) × (s.payload ≡ r.payload) × (s.ocpi_path ≡ r.ocpi_path))

in_processing-IsHeld : (id : ℕ) (r : Row) → in_processing id r ≡ true → IsHeld id r
unfolding status_eq
in_processing-IsHeld id r h = ground (arith, h)

in_processing-not_IsHeld : (id : ℕ) (r : Row) → in_processing id r ≡ false → ¬ IsHeld id r
unfolding status_eq
in_processing-not_IsHeld id r h (i, p) = ground (arith, h, i, p)

pub marked_rows :
    (id now : ℕ) (t : Table) → EachHeld (SentAt now) id t (mark_gireve_retry_sent id now t)
unfolding mark_gireve_retry_sent
marked_rows id now [] = tt
marked_rows id now (r ∷ t) = elim (Bool-cases (in_processing id r)) [
  | inl e ↦
      rw e (inl (in_processing-IsHeld id r e, (refl, refl, refl, refl, refl)), marked_rows id now t)
  | inr e ↦ rw e (inr (in_processing-not_IsHeld id r e, refl), marked_rows id now t)
]

pub rescheduled_rows :
    (id n at : ℕ) (e : String) (t : Table)
    → EachHeld (WaitsAgain n at e) id t (reschedule_gireve_retry id n at e t)
unfolding reschedule_gireve_retry
rescheduled_rows id n at e [] = tt
rescheduled_rows id n at e (r ∷ t) = elim (Bool-cases (in_processing id r)) [
  | inl h ↦ rw h (
    inl (in_processing-IsHeld id r h, (refl, refl, refl, refl, refl, (refl, refl, refl, refl))),
    rescheduled_rows id n at e t,
  )
  | inr h ↦ rw h (inr (in_processing-not_IsHeld id r h, refl), rescheduled_rows id n at e t)
]

-- Once a row is marked as sent, the reschedule of its id changes nothing.
pub rescheduled_marked :
    (id now n at : ℕ) (e : String) (t : Table)
    → reschedule_gireve_retry id n at e (mark_gireve_retry_sent id now t)
      ≡ mark_gireve_retry_sent id now t
unfolding mark_gireve_retry_sent reschedule_gireve_retry status_eq
rescheduled_marked id now n at e [] = refl
rescheduled_marked id now n at e (r ∷ t) = ground (arith, rescheduled_marked id now n at e t)

left-IsReleased :
    (j : ℕ) (r s : Row) → (s.id ≡ r.id) × (s.status ≢ Status.processing) → IsReleased j s
unfolding status_eq
left-IsReleased j r s h = ground (arith, h)

other-IsReleased : (id : ℕ) (r : Row) → ¬ IsHeld id r → IsReleased id r
unfolding status_eq
other-IsReleased id r n = elim (Bool-cases (in_processing id r)) [
  | inl e ↦ absurd (n (in_processing-IsHeld id r e))
  | inr e ↦ e
]

-- A change that takes the held rows out of processing settles their id, and undoes no other.
pub EachHeld-Settled :
    (P : Row → Row → Type 0)
    → ((r s : Row) → P r s → (s.id ≡ r.id) × (s.status ≢ Status.processing))
    → (j id : ℕ) (old new : Table) → EachHeld P id old new
    → (Settled j old → Settled j new) × Settled id new
EachHeld-Settled P left j id [] [] h = (λ s. tt, tt)
EachHeld-Settled P left j id [] (s ∷ ss) h = absurd h
EachHeld-Settled P left j id (r ∷ rs) [] h = absurd h
EachHeld-Settled P left j id (r ∷ rs) (s ∷ ss) (inl (held, p), h) =
    let rest = EachHeld-Settled P left j id rs ss h in
    (
      λ old. (left-IsReleased j r s (left r s p), rest.0 old.1),
      (left-IsReleased id r s (left r s p), rest.1),
    )
EachHeld-Settled P left j id (r ∷ rs) (s ∷ ss) (inr (other, same), h) =
    let rest = EachHeld-Settled P left j id rs ss h in
    (λ old. (rw same old.0, rest.0 old.1), (rw same (other-IsReleased id r other), rest.1))

pub SentAt-leaves :
    (now : ℕ) (r s : Row) → SentAt now r s → (s.id ≡ r.id) × (s.status ≢ Status.processing)
SentAt-leaves now r s (status, at, error, lock, item) = (ap (λ i. i.id) item, λ e. cc (e, status))

pub WaitsAgain-leaves :
    (n at : ℕ) (e : String) (r s : Row)
    → WaitsAgain n at e r s
    → (s.id ≡ r.id) × (s.status ≢ Status.processing)
WaitsAgain-leaves n at e r s h = (h.5.0, λ p. cc (p, h.0))
