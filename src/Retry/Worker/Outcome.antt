-- ===== src/Retry/Worker/Outcome.antt =====
-- What one retry leaves behind, whichever requests fail on the way.
use citrineos_ocpi.Prelude.{
  ℕ, ◌+◌, ◌≡◌, ◌⊎◌, inl, inr, Bool, true, false, String, Option, none, some, ◌⧺◌, arith, sym, ap,
  ◌∙◌,
}
use citrineos_ocpi.Exec.{Thrown, Result, ok, err}
use citrineos_ocpi.Retry.Backoff.{compute_gireve_next_retry_at}
use citrineos_ocpi.Retry.Queue.{Item, reschedule_gireve_retry}
use citrineos_ocpi.Retry.World.{Env, World, read_clock, request, Fault-cases}
use citrineos_ocpi.Retry.Outbox.{backoff_options, reschedule}
use citrineos_ocpi.Retry.Worker.{retry_with, retry_one, partner_profile}
use citrineos_ocpi.Retry.Worker.Rows.{rescheduled_rows}
use citrineos_ocpi.Retry.Worker.Frames.{PutBack}
use citrineos_ocpi.Retry.Worker.Delivery.{Succeeded, retry_delivery-true, retry_delivery-false}

module _ (env : Env) where
  module _ (item : Item) (w : World) where
    -- `retryOne` up to the look-up of the partner.
    abbrev looked_up : World
    looked_up = record w { clock_reads = w.clock_reads + 1; requests = w.requests + 1 }

    abbrev pub next_attempt : ℕ
    next_attempt = item.attempt_count + 1

    abbrev pub next_attempt_at : ℕ
    next_attempt_at =
        compute_gireve_next_retry_at next_attempt (backoff_options env) (env.time w.clock_reads)

    abbrev profile : Option String
    profile = partner_profile (env.partner_by_id item.key.partner_tenant_partner_id)

    abbrev rest_of_retry : Option String → Result Bool × World
    rest_of_retry p = retry_with env item next_attempt next_attempt_at p looked_up

    retry_one_lookup :
        ((e : Thrown) × ((retry_one env item w).0 ≡ err e))
        ⊎ (retry_one env item w ≡ rest_of_retry profile)
    unfolding retry_one read_clock request
    retry_one_lookup = elim (Fault-cases (env.fault w.requests)) [
      | inl h ↦ inr (rw h)
      | inr (inl (e, h)) ↦ inl (e, rw h)
      | inr (inr (e, h)) ↦ inl (e, rw h)
    ]

    rest_of_retry-true :
        (p : Option String)
        → (rest_of_retry p).0 ≡ ok true
        → Succeeded env item next_attempt next_attempt_at w (rest_of_retry p).1
    unfolding retry_with
    rest_of_retry-true none h = absurd (ground arith)
    rest_of_retry-true (some p) h =
        retry_delivery-true env item next_attempt next_attempt_at looked_up h

    abbrev not_found : String
    not_found =
        "Gireve retry: tenantPartner not found for id="
        ⧺ env.number_text item.key.partner_tenant_partner_id

    not_found-table :
        (rest_of_retry none).0 ≡ ok false
        → (rest_of_retry none).1.table
          ≡ reschedule_gireve_retry item.id next_attempt next_attempt_at not_found w.table
    unfolding retry_with reschedule request
    not_found-table h = ground arith

    rest_of_retry-false :
        (p : Option String)
        → (rest_of_retry p).0 ≡ ok false
        → PutBack env item next_attempt next_attempt_at w (rest_of_retry p).1
    unfolding retry_with
    rest_of_retry-false none h = inl (
      not_found,
      rw (not_found-table h)
          (rescheduled_rows item.id next_attempt next_attempt_at not_found w.table),
    )
    rest_of_retry-false (some p) h =
        retry_delivery-false env item next_attempt next_attempt_at looked_up h

    -- A retry that reports success pushed the item through the client of its module and got an
    -- answer. The row of the item, if it is still in processing, then counts as sent, at an instant of
    -- the clock, without a lock or an error; every other row is as it was, one of the item that has
    -- left processing meanwhile included.
    pub retry_one-true :
        (retry_one env item w).0 ≡ ok true
        → Succeeded env item next_attempt next_attempt_at w (retry_one env item w).1
    retry_one-true h = elim retry_one_lookup [
      | inl (e, f) ↦ absurd (cc (f, h))
      | inr same ↦ rw same (rest_of_retry-true profile (ap (λ r. r.0) (sym same) ∙ h))
    ]

    pub retry_one-false :
        (retry_one env item w).0 ≡ ok false
        → PutBack env item next_attempt next_attempt_at w (retry_one env item w).1
    retry_one-false h = elim retry_one_lookup [
      | inl (e, f) ↦ absurd (cc (f, h))
      | inr same ↦ rw same (rest_of_retry-false profile (ap (λ r. r.0) (sym same) ∙ h))
    ]
