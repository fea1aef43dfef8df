-- ===== src/Retry/Worker/Completes.antt =====
-- With a database that answers, a run of the worker always comes to its end, whatever the partner's
-- server does.
use citrineos_ocpi.Prelude.{
  ℕ, ◌+◌, ◌≡◌, refl, inl, inr, Bool, true, false, Option, none, some, List, [], ◌∷◌, if◌then◌else◌,
  String, length,
}
use citrineos_ocpi.Exec.{Thrown, ok, Result-cases}
use citrineos_ocpi.Retry.Queue.{Item}
use citrineos_ocpi.Retry.World.{Env, World, no_fault, request, read_clock}
use citrineos_ocpi.Retry.Outbox.{mark_sent, reschedule, release_stale_locks, claim_due_retries}
use citrineos_ocpi.Retry.Worker.{
  GireveRetryRunResult, deliver, reschedule_failed, retry_delivery, retry_with, retry_one,
  retry_all, run_claimed, run_once,
}

module _ (env : Env) (answers : (n : ℕ) → env.fault n ≡ no_fault) where
  mark_sent_returns : (id : ℕ) (w : World) → (mark_sent env id w).0 ≡ ok tt
  unfolding mark_sent read_clock request
  mark_sent_returns id w = rw (answers w.requests)

  reschedule_failed_returns :
      (item : Item) (n at : ℕ) (e : Thrown) (w : World)
      → (reschedule_failed env item n at e w).0 ≡ ok false
  unfolding reschedule_failed reschedule request
  reschedule_failed_returns item n at e w = rw (answers w.requests)

  retry_delivery_returns :
      (item : Item) (n at : ℕ) (w : World)
      → (b : Bool) × ((retry_delivery env item n at w).0 ≡ ok b)
  unfolding retry_delivery
  retry_delivery_returns item n at w =
      elim (Result-cases (deliver env item.key.module_id item w).0) [
        | inl (u, d) ↦
            (true, rw (d, mark_sent_returns item.id (deliver env item.key.module_id item w).1))
        | inr (e, d) ↦ (false, rw d (reschedule_failed_returns item n at e _))
      ]

  retry_with_returns :
      (item : Item) (n at : ℕ) (p : Option String) (w : World)
      → (b : Bool) × ((retry_with env item n at p w).0 ≡ ok b)
  unfolding retry_with reschedule request
  retry_with_returns item n at none w = (false, rw (answers w.requests))
  retry_with_returns item n at (some p) w = retry_delivery_returns item n at w

  -- One retry returns: true, or false when it could not deliver.
  retry_one_returns : (item : Item) (w : World) → (b : Bool) × ((retry_one env item w).0 ≡ ok b)
  unfolding retry_one read_clock request
  retry_one_returns item w = rw (answers w.requests) (retry_with_returns item _ _ _ _)

  retry_all_returns :
      (items : List Item) (s f : ℕ) (w : World)
      → (counts : ℕ × ℕ) × ((retry_all env items s f w).0 ≡ ok counts)
  unfolding retry_all
  retry_all_returns [] s f w = ((s, f), refl)
  retry_all_returns (item ∷ items) s f w =
      let (b, d) = retry_one_returns item w in
      let (counts, e) =
        retry_all_returns items (if b then s + 1 else s) (if b then f else f + 1)
          (retry_one env item w).1 in
      (counts, rw d e)

  run_claimed_returns :
      (released : ℕ) (items : List Item) (w : World)
      → (r : GireveRetryRunResult) × ((run_claimed env released items w).0 ≡ ok r)
  unfolding run_claimed
  run_claimed_returns released items w =
      let (counts, e) = retry_all_returns items 0 0 w in
      (
        record {
          processed = length items;
          succeeded = counts.0;
          failed = counts.1;
          stale_locks_released = released;
        },
        rw e,
      )

  -- With a database that answers every request, a run returns a report, whatever the partner's
  -- server answers and whatever was claimed.
  pub run_once_returns :
      (requested : Option ℕ) (w : World)
      → (r : GireveRetryRunResult) × ((run_once env requested w).0 ≡ ok r)
  unfolding run_once release_stale_locks claim_due_retries request read_clock
  run_once_returns requested w =
      rw (answers w.requests, answers (w.requests + 1)) (run_claimed_returns _ _ _)
