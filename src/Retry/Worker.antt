-- ===== src/Retry/Worker.antt =====
-- 00_Base/src/services/GireveBroadcastRetryWorker.ts, with the two methods of CdrsService.ts that it
-- calls. Logging is left out.
pub mod Rows
pub mod Frames
pub mod Delivery
pub mod Outcome
pub mod Run
pub mod Completes
pub mod Keyed
use citrineos_ocpi.Prelude.{
  ℕ, suc, ◌+◌, String, Bool, true, false, ◌&&◌, Option, none, some, List, [], ◌∷◌, ◌==◌, str_eq,
  if◌then◌else◌, length, ◌⧺◌,
}
use citrineos_ocpi.Exec.{
  Thrown, Result, ok, err, Exec, ◌>>=◌, ◌>>◌, continue, pure, throw, catch, on_error, parse_error,
}
use citrineos_ocpi.Js.{get_or}
use citrineos_ocpi.Model.{ModuleId, module_text}
use citrineos_ocpi.Retry.Backoff.{compute_gireve_next_retry_at}
use citrineos_ocpi.Retry.Queue.{Item}
use citrineos_ocpi.Retry.World.{Env, World, CdrRow, RetryPartner, read_clock, request, push}
use citrineos_ocpi.Retry.Outbox.{
  backoff_options, retry_batch_size, release_stale_locks, claim_due_retries, mark_sent, reschedule,
}

pub record GireveRetryRunResult : Type 0 where
  pub processed : ℕ
  pub succeeded : ℕ
  pub failed : ℕ
  pub stale_locks_released : ℕ

-- FIND_SENT_CDR_QUERY, the id of its first row
unfoldable pub find_sent_cdr : String → ℕ → List CdrRow → Option ℕ
find_sent_cdr ocpi_cdr_id partner [] = none
find_sent_cdr ocpi_cdr_id partner (c ∷ cs) =
    if str_eq c.ocpi_cdr_id ocpi_cdr_id && c.to_tenant_partner_id == partner
    then some c.id
    else find_sent_cdr ocpi_cdr_id partner cs

-- UPDATE_CDR_SENT_STATUS_MUTATION
unfoldable pub update_cdr_sent_status : ℕ → ℕ → List CdrRow → List CdrRow
update_cdr_sent_status id sent_at [] = []
update_cdr_sent_status id sent_at (c ∷ cs) =
    (if c.id == id then record c { successfully_sent_at = some sent_at } else c)
    ∷ update_cdr_sent_status id sent_at cs

-- OcpiResponseStatusCode.GenericSuccessCode
abbrev pub generic_success_code : ℕ
generic_success_code = 1000

abbrev pub is_success : Option ℕ → Bool
is_success none = false
is_success (some code) = code == generic_success_code

-- partner?.partnerProfileOCPI
abbrev pub partner_profile : Option RetryPartner → Option String
partner_profile none = none
partner_profile (some p) = p.has_profile

module _ (env : Env) where
  unfoldable pub find_sent_cdr_id : String → ℕ → Exec World (Option ℕ)
  find_sent_cdr_id ocpi_cdr_id partner =
      request env (λ w. (find_sent_cdr ocpi_cdr_id partner w.cdrs, w))

  unfoldable pub mark_cdr_as_sent : ℕ → ℕ → Exec World (Unit {0})
  mark_cdr_as_sent id sent_at =
      request env (λ w. (tt, record w { cdrs = update_cdr_sent_status id sent_at w.cdrs }))

  unfoldable pub mark_found_cdr : Option ℕ → Exec World (Unit {0})
  mark_found_cdr none = pure tt
  mark_found_cdr (some cdr_id) = do now ← read_clock env; mark_cdr_as_sent cdr_id now

  -- Best effort: what goes wrong here is only logged.
  unfoldable pub mark_cdr_row_as_sent : Item → Exec World (Unit {0})
  mark_cdr_row_as_sent item =
      catch
        (do
          cdr_id ← find_sent_cdr_id item.key.resource_id item.key.partner_tenant_partner_id
          mark_found_cdr cdr_id)
        (λ _. pure tt)

  unfoldable pub after_cdr_answer : Item → Option ℕ → Exec World (Unit {0})
  after_cdr_answer item status_code =
      if is_success status_code then mark_cdr_row_as_sent item else pure tt

  -- The `switch` over the module.
  unfoldable pub deliver : ModuleId → Item → Exec World (Unit {0})
  deliver ModuleId.sessions item = push env ModuleId.sessions item >> pure tt
  deliver ModuleId.cdrs item = do
    status_code ← push env ModuleId.cdrs item
    after_cdr_answer item status_code
  deliver ModuleId.tariffs item = push env ModuleId.tariffs item >> pure tt
  deliver m item =
      let message = "Gireve retry: unsupported moduleId=" ⧺ module_text m in
      throw (Thrown.error (env.stack message) message)

  -- The handler of `retryOne`.
  unfoldable pub reschedule_failed : Item → ℕ → ℕ → Thrown → Exec World Bool
  reschedule_failed item attempt_count next_retry_at e = do
    reschedule env item.id attempt_count next_retry_at (parse_error e)
    pure false

  unfoldable pub retry_delivery : Item → ℕ → ℕ → Exec World Bool
  retry_delivery item attempt_count next_retry_at =
      catch (do deliver item.key.module_id item; mark_sent env item.id; pure true)
        (reschedule_failed item attempt_count next_retry_at)

  unfoldable pub retry_with : Item → ℕ → ℕ → Option String → Exec World Bool
  retry_with item attempt_count next_retry_at none = do
    reschedule env item.id attempt_count next_retry_at (
        "Gireve retry: tenantPartner not found for id="
        ⧺ env.number_text item.key.partner_tenant_partner_id)
    pure false
  retry_with item attempt_count next_retry_at (some profile) =
      retry_delivery item attempt_count next_retry_at

  unfoldable pub retry_one : Item → Exec World Bool
  retry_one item = do
    now ← read_clock env
    let attempt_count = item.attempt_count + 1
    let next_retry_at = compute_gireve_next_retry_at attempt_count (backoff_options env) now
    partner ← request env (λ w. (env.partner_by_id item.key.partner_tenant_partner_id, w))
    retry_with item attempt_count next_retry_at (partner_profile partner)

  -- The loop over the claimed items, with its two counters.
  unfoldable pub retry_all : List Item → ℕ → ℕ → Exec World (ℕ × ℕ)
  retry_all [] succeeded failed w = (ok (succeeded, failed), w)
  retry_all (item ∷ items) succeeded failed w =
      continue (retry_one item w).0
        (λ done w'.
          retry_all items (if done then succeeded + 1 else succeeded)
            (if done then failed else failed + 1) w')
        (retry_one item w).1

  unfoldable pub run_claimed : ℕ → List Item → Exec World GireveRetryRunResult
  run_claimed stale_locks_released items = do
    counts ← retry_all items 0 0
    pure (record {
      processed = length items;
      succeeded = counts.0;
      failed = counts.1;
      stale_locks_released = stale_locks_released;
    })

  unfoldable pub run_once : Option ℕ → Exec World GireveRetryRunResult
  run_once requested_batch_size = do
    let batch_size = get_or requested_batch_size (retry_batch_size env.config)
    stale_locks_released ← release_stale_locks env
    items ← claim_due_retries env batch_size
    run_claimed stale_locks_released items
