-- ===== src/Retry/Worker/Keyed.antt =====
-- One row for each dedupe key and one for each id: a run of the worker keeps it so, and claims no
-- more than its batch.
use citrineos_ocpi.Prelude.{
  ℕ, ◌+◌, ◌≤◌, ◌≡◌, refl, true, false, String, Option, none, some, List, [], ◌∷◌, if◌then◌else◌,
  length,
}
use citrineos_ocpi.Exec.{Thrown}
use citrineos_ocpi.Model.{ModuleId}
use citrineos_ocpi.Retry.Queue.{
  Item, Table, mark_gireve_retry_sent, reschedule_gireve_retry, release_stale_gireve_retry_locks,
  in_processing, sent_row, rescheduled_row, is_stale, released_row,
}
use citrineos_ocpi.Retry.Queue.Keys.{keys, ids, IsKeyed, update_where-IsKeyed}
use citrineos_ocpi.Retry.World.{Env, World, CdrRow}
use citrineos_ocpi.Exec.Keeps.{Keeps-pure, Keeps-throw, Keeps-bind, Keeps-catch, Keeps-if}
use citrineos_ocpi.Retry.World.Keeps.{KeepsTables, Keeps-read_clock, Keeps-push, Keeps-request}
use citrineos_ocpi.Retry.Outbox.{release_stale_locks, claim_due_retries, mark_sent, reschedule}
use citrineos_ocpi.Retry.Worker.{
  find_sent_cdr_id, mark_cdr_as_sent, mark_found_cdr, mark_cdr_row_as_sent, after_cdr_answer,
  deliver, reschedule_failed, retry_delivery, retry_with, retry_one, retry_all, run_claimed,
  run_once,
}

-- What the worker relies on in the claim of the database, which takes the due rows out of the queue
-- by changing their status: it changes no key and no id, and stays within the batch limit.
pub record Claims (claim : ℕ → ℕ → Table → List Item × Table) : Type 0 where
  pub same_keys : (now limit : ℕ) (t : Table) → keys (claim now limit t).1 ≡ keys t
  pub same_ids : (now limit : ℕ) (t : Table) → ids (claim now limit t).1 ≡ ids t
  pub within_limit : (now limit : ℕ) (t : Table) → length (claim now limit t).0 ≤ limit

marked-IsKeyed : (id now : ℕ) (t : Table) → IsKeyed t → IsKeyed (mark_gireve_retry_sent id now t)
unfolding mark_gireve_retry_sent
marked-IsKeyed id now t =
    update_where-IsKeyed (in_processing id) (sent_row now) t (λ r. refl) (λ r. refl)

rescheduled-IsKeyed :
    (id n at : ℕ) (e : String) (t : Table)
    → IsKeyed t
    → IsKeyed (reschedule_gireve_retry id n at e t)
unfolding reschedule_gireve_retry
rescheduled-IsKeyed id n at e t =
    update_where-IsKeyed (in_processing id) (rescheduled_row n at e) t (λ r. refl) (λ r. refl)

released-IsKeyed :
    (before : ℕ) (t : Table) → IsKeyed t → IsKeyed (release_stale_gireve_retry_locks before t)
unfolding release_stale_gireve_retry_locks
released-IsKeyed before t =
    update_where-IsKeyed (is_stale before) (released_row before) t (λ r. refl) (λ r. refl)

abbrev KeyedQueue : Table → List CdrRow → Type 0
KeyedQueue t rows = IsKeyed t

module _ (env : Env) where
  mark_sent-Keeps : (id : ℕ) → KeepsTables KeyedQueue (mark_sent env id)
  unfolding mark_sent
  mark_sent-Keeps id =
      Keeps-bind _ _ (Keeps-read_clock KeyedQueue env)
        (λ now. Keeps-request KeyedQueue env _ (λ w. marked-IsKeyed id now w.table))

  reschedule-Keeps : (id n at : ℕ) (e : String) → KeepsTables KeyedQueue (reschedule env id n at e)
  unfolding reschedule
  reschedule-Keeps id n at e =
      Keeps-request KeyedQueue env _ (λ w. rescheduled-IsKeyed id n at e w.table)

  mark_found_cdr-Keeps : (o : Option ℕ) → KeepsTables KeyedQueue (mark_found_cdr env o)
  unfolding mark_found_cdr mark_cdr_as_sent
  mark_found_cdr-Keeps none = Keeps-pure tt
  mark_found_cdr-Keeps (some id) =
      Keeps-bind _ _ (Keeps-read_clock KeyedQueue env)
        (λ now. Keeps-request KeyedQueue env _ (λ w h. h))

  mark_cdr_row_as_sent-Keeps :
      (item : Item) → KeepsTables KeyedQueue (mark_cdr_row_as_sent env item)
  unfolding mark_cdr_row_as_sent find_sent_cdr_id
  mark_cdr_row_as_sent-Keeps item =
      Keeps-catch _ _
        (Keeps-bind _ _ (Keeps-request KeyedQueue env _ (λ w h. h)) mark_found_cdr-Keeps)
        (λ e. Keeps-pure tt)

  deliver-Keeps : (m : ModuleId) (item : Item) → KeepsTables KeyedQueue (deliver env m item)
  unfolding deliver after_cdr_answer
  deliver-Keeps ModuleId.cdrs item =
      Keeps-bind _ _ (Keeps-push KeyedQueue env ModuleId.cdrs item)
        (λ c. Keeps-if _ _ _ (mark_cdr_row_as_sent-Keeps item) (Keeps-pure tt))
  deliver-Keeps ModuleId.sessions item =
      Keeps-bind _ _ (Keeps-push KeyedQueue env ModuleId.sessions item) (λ _. Keeps-pure tt)
  deliver-Keeps ModuleId.tariffs item =
      Keeps-bind _ _ (Keeps-push KeyedQueue env ModuleId.tariffs item) (λ _. Keeps-pure tt)
  deliver-Keeps _ item = Keeps-throw _

  reschedule_failed-Keeps :
      (item : Item) (n at : ℕ) (e : Thrown)
      → KeepsTables KeyedQueue (reschedule_failed env item n at e)
  unfolding reschedule_failed
  reschedule_failed-Keeps item n at e =
      Keeps-bind _ _ (reschedule-Keeps item.id n at _) (λ _. Keeps-pure false)

  retry_with-Keeps :
      (item : Item) (n at : ℕ) (p : Option String)
      → KeepsTables KeyedQueue (retry_with env item n at p)
  unfolding retry_with retry_delivery
  retry_with-Keeps item n at none =
      Keeps-bind _ _ (reschedule-Keeps item.id n at _) (λ _. Keeps-pure false)
  retry_with-Keeps item n at (some p) =
      Keeps-catch _ _
        (Keeps-bind _ _ (deliver-Keeps item.key.module_id item)
          (λ _. Keeps-bind _ _ (mark_sent-Keeps item.id) (λ _. Keeps-pure true)))
        (reschedule_failed-Keeps item n at)

  retry_one-Keeps : (item : Item) → KeepsTables KeyedQueue (retry_one env item)
  unfolding retry_one
  retry_one-Keeps item = Keeps-bind _ _ (Keeps-read_clock KeyedQueue env) (λ now.
      Keeps-bind _ _ (Keeps-request KeyedQueue env _ (λ w h. h)) (λ p. retry_with-Keeps item _ _ _))

  retry_all-Keeps : (items : List Item) (s f : ℕ) → KeepsTables KeyedQueue (retry_all env items s f)
  unfolding retry_all
  retry_all-Keeps [] s f = record { at = λ w h. h }
  retry_all-Keeps (item ∷ items) s f = record {
    at =
        (Keeps-bind (retry_one env item)
          (λ done. retry_all env items (if done then s + 1 else s) (if done then f else f + 1))
          (retry_one-Keeps item) (λ done. retry_all-Keeps items _ _)).at;
  }

  module _ (claims : Claims env.claim) where
    claim-IsKeyed : (now limit : ℕ) (t : Table) → IsKeyed t → IsKeyed (env.claim now limit t).1
    claim-IsKeyed now limit t v = record {
      one_per_key = rw (claims.same_keys now limit t) v.one_per_key;
      one_per_id = rw (claims.same_ids now limit t) v.one_per_id;
    }

    run_once-Keeps : (requested : Option ℕ) → KeepsTables KeyedQueue (run_once env requested)
    unfolding run_once run_claimed release_stale_locks claim_due_retries
    run_once-Keeps requested =
        Keeps-bind _ _
          (Keeps-bind _ _ (Keeps-read_clock KeyedQueue env)
            (λ now. Keeps-request KeyedQueue env _ (λ w. released-IsKeyed _ w.table)))
          (λ released.
            Keeps-bind _ _
              (Keeps-bind _ _ (Keeps-read_clock KeyedQueue env)
                (λ now. Keeps-request KeyedQueue env _ (λ w. claim-IsKeyed now _ w.table)))
              (λ items. Keeps-bind _ _ (retry_all-Keeps items 0 0) (λ counts. Keeps-pure _)))

    -- With a claim that changes no key and no id, a run of the worker leaves one row for each dedupe
    -- key and one for each id where it found it so, whether it returns or throws.
    pub run_once-IsKeyed :
        (requested : Option ℕ) (w : World)
        → IsKeyed w.table
        → IsKeyed (run_once env requested w).1.table
    run_once-IsKeyed requested = (run_once-Keeps requested).at
