-- ===== src/Retry/Worker/Frames.antt =====
-- What each call of a retry changes: the table, the log of pushes, and its result.
use citrineos_ocpi.Prelude.{
  ℕ, ◌≡◌, refl, ◌⊎◌, inl, inr, ◌≢◌, Bool, false, String, Option, none, some, List, ◌∷◌, arith,
}
use citrineos_ocpi.Exec.{Thrown, ok, Result-cases, parse_error}
use citrineos_ocpi.Model.{ModuleId}
use citrineos_ocpi.Retry.Queue.{Item, mark_gireve_retry_sent, reschedule_gireve_retry}
use citrineos_ocpi.Retry.World.{Env, World, Push, replied, read_clock, request, push}
use citrineos_ocpi.Retry.Outbox.{mark_sent, reschedule}
use citrineos_ocpi.Retry.Worker.Rows.{EachHeld, SentAt, WaitsAgain}
use citrineos_ocpi.Retry.Worker.{
  find_sent_cdr_id, mark_cdr_as_sent, mark_found_cdr, mark_cdr_row_as_sent, after_cdr_answer,
  deliver, reschedule_failed,
}

module _ (env : Env) where
  mark_cdr_as_sent-frame :
      (id at : ℕ) (w : World)
      → ((mark_cdr_as_sent env id at w).1.table ≡ w.table)
        × ((mark_cdr_as_sent env id at w).1.pushes ≡ w.pushes)
  unfolding mark_cdr_as_sent request
  mark_cdr_as_sent-frame id at w = ground arith

  mark_found_cdr-frame :
      (o : Option ℕ) (w : World)
      → ((mark_found_cdr env o w).1.table ≡ w.table)
        × ((mark_found_cdr env o w).1.pushes ≡ w.pushes)
  unfolding mark_found_cdr read_clock
  mark_found_cdr-frame none w = (refl, refl)
  mark_found_cdr-frame (some id) w = mark_cdr_as_sent-frame id _ _

  mark_cdr_row_as_sent-frame :
      (item : Item) (w : World)
      → ((mark_cdr_row_as_sent env item w).1.table ≡ w.table)
        × ((mark_cdr_row_as_sent env item w).1.pushes ≡ w.pushes)
        × ((mark_cdr_row_as_sent env item w).0 ≡ ok tt)
  unfolding mark_cdr_row_as_sent find_sent_cdr_id request
  mark_cdr_row_as_sent-frame item w = grind (arith, mark_found_cdr-frame)

  -- The item was pushed by this module's client and got an answer; nothing else is new in the log.
  abbrev pub Delivered : ModuleId → Item → List Push → List Push → Type 0
  Delivered m item old new =
      (c : Option ℕ) × (new ≡ record { module_id = m; item = item; answer = replied c } ∷ old)

  after_cdr_answer-frame :
      (item : Item) (c : Option ℕ) (w : World)
      → ((after_cdr_answer env item c w).1.table ≡ w.table)
        × ((after_cdr_answer env item c w).1.pushes ≡ w.pushes)
  unfolding after_cdr_answer
  after_cdr_answer-frame item c w = ground (arith, mark_cdr_row_as_sent-frame item w)

  push-table : (m : ModuleId) (item : Item) (w : World) → (push env m item w).1.table ≡ w.table
  unfolding push
  push-table m item w = refl

  push-pushes :
      (m : ModuleId) (item : Item) (w : World) (c : Option ℕ)
      → (push env m item w).0 ≡ ok c
      → (push env m item w).1.pushes
        ≡ record { module_id = m; item = item; answer = replied c } ∷ w.pushes
  unfolding push
  push-pushes m item w c h = ground arith

  pub deliver-table :
      (m : ModuleId) (item : Item) (w : World) → (deliver env m item w).1.table ≡ w.table
  unfolding deliver
  deliver-table ModuleId.cdrs item w = grind (arith, push-table, after_cdr_answer-frame)
  deliver-table ModuleId.sessions item w = grind (arith, push-table)
  deliver-table ModuleId.tariffs item w = grind (arith, push-table)
  deliver-table _ item w = refl

  pub deliver-Delivered :
      (m : ModuleId) (item : Item) (w : World)
      → (deliver env m item w).0 ≡ ok tt
      → Delivered m item w.pushes (deliver env m item w).1.pushes
  unfolding deliver
  deliver-Delivered ModuleId.cdrs item w h = elim (Result-cases (push env ModuleId.cdrs item w).0) [
    | inl (c, e) ↦ (
      c,
      ground (
        arith,
        push-pushes ModuleId.cdrs item w c e,
        after_cdr_answer-frame item c (push env ModuleId.cdrs item w).1,
      ),
    )
    | inr (x, e) ↦ absurd (ground (arith))
  ]
  deliver-Delivered ModuleId.sessions item w h =
      elim (Result-cases (push env ModuleId.sessions item w).0) [
        | inl (c, e) ↦ (c, ground (arith, push-pushes ModuleId.sessions item w c e))
        | inr (x, e) ↦ absurd (ground arith)
      ]
  deliver-Delivered ModuleId.tariffs item w h =
      elim (Result-cases (push env ModuleId.tariffs item w).0) [
        | inl (c, e) ↦ (c, ground (arith, push-pushes ModuleId.tariffs item w c e))
        | inr (x, e) ↦ absurd (ground arith)
      ]
  deliver-Delivered _ item w h = absurd (ground arith)

  -- What a statement on the queue leaves, by the fault of its request.
  pub mark_sent_cases :
      (id : ℕ) (w : World)
      → let now = env.time w.clock_reads in
        let marked = mark_gireve_retry_sent id now w.table in
        let after = mark_sent env id w in
        ((after.1.table ≡ marked) ⊎ ((after.1.table ≡ w.table) × (after.0 ≢ ok tt)))
        × (after.1.pushes ≡ w.pushes)
  unfolding mark_sent read_clock request
  mark_sent_cases id w = ground arith

  -- The end of a retry that is not a success: the held row of the item waits again; or, where the
  -- partner answered and `markSent` took effect but its answer was lost, it counts as sent.
  abbrev pub PutBack : Item → ℕ → ℕ → World → World → Type 0
  PutBack item attempt_count next_retry_at w w' =
      ((e : String) × EachHeld (WaitsAgain attempt_count next_retry_at e) item.id w.table w'.table)
      ⊎ (Delivered item.key.module_id item w.pushes w'.pushes
          × ((k : ℕ) × EachHeld (SentAt (env.time k)) item.id w.table w'.table))

  pub reschedule_failed_ok :
      (item : Item) (n at : ℕ) (e : Thrown) (w : World) (b : Bool)
      → (reschedule_failed env item n at e w).0 ≡ ok b
      → (b ≡ false)
        × ((reschedule_failed env item n at e w).1.table
            ≡ reschedule_gireve_retry item.id n at (parse_error e) w.table)
        × ((reschedule_failed env item n at e w).1.pushes ≡ w.pushes)
  unfolding reschedule_failed reschedule request
  reschedule_failed_ok item n at e w b h = ground arith
