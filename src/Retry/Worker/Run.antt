-- ===== src/Retry/Worker/Run.antt =====
-- A whole run of the worker: every claimed row is settled, and the counters add up.
use citrineos_ocpi.Prelude.{
  ℕ, ◌+◌, ◌-◌, ◌*◌, ◌≡◌, refl, ◌⊎◌, inl, inr, Bool, true, false, Option, List, [], ◌∷◌, arith, sym,
  ap, ◌∙◌, subst, if◌then◌else◌, All, length,
}
use citrineos_ocpi.Exec.{Thrown, ok, err, Result-cases}
use citrineos_ocpi.Js.{get_or}
use citrineos_ocpi.Retry.Queue.{Item, is_stale, affected_rows, release_stale_gireve_retry_locks}
use citrineos_ocpi.Retry.Queue.Settled.{Settled}
use citrineos_ocpi.Retry.World.{Env, World, request, read_clock, Fault-cases}
use citrineos_ocpi.Retry.Outbox.{
  retry_batch_size, retry_stale_lock_seconds, release_stale_locks, claim_due_retries,
}
use citrineos_ocpi.Retry.Worker.{GireveRetryRunResult, retry_one, retry_all, run_claimed, run_once}
use citrineos_ocpi.Retry.Worker.Rows.{
  SentAt, WaitsAgain, EachHeld-Settled, SentAt-leaves, WaitsAgain-leaves,
}
use citrineos_ocpi.Retry.Worker.Frames.{PutBack}
use citrineos_ocpi.Retry.Worker.Outcome.{
  retry_one-true, retry_one-false, next_attempt, next_attempt_at,
}

module _ (env : Env) where
  PutBack-Settled :
      (j : ℕ) (item : Item) (n at : ℕ) (w w' : World)
      → PutBack env item n at w w'
      → (Settled j w.table → Settled j w'.table) × Settled item.id w'.table
  PutBack-Settled j item n at w w' (inl (e, rows)) =
      EachHeld-Settled (WaitsAgain n at e) (WaitsAgain-leaves n at e) j item.id w.table w'.table
        rows
  PutBack-Settled j item n at w w' (inr (d, (k, rows))) =
      EachHeld-Settled (SentAt (env.time k)) (SentAt-leaves (env.time k)) j item.id w.table w'.table
        rows

  -- A retry that returns leaves its own row settled, and every row that was.
  retry_one-Settled :
      (j : ℕ) (item : Item) (w : World) (b : Bool)
      → (retry_one env item w).0 ≡ ok b
      → (Settled j w.table → Settled j (retry_one env item w).1.table)
        × Settled item.id (retry_one env item w).1.table
  retry_one-Settled j item w true h =
      let (_, (k, rows)) = retry_one-true env item w h in
      EachHeld-Settled (SentAt (env.time k)) (SentAt-leaves (env.time k)) j item.id w.table _ rows
  retry_one-Settled j item w false h =
      PutBack-Settled j item (next_attempt env item w) (next_attempt_at env item w) w
        (retry_one env item w).1 (retry_one-false env item w h)

  -- The loop goes on from where a retry that returned left the world.
  abbrev counted : Bool → ℕ → ℕ
  counted done n = if done then n + 1 else n

  abbrev uncounted : Bool → ℕ → ℕ
  uncounted done n = if done then n else n + 1

  retry_all_step :
      (item : Item) (items : List Item) (s f : ℕ) (w : World) (b : Bool)
      → (retry_one env item w).0 ≡ ok b
      → retry_all env (item ∷ items) s f w
        ≡ retry_all env items (counted b s) (uncounted b f) (retry_one env item w).1
  unfolding retry_all
  retry_all_step item items s f w b h = rw h

  retry_all_stop :
      (item : Item) (items : List Item) (s f : ℕ) (w : World) (e : Thrown)
      → (retry_one env item w).0 ≡ err e
      → (retry_all env (item ∷ items) s f w).0 ≡ err e
  unfolding retry_all
  retry_all_stop item items s f w e h = rw h

  abbrev Accounted : List Item → ℕ → ℕ → ℕ × ℕ → World → World → Type 0
  Accounted items s f counts w w' =
      (counts.0 + counts.1 ≡ s + f + length items)
      × All (λ item. Settled item.id w'.table) items
      × ((j : ℕ) → Settled j w.table → Settled j w'.table)

  retry_all_nil : (s f : ℕ) (w : World) → retry_all env [] s f w ≡ (ok (s, f), w)
  unfolding retry_all
  retry_all_nil s f w = refl

  counts_step : (b : Bool) (s f n : ℕ) → counted b s + uncounted b f + n ≡ s + f + (n + 1)
  counts_step b s f n = ground arith

  Accounted-cons :
      (item : Item) (items : List Item) (s f : ℕ) (b : Bool) (counts : ℕ × ℕ) (w w' : World)
      → (retry_one env item w).0 ≡ ok b
      → Accounted items (counted b s) (uncounted b f) counts (retry_one env item w).1 w'
      → Accounted (item ∷ items) s f counts w w'
  Accounted-cons item items s f b counts w w' d (sum, settled, kept) = (
    omega (arith, sum, counts_step b s f (length items)),
    (kept item.id (retry_one-Settled item.id item w b d).1, settled),
    λ j p. kept j ((retry_one-Settled j item w b d).0 p),
  )

  retry_all-Accounted :
      (items : List Item) (s f : ℕ) (w : World) (counts : ℕ × ℕ)
      → (retry_all env items s f w).0 ≡ ok counts
      → Accounted items s f counts w (retry_all env items s f w).1
  retry_all-Accounted [] s f w counts h =
      rw retry_all_nil (unfold retry_all in ground arith, tt, λ j p. p)
  retry_all-Accounted (item ∷ items) s f w counts h = elim (Result-cases (retry_one env item w).0) [
    | inl (b, d) ↦
        let step = retry_all_step item items s f w b d in
        subst (λ p. Accounted (item ∷ items) s f counts w p.1) (sym step)
          (Accounted-cons item items s f b counts w
            (retry_all env items (counted b s) (uncounted b f) (retry_one env item w).1).1 d
            (retry_all-Accounted items (counted b s) (uncounted b f) (retry_one env item w).1 counts
              (ap (λ r. r.0) (sym step) ∙ h)))
    | inr (e, d) ↦ absurd (cc (retry_all_stop item items s f w e d, h))
  ]

  -- The batch that a run asks for, and what it claims: the claim of the database on the table that
  -- the release of the stale locks left.
  abbrev pub batch_of : Option ℕ → ℕ
  batch_of requested = get_or requested (retry_batch_size env.config)

  abbrev pub stale_before : World → ℕ
  stale_before w = env.time w.clock_reads - retry_stale_lock_seconds env.config * 1000

  abbrev pub claimed_items : Option ℕ → World → List Item
  claimed_items requested w =
      (env.claim (env.time (w.clock_reads + 1)) (batch_of requested)
        (release_stale_gireve_retry_locks (stale_before w) w.table)).0

  abbrev claimed_world : Option ℕ → World → World
  claimed_world requested w = record w {
    table =
        (env.claim (env.time (w.clock_reads + 1)) (batch_of requested)
          (release_stale_gireve_retry_locks (stale_before w) w.table)).1;
    clock_reads = w.clock_reads + 1 + 1;
    requests = w.requests + 1 + 1;
  }

  abbrev report : List Item → ℕ → ℕ × ℕ → GireveRetryRunResult
  report items released counts = record {
    processed = length items;
    succeeded = counts.0;
    failed = counts.1;
    stale_locks_released = released;
  }

  run_once_started :
      (requested : Option ℕ) (w : World)
      → ((e : Thrown) × ((run_once env requested w).0 ≡ err e))
        ⊎ (run_once env requested w
            ≡ run_claimed env
                (affected_rows (is_stale (stale_before w)) w.table)
                (claimed_items requested w)
                (claimed_world requested w))
  unfolding run_once release_stale_locks claim_due_retries request read_clock
  run_once_started requested w = elim (Fault-cases (env.fault w.requests)) [
    | inl h ↦ elim (Fault-cases (env.fault (w.requests + 1))) [
      | inl k ↦ inr (rw (h, k))
      | inr (inl (e, k)) ↦ inl (e, rw (h, k))
      | inr (inr (e, k)) ↦ inl (e, rw (h, k))
    ]
    | inr (inl (e, h)) ↦ inl (e, rw h)
    | inr (inr (e, h)) ↦ inl (e, rw h)
  ]

  -- What the report of a run says of the items it claimed and of the table it leaves.
  abbrev pub Reported : Option ℕ → World → GireveRetryRunResult → World → Type 0
  Reported requested w r w' =
      (r.processed ≡ length (claimed_items requested w))
      × (r.succeeded + r.failed ≡ r.processed)
      × (r.stale_locks_released ≡ affected_rows (is_stale (stale_before w)) w.table)
      × All (λ item. Settled item.id w'.table) (claimed_items requested w)

  run_claimed-Reported :
      (released : ℕ) (items : List Item) (w : World) (r : GireveRetryRunResult)
      → (run_claimed env released items w).0 ≡ ok r
      → (r.processed ≡ length items)
        × (r.succeeded + r.failed ≡ r.processed)
        × (r.stale_locks_released ≡ released)
        × All (λ item. Settled item.id (run_claimed env released items w).1.table) items
  unfolding run_claimed
  run_claimed-Reported released items w r h = elim (Result-cases (retry_all env items 0 0 w).0) [
    | inl (counts, d) ↦
        let (sum, settled, kept) = retry_all-Accounted items 0 0 w counts d in
        (ground arith, ground (arith, sum), ground arith, rw d settled)
    | inr (e, d) ↦ absurd (ground arith)
  ]

  -- A run that returns a report retried every item that it claimed: their number is `processed`,
  -- `succeeded` and `failed` add up to it, `stale_locks_released` counts the rows whose lock was
  -- stale, and no row of a claimed item is left in processing; whatever failed on the way.
  pub run_once-Reported :
      (requested : Option ℕ) (w : World) (r : GireveRetryRunResult)
      → (run_once env requested w).0 ≡ ok r
      → Reported requested w r (run_once env requested w).1
  run_once-Reported requested w r h = elim (run_once_started requested w) [
    | inl (e, f) ↦ absurd (cc (f, h))
    | inr same ↦
        subst (λ p. Reported requested w r p.1) (sym same)
          (run_claimed-Reported _ _ _ r (ap (λ p. p.0) (sym same) ∙ h))
  ]
