-- ===== src/Retry/Worker/Delivery.antt =====
-- The two ways in which the delivery of an item ends.
use citrineos_ocpi.Prelude.{ℕ, ◌≡◌, ◌⊎◌, inl, inr, ◌≢◌, true, false, arith, sym, ap, ◌∙◌}
use citrineos_ocpi.Exec.{Thrown, ok, err, Result-cases, parse_error}
use citrineos_ocpi.Retry.Queue.{Item, mark_gireve_retry_sent}
use citrineos_ocpi.Retry.World.{Env, World}
use citrineos_ocpi.Retry.Outbox.{mark_sent}
use citrineos_ocpi.Retry.Worker.{deliver, reschedule_failed, retry_delivery}
use citrineos_ocpi.Retry.Worker.Rows.{
  EachHeld, SentAt, marked_rows, rescheduled_rows, rescheduled_marked,
}
use citrineos_ocpi.Retry.Worker.Frames.{
  Delivered, PutBack, deliver-table, deliver-Delivered, mark_sent_cases, reschedule_failed_ok,
}

module _ (env : Env) where
  module _ (item : Item) (n at : ℕ) (w : World) where
    abbrev delivered_world : World
    delivered_world = (deliver env item.key.module_id item w).1

    abbrev marked_world : World
    marked_world = (mark_sent env item.id delivered_world).1

    retry_delivery_sent :
        (deliver env item.key.module_id item w).0 ≡ ok tt
        → (mark_sent env item.id delivered_world).0 ≡ ok tt
        → retry_delivery env item n at w ≡ (ok true, marked_world)
    unfolding retry_delivery
    retry_delivery_sent d m = rw (d, m)

    retry_delivery_unmarked :
        (e : Thrown)
        → (deliver env item.key.module_id item w).0 ≡ ok tt
        → (mark_sent env item.id delivered_world).0 ≡ err e
        → retry_delivery env item n at w ≡ reschedule_failed env item n at e marked_world
    unfolding retry_delivery
    retry_delivery_unmarked e d m = rw (d, m)

    retry_delivery_failed :
        (e : Thrown)
        → (deliver env item.key.module_id item w).0 ≡ err e
        → retry_delivery env item n at w ≡ reschedule_failed env item n at e delivered_world
    unfolding retry_delivery
    retry_delivery_failed e d = rw d

    marked_world-table :
        (mark_sent env item.id delivered_world).0 ≡ ok tt
        → marked_world.table
          ≡ mark_gireve_retry_sent item.id (env.time delivered_world.clock_reads) w.table
    marked_world-table m = ground (
      arith,
      mark_sent_cases env item.id delivered_world,
      deliver-table env item.key.module_id item w,
    )

    -- A retry that reports success: the push in the log, and the rows after it.
    abbrev pub Succeeded : World → Type 0
    Succeeded w' =
        Delivered env item.key.module_id item w.pushes w'.pushes
        × ((k : ℕ) × EachHeld (SentAt (env.time k)) item.id w.table w'.table)

    sent-Succeeded :
        (deliver env item.key.module_id item w).0 ≡ ok tt
        → (mark_sent env item.id delivered_world).0 ≡ ok tt
        → Succeeded marked_world
    sent-Succeeded d m =
        let del = deliver-Delivered env item.key.module_id item w d in
        (
          (del.0, (mark_sent_cases env item.id delivered_world).1 ∙ del.1),
          (delivered_world.clock_reads, rw (marked_world-table m) (marked_rows item.id _ w.table)),
        )

    not_ok_true :
        (e : Thrown) (w' : World)
        → retry_delivery env item n at w ≡ reschedule_failed env item n at e w'
        → (retry_delivery env item n at w).0 ≢ ok true
    not_ok_true e w' same h =
        cc ((reschedule_failed_ok env item n at e w' true (ap (λ r. r.0) (sym same) ∙ h)).0)

    pub retry_delivery-true :
        (retry_delivery env item n at w).0 ≡ ok true → Succeeded (retry_delivery env item n at w).1
    retry_delivery-true h = elim (Result-cases (deliver env item.key.module_id item w).0) [
      | inl (u, d) ↦ elim (Result-cases (mark_sent env item.id delivered_world).0) [
        | inl (v, m) ↦ rw (retry_delivery_sent d m) (sent-Succeeded d m)
        | inr (e, m) ↦ absurd (not_ok_true e marked_world (retry_delivery_unmarked e d m) h)
      ]
      | inr (e, d) ↦ absurd (not_ok_true e delivered_world (retry_delivery_failed e d) h)
    ]

    waits-PutBack :
        (e : Thrown) (w' : World)
        → w'.table ≡ w.table
        → retry_delivery env item n at w ≡ reschedule_failed env item n at e w'
        → (retry_delivery env item n at w).0 ≡ ok false
        → PutBack env item n at w (retry_delivery env item n at w).1
    waits-PutBack e w' t same h =
        let r = reschedule_failed_ok env item n at e w' false (ap (λ r. r.0) (sym same) ∙ h) in
        inl (
          parse_error e,
          rw (ap (λ r. r.1.table) same ∙ r.1, t)
              (rescheduled_rows item.id n at (parse_error e) w.table),
        )

    sent-PutBack :
        (e : Thrown)
        → (deliver env item.key.module_id item w).0 ≡ ok tt
        → marked_world.table
          ≡ mark_gireve_retry_sent item.id (env.time delivered_world.clock_reads) w.table
        → retry_delivery env item n at w ≡ reschedule_failed env item n at e marked_world
        → (retry_delivery env item n at w).0 ≡ ok false
        → PutBack env item n at w (retry_delivery env item n at w).1
    sent-PutBack e d t same h =
        let r =
          reschedule_failed_ok env item n at e marked_world false (ap (λ r. r.0) (sym same) ∙ h) in
        let now = env.time delivered_world.clock_reads in
        let del = deliver-Delivered env item.key.module_id item w d in
        inr (
          (
            del.0,
            ap (λ r. r.1.pushes) same
                ∙ r.2
                ∙ (mark_sent_cases env item.id delivered_world).1
                ∙ del.1,
          ),
          (
            delivered_world.clock_reads,
            rw
                (
                  ap (λ r. r.1.table) same ∙ r.1,
                  t,
                  rescheduled_marked item.id now n at (parse_error e) w.table,
                )
                (marked_rows item.id now w.table),
          ),
        )

    unmarked-cases :
        (marked_world.table
          ≡ mark_gireve_retry_sent item.id (env.time delivered_world.clock_reads) w.table)
        ⊎ (marked_world.table ≡ w.table)
    unmarked-cases = ground (
      arith,
      mark_sent_cases env item.id delivered_world,
      deliver-table env item.key.module_id item w,
    )

    pub retry_delivery-false :
        (retry_delivery env item n at w).0 ≡ ok false
        → PutBack env item n at w (retry_delivery env item n at w).1
    retry_delivery-false h = elim (Result-cases (deliver env item.key.module_id item w).0) [
      | inl (u, d) ↦ elim (Result-cases (mark_sent env item.id delivered_world).0) [
        | inl (v, m) ↦ absurd (cc (ap (λ r. r.0) (retry_delivery_sent d m)))
        | inr (e, m) ↦ elim unmarked-cases [
          | inl t ↦ sent-PutBack e d t (retry_delivery_unmarked e d m) h
          | inr t ↦ waits-PutBack e marked_world t (retry_delivery_unmarked e d m) h
        ]
      ]
      | inr (e, d) ↦
          waits-PutBack e delivered_world (deliver-table env item.key.module_id item w)
            (retry_delivery_failed e d) h
    ]
