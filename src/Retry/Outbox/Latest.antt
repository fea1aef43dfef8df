-- ===== src/Retry/Outbox/Latest.antt =====
-- `upsertOnFailure`: the latest payload wins, and the attempts survive until the row is sent.
use citrineos_ocpi.Prelude.{
  ℕ, ◌+◌, ◌≡◌, refl, ◌≢◌, ◌⊎◌, inl, inr, true, String, Option, none, some, [], ◌∷◌, arith, sym, ap,
  All, Bool-cases, Option-cases, ◌==◌, subst, Distinct,
}
use citrineos_ocpi.Exec.{Result, ok}
use citrineos_ocpi.Js.{get_or}
use citrineos_ocpi.Retry.Backoff.{compute_gireve_next_retry_at}
use citrineos_ocpi.Retry.Queue.{
  Key, Item, Row, Table, Refresh, same_key, update_where, refresh_row, find_gireve_retry_queue,
  insert_gireve_retry_queue, update_gireve_retry_queue, pending, Status, status_eq,
}
use citrineos_ocpi.Retry.Queue.Keys.{same_key_iff, ids}
use citrineos_ocpi.Retry.World.{Env, World, no_fault, request, read_clock, fresh_uuid, Fault-cases}
use citrineos_ocpi.Retry.World.Keeps.{keeps_request_at}
use citrineos_ocpi.Retry.Outbox.{
  UpsertGireveRetryInput, upsert_found, upsert_on_failure, inserted_item, refresh_of, kept_attempts,
  backoff_options,
}

same_key_self : (k : Key) → same_key k k ≡ true
same_key_self k = (same_key_iff k k).1 refl

-- The row that an insert adds is the one that its key finds.
find-insert :
    (item : Item) (e : String) (now : ℕ) (t : Table)
    → find_gireve_retry_queue item.key t ≡ none
    → find_gireve_retry_queue item.key (insert_gireve_retry_queue item e now t)
      ≡ some (record {
        item = record item { attempt_count = 0 };
        status = pending;
        last_error = some e;
        locked_at = none;
        sent_at = none;
        created_at = now;
        updated_at = now;
      })
unfolding find_gireve_retry_queue insert_gireve_retry_queue
find-insert item e now [] h = rw (same_key_self item.key)
find-insert item e now (r ∷ t) h = ground (arith, find-insert item e now t)

-- An update by the id of the found row shows in what its key finds.
pub find-update :
    (k : Key) (u : Refresh) (row : Row) (t : Table)
    → find_gireve_retry_queue k t ≡ some row
    → find_gireve_retry_queue k (update_gireve_retry_queue row.id u t) ≡ some (refresh_row u row)
unfolding find_gireve_retry_queue update_gireve_retry_queue
find-update k u row [] h = cc
find-update k u row (r ∷ t) h = ground (arith, find-update k u row t)

-- An id that no row has is updated nowhere.
update_absent :
    (id : ℕ) (u : Refresh) (t : Table)
    → All (λ i. i ≢ id) (ids t)
    → update_gireve_retry_queue id u t ≡ t
unfolding update_gireve_retry_queue
update_absent id u [] h = refl
update_absent id u (r ∷ t) h = ground (arith, update_absent id u t h.1, h.0)

found-ne :
    (k : Key) (row : Row) (x : ℕ) (t : Table)
    → find_gireve_retry_queue k t ≡ some row
    → All (λ i. i ≢ x) (ids t)
    → row.id ≢ x
unfolding find_gireve_retry_queue
found-ne k row x [] h n = cc
found-ne k row x (r ∷ t) h n = ground (arith, found-ne k row x t, n.0)

-- Where ids are distinct, an update of the found row changes nothing for another key.
find-update_ne :
    (k j : Key) (u : Refresh) (row : Row) (t : Table)
    → j ≢ k
    → Distinct (ids t)
    → find_gireve_retry_queue k t ≡ some row
    → find_gireve_retry_queue j (update_gireve_retry_queue row.id u t) ≡ find_gireve_retry_queue j t
unfolding find_gireve_retry_queue update_gireve_retry_queue
find-update_ne k j u row [] ne d h = refl
find-update_ne k j u row (r ∷ t) ne d h = elim (Bool-cases (same_key r.key k)) [
  | inl here ↦
      let same : r ≡ row = ground (arith, here) in
      let absent : update_where (λ x. x.id == row.id) (refresh_row u) t ≡ t =
        update_absent row.id u t (subst (λ x. All (λ i. i ≢ x.id) (ids t)) same d.0) in
      ground (arith, here, absent, same_key_iff r.key k, same_key_iff r.key j)
  | inr there ↦ ground (arith, there, find-update_ne k j u row t ne d.1, found-ne k row r.id t)
]

find-insert_ne :
    (item : Item) (j : Key) (e : String) (now : ℕ) (t : Table)
    → j ≢ item.key
    → find_gireve_retry_queue j (insert_gireve_retry_queue item e now t)
      ≡ find_gireve_retry_queue j t
unfolding find_gireve_retry_queue insert_gireve_retry_queue
find-insert_ne item j e now [] ne = ground (arith, same_key_iff item.key j)
find-insert_ne item j e now (r ∷ t) ne = ground (arith, find-insert_ne item j e now t ne)

-- The attempts that count: those of a row that has not been sent yet.
abbrev pub attempts_of : Option Row → ℕ
attempts_of none = 0
attempts_of (some row) = elim row.status [
  | Status.pending ↦ row.attempt_count
  | Status.processing ↦ row.attempt_count
  | Status.sent ↦ 0
]

kept_attempts-attempts_of : (row : Row) → kept_attempts row ≡ attempts_of (some row)
unfolding status_eq
kept_attempts-attempts_of row = ground arith

module _ (env : Env) (input : UpsertGireveRetryInput) (w : World) where
  -- What `upsertOnFailure` finds for its key.
  abbrev pub existing : Option Row
  existing = find_gireve_retry_queue input.key w.table

  abbrev pub now : ℕ
  now = env.time w.clock_reads

  abbrev pub Refreshed : Row → Type 0
  Refreshed row =
      (row.status ≡ pending)
      × (row.payload ≡ get_or input.payload "{}")
      × (row.ocpi_path ≡ input.ocpi_path)
      × (row.last_error ≡ some input.last_error)
      × (row.attempt_count ≡ attempts_of existing)
      × (row.next_retry_at
          ≡ compute_gireve_next_retry_at (attempts_of existing) (backoff_options env) now)

  -- The call succeeded, and the row of its key is as it wrote it.
  abbrev pub Upserted : Result (Unit {0}) × World → Type 0
  Upserted (r, w') =
      (r ≡ ok tt)
      × ((row : Row) × (find_gireve_retry_queue input.key w'.table ≡ some row) × Refreshed row)

  abbrev looked_up : World
  looked_up = record w { clock_reads = w.clock_reads + 1; requests = w.requests + 1 }

  upsert_looks_up :
      env.fault w.requests ≡ no_fault
      → upsert_on_failure env input w ≡ upsert_found env input now existing looked_up
  unfolding upsert_on_failure read_clock request
  upsert_looks_up f = rw f

  upsert_new-Upserted :
      env.fault (w.requests + 1) ≡ no_fault
      → existing ≡ none
      → Upserted (upsert_found env input now none looked_up)
  unfolding upsert_found fresh_uuid request
  upsert_new-Upserted f e =
      let item = inserted_item env input (env.uuid w.uuids) now in
      rw (f, e)
        (
          refl,
          (
            _,
            find-insert item input.last_error now w.table e,
            (refl, refl, refl, refl, refl, refl),
          ),
        )

  upsert_old-Upserted :
      (row : Row)
      → env.fault (w.requests + 1) ≡ no_fault
      → existing ≡ some row
      → Upserted (upsert_found env input now (some row) looked_up)
  unfolding upsert_found request
  upsert_old-Upserted row f e =
      let u = refresh_of env input row now in
      rw (f, e)
        (
          refl,
          (
            refresh_row u row,
            find-update input.key u row w.table e,
            (
              refl,
              refl,
              refl,
              refl,
              kept_attempts-attempts_of row,
              ap (λ n. compute_gireve_next_retry_at n (backoff_options env) now)
                  (kept_attempts-attempts_of row),
            ),
          ),
        )

  -- With a database that answers the two requests, the call succeeds. The row of its key is then
  -- pending with the payload, path and error of this call; it keeps the attempts of a row that was
  -- not sent, and starts at none for a new row or one already sent; it is due after the delay of
  -- these attempts.
  pub upsert_latest :
      env.fault w.requests ≡ no_fault
      → env.fault (w.requests + 1) ≡ no_fault
      → Upserted (upsert_on_failure env input w)
  upsert_latest f0 f1 = rw (upsert_looks_up f0) (split (Option-cases existing))
    where
      split :
          (existing ≡ none) ⊎ ((row : Row) × (existing ≡ some row))
          → Upserted (upsert_found env input now existing looked_up)
      split (inl e) =
          subst (λ o. Upserted (upsert_found env input now o looked_up)) (sym e)
            (upsert_new-Upserted f1 e)
      split (inr (row, e)) =
          subst (λ o. Upserted (upsert_found env input now o looked_up)) (sym e)
            (upsert_old-Upserted row f1 e)

  others_found :
      (j : Key) (o : Option Row) (w' : World)
      → j ≢ input.key
      → Distinct (ids w.table)
      → existing ≡ o
      → w'.table ≡ w.table
      → w'.uuids ≡ w.uuids
      → find_gireve_retry_queue j (upsert_found env input now o w').1.table
        ≡ find_gireve_retry_queue j w.table
  unfolding upsert_found fresh_uuid
  others_found j none w' ne d e t u =
      keeps_request_at (λ t rows. find_gireve_retry_queue j t ≡ find_gireve_retry_queue j w.table)
        env _ (record w' { uuids = w'.uuids + 1 }) (rw t)
        (rw (
          t,
          find-insert_ne (inserted_item env input (env.uuid w'.uuids) now) j input.last_error now
              w.table ne,
        ))
  others_found j (some row) w' ne d e t u =
      keeps_request_at (λ t rows. find_gireve_retry_queue j t ≡ find_gireve_retry_queue j w.table)
        env _ w' (rw t)
        (rw (t, find-update_ne input.key j (refresh_of env input row now) row w.table ne d e))

  -- Where the ids of the rows are distinct, a call leaves the row of every other key as it was,
  -- whichever of its requests fails.
  pub upsert_others :
      (j : Key)
      → j ≢ input.key
      → Distinct (ids w.table)
      → find_gireve_retry_queue j (upsert_on_failure env input w).1.table
        ≡ find_gireve_retry_queue j w.table
  unfolding upsert_on_failure read_clock request
  upsert_others j ne d = elim (Fault-cases (env.fault w.requests)) [
    | inl f ↦ rw f (others_found j existing looked_up ne d refl refl refl)
    | inr (inl (e, f)) ↦ rw f
    | inr (inr (e, f)) ↦ rw f
  ]
