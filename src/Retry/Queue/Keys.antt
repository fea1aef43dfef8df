-- ===== src/Retry/Queue/Keys.antt =====
-- No two rows have one dedupe key, nor one id, and the updates keep it so.
use citrineos_ocpi.Prelude.{
  ℕ, ◌≡◌, refl, ap, ◌≢◌, ◌↔◌, Bool, true, none, some, List, [], ◌∷◌, arith, eq_iff, if◌then◌else◌,
  All, length, map, Distinct, suc, String, Distinct-append_one, Bool-cases, inl, inr,
}
use mathlib.Core.List.{map-append}
use citrineos_ocpi.Model.{module_eq, module_eq_iff}
use citrineos_ocpi.Retry.Queue.{
  Key, Item, Row, Table, same_key, update_where, find_gireve_retry_queue, insert_gireve_retry_queue,
}

pub same_key_iff : (a b : Key) → (same_key a b ≡ true) ↔ (a ≡ b)
unfolding same_key module_eq
same_key_iff a b =
    ground (arith, eq_iff a.resource_id b.resource_id, module_eq_iff a.module_id b.module_id)

abbrev pub keys : Table → List Key
keys = map (λ r. r.key)

abbrev pub ids : Table → List ℕ
ids = map (λ r. r.id)

-- The table holds one row for each dedupe key, and one for each id.
pub record IsKeyed (t : Table) : Type 0 where
  pub one_per_key : Distinct (keys t)
  pub one_per_id : Distinct (ids t)

module _ (p : Row → Bool) (f : Row → Row) where
  -- An update that leaves a column alone leaves that column of the whole table alone.
  pub map-update_where {ℓ} :
      {A : Type ℓ} (g : Row → A) (t : Table)
      → ((r : Row) → g (f r) ≡ g r)
      → map g (update_where p f t) ≡ map g t
  map-update_where g [] h = refl
  map-update_where g (r ∷ t) h = ground (arith, h r, map-update_where g t h)

  pub update_where-IsKeyed :
      (t : Table)
      → ((r : Row) → (f r).key ≡ r.key)
      → ((r : Row) → (f r).id ≡ r.id)
      → IsKeyed t
      → IsKeyed (update_where p f t)
  update_where-IsKeyed t hk hi v = record {
    one_per_key = rw (map-update_where (λ r. r.key) t hk) v.one_per_key;
    one_per_id = rw (map-update_where (λ r. r.id) t hi) v.one_per_id;
  }

  pub length-update_where : (t : Table) → length (update_where p f t) ≡ length t
  length-update_where [] = refl
  length-update_where (r ∷ t) = ap suc (length-update_where t)

find-none_fresh :
    (k : Key) (t : Table) → find_gireve_retry_queue k t ≡ none → All (λ j. j ≢ k) (keys t)
unfolding find_gireve_retry_queue
find-none_fresh k [] h = tt
find-none_fresh k (r ∷ t) h =
    (λ e. ground (arith, same_key_iff r.key k), find-none_fresh k t (ground arith))

pub insert-IsKeyed :
    (item : Item) (e : String) (now : ℕ) (t : Table)
    → find_gireve_retry_queue item.key t ≡ none
    → All (λ i. i ≢ item.id) (ids t)
    → IsKeyed t
    → IsKeyed (insert_gireve_retry_queue item e now t)
unfolding insert_gireve_retry_queue
insert-IsKeyed item e now t h i v = record {
  one_per_key =
      rw map-append
        (Distinct-append_one (keys t) item.key v.one_per_key (find-none_fresh item.key t h));
  one_per_id = rw map-append (Distinct-append_one (ids t) item.id v.one_per_id i);
}

-- What an update that leaves the keys alone does to the row of one key.
pub find-update_where :
    (p : Row → Bool) (f : Row → Row) (k : Key) (t : Table) (row : Row)
    → ((r : Row) → (f r).key ≡ r.key)
    → find_gireve_retry_queue k t ≡ some row
    → find_gireve_retry_queue k (update_where p f t) ≡ some (if p row then f row else row)
unfolding find_gireve_retry_queue
find-update_where p f k [] row hf h = cc
find-update_where p f k (r ∷ t) row hf h = elim (Bool-cases (same_key r.key k)) [
  | inl here ↦ ground (arith, here, hf r)
  | inr there ↦ ground (arith, there, hf r, find-update_where p f k t row hf)
]
