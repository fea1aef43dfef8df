-- ===== src/Mapper/Batch/Ids.antt =====
-- The map from transaction ids to the ids of their rows, in `mapTransactionsToCdrs` of
-- 00_Base/src/mapper/CdrMapper.ts.
use citrineos_ocpi.Prelude.{
  ℕ, String, ◌≡◌, inl, inr, Option, some, List, [], ◌∷◌, str_eq, All, arith, Bool-cases,
}
use citrineos_ocpi.Mapper.Data.{Transaction}
use citrineos_ocpi.Mapper.Lookups.{set, get}
use citrineos_ocpi.Mapper.Lookups.Laws.{Has, set-Has, Has-set}
use citrineos_ocpi.Mapper.Batch.{joined, db_ids_of}

-- Every value of the map is a number.
abbrev pub Numbered : List (String × Option ℕ) → Type 0
Numbered = All (λ e. (n : ℕ) × (e.1 ≡ some n))

Numbered-set :
    (key : String) (o : Option ℕ) (n : ℕ) (m : List (String × Option ℕ))
    → o ≡ some n
    → Numbered m
    → Numbered (set key o m)
unfolding set
Numbered-set key o n [] e h = ((n, e), tt)
Numbered-set key o n (x ∷ m) e h = elim (Bool-cases (str_eq x.0 key)) [
  | inl p ↦ rw p ((n, e), h.1)
  | inr p ↦ rw p (h.0, Numbered-set key o n m e h.1)
]

pub joined_number :
    (key : String) (m : List (String × Option ℕ))
    → Numbered m
    → Has key m
    → (n : ℕ) × (joined (get key m) ≡ some n)
unfolding get
joined_number key [] h (o, e) = absurd (ground arith)
joined_number key (x ∷ m) h (o, e) = elim (Bool-cases (str_eq x.0 key)) [
  | inl p ↦ (h.0.0, rw p h.0.1)
  | inr p ↦ let found = joined_number key m h.1 (o, ground arith) in (found.0, rw p found.1)
]

abbrev pub HasId : Transaction → Type 0
HasId t = (n : ℕ) × (t.id ≡ some n)

pub db_ids_of-Numbered :
    (ts : List Transaction) (m : List (String × Option ℕ))
    → All HasId ts
    → Numbered m
    → Numbered (db_ids_of ts m)
      × ((key : String) → Has key m → Has key (db_ids_of ts m))
      × All (λ t. Has t.transaction_id (db_ids_of ts m)) ts
unfolding db_ids_of
db_ids_of-Numbered [] m h k = (k, (λ key f. f), tt)
db_ids_of-Numbered (t ∷ ts) m ((n, e), h) k =
    let rest =
      db_ids_of-Numbered ts (set t.transaction_id t.id m) h
        (Numbered-set t.transaction_id t.id n m e k) in
    (
      rest.0,
      (λ key f. rest.1 key (Has-set key t.transaction_id t.id m f)),
      (rest.1 t.transaction_id (set-Has t.transaction_id t.id m), rest.2),
    )
