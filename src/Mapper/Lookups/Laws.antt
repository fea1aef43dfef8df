-- ===== src/Mapper/Lookups/Laws.antt =====
-- What the look-ups of 00_Base/src/mapper/BaseTransactionMapper.ts find is in their maps.
use citrineos_ocpi.Prelude.{
  String, ◌≡◌, inl, inr, refl, sym, false, Option, none, some, List, [], ◌∷◌, str_eq, eq_iff, All,
  arith, Bool-cases,
}
use citrineos_ocpi.Exec.{Result, ok}
use citrineos_ocpi.Mapper.Data.{Transaction}
use citrineos_ocpi.Mapper.Lookups.{set, get, set_defined, collect}

module _ {A : Type 0} where
  -- The map has the key.
  abbrev pub Has : String → List (String × A) → Type 0
  Has key m = (a : A) × (get key m ≡ some a)

  pub set-Has : (key : String) (a : A) (m : List (String × A)) → Has key (set key a m)
  unfolding set get
  set-Has key a [] = (a, rw ((eq_iff key key).1 refl) refl)
  set-Has key a (e ∷ es) = elim (Bool-cases (str_eq e.0 key)) [
    | inl h ↦ rw h (a, rw ((eq_iff key key).1 refl) refl)
    | inr h ↦ rw h (let found = set-Has key a es in (found.0, rw h found.1))
  ]

  passed_over :
      (key other : String) (e : String × A) (es : List (String × A)) (b : A)
      → str_eq e.0 key ≡ false
      → get key (e ∷ es) ≡ some b
      → get key es ≡ some b
  unfolding get
  passed_over key other e es b n h = ground arith

  pub Has-set :
      (key other : String) (a : A) (m : List (String × A)) → Has key m → Has key (set other a m)
  unfolding set get
  Has-set key other a [] (b, h) = absurd (ground arith)
  Has-set key other a (e ∷ es) (b, h) = elim (Bool-cases (str_eq e.0 key)) [
    | inl q ↦ elim (Bool-cases (str_eq e.0 other)) [
      | inl p ↦ rw p (a, rw (sym ((eq_iff e.0 other).0 p), q) refl)
      | inr p ↦ rw p (e.1, rw q refl)
    ]
    | inr q ↦
        let later = passed_over key other e es b q h in
        elim (Bool-cases (str_eq e.0 other)) [
          | inl p ↦ rw p (b, rw (sym ((eq_iff e.0 other).0 p), q) later)
          | inr p ↦ rw p (let found = Has-set key other a es (b, later) in (found.0, rw q found.1))
        ]
  ]

  Has-set_defined :
      (key other : String) (o : Option A) (m : List (String × A))
      → Has key m
      → Has key (set_defined other o m)
  Has-set_defined key other none m h = h
  Has-set_defined key other (some a) m h = Has-set key other a m h

  -- The look-up of the transaction does not fail.
  abbrev pub Answers : (Transaction → Result (Option A)) → Transaction → Type 0
  Answers load t = (o : Option A) × (load t ≡ ok o)

  abbrev pub Finds : (Transaction → Result (Option A)) → Transaction → Type 0
  Finds load t = (a : A) × (load t ≡ ok (some a))

  -- Where no look-up fails, the loop returns a map, with every key of the first one, and with the id
  -- of each transaction for which something is found.
  abbrev pub Collected :
      (Transaction → Result (Option A)) → List Transaction → List (String × A) → Type 0
  Collected load ts m =
      (n : List (String × A)) × (collect load ts m ≡ ok n)
      × ((key : String) → Has key m → Has key n)
      × All (λ t. Finds load t → Has t.transaction_id n) ts

  found-Has :
      (load : Transaction → Result (Option A)) (t : Transaction) (o : Option A)
      → (m : List (String × A)) → load t ≡ ok o
      → Finds load t
      → Has t.transaction_id (set_defined t.transaction_id o m)
  found-Has load t (some a) m e f = set-Has t.transaction_id a m
  found-Has load t none m e (a, f) = absurd (ground arith)

  pub collect-Collected :
      (load : Transaction → Result (Option A)) (ts : List Transaction) (m : List (String × A))
      → All (Answers load) ts
      → Collected load ts m
  unfolding collect
  collect-Collected load [] m h = (m, refl, (λ key k. k), tt)
  collect-Collected load (t ∷ ts) m ((o, e), h) =
      let rest = collect-Collected load ts (set_defined t.transaction_id o m) h in
      (
        rest.0,
        rw e rest.1,
        (λ key k. rest.2 key (Has-set_defined key t.transaction_id o m k)),
        ((λ f. rest.2 t.transaction_id (found-Has load t o m e f)), rest.3),
      )
