-- ===== src/Cdrs/Receive/Once.antt =====
-- A received CDR is stored once.
use citrineos_ocpi.Prelude.{
  ℕ, zero, suc, ◌+◌, ◌≤◌, ◌≡◌, refl, sym, ap, ◌∙◌, String, true, Option, none, some, List, [], ◌∷◌,
  ◌++◌, arith, eq_iff, if◌then◌else◌, inl, inr, Bool-cases,
}
use citrineos_ocpi.Partner.{get_roaming_partner}
use citrineos_ocpi.Retry.World.{no_fault, Fault-cases}
use citrineos_ocpi.Cdrs.Receive.{
  inserted, ReceivedCdr, IncomingCdr, TenantPartner, Desk, DeskEnv, is_received, find_received,
  roaming_id, is_of_partner, new_row, insert_received, upsert_received, find_then_insert, insert_of,
  with_id, insert_cdr, checked, same_roaming,
}

-- How many rows hold the CDR of this id from this partner and roaming partner.
abbrev pub copies : String → ℕ → Option ℕ → List ReceivedCdr → ℕ
copies id p r [] = 0
copies id p r (row ∷ rows) = (if is_received id p r row then 1 else 0) + copies id p r rows

copies-append :
    (id : String) (p : ℕ) (r : Option ℕ) (xs : List ReceivedCdr) (y : ReceivedCdr)
    → copies id p r (xs ++ y ∷ []) ≡ copies id p r xs + (if is_received id p r y then 1 else 0)
copies-append id p r [] y = omega arith
copies-append id p r (x ∷ xs) y = omega (arith, copies-append id p r xs y)

none-copies :
    (id : String) (p : ℕ) (r : Option ℕ) (rows : List ReceivedCdr)
    → find_received id p r rows ≡ none
    → copies id p r rows ≡ 0
unfolding find_received
none-copies id p r [] h = refl
none-copies id p r (row ∷ rows) h = ground (arith, none-copies id p r rows)

pub find-append :
    (id : String) (p : ℕ) (r : Option ℕ) (xs : List ReceivedCdr) (y : ReceivedCdr)
    → find_received id p r xs ≡ none
    → is_received id p r y ≡ true
    → find_received id p r (xs ++ y ∷ []) ≡ some y
unfolding find_received
find-append id p r [] y h e = rw e
find-append id p r (x ∷ xs) y h e = ground (arith, find-append id p r xs y, e)

same_roaming-eq : (r s : Option ℕ) → same_roaming r s ≡ true → r ≡ s
same_roaming-eq none none h = refl
same_roaming-eq none (some b) h = absurd (ground (arith, h))
same_roaming-eq (some a) none h = absurd (ground (arith, h))
same_roaming-eq (some a) (some b) h = ap (λ x. some x) (ground (arith, h))

module _ (env : DeskEnv) where
  pub new_row-is_received :
      (cdr : IncomingCdr) (p : ℕ) (r : Option ℕ) (rows : List ReceivedCdr)
      → is_received cdr.id p r (new_row env cdr p r rows) ≡ true
  new_row-is_received cdr p none rows = ground (arith, eq_iff cdr.id cdr.id)
  new_row-is_received cdr p (some k) rows = ground (arith, eq_iff cdr.id cdr.id)

  same_key :
      (cdr : IncomingCdr) (p : ℕ) (r : Option ℕ) (rows : List ReceivedCdr) (id : String) (q : ℕ)
      (s : Option ℕ)
      → is_received id q s (new_row env cdr p r rows) ≡ true
      → (cdr.id ≡ id) × (p ≡ q) × (r ≡ s)
  same_key cdr p r rows id q s h = (
    ground (arith, h, eq_iff cdr.id id),
    ground (arith, h),
    same_roaming-eq r s (ground (arith, h)),
  )

  appended-copies :
      (cdr : IncomingCdr) (p : ℕ) (r : Option ℕ) (rows : List ReceivedCdr) (id : String) (q : ℕ)
      (s : Option ℕ)
      → find_received cdr.id p r rows ≡ none
      → copies id q s rows ≤ 1
      → copies id q s (rows ++ new_row env cdr p r rows ∷ []) ≤ 1
  appended-copies cdr p r rows id q s h k =
      let row = new_row env cdr p r rows in
      elim (Bool-cases (is_received id q s row)) [
        | inl e ↦
            let (a, b, c) = same_key cdr p r rows id q s e in
            let zero_copies : copies id q s rows ≡ 0 = none-copies id q s rows (
              ap (λ x. find_received x q s rows) (sym a)
              ∙ ap (λ x. find_received cdr.id x s rows) (sym b)
              ∙ ap (λ x. find_received cdr.id p x rows) (sym c)
              ∙ h) in
            ground (arith, copies-append id q s rows row, zero_copies, e)
        | inr e ↦ ground (arith, copies-append id q s rows row, e, k)
      ]

  insert-copies :
      (cdr : IncomingCdr) (p : ℕ) (r : Option ℕ) (d : Desk) (id : String) (q : ℕ) (s : Option ℕ)
      → find_received cdr.id p r d.rows ≡ none
      → copies id q s d.rows ≤ 1
      → copies id q s (insert_received env cdr p r d).1.rows ≤ 1
  unfolding insert_received
  insert-copies cdr p r d id q s h k =
      let kept = appended-copies cdr p r d.rows id q s h k in
      elim (Fault-cases (env.fault d.requests)) [
        | inl f ↦ rw f kept
        | inr (inl (e, f)) ↦ rw f k
        | inr (inr (e, f)) ↦ rw f kept
      ]

  upsert-copies :
      (cdr : IncomingCdr) (p : ℕ) (r : Option ℕ) (o : Option ReceivedCdr) (d : Desk) (id : String)
      (q : ℕ) (s : Option ℕ)
      → find_received cdr.id p r d.rows ≡ o
      → copies id q s d.rows ≤ 1
      → copies id q s (upsert_received env cdr p r o d).1.rows ≤ 1
  unfolding upsert_received
  upsert-copies cdr p r none d id q s h k = insert-copies cdr p r d id q s h k
  upsert-copies cdr p r (some row) d id q s h k = k

  find_then_insert-copies :
      (cdr : IncomingCdr) (p : ℕ) (r : Option ℕ) (d : Desk) (id : String) (q : ℕ) (s : Option ℕ)
      → copies id q s d.rows ≤ 1
      → copies id q s (find_then_insert env cdr p r d).1.rows ≤ 1
  unfolding find_then_insert
  find_then_insert-copies cdr p r d id q s k = elim (Fault-cases (env.fault d.requests)) [
    | inl f ↦ rw f (upsert-copies cdr p r _ (record d { requests = d.requests + 1 }) id q s refl k)
    | inr (inl (e, f)) ↦ rw f k
    | inr (inr (e, f)) ↦ rw f k
  ]

  insert_of-copies :
      (t : TenantPartner) (cdr : IncomingCdr) (p : ℕ) (d : Desk) (id : String) (q : ℕ)
      (s : Option ℕ)
      → copies id q s d.rows ≤ 1
      → copies id q s (insert_of env t cdr p d).1.rows ≤ 1
  unfolding insert_of
  insert_of-copies t cdr p d id q s k = elim (Bool-cases (is_of_partner t cdr)) [
    | inl e ↦ rw e (find_then_insert-copies cdr p _ d id q s k)
    | inr e ↦ rw e k
  ]

  -- A call stores a CDR at most once, whatever fails: at most one row has the id of a CDR from a
  -- partner and a roaming partner, if that was so before.
  pub insert_cdr-copies :
      (t : TenantPartner) (cdr : IncomingCdr) (d : Desk) (id : String) (q : ℕ) (s : Option ℕ)
      → copies id q s d.rows ≤ 1
      → copies id q s (insert_cdr env t cdr d).1.rows ≤ 1
  unfolding insert_cdr
  insert_cdr-copies t cdr d id q s k = go t.id
    where
      go : (o : Option ℕ) → copies id q s (with_id env t cdr o d).1.rows ≤ 1
      go none = k
      go (some zero) = k
      go (some (suc p)) = insert_of-copies t cdr (suc p) d id q s k

  module _ (t : TenantPartner) (cdr : IncomingCdr) (d : Desk) (p : ℕ) where
    abbrev pub roaming : Option ℕ
    roaming = roaming_id (get_roaming_partner t.roaming_partners cdr.country_code cdr.party_id)

    -- With a database that answers, a CDR of the partner that is not stored yet is stored, and found
    -- under its key from then on.
    pub new_cdr_stored :
        (new : ℕ)
        → t.id ≡ some (suc p)
        → is_of_partner t cdr ≡ true
        → find_received cdr.id (suc p) roaming d.rows ≡ none
        → env.next_id d.rows ≡ suc new
        → env.fault d.requests ≡ no_fault
        → env.fault (d.requests + 1) ≡ no_fault
        → ((insert_cdr env t cdr d).0 ≡ inserted (suc new))
          × (find_received cdr.id (suc p) roaming (insert_cdr env t cdr d).1.rows
              ≡ some (new_row env cdr (suc p) roaming d.rows))
    unfolding insert_cdr insert_of find_then_insert upsert_received insert_received is_of_partner
        find_received get_roaming_partner
    new_cdr_stored new own of_partner missing fresh f g =
        rw (own, of_partner, f, missing, g)
          (
            ap (checked env cdr) fresh,
            find-append cdr.id (suc p) roaming d.rows _ missing
                (new_row-is_received cdr (suc p) roaming d.rows),
          )
