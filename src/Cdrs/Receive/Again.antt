-- ===== src/Cdrs/Receive/Again.antt =====
-- A CDR that a partner sends again, after an answer that said that it was stored.
use citrineos_ocpi.Prelude.{
  ℕ, zero, suc, ◌+◌, ◌≡◌, refl, true, Option, none, some, List, inl, inr, Bool-cases, ◌⧺◌,
}
use citrineos_ocpi.Partner.{get_roaming_partner}
use citrineos_ocpi.Retry.World.{no_fault, Fault-cases}
use citrineos_ocpi.Cdrs.Receive.{
  invalid_param, inserted, refused, ReceivedCdr, IncomingCdr, TenantPartner, roaming_id, Desk,
  DeskEnv, find_received, is_of_partner, new_row, insert_received, upsert_received,
  find_then_insert, insert_of, with_id, insert_cdr,
}
use citrineos_ocpi.Cdrs.Receive.Once.{find-append, new_row-is_received}

module _ (env : DeskEnv) (cdr : IncomingCdr) where
  -- The CDR has a row under this key.
  abbrev IsStored : ℕ → Option ℕ → List ReceivedCdr → Type 0
  IsStored p r rows = (row : ReceivedCdr) × (find_received cdr.id p r rows ≡ some row)

  insert-IsStored :
      (p : ℕ) (r : Option ℕ) (d : Desk) (new : ℕ)
      → find_received cdr.id p r d.rows ≡ none
      → (insert_received env cdr p r d).0 ≡ inserted new
      → IsStored p r (insert_received env cdr p r d).1.rows
  unfolding insert_received
  insert-IsStored p r d new missing h = elim (Fault-cases (env.fault d.requests)) [
    | inl f ↦ rw f (
      new_row env cdr p r d.rows,
      find-append cdr.id p r d.rows _ missing (new_row-is_received env cdr p r d.rows),
    )
    | inr (inl (e, f)) ↦ absurd (cc (rw f at h))
    | inr (inr (e, f)) ↦ absurd (cc (rw f at h))
  ]

  upsert-IsStored :
      (p : ℕ) (r : Option ℕ) (o : Option ReceivedCdr) (d : Desk) (new : ℕ)
      → find_received cdr.id p r d.rows ≡ o
      → (upsert_received env cdr p r o d).0 ≡ inserted new
      → IsStored p r (upsert_received env cdr p r o d).1.rows
  unfolding upsert_received
  upsert-IsStored p r none d new found h = insert-IsStored p r d new found h
  upsert-IsStored p r (some row) d new found h = absurd cc

  find_then_insert-IsStored :
      (p : ℕ) (r : Option ℕ) (d : Desk) (new : ℕ)
      → (find_then_insert env cdr p r d).0 ≡ inserted new
      → IsStored p r (find_then_insert env cdr p r d).1.rows
  unfolding find_then_insert
  find_then_insert-IsStored p r d new h = elim (Fault-cases (env.fault d.requests)) [
    | inl f ↦
        rw f (upsert-IsStored p r _ (record d { requests = d.requests + 1 }) new refl (rw f at h))
    | inr (inl (e, f)) ↦ absurd (cc (rw f at h))
    | inr (inr (e, f)) ↦ absurd (cc (rw f at h))
  ]

  module _ (t : TenantPartner) where
    -- The CDR is stored as one of the tenant partner, which has an id.
    abbrev IsOwned : List ReceivedCdr → Type 0
    IsOwned rows =
        (p : ℕ) × (t.id ≡ some (suc p))
        × (is_of_partner t cdr ≡ true)
        × IsStored (suc p)
            (roaming_id (get_roaming_partner t.roaming_partners cdr.country_code cdr.party_id)) rows

    with_id-IsOwned :
        (o : Option ℕ) (d : Desk) (new : ℕ)
        → t.id ≡ o
        → (with_id env t cdr o d).0 ≡ inserted new
        → IsOwned (with_id env t cdr o d).1.rows
    unfolding insert_of
    with_id-IsOwned none d new own h = absurd cc
    with_id-IsOwned (some zero) d new own h = absurd cc
    with_id-IsOwned (some (suc p)) d new own h = elim (Bool-cases (is_of_partner t cdr)) [
      | inl e ↦ rw e (p, own, refl, find_then_insert-IsStored (suc p) _ d new (rw e at h))
      | inr e ↦ absurd (cc (rw e at h))
    ]

    insert_cdr-IsOwned :
        (d : Desk) (new : ℕ)
        → (insert_cdr env t cdr d).0 ≡ inserted new
        → IsOwned (insert_cdr env t cdr d).1.rows
    unfolding insert_cdr
    insert_cdr-IsOwned d new h = with_id-IsOwned t.id d new refl h

    refused_again :
        (d : Desk)
        → IsOwned d.rows
        → env.fault d.requests ≡ no_fault
        → ((insert_cdr env t cdr d).0
            ≡ refused (invalid_param ("CDR with this ID already exists: " ⧺ cdr.id)))
          × ((insert_cdr env t cdr d).1.rows ≡ d.rows)
    unfolding insert_cdr insert_of find_then_insert upsert_received is_of_partner
    refused_again d (p, own, of_partner, (row, there)) f =
        rw (own, of_partner, f, there) (refl, refl)

    -- A CDR whose insertion was answered with an id is refused as existing when it comes again from the
    -- same partner and the database answers the look-up; and no row changes then.
    pub resent_cdr_refused :
        (d : Desk) (new : ℕ)
        → (insert_cdr env t cdr d).0 ≡ inserted new
        → env.fault (insert_cdr env t cdr d).1.requests ≡ no_fault
        → let again = insert_cdr env t cdr (insert_cdr env t cdr d).1 in
          (again.0 ≡ refused (invalid_param ("CDR with this ID already exists: " ⧺ cdr.id)))
          × (again.1.rows ≡ (insert_cdr env t cdr d).1.rows)
    resent_cdr_refused d new h f =
        refused_again (insert_cdr env t cdr d).1 (insert_cdr-IsOwned d new h) f
