-- ===== src/Cdrs/Receive/Tests.antt =====
-- A CDR that reaches the desk twice.
use citrineos_ocpi.Prelude.{◌≤◌, ◌≡◌, refl, none, some, [], ◌∷◌, arith, true}
use citrineos_ocpi.Js.{Nullable}
use citrineos_ocpi.Exec.{Thrown}
use citrineos_ocpi.Partner.{get_roaming_partner}
use citrineos_ocpi.Retry.World.{no_fault, Fault}
use citrineos_ocpi.Cdrs.Receive.{
  invalid_param, inserted, refused, ReceivedCdr, IncomingCdr, TenantPartner, Desk, DeskEnv,
  find_received, is_of_partner, new_row, insert_cdr, insert_of, find_then_insert, upsert_received,
  insert_received,
}
use citrineos_ocpi.Cdrs.Receive.Once.{copies, roaming, insert_cdr-copies, new_cdr_stored}
use citrineos_ocpi.Cdrs.Receive.Again.{resent_cdr_refused}

abbrev env : DeskEnv
env = record {
  fault = λ n. no_fault;
  next_id = λ rows. 9;
  column_of = λ s. none;
  stack = λ s. none;
}

-- The answer of the database is always lost.
abbrev lossy : DeskEnv
lossy = record env { fault = λ n. Fault.after (Thrown.text "socket hang up") }

abbrev sender : TenantPartner
sender = record {
  id = some 7;
  country_code = Nullable.value "FR";
  party_id = Nullable.value "107";
  roaming_partners = record { id = 3; country_code = "DE"; party_id = "EMS" } ∷ [];
}

abbrev cdr : IncomingCdr
cdr = record { id = "cdr-1"; country_code = "DE"; party_id = "EMS" }

abbrev empty_desk : Desk
empty_desk = record { rows = []; requests = 0 }

abbrev stored : ReceivedCdr
stored = record {
  id = 8;
  ocpi_cdr_id = "cdr-1";
  from_tenant_partner_id = 7;
  roaming_partner_id = some 3;
}

abbrev full_desk : Desk
full_desk = record { rows = stored ∷ []; requests = 0 }

roams : is_of_partner sender cdr ≡ true
unfolding is_of_partner get_roaming_partner
roams = refl

insert_cdr-copies_example :
    copies "cdr-1" 7 (some 3) (insert_cdr lossy sender cdr full_desk).1.rows ≤ 1
insert_cdr-copies_example =
    insert_cdr-copies lossy sender cdr full_desk "cdr-1" 7 (some 3) (omega arith)

missing : find_received "cdr-1" 7 (roaming env sender cdr empty_desk 6) [] ≡ none
unfolding find_received
missing = refl

new_cdr_stored_example :
    ((insert_cdr env sender cdr empty_desk).0 ≡ inserted 9)
    × (find_received "cdr-1" 7
          (roaming env sender cdr empty_desk 6)
          (insert_cdr env sender cdr empty_desk).1.rows
        ≡ some (new_row env cdr 7 (roaming env sender cdr empty_desk 6) []))
new_cdr_stored_example =
    new_cdr_stored env sender cdr empty_desk 6 8 refl roams missing refl refl refl

first_stored : (insert_cdr env sender cdr empty_desk).0 ≡ inserted 9
unfolding insert_cdr insert_of find_then_insert upsert_received insert_received is_of_partner
    find_received get_roaming_partner
first_stored = refl

still_answers : env.fault (insert_cdr env sender cdr empty_desk).1.requests ≡ no_fault
unfolding insert_cdr insert_of find_then_insert upsert_received insert_received is_of_partner
    find_received get_roaming_partner
still_answers = refl

resent_cdr_refused_example :
    let first = insert_cdr env sender cdr empty_desk in
    ((insert_cdr env sender cdr first.1).0
      ≡ refused (invalid_param "CDR with this ID already exists: cdr-1"))
    × ((insert_cdr env sender cdr first.1).1.rows ≡ first.1.rows)
resent_cdr_refused_example =
    resent_cdr_refused env cdr sender empty_desk 9 first_stored still_answers
