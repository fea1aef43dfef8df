-- ===== src/Cdrs/Receive.antt =====
-- A CDR that a partner sends: `insertCdr` of 00_Base/src/services/CdrsService.ts, on `findThenUpsert`
-- of 00_Base/src/util/helpers.ts. A request to the database may fail before or after it took effect.
pub mod Once
pub mod Again
mod Tests
use text.Mathlib.Text.{find?}
use citrineos_ocpi.Prelude.{
  ℕ, zero, suc, ◌+◌, ◌==◌, String, Bool, true, false, ◌&&◌, ◌||◌, not, Option, none, some, List, [],
  ◌∷◌, ◌++◌, str_eq, if◌then◌else◌, ◌⧺◌,
}
use citrineos_ocpi.Js.{Nullable, value, strict_eq}
use citrineos_ocpi.Exec.{Thrown}
use citrineos_ocpi.Partner.{RoamingPartner, get_roaming_partner}
use citrineos_ocpi.Retry.World.{Fault, no_fault, before, after}

-- InvalidParamException, MissingParamException, or what else was thrown.
pub data InsertError : Type 0 where
  invalid_param : String → InsertError
  missing_param : String → InsertError
  thrown : Thrown → InsertError

pub data Outcome : Type 0 where
  inserted : ℕ → Outcome
  refused : InsertError → Outcome

-- The columns of a received CDR that the look-ups read.
pub record ReceivedCdr : Type 0 where
  pub id : ℕ
  pub ocpi_cdr_id : String
  pub from_tenant_partner_id : ℕ
  pub roaming_partner_id : Option ℕ

pub record IncomingCdr : Type 0 where
  pub id : String
  pub country_code : String
  pub party_id : String

pub record TenantPartner : Type 0 where
  pub id : Option ℕ
  pub country_code : Nullable String
  pub party_id : Nullable String
  pub roaming_partners : List RoamingPartner

pub record Desk : Type 0 where
  pub rows : List ReceivedCdr
  pub requests : ℕ

pub record DeskEnv : Type 0 where
  pub fault : ℕ → Fault
  pub next_id : List ReceivedCdr → ℕ
  -- message.match(/null value in column "(\w+)"/), its group
  pub column_of : String → Option String
  pub stack : String → Option String

abbrev pub same_roaming : Option ℕ → Option ℕ → Bool
same_roaming none none = true
same_roaming (some a) (some b) = a == b
same_roaming _ _ = false

-- The `where` of FIND_CDR_P2P_QUERY and of FIND_CDR_ROAMING_QUERY.
abbrev pub is_received : String → ℕ → Option ℕ → ReceivedCdr → Bool
is_received ocpi_cdr_id partner roaming r =
    str_eq r.ocpi_cdr_id ocpi_cdr_id
    && r.from_tenant_partner_id == partner
    && same_roaming r.roaming_partner_id roaming

unfoldable pub find_received : String → ℕ → Option ℕ → List ReceivedCdr → Option ReceivedCdr
find_received ocpi_cdr_id partner roaming [] = none
find_received ocpi_cdr_id partner roaming (r ∷ rs) =
    if is_received ocpi_cdr_id partner roaming r
    then some r
    else find_received ocpi_cdr_id partner roaming rs

abbrev pub roaming_id : Option RoamingPartner → Option ℕ
roaming_id none = none
roaming_id (some r) = some r.id

-- error instanceof Error ? error.message : String(error)
abbrev message_of : Thrown → String
message_of (Thrown.error stack message) = message
message_of (Thrown.text s) = s
message_of (Thrown.other json s) = s

abbrev includes : String → String → Bool
includes s part = elim (find? s part) [ none ↦ false | some i ↦ true ]

-- The CDR is of the partner itself, or of a partner that roams through it.
unfoldable pub is_of_partner : TenantPartner → IncomingCdr → Bool
is_of_partner p cdr =
    (strict_eq p.country_code (value cdr.country_code) && strict_eq p.party_id (value cdr.party_id))
    || elim (get_roaming_partner p.roaming_partners cdr.country_code cdr.party_id) [
      | none ↦ false
      | some r ↦ true
    ]

module _ (env : DeskEnv) where
  abbrev pub new_row : IncomingCdr → ℕ → Option ℕ → List ReceivedCdr → ReceivedCdr
  new_row cdr partner roaming rows = record {
    id = env.next_id rows;
    ocpi_cdr_id = cdr.id;
    from_tenant_partner_id = partner;
    roaming_partner_id = roaming;
  }

  abbrev pub already : IncomingCdr → InsertError
  already cdr = invalid_param ("CDR with this ID already exists: " ⧺ cdr.id)

  abbrev plain_error : String → InsertError
  plain_error message = thrown (Thrown.error (env.stack message) message)

  unfoldable pub extract_constraint_field : String → String
  extract_constraint_field message = elim (env.column_of message) [
    | none ↦ "unknown field"
    | some column ↦ column
  ]

  -- The handler of `insertCdr`, for what is neither of its two exceptions.
  unfoldable pub translate : IncomingCdr → Thrown → InsertError
  translate cdr e =
      let message = message_of e in
      if includes message "unique constraint" || includes message "duplicate key"
      then already cdr
      else if includes message "constraint-violation" || includes message "not-null constraint"
      then missing_param
          ("CDR insert failed due to missing required field: " ⧺ extract_constraint_field message)
      else thrown e

  -- `if (!inserted?.id) throw new Error('Insert failed')`, as the handler sees it.
  abbrev pub checked : IncomingCdr → ℕ → Outcome
  checked cdr zero =
      refused (translate cdr (Thrown.error (env.stack "Insert failed") "Insert failed"))
  checked cdr (suc id) = inserted (suc id)

  abbrev insert_answer : IncomingCdr → ℕ → List ReceivedCdr → Fault → Desk → Outcome × Desk
  insert_answer cdr id rows no_fault d = (checked cdr id, record d { rows = rows })
  insert_answer cdr id rows (before e) d = (refused (translate cdr e), d)
  insert_answer cdr id rows (after e) d = (refused (translate cdr e), record d { rows = rows })

  -- INSERT_CDR_MUTATION
  unfoldable pub insert_received : IncomingCdr → ℕ → Option ℕ → Desk → Outcome × Desk
  insert_received cdr partner roaming d =
      insert_answer cdr (env.next_id d.rows) (d.rows ++ new_row cdr partner roaming d.rows ∷ [])
        (env.fault d.requests) (record d { requests = d.requests + 1 })

  -- The two branches of `findThenUpsert`: `beforeUpdate` refuses an existing CDR.
  unfoldable pub upsert_received :
      IncomingCdr → ℕ → Option ℕ → Option ReceivedCdr → Desk → Outcome × Desk
  upsert_received cdr partner roaming none d = insert_received cdr partner roaming d
  upsert_received cdr partner roaming (some row) d = (refused (already cdr), d)

  abbrev find_answer : IncomingCdr → ℕ → Option ℕ → Fault → Desk → Outcome × Desk
  find_answer cdr partner roaming no_fault d =
      upsert_received cdr partner roaming (find_received cdr.id partner roaming d.rows) d
  find_answer cdr partner roaming (before e) d = (refused (translate cdr e), d)
  find_answer cdr partner roaming (after e) d = (refused (translate cdr e), d)

  unfoldable pub find_then_insert : IncomingCdr → ℕ → Option ℕ → Desk → Outcome × Desk
  find_then_insert cdr partner roaming d =
      find_answer cdr partner roaming (env.fault d.requests)
        (record d { requests = d.requests + 1 })

  unfoldable pub insert_of : TenantPartner → IncomingCdr → ℕ → Desk → Outcome × Desk
  insert_of p cdr id d =
      if is_of_partner p cdr
      then find_then_insert cdr id
          (roaming_id (get_roaming_partner p.roaming_partners cdr.country_code cdr.party_id)) d
      else (
        refused (plain_error "Tenant partner does not match session or roaming partner not found"),
        d,
      )

  -- A missing id, or 0, ends it at once.
  abbrev pub with_id : TenantPartner → IncomingCdr → Option ℕ → Desk → Outcome × Desk
  with_id p cdr (some (suc id)) d = insert_of p cdr (suc id) d
  with_id p cdr _ d = (refused (plain_error "Tenant partner not found"), d)

  unfoldable pub insert_cdr : TenantPartner → IncomingCdr → Desk → Outcome × Desk
  insert_cdr p cdr d = with_id p cdr p.id d
