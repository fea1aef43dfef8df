-- ===== src/Cdrs.antt =====
-- The CDR of a transaction and its delivery: `insertSentCdr` of 00_Base/src/services/CdrsService.ts
-- and `broadcastPostCdr` of 00_Base/src/broadcaster/CdrBroadcaster.ts. Logging is left out.
pub mod Once
pub mod Marked
pub mod Receive
mod Tests
use citrineos_ocpi.Prelude.{
  ℕ, zero, suc, String, Bool, true, false, ◌&&◌, ◌==◌, Option, none, some, List, [], ◌∷◌, ◌++◌,
  str_eq, if◌then◌else◌,
}
use citrineos_ocpi.Js.{Nullable, undefined, value}
use citrineos_ocpi.Exec.{Thrown, Result, ok, err, Exec, continue, ◌>>=◌, ◌>>◌, pure, throw, catch}
use citrineos_ocpi.Model.{ModuleId, InterfaceRole, HttpMethod}
use citrineos_ocpi.Partner.{
  AuthWithPartners, get_ocpi_to_from_authorization, token_owner_partner_filter,
}
use citrineos_ocpi.Retry.World.{World, CdrRow, read_clock, request as database_request}
use citrineos_ocpi.Retry.Worker.{find_sent_cdr, mark_cdr_as_sent, is_success}
use citrineos_ocpi.Client.Body.{Json, Payload, object}
use citrineos_ocpi.Client.Net.{ClientEnv, Net, on_outbox}
use citrineos_ocpi.Client.Request.{from_result}
use citrineos_ocpi.Client.Broadcast.{BroadcastParams, broadcast_to_clients}

-- A CDR as the mapper gives it; `rest` holds its other fields.
pub record MappedCdr : Type 0 where
  pub country_code : String
  pub party_id : String
  pub id : String
  pub rest : List (String × Json)

-- The parts of a transaction that are read: its database id, authorization.tenantPartner?.id, and
-- the authorization's partners.
pub record CdrTransaction : Type 0 where
  pub id : Option ℕ
  pub tenant_partner_id : Option ℕ
  pub authorization : Nullable AuthWithPartners

pub record SentCdr : Type 0 where
  pub id : ℕ
  pub ocpi_cdr_id : String
  pub successfully_sent_at : Option ℕ

abbrev same_transaction : Option ℕ → ℕ → Bool
same_transaction none transaction = false
same_transaction (some t) transaction = t == transaction

-- The `where` of FIND_SENT_CDR_BY_TRANSACTION_QUERY.
abbrev pub is_cdr_of : ℕ → ℕ → CdrRow → Bool
is_cdr_of transaction partner row =
    same_transaction row.transaction_id transaction && row.to_tenant_partner_id == partner

abbrev pub is_named : String → ℕ → CdrRow → Bool
is_named ocpi_cdr_id partner row =
    str_eq row.ocpi_cdr_id ocpi_cdr_id && row.to_tenant_partner_id == partner

abbrev pub first : (CdrRow → Bool) → List CdrRow → Option CdrRow
first p [] = none
first p (r ∷ rs) = if p r then some r else first p rs

-- Look up by transaction first, and by the CDR's id without one.
unfoldable pub existing_cdr : Option ℕ → String → ℕ → List CdrRow → Option CdrRow
existing_cdr (some transaction) ocpi_cdr_id partner = first (is_cdr_of transaction partner)
existing_cdr none ocpi_cdr_id partner = first (is_named ocpi_cdr_id partner)

abbrev of_row : CdrRow → SentCdr
of_row row = record {
  id = row.id;
  ocpi_cdr_id = row.ocpi_cdr_id;
  successfully_sent_at = row.successfully_sent_at;
}

-- The database gives a new row its id. Of the columns of a row, those that are read later are kept.
module _ (c : ClientEnv) (next_id : List CdrRow → ℕ) where
  abbrev pub inserted_row : MappedCdr → Option ℕ → ℕ → List CdrRow → CdrRow
  inserted_row cdr transaction partner rows = record {
    id = next_id rows;
    ocpi_cdr_id = cdr.id;
    to_tenant_partner_id = partner;
    transaction_id = transaction;
    successfully_sent_at = none;
  }

  -- INSERT_CDR_MUTATION
  unfoldable pub insert_cdr : MappedCdr → Option ℕ → ℕ → World → ℕ × World
  insert_cdr cdr transaction partner w = (
    next_id w.cdrs,
    record w { cdrs = w.cdrs ++ inserted_row cdr transaction partner w.cdrs ∷ [] },
  )

  unfoldable pub insert_if_absent : MappedCdr → Option ℕ → ℕ → Option CdrRow → Exec Net SentCdr
  insert_if_absent cdr transaction partner (some row) = pure (of_row row)
  insert_if_absent cdr transaction partner none = do
    id ← on_outbox (database_request c.env (insert_cdr cdr transaction partner))
    pure (record { id = id; ocpi_cdr_id = cdr.id; successfully_sent_at = none })

  unfoldable pub insert_sent_cdr : ℕ → MappedCdr → Option ℕ → Exec Net SentCdr
  insert_sent_cdr zero cdr transaction =
      throw (Thrown.error (c.env.stack "Tenant partner not found") "Tenant partner not found")
  insert_sent_cdr (suc p) cdr transaction = do
    existing ←
        on_outbox (database_request c.env λ w. (existing_cdr transaction cdr.id (suc p) w.cdrs, w))
    insert_if_absent cdr transaction (suc p) existing

  -- The CDR goes out under the id that it was stored with.
  unfoldable pub cdr_params : MappedCdr → SentCdr → ℕ → Nullable AuthWithPartners → BroadcastParams
  cdr_params cdr sent partner authorization =
      let to = get_ocpi_to_from_authorization authorization in
      record {
        cpo_country_code = cdr.country_code;
        cpo_party_id = cdr.party_id;
        module_id = ModuleId.cdrs;
        interface_role = InterfaceRole.receiver;
        http_method = HttpMethod.post;
        routing_headers = none;
        url = none;
        body = some (
            object (
              ("country_code", Json.string cdr.country_code)
              ∷ ("party_id", Json.string cdr.party_id)
              ∷ ("id", Json.string sent.ocpi_cdr_id)
              ∷ cdr.rest));
        paginated_params = none;
        other_params = none;
        path = none;
        partner_filter = some (token_owner_partner_filter partner);
        ocpi_to_country_code = elim to [ none ↦ undefined | some t ↦ value t.0 ];
        ocpi_to_party_id = elim to [ none ↦ undefined | some t ↦ value t.1 ];
      }

  -- One answer, with the OCPI code of success.
  abbrev pub is_delivered : List (Option ℕ) → Bool
  is_delivered [] = false
  is_delivered (code ∷ []) = is_success code
  is_delivered (code ∷ more ∷ codes) = false

  unfoldable pub mark_delivered : SentCdr → Bool → Exec Net (Unit {0})
  mark_delivered sent false = pure tt
  mark_delivered sent true = do
    now ← on_outbox (read_clock c.env)
    on_outbox (mark_cdr_as_sent c.env sent.id now)

  -- if (sentCdr.successfullySentAt) return
  abbrev pub unless_sent : Option ℕ → Exec Net (Unit {0}) → Exec Net (Unit {0})
  unless_sent (some at) m = pure tt
  unless_sent none m = m

  -- The schema keeps the OCPI status code of an answer.
  module _ (parse : Option Payload → Option (Option ℕ)) where
    unfoldable pub deliver_cdr :
        MappedCdr → SentCdr → ℕ → Nullable AuthWithPartners → Exec Net (Unit {0})
    deliver_cdr cdr sent partner authorization =
        catch
          (do
            responses ← broadcast_to_clients c parse (cdr_params cdr sent partner authorization)
            mark_delivered sent (is_delivered responses))
          (λ _. pure tt)

    unfoldable pub deliver_once :
        MappedCdr → SentCdr → ℕ → Nullable AuthWithPartners → Exec Net (Unit {0})
    deliver_once cdr sent partner authorization =
        unless_sent sent.successfully_sent_at (deliver_cdr cdr sent partner authorization)

    unfoldable pub broadcast_cdr : MappedCdr → CdrTransaction → Option ℕ → Exec Net (Unit {0})
    broadcast_cdr cdr t none = pure tt
    broadcast_cdr cdr t (some partner) = do
      sent ← insert_sent_cdr partner cdr t.id
      deliver_once cdr sent partner t.authorization

    unfoldable pub broadcast_first : CdrTransaction → List MappedCdr → Exec Net (Unit {0})
    broadcast_first t [] = pure tt
    broadcast_first t (cdr ∷ cdrs) = broadcast_cdr cdr t t.tenant_partner_id

    -- `mapped` is what `mapTransactionsToCdrs` gives for the transaction, or throws.
    unfoldable pub broadcast_post_cdr :
        Result (List MappedCdr) → CdrTransaction → Exec Net (Unit {0})
    broadcast_post_cdr mapped t = do cdrs ← from_result c mapped; broadcast_first t cdrs
