-- ===== src/Sessions/Broadcaster.antt =====
-- 00_Base/src/broadcaster/SessionBroadcaster.ts: the pushes of a session to the partner that owns
-- the token. Logging is left out, and so is `broadcastSession`, which nothing calls.
pub mod Outcome
use citrineos_ocpi.Prelude.{
  ℕ, zero, suc, String, Bool, true, false, ◌&&◌, not, ◌==◌, Option, none, some, List, if◌then◌else◌,
  ◌⧺◌,
}
use citrineos_ocpi.Js.{Nullable, undefined, null, value}
use citrineos_ocpi.Exec.{Thrown, Result, ok, err, Exec, continue, ◌>>=◌, ◌>>◌, pure, throw, catch}
use citrineos_ocpi.Model.{ModuleId, InterfaceRole, HttpMethod}
use citrineos_ocpi.Partner.{
  BroadcastPartner, AuthWithPartners, TokenOwnerPartner, is_gireve_partner,
  get_ocpi_to_from_authorization, token_owner_partner_filter,
}
use citrineos_ocpi.Client.Body.{Body, Payload}
use citrineos_ocpi.Client.Net.{ClientEnv, Net}
use citrineos_ocpi.Client.Broadcast.{BroadcastParams, broadcast_to_clients}
use citrineos_ocpi.Sessions.Dedupe.{
  Texts, SessionBody, Dedupe, should_broadcast, mark_in_flight, mark_sent, mark_failed, clear,
}

pub record Live : Type 0 where
  pub net : Net
  pub dedupe : Dedupe

-- A body as the mapper gives it: what the fingerprint reads, the JSON, and the id.
pub record MappedSession : Type 0 where
  pub id : String
  pub session : SessionBody
  pub json : Body

pub record Tenant : Type 0 where
  pub country_code : String
  pub party_id : String

-- The parts of a transaction that are read.
pub record SessionTransaction : Type 0 where
  pub transaction_id : String
  pub authorization : Nullable AuthWithPartners

-- One call of `broadcastSessionDeduped`.
pub record SessionPush : Type 0 where
  pub transaction_id : String
  pub partner_id : ℕ
  pub tenant : Tenant
  pub body : MappedSession
  pub method : HttpMethod
  pub path : String
  pub partner_filter : BroadcastPartner → Bool
  pub ocpi_to : Option (String × String)

abbrev pub session_path : Tenant → String → String
session_path tenant id = ("/" ⧺ (tenant.country_code ⧺ ("/" ⧺ tenant.party_id))) ⧺ ("/" ⧺ id)

abbrev on_net : {A : Type 0} → Exec Net A → Exec Live A
on_net m l = ((m l.net).0, record l { net = (m l.net).1 })

abbrev on_dedupe : (Dedupe → Dedupe) → Exec Live (Unit {0})
on_dedupe f l = (ok tt, record l { dedupe = f l.dedupe })

abbrev pub session_params : SessionPush → BroadcastParams
session_params p = record {
  cpo_country_code = p.tenant.country_code;
  cpo_party_id = p.tenant.party_id;
  module_id = ModuleId.sessions;
  interface_role = InterfaceRole.receiver;
  http_method = p.method;
  routing_headers = none;
  url = none;
  body = some p.body.json;
  paginated_params = none;
  other_params = none;
  path = some p.path;
  partner_filter = some p.partner_filter;
  ocpi_to_country_code = elim p.ocpi_to [ none ↦ undefined | some to ↦ value to.0 ];
  ocpi_to_party_id = elim p.ocpi_to [ none ↦ undefined | some to ↦ value to.1 ];
}

-- authorization?.tenantPartner, if it is there and is Gireve
abbrev owner_is_gireve : ClientEnv → Nullable TokenOwnerPartner → Bool
owner_is_gireve c (value owner) = is_gireve_partner c.env.config owner.country_code owner.party_id
owner_is_gireve c _ = false

abbrev tenant_partner : Nullable AuthWithPartners → Nullable TokenOwnerPartner
tenant_partner (value auth) = auth.tenant_partner
tenant_partner _ = undefined

module _ (texts : Texts) (c : ClientEnv) {A : Type 0} (parse : Option Payload → Option A) where
  abbrev pub wanted : SessionPush → Dedupe → Bool
  wanted p d = should_broadcast texts d p.transaction_id p.partner_id p.method p.body.session

  unfoldable pub push_marked : SessionPush → Exec Live (Unit {0})
  push_marked p =
      catch
        (do
          on_net (broadcast_to_clients c parse (session_params p))
          on_dedupe (λ d. mark_sent texts d p.transaction_id p.partner_id p.method p.body.session))
        (λ e. do
          on_dedupe (λ d. mark_failed texts d p.transaction_id p.partner_id p.method)
          throw e)

  unfoldable pub broadcast_session_deduped : SessionPush → Exec Live (Unit {0})
  broadcast_session_deduped p l =
      if wanted p l.dedupe
      then push_marked p (record l {
        dedupe = mark_in_flight texts l.dedupe p.transaction_id p.partner_id p.method;
      })
      else (ok tt, l)

  abbrev from_mapper : {B : Type 0} → Result B → Exec Live B
  from_mapper r l = (r, l)

  abbrev push_of :
      Tenant
      → SessionTransaction
      → ℕ
      → String
      → MappedSession
      → HttpMethod
      → String
      → (BroadcastPartner → Bool)
      → SessionPush
  push_of tenant t owner id session method path filter = record {
    transaction_id = id;
    partner_id = owner;
    tenant = tenant;
    body = session;
    method = method;
    path = path;
    partner_filter = filter;
    ocpi_to = get_ocpi_to_from_authorization t.authorization;
  }

  -- `mapped` is what mapTransactionToSession gives, or throws. No owner, and an owner 0, end it.
  unfoldable pub broadcast_put_session :
      Result MappedSession → Tenant → SessionTransaction → Nullable ℕ → Exec Live (Unit {0})
  broadcast_put_session mapped tenant t (value (suc owner)) = do
    session ← from_mapper mapped
    broadcast_session_deduped (
        push_of tenant t (suc owner) session.id session HttpMethod.put
          (session_path tenant session.id) (token_owner_partner_filter (suc owner)))
  broadcast_put_session mapped tenant t _ = pure tt

  -- Gireve gets the whole session, any other owner the changes: `mapped` and `changes` are what the
  -- mapper gives for the two.
  unfoldable pub broadcast_patch_session :
      Result MappedSession
      → Result MappedSession
      → Tenant
      → SessionTransaction
      → Nullable ℕ
      → Exec Live (Unit {0})
  broadcast_patch_session mapped changes tenant t (value owner) =
      let path = session_path tenant t.transaction_id in
      let gireve : BroadcastPartner → Bool =
        λ p. is_gireve_partner c.env.config p.country_code p.party_id in
      if owner_is_gireve c (tenant_partner t.authorization)
      then (do
        session ← from_mapper mapped
        broadcast_session_deduped (
            push_of tenant t owner t.transaction_id session HttpMethod.put path
              (λ p. p.id == owner && gireve p)))
      else (do
        session ← from_mapper changes
        broadcast_session_deduped (
            push_of tenant t owner t.transaction_id session HttpMethod.patch path
              (λ p. p.id == owner && not (gireve p))))
  broadcast_patch_session mapped changes tenant t _ = pure tt

unfoldable pub clear_session_broadcast_dedupe : String → Live → Live
clear_session_broadcast_dedupe transaction_id l = record l {
  dedupe = clear l.dedupe transaction_id;
}
