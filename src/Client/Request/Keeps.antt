-- ===== src/Client/Request/Keeps.antt =====
-- A request to a partner does not touch the retry queue, and is not sent without a token.
use citrineos_ocpi.Prelude.{List, String, Option, none, some}
use citrineos_ocpi.Js.{Nullable}
use citrineos_ocpi.Exec.{Result, Exec}
use citrineos_ocpi.Exec.Keeps.{Keeps, Keeps-bind, Keeps-pure}
use citrineos_ocpi.Partner.{BroadcastPartner, PartnerProfile}
use citrineos_ocpi.Retry.Queue.{Table}
use citrineos_ocpi.Retry.World.{World, CdrRow, fresh_uuid}
use citrineos_ocpi.Retry.World.Keeps.{KeepsTables, Keeps-request}
use citrineos_ocpi.Client.Body.{Payload}
use citrineos_ocpi.Client.Net.{ClientEnv, Net, Sending, on_outbox}
use citrineos_ocpi.Client.Request.{
  RequestParams, get_headers, of_partner, profile_of, first_partner, from_result, resolve_partner,
  load_client, send, request_with, request,
}

module _ (P : Table → List CdrRow → Type 0) where
  abbrev pub KeepsData : {A : Type 0} → Exec Net A → Type 0
  KeepsData m = Keeps (λ n. P n.outbox.table n.outbox.cdrs) m

  pub on_outbox-Keeps : {A : Type 0} (m : Exec World A) → KeepsTables P m → KeepsData (on_outbox m)
  on_outbox-Keeps m k = record { at = λ n h. k.at n.outbox h }

  module _ (c : ClientEnv) where
    pub from_result-Keeps : {A : Type 0} (r : Result A) → KeepsData (from_result c r)
    from_result-Keeps r = record { at = λ n h. h }

    fresh_uuid-Keeps : KeepsData (on_outbox (fresh_uuid c.env))
    unfolding fresh_uuid
    fresh_uuid-Keeps = record { at = λ n h. h }

    get_headers-Keeps : (profile : PartnerProfile) → KeepsData (get_headers c profile)
    unfolding get_headers
    get_headers-Keeps profile = Keeps-bind _ _ fresh_uuid-Keeps (λ a.
        Keeps-bind _ _ fresh_uuid-Keeps
          (λ b. Keeps-bind _ _ (from_result-Keeps _) (λ t. Keeps-pure _)))

    of_partner-Keeps : (r : RequestParams) (p : BroadcastPartner) → KeepsData (of_partner c r p)
    unfolding of_partner
    of_partner-Keeps r p =
        Keeps-bind _ _ (from_result-Keeps (profile_of c p.profile)) (λ t. Keeps-pure _)

    resolve-Keeps :
        (r : RequestParams) (o : Option PartnerProfile) → KeepsData (resolve_partner c r o)
    unfolding resolve_partner
    resolve-Keeps r (some profile) = Keeps-pure _
    resolve-Keeps r none =
        Keeps-bind _ _ (on_outbox-Keeps _ (Keeps-request P c.env _ (λ w h. h)))
          (λ ps. Keeps-bind _ _ (from_result-Keeps (first_partner c ps)) (of_partner-Keeps r))

    load_client-Keeps : (o : Option String) → KeepsData (load_client c o)
    unfolding load_client
    load_client-Keeps none = Keeps-pure tt
    load_client-Keeps (some arn) = record { at = λ n h. h }

    send-Keeps : (s : Sending) → KeepsData (send c s)
    unfolding send
    send-Keeps s = record { at = λ n h. h }

    module _ {A : Type 0} (parse : Option Payload → Option A) (r : RequestParams) where
      request_with-Keeps :
          (p : PartnerProfile × Nullable String) → KeepsData (request_with c parse r p)
      unfolding request_with
      request_with-Keeps (profile, arn) = Keeps-bind _ _ (from_result-Keeps _) (λ base.
          Keeps-bind _ _ (get_headers-Keeps profile) (λ identity.
            Keeps-bind _ _ (load_client-Keeps _)
              (λ _. Keeps-bind _ _ (send-Keeps _) (λ response. from_result-Keeps _))))

      pub request-Keeps : KeepsData (request c parse r)
      unfolding request
      request-Keeps = Keeps-bind _ _ (resolve-Keeps r r.partner_profile) request_with-Keeps
