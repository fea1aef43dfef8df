-- ===== src/Client/Request/Token.antt =====
-- What a request sends, and what it accepts.
use citrineos_ocpi.Prelude.{
  ◌≤◌, ◌≡◌, refl, sym, ap, subst, ◌∙◌, ◌↔◌, String, ◌&&◌, Option, none, some, arith, inl, inr, leb,
  Option-cases, Bool-cases,
}
use citrineos_ocpi.Js.{Nullable}
use citrineos_ocpi.Exec.{Thrown, Result, ok, err, continue, Result-cases}
use citrineos_ocpi.Partner.{PartnerProfile}
use citrineos_ocpi.Retry.World.{fresh_uuid}
use citrineos_ocpi.Client.Body.{Payload, HttpResponse}
use citrineos_ocpi.Client.Response.{Web, filled, handle_response, paged, validated}
use citrineos_ocpi.Client.Net.{ClientEnv, Net}
use citrineos_ocpi.Client.Request.{
  RequestParams, get_headers, resolve_partner, request, token_header, base_url, request_with,
}

validated-some :
    (web : Web) {A : Type 0} (o : Option A) (a : A) → validated web o ≡ ok a → o ≡ some a
validated-some web o a h = elim (Option-cases o) [
  | inl e ↦ absurd (ground (arith, e, h))
  | inr (x, e) ↦
      e
      ∙ ap (λ r. elim r [ ok y ↦ some y | err e ↦ none ]) (subst (λ p. validated web p ≡ ok a) e h)
]

-- A response is accepted exactly when its HTTP status is between 200 and 299 and the schema accepts
-- its JSON with the paging fields filled in; the value is the one that the schema gives.
handle_response_iff :
    (web : Web) {A : Type 0} (parse : Option Payload → Option A) (response : HttpResponse) (a : A)
    → (handle_response web parse response ≡ ok a) ↔ (
        (200 ≤ response.status_code)
        × (response.status_code ≤ 299)
        × (parse (paged web response) ≡ some a))
unfolding handle_response
handle_response_iff web parse response a = (
  λ h. elim (Bool-cases (leb 200 response.status_code && leb response.status_code 299)) [
    | inl e ↦ (
      ground (arith, e),
      ground (arith, e),
      validated-some web (parse (paged web response)) a (ground (arith, e, h)),
    )
    | inr e ↦ absurd (ground (arith, h, e))
  ],
  λ h. ground (arith, h),
)

module _ (c : ClientEnv) {A : Type 0} (parse : Option Payload → Option A) where
  abbrev Unsent : Result A × Net → Net → Type 0
  Unsent (r, after) n = ((e : Thrown) × (r ≡ err e)) × (after.sent ≡ n.sent)

  request_with-Unsent :
      (r : RequestParams) (profile : PartnerProfile) (arn : Nullable String) (n : Net)
      → filled profile.token ≡ none
      → Unsent (request_with c parse r (profile, arn) n) n
  unfolding request_with get_headers token_header fresh_uuid
  request_with-Unsent r profile arn n missing =
      elim (Result-cases (base_url c (filled r.url) profile)) [
        | inl (url, e) ↦ rw (e, missing) ((_, refl), refl)
        | inr (e', e) ↦ rw e ((e', refl), refl)
      ]

  -- A partner whose profile has no token, or an empty one, is sent nothing: the request throws
  -- before anything leaves.
  pub unsent_without_token :
      (r : RequestParams) (profile : PartnerProfile) (n : Net)
      → r.partner_profile ≡ some profile
      → filled profile.token ≡ none
      → ((e : Thrown) × ((request c parse r n).0 ≡ err e)) × ((request c parse r n).1.sent ≡ n.sent)
  unfolding request resolve_partner
  unsent_without_token r profile n given missing =
      subst
        (λ o.
          Unsent
            (continue (resolve_partner c r o n).0 (request_with c parse r)
              (resolve_partner c r o n).1)
            n)
        (sym given) (request_with-Unsent r profile r.aws_secret_certificate_arn n missing)
