-- ===== src/Tokens/RealTime/AllowedWins.antt =====
-- A partner that allows the token decides, whatever the others do:
-- `realTimeAuthorizationWithAllPartners` of 00_Base/src/services/TokensService.ts.
use mathlib.Core.List.Memᴰ
use mathlib.Core.List.{Memᴰ}
use citrineos_ocpi.Prelude.{
  ltb-true, ◌<◌, ◌≡◌, inl, inr, refl, sym, ◌∙◌, subst, Option, none, some, List, [], ◌∷◌, eq_iff,
  All, arith,
}
use citrineos_ocpi.Exec.{Result, ok, err}
use citrineos_ocpi.Tokens.Select.{
  AuthPartner, AuthorizationInfoResponse, Answer, allowed_text,
  select_real_time_authorization_answer,
}
use citrineos_ocpi.Tokens.Select.Best.{place, Beats, Decides, IsBest, select-IsBest}
use citrineos_ocpi.Tokens.RealTime.{
  AuthEnv, AuthRequest, LocationReferences, push_answer, real_time_auth_partner_timeout_ms,
  post_real_time_authorization, settled, answers_of,
}

All-lookup : {A : Type 0} (P : A → Type 0) (xs : List A) (x : A) → All P xs → Memᴰ x xs → P x
All-lookup P [] x h m = absurd (Memᴰ.not-nil m)
All-lookup P (y ∷ xs) x h m = elim (Memᴰ.cases_cons m) [
  | inl e ↦ subst P (sym e) h.0
  | inr n ↦ All-lookup P xs x h.1 n
]

Memᴰ-push_answer :
    (q : AuthPartner) (outcome : Result AuthorizationInfoResponse) (a : Answer)
    (answers : List Answer)
    → Memᴰ a answers
    → Memᴰ a (push_answer q outcome answers)
Memᴰ-push_answer q (ok response) a answers m = Memᴰ.tail m
Memᴰ-push_answer q (err e) a answers m = m

-- The answer of a partner that came in time is among those to select from.
answered :
    (env : AuthEnv) (r : AuthRequest) (location : Option LocationReferences) (ps : List AuthPartner)
    → (p : AuthPartner) (response : AuthorizationInfoResponse) → Memᴰ p ps
    → settled env r location p ≡ ok response
    → Memᴰ (record { partner = p; response = response }) (answers_of env r location ps)
unfolding answers_of
answered env r location [] p response m e = absurd (Memᴰ.not-nil m)
answered env r location (q ∷ ps) p response m e = elim (Memᴰ.cases_cons m) [
  | inl same ↦ rw (sym same, e) (Memᴰ.head refl)
  | inr n ↦
      Memᴰ-push_answer q (settled env r location q) _ _ (answered env r location ps p response n e)
]

place_zero : (a : Answer) → place a ≡ 0 → allowed_text a.response.info ≡ "ALLOWED"
place_zero a h = sym ((eq_iff "ALLOWED" (allowed_text a.response.info)).0 (ground arith))

zero_place : (a : Answer) → allowed_text a.response.info ≡ "ALLOWED" → place a ≡ 0
zero_place a e = rw e refl

first_is_allowed :
    (a b : Answer)
    → allowed_text b.response.info ≡ "ALLOWED"
    → Beats a b
    → allowed_text a.response.info ≡ "ALLOWED"
first_is_allowed a b e (inl earlier) = absurd (omega (arith, earlier, zero_place b e))
first_is_allowed a b e (inr (same, direct)) = place_zero a (same ∙ zero_place b e)

allowed-Decides : (b : Answer) → allowed_text b.response.info ≡ "ALLOWED" → Decides b
allowed-Decides b e empty = absurd (ground (arith, eq_iff "ALLOWED" "", sym e ∙ empty))

chosen :
    (answers : List Answer) (o : Option Answer) (b : Answer)
    → IsBest answers o
    → Memᴰ b answers
    → allowed_text b.response.info ≡ "ALLOWED"
    → (a : Answer) × (o ≡ some a) × (allowed_text a.response.info ≡ "ALLOWED")
chosen answers none b best m e =
    absurd (All-lookup (λ c. ¬ Decides c) answers b best m (allowed-Decides b e))
chosen answers (some a) b best m e = (
  a,
  refl,
  first_is_allowed a b e
      (All-lookup (λ c. Decides c → Beats a c) answers b best.2 m (allowed-Decides b e)),
)

in_time :
    (env : AuthEnv) (r : AuthRequest) (location : Option LocationReferences) (p : AuthPartner)
    → (response : AuthorizationInfoResponse)
    → (env.reply p r location).elapsed < real_time_auth_partner_timeout_ms
    → (env.reply p r location).outcome ≡ ok response
    → response.status_code ≡ 1000
    → settled env r location p ≡ ok response
unfolding settled post_real_time_authorization
in_time env r location p response soon outcome success =
    rw (ltb-true _ _ soon, outcome, success) refl

-- Where some partner answers within the timeout, with success, that the token is allowed, the
-- selected answer allows it, whatever the other partners answer, and whether they fail or come late.
pub allowed_wins :
    (env : AuthEnv) (r : AuthRequest) (location : Option LocationReferences) (ps : List AuthPartner)
    → (p : AuthPartner) (response : AuthorizationInfoResponse) → Memᴰ p ps
    → (env.reply p r location).elapsed < real_time_auth_partner_timeout_ms
    → (env.reply p r location).outcome ≡ ok response
    → response.status_code ≡ 1000
    → allowed_text response.info ≡ "ALLOWED"
    → (a : Answer) × (select_real_time_authorization_answer (answers_of env r location ps) ≡ some a)
      × (allowed_text a.response.info ≡ "ALLOWED")
allowed_wins env r location ps p response m soon outcome success allowed =
    chosen (answers_of env r location ps)
      (select_real_time_authorization_answer (answers_of env r location ps))
      (record { partner = p; response = response }) (select-IsBest (answers_of env r location ps))
      (answered env r location ps p response m
        (in_time env r location p response soon outcome success))
      allowed
