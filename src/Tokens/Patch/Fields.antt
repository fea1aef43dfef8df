-- ===== src/Tokens/Patch/Fields.antt =====
-- What a PATCH of a token changes in the table (`patchToken` of
-- 00_Base/src/services/TokensService.ts).
use citrineos_ocpi.Prelude.{
  ℕ, ◌+◌, ◌≡◌, inl, inr, refl, sym, ap, ◌∙◌, subst, String, true, Option, none, some, List, [], ◌∷◌,
  map, keep, All,
}
use citrineos_ocpi.Exec.{Thrown, err}
use citrineos_ocpi.Retry.World.{no_fault, Fault-cases}
use citrineos_ocpi.Tokens.Data.{TokenType, AuthorizationStatus, PartialToken, Authorization}
use citrineos_ocpi.Tokens.Mapping.{status_of, map_ocpi_token_to_partial_ocpp_authorization}
use citrineos_ocpi.Tokens.Store.{
  Desk, TokenEnv, TokenKey, AuthorizationSet, set_or, request, has_key, set_where,
  get_authorization_by_token, update_token,
}
use citrineos_ocpi.Tokens.Store.Unique.{has_key-set_where}
use citrineos_ocpi.Tokens.Upsert.{group_of, dto_of}
use citrineos_ocpi.Tokens.Patch.{
  patch_set, patched_key, first_patched, patch_found, patch_at, patch_token,
}

-- No request fails.
abbrev pub Calm : TokenEnv → Type 0
Calm env = (n : ℕ) → env.fault n ≡ no_fault

module _ (env : TokenEnv) where
  first_patched-rows : (rows : List Authorization) (d : Desk) → (first_patched env rows d).1 ≡ d
  unfolding dto_of
  first_patched-rows [] d = refl
  first_patched-rows (row ∷ rows) d = refl

  patched_rows :
      (token_type : TokenType) (k : TokenKey) (t : PartialToken) (at tenant partner n : ℕ)
      (rows found : List Authorization)
      → (row : Authorization) → Calm env
      → t.group_id ≡ none
      → (patch_found env token_type k t at tenant partner
          (row ∷ found)
          (record { rows = rows; requests = n })).1.rows
        ≡ map (set_where env k (patch_set t at row.additional_info none)) rows
  unfolding group_of update_token request
  patched_rows token_type k t at tenant partner n rows found row calm g =
      rw (g, calm n) (ap (λ d. d.rows) (first_patched-rows _ _))

-- Without a fault, a PATCH that names no group writes what it gives into the rows of the token, and
-- leaves all other rows as they are.
pub patch_token-rows :
    (env : TokenEnv) (uid : String) (token_type : TokenType) (t : PartialToken)
    → (tenant partner at : ℕ) (d : Desk) (row : Authorization) (found : List Authorization)
    → Calm env
    → t.group_id ≡ none
    → t.last_updated ≡ some at
    → keep (has_key env (patched_key uid token_type partner)) d.rows ≡ row ∷ found
    → (patch_token env uid token_type t tenant partner d).1.rows
      ≡ map
          (set_where env
            (patched_key uid token_type partner)
            (patch_set t at row.additional_info none))
          d.rows
unfolding patch_token get_authorization_by_token request
patch_token-rows env uid token_type t tenant partner at d row found calm g last e =
    let k = patched_key uid token_type partner in
    ap (λ o. (patch_at env o token_type k t tenant partner d).1.rows) last
    ∙ rw (calm d.requests, e)
        (patched_rows env token_type k t at tenant partner (d.requests + 1) d.rows found row calm g)

-- Every row of the token.
abbrev pub OfKey : TokenEnv → TokenKey → (Authorization → Type 0) → Authorization → Type 0
OfKey env k P a = has_key env k a ≡ true → P a

written_status :
    (env : TokenEnv) (k : TokenKey) (s : AuthorizationSet) (status : AuthorizationStatus)
    (rows : List Authorization)
    → s.status ≡ some status
    → All (OfKey env k (λ a. a.status ≡ status)) (map (set_where env k s) rows)
unfolding set_where
written_status env k s status [] e = tt
written_status env k s status (a ∷ rows) e = (
  (λ h. rw (sym (has_key-set_where env k k s a) ∙ h) (ap (λ o. set_or o a.status) e)),
  written_status env k s status rows e,
)

-- A PATCH without the field `valid`, such as one of the language only, makes the token invalid: its
-- rows have the status Invalid after it, whatever they had. It is for a PATCH that names no group and
-- a table that does not fail.
pub patch-without_valid :
    (env : TokenEnv) (uid : String) (token_type : TokenType) (t : PartialToken)
    → (tenant partner at : ℕ) (d : Desk) (row : Authorization) (found : List Authorization)
    → Calm env
    → t.group_id ≡ none
    → t.valid ≡ none
    → t.last_updated ≡ some at
    → keep (has_key env (patched_key uid token_type partner)) d.rows ≡ row ∷ found
    → All
        (OfKey env
          (patched_key uid token_type partner)
          (λ a. a.status ≡ AuthorizationStatus.invalid))
        (patch_token env uid token_type t tenant partner d).1.rows
unfolding patch_set map_ocpi_token_to_partial_ocpp_authorization
patch-without_valid env uid token_type t tenant partner at d row found calm g v last e =
    let k = patched_key uid token_type partner in
    subst (All (OfKey env k (λ a. a.status ≡ AuthorizationStatus.invalid)))
      (sym (patch_token-rows env uid token_type t tenant partner at d row found calm g last e))
      (written_status env k (patch_set t at row.additional_info none) AuthorizationStatus.invalid
        d.rows (ap (λ o. some (status_of o)) v))

unknown_at :
    (env : TokenEnv) (last : Option ℕ) (token_type : TokenType) (k : TokenKey) (t : PartialToken)
    (tenant partner : ℕ)
    → (d : Desk) → keep (has_key env k) d.rows ≡ []
    → ((patch_at env last token_type k t tenant partner d).1.rows ≡ d.rows)
      × ((e : Thrown) × ((patch_at env last token_type k t tenant partner d).0 ≡ err e))
unfolding request get_authorization_by_token
unknown_at env none token_type k t tenant partner d h = (refl, (_, refl))
unknown_at env (some at) token_type k t tenant partner d h =
    elim (Fault-cases (env.fault d.requests)) [
      | inl e ↦ rw (e, h) (refl, (_, refl))
      | inr more ↦ elim more [
        | inl b ↦ rw b.1 (refl, (b.0, refl))
        | inr b ↦ rw b.1 (refl, (b.0, refl))
      ]
    ]

-- A PATCH of a token that no row has is refused, and neither it nor a failing request changes a row.
pub patch_token-unknown :
    (env : TokenEnv) (uid : String) (token_type : TokenType) (t : PartialToken) (tenant partner : ℕ)
    (d : Desk)
    → keep (has_key env (patched_key uid token_type partner)) d.rows ≡ []
    → ((patch_token env uid token_type t tenant partner d).1.rows ≡ d.rows)
      × ((e : Thrown) × ((patch_token env uid token_type t tenant partner d).0 ≡ err e))
unfolding patch_token
patch_token-unknown env uid token_type t tenant partner d h =
    unknown_at env t.last_updated token_type (patched_key uid token_type partner) t tenant partner d
      h
