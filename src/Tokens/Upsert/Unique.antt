-- ===== src/Tokens/Upsert/Unique.antt =====
-- `upsertTokenInternal` of 00_Base/src/services/TokensService.ts keeps one row for each token of a
-- partner.
use citrineos_ocpi.Prelude.{
  ℕ, ◌≡◌, inl, inr, refl, String, false, ◌&&◌, Option, none, some, List, [], ◌∷◌, ◌++◌, keep,
  str_eq, All, All-append_one, Bool-cases,
}
use citrineos_ocpi.Exec.{◌>>=◌}
use citrineos_ocpi.Exec.Keeps.{bind_to}
use citrineos_ocpi.Tokens.Data.{IdTokenType, Token, Authorization, id_type_eq}
use citrineos_ocpi.Tokens.Mapping.{map_ocpi_token_type_to_ocpp_id_token_type}
use citrineos_ocpi.Tokens.Store.{
  Desk, TokenEnv, TokenKey, same_rows, has_key, get_authorization_by_token, update_token,
  create_authorization, get_group_authorization,
}
use citrineos_ocpi.Tokens.Store.Unique.{
  NoKey, NewKey, Unique, NoKey-keep, Unique-append_one, Unique-update,
}
use citrineos_ocpi.Tokens.Store.Faults.{after_request, after_last_request}
use citrineos_ocpi.Tokens.Upsert.{
  UpsertTokenOptions, key_of, upsert_set, created_row, group_row, group_or_created,
  handle_group_authorization, group_of, first_updated, update_or_create, upsert_token_internal,
}

module _ (env : TokenEnv) where
  -- What the rows have to be once the token was looked up: where none was found, none has its key.
  abbrev Wanted : List Authorization → TokenKey → List Authorization → Type 0
  Wanted [] k rows = Unique env rows × NoKey env k rows
  Wanted (found ∷ more) k rows = Unique env rows

  Wanted-Unique :
      (found : List Authorization) (k : TokenKey) (rows : List Authorization)
      → Wanted found k rows
      → Unique env rows
  Wanted-Unique [] k rows h = h.0
  Wanted-Unique (x ∷ found) k rows h = h

  Wanted-append_one :
      (found : List Authorization) (k : TokenKey) (rows : List Authorization) (b : Authorization)
      → All (λ a. NewKey env b.tenant_partner_id b a) rows
      → has_key env k b ≡ false
      → Wanted found k rows
      → Wanted found k (rows ++ b ∷ [])
  Wanted-append_one [] k rows b n other h = (
    Unique-append_one env rows b n h.0,
    All-append_one (λ a. has_key env k a ≡ false) rows b h.1 other,
  )
  Wanted-append_one (x ∷ found) k rows b n other h = Unique-append_one env rows b n h

  created_group :
      (found : List Authorization) (k : TokenKey) (group_id : String) (tenant partner : ℕ)
      → (groups rows : List Authorization) (n : ℕ)
      → ((at id : ℕ) → has_key env k (group_row group_id tenant partner at id) ≡ false)
      → keep
          (has_key env (record {
            id_token = group_id;
            id_token_type = IdTokenType.central;
            tenant_partner_id = partner;
          }))
          rows
        ≡ groups
      → Wanted found k rows
      → Wanted found k
          (group_or_created env group_id tenant partner groups
            (record { rows = rows; requests = n })).1.rows
  unfolding create_authorization
  created_group found k group_id tenant partner (g ∷ groups) rows n other e h = h
  created_group found k group_id tenant partner [] rows n other e h =
      let added =
        Wanted-append_one found k rows
          (group_row group_id tenant partner (env.time n) (env.next_id rows))
          (NoKey-keep env _ rows e) (other _ _) h in
      after_request env (Wanted found k) _ _ _ (record { rows = rows; requests = n }) h
        (Wanted-append_one found k rows _ (NoKey-keep env _ rows e) (other _ _) h) (λ m. added)

  group_of-Wanted :
      (found : List Authorization) (k : TokenKey) (group : Option String) (tenant partner : ℕ)
      (d : Desk)
      → ((group_id : String) (at id : ℕ)
          → group ≡ some group_id
          → has_key env k (group_row group_id tenant partner at id) ≡ false)
      → Wanted found k d.rows
      → Wanted found k (group_of env group tenant partner d).1.rows
  unfolding group_of handle_group_authorization get_group_authorization get_authorization_by_token
  group_of-Wanted found k none tenant partner d other h = h
  group_of-Wanted found k (some group_id) tenant partner d other h =
      elim (Bool-cases (str_eq group_id "")) [
        | inl e ↦ rw e h
        | inr e ↦ rw e (
            bind_to (λ t. Wanted found k t.rows) (λ t. Wanted found k t.rows)
              (handle_group_authorization env group_id tenant partner) _ d
              (after_request env (Wanted found k) _ same_rows
                (group_or_created env group_id tenant partner) d h h
                (λ n.
                  created_group found k group_id tenant partner _ d.rows n
                    (λ at id. other group_id at id refl) refl h))
              (λ t w. w) (λ g t w. w))
      ]

  first_updated-rows :
      (uid : String) (rows : List Authorization) (d : Desk)
      → Unique env d.rows
      → Unique env (first_updated env uid rows d).1.rows
  first_updated-rows uid [] d u = u
  first_updated-rows uid (row ∷ rows) d u = u

  update_or_create-Unique :
      (t : Token) (tenant partner : ℕ) (roaming : Option ℕ) (options : UpsertTokenOptions)
      → (found : List Authorization) (group : Option ℕ) (d : Desk)
      → Wanted found (key_of t partner) d.rows
      → Unique env (update_or_create env t tenant partner roaming options found group d).1.rows
  unfolding create_authorization update_token created_row
  update_or_create-Unique t tenant partner roaming options [] group d h =
      after_last_request env (Unique env) _ _ d h.0 (Unique-append_one env d.rows _ h.1 h.0)
  update_or_create-Unique t tenant partner roaming options (x ∷ found) group d h =
      let s = upsert_set t group roaming options in
      let updated = Unique-update env (key_of t partner) s d.rows h in
      after_request env (Unique env) _ _ (first_updated env t.uid) d h updated
        (λ n. first_updated-rows t.uid _ _ updated)

  upserted :
      (t : Token) (tenant partner : ℕ) (roaming : Option ℕ) (options : UpsertTokenOptions)
      → (found : List Authorization) (d : Desk)
      → ((group_id : String) (at id : ℕ)
          → t.group_id ≡ some group_id
          → has_key env (key_of t partner) (group_row group_id tenant partner at id) ≡ false)
      → Wanted found (key_of t partner) d.rows
      → Unique env
          ((group_of env t.group_id tenant partner >>= λ group.
              update_or_create env t tenant partner roaming options found group)
            d).1.rows
  upserted t tenant partner roaming options found d other h =
      bind_to (λ s. Wanted found (key_of t partner) s.rows) (λ s. Unique env s.rows)
        (group_of env t.group_id tenant partner) _ d
        (group_of-Wanted found (key_of t partner) t.group_id tenant partner d other h)
        (λ s w. Wanted-Unique found (key_of t partner) s.rows w)
        (λ group s w. update_or_create-Unique t tenant partner roaming options found group s w)

  found_Wanted :
      (k : TokenKey) (rows found : List Authorization)
      → keep (has_key env k) rows ≡ found
      → Unique env rows
      → Wanted found k rows
  found_Wanted k rows [] e u = (u, NoKey-keep env k rows e)
  found_Wanted k rows (x ∷ found) e u = u

  other_key :
      (t : Token) (group_id : String) (tenant partner at id : ℕ)
      → (env.citext_eq group_id t.uid
          && id_type_eq IdTokenType.central
              (map_ocpi_token_type_to_ocpp_id_token_type t.token_type))
        ≡ false
      → has_key env (key_of t partner) (group_row group_id tenant partner at id) ≡ false
  unfolding has_key
  other_key t group_id tenant partner at id h = rw h refl

-- Storing a token, whether it succeeds or fails at some request, keeps one row at most for each token
-- of a partner. It is for a token that is not the group that it belongs to.
pub upsert-Unique :
    (env : TokenEnv) (t : Token) (tenant partner : ℕ) (roaming : Option ℕ)
    → (options : UpsertTokenOptions) (d : Desk)
    → ((group_id : String)
        → t.group_id ≡ some group_id
        → (env.citext_eq group_id t.uid
            && id_type_eq IdTokenType.central
                (map_ocpi_token_type_to_ocpp_id_token_type t.token_type))
          ≡ false)
    → Unique env d.rows
    → Unique env (upsert_token_internal env t tenant partner roaming options d).1.rows
unfolding upsert_token_internal get_authorization_by_token
upsert-Unique env t tenant partner roaming options d other u =
    after_request env (Unique env) _ same_rows _ d u u (λ n.
      upserted env t tenant partner roaming options _ (record { rows = d.rows; requests = n })
        (λ group_id at id e. other_key env t group_id tenant partner at id (other group_id e))
        (found_Wanted env (key_of t partner) d.rows _ refl u))
