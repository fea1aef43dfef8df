-- ===== src/Tokens/Store/Unique.antt =====
-- Rows of Authorizations, one at most for each token of a partner: the requests that keep them so
-- (00_Base/src/graphql/queries/token.queries.ts).
use mathlib.Core.List.{nil≢cons}
use citrineos_ocpi.Prelude.{
  ℕ, ◌≡◌, inl, inr, refl, sym, ◌∙◌, false, Option, none, some, List, [], ◌∷◌, ◌++◌, map, keep, All,
  All-mono, All-append_one, All-map, Bool-cases,
}
use citrineos_ocpi.Tokens.Data.{Authorization}
use citrineos_ocpi.Tokens.Store.{
  TokenEnv, TokenKey, AuthorizationSet, apply_set, has_key, set_where,
}

module _ (env : TokenEnv) where
  -- No row has the key.
  abbrev pub NoKey : TokenKey → List Authorization → Type 0
  NoKey k = All (λ a. has_key env k a ≡ false)

  -- The key of a row of a partner is not that of an earlier row.
  abbrev pub NewKey : Option ℕ → Authorization → Authorization → Type 0
  NewKey none b a = Unit
  NewKey (some partner) b a =
      has_key env
        (record {
          id_token = b.id_token;
          id_token_type = b.id_token_type;
          tenant_partner_id = partner;
        })
        a
      ≡ false

  -- A partner's token has one row at most.
  abbrev pub Unique : List Authorization → Type 0
  Unique [] = Unit
  Unique (a ∷ rows) = All (λ b. NewKey b.tenant_partner_id b a) rows × Unique rows

  pub NoKey-keep :
      (k : TokenKey) (rows : List Authorization) → keep (has_key env k) rows ≡ [] → NoKey k rows
  NoKey-keep k [] h = tt
  NoKey-keep k (a ∷ rows) h = elim (Bool-cases (has_key env k a)) [
    | inl e ↦ absurd (nil≢cons (sym (rw e at h)))
    | inr e ↦ (e, NoKey-keep k rows (rw e at h))
  ]

  -- A row whose key no row has keeps them unique.
  pub Unique-append_one :
      (rows : List Authorization) (b : Authorization)
      → All (λ a. NewKey b.tenant_partner_id b a) rows
      → Unique rows
      → Unique (rows ++ b ∷ [])
  Unique-append_one [] b n u = (tt, tt)
  Unique-append_one (a ∷ rows) b n u = (
    All-append_one (λ c. NewKey c.tenant_partner_id c a) rows b u.0 n.0,
    Unique-append_one rows b n.1 u.1,
  )

  -- An update leaves the keys as they are.
  pub has_key-set_where :
      (q k : TokenKey) (s : AuthorizationSet) (a : Authorization)
      → has_key env q (set_where env k s a) ≡ has_key env q a
  unfolding set_where has_key
  has_key-set_where q k s a = elim (Bool-cases (has_key env k a)) [
    | inl e ↦ rw e refl
    | inr e ↦ rw e refl
  ]

  NewKey-same :
      (p : Option ℕ) (b a c : Authorization)
      → ((q : TokenKey) → has_key env q c ≡ has_key env q a)
      → NewKey p b a
      → NewKey p b c
  NewKey-same none b a c e h = tt
  NewKey-same (some p) b a c e h = e _ ∙ h

  NewKey-apply_set :
      (p : Option ℕ) (s : AuthorizationSet) (b a : Authorization)
      → NewKey p b a
      → NewKey p (apply_set s b) a
  NewKey-apply_set none s b a h = tt
  NewKey-apply_set (some p) s b a h = h

  NewKey-set_where :
      (k : TokenKey) (s : AuthorizationSet) (a b : Authorization)
      → NewKey b.tenant_partner_id b a
      → NewKey (set_where env k s b).tenant_partner_id (set_where env k s b) (set_where env k s a)
  unfolding set_where
  NewKey-set_where k s a b h =
      let same =
        NewKey-same b.tenant_partner_id b a (set_where env k s a) (λ q. has_key-set_where q k s a)
          h in
      elim (Bool-cases (has_key env k b)) [
        | inl e ↦ rw e (NewKey-apply_set b.tenant_partner_id s b (set_where env k s a) same)
        | inr e ↦ rw e same
      ]

  pub Unique-update :
      (k : TokenKey) (s : AuthorizationSet) (rows : List Authorization)
      → Unique rows
      → Unique (map (set_where env k s) rows)
  Unique-update k s [] u = tt
  Unique-update k s (a ∷ rows) u = (
    All-map (λ b. NewKey b.tenant_partner_id b (set_where env k s a)) (set_where env k s) rows
        (All-mono (λ b. NewKey b.tenant_partner_id b a) _ rows (λ b h. NewKey-set_where k s a b h)
          u.0),
    Unique-update k s rows u.1,
  )
