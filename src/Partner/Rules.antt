-- ===== src/Partner/Rules.antt =====
-- What the selection of partners guarantees.
use citrineos_ocpi.Prelude.{
  ◌≡◌, ◌≢◌, ◌⊎◌, ◌↔◌, refl, true, String, some, List, [], ◌∷◌, arith, eq_iff,
}
use citrineos_ocpi.Js.{Nullable, undefined, null, value, truthy}
use citrineos_ocpi.Model.{ModuleId, Role, module_eq_iff, role_eq_iff}
use citrineos_ocpi.Partner.{
  BroadcastPartner, roles_of, required_role, some_role, serves, should_broadcast_to_partner,
}

-- The list has the role.
abbrev pub HasRole : Role → List Role → Type 0
HasRole role [] = ⊥
HasRole role (r ∷ rs) = (r ≡ role) ⊎ HasRole role rs

some_role-HasRole :
    (required : Role) (rs : List Role)
    → some_role required rs ≡ true
    → HasRole required rs ⊎ HasRole Role.hub rs
some_role-HasRole required [] h = absurd (ground arith)
some_role-HasRole required (r ∷ rs) h =
    ground (arith, role_eq_iff r required, role_eq_iff r Role.hub, some_role-HasRole required rs)

HasRole-some_role :
    (required : Role) (rs : List Role)
    → HasRole required rs ⊎ HasRole Role.hub rs
    → some_role required rs ≡ true
HasRole-some_role required [] h = ground arith
HasRole-some_role required (r ∷ rs) h =
    ground (arith, role_eq_iff r required, role_eq_iff r Role.hub, HasRole-some_role required rs)

-- A text that is there and not empty.
abbrev pub IsGiven : Nullable String → Type 0
IsGiven s = (t : String) × (s ≡ value t) × (t ≢ "")

-- The role that a module asks of its partners: tokens are the operator's business, all else the
-- service provider's. A hub serves both.
abbrev pub IsServed : ModuleId → List Role → Type 0
IsServed m rs =
    ((m ≡ ModuleId.tokens) × HasRole Role.cpo rs)
    ⊎ ((m ≢ ModuleId.tokens) × HasRole Role.emsp rs)
    ⊎ HasRole Role.hub rs

abbrev pub IsEligible : BroadcastPartner → ModuleId → Type 0
IsEligible p m = IsGiven p.country_code × IsGiven p.party_id × IsServed m (roles_of p.profile)

truthy-IsGiven : (s : Nullable String) → truthy s ≡ true → IsGiven s
truthy-IsGiven undefined h = absurd (ground arith)
truthy-IsGiven null h = absurd (ground arith)
truthy-IsGiven (value t) h = (t, refl, λ e. ground (arith, eq_iff t ""))

IsGiven-truthy : (s : Nullable String) → IsGiven s → truthy s ≡ true
IsGiven-truthy s (t, e, ne) = rw e (ground (arith, eq_iff t "", ne))

serves-IsServed : (m : ModuleId) (rs : List Role) → serves m rs ≡ true → IsServed m rs
unfolding serves
serves-IsServed m [] h = absurd (ground arith)
serves-IsServed m (r ∷ rs) h =
    let found = some_role-HasRole (required_role m) (r ∷ rs) h in
    ground (arith, module_eq_iff m ModuleId.tokens, found)

IsServed-serves : (m : ModuleId) (rs : List Role) → IsServed m rs → serves m rs ≡ true
unfolding serves
IsServed-serves m [] h = ground arith
IsServed-serves m (r ∷ rs) h =
    HasRole-some_role (required_role m) (r ∷ rs)
      (ground (arith, module_eq_iff m ModuleId.tokens, h))

-- A partner is broadcast to exactly when it has a country code and a party id that are not empty,
-- and the role of CPO (for tokens) or EMSP (for every other module), or the role of HUB.
pub should_broadcast_iff :
    (p : BroadcastPartner) (m : ModuleId)
    → (should_broadcast_to_partner (some p) m ≡ true) ↔ IsEligible p m
unfolding should_broadcast_to_partner
should_broadcast_iff p m = (
  λ h. (
    truthy-IsGiven p.country_code (ground arith),
    truthy-IsGiven p.party_id (ground arith),
    serves-IsServed m (roles_of p.profile) (ground arith),
  ),
  λ e. ground (
    arith,
    IsGiven-truthy p.country_code e.0,
    IsGiven-truthy p.party_id e.1,
    IsServed-serves m (roles_of p.profile) e.2,
  ),
)
