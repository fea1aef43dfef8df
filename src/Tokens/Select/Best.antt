-- ===== src/Tokens/Select/Best.antt =====
-- The selected answer of 00_Base/src/services/TokensService.ts is a best one.
use mathlib.Core.List.{Memᴰ}
use citrineos_ocpi.Prelude.{
  ℕ, suc, ◌<◌, ◌≤◌, ◌≡◌, ◌∙◌, sym, ◌≢◌, ◌⊎◌, ◌↔◌, inl, inr, refl, String, Bool, true, false, Option,
  none, some, List, [], ◌∷◌, keep, All, All-mono, arith, eq_iff, str_eq, if◌then◌else◌, Bool-cases,
}
use citrineos_ocpi.Model.{Role, role_eq_iff}
use citrineos_ocpi.Partner.{roles_of}
use citrineos_ocpi.Partner.Rules.{HasRole}
use citrineos_ocpi.Tokens.Select.{
  AuthPartner, Answer, some_has, has_role, rank_of, allowed_text, allowed_rank, has_allowed,
  directness, comes_first, insert_answer, sort_answers, head, select_real_time_authorization_answer,
}

abbrev First : Answer → List Answer → Type 0
First a = All (λ b. comes_first a b ≡ true)

abbrev Sorted : List Answer → Type 0
Sorted [] = Unit
Sorted (a ∷ rest) = First a rest × Sorted rest

comes_first_total : (a b : Answer) → comes_first a b ≡ false → comes_first b a ≡ true
unfolding comes_first
comes_first_total a b h = ground arith

comes_first_trans :
    (a b c : Answer) → comes_first a b ≡ true → comes_first b c ≡ true → comes_first a c ≡ true
unfolding comes_first
comes_first_trans a b c h k = ground arith

comes_first_refl : (a : Answer) → comes_first a a ≡ true
unfolding comes_first
comes_first_refl a = ground arith

All-insert_answer :
    (P : Answer → Type 0) (a : Answer) (bs : List Answer)
    → P a
    → All P bs
    → All P (insert_answer a bs)
unfolding insert_answer
All-insert_answer P a [] p h = (p, tt)
All-insert_answer P a (b ∷ bs) p h = elim (Bool-cases (comes_first a b)) [
  | inl e ↦ rw e (p, h)
  | inr e ↦ rw e (h.0, All-insert_answer P a bs p h.1)
]

All-sort_answers : (P : Answer → Type 0) (xs : List Answer) → All P xs → All P (sort_answers xs)
unfolding sort_answers
All-sort_answers P [] h = tt
All-sort_answers P (a ∷ rest) h =
    All-insert_answer P a (sort_answers rest) h.0 (All-sort_answers P rest h.1)

insert_answer-All :
    (P : Answer → Type 0) (a : Answer) (bs : List Answer)
    → All P (insert_answer a bs)
    → P a × All P bs
unfolding insert_answer
insert_answer-All P a [] h = (h.0, tt)
insert_answer-All P a (b ∷ bs) h = elim (Bool-cases (comes_first a b)) [
  | inl e ↦ rw e at h
  | inr e ↦
      let k : All P (b ∷ insert_answer a bs) = rw e at h in
      let rest = insert_answer-All P a bs k.1 in (rest.0, (k.0, rest.1))
]

sort_answers-All : (P : Answer → Type 0) (xs : List Answer) → All P (sort_answers xs) → All P xs
unfolding sort_answers
sort_answers-All P [] h = tt
sort_answers-All P (a ∷ rest) h =
    let parts = insert_answer-All P a (sort_answers rest) h in
    (parts.0, sort_answers-All P rest parts.1)

insert_answer-Sorted : (a : Answer) (bs : List Answer) → Sorted bs → Sorted (insert_answer a bs)
unfolding insert_answer
insert_answer-Sorted a [] h = (tt, tt)
insert_answer-Sorted a (b ∷ bs) h = elim (Bool-cases (comes_first a b)) [
  | inl e ↦ rw e (
    (
      e,
      All-mono (λ c. comes_first b c ≡ true) (λ c. comes_first a c ≡ true) bs
          (λ c k. comes_first_trans a b c e k) h.0,
    ),
    h,
  )
  | inr e ↦ rw e (
    All-insert_answer (λ c. comes_first b c ≡ true) a bs (comes_first_total a b e) h.0,
    insert_answer-Sorted a bs h.1,
  )
]

sort_answers-Sorted : (xs : List Answer) → Sorted (sort_answers xs)
unfolding sort_answers
sort_answers-Sorted [] = tt
sort_answers-Sorted (a ∷ rest) =
    insert_answer-Sorted a (sort_answers rest) (sort_answers-Sorted rest)

-- The decisions in the order in which they count; all other texts come after them.
abbrev decisions : List String
decisions = "ALLOWED" ∷ "BLOCKED" ∷ "EXPIRED" ∷ "NO_CREDIT" ∷ "NOT_ALLOWED" ∷ []

-- How many texts of the list come before this one.
abbrev pub position : String → List String → ℕ
position s [] = 0
position s (t ∷ ts) = if str_eq t s then 0 else suc (position s ts)

abbrev pub place : Answer → ℕ
place a = position (allowed_text a.response.info) decisions

abbrev pub IsDirect : Answer → Type 0
IsDirect a = HasRole Role.emsp (roles_of a.partner.profile)

-- One answer decides before another.
abbrev pub Beats : Answer → Answer → Type 0
Beats a b = (place a < place b) ⊎ ((place a ≡ place b) × (IsDirect b → IsDirect a))

-- The answer says whether the token is allowed.
abbrev pub Decides : Answer → Type 0
Decides a = allowed_text a.response.info ≢ ""

-- What a selection promises: without an answer none of them says whether the token is allowed; an
-- answer is one of them, says so, and decides before each that says so.
abbrev pub IsBest : List Answer → Option Answer → Type 0
IsBest answers none = All (λ b. ¬ Decides b) answers
IsBest answers (some a) = Memᴰ a answers × Decides a × All (λ b. Decides b → Beats a b) answers

rank_of-position : (s : String) → rank_of s ≡ position s decisions
rank_of-position s = ground (
  arith,
  eq_iff s "ALLOWED",
  eq_iff "ALLOWED" s,
  eq_iff s "BLOCKED",
  eq_iff "BLOCKED" s,
  eq_iff s "EXPIRED",
  eq_iff "EXPIRED" s,
  eq_iff s "NO_CREDIT",
  eq_iff "NO_CREDIT" s,
  eq_iff s "NOT_ALLOWED",
  eq_iff "NOT_ALLOWED" s,
)

allowed_rank-place : (a : Answer) → allowed_rank a ≡ place a
unfolding allowed_rank
allowed_rank-place a = rank_of-position (allowed_text a.response.info)

has_role_iff : (p : AuthPartner) (r : Role) → (has_role p r ≡ true) ↔ HasRole r (roles_of p.profile)
unfolding has_role
has_role_iff p r = some_has_iff (roles_of p.profile)
  where
    some_has_iff : (rs : List Role) → (some_has r rs ≡ true) ↔ HasRole r rs
    some_has_iff [] = (λ h. absurd (ground arith), λ h. absurd h)
    some_has_iff (x ∷ xs) = ground (arith, role_eq_iff x r, some_has_iff xs)

has_allowed_iff : (a : Answer) → (has_allowed a ≡ true) ↔ Decides a
unfolding has_allowed
has_allowed_iff a =
    let text = eq_iff (allowed_text a.response.info) "" in
    (λ h. λ e. ground (arith, text, h, e), λ d. ground (arith, text, d))

compared :
    (a b : Answer)
    → comes_first a b ≡ true
    → (allowed_rank a < allowed_rank b)
      ⊎ ((allowed_rank a ≡ allowed_rank b) × (directness b ≤ directness a))
unfolding comes_first
compared a b h = ground arith

directness-IsDirect : (a b : Answer) → directness b ≤ directness a → IsDirect b → IsDirect a
unfolding directness
directness-IsDirect a b h d =
    let direct : has_role b.partner Role.emsp ≡ true = (has_role_iff b.partner Role.emsp).1 d in
    (has_role_iff a.partner Role.emsp).0 (ground (arith, direct, h))

comes_first-Beats : (a b : Answer) → comes_first a b ≡ true → Beats a b
comes_first-Beats a b h = elim (compared a b h) [
  | inl l ↦ inl (rw (sym (allowed_rank-place a), sym (allowed_rank-place b)) l)
  | inr (e, d) ↦
      inr (sym (allowed_rank-place a) ∙ e ∙ allowed_rank-place b, directness-IsDirect a b d)
]

All-kept : (p : Answer → Bool) (xs : List Answer) → All (λ a. p a ≡ true × Memᴰ a xs) (keep p xs)
All-kept p [] = tt
All-kept p (x ∷ xs) =
    let rest =
      All-mono (λ a. p a ≡ true × Memᴰ a xs) (λ a. p a ≡ true × Memᴰ a (x ∷ xs)) (keep p xs)
        (λ a h. (h.0, Memᴰ.tail h.1)) (All-kept p xs) in
    elim (Bool-cases (p x)) [ inl e ↦ rw e ((e, Memᴰ.head refl), rest) | inr e ↦ rw e rest ]

All-unkept :
    (P : Answer → Type 0) (p : Answer → Bool) (xs : List Answer)
    → All P (keep p xs)
    → All (λ a. p a ≡ true → P a) xs
All-unkept P p [] h = tt
All-unkept P p (x ∷ xs) h = elim (Bool-cases (p x)) [
  | inl e ↦ let k : All P (x ∷ keep p xs) = rw e at h in ((λ t. k.0), All-unkept P p xs k.1)
  | inr e ↦
      let k : All P (keep p xs) = rw e at h in ((λ t. absurd (ground arith)), All-unkept P p xs k)
]

head-IsBest :
    (answers sorted : List Answer)
    → Sorted sorted
    → All (λ a. has_allowed a ≡ true × Memᴰ a answers) sorted
    → ((P : Answer → Type 0) → All P sorted → All (λ a. has_allowed a ≡ true → P a) answers)
    → IsBest answers (head sorted)
head-IsBest answers [] s kept covers =
    All-mono (λ a. has_allowed a ≡ true → ⊥) (λ a. ¬ Decides a) answers
      (λ a n d. n ((has_allowed_iff a).1 d)) (covers (λ a. ⊥) tt)
head-IsBest answers (a ∷ rest) s kept covers = (
  kept.0.1,
  (has_allowed_iff a).0 kept.0.0,
  All-mono (λ b. has_allowed b ≡ true → comes_first a b ≡ true) (λ b. Decides b → Beats a b) answers
      (λ b n d. comes_first-Beats a b (n ((has_allowed_iff b).1 d)))
      (covers (λ b. comes_first a b ≡ true) (comes_first_refl a, s.0)),
)

-- The answer that the selection returns is one of those given, and says whether the token is
-- allowed. Each other that says so comes later in the order allowed, blocked, expired, no credit,
-- not allowed, any other text; or it is equal in this order, and then the selected one comes from an
-- eMSP if the other does. Nothing is returned only where no answer says whether the token is
-- allowed.
pub select-IsBest :
    (answers : List Answer) → IsBest answers (select_real_time_authorization_answer answers)
unfolding select_real_time_authorization_answer
select-IsBest answers =
    let kept = keep has_allowed answers in
    head-IsBest answers (sort_answers kept) (sort_answers-Sorted kept)
      (All-sort_answers (λ a. has_allowed a ≡ true × Memᴰ a answers) kept
        (All-kept has_allowed answers))
      (λ P h. All-unkept P has_allowed answers (sort_answers-All P kept h))
