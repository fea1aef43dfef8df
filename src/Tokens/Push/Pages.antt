-- ===== src/Tokens/Push/Pages.antt =====
-- `pushTokensToPartner` of 00_Base/src/services/TokensService.ts goes over every row once, whatever
-- the size of its pages.
use citrineos_ocpi.Prelude.{
  ℕ, zero, suc, ◌+◌, ◌≤◌, ◌<◌, ◌==◌, ==_iff, ◌≡◌, inl, inr, refl, sym, ap, subst, ◌∙◌, Bool, Option,
  some, List, [], ◌∷◌, ◌++◌, length, length-append, take, drop, take-++-drop, drop-drop, drop_short,
  length-take-le, keep, arith, Bool-cases,
}
use citrineos_ocpi.Exec.{ok, Exec}
use citrineos_ocpi.Retry.World.{no_fault}
use citrineos_ocpi.Tokens.Data.{Authorization}
use citrineos_ocpi.Tokens.Store.{Desk, request}
use citrineos_ocpi.Tokens.Push.{
  PushSummary, PushEnv, PushResult, counted, nothing_pushed, push_row, push_batch,
  get_authorizations_paginated, after_page, push_pages, push_tokens_to_partner,
}

module _ (env : PushEnv) where
  push_batch-append :
      (xs ys : List Authorization) (s : PushSummary)
      → push_batch env (xs ++ ys) s ≡ push_batch env ys (push_batch env xs s)
  unfolding push_batch
  push_batch-append [] ys s = refl
  push_batch-append (x ∷ xs) ys s = push_batch-append xs ys _

  -- The rows from the offset on.
  abbrev left_from : ℕ → List Authorization → List Authorization
  left_from offset rows = drop offset (keep env.selected rows)

  page_first :
      (limit : ℕ) (rows page : List Authorization) (s : PushSummary)
      → page ≡ take limit rows
      → push_batch env rows s ≡ push_batch env (drop limit rows) (push_batch env page s)
  page_first limit rows page s e =
      ap (λ xs. push_batch env xs s) (sym (take-++-drop limit rows))
      ∙ push_batch-append (take limit rows) (drop limit rows) s
      ∙ ap (λ xs. push_batch env (drop limit rows) (push_batch env xs s)) (sym e)

  short_page :
      (limit : ℕ) (rows page : List Authorization) (s : PushSummary)
      → page ≡ take limit rows
      → length page < limit
      → push_batch env rows s ≡ push_batch env page s
  unfolding push_batch
  short_page limit rows page s e l =
      page_first limit rows page s e
      ∙ ap (λ xs. push_batch env xs (push_batch env page s))
          (drop_short limit rows (subst (λ xs. length xs < limit) e l))

  page_bound :
      (limit : ℕ) (rows page : List Authorization) → page ≡ take limit rows → length page ≤ limit
  page_bound limit rows page e = subst (λ xs. length xs ≤ limit) (sym e) (length-take-le limit rows)

  -- A round and those after it push all rows, if those after a full page push the rest.
  after_page-all :
      (more : ℕ → PushSummary → Exec Desk (Option PushSummary)) (limit offset : ℕ) (s : PushSummary)
      → (rows : List Authorization) (d : Desk) (page : List Authorization) → 1 ≤ limit
      → page ≡ take limit rows
      → (1 ≤ length page
          → length page ≡ limit
          → (more (offset + length page) (push_batch env page s) d).0
            ≡ ok (some (push_batch env (drop limit rows) (push_batch env page s))))
      → (after_page env more limit offset s page d).0 ≡ ok (some (push_batch env rows s))
  unfolding push_batch
  after_page-all more limit offset s rows d [] l e h =
      ap (λ x. ok (some x)) (sym (short_page limit rows [] s e (omega arith)))
  after_page-all more limit offset s rows d (row ∷ page) l e h =
      elim (Bool-cases (length (row ∷ page) == limit)) [
        | inl full ↦ rw full (
            h (omega arith) ((==_iff _ _).0 full)
            ∙ ap (λ x. ok (some x)) (sym (page_first limit rows (row ∷ page) s e)))
        | inr short ↦
            let bound = page_bound limit rows (row ∷ page) e in
            rw short
              (ap (λ x. ok (some x)) (sym (short_page limit rows (row ∷ page) s e (ground arith))))
      ]

  next_left :
      (limit offset : ℕ) (rows : List Authorization)
      → length (take limit (left_from offset rows)) ≡ limit
      → left_from (offset + length (take limit (left_from offset rows))) rows
        ≡ drop limit (left_from offset rows)
  next_left limit offset rows full =
      sym (drop-drop offset _ (keep env.selected rows))
      ∙ ap (λ k. drop k (left_from offset rows)) full

  length_split :
      (n : ℕ) (xs : List Authorization) → length xs ≡ length (take n xs) + length (drop n xs)
  length_split n xs = ap length (sym (take-++-drop n xs)) ∙ length-append (take n xs) (drop n xs)

  push_pages-all :
      (fuel limit offset n : ℕ) (s : PushSummary) (rows : List Authorization)
      → ((m : ℕ) → env.tokens.fault m ≡ no_fault)
      → 1 ≤ limit
      → length (left_from offset rows) < fuel
      → (push_pages env fuel limit offset s (record { rows = rows; requests = n })).0
        ≡ ok (some (push_batch env (left_from offset rows) s))
  unfolding push_pages get_authorizations_paginated request
  push_pages-all zero limit offset n s rows calm l f = absurd (omega arith)
  push_pages-all (suc fuel) limit offset n s rows calm l f = rw (calm n) (
      after_page-all (push_pages env fuel limit) limit offset s (left_from offset rows) _
        (take limit (left_from offset rows)) l refl
        (λ some_rows full.
          let same = next_left limit offset rows full in
          let shorter =
            subst (λ xs. length xs < fuel) (sym same)
              (omega (arith, length_split limit (left_from offset rows))) in
          push_pages-all fuel limit _ (n + 1) _ rows calm l shorter
          ∙ ap
              (λ xs.
                ok (
                  some (push_batch env xs (push_batch env (take limit (left_from offset rows)) s))))
              same))

  length-drop-le : (n : ℕ) (xs : List Authorization) → length (drop n xs) ≤ length xs
  length-drop-le n xs = omega (arith, length_split n xs)

  length-keep-le :
      (p : Authorization → Bool) (xs : List Authorization) → length (keep p xs) ≤ length xs
  length-keep-le p [] = omega arith
  length-keep-le p (x ∷ xs) =
      let rest = length-keep-le p xs in
      elim (Bool-cases (p x)) [ inl e ↦ rw e (omega arith) | inr e ↦ rw e (omega arith) ]

-- Every row that was processed succeeded, failed or was skipped.
abbrev pub Accounted : PushSummary → Type 0
Accounted s = s.processed ≡ s.push_succeeded + s.push_failed + s.skipped_invalid

counted-Accounted :
    (r : PushResult) (id : ℕ) (s : PushSummary) → Accounted s → Accounted (counted r id s)
counted-Accounted PushResult.succeeded id s h = omega arith
counted-Accounted PushResult.failed id s h = omega arith
counted-Accounted PushResult.skipped id s h = omega arith

push_batch-Accounted :
    (env : PushEnv) (rows : List Authorization) (s : PushSummary)
    → Accounted s
    → Accounted (push_batch env rows s)
unfolding push_batch
push_batch-Accounted env [] s h = h
push_batch-Accounted env (row ∷ rows) s h =
    push_batch-Accounted env rows _ (counted-Accounted (push_row env row) row.id s h)

-- A push of the tokens to a partner ends, and comes to what one pass over the selected rows from the
-- offset on comes to: each row once, whatever the size of the pages; every row that was processed
-- succeeded, failed or was skipped. It is for a page size that is not zero and a table that does not
-- fail.
pub push_tokens-all :
    (env : PushEnv) (offset limit : ℕ) (d : Desk)
    → ((m : ℕ) → env.tokens.fault m ≡ no_fault)
    → 1 ≤ limit
    → ((push_tokens_to_partner env offset limit d).0
        ≡ ok (some (push_batch env (drop offset (keep env.selected d.rows)) nothing_pushed)))
      × Accounted (push_batch env (drop offset (keep env.selected d.rows)) nothing_pushed)
unfolding push_tokens_to_partner
push_tokens-all env offset limit d calm l = (
  push_pages-all env (suc (length d.rows)) limit offset d.requests nothing_pushed d.rows calm l (
      omega (
        arith,
        length-drop-le env offset (keep env.selected d.rows),
        length-keep-le env env.selected d.rows,
      )),
  push_batch-Accounted env _ nothing_pushed refl,
)
