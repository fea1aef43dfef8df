-- ===== src/Cdrs/Once.antt =====
-- One CDR for a transaction and a partner, which is not sent again once it was delivered.
use citrineos_ocpi.Prelude.{
  ℕ, zero, suc, ◌+◌, ◌≤◌, ◌≡◌, refl, subst, Bool, true, false, ◌&&◌, ◌==◌, Option, none, some, List,
  [], ◌∷◌, ◌++◌, arith, if◌then◌else◌, inl, inr,
}
use citrineos_ocpi.Js.{Nullable}
use citrineos_ocpi.Exec.{Result, ok, Exec, Result-cases}
use citrineos_ocpi.Exec.Keeps.{Keeps-bind, Keeps-pure, Keeps-catch, Keeps-throw}
use citrineos_ocpi.Partner.{AuthWithPartners}
use citrineos_ocpi.Retry.Queue.{Table}
use citrineos_ocpi.Retry.World.{CdrRow, Fault-cases, request as database_request}
use citrineos_ocpi.Retry.World.Keeps.{Keeps-request, Keeps-read_clock, keeps_request_at}
use citrineos_ocpi.Retry.Worker.{update_cdr_sent_status, mark_cdr_as_sent}
use citrineos_ocpi.Client.Body.{Payload}
use citrineos_ocpi.Client.Net.{ClientEnv, Net}
use citrineos_ocpi.Client.Broadcast.Keeps.{broadcast-Keeps}
use citrineos_ocpi.Client.Request.Keeps.{KeepsData, on_outbox-Keeps, from_result-Keeps}
use citrineos_ocpi.Cdrs.{
  MappedCdr, CdrTransaction, SentCdr, is_cdr_of, first, existing_cdr, inserted_row, insert_cdr,
  insert_if_absent, insert_sent_cdr, cdr_params, unless_sent, is_delivered, mark_delivered,
  deliver_cdr, deliver_once, broadcast_cdr, broadcast_first, broadcast_post_cdr,
}

-- How many rows pass the test.
abbrev pub count : (CdrRow → Bool) → List CdrRow → ℕ
count p [] = 0
count p (r ∷ rs) = (if p r then 1 else 0) + count p rs

count-append :
    (p : CdrRow → Bool) (xs ys : List CdrRow) → count p (xs ++ ys) ≡ count p xs + count p ys
count-append p [] ys = omega arith
count-append p (x ∷ xs) ys = omega (arith, count-append p xs ys)

none-count : (p : CdrRow → Bool) (rs : List CdrRow) → first p rs ≡ none → count p rs ≡ 0
none-count p [] h = refl
none-count p (r ∷ rs) h = ground (arith, none-count p rs)

-- Marking a row as sent changes no transaction and no partner.
count-update :
    (t p id at : ℕ) (rs : List CdrRow)
    → count (is_cdr_of t p) (update_cdr_sent_status id at rs) ≡ count (is_cdr_of t p) rs
unfolding update_cdr_sent_status
count-update t p id at [] = refl
count-update t p id at (r ∷ rs) = ground (arith, count-update t p id at rs)

same_test :
    (s partner t p : ℕ) (rs : List CdrRow)
    → first (is_cdr_of s partner) rs ≡ none
    → (s == t && partner == p) ≡ true
    → count (is_cdr_of t p) rs ≡ 0
same_test s partner t p rs e h =
    let st : s ≡ t = ground (arith, h) in
    let pp : partner ≡ p = ground (arith, h) in
    subst (λ x. count (is_cdr_of x p) rs ≡ 0) st
      (subst (λ y. count (is_cdr_of s y) rs ≡ 0) pp (none-count (is_cdr_of s partner) rs e))

-- An insert after a lookup that found nothing leaves at most one row.
count-inserted :
    (c : ClientEnv) (next_id : List CdrRow → ℕ) (cdr : MappedCdr) (o : Option ℕ) (partner t p : ℕ)
    (rs : List CdrRow)
    → existing_cdr o cdr.id partner rs ≡ none
    → count (is_cdr_of t p) rs ≤ 1
    → count (is_cdr_of t p) (rs ++ inserted_row c next_id cdr o partner rs ∷ []) ≤ 1
unfolding existing_cdr
count-inserted c next_id cdr none partner t p rs e h =
    let row = inserted_row c next_id cdr none partner rs in
    omega (arith, count-append (is_cdr_of t p) rs (row ∷ []), h)
count-inserted c next_id cdr (some s) partner t p rs e h =
    let row = inserted_row c next_id cdr (some s) partner rs in
    ground (arith, count-append (is_cdr_of t p) rs (row ∷ []), h, same_test s partner t p rs e)

-- At most one row is a CDR of the transaction for the partner.
abbrev pub AtMostOne : ℕ → ℕ → Table → List CdrRow → Type 0
AtMostOne t p table rows = count (is_cdr_of t p) rows ≤ 1

module _ (c : ClientEnv) (next_id : List CdrRow → ℕ) (t p : ℕ) where
  inserted-Keeps :
      (cdr : MappedCdr) (o : Option ℕ) (partner : ℕ) (found : Option CdrRow) (n : Net)
      → existing_cdr o cdr.id partner n.outbox.cdrs ≡ found
      → count (is_cdr_of t p) n.outbox.cdrs ≤ 1
      → count (is_cdr_of t p) (insert_if_absent c next_id cdr o partner found n).1.outbox.cdrs ≤ 1
  unfolding insert_if_absent insert_cdr
  inserted-Keeps cdr o partner (some row) n e h = h
  inserted-Keeps cdr o partner none n e h =
      let op = database_request c.env (insert_cdr c next_id cdr o partner) in
      let kept =
        keeps_request_at (AtMostOne t p) c.env (insert_cdr c next_id cdr o partner) n.outbox h
          (count-inserted c next_id cdr o partner t p n.outbox.cdrs e h) in
      elim (Result-cases (op n.outbox).0) [ inl (id, r) ↦ rw r kept | inr (e', r) ↦ rw r kept ]

  insert_sent-Keeps :
      (partner : ℕ) (cdr : MappedCdr) (o : Option ℕ)
      → KeepsData (AtMostOne t p) (insert_sent_cdr c next_id partner cdr o)
  unfolding insert_sent_cdr database_request
  insert_sent-Keeps zero cdr o = Keeps-throw _
  insert_sent-Keeps (suc q) cdr o = record {
    at = λ n h. elim (Fault-cases (c.env.fault n.outbox.requests)) [
      | inl f ↦ rw f (
          inserted-Keeps cdr o (suc q) _
            (record n { outbox = record n.outbox { requests = n.outbox.requests + 1 } }) refl h)
      | inr (inl (e, f)) ↦ rw f h
      | inr (inr (e, f)) ↦ rw f h
    ];
  }

  module _ (parse : Option Payload → Option (Option ℕ)) where
    mark_delivered-Keeps :
        (sent : SentCdr) (b : Bool) → KeepsData (AtMostOne t p) (mark_delivered c next_id sent b)
    unfolding mark_delivered mark_cdr_as_sent
    mark_delivered-Keeps sent false = Keeps-pure tt
    mark_delivered-Keeps sent true =
        Keeps-bind _ _ (on_outbox-Keeps (AtMostOne t p) _ (Keeps-read_clock (AtMostOne t p) c.env))
          (λ now. on_outbox-Keeps (AtMostOne t p) _ (
            Keeps-request (AtMostOne t p) c.env _
              (λ w h. ground (arith, count-update t p sent.id now w.cdrs, h))))

    unless_sent-Keeps :
        (o : Option ℕ) (m : Exec Net (Unit {0}))
        → KeepsData (AtMostOne t p) m
        → KeepsData (AtMostOne t p) (unless_sent c next_id o m)
    unless_sent-Keeps (some at) m k = Keeps-pure tt
    unless_sent-Keeps none m k = k

    deliver_once-Keeps :
        (cdr : MappedCdr) (sent : SentCdr) (partner : ℕ) (a : Nullable AuthWithPartners)
        → KeepsData (AtMostOne t p) (deliver_once c next_id parse cdr sent partner a)
    unfolding deliver_once deliver_cdr
    deliver_once-Keeps cdr sent partner a = unless_sent-Keeps sent.successfully_sent_at _ (
        Keeps-catch _ _
          (Keeps-bind _ _
            (broadcast-Keeps (AtMostOne t p) (λ x y rs h. h) c parse
              (cdr_params c next_id cdr sent partner a))
            (λ rs. mark_delivered-Keeps sent (is_delivered c next_id rs)))
          (λ _. Keeps-pure tt))

    broadcast_cdr-Keeps :
        (cdr : MappedCdr) (tx : CdrTransaction) (o : Option ℕ)
        → KeepsData (AtMostOne t p) (broadcast_cdr c next_id parse cdr tx o)
    unfolding broadcast_cdr
    broadcast_cdr-Keeps cdr tx none = Keeps-pure tt
    broadcast_cdr-Keeps cdr tx (some partner) =
        Keeps-bind _ _ (insert_sent-Keeps partner cdr tx.id)
          (λ sent. deliver_once-Keeps cdr sent partner tx.authorization)

    broadcast_first-Keeps :
        (tx : CdrTransaction) (cdrs : List MappedCdr)
        → KeepsData (AtMostOne t p) (broadcast_first c next_id parse tx cdrs)
    unfolding broadcast_first
    broadcast_first-Keeps tx [] = Keeps-pure tt
    broadcast_first-Keeps tx (cdr ∷ cdrs) = broadcast_cdr-Keeps cdr tx tx.tenant_partner_id

  -- A broadcast, whatever the mapper gives and whatever fails, leaves at most one row that is the
  -- CDR of a transaction for a partner, if that was so before.
  pub broadcast-AtMostOne :
      (parse : Option Payload → Option (Option ℕ)) (mapped : Result (List MappedCdr))
      (tx : CdrTransaction) (n : Net)
      → count (is_cdr_of t p) n.outbox.cdrs ≤ 1
      → count (is_cdr_of t p) (broadcast_post_cdr c next_id parse mapped tx n).1.outbox.cdrs ≤ 1
  unfolding broadcast_post_cdr
  broadcast-AtMostOne parse mapped tx n h =
      (Keeps-bind _ _ (from_result-Keeps (AtMostOne t p) c mapped)
          (broadcast_first-Keeps parse tx)).at
        n h

-- A CDR that its partner has accepted is not sent again: with a row of the transaction for the
-- partner that is marked as sent, a broadcast sends nothing and changes neither table, whether or
-- not the database answers.
pub delivered_not_resent :
    (c : ClientEnv) (next_id : List CdrRow → ℕ) (parse : Option Payload → Option (Option ℕ))
    (cdr : MappedCdr) (cdrs : List MappedCdr) (tx : CdrTransaction) (partner at : ℕ) (row : CdrRow)
    (n : Net)
    → tx.tenant_partner_id ≡ some (suc partner)
    → existing_cdr tx.id cdr.id (suc partner) n.outbox.cdrs ≡ some row
    → row.successfully_sent_at ≡ some at
    → let after = (broadcast_post_cdr c next_id parse (ok (cdr ∷ cdrs)) tx n).1 in
      (after.sent ≡ n.sent)
      × (after.outbox.cdrs ≡ n.outbox.cdrs)
      × (after.outbox.table ≡ n.outbox.table)
unfolding broadcast_post_cdr broadcast_first broadcast_cdr insert_sent_cdr insert_if_absent
    database_request deliver_once
delivered_not_resent c next_id parse cdr cdrs tx partner at row n owner found delivered =
    rw owner elim (Fault-cases (c.env.fault n.outbox.requests)) [
      | inl f ↦ rw (f, found, delivered) (refl, refl, refl)
      | inr (inl (e, f)) ↦ rw f (refl, refl, refl)
      | inr (inr (e, f)) ↦ rw f (refl, refl, refl)
    ]
