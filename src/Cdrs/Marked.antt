-- ===== src/Cdrs/Marked.antt =====
-- What a delivery leaves in the rows of CDRs.
use citrineos_ocpi.Prelude.{ℕ, ◌≡◌, refl, sym, ap, ◌∙◌, false, Option, some, List, [], ◌∷◌, arith}
use citrineos_ocpi.Js.{Nullable}
use citrineos_ocpi.Exec.{ok}
use citrineos_ocpi.Partner.{AuthWithPartners}
use citrineos_ocpi.Retry.World.{CdrRow, no_fault, read_clock, request as database_request}
use citrineos_ocpi.Retry.Worker.{update_cdr_sent_status, mark_cdr_as_sent}
use citrineos_ocpi.Client.Body.{Payload}
use citrineos_ocpi.Client.Net.{ClientEnv, Net}
use citrineos_ocpi.Client.Broadcast.{broadcast_to_clients}
use citrineos_ocpi.Client.Broadcast.Keeps.{broadcast-Keeps}
use citrineos_ocpi.Cdrs.{
  MappedCdr, SentCdr, is_cdr_of, first, cdr_params, is_delivered, mark_delivered, deliver_cdr,
}

first-update :
    (t p at : ℕ) (row : CdrRow) (rs : List CdrRow)
    → first (is_cdr_of t p) rs ≡ some row
    → first (is_cdr_of t p) (update_cdr_sent_status row.id at rs)
      ≡ some (record row { successfully_sent_at = some at })
unfolding update_cdr_sent_status
first-update t p at row [] h = cc
first-update t p at row (r ∷ rs) h = ground (arith, first-update t p at row rs)

module _ (c : ClientEnv) (next_id : List CdrRow → ℕ) (parse : Option Payload → Option (Option ℕ))
    (cdr : MappedCdr) (sent : SentCdr) (partner : ℕ) (a : Nullable AuthWithPartners) (n : Net) where
  rows_kept :
      (broadcast_to_clients c parse (cdr_params c next_id cdr sent partner a) n).1.outbox.cdrs
      ≡ n.outbox.cdrs
  rows_kept =
      (broadcast-Keeps (λ t rows. rows ≡ n.outbox.cdrs) (λ t u rs h. h) c parse
          (cdr_params c next_id cdr sent partner a)).at
        n refl

  -- A push that is not answered by exactly one success leaves the rows of the CDRs as they were, so
  -- the CDR is still to be delivered.
  undelivered_unmarked :
      (codes : List (Option ℕ))
      → (broadcast_to_clients c parse (cdr_params c next_id cdr sent partner a) n).0 ≡ ok codes
      → is_delivered c next_id codes ≡ false
      → (deliver_cdr c next_id parse cdr sent partner a n).1.outbox.cdrs ≡ n.outbox.cdrs
  unfolding deliver_cdr mark_delivered
  undelivered_unmarked codes e bad = rw (e, bad) rows_kept

  -- Where the one answer is the OCPI code 1000 and the database answers, the row of the transaction
  -- for the partner is marked as sent, and nothing else of it changes.
  pub delivered_marked :
      (t p : ℕ) (row : CdrRow)
      → first (is_cdr_of t p) n.outbox.cdrs ≡ some row
      → row.id ≡ sent.id
      → (broadcast_to_clients c parse (cdr_params c next_id cdr sent partner a) n).0
        ≡ ok (some 1000 ∷ [])
      → c.env.fault
          (broadcast_to_clients c parse
            (cdr_params c next_id cdr sent partner a)
            n).1.outbox.requests
        ≡ no_fault
      → (at : ℕ) × (first
            (is_cdr_of t p)
            (deliver_cdr c next_id parse cdr sent partner a n).1.outbox.cdrs
          ≡ some (record row { successfully_sent_at = some at }))
  unfolding deliver_cdr mark_delivered mark_cdr_as_sent database_request read_clock
  delivered_marked t p row found same e f =
      let answer = broadcast_to_clients c parse (cdr_params c next_id cdr sent partner a) n in
      let at = c.env.time answer.1.outbox.clock_reads in
      rw (e, f)
        (
          at,
          ap (λ rows. first (is_cdr_of t p) (update_cdr_sent_status sent.id at rows)) rows_kept
              ∙ ap (λ id. first (is_cdr_of t p) (update_cdr_sent_status id at n.outbox.cdrs))
                  (sym same)
              ∙ first-update t p at row n.outbox.cdrs found,
        )
