-- ===== src/Sessions/Dedupe/InFlight/Cleared.antt =====
-- A transaction that is cleared while a push of it runs.
use citrineos_ocpi.Prelude.{◌≡◌, ◌∙◌, ap, refl, true, [], ◌∷◌, ◌⧺◌, arith}
use citrineos_ocpi.Sessions.Dedupe.{
  Texts, SessionBody, key, should_broadcast, mark_in_flight, clear,
}
use citrineos_ocpi.Sessions.Dedupe.Lifecycle.{own_prefix, has-clear_set, get-clear_map}
use citrineos_ocpi.Sessions.Dedupe.InFlight.{Push, Broadcasts, begins, clears, begin, cleared, run}

module _ (texts : Texts) where
  begin_wanted :
      (p : Push) (b : Broadcasts)
      → should_broadcast texts b.dedupe p.transaction_id p.partner_id p.method p.body ≡ true
      → begin texts p b ≡ record {
        dedupe = mark_in_flight texts b.dedupe p.transaction_id p.partner_id p.method;
        running = p ∷ b.running;
      }
  unfolding begin
  begin_wanted p b h = rw h refl

  wanted_after_clear :
      (p : Push) (b : Broadcasts)
      → should_broadcast texts
          (cleared texts p.transaction_id b).dedupe
          p.transaction_id
          p.partner_id
          p.method
          p.body
        ≡ true
  unfolding should_broadcast clear
  wanted_after_clear p b =
      let k = key texts p.transaction_id p.partner_id p.method in
      let prefix = p.transaction_id ⧺ ":" in
      ground (
        arith,
        own_prefix texts p.transaction_id p.partner_id p.method,
        has-clear_set prefix k b.dedupe.in_flight,
        get-clear_map prefix k b.dedupe.last_fingerprint,
      )

  -- A transaction that is cleared while a push of it runs can be pushed a second time at once: where a
  -- push is one to be broadcast, whatever runs already, and its transaction is cleared after it began,
  -- a push that begins then runs beside it, with the same transaction, partner and method, be its body
  -- the same or another.
  pub clear_admits_second :
      (p : Push) (next : SessionBody) (b : Broadcasts)
      → should_broadcast texts b.dedupe p.transaction_id p.partner_id p.method p.body ≡ true
      → (run texts
          (begins p ∷ clears p.transaction_id ∷ begins (record p { body = next }) ∷ [])
          b).running
        ≡ record p { body = next } ∷ p ∷ b.running
  unfolding run
  clear_admits_second p next b h =
      let q : Push = record p { body = next } in
      let w : Broadcasts = cleared texts p.transaction_id (begin texts p b) in
      ap (λ x. x.running) (begin_wanted q w (wanted_after_clear q (begin texts p b)))
      ∙ ap (λ x. q ∷ x.running) (begin_wanted p b h)
