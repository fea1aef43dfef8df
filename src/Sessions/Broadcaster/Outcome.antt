-- ===== src/Sessions/Broadcaster/Outcome.antt =====
-- When a broadcast of a session counts as sent.
use text.Mathlib.TextPositions.{eq_refl}
use citrineos_ocpi.Prelude.{◌≡◌, refl, ap, ◌∙◌, true, false, not, Option, inl, inr, Bool-cases}
use citrineos_ocpi.Exec.{Thrown, ok, err}
use citrineos_ocpi.Retry.World.{Fault, no_fault, request as database_request}
use citrineos_ocpi.Client.Body.{Payload}
use citrineos_ocpi.Client.Net.{ClientEnv}
use citrineos_ocpi.Client.Broadcast.{broadcast_to_clients}
use citrineos_ocpi.Client.Broadcast.Isolation.{broadcast_returns}
use citrineos_ocpi.Sessions.Dedupe.{Texts, fingerprint, mark_in_flight}
use citrineos_ocpi.Sessions.Dedupe.Lifecycle.{sent_once, failed_retries}
use citrineos_ocpi.Sessions.Broadcaster.{
  Live, SessionPush, session_params, wanted, push_marked, broadcast_session_deduped,
}

module _ (texts : Texts) (c : ClientEnv) {A : Type 0} (parse : Option Payload → Option A) where
  -- Once the list of partners has been read, a broadcast returns and the body counts as sent: the
  -- same body is not broadcast again, also where the partner did not answer or refused it.
  pub answered_or_not :
      (p : SessionPush) (l : Live)
      → c.env.fault l.net.outbox.requests ≡ no_fault
      → ((broadcast_session_deduped texts c parse p l).0 ≡ ok tt)
        × (wanted texts c parse p (broadcast_session_deduped texts c parse p l).1.dedupe ≡ false)
  unfolding broadcast_session_deduped push_marked
  answered_or_not p l f =
      let b = session_params p in
      let listed = broadcast_returns c parse b l.net f in
      let body = p.body.session in
      let marked = mark_in_flight texts l.dedupe p.transaction_id p.partner_id p.method in
      let same =
        (sent_once texts marked p.transaction_id p.partner_id p.method body body).1
        ∙ ap not (eq_refl (fingerprint texts body)) in
      elim (Bool-cases (wanted texts c parse p l.dedupe)) [
        | inl w ↦ rw (w, listed.0.1) (refl, same)
        | inr w ↦ rw w (refl, w)
      ]

  -- Where the list of partners cannot be read the broadcast throws, and the body that was to be
  -- broadcast still is.
  pub unlisted_retried :
      (p : SessionPush) (l : Live) (e : Thrown)
      → wanted texts c parse p l.dedupe ≡ true
      → c.env.fault l.net.outbox.requests ≡ Fault.before e
      → ((broadcast_session_deduped texts c parse p l).0 ≡ err e)
        × (wanted texts c parse p (broadcast_session_deduped texts c parse p l).1.dedupe ≡ true)
  unfolding broadcast_session_deduped push_marked broadcast_to_clients database_request
  unlisted_retried p l e w f =
      rw (w, f)
        (
          refl,
          failed_retries texts l.dedupe p.transaction_id p.partner_id p.method p.body.session w,
        )
