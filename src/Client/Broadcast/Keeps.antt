-- ===== src/Client/Broadcast/Keeps.antt =====
-- Predicates of the tables that a broadcast keeps: those that do not read the retry queue.
use citrineos_ocpi.Prelude.{ℕ, String, Option, none, some, List, [], ◌∷◌}
use citrineos_ocpi.Exec.{Thrown}
use citrineos_ocpi.Exec.Keeps.{Keeps-bind, Keeps-pure, Keeps-catch, Keeps-if}
use citrineos_ocpi.Partner.{BroadcastPartner}
use citrineos_ocpi.Retry.Queue.{Table, Row}
use citrineos_ocpi.Retry.World.{Env, CdrRow, fresh_uuid}
use citrineos_ocpi.Retry.World.Keeps.{KeepsTables, Keeps-request, Keeps-read_clock}
use citrineos_ocpi.Retry.Outbox.{UpsertGireveRetryInput, upsert_on_failure, upsert_found}
use citrineos_ocpi.Client.Body.{Payload}
use citrineos_ocpi.Client.Net.{ClientEnv}
use citrineos_ocpi.Client.Request.Keeps.{KeepsData, on_outbox-Keeps, request-Keeps}
use citrineos_ocpi.Client.Broadcast.{
  BroadcastParams, queue_failure, queue_resource, retry_input, push_partner, push_all,
  broadcast_to_clients,
}

module _ (P : Table → List CdrRow → Type 0)
    (free : (t u : Table) (rs : List CdrRow) → P t rs → P u rs) where
  fresh_uuid-Keeps : (env : Env) → KeepsTables P (fresh_uuid env)
  unfolding fresh_uuid
  fresh_uuid-Keeps env = record { at = λ w h. h }

  upsert_found-Keeps :
      (env : Env) (input : UpsertGireveRetryInput) (now : ℕ) (o : Option Row)
      → KeepsTables P (upsert_found env input now o)
  unfolding upsert_found
  upsert_found-Keeps env input now none =
      Keeps-bind _ _ (fresh_uuid-Keeps env)
        (λ id. Keeps-request P env _ (λ w. free w.table _ w.cdrs))
  upsert_found-Keeps env input now (some row) = Keeps-request P env _ (λ w. free w.table _ w.cdrs)

  upsert-Keeps :
      (env : Env) (input : UpsertGireveRetryInput) → KeepsTables P (upsert_on_failure env input)
  unfolding upsert_on_failure
  upsert-Keeps env input =
      Keeps-bind _ _ (Keeps-read_clock P env) (λ now.
        Keeps-bind _ _ (Keeps-request P env _ (λ w h. h)) (upsert_found-Keeps env input now))

  module _ (c : ClientEnv) where
    queue_resource-Keeps :
        (b : BroadcastParams) (p : BroadcastPartner) (e : Thrown) (o : Option String)
        → KeepsData P (queue_resource c b p e o)
    unfolding queue_resource
    queue_resource-Keeps b p e none = Keeps-pure tt
    queue_resource-Keeps b p e (some id) =
        on_outbox-Keeps P _ (upsert-Keeps c.env (retry_input c b p id e))

    queue_failure-Keeps :
        (b : BroadcastParams) (p : BroadcastPartner) (e : Thrown)
        → KeepsData P (queue_failure c b p e)
    unfolding queue_failure
    queue_failure-Keeps b p e = Keeps-if _ _ _ (queue_resource-Keeps b p e _) (Keeps-pure tt)

    module _ {A : Type 0} (parse : Option Payload → Option A) (b : BroadcastParams) where
      push-Keeps : (p : BroadcastPartner) → KeepsData P (push_partner c parse b p)
      unfolding push_partner
      push-Keeps p =
          Keeps-catch _ _ (Keeps-bind _ _ (request-Keeps P c parse _) (λ response. Keeps-pure _))
            (λ e.
              Keeps-bind _ _ (Keeps-catch _ _ (queue_failure-Keeps b p e) (λ _. Keeps-pure tt))
                (λ _. Keeps-pure none))

      push_all-Keeps : (ps : List BroadcastPartner) → KeepsData P (push_all c parse b ps)
      unfolding push_all
      push_all-Keeps [] = Keeps-pure []
      push_all-Keeps (p ∷ ps) =
          Keeps-if _ _ _
            (Keeps-bind _ _ (push-Keeps p)
              (λ o. Keeps-bind _ _ (push_all-Keeps ps) (λ rs. Keeps-pure _)))
            (push_all-Keeps ps)

      pub broadcast-Keeps : KeepsData P (broadcast_to_clients c parse b)
      unfolding broadcast_to_clients
      broadcast-Keeps =
          Keeps-bind _ _ (on_outbox-Keeps P _ (Keeps-request P c.env _ (λ w h. h))) push_all-Keeps
