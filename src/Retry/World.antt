-- ===== src/Retry/World.antt =====
-- What surrounds the outbox and the worker: the database behind Hasura, the clock, the partner's
-- server. None of these is the program's: they enter as the record `Env`, and a run consumes their
-- answers in order. A request to Hasura may fail before or after it took effect.
pub mod Keeps
use citrineos_ocpi.Prelude.{
  ℕ, ◌+◌, ◌≡◌, refl, ◌⊎◌, inl, inr, String, Option, none, some, List, [], ◌∷◌,
}
use citrineos_ocpi.Config.{OcpiConfig}
use citrineos_ocpi.Exec.{Thrown, Result, ok, err, Exec}
use citrineos_ocpi.Model.{ModuleId}
use citrineos_ocpi.Retry.Queue.{Table, Item}

pub data Fault : Type 0 where
  no_fault : Fault
  before : Thrown → Fault
  after : Thrown → Fault

pub Fault-cases :
    (f : Fault) → (f ≡ no_fault) ⊎ ((e : Thrown) × (f ≡ before e)) ⊎ ((e : Thrown) × (f ≡ after e))
Fault-cases no_fault = inl refl
Fault-cases (before e) = inr (inl (e, refl))
Fault-cases (after e) = inr (inr (e, refl))

-- GET_TENANT_PARTNER_BY_ID, the columns that the worker reads; `has_profile` says that
-- partnerProfileOCPI is there.
pub record RetryPartner : Type 0 where
  pub country_code : String
  pub party_id : String
  pub has_profile : Option String

-- What a client's `request` comes back with: the OCPI status code of the partner's answer, if it
-- has one, or a throw.
pub data Answer : Type 0 where
  replied : Option ℕ → Answer
  failed : Thrown → Answer

-- The row of `Cdrs` that a sent CDR has.
pub record CdrRow : Type 0 where
  pub id : ℕ
  pub ocpi_cdr_id : String
  pub to_tenant_partner_id : ℕ
  pub transaction_id : Option ℕ
  pub successfully_sent_at : Option ℕ

pub record Env : Type 0 where
  pub config : OcpiConfig
  pub time : ℕ → ℕ
  pub fault : ℕ → Fault
  pub answer : ℕ → Answer
  pub uuid : ℕ → ℕ
  -- the stack that `new Error(message)` records, and the text of a number in a template
  pub stack : String → Option String
  pub number_text : ℕ → String
  pub partner_by_id : ℕ → Option RetryPartner
  -- claim_gireve_broadcast_retries, a function of the database: the instant, the batch limit
  pub claim : ℕ → ℕ → Table → List Item × Table

-- A push that reached the partner's server, with the answer.
pub record Push : Type 0 where
  pub module_id : ModuleId
  pub item : Item
  pub answer : Answer

pub record World : Type 0 where
  pub table : Table
  pub cdrs : List CdrRow
  pub pushes : List Push
  pub clock_reads : ℕ
  pub requests : ℕ
  pub sends : ℕ
  pub uuids : ℕ

module _ (env : Env) where
  -- new Date()
  unfoldable pub read_clock : Exec World ℕ
  read_clock w = (ok (env.time w.clock_reads), record w { clock_reads = w.clock_reads + 1 })

  -- uuidv4()
  unfoldable pub fresh_uuid : Exec World ℕ
  fresh_uuid w = (ok (env.uuid w.uuids), record w { uuids = w.uuids + 1 })

  abbrev answered : {A : Type 0} → Fault → A × World → World → Result A × World
  answered no_fault (a, done) w = (ok a, done)
  answered (before e) (a, done) w = (err e, w)
  answered (after e) (a, done) w = (err e, done)

  -- ocpiGraphqlClient.request
  unfoldable pub request : {A : Type 0} → (World → A × World) → Exec World A
  request op w =
      let sent = record w { requests = w.requests + 1 } in
      answered (env.fault w.requests) (op sent) sent

  abbrev result_of : Answer → Result (Option ℕ)
  result_of (replied status_code) = ok status_code
  result_of (failed e) = err e

  -- request of a client API
  unfoldable pub push : ModuleId → Item → Exec World (Option ℕ)
  push m item w =
      let a = env.answer w.sends in
      (
        result_of a,
        record w {
          sends = w.sends + 1;
          pushes = record { module_id = m; item = item; answer = a } ∷ w.pushes;
        },
      )
