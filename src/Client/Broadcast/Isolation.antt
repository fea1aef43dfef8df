-- ===== src/Client/Broadcast/Isolation.antt =====
-- One partner's failure does not reach the others, and what it leaves in the retry queue.
use citrineos_ocpi.Prelude.{
  ℕ, suc, ◌+◌, ◌≤◌, ◌≡◌, refl, ◌⊎◌, ap, String, true, false, ◌&&◌, Option, none, some, List, [],
  ◌∷◌, arith, inl, inr, keep, length, Bool-cases, ◌⧺◌, subst, ◌∙◌,
}
use citrineos_ocpi.Js.{get_or}
use citrineos_ocpi.Exec.{
  Thrown, parse_error, ok, err, Exec, ◌>>◌, continue, pure, catch, Result-cases,
}
use citrineos_ocpi.Model.{ModuleId, module_text, module_eq}
use citrineos_ocpi.Partner.{BroadcastPartner, is_gireve_partner}
use citrineos_ocpi.Retry.Backoff.{compute_gireve_next_retry_at}
use citrineos_ocpi.Retry.World.{World, no_fault, request as database_request}
use citrineos_ocpi.Retry.Queue.{Key, Row, Status, ResourceType, find_gireve_retry_queue}
use citrineos_ocpi.Retry.Outbox.{backoff_options, upsert_on_failure}
use citrineos_ocpi.Retry.Outbox.Latest.{attempts_of, Refreshed, upsert_latest}
use citrineos_ocpi.Client.Body.{Body, Payload}
use citrineos_ocpi.Client.Response.{filled}
use citrineos_ocpi.Client.Net.{ClientEnv, Net}
use citrineos_ocpi.Client.Request.{request}
use citrineos_ocpi.Client.Request.Keeps.{request-Keeps}
use citrineos_ocpi.Client.Broadcast.{
  BroadcastParams, is_selected, is_retryable_module, resource_type, role_text, computed_resource_id,
  retry_input, queue_resource, queue_failure, request_params, onto, push_partner, push_all,
  broadcast_to_clients,
}

module _ (c : ClientEnv) {A : Type 0} (parse : Option Payload → Option A)
    (b : BroadcastParams) where
  best_effort :
      (m : Exec Net (Unit {0})) (n : Net)
      → (catch m (λ _. pure tt) >> pure {A = Option A} none) n ≡ (ok none, (m n).1)
  best_effort m n = elim (Result-cases (m n).0) [ inl (t, e) ↦ rw e refl | inr (e', e) ↦ rw e refl ]

  pub push_answered :
      (p : BroadcastPartner) (n : Net) (a : A)
      → (request c parse (request_params c b p) n).0 ≡ ok a
      → push_partner c parse b p n ≡ (ok (some a), (request c parse (request_params c b p) n).1)
  unfolding push_partner
  push_answered p n a e = rw e refl

  pub push_failed :
      (p : BroadcastPartner) (n : Net) (e : Thrown)
      → (request c parse (request_params c b p) n).0 ≡ err e
      → push_partner c parse b p n
        ≡ (ok none, (queue_failure c b p e (request c parse (request_params c b p) n).1).1)
  unfolding push_partner
  push_failed p n e h = rw h (best_effort (queue_failure c b p e) _)

  push_returns :
      (p : BroadcastPartner) (n : Net) → (o : Option A) × ((push_partner c parse b p n).0 ≡ ok o)
  push_returns p n = elim (Result-cases (request c parse (request_params c b p) n).0) [
    | inl (a, h) ↦ (some a, ap (λ r. r.0) (push_answered p n a h))
    | inr (e, h) ↦ (none, ap (λ r. r.0) (push_failed p n e h))
  ]

  -- The partners that the filter and the roles exclude might as well not be in the list.
  push_all-keep :
      (ps : List BroadcastPartner) (n : Net)
      → push_all c parse b ps n ≡ push_all c parse b (keep (is_selected b) ps) n
  unfolding push_all
  push_all-keep [] n = refl
  push_all-keep (p ∷ ps) n = elim (Bool-cases (is_selected b p)) [
    | inl s ↦
        let pushed = push_returns p n in
        rw (s, pushed.1, s, pushed.1)
          (ap (λ r. continue r.0 (λ rs. pure (onto c parse pushed.0 rs)) r.1)
            (push_all-keep ps (push_partner c parse b p n).1))
    | inr s ↦ rw s (push_all-keep ps n)
  ]

  onto-le :
      (o : Option A) (rs : List A) (k : ℕ) → length rs ≤ k → length (onto c parse o rs) ≤ suc k
  onto-le none rs k h = omega (arith, h)
  onto-le (some a) rs k h = omega (arith, h)

  push_all_returns :
      (ps : List BroadcastPartner) (n : Net)
      → (rs : List A) × ((push_all c parse b ps n).0 ≡ ok rs)
        × (length rs ≤ length (keep (is_selected b) ps))
  unfolding push_all
  push_all_returns [] n = ([], refl, omega arith)
  push_all_returns (p ∷ ps) n = elim (Bool-cases (is_selected b p)) [
    | inl s ↦
        let pushed = push_returns p n in
        let rest = push_all_returns ps (push_partner c parse b p n).1 in
        rw (s, pushed.1, rest.1)
          (onto c parse pushed.0 rest.0, refl, onto-le pushed.0 rest.0 _ rest.2)
    | inr s ↦ rw s (push_all_returns ps n)
  ]

-- The modules whose failed pushes are tried again, each with the type of its resources.
pub data IsRetried : ModuleId → ResourceType → Type 0 where
  retried_session : IsRetried ModuleId.sessions ResourceType.session
  retried_cdr : IsRetried ModuleId.cdrs ResourceType.cdr
  retried_tariff : IsRetried ModuleId.tariffs ResourceType.tariff

retried_module :
    (m : ModuleId) (t : ResourceType)
    → IsRetried m t
    → (is_retryable_module m ≡ true) × (resource_type m ≡ t)
unfolding module_eq
retried_module _ _ retried_session = (refl, refl)
retried_module _ _ retried_cdr = (refl, refl)
retried_module _ _ retried_tariff = (refl, refl)

-- What the queue keeps a failed push under.
abbrev pub failed_key : ModuleId → BroadcastPartner → ResourceType → String → Key
failed_key m p t id = record {
  module_id = m;
  partner_tenant_partner_id = p.id;
  resource_type = t;
  resource_id = id;
}

module _ (c : ClientEnv) {A : Type 0} (parse : Option Payload → Option A)
    (b : BroadcastParams) where
  abbrev pub listed : List BroadcastPartner
  listed =
      c.partners_by_cpo b.cpo_country_code b.cpo_party_id
        (module_text b.module_id ⧺ ("_" ⧺ role_text b.interface_role))

  abbrev pub after_listing : Net → Net
  after_listing n = record n { outbox = record n.outbox { requests = n.outbox.requests + 1 } }

  -- Once the list of partners has been read, a broadcast returns, whatever the partners answer and
  -- whatever fails in the retry queue, with at most one answer for each partner that is selected;
  -- and it does the same as the loop over these partners alone, so no other one is contacted.
  pub broadcast_returns :
      (n : Net)
      → c.env.fault n.outbox.requests ≡ no_fault
      → ((rs : List A) × ((broadcast_to_clients c parse b n).0 ≡ ok rs)
          × (length rs ≤ length (keep (is_selected b) listed)))
        × (broadcast_to_clients c parse b n
            ≡ push_all c parse b (keep (is_selected b) listed) (after_listing n))
  unfolding broadcast_to_clients database_request
  broadcast_returns n f = rw f (
    push_all_returns c parse b listed (after_listing n),
    push_all-keep c parse b listed (after_listing n),
  )

  -- The text of the body that was passed, not of the one that was sent.
  abbrev pub passed_body : String
  passed_body = elim b.body [ none ↦ "{}" | some body ↦ c.body_json body ]

  -- What a failed push leaves under its key: it waits with the body that was passed, the path and the
  -- error, and with the attempts of a row that was not sent.
  abbrev pub Awaits : Key → Thrown → World → Row → Type 0
  Awaits k e w row =
      let attempts = attempts_of (find_gireve_retry_queue k w.table) in
      (row.status ≡ Status.pending)
      × (row.payload ≡ passed_body)
      × (row.ocpi_path ≡ b.path)
      × (row.last_error ≡ some (parse_error e))
      × (row.attempt_count ≡ attempts)
      × (row.next_retry_at
          ≡ compute_gireve_next_retry_at attempts (backoff_options c.env)
              (c.env.time w.clock_reads))

  Refreshed-Awaits :
      (p : BroadcastPartner) (id : String) (e : Thrown) (t : ResourceType) (w : World) (row : Row)
      → resource_type b.module_id ≡ t
      → Refreshed c.env (retry_input c b p id e) w row
      → Awaits (failed_key b.module_id p t id) e w row
  unfolding retry_input
  Refreshed-Awaits p id e t w row same h =
      subst (λ t. Awaits (failed_key b.module_id p t id) e w row) same
        (h.0, h.1 ∙ payload_text b.body, h.2, h.3, h.4, h.5)
    where
      payload_text :
          (o : Option Body)
          → get_or elim o [ none ↦ none | some body ↦ some (c.body_json body) ] "{}"
            ≡ elim o [ none ↦ "{}" | some body ↦ c.body_json body ]
      payload_text none = refl
      payload_text (some body) = refl

  -- A push that fails is queued for the retry worker where the partner is Gireve, the module is
  -- sessions, CDRs or tariffs, and the body or the path names a resource. With a database that
  -- answers, the row of this resource, found by the module, the partner, the type that goes with the
  -- module and the id of the resource, is then pending with the text of the body that was passed (of
  -- an empty object where there was none), the path and the error; it keeps the attempts of a row
  -- that was not sent, and is due after the delay of these.
  pub failed_push_queued :
      (p : BroadcastPartner) (n : Net) (e : Thrown) (id : String) (t : ResourceType)
      → (request c parse (request_params c b p) n).0 ≡ err e
      → IsRetried b.module_id t
      → is_gireve_partner c.env.config p.country_code p.party_id ≡ true
      → filled (computed_resource_id c b.body b.path) ≡ some id
      → let w = (request c parse (request_params c b p) n).1.outbox in
        c.env.fault w.requests ≡ no_fault
        → c.env.fault (w.requests + 1) ≡ no_fault
        → (row : Row) × (find_gireve_retry_queue
              (failed_key b.module_id p t id)
              (push_partner c parse b p n).1.outbox.table
            ≡ some row)
          × Awaits (failed_key b.module_id p t id) e w row
  unfolding queue_failure queue_resource retry_input
  failed_push_queued p n e id t failed retried gireve named f0 f1 =
      let w = (request c parse (request_params c b p) n).1.outbox in
      let (retryable, typed) = retried_module b.module_id t retried in
      let done = upsert_on_failure c.env (retry_input c b p id e) w in
      let (row, found, h) = (upsert_latest c.env (retry_input c b p id e) w f0 f1).1 in
      rw (push_failed c parse b p n e failed, retryable, gireve, named)
        (
          row,
          subst
              (λ t. find_gireve_retry_queue (failed_key b.module_id p t id) done.1.table ≡ some row)
              typed found,
          Refreshed-Awaits p id e t w row typed h,
        )

  -- A push leaves the retry queue alone unless it failed, the partner is Gireve, and the module is
  -- sessions, CDRs or tariffs.
  pub unqueued_push :
      (p : BroadcastPartner) (n : Net)
      → (is_retryable_module b.module_id
            && is_gireve_partner c.env.config p.country_code p.party_id)
          ≡ false
        ⊎ ((a : A) × ((request c parse (request_params c b p) n).0 ≡ ok a))
      → (push_partner c parse b p n).1.outbox.table ≡ n.outbox.table
  unfolding queue_failure
  unqueued_push p n h =
      let r = request_params c b p in
      let kept = (request-Keeps (λ t rows. t ≡ n.outbox.table) c parse r).at n refl in
      elim h [
        | inl g ↦ elim (Result-cases (request c parse r n).0) [
          | inl (a, e) ↦ rw (push_answered c parse b p n a e) kept
          | inr (e', e) ↦ rw (push_failed c parse b p n e' e, g) kept
        ]
        | inr (a, e) ↦ rw (push_answered c parse b p n a e) kept
      ]
