-- ===== src/Retry/Queue.antt =====
-- The table `GireveBroadcastRetryQueues` and the statements on it, as the GraphQL documents of
-- 00_Base/src/graphql/queries/gireveBroadcastRetry.queries.ts word them. A uuid is a number, an
-- instant is in milliseconds, and a JSON payload is its text.
pub mod Keys
pub mod Settled
use citrineos_ocpi.Prelude.{
  ℕ, ◌+◌, String, Bool, true, false, ◌&&◌, Option, none, some, List, [], ◌∷◌, ◌++◌, map, leb, ltb,
  ◌==◌, str_eq, if◌then◌else◌, keep,
}
use citrineos_ocpi.Model.{ModuleId, InterfaceRole, HttpMethod, module_eq}

pub data Status : Type 0 where
  pending processing sent : Status

pub data ResourceType : Type 0 where
  session tariff cdr : ResourceType

-- The dedupe key of `upsertOnFailure`.
pub record Key : Type 0 where
  pub module_id : ModuleId
  pub partner_tenant_partner_id : ℕ
  pub resource_type : ResourceType
  pub resource_id : String

-- GireveRetryQueueItem
pub record Item : Type 0 where
  pub id : ℕ
  pub key : Key
  pub cpo_country_code : String
  pub cpo_party_id : String
  pub interface_role : InterfaceRole
  pub http_method : HttpMethod
  pub ocpi_path : Option String
  pub payload : String
  pub attempt_count : ℕ
  pub next_retry_at : ℕ

-- A row: the item and the columns that a claim does not return.
pub record Row : Type 0 where
  pub item : Item
  pub open item use *
  pub status : Status
  pub last_error : Option String
  pub locked_at : Option ℕ
  pub sent_at : Option ℕ
  pub created_at : ℕ
  pub updated_at : ℕ

abbrev pub Table : Type 0
Table = List Row

abbrev resource_index : ResourceType → ℕ
resource_index session = 0
resource_index tariff = 1
resource_index cdr = 2

abbrev status_index : Status → ℕ
status_index pending = 0
status_index processing = 1
status_index sent = 2

unfoldable pub status_eq : Status → Status → Bool
status_eq a b = status_index a == status_index b

-- The `where` of FIND_GIREVE_RETRY_QUEUE.
unfoldable pub same_key : Key → Key → Bool
unfolding module_eq
same_key a b =
    module_eq a.module_id b.module_id
    && a.partner_tenant_partner_id == b.partner_tenant_partner_id
    && resource_index a.resource_type == resource_index b.resource_type
    && str_eq a.resource_id b.resource_id

-- An update with a `where`: the rows that match are rewritten, in place.
abbrev pub update_where : (Row → Bool) → (Row → Row) → Table → Table
update_where p f [] = []
update_where p f (r ∷ t) = (if p r then f r else r) ∷ update_where p f t

-- `affected_rows` of such an update.
abbrev pub affected_rows : (Row → Bool) → Table → ℕ
affected_rows p [] = 0
affected_rows p (r ∷ t) = (if p r then 1 else 0) + affected_rows p t

-- The first row of FIND_GIREVE_RETRY_QUEUE, which selects id, status and attemptCount.
unfoldable pub find_gireve_retry_queue : Key → Table → Option Row
find_gireve_retry_queue k [] = none
find_gireve_retry_queue k (r ∷ t) = if same_key r.key k then some r else find_gireve_retry_queue k t

-- INSERT_GIREVE_RETRY_QUEUE
unfoldable pub insert_gireve_retry_queue : Item → String → ℕ → Table → Table
insert_gireve_retry_queue item last_error now t =
    t
    ++ record {
      item = record item { attempt_count = 0 };
      status = pending;
      last_error = some last_error;
      locked_at = none;
      sent_at = none;
      created_at = now;
      updated_at = now;
    }
      ∷ []

-- The columns that UPDATE_GIREVE_RETRY_QUEUE sets.
pub record Refresh : Type 0 where
  pub payload : String
  pub ocpi_path : Option String
  pub attempt_count : ℕ
  pub next_retry_at : ℕ
  pub last_error : String
  pub updated_at : ℕ

abbrev pub refresh_row : Refresh → Row → Row
refresh_row u r = record r {
  item = record r.item {
    payload = u.payload;
    ocpi_path = u.ocpi_path;
    attempt_count = u.attempt_count;
    next_retry_at = u.next_retry_at;
  };
  status = pending;
  last_error = some u.last_error;
  updated_at = u.updated_at;
}

-- UPDATE_GIREVE_RETRY_QUEUE
unfoldable pub update_gireve_retry_queue : ℕ → Refresh → Table → Table
update_gireve_retry_queue id u = update_where (λ r. r.id == id) (refresh_row u)

-- The `where` of MARK_GIREVE_RETRY_SENT and RESCHEDULE_GIREVE_RETRY.
abbrev pub in_processing : ℕ → Row → Bool
in_processing id r = r.id == id && status_eq r.status processing

abbrev pub sent_row : ℕ → Row → Row
sent_row now r = record r {
  status = sent;
  sent_at = some now;
  last_error = none;
  locked_at = none;
  updated_at = now;
}

-- MARK_GIREVE_RETRY_SENT
unfoldable pub mark_gireve_retry_sent : ℕ → ℕ → Table → Table
mark_gireve_retry_sent id now = update_where (in_processing id) (sent_row now)

abbrev pub rescheduled_row : ℕ → ℕ → String → Row → Row
rescheduled_row attempt_count next_retry_at last_error r = record r {
  item = record r.item { attempt_count = attempt_count; next_retry_at = next_retry_at };
  status = pending;
  last_error = some last_error;
  locked_at = none;
  updated_at = next_retry_at;
}

-- RESCHEDULE_GIREVE_RETRY
unfoldable pub reschedule_gireve_retry : ℕ → ℕ → ℕ → String → Table → Table
reschedule_gireve_retry id attempt_count next_retry_at last_error =
    update_where (in_processing id) (rescheduled_row attempt_count next_retry_at last_error)

-- A null `lockedAt` matches no comparison.
abbrev pub locked_before : ℕ → Option ℕ → Bool
locked_before stale_before none = false
locked_before stale_before (some l) = ltb l stale_before

abbrev pub is_stale : ℕ → Row → Bool
is_stale stale_before r = status_eq r.status processing && locked_before stale_before r.locked_at

abbrev pub released_row : ℕ → Row → Row
released_row stale_before r = record r {
  status = pending;
  locked_at = none;
  updated_at = stale_before;
}

-- RELEASE_STALE_GIREVE_RETRY_LOCKS
unfoldable pub release_stale_gireve_retry_locks : ℕ → Table → Table
release_stale_gireve_retry_locks stale_before =
    update_where (is_stale stale_before) (released_row stale_before)

-- The `where` of FETCH_DUE_GIREVE_RETRIES: what is due for a retry.
unfoldable pub is_due : ℕ → Row → Bool
is_due now r = status_eq r.status pending && leb r.next_retry_at now
