-- ===== src/Mapper/Batch.antt =====
-- Finished transactions as CDRs: `mapTransactionsToCdrs` of 00_Base/src/mapper/CdrMapper.ts, over the
-- sessions of `mapTransactionsToSessions` of 00_Base/src/mapper/SessionMapper.ts.
pub mod Ids
pub mod Completed
use citrineos_ocpi.Prelude.{
  ℕ, String, ◌⧺◌, Bool, true, not, Option, none, some, List, [], ◌∷◌, keep,
}
use citrineos_ocpi.Js.{Nullable, undefined, null, value}
use citrineos_ocpi.Exec.{and_then, Thrown, Result, ok, err}
use citrineos_ocpi.Mapper.Data.{Tariff, Location, CdrToken, Transaction, Session}
use citrineos_ocpi.Mapper.Session.{map_transaction_with_context}
use citrineos_ocpi.Mapper.Lookups.{Loaders, set, get, set_defined, collect}
use citrineos_ocpi.Mapper.Cdr.{Cdr, map_session_to_cdr}

-- The maps that mapTransactionsToCdrs hands on.
pub record CdrMaps : Type 0 where
  pub locations : List (String × Location)
  pub tariffs : List (String × Tariff)
  pub ocpi_tariffs : List (String × String)
  pub db_ids : List (String × Option ℕ)

abbrev pub joined : Option (Option ℕ) → Option ℕ
joined none = none
joined (some db_id) = db_id

abbrev pub cons_ok : Cdr → List Cdr → Result (List Cdr)
cons_ok c cs = ok (c ∷ cs)

-- The CDR of a session with a tariff; others are filtered out.
abbrev pub push_cdr : CdrMaps → Session → Option Tariff → Result (List Cdr) → Result (List Cdr)
push_cdr maps s none rest = rest
push_cdr maps s (some tariff) rest =
    and_then
      (map_session_to_cdr s (get s.id maps.locations) tariff (get s.id maps.ocpi_tariffs)
        (joined (get s.id maps.db_ids)))
      (λ c. and_then rest (cons_ok c))

-- The first failure fails all.
unfoldable pub map_sessions_to_cdrs : CdrMaps → List Session → Result (List Cdr)
map_sessions_to_cdrs maps [] = ok []
map_sessions_to_cdrs maps (s ∷ ss) =
    push_cdr maps s (get s.id maps.tariffs) (map_sessions_to_cdrs maps ss)

-- !isActive
abbrev pub is_inactive : Nullable Bool → Bool
is_inactive (value active) = not active
is_inactive _ = true

unfoldable pub is_completed : Transaction → Bool
is_completed t = is_inactive t.boundaries.is_active

unfoldable pub get_completed_transactions : List Transaction → List Transaction
get_completed_transactions = keep is_completed

abbrev pub cons_session : Session → List Session → Result (List Session)
cons_session s ss = ok (s ∷ ss)

-- The session of a transaction whose location, token and tariff are known; others are skipped.
abbrev pub push_session :
    Transaction
    → Option Location
    → Option CdrToken
    → Option Tariff
    → Result (List Session)
    → Result (List Session)
push_session t (some location) (some token) (some tariff) rest =
    and_then (map_transaction_with_context t location token tariff)
      (λ s. and_then rest (cons_session s))
push_session t _ _ _ rest = rest

unfoldable pub map_transactions_to_sessions_helper :
    List Transaction
    → List (String × Location)
    → List (String × CdrToken)
    → List (String × Tariff)
    → Result (List Session)
map_transactions_to_sessions_helper [] locations tokens tariffs = ok []
map_transactions_to_sessions_helper (t ∷ ts) locations tokens tariffs =
    push_session t (get t.transaction_id locations) (get t.transaction_id tokens)
      (get t.transaction_id tariffs)
      (map_transactions_to_sessions_helper ts locations tokens tariffs)

unfoldable pub map_transactions_to_sessions : Loaders → List Transaction → Result (List Session)
map_transactions_to_sessions l ts = and_then (collect l.location ts []) (λ locations.
    and_then (collect l.token ts []) (λ tokens.
      and_then (collect l.tariff ts [])
        (λ tariffs. map_transactions_to_sessions_helper ts locations tokens tariffs)))

-- The OCPI tariff is asked for where the session has a tariff.
abbrev pub asked_for : Option Tariff → Result (Option String) → Result (Option String)
asked_for none found = ok none
asked_for (some tariff) found = found

-- getOcpiTariffsForTransactions
unfoldable pub get_ocpi_tariffs :
    (Session → Result (Option String))
    → List (String × Tariff)
    → List Session
    → List (String × String)
    → Result (List (String × String))
get_ocpi_tariffs load tariffs [] m = ok m
get_ocpi_tariffs load tariffs (s ∷ ss) m =
    and_then (asked_for (get s.id tariffs) (load s))
      (λ found. get_ocpi_tariffs load tariffs ss (set_defined s.id found m))

-- new Map(transactions.map((t) => [t.transactionId, t.id]))
unfoldable pub db_ids_of : List Transaction → List (String × Option ℕ) → List (String × Option ℕ)
db_ids_of [] m = m
db_ids_of (t ∷ ts) m = db_ids_of ts (set t.transaction_id t.id m)

abbrev message_of : Thrown → String
message_of (Thrown.error stack message) = message
message_of (Thrown.text s) = s
message_of (Thrown.other json s) = s

abbrev pub failed_mapping : {A : Type 0} → Result A → Result A
failed_mapping (ok a) = ok a
failed_mapping (err e) =
    err (Thrown.error none ("Failed to map transactions to CDRs: " ⧺ message_of e))

unfoldable pub map_completed : Loaders → List Transaction → List Transaction → Result (List Cdr)
map_completed l valid ts = and_then (map_transactions_to_sessions l valid) (λ sessions.
    and_then (collect l.tariff valid []) (λ tariffs.
      and_then (collect l.location ts []) (λ locations.
        and_then (get_ocpi_tariffs l.ocpi_tariff tariffs sessions []) (λ ocpi_tariffs.
          map_sessions_to_cdrs
            (record {
              locations = locations;
              tariffs = tariffs;
              ocpi_tariffs = ocpi_tariffs;
              db_ids = db_ids_of valid [];
            })
            sessions))))

unfoldable pub map_transactions_to_cdrs : Loaders → List Transaction → Result (List Cdr)
map_transactions_to_cdrs l ts = failed_mapping (map_completed l (get_completed_transactions ts) ts)

abbrev missing : {A : Type 0} → Option A → String → List String → List String
missing none name rest = name ∷ rest
missing (some a) name rest = rest

-- xs.join(', ')
abbrev join : List String → String
join [] = ""
join (x ∷ []) = x
join (x ∷ y ∷ xs) = x ⧺ ", " ⧺ join (y ∷ xs)

abbrev pub session_or_missing :
    Transaction → Option Location → Option CdrToken → Option Tariff → Result Session
session_or_missing t (some location) (some token) (some tariff) =
    map_transaction_with_context t location token tariff
session_or_missing t location token tariff = err (
    Thrown.error none (
      "Cannot map transaction "
      ⧺ t.transaction_id
      ⧺ " to session. Missing: "
      ⧺ join (missing location "location" (missing token "token" (missing tariff "tariff" [])))))

unfoldable pub map_transaction_to_session : Loaders → Transaction → Result Session
map_transaction_to_session l t = and_then (collect l.location (t ∷ []) []) (λ locations.
    and_then (collect l.token (t ∷ []) []) (λ tokens.
      and_then (collect l.tariff (t ∷ []) []) (λ tariffs.
        session_or_missing t (get t.transaction_id locations) (get t.transaction_id tokens)
          (get t.transaction_id tariffs))))
