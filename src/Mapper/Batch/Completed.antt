-- ===== src/Mapper/Batch/Completed.antt =====
-- Each completed transaction has its CDR (00_Base/src/mapper/CdrMapper.ts).
use citrineos_ocpi.Prelude.{
  ℕ, String, ◌≡◌, refl, sym, ap, ◌∙◌, subst, Option, none, some, List, [], ◌∷◌, map, All, All-mono,
  All-map, All-unmap, All-keep, All-apply, All-pair,
}
use citrineos_ocpi.Exec.{Result, ok}
use citrineos_ocpi.Mapper.Data.{Tariff, Location, CdrToken, Transaction, Session}
use citrineos_ocpi.Mapper.Session.{get_evse_uid, session_of, map_transaction_with_context}
use citrineos_ocpi.Mapper.Lookups.{Loaders, get, set_defined, collect}
use citrineos_ocpi.Mapper.Lookups.Laws.{Has, Answers, Finds, collect-Collected}
use citrineos_ocpi.Mapper.Cdr.{Cdr, cdr_of, map_session_to_cdr}
use citrineos_ocpi.Mapper.Batch.Ids.{HasId, joined_number, db_ids_of-Numbered}
use citrineos_ocpi.Mapper.Batch.{
  CdrMaps, joined, map_sessions_to_cdrs, is_completed, get_completed_transactions, asked_for,
  map_transactions_to_sessions_helper, map_transactions_to_sessions, get_ocpi_tariffs, db_ids_of,
  map_completed, map_transactions_to_cdrs,
}

-- What a CDR needs is there: location, token, tariff, EVSE and the id of the row.
abbrev pub Ready : Loaders → Transaction → Type 0
Ready l t =
    Finds l.location t
    × Finds l.token t
    × Finds l.tariff t
    × ((uid : String) × (get_evse_uid t ≡ ok uid))
    × ((n : ℕ) × (t.id ≡ some n))

-- The maps and the transaction give a session.
abbrev Mapped :
    List (String × Location)
    → List (String × CdrToken)
    → List (String × Tariff)
    → Transaction
    → Type 0
Mapped locations tokens tariffs t =
    Has t.transaction_id locations
    × (Has t.transaction_id tokens
        × (Has t.transaction_id tariffs × ((uid : String) × (get_evse_uid t ≡ ok uid))))

sessions_from_maps :
    (locations : List (String × Location)) (tokens : List (String × CdrToken))
    → (tariffs : List (String × Tariff)) (ts : List Transaction)
    → All (Mapped locations tokens tariffs) ts
    → (ss : List Session) × (map_transactions_to_sessions_helper ts locations tokens tariffs
        ≡ ok ss)
      × (map (λ s. s.id) ss ≡ map (λ t. t.transaction_id) ts)
unfolding map_transactions_to_sessions_helper map_transaction_with_context session_of
sessions_from_maps locations tokens tariffs [] h = ([], refl, refl)
sessions_from_maps locations tokens tariffs (t ∷ ts)
      (((lo, p), ((to, q), ((ta, r), (uid, u)))), h) =
    let rest = sessions_from_maps locations tokens tariffs ts h in
    (
      session_of t lo to ta uid ∷ rest.0,
      rw (p, q, r, u, rest.1) refl,
      ap (λ ids. t.transaction_id ∷ ids) rest.2,
    )

-- The maps give a CDR for the session of the id.
abbrev Billed : CdrMaps → String → Type 0
Billed maps id =
    Has id maps.locations
    × (Has id maps.tariffs × ((n : ℕ) × (joined (get id maps.db_ids) ≡ some n)))

cdrs_from_maps :
    (maps : CdrMaps) (ss : List Session)
    → All (λ s. Billed maps s.id) ss
    → (cs : List Cdr) × (map_sessions_to_cdrs maps ss ≡ ok cs)
      × (map (λ c. c.session_id) cs ≡ map (λ s. s.id) ss)
unfolding map_sessions_to_cdrs map_session_to_cdr cdr_of
cdrs_from_maps maps [] h = ([], refl, refl)
cdrs_from_maps maps (s ∷ ss) (((lo, p), ((ta, q), (n, r))), h) =
    let rest = cdrs_from_maps maps ss h in
    (
      cdr_of s lo ta (get s.id maps.ocpi_tariffs) n ∷ rest.0,
      rw (q, p, r, rest.1) refl,
      ap (λ ids. s.id ∷ ids) rest.2,
    )

asked_for_returns :
    (tariff : Option Tariff) (found : Result (Option String))
    → (o : Option String) × (found ≡ ok o)
    → (o : Option String) × (asked_for tariff found ≡ ok o)
asked_for_returns none found h = (none, refl)
asked_for_returns (some tariff) found h = h

get_ocpi_tariffs_returns :
    (load : Session → Result (Option String)) (tariffs : List (String × Tariff)) (ss : List Session)
    → (m : List (String × String)) → ((s : Session) → (o : Option String) × (load s ≡ ok o))
    → (n : List (String × String)) × (get_ocpi_tariffs load tariffs ss m ≡ ok n)
unfolding get_ocpi_tariffs
get_ocpi_tariffs_returns load tariffs [] m h = (m, refl)
get_ocpi_tariffs_returns load tariffs (s ∷ ss) m h =
    let o = asked_for_returns (get s.id tariffs) (load s) (h s) in
    let rest = get_ocpi_tariffs_returns load tariffs ss (set_defined s.id o.0 m) h in
    (rest.0, rw o.1 rest.1)

found-Answers :
    {A : Type 0} (load : Transaction → Result (Option A)) (ts : List Transaction)
    → All (Finds load) ts
    → All (Answers load) ts
found-Answers load ts = All-mono (Finds load) (Answers load) ts (λ t f. (some f.0, f.1))

-- Ids of one kind for those of another.
by_id :
    (P : String → Type 0) (ts : List Transaction) (ss : List Session)
    → map (λ s. s.id) ss ≡ map (λ t. t.transaction_id) ts
    → All (λ t. P t.transaction_id) ts
    → All (λ s. P s.id) ss
by_id P ts ss e h =
    All-unmap P (λ s. s.id) ss (subst (All P) (sym e) (All-map P (λ t. t.transaction_id) ts h))

-- Where every look-up finds something, the map has every id.
abbrev FoundAll : {A : Type 0} → (Transaction → Result (Option A)) → List Transaction → Type 0
FoundAll {A} load ts =
    (m : List (String × A)) × (collect load ts [] ≡ ok m) × All (λ t. Has t.transaction_id m) ts

found_all :
    {A : Type 0} (l : Loaders) (load : Transaction → Result (Option A)) (vs : List Transaction)
    → ((t : Transaction) → Ready l t → Finds load t)
    → All (Ready l) vs
    → FoundAll load vs
found_all l load vs f ready =
    let finds = All-mono (Ready l) (Finds load) vs f ready in
    let c = collect-Collected load vs [] (found-Answers load vs finds) in
    (c.0, c.1, All-apply (Finds load) (λ t. Has t.transaction_id c.0) vs c.3 finds)

sessions_returned :
    (l : Loaders) (vs : List Transaction)
    → All (Ready l) vs
    → (ss : List Session) × (map_transactions_to_sessions l vs ≡ ok ss)
      × (map (λ s. s.id) ss ≡ map (λ t. t.transaction_id) vs)
unfolding map_transactions_to_sessions
sessions_returned l vs ready =
    let lo = found_all l l.location vs (λ t r. r.0) ready in
    let to = found_all l l.token vs (λ t r. r.1) ready in
    let ta = found_all l l.tariff vs (λ t r. r.2) ready in
    let uids =
      All-mono (Ready l) (λ t. (uid : String) × (get_evse_uid t ≡ ok uid)) vs (λ t r. r.3) ready in
    let S =
      sessions_from_maps lo.0 to.0 ta.0 vs
        (All-pair _ _ vs lo.2 (All-pair _ _ vs to.2 (All-pair _ _ vs ta.2 uids))) in
    (S.0, rw (lo.1, to.1, ta.1) S.1, S.2)

-- Of the locations of all transactions those of the completed ones.
completed_found :
    {A : Type 0} (l : Loaders) (load : Transaction → Result (Option A)) (ts : List Transaction)
    → (m : List (String × A)) → ((t : Transaction) → Ready l t → Finds load t)
    → All (λ t. Finds load t → Has t.transaction_id m) ts
    → All (Ready l) (get_completed_transactions ts)
    → All (λ t. Has t.transaction_id m) (get_completed_transactions ts)
unfolding get_completed_transactions
completed_found l load ts m f found ready =
    All-apply (Finds load) (λ t. Has t.transaction_id m) (get_completed_transactions ts)
      (All-keep (λ t. Finds load t → Has t.transaction_id m) is_completed ts found)
      (All-mono (Ready l) (Finds load) (get_completed_transactions ts) f ready)

-- Where no look-up of a location fails and each completed transaction has what a CDR needs, the
-- result is one CDR for each completed transaction, in their order, and none for another.
pub completed_once :
    (l : Loaders) (ts : List Transaction)
    → All (Answers l.location) ts
    → All (Ready l) (get_completed_transactions ts)
    → ((s : Session) → (o : Option String) × (l.ocpi_tariff s ≡ ok o))
    → (cdrs : List Cdr) × (map_transactions_to_cdrs l ts ≡ ok cdrs)
      × (map (λ c. c.session_id) cdrs ≡ map (λ t. t.transaction_id) (get_completed_transactions ts))
unfolding map_transactions_to_cdrs map_completed
completed_once l ts answers ready ocpi =
    let valid = get_completed_transactions ts in
    let S = sessions_returned l valid ready in
    let ta = found_all l l.tariff valid (λ t r. r.2) ready in
    let ids = All-mono (Ready l) HasId valid (λ t r. r.4) ready in
    let db = db_ids_of-Numbered valid [] ids tt in
    let numbers =
      All-mono (λ t. Has t.transaction_id (db_ids_of valid []))
        (λ t. (n : ℕ) × (joined (get t.transaction_id (db_ids_of valid [])) ≡ some n)) valid
        (λ t h. joined_number t.transaction_id (db_ids_of valid []) db.0 h) db.2 in
    let lo = collect-Collected l.location ts [] answers in
    let located = completed_found l l.location ts lo.0 (λ t r. r.0) lo.3 ready in
    let O = get_ocpi_tariffs_returns l.ocpi_tariff ta.0 S.0 [] ocpi in
    let maps : CdrMaps = record {
      locations = lo.0;
      tariffs = ta.0;
      ocpi_tariffs = O.0;
      db_ids = db_ids_of valid [];
    } in
    let C = cdrs_from_maps maps S.0 (
      by_id (Billed maps) valid S.0 S.2
        (All-pair _ _ valid located (All-pair _ _ valid ta.2 numbers))) in
    (C.0, rw (S.1, ta.1, lo.1, O.1, C.1) refl, C.2 ∙ S.2)
