-- ===== src/Sessions/Dedupe.antt =====
-- 00_Base/src/services/SessionBroadcastDedupeService.ts. The Map is an association list and the Set
-- a list; how the runtime prints numbers, instants and methods is a parameter.
pub mod Lifecycle
pub mod InFlight
use citrineos_ocpi.Prelude.{
  ℕ, suc, String, Bool, true, false, ◌&&◌, ◌||◌, not, Option, none, some, List, [], ◌∷◌, str_eq,
  if◌then◌else◌, ◌⧺◌, length,
}
use text.Mathlib.Text.{starts_with}
use citrineos_ocpi.Model.{HttpMethod}

pub record Texts : Type 0 where
  pub number_text : ℕ → String
  pub method_text : HttpMethod → String
  -- toISOString of an instant in milliseconds
  pub iso : ℕ → String
  -- toFixed(4) of a number given in ten-thousandths
  pub fixed4 : ℕ → String

-- A field that holds a Date, a text, or nothing.
pub data DateField : Type 0 where
  missing : DateField
  date : ℕ → DateField
  printed : String → DateField

-- The fields of a Partial<Session> that the fingerprint reads; a missing field and one that is null
-- read alike. kwh is in ten-thousandths, to which SessionMapper rounds it.
pub record SessionBody : Type 0 where
  pub status : Option String
  pub last_updated : DateField
  pub kwh : Option ℕ
  pub end_date_time : DateField
  pub charging_periods : Option (List DateField)

pub record Dedupe : Type 0 where
  pub last_fingerprint : List (String × String)
  pub in_flight : List String

abbrev pub empty : Dedupe
empty = record { last_fingerprint = []; in_flight = [] }

-- Map.get, Map.set
unfoldable pub get : String → List (String × String) → Option String
get k [] = none
get k ((j, v) ∷ m) = if str_eq j k then some v else get k m

unfoldable pub set : String → String → List (String × String) → List (String × String)
set k v [] = (k, v) ∷ []
set k v ((j, w) ∷ m) = if str_eq j k then (j, v) ∷ m else (j, w) ∷ set k v m

-- Set.has, Set.add, Set.delete
unfoldable pub has : String → List String → Bool
has k [] = false
has k (j ∷ s) = str_eq j k || has k s

unfoldable pub add : String → List String → List String
unfolding has
add k s = if has k s then s else k ∷ s

unfoldable pub remove : String → List String → List String
remove k [] = []
remove k (j ∷ s) = let rest = remove k s in if str_eq j k then rest else j ∷ rest

-- j.startsWith(prefix)
unfoldable pub has_prefix : String → String → Bool
has_prefix j prefix = starts_with j prefix

-- The entries that `clear` leaves: those whose key does not start with the prefix.
unfoldable pub clear_map : String → List (String × String) → List (String × String)
clear_map prefix [] = []
clear_map prefix ((j, v) ∷ m) =
    let rest = clear_map prefix m in if has_prefix j prefix then rest else (j, v) ∷ rest

unfoldable pub clear_set : String → List String → List String
clear_set prefix [] = []
clear_set prefix (j ∷ s) =
    let rest = clear_set prefix s in if has_prefix j prefix then rest else j ∷ rest

abbrev same_text : Option String → String → Bool
same_text none fp = false
same_text (some v) fp = str_eq v fp

module _ (texts : Texts) where
  unfoldable pub key : String → ℕ → HttpMethod → String
  key transaction_id partner_id method =
      (transaction_id ⧺ ":") ⧺ (texts.number_text partner_id ⧺ (":" ⧺ texts.method_text method))

  abbrev print_date : String → DateField → String
  print_date absent DateField.missing = absent
  print_date absent (DateField.date t) = texts.iso t
  print_date absent (DateField.printed s) = s

  abbrev last_start : List DateField → DateField
  last_start [] = DateField.missing
  last_start (d ∷ []) = d
  last_start (d ∷ e ∷ ds) = last_start (e ∷ ds)

  abbrev periods : Option (List DateField) → List DateField
  periods none = []
  periods (some ds) = ds

  abbrev join_bar : List String → String
  join_bar [] = ""
  join_bar (s ∷ []) = s
  join_bar (s ∷ t ∷ ts) = s ⧺ ("|" ⧺ join_bar (t ∷ ts))

  unfoldable pub fingerprint : SessionBody → String
  fingerprint body = join_bar (
      elim body.status [ none ↦ "" | some s ↦ s ]
      ∷ print_date "" body.last_updated
      ∷ texts.fixed4 (elim body.kwh [ none ↦ 0 | some n ↦ n ])
      ∷ print_date "null" body.end_date_time
      ∷ texts.number_text (length (periods body.charging_periods))
      ∷ print_date "" (last_start (periods body.charging_periods))
      ∷ [])

  unfoldable pub should_broadcast : Dedupe → String → ℕ → HttpMethod → SessionBody → Bool
  should_broadcast s transaction_id partner_id method body =
      let k = key transaction_id partner_id method in
      let fp = fingerprint body in
      if has k s.in_flight
      then false
      else if same_text (get k s.last_fingerprint) fp
      then false
      else true

  unfoldable pub mark_in_flight : Dedupe → String → ℕ → HttpMethod → Dedupe
  mark_in_flight s transaction_id partner_id method = record s {
    in_flight = add (key transaction_id partner_id method) s.in_flight;
  }

  unfoldable pub mark_sent : Dedupe → String → ℕ → HttpMethod → SessionBody → Dedupe
  mark_sent s transaction_id partner_id method body =
      let k = key transaction_id partner_id method in
      record {
        last_fingerprint = set k (fingerprint body) s.last_fingerprint;
        in_flight = remove k s.in_flight;
      }

  unfoldable pub mark_failed : Dedupe → String → ℕ → HttpMethod → Dedupe
  mark_failed s transaction_id partner_id method = record s {
    in_flight = remove (key transaction_id partner_id method) s.in_flight;
  }

unfoldable pub clear : Dedupe → String → Dedupe
clear s transaction_id = record {
  last_fingerprint = clear_map (transaction_id ⧺ ":") s.last_fingerprint;
  in_flight = clear_set (transaction_id ⧺ ":") s.in_flight;
}
