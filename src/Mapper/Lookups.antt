-- ===== src/Mapper/Lookups.antt =====
-- The maps from transaction ids that `BaseTransactionMapper` of
-- 00_Base/src/mapper/BaseTransactionMapper.ts builds.
pub mod Laws
use citrineos_ocpi.Prelude.{String, Option, none, some, List, [], ◌∷◌, str_eq, if◌then◌else◌}
use citrineos_ocpi.Exec.{and_then, Result, ok, err}
use citrineos_ocpi.Mapper.Data.{Tariff, Location, CdrToken, Transaction, Session}

module _ {A : Type 0} where
  -- map.set(key, a) and map.get(key), on a map as the list of its entries.
  unfoldable pub set : String → A → List (String × A) → List (String × A)
  set key a [] = (key, a) ∷ []
  set key a (e ∷ es) = if str_eq e.0 key then (key, a) ∷ es else e ∷ set key a es

  unfoldable pub get : String → List (String × A) → Option A
  get key [] = none
  get key (e ∷ es) = if str_eq e.0 key then some e.1 else get key es

  abbrev pub set_defined : String → Option A → List (String × A) → List (String × A)
  set_defined key none m = m
  set_defined key (some a) m = set key a m

  -- The loop of getLocationDTOsForTransactions, of getTokensForTransactions and of
  -- getTariffsForTransactions: what the transaction has or a query finds, under its id.
  unfoldable pub collect :
      (Transaction → Result (Option A))
      → List Transaction
      → List (String × A)
      → Result (List (String × A))
  collect load [] m = ok m
  collect load (t ∷ ts) m =
      and_then (load t) (λ found. collect load ts (set_defined t.transaction_id found m))

-- What the queries and the other mappers make of a transaction and of a session: its location, its
-- token, its tariff, and the OCPI tariff, by its id.
pub record Loaders : Type 0 where
  pub location : Transaction → Result (Option Location)
  pub token : Transaction → Result (Option CdrToken)
  pub tariff : Transaction → Result (Option Tariff)
  pub ocpi_tariff : Session → Result (Option String)
