-- ===== src/Client/Body.antt =====
-- What a client sends and receives: JSON bodies, and the answers of a partner's server.
use citrineos_ocpi.Prelude.{
  ℕ, String, Bool, Option, none, some, List, [], ◌∷◌, str_eq, if◌then◌else◌,
}

-- A JSON value inside a body, as far as `String(value)` tells: a text, a number, or another value
-- with its JSON and its printed form.
pub data Json : Type 0 where
  null : Json
  string : String → Json
  number : ℕ → Json
  other : String → String → Json

-- A body that is there: an object with its fields in order, or another value as JSON.
pub data Body : Type 0 where
  object : List (String × Json) → Body
  plain : String → Body

-- The value of a field, if the object has it.
unfoldable pub field : String → List (String × Json) → Option Json
field name [] = none
field name ((n, v) ∷ fs) = if str_eq n name then some v else field name fs

-- { ...entries, name: v }
module _ {A : Type 0} where
  unfoldable pub set_entry : String → A → List (String × A) → List (String × A)
  set_entry name v [] = (name, v) ∷ []
  set_entry name v ((n, w) ∷ es) =
      if str_eq n name then (n, v) ∷ es else (n, w) ∷ set_entry name v es

-- The headers of an answer that are read, by their lower-case names.
pub record PageHeaders : Type 0 where
  pub link : Option String
  pub x_total_count : Option String
  pub x_limit : Option String

-- The JSON of an answer: its OCPI status code, whether it has an array `data`, the paging fields,
-- and all the rest as text.
pub record Payload : Type 0 where
  pub status_code : Option ℕ
  pub has_data_array : Bool
  pub limit : Option ℕ
  pub total : Option ℕ
  pub link : Option String
  pub offset : Option ℕ
  pub rest : String

-- The answer of typed-rest-client; a result may be null.
pub record HttpResponse : Type 0 where
  pub status_code : ℕ
  pub result : Option Payload
  pub headers : Option PageHeaders
