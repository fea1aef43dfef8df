-- ===== src/Client/Response.antt =====
-- `handleResponse` and `getOffsetFromLink` of 00_Base/src/trigger/BaseClientApi.ts.
use Prim.Native.String.{slice}
use text.Mathlib.Text.{find?}
use citrineos_ocpi.Prelude.{
  ℕ, String, ◌&&◌, Option, none, some, leb, str_eq, if◌then◌else◌, min, max,
}
use citrineos_ocpi.Exec.{Thrown, Result, ok, err}
use citrineos_ocpi.Client.Body.{Payload, HttpResponse, PageHeaders}

-- What a browser's URL and a regular expression find in a link, the numbers that parseInt reads
-- (none for NaN), and the stack of a new error.
pub record Web : Type 0 where
  -- new URL(link).searchParams.get('offset'): none where the constructor throws
  pub offset_param : String → Option (Option String)
  -- link.match(/[?&]offset=(\d+)/), its group
  pub offset_match : String → Option String
  pub parse_int : String → Option ℕ
  pub stack : String → Option String

-- `if (s)` of a text that may be missing, with what it guards.
abbrev pub filled : Option String → Option String
filled none = none
filled (some s) = if str_eq s "" then none else some s

-- link.substring(1, link.indexOf('>')): a missing bracket counts as place 0, and the two places are
-- put in order.
abbrev pub clean_link : String → String
clean_link link = elim (find? link ">") [
  | none ↦ slice link 0 1
  | some i ↦ slice link (min 1 i) (max 1 i)
]

module _ (web : Web) where
  abbrev pub matched_offset : Option String → Option ℕ
  matched_offset none = some 0
  matched_offset (some digits) = web.parse_int digits

  unfoldable pub get_offset_from_link : String → Option ℕ
  get_offset_from_link link = elim (web.offset_param link) [
    | none ↦ matched_offset (web.offset_match link)
    | some param ↦ matched_offset (filled param)
  ]

  -- if (xLimit) result.limit = parseInt(xLimit, 10), and so on
  abbrev pub with_limit : Option String → Payload → Payload
  with_limit none p = p
  with_limit (some s) p = record p { limit = web.parse_int s }

  abbrev pub with_total : Option String → Payload → Payload
  with_total none p = p
  with_total (some s) p = record p { total = web.parse_int s }

  abbrev pub with_link : Option String → Payload → Payload
  with_link none p = p
  with_link (some s) p = record p {
    link = some (clean_link s);
    offset = get_offset_from_link (clean_link s);
  }

  unfoldable pub with_page : Option PageHeaders → Payload → Payload
  with_page none p = p
  with_page (some h) p =
      if p.has_data_array
      then with_link (filled h.link)
          (with_total (filled h.x_total_count) (with_limit (filled h.x_limit) p))
      else p

  abbrev pub paged : HttpResponse → Option Payload
  paged response = elim response.result [
    | none ↦ none
    | some p ↦ some (with_page response.headers p)
  ]

  abbrev pub unsuccessful : {A : Type 0} → String → Result A
  unsuccessful message = err (Thrown.error (web.stack message) message)

  abbrev pub validated : {A : Type 0} → Option A → Result A
  validated none = unsuccessful "OCPI response failed schema validation"
  validated (some a) = ok a

  -- The schema is what its `parse` answers: none where it throws.
  unfoldable pub handle_response :
      {A : Type 0} → (Option Payload → Option A) → HttpResponse → Result A
  handle_response parse response =
      if leb 200 response.status_code && leb response.status_code 299
      then validated (parse (paged response))
      else unsuccessful "Request did not return a successful status code"
