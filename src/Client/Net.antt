-- ===== src/Client/Net.antt =====
-- What surrounds a client beside the database: the partners' servers, the tables of partners, and
-- the platform. The record ClientEnv holds it; a state is that of the outbox with the requests that
-- have left.
use citrineos_ocpi.Prelude.{ℕ, String, Bool, false, ◌&&◌, ◌||◌, not, leb, ◌==◌, Option, List}
use Prim.Native.Char.{code}
use citrineos_ocpi.Exec.{Thrown, Result, Exec}
use citrineos_ocpi.Model.{HttpMethod}
use citrineos_ocpi.Partner.{BroadcastPartner, PartnerProfile}
use citrineos_ocpi.Retry.World.{Env, World}
use citrineos_ocpi.Client.Body.{Body, HttpResponse}
use citrineos_ocpi.Client.Response.{Web}

-- A request that left: the query is what typed-rest-client appends (GET and DELETE only), and the
-- certificate the secret that named the mTLS client.
pub record Sending : Type 0 where
  pub method : HttpMethod
  pub url : String
  pub headers : List (String × String)
  pub query : List (String × String)
  pub body : Option Body
  pub certificate : Option String

pub record ClientEnv : Type 0 where
  pub env : Env
  pub web : Web
  -- the abstract `getUrl`
  pub get_url : PartnerProfile → Result String
  -- each request that left, in turn: its answer, or that it threw
  pub exchange : ℕ → Result HttpResponse
  -- getRestClient of PartnerMtlsCertificateService before that request: what it throws
  pub certificate_fault : ℕ → Option Thrown
  -- GET_TENANT_PARTNER_BY_OUR_AND_PARTNER_IDENTITY, LIST_TENANT_PARTNERS_BY_CPO
  pub partners_by_identity : String → String → String → String → List BroadcastPartner
  pub partners_by_cpo : String → String → String → List BroadcastPartner
  -- JSON.stringify of a profile and of a body, toISOString, base64, URLSearchParams.toString
  pub profile_json : PartnerProfile → String
  pub body_json : Body → String
  pub iso : ℕ → String
  pub base64_encode : String → String
  pub search : List (String × String) → String
  pub uuid_text : ℕ → String

pub record Net : Type 0 where
  pub outbox : World
  pub sent : List Sending
  pub exchanges : ℕ

-- An action on the outbox and the database.
abbrev pub on_outbox : {A : Type 0} → Exec World A → Exec Net A
on_outbox m n = ((m n.outbox).0, record n { outbox = (m n.outbox).1 })

-- White space, which trim() takes off.
abbrev is_space : ℕ → Bool
is_space c =
    (leb 9 c && leb c 13)
    || c == 32
    || c == 160
    || c == 5760
    || (leb 8192 c && leb c 8202)
    || c == 8232
    || c == 8233
    || c == 8239
    || c == 8287
    || c == 12288
    || c == 65279

-- !!s.trim()
unfoldable pub has_ink : String → Bool
has_ink String.[] = false
has_ink (String.◌∷◌ c s) = not (is_space (code c)) || has_ink s
