-- ===== src/Apis/Network.antt =====
-- Requests that rules may make by name: runtime/plaid/src/apis/general/network.rs and
-- runtime/plaid/src/apis/general/mod.rs. reqwest and serde are parameters.
pub mod Calls
pub mod Clients
pub mod Body
pub mod Permissions
pub mod Tests
use Prim.Native.String
use plaid.Base.{
  ℕ, zero, suc, ◌+◌, ◌-◌, String, str_eq, starts_with, Bool, true, false, not, ◌&&◌, ◌||◌, Option,
  none, some, List, [], ◌∷◌, ◌++◌, length, ltb, if◌then◌else◌,
}
use plaid.Base.Result.{Result, ok, err, or_fail, ◌>>=◌, ◌>>◌}
use plaid.Base.Dict.{HashMap, lookup, insert, extend}
use plaid.Guest.{Bytes}
use plaid.Env.{PlaidModule}
use plaid.Functions.Storage.{contains}
use plaid.Apis.{
  ApiError, bad_request, configuration_error, test_mode, network_error, network_response_too_large,
  missing_parameter,
}

-- `Request`
pub record Request : Type 0 where
  pub verb : String
  pub uri : String
  pub body : Option String
  pub return_body : Bool
  pub return_code : Bool
  pub return_cert : Bool
  pub root_certificate : Option Bytes
  pub timeout : Option ℕ
  pub allowed_rules : List String
  pub headers : HashMap String
  pub available_in_test_mode : Bool
  pub enable_redirects : Bool
  pub max_response_size : Option ℕ

-- What reqwest's builder is told: the timeout in seconds, a root certificate, whether to keep the
-- certificate of the peer, and whether to follow redirects.
pub record Client : Type 0 where
  pub timeout : ℕ
  pub root_certificate : Option Bytes
  pub tls_info : Bool
  pub redirects : Bool

-- `GeneralConfig`, with the requests of `network::Config`
pub record GeneralConfig : Type 0 where
  pub web_requests : HashMap Request
  pub api_timeout_seconds : ℕ

-- `General`, with the fields of `Clients`
pub record General : Type 0 where
  pub config : GeneralConfig
  pub default_client : Client
  pub specialized : HashMap Client

abbrev or_configured : Option ℕ → ℕ → ℕ
or_configured none n = n
or_configured (some m) n = m

abbrev is_none : {A : Type 0} → Option A → Bool
is_none none = true
is_none (some a) = false

-- `create_specialized_client`, without the name
unfoldable pub create_specialized_client : Request → ℕ → Option Client
create_specialized_client req default_timeout =
    if is_none req.timeout
      && is_none req.root_certificate
      && not req.enable_redirects
      && not req.return_cert
    then none
    else some (record {
      timeout = or_configured req.timeout default_timeout;
      root_certificate = req.root_certificate;
      tls_info = req.return_cert;
      redirects = req.enable_redirects;
    })

unfoldable pub specialized_clients : ℕ → HashMap Request → HashMap Client
unfolding create_specialized_client
specialized_clients default_timeout [] = []
specialized_clients default_timeout ((name, req) ∷ rest) =
    elim (create_specialized_client req default_timeout) [
      | none ↦ specialized_clients default_timeout rest
      | some client ↦ (name, client) ∷ specialized_clients default_timeout rest
    ]

-- `General::new` and `Clients::new`
unfoldable pub new_general : GeneralConfig → General
unfolding specialized_clients
new_general config = record {
  config = config;
  default_client = record {
    timeout = config.api_timeout_seconds;
    root_certificate = none;
    tls_info = false;
    redirects = false;
  };
  specialized = specialized_clients config.api_timeout_seconds config.web_requests;
}

unfoldable pub get_client : General → String → Client
unfolding lookup
get_client g mnr = elim (lookup mnr g.specialized) [
  | some client ↦ client
  | none ↦ g.default_client
]

-- `MakeRequestRequest` and `MnrResponseEncoding` of runtime/plaid-stl/src/network/mod.rs
pub data MnrResponseEncoding : Type 0 where
  utf8 binary : MnrResponseEncoding

pub record MakeRequestRequest : Type 0 where
  pub body : String
  pub request_name : String
  pub variables : HashMap String
  pub headers : Option (HashMap String)
  pub response_encoding : MnrResponseEncoding

pub data ResponseData : Type 0 where
  text : String → ResponseData
  bytes : Bytes → ResponseData

pub record DynamicWebRequestResponse : Type 0 where
  pub code : Option ℕ
  pub content : Option ResponseData
  pub cert : Option String

-- What is sent, with headers of the http crate.
pub record WebRequest (HeaderMap : Type 0) : Type 0 where
  pub client : Client
  pub verb : String
  pub uri : String
  pub headers : HeaderMap
  pub body : String

-- What comes back: the certificate of the peer in base64, and the chunks of the body.
pub record Response : Type 0 where
  pub status : ℕ
  pub peer_certificate : Option String
  pub chunks : List (Option Bytes)

-- reqwest, with the state of the network made explicit, and serde.
pub record Http : Type 1 where
  pub State : Type 0
  -- names without regard to case, each with its values
  pub HeaderMap : Type 0
  -- `HeaderMap::try_from`, which appends: names that differ in case alone become one with two values
  pub try_from : HashMap String → Option HeaderMap
  pub send : WebRequest HeaderMap → State → Option Response × State
  pub from_utf8 : Bytes → Option String
  pub read_request : String → Option MakeRequestRequest
  pub read_map : String → Option (HashMap String)
  pub to_string : DynamicWebRequestResponse → Option String

-- `str::replace`, for a pattern that is not empty; `skip` characters of a match are still to pass.
replace_from : String → String → ℕ → String → String
replace_from pattern_ to skip String.[] = String.[]
replace_from pattern_ to (suc skip) (String.◌∷◌ c s) = replace_from pattern_ to skip s
replace_from pattern_ to zero (String.◌∷◌ c s) =
    let matched = String.◌++◌ to (replace_from pattern_ to (String.count pattern_ - 1) s) in
    let kept = String.◌∷◌ c (replace_from pattern_ to 0 s) in
    if starts_with (String.◌∷◌ c s) pattern_ then matched else kept

-- The loop over the variables: `uri.replace("{name}", value)`.
unfoldable pub fill_in : HashMap String → String → String
unfolding replace_from
fill_in [] uri = uri
fill_in ((name, value) ∷ rest) uri =
    fill_in rest (replace_from (String.◌++◌ "{" (String.◌++◌ name "}")) value 0 uri)
