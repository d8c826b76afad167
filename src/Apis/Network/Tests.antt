-- ===== src/Apis/Network/Tests.antt =====
-- A rule that makes a named request.
use plaid.Base.{
  ◌≡◌, ◌⊎◌, ◌↔◌, refl, subst, String, str_eq, true, false, Option, none, some, List, if◌then◌else◌,
  [], ◌∷◌, arith,
}
use plaid.Base.Result.{ok, err}
use plaid.Base.Chunks.{joined}
use plaid.Base.Dict.{HashMap, lookup, insert, extend, IsMap}
use plaid.Samples.{module_of}
use plaid.Apis.{network_response_too_large}
use plaid.Apis.Network.{
  Request, GeneralConfig, General, MakeRequestRequest, utf8, WebRequest, Http, fill_in, new_general,
  get_client,
}
use plaid.Apis.Network.Calls.{read_chunks, headers_to_include, make_named_request, reported}
use plaid.Apis.Network.Body.{Fits, read_chunks_iff}
use plaid.Apis.Network.Clients.{asked_for, get_client_lem}
use plaid.Apis.Network.Permissions.{HeadersAreMaps, IsAllowed, make_named_request-IsAllowed}

-- Variables are filled in at every place.
replaced : fill_in (("id", "77") ∷ []) "/a/{id}/{x}/{id}" ≡ "/a/77/{x}/77"
unfolding fill_in
replaced = refl

abbrev lookup_user : Request
lookup_user = record {
  verb = "get";
  uri = "/users/{id}";
  body = none;
  return_body = true;
  return_code = true;
  return_cert = false;
  root_certificate = none;
  timeout = some 3;
  allowed_rules = "rule" ∷ [];
  headers = ("token", "secret") ∷ [];
  available_in_test_mode = false;
  enable_redirects = true;
  max_response_size = some 4;
}

abbrev config : GeneralConfig
config = record { web_requests = ("lookup_user", lookup_user) ∷ []; api_timeout_seconds = 10 }

abbrev asked : MakeRequestRequest
asked = record {
  body = "";
  request_name = "lookup_user";
  variables = ("id", "7") ∷ [];
  headers = some (("token", "mine") ∷ ("trace", "1") ∷ []);
  response_encoding = utf8;
}

-- Names in small letters, as far as they occur here.
abbrev small : String → String
small name = if str_eq name "Token" then "token" else name

abbrev with_value : String → Option (List String) → List String
with_value value none = value ∷ []
with_value value (some values) = value ∷ values

abbrev pub appended : HashMap String → HashMap (List String)
appended [] = []
appended ((name, value) ∷ rest) =
    let others = appended rest in
    insert (small name) (with_value value (lookup (small name) others)) others

-- All requests are answered by "ok" in two chunks.
abbrev pub http : Http
http = record {
  HeaderMap = HashMap (List String);
  try_from = λ m. some (appended m);
  State = List (WebRequest (HashMap (List String)));
  send = λ call s. (
    some (record {
      status = 200;
      peer_certificate = none;
      chunks = some (1 ∷ []) ∷ some (2 ∷ []) ∷ [];
    }),
    call ∷ s,
  );
  from_utf8 = λ b. some "ok";
  read_request = λ s. some asked;
  read_map = λ s. none;
  to_string = λ r. some "answer";
}

abbrev pub general : General
general = new_general config

answered : make_named_request http general "params" (module_of 0) [] ≡ (
  ok "answer",
  record {
    client = asked_for config lookup_user;
    verb = "get";
    uri = "/users/7";
    headers = ("trace", "1" ∷ []) ∷ ("token", "secret" ∷ []) ∷ [];
    body = "";
  }
      ∷ [],
)
unfolding make_named_request new_general get_client fill_in insert
answered = refl

-- A rule adds a value to a header that is configured, where it writes the name with other letters.
added :
    lookup "token" (appended (headers_to_include lookup_user (some (("Token", "mine") ∷ []))))
    ≡ some ("mine" ∷ "secret" ∷ [])
unfolding lookup insert headers_to_include extend
added = refl

too_large :
    read_chunks (some 3) 0 [] (some (1 ∷ 2 ∷ []) ∷ some (3 ∷ 4 ∷ []) ∷ [])
    ≡ err network_response_too_large
unfolding read_chunks
too_large = refl

get_client_lem_example : get_client general "lookup_user" ≡ asked_for config lookup_user
unfolding lookup
get_client_lem_example = get_client_lem config "lookup_user" lookup_user (refl, tt) refl

read_chunks_iff_example :
    (read_chunks (some 3) 0 [] (some (1 ∷ []) ∷ some (2 ∷ []) ∷ []) ≡ ok (1 ∷ 2 ∷ []))
    ↔ ((joined (some (1 ∷ []) ∷ some (2 ∷ []) ∷ []) ≡ some (1 ∷ 2 ∷ [])) × Fits (some 3) 2)
read_chunks_iff_example = read_chunks_iff (some 3) (some (1 ∷ []) ∷ some (2 ∷ []) ∷ []) (1 ∷ 2 ∷ [])

pub one_map : HeadersAreMaps general
unfolding lookup new_general
one_map name spec e =
    let same : lookup_user ≡ spec = ground arith in
    subst (λ (r : Request). IsMap r.headers) same (refl, tt)

make_named_request-IsAllowed_example :
    ((make_named_request http general "params" (module_of 0) []).1 ≡ [])
    ⊎ ((request : MakeRequestRequest) × (spec : Request) × (call : WebRequest
          (HashMap (List String)))
        × (some asked ≡ some request)
        × IsAllowed http general (module_of 0) request spec call
        × (make_named_request http general "params" (module_of 0) []
            ≡ reported http spec request.response_encoding (http.send call [])))
unfolding new_general
make_named_request-IsAllowed_example =
    make_named_request-IsAllowed http general "params" (module_of 0) [] one_map
