-- ===== src/Apis/Network/Calls.antt =====
-- The calls of runtime/plaid/src/apis/general/network.rs: `make_named_request` and
-- `simple_json_post_request`.
use plaid.Base.{
  ℕ, ◌+◌, String, str_eq, Bool, true, false, not, ◌&&◌, ◌||◌, Option, none, some, List, [], ◌∷◌,
  ◌++◌, length, ltb, if◌then◌else◌,
}
use plaid.Base.Result.{Result, ok, err, or_fail, ◌>>=◌, ◌>>◌}
use plaid.Base.Dict.{HashMap, lookup, extend}
use plaid.Guest.{Bytes}
use plaid.Env.{PlaidModule}
use plaid.Functions.Storage.{contains}
use plaid.Apis.{
  ApiError, bad_request, configuration_error, test_mode, network_error, network_response_too_large,
  missing_parameter,
}
use plaid.Apis.Network.{
  General, Request, MakeRequestRequest, MnrResponseEncoding, utf8, binary, ResponseData, text,
  bytes, WebRequest, Response, Http, fill_in, get_client,
}

abbrev pub unless : Bool → ApiError → Result ApiError (Unit {0})
unless true e = err e
unless false e = ok tt

-- `make_named_request_check_permissions`
unfoldable pub make_named_request_check_permissions :
    General → String → PlaidModule → Result ApiError Request
unfolding contains lookup
make_named_request_check_permissions g request_name module_ = do
  request_specification ← or_fail (lookup request_name g.config.web_requests) bad_request
  unless (not (contains request_specification.allowed_rules module_.name)) bad_request
  unless (module_.test_mode && not request_specification.available_in_test_mode) test_mode
  ok request_specification

-- The static headers overwrite those of the rule.
unfoldable pub headers_to_include : Request → Option (HashMap String) → HashMap String
unfolding extend
headers_to_include spec (some dynamic_headers) = extend dynamic_headers spec.headers
headers_to_include spec none = spec.headers

-- The verbs whose arms take the address with the variables filled in.
unfoldable pub takes_filled : String → Bool
takes_filled verb =
    str_eq verb "delete"
    || str_eq verb "get"
    || str_eq verb "patch"
    || str_eq verb "post"
    || str_eq verb "put"

-- The `match` on the verb, with the address that each arm takes.
unfoldable pub address : Request → String → Result ApiError String
unfolding takes_filled
address spec uri =
    if takes_filled spec.verb
    then ok uri
    else if str_eq spec.verb "head"
    then ok spec.uri
    else err bad_request

abbrev pub or_given : Option String → String → String
or_given none given = given
or_given (some body) given = body

-- The loop that reads the body of a response.
unfoldable pub read_chunks : Option ℕ → ℕ → Bytes → List (Option Bytes) → Result ApiError Bytes
read_chunks limit total body [] = ok body
read_chunks limit total body (none ∷ rest) = err network_error
read_chunks none total body (some chunk ∷ rest) =
    read_chunks none (total + length chunk) (body ++ chunk) rest
read_chunks (some max_body_size) total body (some chunk ∷ rest) =
    if ltb max_body_size (total + length chunk)
    then err network_response_too_large
    else read_chunks (some max_body_size) (total + length chunk) (body ++ chunk) rest

module _ (http : Http) where
  unfoldable pub encode : MnrResponseEncoding → Bytes → ResponseData
  encode utf8 body = elim (http.from_utf8 body) [ some s ↦ text s | none ↦ text "" ]
  encode binary body = bytes body

  -- Everything up to the call of reqwest: what is sent, or an error.
  unfoldable pub prepare_request :
      General
      → MakeRequestRequest
      → PlaidModule
      → Result ApiError (Request × WebRequest http.HeaderMap)
  unfolding make_named_request_check_permissions headers_to_include address
  prepare_request g request module_ = do
    spec ← make_named_request_check_permissions g request.request_name module_
    headers ← or_fail (http.try_from (headers_to_include spec request.headers)) configuration_error
    uri ← address spec (fill_in request.variables spec.uri)
    ok (
      spec,
      record {
        client = get_client g request.request_name;
        verb = spec.verb;
        uri = uri;
        headers = headers;
        body = or_given spec.body request.body;
      },
    )

  unfoldable pub body_if_asked :
      Request → MnrResponseEncoding → Response → Result ApiError (Option ResponseData)
  unfolding read_chunks encode
  body_if_asked spec encoding response =
      if spec.return_body
      then (do
        body ← read_chunks spec.max_response_size 0 [] response.chunks
        ok (some (encode encoding body)))
      else ok none

  -- What the rule is given of a response.
  unfoldable pub report : Request → MnrResponseEncoding → Response → Result ApiError String
  unfolding body_if_asked
  report spec encoding response = do
    content ← body_if_asked spec encoding response
    or_fail
        (http.to_string (record {
          code = if spec.return_code then some response.status else none;
          content = content;
          cert = if spec.return_cert then response.peer_certificate else none;
        }))
        bad_request

  unfoldable pub reported :
      Request
      → MnrResponseEncoding
      → Option Response × http.State
      → Result ApiError String × http.State
  unfolding report
  reported spec encoding (none, s) = (err network_error, s)
  reported spec encoding (some response, s) = (report spec encoding response, s)

  unfoldable pub make_named_request :
      General → String → PlaidModule → http.State → Result ApiError String × http.State
  unfolding prepare_request reported
  make_named_request g params module_ s = elim (http.read_request params) [
    | none ↦ (err bad_request, s)
    | some request ↦ elim (prepare_request g request module_) [
      | err e ↦ (err e, s)
      | ok (spec, call) ↦ reported spec request.response_encoding (http.send call s)
    ]
  ]

  abbrev authorization : Option String → HashMap String
  authorization none = ("Content-Type", "application/json; charset=utf-8") ∷ []
  authorization (some auth) =
      ("Content-Type", "application/json; charset=utf-8") ∷ ("Authorization", auth) ∷ []

  unfoldable pub post_of : General → String → Result ApiError (WebRequest http.HeaderMap)
  unfolding lookup
  post_of g params = do
    request ← or_fail (http.read_map params) bad_request
    url ← or_fail (lookup "url" request) (missing_parameter "url")
    body ← or_fail (lookup "body" request) (missing_parameter "body")
    headers ← or_fail (http.try_from (authorization (lookup "auth" request))) network_error
    ok (record {
      client = g.default_client;
      verb = "post";
      uri = url;
      headers = headers;
      body = body;
    })

  abbrev status_of : Option Response × http.State → Result ApiError ℕ × http.State
  status_of (none, s) = (err network_error, s)
  status_of (some response, s) = (ok response.status, s)

  unfoldable pub simple_json_post_request :
      General → String → PlaidModule → http.State → Result ApiError ℕ × http.State
  unfolding post_of
  simple_json_post_request g params module_ s = elim (post_of g params) [
    | err e ↦ (err e, s)
    | ok call ↦ status_of (http.send call s)
  ]
