-- ===== src/Apis/Network/Permissions.antt =====
-- What is sent for a rule, and when.
use plaid.Base.{
  ◌≡◌, ◌⊎◌, inl, inr, refl, String, true, false, not, ◌&&◌, Option, none, some, [], arith, str_eq,
  if◌then◌else◌, Option-cases, Bool-cases, eq_iff, subst,
}
use plaid.Base.Result.{ok, Result-cases, bind_ok, or_fail, or_fail_ok}
use plaid.Base.Dict.{HashMap, lookup, IsMap, lookup-extend, or_else}
use plaid.Env.{PlaidModule}
use plaid.Functions.Storage.{contains}
use plaid.Apis.{configuration_error}
use plaid.Apis.Network.{General, Request, MakeRequestRequest, WebRequest, Http, fill_in, get_client}
use plaid.Apis.Network.Calls.{
  or_given, takes_filled, make_named_request_check_permissions, headers_to_include, address,
  prepare_request, reported, make_named_request,
}

-- No header of a request is configured twice.
abbrev pub HeadersAreMaps : General → Type 0
HeadersAreMaps g =
    (name : String) (spec : Request)
    → lookup name g.config.web_requests ≡ some spec
    → IsMap spec.headers

-- The headers that a rule gives.
abbrev pub given : Option (HashMap String) → HashMap String
given none = []
given (some headers) = headers

module _ (http : Http) (g : General) (module_ : PlaidModule) (request : MakeRequestRequest) where
  -- The module may make this request, and what is sent is what the configuration says.
  pub record IsAllowed (spec : Request) (call : WebRequest http.HeaderMap) : Type 0 where
    pub found : lookup request.request_name g.config.web_requests ≡ some spec
    pub listed : contains spec.allowed_rules module_.name ≡ true
    pub in_mode : (module_.test_mode && not spec.available_in_test_mode) ≡ false
    pub client : call.client ≡ get_client g request.request_name
    pub verb : call.verb ≡ spec.verb
    pub uri :
        call.uri
        ≡ (if str_eq spec.verb "head" then spec.uri else fill_in request.variables spec.uri)
    pub merged : HashMap String
    pub headers : http.try_from merged ≡ some call.headers
    pub merged_at :
        (key : String)
        → lookup key merged ≡ or_else (lookup key spec.headers) (lookup key (given request.headers))
    pub body : call.body ≡ or_given spec.body request.body

  check_permissions_ok :
      (spec : Request)
      → make_named_request_check_permissions g request.request_name module_ ≡ ok spec
      → (lookup request.request_name g.config.web_requests ≡ some spec)
        × (contains spec.allowed_rules module_.name ≡ true)
        × ((module_.test_mode && not spec.available_in_test_mode) ≡ false)
  unfolding make_named_request_check_permissions
  check_permissions_ok spec e = ground arith

  lookup-headers_to_include :
      (spec : Request) (dynamic : Option (HashMap String)) (key : String)
      → IsMap spec.headers
      → lookup key (headers_to_include spec dynamic)
        ≡ or_else (lookup key spec.headers) (lookup key (given dynamic))
  unfolding headers_to_include lookup
  lookup-headers_to_include spec none key m = elim (Option-cases (lookup key spec.headers)) [
    | inl absent ↦ rw absent refl
    | inr (value, is) ↦ rw is refl
  ]
  lookup-headers_to_include spec (some dynamic) key m = lookup-extend key dynamic spec.headers m

  takes_filled-head : (verb : String) → str_eq verb "head" ≡ true → takes_filled verb ≡ false
  unfolding takes_filled
  takes_filled-head verb h = rw ((eq_iff verb "head").0 h) refl

  address_ok :
      (spec : Request) (uri out : String)
      → address spec uri ≡ ok out
      → out ≡ (if str_eq spec.verb "head" then spec.uri else uri)
  unfolding address
  address_ok spec uri out e = elim (Bool-cases (str_eq spec.verb "head")) [
    | inl head ↦ ground (arith, takes_filled-head spec.verb head, head)
    | inr other ↦ ground (arith, other)
  ]

  prepare_request-IsAllowed :
      (spec : Request) (call : WebRequest http.HeaderMap)
      → HeadersAreMaps g
      → prepare_request http g request module_ ≡ ok (spec, call)
      → IsAllowed spec call
  unfolding prepare_request
  prepare_request-IsAllowed spec call m e =
      let (spec', permitted, e1) =
        bind_ok (make_named_request_check_permissions g request.request_name module_) _ e in
      let (found, listed, in_mode) = check_permissions_ok spec' permitted in
      let merged = headers_to_include spec' request.headers in
      let (headers, converted, e2) =
        bind_ok (or_fail (http.try_from merged) configuration_error) _ e1 in
      let valid : http.try_from merged ≡ some headers =
        or_fail_ok (http.try_from merged) configuration_error converted in
      let (uri, addressed, e3) =
        bind_ok (address spec' (fill_in request.variables spec'.uri)) _ e2 in
      let call' : WebRequest http.HeaderMap = record {
        client = get_client g request.request_name;
        verb = spec'.verb;
        uri = uri;
        headers = headers;
        body = or_given spec'.body request.body;
      } in
      let same : ◌≡◌ {A = Request × WebRequest http.HeaderMap} (spec', call') (spec, call) = cc in
      subst (λ (q : Request × WebRequest http.HeaderMap). IsAllowed q.0 q.1) same
        (record {
          found = found;
          listed = listed;
          in_mode = in_mode;
          client = refl;
          verb = refl;
          uri = address_ok spec' (fill_in request.variables spec'.uri) uri addressed;
          merged = merged;
          headers = valid;
          merged_at = λ key.
              lookup-headers_to_include spec' request.headers key
                (m request.request_name spec' found);
          body = refl;
        })

-- A call of `make_named_request` sends at most one request, and only one that is configured under
-- the name that the rule gives, lists the rule, and, for a module in test mode, is available there.
-- What is sent has the verb of the configuration; its address, with the variables of the rule filled
-- in unless the verb is HEAD; its body, or the rule's where it has none; and the client of the
-- request. Its headers are made of one map, which holds under each name, as it is written, the
-- configured value, or else the rule's: names of the rule that differ in case alone from configured
-- ones are other names in this map. No header is configured twice under the same writing.
pub make_named_request-IsAllowed :
    (http : Http) (g : General) (params : String) (module_ : PlaidModule) (s : http.State)
    → HeadersAreMaps g
    → ((make_named_request http g params module_ s).1 ≡ s)
      ⊎ ((request : MakeRequestRequest) × (spec : Request) × (call : WebRequest http.HeaderMap)
          × (http.read_request params ≡ some request)
          × IsAllowed http g module_ request spec call
          × (make_named_request http g params module_ s
              ≡ reported http spec request.response_encoding (http.send call s)))
unfolding make_named_request
make_named_request-IsAllowed http g params module_ s m =
    elim (Option-cases (http.read_request params)) [
      | inl unread ↦ inl (ground arith)
      | inr (request, is) ↦ elim (Result-cases (prepare_request http g request module_)) [
        | inr (e, refused) ↦ inl (ground arith)
        | inl ((spec, call), prepared) ↦ inr (
          request,
          spec,
          call,
          is,
          prepare_request-IsAllowed http g module_ request spec call m prepared,
          rw (make_named_request, is, prepared) refl,
        )
      ]
    ]
