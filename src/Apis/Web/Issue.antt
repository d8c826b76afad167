-- ===== src/Apis/Web/Issue.antt =====
-- `issue_jwt` of runtime/plaid/src/apis/web/mod.rs. `none` is a panic.
use plaid.Base.{ℕ, String, Option, none, some, List, [], ◌∷◌, if◌then◌else◌}
use plaid.Base.Result.{Result, ok, err, or_fail, ◌>>=◌}
use plaid.Base.Dict.{HashMap, lookup}
use plaid.Env.{PlaidModule}
use plaid.Functions.Storage.{contains}
use plaid.Apis.{
  ApiError, WebError, web_error, failed_to_encode_jwt, module_unauthorized_to_use_key,
  unsupported_header_field,
}
use plaid.Apis.Web.{Json, Header, JwtConfig, JwtParams}
use plaid.Apis.Web.Claims.{add_header, claims_of}

module _ (j : Json) where
  unfoldable pub add_headers :
      List String → HashMap j.Value → Header → Option (Result WebError Header)
  unfolding contains add_header
  add_headers allowed [] header = some (ok header)
  add_headers allowed ((k, v) ∷ rest) header =
      if contains allowed k
      then elim (j.as_str v) [
        | none ↦ some (err unsupported_header_field)
        | some s ↦ elim (add_header header k s) [
          | none ↦ none
          | some header' ↦ add_headers allowed rest header'
        ]
      ]
      else some (err unsupported_header_field)

  unfoldable pub with_extra_headers :
      Option (List String) → HashMap j.Value → Header → Option (Result WebError Header)
  unfolding add_headers
  with_extra_headers allowed [] header = some (ok header)
  with_extra_headers none (h ∷ headers) header = some (err unsupported_header_field)
  with_extra_headers (some allowed) (h ∷ headers) header = add_headers allowed (h ∷ headers) header

  -- The key that a module asks for, if it may use it.
  unfoldable pub permitted :
      HashMap (JwtConfig j) → String → PlaidModule → Result WebError (JwtConfig j)
  unfolding lookup contains
  permitted keys kid module_ = do
    key_specs ← or_fail (lookup kid keys) WebError.bad_request
    if contains key_specs.allowed_rules module_.name
        then ok key_specs
        else err module_unauthorized_to_use_key

  abbrev pub plain_header : JwtConfig j → String → Header
  plain_header key_specs kid = record {
    alg = key_specs.key_type;
    kid = some kid;
    cty = none;
    jku = none;
    x5u = none;
    x5t = none;
    x5t_s256 = none;
  }

  unfoldable pub signed :
      JwtConfig j
      → HashMap j.Value
      → Option (Result WebError Header)
      → Option (Result ApiError String)
  signed key_specs claims none = none
  signed key_specs claims (some (err e)) = some (err (web_error e))
  signed key_specs claims (some (ok header)) = elim (j.encode header claims key_specs.private_key) [
    | none ↦ some (err (web_error failed_to_encode_jwt))
    | some token ↦ some (ok token)
  ]

  -- The key and the claims of the token that is asked for.
  unfoldable pub granted :
      HashMap (JwtConfig j)
      → JwtParams j
      → PlaidModule
      → ℕ
      → ℕ
      → Result WebError (JwtConfig j × HashMap j.Value)
  unfolding permitted claims_of
  granted keys request module_ iat_time exp_time = do
    key_specs ← permitted keys request.kid module_
    claims ← claims_of j key_specs request iat_time exp_time
    ok (key_specs, claims)

  unfoldable pub issue_jwt :
      (String → Option (JwtParams j))
      → HashMap (JwtConfig j)
      → String
      → PlaidModule
      → ℕ
      → ℕ
      → Option (Result ApiError String)
  unfolding granted with_extra_headers signed
  issue_jwt from_str keys params module_ iat_time exp_time = elim (from_str params) [
    | none ↦ some (err ApiError.bad_request)
    | some request ↦ elim (granted keys request module_ iat_time exp_time) [
      | err e ↦ some (err (web_error e))
      | ok (key_specs, claims) ↦ signed key_specs claims (
          with_extra_headers key_specs.allowlisted_extra_headers request.extra_headers
            (plain_header key_specs request.kid))
    ]
  ]
