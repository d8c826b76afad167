-- ===== src/Apis/Web/Total.antt =====
-- The branch of `add_header` that is called unreachable is so.
use plaid.Base.{
  ℕ, ◌≡◌, refl, sym, subst, String, str_eq, eq_iff, true, Option, none, some, List, [], ◌∷◌, arith,
  Option-cases, Bool-cases, inl, inr,
}
use plaid.Base.Result.{Result, ok, err, Result-cases, bind_ok}
use plaid.Base.Dict.{HashMap, lookup}
use plaid.Env.{PlaidModule}
use plaid.Functions.Storage.{contains}
use plaid.Apis.{ApiError, WebError}
use plaid.Apis.Web.{
  Json, Header, JwtConfig, JwtParams, allowlistable_headers, kept_of, sanitize_headers,
  sanitize_key, sanitize_config,
}
use plaid.Apis.Web.Claims.{add_header, claims_of}
use plaid.Apis.Web.Issued.{permitted_ok}
use plaid.Apis.Web.Issue.{
  add_headers, permitted, granted, signed, with_extra_headers, plain_header, issue_jwt,
}

contains-kept_of :
    (allowed configured : List String) (k : String)
    → contains (kept_of allowed configured) k ≡ true
    → contains allowed k ≡ true
unfolding kept_of contains
contains-kept_of allowed [] k e = cc
contains-kept_of allowed (x ∷ xs) k e = ground (arith, eq_iff x k, contains-kept_of allowed xs k)

add_header-total :
    (header : Header) (k v : String)
    → contains allowlistable_headers k ≡ true
    → (header' : Header) × (add_header header k v ≡ some header')
unfolding add_header contains
add_header-total header k v e = elim (Option-cases (add_header header k v)) [
  | inr found ↦ found
  | inl stuck ↦ absurd (
      ground (
        arith,
        eq_iff k "cty",
        eq_iff "cty" k,
        eq_iff k "jku",
        eq_iff "jku" k,
        eq_iff k "x5u",
        eq_iff "x5u" k,
        eq_iff k "x5t",
        eq_iff "x5t" k,
        eq_iff k "x5t_s256",
        eq_iff "x5t_s256" k,
      ))
]

module _ (j : Json) where
  add_headers-total :
      (allowed : List String) (extra : HashMap j.Value) (header : Header)
      → ((k : String) → contains allowed k ≡ true → contains allowlistable_headers k ≡ true)
      → (r : Result WebError Header) × (add_headers j allowed extra header ≡ some r)
  unfolding add_headers
  add_headers-total allowed [] header sub = (ok header, refl)
  add_headers-total allowed ((k, v) ∷ rest) header sub = elim (Bool-cases (contains allowed k)) [
    | inr unlisted ↦ (err WebError.unsupported_header_field, rw unlisted refl)
    | inl listed ↦ elim (Option-cases (j.as_str v)) [
      | inl unread ↦ (err WebError.unsupported_header_field, rw (add_headers, listed, unread) refl)
      | inr (s, read) ↦
          let (header', added) = add_header-total header k s (sub k listed) in
          let (r, is) = add_headers-total allowed rest header' sub in
          (r, rw (add_headers, listed, read, added) is)
    ]
  ]

  with_extra_headers-total :
      (configured : Option (List String)) (extra : HashMap j.Value) (header : Header)
      → (r : Result WebError Header) × (with_extra_headers j
            (sanitize_headers configured)
            extra
            header
          ≡ some r)
  unfolding with_extra_headers sanitize_headers
  with_extra_headers-total configured [] header = (ok header, refl)
  with_extra_headers-total none (x ∷ extra) header = (err WebError.unsupported_header_field, refl)
  with_extra_headers-total (some configured) (x ∷ extra) header =
      add_headers-total (kept_of allowlistable_headers configured) (x ∷ extra) header
        (contains-kept_of allowlistable_headers configured)

  lookup-sanitize_config :
      (kid : String) (keys : HashMap (JwtConfig j)) (found : JwtConfig j)
      → lookup kid (sanitize_config j keys) ≡ some found
      → (config : JwtConfig j) × (found ≡ sanitize_key j config)
  unfolding lookup sanitize_config
  lookup-sanitize_config kid [] found e = cc
  lookup-sanitize_config kid ((head, config) ∷ rest) found e = elim (Bool-cases (str_eq head kid)) [
    | inl here ↦ (config, ground (arith, here))
    | inr later ↦ lookup-sanitize_config kid rest found (ground (arith, later))
  ]

  signed-total :
      (key_specs : JwtConfig j) (claims : HashMap j.Value) (r : Result WebError Header)
      → (out : Result ApiError String) × (signed j key_specs claims (some r) ≡ some out)
  unfolding signed
  signed-total key_specs claims (err e) = (err (ApiError.web_error e), refl)
  signed-total key_specs claims (ok header) =
      elim (Option-cases (j.encode header claims key_specs.private_key)) [
        | inl failed ↦
            (err (ApiError.web_error WebError.failed_to_encode_jwt), rw (signed, failed) refl)
        | inr (token, is) ↦ (ok token, rw (signed, is) refl)
      ]

  granted-sanitized :
      (keys : HashMap (JwtConfig j)) (request : JwtParams j) (module_ : PlaidModule)
      (iat_time now : ℕ) (key_specs : JwtConfig j) (claims : HashMap j.Value)
      → granted j (sanitize_config j keys) request module_ iat_time now ≡ ok (key_specs, claims)
      → (config : JwtConfig j) × (key_specs ≡ sanitize_key j config)
  unfolding granted
  granted-sanitized keys request module_ iat_time now key_specs claims e =
      let (found, permits, e1) =
        bind_ok (permitted j (sanitize_config j keys) request.kid module_) _ e in
      let (at, listed) =
        permitted_ok j (sanitize_config j keys) request.kid module_ found permits in
      let (config, clean) = lookup-sanitize_config request.kid keys found at in
      let (claims', e2, e3) = bind_ok (claims_of j found request iat_time now) _ e1 in
      (config, ground (arith, clean))

  signed_clean :
      (key_specs config : JwtConfig j) (claims extra : HashMap j.Value) (kid : String)
      → key_specs ≡ sanitize_key j config
      → (out : Result ApiError String) × (signed j key_specs claims (
            with_extra_headers j key_specs.allowlisted_extra_headers extra
              (plain_header j key_specs kid))
          ≡ some out)
  unfolding sanitize_key
  signed_clean key_specs config claims extra kid clean =
      subst
        (λ (c : JwtConfig j).
          (out : Result ApiError String) × (signed j c claims
              (with_extra_headers j c.allowlisted_extra_headers extra (plain_header j c kid))
            ≡ some out))
        (sym clean)
        (let c = sanitize_key j config in
          let (r, kept) =
            with_extra_headers-total config.allowlisted_extra_headers extra
              (plain_header j c kid) in
          let (out, is) = signed-total c claims r in (out, rw kept is))

  -- `issue_jwt` over the keys that `Web::new` keeps always returns a token or an error: the branch of
  -- `add_header` that is marked unreachable is never taken, whatever headers are configured and asked
  -- for.
  pub issue_jwt_returns :
      (from_str : String → Option (JwtParams j)) (keys : HashMap (JwtConfig j)) (params : String)
      (module_ : PlaidModule) (iat_time now : ℕ)
      → (out : Result ApiError String) × (issue_jwt j from_str
            (sanitize_config j keys)
            params
            module_
            iat_time
            now
          ≡ some out)
  unfolding issue_jwt granted
  issue_jwt_returns from_str keys params module_ iat_time now =
      elim (Option-cases (from_str params)) [
        | inl unread ↦ (err ApiError.bad_request, rw (issue_jwt, unread) refl)
        | inr (request, r) ↦
            elim (Result-cases (granted j (sanitize_config j keys) request module_ iat_time now)) [
              | inr (e, refused) ↦ (err (ApiError.web_error e), rw (issue_jwt, r, refused) refl)
              | inl ((key_specs, claims), grants) ↦
                  let (config, clean) =
                    granted-sanitized keys request module_ iat_time now key_specs claims grants in
                  let (out, is) =
                    signed_clean key_specs config claims request.extra_headers request.kid clean in
                  (out, rw (issue_jwt, r, grants) is)
            ]
      ]
