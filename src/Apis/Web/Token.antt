-- ===== src/Apis/Web/Token.antt =====
-- What a token says that is issued to a rule.
use plaid.Base.{
  ℕ, ◌+◌, ◌≤◌, ◌≡◌, refl, sym, ap, subst, String, true, Option, none, some, List, [], ◌∷◌, arith,
  Option-cases, inl, inr, ◌∙◌,
}
use plaid.Base.Result.{Result, ok, err, Result-cases}
use plaid.Base.Dict.{HashMap, lookup, IsMap, or_else}
use plaid.Env.{PlaidModule}
use plaid.Functions.Storage.{contains}
use plaid.Apis.{WebError}
use plaid.Apis.Web.{Json, Header, JwtConfig, JwtParams}
use plaid.Apis.Web.Claims.{add_header, claims_of, expiry}
use plaid.Apis.Web.Issue.{
  add_headers, permitted, granted, signed, with_extra_headers, plain_header, issue_jwt,
}
use plaid.Apis.Web.Issued.{
  Says, IsFixed, claims_of-Says, claims_of-enforced, expiry-le, permitted_ok,
}

-- A time within the validity that a key allows, if it limits it.
abbrev pub Within : Option ℕ → ℕ → ℕ → Type 0
Within none now exp = Unit
Within (some max_ttl) now exp = exp ≤ now + max_ttl

abbrev SameKey : Header → Header → Type 0
SameKey h h' = (h'.alg ≡ h.alg) × (h'.kid ≡ h.kid)

add_header-SameKey : (h h' : Header) (k v : String) → add_header h k v ≡ some h' → SameKey h h'
unfolding add_header
add_header-SameKey h h' k v e = ground arith

module _ (j : Json) where
  add_headers-SameKey :
      (allowed : List String) (extra : HashMap j.Value) (h h' : Header)
      → add_headers j allowed extra h ≡ some (ok h')
      → SameKey h h'
  unfolding add_headers
  add_headers-SameKey allowed [] h h' e = ground arith
  add_headers-SameKey allowed ((k, v) ∷ rest) h h' e = elim (Option-cases (j.as_str v)) [
    | inl unread ↦ absurd (ground arith)
    | inr (s, read) ↦ elim (Option-cases (add_header h k s)) [
      | inl stuck ↦ absurd (ground arith)
      | inr (next, added) ↦
          ground
            (arith, add_header-SameKey h next k s added, add_headers-SameKey allowed rest next h')
    ]
  ]

  with_extra_headers-SameKey :
      (allowed : Option (List String)) (extra : HashMap j.Value) (h h' : Header)
      → with_extra_headers j allowed extra h ≡ some (ok h')
      → SameKey h h'
  unfolding with_extra_headers
  with_extra_headers-SameKey allowed [] h h' e = ground arith
  with_extra_headers-SameKey none (x ∷ extra) h h' e = cc
  with_extra_headers-SameKey (some allowed) (x ∷ extra) h h' e =
      add_headers-SameKey allowed (x ∷ extra) h h' e

  signed_ok :
      (key_specs : JwtConfig j) (claims : HashMap j.Value) (r : Option (Result WebError Header))
      (token : String)
      → signed j key_specs claims r ≡ some (ok token)
      → (header : Header) × (r ≡ some (ok header))
        × (j.encode header claims key_specs.private_key ≡ some token)
  unfolding signed
  signed_ok key_specs claims none token e = cc
  signed_ok key_specs claims (some (err x)) token e = cc
  signed_ok key_specs claims (some (ok header)) token e = (header, refl, ground arith)

  Within-expiry :
      (max_ttl asked : Option ℕ) (now exp : ℕ)
      → expiry j max_ttl asked now ≡ ok exp
      → Within max_ttl now exp
  Within-expiry none asked now exp e = tt
  Within-expiry (some max_ttl) asked now exp e = expiry-le j max_ttl now exp asked e

  -- The header and the claims of a token that a module may have.
  pub record IsIssued (key_specs : JwtConfig j) (request : JwtParams j) (module_ : PlaidModule)
      (now : ℕ) (header : Header) (claims : HashMap j.Value) (exp : ℕ) : Type 0 where
    pub listed : contains key_specs.allowed_rules module_.name ≡ true
    pub alg : header.alg ≡ key_specs.key_type
    pub kid : header.kid ≡ some request.kid
    pub says : Says j key_specs request now claims exp
    pub within : Within key_specs.max_ttl now exp
    pub enforced :
        (key : String)
        → or_else (lookup key key_specs.enforced_claims) (lookup key claims) ≡ lookup key claims

  enforced_wins :
      (key_specs : JwtConfig j) (request : JwtParams j) (iat_time now : ℕ)
      (claims : HashMap j.Value)
      → IsMap key_specs.enforced_claims
      → claims_of j key_specs request iat_time now ≡ ok claims
      → (key : String)
      → or_else (lookup key key_specs.enforced_claims) (lookup key claims) ≡ lookup key claims
  enforced_wins key_specs request iat_time now claims m e key =
      elim (Option-cases (lookup key key_specs.enforced_claims)) [
        | inl free ↦ rw free refl
        | inr (value, is) ↦
            rw (is, claims_of-enforced j key_specs request iat_time now claims key value m is e)
              refl
      ]

  -- A token that a rule is given is signed with the key that it asked for, which lists the rule. The
  -- header names this key and its algorithm; the subject is the one asked for; the token expires, and
  -- at the latest when the validity ends that the key allows from now on, if it limits it; and every
  -- enforced claim has the configured value. The rule may not set `sub` and `exp` as extra fields,
  -- and they are not enforced; no claim is enforced twice.
  pub issue_jwt-IsIssued :
      (from_str : String → Option (JwtParams j)) (keys : HashMap (JwtConfig j)) (params : String)
      (module_ : PlaidModule) (iat_time now : ℕ) (token : String) (request : JwtParams j)
      (key_specs : JwtConfig j)
      → from_str params ≡ some request
      → lookup request.kid keys ≡ some key_specs
      → IsMap key_specs.enforced_claims
      → IsFixed j key_specs "sub"
      → IsFixed j key_specs "exp"
      → issue_jwt j from_str keys params module_ iat_time now ≡ some (ok token)
      → (header : Header) × (claims : HashMap j.Value) × (exp : ℕ) × IsIssued key_specs request
          module_ now header claims exp
        × (j.encode header claims key_specs.private_key ≡ some token)
  unfolding issue_jwt granted
  issue_jwt-IsIssued from_str keys params module_ iat_time now token request key_specs r k m sub exp
        e =
      elim (Result-cases (permitted j keys request.kid module_)) [
        | inr (x, refused) ↦ absurd (ground (arith, r, refused))
        | inl (found, permits) ↦
            let (at, listed) = permitted_ok j keys request.kid module_ found permits in
            let same : found ≡ key_specs = cc in
            let permits' : permitted j keys request.kid module_ ≡ ok key_specs =
              permits ∙ ap ok same in
            elim (Result-cases (claims_of j key_specs request iat_time now)) [
              | inr (x, refused) ↦ absurd (ground (arith, r, permits', refused))
              | inl (claims, claimed) ↦
                  let headers =
                    with_extra_headers j key_specs.allowlisted_extra_headers request.extra_headers
                      (plain_header j key_specs request.kid) in
                  let steps : issue_jwt j from_str keys params module_ iat_time now
                      ≡ signed j key_specs claims headers =
                    rw (issue_jwt, r, granted, permits', claimed) refl in
                  let (header, kept, encoded) =
                    signed_ok key_specs claims headers token (sym steps ∙ e) in
                  let (alg, kid) =
                    with_extra_headers-SameKey key_specs.allowlisted_extra_headers
                      request.extra_headers (plain_header j key_specs request.kid) header kept in
                  let (exp_, says) =
                    claims_of-Says j key_specs request iat_time now claims sub exp claimed in
                  (
                    header,
                    claims,
                    exp_,
                    record {
                      listed =
                          subst (λ (c : JwtConfig j). contains c.allowed_rules module_.name ≡ true)
                            same listed;
                      alg = alg;
                      kid = kid;
                      says = says;
                      within = Within-expiry key_specs.max_ttl request.exp now exp_ says.chosen;
                      enforced =
                          λ key. enforced_wins key_specs request iat_time now claims m claimed key;
                    },
                    encoded,
                  )
            ]
      ]
