-- ===== src/Apis/Web/Issued.antt =====
-- What the claims of a token say.
use plaid.Base.{
  ℕ, ◌+◌, ◌≤◌, ◌≡◌, refl, String, Bool, true, false, Option, none, some, List, [], ◌∷◌, arith,
  str_eq, eq_iff, ◌∙◌,
}
use plaid.Base.Words.{add_u64}
use plaid.Base.Result.{ok, bind_ok}
use plaid.Base.Dict.{HashMap, lookup, insert, lookup-insert, IsMap}
use plaid.Env.{PlaidModule}
use plaid.Functions.Storage.{contains}
use plaid.Apis.Web.{Json, JwtConfig, JwtParams}
use plaid.Apis.Web.Claims.{
  claims_of, with_iat, with_aud, expiry, add_fields, with_extra_fields, enforce,
}
use plaid.Apis.Web.Issue.{permitted}

module _ (j : Json) where
  -- A claim that is not enforced stays as it is.
  pub enforce-free :
      (key : String) (enforced claims out : HashMap j.Value)
      → enforce j enforced claims ≡ ok out
      → lookup key enforced ≡ none
      → lookup key out ≡ lookup key claims
  unfolding enforce lookup
  enforce-free key [] claims out e h = ground arith
  enforce-free key ((k, v) ∷ rest) claims out e h = ground (
    arith,
    eq_iff k key,
    lookup-insert k key v claims,
    enforce-free key rest (insert k v claims) out,
  )

  -- One that is enforced has the value of the configuration.
  enforce-lookup :
      (key : String) (value : j.Value) (enforced claims out : HashMap j.Value)
      → IsMap enforced
      → enforce j enforced claims ≡ ok out
      → lookup key enforced ≡ some value
      → lookup key out ≡ some value
  unfolding enforce lookup
  enforce-lookup key value [] claims out m e h = cc
  enforce-lookup key value ((k, v) ∷ rest) claims out m e h = ground (
    arith,
    eq_iff k key,
    lookup-insert k key v claims,
    enforce-free key rest (insert k v claims) out,
    enforce-lookup key value rest (insert k v claims) out m.1,
  )

  add_fields-lookup :
      (key : String) (allowed : List String) (fields claims out : HashMap j.Value)
      → add_fields j allowed fields claims ≡ ok out
      → contains allowed key ≡ false
      → lookup key out ≡ lookup key claims
  unfolding add_fields
  add_fields-lookup key allowed [] claims out e h = ground arith
  add_fields-lookup key allowed ((k, v) ∷ rest) claims out e h = ground (
    arith,
    eq_iff k key,
    lookup-insert k key v claims,
    add_fields-lookup key allowed rest (insert k v claims) out,
  )

  -- Whether a rule may set a claim of this name.
  abbrev pub may_add : Option (List String) → String → Bool
  may_add none key = false
  may_add (some allowed) key = contains allowed key

  with_extra_fields-lookup :
      (key : String) (allowed : Option (List String)) (fields claims out : HashMap j.Value)
      → with_extra_fields j allowed fields claims ≡ ok out
      → may_add allowed key ≡ false
      → lookup key out ≡ lookup key claims
  unfolding with_extra_fields
  with_extra_fields-lookup key allowed [] claims out e h = ground arith
  with_extra_fields-lookup key none (f ∷ fields) claims out e h = cc
  with_extra_fields-lookup key (some allowed) (f ∷ fields) claims out e h =
      add_fields-lookup key allowed (f ∷ fields) claims out e h

  with_aud-lookup :
      (key : String) (aud : Option String) (claims out : HashMap j.Value)
      → with_aud j aud claims ≡ ok out
      → str_eq "aud" key ≡ false
      → lookup key out ≡ lookup key claims
  unfolding with_aud
  with_aud-lookup key none claims out e h = ground arith
  with_aud-lookup key (some aud) claims out e h =
      ground (arith, lookup-insert "aud" key (j.string aud) claims)

  with_iat-lookup :
      (key : String) (accurate : Option Bool) (iat : Option ℕ) (now : ℕ) (claims : HashMap j.Value)
      → str_eq "iat" key ≡ false
      → lookup key (with_iat j accurate iat now claims) ≡ lookup key claims
  unfolding with_iat
  with_iat-lookup key (some true) iat now claims h =
      ground (arith, lookup-insert "iat" key (j.number now) claims)
  with_iat-lookup key (some false) (some i) now claims h =
      ground (arith, lookup-insert "iat" key (j.number i) claims)
  with_iat-lookup key none (some i) now claims h =
      ground (arith, lookup-insert "iat" key (j.number i) claims)
  with_iat-lookup key (some false) none now claims h = refl
  with_iat-lookup key none none now claims h = refl

  pub expiry-le :
      (max_ttl now exp : ℕ) (asked : Option ℕ)
      → expiry j (some max_ttl) asked now ≡ ok exp
      → exp ≤ now + max_ttl
  unfolding expiry add_u64
  expiry-le max_ttl now exp none e = ground arith
  expiry-le max_ttl now exp (some t) e = ground arith

  -- The subject and the expiry of a token.
  pub record Says (key_specs : JwtConfig j) (request : JwtParams j) (now : ℕ)
      (claims : HashMap j.Value) (exp : ℕ) : Type 0 where
    pub subject : lookup "sub" claims ≡ some (j.string request.sub)
    pub chosen : expiry j key_specs.max_ttl request.exp now ≡ ok exp
    pub expires : lookup "exp" claims ≡ some (j.number exp)

  -- A rule can set neither the subject nor the expiry by other means than `sub` and `exp`.
  abbrev pub IsFixed : JwtConfig j → String → Type 0
  IsFixed key_specs key =
      (may_add key_specs.allowlisted_extra_fields key ≡ false)
      × (lookup key key_specs.enforced_claims ≡ none)

  pub claims_of-Says :
      (key_specs : JwtConfig j) (request : JwtParams j) (iat_time exp_time : ℕ)
      (claims : HashMap j.Value)
      → IsFixed key_specs "sub"
      → IsFixed key_specs "exp"
      → claims_of j key_specs request iat_time exp_time ≡ ok claims
      → (exp : ℕ) × Says key_specs request exp_time claims exp
  unfolding claims_of
  claims_of-Says key_specs request iat_time exp_time claims sub_fixed exp_fixed e =
      let first = insert "sub" (j.string request.sub) [] in
      let second = with_iat j key_specs.enforce_accurate_iat request.iat iat_time first in
      let (audience, e1, r1) = bind_ok (with_aud j request.aud second) _ e in
      let (exp, e2, r2) = bind_ok (expiry j key_specs.max_ttl request.exp exp_time) _ r1 in
      let third = insert "exp" (j.number exp) audience in
      let extra = key_specs.allowlisted_extra_fields in
      let (fields, e3, last) =
        bind_ok (with_extra_fields j extra request.extra_fields third) _ r2 in
      let enforced = key_specs.enforced_claims in
      (
        exp,
        record {
          subject =
              enforce-free "sub" enforced fields claims last sub_fixed.1
              ∙ with_extra_fields-lookup "sub" extra request.extra_fields third fields e3
                  sub_fixed.0
              ∙ lookup-insert "exp" "sub" (j.number exp) audience
              ∙ with_aud-lookup "sub" request.aud second audience e1 refl
              ∙ with_iat-lookup "sub" key_specs.enforce_accurate_iat request.iat iat_time first refl
              ∙ lookup-insert "sub" "sub" (j.string request.sub) [];
          chosen = e2;
          expires =
              enforce-free "exp" enforced fields claims last exp_fixed.1
              ∙ with_extra_fields-lookup "exp" extra request.extra_fields third fields e3
                  exp_fixed.0
              ∙ lookup-insert "exp" "exp" (j.number exp) audience;
        },
      )

  pub claims_of-enforced :
      (key_specs : JwtConfig j) (request : JwtParams j) (iat_time exp_time : ℕ)
      (claims : HashMap j.Value) (key : String) (value : j.Value)
      → IsMap key_specs.enforced_claims
      → lookup key key_specs.enforced_claims ≡ some value
      → claims_of j key_specs request iat_time exp_time ≡ ok claims
      → lookup key claims ≡ some value
  unfolding claims_of
  claims_of-enforced key_specs request iat_time exp_time claims key value m h e =
      let (audience, e1, r1) = bind_ok (with_aud j request.aud _) _ e in
      let (exp, e2, r2) = bind_ok (expiry j key_specs.max_ttl request.exp exp_time) _ r1 in
      let (fields, e3, last) =
        bind_ok (with_extra_fields j key_specs.allowlisted_extra_fields request.extra_fields _) _
          r2 in
      enforce-lookup key value key_specs.enforced_claims fields claims m last h

  pub permitted_ok :
      (keys : HashMap (JwtConfig j)) (kid : String) (module_ : PlaidModule)
      (key_specs : JwtConfig j)
      → permitted j keys kid module_ ≡ ok key_specs
      → (lookup kid keys ≡ some key_specs) × (contains key_specs.allowed_rules module_.name ≡ true)
  unfolding permitted
  permitted_ok keys kid module_ key_specs e = ground arith
