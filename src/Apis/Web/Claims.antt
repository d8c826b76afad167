-- ===== src/Apis/Web/Claims.antt =====
-- The claims and the header of a token, as `issue_jwt` of runtime/plaid/src/apis/web/mod.rs builds
-- them.
use Prim.Native.Char.{code}
use plaid.Base.{
  ℕ, String, str_eq, Bool, true, false, ◌&&◌, ◌||◌, Option, none, some, List, [], ◌∷◌, min, leb,
  ◌==◌, if◌then◌else◌,
}
use plaid.Base.Words.{add_u64}
use plaid.Base.Result.{Result, ok, err, ◌>>=◌}
use plaid.Base.Dict.{HashMap, lookup, insert}
use plaid.Functions.Storage.{contains}
use plaid.Apis.{WebError, unsupported_field, enforced_claims_conflict}
use plaid.Apis.Web.{Json, Header, JwtConfig, JwtParams}

-- `char::is_whitespace`
abbrev is_whitespace : ℕ → Bool
is_whitespace c =
    (leb 9 c && leb c 13)
    || c == 32
    || c == 133
    || c == 160
    || c == 5760
    || (leb 8192 c && leb c 8202)
    || c == 8232
    || c == 8233
    || c == 8239
    || c == 8287
    || c == 12288

-- `s.trim().is_empty()`
unfoldable pub is_blank : String → Bool
is_blank String.[] = true
is_blank (String.◌∷◌ c s) = is_whitespace (code c) && is_blank s

-- `add_header`; `none` is a panic.
unfoldable pub add_header : Header → String → String → Option Header
add_header headers k v =
    if str_eq k "cty"
    then some (record headers { cty = some v })
    else if str_eq k "jku"
    then some (record headers { jku = some v })
    else if str_eq k "x5u"
    then some (record headers { x5u = some v })
    else if str_eq k "x5t"
    then some (record headers { x5t = some v })
    else if str_eq k "x5t_s256"
    then some (record headers { x5t_s256 = some v })
    else none

module _ (j : Json) where
  -- The claim `iat`; the time is that of the call of `get_time`.
  unfoldable pub with_iat : Option Bool → Option ℕ → ℕ → HashMap j.Value → HashMap j.Value
  unfolding insert
  with_iat (some true) iat now claims = insert "iat" (j.number now) claims
  with_iat (some false) (some iat) now claims = insert "iat" (j.number iat) claims
  with_iat none (some iat) now claims = insert "iat" (j.number iat) claims
  with_iat (some false) none now claims = claims
  with_iat none none now claims = claims

  unfoldable pub with_aud : Option String → HashMap j.Value → Result WebError (HashMap j.Value)
  unfolding is_blank insert
  with_aud none claims = ok claims
  with_aud (some aud) claims =
      if is_blank aud then err unsupported_field else ok (insert "aud" (j.string aud) claims)

  -- The claim `exp`.
  unfoldable pub expiry : Option ℕ → Option ℕ → ℕ → Result WebError ℕ
  unfolding add_u64
  expiry (some max_ttl) none now = ok (add_u64 now max_ttl)
  expiry (some max_ttl) (some t) now = ok (min t (add_u64 now max_ttl))
  expiry none none now = err unsupported_field
  expiry none (some t) now = ok t

  unfoldable pub add_fields :
      List String → HashMap j.Value → HashMap j.Value → Result WebError (HashMap j.Value)
  unfolding contains insert
  add_fields allowed [] claims = ok claims
  add_fields allowed ((k, v) ∷ rest) claims =
      if contains allowed k
      then add_fields allowed rest (insert k v claims)
      else err unsupported_field

  unfoldable pub with_extra_fields :
      Option (List String) → HashMap j.Value → HashMap j.Value → Result WebError (HashMap j.Value)
  unfolding add_fields
  with_extra_fields allowed [] claims = ok claims
  with_extra_fields none (f ∷ fields) claims = err unsupported_field
  with_extra_fields (some allowed) (f ∷ fields) claims = add_fields allowed (f ∷ fields) claims

  abbrev conflicts : Option j.Value → j.Value → Bool
  conflicts none v = false
  conflicts (some existing) v = if j.same existing v then false else true

  unfoldable pub enforce : HashMap j.Value → HashMap j.Value → Result WebError (HashMap j.Value)
  unfolding lookup insert
  enforce [] claims = ok claims
  enforce ((k, v) ∷ rest) claims =
      if conflicts (lookup k claims) v
      then err enforced_claims_conflict
      else enforce rest (insert k v claims)

  -- All claims of a token; the times are those of the two calls of `get_time`.
  unfoldable pub claims_of : JwtConfig j → JwtParams j → ℕ → ℕ → Result WebError (HashMap j.Value)
  unfolding with_iat with_aud expiry with_extra_fields enforce insert
  claims_of key_specs request iat_time exp_time = do
    let first = insert "sub" (j.string request.sub) []
    with_audience ←
        with_aud request.aud (with_iat key_specs.enforce_accurate_iat request.iat iat_time first)
    exp ← expiry key_specs.max_ttl request.exp exp_time
    fields ←
        with_extra_fields key_specs.allowlisted_extra_fields request.extra_fields
          (insert "exp" (j.number exp) with_audience)
    enforce key_specs.enforced_claims fields
