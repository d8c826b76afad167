-- ===== src/Apis/Web.antt =====
-- Tokens that rules may have signed: runtime/plaid/src/apis/web/mod.rs. JSON values, keys and the
-- encoding of tokens belong to serde_json and jsonwebtoken, and are parameters.
pub mod Claims
pub mod Issue
pub mod Issued
pub mod Token
pub mod Total
mod Tests
use plaid.Base.{
  ℕ, String, Bool, true, false, not, ◌&&◌, Option, none, some, List, [], ◌∷◌, if◌then◌else◌,
}
use plaid.Base.Result.{Result, ok, err}
use plaid.Base.Dict.{HashMap, lookup, insert}
use plaid.Functions.Storage.{contains}

-- `JwtKeyType`, and the two algorithms that it stands for
pub data JwtKeyType : Type 0 where
  es256 rs256 : JwtKeyType

-- The fields of jsonwebtoken's `Header` that are set here.
pub record Header : Type 0 where
  pub alg : JwtKeyType
  pub kid : Option String
  pub cty : Option String
  pub jku : Option String
  pub x5u : Option String
  pub x5t : Option String
  pub x5t_s256 : Option String

-- serde_json's values, as far as they are used, and the keys of jsonwebtoken.
pub record Json : Type 1 where
  pub Value : Type 0
  pub Key : Type 0
  pub string : String → Value
  pub number : ℕ → Value
  pub as_str : Value → Option String
  pub same : Value → Value → Bool
  pub from_pem : JwtKeyType → String → Option Key
  pub encode : Header → HashMap Value → Key → Option String

-- The extra headers that a key may allow.
abbrev pub allowlistable_headers : List String
allowlistable_headers = "cty" ∷ "jku" ∷ "x5u" ∷ "x5t" ∷ "x5t_s256" ∷ []

abbrev pub reserved_enforced_claims : List String
reserved_enforced_claims = "sub" ∷ "iat" ∷ "exp" ∷ []

-- `Iterator::filter` by membership
unfoldable pub kept_of : List String → List String → List String
unfolding contains
kept_of allowed [] = []
kept_of allowed (x ∷ xs) =
    let rest = kept_of allowed xs in if contains allowed x then x ∷ rest else rest

-- The `match` on the allowed headers in `sanitize_config`.
unfoldable pub sanitize_headers : Option (List String) → Option (List String)
unfolding kept_of
sanitize_headers none = none
sanitize_headers (some configured) = some (kept_of allowlistable_headers configured)

module _ (j : Json) where
  pub record JwtConfigRaw : Type 0 where
    pub private_key : String
    pub key_type : JwtKeyType
    pub allowed_rules : List String
    pub enforce_accurate_iat : Option Bool
    pub max_ttl : Option ℕ
    pub allowlisted_extra_headers : Option (List String)
    pub allowlisted_extra_fields : Option (List String)
    pub enforced_claims : HashMap j.Value

  pub record JwtConfig : Type 0 where
    pub key_type : JwtKeyType
    pub private_key : j.Key
    pub allowed_rules : List String
    pub enforce_accurate_iat : Option Bool
    pub max_ttl : Option ℕ
    pub allowlisted_extra_headers : Option (List String)
    pub allowlisted_extra_fields : Option (List String)
    pub enforced_claims : HashMap j.Value

  -- `JwtParams` of runtime/plaid-stl/src/web/mod.rs
  pub record JwtParams : Type 0 where
    pub kid : String
    pub sub : String
    pub iat : Option ℕ
    pub exp : Option ℕ
    pub aud : Option String
    pub extra_headers : HashMap j.Value
    pub extra_fields : HashMap j.Value

  unfoldable pub has_reserved : HashMap j.Value → Bool
  unfolding contains
  has_reserved [] = false
  has_reserved ((k, v) ∷ rest) =
      if contains reserved_enforced_claims k then true else has_reserved rest

  -- `JwtConfig::deserialize`, from the raw configuration on
  unfoldable pub read_config : JwtConfigRaw → Option JwtConfig
  unfolding has_reserved
  read_config raw =
      if has_reserved raw.enforced_claims
      then none
      else elim (j.from_pem raw.key_type raw.private_key) [
        | none ↦ none
        | some encoding_key ↦ some (record {
          key_type = raw.key_type;
          private_key = encoding_key;
          allowed_rules = raw.allowed_rules;
          enforce_accurate_iat = raw.enforce_accurate_iat;
          max_ttl = raw.max_ttl;
          allowlisted_extra_headers = raw.allowlisted_extra_headers;
          allowlisted_extra_fields = raw.allowlisted_extra_fields;
          enforced_claims = raw.enforced_claims;
        })
      ]

  unfoldable pub sanitize_key : JwtConfig → JwtConfig
  unfolding sanitize_headers
  sanitize_key config = record config {
    allowlisted_extra_headers = sanitize_headers config.allowlisted_extra_headers;
  }

  -- `sanitize_config`, which `Web::new` applies to the keys
  unfoldable pub sanitize_config : HashMap JwtConfig → HashMap JwtConfig
  unfolding sanitize_key
  sanitize_config [] = []
  sanitize_config ((kid, config) ∷ rest) = (kid, sanitize_key config) ∷ sanitize_config rest
