-- ===== src/Apis/Web/Tests.antt =====
-- A rule that has a token signed.
use plaid.Functions.Storage.{contains}
use plaid.Base.Dict.{lookup, HashMap}
use plaid.Base.{
  ℕ, ◌≡◌, refl, String, str_eq, Bool, true, false, Option, none, some, List, [], ◌∷◌, ◌==◌,
}
use plaid.Base.Result.{Result, ok, err}
use plaid.Samples.{module_of}
use plaid.Apis.{ApiError, web_error, unsupported_field}
use plaid.Apis.Web.{Json, Header, JwtConfig, JwtParams, es256, sanitize_config}
use plaid.Apis.Web.Claims.{is_blank, claims_of}
use plaid.Apis.Web.Issue.{issue_jwt}
use plaid.Apis.Web.Token.{IsIssued, issue_jwt-IsIssued}
use plaid.Apis.Web.Total.{issue_jwt_returns}

data Value : Type 0 where
  text : String → Value
  amount : ℕ → Value

abbrev text_of : Value → Option String
text_of (text s) = some s
text_of (amount n) = none

abbrev same_value : Value → Value → Bool
same_value (text s) (text t) = str_eq s t
same_value (amount n) (amount m) = n == m
same_value _ _ = false

abbrev json : Json
json = record {
  Value = Value;
  Key = Unit;
  string = text;
  number = amount;
  as_str = text_of;
  same = same_value;
  from_pem = λ t s. some tt;
  encode = λ h c k. some "token";
}

abbrev key_of : List String → JwtConfig json
key_of fields = record {
  key_type = es256;
  private_key = tt;
  allowed_rules = "rule" ∷ [];
  enforce_accurate_iat = some true;
  max_ttl = some 60;
  allowlisted_extra_headers = some ("cty" ∷ "kid" ∷ []);
  allowlisted_extra_fields = some fields;
  enforced_claims = ("iss", text "plaid") ∷ [];
}

abbrev params : JwtParams json
params = record {
  kid = "key";
  sub = "me";
  iat = none;
  exp = some 5000;
  aud = some "you";
  extra_headers = ("cty", text "JWT") ∷ [];
  extra_fields = ("team", text "red") ∷ [];
}

abbrev keys : HashMap (JwtConfig json)
keys = ("key", key_of ("team" ∷ [])) ∷ []

blank : (is_blank " \t" ≡ true) × (is_blank " a" ≡ false)
unfolding is_blank
blank = (refl, refl)

-- A field that is not listed is refused.
refused :
    issue_jwt json (λ s. some params) (("key", key_of []) ∷ []) "params" (module_of 0) 100 101
    ≡ some (err (web_error unsupported_field))
unfolding issue_jwt
refused = refl

-- A key that lists `exp` as an extra field lets a rule go past `max_ttl`.
late :
    claims_of json
      (key_of ("exp" ∷ []))
      (record params { extra_fields = ("exp", amount 5000) ∷ [] })
      100
      101
    ≡ ok (
        ("sub", text "me")
        ∷ ("iat", amount 100)
        ∷ ("aud", text "you")
        ∷ ("exp", amount 5000)
        ∷ ("iss", text "plaid")
        ∷ [])
unfolding claims_of
late = refl

issue_jwt-IsIssued_example :
    (header : Header) × (claims : HashMap Value) × (exp : ℕ) × IsIssued json
      (key_of ("team" ∷ []))
      params
      (module_of 0)
      101
      header
      claims
      exp
    × (json.encode header claims tt ≡ some "token")
unfolding lookup contains issue_jwt
issue_jwt-IsIssued_example =
    issue_jwt-IsIssued json (λ s. some params) keys "params" (module_of 0) 100 101 "token" params
      (key_of ("team" ∷ [])) refl refl (refl, tt) (refl, refl) (refl, refl) refl

issue_jwt_returns_example :
    (out : Result ApiError String) × (issue_jwt json
        (λ s. some params)
        (sanitize_config json keys)
        "params"
        (module_of 0)
        100
        101
      ≡ some out)
issue_jwt_returns_example =
    issue_jwt_returns json (λ s. some params) keys "params" (module_of 0) 100 101
