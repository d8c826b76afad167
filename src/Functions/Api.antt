-- ===== src/Functions/Api.antt =====
-- The host functions that call an API: the four macros of runtime/plaid/src/functions/api.rs, and the
-- functions that they make of apis/general and apis/web. The logging system is a parameter, by whether
-- it takes the record of a call.
pub mod Called
mod Tests
use plaid.Base.{
  ℕ, String, Bool, true, false, not, ◌||◌, Option, none, some, ltb, length, if◌then◌else◌,
}
use plaid.Base.Int.{ℤ, as_i32}
use plaid.Base.Result.{Result, ok, err, or_fail, ◌>>=◌, ◌>>◌}
use plaid.Guest.{
  FunctionErrors, error_code, internal_api_error, api_not_configured, return_buffer_too_small,
  get_memory, safely_get_string, safely_write_data_back,
}
use plaid.Env.{Platform, Env, PlaidModule}
use plaid.Functions.Message.{Encoding}
use plaid.Functions.Storage.{require}
use plaid.Apis.{ApiError}
use plaid.Apis.Network.{Http, General}
use plaid.Apis.Network.Calls.{simple_json_post_request, make_named_request}

-- An error of an API, as the guest is told of it.
unfoldable pub function_error : ApiError → FunctionErrors
function_error ApiError.test_mode = FunctionErrors.test_mode
function_error ApiError.bad_request = internal_api_error
function_error ApiError.impossible_error = internal_api_error
function_error ApiError.network_response_too_large = internal_api_error
function_error ApiError.network_error = internal_api_error
function_error ApiError.configuration_error = internal_api_error
function_error (ApiError.missing_parameter p) = internal_api_error
function_error (ApiError.tls_error t) = internal_api_error
function_error (ApiError.service_error t) = internal_api_error
function_error (ApiError.web_error e) = internal_api_error

abbrev pub sub_module_of : {A B : Type 0} → Option A → (A → Option B) → Option B
sub_module_of none sub = none
sub_module_of (some api) sub = sub api

unfoldable pub returned_number : {S : Type 0} → Result ApiError ℕ × S → ℤ × S
unfolding function_error error_code
returned_number (ok return_data, s) = (as_i32 return_data, s)
returned_number (err e, s) = (error_code (function_error e), s)

module _ (w : Platform) (enc : Encoding) where
  unfoldable pub returned_text :
      {S : Type 0} → Env w → w.guest.View → ℕ → ℕ → Result ApiError String × S → (ℤ × Env w) × S
  unfolding safely_write_data_back function_error error_code
  returned_text env view ret_buffer ret_buffer_len (err e, s) =
      ((error_code (function_error e), env), s)
  returned_text env view ret_buffer ret_buffer_len (ok return_data, s) =
      if ltb ret_buffer_len (length (enc.as_bytes return_data))
      then ((error_code return_buffer_too_small, env), s)
      else elim (safely_write_data_back w.guest view (enc.as_bytes return_data) ret_buffer
          ret_buffer_len) [
            | err e ↦ ((error_code e, env), s)
            | ok (n, view') ↦ (
              (as_i32 (length (enc.as_bytes return_data)), record env { memory = some view' }),
              s,
            )
          ]

module _ (w : Platform) {A : Type 0} (logged allow_in_test_mode : Bool) where
  -- What all of them check before the API is called.
  unfoldable pub checked :
      Option A → Env w → ℕ → ℕ → Result FunctionErrors (w.guest.View × String × A)
  unfolding get_memory safely_get_string
  checked api env params_buffer params_buffer_len = do
    require logged internal_api_error
    require (allow_in_test_mode || not env.module_.test_mode) FunctionErrors.test_mode
    view ← get_memory w.guest env.memory
    params ← safely_get_string w.guest view params_buffer params_buffer_len
    configured ← or_fail api api_not_configured
    ok (view, params, configured)

  -- `impl_new_function!`: the call of the API acts on a state of the world.
  unfoldable pub impl_new_function :
      {S : Type 0}
      → Option A
      → (A → String → PlaidModule → S → Result ApiError ℕ × S)
      → Env w
      → ℕ
      → ℕ
      → S
      → ℤ × S
  unfolding checked returned_number
  impl_new_function api function env params_buffer params_buffer_len s =
      elim (checked api env params_buffer params_buffer_len) [
        | err e ↦ (error_code e, s)
        | ok (view, params, configured) ↦ returned_number (function configured params env.module_ s)
      ]

  module _ (enc : Encoding) where
    -- `impl_new_function_with_error_buffer!`
    unfoldable pub impl_new_function_with_error_buffer :
        {S : Type 0}
        → Option A
        → (A → String → PlaidModule → S → Result ApiError String × S)
        → Env w
        → ℕ
        → ℕ
        → ℕ
        → ℕ
        → S
        → (ℤ × Env w) × S
    unfolding checked returned_text
    impl_new_function_with_error_buffer api function env params_buffer params_buffer_len ret_buffer
          ret_buffer_len s =
        elim (checked api env params_buffer params_buffer_len) [
          | err e ↦ ((error_code e, env), s)
          | ok (view, params, configured) ↦
              returned_text w enc env view ret_buffer ret_buffer_len
                (function configured params env.module_ s)
        ]

-- `impl_new_sub_module_function!`
unfoldable pub impl_new_sub_module_function :
    (w : Platform) {A B S : Type 0}
    → Bool
    → Bool
    → Option A
    → (A → Option B)
    → (B → String → PlaidModule → S → Result ApiError ℕ × S)
    → Env w
    → ℕ
    → ℕ
    → S
    → ℤ × S
unfolding impl_new_function
impl_new_sub_module_function w logged allow_in_test_mode api sub =
    impl_new_function w logged allow_in_test_mode (sub_module_of api sub)

-- `impl_new_sub_module_function_with_error_buffer!`
unfoldable pub impl_new_sub_module_function_with_error_buffer :
    (w : Platform) {A B S : Type 0}
    → Bool
    → Bool
    → Encoding
    → Option A
    → (A → Option B)
    → (B → String → PlaidModule → S → Result ApiError String × S)
    → Env w
    → ℕ
    → ℕ
    → ℕ
    → ℕ
    → S
    → (ℤ × Env w) × S
unfolding impl_new_function_with_error_buffer
impl_new_sub_module_function_with_error_buffer w logged allow_in_test_mode enc api sub =
    impl_new_function_with_error_buffer w logged allow_in_test_mode enc (sub_module_of api sub)

abbrev allow : Bool
allow = true

abbrev disallow : Bool
disallow = false

module _ (w : Platform) (http : Http) (logged : Bool) (api : Option General) where
  unfoldable pub general_simple_json_post_request : Env w → ℕ → ℕ → http.State → ℤ × http.State
  unfolding impl_new_function simple_json_post_request
  general_simple_json_post_request =
      impl_new_function w logged disallow api (simple_json_post_request http)

  unfoldable pub general_make_named_request :
      Encoding → Env w → ℕ → ℕ → ℕ → ℕ → http.State → (ℤ × Env w) × http.State
  unfolding impl_new_function_with_error_buffer make_named_request
  general_make_named_request enc =
      impl_new_function_with_error_buffer w logged allow enc api (make_named_request http)
