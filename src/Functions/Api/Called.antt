-- ===== src/Functions/Api/Called.antt =====
-- When an API is called for a rule.
use plaid.Base.{
  ℕ, ◌≡◌, ◌⊎◌, inl, inr, refl, ap, ◌∙◌, String, Bool, true, false, not, ◌||◌, Option, none, some,
  arith,
}
use plaid.Base.Result.{Result, ok, err, Result-cases}
use plaid.Env.{Platform, Env, PlaidModule}
use plaid.Functions.Message.{Encoding}
use plaid.Apis.{ApiError}
use plaid.Apis.Network.{Http, General, Request, MakeRequestRequest, WebRequest}
use plaid.Apis.Network.Calls.{simple_json_post_request, make_named_request, reported}
use plaid.Apis.Network.Permissions.{HeadersAreMaps, IsAllowed, make_named_request-IsAllowed}
use plaid.Functions.Api.{
  checked, impl_new_function, returned_text, impl_new_function_with_error_buffer,
  general_simple_json_post_request, general_make_named_request,
}

module _ (w : Platform) {A : Type 0} (logged allow : Bool) where
  checked-mode :
      (api : Option A) (env : Env w) (buf len : ℕ) (view : w.guest.View) (params : String)
      (configured : A)
      → checked w logged allow api env buf len ≡ ok (view, params, configured)
      → ((allow || not env.module_.test_mode) ≡ true) × (api ≡ some configured)
  unfolding checked
  checked-mode api env buf len view params configured e = ground arith

  -- A function that is not available in test mode does not call its API there.
  disallowed :
      {S : Type 0} (api : Option A) (f : A → String → PlaidModule → S → Result ApiError ℕ × S)
      (env : Env w) (buf len : ℕ) (s : S)
      → allow ≡ false
      → env.module_.test_mode ≡ true
      → (impl_new_function w logged allow api f env buf len s).1 ≡ s
  unfolding impl_new_function
  disallowed api f env buf len s refuses in_test =
      elim (Result-cases (checked w logged allow api env buf len)) [
        | inr (e, refused) ↦ rw (impl_new_function, refused) refl
        | inl ((view, params, configured), passed) ↦
            let (mode, is) = checked-mode api env buf len view params configured passed in
            absurd (ground arith)
      ]

module _ (w : Platform) (enc : Encoding) {S : Type 0} where
  returned_text-state :
      (env : Env w) (view : w.guest.View) (buf len : ℕ) (r : Result ApiError String × S)
      → (returned_text w enc env view buf len r).1 ≡ r.1
  unfolding returned_text
  returned_text-state env view buf len (err e, s) = refl
  returned_text-state env view buf len (ok text, s) = ground arith

  -- The API is called at most once, and is then the one that is configured.
  calls_once :
      {A : Type 0} (logged allow : Bool) (api : A)
      (f : A → String → PlaidModule → S → Result ApiError String × S) (env : Env w)
      (buf len ret_buf ret_len : ℕ) (s : S)
      → ((impl_new_function_with_error_buffer w logged allow enc
            (some api)
            f
            env
            buf
            len
            ret_buf
            ret_len
            s).1
          ≡ s)
        ⊎ ((params : String) × ((impl_new_function_with_error_buffer w logged allow enc
                (some api)
                f
                env
                buf
                len
                ret_buf
                ret_len
                s).1
              ≡ (f api params env.module_ s).1))
  unfolding impl_new_function_with_error_buffer
  calls_once logged allow api f env buf len ret_buf ret_len s =
      elim (Result-cases (checked w logged allow (some api) env buf len)) [
        | inr (e, refused) ↦ inl (rw (impl_new_function_with_error_buffer, refused) refl)
        | inl ((view, params, configured), passed) ↦
            let (mode, is) =
              checked-mode w logged allow (some api) env buf len view params configured passed in
            let same : configured ≡ api = cc in
            inr (
              params,
              rw (impl_new_function_with_error_buffer, passed)
                    (returned_text-state env view ret_buf ret_len
                      (f configured params env.module_ s))
                  ∙ ap (λ a. (f a params env.module_ s).1) same,
            )
      ]

module _ (http : Http) where
  reported-state :
      (spec : Request) (encoding : plaid.Apis.Network.MnrResponseEncoding)
      (r : Option plaid.Apis.Network.Response × http.State)
      → (reported http spec encoding r).1 ≡ r.1
  unfolding reported
  reported-state spec encoding (none, s) = refl
  reported-state spec encoding (some x, s) = refl

  -- A module in test mode causes nothing to be sent by `simple_json_post_request`, whatever its
  -- memory holds; and by `make_named_request` at most one request, which is configured as available
  -- in test mode and lists the module. No header of a request is configured twice.
  pub test_mode-Sends :
      (w : Platform) (enc : Encoding) (logged : Bool) (g : General) (env : Env w) (s : http.State)
      (buf len ret_buf ret_len : ℕ)
      → HeadersAreMaps g
      → env.module_.test_mode ≡ true
      → ((general_simple_json_post_request w http logged (some g) env buf len s).1 ≡ s)
        × (((general_make_named_request w http logged (some g) enc env buf len ret_buf ret_len s).1
              ≡ s)
            ⊎ ((request : MakeRequestRequest) × (spec : Request) × (call : WebRequest
                  http.HeaderMap)
                × IsAllowed http g env.module_ request spec call
                × (spec.available_in_test_mode ≡ true)
                × ((general_make_named_request w http logged
                      (some g)
                      enc
                      env
                      buf
                      len
                      ret_buf
                      ret_len
                      s).1
                    ≡ (http.send call s).1)))
  unfolding general_simple_json_post_request general_make_named_request
  test_mode-Sends w enc logged g env s buf len ret_buf ret_len m in_test = (
    disallowed w logged false (some g) (simple_json_post_request http) env buf len s refl in_test,
    elim (calls_once w enc logged true g (make_named_request http) env buf len ret_buf ret_len s) [
      | inl unchanged ↦ inl unchanged
      | inr (params, called) ↦ elim (make_named_request-IsAllowed http g params env.module_ s m) [
        | inl nothing ↦ inl (called ∙ nothing)
        | inr (request, spec, call, read, allowed, is) ↦ inr (
          request,
          spec,
          call,
          allowed,
          let mode = allowed.in_mode in ground arith,
          called
              ∙ ap (λ r. r.1) is
              ∙ reported-state spec request.response_encoding (http.send call s),
        )
      ]
    ],
  )
