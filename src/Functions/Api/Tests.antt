-- ===== src/Functions/Api/Tests.antt =====
-- A rule in test mode that makes requests.
use plaid.Apis.Network.{new_general, Request, MakeRequestRequest, WebRequest}
use plaid.Base.{◌≡◌, ◌⊎◌, refl, true, some, [], String, List}
use plaid.Base.Dict.{HashMap}
use plaid.Guest.{error_code, FunctionErrors}
use plaid.Message.{limited}
use plaid.Env.{Env}
use plaid.Storage.InMemory.{empty}
use plaid.Samples.{platform, env_of, encoding}
use plaid.Apis.Network.Permissions.{IsAllowed}
use plaid.Apis.Network.Tests.{http, general, one_map}
use plaid.Functions.Api.{general_simple_json_post_request, general_make_named_request}
use plaid.Functions.Api.Called.{test_mode-Sends}

abbrev env : Env platform
env =
    let plain = env_of 0 empty (limited 0) in
    record plain { module_ = record plain.module_ { test_mode = true } }

-- The named request of the sample is not available in test mode.
refused :
    ((general_make_named_request platform http true (some general) encoding env 2 3 9 8 []).0).0
    ≡ error_code FunctionErrors.test_mode
unfolding error_code general_make_named_request new_general
refused = refl

test_mode-Sends_example :
    ((general_simple_json_post_request platform http true (some general) env 2 3 []).1 ≡ [])
    × (((general_make_named_request platform http true (some general) encoding env 2 3 9 8 []).1
          ≡ [])
        ⊎ ((request : MakeRequestRequest) × (spec : Request) × (call : WebRequest
              (HashMap (List String)))
            × IsAllowed http general env.module_ request spec call
            × (spec.available_in_test_mode ≡ true)
            × ((general_make_named_request platform http true
                  (some general)
                  encoding
                  env
                  2
                  3
                  9
                  8
                  []).1
                ≡ (http.send call []).1)))
test_mode-Sends_example =
    test_mode-Sends http platform encoding true general env [] 2 3 9 8 one_map refl
