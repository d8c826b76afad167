-- ===== src/Webhook/Tests.antt =====
-- A webhook whose GET requests are answered by a rule.
use plaid.Executor.Pools.{ExecutionThreadPools}
use plaid.Base.{
  ℕ, ◌+◌, ◌≡◌, refl, String, true, false, none, some, [], ◌∷◌, ltb, if◌then◌else◌, arith,
}
use plaid.Base.Dict.{HashMap, lookup, insert}
use plaid.Guest.{Bytes}
use plaid.Env.{PlaidModule}
use plaid.Message.{Message, limited}
use plaid.Channel.{Channel}
use plaid.Samples.{module_of, unbounded, unbounded_queue}
use plaid.Webhook.{
  WebhookConfig, HttpRequest, timed, use_persistent_response, rule, read_body_with_limit,
}
use plaid.Webhook.Post.{post_message}
use plaid.Webhook.Get.{
  Visit, Shared, response, get_message, get_handler, run_rule, verify, plan, give,
}
use plaid.Webhook.Cached.{get_handler-cached}
use plaid.Webhook.Sent.{Sends, get_handler-Sends}

abbrev queue_ : Channel Message
queue_ = unbounded Message

abbrev config : WebhookConfig
config = record {
  log_type = "log";
  headers = "agent" ∷ [];
  max_body_size = 3;
  get_mode = some (record { caching_mode = timed 60; response_mode = rule "rule" });
  label = none;
  logbacks_allowed = limited 1;
}

abbrev webhooks : HashMap WebhookConfig
webhooks = ("hook", config) ∷ []

abbrev request : HttpRequest
request = record {
  chunks = some (1 ∷ 2 ∷ []) ∷ some (3 ∷ []) ∷ [];
  header = λ name. some (9 ∷ []);
  query = ("a", "b") ∷ [];
}

abbrev pools : ExecutionThreadPools queue_
pools = record { general_pool = record { num_threads = 2; sender = [] }; dedicated_pools = [] }

abbrev modules : HashMap PlaidModule
modules = ("rule", module_of 0) ∷ []

abbrev into_bytes : String → Bytes
into_bytes s = 7 ∷ []

abbrev visit : ℕ → Visit
visit n = record { id = "id"; sender = 1; answer = response "page"; now = n; later = n + 1 }

abbrev fresh : Shared queue_
fresh = record { get_cache = []; log_sender = [] }

abbrev body : Bytes
body = 1 ∷ 2 ∷ 3 ∷ []

abbrev asked : Message
asked = get_message into_bytes "id" 1 "hook" "rule" (module_of 0) config request body

abbrev visited : Shared queue_
visited = record { get_cache = ("hook", (101, "page")) ∷ []; log_sender = asked ∷ [] }

too_long : read_body_with_limit (some (1 ∷ 2 ∷ []) ∷ some (3 ∷ 4 ∷ []) ∷ []) 3 ≡ none
unfolding read_body_with_limit
too_long = refl

challenge :
    (verify "s3" (("hub.verify_token", "s3") ∷ ("hub.challenge", "42") ∷ []) ≡ "42")
    × (verify "s3" (("hub.verify_token", "guess") ∷ ("hub.challenge", "42") ∷ []) ≡ "")
unfolding verify
challenge = (refl, refl)

-- With a persistent response the rule is run only if it is asked for.
persistent :
    (plan (use_persistent_response false) none none 5 ≡ give "")
    × (plan (use_persistent_response false) none (some "kept") 5 ≡ give "kept")
unfolding plan
persistent = (refl, refl)

abbrev posted : ExecutionThreadPools queue_
posted = record pools {
  general_pool = record {
    num_threads = 2;
    sender = post_message "id" "hook" config request body ∷ [];
  };
}

get_handler-cached_example :
    (get_handler queue_ into_bytes modules (visit 100) "hook" request webhooks fresh
      ≡ some ("page", visited))
    × (get_handler queue_ into_bytes modules (visit 130) "hook" request webhooks visited ≡ (
        if ltb 130 161
        then some ("page", visited)
        else run_rule queue_ into_bytes modules
            (visit 130)
            "hook"
            "rule"
            (module_of 0)
            config
            request
            true
            visited))
unfolding lookup plan read_body_with_limit insert
get_handler-cached_example =
    get_handler-cached queue_ into_bytes modules (visit 100) (visit 130) "hook" "rule" "page"
      request request webhooks 60 config (module_of 0) body fresh visited (asked ∷ [])
      (record { known = refl; by = refl; loaded = refl }) refl refl refl refl (omega arith) refl

get_handler-Sends_example :
    Sends queue_ into_bytes modules
      (unbounded_queue Message)
      (visit 100)
      "hook"
      request
      webhooks
      fresh
      visited
unfolding get_handler
get_handler-Sends_example =
    get_handler-Sends queue_ into_bytes modules (unbounded_queue Message) (visit 100) "hook" "page"
      request webhooks fresh visited refl
