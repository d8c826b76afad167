-- ===== src/Webhook/Get.antt =====
-- The handler of GET requests of runtime/plaid/src/bin/plaid.rs.
use plaid.Base.{
  ℕ, String, str_eq, Bool, true, false, Option, none, some, [], ◌∷◌, ltb, if◌then◌else◌,
}
use plaid.Base.Words.{add_u64}
use plaid.Base.Result.{Result, ok, err}
use plaid.Base.Dict.{HashMap, lookup, insert}
use plaid.Guest.{Bytes}
use plaid.Env.{PlaidModule}
use plaid.Message.{Message, webhook_get}
use plaid.Channel.{Channel, TrySendError, full, disconnected}
use plaid.Executor.Response.{get_persistent_response_data}
use plaid.Webhook.{
  CachingMode, no_caching, timed, use_persistent_response, facebook, rule, static, GetMode,
  WebhookConfig, HttpRequest, read_body_with_limit, forward, label_of,
}

-- Either what is returned at once, or that the rule is run, and whether the cache is updated then.
pub data Plan : Type 0 where
  give : String → Plan
  call : Bool → Plan

-- The `match` on the caching mode.
unfoldable pub plan : CachingMode → Option (ℕ × String) → Option String → ℕ → Plan
unfolding add_u64
plan (timed validity) none persistent now = call true
plan (timed validity) (some (at, body)) persistent now =
    if ltb now (add_u64 at validity) then give body else call true
plan no_caching cached persistent now = call false
plan (use_persistent_response call_on_none) cached (some data_) now = give data_
plan (use_persistent_response true) cached none now = call false
plan (use_persistent_response false) cached none now = give ""

-- What comes back over the one-shot channel: nothing when the sender is dropped, or what the
-- executor answers.
pub data Answer : Type 0 where
  dropped no_response : Answer
  response : String → Answer

abbrev or_empty : Option String → String
or_empty none = ""
or_empty (some s) = s

-- The answer to Facebook's verification.
unfoldable pub verify : String → HashMap String → String
unfolding lookup
verify secret query = elim (lookup "hub.verify_token" query) [
  | none ↦ ""
  | some fb_secret ↦ if str_eq fb_secret secret then or_empty (lookup "hub.challenge" query) else ""
]

-- `String::into_bytes` is a parameter.
unfoldable pub query_bytes : (String → Bytes) → HashMap String → HashMap Bytes
query_bytes into_bytes [] = []
query_bytes into_bytes ((k, v) ∷ rest) = (k, into_bytes v) ∷ query_bytes into_bytes rest

-- The message for the rule; `id` is a fresh UUID, and `sender` the one-shot channel.
unfoldable pub get_message :
    (String → Bytes)
    → String
    → ℕ
    → String
    → String
    → PlaidModule
    → WebhookConfig
    → HttpRequest
    → Bytes
    → Message
unfolding query_bytes forward
get_message into_bytes id sender webhook name module_ config request body = record {
  id = id;
  type_ = name;
  content = body;
  headers = forward config.headers request.header [];
  query_params = query_bytes into_bytes request.query;
  source = webhook_get (label_of config webhook);
  logbacks_allowed = config.logbacks_allowed;
  response_sender = some sender;
  module_name = some module_.name;
}

-- What the requests to one server share: the cached responses with their times, and the queue.
pub record Shared (c : Channel Message) : Type 0 where
  pub get_cache : HashMap (ℕ × String)
  pub log_sender : c.State

-- One request: a fresh id, the one-shot channel and what comes back over it, and the times at which
-- the clock is read.
pub record Visit : Type 0 where
  pub id : String
  pub sender : ℕ
  pub answer : Answer
  pub now : ℕ
  pub later : ℕ

module _ (c : Channel Message) (into_bytes : String → Bytes) (modules : HashMap PlaidModule) where
  unfoldable pub reply : String → Bool → ℕ → Answer → Shared c → String × Shared c
  unfolding insert
  reply webhook update later dropped s = ("", s)
  reply webhook update later no_response s = ("", s)
  reply webhook true later (response body) s =
      (body, record s { get_cache = insert webhook (later, body) s.get_cache })
  reply webhook false later (response body) s = (body, s)

  -- After the send: a message that is refused is dropped, and the one-shot channel with it; `none`
  -- is a panic.
  unfoldable pub after_send :
      String → Bool → Visit → Result TrySendError c.State → Shared c → Option (String × Shared c)
  unfolding reply
  after_send webhook update visit (ok queue) s =
      some (reply webhook update visit.later visit.answer (record s { log_sender = queue }))
  after_send webhook update visit (err full) s = some (reply webhook update visit.later dropped s)
  after_send webhook update visit (err disconnected) s = none

  unfoldable pub run_rule :
      Visit
      → String
      → String
      → PlaidModule
      → WebhookConfig
      → HttpRequest
      → Bool
      → Shared c
      → Option (String × Shared c)
  unfolding read_body_with_limit get_message after_send
  run_rule visit webhook name module_ config request update s =
      elim (read_body_with_limit request.chunks config.max_body_size) [
        | none ↦ some ("", s)
        | some body ↦
            after_send webhook update visit
              (c.try_send
                (get_message into_bytes visit.id visit.sender webhook name module_ config request
                  body)
                s.log_sender)
              s
      ]

  unfoldable pub by_rule :
      Visit
      → String
      → String
      → CachingMode
      → WebhookConfig
      → HttpRequest
      → Shared c
      → Option (String × Shared c)
  unfolding lookup plan get_persistent_response_data run_rule
  by_rule visit webhook name caching_mode config request s = elim (lookup name modules) [
    | none ↦ some ("", s)
    | some module_ ↦
        elim (plan caching_mode (lookup webhook s.get_cache)
          (get_persistent_response_data module_.persistent_response) visit.now) [
            | give body ↦ some (body, s)
            | call update ↦ run_rule visit webhook name module_ config request update s
          ]
  ]

  unfoldable pub by_mode :
      Visit
      → String
      → Option GetMode
      → WebhookConfig
      → HttpRequest
      → Shared c
      → Option (String × Shared c)
  unfolding verify by_rule
  by_mode visit webhook none config request s = some ("", s)
  by_mode visit webhook (some mode) config request s = elim mode.response_mode [
    | static content ↦ some (content, s)
    | facebook secret ↦ some (verify secret request.query, s)
    | rule name ↦ by_rule visit webhook name mode.caching_mode config request s
  ]

  -- The body that is returned, and what is shared.
  unfoldable pub get_handler :
      Visit → String → HttpRequest → HashMap WebhookConfig → Shared c → Option (String × Shared c)
  unfolding lookup by_mode
  get_handler visit webhook request webhooks s = elim (lookup webhook webhooks) [
    | none ↦ some ("", s)
    | some config ↦ by_mode visit webhook config.get_mode config request s
  ]
