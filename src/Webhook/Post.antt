-- ===== src/Webhook/Post.antt =====
-- `post_handler` of runtime/plaid/src/bin/plaid.rs.
use plaid.Base.{ℕ, ◌≤◌, ◌≡◌, ◌⊎◌, String, Option, none, some, List, [], ◌∷◌, ◌++◌, length}
use plaid.Base.Result.{Result, ok, err}
use plaid.Base.Chunks.{joined}
use plaid.Base.Dict.{HashMap, lookup}
use plaid.Guest.{Bytes}
use plaid.Message.{Message, webhook_post, new}
use plaid.Channel.{Channel, IsQueue, TrySendError, full, disconnected}
use plaid.Executor.Pools.{ExecutionThreadPools, execute_webhook_message, pool_for}
use plaid.Webhook.{WebhookConfig, HttpRequest, read_body_with_limit, forward, label_of}

-- The message of a request; `id` is a fresh UUID.
unfoldable pub post_message : String → String → WebhookConfig → HttpRequest → Bytes → Message
unfolding new forward
post_message id webhook config request body =
    let message =
      new id config.log_type body (webhook_post (label_of config webhook))
        config.logbacks_allowed in
    record message { headers = forward config.headers request.header [] }

module _ (c : Channel Message) where
  -- The status, and the pools; `none` is a panic.
  unfoldable pub offered :
      Result TrySendError (ExecutionThreadPools c)
      → ExecutionThreadPools c
      → Option (ℕ × ExecutionThreadPools c)
  offered (ok pools') pools = some (200, pools')
  offered (err full) pools = some (429, pools)
  offered (err disconnected) pools = none

  unfoldable pub post_handler :
      String
      → String
      → HttpRequest
      → HashMap WebhookConfig
      → ExecutionThreadPools c
      → Option (ℕ × ExecutionThreadPools c)
  unfolding lookup read_body_with_limit post_message offered execute_webhook_message
  post_handler id webhook request webhooks pools = elim (lookup webhook webhooks) [
    | none ↦ some (200, pools)
    | some config ↦ elim (read_body_with_limit request.chunks config.max_body_size) [
      | none ↦ some (200, pools)
      | some body ↦
          offered (execute_webhook_message c (post_message id webhook config request body) pools)
            pools
    ]
  ]

  module _ {queue : c.State → List Message} (c_queue : IsQueue c queue) where
    -- The message that the configuration of a webhook asks for: its log type, the whole body, the
    -- headers that are to be forwarded, and the budget of the webhook; it goes to all rules of the
    -- type, and no one waits for a response.
    abbrev pub asked_for : String → String → WebhookConfig → HttpRequest → Bytes → Message
    asked_for id webhook config request body = record {
      id = id;
      type_ = config.log_type;
      content = body;
      headers = forward config.headers request.header [];
      query_params = [];
      source = webhook_post (label_of config webhook);
      logbacks_allowed = config.logbacks_allowed;
      response_sender = none;
      module_name = none;
    }

    -- The body of a request to a configured webhook, within its limit, is queued as a message.
    pub record IsQueued (id webhook : String) (request : HttpRequest) (config : WebhookConfig)
        (body : Bytes) (pools pools' : ExecutionThreadPools c) : Type 0 where
      pub whole : joined request.chunks ≡ some body
      pub fits : length body ≤ config.max_body_size
      pub queued :
          queue (pool_for c config.log_type pools').sender
          ≡ queue (pool_for c config.log_type pools).sender
            ++ asked_for id webhook config request body ∷ []

    -- Why nothing is queued for a request, and nothing said about it.
    abbrev pub IsIgnored : String → HttpRequest → HashMap WebhookConfig → Type 0
    IsIgnored webhook request webhooks =
        (lookup webhook webhooks ≡ none)
        ⊎ ((config : WebhookConfig) × (lookup webhook webhooks ≡ some config)
            × (read_body_with_limit request.chunks config.max_body_size ≡ none))

    abbrev pub Outcome :
        String
        → String
        → HttpRequest
        → HashMap WebhookConfig
        → ExecutionThreadPools c
        → ExecutionThreadPools c
        → ℕ
        → Type 0
    Outcome id webhook request webhooks pools pools' status =
        ((status ≡ 200)
          × (config : WebhookConfig) × (body : Bytes) × (lookup webhook webhooks ≡ some config)
          × IsQueued id webhook request config body pools pools')
        ⊎ ((status ≡ 429)
            × (pools' ≡ pools)
            × (config : WebhookConfig) × (body : Bytes) × (lookup webhook webhooks ≡ some config)
            × (execute_webhook_message c (asked_for id webhook config request body) pools
                ≡ err full))
        ⊎ ((status ≡ 200) × (pools' ≡ pools) × IsIgnored webhook request webhooks)
