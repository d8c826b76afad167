-- ===== src/Webhook/Sent.antt =====
-- What a GET request sends to the rules.
use plaid.Base.{
  ℕ, ◌≤◌, ◌≡◌, ◌⊎◌, inl, inr, refl, sym, ap, ◌∙◌, String, Bool, true, false, Option, none, some,
  List, [], ◌∷◌, ◌++◌, length, arith, Option-cases,
}
use plaid.Base.Result.{Result, ok, err}
use plaid.Base.Chunks.{joined}
use plaid.Base.Dict.{HashMap, lookup}
use plaid.Guest.{Bytes}
use plaid.Env.{PlaidModule}
use plaid.Message.{Message, webhook_get}
use plaid.Channel.{Channel, IsQueue, TrySendError, full, disconnected}
use plaid.Webhook.{
  CachingMode, GetMode, ResponseMode, rule, static, facebook, WebhookConfig, HttpRequest,
  read_body_with_limit, forward, label_of,
}
use plaid.Webhook.Body.{read_body_with_limit_iff}
use plaid.Webhook.Get.{
  Plan, give, call, Answer, response, dropped, no_response, Visit, Shared, get_message, query_bytes,
  reply, after_send, run_rule, by_rule, by_mode, get_handler,
}
use plaid.Webhook.Cached.{IsByRule, planned}

module _ (c : Channel Message) (into_bytes : String → Bytes) (modules : HashMap PlaidModule)
    {queue : c.State → List Message} (c_queue : IsQueue c queue) where
  reply-log_sender :
      (webhook : String) (update : Bool) (later : ℕ) (a : Answer) (s : Shared c)
      → (reply c into_bytes modules webhook update later a s).1.log_sender ≡ s.log_sender
  unfolding reply
  reply-log_sender webhook update later dropped s = refl
  reply-log_sender webhook update later no_response s = refl
  reply-log_sender webhook true later (response body) s = refl
  reply-log_sender webhook false later (response body) s = refl

  after_send-queue :
      (webhook text : String) (update : Bool) (visit : Visit) (m : Message) (s s' : Shared c)
      (r : Result TrySendError c.State)
      → c.try_send m s.log_sender ≡ r
      → after_send c into_bytes modules webhook update visit r s ≡ some (text, s')
      → (s'.log_sender ≡ s.log_sender) ⊎ (queue s'.log_sender ≡ queue s.log_sender ++ m ∷ [])
  unfolding after_send
  after_send-queue webhook text update visit m s s' (ok after) sent e =
      let s1 : Shared c = record s { log_sender = after } in
      let kept : s'.log_sender ≡ after =
        ground (arith, reply-log_sender webhook update visit.later visit.answer s1) in
      inr (ap queue kept ∙ c_queue.try_send_ok m s.log_sender after sent)
  after_send-queue webhook text update visit m s s' (err full) sent e =
      inl (ground (arith, reply-log_sender webhook update visit.later dropped s))
  after_send-queue webhook text update visit m s s' (err disconnected) sent e = cc

  -- The message that a request makes: to the module alone, with the whole body, and with the channel
  -- over which its response is waited for.
  abbrev pub asked_of :
      Visit → String → String → PlaidModule → WebhookConfig → HttpRequest → Bytes → Message
  asked_of visit webhook name module_ config request body = record {
    id = visit.id;
    type_ = name;
    content = body;
    headers = forward config.headers request.header [];
    query_params = query_bytes into_bytes request.query;
    source = webhook_get (label_of config webhook);
    logbacks_allowed = config.logbacks_allowed;
    response_sender = some visit.sender;
    module_name = some module_.name;
  }

  -- The message for a rule that is to be run, with a body within the limit.
  pub record IsSentTo (visit : Visit) (webhook : String) (request : HttpRequest)
      (webhooks : HashMap WebhookConfig) (s s' : Shared c) (name : String) (mode : CachingMode)
      (config : WebhookConfig) (module_ : PlaidModule) (update : Bool) (body : Bytes) : Type 0 where
    pub by_rule : IsByRule c into_bytes modules webhooks webhook name mode config module_
    pub due : planned c into_bytes modules mode webhook module_ visit.now s ≡ call update
    pub whole : joined request.chunks ≡ some body
    pub fits : length body ≤ config.max_body_size
    pub queued :
        queue s'.log_sender
        ≡ queue s.log_sender ++ asked_of visit webhook name module_ config request body ∷ []

  abbrev pub Sends :
      Visit → String → HttpRequest → HashMap WebhookConfig → Shared c → Shared c → Type 0
  Sends visit webhook request webhooks s s' =
      (s'.log_sender ≡ s.log_sender)
      ⊎ ((name : String) × (mode : CachingMode) × (config : WebhookConfig) × (module_ : PlaidModule)
          × (update : Bool) × (body : Bytes) × IsSentTo visit webhook request webhooks s s' name
              mode config module_ update body)

  run_rule-Sends :
      (visit : Visit) (webhook text name : String) (request : HttpRequest)
      (webhooks : HashMap WebhookConfig) (mode : CachingMode) (config : WebhookConfig)
      (module_ : PlaidModule) (update : Bool) (s s' : Shared c)
      → IsByRule c into_bytes modules webhooks webhook name mode config module_
      → planned c into_bytes modules mode webhook module_ visit.now s ≡ call update
      → run_rule c into_bytes modules visit webhook name module_ config request update s
        ≡ some (text, s')
      → Sends visit webhook request webhooks s s'
  unfolding run_rule get_message
  run_rule-Sends visit webhook text name request webhooks mode config module_ update s s' by due e =
      elim (Option-cases (read_body_with_limit request.chunks config.max_body_size)) [
        | inl unread ↦ inl (ground (arith, unread))
        | inr (body, read) ↦
            let m =
              get_message into_bytes visit.id visit.sender webhook name module_ config request
                body in
            let sending = c.try_send m s.log_sender in
            let steps : run_rule c into_bytes modules visit webhook name module_ config request
                  update s
                ≡ after_send c into_bytes modules webhook update visit sending s =
              rw (run_rule, read) refl in
            let (whole, fits) =
              (read_body_with_limit_iff request.chunks config.max_body_size body).0 read in
            elim (after_send-queue webhook text update visit m s s' sending refl (sym steps ∙ e)) [
              | inl same ↦ inl same
              | inr queued ↦ inr (
                name,
                mode,
                config,
                module_,
                update,
                body,
                record { by_rule = by; due = due; whole = whole; fits = fits; queued = queued },
              )
            ]
      ]

  loaded-Sends :
      (visit : Visit) (webhook text name : String) (request : HttpRequest)
      (webhooks : HashMap WebhookConfig) (mode : CachingMode) (config : WebhookConfig)
      (module_ : PlaidModule) (s s' : Shared c)
      → IsByRule c into_bytes modules webhooks webhook name mode config module_
      → (p : Plan) → planned c into_bytes modules mode webhook module_ visit.now s ≡ p
      → by_rule c into_bytes modules visit webhook name mode config request s ≡ some (text, s')
      → Sends visit webhook request webhooks s s'
  unfolding by_rule
  loaded-Sends visit webhook text name request webhooks mode config module_ s s' by (give b) due e =
      let steps : by_rule c into_bytes modules visit webhook name mode config request s
          ≡ some (b, s) =
        rw (by_rule, by.loaded, due) refl in
      inl (ground (arith, steps))
  loaded-Sends visit webhook text name request webhooks mode config module_ s s' by (call u) due e =
      let steps : by_rule c into_bytes modules visit webhook name mode config request s
          ≡ run_rule c into_bytes modules visit webhook name module_ config request u s =
        rw (by_rule, by.loaded, due) refl in
      run_rule-Sends visit webhook text name request webhooks mode config module_ u s s' by due
        (sym steps ∙ e)

  by_mode-Sends :
      (visit : Visit) (webhook text : String) (request : HttpRequest)
      (webhooks : HashMap WebhookConfig) (config : WebhookConfig) (mode : CachingMode)
      (s s' : Shared c) (r : ResponseMode)
      → lookup webhook webhooks ≡ some config
      → config.get_mode ≡ some (record { caching_mode = mode; response_mode = r })
      → by_mode c into_bytes modules visit webhook
          (some (record { caching_mode = mode; response_mode = r }))
          config
          request
          s
        ≡ some (text, s')
      → Sends visit webhook request webhooks s s'
  unfolding by_mode by_rule
  by_mode-Sends visit webhook text request webhooks config mode s s' (static t) known by e =
      inl (ground arith)
  by_mode-Sends visit webhook text request webhooks config mode s s' (facebook t) known by e =
      inl (ground arith)
  by_mode-Sends visit webhook text request webhooks config mode s s' (rule name) known by e =
      elim (Option-cases (lookup name modules)) [
        | inl missing ↦ inl (ground (arith, missing))
        | inr (module_, loaded) ↦
            let is : IsByRule c into_bytes modules webhooks webhook name mode config module_ =
              record { known = known; by = by; loaded = loaded } in
            loaded-Sends visit webhook text name request webhooks mode config module_ s s' is
              (planned c into_bytes modules mode webhook module_ visit.now s) refl e
      ]

  get_mode-Sends :
      (visit : Visit) (webhook text : String) (request : HttpRequest)
      (webhooks : HashMap WebhookConfig) (config : WebhookConfig) (s s' : Shared c)
      (o : Option GetMode)
      → lookup webhook webhooks ≡ some config
      → config.get_mode ≡ o
      → by_mode c into_bytes modules visit webhook o config request s ≡ some (text, s')
      → Sends visit webhook request webhooks s s'
  unfolding by_mode
  get_mode-Sends visit webhook text request webhooks config s s' none known by e =
      inl (ground arith)
  get_mode-Sends visit webhook text request webhooks config s s' (some mode) known by e =
      by_mode-Sends visit webhook text request webhooks config mode.caching_mode s s'
        mode.response_mode known by e

  -- A GET that is answered sends at most one message to the rules, and only one for the rule that the
  -- webhook is configured for, named as its one receiver, when this is loaded, the caching mode asks for it to be run, and the
  -- whole body is within the limit of the webhook; otherwise the queue stays as it is.
  pub get_handler-Sends :
      (visit : Visit) (webhook text : String) (request : HttpRequest)
      (webhooks : HashMap WebhookConfig) (s s' : Shared c)
      → get_handler c into_bytes modules visit webhook request webhooks s ≡ some (text, s')
      → Sends visit webhook request webhooks s s'
  unfolding get_handler
  get_handler-Sends visit webhook text request webhooks s s' e =
      elim (Option-cases (lookup webhook webhooks)) [
        | inl unknown ↦ inl (ground (arith, unknown))
        | inr (config, known) ↦
            let steps : get_handler c into_bytes modules visit webhook request webhooks s
                ≡ by_mode c into_bytes modules visit webhook config.get_mode config request s =
              rw (get_handler, known) refl in
            get_mode-Sends visit webhook text request webhooks config s s' config.get_mode known
              refl (sym steps ∙ e)
      ]
