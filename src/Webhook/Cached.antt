-- ===== src/Webhook/Cached.antt =====
-- When a GET request runs a rule, and when it is answered from the cache.
use plaid.Base.{
  ℕ, ◌+◌, ◌≤◌, ◌<◌, ◌≡◌, inl, inr, refl, ap, ◌∙◌, String, Bool, true, false, Option, some, arith,
  Bool-cases, eq_iff, str_eq, ltb, lt→ltb, ltb→lt, if◌then◌else◌,
}
use plaid.Base.Words.{u64_mod, add_u64_of_lt}
use plaid.Base.Result.{ok}
use plaid.Base.Dict.{HashMap, lookup, insert, lookup-insert}
use plaid.Guest.{Bytes}
use plaid.Env.{PlaidModule}
use plaid.Message.{Message}
use plaid.Channel.{Channel}
use plaid.Webhook.{CachingMode, timed, rule, WebhookConfig, HttpRequest, read_body_with_limit}
use plaid.Executor.Response.{get_persistent_response_data}
use plaid.Webhook.Get.{
  Plan, give, call, plan, response, Visit, Shared, get_message, reply, after_send, run_rule,
  by_rule, by_mode, get_handler,
}

same_key : {A : Type 0} (k : String) (x y : A) → (if str_eq k k then x else y) ≡ x
same_key k x y = ground (arith, eq_iff k k)

module _ (c : Channel Message) (into_bytes : String → Bytes) (modules : HashMap PlaidModule) where
  -- A webhook whose GET requests are answered by a loaded rule.
  pub record IsByRule (webhooks : HashMap WebhookConfig) (webhook name : String)
      (mode : CachingMode) (config : WebhookConfig) (module_ : PlaidModule) : Type 0 where
    pub known : lookup webhook webhooks ≡ some config
    pub by : config.get_mode ≡ some (record { caching_mode = mode; response_mode = rule name })
    pub loaded : lookup name modules ≡ some module_

  abbrev pub planned : CachingMode → String → PlaidModule → ℕ → Shared c → Plan
  planned mode webhook module_ now s =
      plan mode (lookup webhook s.get_cache)
        (get_persistent_response_data module_.persistent_response) now

  gives :
      (visit : Visit) (webhook name body : String) (request : HttpRequest)
      (webhooks : HashMap WebhookConfig) (mode : CachingMode) (config : WebhookConfig)
      (module_ : PlaidModule) (s : Shared c)
      → IsByRule webhooks webhook name mode config module_
      → planned mode webhook module_ visit.now s ≡ give body
      → get_handler c into_bytes modules visit webhook request webhooks s ≡ some (body, s)
  unfolding get_handler by_mode by_rule
  gives visit webhook name body request webhooks mode config module_ s r p =
      simp (get_handler, by_mode, by_rule, r.known, r.by, r.loaded, p)

  calls :
      (visit : Visit) (webhook name : String) (request : HttpRequest)
      (webhooks : HashMap WebhookConfig) (mode : CachingMode) (config : WebhookConfig)
      (module_ : PlaidModule) (update : Bool) (s : Shared c)
      → IsByRule webhooks webhook name mode config module_
      → planned mode webhook module_ visit.now s ≡ call update
      → get_handler c into_bytes modules visit webhook request webhooks s
        ≡ run_rule c into_bytes modules visit webhook name module_ config request update s
  unfolding get_handler by_mode by_rule
  calls visit webhook name request webhooks mode config module_ update s r p =
      simp (get_handler, by_mode, by_rule, r.known, r.by, r.loaded, p)

  plan-valid :
      (validity at now : ℕ) (body : String) (cached : Option (ℕ × String))
      (persistent : Option String)
      → cached ≡ some (at, body)
      → at + validity < u64_mod
      → now < at + validity
      → plan (timed validity) cached persistent now ≡ give body
  unfolding plan
  plan-valid validity at now body cached persistent e fits early =
      let sum = add_u64_of_lt at validity fits in
      rw (e, plan, sum, lt→ltb now (at + validity) early) refl

  plan-expired :
      (validity at now : ℕ) (body : String) (cached : Option (ℕ × String))
      (persistent : Option String)
      → cached ≡ some (at, body)
      → at + validity < u64_mod
      → at + validity ≤ now
      → plan (timed validity) cached persistent now ≡ call true
  unfolding plan
  plan-expired validity at now body cached persistent e fits late =
      let sum = add_u64_of_lt at validity fits in
      let not_early : ltb now (at + validity) ≡ false = ground arith in
      rw (e, plan, sum, not_early) refl

  -- A run whose rule responds.
  pub responds :
      (visit : Visit) (webhook name body : String) (request : HttpRequest) (config : WebhookConfig)
      (module_ : PlaidModule) (content : Bytes) (s : Shared c) (after : c.State)
      → visit.answer ≡ response body
      → read_body_with_limit request.chunks config.max_body_size ≡ some content
      → c.try_send
          (get_message into_bytes visit.id visit.sender webhook name module_ config request content)
          s.log_sender
        ≡ ok after
      → run_rule c into_bytes modules visit webhook name module_ config request true s
        ≡ some (
          body,
          record { get_cache = insert webhook (visit.later, body) s.get_cache; log_sender = after },
        )
  unfolding run_rule after_send reply
  responds visit webhook name body request config module_ content s after a r q =
      simp (run_rule, after_send, reply, r, q, a)

  -- A response that a rule gives to a GET whose answers are kept for a time is returned, and the next
  -- GET to the same webhook that meets the cache as the first left it is answered by the same
  -- text, with nothing sent to the rules, exactly until the time has passed; from then on the rule is
  -- run again. The message for the rule is accepted, and the end of the time fits 64 bits.
  pub get_handler-cached :
      (visit visit' : Visit) (webhook name body : String) (request request' : HttpRequest)
      (webhooks : HashMap WebhookConfig) (validity : ℕ) (config : WebhookConfig)
      (module_ : PlaidModule) (content : Bytes) (s s' : Shared c) (after : c.State)
      → IsByRule webhooks webhook name (timed validity) config module_
      → planned (timed validity) webhook module_ visit.now s ≡ call true
      → visit.answer ≡ response body
      → read_body_with_limit request.chunks config.max_body_size ≡ some content
      → c.try_send
          (get_message into_bytes visit.id visit.sender webhook name module_ config request content)
          s.log_sender
        ≡ ok after
      → visit.later + validity < u64_mod
      → s'.get_cache ≡ insert webhook (visit.later, body) s.get_cache
      → (get_handler c into_bytes modules visit webhook request webhooks s
          ≡ some (
            body,
            record {
              get_cache = insert webhook (visit.later, body) s.get_cache;
              log_sender = after;
            },
          ))
        × (get_handler c into_bytes modules visit' webhook request' webhooks s' ≡ (
            if ltb visit'.now (visit.later + validity)
            then some (body, s')
            else run_rule c into_bytes modules visit' webhook name module_ config request' true s'))
  get_handler-cached visit visit' webhook name body request request' webhooks validity config
        module_ content s s' after r p a read sent fits left =
      (
        calls visit webhook name request webhooks (timed validity) config module_ true s r p
            ∙ responds visit webhook name body request config module_ content s after a read sent,
        next,
      )
    where
      kept : lookup webhook s'.get_cache ≡ some (visit.later, body)
      kept =
          ap (lookup webhook) left
          ∙ lookup-insert webhook webhook (visit.later, body) s.get_cache
          ∙ same_key webhook (some (visit.later, body)) (lookup webhook s.get_cache)

      persistent : Option String
      persistent = get_persistent_response_data module_.persistent_response

      next : get_handler c into_bytes modules visit' webhook request' webhooks s' ≡ (
          if ltb visit'.now (visit.later + validity)
          then some (body, s')
          else run_rule c into_bytes modules visit' webhook name module_ config request' true s')
      next = elim (Bool-cases (ltb visit'.now (visit.later + validity))) [
        | inl early ↦
            gives visit' webhook name body request' webhooks (timed validity) config module_ s' r (
              plan-valid validity visit.later visit'.now body (lookup webhook s'.get_cache)
                persistent kept fits (ltb→lt visit'.now (visit.later + validity) early))
            ∙ rw early refl
        | inr late ↦
            calls visit' webhook name request' webhooks (timed validity) config module_ true s' r (
              plan-expired validity visit.later visit'.now body (lookup webhook s'.get_cache)
                persistent kept fits (ground arith))
            ∙ rw late refl
      ]
