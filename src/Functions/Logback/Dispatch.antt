-- ===== src/Functions/Logback/Dispatch.antt =====
-- Where a logback goes, and what is left alone where it fails.
use plaid.Base.{
  ℕ, ◌≡◌, refl, Option, none, some, List, [], ◌∷◌, ◌++◌, true, false, arith, max, ◌⊎◌, ◌≢◌, inl,
  inr, Option-cases,
}
use plaid.Base.Result.{Result, ok, err, Result-cases}
use plaid.Guest.{FunctionErrors, failed_to_log_back}
use plaid.Message.{Message, DelayedMessage}
use plaid.Channel.{IsQueue}
use plaid.Env.{Platform, Env}
use plaid.Functions.Logback.{dispatch_logback, send_delayed, send_immediate}

module _ (w : Platform) {immediate : w.messages.State → List Message}
    {later : w.delayed.State → List DelayedMessage} (immediate_queue : IsQueue w.messages immediate)
    (later_queue : IsQueue w.delayed later) where
  -- What waits in the immediate channel, as the environment sees it.
  abbrev pub waiting : Option w.messages.State → List Message
  waiting none = []
  waiting (some s) = immediate s

  abbrev pub Failed : Env w → Result FunctionErrors (Unit {0}) × Env w → Type 0
  Failed env (r, env') = (r ≡ err failed_to_log_back) × (env' ≡ env)

  -- The message stands last in the delayed channel.
  abbrev pub SentLater : Env w → ℕ → Message → Result FunctionErrors (Unit {0}) × Env w → Type 0
  SentLater env delay msg (r, env') =
      (r ≡ ok tt)
      × (later env'.delayed_log_sender
          ≡ later env.delayed_log_sender ++ record { delay = max delay 1; message = msg } ∷ [])
      × (env'.immediate_sender ≡ env.immediate_sender)

  -- The message stands last in the immediate channel.
  abbrev pub SentNow : Env w → Message → Result FunctionErrors (Unit {0}) × Env w → Type 0
  SentNow env msg (r, env') =
      (r ≡ ok tt)
      × (waiting env'.immediate_sender ≡ waiting env.immediate_sender ++ msg ∷ [])
      × (env'.delayed_log_sender ≡ env.delayed_log_sender)

  send_delayed_lem :
      (env : Env w) (delay : ℕ) (msg : Message)
      → Failed env (send_delayed w env delay msg)
        ⊎ SentLater env delay msg (send_delayed w env delay msg)
  unfolding send_delayed
  send_delayed_lem env delay msg =
      let d : DelayedMessage = record { delay = max delay 1; message = msg } in
      elim (Result-cases (w.delayed.try_send d env.delayed_log_sender)) [
        | inl (s, e) ↦
            rw (e, send_delayed)
              (inr (refl, later_queue.try_send_ok d env.delayed_log_sender s e, refl))
        | inr (x, e) ↦ rw (e, send_delayed) (inl (refl, refl))
      ]

  send_immediate_lem :
      (env : Env w) (sender : w.messages.State) (msg : Message)
      → env.immediate_sender ≡ some sender
      → Failed env (send_immediate w env sender msg)
        ⊎ SentNow env msg (send_immediate w env sender msg)
  unfolding send_immediate
  send_immediate_lem env sender msg has = elim (Result-cases (w.messages.try_send msg sender)) [
    | inl (s, e) ↦
        rw (e, send_immediate)
          (inr (refl, rw has (immediate_queue.try_send_ok msg sender s e), refl))
    | inr (x, e) ↦ rw (e, send_immediate) (inl (refl, refl))
  ]

  -- A dispatch that fails changes nothing. One that succeeds puts the message last in one of the two
  -- channels and leaves the other alone: in the immediate one only outside a shutdown and for a delay
  -- of 0, and otherwise in the delayed one, with a delay of one second at least.
  pub dispatch_logback_lem :
      (env : Env w) (delay : ℕ) (msg : Message)
      → let out = dispatch_logback w env delay msg in
        Failed env out
        ⊎ (SentNow env msg out × (env.cancelled ≡ false) × (delay ≡ 0))
        ⊎ (SentLater env delay msg out
            × ((env.cancelled ≡ true) ⊎ (delay ≢ 0) ⊎ (env.immediate_sender ≡ none)))
  unfolding dispatch_logback
  dispatch_logback_lem env delay msg = elim (Option-cases env.immediate_sender) [
    | inl off ↦ ground (arith, send_delayed_lem env delay msg)
    | inr (sender, on) ↦
        ground (arith, send_delayed_lem env delay msg, send_immediate_lem env sender msg on)
  ]
