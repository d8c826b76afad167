-- ===== src/Functions/Logback/Tests.antt =====
-- The theorems on logbacks, at a small guest.
use plaid.Base.{
  ℕ, ◌+◌, ◌*◌, ◌-◌, ◌≤◌, ◌<◌, ◌≡◌, ◌⊎◌, ◌≢◌, refl, true, false, none, List, [], ◌∷◌, arith,
}
use plaid.Guest.{error_code, logback_budget_exhausted}
use plaid.Message.{Message, DelayedMessage, unlimited, limited}
use plaid.Env.{Env}
use plaid.Storage.InMemory.{empty}
use plaid.Samples.{platform, env_of, message_of, unbounded_queue}
use plaid.Functions.Logback.{assign_budget, dispatch_logback, log_back_detailed}
use plaid.Functions.Logback.Budget.{
  Holder, waiting, working, copies, Step, deliver, send, Run, here, next, most, Run-bound,
}
use plaid.Functions.Logback.Dispatch.{Failed, SentNow, SentLater, dispatch_logback_lem}
use plaid.Functions.Logback.Charge.{log_back_detailed-charge}

abbrev env : Env platform
env = env_of 0 empty (limited 5)

-- The text "log" stands nowhere in the memory, so the logback fails, and is charged.
log_back_test :
    (log_back_detailed platform env "new" 2 3 5 3 0 (limited 1)).1.message.logbacks_allowed
    ≡ limited 3
unfolding log_back_detailed
log_back_test = refl

-- A message with a budget of 1 that is for two rules: each of them sends a logback.
abbrev both_sent : List Holder
both_sent =
    working (limited 0) ∷ waiting (limited 0) ∷ working (limited 0) ∷ waiting (limited 0) ∷ []

two-Run : Run 2 (waiting (limited 1) ∷ []) 2 both_sent
unfolding assign_budget
two-Run =
    let delivered : Step 2 (waiting (limited 1) ∷ []) (copies 2 (limited 1)) 0 =
      deliver [] [] (limited 1) 2 (omega arith) refl refl in
    let one : Step 2 (copies 2 (limited 1))
        (working (limited 0) ∷ waiting (limited 0) ∷ working (limited 1) ∷ []) 1 =
      send [] (working (limited 1) ∷ []) (limited 1) (limited 0) (limited 0) (limited 0) refl refl
        refl in
    let two : Step 2 (working (limited 0) ∷ waiting (limited 0) ∷ working (limited 1) ∷ [])
        both_sent 1 =
      send (working (limited 0) ∷ waiting (limited 0) ∷ []) [] (limited 1) (limited 0) (limited 0)
        (limited 0) refl refl refl in
    next (next (next here delivered) one) two

Run-bound_example : (2 ≤ 2 * most 2 1) × (most 1 1 ≡ 1)
Run-bound_example = Run-bound 2 1 2 both_sent (omega arith) two-Run

log_back_detailed-charge_example :
    (5 < 1 + 1
      → log_back_detailed platform env "new" 2 3 5 3 0 (limited 1)
        ≡ (error_code logback_budget_exhausted, env))
    × (1 + 1 ≤ 5
        → (log_back_detailed platform env "new" 2 3 5 3 0 (limited 1)).1.message.logbacks_allowed
          ≡ limited (5 - 1 - 1))
    × (log_back_detailed platform env "new" 2 3 5 3 0 unlimited
        ≡ (error_code logback_budget_exhausted, env))
log_back_detailed-charge_example = log_back_detailed-charge platform env "new" 2 3 5 3 0 5 1 refl

abbrev now : ℕ
now = 0

dispatch_logback_lem_example :
    let msg = message_of unlimited in
    let out = dispatch_logback platform env 0 msg in
    Failed platform (unbounded_queue Message) (unbounded_queue DelayedMessage) env out
    ⊎ (SentNow platform (unbounded_queue Message) (unbounded_queue DelayedMessage) env msg out
        × (false ≡ false)
        × (now ≡ 0))
    ⊎ (SentLater platform (unbounded_queue Message) (unbounded_queue DelayedMessage) env 0 msg out
        × ((false ≡ true) ⊎ (now ≢ 0) ⊎ (env.immediate_sender ≡ none)))
dispatch_logback_lem_example =
    dispatch_logback_lem platform (unbounded_queue Message) (unbounded_queue DelayedMessage) env 0
      (message_of unlimited)
