-- ===== src/Functions/Logback.antt =====
-- Logbacks: `log_back_detailed` and `dispatch_logback` of
-- runtime/plaid/src/functions/internal.rs. A `u32` is a number; the subtractions are guarded, as in
-- the source.
pub mod Budget
pub mod Dispatch
pub mod Charge
mod Tests
use plaid.Base.{
  ℕ, ◌-◌, String, Bool, true, false, Option, none, some, ltb, ◌==◌, if◌then◌else◌, max,
}
use plaid.Base.Int.{ℤ, pos}
use plaid.Base.Result.{Result, ok, err, map_err, ◌>>=◌}
use plaid.Guest.{
  Bytes, FunctionErrors, error_code, internal_api_error, failed_to_log_back,
  logback_budget_exhausted, get_memory, safely_get_string, safely_get_memory,
  calculate_max_buffer_size,
}
use plaid.Message.{Message, DelayedMessage, LogbacksAllowed, unlimited, limited, logback, new}
use plaid.Env.{Platform, Env}

-- The first `match`: the budget that the new message gets, and what is left of the own one. An
-- error leaves the budget as it is.
unfoldable pub assign_budget :
    LogbacksAllowed → LogbacksAllowed → Result FunctionErrors (LogbacksAllowed × LogbacksAllowed)
assign_budget unlimited requested = ok (requested, unlimited)
assign_budget (limited x) (limited asked) =
    if x == 0
    then err logback_budget_exhausted
    else if ltb (x - 1) asked
    then err logback_budget_exhausted
    else ok (limited asked, limited (x - asked - 1))
assign_budget (limited x) unlimited = err logback_budget_exhausted

module _ (w : Platform) where
  abbrev pub with_budget : LogbacksAllowed → Env w → Env w
  with_budget left env = record env { message = record env.message { logbacks_allowed = left } }

  -- The state of the two senders after a dispatch, beside its result.
  unfoldable pub send_delayed : Env w → ℕ → Message → Result FunctionErrors (Unit {0}) × Env w
  send_delayed env delay msg =
      elim (w.delayed.try_send (record { delay = max delay 1; message = msg })
        env.delayed_log_sender) [
          | ok s ↦ (ok tt, record env { delayed_log_sender = s })
          | err _ ↦ (err failed_to_log_back, env)
        ]

  unfoldable pub send_immediate :
      Env w → w.messages.State → Message → Result FunctionErrors (Unit {0}) × Env w
  send_immediate env sender msg = elim (w.messages.try_send msg sender) [
    | ok s ↦ (ok tt, record env { immediate_sender = some s })
    | err _ ↦ (err failed_to_log_back, env)
  ]

  -- The happy path wants no shutdown, no delay and an immediate sender; all else is delayed, by a
  -- second at least.
  unfoldable pub dispatch_logback : Env w → ℕ → Message → Result FunctionErrors (Unit {0}) × Env w
  unfolding send_delayed send_immediate
  dispatch_logback env delay msg = elim env.immediate_sender [
    | none ↦ send_delayed env delay msg
    | some sender ↦
        if env.cancelled
        then send_delayed env delay msg
        else if delay == 0
        then send_immediate env sender msg
        else send_delayed env delay msg
  ]

  -- `match dispatch_logback(...) { Ok(()) => 0, Err(e) => e as i32 }`
  abbrev pub dispatched : Result FunctionErrors (Unit {0}) × Env w → ℤ × Env w
  dispatched (ok _, env) = (pos 0, env)
  dispatched (err e, env) = (error_code e, env)

  abbrev pub finish : Env w → Result FunctionErrors (ℤ × Env w) → ℤ × Env w
  finish env (ok r) = r
  finish env (err e) = (error_code e, env)

  -- The part past the budget: every failure to read the arguments is `InternalApiError`.
  unfoldable pub send_logback : Env w → String → LogbacksAllowed → ℕ → ℕ → ℕ → ℕ → ℕ → ℤ × Env w
  unfolding get_memory safely_get_string safely_get_memory calculate_max_buffer_size
      dispatch_logback error_code new
  send_logback env id budget type_buf type_buf_len log_buf log_buf_len delay = finish env (do
    view ← map_err (λ _. internal_api_error) (get_memory w.guest env.memory)
    type_ ← map_err (λ _. internal_api_error) (safely_get_string w.guest view type_buf type_buf_len)
    log ←
        map_err (λ _. internal_api_error)
          (safely_get_memory w.guest view log_buf log_buf_len
            (calculate_max_buffer_size env.module_.page_limit))
    ok (
        dispatched
          (dispatch_logback env delay (new id type_ log (logback env.module_.name) budget))))

  -- `id` is the UUID of the new message. The budget is taken first, and not given back.
  unfoldable pub log_back_detailed :
      Env w → String → ℕ → ℕ → ℕ → ℕ → ℕ → LogbacksAllowed → ℤ × Env w
  unfolding assign_budget send_logback error_code
  log_back_detailed env id type_buf type_buf_len log_buf log_buf_len delay requested =
      elim (assign_budget env.message.logbacks_allowed requested) [
        | err e ↦ (error_code e, env)
        | ok r ↦
            send_logback (with_budget r.1 env) id r.0 type_buf type_buf_len log_buf log_buf_len
              delay
      ]

  unfoldable pub log_back : Env w → String → ℕ → ℕ → ℕ → ℕ → ℕ → ℕ → ℤ × Env w
  unfolding log_back_detailed
  log_back env id type_buf type_buf_len log_buf log_buf_len delay requested =
      log_back_detailed env id type_buf type_buf_len log_buf log_buf_len delay (limited requested)

  unfoldable pub log_back_unlimited : Env w → String → ℕ → ℕ → ℕ → ℕ → ℕ → ℤ × Env w
  unfolding log_back_detailed
  log_back_unlimited env id type_buf type_buf_len log_buf log_buf_len delay =
      log_back_detailed env id type_buf type_buf_len log_buf log_buf_len delay unlimited
