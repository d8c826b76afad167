-- ===== src/Functions/Logback/Charge.antt =====
-- When `log_back_detailed` takes the budget of a message, and how much.
use plaid.Base.{ap, ◌∙◌, ℕ, ◌+◌, ◌-◌, ◌≤◌, ◌<◌, ◌≡◌, refl, String, arith}
use plaid.Base.Result.{Result, ok, err, ◌>>=◌, map_err}
use plaid.Base.Int.{ℤ}
use plaid.Guest.{
  FunctionErrors, internal_api_error, get_memory, safely_get_string, safely_get_memory,
  calculate_max_buffer_size, error_code, logback_budget_exhausted,
}
use plaid.Message.{Message, LogbacksAllowed, unlimited, limited, logback, new}
use plaid.Env.{Platform, Env}
use plaid.Functions.Logback.{
  finish, dispatched, with_budget, assign_budget, dispatch_logback, send_delayed, send_immediate,
  send_logback, log_back_detailed,
}

module _ (w : Platform) where
  dispatch_logback-message :
      (env : Env w) (delay : ℕ) (msg : Message)
      → (dispatch_logback w env delay msg).1.message ≡ env.message
  unfolding dispatch_logback send_delayed send_immediate
  dispatch_logback-message env delay msg = ground arith

  -- What holds of the environment before the arguments are read, and after the rest, holds after
  -- both.
  pub finish_bind :
      {A : Type 0} (P : Env w → Type 0) (env : Env w) (m : Result FunctionErrors A)
      (f : A → Result FunctionErrors (ℤ × Env w))
      → P env
      → ((a : A) → P (finish w env (f a)).1)
      → P (finish w env (m >>= f)).1
  finish_bind P env (ok a) f h k = k a
  finish_bind P env (err e) f h k = h

  pub dispatched-message : (r : Result FunctionErrors (Unit {0}) × Env w) → (dispatched w r).1 ≡ r.1
  dispatched-message (ok _, env) = refl
  dispatched-message (err e, env) = refl

  send_logback-message :
      (env : Env w) (id : String) (b : LogbacksAllowed) (c d e f delay : ℕ)
      → (send_logback w env id b c d e f delay).1.message ≡ env.message
  unfolding send_logback new
  send_logback-message env id b c d e f delay =
      let P : Env w → Type 0 = λ after. after.message ≡ env.message in
      finish_bind P env (map_err (λ _. internal_api_error) (get_memory w.guest env.memory)) _ refl
        λ view.
          finish_bind P env (map_err (λ _. internal_api_error) (safely_get_string w.guest view c d))
            _ refl
            λ type_.
              finish_bind P env
                (map_err (λ _. internal_api_error)
                  (safely_get_memory w.guest view e f
                    (calculate_max_buffer_size env.module_.page_limit)))
                _ refl
                λ log.
                  let msg = new id type_ log (logback env.module_.name) b in
                  ap Env.message (dispatched-message (dispatch_logback w env delay msg))
                  ∙ dispatch_logback-message env delay msg

  -- A message with a limited budget of `x`: a logback that asks for `asked` is refused, and changes
  -- nothing, where `asked + 1` is more than `x`; otherwise `asked + 1` is taken off the budget,
  -- whether or not the logback is then sent. One that asks for an unlimited budget is refused.
  pub log_back_detailed-charge :
      (env : Env w) (id : String) (c d e f delay x asked : ℕ)
      → env.message.logbacks_allowed ≡ limited x
      → (x < asked + 1
          → log_back_detailed w env id c d e f delay (limited asked)
            ≡ (error_code logback_budget_exhausted, env))
        × (asked + 1 ≤ x
            → (log_back_detailed w env id c d e f delay (limited asked)).1.message.logbacks_allowed
              ≡ limited (x - asked - 1))
        × (log_back_detailed w env id c d e f delay unlimited
            ≡ (error_code logback_budget_exhausted, env))
  unfolding log_back_detailed assign_budget
  log_back_detailed-charge env id c d e f delay x asked h = ground (
    arith,
    send_logback-message (with_budget w (limited (x - asked - 1)) env) id (limited asked) c d e f
        delay,
  )
