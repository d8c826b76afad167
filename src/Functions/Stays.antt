-- ===== src/Functions/Stays.antt =====
-- Host calls that change neither the storage nor the module: logbacks, the cache, responses and error
-- contexts.
use plaid.Base.{inl, inr, ℕ, ◌≡◌, refl, String, Option, none, some, arith}
use plaid.Base.Result.{Result, ok, err, map_err, or_fail, Result-cases}
use plaid.Guest.{
  internal_api_error, get_memory, safely_get_string, safely_get_memory, calculate_max_buffer_size,
  cache_disabled, could_not_get_adequate_memory,
}
use plaid.Cache.{CacheError}
use plaid.Message.{Message, LogbacksAllowed, logback, new}
use plaid.Env.{Platform, Env}
use plaid.Functions.Logback.{
  log_back_detailed, send_logback, dispatch_logback, send_delayed, send_immediate, assign_budget,
  dispatched, with_budget,
}
use plaid.Functions.Logback.Charge.{finish_bind}
use plaid.Functions.Storage.{memory_view, guest_string}
use plaid.Functions.Message.{Encoding, set_response, set_error_context}
use plaid.Functions.Cache.{respond, cache_insert, cache_get}

module _ (w : Platform) where
  abbrev pub Stays : Env w → Env w → Type 0
  Stays env after = (after.storage ≡ env.storage) × (after.module_ ≡ env.module_)

  dispatch_logback-Stays :
      (env : Env w) (delay : ℕ) (msg : Message)
      → Stays env (dispatched w (dispatch_logback w env delay msg)).1
  unfolding dispatch_logback send_delayed send_immediate
  dispatch_logback-Stays env delay msg = ground arith

  send_logback-Stays :
      (env : Env w) (id : String) (budget : LogbacksAllowed) (a b c d delay : ℕ)
      → Stays env (send_logback w env id budget a b c d delay).1
  unfolding send_logback new
  send_logback-Stays env id budget a b c d delay =
      let P : Env w → Type 0 = Stays env in
      finish_bind w P env (map_err (λ _. internal_api_error) (get_memory w.guest env.memory)) _
        (refl, refl)
        λ view.
          finish_bind w P env
            (map_err (λ _. internal_api_error) (safely_get_string w.guest view a b)) _ (refl, refl)
            λ type_.
              finish_bind w P env
                (map_err (λ _. internal_api_error)
                  (safely_get_memory w.guest view c d
                    (calculate_max_buffer_size env.module_.page_limit)))
                _ (refl, refl)
                λ log.
                  dispatch_logback-Stays env delay
                    (new id type_ log (logback env.module_.name) budget)

  pub log_back-Stays :
      (env : Env w) (id : String) (a b c d delay : ℕ) (asked : LogbacksAllowed)
      → Stays env (log_back_detailed w env id a b c d delay asked).1
  unfolding log_back_detailed
  log_back-Stays env id a b c d delay asked =
      elim (Result-cases (assign_budget env.message.logbacks_allowed asked)) [
        | inr (x, refused) ↦ rw (refused, log_back_detailed) (refl, refl)
        | inl (r, granted) ↦
            rw (granted, log_back_detailed)
              (send_logback-Stays (with_budget w r.1 env) id r.0 a b c d delay)
      ]

  set_response-Stays : (env : Env w) (buf size : ℕ) → Stays env (set_response w env buf size)
  unfolding set_response
  set_response-Stays env buf size = ground arith

  set_error_context-Stays :
      (env : Env w) (buf size : ℕ) → Stays env (set_error_context w env buf size)
  unfolding set_error_context
  set_error_context-Stays env buf size = ground arith

  module _ (enc : Encoding) where
    respond-Stays :
        (env : Env w) (view : w.guest.View) (buf size : ℕ)
        (r : Option (Result CacheError (Option String)) × w.cache.State)
        → Stays env (respond w enc env view buf size r).1
    unfolding respond
    respond-Stays env view buf size (some (ok (some value)), s) = (refl, refl)
    respond-Stays env view buf size (some (ok none), s) = (refl, refl)
    respond-Stays env view buf size (some (err _), s) = (refl, refl)
    respond-Stays env view buf size (none, s) = (refl, refl)

    cache_insert-Stays :
        (env : Env w) (kb kl vb vl buf size : ℕ)
        → Stays env (cache_insert w enc env kb kl vb vl buf size).1
    unfolding cache_insert
    cache_insert-Stays env kb kl vb vl buf size =
        let P : Env w → Type 0 = Stays env in
        finish_bind w P env (or_fail env.cache cache_disabled) _ (refl, refl)
          λ s.
            finish_bind w P env (memory_view w env) _ (refl, refl)
              λ view.
                finish_bind w P env (guest_string w view kb kl) _ (refl, refl)
                  λ key.
                    finish_bind w P env
                      (map_err (λ _. could_not_get_adequate_memory)
                        (safely_get_string w.guest view vb vl))
                      _ (refl, refl)
                      λ value.
                        respond-Stays env view buf size (w.cache.put env.module_.name key value s)

    cache_get-Stays :
        (env : Env w) (kb kl buf size : ℕ) → Stays env (cache_get w enc env kb kl buf size).1
    unfolding cache_get
    cache_get-Stays env kb kl buf size =
        let P : Env w → Type 0 = Stays env in
        finish_bind w P env (or_fail env.cache cache_disabled) _ (refl, refl)
          λ s.
            finish_bind w P env (memory_view w env) _ (refl, refl)
              λ view.
                finish_bind w P env (guest_string w view kb kl) _ (refl, refl)
                  λ key. respond-Stays env view buf size (w.cache.get env.module_.name key s)

    -- The calls besides those of the storage and the logbacks.
    pub data OtherCall : Type 0 where
      caching : ℕ → ℕ → ℕ → ℕ → ℕ → ℕ → OtherCall
      reading_cache : ℕ → ℕ → ℕ → ℕ → OtherCall
      responding explaining : ℕ → ℕ → OtherCall

    pub answered : Env w → OtherCall → Env w
    answered env (caching kb kl vb vl buf size) = (cache_insert w enc env kb kl vb vl buf size).1
    answered env (reading_cache kb kl buf size) = (cache_get w enc env kb kl buf size).1
    answered env (responding buf size) = set_response w env buf size
    answered env (explaining buf size) = set_error_context w env buf size

    pub answered-Stays : (env : Env w) (call : OtherCall) → Stays env (answered env call)
    unfolding answered
    answered-Stays env (caching kb kl vb vl buf size) = cache_insert-Stays env kb kl vb vl buf size
    answered-Stays env (reading_cache kb kl buf size) = cache_get-Stays env kb kl buf size
    answered-Stays env (responding buf size) = set_response-Stays env buf size
    answered-Stays env (explaining buf size) = set_error_context-Stays env buf size
