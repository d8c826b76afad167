-- ===== src/Functions/Cache.antt =====
-- The host functions of runtime/plaid/src/functions/cache.rs.
pub mod Laws
mod Tests
use plaid.Base.{ℕ, String, Option, none, some}
use plaid.Base.Int.{ℤ, pos}
use plaid.Base.Result.{Result, ok, err, or_fail, map_err, ◌>>=◌}
use plaid.Guest.{
  Bytes, error_code, cache_disabled, timeout_elapsed, could_not_get_adequate_memory,
  safely_get_string, write_or_code,
}
use plaid.Cache.{CacheError}
use plaid.Env.{Platform, Env}
use plaid.Functions.Message.{Encoding}
use plaid.Functions.Storage.{finish, memory_view, guest_string}

module _ (w : Platform) (enc : Encoding) where
  -- The last `match`, on the result of the call within five seconds.
  unfoldable pub respond :
      Env w
      → w.guest.View
      → ℕ
      → ℕ
      → Option (Result CacheError (Option String)) × w.cache.State
      → ℤ × Env w
  unfolding write_or_code error_code
  respond env view data_buffer data_buffer_len (some (ok (some value)), s) =
      let (n, view') =
        write_or_code w.guest view (enc.as_bytes value) data_buffer data_buffer_len in
      (n, record env { cache = some s; memory = some view' })
  respond env view data_buffer data_buffer_len (some (ok none), s) =
      (pos 0, record env { cache = some s })
  respond env view data_buffer data_buffer_len (some (err _), s) =
      (error_code cache_disabled, record env { cache = some s })
  respond env view data_buffer data_buffer_len (none, s) =
      (error_code timeout_elapsed, record env { cache = some s })

  unfoldable pub cache_insert : Env w → ℕ → ℕ → ℕ → ℕ → ℕ → ℕ → ℤ × Env w
  cache_insert env key_buf key_buf_len value_buf value_buf_len data_buffer data_buffer_len =
      finish w env (do
        s ← or_fail env.cache cache_disabled
        view ← memory_view w env
        key ← guest_string w view key_buf key_buf_len
        value ←
            map_err (λ _. could_not_get_adequate_memory)
              (safely_get_string w.guest view value_buf value_buf_len)
        ok (
            respond env view data_buffer data_buffer_len
              (w.cache.put env.module_.name key value s)))

  unfoldable pub cache_get : Env w → ℕ → ℕ → ℕ → ℕ → ℤ × Env w
  cache_get env key_buf key_buf_len data_buffer data_buffer_len = finish w env (do
    s ← or_fail env.cache cache_disabled
    view ← memory_view w env
    key ← guest_string w view key_buf key_buf_len
    ok (respond env view data_buffer data_buffer_len (w.cache.get env.module_.name key s)))
