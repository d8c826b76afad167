-- ===== src/Functions/Storage.antt =====
-- The host functions of runtime/plaid/src/functions/storage.rs. Each returns its code and the
-- environment that it leaves.
pub mod Common
pub mod Quota
pub mod Elsewhere
pub mod Calls
pub mod Isolation
pub mod Accounting
pub mod Rights
mod Tests
use plaid.Base.{
  ℕ, String, str_eq, Bool, true, false, Option, none, some, List, [], ◌∷◌, ◌||◌, if◌then◌else◌,
}
use plaid.Base.Int.{ℤ}
use plaid.Base.Result.{Result, ok, err, or_fail, map_err, ◌>>=◌, ◌>>◌}
use plaid.Base.Dict.{HashMap, lookup, insert}
use plaid.Guest.{
  Bytes, FunctionErrors, error_code, api_not_configured, could_not_get_adequate_memory,
  operation_not_allowed, parameters_not_utf8, shared_db_error, get_memory, safely_get_string,
  safely_get_memory, calculate_max_buffer_size,
}
use plaid.Storage.{Storage, SharedDb}
use plaid.Env.{Platform, Env, PlaidModule}
use Common.{Outcome, insert_common, get_common, list_keys_common, delete_common}

-- `Vec::contains`
unfoldable pub contains : List String → String → Bool
contains [] a = false
contains (x ∷ xs) a = str_eq x a || contains xs a

-- A rule may write to a shared namespace that lists it under `rw`.
unfoldable pub can_write : HashMap SharedDb → String → String → Bool
unfolding contains lookup
can_write dbs ns name = elim (lookup ns dbs) [ none ↦ false | some db ↦ contains db.config.rw name ]

-- It may read one that lists it under `r` or `rw`.
unfoldable pub can_read : HashMap SharedDb → String → String → Bool
unfolding contains lookup
can_read dbs ns name = elim (lookup ns dbs) [
  | none ↦ false
  | some db ↦ contains db.config.r name || contains db.config.rw name
]

-- `if !allowed { return ... }`
abbrev pub require : Bool → FunctionErrors → Result FunctionErrors (Unit {0})
require true e = ok tt
require false e = err e

module _ (w : Platform) where
  -- The macros `safely_get_guest_string!` and `safely_get_guest_memory!`.
  unfoldable pub guest_string : w.guest.View → ℕ → ℕ → Result FunctionErrors String
  unfolding safely_get_string
  guest_string view buf buf_len =
      map_err (λ _. parameters_not_utf8) (safely_get_string w.guest view buf buf_len)

  unfoldable pub guest_memory : ℕ → w.guest.View → ℕ → ℕ → Result FunctionErrors Bytes
  unfolding safely_get_memory calculate_max_buffer_size
  guest_memory page_limit view buf buf_len =
      map_err (λ _. parameters_not_utf8)
        (safely_get_memory w.guest view buf buf_len (calculate_max_buffer_size page_limit))

  abbrev pub memory_view : Env w → Result FunctionErrors w.guest.View
  memory_view env = map_err (λ _. could_not_get_adequate_memory) (get_memory w.guest env.memory)

  -- What a call returns: an early return leaves the environment as it is.
  abbrev pub finish : Env w → Result FunctionErrors (ℤ × Env w) → ℤ × Env w
  finish env (ok r) = r
  finish env (err e) = (error_code e, env)

  -- The effects of a call, written back to what the environment shares with the rest of the system.
  abbrev pub keep_own : Env w → Storage w.provider → Outcome w.provider w.guest → ℤ × Env w
  keep_own env st out = (
    out.code,
    record env {
      module_ = record env.module_ { storage_current = out.counter };
      storage = some (record st { database = out.database });
      memory = some out.view;
    },
  )

  abbrev pub keep_shared :
      Env w
      → Storage w.provider
      → HashMap SharedDb
      → String
      → SharedDb
      → Outcome w.provider w.guest
      → ℤ × Env w
  keep_shared env st dbs ns db out = (
    out.code,
    record env {
      storage = some (record st {
        database = out.database;
        shared_dbs = some (insert ns (record db { used_storage = out.counter }) dbs);
      });
      memory = some out.view;
    },
  )

  abbrev pub keep_read :
      Env w → Storage w.provider → ℤ × w.provider.State × w.guest.View → ℤ × Env w
  keep_read env st (n, s, view) =
      (n, record env { storage = some (record st { database = s }); memory = some view })

  unfoldable pub storage_insert : Env w → ℕ → ℕ → ℕ → ℕ → ℕ → ℕ → ℤ × Env w
  unfolding guest_string guest_memory get_memory error_code
  storage_insert env key_buf key_buf_len value_buf value_buf_len data_buffer data_buffer_len =
      finish env (do
        st ← or_fail env.storage api_not_configured
        view ← memory_view env
        key ← guest_string view key_buf key_buf_len
        value ← guest_memory env.module_.page_limit view value_buf value_buf_len
        ok (
            keep_own env st (
              insert_common w.provider w.guest env.module_.name key value view data_buffer
                data_buffer_len env.module_.storage_limit env.module_.storage_current st.database)))

  unfoldable pub storage_insert_shared : Env w → ℕ → ℕ → ℕ → ℕ → ℕ → ℕ → ℕ → ℕ → ℤ × Env w
  unfolding guest_string guest_memory get_memory error_code can_write lookup
  storage_insert_shared env namespace_buf namespace_buf_len key_buf key_buf_len value_buf
        value_buf_len data_buffer data_buffer_len =
      finish env (do
        st ← or_fail env.storage api_not_configured
        dbs ← or_fail st.shared_dbs operation_not_allowed
        view ← memory_view env
        ns ← guest_string view namespace_buf namespace_buf_len
        require (can_write dbs ns env.module_.name) operation_not_allowed
        key ← guest_string view key_buf key_buf_len
        value ← guest_memory env.module_.page_limit view value_buf value_buf_len
        db ← or_fail (lookup ns dbs) shared_db_error
        ok (
            keep_shared env st dbs ns db (
              insert_common w.provider w.guest ns key value view data_buffer data_buffer_len
                db.config.size_limit db.used_storage st.database)))

  unfoldable pub storage_get : Env w → ℕ → ℕ → ℕ → ℕ → ℤ × Env w
  unfolding guest_string get_memory error_code
  storage_get env key_buf key_buf_len data_buffer data_buffer_len = finish env (do
    st ← or_fail env.storage api_not_configured
    view ← memory_view env
    key ← guest_string view key_buf key_buf_len
    ok (
        keep_read env st (
          get_common w.provider w.guest env.module_.name key view data_buffer data_buffer_len
            st.database)))

  unfoldable pub storage_get_shared : Env w → ℕ → ℕ → ℕ → ℕ → ℕ → ℕ → ℤ × Env w
  unfolding guest_string get_memory error_code can_read
  storage_get_shared env namespace_buf namespace_buf_len key_buf key_buf_len data_buffer
        data_buffer_len =
      finish env (do
        st ← or_fail env.storage api_not_configured
        dbs ← or_fail st.shared_dbs operation_not_allowed
        view ← memory_view env
        ns ← guest_string view namespace_buf namespace_buf_len
        require (can_read dbs ns env.module_.name) operation_not_allowed
        key ← guest_string view key_buf key_buf_len
        ok (
            keep_read env st
              (get_common w.provider w.guest ns key view data_buffer data_buffer_len st.database)))

  unfoldable pub storage_list_keys : Env w → ℕ → ℕ → ℕ → ℕ → ℤ × Env w
  unfolding guest_string get_memory error_code
  storage_list_keys env prefix_buf prefix_buf_len data_buffer data_buffer_len = finish env (do
    st ← or_fail env.storage api_not_configured
    view ← memory_view env
    prefix ← guest_string view prefix_buf prefix_buf_len
    ok (
        keep_read env st (
          list_keys_common w.provider w.guest w.serialize_keys env.module_.name prefix view
            data_buffer data_buffer_len st.database)))

  unfoldable pub storage_list_keys_shared : Env w → ℕ → ℕ → ℕ → ℕ → ℕ → ℕ → ℤ × Env w
  unfolding guest_string get_memory error_code can_read
  storage_list_keys_shared env namespace_buf namespace_buf_len prefix_buf prefix_buf_len data_buffer
        data_buffer_len =
      finish env (do
        st ← or_fail env.storage api_not_configured
        dbs ← or_fail st.shared_dbs operation_not_allowed
        view ← memory_view env
        ns ← guest_string view namespace_buf namespace_buf_len
        require (can_read dbs ns env.module_.name) operation_not_allowed
        prefix ← guest_string view prefix_buf prefix_buf_len
        ok (
            keep_read env st (
              list_keys_common w.provider w.guest w.serialize_keys ns prefix view data_buffer
                data_buffer_len st.database)))

  unfoldable pub storage_delete : Env w → ℕ → ℕ → ℕ → ℕ → ℤ × Env w
  unfolding guest_string get_memory error_code
  storage_delete env key_buf key_buf_len data_buffer data_buffer_len = finish env (do
    st ← or_fail env.storage api_not_configured
    view ← memory_view env
    key ← guest_string view key_buf key_buf_len
    ok (
        keep_own env st (
          delete_common w.provider w.guest env.module_.name key view data_buffer data_buffer_len
            env.module_.storage_limit env.module_.storage_current st.database)))

  -- Here the key is read before the access is checked.
  unfoldable pub storage_delete_shared : Env w → ℕ → ℕ → ℕ → ℕ → ℕ → ℕ → ℤ × Env w
  unfolding guest_string get_memory error_code can_write lookup
  storage_delete_shared env namespace_buf namespace_buf_len key_buf key_buf_len data_buffer
        data_buffer_len =
      finish env (do
        st ← or_fail env.storage api_not_configured
        dbs ← or_fail st.shared_dbs operation_not_allowed
        view ← memory_view env
        ns ← guest_string view namespace_buf namespace_buf_len
        key ← guest_string view key_buf key_buf_len
        require (can_write dbs ns env.module_.name) operation_not_allowed
        db ← or_fail (lookup ns dbs) api_not_configured
        ok (
            keep_shared env st dbs ns db (
              delete_common w.provider w.guest ns key view data_buffer data_buffer_len
                db.config.size_limit db.used_storage st.database)))
