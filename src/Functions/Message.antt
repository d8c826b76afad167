-- ===== src/Functions/Message.antt =====
-- What a module asks of its message and of its own data: runtime/plaid/src/functions/message.rs,
-- runtime/plaid/src/functions/runtime_data.rs and runtime/plaid/src/functions/response.rs, with
-- `set_error_context` of runtime/plaid/src/functions/internal.rs.
use plaid.Base.{ℕ, ◌/◌, ◌%◌, ◌^◌, String, Option, none, some, [], ◌∷◌, ◌++◌, length}
use plaid.Base.Int.{ℤ, pos}
use plaid.Base.Dict.{HashMap, lookup}
use plaid.Base.Result.{ok, err, or_fail, ◌>>=◌}
use plaid.Guest.{
  Bytes, error_code, internal_api_error, get_memory, safely_get_string, write_or_code,
}
use plaid.Message.{LogSource}
use plaid.Env.{Platform, Env}
use plaid.Functions.Storage.{finish, memory_view}

-- The bytes of texts, and serde_json at sources: `to_vec`, of which `to_string` gives the text.
pub record Encoding : Type 0 where
  pub as_bytes : String → Bytes
  pub from_utf8 : Bytes → Option String
  pub source_to_vec : LogSource → Option Bytes
  pub source_from_slice : Bytes → Option LogSource

-- `u32::to_le_bytes`
unfoldable pub to_le_bytes : ℕ → Bytes
to_le_bytes n = n % 256 ∷ n / 2 ^ 8 % 256 ∷ n / 2 ^ 16 % 256 ∷ n / 2 ^ 24 % 256 ∷ []

-- `log_length`, the log and the source; the length is cast to `u32`.
unfoldable pub rule_data : Bytes → Bytes → Bytes
unfolding to_le_bytes
rule_data log source = to_le_bytes (length log % 2 ^ 32) ++ (log ++ source)

module _ (w : Platform) where
  -- Writes bytes into the buffer of the guest.
  unfoldable pub give : Env w → w.guest.View → Bytes → ℕ → ℕ → ℤ × Env w
  give env view bytes data_buffer buffer_size =
      let (n, view') = write_or_code w.guest view bytes data_buffer buffer_size in
      (n, record env { memory = some view' })

  unfoldable pub fetch_data : Env w → ℕ → ℕ → ℤ × Env w
  unfolding get_memory give error_code
  fetch_data env data_buffer buffer_size = finish w env (do
    view ← get_memory w.guest env.memory
    ok (give env view env.message.content data_buffer buffer_size))

  -- A source that cannot be serialised gives -4, the code of `internal_api_error`.
  unfoldable pub fetch_source : Encoding → Env w → ℕ → ℕ → ℤ × Env w
  unfolding get_memory give error_code
  fetch_source enc env data_buffer buffer_size = finish w env (do
    view ← get_memory w.guest env.memory
    source ← or_fail (enc.source_to_vec env.message.source) internal_api_error
    ok (give env view source data_buffer buffer_size))

  unfoldable pub fetch_data_and_source : Encoding → Env w → ℕ → ℕ → ℤ × Env w
  fetch_data_and_source enc env data_buffer buffer_size = finish w env (do
    view ← get_memory w.guest env.memory
    source ← or_fail (enc.source_to_vec env.message.source) internal_api_error
    ok (give env view (rule_data env.message.content source) data_buffer buffer_size))

  -- What the macros `generate_string_getter!` and `generate_runtime_string_getter!` share.
  unfoldable pub give_named : HashMap Bytes → Env w → ℕ → ℕ → ℕ → ℕ → ℤ × Env w
  unfolding get_memory safely_get_string give error_code lookup
  give_named fields env name_buf name_len data_buffer buffer_size = finish w env (do
    view ← get_memory w.guest env.memory
    name ← safely_get_string w.guest view name_buf name_len
    ok (elim (lookup name fields) [
      | some bytes ↦ give env view bytes data_buffer buffer_size
      | none ↦ (pos 0, env)
    ]))

  unfoldable pub get_headers : Env w → ℕ → ℕ → ℕ → ℕ → ℤ × Env w
  unfolding give_named
  get_headers env = give_named env.message.headers env

  unfoldable pub get_query_params : Env w → ℕ → ℕ → ℕ → ℕ → ℤ × Env w
  unfolding give_named
  get_query_params env = give_named env.message.query_params env

  -- A module that has no such field gets 0 before its memory is looked at.
  unfoldable pub give_if_any : Option (HashMap Bytes) → Env w → ℕ → ℕ → ℕ → ℕ → ℤ × Env w
  unfolding give_named
  give_if_any none env name_buf name_len data_buffer buffer_size = (pos 0, env)
  give_if_any (some fields) env name_buf name_len data_buffer buffer_size =
      give_named fields env name_buf name_len data_buffer buffer_size

  unfoldable pub get_secrets : Env w → ℕ → ℕ → ℕ → ℕ → ℤ × Env w
  unfolding give_if_any
  get_secrets env = give_if_any env.module_.secrets env

  unfoldable pub get_accessory_data : Env w → ℕ → ℕ → ℕ → ℕ → ℤ × Env w
  unfolding give_if_any
  get_accessory_data env = give_if_any env.module_.accessory_data env

  unfoldable pub get_response : Encoding → Env w → ℕ → ℕ → ℤ × Env w
  get_response enc env response_buffer response_buffer_size = finish w env (do
    view ← memory_view w env
    ok (elim env.response [
      | none ↦ (pos 0, env)
      | some response ↦ give env view (enc.as_bytes response) response_buffer response_buffer_size
    ]))

  -- Where the memory or the text cannot be read, nothing is set.
  unfoldable pub set_response : Env w → ℕ → ℕ → Env w
  set_response env response_buffer response_buffer_size =
      elim (get_memory w.guest env.memory >>= λ view.
      safely_get_string w.guest view response_buffer response_buffer_size) [
        | err _ ↦ env
        | ok message ↦ record env { response = some message }
      ]

  unfoldable pub set_error_context : Env w → ℕ → ℕ → Env w
  set_error_context env context_buffer context_buffer_size =
      elim (get_memory w.guest env.memory >>= λ view.
      safely_get_string w.guest view context_buffer context_buffer_size) [
        | err _ ↦ env
        | ok message ↦ record env { execution_error_context = some message }
      ]
