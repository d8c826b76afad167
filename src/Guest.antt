-- ===== src/Guest.antt =====
-- What a host function and a guest exchange: runtime/plaid/src/functions/memory.rs, and the error
-- codes of runtime/plaid/src/functions/mod.rs. The linear memory and the accesses to it are
-- wasmer's, so they are a parameter, `GuestMemory`.
pub mod Laws
mod Tests
use plaid.Base.{
  ℕ, suc, ◌-◌, ◌*◌, ◌^◌, String, Bool, true, Option, List, ltb, ◌==◌, if◌then◌else◌, length, min,
}
use plaid.Base.Int.{ℤ, negsuc, as_i32}
use plaid.Base.Result.{Result, ok, err, or_fail, ◌>>=◌}

abbrev pub Bytes : Type 0
Bytes = List ℕ

pub data FunctionErrors : Type 0 where
  api_not_configured return_buffer_too_small error_could_not_serialize : FunctionErrors
  internal_api_error parameters_not_utf8 invalid_pointer cache_disabled : FunctionErrors
  could_not_get_adequate_memory failed_to_write_guest_memory : FunctionErrors
  storage_limit_reached test_mode operation_not_allowed shared_db_error : FunctionErrors
  timeout_elapsed failed_to_log_back logback_budget_exhausted : FunctionErrors

-- `e as i32`: the discriminants -1 to -16.
unfoldable pub error_code : FunctionErrors → ℤ
error_code api_not_configured = negsuc 0
error_code return_buffer_too_small = negsuc 1
error_code error_could_not_serialize = negsuc 2
error_code internal_api_error = negsuc 3
error_code parameters_not_utf8 = negsuc 4
error_code invalid_pointer = negsuc 5
error_code cache_disabled = negsuc 6
error_code could_not_get_adequate_memory = negsuc 7
error_code failed_to_write_guest_memory = negsuc 8
error_code storage_limit_reached = negsuc 9
error_code test_mode = negsuc 10
error_code operation_not_allowed = negsuc 11
error_code shared_db_error = negsuc 12
error_code timeout_elapsed = negsuc 13
error_code failed_to_log_back = negsuc 14
error_code logback_budget_exhausted = negsuc 15

abbrev pub wasm_page_size : ℕ
wasm_page_size = 65536

abbrev pub u32_max : ℕ
u32_max = 2 ^ 32 - 1

-- `u32::saturating_mul`
unfoldable pub calculate_max_buffer_size : ℕ → ℕ
calculate_max_buffer_size page_limit = min (page_limit * wasm_page_size) u32_max

-- wasmer's view of a linear memory. `none` and `false` stand for its errors. A pointer is an offset.
pub record GuestMemory : Type 1 where
  pub View : Type 0
  -- `WasmPtr::read_utf8_string(view, len)`
  pub read_utf8_string : View → ℕ → ℕ → Option String
  -- `MemoryView::read(offset, buffer)`, with the length of the buffer
  pub read : View → ℕ → ℕ → Option Bytes
  -- whether `WasmPtr::slice(view, len)` succeeds
  pub slice : View → ℕ → ℕ → Bool
  -- `WasmSlice::write_slice(data)`
  pub write_slice : View → ℕ → Bytes → Option View

module _ (g : GuestMemory) where
  -- `get_memory`, of the field `memory` of the environment
  unfoldable pub get_memory : Option g.View → Result FunctionErrors g.View
  get_memory memory = or_fail memory internal_api_error

  unfoldable pub safely_get_string : g.View → ℕ → ℕ → Result FunctionErrors String
  safely_get_string view data_buffer buffer_size =
      or_fail (g.read_utf8_string view data_buffer buffer_size) parameters_not_utf8

  unfoldable pub safely_get_memory : g.View → ℕ → ℕ → ℕ → Result FunctionErrors Bytes
  safely_get_memory view data_buffer buffer_size max_buffer_size =
      if ltb max_buffer_size buffer_size
      then err could_not_get_adequate_memory
      else or_fail (g.read view data_buffer buffer_size) could_not_get_adequate_memory

  -- The bytes are written into the view, so the new view comes back beside the count.
  unfoldable pub safely_write_data_back :
      g.View → Bytes → ℕ → ℕ → Result FunctionErrors (ℤ × g.View)
  safely_write_data_back view bytes data_buffer buffer_size =
      if buffer_size == 0
      then ok (as_i32 (length bytes), view)
      else if ltb buffer_size (length bytes)
      then err return_buffer_too_small
      else if g.slice view data_buffer (length bytes)
      then (do
        view' ← or_fail (g.write_slice view data_buffer bytes) failed_to_write_guest_memory
        ok (as_i32 (length bytes), view'))
      else err could_not_get_adequate_memory

  -- How the host functions end: `match safely_write_data_back(...) { Ok(x) => x, Err(e) => e as i32 }`.
  unfoldable pub write_or_code : g.View → Bytes → ℕ → ℕ → ℤ × g.View
  unfolding safely_write_data_back error_code
  write_or_code view bytes data_buffer buffer_size =
      elim (safely_write_data_back view bytes data_buffer buffer_size) [
        | ok r ↦ r
        | err e ↦ (error_code e, view)
      ]
