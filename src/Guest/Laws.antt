-- ===== src/Guest/Laws.antt =====
-- The buffers of runtime/plaid/src/functions/memory.rs.
use plaid.Base.{ℕ, ◌≤◌, ◌<◌, ◌≡◌, ◌⊎◌, some, true, arith, length}
use plaid.Base.Int.{ℤ, pos, as_i32, i32_half, as_i32_of_lt}
use plaid.Base.Result.{ok}
use plaid.Guest.{
  Bytes, GuestMemory, FunctionErrors, error_code, safely_write_data_back, write_or_code,
}

-- Distinct errors have distinct codes.
pub error_code-injective : (d e : FunctionErrors) → error_code d ≡ error_code e → d ≡ e
unfolding error_code
error_code-injective d e h = ground arith

module _ (g : GuestMemory) where
  -- A write that succeeds returns the length of the data, cast to `i32`. Either the buffer size was
  -- 0 and the memory is as before, or the data fits the buffer and the memory is what wasmer's
  -- `write_slice` made of it.
  pub safely_write_data_back_ok :
      (view : g.View) (bytes : Bytes) (buf size : ℕ) (n : ℤ) (view' : g.View)
      → safely_write_data_back g view bytes buf size ≡ ok (n, view')
      → (n ≡ as_i32 (length bytes))
        × (((size ≡ 0) × (view' ≡ view))
            ⊎ ((length bytes ≤ size) × (g.write_slice view buf bytes ≡ some view')))
  unfolding safely_write_data_back
  safely_write_data_back_ok view bytes buf size n view' h = ground arith

  -- A call with size 0 returns the length and writes nothing.
  pub write_or_code-zero :
      (view : g.View) (bytes : Bytes) (buf : ℕ)
      → length bytes < i32_half
      → write_or_code g view bytes buf 0 ≡ (pos (length bytes), view)
  unfolding write_or_code
  write_or_code-zero view bytes buf h = ground (arith, as_i32_of_lt (length bytes) h)

  -- The protocol of the guests: a call with size 0 returns the length of the data and writes
  -- nothing; a second call with a buffer of that length returns it again and writes the data, where
  -- the buffer lies in the memory. The data is shorter than 2^31 bytes.
  pub write_or_code_protocol :
      (view : g.View) (bytes : Bytes) (buf : ℕ) (view' : g.View)
      → 0 < length bytes
      → length bytes < i32_half
      → g.slice view buf (length bytes) ≡ true
      → g.write_slice view buf bytes ≡ some view'
      → (write_or_code g view bytes buf 0 ≡ (pos (length bytes), view))
        × (write_or_code g view bytes buf (length bytes) ≡ (pos (length bytes), view'))
  unfolding write_or_code
  write_or_code_protocol view bytes buf view' p h s w =
      ground (arith, as_i32_of_lt (length bytes) h)
