-- ===== src/Stl.antt =====
-- The guest's side: runtime/plaid-stl/src, the library that rules are compiled against. A guest's
-- own code and its allocator are parameters.
pub mod Entrypoint
pub mod Delivery
pub mod Storage
pub mod Stored
pub mod Inserted
pub mod Deleted
mod Tests
use plaid.Base.{ℕ, suc, ◌≡◌, arith, refl, String, Option, none, some, [], ◌==◌, if◌then◌else◌}
use plaid.Base.Int.{ℤ, pos, negsuc}
use plaid.Base.Result.{Result, ok, err}
use plaid.Guest.{Bytes, FunctionErrors, error_code}
use plaid.Env.{Platform, Env}

pub data PlaidFunctionError : Type 0 where
  api_not_configured return_buffer_too_small error_could_not_serialize : PlaidFunctionError
  internal_api_error parameters_not_utf8 invalid_pointer cache_disabled : PlaidFunctionError
  could_not_get_adequate_memory failed_to_write_guest_memory : PlaidFunctionError
  storage_limit_reached test_mode operation_not_allowed shared_db_error : PlaidFunctionError
  timeout_elapsed unknown failed_to_log_back logback_budget_exhausted : PlaidFunctionError

-- `From<i32> for PlaidFunctionError`
unfoldable pub from_code : ℤ → PlaidFunctionError
from_code (pos n) = unknown
from_code (negsuc n) =
    if n == 0
    then api_not_configured
    else if n == 1
    then return_buffer_too_small
    else if n == 2
    then error_could_not_serialize
    else if n == 3
    then internal_api_error
    else if n == 4
    then parameters_not_utf8
    else if n == 5
    then invalid_pointer
    else if n == 6
    then cache_disabled
    else if n == 7
    then could_not_get_adequate_memory
    else if n == 8
    then failed_to_write_guest_memory
    else if n == 9
    then storage_limit_reached
    else if n == 10
    then test_mode
    else if n == 11
    then operation_not_allowed
    else if n == 12
    then shared_db_error
    else if n == 13
    then timeout_elapsed
    else if n == 14
    then failed_to_log_back
    else if n == 15
    then logback_budget_exhausted
    else unknown

-- The guest's allocator, and its look at its own memory. `alloc` is `vec![0; n]`.
pub record GuestCode (w : Platform) : Type 0 where
  pub dangling : ℕ
  pub alloc : w.guest.View → ℕ → ℕ × w.guest.View
  pub peek : w.guest.View → ℕ → ℕ → Bytes

module _ (w : Platform) (c : GuestCode w) where
  -- A guest that runs has a memory: where there were none, its buffer would be nowhere.
  unfoldable pub alloc_in : Env w → ℕ → ℕ × Env w
  alloc_in env size = elim env.memory [
    | none ↦ (c.dangling, env)
    | some view ↦ let (ptr, view') = c.alloc view size in (ptr, record env { memory = some view' })
  ]

  unfoldable pub peek_in : Env w → ℕ → ℕ → Bytes
  peek_in env ptr size = elim env.memory [ none ↦ [] | some view ↦ c.peek view ptr size ]
