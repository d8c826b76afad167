-- ===== src/Stl/Storage.antt =====
-- The guest's side of storage: runtime/plaid-stl/src/plaid/storage.rs. A first call, with a buffer of
-- size 0, asks for the length of what there is; a second one fills a buffer of that length.
use plaid.Base.{ℕ, String, len, Option, none, some, List, ◌==◌, if◌then◌else◌}
use plaid.Base.Int.{ℤ, pos, negsuc}
use plaid.Base.Result.{Result, ok, err, or_fail, ◌>>=◌}
use plaid.Guest.{Bytes}
use plaid.Env.{Platform, Env}
use plaid.Functions.Storage.{
  storage_insert, storage_insert_shared, storage_get, storage_get_shared, storage_list_keys,
  storage_list_keys_shared, storage_delete, storage_delete_shared,
}
use plaid.Stl.{
  PlaidFunctionError, return_buffer_too_small, internal_api_error, from_code, GuestCode, alloc_in,
  peek_in,
}

-- `text.as_bytes().to_vec()`: the address of a copy in the memory.
pub record GuestText (w : Platform) : Type 0 where
  pub place : w.guest.View → String → ℕ × w.guest.View

module _ (w : Platform) (c : GuestCode w) (t : GuestText w) where
  unfoldable pub place_in : Env w → String → ℕ × Env w
  place_in env text = elim env.memory [
    | none ↦ (c.dangling, env)
    | some view ↦ let (ptr, view') = t.place view text in (ptr, record env { memory = some view' })
  ]

  -- `if copied_size == buffer_size`
  unfoldable pub second_result : ℕ → ℕ → ℤ × Env w → Result PlaidFunctionError Bytes × Env w
  unfolding peek_in
  second_result size ptr (negsuc n, env) = (err return_buffer_too_small, env)
  second_result size ptr (pos n, env) =
      if n == size then (ok (peek_in w c env ptr size), env) else (err return_buffer_too_small, env)

  -- What follows the first call.
  unfoldable pub second_call :
      (ℕ → ℕ → Env w → ℤ × Env w) → ℤ × Env w → Result PlaidFunctionError Bytes × Env w
  unfolding alloc_in from_code
  second_call host (negsuc n, env) = (err (from_code (negsuc n)), env)
  second_call host (pos size, env) =
      let (ptr, env') = alloc_in w c env size in second_result size ptr (host ptr size env')

  unfoldable pub get : String → Env w → Result PlaidFunctionError Bytes × Env w
  unfolding second_call place_in
  get key env =
      let (key_ptr, env') = place_in env key in
      let host = λ (buf size : ℕ) (e : Env w). storage_get w e key_ptr (len key) buf size in
      second_call host (host c.dangling 0 env')

  unfoldable pub get_shared : String → String → Env w → Result PlaidFunctionError Bytes × Env w
  unfolding second_call place_in
  get_shared namespace key env =
      let (ns_ptr, env') = place_in env namespace in
      let (key_ptr, env'') = place_in env' key in
      let host = λ (buf size : ℕ) (e : Env w).
        storage_get_shared w e ns_ptr (len namespace) key_ptr (len key) buf size in
      second_call host (host c.dangling 0 env'')

  -- What the guest makes of a buffer of keys; `from_slice` is serde_json's.
  unfoldable pub keys_of :
      (Bytes → Option (List String))
      → Result PlaidFunctionError Bytes × Env w
      → Result PlaidFunctionError (List String) × Env w
  keys_of from_slice (r, env) =
      (r >>= λ buffer. or_fail (from_slice buffer) internal_api_error, env)

  abbrev or_no_prefix : Option String → String
  or_no_prefix none = ""
  or_no_prefix (some p) = p

  unfoldable pub list_keys :
      (Bytes → Option (List String))
      → Option String
      → Env w
      → Result PlaidFunctionError (List String) × Env w
  unfolding second_call place_in keys_of
  list_keys from_slice prefix env =
      let text = or_no_prefix prefix in
      let (ptr, env') = place_in env text in
      let host = λ (buf size : ℕ) (e : Env w). storage_list_keys w e ptr (len text) buf size in
      keys_of from_slice (second_call host (host c.dangling 0 env'))

  unfoldable pub list_keys_shared :
      (Bytes → Option (List String))
      → String
      → Option String
      → Env w
      → Result PlaidFunctionError (List String) × Env w
  unfolding second_call place_in keys_of
  list_keys_shared from_slice namespace prefix env =
      let text = or_no_prefix prefix in
      let (ns_ptr, env') = place_in env namespace in
      let (ptr, env'') = place_in env' text in
      let host = λ (buf size : ℕ) (e : Env w).
        storage_list_keys_shared w e ns_ptr (len namespace) ptr (len text) buf size in
      keys_of from_slice (second_call host (host c.dangling 0 env''))

  unfoldable pub delete : String → Env w → Result PlaidFunctionError Bytes × Env w
  unfolding second_call place_in
  delete key env =
      let (key_ptr, env') = place_in env key in
      let host = λ (buf size : ℕ) (e : Env w). storage_delete w e key_ptr (len key) buf size in
      second_call host (host c.dangling 0 env')

  unfoldable pub delete_shared : String → String → Env w → Result PlaidFunctionError Bytes × Env w
  unfolding second_call place_in
  delete_shared namespace key env =
      let (ns_ptr, env') = place_in env namespace in
      let (key_ptr, env'') = place_in env' key in
      let host = λ (buf size : ℕ) (e : Env w).
        storage_delete_shared w e ns_ptr (len namespace) key_ptr (len key) buf size in
      second_call host (host c.dangling 0 env'')

  -- The value is where the caller has it. The first call asks for the value that it replaces.
  unfoldable pub insert : String → ℕ → ℕ → Env w → Result PlaidFunctionError Bytes × Env w
  unfolding second_call place_in
  insert key value_ptr value_len env =
      let (key_ptr, env') = place_in env key in
      second_call (λ buf size e. storage_insert w e key_ptr (len key) value_ptr value_len buf size)
        (storage_get w env' key_ptr (len key) c.dangling 0)

  unfoldable pub insert_shared :
      String → String → ℕ → ℕ → Env w → Result PlaidFunctionError Bytes × Env w
  unfolding second_call place_in
  insert_shared namespace key value_ptr value_len env =
      let (ns_ptr, env') = place_in env namespace in
      let (key_ptr, env'') = place_in env' key in
      second_call
        (λ buf size e.
          storage_insert_shared w e ns_ptr (len namespace) key_ptr (len key) value_ptr value_len buf
            size)
        (storage_get_shared w env'' ns_ptr (len namespace) key_ptr (len key) c.dangling 0)
