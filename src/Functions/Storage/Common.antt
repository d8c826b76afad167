-- ===== src/Functions/Storage/Common.antt =====
-- The code that runtime/plaid/src/functions/storage.rs shares between a module's own namespace and
-- the shared ones. A body from the lock to the release of its guard is one step.
use plaid.Base.{ℕ, String, len, Option, none, some, List, length, ltb, ◌==◌, if◌then◌else◌}
use plaid.Base.Int.{ℤ, pos}
use plaid.Base.Words.{add_u64, sub_u64}
use plaid.Base.Result.{Result, ok, err}
use plaid.Guest.{
  Bytes, GuestMemory, error_code, internal_api_error, storage_limit_reached,
  error_could_not_serialize, write_or_code,
}
use plaid.Storage.{StorageProvider, StorageError, LimitValue, unlimited, limited, Counter}

-- `existing_data_size`
unfoldable pub existing_size : ℕ → Option Bytes → ℕ
existing_size key_len none = 0
existing_size key_len (some d) = add_u64 (length d) key_len

-- `*storage_current + key_len + value_len - existing_data_size`
unfoldable pub would_be_used : ℕ → ℕ → ℕ → ℕ → ℕ
unfolding add_u64 sub_u64
would_be_used current key_len value_len existing =
    sub_u64 (add_u64 (add_u64 current key_len) value_len) existing

-- `if result.is_ok() { *storage_current = would_be_used_storage; }`
unfoldable pub count : Result StorageError (Option Bytes) → ℕ → Counter → Counter
count (ok _) used c = record c { value = used }
count (err _) used c = c

-- `*storage_current - key_len - data.len()`, where something was deleted.
unfoldable pub uncount : Result StorageError (Option Bytes) → ℕ → Counter → Counter
unfolding sub_u64
uncount (ok (some d)) key_len c = record c { value = sub_u64 (sub_u64 c.value key_len) (length d) }
uncount (ok none) key_len c = c
uncount (err _) key_len c = c

module _ (p : StorageProvider) (g : GuestMemory) where
  -- What a call returns, and what it leaves behind.
  pub record Outcome : Type 0 where
    pub code : ℤ
    pub database : p.State
    pub counter : Counter
    pub view : g.View

  -- The last `match` of `insert_common` and of `delete_common`.
  unfoldable pub respond :
      Result StorageError (Option Bytes) → p.State → Counter → g.View → ℕ → ℕ → Outcome
  unfolding write_or_code error_code
  respond (ok (some d)) s c view buf buf_len =
      let (n, view') = write_or_code g view d buf buf_len in
      record { code = n; database = s; counter = c; view = view' }
  respond (ok none) s c view buf buf_len = record {
    code = pos 0;
    database = s;
    counter = c;
    view = view;
  }
  respond (err e) s c view buf buf_len = record {
    code = error_code internal_api_error;
    database = s;
    counter = c;
    view = view;
  }

  -- An early return with an error code.
  abbrev pub give_up : ℤ → p.State → Counter → g.View → Outcome
  give_up n s c view = record { code = n; database = s; counter = c; view = view }

  -- The insertion under the lock, once the space is known to be there.
  unfoldable pub insert_counted :
      String → String → Bytes → g.View → ℕ → ℕ → ℕ → Counter → p.State → Outcome
  unfolding respond count
  insert_counted ns key value view buf buf_len used c s =
      let (r, s') = p.insert ns key value s in respond r s' (count r used c) view buf buf_len

  -- The branch `LimitValue::Limited(storage_limit)`, past the lock.
  unfoldable pub insert_limited :
      String → String → Bytes → g.View → ℕ → ℕ → ℕ → Counter → p.State → Outcome
  unfolding existing_size would_be_used insert_counted error_code
  insert_limited ns key value view buf buf_len limit c s =
      let (r, s') = p.get ns key s in
      elim r [
        | err _ ↦ give_up (error_code internal_api_error) s' c view
        | ok existing ↦
            let used =
              would_be_used c.value (len key) (length value) (existing_size (len key) existing) in
            if ltb limit used
            then give_up (error_code storage_limit_reached) s' c view
            else insert_counted ns key value view buf buf_len used c s'
      ]

  unfoldable pub insert_common :
      String → String → Bytes → g.View → ℕ → ℕ → LimitValue → Counter → p.State → Outcome
  unfolding respond insert_limited error_code
  insert_common ns key value view buf buf_len unlimited c s =
      let (r, s') = p.insert ns key value s in respond r s' c view buf buf_len
  insert_common ns key value view buf buf_len (limited n) c s =
      if c.poisoned
      then give_up (error_code internal_api_error) s c view
      else insert_limited ns key value view buf buf_len n c s

  unfoldable pub get_common : String → String → g.View → ℕ → ℕ → p.State → ℤ × p.State × g.View
  unfolding write_or_code error_code
  get_common ns key view buf buf_len s =
      let (r, s') = p.get ns key s in
      elim r [
        | ok (some d) ↦ let (n, view') = write_or_code g view d buf buf_len in (n, s', view')
        | ok none ↦ (pos 0, s', view)
        | err _ ↦ (error_code internal_api_error, s', view)
      ]

  -- `serialize` is `serde_json::to_string` of the keys.
  unfoldable pub list_keys_common :
      (List String → Option Bytes)
      → String
      → String
      → g.View
      → ℕ
      → ℕ
      → p.State
      → ℤ × p.State × g.View
  unfolding write_or_code error_code
  list_keys_common serialize ns prefix view buf buf_len s =
      let (r, s') = p.list_keys ns (some prefix) s in
      elim r [
        | ok keys ↦ elim (serialize keys) [
          | some d ↦ let (n, view') = write_or_code g view d buf buf_len in (n, s', view')
          | none ↦ (error_code error_could_not_serialize, s', view)
        ]
        | err _ ↦ (error_code internal_api_error, s', view)
      ]

  -- The branch `LimitValue::Limited(_)`.
  unfoldable pub delete_limited : String → String → g.View → ℕ → ℕ → Counter → p.State → Outcome
  unfolding respond uncount error_code
  delete_limited ns key view buf buf_len c s =
      if c.poisoned
      then give_up (error_code internal_api_error) s c view
      else let (r, s') = p.delete ns key s in respond r s' (uncount r (len key) c) view buf buf_len

  unfoldable pub delete_some :
      String → String → g.View → ℕ → ℕ → LimitValue → Counter → p.State → Outcome
  unfolding respond delete_limited
  delete_some ns key view buf buf_len unlimited c s =
      let (r, s') = p.delete ns key s in respond r s' c view buf buf_len
  delete_some ns key view buf buf_len (limited _) c s = delete_limited ns key view buf buf_len c s

  -- With a buffer of size 0 the call only asks for the size of the value.
  unfoldable pub delete_common :
      String → String → g.View → ℕ → ℕ → LimitValue → Counter → p.State → Outcome
  unfolding respond delete_some
  delete_common ns key view buf buf_len limit c s =
      if buf_len == 0
      then (let (r, s') = p.get ns key s in respond r s' c view buf buf_len)
      else delete_some ns key view buf buf_len limit c s
