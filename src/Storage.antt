-- ===== src/Storage.antt =====
-- The storage layer: runtime/plaid/src/storage/mod.rs. `StorageProvider` is the trait, with the
-- state of a provider made explicit; a call may also change the state where it fails. The await
-- points vanish: a call is one step.
pub mod Contract
pub mod InMemory
pub mod Migration
pub mod Shared
mod Tests
use plaid.Base.{ℕ, ◌+◌, String, len, Bool, Option, none, some, List, [], ◌∷◌, length}
use plaid.Base.Result.{Result, ok, err, ◌>>=◌}
use plaid.Base.Dict.{HashMap}
use plaid.Guest.{Bytes}

pub data StorageError : Type 0 where
  storage_init_error could_not_access_storage access shared_db : String → StorageError
  no_storage_configured : StorageError

-- loader/mod.rs: `LimitValue`
pub data LimitValue : Type 0 where
  unlimited : LimitValue
  limited : ℕ → LimitValue

pub record SharedDbConfig : Type 0 where
  pub size_limit : LimitValue
  pub r : List String
  pub rw : List String

-- `Arc<RwLock<u64>>`. A lock is poisoned when a thread panicked while it held the guard.
pub record Counter : Type 0 where
  pub value : ℕ
  pub poisoned : Bool

pub record SharedDb : Type 0 where
  pub config : SharedDbConfig
  pub used_storage : Counter

-- The entries that `fetch_all` returns.
abbrev pub Entries : Type 0
Entries = List (String × Option Bytes)

-- The required methods of the trait.
pub record StorageProvider : Type 1 where
  pub State : Type 0
  pub is_persistent : Bool
  pub insert : String → String → Bytes → State → Result StorageError (Option Bytes) × State
  pub get : String → String → State → Result StorageError (Option Bytes) × State
  pub delete : String → String → State → Result StorageError (Option Bytes) × State
  pub list_keys : String → Option String → State → Result StorageError (List String) × State
  pub fetch_all : String → Option String → State → Result StorageError Entries × State

-- `value.map_or(0, |v| v.len() as u64)`
unfoldable pub value_size : Option Bytes → ℕ
value_size none = 0
value_size (some v) = length v

-- The sum in `get_namespace_byte_size`. A sum of the lengths of buffers in memory stays below 2^64.
unfoldable pub total_size : Entries → ℕ
unfolding value_size
total_size [] = 0
total_size ((key, value) ∷ rest) = len key + value_size value + total_size rest

module _ (p : StorageProvider) where
  unfoldable pub get_namespace_byte_size : String → p.State → Result StorageError ℕ × p.State
  unfolding total_size
  get_namespace_byte_size namespace s =
      let (all, s') = p.fetch_all namespace none s in
      ((do entries ← all; ok (total_size entries)), s')

  -- `Storage`
  pub record Storage : Type 0 where
    pub database : p.State
    pub shared_dbs : Option (HashMap SharedDb)
