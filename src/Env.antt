-- ===== src/Env.antt =====
-- The environment of a running module: `Env` of runtime/plaid/src/executor/mod.rs and
-- `PlaidModule` of runtime/plaid/src/loader/mod.rs.
use plaid.Base.{ℕ, String, Bool, Option, List}
use plaid.Base.Dict.{HashMap}
use plaid.Guest.{Bytes, GuestMemory}
use plaid.Storage.{StorageProvider, Storage, LimitValue, Counter}
use plaid.Message.{Message, DelayedMessage}
use plaid.Channel.{Channel}
use plaid.Cache.{CacheProvider}

-- What the host functions rely on and do not implement.
pub record Platform : Type 1 where
  pub provider : StorageProvider
  pub cache : CacheProvider
  pub guest : GuestMemory
  pub messages : Channel Message
  pub delayed : Channel DelayedMessage
  -- `serde_json::to_string` of a list of keys, as bytes
  pub serialize_keys : List String → Option Bytes

-- `data: Arc<RwLock<Option<String>>>`
pub record PersistentResponse : Type 0 where
  pub max_size : ℕ
  pub content : Option String
  pub poisoned : Bool

-- The compiled code and its engine are wasmer's and are left out.
pub record PlaidModule : Type 0 where
  pub name : String
  pub logtype : String
  pub computation_limit : ℕ
  pub page_limit : ℕ
  pub storage_current : Counter
  pub storage_limit : LimitValue
  pub accessory_data : Option (HashMap Bytes)
  pub secrets : Option (HashMap Bytes)
  pub persistent_response : Option PersistentResponse
  pub test_mode : Bool

-- The channels are shared with other threads: a field holds the state that a call meets.
pub record Env (w : Platform) : Type 0 where
  pub module_ : PlaidModule
  pub message : Message
  pub storage : Option (Storage w.provider)
  pub cache : Option w.cache.State
  pub memory : Option w.guest.View
  pub response : Option String
  pub execution_error_context : Option String
  pub immediate_sender : Option w.messages.State
  pub delayed_log_sender : w.delayed.State
  pub cancelled : Bool
