-- ===== src/Samples.antt =====
-- A small guest, its channels and an environment, on which the theorems are tried.
use plaid.Base.{
  ℕ, ◌≤◌, ◌≡◌, String, len, true, false, Option, none, some, List, [], ◌∷◌, ◌++◌, leb, length,
  arith, if◌then◌else◌, ◌==◌, str_eq,
}
use plaid.Base.Result.{ok}
use plaid.Guest.{Bytes, GuestMemory}
use plaid.Storage.{SharedDb, unlimited, limited}
use plaid.Storage.InMemory.{InMemoryDb, in_memory, empty, insert_entry}
use plaid.Message.{Message, DelayedMessage, LogbacksAllowed, logback}
use plaid.Channel.{Channel, IsQueue}
use plaid.Cache.InMemory.{LruCache, in_memory_cache}
use plaid.Env.{Platform, PlaidModule, Env}
use plaid.Functions.Message.{Encoding}
use plaid.Functions.Storage.Accounting.{ReadsAsked}

-- A memory with texts at some addresses and bytes at others.
pub record Cells : Type 0 where
  pub texts : List (ℕ × String)
  pub bytes : List (ℕ × Bytes)

abbrev text_at : List (ℕ × String) → ℕ → Option String
text_at [] p = none
text_at ((q, s) ∷ rest) p = if q == p then some s else text_at rest p

abbrev bytes_at : List (ℕ × Bytes) → ℕ → Option Bytes
bytes_at [] p = none
bytes_at ((q, b) ∷ rest) p = if q == p then some b else bytes_at rest p

abbrev text_within : ℕ → Option String → Option String
text_within n none = none
text_within n (some s) = if leb (len s) n then some s else none

abbrev bytes_within : ℕ → Option Bytes → Option Bytes
bytes_within n none = none
bytes_within n (some b) = if leb (length b) n then some b else none

text_within-length : (n : ℕ) (o : Option String) (s : String) → text_within n o ≡ some s → len s ≤ n
text_within-length n none s h = cc
text_within-length n (some t) s h = ground arith

bytes_within-length :
    (n : ℕ) (o : Option Bytes) (b : Bytes) → bytes_within n o ≡ some b → length b ≤ n
bytes_within-length n none b h = cc
bytes_within-length n (some t) b h = ground arith

abbrev pub cells : GuestMemory
cells = record {
  View = Cells;
  read_utf8_string = λ v p n. text_within n (text_at v.texts p);
  read = λ v p n. bytes_within n (bytes_at v.bytes p);
  slice = λ v p n. true;
  write_slice = λ v p b. some (record v { bytes = (p, b) ∷ v.bytes });
}

pub cells_reads : ReadsAsked cells
cells_reads = record {
  string_len = λ v p n s h. text_within-length n (text_at v.texts p) s h;
  bytes_len = λ v p n b h. bytes_within-length n (bytes_at v.bytes p) b h;
}

abbrev value_under : String → Option (String × String) → Option String
value_under k none = none
value_under k (some (j, v)) = if str_eq j k then some v else none

-- A channel without a bound, whose state is what waits in it.
abbrev pub unbounded : (A : Type 0) → Channel A
unbounded A = record { State = List A; try_send = λ a s. ok (s ++ a ∷ []) }

pub unbounded_queue : (A : Type 0) → IsQueue (unbounded A) (λ s. s)
unbounded_queue A = record { try_send_ok = λ a s s' h. cc }

-- A cache of one entry.
abbrev pub last_put : LruCache
last_put = record {
  State = Option (String × String);
  new_cache = λ n. none;
  put = λ k v c. (value_under k c, some (k, v));
  get = λ k c. (value_under k c, c);
}

abbrev pub platform : Platform
platform = record {
  provider = in_memory;
  cache = in_memory_cache last_put;
  guest = cells;
  messages = unbounded Message;
  delayed = unbounded DelayedMessage;
  serialize_keys = λ keys. some (length keys ∷ []);
}

-- Every text is the bytes of "hi", and every source is a logback of "other".
abbrev pub encoding : Encoding
encoding = record {
  as_bytes = λ s. 104 ∷ 105 ∷ [];
  from_utf8 = λ b. some "log";
  source_to_vec = λ s. some (7 ∷ 7 ∷ []);
  source_from_slice = λ b. some (logback "other");
}

-- The text "rule" at 1, "key" at 2, "team" at 3 and "other" at 4; three bytes at 5.
abbrev pub view : Cells
view = record {
  texts = (1, "rule") ∷ (2, "key") ∷ (3, "team") ∷ (4, "other") ∷ [];
  bytes = (5, 7 ∷ 8 ∷ 9 ∷ []) ∷ [];
}

-- "rule" may write to "team" and only read "other".
abbrev pub team : SharedDb
team = record {
  config = record { size_limit = limited 10; r = []; rw = "rule" ∷ [] };
  used_storage = record { value = 0; poisoned = false };
}

abbrev pub other : SharedDb
other = record {
  config = record { size_limit = unlimited; r = "rule" ∷ []; rw = [] };
  used_storage = record { value = 0; poisoned = false };
}

abbrev pub module_of : ℕ → PlaidModule
module_of used = record {
  name = "rule";
  logtype = "log";
  computation_limit = 1000;
  page_limit = 10;
  storage_current = record { value = used; poisoned = false };
  storage_limit = limited 10;
  accessory_data = none;
  secrets = none;
  persistent_response = none;
  test_mode = false;
}

abbrev pub message_of : LogbacksAllowed → Message
message_of budget = record {
  id = "id";
  type_ = "log";
  content = 1 ∷ [];
  headers = [];
  query_params = [];
  source = logback "other";
  logbacks_allowed = budget;
  response_sender = none;
  module_name = none;
}

abbrev pub env_of : ℕ → InMemoryDb → LogbacksAllowed → Env platform
env_of used db budget = record {
  module_ = module_of used;
  message = message_of budget;
  storage =
      some (record { database = db; shared_dbs = some (("team", team) ∷ ("other", other) ∷ []) });
  cache = some (("rule", none) ∷ ("other", none) ∷ []);
  memory = some view;
  response = none;
  execution_error_context = none;
  immediate_sender = some [];
  delayed_log_sender = [];
  cancelled = false;
}

-- A database with an entry of six bytes under "rule".
unfoldable pub one_entry : InMemoryDb
unfolding empty insert_entry
one_entry = (insert_entry "rule" "key" (4 ∷ 5 ∷ 6 ∷ []) empty).1
