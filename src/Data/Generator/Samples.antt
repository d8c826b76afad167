-- ===== src/Data/Generator/Samples.antt =====
-- An Okta generator with a small cache, and what its support and its cache promise.
use plaid.Storage.InMemory.{InMemoryDb, in_memory}
use plaid.Data.Generator.{
  store_if_any, after_logs, update_last_seen, Support, DataGenerator, DataGeneratorLog,
  process_logs, window, turn, get_and_process_dg_logs,
}
use plaid.Base.Words.{sub_u64, add_u64}
use plaid.Data.Generator.Services.{
  send_message, Lru, IsLru, Service, new_okta, okta, payloads_in, room_in, okta-IsGenerator,
}
use plaid.Base.{
  ℕ, suc, ◌-◌, ◌≤◌, ◌<◌, ◌≡◌, refl, String, str_eq, eq_iff, ◌||◌, Option, none, some, List, [], ◌∷◌,
  length, ltb, if◌then◌else◌, arith,
}
use plaid.Base.Result.{Result, ok}
use plaid.Guest.{Bytes}
use plaid.Message.{Message, unlimited}
use plaid.Functions.Storage.{contains}
use plaid.Samples.{unbounded, unbounded_queue}
use plaid.Data.Generator.Interface.{IsGenerator}

-- Times are seconds.
abbrev pub seconds : Support
seconds = record {
  OffsetDateTime = ℕ;
  before = ltb;
  saturating_sub = λ t n. t - n;
  unix_timestamp = λ t. t;
  from_unix_timestamp = λ n. some n;
  whole_seconds = λ a b. a - b;
  nanos_text = λ t. t ∷ [];
  from_utf8 = λ b. some "1000";
  parse_nanos = λ t. some 1000;
  to_vec = λ l. some (length l ∷ []);
  empty_vec = 0 ∷ [];
  from_slice = λ b. some ("a" ∷ []);
}

abbrev drop_last : List String → List String
drop_last [] = []
drop_last (x ∷ []) = []
drop_last (x ∷ y ∷ l) = x ∷ drop_last (y ∷ l)

drop_last_le : (l : List String) → length (drop_last l) ≤ length l
drop_last_le [] = omega arith
drop_last_le (x ∷ []) = omega arith
drop_last_le (x ∷ y ∷ l) = omega (arith, drop_last_le (y ∷ l))

-- A cache that drops the key put first.
abbrev put_key : String → ℕ × List String → ℕ × List String
put_key i (n, ks) =
    if contains ks i
    then (n, ks)
    else if ltb (length ks) n
    then (n, i ∷ ks)
    else (n, i ∷ drop_last ks)

put_key_has :
    (i j : String) (c : ℕ × List String)
    → length c.1 < c.0
    → contains (put_key i c).1 j ≡ (str_eq i j || contains c.1 j)
unfolding contains
put_key_has i j (n, ks) h = ground (arith, eq_iff i j)

length-put_key : (i : String) (c : ℕ × List String) → length (put_key i c).1 ≤ suc (length c.1)
length-put_key i (n, ks) = ground (arith, drop_last_le ks)

put_key_cap : (i : String) (c : ℕ × List String) → (put_key i c).0 ≡ c.0
put_key_cap i (n, ks) = ground arith

abbrev pub fifo : Lru
fifo = record {
  State = ℕ × List String;
  new_cache = λ n. (n, []);
  has = λ id c. contains c.1 id;
  put = put_key;
  keys = λ c. c.1;
  cap_of = λ c. c.0;
}

fifo-IsLru : IsLru fifo
fifo-IsLru = record {
  put_has = put_key_has;
  put_keys = length-put_key;
  put_cap = put_key_cap;
  keys_has = λ j c. refl;
}

abbrev pub log : String → ℕ → DataGeneratorLog seconds
log id t = record { id = id; timestamp = t; payload = t ∷ [] }

-- The service has "a" and "z", and gives those up to the end of the span.
abbrev pub fetch :
    ℕ → Service seconds (unbounded Message) fifo → ℕ → ℕ → Option (List (DataGeneratorLog seconds))
fetch n d since until =
    if ltb until 1000
    then some []
    else if ltb until 2000
    then some (log "a" 1000 ∷ [])
    else some (log "a" 1000 ∷ log "z" 2000 ∷ [])

abbrev uuid : Bytes → String
uuid b = "id"

abbrev pub generator : DataGenerator seconds
generator = okta seconds (unbounded Message) fifo uuid fetch

abbrev pub okta_at : ℕ → List String → Service seconds (unbounded Message) fifo
okta_at last seen = record {
  config = record {
    logbacks_allowed = unlimited;
    canon_time = 10;
    lru_cache_size = 8;
    max_since_until = 60;
    max_catchup = 10800;
  };
  last_seen = last;
  logger = [];
  seen_logs_uuid = (8, seen);
  logs_fetched = none;
}

abbrev pub sent_by : Service seconds (unbounded Message) fifo → List Bytes
sent_by = payloads_in seconds (unbounded Message) fifo (λ q. q)

abbrev pub room_of : Service seconds (unbounded Message) fifo → ℕ
room_of = room_in seconds (unbounded Message) fifo

-- A size of 0 is refused.
no_cache :
    new_okta seconds
      (unbounded Message)
      fifo
      (record {
        logbacks_allowed = unlimited;
        canon_time = 10;
        lru_cache_size = 0;
        max_since_until = 60;
        max_catchup = 10800;
      })
      []
      none
      5
    ≡ none
unfolding new_okta
no_cache = refl

-- The second log with an id, and one that was seen, are left out.
sends_new :
    sent_by
      (process_logs seconds generator
        (log "b" 7 ∷ log "a" 8 ∷ log "b" 9 ∷ log "c" 6 ∷ [])
        0
        (okta_at 5 ("a" ∷ []))).1
    ≡ (7 ∷ []) ∷ (6 ∷ []) ∷ []
unfolding process_logs contains send_message update_last_seen
sends_new = refl

-- "a" is fetched once, and the second turn finds nothing new.
runs :
    (out : Result (Unit {0}) (Unit {0})
      × Service seconds (unbounded Message) fifo
      × Option InMemoryDb)
    × (get_and_process_dg_logs seconds generator in_memory 3 (λ n. 1500) 0 (okta_at 990 []) none
        ≡ some out)
    × (sent_by out.1 ≡ (1000 ∷ []) ∷ [])
unfolding get_and_process_dg_logs turn window sub_u64 add_u64 after_logs process_logs contains
    send_message update_last_seen store_if_any
runs = ((ok tt, okta_after, none), refl, refl)
  where
    okta_after : Service seconds (unbounded Message) fifo
    okta_after = (process_logs seconds generator (log "a" 1000 ∷ []) 0 (okta_at 990 [])).1

pub is_generator : IsGenerator seconds generator sent_by room_of
is_generator =
    okta-IsGenerator seconds (unbounded Message) fifo uuid fetch (λ q. q) (unbounded_queue Message)
      fifo-IsLru

abbrev pub two_logs : List (DataGeneratorLog seconds)
two_logs = log "b" 7 ∷ log "b" 9 ∷ []
