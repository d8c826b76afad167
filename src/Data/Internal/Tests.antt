-- ===== src/Data/Internal/Tests.antt =====
-- The theorems on delayed logbacks, at a small storage.
use plaid.Storage.InMemory.{entries_with, InMemoryDb, in_memory, insert_entry, empty}
use plaid.Base.{ℕ, ◌≡◌, ◌⊎◌, refl, String, Option, none, some, List, [], ◌∷◌, arith}
use mathlib.Core.List.{Perm}
use plaid.Base.Result.{ok}
use plaid.Base.Heap.{IsHeap}
use plaid.Guest.{Bytes}
use plaid.Message.{Message, DelayedMessage, unlimited}
use plaid.Storage.{Entries}
use plaid.Storage.InMemory.Laws.{value_at, in_memory_contract}
use plaid.Samples.{message_of, unbounded, unbounded_queue}
use plaid.Data.Internal.{Serde, logback_ns, After, fetch_internal_logs, persist_delayed_log}
use plaid.Data.Internal.Laws.{Fetched, parsed, fetch_internal_logs_lem}
use plaid.Base.Words.{add_u64}
use plaid.Data.Internal.Persisted.{IsAmong, persist_delayed_log_stored}

abbrev log_of : ℕ → DelayedMessage
log_of n = record { delay = n; message = message_of unlimited }

abbrev parse : Bytes → Option DelayedMessage
parse [] = none
parse (n ∷ rest) = some (log_of n)

-- A stored log is its delay.
abbrev serde : Serde
serde = record { to_vec = λ log. some (log.delay ∷ []); from_slice = parse }

unfoldable db : InMemoryDb
unfolding empty insert_entry
db = (insert_entry logback_ns "id" (5 ∷ []) empty).1

abbrev entries : Entries
entries = ("id", some (5 ∷ [])) ∷ []

sent_test :
    (fetch_internal_logs serde in_memory (unbounded Message) 6 [] db).0
    ≡ ok (record {
      heap = [];
      sender = message_of unlimited ∷ [];
      database = (fetch_internal_logs serde in_memory (unbounded Message) 6 [] db).1;
    })
unfolding fetch_internal_logs db entries_with
sent_test = refl

waits_test :
    (fetch_internal_logs serde in_memory (unbounded Message) 4 [] db).0
    ≡ ok (record { heap = log_of 5 ∷ []; sender = []; database = db })
unfolding fetch_internal_logs db entries_with
waits_test = refl

fetch_internal_logs_lem_example :
    (after : After in_memory (unbounded Message)) × (logs : List DelayedMessage)
    × ((fetch_internal_logs serde in_memory (unbounded Message) 6 [] db).0 ≡ ok after)
    × Perm logs (parsed serde entries)
    × IsHeap DelayedMessage.delay logs
    × Fetched in_memory in_memory_contract
        (unbounded Message)
        (unbounded_queue Message)
        6
        logs
        []
        db
        after
unfolding db entries_with
fetch_internal_logs_lem_example =
    fetch_internal_logs_lem in_memory in_memory_contract (unbounded Message)
      (unbounded_queue Message) serde 6 [] db entries refl

persist_delayed_log_stored_example :
    let db' = persist_delayed_log serde in_memory 100 (log_of 5) empty in
    (value_at db' logback_ns "id" ≡ some (105 ∷ []))
    × IsAmong (log_of 105) (parsed serde (("id", some (105 ∷ [])) ∷ []))
    × ((n j : String) → (value_at db' n j ≡ value_at empty n j) ⊎ ((n ≡ logback_ns) × ("id" ≡ j)))
unfolding empty insert_entry persist_delayed_log entries_with add_u64
persist_delayed_log_stored_example =
    persist_delayed_log_stored in_memory in_memory_contract serde 100 (log_of 5) empty (105 ∷ [])
      none (("id", some (105 ∷ [])) ∷ []) (omega arith) refl refl refl refl
