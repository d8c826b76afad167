-- ===== src/Data/Internal.antt =====
-- The delayed logbacks: runtime/plaid/src/data/internal/mod.rs. They are stored under the namespace
-- `logback_internal` until their delay has elapsed.
pub mod Laws
pub mod Persisted
mod Tests
use plaid.Base.{◌+◌, true, false, ℕ, String, Option, none, some, List, [], ◌∷◌, ltb, if◌then◌else◌}
use plaid.Base.Words.{add_u64}
use plaid.Base.Result.{Result, ok, err}
use plaid.Base.Heap.{push}
use plaid.Guest.{Bytes}
use plaid.Message.{Message, DelayedMessage}
use plaid.Channel.{Channel}
use plaid.Storage.{StorageProvider, StorageError, Entries}

abbrev pub logback_ns : String
logback_ns = "logback_internal"

-- serde_json's `to_vec` and `from_slice` at `DelayedMessage`.
pub record Serde : Type 0 where
  pub to_vec : DelayedMessage → Option Bytes
  pub from_slice : Bytes → Option DelayedMessage

-- The body of the loop in `fill_heap_from_db`: a value that is missing or does not parse is skipped.
unfoldable pub fill : Serde → Entries → List DelayedMessage → List DelayedMessage
unfolding push
fill serde [] heap = heap
fill serde ((key, none) ∷ rest) heap = fill serde rest heap
fill serde ((key, some value) ∷ rest) heap = elim (serde.from_slice value) [
  | none ↦ fill serde rest heap
  | some log ↦ fill serde rest (push DelayedMessage.delay log heap)
]

module _ (serde : Serde) (p : StorageProvider) where
  unfoldable pub fill_heap_from_db : p.State → Result StorageError (List DelayedMessage) × p.State
  unfolding fill
  fill_heap_from_db db =
      let (r, db') = p.fetch_all logback_ns none db in
      elim r [ ok previous_logs ↦ (ok (fill serde previous_logs []), db') | err e ↦ (err e, db') ]

  -- `now` is the time in seconds; the sum wraps as the source's does. Failures are only logged.
  unfoldable pub persist_delayed_log : ℕ → DelayedMessage → p.State → p.State
  persist_delayed_log now log db =
      let due : DelayedMessage = record log { delay = add_u64 log.delay now } in
      elim (serde.to_vec due) [
        | none ↦ db
        | some item ↦ (p.insert logback_ns due.message.id item db).1
      ]

  -- `listen_for_incoming_logs`, and `flush_pending`, on what waits in the channel; each log with the
  -- time at which it is persisted.
  unfoldable pub listen_for_incoming_logs : List (ℕ × DelayedMessage) → p.State → p.State
  unfolding persist_delayed_log
  listen_for_incoming_logs [] db = db
  listen_for_incoming_logs ((now, log) ∷ rest) db =
      listen_for_incoming_logs rest (persist_delayed_log now log db)

module _ (p : StorageProvider) (c : Channel Message) where
  -- What the loop leaves: the heap, the channel and the storage.
  pub record After : Type 0 where
    pub heap : List DelayedMessage
    pub sender : c.State
    pub database : p.State

  -- The loop of `fetch_internal_logs`: it ends with the first log whose delay has not elapsed, and
  -- with the first one that cannot be sent.
  unfoldable pub send_due : ℕ → List DelayedMessage → c.State → p.State → After
  send_due now [] sender db = record { heap = []; sender = sender; database = db }
  send_due now (top ∷ heap) sender db = elim (ltb now top.delay) [
    | true ↦ record { heap = top ∷ heap; sender = sender; database = db }
    | false ↦ elim (c.try_send top.message sender) [
      | ok sender' ↦ send_due now heap sender' (p.delete logback_ns top.message.id db).1
      | err _ ↦ record { heap = heap; sender = sender; database = db }
    ]
  ]

module _ (serde : Serde) (p : StorageProvider) (c : Channel Message) where
  unfoldable pub fetch_internal_logs :
      ℕ → c.State → p.State → Result StorageError (After p c) × p.State
  unfolding fill_heap_from_db send_due
  fetch_internal_logs now sender db =
      let (r, db') = fill_heap_from_db serde p db in
      elim r [
        | ok heap ↦ let after = send_due p c now heap sender db' in (ok after, after.database)
        | err e ↦ (err e, db')
      ]
