-- ===== src/Data/Internal/Laws.antt =====
-- What `fetch_internal_logs` sends, and what it leaves in the storage.
use plaid.Base.{
  ℕ, ◌≤◌, ◌<◌, ◌≡◌, refl, ap, sym, ◌∙◌, ltb→lt, String, eq_iff, Option, none, some, List, [], ◌∷◌,
  ◌++◌, map, All, arith, ltb, Bool-cases, Option-cases, inl, inr, ◌⊎◌, subst,
}
use mathlib.Core.List.{Perm, append_assoc, append-nil, perm_middle}
use mathlib.Core.List.Perm
use plaid.Base.Result.{ok, err, Result-cases}
use plaid.Base.Heap.{push, IsHeap, push-Perm, push-IsHeap}
use plaid.Guest.{Bytes}
use plaid.Message.{Message, DelayedMessage}
use plaid.Channel.{Channel, IsQueue, TrySendError}
use plaid.Storage.{StorageProvider, Entries}
use plaid.Storage.Contract.{Contract}
use plaid.Data.Internal.{
  Serde, logback_ns, fill, fill_heap_from_db, After, send_due, fetch_internal_logs,
}

-- The stored values that parse.
unfoldable pub parsed : Serde → Entries → List DelayedMessage
parsed serde [] = []
parsed serde ((key, none) ∷ rest) = parsed serde rest
parsed serde ((key, some value) ∷ rest) = elim (serde.from_slice value) [
  | none ↦ parsed serde rest
  | some log ↦ log ∷ parsed serde rest
]

fill-Perm :
    (serde : Serde) (l : Entries) (heap : List DelayedMessage)
    → Perm (fill serde l heap) (parsed serde l ++ heap)
unfolding fill parsed
fill-Perm serde [] heap = Perm.rfl
fill-Perm serde ((key, none) ∷ rest) heap = fill-Perm serde rest heap
fill-Perm serde ((key, some value) ∷ rest) heap = elim (Option-cases (serde.from_slice value)) [
  | inl e ↦ rw (e, fill, parsed) (fill-Perm serde rest heap)
  | inr (log, e) ↦
      rw (e, fill, parsed)
        (Perm.trans (fill-Perm serde rest (push DelayedMessage.delay log heap)) (
          Perm.trans
            (Perm.append_left (parsed serde rest) (push-Perm DelayedMessage.delay log heap))
            (perm_middle (parsed serde rest) heap)))
]

fill-IsHeap :
    (serde : Serde) (l : Entries) (heap : List DelayedMessage)
    → IsHeap DelayedMessage.delay heap
    → IsHeap DelayedMessage.delay (fill serde l heap)
unfolding fill
fill-IsHeap serde [] heap h = h
fill-IsHeap serde ((key, none) ∷ rest) heap h = fill-IsHeap serde rest heap h
fill-IsHeap serde ((key, some value) ∷ rest) heap h = elim (Option-cases (serde.from_slice value)) [
  | inl e ↦ rw (e, fill) (fill-IsHeap serde rest heap h)
  | inr (log, e) ↦
      rw (e, fill)
        (fill-IsHeap serde rest (push DelayedMessage.delay log heap)
          (push-IsHeap DelayedMessage.delay log heap h))
]

-- Some log of the list has the id.
abbrev pub HasId : String → List DelayedMessage → Type 0
HasId id [] = ⊥
HasId id (log ∷ rest) = (log.message.id ≡ id) ⊎ HasId id rest

abbrev pub messages_of : List DelayedMessage → List Message
messages_of logs = map DelayedMessage.message logs

All-after :
    (now : ℕ) (log : DelayedMessage) (heap : List DelayedMessage)
    → now < log.delay
    → All (λ other. log.delay ≤ other.delay) heap
    → All (λ other. now < other.delay) heap
All-after now log [] h all = tt
All-after now log (other ∷ heap) h all = (omega (arith, h, all.0), All-after now log heap h all.1)

module _ (p : StorageProvider) {at : p.State → String → String → Option Bytes}
    {size : p.State → String → ℕ} (contract : Contract p at size) (c : Channel Message)
    {queue : c.State → List Message} (c_queue : IsQueue c queue) where
  delete_at :
      (id : String) (db : p.State) (n j : String)
      → (at (p.delete logback_ns id db).1 n j ≡ at db n j) ⊎ ((n ≡ logback_ns) × (id ≡ j))
  delete_at id db n j = elim (Result-cases (p.delete logback_ns id db).0) [
    | inl (o, e) ↦
        ground
          (arith, eq_iff logback_ns n, eq_iff id j, contract.delete_ok_at logback_ns id db o e n j)
    | inr (x, e) ↦ inl (contract.delete_err logback_ns id db x e n j).0
  ]

  -- The logs that were sent, and the others, for a run over `logs`: the sent ones are due and stand
  -- last in the channel, in the order of the heap; the run ends with nothing due left or a channel
  -- that refuses the next log; and the storage keeps all but what was sent.
  pub record Fetched (now : ℕ) (logs : List DelayedMessage) (sender : c.State) (db : p.State)
      (after : After p c) : Type 0 where
    pub sent : List DelayedMessage
    pub kept : List DelayedMessage
    pub split : logs ≡ sent ++ kept
    pub due : All (λ log. log.delay ≤ now) sent
    pub queued : queue after.sender ≡ queue sender ++ messages_of sent
    pub stopped :
        All (λ log. now < log.delay) kept
        ⊎ ((log : DelayedMessage) × (rest : List DelayedMessage) × (e : TrySendError) × (kept
              ≡ log ∷ rest)
            × (c.try_send log.message after.sender ≡ err e))
    pub stored :
        (n j : String) → (at after.database n j ≡ at db n j) ⊎ ((n ≡ logback_ns) × HasId j sent)

  nothing_sent :
      (now : ℕ) (logs : List DelayedMessage) (sender : c.State) (db : p.State)
      (heap : List DelayedMessage)
      → All (λ log. now < log.delay) logs
        ⊎ ((log : DelayedMessage) × (rest : List DelayedMessage) × (e : TrySendError) × (logs
              ≡ log ∷ rest)
            × (c.try_send log.message sender ≡ err e))
      → Fetched now logs sender db (record { heap = heap; sender = sender; database = db })
  nothing_sent now logs sender db heap why = record {
    sent = [];
    kept = logs;
    split = refl;
    due = tt;
    queued = sym (append-nil (queue sender));
    stopped = why;
    stored = λ n j. inl refl;
  }

  sent_first :
      (now : ℕ) (top : DelayedMessage) (heap : List DelayedMessage) (sender sender' : c.State)
      (db : p.State) (after : After p c)
      → top.delay ≤ now
      → c.try_send top.message sender ≡ ok sender'
      → Fetched now heap sender' (p.delete logback_ns top.message.id db).1 after
      → Fetched now (top ∷ heap) sender db after
  sent_first now top heap sender sender' db after due e rest = record {
    sent = top ∷ rest.sent;
    kept = rest.kept;
    split = ap (◌∷◌ top) rest.split;
    due = (due, rest.due);
    queued =
        rest.queued
        ∙ ap (λ q. q ++ messages_of rest.sent) (c_queue.try_send_ok top.message sender sender' e)
        ∙ append_assoc (queue sender) (top.message ∷ []) (messages_of rest.sent);
    stopped = rest.stopped;
    stored = λ n j. elim (rest.stored n j) [
      | inr (is_ns, has) ↦ inr (is_ns, inr has)
      | inl same ↦ elim (delete_at top.message.id db n j) [
        | inl same' ↦ inl (same ∙ same')
        | inr (is_ns, is_id) ↦ inr (is_ns, inl is_id)
      ]
    ];
  }

  send_due_lem :
      (now : ℕ) (heap : List DelayedMessage) (sender : c.State) (db : p.State)
      → IsHeap DelayedMessage.delay heap
      → Fetched now heap sender db (send_due p c now heap sender db)
  unfolding send_due
  send_due_lem now [] sender db h = record {
    sent = [];
    kept = [];
    split = refl;
    due = tt;
    queued = sym (append-nil (queue sender));
    stopped = inl tt;
    stored = λ n j. inl refl;
  }
  send_due_lem now (top ∷ heap) sender db h = elim (Bool-cases (ltb now top.delay)) [
    | inl early ↦
        rw (early, send_due)
          (nothing_sent now (top ∷ heap) sender db (top ∷ heap) (
            inl (
              ltb→lt now top.delay early,
              All-after now top heap (ltb→lt now top.delay early) h.0,
            )))
    | inr due ↦ elim (Result-cases (c.try_send top.message sender)) [
      | inl (sender', e) ↦
          rw (due, send_due, e)
            (sent_first now top heap sender sender' db _ (ground arith) e
              (send_due_lem now heap sender' (p.delete logback_ns top.message.id db).1 h.1))
      | inr (x, e) ↦
          rw (due, send_due, e)
            (nothing_sent now (top ∷ heap) sender db heap (inr (top, heap, x, refl, e)))
    ]
  ]

  -- The same run over a storage that holds the same.
  rebase :
      (now : ℕ) (logs : List DelayedMessage) (sender : c.State) (db db' : p.State)
      (after : After p c)
      → ((n j : String) → at db' n j ≡ at db n j)
      → Fetched now logs sender db' after
      → Fetched now logs sender db after
  rebase now logs sender db db' after same run = record {
    sent = run.sent;
    kept = run.kept;
    split = run.split;
    due = run.due;
    queued = run.queued;
    stopped = run.stopped;
    stored = λ n j. elim (run.stored n j) [ inl e ↦ inl (e ∙ same n j) | inr has ↦ inr has ];
  }

  fill_heap_from_db_lem :
      (serde : Serde) (db : p.State) (l : Entries)
      → (p.fetch_all logback_ns none db).0 ≡ ok l
      → fill_heap_from_db serde p db ≡ (ok (fill serde l []), (p.fetch_all logback_ns none db).1)
  unfolding fill_heap_from_db
  fill_heap_from_db_lem serde db l e = ground arith

  -- Where the stored logs can be read, a fetch goes through the ones that parse, the earliest first.
  -- It sends those that are due, in this order and behind what waits in the channel, until none that
  -- is due is left or the channel refuses one. A key of the storage is then as it was, or it is the
  -- id of a log that was sent.
  pub fetch_internal_logs_lem :
      (serde : Serde) (now : ℕ) (sender : c.State) (db : p.State) (l : Entries)
      → (p.fetch_all logback_ns none db).0 ≡ ok l
      → (after : After p c) × (logs : List DelayedMessage) × ((fetch_internal_logs serde p c now
            sender db).0
          ≡ ok after)
        × Perm logs (parsed serde l)
        × IsHeap DelayedMessage.delay logs
        × Fetched now logs sender db after
  unfolding fetch_internal_logs
  fetch_internal_logs_lem serde now sender db l e =
      let db' = (p.fetch_all logback_ns none db).1 in
      let logs = fill serde l [] in
      let sorted = fill-IsHeap serde l [] tt in
      (
        send_due p c now logs sender db',
        logs,
        ground (arith, fill_heap_from_db_lem serde db l e),
        subst (Perm logs) (append-nil (parsed serde l)) (fill-Perm serde l []),
        sorted,
        rebase now logs sender db db' (send_due p c now logs sender db')
            (λ n j. (contract.fetch_all_keeps logback_ns none db n j).0)
            (send_due_lem now logs sender db' sorted),
      )
