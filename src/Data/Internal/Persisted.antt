-- ===== src/Data/Internal/Persisted.antt =====
-- What `persist_delayed_log` stores, for the fetches that follow.
use plaid.Base.{
  ℕ, ◌<◌, ◌≡◌, refl, ap, ◌∙◌, String, eq_iff, Option, none, some, List, [], ◌∷◌, ◌++◌, arith,
  Bool-cases, Option-cases, inl, inr, ◌⊎◌, ◌+◌, str_eq,
}
use plaid.Base.Result.{ok}
use plaid.Guest.{Bytes}
use plaid.Message.{DelayedMessage}
use plaid.Storage.{StorageProvider, Entries}
use plaid.Storage.Contract.{Contract, fetched}
use plaid.Base.Words.{u64_mod, add_u64_of_lt}
use plaid.Data.Internal.{persist_delayed_log, Serde, logback_ns}
use plaid.Base.Dict.{lookup}
use plaid.Data.Internal.Laws.{parsed}

-- `log` is one of the logs.
abbrev pub IsAmong : DelayedMessage → List DelayedMessage → Type 0
IsAmong log logs = (before after : List DelayedMessage) × (logs ≡ before ++ log ∷ after)

IsAmong-cons :
    (first log : DelayedMessage) (logs : List DelayedMessage)
    → IsAmong log logs
    → IsAmong log (first ∷ logs)
IsAmong-cons first log logs (before, after, is) = (first ∷ before, after, ap (◌∷◌ first) is)

lookup-parsed :
    (serde : Serde) (key : String) (value : Bytes) (log : DelayedMessage) (l : Entries)
    → lookup key l ≡ some (some value)
    → serde.from_slice value ≡ some log
    → IsAmong log (parsed serde l)
unfolding lookup parsed
lookup-parsed serde key value log [] e from = cc
lookup-parsed serde key value log ((k, none) ∷ rest) e from = elim (Bool-cases (str_eq k key)) [
  | inl here ↦ absurd (ground (arith, here))
  | inr other ↦ lookup-parsed serde key value log rest (rw other at e) from
]
lookup-parsed serde key value log ((k, some v) ∷ rest) e from = elim (Bool-cases (str_eq k key)) [
  | inl here ↦
      let same : v ≡ value = ground (arith, here) in
      let is : serde.from_slice v ≡ some log = ap serde.from_slice same ∙ from in
      rw (is, parsed) ([], parsed serde rest, refl)
  | inr other ↦
      let later = lookup-parsed serde key value log rest (rw other at e) from in
      elim (Option-cases (serde.from_slice v)) [
        | inl bad ↦ rw (bad, parsed) later
        | inr (first, good) ↦ rw (good, parsed) (IsAmong-cons first log (parsed serde rest) later)
      ]
]

module _ (p : StorageProvider) {at : p.State → String → String → Option Bytes}
    {size : p.State → String → ℕ} (contract : Contract p at size) where
  persist_delayed_log-insert :
      (serde : Serde) (now : ℕ) (log : DelayedMessage) (db : p.State) (item : Bytes)
      → log.delay + now < u64_mod
      → serde.to_vec (record log { delay = log.delay + now }) ≡ some item
      → persist_delayed_log serde p now log db ≡ (p.insert logback_ns log.message.id item db).1
  unfolding persist_delayed_log
  persist_delayed_log-insert serde now log db item fits to =
      rw (add_u64_of_lt log.delay now fits, to, persist_delayed_log) refl

  -- A log that is persisted at the time `now` is stored under its id with a delay that ends `now`
  -- seconds later, and a later fetch that can read what is stored goes through it: it is among the
  -- logs that parse. No other key changes. The time does not wrap round 2^64, the log can be
  -- serialised and its serialisation parses back, and the provider does not fail.
  pub persist_delayed_log_stored :
      (serde : Serde) (now : ℕ) (log : DelayedMessage) (db : p.State) (item : Bytes)
      (old : Option Bytes) (l : Entries)
      → let due : DelayedMessage = record log { delay = log.delay + now } in
        let db' = persist_delayed_log serde p now log db in
        log.delay + now < u64_mod
        → serde.to_vec due ≡ some item
        → serde.from_slice item ≡ some due
        → (p.insert logback_ns log.message.id item db).0 ≡ ok old
        → (p.fetch_all logback_ns none db').0 ≡ ok l
        → (at db' logback_ns log.message.id ≡ some item)
          × IsAmong due (parsed serde l)
          × ((n j : String) → (at db' n j ≡ at db n j) ⊎ ((n ≡ logback_ns) × (log.message.id ≡ j)))
  persist_delayed_log_stored serde now log db item old l fits to from e read =
      let id = log.message.id in
      let due : DelayedMessage = record log { delay = log.delay + now } in
      let db' = persist_delayed_log serde p now log db in
      let is = persist_delayed_log-insert serde now log db item fits to in
      let put = contract.insert_ok_at logback_ns id item db old e in
      let stored : at db' logback_ns id ≡ some item =
        rw is (ground (arith, eq_iff logback_ns logback_ns, eq_iff id id, put logback_ns id)) in
      let listed : lookup id l ≡ some (some item) =
        contract.fetch_all_at logback_ns none db' l read id ∙ ap fetched stored in
      (
        stored,
        lookup-parsed serde id item due l listed from,
        λ n j. rw is (ground (arith, eq_iff logback_ns n, eq_iff id j, put n j)),
      )
