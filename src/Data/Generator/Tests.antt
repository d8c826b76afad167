-- ===== src/Data/Generator/Tests.antt =====
-- The polling loop at an Okta generator with a small cache.
use plaid.Storage.InMemory.{get_entry, insert_entry, InMemoryDb, in_memory, empty, namespace_of}
use plaid.Data.Generator.Fresh.{fresh, unseen, AreAmong}
use plaid.Data.Generator.{DataGeneratorLog, process_logs, get_and_process_dg_logs, store_state}
use plaid.Base.Words.{add_u64}
use plaid.Data.Generator.Services.{Service}
use plaid.Base.{
  ℕ, ◌≤◌, ◌≡◌, refl, inl, inr, String, true, false, ◌||◌, Option, none, some, List, [], ◌∷◌, All,
  ltb, Bool-cases, arith, subst,
}
use plaid.Base.Result.{Result}
use plaid.Message.{Message}
use plaid.Functions.Storage.{contains}
use plaid.Base.Dict.{lookup}
use plaid.Storage.InMemory.Laws.{in_memory_contract, value_at, bytes_of}
use plaid.Samples.{unbounded}
use plaid.Data.Generator.Recovery.{update_dg_from_storage}
use plaid.Data.Generator.Exact.{Processed, process_logs-Processed}
use plaid.Data.Generator.Sent.{Sent}
use plaid.Data.Generator.Ends.{get_and_process_dg_logs_ends}
use plaid.Data.Generator.Gap.{SeenOrLater, get_and_process_dg_logs_stalls}
use plaid.Data.Generator.Restart.{NeverFails, ReadsBack, update_dg_from_storage-store_state}
use plaid.Data.Generator.Samples.{
  seconds, fifo, log, fetch, generator, okta_at, sent_by, room_of, is_generator, two_logs,
}

process_logs-Processed_example :
    Processed seconds generator sent_by room_of two_logs 0
      (okta_at 5 ("a" ∷ []))
      (process_logs seconds generator two_logs 0 (okta_at 5 ("a" ∷ [])))
unfolding fresh contains
process_logs-Processed_example =
    process_logs-Processed seconds generator sent_by room_of is_generator two_logs 0
      (okta_at 5 ("a" ∷ [])) (omega arith) (omega arith)

-- What a fetch can give.
fetched :
    (P : List (DataGeneratorLog seconds) → Type 0) (n : ℕ)
    (d : Service seconds (unbounded Message) fifo) (since until : ℕ)
    (logs : List (DataGeneratorLog seconds))
    → fetch n d since until ≡ some logs
    → P []
    → (ltb until 1000 ≡ false → P (log "a" 1000 ∷ []))
    → (ltb until 1000 ≡ false → ltb until 2000 ≡ false → P (log "a" 1000 ∷ log "z" 2000 ∷ []))
    → P logs
fetched P n d since until logs h nothing first both = elim (Bool-cases (ltb until 1000)) [
  | inl e ↦
      let got : fetch n d since until ≡ some [] = rw e in
      let same : [] ≡ logs = cc in subst P same nothing
  | inr e ↦ elim (Bool-cases (ltb until 2000)) [
    | inl f ↦
        let got : fetch n d since until ≡ some (log "a" 1000 ∷ []) = rw (e, f) in
        let same : log "a" 1000 ∷ [] ≡ logs = cc in subst P same (first e)
    | inr f ↦
        let got : fetch n d since until ≡ some (log "a" 1000 ∷ log "z" 2000 ∷ []) = rw (e, f) in
        let same : log "a" 1000 ∷ log "z" 2000 ∷ [] ≡ logs = cc in subst P same (both e f)
  ]
]

abbrev all_ids : List String
all_ids = "a" ∷ "z" ∷ []

fetch-AreAmong :
    (n : ℕ) (d : Service seconds (unbounded Message) fifo) (since until : ℕ)
    (logs : List (DataGeneratorLog seconds))
    → fetch n d since until ≡ some logs
    → AreAmong seconds all_ids logs
unfolding contains
fetch-AreAmong n d since until logs h =
    fetched (AreAmong seconds all_ids) n d since until logs h tt (λ e. (refl, tt))
      (λ e f. (refl, (refl, tt)))

get_and_process_dg_logs_ends_example :
    (r : Result (Unit {0}) (Unit {0})) × (d' : Service seconds (unbounded Message) fifo)
    × (storage' : Option InMemoryDb) × (get_and_process_dg_logs seconds generator in_memory 3
          (λ n. 1500)
          0
          (okta_at 990 [])
          none
        ≡ some (r, d', storage'))
    × Sent seconds generator sent_by room_of all_ids (okta_at 990 []) d'
unfolding unseen contains
get_and_process_dg_logs_ends_example =
    get_and_process_dg_logs_ends seconds generator sent_by room_of all_ids in_memory is_generator
      (omega arith) fetch-AreAmong 3 0 (λ n. 1500) (okta_at 990 []) none (omega arith) (omega arith)

monotone :
    (m n a b t : ℕ)
    → m ≤ n
    → ◌≡◌ {A = Option ℕ} (some m) (some a)
    → ◌≡◌ {A = Option ℕ} (some n) (some b)
    → ltb b t ≡ true
    → ltb a t ≡ true
monotone m n a b t h p q lt = ground arith

fetch_in_span :
    (n since until : ℕ) (logs : List (DataGeneratorLog seconds))
    → fetch n (okta_at 1000 ("a" ∷ [])) since until ≡ some logs
    → All (λ l. ltb until l.timestamp ≡ false) logs
fetch_in_span n since until logs h =
    fetched (All (λ l. ltb until l.timestamp ≡ false)) n (okta_at 1000 ("a" ∷ [])) since until logs
      h tt (λ e. (e, tt)) (λ e f. (e, (f, tt)))

quiet :
    (n since until : ℕ) (logs : List (DataGeneratorLog seconds))
    → fetch n (okta_at 1000 ("a" ∷ [])) since until ≡ some logs
    → All (SeenOrLater seconds generator in_memory 1059 (okta_at 1000 ("a" ∷ []))) logs
unfolding contains
quiet n since until logs h =
    fetched (All (SeenOrLater seconds generator in_memory 1059 (okta_at 1000 ("a" ∷ [])))) n
      (okta_at 1000 ("a" ∷ [])) since until logs h tt (λ e. (inl refl, tt))
      (λ e f. (inl refl, (inr refl, tt)))

-- At the time 5000 "z" is long there, and is not fetched.
get_and_process_dg_logs_stalls_example :
    (r : Result (Unit {0}) (Unit {0})) × (get_and_process_dg_logs seconds generator in_memory 7
        (λ n. 5000)
        0
        (okta_at 1000 ("a" ∷ []))
        none
      ≡ some (r, okta_at 1000 ("a" ∷ []), none))
unfolding add_u64
get_and_process_dg_logs_stalls_example =
    get_and_process_dg_logs_stalls seconds generator in_memory (okta_at 1000 ("a" ∷ [])) 1059 refl
      monotone fetch_in_span quiet 6 0 (λ n. 5000) none

in_memory-NeverFails : NeverFails in_memory
unfolding insert_entry get_entry value_at
in_memory-NeverFails = record {
  inserts = λ ns k v db. (lookup k (namespace_of ns db.db), refl);
  gets = λ ns k db. (value_at db ns k, refl);
}

restored : ReadsBack seconds 1000 ("a" ∷ [])
restored = record {
  text = "1000";
  utf8 = refl;
  parsed = refl;
  bytes = 1 ∷ [];
  json = refl;
  back = refl;
}

update_dg_from_storage-store_state_example :
    let old = okta_at 1000 ("a" ∷ []) in
    let d' =
      (update_dg_from_storage seconds generator in_memory 2000
        (okta_at 2000 [])
        (some (store_state seconds generator in_memory old empty))).0 in
    (generator.get_last_seen d' ≡ 1000)
    × ((j : String)
        → generator.was_already_seen j d'
          ≡ (generator.was_already_seen j old || generator.was_already_seen j (okta_at 2000 [])))
update_dg_from_storage-store_state_example =
    update_dg_from_storage-store_state seconds generator sent_by room_of is_generator in_memory
      value_at bytes_of in_memory_contract in_memory-NeverFails 2000 (okta_at 1000 ("a" ∷ []))
      (okta_at 2000 []) empty restored refl (omega arith) refl
