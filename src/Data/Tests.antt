-- ===== src/Data/Tests.antt =====
-- The theorems on scheduled jobs and on the choice of endpoints, at small examples.
use plaid.Base.{ℕ, suc, ◌+◌, ◌<◌, ◌≤◌, ◌≡◌, refl, String, Option, some, [], ◌∷◌, All, arith, some}
use mathlib.Core.List.{Perm}
use plaid.Base.Heap.{IsHeap}
use plaid.Message.{Message, unlimited}
use plaid.Samples.{message_of, unbounded}
use plaid.Data.Interval.{
  ScheduledJob, Interval, fetch_interval_jobs, IsDone, fetch_interval_jobs_lem,
}
use plaid.Data.Selector.{UriEntry, UriSelector, next_uri, mark_failed, names, next_uri-mark_failed}

-- A schedule is a period.
abbrev every : ℕ → ℕ → Option ℕ
every period time = some (time + suc period)

every_later : (s time n : ℕ) → every s time ≡ some n → time < n
every_later s time n e = ground arith

abbrev job_at : ℕ → ScheduledJob ℕ (unbounded Message)
job_at time = record { execution_time = time; schedule = 9; message = message_of unlimited }

abbrev jobs : Interval ℕ (unbounded Message)
jobs = record { sender = []; job_heap = job_at 5 ∷ job_at 12 ∷ [] }

fetch_interval_jobs_lem_example :
    (out : ℕ × Interval ℕ (unbounded Message)) × (fetch_interval_jobs ℕ
        (unbounded Message)
        every
        (λ n. 7)
        7
        jobs
      ≡ some out)
    × IsDone ℕ (unbounded Message) every 7 out
fetch_interval_jobs_lem_example =
    fetch_interval_jobs_lem ℕ (unbounded Message) every every_later (λ n. 7) 7 (λ n. omega arith)
      jobs ((omega arith, tt), (tt, tt))

abbrev entry_at : String → ℕ → UriEntry
entry_at name time = record {
  name = name;
  uri = "wss://host";
  backoff_duration = 3;
  next_attempt = time;
}

abbrev two : UriSelector
two = record {
  uris = entry_at "a" 5 ∷ entry_at "b" 8 ∷ [];
  initial_retry_after = 3;
  max_retry_after = 20;
  log_type = "log";
}

abbrev rest : UriSelector
rest = record two { uris = entry_at "b" 8 ∷ [] }

next_uri-mark_failed_example :
    let back = mark_failed 6 (entry_at "a" 5) rest in
    (5 ≤ 5)
    × All (λ (other : UriEntry). 5 ≤ other.next_attempt) rest.uris
    × IsHeap UriEntry.next_attempt back.uris
    × Perm (names back) (names two)
unfolding next_uri
next_uri-mark_failed_example =
    next_uri-mark_failed 4 6 two rest (entry_at "a" 5) 5 ((omega arith, tt), (tt, tt)) refl
