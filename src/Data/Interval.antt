-- ===== src/Data/Interval.antt =====
-- The scheduled jobs: runtime/plaid/src/data/interval/mod.rs. A schedule and its next execution time
-- are the cron library's, so `upcoming` is a parameter, as is the clock: `clock n` is the time when
-- `n` turns of the loop are left.
use plaid.Base.{
  ℕ, zero, suc, ◌-◌, ◌+◌, ◌≤◌, ◌<◌, ◌≡◌, refl, String, Option, none, some, List, [], ◌∷◌, All, ltb,
  length, if◌then◌else◌, arith, Bool-cases, Option-cases, inl, inr, true, false, ltb→lt,
}
use plaid.Base.Result.{ok, err}
use plaid.Base.Heap.{push, IsHeap, push-IsHeap}
use plaid.Base.Dict.{HashMap}
use plaid.Guest.{Bytes}
use plaid.Message.{Message, LogbacksAllowed, Generator, generator, new, create_duplicate}
use plaid.Channel.{Channel}

module _ (Schedule : Type 0) (c : Channel Message) where
  -- `content` is `data`, empty where there is none.
  pub record IntervalJob : Type 0 where
    pub schedule : Schedule
    pub log_type : String
    pub content : Bytes
    pub logbacks_allowed : LogbacksAllowed

  pub record ScheduledJob : Type 0 where
    pub execution_time : ℕ
    pub schedule : Schedule
    pub message : Message

  pub record Interval : Type 0 where
    pub sender : c.State
    pub job_heap : List ScheduledJob

  module _ (upcoming : Schedule → ℕ → Option ℕ) where
    -- A job whose schedule is over is left out. `ids` gives the UUIDs of the messages.
    unfoldable pub jobs_of : (String → String) → ℕ → HashMap IntervalJob → List ScheduledJob
    unfolding push new
    jobs_of ids time [] = []
    jobs_of ids time ((name, job) ∷ rest) = elim (upcoming job.schedule time) [
      | none ↦ jobs_of ids time rest
      | some next ↦
          push ScheduledJob.execution_time
            (record {
              execution_time = next;
              schedule = job.schedule;
              message =
                  new (ids name) job.log_type job.content (generator (Generator.interval name))
                    job.logbacks_allowed;
            })
            (jobs_of ids time rest)
    ]

    unfoldable pub new_interval : (String → String) → ℕ → HashMap IntervalJob → c.State → Interval
    unfolding jobs_of
    new_interval ids time jobs log_sender = record {
      sender = log_sender;
      job_heap = jobs_of ids time jobs;
    }

    -- A job that could not be sent is only logged.
    unfoldable pub send_job : Message → c.State → c.State
    send_job message sender = elim (c.try_send message sender) [ ok s ↦ s | err _ ↦ sender ]

    -- The job that was popped goes back with its next time, if its schedule has one.
    unfoldable pub reschedule : ℕ → ScheduledJob → List ScheduledJob → List ScheduledJob
    unfolding push create_duplicate
    reschedule time job heap = elim (upcoming job.schedule time) [
      | none ↦ heap
      | some next ↦
          push ScheduledJob.execution_time
            (record job { execution_time = next; message = create_duplicate job.message }) heap
    ]

    -- The loop of `fetch_interval_jobs`, on fuel: `none` where that runs out.
    unfoldable pub run_jobs : (ℕ → ℕ) → ℕ → ℕ → List ScheduledJob → c.State → Option (ℕ × Interval)
    run_jobs clock now zero heap sender = none
    run_jobs clock now (suc fuel) [] sender = some (0, record { sender = sender; job_heap = [] })
    run_jobs clock now (suc fuel) (top ∷ heap) sender = elim (ltb now top.execution_time) [
      | true ↦ some (top.execution_time - now, record { sender = sender; job_heap = top ∷ heap })
      | false ↦
          run_jobs clock now fuel (reschedule (clock fuel) top heap)
            (send_job (create_duplicate top.message) sender)
    ]

    -- One turn for each job and one more are enough (`fetch_interval_jobs_lem`).
    unfoldable pub fetch_interval_jobs : (ℕ → ℕ) → ℕ → Interval → Option (ℕ × Interval)
    fetch_interval_jobs clock now interval =
        run_jobs clock now (suc (length interval.job_heap)) interval.job_heap interval.sender

    -- The jobs that are due.
    unfoldable pub due : ℕ → List ScheduledJob → ℕ
    due now [] = 0
    due now (job ∷ heap) = if ltb now job.execution_time then due now heap else suc (due now heap)

    due-push :
        (now : ℕ) (job : ScheduledJob) (heap : List ScheduledJob)
        → now < job.execution_time
        → due now (push ScheduledJob.execution_time job heap) ≡ due now heap
    unfolding due push
    due-push now job [] h = ground arith
    due-push now job (other ∷ heap) h = ground (arith, due-push now job heap h)

    -- The jobs that the configuration schedules, in order.
    jobs_of-IsHeap :
        (ids : String → String) (time : ℕ) (jobs : HashMap IntervalJob)
        → IsHeap ScheduledJob.execution_time (jobs_of ids time jobs)
    unfolding jobs_of
    jobs_of-IsHeap ids time [] = tt
    jobs_of-IsHeap ids time ((name, job) ∷ rest) =
        elim (Option-cases (upcoming job.schedule time)) [
          | inl over ↦ rw (over, jobs_of) (jobs_of-IsHeap ids time rest)
          | inr (next, is) ↦
              rw (is, jobs_of)
                (push-IsHeap ScheduledJob.execution_time _ (jobs_of ids time rest)
                  (jobs_of-IsHeap ids time rest))
        ]

    due-le-length : (now : ℕ) (heap : List ScheduledJob) → due now heap ≤ length heap
    unfolding due
    due-le-length now [] = omega arith
    due-le-length now (job ∷ heap) = ground (arith, due-le-length now heap)

    -- All that is left comes after `now`.
    abbrev pub IsLater : ℕ → List ScheduledJob → Type 0
    IsLater now heap = All (λ job. now < job.execution_time) heap

    heap-IsLater :
        (now : ℕ) (top : ScheduledJob) (heap : List ScheduledJob)
        → now < top.execution_time
        → All (λ job. top.execution_time ≤ job.execution_time) heap
        → IsLater now heap
    heap-IsLater now top [] h all = tt
    heap-IsLater now top (job ∷ heap) h all =
        (omega (arith, h, all.0), heap-IsLater now top heap h all.1)

    -- What a fetch returns: nothing is due any more, and the number is the seconds to the next job,
    -- or 0 where there is none.
    abbrev pub IsDone : ℕ → ℕ × Interval → Type 0
    IsDone now (wait, interval) =
        IsHeap ScheduledJob.execution_time interval.job_heap
        × IsLater now interval.job_heap
        × elim interval.job_heap [
          | [] ↦ wait ≡ 0
          | top ∷ rest ↦ (0 < wait) × (now + wait ≡ top.execution_time)
        ]

    module _ (later : (s : Schedule) (time n : ℕ) → upcoming s time ≡ some n → time < n)
        (clock : ℕ → ℕ) (now : ℕ) (passes : (n : ℕ) → now ≤ clock n) where
      reschedule_keeps :
          (fuel : ℕ) (top : ScheduledJob) (heap : List ScheduledJob)
          → IsHeap ScheduledJob.execution_time heap
          → (due now (reschedule (clock fuel) top heap) ≡ due now heap)
            × IsHeap ScheduledJob.execution_time (reschedule (clock fuel) top heap)
      unfolding reschedule
      reschedule_keeps fuel top heap h = elim (Option-cases (upcoming top.schedule (clock fuel))) [
        | inl over ↦ rw (over, reschedule) (refl, h)
        | inr (next, is) ↦
            let job : ScheduledJob = record top {
              execution_time = next;
              message = create_duplicate top.message;
            } in
            let after : now < next =
              omega (arith, passes fuel, later top.schedule (clock fuel) next is) in
            rw (is, reschedule)
              (due-push now job heap after, push-IsHeap ScheduledJob.execution_time job heap h)
      ]

      run_jobs_lem :
          (fuel : ℕ) (heap : List ScheduledJob) (sender : c.State)
          → IsHeap ScheduledJob.execution_time heap
          → due now heap < fuel
          → (out : ℕ × Interval) × (run_jobs clock now fuel heap sender ≡ some out) × IsDone now out
      unfolding run_jobs due
      run_jobs_lem zero heap sender h enough = absurd (omega arith)
      run_jobs_lem (suc fuel) [] sender h enough =
          ((0, record { sender = sender; job_heap = [] }), refl, (tt, tt, refl))
      run_jobs_lem (suc fuel) (top ∷ heap) sender h enough =
          elim (Bool-cases (ltb now top.execution_time)) [
            | inl early ↦
                let after = ltb→lt now top.execution_time early in
                rw (early, run_jobs)
                  (
                    (top.execution_time - now, record { sender = sender; job_heap = top ∷ heap }),
                    refl,
                    (
                      h,
                      (after, heap-IsLater now top heap after h.0),
                      (omega (arith, after), omega (arith, after)),
                    ),
                  )
            | inr ready ↦
                let (same, sorted) = reschedule_keeps fuel top heap h.1 in
                rw (ready, run_jobs)
                  (run_jobs_lem fuel (reschedule (clock fuel) top heap)
                    (send_job (create_duplicate top.message) sender) sorted (ground arith))
          ]

      -- A fetch ends, with one turn for each job at most: then nothing is due any more, the heap is in
      -- order, and the number returned is the seconds to the next job, or 0 where no job is left.
      -- The next time of a schedule lies after the time that is asked about, and the clock does not
      -- go back.
      pub fetch_interval_jobs_lem :
          (interval : Interval)
          → IsHeap ScheduledJob.execution_time interval.job_heap
          → (out : ℕ × Interval) × (fetch_interval_jobs clock now interval ≡ some out)
            × IsDone now out
      unfolding fetch_interval_jobs
      fetch_interval_jobs_lem interval h =
          run_jobs_lem (suc (length interval.job_heap)) interval.job_heap interval.sender h
            (omega (arith, due-le-length now interval.job_heap))

      -- The jobs that are set up from a configuration can be fetched.
      new_interval-fetch :
          (ids : String → String) (time : ℕ) (jobs : HashMap IntervalJob) (sender : c.State)
          → (out : ℕ × Interval) × (fetch_interval_jobs clock now
                (new_interval ids time jobs sender)
              ≡ some out)
            × IsDone now out
      unfolding new_interval
      new_interval-fetch ids time jobs sender =
          fetch_interval_jobs_lem (new_interval ids time jobs sender) (jobs_of-IsHeap ids time jobs)
