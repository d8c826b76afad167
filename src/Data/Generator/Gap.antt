-- ===== src/Data/Generator/Gap.antt =====
-- What becomes of a generator whose service is quiet for longer than the span of a fetch.
use plaid.Base.{
  ℕ, suc, ◌≤◌, ◌≡◌, ◌≢◌, refl, ◌⊎◌, inl, inr, min, true, false, Option, none, some, List, [], ◌∷◌,
  All, Bool-cases, Option-cases, arith,
}
use native.Mathlib.Nat.{min-le_right}
use plaid.Base.Words.{add_u64, sub_u64}
use plaid.Base.Result.{Result, ok, err}
use plaid.Storage.{StorageProvider}
use plaid.Data.Generator.{
  Support, DataGenerator, DataGeneratorLog, Turn, again, stops, fails, window, process_logs,
  after_logs, turn, get_and_process_dg_logs,
}

module _ (s : Support) (dg : DataGenerator s) (p : StorageProvider) where
  -- A log that was seen, or is later than `limit`.
  abbrev pub SeenOrLater : s.OffsetDateTime → dg.Self → DataGeneratorLog s → Type 0
  SeenOrLater limit d log =
      (dg.was_already_seen log.id d ≡ true) ⊎ (s.before limit log.timestamp ≡ true)

  -- The times up to which a fetch can go.
  abbrev pub end_of_span : dg.Self → ℕ
  end_of_span d =
      add_u64 (s.unix_timestamp (s.saturating_sub (dg.get_last_seen d) 1))
        (dg.get_max_since_until_interval d)

  process_logs-seen :
      (logs : List (DataGeneratorLog s)) (count : ℕ) (d : dg.Self)
      → All (λ log. dg.was_already_seen log.id d ≡ true) logs
      → process_logs s dg logs count d ≡ (ok count, d)
  unfolding process_logs
  process_logs-seen [] count d h = refl
  process_logs-seen (log ∷ logs) count d h =
      rw (process_logs, h.0) (process_logs-seen logs count d h.1)

  only_seen :
      (limit until : s.OffsetDateTime) (d : dg.Self) (logs : List (DataGeneratorLog s))
      → ((t : s.OffsetDateTime) → s.before limit t ≡ true → s.before until t ≡ true)
      → All (SeenOrLater limit d) logs
      → All (λ log. s.before until log.timestamp ≡ false) logs
      → All (λ log. dg.was_already_seen log.id d ≡ true) logs
  only_seen limit until d [] earlier h k = tt
  only_seen limit until d (log ∷ logs) earlier h k = (
    ground (arith, earlier log.timestamp, h.0, k.0),
    only_seen limit until d logs earlier h.1 k.1,
  )

  module _ (d : dg.Self) (limit : s.OffsetDateTime)
      (is_limit : s.from_unix_timestamp (end_of_span d) ≡ some limit)
      (monotone : (m n : ℕ) (a b t : s.OffsetDateTime)
        → m ≤ n
        → s.from_unix_timestamp m ≡ some a
        → s.from_unix_timestamp n ≡ some b
        → s.before b t ≡ true
        → s.before a t ≡ true)
      (in_span : (n : ℕ) (since until : s.OffsetDateTime) (logs : List (DataGeneratorLog s))
        → dg.fetch_logs n d since until ≡ some logs
        → All (λ log. s.before until log.timestamp ≡ false) logs)
      (quiet : (n : ℕ) (since until : s.OffsetDateTime) (logs : List (DataGeneratorLog s))
        → dg.fetch_logs n d since until ≡ some logs
        → All (SeenOrLater limit d) logs) where
    window-before :
        (now : ℕ) (since until : s.OffsetDateTime)
        → window s dg now d ≡ some (since, until)
        → (t : s.OffsetDateTime) → s.before limit t ≡ true
        → s.before until t ≡ true
    unfolding window
    window-before now since until h t later =
        let end = end_of_span d in
        let capped : ℕ = min (sub_u64 now (dg.get_canon_time d)) end in
        elim (Option-cases (s.from_unix_timestamp capped)) [
          | inl e ↦ let none_at : window s dg now d ≡ none = rw (window, e) in cc
          | inr (u, e) ↦
              let at : window s dg now d ≡ some (s.saturating_sub (dg.get_last_seen d) 1, u) =
                rw (window, e) in
              let same : u ≡ until = cc in
              rw (← same) (
                monotone capped end u limit t (min-le_right (sub_u64 now (dg.get_canon_time d)) end)
                  e is_limit later)
        ]

    turn-quiet :
        (n now : ℕ) (storage : Option p.State)
        → (t : Turn) × (t ≢ again) × (turn s dg p n now d storage ≡ (t, d, storage))
    unfolding turn after_logs
    turn-quiet n now storage = elim (Option-cases (window s dg now d)) [
      | inl e ↦ (fails, λ h. cc, rw (turn, e))
      | inr ((since, until), e) ↦ elim (Bool-cases (s.before until (dg.get_last_seen d))) [
        | inl early ↦ (stops, λ h. cc, rw (turn, e, early))
        | inr late ↦ elim (Option-cases (dg.fetch_logs n d since until)) [
          | inl failed ↦ (fails, λ h. cc, rw (turn, e, late, failed))
          | inr ([], got) ↦ (stops, λ h. cc, rw (turn, e, late, got))
          | inr (log ∷ logs, got) ↦
              let all_seen =
                only_seen limit until d (log ∷ logs) (window-before now since until e)
                  (quiet n since until (log ∷ logs) got) (in_span n since until (log ∷ logs) got) in
              (stops, λ h. cc, rw (turn, e, late, got, process_logs-seen (log ∷ logs) 0 d all_seen))
        ]
      ]
    ]

    -- A quiet service stalls its generator: where each log that the service has was seen or is
    -- later than the span of a fetch, counted from the last time seen, a call of the loop sends
    -- nothing and leaves the generator as it was, whatever the time is. The same then holds of the
    -- next call, so the later logs are never fetched. The service gives no log after the end of
    -- the span asked for, and the conversion of seconds to times is monotone.
    pub get_and_process_dg_logs_stalls :
        (fuel n : ℕ) (clock : ℕ → ℕ) (storage : Option p.State)
        → (r : Result (Unit {0}) (Unit {0})) × (get_and_process_dg_logs s dg p
              (suc fuel)
              clock
              n
              d
              storage
            ≡ some (r, d, storage))
    unfolding get_and_process_dg_logs
    get_and_process_dg_logs_stalls fuel n clock storage =
        let (t, ends, at) = turn-quiet n (clock n) storage in ended t ends at
      where
        ended :
            (t : Turn)
            → t ≢ again
            → turn s dg p n (clock n) d storage ≡ (t, d, storage)
            → (r : Result (Unit {0}) (Unit {0})) × (get_and_process_dg_logs s dg p
                  (suc fuel)
                  clock
                  n
                  d
                  storage
                ≡ some (r, d, storage))
        ended again ends at = absurd (ends refl)
        ended stops ends at = (ok tt, ground arith)
        ended fails ends at = (err tt, ground arith)
