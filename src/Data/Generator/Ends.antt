-- ===== src/Data/Generator/Ends.antt =====
-- The loop of `get_and_process_dg_logs` ends, and sends no log twice over all its turns.
use plaid.Base.{
  ℕ, zero, suc, ◌^◌, ◌≤◌, ◌<◌, ◌≡◌, refl, ap, ◌⊎◌, inl, inr, String, Bool, Option, some, List, [],
  ◌∷◌, length, arith, Bool-cases, Option-cases,
}
use plaid.Base.Result.{Result, ok, err}
use plaid.Guest.{Bytes}
use plaid.Storage.{StorageProvider}
use plaid.Data.Generator.{
  Support, DataGenerator, DataGeneratorLog, Turn, again, stops, fails, window, process_logs,
  after_logs, store_if_any, turn, get_and_process_dg_logs,
}
use plaid.Data.Generator.Fresh.{
  AreAmong, unseen, fresh, IsFresh-unseen, fresh-IsFresh, fresh-AreAmong, unseen-le-length,
}
use plaid.Data.Generator.Interface.{IsGenerator}
use plaid.Data.Generator.Exact.{Processed, process_logs-Processed}
use plaid.Data.Generator.Sent.{
  seen_by, Sent, Sent-refl, Sent-trans, Sent-unseen, HasRoom, HasRoom-Sent, Processed-Sent,
}

Turn-cases : (t : Turn) → (t ≡ again) ⊎ ((t ≡ stops) ⊎ (t ≡ fails))
Turn-cases again = inl refl
Turn-cases stops = inr (inl refl)
Turn-cases fails = inr (inr refl)

module _ (s : Support) (dg : DataGenerator s) (sent : dg.Self → List Bytes) (room : dg.Self → ℕ)
    (ids : List String) (p : StorageProvider) where
  -- What a turn sends; it is something where another turn follows.
  abbrev TurnSent : dg.Self → Turn × dg.Self × Option p.State → Type 0
  TurnSent d out =
      (steps : Sent s dg sent room ids d out.1) × (out.0 ≡ again → 0 < length steps.logs)

  after_logs-TurnSent :
      (logs : List (DataGeneratorLog s)) (d : dg.Self) (storage : Option p.State)
      (out : Result (Unit {0}) ℕ × dg.Self)
      → AreAmong s ids logs
      → Processed s dg sent room logs 0 d out
      → TurnSent d (after_logs s dg p out storage)
  unfolding after_logs
  after_logs-TurnSent logs d storage (err e, d') among q =
      ((Processed-Sent s dg sent room ids logs 0 d (err e, d') among q).0, λ h. cc)
  after_logs-TurnSent logs d storage (ok zero, d') among q =
      ((Processed-Sent s dg sent room ids logs 0 d (ok zero, d') among q).0, λ h. cc)
  after_logs-TurnSent logs d storage (ok (suc count), d') among q =
      let some_sent : 0 < length q.done = ground (arith, q.result) in
      let eq : after_logs s dg p (ok (suc count), d') storage
          ≡ (again, d', store_if_any s dg p d' storage) =
        ground arith in
      let (steps, same) = Processed-Sent s dg sent room ids logs 0 d (ok (suc count), d') among q in
      rw eq (steps, λ h. omega (arith, some_sent, ap length same))

  module _ (g : IsGenerator s dg sent room) (small : length ids < 2 ^ 32)
      (listed : (n : ℕ) (d : dg.Self) (since until : s.OffsetDateTime)
          (logs : List (DataGeneratorLog s))
        → dg.fetch_logs n d since until ≡ some logs
        → AreAmong s ids logs) where
    fresh_fits :
        (d : dg.Self) (logs : List (DataGeneratorLog s))
        → AreAmong s ids logs
        → length (fresh s (λ j. dg.was_already_seen j d) logs)
          ≤ unseen (λ j. dg.was_already_seen j d) ids
    fresh_fits d logs among =
        let seen : String → Bool = λ j. dg.was_already_seen j d in
        omega (
          arith,
          IsFresh-unseen s ids seen (fresh s seen logs) (fresh-IsFresh s seen logs)
              (fresh-AreAmong s ids seen logs among),
        )

    turn-TurnSent :
        (n now : ℕ) (d : dg.Self) (storage : Option p.State)
        → HasRoom s dg sent room ids d
        → TurnSent d (turn s dg p n now d storage)
    unfolding turn
    turn-TurnSent n now d storage h =
        let nothing = Sent-refl s dg sent room ids d in
        let out = turn s dg p n now d storage in
        elim (Option-cases (window s dg now d)) [
          | inl e ↦ let eq : out ≡ (fails, d, storage) = rw (turn, e) in rw eq (nothing, λ h. cc)
          | inr ((since, until), e) ↦ elim (Bool-cases (s.before until (dg.get_last_seen d))) [
            | inl early ↦
                let eq : out ≡ (stops, d, storage) = rw (turn, e, early) in rw eq (nothing, λ h. cc)
            | inr late ↦ elim (Option-cases (dg.fetch_logs n d since until)) [
              | inl failed ↦
                  let eq : out ≡ (fails, d, storage) = rw (turn, e, late, failed) in
                  rw eq (nothing, λ h. cc)
              | inr ([], got) ↦
                  let eq : out ≡ (stops, d, storage) = rw (turn, e, late, got) in
                  rw eq (nothing, λ h. cc)
              | inr (log ∷ logs, got) ↦
                  let processed = process_logs s dg (log ∷ logs) 0 d in
                  let eq : out ≡ after_logs s dg p processed storage = rw (turn, e, late, got) in
                  let among = listed n d since until (log ∷ logs) got in
                  let few = fresh_fits d (log ∷ logs) among in
                  rw eq (
                    after_logs-TurnSent (log ∷ logs) d storage processed among (
                      process_logs-Processed s dg sent room g (log ∷ logs) 0 d (omega (arith, few))
                        (omega (arith, few, unseen-le-length (seen_by s dg sent room ids d) ids))))
            ]
          ]
        ]

    -- The loop ends: it takes one turn more than there are ids that were not seen, at most. Over
    -- all its turns it sends no log that was seen before, and no two with the same id; these are
    -- marked as seen, and no others. All ids that the service gives are among some fewer than 2^32,
    -- and the generator has room for those that it has not seen.
    pub get_and_process_dg_logs_ends :
        (fuel n : ℕ) (clock : ℕ → ℕ) (d : dg.Self) (storage : Option p.State)
        → unseen (λ j. dg.was_already_seen j d) ids < fuel
        → HasRoom s dg sent room ids d
        → (r : Result (Unit {0}) (Unit {0})) × (d' : dg.Self) × (storage' : Option p.State)
          × (get_and_process_dg_logs s dg p fuel clock n d storage ≡ some (r, d', storage'))
          × Sent s dg sent room ids d d'
    unfolding get_and_process_dg_logs
    get_and_process_dg_logs_ends zero n clock d storage enough h = absurd (omega arith)
    get_and_process_dg_logs_ends (suc fuel) n clock d storage enough h =
        let t = turn s dg p n (clock n) d storage in
        let (steps, more) = turn-TurnSent n (clock n) d storage h in
        elim (Turn-cases t.0) [
          | inl e ↦
              let left = Sent-unseen s dg sent room ids d t.1 steps in
              let (r, d', storage', eq, rest) =
                get_and_process_dg_logs_ends fuel (suc n) clock t.1 t.2
                  (omega (arith, left, more e)) (HasRoom-Sent s dg sent room ids d t.1 steps h) in
              (
                r,
                d',
                storage',
                rw (get_and_process_dg_logs, e) eq,
                Sent-trans s dg sent room ids d t.1 d' steps rest,
              )
          | inr (inl e) ↦ (ok tt, t.1, t.2, rw (get_and_process_dg_logs, e), steps)
          | inr (inr e) ↦ (err tt, t.1, t.2, rw (get_and_process_dg_logs, e), steps)
        ]
