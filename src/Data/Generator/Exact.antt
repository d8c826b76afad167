-- ===== src/Data/Generator/Exact.antt =====
-- What `get_and_process_dg_logs` sends: the loop over the logs of a fetch, against a list of the
-- logs that are new.
use plaid.Base.{
  ℕ, suc, ◌+◌, ◌%◌, ◌^◌, ◌≤◌, ◌<◌, ◌≡◌, refl, sym, ap, ◌∙◌, ◌⊎◌, inl, inr, String, str_eq, Bool,
  true, false, ◌||◌, some, List, [], ◌∷◌, ◌++◌, length, arith, Bool-cases, Option-cases, subst,
}
use mathlib.Core.Path.{fun_ext}
use mathlib.Core.List.{append_assoc, append-nil}
use plaid.Base.Result.{Result, ok, err}
use plaid.Guest.{Bytes}
use plaid.Data.Generator.{Support, DataGenerator, DataGeneratorLog, process_logs}
use plaid.Data.Generator.Fresh.{fresh, has_id, payloads}
use plaid.Data.Generator.Interface.{
  IsGenerator, newer, advance, advance-last, advance-seen, advance-sent, advance-room,
}

module _ (s : Support) (dg : DataGenerator s) where
  -- The latest timestamp of some logs, no earlier than `last`.
  unfoldable pub newest : s.OffsetDateTime → List (DataGeneratorLog s) → s.OffsetDateTime
  newest last [] = last
  newest last (log ∷ logs) = newest (newer s dg last log.timestamp) logs

  -- `done` are the new logs that were sent: all of them, or those before the one that could not be.
  pub record Processed (sent : dg.Self → List Bytes) (room : dg.Self → ℕ)
      (logs : List (DataGeneratorLog s)) (count : ℕ) (d : dg.Self)
      (out : Result (Unit {0}) ℕ × dg.Self) : Type 0 where
    pub done : List (DataGeneratorLog s)
    pub rest : List (DataGeneratorLog s)
    pub in_order : fresh s (λ j. dg.was_already_seen j d) logs ≡ done ++ rest
    pub all_sent : sent out.1 ≡ sent d ++ payloads s done
    pub last_seen : dg.get_last_seen out.1 ≡ newest (dg.get_last_seen d) done
    pub all_seen :
        (j : String) → dg.was_already_seen j out.1 ≡ (has_id s done j || dg.was_already_seen j d)
    pub room_left : room d ≤ length done + room out.1
    pub result :
        ((rest ≡ []) × (out.0 ≡ ok (count + length done)))
        ⊎ (((log : DataGeneratorLog s) × (more : List (DataGeneratorLog s)) × (rest ≡ log ∷ more))
            × (out.0 ≡ err tt))

  module _ (sent : dg.Self → List Bytes) (room : dg.Self → ℕ) (g : IsGenerator s dg sent room) where
    Processed-skip :
        (log : DataGeneratorLog s) (logs : List (DataGeneratorLog s)) (count : ℕ) (d : dg.Self)
        (out : Result (Unit {0}) ℕ × dg.Self)
        → dg.was_already_seen log.id d ≡ true
        → Processed sent room logs count d out
        → Processed sent room (log ∷ logs) count d out
    unfolding fresh
    Processed-skip log logs count d out e p = record {
      done = p.done;
      rest = p.rest;
      in_order = rw (fresh, e) p.in_order;
      all_sent = p.all_sent;
      last_seen = p.last_seen;
      all_seen = p.all_seen;
      room_left = p.room_left;
      result = p.result;
    }

    Processed-refused :
        (log : DataGeneratorLog s) (logs : List (DataGeneratorLog s)) (count : ℕ) (d : dg.Self)
        → dg.was_already_seen log.id d ≡ false
        → Processed sent room (log ∷ logs) count d (err tt, d)
    unfolding newest has_id fresh
    Processed-refused log logs count d e = record {
      done = [];
      rest = log ∷ fresh s (λ j. str_eq log.id j || dg.was_already_seen j d) logs;
      in_order = rw (fresh, e);
      all_sent = sym (append-nil (sent d));
      last_seen = refl;
      all_seen = λ j. refl;
      room_left = omega arith;
      result =
          inr ((log, fresh s (λ j. str_eq log.id j || dg.was_already_seen j d) logs, refl), refl);
    }

    result_sent :
        (count k : ℕ) (rest : List (DataGeneratorLog s)) (r : Result (Unit {0}) ℕ)
        → count + 1 < 2 ^ 32
        → (((rest ≡ []) × (r ≡ ok ((count + 1) % 2 ^ 32 + k)))
            ⊎ (((log : DataGeneratorLog s) × (more : List (DataGeneratorLog s)) × (rest
                    ≡ log ∷ more))
                × (r ≡ err tt)))
        → ((rest ≡ []) × (r ≡ ok (count + suc k)))
          ⊎ (((log : DataGeneratorLog s) × (more : List (DataGeneratorLog s)) × (rest ≡ log ∷ more))
              × (r ≡ err tt))
    result_sent count k rest r lt (inl (e, q)) =
        let same : (count + 1) % 2 ^ 32 + k ≡ count + suc k = omega arith in inl (e, q ∙ ap ok same)
    result_sent count k rest r lt (inr q) = inr q

    Processed-sent :
        (log : DataGeneratorLog s) (logs : List (DataGeneratorLog s)) (count : ℕ) (d d' : dg.Self)
        (out : Result (Unit {0}) ℕ × dg.Self)
        → 0 < room d
        → count + 1 < 2 ^ 32
        → dg.was_already_seen log.id d ≡ false
        → dg.send_for_processing log.payload d ≡ some d'
        → Processed sent room logs ((count + 1) % 2 ^ 32) (advance s dg log d') out
        → Processed sent room (log ∷ logs) count d out
    unfolding newest has_id fresh
    Processed-sent log logs count d d' out roomy small e h p =
        let order : fresh s (λ j. str_eq log.id j || dg.was_already_seen j d) logs
            ≡ p.done ++ p.rest =
          subst (λ seen. fresh s seen logs ≡ p.done ++ p.rest)
            (fun_ext (λ j. advance-seen s dg sent room g log d d' j roomy h)) p.in_order in
        record {
          done = log ∷ p.done;
          rest = p.rest;
          in_order = rw (fresh, e) (ap (◌∷◌ log) order);
          all_sent =
              p.all_sent
              ∙ ap (◌++ payloads s p.done) (advance-sent s dg sent room g log d d' h)
              ∙ append_assoc (sent d) (log.payload ∷ []) (payloads s p.done);
          last_seen =
              p.last_seen
              ∙ ap (λ last. newest last p.done) (advance-last s dg sent room g log d d' h);
          all_seen =
              λ j. ground (arith, p.all_seen j, advance-seen s dg sent room g log d d' j roomy h);
          room_left = omega (arith, p.room_left, advance-room s dg sent room g log d d' h);
          result = result_sent count (length p.done) p.rest out.0 small p.result;
        }

    -- Of the logs of a fetch exactly the new ones are sent, each once and in order, up to the first
    -- that the channel refuses. The ids of those sent are then marked as seen, and of no other; the
    -- last time seen is the latest of theirs and of the one before. The result counts those sent
    -- where none was refused, and is an error where one was. There are no more new logs than the
    -- generator has room for, and fewer than 2^32 with those counted before.
    pub process_logs-Processed :
        (logs : List (DataGeneratorLog s)) (count : ℕ) (d : dg.Self)
        → length (fresh s (λ j. dg.was_already_seen j d) logs) ≤ room d
        → count + length (fresh s (λ j. dg.was_already_seen j d) logs) < 2 ^ 32
        → Processed sent room logs count d (process_logs s dg logs count d)
    unfolding process_logs fresh newest has_id
    process_logs-Processed [] count d fits small =
        let same : count + 0 ≡ count = omega arith in
        record {
          done = [];
          rest = [];
          in_order = refl;
          all_sent = sym (append-nil (sent d));
          last_seen = refl;
          all_seen = λ j. refl;
          room_left = omega arith;
          result = inl (refl, ap ok (sym same));
        }
    process_logs-Processed (log ∷ logs) count d fits small =
        let out = process_logs s dg (log ∷ logs) count d in
        let seen : String → Bool = λ j. dg.was_already_seen j d in
        elim (Bool-cases (dg.was_already_seen log.id d)) [
          | inl e ↦
              let eq : out ≡ process_logs s dg logs count d = rw (process_logs, e) in
              let same : fresh s seen (log ∷ logs) ≡ fresh s seen logs = rw (fresh, e) in
              let fewer = ap length same in
              rw eq (
                Processed-skip log logs count d (process_logs s dg logs count d) e (
                  process_logs-Processed logs count d (omega (arith, fewer))
                    (omega (arith, fewer))))
          | inr e ↦ elim (Option-cases (dg.send_for_processing log.payload d)) [
            | inl refused ↦
                let eq : out ≡ (err tt, d) = rw (process_logs, e, refused) in
                rw eq (Processed-refused log logs count d e)
            | inr (d', h) ↦
                let next = advance s dg log d' in
                let rest = process_logs s dg logs ((count + 1) % 2 ^ 32) next in
                let eq : out ≡ rest = rw (process_logs, e, h) in
                let seen' : String → Bool = λ j. dg.was_already_seen j next in
                let all : length (fresh s seen (log ∷ logs))
                    ≡ suc (length (fresh s (λ j. str_eq log.id j || seen j) logs)) =
                  rw (fresh, e) in
                let roomy : 0 < room d = omega (arith, all) in
                let same : seen' ≡ (λ j. str_eq log.id j || seen j) =
                  fun_ext (λ j. advance-seen s dg sent room g log d d' j roomy h) in
                let fewer : length (fresh s seen' logs)
                    ≡ length (fresh s (λ j. str_eq log.id j || seen j) logs) =
                  ap (λ f. length (fresh s f logs)) same in
                let left : room d ≤ suc (room next) = advance-room s dg sent room g log d d' h in
                rw eq (
                  Processed-sent log logs count d d' rest roomy (omega (arith, all)) e h (
                    process_logs-Processed logs ((count + 1) % 2 ^ 32) next
                      (omega (arith, all, fewer)) (omega (arith, all, fewer))))
          ]
        ]
