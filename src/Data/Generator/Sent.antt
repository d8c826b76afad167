-- ===== src/Data/Generator/Sent.antt =====
-- What a generator sends and marks over any part of a run of `get_and_process_dg_logs`.
use plaid.Base.{
  ℕ, ◌+◌, ◌≤◌, ◌≡◌, refl, sym, ap, ◌∙◌, subst, String, Bool, ◌||◌, List, [], ◌++◌, length,
  length-append, arith,
}
use mathlib.Core.Path.{fun_ext}
use mathlib.Core.List.{append_assoc, append-nil}
use plaid.Base.Result.{Result}
use plaid.Guest.{Bytes}
use plaid.Data.Generator.{Support, DataGenerator, DataGeneratorLog}
use plaid.Data.Generator.Fresh.{
  has_id, payloads, IsFresh, AreAmong, unseen, fresh-IsFresh, fresh-AreAmong, IsFresh-prefix,
  AreAmong-prefix, AreAmong-append, IsFresh-append, has_id-append, payloads-append, IsFresh-unseen,
}
use plaid.Data.Generator.Exact.{Processed}

module _ (s : Support) (dg : DataGenerator s) (sent : dg.Self → List Bytes) (room : dg.Self → ℕ)
    (ids : List String) where
  abbrev pub seen_by : dg.Self → String → Bool
  seen_by d j = dg.was_already_seen j d

  -- From `d` to `d'` these logs were sent and marked: each is new, and no two have the same id.
  pub record Sent (d d' : dg.Self) : Type 0 where
    pub logs : List (DataGeneratorLog s)
    pub is_fresh : IsFresh s (seen_by d) logs
    pub among : AreAmong s ids logs
    pub all_sent : sent d' ≡ sent d ++ payloads s logs
    pub all_seen : (j : String) → seen_by d' j ≡ (has_id s logs j || seen_by d j)
    pub room_left : room d ≤ length logs + room d'

  pub Sent-refl : (d : dg.Self) → Sent d d
  unfolding has_id
  Sent-refl d = record {
    logs = [];
    is_fresh = tt;
    among = tt;
    all_sent = sym (append-nil (sent d));
    all_seen = λ j. refl;
    room_left = omega arith;
  }

  pub Sent-trans : (d e f : dg.Self) → Sent d e → Sent e f → Sent d f
  Sent-trans d e f p q = record {
    logs = p.logs ++ q.logs;
    is_fresh =
        IsFresh-append s (seen_by d) p.logs q.logs p.is_fresh
          (subst (λ f. IsFresh s f q.logs) (fun_ext p.all_seen) q.is_fresh);
    among = AreAmong-append s ids p.logs q.logs p.among q.among;
    all_sent =
        q.all_sent
        ∙ ap (◌++ payloads s q.logs) p.all_sent
        ∙ append_assoc (sent d) (payloads s p.logs) (payloads s q.logs)
        ∙ ap (sent d ++◌) (sym (payloads-append s p.logs q.logs));
    all_seen = λ j. ground (arith, p.all_seen j, q.all_seen j, has_id-append s p.logs q.logs j);
    room_left = omega (arith, p.room_left, q.room_left, length-append p.logs q.logs);
  }

  -- What was sent is off the ids that were not seen.
  pub Sent-unseen :
      (d d' : dg.Self) (p : Sent d d')
      → length p.logs + unseen (seen_by d') ids ≤ unseen (seen_by d) ids
  Sent-unseen d d' p =
      let left = IsFresh-unseen s ids (seen_by d) p.logs p.is_fresh p.among in
      subst (λ f. length p.logs + unseen f ids ≤ unseen (seen_by d) ids) (sym (fun_ext p.all_seen))
        left

  -- There is room for the ids that were not seen.
  abbrev pub HasRoom : dg.Self → Type 0
  HasRoom d = unseen (seen_by d) ids ≤ room d

  pub HasRoom-Sent : (d d' : dg.Self) → Sent d d' → HasRoom d → HasRoom d'
  HasRoom-Sent d d' p h = omega (arith, p.room_left, Sent-unseen d d' p)

  pub Processed-Sent :
      (logs : List (DataGeneratorLog s)) (count : ℕ) (d : dg.Self)
      (out : Result (Unit {0}) ℕ × dg.Self) (among : AreAmong s ids logs)
      (p : Processed s dg sent room logs count d out)
      → (steps : Sent d out.1) × (steps.logs ≡ p.done)
  Processed-Sent logs count d out among p = (
    record {
      logs = p.done;
      is_fresh =
          IsFresh-prefix s (seen_by d) p.done p.rest
            (subst (IsFresh s (seen_by d)) p.in_order (fresh-IsFresh s (seen_by d) logs));
      among =
          AreAmong-prefix s ids p.done p.rest
            (subst (AreAmong s ids) p.in_order (fresh-AreAmong s ids (seen_by d) logs among));
      all_sent = p.all_sent;
      all_seen = p.all_seen;
      room_left = p.room_left;
    },
    refl,
  )
