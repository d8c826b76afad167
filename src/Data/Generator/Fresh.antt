-- ===== src/Data/Generator/Fresh.antt =====
-- The logs that a generator has not sent yet, and how many there can be.
use plaid.Base.{
  ℕ, suc, ◌+◌, ◌≤◌, ◌≡◌, refl, ap, subst, inl, inr, String, str_eq, eq_iff, Bool, true, false, ◌||◌,
  List, [], ◌∷◌, ◌++◌, length, if◌then◌else◌, arith, Bool-cases,
}
use mathlib.Core.Path.{fun_ext}
use plaid.Guest.{Bytes}
use plaid.Functions.Storage.{contains}
use plaid.Data.Generator.{Support, DataGeneratorLog}

-- How many of the ids were not seen.
unfoldable pub unseen : (String → Bool) → List String → ℕ
unseen seen [] = 0
unseen seen (id ∷ ids) = if seen id then unseen seen ids else suc (unseen seen ids)

unseen-mark_le :
    (seen : String → Bool) (id : String) (ids : List String)
    → unseen (λ j. str_eq id j || seen j) ids ≤ unseen seen ids
unfolding unseen
unseen-mark_le seen id [] = omega arith
unseen-mark_le seen id (j ∷ ids) = ground (arith, unseen-mark_le seen id ids)

-- To mark one of the ids that was not seen takes it off.
unseen-mark :
    (seen : String → Bool) (id : String) (ids : List String)
    → contains ids id ≡ true
    → seen id ≡ false
    → suc (unseen (λ j. str_eq id j || seen j) ids) ≤ unseen seen ids
unfolding unseen contains
unseen-mark seen id [] h e = cc
unseen-mark seen id (j ∷ ids) h e =
    ground (arith, eq_iff j id, eq_iff id j, unseen-mark_le seen id ids, unseen-mark seen id ids)

pub unseen-le-length : (seen : String → Bool) (ids : List String) → unseen seen ids ≤ length ids
unfolding unseen
unseen-le-length seen [] = omega arith
unseen-le-length seen (id ∷ ids) = ground (arith, unseen-le-length seen ids)

module _ (s : Support) where
  -- The logs that are new: not seen before, and not the second one with their id.
  unfoldable pub fresh : (String → Bool) → List (DataGeneratorLog s) → List (DataGeneratorLog s)
  fresh seen [] = []
  fresh seen (log ∷ logs) = elim (seen log.id) [
    | true ↦ fresh seen logs
    | false ↦ log ∷ fresh (λ j. str_eq log.id j || seen j) logs
  ]

  unfoldable pub has_id : List (DataGeneratorLog s) → String → Bool
  has_id [] j = false
  has_id (log ∷ logs) j = str_eq log.id j || has_id logs j

  abbrev pub payloads : List (DataGeneratorLog s) → List Bytes
  payloads [] = []
  payloads (log ∷ logs) = log.payload ∷ payloads logs

  -- No log was seen before, and no two have the same id.
  abbrev pub IsFresh : (String → Bool) → List (DataGeneratorLog s) → Type 0
  IsFresh seen [] = Unit
  IsFresh seen (log ∷ logs) = (seen log.id ≡ false) × IsFresh (λ j. str_eq log.id j || seen j) logs

  -- The ids of the logs are among these.
  abbrev pub AreAmong : List String → List (DataGeneratorLog s) → Type 0
  AreAmong ids [] = Unit
  AreAmong ids (log ∷ logs) = (contains ids log.id ≡ true) × AreAmong ids logs

  pub fresh-IsFresh :
      (seen : String → Bool) (logs : List (DataGeneratorLog s)) → IsFresh seen (fresh seen logs)
  unfolding fresh
  fresh-IsFresh seen [] = tt
  fresh-IsFresh seen (log ∷ logs) = elim (Bool-cases (seen log.id)) [
    | inl e ↦
        let skipped : fresh seen (log ∷ logs) ≡ fresh seen logs = rw (fresh, e) in
        rw skipped (fresh-IsFresh seen logs)
    | inr e ↦
        let kept : fresh seen (log ∷ logs) ≡ log ∷ fresh (λ j. str_eq log.id j || seen j) logs =
          rw (fresh, e) in
        rw kept (e, fresh-IsFresh (λ j. str_eq log.id j || seen j) logs)
  ]

  pub fresh-AreAmong :
      (ids : List String) (seen : String → Bool) (logs : List (DataGeneratorLog s))
      → AreAmong ids logs
      → AreAmong ids (fresh seen logs)
  unfolding fresh
  fresh-AreAmong ids seen [] h = tt
  fresh-AreAmong ids seen (log ∷ logs) h = elim (Bool-cases (seen log.id)) [
    | inl e ↦
        let skipped : fresh seen (log ∷ logs) ≡ fresh seen logs = rw (fresh, e) in
        rw skipped (fresh-AreAmong ids seen logs h.1)
    | inr e ↦
        let kept : fresh seen (log ∷ logs) ≡ log ∷ fresh (λ j. str_eq log.id j || seen j) logs =
          rw (fresh, e) in
        rw kept (h.0, fresh-AreAmong ids (λ j. str_eq log.id j || seen j) logs h.1)
  ]

  pub IsFresh-prefix :
      (seen : String → Bool) (done rest : List (DataGeneratorLog s))
      → IsFresh seen (done ++ rest)
      → IsFresh seen done
  IsFresh-prefix seen [] rest h = tt
  IsFresh-prefix seen (log ∷ done) rest h =
      (h.0, IsFresh-prefix (λ j. str_eq log.id j || seen j) done rest h.1)

  pub AreAmong-prefix :
      (ids : List String) (done rest : List (DataGeneratorLog s))
      → AreAmong ids (done ++ rest)
      → AreAmong ids done
  AreAmong-prefix ids [] rest h = tt
  AreAmong-prefix ids (log ∷ done) rest h = (h.0, AreAmong-prefix ids done rest h.1)

  pub AreAmong-append :
      (ids : List String) (done more : List (DataGeneratorLog s))
      → AreAmong ids done
      → AreAmong ids more
      → AreAmong ids (done ++ more)
  AreAmong-append ids [] more h k = k
  AreAmong-append ids (log ∷ done) more h k = (h.0, AreAmong-append ids done more h.1 k)

  -- Marking a log and then others marks all of them.
  marked_in_turn :
      (seen : String → Bool) (log : DataGeneratorLog s) (logs : List (DataGeneratorLog s))
      → ◌≡◌ {A = String → Bool}
          (λ j. has_id (log ∷ logs) j || seen j)
          (λ j. has_id logs j || (str_eq log.id j || seen j))
  unfolding has_id
  marked_in_turn seen log logs = fun_ext (λ (j : String). ground arith)

  pub IsFresh-append :
      (seen : String → Bool) (done more : List (DataGeneratorLog s))
      → IsFresh seen done
      → IsFresh (λ j. has_id done j || seen j) more
      → IsFresh seen (done ++ more)
  unfolding has_id
  IsFresh-append seen [] more h k = k
  IsFresh-append seen (log ∷ done) more h k = (
    h.0,
    IsFresh-append (λ j. str_eq log.id j || seen j) done more h.1
        (subst (λ f. IsFresh f more) (marked_in_turn seen log done) k),
  )

  pub has_id-append :
      (done more : List (DataGeneratorLog s)) (j : String)
      → has_id (done ++ more) j ≡ (has_id done j || has_id more j)
  unfolding has_id
  has_id-append [] more j = refl
  has_id-append (log ∷ done) more j = ground (arith, has_id-append done more j)

  pub payloads-append :
      (done more : List (DataGeneratorLog s))
      → payloads (done ++ more) ≡ payloads done ++ payloads more
  payloads-append [] more = refl
  payloads-append (log ∷ done) more = ap (◌∷◌ log.payload) (payloads-append done more)

  -- Each new log takes one id off those that were not seen.
  pub IsFresh-unseen :
      (ids : List String) (seen : String → Bool) (logs : List (DataGeneratorLog s))
      → IsFresh seen logs
      → AreAmong ids logs
      → length logs + unseen (λ j. has_id logs j || seen j) ids ≤ unseen seen ids
  unfolding has_id
  IsFresh-unseen ids seen [] h k = omega arith
  IsFresh-unseen ids seen (log ∷ logs) h k =
      let rest = IsFresh-unseen ids (λ j. str_eq log.id j || seen j) logs h.1 k.1 in
      let one = unseen-mark seen log.id ids k.0 h.0 in
      let same = ap (λ f. unseen f ids) (marked_in_turn seen log logs) in
      omega (arith, rest, one, same)
