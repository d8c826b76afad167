-- ===== src/Storage/Migration.antt =====
-- `apply_migration` of runtime/plaid/src/storage/mod.rs.
use plaid.Base.{
  ◌≡◌, refl, ◌∙◌, ap, sym, subst, String, str_eq, eq_iff, false, Option, none, some, [], ◌∷◌, All,
  arith, if◌then◌else◌, inl, inr,
}
use plaid.Base.Result.{Result, ok, err, Result-cases}
use plaid.Guest.{Bytes}
use plaid.Storage.{StorageProvider, StorageError, Entries}
use plaid.Storage.Contract.{Contract}

-- The migration of a pair.
abbrev pub Move : Type 0
Move = String → Bytes → String × Bytes

module _ (p : StorageProvider) (ns : String) (f : Move) where
  -- One turn of the loop: the old pair is deleted, then the new one inserted.
  unfoldable pub move_entry : String → Bytes → p.State → Result StorageError (Unit {0}) × p.State
  move_entry key value s =
      let (deleted, s1) = p.delete ns key s in
      elim deleted [
        | err e ↦ (err e, s1)
        | ok _ ↦
            let (inserted, s2) = p.insert ns (f key value).0 (f key value).1 s1 in
            elim inserted [ err e ↦ (err e, s2) | ok _ ↦ (ok tt, s2) ]
      ]

  unfoldable pub move_all : Entries → p.State → Result StorageError (Unit {0}) × p.State
  move_all [] s = (ok tt, s)
  move_all ((key, none) ∷ rest) s = move_all rest s
  move_all ((key, some value) ∷ rest) s =
      let (moved, s') = move_entry key value s in
      elim moved [ err e ↦ (err e, s') | ok _ ↦ move_all rest s' ]

  unfoldable pub apply_migration : p.State → Result StorageError (Unit {0}) × p.State
  apply_migration s =
      let (data_, s') = p.fetch_all ns none s in
      elim data_ [ err e ↦ (err e, s') | ok l ↦ move_all l s' ]

  -- The move of the entry neither reads nor writes the key `j`.
  abbrev pub IsAway : String → String × Option Bytes → Type 0
  IsAway j (key, none) = Unit
  IsAway j (key, some value) = (str_eq key j ≡ false) × (str_eq (f key value).0 j ≡ false)

  -- No entry moves to a key that a later one leaves, or moves to.
  abbrev pub IsSafe : Entries → Type 0
  IsSafe [] = Unit
  IsSafe ((key, none) ∷ rest) = IsSafe rest
  IsSafe ((key, some value) ∷ rest) = All (IsAway (f key value).0) rest × IsSafe rest

  module _ {at : p.State → String → String → Option Bytes} {size : p.State → String → _}
      (contract : Contract p at size) where
    -- The entry stands under its new key.
    abbrev pub IsMoved : p.State → String × Option Bytes → Type 0
    IsMoved s (key, none) = Unit
    IsMoved s (key, some value) = at s ns (f key value).0 ≡ some (f key value).1

    move_entry_lem :
        (key : String) (value : Bytes) (s : p.State)
        → (move_entry key value s).0 ≡ ok tt
        → (j : String)
        → at (move_entry key value s).1 ns j ≡ (
            if str_eq (f key value).0 j
            then some (f key value).1
            else if str_eq key j
            then none
            else at s ns j)
    unfolding move_entry
    move_entry_lem key value s e j =
        let gone = p.delete ns key s in
        let put = p.insert ns (f key value).0 (f key value).1 gone.1 in
        elim (Result-cases gone.0) [
          | inr (x, failed) ↦ absurd (ground arith)
          | inl (o, deleted) ↦ elim (Result-cases put.0) [
            | inr (x, failed) ↦ absurd (ground arith)
            | inl (old, inserted) ↦ ground (
              arith,
              eq_iff ns ns,
              contract.delete_ok_at ns key s o deleted ns j,
              contract.insert_ok_at ns (f key value).0 (f key value).1 gone.1 old inserted ns j,
            )
          ]
        ]

    away_keeps :
        (l : Entries) (s : p.State) (j : String)
        → All (IsAway j) l
        → (move_all l s).0 ≡ ok tt
        → at (move_all l s).1 ns j ≡ at s ns j
    unfolding move_all
    away_keeps [] s j away e = refl
    away_keeps ((key, none) ∷ rest) s j away e = away_keeps rest s j away.1 e
    away_keeps ((key, some value) ∷ rest) s j away e =
        elim (Result-cases (move_entry key value s).0) [
          | inr (x, failed) ↦ absurd (ground arith)
          | inl (u, moved) ↦
              let after : (move_all rest (move_entry key value s).1).0 ≡ ok tt = ground arith in
              rw (moved, move_all)
                (away_keeps rest (move_entry key value s).1 j away.1 after
                  ∙ ground (arith, move_entry_lem key value s moved j))
        ]

    move_all-IsMoved :
        (l : Entries) (s : p.State)
        → IsSafe l
        → (move_all l s).0 ≡ ok tt
        → All (IsMoved (move_all l s).1) l
    unfolding move_all
    move_all-IsMoved [] s safe e = tt
    move_all-IsMoved ((key, none) ∷ rest) s safe e = (tt, move_all-IsMoved rest s safe e)
    move_all-IsMoved ((key, some value) ∷ rest) s safe e =
        elim (Result-cases (move_entry key value s).0) [
          | inr (x, failed) ↦ absurd (ground arith)
          | inl (u, moved) ↦
              let s' = (move_entry key value s).1 in
              let new_key = (f key value).0 in
              let after : (move_all rest s').0 ≡ ok tt = ground arith in
              let turn : move_all rest s' ≡ move_all ((key, some value) ∷ rest) s = ground arith in
              (
                ap (λ r. at r.1 ns new_key) (sym turn)
                    ∙ away_keeps rest s' new_key safe.0 after
                    ∙ ground
                        (arith, eq_iff new_key new_key, move_entry_lem key value s moved new_key),
                subst (λ (r : Result StorageError (Unit {0}) × p.State). All (IsMoved r.1) rest)
                    turn (move_all-IsMoved rest s' safe.1 after),
              )
        ]

    apply_migration-all :
        (s : p.State) (l : Entries)
        → (p.fetch_all ns none s).0 ≡ ok l
        → apply_migration s ≡ move_all l (p.fetch_all ns none s).1
    unfolding apply_migration
    apply_migration-all s l e = ground arith

    -- A migration that succeeds leaves every entry that it found under its new key, with its new
    -- value, and every key that no entry leaves or moves to as it was, where no entry moves to a key
    -- that a later one, in the order of the fetch, leaves or moves to.
    pub apply_migration-IsMoved :
        (s : p.State) (l : Entries)
        → (p.fetch_all ns none s).0 ≡ ok l
        → IsSafe l
        → (apply_migration s).0 ≡ ok tt
        → All (IsMoved (apply_migration s).1) l
          × ((j : String) → All (IsAway j) l → at (apply_migration s).1 ns j ≡ at s ns j)
    apply_migration-IsMoved s l e safe done =
        let read = p.fetch_all ns none s in
        let is : apply_migration s ≡ move_all l read.1 = apply_migration-all s l e in
        let done' : (move_all l read.1).0 ≡ ok tt = rw is at done in
        rw is (
          move_all-IsMoved l read.1 safe done',
          λ j away. away_keeps l read.1 j away done' ∙ (contract.fetch_all_keeps ns none s ns j).0,
        )
