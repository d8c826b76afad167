-- ===== src/Base/Dict.antt =====
-- A `HashMap` with text keys, as an association list. The order of the list stands for the
-- iteration order of the map, which Rust leaves open.
use Prim.Native.String.{String}
use mathlib.Core.Path.{◌≡◌, refl}
use mathlib.Core.List.{List, [], ◌∷◌}
use mathlib.Core.Option.{Option, none, some}
use native.Mathlib.Omega.{arith}
use text.Mathlib.Text.{◌==◌}
use text.Mathlib.TextEquality.{eq_iff}
use plaid.Base.Tests.{if◌then◌else◌}

abbrev pub HashMap {ℓ} : Type ℓ → Type ℓ
HashMap V = List (String × V)

module _ {ℓ} {V : Type ℓ} where
  unfoldable pub lookup : String → HashMap V → Option V
  lookup key [] = none
  lookup key ((head, val) ∷ rest) = if head == key then some val else lookup key rest

  -- No key occurs twice.
  abbrev pub IsMap : HashMap V → Type ℓ
  IsMap [] = Unit
  IsMap ((key, _) ∷ rest) = (lookup key rest ≡ none) × IsMap rest

  unfoldable pub erase : String → HashMap V → HashMap V
  erase key [] = []
  erase key ((head, val) ∷ rest) = if head == key then rest else (head, val) ∷ erase key rest

  pub lookup-erase :
      (key other : String) (m : HashMap V)
      → IsMap m
      → lookup other (erase key m) ≡ (if key == other then none else lookup other m)
  unfolding lookup erase
  lookup-erase key other [] h = ground arith
  lookup-erase key other ((head, val) ∷ rest) h =
      ground (
        arith,
        eq_iff head key,
        eq_iff key other,
        eq_iff head other,
        lookup-erase key other rest h.1,
      )

  pub erase-IsMap : (key : String) (m : HashMap V) → IsMap m → IsMap (erase key m)
  unfolding lookup erase
  erase-IsMap key [] h = tt
  erase-IsMap key ((head, val) ∷ rest) h = ground (
    arith,
    eq_iff head key,
    eq_iff key head,
    lookup-erase key head rest h.1,
    erase-IsMap key rest h.1,
  )

  unfoldable pub insert : String → V → HashMap V → HashMap V
  insert key val [] = (key, val) ∷ []
  insert key val ((head, old) ∷ rest) =
      if head == key then (key, val) ∷ rest else (head, old) ∷ insert key val rest

  pub lookup-insert :
      (key other : String) (val : V) (m : HashMap V)
      → lookup other (insert key val m) ≡ (if key == other then some val else lookup other m)
  unfolding lookup insert
  lookup-insert key other val [] = refl
  lookup-insert key other val ((head, old) ∷ rest) = ground (
    arith,
    eq_iff head key,
    eq_iff key other,
    eq_iff head other,
    lookup-insert key other val rest,
  )

  pub insert-IsMap : (key : String) (val : V) (m : HashMap V) → IsMap m → IsMap (insert key val m)
  unfolding lookup insert
  insert-IsMap key val [] h = (refl, tt)
  insert-IsMap key val ((head, old) ∷ rest) h = ground (
    arith,
    eq_iff head key,
    eq_iff key head,
    lookup-insert key head val rest,
    insert-IsMap key val rest h.1,
  )

  -- `HashMap::extend`
  unfoldable pub extend : HashMap V → HashMap V → HashMap V
  extend m [] = m
  extend m ((key, val) ∷ rest) = extend (insert key val m) rest

  -- The entry of the first map, if it has one.
  abbrev pub or_else : Option V → Option V → Option V
  or_else none o = o
  or_else (some v) o = some v

  pub lookup-extend :
      (key : String) (m new : HashMap V)
      → IsMap new
      → lookup key (extend m new) ≡ or_else (lookup key new) (lookup key m)
  unfolding lookup extend
  lookup-extend key m [] h = refl
  lookup-extend key m ((head, val) ∷ rest) h = ground (
    arith,
    eq_iff head key,
    lookup-insert head key val m,
    lookup-extend key (insert head val m) rest h.1,
  )
