-- ===== src/Base/Heap.antt =====
-- `BinaryHeap<Reverse<A>>`: the elements in the order in which they are popped, the least key first.
-- Which of two equal keys comes first, Rust leaves open.
use plaid.Base.{ℕ, ◌≤◌, List, [], ◌∷◌, All, leb, leb→le, if◌then◌else◌, Bool-cases, inl, inr, arith}
use mathlib.Core.List.{Perm}
use mathlib.Core.List.Perm

module _ {ℓ} {A : Type ℓ} (key : A → ℕ) where
  unfoldable pub push : A → List A → List A
  push a [] = a ∷ []
  push a (b ∷ heap) = if leb (key a) (key b) then a ∷ b ∷ heap else b ∷ push a heap

  abbrev pub IsHeap : List A → Type 0
  IsHeap [] = Unit
  IsHeap (a ∷ heap) = All (λ b. key a ≤ key b) heap × IsHeap heap

  pub push-Perm : (a : A) (heap : List A) → Perm (push a heap) (a ∷ heap)
  unfolding push
  push-Perm a [] = Perm.rfl
  push-Perm a (b ∷ heap) = elim (Bool-cases (leb (key a) (key b))) [
    | inl e ↦ rw e Perm.rfl
    | inr e ↦ rw e (Perm.trans (Perm.cons b (push-Perm a heap)) (Perm.swap a b heap))
  ]

  push-All : (P : A → Type 0) (a : A) (heap : List A) → P a → All P heap → All P (push a heap)
  unfolding push
  push-All P a [] p all = (p, tt)
  push-All P a (b ∷ heap) p all = elim (Bool-cases (leb (key a) (key b))) [
    | inl e ↦ rw e (p, all)
    | inr e ↦ rw e (all.0, push-All P a heap p all.1)
  ]

  All-le :
      (a b : A) (heap : List A)
      → key a ≤ key b
      → All (λ c. key b ≤ key c) heap
      → All (λ c. key a ≤ key c) heap
  All-le a b [] h all = tt
  All-le a b (c ∷ heap) h all = (omega (arith, h, all.0), All-le a b heap h all.1)

  pub push-IsHeap : (a : A) (heap : List A) → IsHeap heap → IsHeap (push a heap)
  unfolding push
  push-IsHeap a [] h = (tt, tt)
  push-IsHeap a (b ∷ heap) h = elim (Bool-cases (leb (key a) (key b))) [
    | inl e ↦ let le = leb→le (key a) (key b) e in rw e ((le, All-le a b heap le h.0), h)
    | inr e ↦ rw e (push-All (λ c. key b ≤ key c) a heap (ground arith) h.0, push-IsHeap a heap h.1)
  ]
