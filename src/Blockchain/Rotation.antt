-- ===== src/Blockchain/Rotation.antt =====
-- How the index of a round-robin selector moves, and which nodes it comes to.
use plaid.Base.{
  ℕ, zero, suc, ◌+◌, ◌-◌, ◌%◌, ◌≤◌, ◌<◌, ◌≡◌, refl, sym, ap, ◌∙◌, inl, inr, some, List, [], ◌∷◌,
  length, get_elem?, leb, Bool-cases, leb→le, arith, Option,
}
use native.Mathlib.Nat.{mod-add-mod, mod-lt, add-mod_right, mod-eq_of_lt}
use plaid.Base.Words.{add_u64, u64_mod, add_u64_of_lt}
use plaid.Blockchain.NodeSelection.{
  NodeConfig, NodeSelector, round_robin, node_at, select_node, mark_current_node_failed,
}

-- A round-robin selector over `nodes` at the index `i`.
abbrev pub rotating : List NodeConfig → ℕ → NodeSelector
rotating nodes i = record { nodes = nodes; selection_state = round_robin i }

pub select-rotating :
    (choose : List NodeConfig → Option NodeConfig) (nodes : List NodeConfig) (i : ℕ)
    → select_node choose (rotating nodes i) ≡ node_at i nodes
unfolding select_node node_at
select-rotating choose [] i = refl
select-rotating choose (node ∷ rest) i = refl

pub mark-rotating :
    (nodes : List NodeConfig) (i : ℕ)
    → 0 < length nodes
    → suc i < u64_mod
    → mark_current_node_failed (rotating nodes i) ≡ rotating nodes (suc i)
unfolding mark_current_node_failed
mark-rotating [] i h b = absurd (omega arith)
mark-rotating (node ∷ rest) i h b =
    let next : add_u64 i 1 ≡ suc i = omega (arith, add_u64_of_lt i 1 (omega arith)) in rw next

get_elem?-total {ℓ} :
    {A : Type ℓ} (l : List A) (k : ℕ) → k < length l → (a : A) × (get_elem? l k ≡ some a)
get_elem?-total [] k h = absurd (omega arith)
get_elem?-total (a ∷ l) zero h = (a, refl)
get_elem?-total (a ∷ l) (suc k) h = get_elem?-total l k (omega arith)

-- There is a node under every index, where there are nodes.
pub node_at_total :
    (nodes : List NodeConfig) (i : ℕ)
    → 0 < length nodes
    → (node : NodeConfig) × (node_at i nodes ≡ some node)
unfolding node_at
node_at_total [] i h = absurd (omega arith)
node_at_total (node ∷ rest) i h =
    get_elem?-total (node ∷ rest) (i % length (node ∷ rest)) (mod-lt i h)

-- From any index, fewer steps than there are nodes lead to a given position.
pub steps_to : (i n k : ℕ) → k < n → (steps : ℕ) × (steps < n) × ((i + steps) % n ≡ k)
steps_to i n k h =
    let r : ℕ = i % n in
    let below : r < n = mod-lt i (omega arith) in
    elim (Bool-cases (leb r k)) [
      | inl before ↦
          let le : r ≤ k = leb→le r k before in
          (
            k - r,
            omega arith,
            sym (mod-add-mod i n (k - r)) ∙ ap (λ t. t % n) (omega arith) ∙ mod-eq_of_lt h,
          )
      | inr after ↦
          let gt : k < r = ground arith in
          (
            k + n - r,
            omega (arith, gt),
            sym (mod-add-mod i n (k + n - r))
                ∙ ap (λ t. t % n) (omega arith)
                ∙ add-mod_right k n
                ∙ mod-eq_of_lt h,
          )
    ]

get_elem?-lt {ℓ} : {A : Type ℓ} (l : List A) (k : ℕ) {a : A} → get_elem? l k ≡ some a → k < length l
get_elem?-lt [] k e = cc
get_elem?-lt (a ∷ l) zero e = omega arith
get_elem?-lt (a ∷ l) (suc k) e = omega (arith, get_elem?-lt l k e)

node_at_mod :
    (nodes : List NodeConfig) (i k : ℕ)
    → 0 < length nodes
    → i % length nodes ≡ k
    → node_at i nodes ≡ get_elem? nodes k
unfolding node_at
node_at_mod [] i k h e = absurd (omega arith)
node_at_mod (node ∷ rest) i k h e = ap (get_elem? (node ∷ rest)) e

-- From any index, fewer steps than there are nodes lead to any one of them.
pub comes_to :
    (nodes : List NodeConfig) (i k : ℕ) (node : NodeConfig)
    → get_elem? nodes k ≡ some node
    → (steps : ℕ) × (steps < length nodes) × (node_at (i + steps) nodes ≡ some node)
comes_to nodes i k node e =
    let lt : k < length nodes = get_elem?-lt nodes k e in
    let (steps, below, at) = steps_to i (length nodes) k lt in
    (steps, below, node_at_mod nodes (i + steps) k (omega arith) at ∙ e)
