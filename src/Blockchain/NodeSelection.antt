-- ===== src/Blockchain/NodeSelection.antt =====
-- The choice of a node: runtime/plaid/src/apis/blockchain/common/node_selection.rs. The random
-- choice is the rand library's, so it is a parameter. The index is an atomic that the calls of all
-- threads share; `Ordering::Relaxed` matters to no other variable.
use plaid.Base.{ℕ, ◌%◌, String, Option, none, List, [], ◌∷◌, length, get_elem?}
use plaid.Base.Words.{add_u64}

pub record NodeConfig : Type 0 where
  pub uri : String
  pub name : String
  pub tags : Option (List String)

pub data SelectionStrategy : Type 0 where
  round_robin : ℕ → SelectionStrategy
  random : SelectionStrategy

pub record NodeSelector : Type 0 where
  pub nodes : List NodeConfig
  pub selection_state : SelectionStrategy

-- The node under the index, which stays; the index wraps round the list.
unfoldable pub node_at : ℕ → List NodeConfig → Option NodeConfig
node_at current_index [] = none
node_at current_index (node ∷ rest) = get_elem? (node ∷ rest) (current_index % length (node ∷ rest))

-- `choose` is `IndexedRandom::choose`.
unfoldable pub select_node :
    (List NodeConfig → Option NodeConfig) → NodeSelector → Option NodeConfig
unfolding node_at
select_node choose selector = elim selector.nodes [
  | [] ↦ none
  | node ∷ rest ↦ elim selector.selection_state [
    | round_robin current_index ↦ node_at current_index (node ∷ rest)
    | random ↦ choose (node ∷ rest)
  ]
]

-- `fetch_add` wraps.
unfoldable pub mark_current_node_failed : NodeSelector → NodeSelector
unfolding add_u64
mark_current_node_failed selector = elim selector.selection_state [
  | round_robin current_index ↦ elim selector.nodes [
    | [] ↦ selector
    | _ ∷ _ ↦ record selector { selection_state = round_robin (add_u64 current_index 1) }
  ]
  | random ↦ selector
]
