-- ===== src/Blockchain/Rpc.antt =====
-- A JSON-RPC call and its retries: runtime/plaid/src/apis/blockchain/common/rpc.rs and mod.rs.
-- reqwest and serde_json are parameters. `into` wraps the errors in `ApiError`, which keeps them.
use plaid.Base.{
  ℕ, zero, suc, String, Bool, true, false, ◌||◌, Option, none, some, List, [], ◌∷◌, if◌then◌else◌,
}
use mathlib.Core.List.{lookup}
use plaid.Base.Result.{Result, ok, err, map_err, or_fail, ◌>>=◌}
use plaid.Blockchain.NodeSelection.{
  NodeConfig, SelectionStrategy, NodeSelector, select_node, mark_current_node_failed,
}

-- `Request` is a `JsonRpcRequest` with its method and its parameters.
pub record Http : Type 1 where
  pub Request : Type 0
  pub SerdeError : Type 0
  pub ReqwestError : Type 0
  pub StatusCode : Type 0
  pub is_success : StatusCode → Bool
  pub is_server_error : StatusCode → Bool
  -- whether the code is `StatusCode::TOO_MANY_REQUESTS`
  pub is_too_many_requests : StatusCode → Bool
  -- `serde_json::to_string`
  pub to_string : Request → Result SerdeError String
  -- The n-th request of a call: the address and the body, the status of the response and its text.
  pub post : ℕ → String → String → Result ReqwestError (StatusCode × Result ReqwestError String)

-- The enums of the families have no variant.
pub data EvmError : Type 0 where

pub data SolanaError : Type 0 where

pub data BlockchainError (h : Http) : Type 0 where
  serde_error : h.SerdeError → BlockchainError h
  network_error : h.ReqwestError → BlockchainError h
  call_failed : h.StatusCode → String → BlockchainError h
  no_nodes : String → BlockchainError h
  all_nodes_failed : BlockchainError h
  evm : EvmError → BlockchainError h
  solana : SolanaError → BlockchainError h

-- `unwrap_or_else(|_| "Failed to get error message".to_string())`
unfoldable pub error_message {ℓ} : {E : Type ℓ} → Result E String → String
error_message (ok text) = text
error_message (err _) = "Failed to get error message"

module _ (h : Http) where
  unfoldable pub is_retryable : BlockchainError h → Bool
  is_retryable (call_failed status message) =
      h.is_server_error status || h.is_too_many_requests status
  is_retryable (network_error _) = true
  is_retryable _ = false

  unfoldable pub execute : ℕ → h.Request → String → Result (BlockchainError h) String
  unfolding error_message
  execute n request rpc = do
    body ← map_err serde_error (h.to_string request)
    (status, text) ← map_err network_error (h.post n rpc body)
    (if h.is_success status
        then map_err network_error text
        else err (call_failed status (error_message text)))

  -- While a call waits for its response, other calls mark nodes as failed, this number of times.
  unfoldable pub marked_by_others : ℕ → NodeSelector → NodeSelector
  unfolding mark_current_node_failed
  marked_by_others zero selector = selector
  marked_by_others (suc n) selector = mark_current_node_failed (marked_by_others n selector)

  module _ (choose : ℕ → List NodeConfig → Option NodeConfig) (others : ℕ → ℕ) (identifier : String)
      (request : h.Request) where
    -- The rest of the loop: how many attempts are left, and the number of the next one.
    unfoldable pub attempts :
        ℕ → ℕ → BlockchainError h → NodeSelector → Result (BlockchainError h) String × NodeSelector
    attempts zero attempt last_error selector = (err last_error, selector)
    attempts (suc left) attempt last_error selector = elim (select_node (choose attempt) selector) [
      | none ↦ (err (no_nodes identifier), selector)
      | some node ↦
          let selector' = marked_by_others (others attempt) selector in
          elim (execute attempt request node.uri) [
            | ok response ↦ (ok response, selector')
            | err e ↦ elim (is_retryable e) [
              | false ↦ (err e, selector')
              | true ↦ attempts left (suc attempt) e (mark_current_node_failed selector')
            ]
          ]
    ]

    -- `for attempt in 1..=self.max_retries`
    unfoldable pub execute_rpc_call :
        ℕ → NodeSelector → Result (BlockchainError h) String × NodeSelector
    execute_rpc_call max_retries selector = attempts max_retries 1 all_nodes_failed selector

-- The clients of a family: `Identifier` is its identifier, and `show` the `Display` of it.
module _ {Identifier : Type 0} (dec : Discrete Identifier) (show : Identifier → String) where
  pub record ChainConfig : Type 0 where
    pub nodes : List NodeConfig
    pub selection_strategy : SelectionStrategy

  unfoldable pub selectors_of : List (Identifier × ChainConfig) → List (Identifier × NodeSelector)
  selectors_of [] = []
  selectors_of ((chain_id, config) ∷ rest) =
      (chain_id, record { nodes = config.nodes; selection_state = config.selection_strategy })
      ∷ selectors_of rest

  unfoldable pub get_node_selector :
      (h : Http)
      → List (Identifier × NodeSelector)
      → Identifier
      → Result (BlockchainError h) NodeSelector
  unfolding lookup
  get_node_selector h selectors identifier =
      or_fail (lookup dec identifier selectors) (no_nodes (show identifier))
