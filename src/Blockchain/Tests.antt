-- ===== src/Blockchain/Tests.antt =====
-- Calls to three nodes, of which one answers.
use plaid.Blockchain.Rpc.{
  marked_by_others, Http, BlockchainError, execute, execute_rpc_call, is_retryable, call_failed,
  no_nodes, all_nodes_failed, get_node_selector, selectors_of, attempts,
}
use plaid.Base.{
  ℕ, ◌≡◌, refl, String, str_eq, true, none, some, List, [], ◌∷◌, leb, ltb, ◌==◌, ◌&&◌,
  if◌then◌else◌, arith, Option,
}
use native.Mathlib.Decide.{ℕ_discrete}
use plaid.Base.Result.{ok, err}
use plaid.Blockchain.NodeSelection.{
  NodeConfig, random, select_node, mark_current_node_failed, node_at,
}
use plaid.Blockchain.Rotation.{rotating}
use plaid.Blockchain.Retry.{Reaches, execute_rpc_call-Reaches}

-- "b" answers with 200, "c" with 503, and "a" cannot be reached.
abbrev http : Http
http = record {
  Request = String;
  SerdeError = Unit {0};
  ReqwestError = Unit {0};
  StatusCode = ℕ;
  is_success = λ status. leb 200 status && ltb status 300;
  is_server_error = λ status. leb 500 status && ltb status 600;
  is_too_many_requests = λ status. status == 429;
  to_string = λ request. ok request;
  post = λ n rpc body.
      if str_eq rpc "b"
      then ok (200, ok body)
      else if str_eq rpc "c"
      then ok (503, ok "busy")
      else err tt;
}

abbrev node : String → NodeConfig
node uri = record { uri = uri; name = uri; tags = none }

abbrev nodes : List NodeConfig
nodes = node "a" ∷ node "b" ∷ node "c" ∷ []

abbrev first_of : ℕ → List NodeConfig → Option NodeConfig
first_of n [] = none
first_of n (x ∷ rest) = some x

-- The index 5 stands for "c", and "b" is two steps on.
answers :
    execute_rpc_call http first_of (λ t. 0) "1" "block" 3 (rotating nodes 5)
    ≡ (ok "block", rotating nodes 7)
unfolding execute_rpc_call attempts select_node execute is_retryable mark_current_node_failed
    marked_by_others
answers = refl

gives_up :
    execute_rpc_call http first_of (λ t. 0) "1" "block" 1 (rotating nodes 5)
    ≡ (err (call_failed 503 "busy"), rotating nodes 6)
unfolding execute_rpc_call attempts select_node execute is_retryable mark_current_node_failed
    marked_by_others
gives_up = refl

no_attempt :
    execute_rpc_call http first_of (λ t. 0) "1" "block" 0 (rotating nodes 5)
    ≡ (err all_nodes_failed, rotating nodes 5)
unfolding execute_rpc_call attempts
no_attempt = refl

-- The index 6 stands for "a". Another call marks a node meanwhile: "b" is skipped.
disturbed :
    execute_rpc_call http first_of (λ t. 1) "1" "block" 2 (rotating nodes 6)
    ≡ (err (call_failed 503 "busy"), rotating nodes 10)
unfolding execute_rpc_call attempts select_node execute is_retryable mark_current_node_failed
    marked_by_others
disturbed = refl

no_chain :
    get_node_selector ℕ_discrete
      (λ n. "1")
      http
      (selectors_of ℕ_discrete
        (λ n. "1")
        ((7, record { nodes = nodes; selection_strategy = random }) ∷ []))
      1
    ≡ err (no_nodes "1")
unfolding get_node_selector selectors_of ℕ_discrete
no_chain = refl

b_answers : (t : ℕ) → (response : String) × (execute http t "block" (node "b").uri ≡ ok response)
unfolding execute
b_answers t = ("block", refl)

all_retryable :
    (t j : ℕ) (n : NodeConfig) (e : BlockchainError http)
    → node_at j nodes ≡ some n
    → execute http t "block" n.uri ≡ err e
    → is_retryable http e ≡ true
unfolding execute is_retryable
all_retryable t j n e at h = ground arith

execute_rpc_call-Reaches_example :
    Reaches http nodes "block" 3 5
      (execute_rpc_call http first_of (λ t. 0) "1" "block" 3 (rotating nodes 5))
execute_rpc_call-Reaches_example =
    execute_rpc_call-Reaches http nodes "block" first_of (λ t. 0) (λ t. refl) (omega arith) "1" 3 5
      1 (node "b") (omega arith) (omega arith) refl b_answers all_retryable
