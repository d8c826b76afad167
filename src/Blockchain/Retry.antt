-- ===== src/Blockchain/Retry.antt =====
-- What the retries of runtime/plaid/src/apis/blockchain/common/mod.rs come to with a round-robin
-- selector, while no other call marks a node as failed.
use plaid.Base.{
  ℕ, zero, suc, ◌+◌, ◌≤◌, ◌<◌, ◌≡◌, refl, ◌∙◌, ◌⊎◌, inl, inr, String, true, false, Option, some,
  List, length, get_elem?, Bool-cases, arith,
}
use plaid.Base.Result.{Result, ok, err, Result-cases}
use plaid.Base.Words.{u64_mod}
use plaid.Blockchain.NodeSelection.{
  NodeConfig, NodeSelector, node_at, select_node, mark_current_node_failed,
}
use plaid.Blockchain.Rpc.{
  Http, BlockchainError, all_nodes_failed, is_retryable, execute, marked_by_others, attempts,
  execute_rpc_call,
}
use plaid.Blockchain.Rotation.{rotating, select-rotating, mark-rotating, node_at_total, comes_to}

none_marked :
    (h : Http) (n : ℕ) (selector : NodeSelector) → n ≡ 0 → marked_by_others h n selector ≡ selector
unfolding marked_by_others
none_marked h zero selector e = refl
none_marked h (suc n) selector e = absurd (omega arith)

module _ (h : Http) (nodes : List NodeConfig) (request : h.Request) where
  -- The attempt `t`, at the node under the index `i`, failed in a way that allows another one.
  abbrev pub Retried : ℕ → ℕ → BlockchainError h → Type 0
  Retried t i e =
      (node : NodeConfig) × (node_at i nodes ≡ some node)
      × (execute h t request node.uri ≡ err e)
      × (is_retryable h e ≡ true)

  -- So did this many attempts, at one node after the other.
  abbrev pub AllRetried : ℕ → ℕ → ℕ → Type 0
  AllRetried count t i = (a : ℕ) → a < count → (e : BlockchainError h) × Retried (t + a) (i + a) e

  -- A response, or an error that allows no other attempt.
  abbrev pub IsFinal : Result (BlockchainError h) String → Type 0
  IsFinal (ok _) = Unit
  IsFinal (err e) = is_retryable h e ≡ false

  abbrev pub Decided : ℕ → ℕ → Result (BlockchainError h) String → Type 0
  Decided t i r =
      (node : NodeConfig) × (node_at i nodes ≡ some node)
      × (execute h t request node.uri ≡ r)
      × IsFinal r

  -- The last of the errors, `last` where there was no attempt.
  abbrev pub LastError : ℕ → ℕ → ℕ → BlockchainError h → BlockchainError h → Type 0
  LastError zero t i last e = e ≡ last
  LastError (suc k) t i last e = Retried (t + k) (i + k) e

  -- The attempts up to the first one with a final result, which is returned, the selector at its
  -- node; or all attempts, with the error of the last one.
  abbrev pub Ends :
      ℕ → ℕ → ℕ → BlockchainError h → Result (BlockchainError h) String × NodeSelector → Type 0
  Ends left t i last out =
      ((d : ℕ) × (d < left)
        × AllRetried d t i
        × Decided (t + d) (i + d) out.0
        × (out.1 ≡ rotating nodes (i + d)))
      ⊎ (AllRetried left t i
          × ((e : BlockchainError h) × LastError left t i last e × (out.0 ≡ err e))
          × (out.1 ≡ rotating nodes (i + left)))

  -- A response, from the node at which the selector is left.
  abbrev pub Reaches : ℕ → ℕ → Result (BlockchainError h) String × NodeSelector → Type 0
  Reaches max_retries i out =
      (response : String) × (d : ℕ) × (d < max_retries)
      × (out ≡ (ok response, rotating nodes (i + d)))
      × ((node : NodeConfig) × (node_at (i + d) nodes ≡ some node)
          × (execute h (1 + d) request node.uri ≡ ok response))

  all-zero : (t i : ℕ) → AllRetried 0 t i
  all-zero t i a lt = elim lt [ ]

  all-suc :
      (count t i : ℕ) (e : BlockchainError h)
      → Retried t i e
      → AllRetried count (suc t) (suc i)
      → AllRetried (suc count) t i
  all-suc count t i e r rest zero lt =
      let et : t + 0 ≡ t = omega arith in let ei : i + 0 ≡ i = omega arith in (e, rw (et, ei) r)
  all-suc count t i e r rest (suc a) lt =
      let et : t + suc a ≡ suc t + a = omega arith in
      let ei : i + suc a ≡ suc i + a = omega arith in rw (et, ei) (rest a (omega arith))

  LastError-suc :
      (left t i : ℕ) (last e x : BlockchainError h)
      → Retried t i e
      → LastError left (suc t) (suc i) e x
      → LastError (suc left) t i last x
  LastError-suc zero t i last e x r is_e =
      let et : t + 0 ≡ t = omega arith in let ei : i + 0 ≡ i = omega arith in rw (is_e, et, ei) r
  LastError-suc (suc k) t i last e x r later =
      let et : t + suc k ≡ suc t + k = omega arith in
      let ei : i + suc k ≡ suc i + k = omega arith in rw (et, ei) later

  Ends-now :
      (left t i : ℕ) (last : BlockchainError h) (r : Result (BlockchainError h) String)
      → Decided t i r
      → Ends (suc left) t i last (r, rotating nodes i)
  Ends-now left t i last r decided =
      let et : t + 0 ≡ t = omega arith in
      let ei : i + 0 ≡ i = omega arith in
      inl (0, omega arith, all-zero t i, rw (et, ei) decided, rw ei)

  -- An attempt that is retried before the others.
  Ends-suc :
      (left t i : ℕ) (last e : BlockchainError h)
      (out : Result (BlockchainError h) String × NodeSelector)
      → Retried t i e
      → Ends left (suc t) (suc i) e out
      → Ends (suc left) t i last out
  Ends-suc left t i last e out r (inl (d, lt, all, decided, at)) =
      let et : t + suc d ≡ suc t + d = omega arith in
      let ei : i + suc d ≡ suc i + d = omega arith in
      inl (suc d, omega arith, all-suc d t i e r all, rw (et, ei) decided, rw ei at)
  Ends-suc left t i last e out r (inr (all, (x, is_last, eq), at)) =
      let ei : i + suc left ≡ suc i + left = omega arith in
      inr (all-suc left t i e r all, (x, LastError-suc left t i last e x r is_last, eq), rw ei at)

  module _ (choose : ℕ → List NodeConfig → Option NodeConfig) (others : ℕ → ℕ)
      (alone : (t : ℕ) → others t ≡ 0) (some_node : 0 < length nodes) (identifier : String) where
    attempts-Ends :
        (left t i : ℕ) (last : BlockchainError h)
        → i + left < u64_mod
        → Ends left t i last
            (attempts h choose others identifier request left t last (rotating nodes i))
    unfolding attempts
    attempts-Ends zero t i last b =
        let ei : i + 0 ≡ i = omega arith in inr (all-zero t i, (last, refl, refl), rw ei)
    attempts-Ends (suc left) t i last b =
        let (node, here) = node_at_total nodes i some_node in
        let chosen : select_node (choose t) (rotating nodes i) ≡ some node =
          select-rotating (choose t) nodes i ∙ here in
        let stays : marked_by_others h (others t) (rotating nodes i) ≡ rotating nodes i =
          none_marked h (others t) (rotating nodes i) (alone t) in
        let step =
          attempts h choose others identifier request (suc left) t last (rotating nodes i) in
        elim (Result-cases (execute h t request node.uri)) [
          | inl (response, e) ↦
              let eq : step ≡ (ok response, rotating nodes i) = rw (attempts, chosen, e, stays) in
              rw eq (Ends-now left t i last (ok response) (node, here, e, tt))
          | inr (error, e) ↦ elim (Bool-cases (is_retryable h error)) [
            | inl again ↦
                let next : mark_current_node_failed (rotating nodes i) ≡ rotating nodes (suc i) =
                  mark-rotating nodes i some_node (omega arith) in
                let rest =
                  attempts h choose others identifier request left (suc t) error
                    (rotating nodes (suc i)) in
                let eq : step ≡ rest = rw (attempts, chosen, e, again, stays, next) in
                rw eq (
                  Ends-suc left t i last error rest (node, here, e, again)
                    (attempts-Ends left (suc t) (suc i) error (omega arith)))
            | inr final ↦
                let eq : step ≡ (err error, rotating nodes i) =
                  rw (attempts, chosen, e, final, stays) in
                rw eq (Ends-now left t i last (err error) (node, here, e, final))
          ]
        ]

    -- With a round-robin selector, a call tries one node after the other, the node under the index
    -- first. It ends at the first attempt with a response or an error that allows no other attempt:
    -- this is the result, and the index stays at that node. Where all attempts fail otherwise, the
    -- result is the error of the last one, and the index is behind it. There is a node, no other
    -- call marks one meanwhile, and the index does not wrap round 2^64.
    pub execute_rpc_call_lem :
        (max_retries i : ℕ)
        → i + max_retries < u64_mod
        → Ends max_retries 1 i all_nodes_failed
            (execute_rpc_call h choose others identifier request max_retries (rotating nodes i))
    unfolding execute_rpc_call
    execute_rpc_call_lem max_retries i b = attempts-Ends max_retries 1 i all_nodes_failed b

    -- With a round-robin selector that no other call marks a node of meanwhile, and whose index does
    -- not wrap round 2^64, a node that answers is reached: where one of the nodes does, whenever it
    -- is asked, and no node fails in a way that ends the call, a call with at least as many attempts
    -- as there are nodes returns a response. The selector is then at the node which gave it, at an
    -- attempt of this call.
    pub execute_rpc_call-Reaches :
        (max_retries i k : ℕ) (good : NodeConfig)
        → i + max_retries < u64_mod
        → length nodes ≤ max_retries
        → get_elem? nodes k ≡ some good
        → ((t : ℕ) → (response : String) × (execute h t request good.uri ≡ ok response))
        → ((t j : ℕ) (node : NodeConfig) (e : BlockchainError h)
            → node_at j nodes ≡ some node
            → execute h t request node.uri ≡ err e
            → is_retryable h e ≡ true)
        → Reaches max_retries i
            (execute_rpc_call h choose others identifier request max_retries (rotating nodes i))
    execute_rpc_call-Reaches max_retries i k good b enough is_good answers retryable =
        reached (execute_rpc_call h choose others identifier request max_retries (rotating nodes i))
          (execute_rpc_call_lem max_retries i b)
      where
        reached :
            (out : Result (BlockchainError h) String × NodeSelector)
            → Ends max_retries 1 i all_nodes_failed out
            → Reaches max_retries i out
        reached (ok response, s) (inl (d, lt, all, (node, here, e, final), at)) =
            (response, d, lt, cc, (node, here, e))
        reached (err error, s) (inl (d, lt, all, (node, here, e, final), at)) =
            cc (retryable (1 + d) (i + d) node error here e)
        reached out (inr (all, last_error, at)) =
            let (steps, lt, there) = comes_to nodes i k good is_good in
            let (error, (node, here, e, again)) = all steps (omega arith) in
            let (response, works) = answers (1 + steps) in cc
