-- ===== src/Executor/Pools.antt =====
-- The thread pools, runtime/plaid/src/executor/thread_pools.rs, their configuration in
-- runtime/plaid/src/config.rs, and `execute_webhook_message` of runtime/plaid/src/executor/mod.rs.
-- The channels and `bounded`, which makes one, are crossbeam's and so parameters.
use plaid.Base.{
  ℕ, ◌≡◌, String, str_eq, false, none, some, List, [], ◌∷◌, ◌++◌, arith, Option-cases, inl, inr,
  eq_iff,
}
use plaid.Base.Result.{Result, ok, err, Result-cases}
use plaid.Base.Dict.{HashMap, lookup, insert, lookup-insert}
use plaid.Message.{Message}
use plaid.Channel.{Channel, IsQueue, TrySendError}

pub record DedicatedThreadsConfig : Type 0 where
  pub num_threads : ℕ
  pub log_queue_size : ℕ

pub record ExecutorConfig : Type 0 where
  pub execution_threads : ℕ
  pub log_queue_size : ℕ
  pub dedicated_threads : HashMap DedicatedThreadsConfig

module _ (c : Channel Message) where
  -- The sender and the receiver are the two ends of one channel.
  pub record ThreadPool : Type 0 where
    pub num_threads : ℕ
    pub sender : c.State

  pub record ExecutionThreadPools : Type 0 where
    pub general_pool : ThreadPool
    pub dedicated_pools : HashMap ThreadPool

  module _ (bounded : ℕ → c.State) where
    unfoldable pub new_pool : ℕ → ℕ → ThreadPool
    new_pool num_threads queue_size = record {
      num_threads = num_threads;
      sender = bounded queue_size;
    }

    unfoldable pub pools_of : HashMap DedicatedThreadsConfig → HashMap ThreadPool
    unfolding new_pool
    pools_of [] = []
    pools_of ((logtype, config) ∷ rest) =
        (logtype, new_pool config.num_threads config.log_queue_size) ∷ pools_of rest

    unfoldable pub new_pools : ExecutorConfig → ExecutionThreadPools
    unfolding new_pool pools_of
    new_pools config = record {
      general_pool = new_pool config.execution_threads config.log_queue_size;
      dedicated_pools = pools_of config.dedicated_threads;
    }

  unfoldable pub offer : Message → ThreadPool → Result TrySendError ThreadPool
  offer message pool = elim (c.try_send message pool.sender) [
    | ok sender ↦ ok (record pool { sender = sender })
    | err e ↦ err e
  ]

  unfoldable pub execute_webhook_message :
      Message → ExecutionThreadPools → Result TrySendError ExecutionThreadPools
  execute_webhook_message message pools = elim (lookup message.type_ pools.dedicated_pools) [
    | some pool ↦ elim (offer message pool) [
      | ok pool' ↦
          ok (record pools { dedicated_pools = insert message.type_ pool' pools.dedicated_pools })
      | err e ↦ err e
    ]
    | none ↦ elim (offer message pools.general_pool) [
      | ok pool' ↦ ok (record pools { general_pool = pool' })
      | err e ↦ err e
    ]
  ]

  -- The pool of a log type: the dedicated one, if there is one.
  unfoldable pub pool_for : String → ExecutionThreadPools → ThreadPool
  pool_for type_ pools = elim (lookup type_ pools.dedicated_pools) [
    | some pool ↦ pool
    | none ↦ pools.general_pool
  ]

  module _ {queue : c.State → List Message} (c_queue : IsQueue c queue) where
    offer_lem :
        (message : Message) (pool pool' : ThreadPool)
        → offer message pool ≡ ok pool'
        → queue pool'.sender ≡ queue pool.sender ++ message ∷ []
    unfolding offer
    offer_lem message pool pool' e =
        ground (arith, c_queue.try_send_ok message pool.sender pool'.sender)

    -- A message that is accepted stands last in the channel of the pool of its type, and the pools
    -- of the other types that have a dedicated one are as before.
    pub execute_webhook_message_lem :
        (message : Message) (pools pools' : ExecutionThreadPools)
        → execute_webhook_message message pools ≡ ok pools'
        → (queue (pool_for message.type_ pools').sender
            ≡ queue (pool_for message.type_ pools).sender ++ message ∷ [])
          × ((other : String) (pool : ThreadPool)
              → str_eq message.type_ other ≡ false
              → lookup other pools.dedicated_pools ≡ some pool
              → pool_for other pools' ≡ pool)
    unfolding execute_webhook_message pool_for
    execute_webhook_message_lem message pools pools' e =
        elim (Option-cases (lookup message.type_ pools.dedicated_pools)) [
          | inl general ↦ (
            ground (arith, offer_lem message pools.general_pool pools'.general_pool),
            λ other pool ne found. ground arith,
          )
          | inr (dedicated, is) ↦ elim (Result-cases (offer message dedicated)) [
            | inr (x, refused) ↦ absurd (ground arith)
            | inl (pool', accepted) ↦ (
              ground (
                arith,
                offer_lem message dedicated pool' accepted,
                lookup-insert message.type_ message.type_ pool' pools.dedicated_pools,
                eq_iff message.type_ message.type_,
              ),
              λ other pool ne found.
                  ground (arith, lookup-insert message.type_ other pool' pools.dedicated_pools),
            )
          ]
        ]
