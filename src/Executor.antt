-- ===== src/Executor.antt =====
-- The executor: runtime/plaid/src/executor/mod.rs. `System` is what the threads share: a module that
-- an `Arc` points to stands in `modules` under its name, and each message of a channel holds the
-- name alone.
pub mod Response
pub mod Loop
pub mod Keeps
pub mod Pools
pub mod NextRun
mod Tests
use plaid.Base.{
  ℕ, zero, String, Bool, true, false, Option, none, some, List, [], ◌++◌, if◌then◌else◌, ◌∷◌,
}
use plaid.Base.Int.{ℤ, pos, negsuc}
use plaid.Base.Result.{Result, ok, err, ◌>>=◌}
use plaid.Base.Dict.{HashMap, lookup, insert}
use plaid.Guest.{Bytes}
use plaid.Storage.{Storage}
use plaid.Message.{Message, create_duplicate}
use plaid.Env.{Platform, PlaidModule, PersistentResponse, Env}
use Response.{
  ExecutorError, external_logging_error, module_execution_error, ModuleExecutionError, module_error,
  computation_exhausted, unknown_execution_error, Reply, Updated, get_persistent_response_data,
  update_persistent_response,
}

-- How `entrypoint.call` ends: a returned number, or a trap, which says whether the metering points
-- were exhausted.
pub data Execution : Type 0 where
  returned : ℤ → Execution
  trapped : Bool → Execution

-- What is logged of a failure, in place of its text.
pub data Report : Type 0 where
  preparing running responding : ExecutorError → Report

module _ (w : Platform) where
  -- wasmer and the logging system. `prepare` links, instantiates and looks up the memory and the
  -- entry point; both it and `call` run code of the module, which may call host functions.
  pub record Runtime : Type 0 where
    pub prepare : Env w → Result ExecutorError (Unit {0}) × Env w
    pub call : Env w → Execution × Env w
    -- `log_module_error`: whether the report could be logged
    pub log_module_error : String → Report → Bytes → Bool

  -- `immediate_sender` is empty where the weak pointer can no longer be upgraded.
  pub record System : Type 0 where
    pub modules : HashMap PlaidModule
    pub channels : HashMap (List String)
    pub storage : Option (Storage w.provider)
    pub cache : Option w.cache.State
    pub immediate_sender : Option w.messages.State
    pub delayed_log_sender : w.delayed.State
    pub cancelled : Bool
    pub replies : List Reply

  -- The environment of `prepare_for_execution`.
  unfoldable pub env_for : System → Message → PlaidModule → Env w
  env_for sys message module_ = record {
    module_ = module_;
    message = create_duplicate message;
    storage = sys.storage;
    cache = sys.cache;
    memory = none;
    response = get_persistent_response_data module_.persistent_response;
    execution_error_context = none;
    immediate_sender = if sys.cancelled then none else sys.immediate_sender;
    delayed_log_sender = sys.delayed_log_sender;
    cancelled = sys.cancelled;
  }

  -- What a run leaves behind, by the `Arc`s and the channels of its environment. The channel that
  -- the executor reads stays where the run had no immediate sender.
  unfoldable pub leave : System → PlaidModule → Env w → System
  leave sys module_ env = record sys {
    modules =
        insert module_.name (record module_ { storage_current = env.module_.storage_current })
          sys.modules;
    storage = env.storage;
    cache = env.cache;
    immediate_sender = elim env.immediate_sender [ none ↦ sys.immediate_sender | some s ↦ some s ];
    delayed_log_sender = env.delayed_log_sender;
  }

  -- `determine_error`, and the error of a run that returns another number than 0
  unfoldable pub error_of : PlaidModule → Env w → Execution → Option ModuleExecutionError
  error_of module_ env (returned (pos zero)) = none
  error_of module_ env (returned n) = some (module_error env.execution_error_context)
  error_of module_ env (trapped true) = some (computation_exhausted module_.computation_limit)
  error_of module_ env (trapped false) = some (unknown_execution_error env.execution_error_context)

  module _ (rt : Runtime) where
    -- `els.log_module_error(...)?`
    unfoldable pub log_error :
        String → Report → Bytes → System → Result ExecutorError (Unit {0}) × System
    log_error name report data_ sys =
        if rt.log_module_error name report data_
        then (ok tt, sys)
        else (err external_logging_error, sys)

    -- The response of a run without an error; a failure to update is logged as far as it can be.
    unfoldable pub answer : System → PlaidModule → Env w → Message → System
    answer sys module_ env message =
        let out =
          update_persistent_response env.response module_.persistent_response
            message.response_sender in
        record sys {
          modules =
              insert module_.name
                (record module_ {
                  storage_current = env.module_.storage_current;
                  persistent_response = out.persistent;
                })
                sys.modules;
          replies = sys.replies ++ out.replies;
        }

    unfoldable pub run_module :
        System → PlaidModule → Env w → Message → Result ExecutorError (Unit {0}) × System
    run_module sys module_ env message =
        let (execution, env') = rt.call env in
        let sys' = leave sys module_ env' in
        elim (error_of module_ env' execution) [
          | some e ↦
              log_error module_.name (running (module_execution_error e)) message.content sys'
          | none ↦ (ok tt, answer sys' module_ env' message)
        ]

    unfoldable pub process_message_with_module :
        System → Message → PlaidModule → Result ExecutorError (Unit {0}) × System
    process_message_with_module sys message module_ =
        let (prepared, env) = rt.prepare (env_for sys (create_duplicate message) module_) in
        elim prepared [
          | err e ↦ log_error module_.name (preparing e) message.content (leave sys module_ env)
          | ok _ ↦ run_module sys module_ env message
        ]

    -- A module of a channel, by its name: all that a channel lists are in the table.
    unfoldable pub process_named :
        System → Message → String → Result ExecutorError (Unit {0}) × System
    process_named sys message name = elim (lookup name sys.modules) [
      | none ↦ (ok tt, sys)
      | some module_ ↦ process_message_with_module sys message module_
    ]

    -- `for module in modules { process_message_with_module(...)?; }`
    unfoldable pub process_all :
        System → Message → List String → Result ExecutorError (Unit {0}) × System
    process_all sys message [] = (ok tt, sys)
    process_all sys message (name ∷ names) =
        let (r, sys') = process_named sys (create_duplicate message) name in
        elim r [ err e ↦ (err e, sys') | ok _ ↦ process_all sys' message names ]

    -- The body of the loop.
    unfoldable pub handle : System → Message → Result ExecutorError (Unit {0}) × System
    handle sys message = elim message.module_name [
      | some name ↦ process_named sys message name
      | none ↦ elim (lookup message.type_ sys.channels) [
        | some names ↦ process_all sys message names
        | none ↦ (ok tt, sys)
      ]
    ]

    -- The messages are those that `recv` returns until the channel is disconnected.
    unfoldable pub execution_loop : System → List Message → Result ExecutorError (Unit {0}) × System
    execution_loop sys [] = (ok tt, sys)
    execution_loop sys (message ∷ rest) =
        let (r, sys') = handle sys message in
        elim r [ err e ↦ (err e, sys') | ok _ ↦ execution_loop sys' rest ]
