-- ===== src/Executor/Tests.antt =====
-- The theorems on the executor, at a small system.
use plaid.Base.Dict.{lookup}
use plaid.Executor.Pools.{ExecutionThreadPools}
use plaid.Executor.{
  leave, env_for, answer, error_of, run_module, process_message_with_module, process_named, Runtime,
  System, returned, trapped, handle, execution_loop,
}
use plaid.Executor.NextRun.{IsKept, run_module-IsKept}
use plaid.Functions.Message.{Encoding, set_response}
use plaid.Base.{
  len, ◌≡◌, refl, str_eq, false, true, none, some, [], ◌∷◌, arith, Bool-cases, inl, inr, subst,
}
use plaid.Base.Int.{pos}
use plaid.Base.Result.{ok}
use plaid.Message.{Message, unlimited}
use plaid.Env.{PersistentResponse, PlaidModule}
use plaid.Samples.{platform, module_of, message_of, view, unbounded}
use plaid.Executor.Response.{
  IsUpdate, IsWithin, update_persistent_response, update_persistent_response_lem,
}
use plaid.Executor.Loop.{after_messages, execution_loop-ok}
use plaid.Executor.Keeps.{AllWithin, execution_loop-AllWithin}

abbrev persistent : PersistentResponse
persistent = record { max_size = 4; content = none; poisoned = false }

update_persistent_response_lem_example :
    IsUpdate
      (some "body")
      (some persistent)
      (some 7)
      (update_persistent_response (some "body") (some persistent) (some 7))
update_persistent_response_lem_example =
    update_persistent_response_lem (some "body") (some persistent) (some 7) tt

-- Every run answers "body" and returns 0.
abbrev runtime : Runtime platform
runtime = record {
  prepare = λ env. (ok tt, record env { memory = some view });
  call = λ env. (returned (pos 0), record env { response = some "body" });
  log_module_error = λ name report data_. true;
}

abbrev rule : PlaidModule
rule = record (module_of 0) { persistent_response = some persistent }

abbrev system : System platform
system = record {
  modules = ("rule", rule) ∷ [];
  channels = ("log", "rule" ∷ []) ∷ [];
  storage = none;
  cache = none;
  immediate_sender = some [];
  delayed_log_sender = [];
  cancelled = false;
  replies = [];
}

-- A request that "rule" is to answer, on the channel 7.
abbrev request : Message
request = record (message_of unlimited) { response_sender = some 7; module_name = some "rule" }

request_test :
    (handle platform runtime system request).1.replies
    ≡ (7, some (record { code = 200; body = "body" })) ∷ []
unfolding handle process_named lookup process_message_with_module run_module error_of answer leave
    update_persistent_response
request_test = refl

system-AllWithin : AllWithin system.modules
unfolding lookup
system-AllWithin name m e = elim (Bool-cases (str_eq "rule" name)) [
  | inl same ↦
      let is : rule ≡ m = ground arith in
      subst (λ (x : PlaidModule). IsWithin x.persistent_response) is tt
  | inr differs ↦ absurd (ground arith)
]

execution_loop-AllWithin_example :
    AllWithin
      (execution_loop platform runtime system (message_of unlimited ∷ request ∷ [])).1.modules
execution_loop-AllWithin_example =
    execution_loop-AllWithin platform runtime system (message_of unlimited ∷ request ∷ [])
      system-AllWithin

-- A runtime whose modules trap.
abbrev trapping : Runtime platform
trapping = record runtime { call = λ env. (trapped true, env) }

execution_loop-ok_example :
    execution_loop platform trapping system (message_of unlimited ∷ request ∷ [])
    ≡ (ok tt, after_messages platform trapping system (message_of unlimited ∷ request ∷ []))
execution_loop-ok_example =
    execution_loop-ok platform trapping (λ name report data_. refl) system
      (message_of unlimited ∷ request ∷ [])

abbrev pools : ExecutionThreadPools (unbounded Message)
pools = record {
  general_pool = record { num_threads = 2; sender = [] };
  dedicated_pools = ("log", record { num_threads = 1; sender = [] }) ∷ [];
}

abbrev pools_after : ExecutionThreadPools (unbounded Message)
pools_after = record pools {
  dedicated_pools = ("log", record { num_threads = 1; sender = request ∷ [] }) ∷ [];
}

abbrev encoding : Encoding
encoding = record {
  as_bytes = λ s. len s ∷ [];
  from_utf8 = λ b. none;
  source_to_vec = λ s. none;
  source_from_slice = λ b. none;
}

-- Every run sets the text at 2 as its response, and returns 0.
abbrev responding : Runtime platform
responding = record {
  prepare = λ env. (ok tt, record env { memory = some view });
  call = λ env. (returned (pos 0), set_response platform (record env { memory = some view }) 2 3);
  log_module_error = λ name report data_. true;
}

abbrev asked : Message
asked = record (message_of unlimited) { response_sender = some 7 }

run_module-IsKept_example :
    IsKept platform encoding system "rule"
      (some 7)
      "key"
      (run_module platform responding system rule (env_for platform system asked rule) asked).1
run_module-IsKept_example =
    run_module-IsKept platform responding encoding system rule (env_for platform system asked rule)
      (record (env_for platform system asked rule) { memory = some view }) asked view 2 3 "key"
      persistent refl refl refl refl (omega arith) refl
