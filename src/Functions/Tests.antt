-- ===== src/Functions/Tests.antt =====
-- A run of a module at a small guest: it stores a value in a shared namespace, and logs back.
use plaid.Base.{refl}
use plaid.Message.{limited}
use plaid.Env.{Env}
use plaid.Storage.InMemory.{empty}
use plaid.Storage.InMemory.Laws.{in_memory_contract}
use plaid.Samples.{encoding, platform, env_of}
use plaid.Functions.Logback.{log_back_detailed}
use plaid.Functions.Storage.{can_write}
use plaid.Functions.Storage.Calls.{StorageCall, perform, writable}
use plaid.Functions.Storage.Isolation.{Unchanged}
use plaid.Functions.Stays.{OtherCall, answered}
use plaid.Functions.Run.{start, store, log_back, other_call, Steps-Unchanged}

abbrev before : Env platform
before = env_of 0 empty (limited 5)

abbrev stored : Env platform
stored = (perform platform before (StorageCall.insert_shared 3 4 2 3 5 3 9 0)).1

abbrev logged : Env platform
logged = (log_back_detailed platform stored "new" 1 4 5 3 0 (limited 1)).1

abbrev responded : OtherCall platform encoding
responded = OtherCall.responding 3 5

abbrev after : Env platform
after = answered platform encoding logged responded

Steps-Unchanged_example : Unchanged platform in_memory_contract "other" before.storage after.storage
unfolding writable can_write
Steps-Unchanged_example =
    Steps-Unchanged platform encoding in_memory_contract before after "other"
      (other_call
        (log_back (store start (StorageCall.insert_shared 3 4 2 3 5 3 9 0) refl) "new" 1 4 5 3 0
          (limited 1) refl)
        responded refl)
      refl refl
