-- ===== src/Executor/Loop.antt =====
-- What the modules cannot do to the executor: end its loop, keep more than they may, or answer a
-- request that was not put to them.
use plaid.Base.{
  ◌≡◌, ap, refl, String, true, none, some, List, [], ◌∷◌, arith, Option-cases, inl, inr,
}
use plaid.Base.Result.{ok, Result-cases}
use plaid.Base.Dict.{lookup}
use plaid.Guest.{Bytes}
use plaid.Message.{Message, create_duplicate}
use plaid.Env.{Platform, PlaidModule, Env}
use plaid.Executor.Response.{module_execution_error}
use plaid.Executor.{
  Runtime, System, Report, preparing, running, env_for, error_of, log_error, run_module,
  process_message_with_module, process_named, process_all, handle, execution_loop,
}

module _ (w : Platform) (rt : Runtime w) where
  -- What the modules leave that a message is put to, one after the other, each on its own copy.
  abbrev pub after_modules : System w → Message → List String → System w
  after_modules sys message [] = sys
  after_modules sys message (name ∷ names) =
      after_modules (process_named w rt sys (create_duplicate message) name).1 message names

  -- A message is put to the module that it names, or else to all modules of its type.
  abbrev pub after_message : System w → Message → System w
  after_message sys message = elim message.module_name [
    | some name ↦ (process_named w rt sys message name).1
    | none ↦ elim (lookup message.type_ sys.channels) [
      | some names ↦ after_modules sys message names
      | none ↦ sys
    ]
  ]

  abbrev pub after_messages : System w → List Message → System w
  after_messages sys [] = sys
  after_messages sys (message ∷ rest) = after_messages (after_message sys message) rest

  module _
      (logs : (name : String) (r : Report) (d : Bytes) → rt.log_module_error name r d ≡ true) where
    run_module-ok :
        (sys : System w) (m : PlaidModule) (env : Env w) (message : Message)
        → (run_module w rt sys m env message).0 ≡ ok tt
    unfolding run_module log_error
    run_module-ok sys m env message =
        let ran = rt.call env in
        elim (Option-cases (error_of w m ran.1 ran.0)) [
          | inl fine ↦ rw (fine, run_module) refl
          | inr (e, failed) ↦
              rw (failed, run_module, log_error)
                (rw (logs m.name (running (module_execution_error e)) message.content) refl)
        ]

    process-ok :
        (sys : System w) (message : Message) (m : PlaidModule)
        → (process_message_with_module w rt sys message m).0 ≡ ok tt
    unfolding process_message_with_module log_error
    process-ok sys message m =
        let prepared = rt.prepare (env_for w sys (create_duplicate message) m) in
        elim (Result-cases prepared.0) [
          | inl (u, fine) ↦
              rw (fine, process_message_with_module) (run_module-ok sys m prepared.1 message)
          | inr (e, failed) ↦
              rw (failed, process_message_with_module, log_error)
                (rw (logs m.name (preparing e) message.content) refl)
        ]

    named-ok :
        (sys : System w) (message : Message) (name : String)
        → (process_named w rt sys message name).0 ≡ ok tt
    unfolding process_named
    named-ok sys message name = elim (Option-cases (lookup name sys.modules)) [
      | inl unknown ↦ rw (unknown, process_named) refl
      | inr (m, found) ↦ rw (found, process_named) (process-ok sys message m)
    ]

    all-ok :
        (sys : System w) (message : Message) (names : List String)
        → process_all w rt sys message names ≡ (ok tt, after_modules sys message names)
    unfolding process_all
    all-ok sys message [] = refl
    all-ok sys message (name ∷ names) =
        rw (process_all, named-ok sys (create_duplicate message) name)
          (all-ok (process_named w rt sys (create_duplicate message) name).1 message names)

    handle-ok :
        (sys : System w) (message : Message)
        → handle w rt sys message ≡ (ok tt, after_message sys message)
    unfolding handle
    handle-ok sys message = elim (Option-cases message.module_name) [
      | inr (name, to_one) ↦ ground (arith, to_one, named-ok sys message name)
      | inl to_all ↦ elim (Option-cases (lookup message.type_ sys.channels)) [
        | inl unknown ↦ ground (arith, to_all, unknown)
        | inr (names, found) ↦ ground (arith, to_all, found, all-ok sys message names)
      ]
    ]

    -- Whatever its modules do, the loop goes through all messages without an error, one after the
    -- other, and puts each to the module that it names or else to all modules of its type, where
    -- reports can be logged.
    pub execution_loop-ok :
        (sys : System w) (messages : List Message)
        → execution_loop w rt sys messages ≡ (ok tt, after_messages sys messages)
    unfolding execution_loop
    execution_loop-ok sys [] = refl
    execution_loop-ok sys (message ∷ rest) =
        let handled = handle-ok sys message in
        rw (execution_loop, ap (λ x. x.0) handled, ap (λ x. x.1) handled)
          (execution_loop-ok (after_message sys message) rest)
