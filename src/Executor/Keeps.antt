-- ===== src/Executor/Keeps.antt =====
-- What the executor keeps while it handles messages: the size of the stored responses, and who is
-- answered.
use plaid.Base.{
  ℕ, ◌≤◌, ◌≡◌, refl, sym, ap, ◌∙◌, String, Option, none, some, List, [], ◌∷◌, ◌++◌, All, length,
  arith, Option-cases, Bool-cases, inl, inr, str_eq, subst,
}
use mathlib.Core.List.{append-nil}
use plaid.Base.Result.{Result-cases}
use plaid.Base.Dict.{HashMap, lookup, insert, lookup-insert}
use plaid.Message.{Message, create_duplicate}
use plaid.Env.{Platform, PlaidModule, PersistentResponse, Env}
use plaid.Executor.Response.{
  IsWithin, IsAnswer, Reply, update_persistent_response, update_persistent_response_lem,
  module_execution_error,
}
use plaid.Executor.{
  Runtime, System, Report, preparing, running, env_for, leave, error_of, log_error, answer,
  run_module, process_message_with_module, process_named, process_all, handle, execution_loop,
}

-- Every module keeps a response within its size.
abbrev pub AllWithin : HashMap PlaidModule → Type 0
AllWithin modules =
    (name : String) (m : PlaidModule)
    → lookup name modules ≡ some m
    → IsWithin m.persistent_response

insert-AllWithin :
    (name : String) (m : PlaidModule) (modules : HashMap PlaidModule)
    → IsWithin m.persistent_response
    → AllWithin modules
    → AllWithin (insert name m modules)
insert-AllWithin name m modules h all other m' e = elim (Bool-cases (str_eq name other)) [
  | inl same ↦
      let is : m ≡ m' = ground (arith, lookup-insert name other m modules) in
      subst (λ (x : PlaidModule). IsWithin x.persistent_response) is h
  | inr differs ↦ all other m' (ground (arith, lookup-insert name other m modules))
]

-- Replies that go to the one who asked, and at most one.
pub record Extends (sender : Option ℕ) (before after : List Reply) : Type 0 where
  pub added : List Reply
  pub appended : after ≡ before ++ added
  pub one : length added ≤ 1
  pub addressed : All (λ (r : Reply). sender ≡ some r.0) added

Extends-refl : (sender : Option ℕ) (replies : List Reply) → Extends sender replies replies
Extends-refl sender replies = record {
  added = [];
  appended = sym (append-nil replies);
  one = omega arith;
  addressed = tt;
}

Extends-none : (before after : List Reply) → Extends none before after → after ≡ before
Extends-none before after h =
    h.appended ∙ ap (◌++◌ before) (nobody h.added h.addressed) ∙ append-nil before
  where
    nobody : (l : List Reply) → All (λ (r : Reply). none ≡ some r.0) l → l ≡ []
    nobody [] all = refl
    nobody (r ∷ rest) all = cc (all.0)

All-addressed :
    (response : Option String) (pr : Option PersistentResponse) (sender : Option ℕ)
    (pr' : Option PersistentResponse) (replies : List Reply)
    → All (IsAnswer response pr sender pr') replies
    → All (λ (r : Reply). sender ≡ some r.0) replies
All-addressed response pr sender pr' [] all = tt
All-addressed response pr sender pr' ((n, none) ∷ rest) all =
    (all.0.0, All-addressed response pr sender pr' rest all.1)
All-addressed response pr sender pr' ((n, some m) ∷ rest) all =
    (all.0.0, All-addressed response pr sender pr' rest all.1)

module _ (w : Platform) (rt : Runtime w) where
  -- What holds after a message: the modules are within their sizes, and the replies are those of
  -- the one who asked.
  abbrev pub Keeps : Option ℕ → System w → System w → Type 0
  Keeps sender sys sys' =
      (AllWithin sys.modules → AllWithin sys'.modules) × Extends sender sys.replies sys'.replies

  answer-Keeps :
      (sys : System w) (m : PlaidModule) (env : Env w) (message : Message)
      → IsWithin m.persistent_response
      → Keeps message.response_sender sys (answer w rt sys m env message)
  unfolding answer
  answer-Keeps sys m env message h =
      let out =
        update_persistent_response env.response m.persistent_response message.response_sender in
      let (within, one, answers, keeps) =
        update_persistent_response_lem env.response m.persistent_response message.response_sender
          h in
      (
        insert-AllWithin m.name
            (record m {
              storage_current = env.module_.storage_current;
              persistent_response = out.persistent;
            })
            sys.modules within,
        record {
          added = out.replies;
          appended = refl;
          one = one;
          addressed =
              All-addressed env.response m.persistent_response message.response_sender
                out.persistent out.replies answers;
        },
      )

  leave-Keeps :
      (sender : Option ℕ) (sys : System w) (m : PlaidModule) (env : Env w)
      → IsWithin m.persistent_response
      → Keeps sender sys (leave w sys m env)
  unfolding leave
  leave-Keeps sender sys m env h = (
    insert-AllWithin m.name (record m { storage_current = env.module_.storage_current }) sys.modules
        h,
    Extends-refl sender sys.replies,
  )

  log_error-keeps :
      (name : String) (r : Report) (d : List ℕ) (sys : System w)
      → (log_error w rt name r d sys).1 ≡ sys
  unfolding log_error
  log_error-keeps name r d sys = ground arith

  run_module-Keeps :
      (sys : System w) (m : PlaidModule) (env : Env w) (message : Message)
      → IsWithin m.persistent_response
      → Keeps message.response_sender sys (run_module w rt sys m env message).1
  unfolding run_module leave
  run_module-Keeps sys m env message h =
      let ran = rt.call env in
      let sender = message.response_sender in
      let left = leave-Keeps sender sys m ran.1 h in
      elim (Option-cases (error_of w m ran.1 ran.0)) [
        | inl fine ↦
            rw (fine, run_module)
              (let answered = answer-Keeps (leave w sys m ran.1) m ran.1 message h in
                (λ all. answered.0 (left.0 all), answered.1))
        | inr (e, failed) ↦
            rw (failed, run_module)
              (subst (Keeps sender sys)
                (sym (
                  log_error-keeps m.name (running (module_execution_error e)) message.content
                    (leave w sys m ran.1)))
                left)
      ]

  process-Keeps :
      (sys : System w) (message : Message) (m : PlaidModule)
      → IsWithin m.persistent_response
      → Keeps message.response_sender sys (process_message_with_module w rt sys message m).1
  unfolding process_message_with_module
  process-Keeps sys message m h =
      let prepared = rt.prepare (env_for w sys (create_duplicate message) m) in
      let sender = message.response_sender in
      elim (Result-cases prepared.0) [
        | inl (u, fine) ↦
            rw (fine, process_message_with_module) (run_module-Keeps sys m prepared.1 message h)
        | inr (e, failed) ↦
            rw (failed, process_message_with_module)
              (subst (Keeps sender sys)
                (sym
                  (log_error-keeps m.name (preparing e) message.content (leave w sys m prepared.1)))
                (leave-Keeps sender sys m prepared.1 h))
      ]

  named-Keeps :
      (sys : System w) (message : Message) (name : String)
      → AllWithin sys.modules
      → Keeps message.response_sender sys (process_named w rt sys message name).1
  unfolding process_named
  named-Keeps sys message name all = elim (Option-cases (lookup name sys.modules)) [
    | inl unknown ↦
        rw (unknown, process_named) ((λ h. h), Extends-refl message.response_sender sys.replies)
    | inr (m, found) ↦ rw (found, process_named) (process-Keeps sys message m (all name m found))
  ]

  -- A duplicate answers nobody.
  duplicate_keeps :
      (sys : System w) (message : Message) (name : String)
      → AllWithin sys.modules
      → let sys' = (process_named w rt sys (create_duplicate message) name).1 in
        AllWithin sys'.modules × (sys'.replies ≡ sys.replies)
  unfolding create_duplicate
  duplicate_keeps sys message name all =
      let (within, extends) = named-Keeps sys (create_duplicate message) name all in
      (within all, Extends-none _ _ extends)

  -- A channel answers nobody: its modules work on duplicates.
  all-keeps :
      (sys : System w) (message : Message) (names : List String)
      → AllWithin sys.modules
      → let sys' = (process_all w rt sys message names).1 in
        AllWithin sys'.modules × (sys'.replies ≡ sys.replies)
  unfolding process_all
  all-keeps sys message [] all = (all, refl)
  all-keeps sys message (name ∷ names) all =
      let first = process_named w rt sys (create_duplicate message) name in
      let (within, silent) = duplicate_keeps sys message name all in
      elim (Result-cases first.0) [
        | inr (e, failed) ↦ rw (failed, process_all) (within, silent)
        | inl (u, fine) ↦
            let (within', silent') = all-keeps first.1 message names within in
            rw (fine, process_all) (within', silent' ∙ silent)
      ]

  -- Where every module keeps a response within its size, it does so after a message is handled,
  -- whatever the modules do. A message that names a module gets one reply at most, to the channel
  -- that it carries; one that goes to all modules of its type gets none.
  pub handle-AllWithin :
      (sys : System w) (message : Message)
      → AllWithin sys.modules
      → let sys' = (handle w rt sys message).1 in
        AllWithin sys'.modules
        × Extends message.response_sender sys.replies sys'.replies
        × (message.module_name ≡ none → sys'.replies ≡ sys.replies)
  unfolding handle
  handle-AllWithin sys message all = elim (Option-cases message.module_name) [
    | inr (name, to_one) ↦
        let (within, extends) = named-Keeps sys message name all in
        rw (to_one, handle) (within all, extends, λ e. cc)
    | inl to_all ↦ elim (Option-cases (lookup message.type_ sys.channels)) [
      | inl unknown ↦
          rw (to_all, unknown, handle)
            (all, Extends-refl message.response_sender sys.replies, λ e. refl)
      | inr (names, found) ↦
          let (within, silent) = all-keeps sys message names all in
          rw (to_all, found, handle)
            (
              within,
              subst (Extends message.response_sender sys.replies) (sym silent)
                  (Extends-refl message.response_sender sys.replies),
              λ e. silent,
            )
    ]
  ]

  -- So it does after any number of messages.
  pub execution_loop-AllWithin :
      (sys : System w) (messages : List Message)
      → AllWithin sys.modules
      → AllWithin (execution_loop w rt sys messages).1.modules
  unfolding execution_loop
  execution_loop-AllWithin sys [] all = all
  execution_loop-AllWithin sys (message ∷ rest) all =
      let handled = handle w rt sys message in
      let (within, _, _) = handle-AllWithin sys message all in
      elim (Result-cases handled.0) [
        | inr (e, failed) ↦ rw (failed, execution_loop) within
        | inl (u, fine) ↦ rw (fine, execution_loop) (execution_loop-AllWithin handled.1 rest within)
      ]
