-- ===== src/Executor/Response.antt =====
-- `update_persistent_response` of runtime/plaid/src/executor/mod.rs, the errors of that file, and
-- `PersistentResponse` of runtime/plaid/src/loader/mod.rs.
use plaid.Base.{
  All, length, refl, inl, inr, Bool-cases, Option-cases, leb→le, ℕ, ◌≤◌, ◌≡◌, String, len, Option,
  none, some, List, [], ◌∷◌, leb, if◌then◌else◌, arith,
}
use plaid.Base.Result.{Result, ok, err}
use plaid.Env.{PersistentResponse}

pub record ResponseMessage : Type 0 where
  pub code : ℕ
  pub body : String

pub data ModuleExecutionError : Type 0 where
  computation_exhausted : ℕ → ModuleExecutionError
  module_error : Option String → ModuleExecutionError
  persistent_response_not_allowed : ModuleExecutionError
  persistent_response_too_large : ℕ → ℕ → ModuleExecutionError
  locking_error : ModuleExecutionError
  unknown_execution_error : Option String → ModuleExecutionError

-- The payloads that wasmer's errors and the logging system's come with are left out.
pub data ExecutorError : Type 0 where
  external_logging_error link_error instantiation_error memory_error : ExecutorError
  no_entrypoint invalid_entrypoint : ExecutorError
  module_execution_error : ModuleExecutionError → ExecutorError

-- `get_persistent_response_data`: a poisoned lock reads as nothing.
unfoldable pub get_persistent_response_data : Option PersistentResponse → Option String
get_persistent_response_data none = none
get_persistent_response_data (some pr) = if pr.poisoned then none else pr.content

-- `OneShotSender::send`, with the number of the channel; whether anyone still waits is only logged.
abbrev pub Reply : Type 0
Reply = ℕ × Option ResponseMessage

unfoldable pub send : Option ℕ → Option ResponseMessage → List Reply
send none r = []
send (some sender) r = (sender, r) ∷ []

pub record Updated : Type 0 where
  pub result : Result ExecutorError (Unit {0})
  pub persistent : Option PersistentResponse
  pub replies : List Reply

unfoldable pub store_response : String → PersistentResponse → Option ℕ → Updated
unfolding send
store_response response pr response_sender =
    if leb (len response) pr.max_size
    then (if pr.poisoned
        then record {
          result = err (module_execution_error locking_error);
          persistent = some pr;
          replies = [];
        }
        else record {
          result = ok tt;
          persistent = some (record pr { content = some response });
          replies = send response_sender (some (record { code = 200; body = response }));
        })
    else record {
      result =
          err (module_execution_error (persistent_response_too_large pr.max_size (len response)));
      persistent = some pr;
      replies = [];
    }

-- The first argument is the field `response` of the environment, as the run left it.
unfoldable pub update_persistent_response :
    Option String → Option PersistentResponse → Option ℕ → Updated
unfolding send store_response
update_persistent_response none pr response_sender = record {
  result = ok tt;
  persistent = pr;
  replies = send response_sender none;
}
update_persistent_response (some response) none response_sender = record {
  result = ok tt;
  persistent = none;
  replies = [];
}
update_persistent_response (some response) (some pr) response_sender =
    store_response response pr response_sender

-- What is kept is within the size that the module may keep.
abbrev pub IsWithin : Option PersistentResponse → Type 0
IsWithin none = Unit
IsWithin (some pr) = elim pr.content [ none ↦ Unit | some s ↦ len s ≤ pr.max_size ]

-- A reply goes to the one who asked. With a body, it is the response of this run, which is now the
-- stored one; without one, the run left no response, and what is stored is as before.
abbrev pub IsAnswer :
    Option String
    → Option PersistentResponse
    → Option ℕ
    → Option PersistentResponse
    → Reply
    → Type 0
IsAnswer response pr sender pr' (n, some m) =
    (sender ≡ some n) × (response ≡ some m.body) × (get_persistent_response_data pr' ≡ some m.body)
IsAnswer response pr sender pr' (n, none) = (sender ≡ some n) × (response ≡ none) × (pr' ≡ pr)

abbrev pub ErrorKeeps : Option PersistentResponse → Updated → Type 0
ErrorKeeps pr out =
    (e : ExecutorError) → out.result ≡ err e → (out.persistent ≡ pr) × (out.replies ≡ [])

-- What the theorem says of an update.
abbrev pub IsUpdate : Option String → Option PersistentResponse → Option ℕ → Updated → Type 0
IsUpdate response pr sender out =
    IsWithin out.persistent
    × (length out.replies ≤ 1)
    × All (IsAnswer response pr sender out.persistent) out.replies
    × ErrorKeeps pr out

store_response_lem :
    (response : String) (pr : PersistentResponse) (sender : Option ℕ)
    → IsWithin (some pr)
    → IsUpdate (some response) (some pr) sender (store_response response pr sender)
unfolding store_response get_persistent_response_data
store_response_lem response pr sender h = elim (Bool-cases (leb (len response) pr.max_size)) [
  | inr e ↦ rw (e, store_response) (h, omega arith, tt, λ x p. (refl, refl))
  | inl e ↦
      let fits = leb→le (len response) pr.max_size e in
      elim (Bool-cases pr.poisoned) [
        | inl p ↦ rw (e, p, store_response) (h, omega arith, tt, λ x q. (refl, refl))
        | inr p ↦ elim (Option-cases sender) [
          | inl nobody ↦ rw (e, p, nobody, store_response) (fits, omega arith, tt, λ x q. cc)
          | inr (n, asked) ↦
              rw (e, p, asked, store_response)
                (fits, omega arith, ((refl, refl, refl), tt), λ x q. cc)
        ]
      ]
]

-- An update keeps what is stored within its size, and sends one reply at most. A reply goes to the
-- one who asked: with a body, it is the response of this run, which is now the stored one; without
-- one, the run left no response, and what is stored is as before. An error changes nothing and sends
-- nothing.
pub update_persistent_response_lem :
    (response : Option String) (pr : Option PersistentResponse) (sender : Option ℕ)
    → IsWithin pr
    → IsUpdate response pr sender (update_persistent_response response pr sender)
unfolding update_persistent_response
update_persistent_response_lem none pr none h = (h, omega arith, tt, λ x q. cc)
update_persistent_response_lem none pr (some n) h =
    (h, omega arith, ((refl, refl, refl), tt), λ x q. cc)
update_persistent_response_lem (some r) none sender h = (tt, omega arith, tt, λ x q. cc)
update_persistent_response_lem (some r) (some pr) sender h = store_response_lem r pr sender h
