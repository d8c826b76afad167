-- ===== src/Functions/Run.antt =====
-- A run of a module, as the host sees it: host calls and changes of the module's own memory, in any
-- order and with any arguments.
use plaid.Base.{
  ℕ, ◌≡◌, refl, ◌∙◌, String, str_eq, false, Option, none, some, List, arith, ap, sym, subst,
}
use plaid.Storage.{Storage}
use plaid.Storage.Contract.{Contract}
use plaid.Message.{LogbacksAllowed}
use plaid.Env.{Platform, Env, PlaidModule}
use plaid.Functions.Logback.{log_back_detailed}
use plaid.Functions.Message.{Encoding}
use plaid.Functions.Stays.{Stays, log_back-Stays, OtherCall, answered, answered-Stays}
use plaid.Functions.Storage.Elsewhere.{Agree-trans}
use plaid.Functions.Storage.Calls.{StorageCall, perform, writable}
use plaid.Functions.Storage.Isolation.{Unchanged, Unchanged-refl, perform-Unchanged}
use plaid.Functions.Storage.Rights.{HasRights, perform-HasRights}

module _ (w : Platform) (enc : Encoding) where
  -- What the host sees between the start of a run and a point in it.
  pub data Steps (env : Env w) : Env w → Type 0 where
    start : Steps env env
    store :
        {e f : Env w} → Steps env e → (call : StorageCall) → f ≡ (perform w e call).1 → Steps env f
    log_back :
        {e f : Env w}
        → Steps env e
        → (id : String) (a b c d delay : ℕ) (asked : LogbacksAllowed)
        → f ≡ (log_back_detailed w e id a b c d delay asked).1
        → Steps env f
    remember :
        {e f : Env w}
        → Steps env e
        → (view : w.guest.View) → f ≡ record e { memory = some view }
        → Steps env f
    other_call :
        {e f : Env w}
        → Steps env e
        → (call : OtherCall w enc) → f ≡ answered w enc e call
        → Steps env f

  module _ {at : w.provider.State → String → String → Option (List ℕ)}
      {size : w.provider.State → String → ℕ} (contract : Contract w.provider at size) where
    Unchanged-trans :
        (n : String) (o p q : Option (Storage w.provider))
        → Unchanged w contract n o p
        → Unchanged w contract n p q
        → Unchanged w contract n o q
    Unchanged-trans n none none none h k = tt
    Unchanged-trans n (some a) (some b) (some c) h k = Agree-trans w.provider w.guest contract h k
    Unchanged-trans n none none (some c) h k = elim k [ ]
    Unchanged-trans n none (some b) q h k = elim h [ ]
    Unchanged-trans n (some a) none q h k = elim h [ ]
    Unchanged-trans n (some a) (some b) none h k = elim k [ ]

    -- The state of a run: nothing changed under `n`, and the rights are those of the start.
    abbrev Holds : Env w → String → Env w → Type 0
    Holds env n e = Unchanged w contract n env.storage e.storage × HasRights w n env e

    Stays-Holds : (env e f : Env w) (n : String) → Stays w e f → Holds env n e → Holds env n f
    unfolding writable
    Stays-Holds env e f n (st, md) (u, (name, access)) = (
      subst (Unchanged w contract n env.storage) (sym st) u,
      (ap PlaidModule.name md ∙ name, ground (arith, st, md, access)),
    )

    store-Holds :
        (env e : Env w) (n : String) (call : StorageCall)
        → str_eq env.module_.name n ≡ false
        → writable w env n ≡ false
        → Holds env n e
        → Holds env n (perform w e call).1
    store-Holds env e n call own free (u, (name, access)) =
        let f = (perform w e call).1 in
        let (name', access') = perform-HasRights w e n call in
        (
          Unchanged-trans n env.storage e.storage f.storage u (
              perform-Unchanged w contract e call n (ap (λ m. str_eq m n) name ∙ own)
                (access ∙ free)),
          (name' ∙ name, access' ∙ access),
        )

    -- A run of a module, as any sequence of storage calls, logbacks, calls of the cache, responses,
    -- error contexts and changes of its own memory, changes no key and no size of a namespace other
    -- than the module's own and the shared ones that list the module under `rw`
    -- when the run starts.
    pub Steps-Unchanged :
        (env after : Env w) (n : String)
        → Steps env after
        → str_eq env.module_.name n ≡ false
        → writable w env n ≡ false
        → Unchanged w contract n env.storage after.storage
    Steps-Unchanged env after n steps own free = (go steps).0
      where
        go :
            {e : Env w}
            → Steps env e
            → Unchanged w contract n env.storage e.storage × HasRights w n env e
        go start = (Unchanged-refl w contract n env.storage, (refl, refl))
        go (store {e} steps call is) =
            subst (Holds env n) (sym is) (store-Holds env e n call own free (go steps))
        go (log_back {e} steps id a b c d delay asked is) = subst (Holds env n) (sym is) (
            Stays-Holds env e (log_back_detailed w e id a b c d delay asked).1 n
              (log_back-Stays w e id a b c d delay asked) (go steps))
        go (remember {e} steps view is) =
            subst (Holds env n) (sym is)
              (Stays-Holds env e (record e { memory = some view }) n (refl, refl) (go steps))
        go (other_call {e} steps call is) =
            subst (Holds env n) (sym is)
              (Stays-Holds env e (answered w enc e call) n (answered-Stays w enc e call) (go steps))
