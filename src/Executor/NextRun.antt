-- ===== src/Executor/NextRun.antt =====
-- A response from one run to the next: `set_response` and `get_response` of
-- runtime/plaid/src/functions/response.rs with the executor between them.
use plaid.Base.{
  ℕ, ◌≤◌, ◌≡◌, ◌∙◌, refl, ap, sym, subst, String, eq_iff, len, false, true, Option, some, ◌++◌, leb,
  arith,
}
use plaid.Base.Int.{pos}
use plaid.Base.Result.{ok}
use plaid.Base.Dict.{lookup, lookup-insert}
use plaid.Message.{Message}
use plaid.Env.{Platform, PlaidModule, PersistentResponse, Env}
use plaid.Functions.Message.{Encoding, give, get_response, set_response}
use plaid.Guest.{get_memory, safely_get_string}
use plaid.Executor.{Runtime, System, returned, env_for, leave, error_of, answer, run_module}
use plaid.Executor.Response.{
  Updated, send, store_response, update_persistent_response, get_persistent_response_data,
}

module _ (w : Platform) where
  set_response-text :
      (env : Env w) (view : w.guest.View) (ptr size : ℕ) (text : String)
      → env.memory ≡ some view
      → w.guest.read_utf8_string view ptr size ≡ some text
      → set_response w env ptr size ≡ record env { response = some text }
  unfolding set_response get_memory safely_get_string
  set_response-text env view ptr size text m r = simp (set_response, m, r)

  stored :
      (text : String) (pr : PersistentResponse) (sender : Option ℕ)
      → len text ≤ pr.max_size
      → pr.poisoned ≡ false
      → update_persistent_response (some text) (some pr) sender ≡ record {
        result = ok tt;
        persistent = some (record pr { content = some text });
        replies = send sender (some (record { code = 200; body = text }));
      }
  unfolding update_persistent_response store_response
  stored text pr sender fits sound =
      let within : leb (len text) pr.max_size ≡ true = ground arith in rw (within, sound)

  -- A run that starts while a module keeps this response, whatever else has changed meanwhile.
  abbrev pub Gets : Encoding → Option PersistentResponse → String → Type 0
  Gets enc kept text =
      (sys : System w) (m : PlaidModule) (message : Message) (view : w.guest.View) (buf size : ℕ)
      → m.persistent_response ≡ kept
      → let env = record (env_for w sys message m) { memory = some view } in
        get_response w enc env buf size ≡ give w env view (enc.as_bytes text) buf size

  response-given :
      (enc : Encoding) (env : Env w) (view : w.guest.View) (text : String) (buf size : ℕ)
      → env.memory ≡ some view
      → env.response ≡ some text
      → get_response w enc env buf size ≡ give w env view (enc.as_bytes text) buf size
  unfolding get_response get_memory
  response-given enc env view text buf size m r = simp (get_response, m, r)

  get_response-gives :
      (enc : Encoding) (pr : PersistentResponse) (text : String)
      → pr.poisoned ≡ false
      → pr.content ≡ some text
      → Gets enc (some pr) text
  unfolding env_for get_persistent_response_data
  get_response-gives enc pr text sound content sys m message view buf size kept =
      let held : get_persistent_response_data m.persistent_response ≡ some text =
        ap get_persistent_response_data kept ∙ ground arith in
      response-given enc (record (env_for w sys message m) { memory = some view }) view text buf
        size refl held

  -- What the executor keeps of a response: the reply, and a module in the table of which later runs
  -- get it.
  abbrev pub IsKept : Encoding → System w → String → Option ℕ → String → System w → Type 0
  IsKept enc sys name sender text sys' =
      (sys'.replies ≡ sys.replies ++ send sender (some (record { code = 200; body = text })))
      × ((m : PlaidModule) × (lookup name sys'.modules ≡ some m)
          × Gets enc m.persistent_response text)

  answer-IsKept :
      (rt : Runtime w) (enc : Encoding) (sys : System w) (module_ : PlaidModule) (env : Env w)
      (message : Message) (text : String) (pr : PersistentResponse)
      → env.response ≡ some text
      → module_.persistent_response ≡ some pr
      → len text ≤ pr.max_size
      → pr.poisoned ≡ false
      → IsKept enc sys module_.name message.response_sender text
          (answer w rt (leave w sys module_ env) module_ env message)
  unfolding answer leave
  answer-IsKept rt enc sys module_ env message text pr set kept fits sound =
      let name = module_.name in
      let sender = message.response_sender in
      let out = update_persistent_response env.response module_.persistent_response sender in
      let is =
        ap (λ r. update_persistent_response r module_.persistent_response sender) set
        ∙ ap (λ p. update_persistent_response (some text) p sender) kept
        ∙ stored text pr sender fits sound in
      let m' = record module_ {
        storage_current = env.module_.storage_current;
        persistent_response = out.persistent;
      } in
      let left = leave w sys module_ env in
      (
        ap (λ o. sys.replies ++ Updated.replies o) is,
        (
          m',
          ground (arith, eq_iff name name, lookup-insert name name m' left.modules),
          subst (λ kept. Gets enc kept text) (sym (ap Updated.persistent is))
              (get_response-gives enc (record pr { content = some text }) text sound refl),
        ),
      )

  -- A response that a rule sets as the last effect of a run that returns 0 is sent to the one who
  -- asked, and the module keeps it: in each later run of the module that starts before another
  -- response is stored, and in which it has a memory, `get_response` gives its bytes. The rule has a
  -- memory in which the text lies, the module keeps responses of this size, and the lock is sound.
  pub run_module-IsKept :
      (rt : Runtime w) (enc : Encoding) (sys : System w) (module_ : PlaidModule) (env e : Env w)
      (message : Message) (view : w.guest.View) (ptr size : ℕ) (text : String)
      (pr : PersistentResponse)
      → rt.call env ≡ (returned (pos 0), set_response w e ptr size)
      → e.memory ≡ some view
      → w.guest.read_utf8_string view ptr size ≡ some text
      → module_.persistent_response ≡ some pr
      → len text ≤ pr.max_size
      → pr.poisoned ≡ false
      → IsKept enc sys module_.name message.response_sender text
          (run_module w rt sys module_ env message).1
  unfolding run_module error_of
  run_module-IsKept rt enc sys module_ env e message view ptr size text pr called m r kept fits
        sound =
      let after = record e { response = some text } in
      let call : rt.call env ≡ (returned (pos 0), after) =
        called ∙ ap (λ x. (returned (pos 0), x)) (set_response-text e view ptr size text m r) in
      let run : run_module w rt sys module_ env message
          ≡ (ok tt, answer w rt (leave w sys module_ after) module_ after message) =
        rw (run_module, call, call) in
      subst (λ out. IsKept enc sys module_.name message.response_sender text out.1) (sym run)
        (answer-IsKept rt enc sys module_ after message text pr refl kept fits sound)
