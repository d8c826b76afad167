-- ===== src/Functions/Storage/Accounting/PerCall.antt =====
-- Every storage call keeps the counters: one lemma for each call, and the theorem.
use plaid.Base.{ℕ, ◌≡◌, String, len, length, Option, arith, inl, inr, Option-cases}
use plaid.Base.Dict.{lookup}
use plaid.Base.Result.{ok, or_fail, or_fail_ok}
use plaid.Guest.{Bytes, api_not_configured, operation_not_allowed, shared_db_error}
use plaid.Storage.{Storage}
use plaid.Storage.Contract.{Contract}
use plaid.Env.{Platform, Env}
use plaid.Functions.Storage.{
  can_write, can_read, require, memory_view, guest_string, guest_memory, storage_insert,
  storage_insert_shared, storage_get, storage_get_shared, storage_list_keys,
  storage_list_keys_shared, storage_delete, storage_delete_shared,
}
use plaid.Functions.Storage.Elsewhere.{
  insert_common-Agree, delete_common-Agree, get_common-Agree, list_keys_common-Agree,
}
use plaid.Functions.Storage.Calls.{StorageCall, perform, finish_bind}
use plaid.Functions.Storage.Accounting.{
  IsLength, ReadsAsked, Accounted, IsAccounted, insert_common-LimitHolds, delete_common-LimitHolds,
  read-Accounted, own-Accounted, shared-Accounted,
}

module _ (w : Platform) {at : w.provider.State → String → String → Option Bytes}
    {size : w.provider.State → String → ℕ} (contract : Contract w.provider at size) where
  -- The lengths of the keys and values that a call passes are `u32`s.
  abbrev pub HasLengths : StorageCall → Type 0
  HasLengths (StorageCall.insert a b c d e f) = IsLength b × IsLength d
  HasLengths (StorageCall.insert_shared a b c d e f g i) = IsLength d × IsLength f
  HasLengths _ = Unit

  module _ (reads : ReadsAsked w.guest) (env : Env w) where
    abbrev I : Env w → Type 0
    I = IsAccounted w contract

    key-IsLength :
        (view : w.guest.View) (buf n : ℕ) (s : String)
        → guest_string w view buf n ≡ ok s
        → IsLength n
        → IsLength (len s)
    unfolding guest_string
    key-IsLength view buf n s e h = elim (Option-cases (w.guest.read_utf8_string view buf n)) [
      | inl none_ ↦ ground arith
      | inr (t, some_) ↦ ground (arith, reads.string_len view buf n t some_)
    ]

    value-IsLength :
        (pages : ℕ) (view : w.guest.View) (buf n : ℕ) (b : Bytes)
        → guest_memory w pages view buf n ≡ ok b
        → IsLength n
        → IsLength (length b)
    unfolding guest_memory
    value-IsLength pages view buf n b e h = elim (Option-cases (w.guest.read view buf n)) [
      | inl none_ ↦ ground arith
      | inr (t, some_) ↦ ground (arith, reads.bytes_len view buf n t some_)
    ]

    -- What an accounted environment says of its storage.
    accounted :
        (st : Storage w.provider)
        → or_fail env.storage api_not_configured ≡ ok st
        → IsAccounted w contract env
        → Accounted w contract env.module_.name env.module_.storage_limit
            env.module_.storage_current st
    accounted st e h = rw (or_fail_ok env.storage api_not_configured e) at h

    insert-Accounted :
        (a b c d e f : ℕ)
        → IsLength b
        → IsLength d
        → IsAccounted w contract env
        → IsAccounted w contract (storage_insert w env a b c d e f).1
    unfolding storage_insert
    insert-Accounted a b c d e f hb hd h =
        finish_bind w I env (or_fail env.storage api_not_configured) _ h λ st e1.
          finish_bind w I env (memory_view w env) _ h λ view e2.
            finish_bind w I env (guest_string w view a b) _ h λ key e3.
              finish_bind w I env (guest_memory w env.module_.page_limit view c d) _ h λ value e4.
                let m = env.module_ in
                let before = accounted st e1 h in
                own-Accounted w contract m.name m.storage_limit m.storage_current _ st _
                  (λ n ne.
                    insert_common-Agree w.provider w.guest contract m.name key view e f n value
                      m.storage_limit m.storage_current st.database ne)
                  (insert_common-LimitHolds w.provider w.guest contract m.name key view e f value
                    m.storage_limit m.storage_current st.database (key-IsLength view a b key e3 hb)
                    (value-IsLength m.page_limit view c d value e4 hd) before.own)
                  before

    insert_shared-Accounted :
        (a b c d e f g i : ℕ)
        → IsLength d
        → IsLength f
        → IsAccounted w contract env
        → IsAccounted w contract (storage_insert_shared w env a b c d e f g i).1
    unfolding storage_insert_shared
    insert_shared-Accounted a b c d e f g i hd hf h =
        finish_bind w I env (or_fail env.storage api_not_configured) _ h λ st e1.
          finish_bind w I env (or_fail st.shared_dbs operation_not_allowed) _ h λ dbs e2.
            finish_bind w I env (memory_view w env) _ h λ view e3.
              finish_bind w I env (guest_string w view a b) _ h λ ns e4.
                finish_bind w I env
                  (require (can_write dbs ns env.module_.name) operation_not_allowed) _ h
                  λ u e5. finish_bind w I env (guest_string w view c d) _ h λ key e6.
                    finish_bind w I env (guest_memory w env.module_.page_limit view e f) _ h
                      λ value e7.
                        finish_bind w I env (or_fail (lookup ns dbs) shared_db_error) _ h λ db e8.
                          let m = env.module_ in
                          let before = accounted st e1 h in
                          let found = or_fail_ok (lookup ns dbs) shared_db_error e8 in
                          let listed = or_fail_ok st.shared_dbs operation_not_allowed e2 in
                          shared-Accounted w contract m.name m.storage_limit m.storage_current st
                            dbs ns db _ _ listed found
                            (λ n ne.
                              insert_common-Agree w.provider w.guest contract ns key view g i n
                                value db.config.size_limit db.used_storage st.database ne)
                            (insert_common-LimitHolds w.provider w.guest contract ns key view g i
                              value db.config.size_limit db.used_storage st.database
                              (key-IsLength view c d key e6 hd)
                              (value-IsLength m.page_limit view e f value e7 hf)
                              (before.shared ns db (rw listed found)))
                            before

    get-Accounted :
        (a b c d : ℕ)
        → IsAccounted w contract env
        → IsAccounted w contract (storage_get w env a b c d).1
    unfolding storage_get
    get-Accounted a b c d h =
        finish_bind w I env (or_fail env.storage api_not_configured) _ h λ st e1.
          finish_bind w I env (memory_view w env) _ h λ view e2.
            finish_bind w I env (guest_string w view a b) _ h λ key e3.
              let m = env.module_ in
              read-Accounted w contract m.name m.storage_limit m.storage_current st _
                (λ n.
                  get_common-Agree w.provider w.guest contract m.name key view c d n st.database)
                (accounted st e1 h)

    get_shared-Accounted :
        (a b c d e f : ℕ)
        → IsAccounted w contract env
        → IsAccounted w contract (storage_get_shared w env a b c d e f).1
    unfolding storage_get_shared
    get_shared-Accounted a b c d e f h =
        finish_bind w I env (or_fail env.storage api_not_configured) _ h λ st e1.
          finish_bind w I env (or_fail st.shared_dbs operation_not_allowed) _ h λ dbs e2.
            finish_bind w I env (memory_view w env) _ h λ view e3.
              finish_bind w I env (guest_string w view a b) _ h λ ns e4.
                finish_bind w I env
                  (require (can_read dbs ns env.module_.name) operation_not_allowed) _ h
                  λ u e5. finish_bind w I env (guest_string w view c d) _ h λ key e6.
                    let m = env.module_ in
                    read-Accounted w contract m.name m.storage_limit m.storage_current st _
                      (λ n.
                        get_common-Agree w.provider w.guest contract ns key view e f n st.database)
                      (accounted st e1 h)

    list_keys-Accounted :
        (a b c d : ℕ)
        → IsAccounted w contract env
        → IsAccounted w contract (storage_list_keys w env a b c d).1
    unfolding storage_list_keys
    list_keys-Accounted a b c d h =
        finish_bind w I env (or_fail env.storage api_not_configured) _ h λ st e1.
          finish_bind w I env (memory_view w env) _ h λ view e2.
            finish_bind w I env (guest_string w view a b) _ h λ key e3.
              let m = env.module_ in
              read-Accounted w contract m.name m.storage_limit m.storage_current st _
                (λ n.
                  list_keys_common-Agree w.provider w.guest contract m.name key view c d n
                    w.serialize_keys st.database)
                (accounted st e1 h)

    list_keys_shared-Accounted :
        (a b c d e f : ℕ)
        → IsAccounted w contract env
        → IsAccounted w contract (storage_list_keys_shared w env a b c d e f).1
    unfolding storage_list_keys_shared
    list_keys_shared-Accounted a b c d e f h =
        finish_bind w I env (or_fail env.storage api_not_configured) _ h λ st e1.
          finish_bind w I env (or_fail st.shared_dbs operation_not_allowed) _ h λ dbs e2.
            finish_bind w I env (memory_view w env) _ h λ view e3.
              finish_bind w I env (guest_string w view a b) _ h λ ns e4.
                finish_bind w I env
                  (require (can_read dbs ns env.module_.name) operation_not_allowed) _ h
                  λ u e5. finish_bind w I env (guest_string w view c d) _ h λ key e6.
                    let m = env.module_ in
                    read-Accounted w contract m.name m.storage_limit m.storage_current st _
                      (λ n.
                        list_keys_common-Agree w.provider w.guest contract ns key view e f n
                          w.serialize_keys st.database)
                      (accounted st e1 h)

    delete-Accounted :
        (a b c d : ℕ)
        → IsAccounted w contract env
        → IsAccounted w contract (storage_delete w env a b c d).1
    unfolding storage_delete
    delete-Accounted a b c d h =
        finish_bind w I env (or_fail env.storage api_not_configured) _ h λ st e1.
          finish_bind w I env (memory_view w env) _ h λ view e2.
            finish_bind w I env (guest_string w view a b) _ h λ key e3.
              let m = env.module_ in
              let before = accounted st e1 h in
              own-Accounted w contract m.name m.storage_limit m.storage_current _ st _
                (λ n ne.
                  delete_common-Agree w.provider w.guest contract m.name key view c d n
                    m.storage_limit m.storage_current st.database ne)
                (delete_common-LimitHolds w.provider w.guest contract m.name key view c d
                  m.storage_limit m.storage_current st.database before.own)
                before

    delete_shared-Accounted :
        (a b c d e f : ℕ)
        → IsAccounted w contract env
        → IsAccounted w contract (storage_delete_shared w env a b c d e f).1
    unfolding storage_delete_shared
    delete_shared-Accounted a b c d e f h =
        finish_bind w I env (or_fail env.storage api_not_configured) _ h λ st e1.
          finish_bind w I env (or_fail st.shared_dbs operation_not_allowed) _ h λ dbs e2.
            finish_bind w I env (memory_view w env) _ h λ view e3.
              finish_bind w I env (guest_string w view a b) _ h λ ns e4.
                finish_bind w I env (guest_string w view c d) _ h λ key e5.
                  finish_bind w I env
                    (require (can_write dbs ns env.module_.name) operation_not_allowed) _ h
                    λ u e6.
                      finish_bind w I env (or_fail (lookup ns dbs) api_not_configured) _ h λ db e7.
                        let m = env.module_ in
                        let before = accounted st e1 h in
                        let found = or_fail_ok (lookup ns dbs) api_not_configured e7 in
                        let listed = or_fail_ok st.shared_dbs operation_not_allowed e2 in
                        shared-Accounted w contract m.name m.storage_limit m.storage_current st dbs
                          ns db _ _ listed found
                          (λ n ne.
                            delete_common-Agree w.provider w.guest contract ns key view e f n
                              db.config.size_limit db.used_storage st.database ne)
                          (delete_common-LimitHolds w.provider w.guest contract ns key view e f
                            db.config.size_limit db.used_storage st.database
                            (before.shared ns db (rw listed found)))
                          before

    -- Every storage call, whatever its arguments and whether it succeeds or fails, keeps the
    -- accounts: the counter of the module, and that of each shared namespace, shows the bytes stored
    -- there, and these are within the limit, wherever there is a limit. Each limit leaves 2^33 bytes
    -- below 2^64, key and value lengths are below 2^32, and no shared namespace has the module's
    -- name.
    pub perform-IsAccounted :
        (call : StorageCall)
        → HasLengths call
        → IsAccounted w contract env
        → IsAccounted w contract (perform w env call).1
    unfolding perform
    perform-IsAccounted (StorageCall.insert a b c d e f) l h =
        insert-Accounted a b c d e f l.0 l.1 h
    perform-IsAccounted (StorageCall.insert_shared a b c d e f g i) l h =
        insert_shared-Accounted a b c d e f g i l.0 l.1 h
    perform-IsAccounted (StorageCall.get a b c d) l h = get-Accounted a b c d h
    perform-IsAccounted (StorageCall.list_keys a b c d) l h = list_keys-Accounted a b c d h
    perform-IsAccounted (StorageCall.delete a b c d) l h = delete-Accounted a b c d h
    perform-IsAccounted (StorageCall.get_shared a b c d e f) l h =
        get_shared-Accounted a b c d e f h
    perform-IsAccounted (StorageCall.list_keys_shared a b c d e f) l h =
        list_keys_shared-Accounted a b c d e f h
    perform-IsAccounted (StorageCall.delete_shared a b c d e f) l h =
        delete_shared-Accounted a b c d e f h
