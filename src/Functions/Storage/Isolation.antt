-- ===== src/Functions/Storage/Isolation.antt =====
-- A module writes to its own namespace and to the shared ones that list it under `rw`.
use plaid.Base.{ℕ, ◌≡◌, String, str_eq, false, Option, none, some, List, arith, eq_iff}
use plaid.Base.Result.{ok, or_fail, or_fail_ok}
use plaid.Storage.{Storage, SharedDb}
use plaid.Guest.{api_not_configured, operation_not_allowed, shared_db_error}
use plaid.Base.Dict.{HashMap, lookup}
use plaid.Storage.Contract.{Contract}
use plaid.Env.{Platform, Env}
use plaid.Functions.Storage.{
  can_write, can_read, require, storage_insert, storage_insert_shared, storage_get,
  storage_get_shared, storage_list_keys, storage_list_keys_shared, storage_delete,
  storage_delete_shared, memory_view, guest_string, guest_memory,
}
use plaid.Functions.Storage.Elsewhere.{
  Agree, Agree-refl, insert_common-Agree, delete_common-Agree, get_common-Agree,
  list_keys_common-Agree,
}
use plaid.Functions.Storage.Calls.{StorageCall, perform, writable, finish_bind}

module _ (w : Platform) {at : w.provider.State → String → String → Option (List ℕ)}
    {size : w.provider.State → String → ℕ} (contract : Contract w.provider at size) where
  -- The storage stays configured, or not, and holds the same under the namespace `n`.
  abbrev pub Unchanged : String → Option (Storage w.provider) → Option (Storage w.provider) → Type 0
  Unchanged n none none = Unit
  Unchanged n (some a) (some b) = Agree w.provider w.guest contract n a.database b.database
  Unchanged n none (some b) = ⊥
  Unchanged n (some a) none = ⊥

  pub Unchanged-refl : (n : String) (o : Option (Storage w.provider)) → Unchanged n o o
  Unchanged-refl n none = tt
  Unchanged-refl n (some a) = Agree-refl w.provider w.guest contract n a.database

  module _ (env : Env w) (n : String) where
    abbrev P : Env w → Type 0
    P after = Unchanged n env.storage after.storage

    same : P env
    same = Unchanged-refl n env.storage

    -- The storage goes from `st` to one that agrees with it on `n`.
    moved :
        (st st' : Storage w.provider)
        → or_fail env.storage api_not_configured ≡ ok st
        → Agree w.provider w.guest contract n st.database st'.database
        → Unchanged n env.storage (some st')
    moved st st' e h = rw (or_fail_ok env.storage api_not_configured e) h

    -- A namespace that may be written is not `n`.
    elsewhere :
        (st : Storage w.provider) (dbs : HashMap SharedDb) (ns : String)
        → or_fail env.storage api_not_configured ≡ ok st
        → or_fail st.shared_dbs operation_not_allowed ≡ ok dbs
        → require (can_write dbs ns env.module_.name) operation_not_allowed ≡ ok tt
        → writable w env n ≡ false
        → str_eq ns n ≡ false
    unfolding writable
    elsewhere st dbs ns e1 e2 e3 h = ground (
      arith,
      eq_iff ns n,
      or_fail_ok env.storage api_not_configured e1,
      or_fail_ok st.shared_dbs operation_not_allowed e2,
    )

    insert-P :
        (a b c d e f : ℕ)
        → str_eq env.module_.name n ≡ false
        → P (storage_insert w env a b c d e f).1
    unfolding storage_insert
    insert-P a b c d e f h =
        finish_bind w P env (or_fail env.storage api_not_configured) _ same λ st e1.
          finish_bind w P env (memory_view w env) _ same λ view e2.
            finish_bind w P env (guest_string w view a b) _ same λ key e3.
              finish_bind w P env (guest_memory w env.module_.page_limit view c d) _ same
                λ value e4. moved st _ e1 (
                  insert_common-Agree w.provider w.guest contract env.module_.name key view e f n
                    value env.module_.storage_limit env.module_.storage_current st.database h)

    insert_shared-P :
        (a b c d e f g i : ℕ)
        → writable w env n ≡ false
        → P (storage_insert_shared w env a b c d e f g i).1
    unfolding storage_insert_shared
    insert_shared-P a b c d e f g i h =
        finish_bind w P env (or_fail env.storage api_not_configured) _ same λ st e1.
          finish_bind w P env (or_fail st.shared_dbs operation_not_allowed) _ same λ dbs e2.
            finish_bind w P env (memory_view w env) _ same λ view e3.
              finish_bind w P env (guest_string w view a b) _ same λ ns e4.
                finish_bind w P env
                  (require (can_write dbs ns env.module_.name) operation_not_allowed) _ same
                  λ u e5. finish_bind w P env (guest_string w view c d) _ same λ key e6.
                    finish_bind w P env (guest_memory w env.module_.page_limit view e f) _ same
                      λ value e7.
                        finish_bind w P env (or_fail (lookup ns dbs) shared_db_error) _ same
                          λ db e8. moved st _ e1 (
                            insert_common-Agree w.provider w.guest contract ns key view g i n value
                              db.config.size_limit db.used_storage st.database
                              (elsewhere st dbs ns e1 e2 e5 h))

    get-P : (a b c d : ℕ) → P (storage_get w env a b c d).1
    unfolding storage_get
    get-P a b c d = finish_bind w P env (or_fail env.storage api_not_configured) _ same λ st e1.
        finish_bind w P env (memory_view w env) _ same λ view e2.
          finish_bind w P env (guest_string w view a b) _ same λ key e3. moved st _ e1 (
            get_common-Agree w.provider w.guest contract env.module_.name key view c d n
              st.database)

    get_shared-P : (a b c d e f : ℕ) → P (storage_get_shared w env a b c d e f).1
    unfolding storage_get_shared
    get_shared-P a b c d e f =
        finish_bind w P env (or_fail env.storage api_not_configured) _ same λ st e1.
          finish_bind w P env (or_fail st.shared_dbs operation_not_allowed) _ same λ dbs e2.
            finish_bind w P env (memory_view w env) _ same λ view e3.
              finish_bind w P env (guest_string w view a b) _ same λ ns e4.
                finish_bind w P env
                  (require (can_read dbs ns env.module_.name) operation_not_allowed) _ same
                  λ u e5. finish_bind w P env (guest_string w view c d) _ same λ key e6.
                    moved st _ e1
                      (get_common-Agree w.provider w.guest contract ns key view e f n st.database)

    list_keys-P : (a b c d : ℕ) → P (storage_list_keys w env a b c d).1
    unfolding storage_list_keys
    list_keys-P a b c d =
        finish_bind w P env (or_fail env.storage api_not_configured) _ same λ st e1.
          finish_bind w P env (memory_view w env) _ same λ view e2.
            finish_bind w P env (guest_string w view a b) _ same λ key e3. moved st _ e1 (
              list_keys_common-Agree w.provider w.guest contract env.module_.name key view c d n
                w.serialize_keys st.database)

    list_keys_shared-P : (a b c d e f : ℕ) → P (storage_list_keys_shared w env a b c d e f).1
    unfolding storage_list_keys_shared
    list_keys_shared-P a b c d e f =
        finish_bind w P env (or_fail env.storage api_not_configured) _ same λ st e1.
          finish_bind w P env (or_fail st.shared_dbs operation_not_allowed) _ same λ dbs e2.
            finish_bind w P env (memory_view w env) _ same λ view e3.
              finish_bind w P env (guest_string w view a b) _ same λ ns e4.
                finish_bind w P env
                  (require (can_read dbs ns env.module_.name) operation_not_allowed) _ same
                  λ u e5. finish_bind w P env (guest_string w view c d) _ same λ key e6.
                    moved st _ e1 (
                      list_keys_common-Agree w.provider w.guest contract ns key view e f n
                        w.serialize_keys st.database)

    delete-P :
        (a b c d : ℕ) → str_eq env.module_.name n ≡ false → P (storage_delete w env a b c d).1
    unfolding storage_delete
    delete-P a b c d h =
        finish_bind w P env (or_fail env.storage api_not_configured) _ same λ st e1.
          finish_bind w P env (memory_view w env) _ same λ view e2.
            finish_bind w P env (guest_string w view a b) _ same λ key e3. moved st _ e1 (
              delete_common-Agree w.provider w.guest contract env.module_.name key view c d n
                env.module_.storage_limit env.module_.storage_current st.database h)

    delete_shared-P :
        (a b c d e f : ℕ) → writable w env n ≡ false → P (storage_delete_shared w env a b c d e f).1
    unfolding storage_delete_shared
    delete_shared-P a b c d e f h =
        finish_bind w P env (or_fail env.storage api_not_configured) _ same λ st e1.
          finish_bind w P env (or_fail st.shared_dbs operation_not_allowed) _ same λ dbs e2.
            finish_bind w P env (memory_view w env) _ same λ view e3.
              finish_bind w P env (guest_string w view a b) _ same λ ns e4.
                finish_bind w P env (guest_string w view c d) _ same λ key e5.
                  finish_bind w P env
                    (require (can_write dbs ns env.module_.name) operation_not_allowed) _ same
                    λ u e6.
                      finish_bind w P env (or_fail (lookup ns dbs) api_not_configured) _ same
                        λ db e7. moved st _ e1 (
                          delete_common-Agree w.provider w.guest contract ns key view e f n
                            db.config.size_limit db.used_storage st.database
                            (elsewhere st dbs ns e1 e2 e6 h))

  -- No storage call of a module, whatever its arguments and whether it succeeds or fails, changes a
  -- key or the size of a namespace other than the module's own and the shared ones that list the
  -- module under `rw`.
  pub perform-Unchanged :
      (env : Env w) (call : StorageCall) (n : String)
      → str_eq env.module_.name n ≡ false
      → writable w env n ≡ false
      → Unchanged n env.storage (perform w env call).1.storage
  unfolding perform
  perform-Unchanged env (StorageCall.insert a b c d e f) n own rw_ = insert-P env n a b c d e f own
  perform-Unchanged env (StorageCall.insert_shared a b c d e f g i) n own rw_ =
      insert_shared-P env n a b c d e f g i rw_
  perform-Unchanged env (StorageCall.get a b c d) n own rw_ = get-P env n a b c d
  perform-Unchanged env (StorageCall.list_keys a b c d) n own rw_ = list_keys-P env n a b c d
  perform-Unchanged env (StorageCall.delete a b c d) n own rw_ = delete-P env n a b c d own
  perform-Unchanged env (StorageCall.get_shared a b c d e f) n own rw_ =
      get_shared-P env n a b c d e f
  perform-Unchanged env (StorageCall.list_keys_shared a b c d e f) n own rw_ =
      list_keys_shared-P env n a b c d e f
  perform-Unchanged env (StorageCall.delete_shared a b c d e f) n own rw_ =
      delete_shared-P env n a b c d e f rw_
