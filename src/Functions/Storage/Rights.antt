-- ===== src/Functions/Storage/Rights.antt =====
-- No storage call changes which namespaces a module may write.
use plaid.Base.{ℕ, ◌≡◌, refl, String, some, arith, eq_iff}
use plaid.Base.Result.{ok, or_fail, or_fail_ok}
use plaid.Base.Dict.{HashMap, lookup, insert, lookup-insert}
use plaid.Guest.{api_not_configured, operation_not_allowed, shared_db_error}
use plaid.Storage.{Storage, SharedDb, Counter}
use plaid.Env.{Platform, Env}
use plaid.Functions.Storage.{
  can_write, can_read, require, memory_view, guest_string, guest_memory, storage_insert,
  storage_insert_shared, storage_get, storage_get_shared, storage_list_keys,
  storage_list_keys_shared, storage_delete, storage_delete_shared,
}
use plaid.Functions.Storage.Calls.{StorageCall, perform, writable, finish_bind}

-- Counting changes no access.
can_write-insert :
    (ns n name : String) (db : SharedDb) (c : Counter) (dbs : HashMap SharedDb)
    → lookup ns dbs ≡ some db
    → can_write (insert ns (record db { used_storage = c }) dbs) n name ≡ can_write dbs n name
unfolding can_write
can_write-insert ns n name db c dbs e =
    ground (arith, eq_iff ns n, lookup-insert ns n (record db { used_storage = c }) dbs)

module _ (w : Platform) where
  -- The name and the access of the module are the same.
  abbrev pub HasRights : String → Env w → Env w → Type 0
  HasRights n env after =
      (after.module_.name ≡ env.module_.name) × (writable w after n ≡ writable w env n)

  module _ (env : Env w) (n : String) where
    abbrev Q : Env w → Type 0
    Q = HasRights n env

    same : Q env
    same = (refl, refl)

    -- Only the contents of the storage, the counter of the module and the memory change.
    own :
        (st : Storage w.provider) (s : w.provider.State) (c : Counter) (view : w.guest.View)
        → or_fail env.storage api_not_configured ≡ ok st
        → Q (record env {
          module_ = record env.module_ { storage_current = c };
          storage = some (record st { database = s });
          memory = some view;
        })
    unfolding writable
    own st s c view e = (refl, rw (or_fail_ok env.storage api_not_configured e, writable) refl)

    shared :
        (st : Storage w.provider) (dbs : HashMap SharedDb) (ns : String) (db : SharedDb)
        (s : w.provider.State) (c : Counter) (view : w.guest.View)
        → or_fail env.storage api_not_configured ≡ ok st
        → or_fail st.shared_dbs operation_not_allowed ≡ ok dbs
        → lookup ns dbs ≡ some db
        → Q (record env {
          storage = some (record st {
            database = s;
            shared_dbs = some (insert ns (record db { used_storage = c }) dbs);
          });
          memory = some view;
        })
    unfolding writable
    shared st dbs ns db s c view e f found = (
      refl,
      rw
          (
            or_fail_ok env.storage api_not_configured e,
            or_fail_ok st.shared_dbs operation_not_allowed f,
            writable,
          )
          (can_write-insert ns n env.module_.name db c dbs found),
    )

    storage_insert-HasRights : (a b c d e f : ℕ) → Q (storage_insert w env a b c d e f).1
    unfolding storage_insert
    storage_insert-HasRights a b c d e f =
        finish_bind w Q env (or_fail env.storage api_not_configured) _ same λ st e1.
          finish_bind w Q env (memory_view w env) _ same λ view e2.
            finish_bind w Q env (guest_string w view a b) _ same λ key e3.
              finish_bind w Q env (guest_memory w env.module_.page_limit view c d) _ same
                λ value e4. own st _ _ _ e1

    storage_insert_shared-HasRights :
        (a b c d e f g i : ℕ) → Q (storage_insert_shared w env a b c d e f g i).1
    unfolding storage_insert_shared
    storage_insert_shared-HasRights a b c d e f g i =
        finish_bind w Q env (or_fail env.storage api_not_configured) _ same λ st e1.
          finish_bind w Q env (or_fail st.shared_dbs operation_not_allowed) _ same λ dbs e2.
            finish_bind w Q env (memory_view w env) _ same λ view e3.
              finish_bind w Q env (guest_string w view a b) _ same λ ns e4.
                finish_bind w Q env
                  (require (can_write dbs ns env.module_.name) operation_not_allowed) _ same
                  λ u e5. finish_bind w Q env (guest_string w view c d) _ same λ key e6.
                    finish_bind w Q env (guest_memory w env.module_.page_limit view e f) _ same
                      λ value e7.
                        finish_bind w Q env (or_fail (lookup ns dbs) shared_db_error) _ same
                          λ db e8.
                            shared st dbs ns db _ _ _ e1 e2
                              (or_fail_ok (lookup ns dbs) shared_db_error e8)

    storage_get-HasRights : (a b c d : ℕ) → Q (storage_get w env a b c d).1
    unfolding storage_get
    storage_get-HasRights a b c d =
        finish_bind w Q env (or_fail env.storage api_not_configured) _ same λ st e1.
          finish_bind w Q env (memory_view w env) _ same λ view e2.
            finish_bind w Q env (guest_string w view a b) _ same
              λ key e3. own st _ env.module_.storage_current _ e1

    storage_get_shared-HasRights : (a b c d e f : ℕ) → Q (storage_get_shared w env a b c d e f).1
    unfolding storage_get_shared
    storage_get_shared-HasRights a b c d e f =
        finish_bind w Q env (or_fail env.storage api_not_configured) _ same λ st e1.
          finish_bind w Q env (or_fail st.shared_dbs operation_not_allowed) _ same λ dbs e2.
            finish_bind w Q env (memory_view w env) _ same λ view e3.
              finish_bind w Q env (guest_string w view a b) _ same λ ns e4.
                finish_bind w Q env
                  (require (can_read dbs ns env.module_.name) operation_not_allowed) _ same
                  λ u e5.
                    finish_bind w Q env (guest_string w view c d) _ same
                      λ key e6. own st _ env.module_.storage_current _ e1

    storage_list_keys-HasRights : (a b c d : ℕ) → Q (storage_list_keys w env a b c d).1
    unfolding storage_list_keys
    storage_list_keys-HasRights a b c d =
        finish_bind w Q env (or_fail env.storage api_not_configured) _ same λ st e1.
          finish_bind w Q env (memory_view w env) _ same λ view e2.
            finish_bind w Q env (guest_string w view a b) _ same
              λ key e3. own st _ env.module_.storage_current _ e1

    storage_list_keys_shared-HasRights :
        (a b c d e f : ℕ) → Q (storage_list_keys_shared w env a b c d e f).1
    unfolding storage_list_keys_shared
    storage_list_keys_shared-HasRights a b c d e f =
        finish_bind w Q env (or_fail env.storage api_not_configured) _ same λ st e1.
          finish_bind w Q env (or_fail st.shared_dbs operation_not_allowed) _ same λ dbs e2.
            finish_bind w Q env (memory_view w env) _ same λ view e3.
              finish_bind w Q env (guest_string w view a b) _ same λ ns e4.
                finish_bind w Q env
                  (require (can_read dbs ns env.module_.name) operation_not_allowed) _ same
                  λ u e5.
                    finish_bind w Q env (guest_string w view c d) _ same
                      λ key e6. own st _ env.module_.storage_current _ e1

    storage_delete-HasRights : (a b c d : ℕ) → Q (storage_delete w env a b c d).1
    unfolding storage_delete
    storage_delete-HasRights a b c d =
        finish_bind w Q env (or_fail env.storage api_not_configured) _ same λ st e1.
          finish_bind w Q env (memory_view w env) _ same λ view e2.
            finish_bind w Q env (guest_string w view a b) _ same λ key e3. own st _ _ _ e1

    storage_delete_shared-HasRights :
        (a b c d e f : ℕ) → Q (storage_delete_shared w env a b c d e f).1
    unfolding storage_delete_shared
    storage_delete_shared-HasRights a b c d e f =
        finish_bind w Q env (or_fail env.storage api_not_configured) _ same λ st e1.
          finish_bind w Q env (or_fail st.shared_dbs operation_not_allowed) _ same λ dbs e2.
            finish_bind w Q env (memory_view w env) _ same λ view e3.
              finish_bind w Q env (guest_string w view a b) _ same λ ns e4.
                finish_bind w Q env (guest_string w view c d) _ same λ key e5.
                  finish_bind w Q env
                    (require (can_write dbs ns env.module_.name) operation_not_allowed) _ same
                    λ u e6.
                      finish_bind w Q env (or_fail (lookup ns dbs) api_not_configured) _ same
                        λ db e7.
                          shared st dbs ns db _ _ _ e1 e2
                            (or_fail_ok (lookup ns dbs) api_not_configured e7)

    pub perform-HasRights : (call : StorageCall) → Q (perform w env call).1
    unfolding perform
    perform-HasRights (StorageCall.insert a b c d e f) = storage_insert-HasRights a b c d e f
    perform-HasRights (StorageCall.insert_shared a b c d e f g i) =
        storage_insert_shared-HasRights a b c d e f g i
    perform-HasRights (StorageCall.get a b c d) = storage_get-HasRights a b c d
    perform-HasRights (StorageCall.list_keys a b c d) = storage_list_keys-HasRights a b c d
    perform-HasRights (StorageCall.delete a b c d) = storage_delete-HasRights a b c d
    perform-HasRights (StorageCall.get_shared a b c d e f) =
        storage_get_shared-HasRights a b c d e f
    perform-HasRights (StorageCall.list_keys_shared a b c d e f) =
        storage_list_keys_shared-HasRights a b c d e f
    perform-HasRights (StorageCall.delete_shared a b c d e f) =
        storage_delete_shared-HasRights a b c d e f
