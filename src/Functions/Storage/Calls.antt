-- ===== src/Functions/Storage/Calls.antt =====
-- The storage calls that a guest can make, as data, and how they end.
use plaid.Base.{ℕ, ◌≡◌, refl, String, Bool, false, none, some}
use plaid.Base.Int.{ℤ}
use plaid.Base.Result.{Result, ok, err, ◌>>=◌}
use plaid.Guest.{FunctionErrors}
use plaid.Env.{Platform, Env}
use plaid.Functions.Storage.{
  finish, can_write, can_read, storage_insert, storage_insert_shared, storage_get,
  storage_get_shared, storage_list_keys, storage_list_keys_shared, storage_delete,
  storage_delete_shared,
}

-- The arguments are pointers and lengths, in the order of the host functions.
pub data StorageCall : Type 0 where
  insert : ℕ → ℕ → ℕ → ℕ → ℕ → ℕ → StorageCall
  insert_shared : ℕ → ℕ → ℕ → ℕ → ℕ → ℕ → ℕ → ℕ → StorageCall
  get list_keys delete : ℕ → ℕ → ℕ → ℕ → StorageCall
  get_shared list_keys_shared delete_shared : ℕ → ℕ → ℕ → ℕ → ℕ → ℕ → StorageCall

module _ (w : Platform) where
  unfoldable pub perform : Env w → StorageCall → ℤ × Env w
  perform env (insert a b c d e f) = storage_insert w env a b c d e f
  perform env (insert_shared a b c d e f h i) = storage_insert_shared w env a b c d e f h i
  perform env (get a b c d) = storage_get w env a b c d
  perform env (list_keys a b c d) = storage_list_keys w env a b c d
  perform env (delete a b c d) = storage_delete w env a b c d
  perform env (get_shared a b c d e f) = storage_get_shared w env a b c d e f
  perform env (list_keys_shared a b c d e f) = storage_list_keys_shared w env a b c d e f
  perform env (delete_shared a b c d e f) = storage_delete_shared w env a b c d e f

  -- The shared namespaces that the module of the environment may write.
  unfoldable pub writable : Env w → String → Bool
  writable env n = elim env.storage [
    | none ↦ false
    | some st ↦ elim st.shared_dbs [ none ↦ false | some dbs ↦ can_write dbs n env.module_.name ]
  ]

  unfoldable pub readable : Env w → String → Bool
  readable env n = elim env.storage [
    | none ↦ false
    | some st ↦ elim st.shared_dbs [ none ↦ false | some dbs ↦ can_read dbs n env.module_.name ]
  ]

  -- What holds of the environment before a call, and after each way to go on, holds after it.
  pub finish_bind {ℓ κ} :
      {A : Type ℓ} (P : Env w → Type κ) (env : Env w) (m : Result FunctionErrors A)
      (f : A → Result FunctionErrors (ℤ × Env w))
      → P env
      → ((a : A) → m ≡ ok a → P (finish w env (f a)).1)
      → P (finish w env (m >>= f)).1
  finish_bind P env (ok a) f h k = k a refl
  finish_bind P env (err e) f h k = h
