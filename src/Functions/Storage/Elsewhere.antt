-- ===== src/Functions/Storage/Elsewhere.antt =====
-- What the shared code of runtime/plaid/src/functions/storage.rs leaves alone: reads change nothing,
-- and writes change one namespace.
use plaid.Base.{ℕ, ◌≡◌, refl, ◌∙◌, String, str_eq, false, Option, some, List, arith, inl, inr}
use plaid.Base.Result.{Result, Result-cases}
use plaid.Guest.{Bytes, GuestMemory}
use plaid.Storage.{StorageProvider, StorageError, LimitValue, unlimited, limited, Counter}
use plaid.Storage.Contract.{Contract}
use plaid.Functions.Storage.Common.{
  respond, insert_counted, insert_limited, insert_common, get_common, list_keys_common,
  delete_limited, delete_some, delete_common,
}
use plaid.Functions.Storage.Quota.{respond_keeps}

module _ (p : StorageProvider) (g : GuestMemory) {at : p.State → String → String → Option Bytes}
    {size : p.State → String → ℕ} (contract : Contract p at size) where
  -- Two states agree on the namespace `n`.
  pub record Agree (n : String) (s t : p.State) : Type 0 where
    pub values : (j : String) → at t n j ≡ at s n j
    pub sizes : size t n ≡ size s n

  pub Agree-refl : (n : String) (s : p.State) → Agree n s s
  Agree-refl n s = record { values = λ j. refl; sizes = refl }

  pub Agree-trans : {n : String} {s t u : p.State} → Agree n s t → Agree n t u → Agree n s u
  Agree-trans a b = record { values = λ j. b.values j ∙ a.values j; sizes = b.sizes ∙ a.sizes }

  get-Agree : (ns k n : String) (s : p.State) → Agree n s (p.get ns k s).1
  get-Agree ns k n s = record {
    values = λ j. contract.get_at ns k n j s;
    sizes = contract.get_size ns k n s;
  }

  insert-Agree :
      (ns k : String) (v : Bytes) (n : String) (s : p.State)
      → str_eq ns n ≡ false
      → Agree n s (p.insert ns k v s).1
  insert-Agree ns k v n s h = elim (Result-cases (p.insert ns k v s).0) [
    | inl (o, e) ↦ record {
      values = λ j. ground (arith, contract.insert_ok_at ns k v s o e n j);
      sizes = contract.insert_other ns k v s n h;
    }
    | inr (x, e) ↦ record {
      values = λ j. (contract.insert_err ns k v s x e n j).0;
      sizes = contract.insert_other ns k v s n h;
    }
  ]

  delete-Agree :
      (ns k n : String) (s : p.State) → str_eq ns n ≡ false → Agree n s (p.delete ns k s).1
  delete-Agree ns k n s h = elim (Result-cases (p.delete ns k s).0) [
    | inl (o, e) ↦ record {
      values = λ j. ground (arith, contract.delete_ok_at ns k s o e n j);
      sizes = contract.delete_other ns k s n h;
    }
    | inr (x, e) ↦ record {
      values = λ j. (contract.delete_err ns k s x e n j).0;
      sizes = contract.delete_other ns k s n h;
    }
  ]

  list_keys-Agree : (ns k n : String) (s : p.State) → Agree n s (p.list_keys ns (some k) s).1
  list_keys-Agree ns k n s = record {
    values = λ j. (contract.list_keys_keeps ns (some k) s n j).0;
    sizes = (contract.list_keys_keeps ns (some k) s n n).1;
  }

  module _ (ns key : String) (view : g.View) (buf buf_len : ℕ) (n : String) where
    respond-Agree :
        (r : Result StorageError (Option Bytes)) (c : Counter) {s t : p.State}
        → Agree n s t
        → Agree n s (respond p g r t c view buf buf_len).database
    respond-Agree r c {t = t} a = rw ((respond_keeps p g r t c view buf buf_len).0) a

    pub insert_common-Agree :
        (value : Bytes) (limit : LimitValue) (c : Counter) (s : p.State)
        → str_eq ns n ≡ false
        → Agree n s (insert_common p g ns key value view buf buf_len limit c s).database
    unfolding insert_common insert_limited insert_counted
    insert_common-Agree value unlimited c s h =
        respond-Agree (p.insert ns key value s).0 c (insert-Agree ns key value n s h)
    insert_common-Agree value (limited m) c s h =
        let got = p.get ns key s in
        ground (
          arith,
          Agree-refl n s,
          get-Agree ns key n s,
          respond_keeps p g (p.insert ns key value got.1).0,
          Agree-trans (get-Agree ns key n s) (insert-Agree ns key value n got.1 h),
        )

    pub delete_common-Agree :
        (limit : LimitValue) (c : Counter) (s : p.State)
        → str_eq ns n ≡ false
        → Agree n s (delete_common p g ns key view buf buf_len limit c s).database
    unfolding delete_common delete_some delete_limited
    delete_common-Agree limit c s h = ground (
      arith,
      Agree-refl n s,
      respond_keeps p g (p.get ns key s).0,
      respond_keeps p g (p.delete ns key s).0,
      get-Agree ns key n s,
      delete-Agree ns key n s h,
    )

    pub get_common-Agree : (s : p.State) → Agree n s (get_common p g ns key view buf buf_len s).1
    unfolding get_common
    get_common-Agree s = ground (arith, get-Agree ns key n s)

    -- `key` is the prefix.
    pub list_keys_common-Agree :
        (serialize : List String → Option Bytes) (s : p.State)
        → Agree n s (list_keys_common p g serialize ns key view buf buf_len s).1
    unfolding list_keys_common
    list_keys_common-Agree serialize s = ground (arith, list_keys-Agree ns key n s)
