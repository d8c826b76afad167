-- ===== src/Functions/Storage/Quota.antt =====
-- The counter of a limited namespace, as `insert_common` and `delete_common` keep it.
use plaid.Base.{
  ℕ, str_eq, if◌then◌else◌, ◌&&◌, ◌+◌, ◌-◌, ◌≤◌, ◌<◌, ◌≡◌, refl, String, len, Option, none, some,
  length, arith, inl, inr, false,
}
use plaid.Base.Words.{u64_mod, add_u64}
use plaid.Base.Result.{Result, ok, err, Result-cases}
use plaid.Guest.{Bytes, GuestMemory, error_code, storage_limit_reached}
use plaid.Storage.{StorageProvider, StorageError, limited, Counter}
use plaid.Storage.Contract.{Contract, entry_size}
use plaid.Functions.Storage.Common.{
  Outcome, respond, existing_size, would_be_used, count, uncount, insert_counted, insert_limited,
  give_up, insert_common, delete_limited, delete_some, delete_common,
}

-- The sum in the code does not wrap where the true value fits.
would_be_used_exact :
    (c k v e : ℕ) → c + k + v < u64_mod → e ≤ c + k + v → would_be_used c k v e ≡ c + k + v - e
unfolding would_be_used
would_be_used_exact c k v e h le = omega arith

existing_size-entry :
    (key : String) (o : Option Bytes)
    → entry_size key o < u64_mod
    → existing_size (len key) o ≡ entry_size key o
unfolding existing_size entry_size add_u64
existing_size-entry key none h = refl
existing_size-entry key (some d) h = omega arith

-- Taking the bytes of an entry off the counter does not wrap where they are counted in it.
uncount_exact :
    (key : String) (o : Option Bytes) (c : Counter)
    → entry_size key o ≤ c.value
    → c.value < u64_mod
    → (uncount (ok o) (len key) c).value ≡ c.value - entry_size key o
unfolding uncount entry_size
uncount_exact key none c h k = omega arith
uncount_exact key (some d) c h k = omega arith

module _ (p : StorageProvider) (g : GuestMemory) where
  -- Responding changes neither the storage nor the counter.
  pub respond_keeps :
      (r : Result StorageError (Option Bytes)) (s : p.State) (c : Counter) (view : g.View)
      (buf buf_len : ℕ)
      → ((respond p g r s c view buf buf_len).database ≡ s)
        × ((respond p g r s c view buf buf_len).counter ≡ c)
  unfolding respond
  respond_keeps (ok none) s c view buf buf_len = (refl, refl)
  respond_keeps (ok (some d)) s c view buf buf_len = (refl, refl)
  respond_keeps (err e) s c view buf buf_len = (refl, refl)

  module _ {at : p.State → String → String → Option Bytes} {size : p.State → String → ℕ}
      (contract : Contract p at size) (ns key : String) (view : g.View) (buf buf_len : ℕ) where
    -- Where the provider inserts, the computed size is the size that the namespace then has.
    used_exact :
        (value : Bytes) (s : p.State) (o : Option Bytes)
        → (p.insert ns key value s).0 ≡ ok o
        → size s ns + len key + length value < u64_mod
        → would_be_used (size s ns) (len key) (length value) (existing_size (len key) o)
          ≡ size (p.insert ns key value s).1 ns
    used_exact value s o e fits =
        let (_, sum) = contract.insert_ok ns key value s o e in
        rw (existing_size-entry key o (omega arith)) (
          omega (
            arith,
            would_be_used_exact (size s ns) (len key) (length value) (entry_size key o) fits,
          ))

    -- The counter shows the bytes of the namespace, and the namespace is within `n` if it was.
    abbrev pub Accounts : ℕ → p.State → Outcome p g → Type 0
    Accounts n s out =
        (out.counter.value ≡ size out.database ns) × (size s ns ≤ n → size out.database ns ≤ n)

    insert_counted-Accounts :
        (value : Bytes) (n : ℕ) (c : Counter) (s : p.State)
        → c.value ≡ size s ns
        → size s ns + len key + length value < u64_mod
        → let used =
            would_be_used c.value
              (len key)
              (length value)
              (existing_size (len key) (at s ns key)) in
          used ≤ n → Accounts n s (insert_counted p g ns key value view buf buf_len used c s)
    unfolding insert_counted count
    insert_counted-Accounts value n c s synced fits le =
        let out = p.insert ns key value s in
        elim (Result-cases out.0) [
          | inl (o, e) ↦ ground (
            arith,
            respond_keeps out.0,
            contract.insert_ok ns key value s o e,
            used_exact value s o e fits,
          )
          | inr (x, e) ↦
              ground (arith, respond_keeps out.0, contract.insert_err ns key value s x e ns key)
        ]

    -- An insertion under a limit, whatever it returns: a counter that showed the bytes of the
    -- namespace shows them afterwards, and a namespace within the limit stays within it. The bytes
    -- in use and those of the new entry add up to less than 2^64.
    pub insert_common-Accounts :
        (value : Bytes) (n : ℕ) (c : Counter) (s : p.State)
        → c.value ≡ size s ns
        → size s ns + len key + length value < u64_mod
        → Accounts n s (insert_common p g ns key value view buf buf_len (limited n) c s)
    unfolding insert_common insert_limited
    insert_common-Accounts value n c s synced fits =
        let got = p.get ns key s in
        elim (Result-cases got.0) [
          | inl (o, e) ↦ ground (
            arith,
            contract.get_ok ns key s o e,
            contract.get_at ns key ns key s,
            contract.get_size ns key ns s,
            insert_counted-Accounts value n c got.1,
          )
          | inr (x, e) ↦ ground (arith, contract.get_size ns key ns s)
        ]

    insert_common_over_lem :
        (value : Bytes) (n : ℕ) (c : Counter) (s : p.State) (o : Option Bytes)
        → c.value ≡ size s ns
        → c.poisoned ≡ false
        → (p.get ns key s).0 ≡ ok o
        → size s ns + len key + length value < u64_mod
        → n + entry_size key o < size s ns + len key + length value
        → insert_common p g ns key value view buf buf_len (limited n) c s
          ≡ give_up p g (error_code storage_limit_reached) (p.get ns key s).1 c view
    unfolding insert_common insert_limited
    insert_common_over_lem value n c s o synced free e fits over = ground (
      arith,
      contract.get_ok ns key s o e,
      contract.entry-le-size ns key s,
      existing_size-entry key o,
      would_be_used_exact (size s ns) (len key) (length value) (entry_size key o) fits,
    )

    -- An insertion that would take the namespace beyond its limit returns `StorageLimitReached` and
    -- leaves every key, every namespace's size, the counter and the guest's memory as they were. The
    -- lock of the counter is sound and the counter shows the size of the namespace, the back end can
    -- read the old value, and the bytes in use and those of the new entry add up to less than 2^64.
    pub insert_common_over :
        (value : Bytes) (n : ℕ) (c : Counter) (s : p.State) (o : Option Bytes)
        → c.value ≡ size s ns
        → c.poisoned ≡ false
        → (p.get ns key s).0 ≡ ok o
        → size s ns + len key + length value < u64_mod
        → n + entry_size key o < size s ns + len key + length value
        → let out = insert_common p g ns key value view buf buf_len (limited n) c s in
          (out.code ≡ error_code storage_limit_reached)
          × (out.counter ≡ c)
          × (out.view ≡ view)
          × ((m j : String) → (at out.database m j ≡ at s m j) × (size out.database m ≡ size s m))
    insert_common_over value n c s o synced free e fits over =
        rw (insert_common_over_lem value n c s o synced free e fits over)
          (refl, refl, refl, λ m j. (contract.get_at ns key m j s, contract.get_size ns key m s))

    -- An insertion that fits, with a provider that does not fail, stores the value, changes no other
    -- key, sets the counter to the new size, and answers with the value that the key held before: its
    -- length, and the value itself where the guest gave a buffer; 0 where there was none.
    pub insert_common_fits :
        (value : Bytes) (n : ℕ) (c : Counter) (s : p.State) (o old : Option Bytes)
        → c.value ≡ size s ns
        → c.poisoned ≡ false
        → (p.get ns key s).0 ≡ ok o
        → (p.insert ns key value (p.get ns key s).1).0 ≡ ok old
        → size s ns + len key + length value < u64_mod
        → size s ns + len key + length value ≤ n + entry_size key o
        → let s' = (p.insert ns key value (p.get ns key s).1).1 in
          (insert_common p g ns key value view buf buf_len (limited n) c s
            ≡ respond p g (ok (at s ns key)) s' (record c { value = size s' ns }) view buf buf_len)
          × ((m j : String)
              → at s' m j ≡ (if str_eq ns m && str_eq key j then some value else at s m j))
    unfolding insert_common insert_limited insert_counted count
    insert_common_fits value n c s o old synced free e i fits room =
        let got = p.get ns key s in
        let put = p.insert ns key value got.1 in
        (
          ground (
            arith,
            contract.get_ok ns key s o e,
            contract.get_at ns key ns key s,
            contract.get_size ns key ns s,
            contract.insert_ok ns key value got.1 old i,
            contract.entry-le-size ns key s,
            existing_size-entry key o,
            used_exact value got.1 old i,
            would_be_used_exact (size s ns) (len key) (length value) (entry_size key o) fits,
          ),
          λ m j.
              rw (contract.insert_ok_at ns key value got.1 old i m j)
                (rw (contract.get_at ns key m j s)),
        )

    -- A deletion, whatever it returns, keeps a counter that shows the bytes of the namespace, and
    -- the namespace does not grow.
    pub delete_common-Accounts :
        (n : ℕ) (c : Counter) (s : p.State)
        → c.value ≡ size s ns
        → size s ns < u64_mod
        → let out = delete_common p g ns key view buf buf_len (limited n) c s in
          (out.counter.value ≡ size out.database ns) × (size out.database ns ≤ size s ns)
    unfolding delete_common delete_some delete_limited
    delete_common-Accounts n c s synced fits =
        let got = p.get ns key s in
        let out = p.delete ns key s in
        elim (Result-cases out.0) [
          | inl (o, e) ↦ ground (
            arith,
            respond_keeps got.0,
            respond_keeps out.0,
            contract.get_size ns key ns s,
            contract.delete_ok ns key s o e,
            uncount_exact key o c,
          )
          | inr (x, e) ↦ ground (
            arith,
            respond_keeps got.0,
            respond_keeps out.0,
            contract.get_size ns key ns s,
            contract.delete_err ns key s x e ns key,
          )
        ]
