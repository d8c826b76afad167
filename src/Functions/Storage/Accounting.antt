-- ===== src/Functions/Storage/Accounting.antt =====
-- The counters of all limited namespaces that a module can write.
pub mod PerCall
use plaid.Base.{
  ℕ, ◌+◌, ◌^◌, ◌≤◌, ◌<◌, ◌≡◌, refl, ap, sym, subst, String, len, length, str_eq, false, true, Bool,
  Option, none, some, List, arith, ◌≢◌, eq_iff, inl, inr, Bool-cases, Option-cases,
}
use plaid.Base.Words.{u64_mod}
use plaid.Base.Dict.{HashMap, lookup, insert, lookup-insert}
use plaid.Base.Result.{Result, ok, err, or_fail, or_fail_ok, map_err}
use plaid.Guest.{
  Bytes, GuestMemory, api_not_configured, operation_not_allowed, shared_db_error, safely_get_string,
  safely_get_memory,
}
use plaid.Storage.{StorageProvider, Storage, SharedDb, LimitValue, unlimited, limited, Counter}
use plaid.Storage.Contract.{Contract}
use plaid.Env.{Platform, Env}
use plaid.Functions.Storage.{
  finish, can_write, can_read, require, memory_view, guest_string, guest_memory, storage_insert,
  storage_insert_shared, storage_get, storage_get_shared, storage_list_keys,
  storage_list_keys_shared, storage_delete, storage_delete_shared,
}
use plaid.Functions.Storage.Common.{Outcome, insert_common, delete_common}
use plaid.Functions.Storage.Quota.{insert_common-Accounts, delete_common-Accounts}
use plaid.Functions.Storage.Elsewhere.{
  Agree, Agree-refl, insert_common-Agree, delete_common-Agree, get_common-Agree,
  list_keys_common-Agree,
}
use plaid.Functions.Storage.Calls.{StorageCall, perform, finish_bind}

-- The length of a buffer in guest memory, a `u32`.
abbrev pub IsLength : ℕ → Type 0
IsLength n = n < 2 ^ 32

-- What the documentation of wasmer says of the reads: they return as much as was asked for.
pub record ReadsAsked (g : GuestMemory) : Type 0 where
  pub string_len :
      (view : g.View) (buf n : ℕ) (s : String) → g.read_utf8_string view buf n ≡ some s → len s ≤ n
  pub bytes_len :
      (view : g.View) (buf n : ℕ) (b : Bytes) → g.read view buf n ≡ some b → length b ≤ n

-- The counter of a limited namespace shows its bytes, which are within the limit. A limit leaves
-- room for one more entry below 2^64.
abbrev pub LimitHolds : LimitValue → Counter → ℕ → Type 0
LimitHolds unlimited c bytes = Unit
LimitHolds (limited n) c bytes = (c.value ≡ bytes) × (bytes ≤ n) × (n + 2 ^ 33 ≤ u64_mod)

module _ (p : StorageProvider) (g : GuestMemory) {at : p.State → String → String → Option Bytes}
    {size : p.State → String → ℕ} (contract : Contract p at size) (ns key : String) (view : g.View)
    (buf buf_len : ℕ) where
  pub insert_common-LimitHolds :
      (value : Bytes) (limit : LimitValue) (c : Counter) (s : p.State)
      → IsLength (len key)
      → IsLength (length value)
      → LimitHolds limit c (size s ns)
      → let out = insert_common p g ns key value view buf buf_len limit c s in
        LimitHolds limit out.counter (size out.database ns)
  insert_common-LimitHolds value unlimited c s hk hv h = tt
  insert_common-LimitHolds value (limited n) c s hk hv h =
      let (synced, kept) =
        insert_common-Accounts p g contract ns key view buf buf_len value n c s h.0 (omega arith) in
      (synced, kept h.1, h.2)

  pub delete_common-LimitHolds :
      (limit : LimitValue) (c : Counter) (s : p.State)
      → LimitHolds limit c (size s ns)
      → let out = delete_common p g ns key view buf buf_len limit c s in
        LimitHolds limit out.counter (size out.database ns)
  delete_common-LimitHolds unlimited c s h = tt
  delete_common-LimitHolds (limited n) c s h =
      omega
        (arith, delete_common-Accounts p g contract ns key view buf buf_len n c s h.0 (omega arith))

-- The entry of the shared namespace `ns`.
abbrev pub shared_db : Option (HashMap SharedDb) → String → Option SharedDb
shared_db none ns = none
shared_db (some dbs) ns = lookup ns dbs

module _ (w : Platform) {at : w.provider.State → String → String → Option Bytes}
    {size : w.provider.State → String → ℕ} (contract : Contract w.provider at size) where
  -- For the module `name` and the storage `st`: the module's own counter and that of every shared
  -- namespace hold, and no shared namespace has the module's name.
  pub record Accounted (name : String) (limit : LimitValue) (c : Counter) (st : Storage w.provider)
      : Type 0 where
    pub own : LimitHolds limit c (size st.database name)
    pub shared :
        (ns : String) (db : SharedDb)
        → shared_db st.shared_dbs ns ≡ some db
        → LimitHolds db.config.size_limit db.used_storage (size st.database ns)
    pub apart : shared_db st.shared_dbs name ≡ none

  abbrev pub IsAccounted : Env w → Type 0
  IsAccounted env = elim env.storage [
    | none ↦ Unit
    | some st ↦ Accounted env.module_.name env.module_.storage_limit env.module_.storage_current st
  ]

  -- A storage whose counters and access lists are as before, and whose namespaces are as large.
  pub read-Accounted :
      (name : String) (limit : LimitValue) (c : Counter) (st : Storage w.provider)
      (s : w.provider.State)
      → ((n : String) → Agree w.provider w.guest contract n st.database s)
      → Accounted name limit c st
      → Accounted name limit c (record st { database = s })
  read-Accounted name limit c st s agree h = record {
    own = rw (agree name).sizes h.own;
    shared = λ ns db e. rw (agree ns).sizes (h.shared ns db e);
    apart = h.apart;
  }

  -- A change of the module's own namespace.
  pub own-Accounted :
      (name : String) (limit : LimitValue) (c c' : Counter) (st : Storage w.provider)
      (s : w.provider.State)
      → ((n : String) → str_eq name n ≡ false → Agree w.provider w.guest contract n st.database s)
      → LimitHolds limit c' (size s name)
      → Accounted name limit c st
      → Accounted name limit c' (record st { database = s })
  own-Accounted name limit c c' st s agree holds h = record {
    own = holds;
    shared = λ ns db e. elim (Bool-cases (str_eq name ns)) [
      | inl same ↦ cc ((eq_iff name ns).0 same, e, h.apart)
      | inr other ↦ rw (agree ns other).sizes (h.shared ns db e)
    ];
    apart = h.apart;
  }

  names_differ :
      (ns name : String) (db : SharedDb) (dbs : HashMap SharedDb)
      → lookup ns dbs ≡ some db
      → lookup name dbs ≡ none
      → str_eq ns name ≡ false
  names_differ ns name db dbs f g = elim (Bool-cases (str_eq ns name)) [
    | inl same ↦ cc ((eq_iff ns name).0 same)
    | inr other ↦ other
  ]

  -- A change of a shared namespace.
  pub shared-Accounted :
      (name : String) (limit : LimitValue) (c : Counter) (st : Storage w.provider)
      (dbs : HashMap SharedDb) (ns : String) (db : SharedDb) (c' : Counter) (s : w.provider.State)
      → st.shared_dbs ≡ some dbs
      → lookup ns dbs ≡ some db
      → ((n : String) → str_eq ns n ≡ false → Agree w.provider w.guest contract n st.database s)
      → LimitHolds db.config.size_limit c' (size s ns)
      → Accounted name limit c st
      → Accounted name limit c (record st {
        database = s;
        shared_dbs = some (insert ns (record db { used_storage = c' }) dbs);
      })
  shared-Accounted name limit c st dbs ns db c' s e f agree holds h =
      let db' : SharedDb = record db { used_storage = c' } in
      let free : lookup name dbs ≡ none = rw e at h.apart in
      let ne : str_eq ns name ≡ false = names_differ ns name db dbs f free in
      record {
        own = rw (agree name ne).sizes h.own;
        shared = λ n d k. elim (Bool-cases (str_eq ns n)) [
          | inl same ↦
              let updated : db' ≡ d = ground (arith, lookup-insert ns n db' dbs) in
              subst (λ (x : SharedDb). LimitHolds x.config.size_limit x.used_storage (size s n))
                updated
                (subst (λ (m : String). LimitHolds db.config.size_limit c' (size s m))
                  ((eq_iff ns n).0 same) holds)
          | inr other ↦
              rw (agree n other).sizes
                (h.shared n d (rw e (ground (arith, lookup-insert ns n db' dbs))))
        ];
        apart = ground (arith, lookup-insert ns name db' dbs);
      }
