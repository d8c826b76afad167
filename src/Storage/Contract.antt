-- ===== src/Storage/Contract.antt =====
-- What the trait of runtime/plaid/src/storage/mod.rs promises of a provider, in its doc comments:
-- the result of each method and what it changes, and nothing of the order of entries.
use plaid.Base.{
  ◌≤◌, ℕ, ◌+◌, ◌≡◌, String, len, Bool, true, false, Option, none, some, List, length, str_eq,
  starts_with, ◌&&◌, if◌then◌else◌,
}
use plaid.Base.Result.{ok, err}
use plaid.Base.Dict.{lookup}
use plaid.Guest.{Bytes}
use plaid.Functions.Storage.{contains}
use plaid.Storage.{StorageProvider, StorageError, Entries, total_size}

-- The bytes that an entry takes: its key and its value.
unfoldable pub entry_size : String → Option Bytes → ℕ
entry_size key none = 0
entry_size key (some v) = len key + length v

-- Whether a key is asked for, and whether something is stored under it.
abbrev pub asked : Option String → String → Bool
asked none key = true
asked (some prefix) key = starts_with key prefix

abbrev pub is_some : Option Bytes → Bool
is_some none = false
is_some (some _) = true

-- What is fetched of a value.
abbrev pub fetched : Option Bytes → Option (Option Bytes)
fetched none = none
fetched (some value) = some (some value)

-- A provider that fails leaves its contents alone; one that succeeds reads or writes the one key.
-- `at` is the value under a key of a namespace, `size` the bytes of the namespace.
pub record Contract (p : StorageProvider) (at : p.State → String → String → Option Bytes)
    (size : p.State → String → ℕ) : Type 0 where
  pub entry-le-size : (ns k : String) (s : p.State) → entry_size k (at s ns k) ≤ size s ns
  pub get_ok :
      (ns k : String) (s : p.State) (o : Option Bytes) → (p.get ns k s).0 ≡ ok o → o ≡ at s ns k
  pub get_at : (ns k n j : String) (s : p.State) → at (p.get ns k s).1 n j ≡ at s n j
  pub get_size : (ns k n : String) (s : p.State) → size (p.get ns k s).1 n ≡ size s n
  pub insert_ok :
      (ns k : String) (v : Bytes) (s : p.State) (o : Option Bytes)
      → (p.insert ns k v s).0 ≡ ok o
      → (o ≡ at s ns k)
        × (size (p.insert ns k v s).1 ns + entry_size k o ≡ size s ns + len k + length v)
  pub insert_ok_at :
      (ns k : String) (v : Bytes) (s : p.State) (o : Option Bytes)
      → (p.insert ns k v s).0 ≡ ok o
      → (n j : String)
      → at (p.insert ns k v s).1 n j ≡ (if str_eq ns n && str_eq k j then some v else at s n j)
  pub insert_err :
      (ns k : String) (v : Bytes) (s : p.State) (e : StorageError)
      → (p.insert ns k v s).0 ≡ err e
      → (n j : String)
      → (at (p.insert ns k v s).1 n j ≡ at s n j) × (size (p.insert ns k v s).1 n ≡ size s n)
  pub insert_other :
      (ns k : String) (v : Bytes) (s : p.State) (n : String)
      → str_eq ns n ≡ false
      → size (p.insert ns k v s).1 n ≡ size s n
  pub delete_ok :
      (ns k : String) (s : p.State) (o : Option Bytes)
      → (p.delete ns k s).0 ≡ ok o
      → (o ≡ at s ns k) × (size (p.delete ns k s).1 ns + entry_size k o ≡ size s ns)
  pub delete_ok_at :
      (ns k : String) (s : p.State) (o : Option Bytes)
      → (p.delete ns k s).0 ≡ ok o
      → (n j : String)
      → at (p.delete ns k s).1 n j ≡ (if str_eq ns n && str_eq k j then none else at s n j)
  pub delete_err :
      (ns k : String) (s : p.State) (e : StorageError)
      → (p.delete ns k s).0 ≡ err e
      → (n j : String)
      → (at (p.delete ns k s).1 n j ≡ at s n j) × (size (p.delete ns k s).1 n ≡ size s n)
  pub delete_other :
      (ns k : String) (s : p.State) (n : String)
      → str_eq ns n ≡ false
      → size (p.delete ns k s).1 n ≡ size s n
  pub fetch_all_ok :
      (ns : String) (s : p.State) (l : Entries)
      → (p.fetch_all ns none s).0 ≡ ok l
      → total_size l ≡ size s ns
  pub fetch_all_at :
      (ns : String) (prefix : Option String) (s : p.State) (l : Entries)
      → (p.fetch_all ns prefix s).0 ≡ ok l
      → (k : String) → lookup k l ≡ (if asked prefix k then fetched (at s ns k) else none)
  pub list_keys_ok :
      (ns : String) (prefix : Option String) (s : p.State) (keys : List String)
      → (p.list_keys ns prefix s).0 ≡ ok keys
      → (k : String) → contains keys k ≡ (asked prefix k && is_some (at s ns k))
  pub fetch_all_keeps :
      (ns : String) (prefix : Option String) (s : p.State) (n j : String)
      → (at (p.fetch_all ns prefix s).1 n j ≡ at s n j)
        × (size (p.fetch_all ns prefix s).1 n ≡ size s n)
  pub list_keys_keeps :
      (ns : String) (prefix : Option String) (s : p.State) (n j : String)
      → (at (p.list_keys ns prefix s).1 n j ≡ at s n j)
        × (size (p.list_keys ns prefix s).1 n ≡ size s n)
