-- ===== src/Storage/InMemory/Laws.antt =====
-- The in-memory provider keeps the promises of the trait.
use plaid.Base.{
  ℕ, ◌+◌, ◌≡◌, refl, String, len, str_eq, false, Option, none, some, [], ◌∷◌, subst, length, arith,
  if◌then◌else◌, ◌&&◌, eq_iff,
}
use plaid.Base.Result.{ok}
use plaid.Base.Dict.{HashMap, lookup, insert, erase, lookup-insert, lookup-erase}
use plaid.Guest.{Bytes}
use plaid.Storage.Contract.{Contract, entry_size, asked, is_some, fetched}
use plaid.Functions.Storage.{contains}
use plaid.Storage.InMemory.{
  InMemoryDb, namespace_of, insert_entry, get_entry, delete_entry, in_memory, namespace_of-IsMap,
  keys_with, entries_with, has_prefix,
}
use plaid.Storage.InMemory.Sizes.{
  map_size, map_size-insert, map_size-erase, entry_size-le-map_size, total_size-entries_with,
  namespace_of-insert,
}

unfoldable pub value_at : InMemoryDb → String → String → Option Bytes
value_at s n k = lookup k (namespace_of n s.db)

unfoldable pub bytes_of : InMemoryDb → String → ℕ
bytes_of s n = map_size (namespace_of n s.db)

module _ (ns k : String) (s : InMemoryDb) where
  insert_at :
      (v : Bytes) (n j : String)
      → value_at (insert_entry ns k v s).1 n j
        ≡ (if str_eq ns n && str_eq k j then some v else value_at s n j)
  unfolding value_at insert_entry
  insert_at v n j = ground (
    arith,
    eq_iff ns n,
    namespace_of-insert ns n (insert k v (namespace_of ns s.db)) s.db,
    lookup-insert k j v (namespace_of ns s.db),
  )

  insert_size :
      (v : Bytes)
      → bytes_of (insert_entry ns k v s).1 ns + entry_size k (value_at s ns k)
        ≡ bytes_of s ns + len k + length v
  unfolding value_at bytes_of insert_entry
  insert_size v = ground (
    arith,
    eq_iff ns ns,
    namespace_of-insert ns ns (insert k v (namespace_of ns s.db)) s.db,
    map_size-insert k v (namespace_of ns s.db),
  )

  insert_other :
      (v : Bytes) (n : String)
      → str_eq ns n ≡ false
      → bytes_of (insert_entry ns k v s).1 n ≡ bytes_of s n
  unfolding bytes_of insert_entry
  insert_other v n h =
      ground (arith, namespace_of-insert ns n (insert k v (namespace_of ns s.db)) s.db)

  delete_result : (delete_entry ns k s).0 ≡ ok (value_at s ns k)
  unfolding value_at delete_entry
  delete_result = ground arith

  -- A namespace that is not there reads as one without entries.
  delete_namespace :
      (n : String)
      → namespace_of n (delete_entry ns k s).1.db
        ≡ (if str_eq ns n then erase k (namespace_of ns s.db) else namespace_of n s.db)
  unfolding delete_entry erase
  delete_namespace n =
      ground (arith, eq_iff ns n, namespace_of-insert ns n (erase k (namespace_of ns s.db)) s.db)

  delete_at :
      (n j : String)
      → value_at (delete_entry ns k s).1 n j
        ≡ (if str_eq ns n && str_eq k j then none else value_at s n j)
  unfolding value_at
  delete_at n j = ground (
    arith,
    eq_iff ns n,
    delete_namespace n,
    lookup-erase k j (namespace_of ns s.db) (namespace_of-IsMap ns s.db s.distinct),
  )

  delete_size : bytes_of (delete_entry ns k s).1 ns + entry_size k (value_at s ns k) ≡ bytes_of s ns
  unfolding value_at bytes_of
  delete_size =
      ground (arith, eq_iff ns ns, delete_namespace ns, map_size-erase k (namespace_of ns s.db))

  delete_other :
      (n : String) → str_eq ns n ≡ false → bytes_of (delete_entry ns k s).1 n ≡ bytes_of s n
  unfolding bytes_of
  delete_other n h = ground (arith, delete_namespace n)

keys_with-contains :
    (prefix : Option String) (m : HashMap Bytes) (k : String)
    → contains (keys_with prefix m) k ≡ (asked prefix k && is_some (lookup k m))
unfolding keys_with has_prefix contains lookup
keys_with-contains none [] k = refl
keys_with-contains (some p) [] k = ground arith
keys_with-contains none ((j, v) ∷ m) k = ground (arith, eq_iff j k, keys_with-contains none m k)
keys_with-contains (some p) ((j, v) ∷ m) k =
    ground (arith, eq_iff j k, keys_with-contains (some p) m k)

entries_with-lookup :
    (prefix : Option String) (m : HashMap Bytes) (k : String)
    → lookup k (entries_with prefix m) ≡ (if asked prefix k then fetched (lookup k m) else none)
unfolding entries_with has_prefix lookup
entries_with-lookup none [] k = refl
entries_with-lookup (some p) [] k = ground arith
entries_with-lookup none ((j, v) ∷ m) k = ground (arith, eq_iff j k, entries_with-lookup none m k)
entries_with-lookup (some p) ((j, v) ∷ m) k =
    ground (arith, eq_iff j k, entries_with-lookup (some p) m k)

-- The in-memory provider keeps every promise of the trait: get, insert and delete return what the
-- key held and change that key alone; list_keys and fetch_all give exactly the keys with the prefix
-- that hold a value, with it, and change nothing; the byte sizes move by the sizes of the entries
-- written and removed, and the sum that `get_namespace_byte_size` computes is the size of the
-- namespace.
pub in_memory_contract : Contract in_memory value_at bytes_of
unfolding insert_entry get_entry value_at bytes_of
in_memory_contract = record {
  entry-le-size = λ ns k s. entry_size-le-map_size k (namespace_of ns s.db);
  get_ok = λ ns k s o h. cc;
  get_at = λ ns k n j s. refl;
  get_size = λ ns k n s. refl;
  insert_ok = λ ns k v s o h. ground (arith, insert_size ns k s v);
  insert_ok_at = λ ns k v s o h. insert_at ns k s v;
  insert_err = λ ns k v s e h. cc;
  insert_other = λ ns k v s. insert_other ns k s v;
  delete_ok = λ ns k s o h. ground (arith, delete_result ns k s, delete_size ns k s);
  delete_ok_at = λ ns k s o h. delete_at ns k s;
  delete_err = λ ns k s e h. cc (delete_result ns k s);
  delete_other = delete_other;
  fetch_all_ok = λ ns s l h. ground (arith, total_size-entries_with (namespace_of ns s.db));
  fetch_all_at = λ ns q s l h k.
      subst (λ e. lookup k e ≡ (if asked q k then fetched (value_at s ns k) else none))
        (let same : entries_with q (namespace_of ns s.db) ≡ l = cc in same)
        (entries_with-lookup q (namespace_of ns s.db) k);
  list_keys_ok = λ ns q s keys h k.
      subst (λ e. contains e k ≡ (asked q k && is_some (value_at s ns k)))
        (let same : keys_with q (namespace_of ns s.db) ≡ keys = cc in same)
        (keys_with-contains q (namespace_of ns s.db) k);
  fetch_all_keeps = λ ns q s n j. (refl, refl);
  list_keys_keeps = λ ns q s n j. (refl, refl);
}
