-- ===== src/Storage/InMemory.antt =====
-- runtime/plaid/src/storage/in_memory/mod.rs: the provider over a map of maps. A `HashMap` holds
-- no key twice, which `distinct` records.
pub mod Sizes
pub mod Laws
use plaid.Base.{
  String, str_eq, starts_with, Bool, true, false, Option, none, some, List, [], ◌∷◌, All,
  if◌then◌else◌, inl, inr, Bool-cases,
}
use plaid.Base.Result.{Result, ok}
use plaid.Base.Dict.{HashMap, IsMap, lookup, insert, erase, insert-IsMap, erase-IsMap}
use plaid.Guest.{Bytes}
use plaid.Storage.{StorageError, StorageProvider, Entries}

abbrev pub Namespaces : Type 0
Namespaces = HashMap (HashMap Bytes)

abbrev pub AllMaps : Namespaces → Type 0
AllMaps db = All (λ (e : String × HashMap Bytes). IsMap e.1) db

pub record InMemoryDb : Type 0 where
  pub db : Namespaces
  pub distinct : AllMaps db

unfoldable pub empty : InMemoryDb
empty = record { db = []; distinct = tt }

-- `.unwrap_or_default()` on a namespace
unfoldable pub or_default : Option (HashMap Bytes) → HashMap Bytes
or_default none = []
or_default (some ns) = ns

unfoldable pub namespace_of : String → Namespaces → HashMap Bytes
unfolding or_default lookup
namespace_of namespace db = or_default (lookup namespace db)

pub namespace_of-IsMap : (ns : String) (db : Namespaces) → AllMaps db → IsMap (namespace_of ns db)
unfolding namespace_of
namespace_of-IsMap ns [] h = tt
namespace_of-IsMap ns ((j, m) ∷ db) h = elim (Bool-cases (str_eq j ns)) [
  | inl e ↦ rw e h.0
  | inr e ↦ rw e (namespace_of-IsMap ns db h.1)
]

pub insert-AllMaps :
    (ns : String) (m : HashMap Bytes) (db : Namespaces)
    → IsMap m
    → AllMaps db
    → AllMaps (insert ns m db)
unfolding insert
insert-AllMaps ns m [] h d = (h, tt)
insert-AllMaps ns m ((j, w) ∷ db) h d = elim (Bool-cases (str_eq j ns)) [
  | inl e ↦ rw e (h, d.1)
  | inr e ↦ rw e (d.0, insert-AllMaps ns m db h d.1)
]

-- Replaces the map of a namespace.
unfoldable pub put : String → (m : HashMap Bytes) → IsMap m → InMemoryDb → InMemoryDb
unfolding insert
put ns m h s = record { db = insert ns m s.db; distinct = insert-AllMaps ns m s.db h s.distinct }

-- `db.entry(namespace).or_default()`, then `ns.insert(key, value)`, which returns the old value.
unfoldable pub insert_entry :
    String → String → Bytes → InMemoryDb → Result StorageError (Option Bytes) × InMemoryDb
unfolding put namespace_of insert lookup
insert_entry namespace key value s =
    let ns = namespace_of namespace s.db in
    let h = namespace_of-IsMap namespace s.db s.distinct in
    (ok (lookup key ns), put namespace (insert key value ns) (insert-IsMap key value ns h) s)

-- `db.get(namespace).and_then(|ns| ns.get(key).cloned())`
unfoldable pub get_entry :
    String → String → InMemoryDb → Result StorageError (Option Bytes) × InMemoryDb
unfolding namespace_of lookup
get_entry namespace key s = (ok (lookup key (namespace_of namespace s.db)), s)

-- A namespace that is not there stays so.
unfoldable pub delete_entry :
    String → String → InMemoryDb → Result StorageError (Option Bytes) × InMemoryDb
unfolding put namespace_of lookup erase
delete_entry namespace key s = elim (lookup namespace s.db) [
  | none ↦ (ok none, s)
  | some _ ↦ (
    ok (lookup key (namespace_of namespace s.db)),
    put namespace (erase key (namespace_of namespace s.db))
        (erase-IsMap key (namespace_of namespace s.db)
          (namespace_of-IsMap namespace s.db s.distinct))
        s,
  )
]

-- `prefix.map_or(true, |p| k.starts_with(p))`
unfoldable pub has_prefix : Option String → String → Bool
has_prefix none k = true
has_prefix (some p) k = starts_with k p

unfoldable pub keys_with : Option String → HashMap Bytes → List String
unfolding has_prefix
keys_with prefix [] = []
keys_with prefix ((k, v) ∷ m) =
    let rest = keys_with prefix m in if has_prefix prefix k then k ∷ rest else rest

unfoldable pub entries_with : Option String → HashMap Bytes → Entries
unfolding has_prefix
entries_with prefix [] = []
entries_with prefix ((k, v) ∷ m) =
    let rest = entries_with prefix m in if has_prefix prefix k then (k, some v) ∷ rest else rest

abbrev pub in_memory : StorageProvider
in_memory = record {
  State = InMemoryDb;
  is_persistent = false;
  insert = insert_entry;
  get = get_entry;
  delete = delete_entry;
  list_keys = λ namespace prefix s. (ok (keys_with prefix (namespace_of namespace s.db)), s);
  fetch_all = λ namespace prefix s. (ok (entries_with prefix (namespace_of namespace s.db)), s);
}
