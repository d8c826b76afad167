-- ===== src/Storage/InMemory/Sizes.antt =====
-- The bytes of a namespace in memory, as each operation changes them.
use plaid.Base.{
  ℕ, ◌+◌, ◌≤◌, ◌≡◌, refl, String, len, str_eq, none, [], ◌∷◌, length, arith, if◌then◌else◌, eq_iff,
}
use plaid.Base.Dict.{HashMap, lookup, insert, erase, lookup-insert}
use plaid.Guest.{Bytes}
use plaid.Storage.{total_size}
use plaid.Storage.Contract.{entry_size}
use plaid.Storage.InMemory.{Namespaces, namespace_of, or_default, entries_with}

unfoldable pub map_size : HashMap Bytes → ℕ
map_size [] = 0
map_size ((k, v) ∷ m) = len k + length v + map_size m

pub map_size-insert :
    (k : String) (v : Bytes) (m : HashMap Bytes)
    → map_size (insert k v m) + entry_size k (lookup k m) ≡ map_size m + len k + length v
unfolding map_size insert lookup entry_size
map_size-insert k v [] = omega arith
map_size-insert k v ((j, w) ∷ m) = ground (arith, eq_iff j k, map_size-insert k v m)

pub map_size-erase :
    (k : String) (m : HashMap Bytes) → map_size (erase k m) + entry_size k (lookup k m) ≡ map_size m
unfolding map_size erase lookup entry_size
map_size-erase k [] = omega arith
map_size-erase k ((j, w) ∷ m) = ground (arith, eq_iff j k, map_size-erase k m)

pub entry_size-le-map_size :
    (k : String) (m : HashMap Bytes) → entry_size k (lookup k m) ≤ map_size m
unfolding map_size lookup entry_size
entry_size-le-map_size k [] = omega arith
entry_size-le-map_size k ((j, w) ∷ m) = ground (arith, eq_iff j k, entry_size-le-map_size k m)

-- What `get_namespace_byte_size` adds up is the size of the map.
pub total_size-entries_with : (m : HashMap Bytes) → total_size (entries_with none m) ≡ map_size m
unfolding total_size entries_with map_size
total_size-entries_with [] = refl
total_size-entries_with ((k, v) ∷ m) = omega (arith, total_size-entries_with m)

pub namespace_of-insert :
    (ns n : String) (m : HashMap Bytes) (db : Namespaces)
    → namespace_of n (insert ns m db) ≡ (if str_eq ns n then m else namespace_of n db)
unfolding namespace_of or_default
namespace_of-insert ns n m db = rw lookup-insert (ground arith)
