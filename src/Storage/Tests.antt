-- ===== src/Storage/Tests.antt =====
-- The theorems on the set-up of the storage and on migrations, at the in-memory provider.
use plaid.Storage.InMemory.{delete_entry, entries_with, InMemoryDb, in_memory, empty, insert_entry}
use plaid.Storage.Migration.{
  move_entry, move_all, Move, IsMoved, IsAway, apply_migration, apply_migration-IsMoved,
}
use plaid.Storage.Shared.{
  init_shared_db, init_all, ends_with, new_storage, IsSetUp, new_storage-IsSetUp,
}
use plaid.Base.{if◌then◌else◌, ◌≡◌, refl, String, str_eq, true, false, none, some, [], ◌∷◌, All}
use plaid.Base.Dict.{lookup}
use plaid.Storage.{SharedDb, SharedDbConfig, limited, Entries}
use plaid.Storage.InMemory.Laws.{value_at, in_memory_contract}

abbrev config : SharedDbConfig
config = record { size_limit = limited 10; r = []; rw = "rule.wasm" ∷ [] }

unfoldable db : InMemoryDb
unfolding empty insert_entry
db = (insert_entry "team" "key" (1 ∷ 2 ∷ []) empty).1

abbrev team : SharedDb
team = record { config = config; used_storage = record { value = 5; poisoned = false } }

new_storage-IsSetUp_example :
    ((n : String) (d : SharedDb)
      → lookup n (("team", team) ∷ []) ≡ some d
      → IsSetUp in_memory in_memory_contract db n d)
    × ((name : String) → ends_with name ".wasm" ≡ true → lookup name (("team", team) ∷ []) ≡ none)
unfolding new_storage db init_all init_shared_db ends_with entries_with
new_storage-IsSetUp_example =
    new_storage-IsSetUp in_memory in_memory_contract (("team", config) ∷ []) db
      (record { database = db; shared_dbs = some (("team", team) ∷ []) }) (("team", team) ∷ []) refl
      refl

-- "a" moves to "b", and "b" to "c".
abbrev along : Move
along key value = if str_eq key "a" then ("b", value) else ("c", value)

unfoldable chain : InMemoryDb
unfolding empty insert_entry
chain = (insert_entry "ns" "b" (2 ∷ []) (insert_entry "ns" "a" (1 ∷ []) empty).1).1

-- The moves are injective, and the value of "a" is lost: the new "b" is deleted as an old key.
lost_test :
    (value_at (apply_migration in_memory "ns" along chain).1 "ns" "b" ≡ none)
    × (value_at (apply_migration in_memory "ns" along chain).1 "ns" "c" ≡ some (2 ∷ []))
unfolding apply_migration chain value_at move_all entries_with move_entry delete_entry
lost_test = (refl, refl)

abbrev upward : Move
upward key value = ("new", 9 ∷ value)

abbrev team_entries : Entries
team_entries = ("key", some (1 ∷ 2 ∷ [])) ∷ []

apply_migration-IsMoved_example :
    All
      (IsMoved in_memory "team" upward in_memory_contract
        (apply_migration in_memory "team" upward db).1)
      team_entries
    × ((j : String)
        → All (IsAway in_memory "team" upward j) team_entries
        → value_at (apply_migration in_memory "team" upward db).1 "team" j ≡ value_at db "team" j)
unfolding apply_migration db entries_with move_all move_entry delete_entry
apply_migration-IsMoved_example =
    apply_migration-IsMoved in_memory "team" upward in_memory_contract db team_entries refl (tt, tt)
      refl
