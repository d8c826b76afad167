-- ===== src/Functions/Storage/Tests.antt =====
-- The theorems on storage calls, at a small guest.
use plaid.Base.{
  ◌≡◌, refl, str_eq, false, none, some, [], ◌∷◌, ◌&&◌, if◌then◌else◌, String, arith, Bool-cases,
  inl, inr, subst, eq_iff,
}
use plaid.Base.Result.{ok}
use plaid.Base.Dict.{lookup}
use plaid.Guest.{error_code, storage_limit_reached}
use plaid.Message.{unlimited}
use plaid.Functions.Storage.{storage_insert, storage_insert_shared}
use plaid.Storage.InMemory.Sizes.{map_size}
use plaid.Storage.Contract.{entry_size}
use plaid.Base.Int.{pos, as_i32}
use plaid.Storage.{SharedDb, Counter, limited}
use plaid.Storage.InMemory.{in_memory, insert_entry, get_entry}
use plaid.Storage.InMemory.Laws.{value_at, bytes_of, in_memory_contract}
use plaid.Env.{Env}
use plaid.Samples.{team, other, cells, cells_reads, platform, env_of, view, one_entry}
use plaid.Functions.Storage.Common.{insert_common, respond}
use plaid.Functions.Storage.Calls.{StorageCall, perform}
use plaid.Functions.Storage.Quota.{insert_common_over, insert_common_fits}
use plaid.Functions.Storage.Accounting.{IsAccounted, shared_db, LimitHolds}
use plaid.Functions.Storage.Accounting.PerCall.{perform-IsAccounted}

abbrev env : Env platform
env = env_of 6 one_entry unlimited

-- "rule" stores three bytes under "key".
abbrev own_insert : StorageCall
own_insert = StorageCall.insert 2 3 5 3 9 0

-- "rule" stores three bytes under "key" of "team".
abbrev team_insert : StorageCall
team_insert = StorageCall.insert_shared 3 4 2 3 5 3 9 0

own_insert_test : (perform platform env own_insert).0 ≡ pos 3
unfolding perform storage_insert insert_common get_entry one_entry as_i32
own_insert_test = refl

team_insert_test : (perform platform env team_insert).0 ≡ pos 0
unfolding perform storage_insert_shared insert_common get_entry one_entry
team_insert_test = refl

shared_holds :
    (ns : String) (db : SharedDb)
    → shared_db (some (("team", team) ∷ ("other", other) ∷ [])) ns ≡ some db
    → LimitHolds db.config.size_limit db.used_storage (bytes_of one_entry ns)
unfolding lookup bytes_of one_entry map_size
shared_holds ns db e = elim (Bool-cases (str_eq "team" ns)) [
  | inl same ↦
      let at_team : LimitHolds team.config.size_limit team.used_storage
          (bytes_of one_entry "team") =
        (refl, omega arith, omega arith) in
      let is_team : team ≡ db = ground arith in
      subst
        (λ (d : SharedDb). LimitHolds d.config.size_limit d.used_storage (bytes_of one_entry ns))
        is_team
        (subst
          (λ (n : String).
            LimitHolds team.config.size_limit team.used_storage (bytes_of one_entry n))
          ((eq_iff "team" ns).0 same) at_team)
  | inr differs ↦
      let is_other : other ≡ db = ground arith in
      subst
        (λ (d : SharedDb). LimitHolds d.config.size_limit d.used_storage (bytes_of one_entry ns))
        is_other tt
]

env-IsAccounted : IsAccounted platform in_memory_contract env
unfolding bytes_of one_entry map_size lookup
env-IsAccounted = record {
  own = (refl, omega arith, omega arith);
  shared = shared_holds;
  apart = refl;
}

perform-IsAccounted_example :
    IsAccounted platform in_memory_contract (perform platform env own_insert).1
perform-IsAccounted_example =
    perform-IsAccounted platform in_memory_contract cells_reads env own_insert
      (omega arith, omega arith) env-IsAccounted

abbrev counter : Counter
counter = record { value = 6; poisoned = false }

-- A second entry of eight bytes does not fit.
insert_common_over_example :
    let out =
      insert_common in_memory cells "rule" "k"
        (7 ∷ 8 ∷ 9 ∷ 7 ∷ 8 ∷ 9 ∷ 9 ∷ [])
        view
        9
        0
        (limited 10)
        counter
        one_entry in
    (out.code ≡ error_code storage_limit_reached)
    × (out.counter ≡ counter)
    × (out.view ≡ view)
    × ((m j : String)
        → (value_at out.database m j ≡ value_at one_entry m j)
          × (bytes_of out.database m ≡ bytes_of one_entry m))
unfolding bytes_of one_entry map_size get_entry entry_size
insert_common_over_example =
    insert_common_over in_memory cells in_memory_contract "rule" "k" view 9 0
      (7 ∷ 8 ∷ 9 ∷ 7 ∷ 8 ∷ 9 ∷ 9 ∷ []) 10 counter one_entry none refl refl refl (omega arith)
      (omega arith)

insert_common_fits_example :
    let s = (insert_entry "rule" "key" (7 ∷ 8 ∷ []) one_entry).1 in
    (insert_common in_memory cells "rule" "key" (7 ∷ 8 ∷ []) view 9 0 (limited 10) counter one_entry
      ≡ respond in_memory cells
          (ok (value_at one_entry "rule" "key"))
          s
          (record counter { value = bytes_of s "rule" })
          view
          9
          0)
    × ((m j : String)
        → value_at s m j ≡ (
            if str_eq "rule" m && str_eq "key" j
            then some (7 ∷ 8 ∷ [])
            else value_at one_entry m j))
unfolding bytes_of one_entry map_size get_entry insert_entry entry_size
insert_common_fits_example =
    insert_common_fits in_memory cells in_memory_contract "rule" "key" view 9 0 (7 ∷ 8 ∷ []) 10
      counter one_entry (some (4 ∷ 5 ∷ 6 ∷ [])) (some (4 ∷ 5 ∷ 6 ∷ [])) refl refl refl refl
      (omega arith) (omega arith)
