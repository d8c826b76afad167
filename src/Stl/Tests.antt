-- ===== src/Stl/Tests.antt =====
-- A rule that is run on a small message.
use plaid.Guest.{safely_get_string, safely_get_memory, write_or_code, get_memory, Bytes}
use plaid.Stl.Entrypoint.{
  returned_code, filled, fill, fetch_buffer, skip, first, from_le_bytes, entrypoint_with_source,
  split_rule_data,
}
use plaid.Base.Int.{as_i32, ℤ, pos}
use plaid.Functions.Message.{give, fetch_data_and_source, rule_data}
use plaid.Base.{
  ℕ, ◌≡◌, refl, String, Option, none, some, [], ◌∷◌, length, ◌==◌, if◌then◌else◌, arith, str_eq,
  ◌&&◌, false,
}
use plaid.Base.Result.{Result, ok, err}
use plaid.Message.{LogSource, logback, limited}
use plaid.Env.{Env}
use plaid.Storage.InMemory.{InMemoryDb, in_memory, empty, insert_entry, get_entry, delete_entry}
use plaid.Storage.InMemory.Sizes.{map_size}
use plaid.Storage.Contract.{entry_size}
use plaid.Storage.InMemory.Laws.{value_at, bytes_of, in_memory_contract}
use plaid.Functions.Storage.{guest_memory}
use plaid.Stl.Storage.{GuestText, insert, get, delete}
use plaid.Stl.Stored.{IsText}
use plaid.Stl.Inserted.{insert-get}
use plaid.Stl.Deleted.{delete-Removes}
use plaid.Storage.{Storage}
use plaid.Samples.{encoding, Cells, cells, view, platform, env_of, one_entry, team, other}
use plaid.Stl.{GuestCode}
use plaid.Stl.Delivery.{IsGuest, run_with, entrypoint_with_source_lem}

abbrev or_empty : Option Bytes → Bytes
or_empty none = []
or_empty (some b) = b

-- All buffers are at the address 100.
abbrev code : GuestCode platform
code = record {
  dangling = 1;
  alloc = λ v n. (100, v);
  peek = λ v p n. if n == 0 then [] else or_empty (cells.read v p n);
}

alloc_write :
    (v : Cells) (b : Bytes)
    → (after : Cells) × (cells.write_slice v 100 b ≡ some after)
      × (code.peek after 100 (length b) ≡ b)
alloc_write v [] = (record v { bytes = (100, []) ∷ v.bytes }, refl, refl)
alloc_write v (x ∷ b) = (record v { bytes = (100, x ∷ b) ∷ v.bytes }, refl, ground arith)

code-IsGuest : IsGuest platform code
code-IsGuest = record {
  alloc_slice = λ v n. refl;
  alloc_write = alloc_write;
  peek_none = λ v p. refl;
}

abbrev env : Env platform
env = env_of 0 empty (limited 0)

-- A rule that fails on logs from a logback, with the text at 2.
abbrev main : String → LogSource → Env platform → Result (ℕ × ℕ) (Unit {0}) × Env platform
main text source e = (err (2, 3), e)

round_trip : split_rule_data (rule_data (5 ∷ 6 ∷ []) (7 ∷ [])) ≡ some (5 ∷ 6 ∷ [], 7 ∷ [])
unfolding split_rule_data from_le_bytes rule_data first skip
round_trip = refl

context_kept :
    (c : ℤ × Env platform) × (entrypoint_with_source platform code encoding main env ≡ some c)
    × (c.0 ≡ pos 1)
    × (c.1.execution_error_context ≡ some "key")
unfolding entrypoint_with_source fetch_buffer fill fetch_data_and_source get_memory give
    write_or_code as_i32 rule_data filled split_rule_data from_le_bytes returned_code
    safely_get_string
context_kept = (
  (pos 1, record env { memory = some after; execution_error_context = some "key" }),
  refl,
  refl,
  refl,
)
  where
    after : Cells
    after = record view { bytes = (100, rule_data (1 ∷ []) (7 ∷ 7 ∷ [])) ∷ view.bytes }

entrypoint_with_source_lem_example :
    (after : Cells) × (entrypoint_with_source platform code encoding main env
      ≡ some (
          run_with platform
            (λ text. main text (logback "other"))
            (record env { memory = some after })
            (some "log")))
entrypoint_with_source_lem_example =
    entrypoint_with_source_lem platform code code-IsGuest encoding env view (7 ∷ 7 ∷ []) main refl
      refl (omega arith)

-- Copies of texts lie at the address 200.
abbrev text_code : GuestText platform
text_code = record { place = λ v s. (200, record v { texts = (200, s) ∷ v.texts }) }

text_code-IsText : IsText platform code text_code
text_code-IsText = record { placed = λ v s. ground arith; kept = λ v s n. ground arith }

abbrev storage_of : InMemoryDb → Storage in_memory
storage_of db = record { database = db; shared_dbs = some (("team", team) ∷ ("other", other) ∷ []) }

-- The environment of "rule" with this database and this counter.
abbrev holding : InMemoryDb → ℕ → Cells → Env platform
holding db used v = record env {
  module_ = record env.module_ { storage_current = record { value = used; poisoned = false } };
  storage = some (storage_of db);
  memory = some v;
}

insert-get_example :
    let s' = (insert_entry "rule" "key" (7 ∷ 8 ∷ 9 ∷ []) one_entry).1 in
    (after later : Cells) × (insert platform code text_code "key" 5 3 (holding one_entry 6 view)
      ≡ (ok (4 ∷ 5 ∷ 6 ∷ []), holding s' 6 after))
    × (get platform code text_code "key" (holding s' 6 after)
        ≡ (ok (7 ∷ 8 ∷ 9 ∷ []), holding s' 6 later))
    × ((m j : String)
        → value_at s' m j ≡ (
            if str_eq "rule" m && str_eq "key" j
            then some (7 ∷ 8 ∷ 9 ∷ [])
            else value_at one_entry m j))
unfolding one_entry insert_entry empty bytes_of value_at guest_memory safely_get_memory get_entry
    map_size entry_size
insert-get_example =
    insert-get platform code text_code code-IsGuest text_code-IsText in_memory_contract
      (λ ns k s. refl) (holding one_entry 6 view) (storage_of one_entry) view "key" (7 ∷ 8 ∷ 9 ∷ [])
      5 3 10 (some (4 ∷ 5 ∷ 6 ∷ [])) refl refl refl (omega arith) (omega arith) refl (omega arith)
      (omega arith)

delete-Removes_example :
    let s' = (delete_entry "rule" "key" one_entry).1 in
    (after : Cells) × (delete platform code text_code "key" (holding one_entry 6 view)
      ≡ (ok (4 ∷ 5 ∷ 6 ∷ []), holding s' 0 after))
    × ((m j : String)
        → value_at s' m j
          ≡ (if str_eq "rule" m && str_eq "key" j then none else value_at one_entry m j))
unfolding one_entry insert_entry delete_entry empty bytes_of value_at get_entry map_size
delete-Removes_example =
    delete-Removes platform code text_code code-IsGuest text_code-IsText in_memory_contract
      (λ ns k s. refl) (holding one_entry 6 view) (storage_of one_entry) view "key" 10
      (some (4 ∷ 5 ∷ 6 ∷ [])) refl refl refl (omega arith) (omega arith)

-- An entry without bytes is still there after the guest deleted it.
abbrev empty_value : InMemoryDb
empty_value = (insert_entry "rule" "key" [] empty).1

empty_stays :
    (after : Cells) × (delete platform code text_code "key" (holding empty_value 3 view)
      ≡ (ok [], holding empty_value 3 after))
unfolding insert_entry delete_entry empty bytes_of value_at get_entry map_size
empty_stays =
    let (after, same, _) =
      delete-Removes platform code text_code code-IsGuest text_code-IsText in_memory_contract
        (λ ns k s. refl) (holding empty_value 3 view) (storage_of empty_value) view "key" 10
        (some []) refl refl refl (omega arith) (omega arith) in
    (after, same)
