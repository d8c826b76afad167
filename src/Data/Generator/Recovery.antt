-- ===== src/Data/Generator/Recovery.antt =====
-- What a generator recovers from the storage when it starts: runtime/plaid/src/data/mod.rs.
use plaid.Base.{String, Option, none, some, List, [], ◌∷◌, ltb, if◌then◌else◌}
use plaid.Base.Result.{ok, err}
use plaid.Storage.{StorageProvider}
use plaid.Data.Generator.{
  Support, DataGenerator, last_seen_key, already_seen_uuids_key, get_dg_storage_namespace,
}

module _ (s : Support) (p : StorageProvider) where
  unfoldable pub read_string_from_storage :
      String → String → Option p.State → Option String × Option p.State
  read_string_from_storage ns key none = (none, none)
  read_string_from_storage ns key (some db) =
      let (r, db') = p.get ns key db in
      elim r [
        | err _ ↦ (none, some db')
        | ok none ↦ (none, some db')
        | ok (some res) ↦ (s.from_utf8 res, some db')
      ]

  unfoldable pub read_vec_from_storage :
      String → String → Option p.State → Option (List String) × Option p.State
  read_vec_from_storage ns key none = (none, none)
  read_vec_from_storage ns key (some db) =
      let (r, db') = p.get ns key db in
      elim r [
        | err _ ↦ (none, some db')
        | ok none ↦ (none, some db')
        | ok (some res) ↦ (s.from_slice res, some db')
      ]

module _ (s : Support) (dg : DataGenerator s) where
  unfoldable pub mark_all : List String → dg.Self → dg.Self
  mark_all [] d = d
  mark_all (already_seen ∷ rest) d = mark_all rest (dg.mark_already_seen already_seen d)

  -- `last_seen`, not further back than the generator may catch up.
  unfoldable pub capped_last_seen : s.OffsetDateTime → String → dg.Self → s.OffsetDateTime
  capped_last_seen now last_seen d =
      let parsed : s.OffsetDateTime = elim (s.parse_nanos last_seen) [ some v ↦ v | none ↦ now ] in
      if ltb (dg.get_max_catchup_time d) (s.whole_seconds now parsed)
      then s.saturating_sub now (dg.get_max_catchup_time d)
      else parsed

  module _ (p : StorageProvider) where
    -- State of which only one part is there is ignored.
    unfoldable pub update_dg_from_storage :
        s.OffsetDateTime → dg.Self → Option p.State → dg.Self × Option p.State
    update_dg_from_storage now d storage =
        let ns = get_dg_storage_namespace (dg.get_name d) in
        let (last_seen, storage') = read_string_from_storage s p ns last_seen_key storage in
        let (seen_logs_uuids, storage'') =
          read_vec_from_storage s p ns already_seen_uuids_key storage' in
        elim last_seen [
          | none ↦ (d, storage'')
          | some text ↦ elim seen_logs_uuids [
            | none ↦ (d, storage'')
            | some ids ↦
                (mark_all ids (dg.set_last_seen (capped_last_seen now text d) d), storage'')
          ]
        ]
