-- ===== src/Data/Generator/Restart.antt =====
-- A restart: what `get_and_process_dg_logs` stores is what `update_dg_from_storage` brings back.
use plaid.Base.{
  ℕ, ◌≤◌, ◌<◌, ◌≡◌, refl, ap, ◌∙◌, String, eq_iff, false, ◌||◌, ltb, Option, some, List, [], ◌∷◌,
  length, arith,
}
use plaid.Base.Result.{ok}
use plaid.Guest.{Bytes}
use plaid.Functions.Storage.{contains}
use plaid.Storage.{StorageProvider}
use plaid.Storage.Contract.{Contract}
use plaid.Data.Generator.{
  Support, DataGenerator, last_seen_key, already_seen_uuids_key, get_dg_storage_namespace,
  store_state,
}
use plaid.Data.Generator.Recovery.{
  read_string_from_storage, read_vec_from_storage, mark_all, capped_last_seen,
  update_dg_from_storage,
}
use plaid.Data.Generator.Interface.{IsGenerator}

-- The provider serves every read and write.
pub record NeverFails (p : StorageProvider) : Type 0 where
  pub inserts :
      (ns k : String) (v : Bytes) (db : p.State)
      → (old : Option Bytes) × ((p.insert ns k v db).0 ≡ ok old)
  pub gets : (ns k : String) (db : p.State) → (o : Option Bytes) × ((p.get ns k db).0 ≡ ok o)

-- What is printed of a time and of a list of ids is read back.
pub record ReadsBack (s : Support) (t : s.OffsetDateTime) (ids : List String) : Type 0 where
  pub text : String
  pub utf8 : s.from_utf8 (s.nanos_text t) ≡ some text
  pub parsed : s.parse_nanos text ≡ some t
  pub bytes : Bytes
  pub json : s.to_vec ids ≡ some bytes
  pub back : s.from_slice bytes ≡ some ids

module _ (s : Support) (dg : DataGenerator s) (sent : dg.Self → List Bytes) (room : dg.Self → ℕ)
    (g : IsGenerator s dg sent room) where
  mark_all-last :
      (ids : List String) (d : dg.Self)
      → dg.get_last_seen (mark_all s dg ids d) ≡ dg.get_last_seen d
  unfolding mark_all
  mark_all-last [] d = refl
  mark_all-last (id ∷ ids) d = mark_all-last ids (dg.mark_already_seen id d) ∙ g.mark_last id d

  mark_all-seen :
      (ids : List String) (d : dg.Self) (j : String)
      → length ids ≤ room d
      → dg.was_already_seen j (mark_all s dg ids d) ≡ (contains ids j || dg.was_already_seen j d)
  unfolding mark_all contains
  mark_all-seen [] d j h = refl
  mark_all-seen (id ∷ ids) d j h =
      let left = g.mark_room id d in
      let roomy : 0 < room d = omega arith in
      ground (
        arith,
        mark_all-seen ids (dg.mark_already_seen id d) j (omega (arith, left)),
        g.mark_seen id d j roomy,
      )

  module _ (p : StorageProvider) (at : p.State → String → String → Option Bytes)
      (size : p.State → String → ℕ) (contract : Contract p at size) (works : NeverFails p) where
    read_string-at :
        (ns key : String) (db : p.State) (v : Bytes)
        → at db ns key ≡ some v
        → read_string_from_storage s p ns key (some db) ≡ (s.from_utf8 v, some (p.get ns key db).1)
    unfolding read_string_from_storage
    read_string-at ns key db v h =
        let (o, e) = works.gets ns key db in
        let got : (p.get ns key db).0 ≡ ok (some v) =
          e ∙ ap ok (contract.get_ok ns key db o e ∙ h) in
        rw (read_string_from_storage, got)

    read_vec-at :
        (ns key : String) (db : p.State) (v : Bytes)
        → at db ns key ≡ some v
        → read_vec_from_storage s p ns key (some db) ≡ (s.from_slice v, some (p.get ns key db).1)
    unfolding read_vec_from_storage
    read_vec-at ns key db v h =
        let (o, e) = works.gets ns key db in
        let got : (p.get ns key db).0 ≡ ok (some v) =
          e ∙ ap ok (contract.get_ok ns key db o e ∙ h) in
        rw (read_vec_from_storage, got)

    -- Both parts of the state are stored.
    store_state-at :
        (d : dg.Self) (db : p.State) (bytes : Bytes)
        → s.to_vec (dg.list_already_seen d) ≡ some bytes
        → let ns = get_dg_storage_namespace (dg.get_name d) in
          let db' = store_state s dg p d db in
          (at db' ns last_seen_key ≡ some (s.nanos_text (dg.get_last_seen d)))
          × (at db' ns already_seen_uuids_key ≡ some bytes)
    unfolding store_state
    store_state-at d db bytes e =
        let ns = get_dg_storage_namespace (dg.get_name d) in
        let v = s.nanos_text (dg.get_last_seen d) in
        let db1 = (p.insert ns last_seen_key v db).1 in
        let (o, first) = works.inserts ns last_seen_key v db in
        let (o', second) = works.inserts ns already_seen_uuids_key bytes db1 in
        let one = contract.insert_ok_at ns last_seen_key v db o first ns last_seen_key in
        let two = contract.insert_ok_at ns already_seen_uuids_key bytes db1 o' second ns in
        rw (store_state, e)
          (
            ground (arith, eq_iff ns ns, one, two last_seen_key),
            ground (arith, eq_iff ns ns, two already_seen_uuids_key),
          )

    -- After a restart: the time of the last log is the stored one, and exactly the ids that were
    -- seen before the restart, or by the new generator, are seen. The provider serves its calls,
    -- what is printed is read back, the name of the generator is the same, it has room for the ids
    -- and it was not down for longer than it may catch up.
    pub update_dg_from_storage-store_state :
        (now : s.OffsetDateTime) (old d : dg.Self) (db : p.State)
        → ReadsBack s (dg.get_last_seen old) (dg.list_already_seen old)
        → dg.get_name d ≡ dg.get_name old
        → length (dg.list_already_seen old) ≤ room d
        → ltb (dg.get_max_catchup_time d) (s.whole_seconds now (dg.get_last_seen old)) ≡ false
        → let d' = (update_dg_from_storage s dg p now d (some (store_state s dg p old db))).0 in
          (dg.get_last_seen d' ≡ dg.get_last_seen old)
          × ((j : String)
              → dg.was_already_seen j d' ≡ (dg.was_already_seen j old || dg.was_already_seen j d))
    unfolding update_dg_from_storage capped_last_seen
    update_dg_from_storage-store_state now old d db reads name roomy soon =
        let ns = get_dg_storage_namespace (dg.get_name old) in
        let ids = dg.list_already_seen old in
        let last = dg.get_last_seen old in
        let db' = store_state s dg p old db in
        let (first, second) = store_state-at old db reads.bytes reads.json in
        let db'' = (p.get ns last_seen_key db').1 in
        let one = read_string-at ns last_seen_key db' (s.nanos_text last) first in
        let two =
          read_vec-at ns already_seen_uuids_key db'' reads.bytes
            (contract.get_at ns last_seen_key ns already_seen_uuids_key db' ∙ second) in
        let capped : capped_last_seen s dg now reads.text d ≡ last =
          rw (capped_last_seen, reads.parsed, soon) in
        let eq : (update_dg_from_storage s dg p now d (some db')).0
            ≡ mark_all s dg ids (dg.set_last_seen last d) =
          rw (update_dg_from_storage, name, one, reads.utf8, name, one, two, reads.back, capped) in
        rw eq (
          mark_all-last ids (dg.set_last_seen last d) ∙ g.set_last last d,
          λ j.
              mark_all-seen ids (dg.set_last_seen last d) j (omega (arith, g.set_room last d))
              ∙ ground (arith, g.list_seen old j, g.set_seen last d j),
        )
