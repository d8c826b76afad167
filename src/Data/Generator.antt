-- ===== src/Data/Generator.antt =====
-- What the generators that poll a service share: the trait `DataGenerator` and its loop,
-- runtime/plaid/src/data/mod.rs. The services, the time and serde_json libraries are parameters.
pub mod Interface
pub mod Fresh
pub mod Exact
pub mod Sent
pub mod Ends
pub mod Gap
pub mod Recovery
pub mod Restart
pub mod Services
mod Samples
mod Tests
use plaid.Base.{
  ℕ, zero, suc, ◌+◌, ◌%◌, ◌^◌, min, String, Bool, true, false, Option, none, some, List, [], ◌∷◌,
  ◌==◌, if◌then◌else◌,
}
use Prim.Native.String.{◌++◌ as str_append}
use plaid.Base.Words.{add_u64, sub_u64}
use plaid.Base.Result.{Result, ok, err}
use plaid.Guest.{Bytes}
use plaid.Storage.{StorageProvider}

-- The time library, serde_json at lists of texts, and the conversions of texts.
pub record Support : Type 1 where
  pub OffsetDateTime : Type 0
  -- `<`
  pub before : OffsetDateTime → OffsetDateTime → Bool
  -- `saturating_sub(Duration::seconds(n))`
  pub saturating_sub : OffsetDateTime → ℕ → OffsetDateTime
  -- `unix_timestamp() as u64`, and `from_unix_timestamp(n as i64)`
  pub unix_timestamp : OffsetDateTime → ℕ
  pub from_unix_timestamp : ℕ → Option OffsetDateTime
  -- `(a - b).whole_seconds() as u64`
  pub whole_seconds : OffsetDateTime → OffsetDateTime → ℕ
  -- `unix_timestamp_nanos().to_string().as_bytes().to_vec()`
  pub nanos_text : OffsetDateTime → Bytes
  -- `String::from_utf8`
  pub from_utf8 : Bytes → Option String
  -- `parse::<i128>()` and `from_unix_timestamp_nanos`
  pub parse_nanos : String → Option OffsetDateTime
  pub to_vec : List String → Option Bytes
  -- `serde_json::to_vec(&Vec::<String>::new()).unwrap()`
  pub empty_vec : Bytes
  pub from_slice : Bytes → Option (List String)

pub record DataGeneratorLog (s : Support) : Type 0 where
  pub id : String
  pub timestamp : s.OffsetDateTime
  pub payload : Bytes

-- The trait. A fetch has a number, since the service changes; the result of a send holds the state
-- of the channel after it.
pub record DataGenerator (s : Support) : Type 1 where
  pub Self : Type 0
  pub fetch_logs :
      ℕ → Self → s.OffsetDateTime → s.OffsetDateTime → Option (List (DataGeneratorLog s))
  pub get_name : Self → String
  pub get_canon_time : Self → ℕ
  pub get_last_seen : Self → s.OffsetDateTime
  pub set_last_seen : s.OffsetDateTime → Self → Self
  pub was_already_seen : String → Self → Bool
  pub mark_already_seen : String → Self → Self
  pub list_already_seen : Self → List String
  pub send_for_processing : Bytes → Self → Option Self
  pub get_max_since_until_interval : Self → ℕ
  pub get_max_catchup_time : Self → ℕ

abbrev pub last_seen_key : String
last_seen_key = "last_seen"

abbrev pub already_seen_uuids_key : String
already_seen_uuids_key = "already_seen_uuids"

-- `format!("{DATA_GENERATOR_STORAGE_PREFIX}_{}", dg_name)`
unfoldable pub get_dg_storage_namespace : String → String
get_dg_storage_namespace dg_name = str_append "__DATA_GENERATOR" (str_append "_" dg_name)

-- How a turn of the loop ends: with another one, or with `Ok(())` or `Err(())`.
pub data Turn : Type 0 where
  again stops fails : Turn

module _ (s : Support) (dg : DataGenerator s) where
  -- The `since` and `until` of a fetch.
  unfoldable pub window : ℕ → dg.Self → Option (s.OffsetDateTime × s.OffsetDateTime)
  window now d =
      let since = s.saturating_sub (dg.get_last_seen d) 1 in
      let latest = sub_u64 now (dg.get_canon_time d) in
      let capped =
        min latest (add_u64 (s.unix_timestamp since) (dg.get_max_since_until_interval d)) in
      elim (s.from_unix_timestamp capped) [ none ↦ none | some until ↦ some (since, until) ]

  -- `if log.timestamp > dg.get_last_seen() { dg.set_last_seen(log.timestamp); }`
  unfoldable pub update_last_seen : s.OffsetDateTime → dg.Self → dg.Self
  update_last_seen timestamp d =
      if s.before (dg.get_last_seen d) timestamp then dg.set_last_seen timestamp d else d

  -- The loop over the logs of a fetch, with the count of those sent, a `u32`.
  unfoldable pub process_logs :
      List (DataGeneratorLog s) → ℕ → dg.Self → Result (Unit {0}) ℕ × dg.Self
  process_logs [] sent_for_processing d = (ok sent_for_processing, d)
  process_logs (log ∷ logs) sent_for_processing d = elim (dg.was_already_seen log.id d) [
    | true ↦ process_logs logs sent_for_processing d
    | false ↦ elim (dg.send_for_processing log.payload d) [
      | none ↦ (err tt, d)
      | some sent ↦
          process_logs logs ((sent_for_processing + 1) % 2 ^ 32)
            (update_last_seen log.timestamp (dg.mark_already_seen log.id sent))
    ]
  ]

  module _ (p : StorageProvider) where
    -- A failure to store is only logged.
    unfoldable pub store_state : dg.Self → p.State → p.State
    store_state d db =
        let ns = get_dg_storage_namespace (dg.get_name d) in
        let db' = (p.insert ns last_seen_key (s.nanos_text (dg.get_last_seen d)) db).1 in
        let already_seen : Bytes = elim (s.to_vec (dg.list_already_seen d)) [
          | some bytes ↦ bytes
          | none ↦ s.empty_vec
        ] in
        (p.insert ns already_seen_uuids_key already_seen db').1

    unfoldable pub store_if_any : dg.Self → Option p.State → Option p.State
    store_if_any d none = none
    store_if_any d (some db) = some (store_state d db)

    -- What a turn does with the logs that it fetched.
    unfoldable pub after_logs :
        Result (Unit {0}) ℕ × dg.Self → Option p.State → Turn × dg.Self × Option p.State
    after_logs (err _, d) storage = (fails, d, storage)
    after_logs (ok sent_for_processing, d) storage =
        if sent_for_processing == 0 then (stops, d, storage) else (again, d, store_if_any d storage)

    -- A turn of the loop, with the number of the fetch and the time in seconds.
    unfoldable pub turn : ℕ → ℕ → dg.Self → Option p.State → Turn × dg.Self × Option p.State
    turn n now d storage = elim (window now d) [
      | none ↦ (fails, d, storage)
      | some (since, until) ↦ elim (s.before until (dg.get_last_seen d)) [
        | true ↦ (stops, d, storage)
        | false ↦ elim (dg.fetch_logs n d since until) [
          | none ↦ (fails, d, storage)
          | some [] ↦ (stops, d, storage)
          | some (log ∷ logs) ↦ after_logs (process_logs (log ∷ logs) 0 d) storage
        ]
      ]
    ]

    -- The loop, for `fuel` turns at most; the n-th fetch is at the time `clock n`.
    unfoldable pub get_and_process_dg_logs :
        ℕ
        → (ℕ → ℕ)
        → ℕ
        → dg.Self
        → Option p.State
        → Option (Result (Unit {0}) (Unit {0}) × dg.Self × Option p.State)
    get_and_process_dg_logs zero clock n d storage = none
    get_and_process_dg_logs (suc fuel) clock n d storage =
        let (t, d', storage') = turn n (clock n) d storage in
        elim t [
          | stops ↦ some (ok tt, d', storage')
          | fails ↦ some (err tt, d', storage')
          | again ↦ get_and_process_dg_logs fuel clock (suc n) d' storage'
        ]
