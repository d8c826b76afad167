-- ===== src/Storage/Shared.antt =====
-- How the shared namespaces are set up: `init_shared_db` and `Storage::new` of
-- runtime/plaid/src/storage/mod.rs, for a given provider. The texts of the errors leave out the
-- provider's own.
use plaid.Base.{
  ℕ, ◌≡◌, refl, ◌∙◌, String, str_eq, eq_iff, false, true, Bool, Option, none, some, List, [], ◌∷◌,
  arith, if◌then◌else◌, ◌||◌, inl, inr, ap, sym, subst, Bool-cases, Option-cases,
}
use plaid.Base.Result.{Result, ok, err, Result-cases, ◌>>=◌}
use plaid.Base.Dict.{HashMap, lookup}
use plaid.Storage.{
  StorageProvider, StorageError, Storage, SharedDb, SharedDbConfig, Entries, total_size,
  get_namespace_byte_size,
}
use plaid.Storage as Errors
use plaid.Storage.Contract.{Contract}

-- `str::ends_with`
unfoldable pub ends_with : String → String → Bool
ends_with String.[] suffix = str_eq String.[] suffix
ends_with (String.◌∷◌ c s) suffix = str_eq (String.◌∷◌ c s) suffix || ends_with s suffix

module _ (p : StorageProvider) where
  unfoldable pub init_shared_db :
      String → SharedDbConfig → p.State → Result StorageError (String × SharedDb) × p.State
  unfolding get_namespace_byte_size
  init_shared_db db_name db_config s =
      if ends_with db_name ".wasm"
      then (err (Errors.shared_db "The name of a shared DB must not end with .wasm"), s)
      else (let (used, s') = get_namespace_byte_size p db_name s in
          (
            elim used [
              | err e ↦ err (Errors.shared_db "Could not count used storage in shared DB")
              | ok n ↦ ok (
                db_name,
                record {
                  config = db_config;
                  used_storage = record { value = n; poisoned = false };
                },
              )
            ],
            s',
          ))

  -- `join_all`, then `collect::<Result<HashMap<_, _>, _>>()`: all are set up, and the first error
  -- is the result.
  unfoldable pub init_all :
      HashMap SharedDbConfig → p.State → Result StorageError (HashMap SharedDb) × p.State
  init_all [] s = (ok [], s)
  init_all ((db_name, db_config) ∷ rest) s =
      let (first, s1) = init_shared_db db_name db_config s in
      let (others, s2) = init_all rest s1 in ((do db ← first; dbs ← others; ok (db ∷ dbs)), s2)

  unfoldable pub new_storage :
      Option (HashMap SharedDbConfig) → p.State → Result StorageError (Storage p)
  new_storage none s = ok (record { database = s; shared_dbs = none })
  new_storage (some shared_dbs) s =
      let (dbs, s') = init_all shared_dbs s in
      do all ← dbs; ok (record { database = s'; shared_dbs = some all })

  module _ {at : p.State → String → String → Option (List ℕ)} {size : p.State → String → ℕ}
      (contract : Contract p at size) where
    -- A shared namespace that has been set up.
    abbrev pub IsSetUp : p.State → String → SharedDb → Type 0
    IsSetUp s db_name db =
        (ends_with db_name ".wasm" ≡ false)
        × (db.used_storage.value ≡ size s db_name)
        × (db.used_storage.poisoned ≡ false)

    init_shared_db-size :
        (db_name : String) (db_config : SharedDbConfig) (s : p.State) (n : String)
        → size (init_shared_db db_name db_config s).1 n ≡ size s n
    unfolding init_shared_db
    init_shared_db-size db_name db_config s n =
        ground (arith, (contract.fetch_all_keeps db_name none s n n).1)

    init_shared_db-IsSetUp :
        (db_name : String) (db_config : SharedDbConfig) (s : p.State) (n : String) (db : SharedDb)
        → (init_shared_db db_name db_config s).0 ≡ ok (n, db)
        → (n ≡ db_name) × IsSetUp s n db
    unfolding init_shared_db
    init_shared_db-IsSetUp db_name db_config s n db e =
        let read = (p.fetch_all db_name none s).0 in
        elim (Result-cases read) [
          | inr (x, failed) ↦ absurd (ground arith)
          | inl (l, fetched) ↦ ground (arith, contract.fetch_all_ok db_name s l fetched)
        ]

    init_all-size :
        (configs : HashMap SharedDbConfig) (s : p.State) (n : String)
        → size (init_all configs s).1 n ≡ size s n
    unfolding init_all
    init_all-size [] s n = refl
    init_all-size ((db_name, db_config) ∷ rest) s n =
        init_all-size rest (init_shared_db db_name db_config s).1 n
        ∙ init_shared_db-size db_name db_config s n

    init_all-IsSetUp :
        (configs : HashMap SharedDbConfig) (s : p.State) (dbs : HashMap SharedDb)
        → (init_all configs s).0 ≡ ok dbs
        → (n : String) (db : SharedDb) → lookup n dbs ≡ some db
        → IsSetUp s n db
    unfolding init_all lookup
    init_all-IsSetUp [] s dbs e n db found = absurd (ground arith)
    init_all-IsSetUp ((db_name, db_config) ∷ rest) s dbs e n db found =
        let first = init_shared_db db_name db_config s in
        elim (Result-cases first.0) [
          | inr (x, failed) ↦ absurd (ground arith)
          | inl ((m, d), e1) ↦ elim (Result-cases (init_all rest first.1).0) [
            | inr (x, failed) ↦ absurd (ground arith)
            | inl (ds, e2) ↦
                let is : dbs ≡ (m, d) ∷ ds = ground arith in
                let found' : lookup n ((m, d) ∷ ds) ≡ some db = rw is at found in
                elim (Bool-cases (str_eq m n)) [
                  | inl same ↦
                      let (_, ready) = init_shared_db-IsSetUp db_name db_config s m d e1 in
                      let is_d : d ≡ db = ground arith in
                      subst (IsSetUp s n) is_d
                        (subst (λ (k : String). IsSetUp s k d) ((eq_iff m n).0 same) ready)
                  | inr differs ↦
                      let (name, bytes, free) =
                        init_all-IsSetUp rest first.1 ds e2 n db (ground arith) in
                      (name, bytes ∙ init_shared_db-size db_name db_config s n, free)
                ]
          ]
        ]

    -- The names of rules end with ".wasm"; so no shared namespace has the name of a rule. Its
    -- counter starts with the bytes that it holds.
    pub new_storage-IsSetUp :
        (configs : HashMap SharedDbConfig) (s : p.State) (st : Storage p) (dbs : HashMap SharedDb)
        → new_storage (some configs) s ≡ ok st
        → st.shared_dbs ≡ some dbs
        → ((n : String) (db : SharedDb) → lookup n dbs ≡ some db → IsSetUp st.database n db)
          × ((name : String) → ends_with name ".wasm" ≡ true → lookup name dbs ≡ none)
    unfolding new_storage
    new_storage-IsSetUp configs s st dbs e has =
        let all = init_all configs s in
        elim (Result-cases all.0) [
          | inr (x, failed) ↦ absurd (ground arith)
          | inl (ds, ready) ↦
              let last : all.1 ≡ st.database = ground arith in
              let same : ds ≡ dbs = ground arith in
              let set_up : (n : String) (db : SharedDb)
                  → lookup n dbs ≡ some db
                  → IsSetUp all.1 n db =
                λ n db found.
                  let (name, bytes, free) =
                    init_all-IsSetUp configs s dbs (ready ∙ ap ok same) n db found in
                  (name, bytes ∙ sym (init_all-size configs s n), free) in
              (
                λ n db found. subst (λ t. IsSetUp t n db) last (set_up n db found),
                λ name rule. elim (Option-cases (lookup name dbs)) [
                  | inl absent ↦ absent
                  | inr (db, found) ↦ absurd (cc ((set_up name db found).0, rule))
                ],
              )
        ]
