-- ===== src/Loader/Accessory.antt =====
-- The data that a module is given when it is loaded: `module_accessory_data` of
-- runtime/plaid/src/loader/mod.rs and `read_and_configure_secrets` of
-- runtime/plaid/src/loader/utils.rs. `str::as_bytes` is a parameter.
use plaid.Base.{◌≡◌, refl, ap, ◌∙◌, String, Option, none, some, [], ◌∷◌, arith, eq_iff}
use plaid.Base.Dict.{HashMap, lookup, IsMap, extend, or_else, lookup-extend}
use plaid.Guest.{Bytes}

-- The fields of `Configuration` that are read here.
pub record AccessoryConfig : Type 0 where
  pub universal_accessory_data : Option (HashMap String)
  pub accessory_data_log_type_overrides : HashMap (HashMap String)
  pub accessory_data_file_overrides : HashMap (HashMap String)

module _ (as_bytes : String → Bytes) where
  unfoldable pub table_bytes : HashMap String → HashMap Bytes
  table_bytes [] = []
  table_bytes ((key, value) ∷ rest) = (key, as_bytes value) ∷ table_bytes rest

  unfoldable pub read_and_configure_secrets : HashMap (HashMap String) → HashMap (HashMap Bytes)
  unfolding table_bytes
  read_and_configure_secrets [] = []
  read_and_configure_secrets ((key, value) ∷ rest) =
      (key, table_bytes value) ∷ read_and_configure_secrets rest

  -- One round of overrides: entries of the same name are overwritten.
  unfoldable pub overridden :
      Option (HashMap Bytes) → Option (HashMap String) → Option (HashMap Bytes)
  unfolding table_bytes extend
  overridden accessory_data none = accessory_data
  overridden none (some overrides) = some (extend [] (table_bytes overrides))
  overridden (some accessory_data) (some overrides) =
      some (extend accessory_data (table_bytes overrides))

  unfoldable pub universal : Option (HashMap String) → Option (HashMap Bytes)
  unfolding table_bytes
  universal none = none
  universal (some uad) = some (table_bytes uad)

  unfoldable pub module_accessory_data : AccessoryConfig → String → String → Option (HashMap Bytes)
  unfolding overridden universal lookup
  module_accessory_data config filename logtype =
      overridden
        (overridden (universal config.universal_accessory_data)
          (lookup logtype config.accessory_data_log_type_overrides))
        (lookup filename config.accessory_data_file_overrides)

  -- What a module finds under a name in its data, and what a table of the configuration says of it.
  abbrev pub value_of : String → Option (HashMap Bytes) → Option Bytes
  value_of key none = none
  value_of key (some m) = lookup key m

  abbrev as_value : Option String → Option Bytes
  as_value none = none
  as_value (some s) = some (as_bytes s)

  abbrev pub entry_of : String → Option (HashMap String) → Option Bytes
  entry_of key none = none
  entry_of key (some m) = as_value (lookup key m)

  -- No table names an entry twice.
  abbrev pub IsTable : Option (HashMap String) → Type 0
  IsTable none = Unit
  IsTable (some m) = IsMap m

  lookup-table_bytes :
      (key : String) (m : HashMap String) → lookup key (table_bytes m) ≡ as_value (lookup key m)
  unfolding lookup table_bytes
  lookup-table_bytes key [] = refl
  lookup-table_bytes key ((head, value) ∷ rest) =
      ground (arith, eq_iff head key, lookup-table_bytes key rest)

  -- A module finds under a name the secret that the table of its log type gives.
  pub read_and_configure_secrets_lem :
      (key type_ : String) (secrets : HashMap (HashMap String))
      → value_of key (lookup type_ (read_and_configure_secrets secrets))
        ≡ entry_of key (lookup type_ secrets)
  unfolding lookup read_and_configure_secrets
  read_and_configure_secrets_lem key type_ [] = refl
  read_and_configure_secrets_lem key type_ ((head, table) ∷ rest) = ground (
    arith,
    eq_iff head type_,
    lookup-table_bytes key table,
    read_and_configure_secrets_lem key type_ rest,
  )

  table_bytes-IsMap : (m : HashMap String) → IsMap m → IsMap (table_bytes m)
  unfolding table_bytes
  table_bytes-IsMap [] h = tt
  table_bytes-IsMap ((head, value) ∷ rest) h =
      (lookup-table_bytes head rest ∙ ap as_value h.0, table_bytes-IsMap rest h.1)

  overridden-value_of :
      (key : String) (accessory_data : Option (HashMap Bytes)) (overrides : Option (HashMap String))
      → IsTable overrides
      → value_of key (overridden accessory_data overrides)
        ≡ or_else (entry_of key overrides) (value_of key accessory_data)
  unfolding overridden lookup
  overridden-value_of key accessory_data none h = refl
  overridden-value_of key none (some overrides) h =
      lookup-extend key [] (table_bytes overrides) (table_bytes-IsMap overrides h)
      ∙ ap (λ o. or_else o none) (lookup-table_bytes key overrides)
  overridden-value_of key (some m) (some overrides) h =
      lookup-extend key m (table_bytes overrides) (table_bytes-IsMap overrides h)
      ∙ ap (λ o. or_else o (lookup key m)) (lookup-table_bytes key overrides)

  universal-value_of :
      (key : String) (uad : Option (HashMap String))
      → value_of key (universal uad) ≡ entry_of key uad
  unfolding universal
  universal-value_of key none = refl
  universal-value_of key (some m) = lookup-table_bytes key m

  -- Under each name a module finds the value that the table of its file gives, or else the one of its
  -- log type, or else the one for all modules, if there is any. No table names an entry twice.
  pub module_accessory_data_lem :
      (config : AccessoryConfig) (filename logtype key : String)
      → IsTable (lookup filename config.accessory_data_file_overrides)
      → IsTable (lookup logtype config.accessory_data_log_type_overrides)
      → value_of key (module_accessory_data config filename logtype)
        ≡ or_else (entry_of key (lookup filename config.accessory_data_file_overrides)) (
            or_else
              (entry_of key (lookup logtype config.accessory_data_log_type_overrides))
              (entry_of key config.universal_accessory_data))
  unfolding module_accessory_data
  module_accessory_data_lem config filename logtype key by_file by_type =
      let own = lookup filename config.accessory_data_file_overrides in
      let typed = lookup logtype config.accessory_data_log_type_overrides in
      let everyone = universal config.universal_accessory_data in
      overridden-value_of key (overridden everyone typed) own by_file
      ∙ ap (or_else (entry_of key own)) (
          overridden-value_of key everyone typed by_type
          ∙ ap (or_else (entry_of key typed))
              (universal-value_of key config.universal_accessory_data))
