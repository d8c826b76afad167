-- ===== src/Loader/Configured.antt =====
-- The module that `PlaidModule::compile` makes, as the configuration asks for it.
use plaid.Base.{
  ℕ, ◌≡◌, inl, inr, refl, subst, ◌∙◌, String, Bool, Option, none, some, List, arith, Option-cases,
  Bool-cases, min, not, ltb, if◌then◌else◌, sym, ◌&&◌, false, true,
}
use plaid.Guest.{Bytes, u32_max}
use plaid.Base.Dict.{lookup, or_else}
use plaid.Functions.Storage.{contains}
use plaid.Storage.{Counter}
use plaid.Loader.Limits.{Amount, get_limit_with_overrides, get_module_page_count}
use plaid.Loader.Accessory.{module_accessory_data, read_and_configure_secrets}
use plaid.Env.{PlaidModule}
use plaid.Loader.Signing.{Ssh}
use plaid.Loader.Load.{Configuration, imports_known, new_persistent_response, type_of, compile}

-- The value of the file, or else that of the log type, or else the default.
abbrev pub limit_for : {A : Type 0} → Amount A → String → String → A
limit_for limit filename log_type =
    elim (or_else (lookup filename limit.module_overrides) (lookup log_type limit.log_type)) [
      | some amount ↦ amount
      | none ↦ limit.default
    ]

get_limit_with_overrides_lem :
    {A : Type 0} (limit : Amount A) (filename log_type : String)
    → get_limit_with_overrides limit filename log_type ≡ limit_for limit filename log_type
unfolding get_limit_with_overrides
get_limit_with_overrides_lem limit filename log_type =
    elim (Option-cases (lookup filename limit.module_overrides)) [
      | inl absent ↦ ground (arith, absent)
      | inr (amount, is) ↦ ground (arith, is)
    ]

clamped : (n : ℕ) → (if ltb u32_max n then u32_max else n) ≡ min n u32_max
clamped n = ground arith

get_module_page_count_lem :
    (limit : Amount ℕ) (filename log_type : String)
    → get_module_page_count limit filename log_type
      ≡ min (limit_for limit filename log_type) u32_max
unfolding get_module_page_count
get_module_page_count_lem limit filename log_type =
    rw (get_module_page_count, get_limit_with_overrides_lem limit filename log_type)
      (clamped (limit_for limit filename log_type))

module _ (as_bytes : String → Bytes) (config : Configuration) where
  -- The module that the configuration asks for: for each limit the value of its file, or else that
  -- of its log type, or else the default, pages being counted by 32 bits; test mode, unless the file
  -- is exempt; the secrets of its log type, its accessory data and its response, which is empty yet.
  -- What it stores is counted afterwards.
  abbrev pub configured : String → Counter → PlaidModule
  configured filename storage_current =
      let log_type = type_of config filename in
      record {
        name = filename;
        logtype = log_type;
        computation_limit = limit_for config.computation_amount filename log_type;
        page_limit = min (limit_for config.memory_page_count filename log_type) u32_max;
        storage_current = storage_current;
        storage_limit = limit_for config.storage_size filename log_type;
        accessory_data = module_accessory_data as_bytes config.accessory filename log_type;
        secrets = lookup log_type (read_and_configure_secrets as_bytes config.secrets);
        persistent_response =
            new_persistent_response (lookup filename config.persistent_response_size);
        test_mode = config.test_mode && not (contains config.test_mode_exemptions filename);
      }

module _ (ssh : Ssh) (compile_module : Bytes → Option (List String)) (known : String → Bool)
    (as_bytes : String → Bytes) (config : Configuration) where
  pub compile_ok :
      (filename : String) (module_bytes : Bytes) (m : PlaidModule)
      → compile ssh compile_module known as_bytes config filename
          (type_of config filename)
          module_bytes
        ≡ some m
      → (imports : List String) × (compile_module module_bytes ≡ some imports)
        × (imports_known known imports ≡ true)
        × (m ≡ configured as_bytes config filename m.storage_current)
  unfolding compile
  compile_ok filename module_bytes m e = elim (Option-cases (compile_module module_bytes)) [
    | inl broken ↦ absurd (ground (arith, broken))
    | inr (imports, is) ↦ elim (Bool-cases (imports_known known imports)) [
      | inr other ↦ absurd (ground (arith, is, other))
      | inl good ↦
          let log_type = type_of config filename in
          let made : PlaidModule =
            record (configured as_bytes config filename (record { value = 0; poisoned = false })) {
              computation_limit =
                  get_limit_with_overrides config.computation_amount filename log_type;
              page_limit = get_module_page_count config.memory_page_count filename log_type;
              storage_limit = get_limit_with_overrides config.storage_size filename log_type;
            } in
          let same : some made ≡ some m = sym (rw (compile, is, good) refl) ∙ e in
          let asked : made ≡ configured as_bytes config filename made.storage_current = rw (
            get_limit_with_overrides_lem config.computation_amount filename log_type,
            get_module_page_count_lem config.memory_page_count filename log_type,
            get_limit_with_overrides_lem config.storage_size filename log_type,
          ) in
          (
            imports,
            is,
            good,
            subst (λ (x : PlaidModule). x ≡ configured as_bytes config filename x.storage_current)
                (let is_m : made ≡ m = cc in is_m) asked,
          )
    ]
  ]
