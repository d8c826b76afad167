-- ===== src/Loader/Load.antt =====
-- Loading: `load`, `PlaidModule::compile` and `populate_storage_sizes` of
-- runtime/plaid/src/loader/mod.rs. wasmer's compiler, the file system and the order in which
-- concurrent calls end are parameters; log lines are left out.
pub mod Tests
use Prim.Native.Char.{code}
use Prim.Native.String
use plaid.Base.{
  ℕ, String, str_eq, starts_with, Bool, true, false, not, ◌&&◌, ◌||◌, Option, none, some, List, [],
  ◌∷◌, ◌++◌, ◌==◌, if◌then◌else◌,
}
use plaid.Base.Result.{Result, ok, err}
use plaid.Base.Dict.{HashMap, lookup, insert}
use plaid.Guest.{Bytes}
use plaid.Storage.{LimitValue, Counter}
use plaid.Env.{PlaidModule, PersistentResponse}
use plaid.Functions.Storage.{contains}
use plaid.Loader.Limits.{Amount, get_limit_with_overrides, get_module_page_count}
use plaid.Loader.Signers.{ModuleSigningConfiguration}
use plaid.Loader.Signing.{SignatureFile, Ssh, check_module_signatures}
use plaid.Loader.Accessory.{AccessoryConfig, module_accessory_data, read_and_configure_secrets}

-- `ModuleSigningConfiguration` has this field too.
pub record SigningPolicy : Type 0 where
  pub signing : ModuleSigningConfiguration
  pub panic_on_invalid_signature : Bool

-- `Configuration`; the directory, the back end of the compiler and the address of the probe are left
-- out.
pub record Configuration : Type 0 where
  pub log_type_overrides : HashMap String
  pub computation_amount : Amount ℕ
  pub memory_page_count : Amount ℕ
  pub storage_size : Amount LimitValue
  pub secrets : HashMap (HashMap String)
  pub accessory : AccessoryConfig
  pub persistent_response_size : HashMap ℕ
  pub test_mode : Bool
  pub test_mode_exemptions : List String
  pub module_signing : Option SigningPolicy
  pub panic_on_module_load_failure : Bool

-- `filename.split('_')`, the first part
first_part : String → String
first_part String.[] = String.[]
first_part (String.◌∷◌ c s) =
    let rest = String.◌∷◌ c (first_part s) in if code c == b'_' then String.[] else rest

unfoldable pub type_of : Configuration → String → String
unfolding first_part lookup
type_of config filename = elim (lookup filename config.log_type_overrides) [
  | some type_ ↦ type_
  | none ↦ first_part filename
]

-- The loop over the imports of a module.
unfoldable pub imports_known : (String → Bool) → List String → Bool
imports_known is_known_api_function [] = true
imports_known is_known_api_function (name ∷ rest) =
    if starts_with name "__wbindgen"
      || starts_with name "__wbg_wbindgen"
      || starts_with name "__wbg___wbindgen"
      || is_known_api_function name
    then imports_known is_known_api_function rest
    else false

-- `PersistentResponse::new`
unfoldable pub new_persistent_response : Option ℕ → Option PersistentResponse
new_persistent_response none = none
new_persistent_response (some max_size) =
    some (record { max_size = max_size; content = none; poisoned = false })

-- What one entry of the directory comes to: a module, nothing, or a panic.
pub data Loading : Type 0 where
  loads : PlaidModule → Loading
  skips panics : Loading

abbrev fails : Bool → Loading
fails panic = if panic then panics else skips

-- An entry of the directory: `none` is a bad entry, and `ok` a file with its name, its bytes, if
-- `read_and_parse_modules` reads it as a module, and its signature files, if their
-- directory can be read.
pub record Entry : Type 0 where
  pub filename : String
  pub module_bytes : Option Bytes
  pub signature_files : Option (List SignatureFile)

module _ (ssh : Ssh)
    -- `Module::new`, with the names of the imports
    (compile_module : Bytes → Option (List String)) (is_known_api_function : String → Bool)
    (as_bytes : String → Bytes) (config : Configuration) where
  -- `PlaidModule::compile`, with the fields that `load` sets after it
  unfoldable pub compile : String → String → Bytes → Option PlaidModule
  unfolding imports_known get_limit_with_overrides get_module_page_count new_persistent_response
      lookup module_accessory_data read_and_configure_secrets contains
  compile filename log_type module_bytes = elim (compile_module module_bytes) [
    | none ↦ none
    | some imports ↦
        if imports_known is_known_api_function imports
        then some (record {
          name = filename;
          logtype = log_type;
          computation_limit = get_limit_with_overrides config.computation_amount filename log_type;
          page_limit = get_module_page_count config.memory_page_count filename log_type;
          storage_current = record { value = 0; poisoned = false };
          storage_limit = get_limit_with_overrides config.storage_size filename log_type;
          accessory_data = module_accessory_data as_bytes config.accessory filename log_type;
          secrets = lookup log_type (read_and_configure_secrets as_bytes config.secrets);
          persistent_response =
              new_persistent_response (lookup filename config.persistent_response_size);
          test_mode = config.test_mode && not (contains config.test_mode_exemptions filename);
        })
        else none
  ]

  unfoldable pub signatures_ok :
      Option SigningPolicy → Option (List SignatureFile) → Bytes → Result Bool (Unit {0})
  unfolding check_module_signatures
  signatures_ok none files module_bytes = ok tt
  signatures_ok (some policy) files module_bytes =
      elim (check_module_signatures ssh policy.signing files module_bytes) [
        | ok u ↦ ok tt
        | err e ↦ err policy.panic_on_invalid_signature
      ]

  -- The closure that loads one module.
  unfoldable pub load_entry : Option Entry → Loading
  unfolding signatures_ok compile type_of
  load_entry none = skips
  load_entry (some entry) = elim entry.module_bytes [
    | none ↦ fails config.panic_on_module_load_failure
    | some module_bytes ↦
        elim (signatures_ok config.module_signing entry.signature_files module_bytes) [
          | err panic ↦ fails panic
          | ok u ↦ elim (compile entry.filename (type_of config entry.filename) module_bytes) [
            | none ↦ fails config.panic_on_module_load_failure
            | some m ↦ loads m
          ]
        ]
  ]

  unfoldable pub load_entries : List (Option Entry) → Option (List PlaidModule)
  unfolding load_entry
  load_entries [] = some []
  load_entries (entry ∷ rest) = elim (load_entries rest) [
    | none ↦ none
    | some modules ↦ elim (load_entry entry) [
      | panics ↦ none
      | skips ↦ some modules
      | loads m ↦ some (m ∷ modules)
    ]
  ]

  -- `populate_storage_sizes`, on the modules in the order in which their lookups end;
  -- `get_namespace_byte_size` is that of the storage, and `none` its failure.
  unfoldable pub populate_storage_sizes :
      (String → Option ℕ) → List PlaidModule → Option (List PlaidModule)
  populate_storage_sizes get_namespace_byte_size [] = some []
  populate_storage_sizes get_namespace_byte_size (m ∷ rest) =
      elim (populate_storage_sizes get_namespace_byte_size rest) [
        | none ↦ none
        | some modules ↦ elim (get_namespace_byte_size m.name) [
          | some bytes ↦ some (
              (record m { storage_current = record { value = bytes; poisoned = false } }) ∷ modules)
          | none ↦ if config.panic_on_module_load_failure then none else some modules
        ]
      ]

-- `PlaidModules`
pub record PlaidModules : Type 0 where
  pub channels : HashMap (List PlaidModule)
  pub modules : HashMap PlaidModule

-- One turn of the last loop of `load`.
unfoldable pub add_module : PlaidModule → PlaidModules → PlaidModules
unfolding lookup insert
add_module m mods = elim (lookup m.logtype mods.channels) [
  | some channel ↦ record {
    channels = insert m.logtype (channel ++ m ∷ []) mods.channels;
    modules = insert m.name m mods.modules;
  }
  | none ↦ record {
    channels = insert m.logtype (m ∷ []) mods.channels;
    modules = insert m.name m mods.modules;
  }
]

unfoldable pub add_modules : List PlaidModule → PlaidModules → PlaidModules
unfolding add_module
add_modules [] mods = mods
add_modules (m ∷ rest) mods = add_modules rest (add_module m mods)

-- `load`; without a storage every module keeps a size of 0, and with one `settle` puts the modules
-- into the order in which their lookups end.
unfoldable pub load :
    Ssh
    → (Bytes → Option (List String))
    → (String → Bool)
    → (String → Bytes)
    → Configuration
    → Option (String → Option ℕ)
    → (List PlaidModule → List PlaidModule)
    → List (Option Entry)
    → Option PlaidModules
unfolding load_entries populate_storage_sizes add_modules
load ssh compile_module known as_bytes config none settle entries =
    elim (load_entries ssh compile_module known as_bytes config entries) [
      | none ↦ none
      | some modules ↦ some (add_modules modules (record { channels = []; modules = [] }))
    ]
load ssh compile_module known as_bytes config (some size) settle entries =
    elim (load_entries ssh compile_module known as_bytes config entries) [
      | none ↦ none
      | some modules ↦
          elim (populate_storage_sizes ssh compile_module known as_bytes config size
            (settle modules)) [
              | none ↦ none
              | some sized ↦ some (add_modules sized (record { channels = []; modules = [] }))
            ]
    ]
