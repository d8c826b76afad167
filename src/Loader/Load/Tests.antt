-- ===== src/Loader/Load/Tests.antt =====
-- A directory with two modules of one type, one of which is not signed.
use plaid.Loader.Signers.{add, count_signatures}
use plaid.Loader.Signing.{Ssh, SignatureFile, read_in_signature, verify_signature_file, signer_of}
use plaid.Storage.Shared.{ends_with}
use plaid.Base.{
  ◌≡◌, refl, String, Bool, true, false, Option, none, some, List, [], ◌∷◌, map, length, str_eq,
  ◌==◌, ◌&&◌, if◌then◌else◌,
}
use plaid.Base.Dict.{HashMap, lookup}
use plaid.Guest.{Bytes}
use plaid.Storage.{unlimited}
use plaid.Env.{PlaidModule}
use plaid.Loader.Limits.{Amount}
use plaid.Loader.Accessory.{value_of, module_accessory_data, module_accessory_data_lem}
use plaid.Loader.Load.{Configuration, Entry, PlaidModules, load, type_of}

abbrev amount : {A : Type 0} → A → Amount A
amount a = record { default = a; log_type = []; module_overrides = [] }

abbrev config : Configuration
config = record {
  log_type_overrides = ("c.wasm", "okta") ∷ [];
  computation_amount = amount 1000;
  memory_page_count = amount 5;
  storage_size = amount unlimited;
  secrets = ("okta", ("token", "t") ∷ []) ∷ [];
  accessory = record {
    universal_accessory_data = some (("a", "1") ∷ ("b", "1") ∷ []);
    accessory_data_log_type_overrides = ("okta", ("a", "2") ∷ []) ∷ [];
    accessory_data_file_overrides = ("c.wasm", ("a", "3") ∷ []) ∷ [];
  };
  persistent_response_size = [];
  test_mode = true;
  test_mode_exemptions = "c.wasm" ∷ [];
  module_signing = some (record {
    signing = record {
      authorized_signers = "admin" ∷ [];
      signatures_required = 1;
      signature_namespace = "plaid";
    };
    panic_on_invalid_signature = false;
  });
  panic_on_module_load_failure = true;
}

-- A signature is the name of its key, and good for modules of one byte.
abbrev pub ssh : Ssh
ssh = record {
  module_hash = λ b. b;
  SshSignature = String;
  PublicKey = String;
  from_armored_string = λ text. some text;
  pubkey = λ signature. signature;
  from_ssh_signature = λ hash signature namespace key.
      if length hash == 1 && str_eq namespace "plaid" then some signature else none;
  fingerprint = λ key. key;
}

abbrev pub sig : String → SignatureFile
sig key = record { file_name = "a.sig"; content = some key }

abbrev compile_module : Bytes → Option (List String)
compile_module b = some ("log_back" ∷ [])

abbrev known : String → Bool
known name = true

abbrev as_bytes : String → Bytes
as_bytes s = 7 ∷ []

abbrev file : String → List SignatureFile → Option Entry
file name signatures =
    some
      (record { filename = name; module_bytes = some (0 ∷ []); signature_files = some signatures })

abbrev directory : List (Option Entry)
directory = file "okta_a.wasm" [] ∷ none ∷ file "c.wasm" (sig "admin" ∷ []) ∷ []

abbrev names : Option PlaidModules → Option (HashMap (List String))
names none = none
names (some mods) = some (map (λ (t, ms). (t, map PlaidModule.name ms)) mods.channels)

typed : type_of config "okta_a.wasm" ≡ "okta"
unfolding type_of
typed = refl

-- The module without a signature is skipped.
loaded :
    names (load ssh compile_module known as_bytes config none (λ ms. ms) directory)
    ≡ some (("okta", "c.wasm" ∷ []) ∷ [])
unfolding load count_signatures add signer_of verify_signature_file read_in_signature ends_with
loaded = refl

module_accessory_data_lem_example :
    value_of as_bytes "a" (module_accessory_data as_bytes config.accessory "c.wasm" "okta")
    ≡ some (7 ∷ [])
unfolding lookup
module_accessory_data_lem_example =
    module_accessory_data_lem as_bytes config.accessory "c.wasm" "okta" "a" (refl, tt) (refl, tt)

abbrev or_no_modules : Option PlaidModules → PlaidModules
or_no_modules none = record { channels = []; modules = [] }
or_no_modules (some mods) = mods

abbrev result : PlaidModules
result =
    or_no_modules
      (load ssh compile_module known as_bytes config (some (λ n. some 3)) (λ ms. ms) directory)
