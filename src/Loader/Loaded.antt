-- ===== src/Loader/Loaded.antt =====
-- What holds of the modules that are loaded.
use plaid.Base.{◌≡◌, String, Bool, Option, List, All}
use plaid.Base.Dict.{lookup}
use plaid.Guest.{Bytes}
use plaid.Env.{PlaidModule}
use plaid.Loader.Signing.{Ssh}
use plaid.Loader.Load.{Configuration, PlaidModules}
use plaid.Loader.Accepted.{IsAccepted}
use plaid.Loader.Channels.{channel_of, of_type, last_named}

module _ (ssh : Ssh) (compile_module : Bytes → Option (List String)) (known : String → Bool)
    (as_bytes : String → Bytes) (config : Configuration) where
  -- Every module is accepted and stands in the channel of its log type, in the order of the list,
  -- and a name finds the last module that has it.
  pub record IsLoaded (mods : PlaidModules) : Type 0 where
    pub loaded : List PlaidModule
    pub accepted : All (IsAccepted ssh compile_module known as_bytes config) loaded
    pub channels : (type_ : String) → channel_of type_ mods ≡ of_type type_ loaded
    pub by_name : (name : String) → lookup name mods.modules ≡ last_named name loaded
