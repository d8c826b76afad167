-- ===== src/Loader/Accepted.antt =====
-- Modules that may be loaded.
use plaid.Base.{
  ℕ, ◌≡◌, ◌⊎◌, inl, inr, refl, ap, subst, ◌∙◌, String, Bool, Option, none, some, List, [], ◌∷◌, All,
  arith, Option-cases, sym, false, true,
}
use plaid.Base.Result.{ok, Result-cases}
use plaid.Guest.{Bytes}
use plaid.Base.Dict.{lookup}
use plaid.Loader.Accessory.{value_of, entry_of, read_and_configure_secrets_lem}
use plaid.Env.{PlaidModule}
use plaid.Loader.Signing.{Ssh, check_module_signatures}
use plaid.Loader.Load.{
  Configuration, SigningPolicy, imports_known, Loading, loads, skips, panics, Entry, type_of,
  compile, signatures_ok, load_entry, load_entries, populate_storage_sizes,
}
use plaid.Loader.Configured.{configured, compile_ok}

-- `m` is one of the modules.
abbrev pub Occurs : PlaidModule → List PlaidModule → Type 0
Occurs m [] = ⊥
Occurs m (x ∷ xs) = (x ≡ m) ⊎ Occurs m xs

pub All-Occurs :
    (P : PlaidModule → Type 0) (m : PlaidModule) (ms : List PlaidModule)
    → All P ms
    → Occurs m ms
    → P m
All-Occurs P m [] a o = elim o [ ]
All-Occurs P m (x ∷ xs) (p, a) (inl e) = subst P e p
All-Occurs P m (x ∷ xs) (p, a) (inr o) = All-Occurs P m xs a o

pub All-of_Occurs :
    (P : PlaidModule → Type 0) (ms : List PlaidModule)
    → ((m : PlaidModule) → Occurs m ms → P m)
    → All P ms
All-of_Occurs P [] f = tt
All-of_Occurs P (x ∷ xs) f = (f x (inl refl), All-of_Occurs P xs (λ m o. f m (inr o)))

module _ (ssh : Ssh) (compile_module : Bytes → Option (List String)) (known : String → Bool)
    (as_bytes : String → Bytes) (config : Configuration) where
  -- Nothing has to be signed, or the signatures of the file are good for its bytes.
  abbrev pub IsSigned : Entry → Bytes → Type 0
  IsSigned entry module_bytes =
      (config.module_signing ≡ none)
      ⊎ ((policy : SigningPolicy) × (config.module_signing ≡ some policy)
          × (check_module_signatures ssh policy.signing entry.signature_files module_bytes ≡ ok tt))

  -- A module of the directory that is signed as the configuration asks, calls known functions only,
  -- and has its limits, its data and its mode.
  pub record IsAccepted (m : PlaidModule) : Type 0 where
    pub entry : Entry
    pub module_bytes : Bytes
    pub imports : List String
    pub read : entry.module_bytes ≡ some module_bytes
    pub signed : IsSigned entry module_bytes
    pub compiled : compile_module module_bytes ≡ some imports
    pub known_imports : imports_known known imports ≡ true
    pub as_configured : m ≡ configured as_bytes config entry.filename m.storage_current
    pub secrets :
        (key : String)
        → value_of as_bytes key m.secrets ≡ entry_of as_bytes key (lookup m.logtype config.secrets)

  signatures_ok-IsSigned :
      (entry : Entry) (module_bytes : Bytes) (o : Option SigningPolicy)
      → config.module_signing ≡ o
      → signatures_ok ssh compile_module known as_bytes config o entry.signature_files module_bytes
        ≡ ok tt
      → IsSigned entry module_bytes
  unfolding signatures_ok
  signatures_ok-IsSigned entry module_bytes none is e = inl is
  signatures_ok-IsSigned entry module_bytes (some policy) is e =
      elim (Result-cases
        (check_module_signatures ssh policy.signing entry.signature_files module_bytes)) [
          | inl (u, good) ↦ inr (policy, is, good)
          | inr (x, bad) ↦ absurd (ground (arith, bad))
        ]

  load_entry-IsAccepted :
      (o : Option Entry) (m : PlaidModule)
      → load_entry ssh compile_module known as_bytes config o ≡ loads m
      → IsAccepted m
  unfolding load_entry
  load_entry-IsAccepted none m e = cc
  load_entry-IsAccepted (some entry) m e = elim (Option-cases entry.module_bytes) [
    | inl unread ↦ absurd (ground (arith, unread))
    | inr (module_bytes, read) ↦
        elim (Result-cases (
          signatures_ok ssh compile_module known as_bytes config config.module_signing
            entry.signature_files module_bytes)) [
              | inr (panic, unsigned) ↦ absurd (ground (arith, read, unsigned))
              | inl (u, signed) ↦
                  elim (Option-cases (
                    compile ssh compile_module known as_bytes config entry.filename
                      (type_of config entry.filename) module_bytes)) [
                        | inl broken ↦ absurd (ground (arith, read, signed, broken))
                        | inr (compiled, is) ↦
                            let same : compiled ≡ m = ground (arith, read, signed, is) in
                            let (imports, has, good, as_configured) =
                              compile_ok ssh compile_module known as_bytes config entry.filename
                                module_bytes m (is ∙ ap some same) in
                            record {
                              entry = entry;
                              module_bytes = module_bytes;
                              imports = imports;
                              read = read;
                              signed =
                                  signatures_ok-IsSigned entry module_bytes config.module_signing
                                    refl signed;
                              compiled = has;
                              known_imports = good;
                              as_configured = as_configured;
                              secrets =
                                  subst
                                    (λ (x : PlaidModule).
                                      (key : String)
                                      → value_of as_bytes key x.secrets
                                        ≡ entry_of as_bytes key (lookup x.logtype config.secrets))
                                    (sym as_configured)
                                    (λ key.
                                      read_and_configure_secrets_lem as_bytes key
                                        (type_of config entry.filename) config.secrets);
                            }
                      ]
            ]
  ]

  Loading-cases : (l : Loading) → (l ≡ panics) ⊎ (l ≡ skips) ⊎ ((m : PlaidModule) × (l ≡ loads m))
  Loading-cases panics = inl refl
  Loading-cases skips = inr (inl refl)
  Loading-cases (loads m) = inr (inr (m, refl))

  pub load_entries-IsAccepted :
      (entries : List (Option Entry)) (ms : List PlaidModule)
      → load_entries ssh compile_module known as_bytes config entries ≡ some ms
      → All IsAccepted ms
  unfolding load_entries
  load_entries-IsAccepted [] ms e = subst (All IsAccepted) (let same : [] ≡ ms = cc in same) tt
  load_entries-IsAccepted (o ∷ rest) ms e =
      elim (Option-cases (load_entries ssh compile_module known as_bytes config rest)) [
        | inl failed ↦ absurd (ground (arith, failed))
        | inr (others, is) ↦
            let accepted = load_entries-IsAccepted rest others is in
            elim (Loading-cases (load_entry ssh compile_module known as_bytes config o)) [
              | inl panicked ↦ absurd (ground (arith, is, panicked))
              | inr (inl skipped) ↦
                  let same : others ≡ ms = ground (arith, is, skipped) in
                  subst (All IsAccepted) same accepted
              | inr (inr (m, loaded)) ↦
                  let same : m ∷ others ≡ ms = ground (arith, is, loaded) in
                  subst (All IsAccepted) same (load_entry-IsAccepted o m loaded, accepted)
            ]
      ]

  sized :
      (m : PlaidModule) (bytes : ℕ)
      → IsAccepted m
      → IsAccepted (record m { storage_current = record { value = bytes; poisoned = false } })
  sized m bytes a = record {
    entry = a.entry;
    module_bytes = a.module_bytes;
    imports = a.imports;
    read = a.read;
    signed = a.signed;
    compiled = a.compiled;
    known_imports = a.known_imports;
    as_configured =
        ap
          (λ (x : PlaidModule). record x {
            storage_current = record { value = bytes; poisoned = false };
          })
          a.as_configured;
    secrets = a.secrets;
  }

  pub populate-IsAccepted :
      (size : String → Option ℕ) (ms out : List PlaidModule)
      → All IsAccepted ms
      → populate_storage_sizes ssh compile_module known as_bytes config size ms ≡ some out
      → All IsAccepted out
  unfolding populate_storage_sizes
  populate-IsAccepted size [] out a e = subst (All IsAccepted) (let same : [] ≡ out = cc in same) tt
  populate-IsAccepted size (m ∷ rest) out (p, a) e =
      elim (Option-cases
        (populate_storage_sizes ssh compile_module known as_bytes config size rest)) [
          | inl failed ↦ absurd (ground (arith, failed))
          | inr (others, is) ↦
              let accepted = populate-IsAccepted size rest others a is in
              elim (Option-cases (size m.name)) [
                | inr (bytes, found) ↦
                    let m' : PlaidModule = record m {
                      storage_current = record { value = bytes; poisoned = false };
                    } in
                    let same : m' ∷ others ≡ out = ground (arith, is, found) in
                    subst (All IsAccepted) same (sized m bytes p, accepted)
                | inl missing ↦
                    let same : others ≡ out = ground (arith, is, missing) in
                    subst (All IsAccepted) same accepted
              ]
        ]
