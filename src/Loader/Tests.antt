-- ===== src/Loader/Tests.antt =====
-- The theorems on limits and signatures, at small examples.
use plaid.Loader.Signers.{add, ModuleSigningConfiguration, signers, IsDistinct, Signs}
use plaid.Loader.Signing.{
  SignatureFile, read_in_signature, verify_signature_file, signer_of, check_module_signatures,
  check_module_signatures_iff,
}
use plaid.Storage.Shared.{ends_with}
use plaid.Loader.Load.Tests.{ssh, sig}
use plaid.Base.{
  ℕ, ◌≤◌, ◌≡◌, ◌↔◌, refl, String, true, false, none, some, List, [], ◌∷◌, All, length, arith,
}
use plaid.Base.Result.{Result, ok}
use plaid.Functions.Storage.{contains}
use plaid.Loader.Limits.{
  Amount, MemoryType, MemoryError, IsBounded, with_maximum, create_memory, create_memory_lem,
}

abbrev amount : Amount ℕ
amount = record { default = 5000000000; log_type = []; module_overrides = ("a.wasm", 3) ∷ [] }

abbrev base : MemoryType → Result MemoryError MemoryType
base ty = ok ty

abbrev asked : MemoryType
asked = record { minimum = 2; maximum = none; shared = false }

create_memory_lem_example :
    ((m : MemoryType)
      → create_memory base 10 asked ≡ ok m
      → IsBounded 10 (with_maximum 10 asked) × (base (with_maximum 10 asked) ≡ ok m))
    × (IsBounded 10 (with_maximum 10 asked)
        → create_memory base 10 asked ≡ base (with_maximum 10 asked))
create_memory_lem_example = create_memory_lem base 10 asked

abbrev signing : ModuleSigningConfiguration
signing = record {
  authorized_signers = "k1" ∷ "k2" ∷ [];
  signatures_required = 2;
  signature_namespace = "plaid";
}

-- One key that signs twice, one that is unknown, and a file of another kind.
abbrev files : List SignatureFile
files = sig "k1" ∷ record { file_name = "a.txt"; content = some "k2" } ∷ sig "k1" ∷ sig "k3" ∷ []

-- The key that signs twice counts once.
twice_test : signers (signer_of ssh signing (7 ∷ [])) signing files [] ≡ "k1" ∷ []
unfolding signers contains add signer_of verify_signature_file read_in_signature ends_with
twice_test = refl

-- The signatures are no good for other bytes.
other_bytes_test : signers (signer_of ssh signing (7 ∷ 8 ∷ [])) signing files [] ≡ []
unfolding signers contains add signer_of verify_signature_file read_in_signature ends_with
other_bytes_test = refl

check_module_signatures_iff_example :
    let signer = signer_of ssh signing (7 ∷ []) in
    let keys = signers signer signing files [] in
    ((check_module_signatures ssh signing (some files) (7 ∷ []) ≡ ok tt) ↔ (2 ≤ length keys))
    × IsDistinct signer keys
    × All (λ key. Signs signer key files × (contains signing.authorized_signers key ≡ true)) keys
    × ((key : String)
        → Signs signer key files
        → contains signing.authorized_signers key ≡ true
        → contains keys key ≡ true)
check_module_signatures_iff_example =
    check_module_signatures_iff ssh signing files (7 ∷ []) (omega arith)
