-- ===== src/Loader/Signing.antt =====
-- `check_module_signatures` of runtime/plaid/src/loader/signing.rs. The files of the directory of
-- signatures are an argument; sshcerts, ring and hex are a parameter, `Ssh`.
use plaid.Base.{
  ◌≤◌, ◌<◌, ◌≡◌, String, true, Option, none, some, List, [], All, length, if◌then◌else◌, ◌↔◌,
}
use plaid.Base.Result.{Result, ok, err}
use plaid.Guest.{Bytes}
use plaid.Storage.Shared.{ends_with}
use plaid.Functions.Storage.{contains}
use plaid.Loader.Signers.{
  ModuleSigningConfiguration, SigningError, file_error, check_files, signers, Signs, IsDistinct,
  check_files_iff,
}

-- An entry of the directory: its name, and its text where it can be read.
pub record SignatureFile : Type 0 where
  pub file_name : String
  pub content : Option String

pub record Ssh : Type 1 where
  -- `digest(&SHA256, bytes).encode_hex()`, as bytes
  pub module_hash : Bytes → Bytes
  pub SshSignature : Type 0
  pub PublicKey : Type 0
  pub from_armored_string : String → Option SshSignature
  pub pubkey : SshSignature → PublicKey
  -- `VerifiedSshSignature::from_ssh_signature`: the verified signature
  pub from_ssh_signature : Bytes → SshSignature → String → PublicKey → Option SshSignature
  pub fingerprint : PublicKey → String

unfoldable pub read_in_signature : SignatureFile → Option String
unfolding ends_with
read_in_signature file = if ends_with file.file_name ".sig" then file.content else none

module _ (ssh : Ssh) where
  unfoldable pub verify_signature_file : SignatureFile → Bytes → String → Option ssh.PublicKey
  unfolding read_in_signature
  verify_signature_file file module_hash namespace = elim (read_in_signature file) [
    | none ↦ none
    | some signature ↦ elim (ssh.from_armored_string signature) [
      | none ↦ none
      | some ssh_signature ↦
          elim (ssh.from_ssh_signature module_hash ssh_signature namespace
            (ssh.pubkey ssh_signature)) [ none ↦ none | some verified ↦ some (ssh.pubkey verified) ]
    ]
  ]

  -- The fingerprint of the key that a file verifies with, for a module with these bytes.
  unfoldable pub signer_of : ModuleSigningConfiguration → Bytes → SignatureFile → Option String
  unfolding verify_signature_file
  signer_of signing module_bytes file =
      elim (verify_signature_file file (ssh.module_hash module_bytes) signing.signature_namespace) [
        | none ↦ none
        | some key ↦ some (ssh.fingerprint key)
      ]

  -- `none` is a directory that cannot be read.
  unfoldable pub check_module_signatures :
      ModuleSigningConfiguration
      → Option (List SignatureFile)
      → Bytes
      → Result SigningError (Unit {0})
  unfolding check_files signer_of
  check_module_signatures signing none module_bytes = err file_error
  check_module_signatures signing (some files) module_bytes =
      check_files (signer_of signing module_bytes) signing files

  -- A module that has to have signatures is accepted exactly when its files verify, against the hash
  -- of its bytes and in the namespace, with enough distinct keys of authorized signers: `signers`
  -- lists all of these, and none of them twice.
  pub check_module_signatures_iff :
      (signing : ModuleSigningConfiguration) (files : List SignatureFile) (module_bytes : Bytes)
      → 0 < signing.signatures_required
      → let signer = signer_of signing module_bytes in
        let keys = signers signer signing files [] in
        ((check_module_signatures signing (some files) module_bytes ≡ ok tt)
          ↔ (signing.signatures_required ≤ length keys))
        × IsDistinct signer keys
        × All
            (λ key. Signs signer key files × (contains signing.authorized_signers key ≡ true))
            keys
        × ((key : String)
            → Signs signer key files
            → contains signing.authorized_signers key ≡ true
            → contains keys key ≡ true)
  unfolding check_module_signatures
  check_module_signatures_iff signing files module_bytes h =
      check_files_iff (signer_of signing module_bytes) signing files h
