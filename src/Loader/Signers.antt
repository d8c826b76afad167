-- ===== src/Loader/Signers.antt =====
-- The count of the signers of a module, in `check_module_signatures` of
-- runtime/plaid/src/loader/signing.rs: which key a file verifies with, if it does, is a parameter.
use plaid.Base.{
  ℕ, ◌≤◌, ◌<◌, ◌+◌, ◌≡◌, refl, String, true, false, Option, none, some, List, [], ◌∷◌, All, length,
  ltb, leb, if◌then◌else◌, arith, Bool-cases, Option-cases, inl, inr, ◌↔◌, str_eq, eq_iff, ◌||◌,
  subst, sym, ◌⊎◌,
}
use plaid.Base.Result.{Result, ok, err}
use plaid.Functions.Storage.{contains}

-- `signatures_dir` is left out: what it holds is an argument.
pub record ModuleSigningConfiguration : Type 0 where
  -- the fingerprints of `authorized_signers`
  pub authorized_signers : List String
  pub signatures_required : ℕ
  pub signature_namespace : String

-- `Errors::FileError` and `Errors::NotEnoughValidSignatures`
pub data SigningError : Type 0 where
  file_error : SigningError
  not_enough_valid_signatures : ℕ → ℕ → SigningError

-- `HashSet::insert`
unfoldable pub add : String → List String → List String
add a s = if contains s a then s else a ∷ s

module _ {File : Type 0} (verify_signature_file : File → Option String) where
  -- The loop over the signature files.
  unfoldable pub count_signatures :
      ModuleSigningConfiguration → List File → List String → Result SigningError (Unit {0})
  count_signatures signing [] valid =
      err (not_enough_valid_signatures (length valid) signing.signatures_required)
  count_signatures signing (file ∷ files) valid = elim (verify_signature_file file) [
    | none ↦ count_signatures signing files valid
    | some fingerprint ↦ elim (contains signing.authorized_signers fingerprint) [
      | false ↦ count_signatures signing files valid
      | true ↦ elim (leb signing.signatures_required (length (add fingerprint valid))) [
        | true ↦ ok tt
        | false ↦ count_signatures signing files (add fingerprint valid)
      ]
    ]
  ]

  -- What follows the reading of the directory.
  unfoldable pub check_files :
      ModuleSigningConfiguration → List File → Result SigningError (Unit {0})
  check_files signing files =
      if ltb (length files) signing.signatures_required
      then err (not_enough_valid_signatures 0 signing.signatures_required)
      else count_signatures signing files []

  -- The distinct authorized keys that the files verify with, so far or further on.
  unfoldable pub signers : ModuleSigningConfiguration → List File → List String → List String
  signers signing [] valid = valid
  signers signing (file ∷ files) valid = elim (verify_signature_file file) [
    | none ↦ signers signing files valid
    | some fingerprint ↦ elim (contains signing.authorized_signers fingerprint) [
      | false ↦ signers signing files valid
      | true ↦ signers signing files (add fingerprint valid)
    ]
  ]

  -- The keys that are counted only grow.
  signers-grow :
      (signing : ModuleSigningConfiguration) (files : List File) (valid : List String)
      → length valid ≤ length (signers signing files valid)
  unfolding signers add
  signers-grow signing [] valid = omega arith
  signers-grow signing (file ∷ files) valid = elim (Option-cases (verify_signature_file file)) [
    | inl bad ↦ rw (bad, signers) (signers-grow signing files valid)
    | inr (key, good) ↦ elim (Bool-cases (contains signing.authorized_signers key)) [
      | inr unknown ↦ rw (good, unknown, signers) (signers-grow signing files valid)
      | inl known ↦
          rw (good, known, signers) (ground (arith, signers-grow signing files (add key valid)))
    ]
  ]

  -- The loop accepts exactly when there are enough keys in the end.
  count_signatures_iff :
      (signing : ModuleSigningConfiguration) (files : List File) (valid : List String)
      → length valid < signing.signatures_required
      → (count_signatures signing files valid ≡ ok tt)
        ↔ (signing.signatures_required ≤ length (signers signing files valid))
  unfolding count_signatures signers
  count_signatures_iff signing [] valid h = ground arith
  count_signatures_iff signing (file ∷ files) valid h =
      elim (Option-cases (verify_signature_file file)) [
        | inl bad ↦ rw (bad, count_signatures, signers) (count_signatures_iff signing files valid h)
        | inr (key, good) ↦ elim (Bool-cases (contains signing.authorized_signers key)) [
          | inr unknown ↦
              rw (good, unknown, count_signatures, signers)
                (count_signatures_iff signing files valid h)
          | inl known ↦
              elim (Bool-cases (leb signing.signatures_required (length (add key valid)))) [
                | inr few ↦
                    rw (good, known, count_signatures, signers, few)
                      (count_signatures_iff signing files (add key valid) (ground arith))
                | inl enough ↦
                    rw (good, known, count_signatures, signers, enough)
                      (λ e. ground (arith, signers-grow signing files (add key valid)), λ e. refl)
              ]
        ]
      ]

  -- Some file verifies with the key.
  abbrev pub Signs : String → List File → Type 0
  Signs key [] = ⊥
  Signs key (file ∷ files) = (verify_signature_file file ≡ some key) ⊎ Signs key files

  abbrev pub IsDistinct : List String → Type 0
  IsDistinct [] = Unit
  IsDistinct (key ∷ keys) = (contains keys key ≡ false) × IsDistinct keys

  -- What a file makes of the keys: nothing, or one more that it verifies with.
  signers-step :
      (signing : ModuleSigningConfiguration) (file : File) (files : List File) (valid : List String)
      → (next : List String) × (signers signing (file ∷ files) valid ≡ signers signing files next)
        × ((next ≡ valid)
            ⊎ ((key : String) × (verify_signature_file file ≡ some key)
                × (contains signing.authorized_signers key ≡ true)
                × (next ≡ add key valid)))
  unfolding signers
  signers-step signing file files valid = elim (Option-cases (verify_signature_file file)) [
    | inl bad ↦ (valid, rw (bad, signers) refl, inl refl)
    | inr (key, good) ↦ elim (Bool-cases (contains signing.authorized_signers key)) [
      | inr unknown ↦ (valid, rw (good, unknown, signers) refl, inl refl)
      | inl known ↦ (add key valid, rw (good, known, signers) refl, inr (key, good, known, refl))
    ]
  ]

  add-IsDistinct : (key : String) (keys : List String) → IsDistinct keys → IsDistinct (add key keys)
  unfolding add
  add-IsDistinct key keys d = elim (Bool-cases (contains keys key)) [
    | inl known ↦ rw known d
    | inr new ↦ rw new (new, d)
  ]

  add-All :
      (P : String → Type 0) (key : String) (keys : List String)
      → P key
      → All P keys
      → All P (add key keys)
  unfolding add
  add-All P key keys h all = elim (Bool-cases (contains keys key)) [
    | inl known ↦ rw known all
    | inr new ↦ rw new (h, all)
  ]

  signers-IsDistinct :
      (signing : ModuleSigningConfiguration) (files : List File) (valid : List String)
      → IsDistinct valid
      → IsDistinct (signers signing files valid)
  unfolding signers
  signers-IsDistinct signing [] valid d = d
  signers-IsDistinct signing (file ∷ files) valid d =
      let (next, is, how) = signers-step signing file files valid in
      let d' : IsDistinct next = elim how [
        | inl same ↦ rw same d
        | inr (key, _, _, added) ↦ rw added (add-IsDistinct key valid d)
      ] in
      subst IsDistinct (sym is) (signers-IsDistinct signing files next d')

  signers-All :
      (P : String → Type 0) (signing : ModuleSigningConfiguration) (files : List File)
      (valid : List String)
      → All P valid
      → ((key : String) → Signs key files → contains signing.authorized_signers key ≡ true → P key)
      → All P (signers signing files valid)
  unfolding signers
  signers-All P signing [] valid all good_key = all
  signers-All P signing (file ∷ files) valid all good_key =
      let (next, is, how) = signers-step signing file files valid in
      let all' : All P next = elim how [
        | inl same ↦ rw same all
        | inr (key, good, known, added) ↦
            rw added (add-All P key valid (good_key key (inl good) known) all)
      ] in
      subst (All P) (sym is)
        (signers-All P signing files next all' (λ key signs. good_key key (inr signs)))

  signers-le-length :
      (signing : ModuleSigningConfiguration) (files : List File) (valid : List String)
      → length (signers signing files valid) ≤ length valid + length files
  unfolding signers add
  signers-le-length signing [] valid = omega arith
  signers-le-length signing (file ∷ files) valid =
      let (next, is, how) = signers-step signing file files valid in
      rw is (ground (arith, signers-le-length signing files next))

  add-contains :
      (key : String) (keys : List String) (other : String)
      → contains (add key keys) other ≡ (str_eq key other || contains keys other)
  unfolding add contains
  add-contains key keys other = ground (arith, eq_iff key other, eq_iff other key)

  -- A key that is counted stays counted.
  signers_keeps :
      (signing : ModuleSigningConfiguration) (files : List File) (valid : List String)
      (key : String)
      → contains valid key ≡ true
      → contains (signers signing files valid) key ≡ true
  unfolding signers
  signers_keeps signing [] valid key h = h
  signers_keeps signing (file ∷ files) valid key h =
      let (next, is, how) = signers-step signing file files valid in
      let h' : contains next key ≡ true = elim how [
        | inl same ↦ rw same h
        | inr (k, _, _, added) ↦ rw added (ground (arith, add-contains k valid key))
      ] in
      rw is (signers_keeps signing files next key h')

  -- Every authorized key that some file verifies with is counted.
  signers_complete :
      (signing : ModuleSigningConfiguration) (files : List File) (valid : List String)
      (key : String)
      → Signs key files
      → contains signing.authorized_signers key ≡ true
      → contains (signers signing files valid) key ≡ true
  unfolding signers
  signers_complete signing [] valid key signs known = elim signs [ ]
  signers_complete signing (file ∷ files) valid key (inl good) known =
      rw (good, known, signers)
        (signers_keeps signing files (add key valid) key
          (ground (arith, add-contains key valid key, eq_iff key key)))
  signers_complete signing (file ∷ files) valid key (inr later) known =
      let (next, is, how) = signers-step signing file files valid in
      rw is (signers_complete signing files next key later known)

  -- The files are accepted exactly when there are enough signers, and these are what they should
  -- be.
  pub check_files_iff :
      (signing : ModuleSigningConfiguration) (files : List File)
      → 0 < signing.signatures_required
      → let keys = signers signing files [] in
        ((check_files signing files ≡ ok tt) ↔ (signing.signatures_required ≤ length keys))
        × IsDistinct keys
        × All (λ key. Signs key files × (contains signing.authorized_signers key ≡ true)) keys
        × ((key : String)
            → Signs key files
            → contains signing.authorized_signers key ≡ true
            → contains keys key ≡ true)
  unfolding check_files
  check_files_iff signing files h = (
    ground (arith, count_signatures_iff signing files [], signers-le-length signing files []),
    signers-IsDistinct signing files [] tt,
    signers-All (λ key. Signs key files × (contains signing.authorized_signers key ≡ true)) signing
        files [] tt (λ key signs known. (signs, known)),
    signers_complete signing files [],
  )
