-- ===== src/Loader/Limits.antt =====
-- The limits of a module: runtime/plaid/src/loader/utils.rs, `LimitedAmount`, `LimitableAmount` and
-- `deserialize_limited_amount` of runtime/plaid/src/loader/mod.rs, and the memory limit of
-- runtime/plaid/src/loader/limits.rs.
use plaid.Base.{
  ℕ, ◌≤◌, ◌<◌, ◌≡◌, refl, String, Bool, false, Option, none, some, [], ◌∷◌, ltb, ◌==◌, ◌||◌,
  if◌then◌else◌, arith, Option-cases, inl, inr, subst,
}
use plaid.Base.Result.{Result, ok, err, ◌>>◌, Result-cases}
use plaid.Base.Dict.{HashMap, lookup}
use plaid.Guest.{u32_max}

-- `LimitedAmount`, at numbers, and `LimitableAmount`, at `LimitValue`
pub record Amount (A : Type 0) : Type 0 where
  pub default : A
  pub log_type : HashMap A
  pub module_overrides : HashMap A

-- `get_limit_with_overrides` and `get_module_persistent_storage_limit`
unfoldable pub get_limit_with_overrides : {A : Type 0} → Amount A → String → String → A
get_limit_with_overrides limit_amount filename log_type =
    elim (lookup filename limit_amount.module_overrides) [
      | some amount ↦ amount
      | none ↦ elim (lookup log_type limit_amount.log_type) [
        | some amount ↦ amount
        | none ↦ limit_amount.default
      ]
    ]

unfoldable pub get_module_page_count : Amount ℕ → String → String → ℕ
unfolding get_limit_with_overrides
get_module_page_count limit_amount filename log_type =
    let page_count = get_limit_with_overrides limit_amount filename log_type in
    if ltb u32_max page_count then u32_max else page_count

-- `iter().find(|(_, &v)| v == 0)`
unfoldable pub has_zero : HashMap ℕ → Bool
has_zero [] = false
has_zero ((k, v) ∷ rest) = v == 0 || has_zero rest

-- The checks of `deserialize_limited_amount` on what was read.
unfoldable pub check_limited_amount : Amount ℕ → Option (Amount ℕ)
unfolding has_zero
check_limited_amount raw =
    if raw.default == 0
    then none
    else if has_zero raw.log_type
    then none
    else if has_zero raw.module_overrides
    then none
    else some raw

lookup-has_zero :
    (k : String) (m : HashMap ℕ) (n : ℕ) → has_zero m ≡ false → lookup k m ≡ some n → 0 < n
unfolding lookup has_zero
lookup-has_zero k [] n z e = absurd (ground arith)
lookup-has_zero k ((j, v) ∷ rest) n z e = ground (arith, lookup-has_zero k rest n)

-- No module has a limit of 0 in a configuration that is accepted, and its number of pages fits 32
-- bits.
pub check_limited_amount_lem :
    (raw accepted : Amount ℕ) (filename log_type : String)
    → check_limited_amount raw ≡ some accepted
    → (0 < get_limit_with_overrides accepted filename log_type)
      × (0 < get_module_page_count accepted filename log_type)
      × (get_module_page_count accepted filename log_type ≤ u32_max)
unfolding check_limited_amount get_limit_with_overrides get_module_page_count
check_limited_amount_lem raw accepted filename log_type e =
    let overrides : has_zero accepted.module_overrides ≡ false = ground arith in
    let types : has_zero accepted.log_type ≡ false = ground arith in
    elim (Option-cases (lookup filename accepted.module_overrides)) [
      | inr (n, found) ↦
          ground (arith, lookup-has_zero filename accepted.module_overrides n overrides found)
      | inl not_named ↦ elim (Option-cases (lookup log_type accepted.log_type)) [
        | inr (n, found) ↦ ground (arith, lookup-has_zero log_type accepted.log_type n types found)
        | inl not_typed ↦ ground arith
      ]
    ]

-- wasmer's `MemoryType`; pages are counted by a `u32`.
pub record MemoryType : Type 0 where
  pub minimum : ℕ
  pub maximum : Option ℕ
  pub shared : Bool

pub data MemoryError : Type 0 where
  generic : String → MemoryError

unfoldable pub adjust_memory : ℕ → MemoryType → MemoryType
adjust_memory limit requested = elim requested.maximum [
  | none ↦ record requested { maximum = some limit }
  | some _ ↦ requested
]

unfoldable pub validate_memory : ℕ → MemoryType → Result MemoryError (Unit {0})
validate_memory limit ty =
    if ltb limit ty.minimum
    then err (generic "Minimum exceeds the allowed memory limit")
    else elim ty.maximum [
      | some max ↦
          if ltb limit max then err (generic "Maximum exceeds the allowed memory limit") else ok tt
      | none ↦ err (generic "Maximum unset")
    ]

-- `create_host_memory` and `create_vm_memory`, with the call of the base tunables as a parameter.
unfoldable pub create_memory :
    {M : Type 0} → (MemoryType → Result MemoryError M) → ℕ → MemoryType → Result MemoryError M
create_memory base limit ty =
    let adjusted = adjust_memory limit ty in do validate_memory limit adjusted; base adjusted

-- The bounds of a memory are within the limit.
abbrev pub IsBounded : ℕ → MemoryType → Type 0
IsBounded limit ty = (ty.minimum ≤ limit) × elim ty.maximum [ none ↦ ⊥ | some max ↦ max ≤ limit ]

validate_memory-IsBounded :
    (limit : ℕ) (ty : MemoryType) → validate_memory limit ty ≡ ok tt → IsBounded limit ty
unfolding validate_memory
validate_memory-IsBounded limit ty e = elim (Option-cases ty.maximum) [
  | inl unset ↦ absurd (ground arith)
  | inr (max, set) ↦ rw set (ground arith, ground arith)
]

IsBounded-validate_memory :
    (limit : ℕ) (ty : MemoryType) → IsBounded limit ty → validate_memory limit ty ≡ ok tt
unfolding validate_memory
IsBounded-validate_memory limit ty h = elim (Option-cases ty.maximum) [
  | inl unset ↦ absurd (rw unset at h.1)
  | inr (max, set) ↦ let le : max ≤ limit = rw set at h.1 in ground (arith, h.0)
]

-- The memory that is asked for, with the limit as its maximum where it gives none.
abbrev pub with_maximum : ℕ → MemoryType → MemoryType
with_maximum limit ty = record {
  minimum = ty.minimum;
  maximum = some (elim ty.maximum [ none ↦ limit | some max ↦ max ]);
  shared = ty.shared;
}

adjust_memory_lem : (limit : ℕ) (ty : MemoryType) → adjust_memory limit ty ≡ with_maximum limit ty
unfolding adjust_memory
adjust_memory_lem limit ty = elim (Option-cases ty.maximum) [
  | inl unset ↦ rw unset refl
  | inr (max, set) ↦ rw set refl
]

create_memory_adjusted :
    {M : Type 0} (base : MemoryType → Result MemoryError M) (limit : ℕ) (ty : MemoryType)
    → ((m : M)
        → create_memory base limit ty ≡ ok m
        → IsBounded limit (adjust_memory limit ty) × (base (adjust_memory limit ty) ≡ ok m))
      × (IsBounded limit (adjust_memory limit ty)
          → create_memory base limit ty ≡ base (adjust_memory limit ty))
unfolding create_memory
create_memory_adjusted base limit ty =
    let adjusted = adjust_memory limit ty in
    (
      λ m e. elim (Result-cases (validate_memory limit adjusted)) [
        | inl (u, valid) ↦ (validate_memory-IsBounded limit adjusted valid, rw valid at e)
        | inr (x, refused) ↦ absurd (ground arith)
      ],
      λ h. rw (IsBounded-validate_memory limit adjusted h) refl,
    )

-- A memory is created where its bounds, the limit standing for a maximum that is not given, are
-- within the limit, and only there: the base is then asked for a memory with these bounds.
pub create_memory_lem :
    {M : Type 0} (base : MemoryType → Result MemoryError M) (limit : ℕ) (ty : MemoryType)
    → ((m : M)
        → create_memory base limit ty ≡ ok m
        → IsBounded limit (with_maximum limit ty) × (base (with_maximum limit ty) ≡ ok m))
      × (IsBounded limit (with_maximum limit ty)
          → create_memory base limit ty ≡ base (with_maximum limit ty))
create_memory_lem {M} base limit ty =
    subst
      (λ (asked : MemoryType).
        ((m : M) → create_memory base limit ty ≡ ok m → IsBounded limit asked × (base asked ≡ ok m))
        × (IsBounded limit asked → create_memory base limit ty ≡ base asked))
      (adjust_memory_lem limit ty) (create_memory_adjusted base limit ty)
