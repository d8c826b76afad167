-- ===== src/Stl/Entrypoint.antt =====
-- The entry points of rules: the macros of runtime/plaid-stl/src/lib.rs. `none` is a panic. The
-- function `main` of a rule is a parameter; where it fails, the text of its error lies at an address
-- with a length.
use plaid.Base.{
  ℕ, zero, suc, ◌+◌, ◌*◌, ◌^◌, String, Option, none, some, [], ◌∷◌, length, ltb, ◌==◌,
  if◌then◌else◌,
}
use plaid.Base.Int.{ℤ, pos, negsuc}
use plaid.Base.Result.{Result, ok, err}
use plaid.Guest.{Bytes}
use plaid.Message.{LogSource}
use plaid.Env.{Platform, Env}
use plaid.Functions.Message.{Encoding, fetch_data, fetch_data_and_source, set_error_context}
use plaid.Stl.{GuestCode, alloc_in, peek_in}

-- `&buffer[n..]` and `&buffer[..n]`, where `n` is within the buffer
unfoldable pub skip : ℕ → Bytes → Bytes
skip zero b = b
skip (suc n) [] = []
skip (suc n) (x ∷ b) = skip n b

unfoldable pub first : ℕ → Bytes → Bytes
first zero b = []
first (suc n) [] = []
first (suc n) (x ∷ b) = x ∷ first n b

-- `u32::from_le_bytes(buffer[0..4])` and the rest of the buffer; a shorter one panics.
unfoldable pub from_le_bytes : Bytes → Option (ℕ × Bytes)
from_le_bytes (a ∷ b ∷ c ∷ d ∷ rest) = some (a + b * 2 ^ 8 + c * 2 ^ 16 + d * 2 ^ 24, rest)
from_le_bytes _ = none

-- The log and the source in a buffer.
unfoldable pub split_rule_data : Bytes → Option (Bytes × Bytes)
split_rule_data buffer = elim (from_le_bytes buffer) [
  | none ↦ none
  | some (log_length, rest) ↦
      if ltb (length rest) log_length
      then none
      else some (first log_length rest, skip log_length rest)
]

module _ (w : Platform) where
  -- `match main(...)`
  unfoldable pub returned_code : Result (ℕ × ℕ) (Unit {0}) × Env w → ℤ × Env w
  unfolding set_error_context
  returned_code (ok _, env) = (pos 0, env)
  returned_code (err (text, text_len), env) = (pos 1, set_error_context w env text text_len)

module _ (w : Platform) (c : GuestCode w) where
  -- What the second call left: its count has to be the size of the buffer.
  unfoldable pub filled : ℕ → (ℤ → ℤ) → ℕ → ℕ → ℤ × Env w → Result ℤ Bytes × Env w
  unfolding peek_in
  filled least smaller size ptr (negsuc n, env) = (err (smaller (negsuc n)), env)
  filled least smaller size ptr (pos copied, env) =
      if ltb copied least
      then (err (smaller (pos copied)), env)
      else if copied == size
      then (ok (peek_in w c env ptr size), env)
      else (err (negsuc 0), env)

  -- The second call, into a buffer of the size that the first one returned.
  unfoldable pub fill :
      (ℕ → ℕ → Env w → ℤ × Env w) → ℕ → (ℤ → ℤ) → (ℤ → ℤ) → ℤ × Env w → Result ℤ Bytes × Env w
  unfolding alloc_in
  fill host least small smaller (negsuc n, env) = (err (small (negsuc n)), env)
  fill host least small smaller (pos size, env) =
      if ltb size least
      then (err (small (pos size)), env)
      else (let (ptr, env') = alloc_in w c env size in
          filled least smaller size ptr (host ptr size env'))

  -- A buffer that a host function fills in two calls, or the code with which the entry point
  -- returns: `small` and `smaller` are those of a first and a second call that return less than
  -- `least`.
  unfoldable pub fetch_buffer :
      (ℕ → ℕ → Env w → ℤ × Env w) → ℕ → (ℤ → ℤ) → (ℤ → ℤ) → Env w → Result ℤ Bytes × Env w
  fetch_buffer host least small smaller env = fill host least small smaller (host c.dangling 0 env)

  module _ (enc : Encoding) where
    unfoldable pub entrypoint :
        (String → Env w → Result (ℕ × ℕ) (Unit {0}) × Env w) → Env w → ℤ × Env w
    entrypoint main env =
        let (fetched, env') =
          fetch_buffer (λ buf size e. fetch_data w e buf size) 0 (λ n. n) (λ n. n) env in
        elim fetched [
          | err code ↦ (code, env')
          | ok buffer ↦ elim (enc.from_utf8 buffer) [
            | none ↦ (negsuc 1, env')
            | some log ↦ returned_code w (main log env')
          ]
        ]

    unfoldable pub entrypoint_with_source :
        (String → LogSource → Env w → Result (ℕ × ℕ) (Unit {0}) × Env w)
        → Env w
        → Option (ℤ × Env w)
    entrypoint_with_source main env =
        let (fetched, env') =
          fetch_buffer (λ buf size e. fetch_data_and_source w enc e buf size) 4 (λ n. negsuc 2)
            (λ n. negsuc 3) env in
        elim fetched [
          | err code ↦ some (code, env')
          | ok buffer ↦ elim (split_rule_data buffer) [
            | none ↦ none
            | some (log, source) ↦ elim (enc.from_utf8 log) [
              | none ↦ some (negsuc 1, env')
              | some text ↦ elim (enc.source_from_slice source) [
                | none ↦ some (negsuc 1, env')
                | some log_source ↦ some (returned_code w (main text log_source env'))
              ]
            ]
          ]
        ]

    -- The log stays a vector.
    unfoldable pub entrypoint_vec_with_source :
        (Bytes → LogSource → Env w → Result (ℕ × ℕ) (Unit {0}) × Env w) → Env w → Option (ℤ × Env w)
    entrypoint_vec_with_source main env =
        let (fetched, env') =
          fetch_buffer (λ buf size e. fetch_data_and_source w enc e buf size) 4 (λ n. n) (λ n. n)
            env in
        elim fetched [
          | err code ↦ some (code, env')
          | ok buffer ↦ elim (split_rule_data buffer) [
            | none ↦ none
            | some (log, source) ↦ elim (enc.source_from_slice source) [
              | none ↦ some (negsuc 1, env')
              | some log_source ↦ some (returned_code w (main log log_source env'))
            ]
          ]
        ]
