-- ===== src/Stl/Delivery.antt =====
-- How a message reaches the `main` of a rule: the host functions of
-- runtime/plaid/src/functions/message.rs with the entry points of runtime/plaid-stl/src/lib.rs.
use plaid.Base.{
  ℕ, ◌+◌, ◌*◌, ◌%◌, ◌/◌, ◌^◌, ◌≤◌, ◌<◌, ◌≡◌, refl, sym, ap, ◌∙◌, String, true, false, Option, none,
  some, [], ◌∷◌, ◌++◌, length, length-append, arith, ◌==◌, inl, inr, List-cases, subst, ltb,
  Option-cases,
}
use plaid.Base.Int.{ℤ, pos, negsuc, i32_half}
use plaid.Base.Result.{Result, ok}
use plaid.Guest.{Bytes, write_or_code, get_memory}
use plaid.Guest.Laws.{write_or_code_protocol, write_or_code-zero}
use plaid.Message.{LogSource}
use plaid.Env.{Platform, Env}
use plaid.Functions.Message.{Encoding, give, rule_data, to_le_bytes, fetch_data_and_source}
use plaid.Stl.{GuestCode}
use plaid.Stl.Entrypoint.{
  skip, first, from_le_bytes, split_rule_data, fill, filled, fetch_buffer, returned_code,
  entrypoint_with_source,
}

-- What wasmer and the allocator of a guest give: a new buffer lies in the memory, what is written to
-- all of it can be read there, and an empty buffer holds nothing.
pub record IsGuest (w : Platform) (c : GuestCode w) : Type 0 where
  pub alloc_slice :
      (view : w.guest.View) (n : ℕ) → w.guest.slice (c.alloc view n).1 (c.alloc view n).0 n ≡ true
  pub alloc_write :
      (view : w.guest.View) (bytes : Bytes)
      → let (ptr, new) = c.alloc view (length bytes) in
        (after : w.guest.View) × (w.guest.write_slice new ptr bytes ≡ some after)
        × (c.peek after ptr (length bytes) ≡ bytes)
  pub peek_none : (view : w.guest.View) (ptr : ℕ) → c.peek view ptr 0 ≡ []

first-append : (a b : Bytes) → first (length a) (a ++ b) ≡ a
unfolding first
first-append [] b = refl
first-append (x ∷ a) b = ap (◌∷◌ x) (first-append a b)

skip-append : (a b : Bytes) → skip (length a) (a ++ b) ≡ b
unfolding skip
skip-append [] b = refl
skip-append (x ∷ a) b = skip-append a b

-- The four bytes of a length are read back.
from_to_le_bytes :
    (n : ℕ) (rest : Bytes) → n < 2 ^ 32 → from_le_bytes (to_le_bytes n ++ rest) ≡ some (n, rest)
unfolding from_le_bytes to_le_bytes
from_to_le_bytes n rest h =
    let same : n % 256
          + n / 2 ^ 8 % 256 * 2 ^ 8
          + n / 2 ^ 16 % 256 * 2 ^ 16
          + n / 2 ^ 24 % 256 * 2 ^ 24
        ≡ n =
      omega arith in
    ap (λ t. some (t, rest)) same

read-rule_data :
    (log source : Bytes)
    → length log < 2 ^ 32
    → from_le_bytes (rule_data log source) ≡ some (length log, log ++ source)
unfolding rule_data
read-rule_data log source h =
    let n = length log % 2 ^ 32 in
    let same : n ≡ length log = omega arith in
    from_to_le_bytes n (log ++ source) (omega arith) ∙ ap (λ t. some (t, log ++ source)) same

length-rule_data :
    (log source : Bytes) → length (rule_data log source) ≡ 4 + (length log + length source)
unfolding rule_data to_le_bytes
length-rule_data log source = omega (arith, length-append log source)

-- What the host joins, the guest splits.
pub split-rule_data :
    (log source : Bytes)
    → length log < 2 ^ 32
    → split_rule_data (rule_data log source) ≡ some (log, source)
unfolding split_rule_data
split-rule_data log source h =
    let within : ltb (length (log ++ source)) (length log) ≡ false =
      ground (arith, length-append log source) in
    rw (
      split_rule_data,
      read-rule_data log source h,
      within,
      first-append log source,
      skip-append log source,
    )

module _ (w : Platform) where
  -- How a rule ends that is called with the text of a log, if it is one.
  abbrev pub run_with :
      (String → Env w → Result (ℕ × ℕ) (Unit {0}) × Env w) → Env w → Option String → ℤ × Env w
  run_with main env none = (negsuc 1, env)
  run_with main env (some text) = returned_code w (main text env)

module _ (w : Platform) (c : GuestCode w) (laws : IsGuest w c) where
  given :
      (env : Env w) (view after : w.guest.View) (bytes : Bytes) (buf size n : ℕ)
      → write_or_code w.guest view bytes buf size ≡ (pos n, after)
      → give w env view bytes buf size ≡ (pos n, record env { memory = some after })
  unfolding give
  given env view after bytes buf size n e = rw e

  -- A host function that gives some bytes, where the guest has a memory, fills a buffer with them.
  fetch_buffer-give :
      (host : ℕ → ℕ → Env w → ℤ × Env w) (least : ℕ) (small smaller : ℤ → ℤ) (env : Env w)
      (view : w.guest.View) (bytes : Bytes)
      → ((v : w.guest.View) (buf size : ℕ)
          → host buf size (record env { memory = some v })
            ≡ give w (record env { memory = some v }) v bytes buf size)
      → least ≤ length bytes
      → length bytes < i32_half
      → (after : w.guest.View) × (fetch_buffer w c host least small smaller
            (record env { memory = some view })
          ≡ (ok bytes, record env { memory = some after }))
  unfolding fetch_buffer fill filled
  fetch_buffer-give host least small smaller env view bytes gives enough fits =
      let n = length bytes in
      let e = λ (v : w.guest.View). record env { memory = some v } in
      let one : host c.dangling 0 (e view) ≡ (pos n, e view) =
        gives view c.dangling 0
        ∙ given (e view) view view bytes c.dangling 0 n
            (write_or_code-zero w.guest view bytes c.dangling fits) in
      let big : ltb n least ≡ false = ground arith in
      let equal : n == n ≡ true = ground arith in
      let (ptr, new) = c.alloc view n in
      let into = λ (v : w.guest.View). filled w c least smaller n ptr (pos n, e v) in
      let kept : (v : w.guest.View) → into v ≡ (ok (c.peek v ptr n), e v) =
        λ v. rw (filled, big, equal) in
      elim (List-cases bytes) [
        | inl none_at ↦
            let no_bytes : n ≡ 0 = ap length none_at in
            let two : host ptr n (e new) ≡ (pos n, e new) =
              gives new ptr n
              ∙ given (e new) new new bytes ptr n n (
                  subst (λ k. write_or_code w.guest new bytes ptr k ≡ (pos n, new)) (sym no_bytes)
                    (write_or_code-zero w.guest new bytes ptr fits)) in
            let read : c.peek new ptr n ≡ bytes =
              ap (c.peek new ptr) no_bytes ∙ laws.peek_none new ptr ∙ sym none_at in
            (new, rw (fetch_buffer, one, fill, big, two) (kept new ∙ ap (λ b. (ok b, e new)) read))
        | inr (x, rest, is) ↦
            let (after, written, read) = laws.alloc_write view bytes in
            let two : host ptr n (e new) ≡ (pos n, e after) =
              gives new ptr n
              ∙ given (e new) new after bytes ptr n n
                  (write_or_code_protocol w.guest new bytes ptr after (omega (arith, ap length is))
                    fits (laws.alloc_slice view n) written).1 in
            (
              after,
              rw (fetch_buffer, one, fill, big, two) (kept after ∙ ap (λ b. (ok b, e after)) read),
            )
      ]

  fetch-gives :
      (enc : Encoding) (env : Env w) (src : Bytes) (v : w.guest.View) (buf size : ℕ)
      → enc.source_to_vec env.message.source ≡ some src
      → fetch_data_and_source w enc (record env { memory = some v }) buf size
        ≡ give w (record env { memory = some v }) v (rule_data env.message.content src) buf size
  unfolding fetch_data_and_source get_memory
  fetch-gives enc env src v buf size e = rw e

  -- A rule is run on the message of its environment: `main` is called with the content of the
  -- message, if this is UTF-8, and with its source, in an environment that differs in the memory of
  -- the guest only; a content that is not UTF-8 gives the code -2, and `main` is not called. The
  -- guest has a memory, the source is serialised and read back, and the two with the length of the
  -- content take less than 2^31 bytes.
  pub entrypoint_with_source_lem :
      (enc : Encoding) (env : Env w) (view : w.guest.View) (src : Bytes)
      (main : String → LogSource → Env w → Result (ℕ × ℕ) (Unit {0}) × Env w)
      → enc.source_to_vec env.message.source ≡ some src
      → enc.source_from_slice src ≡ some env.message.source
      → 4 + (length env.message.content + length src) < i32_half
      → (after : w.guest.View) × (entrypoint_with_source w c enc main
            (record env { memory = some view })
          ≡ some (
              run_with w
                (λ text. main text env.message.source)
                (record env { memory = some after })
                (enc.from_utf8 env.message.content)))
  unfolding entrypoint_with_source
  entrypoint_with_source_lem enc env view src main to from fits =
      let log = env.message.content in
      let bytes = rule_data log src in
      let size = length-rule_data log src in
      let (after, fetched) =
        fetch_buffer-give (λ buf size e. fetch_data_and_source w enc e buf size) 4 (λ n. negsuc 2)
          (λ n. negsuc 3) env view bytes (λ v buf size. fetch-gives enc env src v buf size to)
          (omega (arith, size)) (omega (arith, size)) in
      let split : split_rule_data bytes ≡ some (log, src) = split-rule_data log src (omega arith) in
      (
        after,
        elim (Option-cases (enc.from_utf8 log)) [
          | inl e ↦ rw (entrypoint_with_source, fetched, split, e, fetched)
          | inr (text, e) ↦ rw (entrypoint_with_source, fetched, split, e, from, fetched)
        ],
      )
