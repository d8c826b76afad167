-- ===== src/Apis/Network/Body.antt =====
-- The size of a response.
use mathlib.Core.List.{append_assoc, append-nil}
use plaid.Base.{
  ℕ, ◌+◌, ◌≤◌, ◌≡◌, ◌↔◌, refl, sym, ap, subst, ◌∙◌, Option, none, some, List, [], ◌∷◌, ◌++◌, length,
  arith, length-append, Option-cases, inl, inr,
}
use plaid.Base.Result.{ok}
use plaid.Base.Chunks.{joined}
use plaid.Guest.{Bytes}
use plaid.Apis.Network.Calls.{read_chunks}

-- Within the configured size, if there is one.
abbrev pub Fits : Option ℕ → ℕ → Type 0
Fits none n = Unit
Fits (some limit) n = n ≤ limit

joined-more :
    (chunk : Bytes) (chunks : List (Option Bytes)) (rest : Bytes)
    → joined chunks ≡ some rest
    → joined (some chunk ∷ chunks) ≡ some (chunk ++ rest)
unfolding joined
joined-more chunk chunks rest e = rw e

joined-cases :
    (chunk : Bytes) (chunks : List (Option Bytes)) (all : Bytes)
    → joined (some chunk ∷ chunks) ≡ some all
    → (rest : Bytes) × (joined chunks ≡ some rest) × (all ≡ chunk ++ rest)
unfolding joined
joined-cases chunk chunks all e = elim (Option-cases (joined chunks)) [
  | inl broken ↦ absurd (ground arith)
  | inr (rest, is) ↦ (rest, is, ground arith)
]

-- One turn of the loop, on a chunk that still fits.
step :
    (limit : Option ℕ) (total : ℕ) (body chunk : Bytes) (chunks : List (Option Bytes))
    → Fits limit (total + length chunk)
    → read_chunks limit total body (some chunk ∷ chunks)
      ≡ read_chunks limit (total + length chunk) (body ++ chunk) chunks
unfolding read_chunks
step none total body chunk chunks f = refl
step (some m) total body chunk chunks f = ground arith

-- A loop that goes on had a chunk that fits.
step-Fits :
    (limit : Option ℕ) (total : ℕ) (body chunk : Bytes) (chunks : List (Option Bytes)) (out : Bytes)
    → read_chunks limit total body (some chunk ∷ chunks) ≡ ok out
    → Fits limit (total + length chunk)
unfolding read_chunks
step-Fits none total body chunk chunks out e = tt
step-Fits (some m) total body chunk chunks out e = ground arith

Fits-le : (limit : Option ℕ) (n m : ℕ) → m ≤ n → Fits limit n → Fits limit m
Fits-le none n m h f = tt
Fits-le (some k) n m h f = omega arith

Fits-zero : (limit : Option ℕ) → Fits limit 0
Fits-zero none = tt
Fits-zero (some k) = omega arith

module _ (limit : Option ℕ) where
  sound :
      (total : ℕ) (body : Bytes) (chunks : List (Option Bytes)) (out : Bytes)
      → total ≡ length body
      → Fits limit total
      → read_chunks limit total body chunks ≡ ok out
      → (rest : Bytes) × (joined chunks ≡ some rest)
        × (out ≡ body ++ rest)
        × Fits limit (length out)
  unfolding read_chunks joined
  sound total body [] out t f e =
      let same : body ≡ out = cc in
      ([], refl, ground (arith, append-nil body), Fits-le limit total (length out) (ground arith) f)
  sound total body (none ∷ chunks) out t f e = cc
  sound total body (some chunk ∷ chunks) out t f e =
      let more = step-Fits limit total body chunk chunks out e in
      let (rest, is, whole, fits) =
        sound (total + length chunk) (body ++ chunk) chunks out
          (omega (arith, length-append body chunk)) more
          (sym (step limit total body chunk chunks more) ∙ e) in
      (chunk ++ rest, joined-more chunk chunks rest is, whole ∙ append_assoc body chunk rest, fits)

  complete :
      (total : ℕ) (body : Bytes) (chunks : List (Option Bytes)) (rest : Bytes)
      → total ≡ length body
      → joined chunks ≡ some rest
      → Fits limit (length (body ++ rest))
      → read_chunks limit total body chunks ≡ ok (body ++ rest)
  unfolding read_chunks joined
  complete total body [] rest t j f = ground (arith, append-nil body)
  complete total body (none ∷ chunks) rest t j f = cc
  complete total body (some chunk ∷ chunks) all t j f =
      let (rest, is, whole) = joined-cases chunk chunks all j in
      let same : body ++ all ≡ (body ++ chunk) ++ rest =
        ap (λ b. body ++ b) whole ∙ sym (append_assoc body chunk rest) in
      let fits : Fits limit (total + length chunk) =
        Fits-le limit (length (body ++ all)) (total + length chunk)
          (omega (arith, length-append body all, ap length whole, length-append chunk rest)) f in
      step limit total body chunk chunks fits
      ∙ complete (total + length chunk) (body ++ chunk) chunks rest
          (omega (arith, length-append body chunk)) is (subst (λ b. Fits limit (length b)) same f)
      ∙ ap ok (sym same)

-- A body is read if all its chunks arrive and their total size is within the limit, if there is one,
-- and then it is the chunks in their order; otherwise the call ends in an error.
pub read_chunks_iff :
    (limit : Option ℕ) (chunks : List (Option Bytes)) (out : Bytes)
    → (read_chunks limit 0 [] chunks ≡ ok out)
      ↔ ((joined chunks ≡ some out) × Fits limit (length out))
read_chunks_iff limit chunks out = (
  λ e.
      let (rest, is, whole, fits) = sound limit 0 [] chunks out refl (Fits-zero limit) e in
      (is ∙ ap some (sym whole), fits),
  λ h. complete limit 0 [] chunks out refl h.0 h.1,
)
