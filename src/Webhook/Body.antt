-- ===== src/Webhook/Body.antt =====
-- Bodies of requests are read with a limit.
use plaid.Base.{
  ℕ, ◌+◌, ◌≤◌, ◌≡◌, ◌↔◌, refl, sym, ◌∙◌, Option, none, some, List, [], ◌∷◌, ◌++◌, length, arith,
}
use plaid.Base.Result.{Result, ok, err, to_option}
use plaid.Base.Chunks.{joined}
use plaid.Guest.{Bytes}
use plaid.Apis.Network.Calls.{read_chunks}
use plaid.Apis.Network.Body.{read_chunks_iff}
use plaid.Webhook.{collect, full_body, read_body_with_limit}

full_body-append :
    (body buf : Bytes) (buffers : List Bytes)
    → full_body body (buffers ++ buf ∷ []) ≡ full_body body buffers ++ buf
unfolding full_body
full_body-append body buf [] = refl
full_body-append body buf (b ∷ buffers) = full_body-append (body ++ b) buf buffers

abbrev copied : Option (List Bytes) → Option Bytes
copied none = none
copied (some buffers) = some (full_body [] buffers)

-- The loop reads what the one over responses reads that have a maximum size.
copied-collect :
    (max_size total : ℕ) (buffers : List Bytes) (chunks : List (Option Bytes))
    → copied (collect max_size total buffers chunks)
      ≡ to_option (read_chunks (some max_size) total (full_body [] buffers) chunks)
unfolding collect read_chunks
copied-collect max_size total buffers [] = refl
copied-collect max_size total buffers (none ∷ rest) = refl
copied-collect max_size total buffers (some buf ∷ rest) = ground (
  arith,
  copied-collect max_size (total + length buf) (buffers ++ buf ∷ []) rest,
  full_body-append [] buf buffers,
)

to_option-some :
    (r : Result plaid.Apis.ApiError Bytes) (b : Bytes) → (to_option r ≡ some b) ↔ (r ≡ ok b)
to_option-some (ok a) b = (λ e. cc, λ e. cc)
to_option-some (err e) b = (λ e. cc, λ e. cc)

-- A body is read exactly if all its chunks arrive and it is no longer than the limit, and then it is
-- the chunks in their order.
pub read_body_with_limit_iff :
    (chunks : List (Option Bytes)) (max_size : ℕ) (body : Bytes)
    → (read_body_with_limit chunks max_size ≡ some body)
      ↔ ((joined chunks ≡ some body) × (length body ≤ max_size))
unfolding read_body_with_limit full_body
read_body_with_limit_iff chunks max_size body =
    let same : read_body_with_limit chunks max_size
        ≡ to_option (read_chunks (some max_size) 0 [] chunks) =
      copied-collect max_size 0 [] chunks in
    let r = read_chunks (some max_size) 0 [] chunks in
    (
      λ e.
          (read_chunks_iff (some max_size) chunks body).0
            ((to_option-some r body).0 (sym same ∙ e)),
      λ h. same ∙ (to_option-some r body).1 ((read_chunks_iff (some max_size) chunks body).1 h),
    )
