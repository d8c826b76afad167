-- ===== src/Webhook.antt =====
-- The webhook servers: the request handlers of runtime/plaid/src/bin/plaid.rs with their
-- configuration in runtime/plaid/src/config.rs. warp, the clock and the channels are parameters.
pub mod Body
pub mod Post
pub mod Get
pub mod Cached
pub mod Sent
mod Tests
use plaid.Base.{
  ℕ, ◌+◌, String, Bool, Option, none, some, List, [], ◌∷◌, ◌++◌, length, ltb, if◌then◌else◌,
}
use plaid.Base.Dict.{HashMap, insert}
use plaid.Guest.{Bytes}
use plaid.Message.{LogbacksAllowed}

pub data CachingMode : Type 0 where
  no_caching : CachingMode
  timed : ℕ → CachingMode
  use_persistent_response : Bool → CachingMode

pub data ResponseMode : Type 0 where
  facebook rule static : String → ResponseMode

pub record GetMode : Type 0 where
  pub caching_mode : CachingMode
  pub response_mode : ResponseMode

pub record WebhookConfig : Type 0 where
  pub log_type : String
  pub headers : List String
  pub max_body_size : ℕ
  pub get_mode : Option GetMode
  pub label : Option String
  pub logbacks_allowed : LogbacksAllowed

-- A request: `none` among the chunks is an error of the connection, and `header` is `HeaderMap::get`.
pub record HttpRequest : Type 0 where
  pub chunks : List (Option Bytes)
  pub header : String → Option Bytes
  pub query : HashMap String

-- The loop of `read_body_with_limit` that collects the buffers; `none` is an error.
unfoldable pub collect : ℕ → ℕ → List Bytes → List (Option Bytes) → Option (List Bytes)
collect max_size total buffers [] = some buffers
collect max_size total buffers (none ∷ rest) = none
collect max_size total buffers (some buf ∷ rest) =
    if ltb max_size (length buf + total)
    then none
    else collect max_size (total + length buf) (buffers ++ buf ∷ []) rest

-- The copy into one buffer.
unfoldable pub full_body : Bytes → List Bytes → Bytes
full_body body [] = body
full_body body (buffer ∷ rest) = full_body (body ++ buffer) rest

unfoldable pub read_body_with_limit : List (Option Bytes) → ℕ → Option Bytes
unfolding collect full_body
read_body_with_limit chunks max_size = elim (collect max_size 0 [] chunks) [
  | none ↦ none
  | some buffers ↦ some (full_body [] buffers)
]

-- The loop over the headers that a webhook forwards.
unfoldable pub forward : List String → (String → Option Bytes) → HashMap Bytes → HashMap Bytes
unfolding insert
forward [] header headers = headers
forward (requested ∷ rest) header headers = elim (header requested) [
  | none ↦ forward rest header headers
  | some value ↦ forward rest header (insert requested value headers)
]

-- The label of a webhook, or else its address.
abbrev pub label_of : WebhookConfig → String → String
label_of config webhook = elim config.label [ some label ↦ label | none ↦ webhook ]
