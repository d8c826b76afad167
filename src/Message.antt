-- ===== src/Message.antt =====
-- Log messages: runtime/plaid-stl/src/messages.rs, and `Message` of
-- runtime/plaid/src/executor/mod.rs.
use plaid.Base.{ℕ, String, Option, none, []}
use plaid.Base.Dict.{HashMap}
use plaid.Guest.{Bytes}

pub data Generator : Type 0 where
  github okta : Generator
  interval sqs web_socket_external : String → Generator

pub data LogSource : Type 0 where
  generator : Generator → LogSource
  webhook_post webhook_get logback : String → LogSource

-- How many logbacks the handling of a message may trigger.
pub data LogbacksAllowed : Type 0 where
  unlimited : LogbacksAllowed
  limited : ℕ → LogbacksAllowed

-- `response_sender` and `module` hold handles; a number stands for the one-shot channel, and a name
-- for the module.
pub record Message : Type 0 where
  pub id : String
  pub type_ : String
  pub content : Bytes
  pub headers : HashMap Bytes
  pub query_params : HashMap Bytes
  pub source : LogSource
  pub logbacks_allowed : LogbacksAllowed
  pub response_sender : Option ℕ
  pub module_name : Option String

-- `Message::new`; `id` is a fresh UUID.
unfoldable pub new : String → String → Bytes → LogSource → LogbacksAllowed → Message
new id type_ content source logbacks_allowed = record {
  id = id;
  type_ = type_;
  content = content;
  headers = [];
  query_params = [];
  source = source;
  logbacks_allowed = logbacks_allowed;
  response_sender = none;
  module_name = none;
}

-- `Message::create_duplicate`
unfoldable pub create_duplicate : Message → Message
create_duplicate m = record m { response_sender = none; module_name = none }

-- runtime/plaid/src/data/internal/mod.rs: `DelayedMessage`
pub record DelayedMessage : Type 0 where
  pub delay : ℕ
  pub message : Message
