-- ===== src/Conversation.antt =====
-- The requests and replies of a conversation, shared/schemas/conversation.py, and what an HTTP call of
-- one service by another comes back with.
pub mod Gateway
pub mod Worker
pub mod Rate
pub mod Admitted
mod Tests
use merchant_ai_agent.Base.{String, Bool, Option, none, some, List, [], str_eq, if◌then◌else◌}
use merchant_ai_agent.Invoice.Schema.{Invoice}
use merchant_ai_agent.Agent.Lookup.{Suggestion}

pub data ConversationStatus : Type 0 where
  awaiting_fields awaiting_confirmation validated invoiced failed : ConversationStatus

pub record ConverseRequest : Type 0 where
  pub consumer_agent_id : String
  pub merchant_id : Option String
  pub session_id : Option String
  pub message : String
  pub human_sign_mandate : String

pub record ConverseError : Type 0 where
  pub code : String
  pub message : String

pub record ConverseResponse : Type 0 where
  pub session_id : String
  pub status : ConversationStatus
  pub reply : String
  pub missing_fields : List String
  pub catalog_suggestions : List Suggestion
  pub invoice : Option Invoice
  pub error : Option ConverseError

-- `httpx.HTTPError`, a body that is no `ConverseResponse`, or a response.
pub data Answer : Type 0 where
  http_error invalid_body : String → Answer
  answered : ConverseResponse → Answer

-- `payload.session_id or str(uuid4())`, with the id that is drawn.
unfoldable pub session_of : Option String → String → String
session_of none drawn = drawn
session_of (some id) drawn = if str_eq id "" then drawn else id

-- `if payload.merchant_id:`
unfoldable pub merchant_of : Option String → Option String
merchant_of none = none
merchant_of (some id) = if str_eq id "" then none else some id

-- The response with which the gateway and the worker report a failure.
unfoldable pub failed_response : String → String → String → String → ConverseResponse
failed_response session reply code message = record {
  session_id = session;
  status = failed;
  reply = reply;
  missing_fields = [];
  catalog_suggestions = [];
  invoice = none;
  error = some (record { code = code; message = message });
}
