-- ===== src/Conversation/Worker.antt =====
-- services/async_worker/main.py and forwarder.py: a request whose mandate is accepted goes on to the
-- merchant agent.
use merchant_ai_agent.Base.{ℕ, String, Bool, true, Option, List, [], ◌∷◌, ◌++◌}
use merchant_ai_agent.Base.Results.{Result, ok, err}
use merchant_ai_agent.Mandate.{MandateClaims, Settings, Reason, Codec, Verifier, verify_mandate}
use merchant_ai_agent.Conversation.{
  ConverseRequest, ConverseResponse, Answer, http_error, invalid_body, answered, session_of,
  merchant_of, failed_response,
}

-- The payload of `forward_to_agent`.
pub record Turn : Type 0 where
  pub consumer_agent_id : String
  pub session_id : String
  pub message : String
  pub mandate_verified : Bool
  pub merchant_id : Option String

-- The state of the mandate verifier, and the turns that were posted to the agent.
pub record Backend : Type 0 where
  pub verifier : Verifier
  pub posted : List Turn

-- The message of `MANDATE_INVALID_ERROR`.
abbrev pub mandate_invalid : String
mandate_invalid =
    "Please include a cryptographic signature issued by a trusted issuer to establish contact with the Merchant-AI agent."

unfoldable pub turn_of : String → ConverseRequest → Turn
unfolding merchant_of
turn_of session payload = record {
  consumer_agent_id = payload.consumer_agent_id;
  session_id = session;
  message = payload.message;
  mandate_verified = true;
  merchant_id = merchant_of payload.merchant_id;
}

unfoldable pub worker_reply : String → Answer → ConverseResponse
unfolding failed_response
worker_reply session (answered response) = response
worker_reply session (http_error text) =
    failed_response session "Unable to process this turn." "AGENT_UNAVAILABLE" text
worker_reply session (invalid_body text) =
    failed_response session "Unable to process this turn." "AGENT_RESPONSE_INVALID" text

-- The agent answers a turn by what was posted before.
module _ (agent : List Turn → Turn → Answer) where
  unfoldable pub after_verification :
      String
      → ConverseRequest
      → List Turn
      → Verifier × Result Reason MandateClaims
      → Backend × Answer
  unfolding worker_reply turn_of failed_response
  after_verification session payload posted (v, err reason) = (
    record { verifier = v; posted = posted },
    answered (failed_response session mandate_invalid "MANDATE_INVALID" mandate_invalid),
  )
  after_verification session payload posted (v, ok claims) =
      let turn = turn_of session payload in
      (
        record { verifier = v; posted = posted ++ turn ∷ [] },
        answered (worker_reply session (agent posted turn)),
      )

  -- `worker_converse`
  unfoldable pub worker_converse :
      Settings → Codec → String → ℕ → ConverseRequest → Backend → Backend × Answer
  unfolding after_verification session_of
  worker_converse cfg codec drawn now payload b =
      after_verification (session_of payload.session_id drawn) payload b.posted
        (verify_mandate cfg codec now payload.merchant_id payload.human_sign_mandate b.verifier)
