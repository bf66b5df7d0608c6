-- ===== src/PaymentLog/Ingress.antt =====
-- How a webhook reaches the queue: services/payment_log_service/router.py and ingress_forwarder.py, and
-- services/async_worker/webhook_router.py and webhook_verifier.py. HMAC-SHA-256 is a parameter. A body
-- is a text, so that decoding it loses nothing.
use merchant_ai_agent.Base.{
  String, Bool, false, not, ◌&&◌, Option, none, some, List, [], ◌∷◌, ◌++◌, map, any, select, str_eq,
  if◌then◌else◌,
}
use merchant_ai_agent.Strings.{strip_text}
use merchant_ai_agent.Auth.{lower_text}
use merchant_ai_agent.PaymentLog.Consumer.{Message, Consumer, Event, consume}

pub record Post : Type 0 where
  pub raw_body : String
  pub headers : List (String × String)

-- What works while a post is served: the call of the worker, its producer, and the broker.
pub record Links : Type 0 where
  pub worker_answers : Bool
  pub has_producer : Bool
  pub broker_accepts : Bool

pub data Reply : Type 0 where
  enqueued unauthorized server_error : Reply

-- `_build_forward_headers`
unfoldable pub is_forwarded : String × String → Bool
unfolding lower_text any
is_forwarded (key, value) =
    not (any (str_eq (lower_text key)) ("host" ∷ "content-length" ∷ "connection" ∷ []))

unfoldable pub build_forward_headers : List (String × String) → List (String × String)
unfolding select is_forwarded
build_forward_headers = select is_forwarded

-- `headers.get("X-Razorpay-Signature")`, in any case.
unfoldable pub signature_header : List (String × String) → Option String
unfolding lower_text
signature_header [] = none
signature_header ((key, value) ∷ headers) =
    if str_eq (lower_text key) "x-razorpay-signature" then some value else signature_header headers

module _ (hmac : String → String → String) (secret : String) where
  -- `verify_razorpay_signature`
  unfoldable pub verify_razorpay_signature : String → Option String → Bool
  unfolding strip_text
  verify_razorpay_signature body none = false
  verify_razorpay_signature body (some signature) =
      not (str_eq signature "")
      && (not (str_eq secret "") && str_eq (hmac secret body) (strip_text signature))

  -- `verify_and_enqueue_razorpay_webhook`, on the bodies in the topic.
  unfoldable pub verify_and_enqueue : Links → Post → List String → List String × Reply
  unfolding verify_razorpay_signature signature_header
  verify_and_enqueue links post topic =
      if not links.has_producer
      then (topic, server_error)
      else if not (verify_razorpay_signature post.raw_body (signature_header post.headers))
      then (topic, unauthorized)
      else if links.broker_accepts
      then (topic ++ post.raw_body ∷ [], enqueued)
      else (topic, server_error)

  -- `ingress_razorpay_webhook`: the worker's answer, or a failure if the call raises.
  unfoldable pub ingress_razorpay_webhook : Links → Post → List String → List String × Reply
  unfolding verify_and_enqueue build_forward_headers
  ingress_razorpay_webhook links post topic =
      if links.worker_answers
      then verify_and_enqueue links (record post { headers = build_forward_headers post.headers })
          topic
      else (topic, server_error)

-- The topic with its consumer.
pub record Pipeline : Type 0 where
  pub topic : List String
  pub consumer : Consumer

pub data Step : Type 0 where
  post : Links → Post → Step
  consumes : Event → Step

module _ (hmac : String → String → String) (secret : String) (decode : String → Message) where
  unfoldable pub step : Step → Pipeline → Pipeline
  unfolding ingress_razorpay_webhook consume
  step (post links p) pipeline = record pipeline {
    topic = (ingress_razorpay_webhook hmac secret links p pipeline.topic).0;
  }
  step (consumes event) pipeline = record pipeline {
    consumer = consume (map decode pipeline.topic) event pipeline.consumer;
  }

  -- The steps, the latest first.
  unfoldable pub run : List Step → Pipeline → Pipeline
  unfolding step
  run [] pipeline = pipeline
  run (s ∷ earlier) pipeline = step s (run earlier pipeline)
