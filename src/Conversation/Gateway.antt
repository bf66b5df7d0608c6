-- ===== src/Conversation/Gateway.antt =====
-- services/gateway/routers/converse.py: the limit on the rate of a consumer agent, and the hand-over
-- of a request to the async worker. Times are in milliseconds.
use merchant_ai_agent.Base.{
  ℕ, ◌+◌, String, Bool, true, false, some, List, [], ◌∷◌, ◌++◌, str_eq, if◌then◌else◌, ltb, leb,
  length,
}
use merchant_ai_agent.Conversation.{
  ConverseRequest, ConverseResponse, Answer, http_error, invalid_body, answered, session_of,
  merchant_of, failed_response,
}

abbrev pub window : ℕ
window = 60000

-- `_rate_limit_buckets`
abbrev pub Buckets : Type 0
Buckets = List (String × List ℕ)

-- A bucket that is not there is empty.
unfoldable pub bucket_of : String → Buckets → List ℕ
bucket_of agent [] = []
bucket_of agent ((a, bucket) ∷ buckets) = if str_eq a agent then bucket else bucket_of agent buckets

unfoldable pub put_bucket : String → List ℕ → Buckets → Buckets
put_bucket agent bucket [] = (agent, bucket) ∷ []
put_bucket agent bucket ((a, old) ∷ buckets) =
    if str_eq a agent then (a, bucket) ∷ buckets else (a, old) ∷ put_bucket agent bucket buckets

-- `while bucket and bucket[0] < window_start: bucket.popleft()`
unfoldable pub drop_old : ℕ → List ℕ → List ℕ
drop_old now [] = []
drop_old now (t ∷ bucket) =
    let rest = drop_old now bucket in if ltb (t + window) now then rest else t ∷ bucket

unfoldable pub within_limit : String → ℕ → ℕ → List ℕ → Buckets → Buckets × Bool
unfolding put_bucket
within_limit agent limit now bucket buckets =
    if leb limit (length bucket)
    then (put_bucket agent bucket buckets, true)
    else (put_bucket agent (bucket ++ now ∷ []) buckets, false)

-- `_is_rate_limited` at the time `now`: the buckets afterwards, and the answer.
unfoldable pub is_rate_limited : String → ℕ → ℕ → Buckets → Buckets × Bool
unfolding within_limit bucket_of drop_old
is_rate_limited agent limit now buckets =
    within_limit agent limit now (drop_old now (bucket_of agent buckets)) buckets

-- What the worker's answer becomes.
unfoldable pub gateway_reply : String → Answer → ConverseResponse
unfolding failed_response
gateway_reply session (answered response) = response
gateway_reply session (http_error text) =
    failed_response session "Unable to process this turn." "WORKER_UNAVAILABLE" text
gateway_reply session (invalid_body text) =
    failed_response session "Unable to process this turn." "WORKER_RESPONSE_INVALID" text

-- `forward_payload`
unfoldable pub forward_payload : String → ConverseRequest → ConverseRequest
unfolding merchant_of
forward_payload session payload = record payload {
  session_id = some session;
  merchant_id = merchant_of payload.merchant_id;
}

-- A worker with a state `W` of its own.
module _ {W : Type 0} (worker : ConverseRequest → W → W × Answer) where
  unfoldable pub admit :
      String → ConverseRequest → Buckets × Bool → W → Buckets × W × ConverseResponse
  unfolding gateway_reply forward_payload failed_response
  admit session payload (buckets, true) w = (
    buckets,
    w,
    failed_response session "Rate limit exceeded." "RATE_LIMITED"
        "Rate limit exceeded. Try again in a minute.",
  )
  admit session payload (buckets, false) w =
      let (w', answer) = worker (forward_payload session payload) w in
      (buckets, w', gateway_reply session answer)

  -- `converse`
  unfoldable pub converse :
      ℕ → String → ℕ → ConverseRequest → Buckets → W → Buckets × W × ConverseResponse
  unfolding admit is_rate_limited session_of
  converse limit drawn now payload buckets w =
      admit (session_of payload.session_id drawn) payload
        (is_rate_limited payload.consumer_agent_id limit now buckets) w
