-- ===== src/Conversation/Tests.antt =====
-- The gateway and the worker at concrete requests.
use merchant_ai_agent.Base.{
  ℕ, ◌+◌, ◌*◌, ◌≤◌, ◌≡◌, ◌⊎◌, refl, true, false, none, some, List, [], ◌∷◌, str_eq, if◌then◌else◌,
  arith,
}
use merchant_ai_agent.Base.Int.{pos, ◌-ℤ◌}
use merchant_ai_agent.Uuid.{codes}
use merchant_ai_agent.Mandate.{MandateClaims, Settings, Codec, verify_mandate}
use merchant_ai_agent.Inventory.{cache_get}
use merchant_ai_agent.Strings.{has_text}
use merchant_ai_agent.Conversation.{ConverseRequest, ConverseResponse, Answer, http_error}
use merchant_ai_agent.Conversation.Gateway.{Buckets}
use merchant_ai_agent.Conversation.Worker.{Turn, Backend}
use merchant_ai_agent.Conversation.Rate.{
  Arrival, times_of, in_minute, arrive_all, open_gate, arrive_all-IsLimited,
}
use merchant_ai_agent.Conversation.Admitted.{
  gateway_and_worker, Served, Refused, MayProceed, posted_iff_MayProceed,
}

abbrev three : List Arrival
three =
    record { agent = "a"; now = 5 }
    ∷ record { agent = "a"; now = 6 }
    ∷ record { agent = "a"; now = 7 }
    ∷ []

-- With a limit of two the third request of the minute is refused.
third_refused : times_of "a" (arrive_all 2 three open_gate).admitted ≡ 5 ∷ 6 ∷ []
unfolding times_of arrive_all
third_refused = refl

arrive_all-IsLimited_example :
    in_minute 5 (times_of "a" (arrive_all 2 three open_gate).admitted) ≤ 2
arrive_all-IsLimited_example = arrive_all-IsLimited "a" 2 three (omega arith) 5

abbrev claims : MandateClaims
claims = record { issuer = "issuer-a"; subject = "user"; issued_at = pos 1000; signature = "sig" }

polynomial : List ℕ → ℕ
polynomial [] = 0
polynomial (c ∷ cs) = c + 256 * polynomial cs

abbrev codec : Codec
codec = record {
  decode = λ token. if str_eq token "token" then some claims else none;
  digest = λ text. polynomial (codes text);
}

abbrev settings : Settings
settings = record {
  trusted_issuers = "issuer-a" ∷ [];
  allow_fallback = false;
  max_age_seconds = pos 300;
}

abbrev silent_agent : List Turn → Turn → Answer
silent_agent posted turn = http_error "no route"

abbrev backend : Backend
backend = record {
  verifier = record { issuer_cache = []; merchants = []; seen = []; failures = [] };
  posted = [];
}

abbrev greeting : ConverseRequest
greeting = record {
  consumer_agent_id = "a";
  merchant_id = none;
  session_id = none;
  message = "Two litres of milk";
  human_sign_mandate = "token";
}

abbrev after_greeting : Buckets × Backend × ConverseResponse
after_greeting = gateway_and_worker silent_agent settings codec "s" 1000500 60 greeting [] backend

posted_iff_MayProceed_example :
    (MayProceed silent_agent settings codec "s" 1000500 60 greeting [] backend
      × Served silent_agent settings codec "s" 1000500 greeting backend after_greeting)
    ⊎ ((¬ MayProceed silent_agent settings codec "s" 1000500 60 greeting [] backend)
        × Refused silent_agent settings codec "s" 1000500 backend after_greeting)
posted_iff_MayProceed_example =
    posted_iff_MayProceed silent_agent settings codec "s" 1000500 60 greeting [] backend

-- At this request the turn is posted.
greeting_posted :
    (gateway_and_worker silent_agent settings codec "s" 1000500 60 greeting [] backend).1.posted
    ≡ record {
      consumer_agent_id = "a";
      session_id = "s";
      message = "Two litres of milk";
      mandate_verified = true;
      merchant_id = none;
    }
      ∷ []
unfolding gateway_and_worker verify_mandate has_text polynomial ◌-ℤ◌ cache_get
greeting_posted = refl
