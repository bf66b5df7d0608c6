-- ===== src/Mandate/Tests.antt =====
-- Mandates at concrete times.
use merchant_ai_agent.Base.{
  ℕ, ◌+◌, ◌*◌, ◌≡◌, refl, false, none, some, List, [], ◌∷◌, str_eq, if◌then◌else◌, arith,
}
use merchant_ai_agent.Base.Int.{pos, ◌-ℤ◌}
use merchant_ai_agent.Base.Results.{ok, err}
use merchant_ai_agent.Uuid.{codes}
use merchant_ai_agent.Inventory.{cache_get}
use merchant_ai_agent.Mandate.{MandateClaims, Settings, Reason, Codec, Verifier, verify_mandate}
use merchant_ai_agent.Strings.{has_text}
use merchant_ai_agent.Mandate.Replay.{Call, verify_all, replay_refused, reaccepted_after_window}

abbrev claims : MandateClaims
claims = record { issuer = "issuer-a"; subject = "user"; issued_at = pos 1000; signature = "sig" }

polynomial : List ℕ → ℕ
polynomial [] = 0
polynomial (c ∷ cs) = c + 256 * polynomial cs

-- One token decodes to the claims above; a number for each text stands for its digest.
abbrev codec : Codec
codec = record {
  decode = λ token. if str_eq token "token" then some claims else none;
  digest = λ text. polynomial (codes text);
}

abbrev settings : Settings
settings = record {
  trusted_issuers = "issuer-a" ∷ [];
  allow_fallback = false;
  max_age_seconds = pos 300;
}

abbrev fresh_verifier : Verifier
fresh_verifier = record { issuer_cache = []; merchants = []; seen = []; failures = [] }

first_use : (verify_mandate settings codec 1000500 none "token" fresh_verifier).1 ≡ ok claims
unfolding verify_mandate has_text polynomial ◌-ℤ◌ cache_get
first_use = refl

abbrev second_use : Call
second_use = record { now = 1300499; merchant_id = none; token = "token" }

replay_refused_example :
    let w =
      verify_all settings codec
        (record second_use { now = 1000600 } ∷ [])
        (verify_mandate settings codec 1000500 none "token" fresh_verifier).0 in
    (reason : Reason) × ((verify_mandate settings codec 1300499 none "token" w).1 ≡ err reason)
replay_refused_example =
    replay_refused settings codec 1000500 none "token" fresh_verifier claims claims
      (record second_use { now = 1000600 } ∷ []) second_use first_use (omega arith, tt)
      (omega arith) refl refl

reaccepted_after_window_example :
    let w = (verify_mandate settings codec 1000500 none "token" fresh_verifier).0 in
    (verify_mandate settings codec 1300500 none "token" w).1 ≡ ok claims
reaccepted_after_window_example =
    reaccepted_after_window settings codec 1000500 "token" fresh_verifier claims refl refl first_use
