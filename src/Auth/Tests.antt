-- ===== src/Auth/Tests.antt =====
-- A merchant who signs up, logs in and changes the issuers.
use Prim.Native.String as Text
use merchant_ai_agent.Base.{
  arith, map, ◌≡◌, refl, String, Option, none, some, List, [], ◌∷◌, str_eq, eq_refl,
}
use merchant_ai_agent.Base.Results.{ok}
use merchant_ai_agent.Merchant.Dict.{get}
use merchant_ai_agent.Merchant.{Merchant, both_written, none_written, merchant_by_id}
use merchant_ai_agent.Uuid.{parse_uuid, show_uuid}
use merchant_ai_agent.Auth.{
  Claims, Crypto, IsSound, with_subject, MerchantSignupRequest, MerchantProfileUpdateRequest,
  lower_text,
}
use merchant_ai_agent.Auth.Service.{Accounts, signup, enter, new_merchant, auth_response}
use merchant_ai_agent.Auth.Account.{CanLogIn, signup_then_login}
use merchant_ai_agent.Auth.Kept.{IsSynced}
use merchant_ai_agent.Auth.Requests.{
  Request, signs_up, logs_in, updates, serve, behind_all, serve_all, serve_all-IsSynced,
}

-- A hash is the password, a token its subject behind a mark.
marked : Option String → String
marked none = ""
marked (some subject) = Text.◌∷◌ "t" subject

unmarked : String → Claims
unmarked Text.[] = record { sub = none; email = ""; iat = 0; exp = 0 }
unmarked (Text.◌∷◌ mark subject) = record { sub = some subject; email = ""; iat = 0; exp = 0 }

abbrev crypto : Crypto
crypto = record {
  hash = λ password salt. password;
  verify = str_eq;
  encrypt = λ secret. some secret;
  encode = λ claims. marked claims.sub;
  decode = λ now token. some (unmarked token);
}

marked-subject : (o : Option String) → with_subject (some (unmarked (marked o))) ≡ o
unfolding with_subject marked unmarked
marked-subject none = refl
marked-subject (some subject) = refl

crypto-IsSound : IsSound crypto
crypto-IsSound = record {
  verifies = λ password salt. eq_refl password;
  decodes = λ claims now begun early. marked-subject claims.sub;
}

abbrev nobody : Accounts
nobody = record { merchants = []; cache = record { razorpay_creds = []; trusted_issuers = [] } }

abbrev acme : MerchantSignupRequest
acme = record {
  email = "Shop@Acme.in";
  password = "long enough";
  display_name = none;
  business_name = some "Acme";
  trusted_issuers = some (" issuer-a" ∷ "" ∷ []);
  trusted_mandate_issuers = none;
  razorpay_key_id = some "rzp_live_1";
  razorpay_key_secret = some "s";
}

abbrev acme_row : Merchant
acme_row = new_merchant crypto 7 0 100 acme ("issuer-a" ∷ []) (some "s")

abbrev made : Accounts
made = (enter crypto 60 100 both_written acme_row nobody).0

signed_up :
    signup crypto 60 both_written 7 0 100 acme nobody
    ≡ ok (made, ok (auth_response crypto 60 100 acme_row))
unfolding signup
signed_up = refl

signup_then_login_example :
    CanLogIn crypto crypto-IsSound 60 200 259 "SHOP@acme.in" "long enough" made
      (auth_response crypto 60 100 acme_row).profile
unfolding lower_text merchant_by_id
signup_then_login_example =
    signup_then_login crypto crypto-IsSound 60 both_written 7 0 100 acme nobody made
      (auth_response crypto 60 100 acme_row) "SHOP@acme.in" 200 259 (omega arith) refl signed_up
      refl (omega arith) refl

abbrev new_issuers : MerchantProfileUpdateRequest
new_issuers = record {
  display_name = none;
  trusted_issuers = none;
  trusted_mandate_issuers = some ("issuer-b" ∷ []);
  razorpay_key_id = none;
  razorpay_key_secret = none;
  password = none;
}

abbrev renamed : MerchantProfileUpdateRequest
renamed = record new_issuers {
  display_name = some "Acme & Sons";
  trusted_mandate_issuers = some ("issuer-c" ∷ []);
}

abbrev token : Option String
token = some "t00000000-0000-0000-0000-000000000007"

abbrev requests : List Request
requests =
    signs_up both_written 7 0 100 acme
    ∷ logs_in both_written 200 "SHOP@acme.in" "long enough"
    ∷ updates both_written 0 210 token new_issuers
    ∷ []

nobody-IsSynced : IsSynced [] nobody
nobody-IsSynced = record { cached = tt; distinct = tt }

serve_all-IsSynced_example :
    IsSynced (behind_all crypto 60 requests nobody []) (serve_all crypto 60 requests nobody)
serve_all-IsSynced_example =
    serve_all-IsSynced crypto 60 requests [] nobody nobody-IsSynced (tt, (tt, (tt, tt)))

nothing_behind : behind_all crypto 60 requests nobody [] ≡ []
unfolding behind_all unmarked parse_uuid
nothing_behind = refl

-- The update has reached the cache.
issuers_updated :
    get "00000000-0000-0000-0000-000000000007"
      (serve_all crypto 60 requests nobody).cache.trusted_issuers
    ≡ some ("issuer-b" ∷ [])
unfolding serve_all get unmarked parse_uuid show_uuid
issuers_updated = refl

-- An update that Redis refuses is in the table, and not in the cache.
after_refusal :
    let a = serve crypto 60 (updates none_written 0 220 token renamed) made in
    (get "00000000-0000-0000-0000-000000000007" a.cache.trusted_issuers ≡ some ("issuer-a" ∷ []))
    × (map (λ (m : Merchant). m.trusted_issuers) a.merchants ≡ ("issuer-c" ∷ []) ∷ [])
unfolding serve get unmarked parse_uuid show_uuid
after_refusal = (refl, refl)
