-- ===== src/Payment/Tests.antt =====
-- The payment service at concrete requests, in the mode "live".
use merchant_ai_agent.Base.{
  ◌≡◌, refl, String, true, Option, none, some, List, [], ◌∷◌, ◌++◌, length, arith, if◌then◌else◌,
}
use merchant_ai_agent.Base.Results.{ok}
use merchant_ai_agent.Payment.{
  MerchantCredentials, Provider, created, cancels, Payments, real, get_razorpay_client,
  get_credentials, is_mode, is_test_key,
}
use merchant_ai_agent.Payment.Router.{
  CreatePaymentLinkRequest, create_payment_link, cancel_payment_link,
}
use merchant_ai_agent.Payment.Keys.{
  Request, create_link, cancel_link, serve_all, AllAllowed, serve_all-AllAllowed,
}
use merchant_ai_agent.Payment.Links.{created_link_is_cancelled}
use merchant_ai_agent.Strings.{has_text}

abbrev decrypt : String → Option String
decrypt text = some text

abbrev provider : Provider
provider = record {
  post_link = λ c payload. created "plink_1" "https://rzp.io/i/1";
  cancel_link = λ c link. true;
}

abbrev with_keys : Payments
with_keys = record {
  cache = record {
    razorpay_creds = ("m", record { key_id = " rzp_live_1"; key_secret_encrypted = "k" }) ∷ [];
    trusted_issuers = [];
  };
  merchants = [];
  links = [];
  calls = [];
}

abbrev keys : MerchantCredentials
keys = record { merchant_id = "m"; key_id = "rzp_live_1"; key_secret = "k" }

abbrev wanted : CreatePaymentLinkRequest
wanted = record {
  merchant_id = "m";
  invoice_id = "i";
  amount_paise = 12600;
  session_id = none;
  customer_name = some "Asha";
  customer_phone = none;
  description = none;
}

abbrev with_link : Payments
with_link = (create_payment_link decrypt provider "LIVE " 300 100 wanted with_keys).0

made :
    (create_payment_link decrypt provider "LIVE " 300 100 wanted with_keys).1.payment_link_id
    ≡ some "plink_1"
unfolding create_payment_link is_mode is_test_key has_text
made = refl

-- The link of another invoice is made and cancelled in between.
abbrev in_between : List Request
in_between = create_link 150 (record wanted { invoice_id = "j" }) ∷ cancel_link 160 "m" "j" ∷ []

abbrev later_on : Payments
later_on = serve_all decrypt provider "LIVE " 300 in_between with_link

three_calls : length later_on.calls ≡ 3
unfolding serve_all get_razorpay_client create_payment_link is_mode is_test_key has_text
three_calls = refl

usable : get_razorpay_client "LIVE " (get_credentials decrypt "m" later_on).1 ≡ ok (real keys)
unfolding serve_all get_razorpay_client get_credentials create_payment_link is_mode is_test_key
    has_text
usable = refl

created_link_is_cancelled_example :
    ((cancel_payment_link decrypt provider "LIVE " 699 "m" "i" later_on).0.calls
      ≡ later_on.calls ++ cancels keys "plink_1" ∷ [])
    × ((cancel_payment_link decrypt provider "LIVE " 699 "m" "i" later_on).1.cancelled
        ≡ (if provider.cancel_link keys "plink_1" then some true else none))
created_link_is_cancelled_example =
    created_link_is_cancelled decrypt provider "LIVE " 300 100 699 wanted "plink_1" "m" with_keys
      in_between keys made refl (refl, (refl, tt)) (omega arith) usable

abbrev both_requests : List Request
both_requests = create_link 100 wanted ∷ cancel_link 699 "m" "i" ∷ []

serve_all-AllAllowed_example :
    AllAllowed "LIVE " (serve_all decrypt provider "LIVE " 300 both_requests with_keys).calls
serve_all-AllAllowed_example =
    serve_all-AllAllowed decrypt provider "LIVE " 300 both_requests with_keys tt
