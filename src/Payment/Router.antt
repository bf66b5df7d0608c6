-- ===== src/Payment/Router.antt =====
-- services/payment_service/router.py, with `create_link` and `cancel_link` of the two clients of
-- services/payment_service/razorpay_client.py. Redis is up. A reply's echoes of the invoice's id and of
-- the mode are left out.
use Prim.Native.String.{◌++◌ as text_append}
use merchant_ai_agent.Base.{
  ℕ, ◌+◌, String, Bool, true, false, Option, none, some, [], ◌∷◌, ◌++◌, str_eq, if◌then◌else◌,
}
use merchant_ai_agent.Base.Results.{Result, ok, err}
use merchant_ai_agent.Agent.{truthy}
use merchant_ai_agent.Merchant.{or_blank}
use merchant_ai_agent.Merchant.Dict.{get, put, drop, alive, lasting}
use merchant_ai_agent.Payment.{
  Customer, LinkPayload, CreateReply, created, bad_status, unreachable, not_understood, Provider,
  posts, cancels, Payments, RazorpayClientError, RazorpayClient, fake, real, get_credentials,
  get_razorpay_client,
}

-- `merchant_id` and `invoice_id` are not empty, `amount_paise` is at least 1.
pub record CreatePaymentLinkRequest : Type 0 where
  pub merchant_id : String
  pub invoice_id : String
  pub amount_paise : ℕ
  pub session_id : Option String
  pub customer_name : Option String
  pub customer_phone : Option String
  pub description : Option String

pub record CreatePaymentLinkResponse : Type 0 where
  pub success : Bool
  pub payment_link_id : Option String
  pub payment_link_url : Option String
  pub expires_at : Option ℕ
  pub error : Option RazorpayClientError

pub record CancelPaymentLinkResponse : Type 0 where
  pub success : Bool
  pub cancelled : Option Bool
  pub error : Option RazorpayClientError

pub record Link : Type 0 where
  pub payment_link_id : String
  pub payment_link_url : String

unfoldable pub customer_of : Option String → Option String → Option Customer
unfolding truthy
customer_of name phone =
    if truthy name
    then some (record { name = name; contact = if truthy phone then phone else none })
    else if truthy phone
    then some (record { name = none; contact = phone })
    else none

unfoldable pub description_of : Option String → String → String
unfolding truthy or_blank
description_of description invoice_id =
    if truthy description then or_blank description else text_append "Invoice " invoice_id

unfoldable pub link_payload : ℕ → ℕ → CreatePaymentLinkRequest → LinkPayload
unfolding customer_of description_of or_blank
link_payload ttl now r = record {
  amount = r.amount_paise;
  reference_id = r.invoice_id;
  description = description_of r.description r.invoice_id;
  expire_by = now + ttl;
  session_id = or_blank r.session_id;
  merchant_id = r.merchant_id;
  customer = customer_of r.customer_name r.customer_phone;
}

unfoldable pub error_message : Option String → String
unfolding truthy or_blank
error_message description =
    if truthy description then or_blank description else "Razorpay returned an invalid response."

-- The error that a call raises; one that the client does not know is reported by the endpoint.
unfoldable pub link_of : CreateReply → Result RazorpayClientError Link
unfolding error_message
link_of (created id url) = ok (record { payment_link_id = id; payment_link_url = url })
link_of (bad_status description) =
    err (record { code = "RAZORPAY_CREATE_LINK_FAILED"; message = error_message description })
link_of unreachable =
    err (record { code = "RAZORPAY_NETWORK_ERROR"; message = "Unable to reach Razorpay." })
link_of not_understood =
    err (record { code = "PAYMENT_LINK_CREATE_FAILED"; message = "Unable to create payment link." })

unfoldable pub create_failed : RazorpayClientError → CreatePaymentLinkResponse
create_failed e = record {
  success = false;
  payment_link_id = none;
  payment_link_url = none;
  expires_at = none;
  error = some e;
}

-- `ex=600`
abbrev pub link_seconds : ℕ
link_seconds = 600

unfoldable pub record_link :
    ℕ
    → ℕ
    → String
    → Result RazorpayClientError Link
    → Payments
    → Payments × CreatePaymentLinkResponse
unfolding create_failed put lasting
record_link ttl now invoice_id (err e) s = (s, create_failed e)
record_link ttl now invoice_id (ok link) s = (
  record s { links = put invoice_id (lasting link.payment_link_id link_seconds now) s.links },
  record {
    success = true;
    payment_link_id = some link.payment_link_id;
    payment_link_url = some link.payment_link_url;
    expires_at = some (now + ttl);
    error = none;
  },
)

unfoldable pub fake_link : String → Link
fake_link invoice_id = record {
  payment_link_id = text_append "plink_fake_" invoice_id;
  payment_link_url = text_append "https://rzp.io/i/fake-" invoice_id;
}

unfoldable pub cancel_failed : RazorpayClientError → CancelPaymentLinkResponse
cancel_failed e = record { success = false; cancelled = none; error = some e }

unfoldable pub cancel_done : Bool → CancelPaymentLinkResponse
cancel_done cancelled = record { success = true; cancelled = some cancelled; error = none }

unfoldable pub forget_link : String → Payments → Payments
unfolding drop
forget_link invoice_id s = record s { links = drop invoice_id s.links }

unfoldable pub cancel_reply : String → Bool → Payments → Payments × CancelPaymentLinkResponse
unfolding forget_link cancel_done cancel_failed
cancel_reply invoice_id true s = (forget_link invoice_id s, cancel_done true)
cancel_reply invoice_id false s = (
  s,
  cancel_failed
      (record { code = "PAYMENT_LINK_CANCEL_FAILED"; message = "Unable to cancel payment link." }),
)

module _ (decrypt : String → Option String) (provider : Provider) (mode : String) where
  unfoldable pub create_with :
      ℕ
      → ℕ
      → CreatePaymentLinkRequest
      → Result RazorpayClientError RazorpayClient
      → Payments
      → Payments × CreatePaymentLinkResponse
  unfolding record_link fake_link link_payload link_of create_failed
  create_with ttl now r (err e) s = (s, create_failed e)
  create_with ttl now r (ok fake) s =
      record_link ttl now r.invoice_id (ok (fake_link r.invoice_id)) s
  create_with ttl now r (ok (real credentials)) s =
      let payload = link_payload ttl now r in
      record_link ttl now r.invoice_id (link_of (provider.post_link credentials payload))
        (record s { calls = s.calls ++ posts credentials payload ∷ [] })

  -- `create_payment_link`
  unfoldable pub create_payment_link :
      ℕ → ℕ → CreatePaymentLinkRequest → Payments → Payments × CreatePaymentLinkResponse
  unfolding create_with get_credentials get_razorpay_client
  create_payment_link ttl now r s =
      let (s', credentials) = get_credentials decrypt r.merchant_id s in
      create_with ttl now r (get_razorpay_client mode credentials) s'

  unfoldable pub cancel_with :
      String
      → String
      → Result RazorpayClientError RazorpayClient
      → Payments
      → Payments × CancelPaymentLinkResponse
  unfolding cancel_reply cancel_failed
  cancel_with invoice_id link (err e) s = (s, cancel_failed e)
  cancel_with invoice_id link (ok fake) s = cancel_reply invoice_id true s
  cancel_with invoice_id link (ok (real credentials)) s =
      cancel_reply invoice_id (provider.cancel_link credentials link)
        (record s { calls = s.calls ++ cancels credentials link ∷ [] })

  unfoldable pub cancel_found :
      String → String → Option String → Payments → Payments × CancelPaymentLinkResponse
  unfolding cancel_with get_credentials get_razorpay_client cancel_done
  cancel_found merchant_id invoice_id none s = (s, cancel_done false)
  cancel_found merchant_id invoice_id (some link) s =
      let (s', credentials) = get_credentials decrypt merchant_id s in
      let found = cancel_with invoice_id link (get_razorpay_client mode credentials) s' in
      if str_eq link "" then (s, cancel_done false) else found

  -- `cancel_payment_link`
  unfoldable pub cancel_payment_link :
      ℕ → String → String → Payments → Payments × CancelPaymentLinkResponse
  unfolding cancel_found get alive
  cancel_payment_link now merchant_id invoice_id s =
      cancel_found merchant_id invoice_id (alive now (get invoice_id s.links)) s
