-- ===== src/Payment.antt =====
-- The payment service: services/payment_service/credential_store.py and razorpay_client.py. The
-- encryption of secrets and the provider's two calls are parameters. Times are in seconds.
pub mod Router
pub mod Keys
pub mod Links
mod Tests
use Prim.Native.String.{◌++◌ as text_append}
use merchant_ai_agent.Base.{
  ℕ, ◌+◌, String, Bool, true, false, not, ◌&&◌, ◌||◌, Option, none, some, List, [], ◌∷◌, ◌++◌,
  str_eq, if◌then◌else◌,
}
use merchant_ai_agent.Base.Results.{Result, ok, err}
use merchant_ai_agent.Uuid.{Uuid, codes, parse_uuid}
use merchant_ai_agent.Strings.{has_text, strip_text, lower_is}
use merchant_ai_agent.Agent.{truthy}
use merchant_ai_agent.Agent.Names.{is_prefix}
use merchant_ai_agent.Inventory.{Entry}
use merchant_ai_agent.Merchant.{
  Merchant, MerchantCache, CachedCredentials, or_blank, sync_merchant_cache, merchant_by_id,
}
use merchant_ai_agent.Merchant.Dict.{TextMap, get}

pub record MerchantCredentials : Type 0 where
  pub merchant_id : String
  pub key_id : String
  pub key_secret : String

-- The JSON that is posted for a link.
pub record Customer : Type 0 where
  pub name : Option String
  pub contact : Option String

pub record LinkPayload : Type 0 where
  pub amount : ℕ
  pub reference_id : String
  pub description : String
  pub expire_by : ℕ
  pub session_id : String
  pub merchant_id : String
  pub customer : Option Customer

-- What posting a link comes back with: a link's id and URL, an error status with or without a
-- description, no connection, or a body that is not understood.
pub data CreateReply : Type 0 where
  created : String → String → CreateReply
  bad_status : Option String → CreateReply
  unreachable not_understood : CreateReply

-- The provider's calls; a cancellation returns or raises.
pub record Provider : Type 0 where
  pub post_link : MerchantCredentials → LinkPayload → CreateReply
  pub cancel_link : MerchantCredentials → String → Bool

pub data ProviderCall : Type 0 where
  posts : MerchantCredentials → LinkPayload → ProviderCall
  cancels : MerchantCredentials → String → ProviderCall

-- The cache and the table of the merchants, the keys `payment_link:{invoice_id}`, and the calls that
-- were made to the provider.
pub record Payments : Type 0 where
  pub cache : MerchantCache
  pub merchants : List Merchant
  pub links : TextMap (Entry String)
  pub calls : List ProviderCall

pub record RazorpayClientError : Type 0 where
  pub code : String
  pub message : String

pub data RazorpayClient : Type 0 where
  fake : RazorpayClient
  real : MerchantCredentials → RazorpayClient

module _ (decrypt : String → Option String) where
  with_secret : String → String → Option String → Option MerchantCredentials
  with_secret merchant_id key_id none = none
  with_secret merchant_id key_id (some secret) =
      some (record { merchant_id = merchant_id; key_id = key_id; key_secret = secret })

  -- `_from_cache`, on what `sync_merchant_cache` has put there.
  unfoldable pub from_cache : String → Option CachedCredentials → Option MerchantCredentials
  unfolding with_secret has_text strip_text
  from_cache merchant_id none = none
  from_cache merchant_id (some cached) =
      if not (has_text cached.key_id) || not (has_text cached.key_secret_encrypted)
      then none
      else with_secret merchant_id (strip_text cached.key_id)
          (decrypt (strip_text cached.key_secret_encrypted))

  unfoldable pub from_row :
      String → Option Merchant → Payments → Payments × Option MerchantCredentials
  unfolding with_secret truthy or_blank sync_merchant_cache
  from_row merchant_id none s = (s, none)
  from_row merchant_id (some m) s =
      if not (truthy m.razorpay_key_id) || not (truthy m.razorpay_key_secret_encrypted)
      then (s, none)
      else (
        record s { cache = sync_merchant_cache m s.cache },
        with_secret merchant_id (or_blank m.razorpay_key_id)
            (decrypt (or_blank m.razorpay_key_secret_encrypted)),
      )

  unfoldable pub from_db : String → Option Uuid → Payments → Payments × Option MerchantCredentials
  unfolding from_row merchant_by_id
  from_db merchant_id none s = (s, none)
  from_db merchant_id (some id) s = from_row merchant_id (merchant_by_id id s.merchants) s

  unfoldable pub or_from_db :
      String → Option MerchantCredentials → Payments → Payments × Option MerchantCredentials
  unfolding from_db
  or_from_db merchant_id (some cached) s = (s, some cached)
  or_from_db merchant_id none s = from_db merchant_id (parse_uuid (codes merchant_id)) s

  -- `get_credentials`
  unfoldable pub get_credentials : String → Payments → Payments × Option MerchantCredentials
  unfolding or_from_db from_cache get
  get_credentials merchant_id s =
      or_from_db merchant_id (from_cache merchant_id (get merchant_id s.cache.razorpay_creds)) s

abbrev pub invalid : String → Result RazorpayClientError RazorpayClient
invalid text = err (record { code = "RAZORPAY_CREDENTIALS_INVALID"; message = text })

unfoldable pub is_test_key : String → Bool
unfolding is_prefix
is_test_key key = is_prefix (codes "rzp_test_") (codes key)

-- `mode == ...`, after `settings.razorpay_mode.lower().strip()`.
unfoldable pub is_mode : String → String → Bool
unfolding lower_is strip_text
is_mode setting mode = lower_is (strip_text setting) mode

unfoldable pub client_for_keys :
    String → MerchantCredentials → Result RazorpayClientError RazorpayClient
client_for_keys setting credentials =
    if not (has_text credentials.key_id) || not (has_text credentials.key_secret)
    then invalid "Razorpay credentials are incomplete for this merchant."
    else if is_mode setting "test"
    then (if not (is_test_key credentials.key_id) || not (is_test_key credentials.key_secret)
        then invalid "Test mode requires valid Razorpay test credentials."
        else ok (real credentials))
    else if is_mode setting "live"
    then (if is_test_key credentials.key_id
        then invalid "Live mode cannot use Razorpay test key IDs."
        else ok (real credentials))
    else err (record {
      code = "RAZORPAY_MODE_INVALID";
      message = text_append "Unsupported RAZORPAY_MODE '" (text_append setting "'.");
    })

-- `get_razorpay_client`.
unfoldable pub get_razorpay_client :
    String → Option MerchantCredentials → Result RazorpayClientError RazorpayClient
unfolding client_for_keys
get_razorpay_client setting none =
    if is_mode setting "fake"
    then ok fake
    else err (record {
      code = "RAZORPAY_CREDENTIALS_MISSING";
      message = "Razorpay credentials are missing for this merchant.";
    })
get_razorpay_client setting (some credentials) =
    if is_mode setting "fake" then ok fake else client_for_keys setting credentials
