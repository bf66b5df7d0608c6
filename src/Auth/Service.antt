-- ===== src/Auth/Service.antt =====
-- services/auth_service/router.py.
use merchant_ai_agent.Base.{
  ℕ, String, Bool, true, not, ◌&&◌, ◌||◌, Option, none, some, List, [], ◌∷◌, ◌++◌, str_eq, ◌==◌,
  update_where, if◌then◌else◌,
}
use merchant_ai_agent.Base.Results.{Result, ok, err, ◌>>=◌}
use merchant_ai_agent.Uuid.{Uuid, codes, parse_uuid, show_uuid}
use merchant_ai_agent.Agent.{truthy}
use merchant_ai_agent.Merchant.{
  Merchant, MerchantCache, CacheWrites, both_written, first_written, none_written, sync_with,
  or_blank, merchant_by_id,
}
use merchant_ai_agent.Auth.{
  Crypto, MerchantSignupRequest, MerchantProfileUpdateRequest, MerchantProfileResponse,
  AuthResponse, lower_text, Issuers, not_given, all_blank, cleaned, resolved_trusted_issuers,
  has_entries, long_enough, resolved_display_name, create_access_token, token_subject,
}

-- The HTTP status with which a request fails: the schema (422), a conflict (409), no authorization
-- (401), or an exception that nothing catches (500).
pub data Failure : Type 0 where
  unprocessable conflict unauthorized internal_error : Failure

pub record Accounts : Type 0 where
  pub merchants : List Merchant
  pub cache : MerchantCache

-- `_get_merchant_by_email`, by the unique index.
unfoldable pub merchant_by_email : String → List Merchant → Option Merchant
merchant_by_email email [] = none
merchant_by_email email (m ∷ ms) =
    if str_eq m.email email then some m else merchant_by_email email ms

unfoldable pub profile_from_merchant : Merchant → MerchantProfileResponse
profile_from_merchant m = record {
  id = m.id;
  email = m.email;
  display_name = m.display_name;
  trusted_issuers = m.trusted_issuers;
  razorpay_key_id = m.razorpay_key_id;
  is_active = m.is_active;
  created_at = m.created_at;
  updated_at = m.updated_at;
}

-- The validator of the request; its result is what `_create_merchant` reads again.
unfoldable pub validated_issuers : MerchantSignupRequest → Issuers → Result Failure (List String)
unfolding long_enough has_entries
validated_issuers r not_given = err unprocessable
validated_issuers r all_blank = err unprocessable
validated_issuers r (cleaned issuers) =
    if long_enough r.password
      && (has_entries r.trusted_issuers && has_entries r.trusted_mandate_issuers)
    then ok issuers
    else err unprocessable

unfoldable pub encrypted : Option String → Result Failure (Option String)
encrypted none = err internal_error
encrypted (some secret) = ok (some secret)

-- A secret is encrypted if there is one, and it is not empty.
unfoldable pub encrypt_given : Crypto → Option String → Result Failure (Option String)
unfolding truthy encrypted or_blank
encrypt_given crypto secret =
    if truthy secret then encrypted (crypto.encrypt (or_blank secret)) else ok none

unfoldable pub new_merchant :
    Crypto → Uuid → ℕ → ℕ → MerchantSignupRequest → List String → Option String → Merchant
unfolding lower_text resolved_display_name
new_merchant crypto id salt now r issuers secret = record {
  id = id;
  email = lower_text r.email;
  password_hash = crypto.hash r.password salt;
  display_name = resolved_display_name r;
  trusted_issuers = issuers;
  razorpay_key_id = r.razorpay_key_id;
  razorpay_key_secret_encrypted = secret;
  is_active = true;
  created_at = now;
  updated_at = now;
}

unfoldable pub auth_response : Crypto → ℕ → ℕ → Merchant → AuthResponse
unfolding create_access_token profile_from_merchant
auth_response crypto life now m = record {
  access_token = create_access_token crypto life now (show_uuid m.id) m.email;
  profile = profile_from_merchant m;
}

unfoldable pub if_new : Option Merchant → Result Failure (Unit {0})
if_new none = ok tt
if_new (some m) = err conflict

-- The answer, or the exception of a write of the cache, which nothing catches.
unfoldable pub answered : {A : Type 0} → CacheWrites → A → Result Failure A
answered both_written reply = ok reply
answered first_written reply = err internal_error
answered none_written reply = err internal_error

-- `merchant` is committed, put into the cache, and answered with.
unfoldable pub enter :
    Crypto → ℕ → ℕ → CacheWrites → Merchant → Accounts → Accounts × Result Failure AuthResponse
unfolding sync_with answered auth_response
enter crypto life now writes m a = (
  record { merchants = a.merchants ++ m ∷ []; cache = sync_with writes m a.cache },
  answered writes (auth_response crypto life now m),
)

-- `signup`, with the id and the salt that are drawn. The outer failure is one before the commit, which
-- changes nothing; the inner one comes behind it.
unfoldable pub signup :
    Crypto
    → ℕ
    → CacheWrites
    → Uuid
    → ℕ
    → ℕ
    → MerchantSignupRequest
    → Accounts
    → Result Failure (Accounts × Result Failure AuthResponse)
unfolding validated_issuers resolved_trusted_issuers if_new merchant_by_email encrypt_given
    new_merchant enter
signup crypto life writes id salt now r a = do
  issuers ←
      validated_issuers r (resolved_trusted_issuers r.trusted_mandate_issuers r.trusted_issuers)
  _ ← if_new (merchant_by_email (lower_text r.email) a.merchants)
  secret ← encrypt_given crypto r.razorpay_key_secret
  ok (enter crypto life now writes (new_merchant crypto id salt now r issuers secret) a)

unfoldable pub login_as :
    Crypto
    → ℕ
    → CacheWrites
    → ℕ
    → String
    → Option Merchant
    → Accounts
    → Result Failure (Accounts × Result Failure AuthResponse)
unfolding sync_with answered auth_response
login_as crypto life writes now password none a = err unauthorized
login_as crypto life writes now password (some m) a =
    if not m.is_active || not (crypto.verify password m.password_hash)
    then err unauthorized
    else ok (
      record a { cache = sync_with writes m a.cache },
      answered writes (auth_response crypto life now m),
    )

-- `login`
unfoldable pub login :
    Crypto
    → ℕ
    → CacheWrites
    → ℕ
    → String
    → String
    → Accounts
    → Result Failure (Accounts × Result Failure AuthResponse)
unfolding login_as merchant_by_email lower_text
login crypto life writes now email password a =
    login_as crypto life writes now password (merchant_by_email (lower_text email) a.merchants) a

unfoldable pub if_active : Option Merchant → Result Failure Merchant
if_active none = err unauthorized
if_active (some m) = if m.is_active then ok m else err unauthorized

unfoldable pub merchant_of_id : Option Uuid → List Merchant → Result Failure Merchant
unfolding if_active merchant_by_id
merchant_of_id none merchants = err unauthorized
merchant_of_id (some id) merchants = if_active (merchant_by_id id merchants)

unfoldable pub merchant_of_subject : Option String → List Merchant → Result Failure Merchant
unfolding merchant_of_id
merchant_of_subject none merchants = err unauthorized
merchant_of_subject (some text) merchants = merchant_of_id (parse_uuid (codes text)) merchants

-- `get_current_merchant`, with the bearer token.
unfoldable pub get_current_merchant :
    Crypto → ℕ → Option String → List Merchant → Result Failure Merchant
unfolding merchant_of_subject token_subject
get_current_merchant crypto now none merchants = err unauthorized
get_current_merchant crypto now (some token) merchants =
    merchant_of_subject (token_subject crypto now token) merchants

-- `get_profile`
unfoldable pub get_profile :
    Crypto → ℕ → Option String → Accounts → Result Failure MerchantProfileResponse
unfolding get_current_merchant profile_from_merchant
get_profile crypto now token a = do
  m ← get_current_merchant crypto now token a.merchants
  ok (profile_from_merchant m)

-- The issuers after an update; a list of blanks raises a `ValueError`.
unfoldable pub updated_issuers : Issuers → List String → Result Failure (List String)
updated_issuers not_given old = ok old
updated_issuers all_blank old = err internal_error
updated_issuers (cleaned issuers) old = ok issuers

unfoldable pub given_or : Option String → Option String → Option String
given_or none old = old
given_or (some text) old = some text

unfoldable pub updated_secret :
    Crypto → Option String → Option String → Result Failure (Option String)
unfolding encrypted
updated_secret crypto none old = ok old
updated_secret crypto (some secret) old = encrypted (crypto.encrypt secret)

unfoldable pub updated_hash : Crypto → ℕ → Option String → String → String
updated_hash crypto salt none old = old
updated_hash crypto salt (some password) old = crypto.hash password salt

-- `_apply_profile_update`, before it is committed.
unfoldable pub apply_profile_update :
    Crypto → ℕ → ℕ → MerchantProfileUpdateRequest → Merchant → Result Failure Merchant
unfolding updated_issuers resolved_trusted_issuers given_or updated_secret updated_hash
apply_profile_update crypto salt now r m = do
  issuers ←
      updated_issuers (resolved_trusted_issuers r.trusted_mandate_issuers r.trusted_issuers)
        m.trusted_issuers
  secret ← updated_secret crypto r.razorpay_key_secret m.razorpay_key_secret_encrypted
  ok (record m {
    display_name = given_or r.display_name m.display_name;
    trusted_issuers = issuers;
    razorpay_key_id = given_or r.razorpay_key_id m.razorpay_key_id;
    razorpay_key_secret_encrypted = secret;
    password_hash = updated_hash crypto salt r.password m.password_hash;
    updated_at = now;
  })

unfoldable pub long_if_given : Option String → Bool
unfolding long_enough
long_if_given none = true
long_if_given (some password) = long_enough password

unfoldable pub valid_update : MerchantProfileUpdateRequest → Result Failure (Unit {0})
unfolding long_if_given has_entries
valid_update r =
    if long_if_given r.password
      && (has_entries r.trusted_issuers && has_entries r.trusted_mandate_issuers)
    then ok tt
    else err unprocessable

-- The row is committed, and then the cache is written.
unfoldable pub commit_update : CacheWrites → Merchant → Accounts → Accounts
unfolding update_where sync_with
commit_update writes m a = record {
  merchants = update_where (λ (old : Merchant). old.id == m.id) (λ old. m) a.merchants;
  cache = sync_with writes m a.cache;
}

-- `update_profile`
unfoldable pub update_profile :
    Crypto
    → CacheWrites
    → ℕ
    → ℕ
    → Option String
    → MerchantProfileUpdateRequest
    → Accounts
    → Result Failure (Accounts × Result Failure MerchantProfileResponse)
unfolding valid_update get_current_merchant apply_profile_update commit_update answered
    profile_from_merchant
update_profile crypto writes salt now token r a = do
  m ← get_current_merchant crypto now token a.merchants
  _ ← valid_update r
  updated ← apply_profile_update crypto salt now r m
  ok (commit_update writes updated a, answered writes (profile_from_merchant updated))
