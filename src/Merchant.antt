-- ===== src/Merchant.antt =====
-- The table `merchants` (shared/models/merchant.py) and what Redis keeps of it
-- (services/auth_service/merchant_cache.py), by the text of a merchant's id.
pub mod Dict
use merchant_ai_agent.Base.{ℕ, String, Bool, Option, none, some, List, [], ◌∷◌, ◌==◌, if◌then◌else◌}
use merchant_ai_agent.Uuid.{Uuid, show_uuid}
use Dict.{TextMap, put}

pub record Merchant : Type 0 where
  pub id : Uuid
  pub email : String
  pub password_hash : String
  pub display_name : Option String
  pub trusted_issuers : List String
  pub razorpay_key_id : Option String
  pub razorpay_key_secret_encrypted : Option String
  pub is_active : Bool
  pub created_at : ℕ
  pub updated_at : ℕ

pub record CachedCredentials : Type 0 where
  pub key_id : String
  pub key_secret_encrypted : String

pub record MerchantCache : Type 0 where
  pub razorpay_creds : TextMap CachedCredentials
  pub trusted_issuers : TextMap (List String)

-- `text or ""`
unfoldable pub or_blank : Option String → String
or_blank none = ""
or_blank (some text) = text

unfoldable pub cached_credentials : Merchant → CachedCredentials
unfolding or_blank
cached_credentials merchant = record {
  key_id = or_blank merchant.razorpay_key_id;
  key_secret_encrypted = or_blank merchant.razorpay_key_secret_encrypted;
}

-- `sync_merchant_cache`
unfoldable pub sync_merchant_cache : Merchant → MerchantCache → MerchantCache
unfolding put cached_credentials
sync_merchant_cache merchant cache = record {
  razorpay_creds = put (show_uuid merchant.id) (cached_credentials merchant) cache.razorpay_creds;
  trusted_issuers = put (show_uuid merchant.id) merchant.trusted_issuers cache.trusted_issuers;
}

-- Which of the two writes go through; a write that does not raises.
pub data CacheWrites : Type 0 where
  both_written first_written none_written : CacheWrites

-- The cache after `sync_merchant_cache`, whether it returns or raises.
unfoldable pub sync_with : CacheWrites → Merchant → MerchantCache → MerchantCache
unfolding sync_merchant_cache
sync_with both_written merchant cache = sync_merchant_cache merchant cache
sync_with first_written merchant cache = record cache {
  razorpay_creds = put (show_uuid merchant.id) (cached_credentials merchant) cache.razorpay_creds;
}
sync_with none_written merchant cache = cache

-- `SELECT ... WHERE merchants.id = ...`, by the primary key.
unfoldable pub merchant_by_id : Uuid → List Merchant → Option Merchant
merchant_by_id id [] = none
merchant_by_id id (m ∷ ms) = if m.id == id then some m else merchant_by_id id ms
