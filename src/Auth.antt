-- ===== src/Auth.antt =====
-- The merchants' accounts: services/auth_service/schemas.py, jwt_tokens.py and password.py. The
-- encryption of secrets, bcrypt and JWT are parameters. Times are in seconds.
pub mod Service
pub mod Account
pub mod Kept
pub mod Synced
pub mod Requests
mod Tests
use Prim.Native.Char.{Char, code}
use Prim.Native.String as Text
use merchant_ai_agent.Base.{
  ℕ, zero, suc, ◌+◌, ◌-◌, ◌≡◌, refl, String, Bool, true, false, not, ◌&&◌, Option, none, some, List,
  [], ◌∷◌, map, select, ltb, leb, length, if◌then◌else◌,
}
use merchant_ai_agent.Uuid.{Uuid, codes}
use merchant_ai_agent.Strings.{has_text, strip_text}
use merchant_ai_agent.Agent.{truthy}
use merchant_ai_agent.Merchant.{Merchant, MerchantCache}

-- The payload of a token; `exp` is checked where it is decoded.
pub record Claims : Type 0 where
  pub sub : Option String
  pub email : String
  pub iat : ℕ
  pub exp : ℕ

-- `hash` takes the salt that is drawn, `encrypt` raises without a key, and `decode` at a time raises
-- on a token that is not signed, that is not yet valid, or that has expired.
pub record Crypto : Type 0 where
  pub hash : String → ℕ → String
  pub verify : String → String → Bool
  pub encrypt : String → Option String
  pub encode : Claims → String
  pub decode : ℕ → String → Option Claims

unfoldable pub with_subject : Option Claims → Option String
with_subject none = none
with_subject (some claims) = claims.sub

-- What is documented of them: a password is verified against its own hash, and a token that was
-- encoded is decoded to its subject from the time at which it was issued until it expires.
pub record IsSound (crypto : Crypto) : Type 0 where
  pub verifies :
      (password : String) (salt : ℕ) → crypto.verify password (crypto.hash password salt) ≡ true
  pub decodes :
      (claims : Claims) (now : ℕ)
      → leb claims.iat now ≡ true
      → ltb now claims.exp ≡ true
      → with_subject (crypto.decode now (crypto.encode claims)) ≡ claims.sub

pub record MerchantSignupRequest : Type 0 where
  pub email : String
  pub password : String
  pub display_name : Option String
  pub business_name : Option String
  pub trusted_issuers : Option (List String)
  pub trusted_mandate_issuers : Option (List String)
  pub razorpay_key_id : Option String
  pub razorpay_key_secret : Option String

pub record MerchantProfileUpdateRequest : Type 0 where
  pub display_name : Option String
  pub trusted_issuers : Option (List String)
  pub trusted_mandate_issuers : Option (List String)
  pub razorpay_key_id : Option String
  pub razorpay_key_secret : Option String
  pub password : Option String

pub record MerchantProfileResponse : Type 0 where
  pub id : Uuid
  pub email : String
  pub display_name : Option String
  pub trusted_issuers : List String
  pub razorpay_key_id : Option String
  pub is_active : Bool
  pub created_at : ℕ
  pub updated_at : ℕ

pub record AuthResponse : Type 0 where
  pub access_token : String
  pub profile : MerchantProfileResponse

unfoldable pub nth_char : ℕ → String → Char → Char
nth_char n Text.[] c = c
nth_char zero (Text.◌∷◌ d rest) c = d
nth_char (suc n) (Text.◌∷◌ d rest) c = nth_char n rest c

lower_char : Char → Char
unfolding nth_char
lower_char c =
    if leb b'A' (code c) && leb (code c) b'Z'
    then nth_char (code c - b'A') "abcdefghijklmnopqrstuvwxyz" c
    else c

-- `text.lower()`, on an ASCII text.
unfoldable pub lower_text : String → String
unfolding lower_char
lower_text Text.[] = ""
lower_text (Text.◌∷◌ c rest) = Text.◌∷◌ (lower_char c) (lower_text rest)

lowers : lower_text "Shop@Example.COM" ≡ "shop@example.com"
unfolding lower_text
lowers = refl

-- What `resolved_trusted_issuers` makes of the lists: none is given, none of them is left, or those.
pub data Issuers : Type 0 where
  not_given all_blank : Issuers
  cleaned : List String → Issuers

unfoldable pub clean : List String → Issuers
clean [] = all_blank
clean (issuer ∷ issuers) = cleaned (issuer ∷ issuers)

unfoldable pub clean_given : Option (List String) → Issuers
unfolding clean select has_text strip_text
clean_given none = not_given
clean_given (some issuers) = clean (map strip_text (select has_text issuers))

-- `resolved_trusted_issuers`, before it raises.
unfoldable pub resolved_trusted_issuers : Option (List String) → Option (List String) → Issuers
unfolding clean_given
resolved_trusted_issuers (some mandate_issuers) trusted_issuers = clean_given (some mandate_issuers)
resolved_trusted_issuers none trusted_issuers = clean_given trusted_issuers

-- `Field(min_length=1)` on an optional list.
unfoldable pub has_entries : Option (List String) → Bool
has_entries none = true
has_entries (some []) = false
has_entries (some (issuer ∷ issuers)) = true

-- `Field(min_length=8)`
unfoldable pub long_enough : String → Bool
long_enough password = leb 8 (length (codes password))

unfoldable pub resolved_display_name : MerchantSignupRequest → Option String
unfolding truthy
resolved_display_name r = if truthy r.display_name then r.display_name else r.business_name

-- `create_access_token`
unfoldable pub create_access_token : Crypto → ℕ → ℕ → String → String → String
create_access_token crypto life now id email =
    crypto.encode (record { sub = some id; email = email; iat = now; exp = now + life })

-- `decode_token`, with `payload["sub"]`.
unfoldable pub token_subject : Crypto → ℕ → String → Option String
unfolding with_subject
token_subject crypto now token = with_subject (crypto.decode now token)
