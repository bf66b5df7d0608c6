-- ===== src/Mandate.antt =====
-- services/async_worker/mandate_verifier.py: the trusted issuers of a merchant, the checks on the
-- claims of a mandate, and the memory of signatures that were used. Times are in milliseconds, as
-- Redis counts the life of a key; the claims count seconds.
pub mod Accepted
pub mod Replay
mod Tests
use merchant_ai_agent.Base.{
  ℕ, ◌+◌, ◌*◌, ◌/◌, String, Bool, true, false, not, ◌&&◌, ◌||◌, Option, none, some, List, [], ◌∷◌,
  ◌++◌, str_eq, any, all, map, select, is_some, if◌then◌else◌, leb, ◌==◌,
}
use merchant_ai_agent.Base.Int.{ℤ, pos, ◌-ℤ◌, ltb_ℤ}
use merchant_ai_agent.Base.Results.{Result, ok, err, ◌>>=◌, ◌>>◌}
use merchant_ai_agent.Uuid.{Uuid, codes, parse_uuid, show_uuid}
use merchant_ai_agent.Inventory.{Cache, cache_set, cache_get}
use merchant_ai_agent.Strings.{has_text, strip_text}

pub record MandateClaims : Type 0 where
  pub issuer : String
  pub subject : String
  pub issued_at : ℤ
  pub signature : String

-- The lists are stripped where they are read.
pub record Settings : Type 0 where
  pub trusted_issuers : List String
  pub allow_fallback : Bool
  pub max_age_seconds : ℤ

-- Why a mandate is refused.
pub data Reason : Type 0 where
  issuers_missing malformed untrusted in_future too_old blank_signature replayed : Reason

-- The functions that the code calls: base64 and JSON of a token, and SHA-256 as a number.
pub record Codec : Type 0 where
  pub decode : String → Option MandateClaims
  pub digest : String → ℕ

-- The key `merchant:{id}:trusted_issuers` by its id, the rows of `merchants`, the keys
-- `mandate:seen:{digest}`, and the refusals that were recorded.
pub record Verifier : Type 0 where
  pub issuer_cache : List (String × List String)
  pub merchants : List (Uuid × List String)
  pub seen : Cache Bool
  pub failures : List Reason

-- `_parse_issuers` on the list that the key holds.
unfoldable pub parse_issuers : List String → List String
unfolding select has_text strip_text
parse_issuers raw = map strip_text (select has_text raw)

unfoldable pub cached_issuers : String → List (String × List String) → Option (List String)
unfolding parse_issuers
cached_issuers k [] = none
cached_issuers k ((j, raw) ∷ cache) =
    if str_eq j k then some (parse_issuers raw) else cached_issuers k cache

unfoldable pub merchant_row : Uuid → List (Uuid × List String) → Option (List String)
merchant_row id [] = none
merchant_row id ((j, issuers) ∷ rows) = if j == id then some issuers else merchant_row id rows

unfoldable pub stripped_row : List String → Option (List String)
unfolding parse_issuers
stripped_row [] = none
stripped_row (issuer ∷ issuers) = some (parse_issuers (issuer ∷ issuers))

unfoldable pub or_row : Option (List String) → List String → Option (List String)
unfolding stripped_row
or_row (some refreshed) row = some refreshed
or_row none row = stripped_row row

-- The row is put into the cache under its id, and read back under the id that was given.
unfoldable pub load_row :
    String → Uuid → Option (List String) → Verifier → Verifier × Option (List String)
unfolding cached_issuers or_row
load_row text id none v = (v, none)
load_row text id (some row) v =
    let cache = (show_uuid id, row) ∷ v.issuer_cache in
    (record v { issuer_cache = cache }, or_row (cached_issuers text cache) row)

unfoldable pub load_uuid : String → Option Uuid → Verifier → Verifier × Option (List String)
unfolding load_row merchant_row
load_uuid text none v = (v, none)
load_uuid text (some id) v = load_row text id (merchant_row id v.merchants) v

unfoldable pub load_cached :
    String → Option (List String) → Verifier → Verifier × Option (List String)
unfolding load_uuid
load_cached text (some issuers) v = (v, some issuers)
load_cached text none v = load_uuid text (parse_uuid (codes text)) v

-- `_load_merchant_trusted_issuers`
unfoldable pub load_merchant_trusted_issuers : String → Verifier → Verifier × Option (List String)
unfolding load_cached cached_issuers
load_merchant_trusted_issuers text v = load_cached text (cached_issuers text v.issuer_cache) v

-- An empty list, like a missing one, falls back on the settings, or is refused.
unfoldable pub choose_issuers : Settings → Option (List String) → Result Reason (List String)
choose_issuers cfg (some (issuer ∷ issuers)) = ok (issuer ∷ issuers)
choose_issuers cfg (some []) =
    if cfg.allow_fallback then ok cfg.trusted_issuers else err issuers_missing
choose_issuers cfg none = if cfg.allow_fallback then ok cfg.trusted_issuers else err issuers_missing

-- The issuers for the call, `if merchant_id` being false of an empty text.
unfoldable pub issuers_for :
    Settings → Option String → Verifier → Verifier × Result Reason (List String)
unfolding load_merchant_trusted_issuers choose_issuers
issuers_for cfg none v = (v, ok cfg.trusted_issuers)
issuers_for cfg (some text) v =
    if str_eq text ""
    then (v, ok cfg.trusted_issuers)
    else (let (v', issuers) = load_merchant_trusted_issuers text v in
        (v', choose_issuers cfg issuers))

-- The bounds of `MandateClaims`.
unfoldable pub valid_claims : Option MandateClaims → Result Reason MandateClaims
valid_claims none = err malformed
valid_claims (some claims) =
    if str_eq claims.issuer "" || str_eq claims.subject "" || str_eq claims.signature ""
    then err malformed
    else ok claims

unfoldable pub require : Bool → Reason → Result Reason (Unit {0})
require true reason = ok tt
require false reason = err reason

unfoldable pub is_trusted : List String → MandateClaims → Bool
unfolding any
is_trusted issuers claims = any (λ issuer. str_eq issuer claims.issuer) issuers

-- Whole seconds since the mandate was issued, at the time `now`.
unfoldable pub age : ℕ → MandateClaims → ℤ
age now claims = pos (now / 1000) -ℤ claims.issued_at

-- The checks on the claims, in their order.
unfoldable pub check_claims : Settings → List String → ℕ → MandateClaims → Result Reason (Unit {0})
unfolding require is_trusted age has_text
check_claims cfg issuers now claims = do
  require (is_trusted issuers claims) untrusted
  require (not (ltb_ℤ (pos (now / 1000)) claims.issued_at)) in_future
  require (not (ltb_ℤ cfg.max_age_seconds (age now claims))) too_old
  require (has_text claims.signature) blank_signature

-- The life of a used signature: `ex=300`.
abbrev pub replay_ms : ℕ
replay_ms = 300000

-- The claims that pass every check but the one on the signature's use.
unfoldable pub admissible :
    Settings → Codec → ℕ → String → Result Reason (List String) → Result Reason MandateClaims
unfolding valid_claims check_claims
admissible cfg codec now token issuers_call = do
  issuers ← issuers_call
  claims ← valid_claims (codec.decode token)
  check_claims cfg issuers now claims
  ok claims

unfoldable pub refuse : Reason → Verifier → Verifier × Result Reason MandateClaims
refuse reason v = (record v { failures = v.failures ++ reason ∷ [] }, err reason)

-- The end of `verify_mandate`, by whether the signature is remembered.
unfoldable pub spend_once :
    Bool → Codec → ℕ → MandateClaims → Verifier → Verifier × Result Reason MandateClaims
unfolding refuse
spend_once true codec now claims v = refuse replayed v
spend_once false codec now claims v = (
  record v { seen = cache_set (codec.digest claims.signature) true replay_ms now v.seen },
  ok claims,
)

unfoldable pub spend :
    Codec → ℕ → Result Reason MandateClaims → Verifier → Verifier × Result Reason MandateClaims
unfolding refuse spend_once
spend codec now (err reason) v = refuse reason v
spend codec now (ok claims) v =
    spend_once (is_some (cache_get (codec.digest claims.signature) now v.seen)) codec now claims v

-- `verify_mandate` at the time `now`. A refusal is recorded; the exception that it raises is always
-- the same towards the caller.
unfoldable pub verify_mandate :
    Settings
    → Codec
    → ℕ
    → Option String
    → String
    → Verifier
    → Verifier × Result Reason MandateClaims
unfolding issuers_for admissible spend
verify_mandate cfg codec now merchant_id token v =
    let (v', issuers) = issuers_for cfg merchant_id v in
    spend codec now (admissible cfg codec now token issuers) v'
