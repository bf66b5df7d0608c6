-- ===== src/Mandate/Accepted.antt =====
-- Which mandates are accepted.
use merchant_ai_agent.Base.{
  ℕ, ◌/◌, ◌≡◌, ◌↔◌, refl, String, Bool, true, false, not, ◌||◌, Option, none, some, List, str_eq,
  is_some, arith, subst, ap, ◌∙◌,
}
use merchant_ai_agent.Base.Int.{pos, ltb_ℤ}
use merchant_ai_agent.Base.Results.{Result, ok, err, ◌>>◌, bind-returned, ok-injective}
use merchant_ai_agent.Inventory.{cache_get}
use merchant_ai_agent.Strings.{has_text}
use merchant_ai_agent.Mandate.{
  MandateClaims, Settings, Reason, Codec, Verifier, issuers_for, valid_claims, require, is_trusted,
  age, check_claims, admissible, refuse, spend_once, spend, verify_mandate,
}

-- What a mandate has to be.
pub record IsAcceptable (cfg : Settings) (codec : Codec) (now : ℕ) (merchant_id : Option String)
    (token : String) (v : Verifier) (claims : MandateClaims) : Type 0 where
  pub issuers : List String
  pub has_issuers : (issuers_for cfg merchant_id v).1 ≡ ok issuers
  pub is_decoded : codec.decode token ≡ some claims
  pub is_complete :
      (str_eq claims.issuer "" || str_eq claims.subject "" || str_eq claims.signature "") ≡ false
  pub has_trust : is_trusted issuers claims ≡ true
  pub is_past : ltb_ℤ (pos (now / 1000)) claims.issued_at ≡ false
  pub is_recent : ltb_ℤ cfg.max_age_seconds (age now claims) ≡ false
  pub is_signed : has_text claims.signature ≡ true
  pub is_unused :
      is_some (cache_get (codec.digest claims.signature) now (issuers_for cfg merchant_id v).0.seen)
      ≡ false

all_required :
    (a b c d : Bool) (p q r s : Reason)
    → (do require a p; require b q; require c r; require d s) ≡ ok tt
    → (a ≡ true) × (b ≡ true) × (c ≡ true) × (d ≡ true)
unfolding require
all_required true true true true p q r s h = (refl, refl, refl, refl)
all_required true true true false p q r s h = cc
all_required true true false d p q r s h = cc
all_required true false c d p q r s h = cc
all_required false b c d p q r s h = cc

not-true : (b : Bool) → not b ≡ true → b ≡ false
not-true true h = cc
not-true false h = refl

valid_complete :
    (o : Option MandateClaims) (claims : MandateClaims)
    → valid_claims o ≡ ok claims
    → (o ≡ some claims)
      × ((str_eq claims.issuer "" || str_eq claims.subject "" || str_eq claims.signature "")
          ≡ false)
unfolding valid_claims
valid_complete none claims h = cc
valid_complete (some found) claims h = ground (arith, h)

pub admitted-decode :
    (cfg : Settings) (codec : Codec) (now : ℕ) (token : String) (call : Result Reason (List String))
    (claims : MandateClaims)
    → admissible cfg codec now token call ≡ ok claims
    → codec.decode token ≡ some claims
unfolding admissible
admitted-decode cfg codec now token call claims h =
    let (issuers, has, h₁) = bind-returned call _ claims h in
    let (found, valid, h₂) = bind-returned (valid_claims (codec.decode token)) _ claims h₁ in
    let (_, checks, h₃) =
      bind-returned (check_claims cfg issuers now found) (λ _. ok found) claims h₂ in
    (valid_complete (codec.decode token) found valid).0 ∙ ap some (ok-injective found claims h₃)

admitted-IsAcceptable :
    (cfg : Settings) (codec : Codec) (now : ℕ) (merchant_id : Option String) (token : String)
    (v : Verifier) (claims : MandateClaims)
    → admissible cfg codec now token (issuers_for cfg merchant_id v).1 ≡ ok claims
    → is_some (cache_get (codec.digest claims.signature) now (issuers_for cfg merchant_id v).0.seen)
      ≡ false
    → IsAcceptable cfg codec now merchant_id token v claims
unfolding admissible check_claims
admitted-IsAcceptable cfg codec now merchant_id token v claims h unused =
    let (issuers, has, h₁) = bind-returned (issuers_for cfg merchant_id v).1 _ claims h in
    let (found, valid, h₂) = bind-returned (valid_claims (codec.decode token)) _ claims h₁ in
    let (_, checks, h₃) =
      bind-returned (check_claims cfg issuers now found) (λ _. ok found) claims h₂ in
    let same : found ≡ claims = ok-injective found claims h₃ in
    let (trust, past, recent, signed) = all_required _ _ _ _ _ _ _ _ checks in
    let (decoded, complete) = valid_complete (codec.decode token) found valid in
    subst (IsAcceptable cfg codec now merchant_id token v) same (record {
      issuers = issuers;
      has_issuers = has;
      is_decoded = decoded;
      is_complete = complete;
      has_trust = trust;
      is_past = not-true _ past;
      is_recent = not-true _ recent;
      is_signed = signed;
      is_unused = rw same unused;
    })

pub IsAcceptable-admitted :
    (cfg : Settings) (codec : Codec) (now : ℕ) (merchant_id : Option String) (token : String)
    (v : Verifier) (claims : MandateClaims)
    → IsAcceptable cfg codec now merchant_id token v claims
    → admissible cfg codec now token (issuers_for cfg merchant_id v).1 ≡ ok claims
unfolding admissible check_claims valid_claims require
IsAcceptable-admitted cfg codec now merchant_id token v claims a = rw a.has_issuers (
    rw a.is_decoded
      (rw a.is_complete (rw a.has_trust (rw a.is_past (rw a.is_recent (rw a.is_signed refl))))))

module _ (codec : Codec) (now : ℕ) (v : Verifier) where
  used : MandateClaims → Bool
  used claims = is_some (cache_get (codec.digest claims.signature) now v.seen)

  once-ok :
      (b : Bool) (found claims : MandateClaims)
      → (spend_once b codec now found v).1 ≡ ok claims
      → (found ≡ claims) × (b ≡ false)
  unfolding spend_once refuse
  once-ok true found claims h = cc
  once-ok false found claims h = (ok-injective found claims h, refl)

  spend-ok :
      (call : Result Reason MandateClaims) (claims : MandateClaims)
      → (spend codec now call v).1 ≡ ok claims
      → (call ≡ ok claims) × (used claims ≡ false)
  unfolding spend refuse used
  spend-ok (err reason) claims h = cc
  spend-ok (ok found) claims h =
      let (same, unused) = once-ok _ found claims h in
      (ap ok same, subst (λ c. used c ≡ false) same unused)

  ok-spend :
      (call : Result Reason MandateClaims) (claims : MandateClaims)
      → call ≡ ok claims
      → used claims ≡ false
      → (spend codec now call v).1 ≡ ok claims
  unfolding spend spend_once used
  ok-spend call claims e unused = rw e (rw unused refl)

pub accepted_iff :
    (cfg : Settings) (codec : Codec) (now : ℕ) (merchant_id : Option String) (token : String)
    (v : Verifier) (claims : MandateClaims)
    → ((verify_mandate cfg codec now merchant_id token v).1 ≡ ok claims)
      ↔ IsAcceptable cfg codec now merchant_id token v claims
unfolding verify_mandate used
accepted_iff cfg codec now merchant_id token v claims = (accepted, accepts)
  where
    call : Result Reason MandateClaims
    call = admissible cfg codec now token (issuers_for cfg merchant_id v).1

    accepted :
        (verify_mandate cfg codec now merchant_id token v).1 ≡ ok claims
        → IsAcceptable cfg codec now merchant_id token v claims
    accepted h =
        let (admitted, unused) =
          spend-ok codec now (issuers_for cfg merchant_id v).0 call claims h in
        admitted-IsAcceptable cfg codec now merchant_id token v claims admitted unused

    accepts :
        IsAcceptable cfg codec now merchant_id token v claims
        → (verify_mandate cfg codec now merchant_id token v).1 ≡ ok claims
    accepts a =
        ok-spend codec now (issuers_for cfg merchant_id v).0 call claims
          (IsAcceptable-admitted cfg codec now merchant_id token v claims a) a.is_unused
