-- ===== src/Mandate/Replay.antt =====
-- A signature that was accepted is refused for as long as Redis remembers it.
use merchant_ai_agent.Base.{
  ℕ, ◌+◌, ◌≤◌, ◌<◌, ◌≡◌, refl, String, Bool, true, false, Option, none, some, List, [], ◌∷◌, ◌==◌,
  ltb, is_some, if◌then◌else◌, arith, All, subst, sym, ap, ◌∙◌, ◌/◌,
}
use merchant_ai_agent.Base.Results.{Result, ok, err, ok-injective}
use merchant_ai_agent.Uuid.{Uuid, codes, parse_uuid}
use merchant_ai_agent.Inventory.{Cache, cache_set, cache_get}
use merchant_ai_agent.Mandate.Accepted.{IsAcceptable-admitted, accepted_iff, admitted-decode}
use merchant_ai_agent.Base.Int.{ℤ, pos, ltb_ℤ, ◌-ℤ◌}
use merchant_ai_agent.Mandate.{
  MandateClaims, Settings, Reason, replayed, Codec, Verifier, issuers_for, load_row, load_uuid,
  load_cached, load_merchant_trusted_issuers, cached_issuers, merchant_row, age, admissible, refuse,
  spend_once, spend, verify_mandate, replay_ms,
}

get-set :
    (k j now ttl n : ℕ) (c : Cache Bool)
    → cache_get k n (cache_set j true ttl now c)
      ≡ (if j == k then (if ltb n (now + ttl) then some true else none) else cache_get k n c)
unfolding cache_get cache_set
get-set k j now ttl n [] = ground arith
get-set k j now ttl n ((i, e) ∷ c) = ground (arith, get-set k j now ttl n c)

-- Redis remembers the key until the time `e` at least.
IsRemembered : ℕ → ℕ → Cache Bool → Type 0
IsRemembered k e c = (n : ℕ) → n < e → is_some (cache_get k n c) ≡ true

set-IsRemembered :
    (k j now ttl e : ℕ) (c : Cache Bool)
    → e ≤ now + ttl
    → IsRemembered k e c
    → IsRemembered k e (cache_set j true ttl now c)
unfolding IsRemembered
set-IsRemembered k j now ttl e c le h n lt = ground (arith, get-set k j now ttl n c, h n lt)

set_self-IsRemembered :
    (k now ttl : ℕ) (c : Cache Bool) → IsRemembered k (now + ttl) (cache_set k true ttl now c)
unfolding IsRemembered
set_self-IsRemembered k now ttl c n lt = ground (arith, get-set k k now ttl n c)

-- A call of the verifier.
pub record Call : Type 0 where
  pub now : ℕ
  pub merchant_id : Option String
  pub token : String

unfoldable pub verify_all : Settings → Codec → List Call → Verifier → Verifier
verify_all cfg codec [] v = v
verify_all cfg codec (call ∷ calls) v =
    verify_all cfg codec calls (verify_mandate cfg codec call.now call.merchant_id call.token v).0

spend-IsRemembered :
    (codec : Codec) (k e now : ℕ) (call : Result Reason MandateClaims) (v : Verifier)
    → e ≤ now + replay_ms
    → IsRemembered k e v.seen
    → IsRemembered k e (spend codec now call v).0.seen
unfolding spend spend_once refuse
spend-IsRemembered codec k e now (err reason) v le h = h
spend-IsRemembered codec k e now (ok claims) v le h =
    go (is_some (cache_get (codec.digest claims.signature) now v.seen))
  where
    go : (b : Bool) → IsRemembered k e (spend_once b codec now claims v).0.seen
    go true = h
    go false = set-IsRemembered k (codec.digest claims.signature) now replay_ms e v.seen le h

row-seen :
    (text : String) (id : Uuid) (row : Option (List String)) (v : Verifier)
    → (load_row text id row v).0.seen ≡ v.seen
unfolding load_row
row-seen text id none v = refl
row-seen text id (some row) v = refl

uuid-seen :
    (text : String) (id : Option Uuid) (v : Verifier) → (load_uuid text id v).0.seen ≡ v.seen
unfolding load_uuid
uuid-seen text none v = refl
uuid-seen text (some id) v = row-seen text id (merchant_row id v.merchants) v

cached-seen :
    (text : String) (cached : Option (List String)) (v : Verifier)
    → (load_cached text cached v).0.seen ≡ v.seen
unfolding load_cached
cached-seen text (some issuers) v = refl
cached-seen text none v = uuid-seen text (parse_uuid (codes text)) v

-- The search for the issuers leaves the memory of signatures alone.
issuers_for-seen :
    (cfg : Settings) (merchant_id : Option String) (v : Verifier)
    → (issuers_for cfg merchant_id v).0.seen ≡ v.seen
unfolding issuers_for load_merchant_trusted_issuers
issuers_for-seen cfg none v = refl
issuers_for-seen cfg (some text) v =
    ground (arith, cached-seen text (cached_issuers text v.issuer_cache) v)

verify-IsRemembered :
    (cfg : Settings) (codec : Codec) (k e : ℕ) (call : Call) (v : Verifier)
    → e ≤ call.now + replay_ms
    → IsRemembered k e v.seen
    → IsRemembered k e (verify_mandate cfg codec call.now call.merchant_id call.token v).0.seen
unfolding verify_mandate
verify-IsRemembered cfg codec k e call v le h =
    spend-IsRemembered codec k e call.now _ (issuers_for cfg call.merchant_id v).0 le
      (subst (IsRemembered k e) (sym (issuers_for-seen cfg call.merchant_id v)) h)

verify_all-IsRemembered :
    (cfg : Settings) (codec : Codec) (k t : ℕ) (calls : List Call) (v : Verifier)
    → All (λ call. t ≤ call.now) calls
    → IsRemembered k (t + replay_ms) v.seen
    → IsRemembered k (t + replay_ms) (verify_all cfg codec calls v).seen
unfolding verify_all
verify_all-IsRemembered cfg codec k t [] v le h = h
verify_all-IsRemembered cfg codec k t (call ∷ calls) v (le, les) h =
    verify_all-IsRemembered cfg codec k t calls _ les
      (verify-IsRemembered cfg codec k (t + replay_ms) call v (omega arith) h)

spent-IsRemembered :
    (codec : Codec) (now : ℕ) (call : Result Reason MandateClaims) (v : Verifier)
    (claims : MandateClaims)
    → (spend codec now call v).1 ≡ ok claims
    → IsRemembered (codec.digest claims.signature) (now + replay_ms) (spend codec now call v).0.seen
unfolding spend refuse spend_once
spent-IsRemembered codec now (err reason) v claims h = cc
spent-IsRemembered codec now (ok found) v claims h =
    go (is_some (cache_get (codec.digest found.signature) now v.seen)) h
  where
    go :
        (b : Bool)
        → (spend_once b codec now found v).1 ≡ ok claims
        → IsRemembered
            (codec.digest claims.signature)
            (now + replay_ms)
            (spend_once b codec now found v).0.seen
    go true h = cc
    go false h =
        let kept = set_self-IsRemembered (codec.digest found.signature) now replay_ms v.seen in
        subst
          (λ (c : MandateClaims).
            IsRemembered (codec.digest c.signature) (now + replay_ms)
              (cache_set (codec.digest found.signature) true replay_ms now v.seen))
          (ok-injective found claims h) kept

refused :
    (codec : Codec) (k e now : ℕ) (call : Result Reason MandateClaims) (v : Verifier)
    → now < e
    → IsRemembered k e v.seen
    → ((found : MandateClaims) → call ≡ ok found → codec.digest found.signature ≡ k)
    → (reason : Reason) × ((spend codec now call v).1 ≡ err reason)
unfolding spend spend_once refuse IsRemembered
refused codec k e now (err reason) v lt h same = (reason, refl)
refused codec k e now (ok found) v lt h same = (replayed, rw (same found refl) (rw (h now lt) refl))

-- Once a mandate was accepted, no mandate with its signature is accepted for the next 300 seconds,
-- whatever its claims and its merchant, and whatever other mandates were looked at in between.
pub replay_refused :
    (cfg : Settings) (codec : Codec) (t : ℕ) (merchant_id : Option String) (token : String)
    (v : Verifier) (claims again : MandateClaims) (calls : List Call) (later : Call)
    → (verify_mandate cfg codec t merchant_id token v).1 ≡ ok claims
    → All (λ call. t ≤ call.now) calls
    → later.now < t + replay_ms
    → codec.decode later.token ≡ some again
    → again.signature ≡ claims.signature
    → let w = verify_all cfg codec calls (verify_mandate cfg codec t merchant_id token v).0 in
      (reason : Reason) × ((verify_mandate cfg codec later.now later.merchant_id later.token w).1
        ≡ err reason)
unfolding verify_mandate
replay_refused cfg codec t merchant_id token v claims again calls later accepted times soon decoded
      same =
    let v₁ = (issuers_for cfg merchant_id v).0 in
    let call = admissible cfg codec t token (issuers_for cfg merchant_id v).1 in
    let k = codec.digest claims.signature in
    let w = verify_all cfg codec calls (spend codec t call v₁).0 in
    let kept =
      verify_all-IsRemembered cfg codec k t calls _ times
        (spent-IsRemembered codec t call v₁ claims accepted) in
    let kept' =
      subst (IsRemembered k (t + replay_ms)) (sym (issuers_for-seen cfg later.merchant_id w))
        kept in
    refused codec k (t + replay_ms) later.now _ (issuers_for cfg later.merchant_id w).0 soon kept'
      (λ found e.
        let read = admitted-decode cfg codec later.now later.token _ found e in
        ap codec.digest (same_signature found (sym decoded ∙ read)))
  where
    same_signature :
        (found : MandateClaims) → some again ≡ some found → found.signature ≡ claims.signature
    same_signature found e =
        let equal : found ≡ again = cc in ap (λ (c : MandateClaims). c.signature) equal ∙ same

later_past : (t : ℕ) (z : ℤ) → z ≡ pos (t / 1000) → ltb_ℤ (pos ((t + 300000) / 1000)) z ≡ false
later_past t z e = rw e (ground arith)

later_recent :
    (t : ℕ) (z limit : ℤ)
    → z ≡ pos (t / 1000)
    → limit ≡ pos 300
    → ltb_ℤ limit (pos ((t + 300000) / 1000) -ℤ z) ≡ false
unfolding ◌-ℤ◌
later_recent t z limit e l =
    let later : (t + 300000) / 1000 ≡ t / 1000 + 300 = omega arith in
    rw e (rw l (rw later (ground arith)))

-- The entry that an accepted mandate leaves has expired after its life.
spent_forgotten :
    (codec : Codec) (t : ℕ) (call : Result Reason MandateClaims) (v : Verifier)
    (claims : MandateClaims)
    → call ≡ ok claims
    → is_some (cache_get (codec.digest claims.signature) t v.seen) ≡ false
    → is_some (cache_get (codec.digest claims.signature) (t + 300000) (spend codec t call v).0.seen)
      ≡ false
unfolding spend spend_once
spent_forgotten codec t call v claims e unused =
    let k = codec.digest claims.signature in
    rw e (rw unused (ground (arith, get-set k k t 300000 (t + 300000) v.seen)))

-- The memory lasts as long as the age that the settings allow by default, and ages are counted in
-- whole seconds: a mandate that was accepted in the second in which it was issued is accepted again
-- 300 seconds later.
pub reaccepted_after_window :
    (cfg : Settings) (codec : Codec) (t : ℕ) (token : String) (v : Verifier)
    (claims : MandateClaims)
    → cfg.max_age_seconds ≡ pos 300
    → claims.issued_at ≡ pos (t / 1000)
    → (verify_mandate cfg codec t none token v).1 ≡ ok claims
    → let w = (verify_mandate cfg codec t none token v).0 in
      (verify_mandate cfg codec (t + 300000) none token w).1 ≡ ok claims
unfolding verify_mandate issuers_for age
reaccepted_after_window cfg codec t token v claims limit issued accepted =
    let w = (verify_mandate cfg codec t none token v).0 in
    let a = (accepted_iff cfg codec t none token v claims).0 accepted in
    (accepted_iff cfg codec (t + 300000) none token w claims).1 (record {
      issuers = a.issuers;
      has_issuers = a.has_issuers;
      is_decoded = a.is_decoded;
      is_complete = a.is_complete;
      has_trust = a.has_trust;
      is_past = later_past t claims.issued_at issued;
      is_recent = later_recent t claims.issued_at cfg.max_age_seconds issued limit;
      is_signed = a.is_signed;
      is_unused =
          spent_forgotten codec t _ v claims
            (IsAcceptable-admitted cfg codec t none token v claims a) a.is_unused;
    })
