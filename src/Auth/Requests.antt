-- ===== src/Auth/Requests.antt =====
-- The cache of the merchants over any sequence of requests to services/auth_service/router.py.
use merchant_ai_agent.Base.{
  ℕ, ◌≡◌, refl, String, Option, none, some, List, [], ◌∷◌, arith, ap, sym, ◌∙◌, subst,
}
use merchant_ai_agent.Base.Results.{Result, ok, err, bind-returned, ok-injective}
use merchant_ai_agent.Uuid.{Uuid, show_uuid, codes, parse_uuid}
use merchant_ai_agent.Merchant.{Merchant, CacheWrites, merchant_by_id, sync_with}
use merchant_ai_agent.Auth.{
  Crypto, MerchantSignupRequest, MerchantProfileUpdateRequest, MerchantProfileResponse,
  AuthResponse, lower_text, resolved_trusted_issuers, token_subject,
}
use merchant_ai_agent.Auth.Service.{
  Failure, Accounts, answered, merchant_by_email, profile_from_merchant, new_merchant, enter,
  signup, login_as, login, if_active, merchant_of_id, merchant_of_subject, get_current_merchant,
  apply_profile_update, commit_update, update_profile, validated_issuers, if_new, encrypt_given,
  valid_update, updated_issuers, updated_secret,
}
use merchant_ai_agent.Auth.Kept.{
  IsKept, failed_ids, weaker-IsSynced, IsAbsent, IsSynced, again-AllKept,
}
use merchant_ai_agent.Auth.Synced.{email-All, by_id-id, enter-IsSynced, commit-IsSynced}

pub data Request : Type 0 where
  signs_up : CacheWrites → Uuid → ℕ → ℕ → MerchantSignupRequest → Request
  logs_in : CacheWrites → ℕ → String → String → Request
  updates : CacheWrites → ℕ → ℕ → Option String → MerchantProfileUpdateRequest → Request

-- A request that fails before its commit leaves the accounts as they were.
unfoldable pub after : {A : Type 0} → Accounts → Result Failure (Accounts × A) → Accounts
after a (err e) = a
after a (ok (b, reply)) = b

new-none : (o : Option Merchant) (u : Unit {0}) → if_new o ≡ ok u → o ≡ none
unfolding if_new
new-none none u h = refl
new-none (some m) u h = cc

new-IsAbsent :
    (crypto : Crypto) (id : Uuid) (salt now : ℕ) (r : MerchantSignupRequest) (issuers : List String)
    (secret : Option String) (ms : List Merchant)
    → IsAbsent (show_uuid id) ms
    → IsAbsent (show_uuid (new_merchant crypto id salt now r issuers secret).id) ms
unfolding new_merchant
new-IsAbsent crypto id salt now r issuers secret ms h = h

-- The merchant of a token is a row.
active-some : (o : Option Merchant) (m : Merchant) → if_active o ≡ ok m → o ≡ some m
unfolding if_active
active-some none m h = cc
active-some (some n) m h = ground arith

id-found :
    (o : Option Uuid) (ms : List Merchant) (m : Merchant)
    → merchant_of_id o ms ≡ ok m
    → (id : Uuid) × (merchant_by_id id ms ≡ some m)
unfolding merchant_of_id
id-found none ms m h = cc
id-found (some id) ms m h = (id, active-some (merchant_by_id id ms) m h)

subject-found :
    (o : Option String) (ms : List Merchant) (m : Merchant)
    → merchant_of_subject o ms ≡ ok m
    → (id : Uuid) × (merchant_by_id id ms ≡ some m)
unfolding merchant_of_subject
subject-found none ms m h = cc
subject-found (some text) ms m h = id-found (parse_uuid (codes text)) ms m h

current-found :
    (crypto : Crypto) (now : ℕ) (token : Option String) (ms : List Merchant) (m : Merchant)
    → get_current_merchant crypto now token ms ≡ ok m
    → (id : Uuid) × (merchant_by_id id ms ≡ some m)
unfolding get_current_merchant
current-found crypto now none ms m h = cc
current-found crypto now (some token) ms m h = subject-found (token_subject crypto now token) ms m h

update-id :
    (crypto : Crypto) (salt now : ℕ) (r : MerchantProfileUpdateRequest) (m updated : Merchant)
    → apply_profile_update crypto salt now r m ≡ ok updated
    → updated.id ≡ m.id
unfolding apply_profile_update
update-id crypto salt now r m updated h =
    let (issuers, p, h1) =
      bind-returned
        (updated_issuers (resolved_trusted_issuers r.trusted_mandate_issuers r.trusted_issuers)
          m.trusted_issuers)
        _ updated h in
    let (secret, q, h2) =
      bind-returned (updated_secret crypto r.razorpay_key_secret m.razorpay_key_secret_encrypted) _
        updated h1 in
    ap (λ (n : Merchant). n.id) (sym (ok-injective _ updated h2))

-- The text of the id of a merchant, if there is one.
unfoldable pub ids_of : Option Merchant → List String
ids_of none = []
ids_of (some m) = show_uuid m.id ∷ []

unfoldable pub merchant_of : Result Failure Merchant → Option Merchant
merchant_of (err e) = none
merchant_of (ok m) = some m

module _ (crypto : Crypto) (life : ℕ) where
  unfoldable pub serve : Request → Accounts → Accounts
  unfolding after signup login update_profile
  serve (signs_up w id salt now r) a = after a (signup crypto life w id salt now r a)
  serve (logs_in w now email password) a = after a (login crypto life w now email password a)
  serve (updates w salt now token r) a = after a (update_profile crypto w salt now token r a)

  unfoldable pub serve_all : List Request → Accounts → Accounts
  unfolding serve
  serve_all [] a = a
  serve_all (q ∷ qs) a = serve_all qs (serve q a)

  -- The ids that are drawn are new.
  abbrev pub IsFresh : Request → Accounts → Type 0
  IsFresh (signs_up w id salt now r) a = IsAbsent (show_uuid id) a.merchants
  IsFresh (logs_in w now email password) a = Unit
  IsFresh (updates w salt now token r) a = Unit

  abbrev pub AllFresh : List Request → Accounts → Type 0
  AllFresh [] a = Unit
  AllFresh (q ∷ qs) a = IsFresh q a × AllFresh qs (serve q a)

  -- The ids whose keys may be behind their rows after a request: those before it, and the merchant that
  -- it is about if one of its writes to Redis fails.
  unfoldable pub behind_after : Request → Accounts → List String → List String
  unfolding failed_ids
  behind_after (signs_up w id salt now r) a = failed_ids w (show_uuid id ∷ [])
  behind_after (logs_in w now email password) a =
      failed_ids w (ids_of (merchant_by_email (lower_text email) a.merchants))
  behind_after (updates w salt now token r) a =
      failed_ids w (ids_of (merchant_of (get_current_merchant crypto now token a.merchants)))

  unfoldable pub behind_all : List Request → Accounts → List String → List String
  unfolding behind_after serve
  behind_all [] a behind = behind
  behind_all (q ∷ qs) a behind = behind_all qs (serve q a) (behind_after q a behind)

  after-IsSynced :
      {A : Type 0} (w : CacheWrites) (ids behind : List String) (a : Accounts)
      (call : Result Failure (Accounts × A))
      → IsSynced behind a
      → ((b : Accounts) (reply : A) → call ≡ ok (b, reply) → IsSynced (failed_ids w ids behind) b)
      → IsSynced (failed_ids w ids behind) (after a call)
  unfolding after
  after-IsSynced w ids behind a (err e) s h = weaker-IsSynced w ids behind a s
  after-IsSynced w ids behind a (ok (b, reply)) s h = h b reply refl

  -- What a signup that commits has made.
  pub signup-made :
      (w : CacheWrites) (id : Uuid) (salt now : ℕ) (r : MerchantSignupRequest) (a b : Accounts)
      (reply : Result Failure AuthResponse)
      → signup crypto life w id salt now r a ≡ ok (b, reply)
      → (issuers : List String) × (secret : Option String) × (merchant_by_email
            (lower_text r.email)
            a.merchants
          ≡ none)
        × (enter crypto life now w (new_merchant crypto id salt now r issuers secret) a
            ≡ (b, reply))
  unfolding signup
  signup-made w id salt now r a b reply h =
      let (issuers, p, h1) =
        bind-returned
          (validated_issuers r
            (resolved_trusted_issuers r.trusted_mandate_issuers r.trusted_issuers))
          _ (b, reply) h in
      let (u, q, h2) =
        bind-returned (if_new (merchant_by_email (lower_text r.email) a.merchants)) _ (b, reply)
          h1 in
      let (secret, t, h3) =
        bind-returned (encrypt_given crypto r.razorpay_key_secret) _ (b, reply) h2 in
      (issuers, secret, new-none _ u q, ok-injective _ (b, reply) h3)

  module _ (w : CacheWrites) (behind : List String) (a b : Accounts) (s : IsSynced behind a) where
    signup-IsSynced :
        (id : Uuid) (salt now : ℕ) (r : MerchantSignupRequest) (reply : Result Failure AuthResponse)
        → IsAbsent (show_uuid id) a.merchants
        → signup crypto life w id salt now r a ≡ ok (b, reply)
        → IsSynced (failed_ids w (show_uuid id ∷ []) behind) b
    unfolding new_merchant
    signup-IsSynced id salt now r reply fresh h =
        let (issuers, secret, new, made) = signup-made w id salt now r a b reply h in
        subst (λ pair. IsSynced (failed_ids w (show_uuid id ∷ []) behind) pair.0) made
          (enter-IsSynced crypto life now w behind
            (new_merchant crypto id salt now r issuers secret) a s
            (new-IsAbsent crypto id salt now r issuers secret a.merchants fresh))

    login_as-IsSynced :
        (now : ℕ) (password : String) (o : Option Merchant) (reply : Result Failure AuthResponse)
        → ((m : Merchant) → o ≡ some m → IsKept behind a.cache m)
        → login_as crypto life w now password o a ≡ ok (b, reply)
        → IsSynced (failed_ids w (ids_of o) behind) b
    unfolding login_as ids_of
    login_as-IsSynced now password none reply there h = cc
    login_as-IsSynced now password (some m) reply there h =
        let same : record a { cache = sync_with w m a.cache } ≡ b = ground arith in
        subst (IsSynced (failed_ids w (show_uuid m.id ∷ []) behind)) same (record {
          cached = again-AllKept w behind m a.cache a.merchants (there m refl) s.cached;
          distinct = s.distinct;
        })

    login-IsSynced :
        (now : ℕ) (email password : String) (reply : Result Failure AuthResponse)
        → login crypto life w now email password a ≡ ok (b, reply)
        → IsSynced
            (failed_ids w (ids_of (merchant_by_email (lower_text email) a.merchants)) behind)
            b
    unfolding login
    login-IsSynced now email password reply h =
        login_as-IsSynced now password (merchant_by_email (lower_text email) a.merchants) reply
          (λ m found.
            email-All (IsKept behind a.cache) (lower_text email) a.merchants m found s.cached)
          h

    update-IsSynced :
        (salt now : ℕ) (token : Option String) (r : MerchantProfileUpdateRequest)
        (reply : Result Failure MerchantProfileResponse)
        → update_profile crypto w salt now token r a ≡ ok (b, reply)
        → IsSynced
            (failed_ids w
              (ids_of (merchant_of (get_current_merchant crypto now token a.merchants)))
              behind)
            b
    unfolding update_profile merchant_of ids_of
    update-IsSynced salt now token r reply h =
        let (m, current, h1) =
          bind-returned (get_current_merchant crypto now token a.merchants) _ (b, reply) h in
        let (u, valid, h2) = bind-returned (valid_update r) _ (b, reply) h1 in
        let (updated, applied, h3) =
          bind-returned (apply_profile_update crypto salt now r m) _ (b, reply) h2 in
        let (id, found) = current-found crypto now token a.merchants m current in
        let same_id =
          update-id crypto salt now r m updated applied ∙ by_id-id id a.merchants m found in
        let ids : show_uuid updated.id ∷ []
            ≡ ids_of (merchant_of (get_current_merchant crypto now token a.merchants)) =
          ap (λ i. show_uuid i ∷ []) (update-id crypto salt now r m updated applied)
          ∙ sym (ap (λ c. ids_of (merchant_of c)) current) in
        subst (λ l. IsSynced (failed_ids w l behind) b) ids
          (subst (λ pair. IsSynced (failed_ids w (show_uuid updated.id ∷ []) behind) pair.0)
            (ok-injective (commit_update w updated a, answered w (profile_from_merchant updated))
              (b, reply) h3)
            (commit-IsSynced w behind updated m a s
              (subst (λ i. merchant_by_id i a.merchants ≡ some m) (sym same_id) found)))

  serve-IsSynced :
      (q : Request) (behind : List String) (a : Accounts)
      → IsSynced behind a
      → IsFresh q a
      → IsSynced (behind_after q a behind) (serve q a)
  unfolding serve behind_after
  serve-IsSynced (signs_up w id salt now r) behind a s fresh =
      after-IsSynced w _ behind a _ s
        (λ b reply h. signup-IsSynced w behind a b s id salt now r reply fresh h)
  serve-IsSynced (logs_in w now email password) behind a s fresh =
      after-IsSynced w _ behind a _ s
        (λ b reply h. login-IsSynced w behind a b s now email password reply h)
  serve-IsSynced (updates w salt now token r) behind a s fresh =
      after-IsSynced w _ behind a _ s
        (λ b reply h. update-IsSynced w behind a b s salt now token r reply h)

  -- After any sequence of sign-ups, log-ins and updates of profiles, the ids that are drawn being new,
  -- the two keys that Redis keeps of each merchant hold the payment keys and the trusted issuers of its
  -- row, unless a request about this merchant has failed to write Redis.
  pub serve_all-IsSynced :
      (qs : List Request) (behind : List String) (a : Accounts)
      → IsSynced behind a
      → AllFresh qs a
      → IsSynced (behind_all qs a behind) (serve_all qs a)
  unfolding serve_all behind_all
  serve_all-IsSynced [] behind a s fresh = s
  serve_all-IsSynced (q ∷ qs) behind a s fresh =
      serve_all-IsSynced qs (behind_after q a behind) (serve q a)
        (serve-IsSynced q behind a s fresh.0) fresh.1
