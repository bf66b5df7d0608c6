-- ===== src/Auth/Account.antt =====
-- Who has signed up can log in, and the token that is given opens the profile.
use merchant_ai_agent.Base.{
  ℕ, ◌+◌, ◌^◌, ◌<◌, ◌≤◌, ◌≡◌, refl, String, true, Option, none, some, List, [], ◌∷◌, ◌++◌, str_eq,
  eq_refl, ltb, ◌==◌, arith, subst, Bool-cases, inl, inr,
}
use merchant_ai_agent.Base.Results.{ok}
use merchant_ai_agent.Uuid.Shown.Parses.{show_uuid-parses}
use merchant_ai_agent.Uuid.{Uuid, show_uuid, codes, parse_uuid}
use merchant_ai_agent.Merchant.{
  Merchant, merchant_by_id, sync_merchant_cache, CacheWrites, both_written, first_written,
  none_written, sync_with,
}
use merchant_ai_agent.Auth.{
  Crypto, IsSound, MerchantSignupRequest, AuthResponse, MerchantProfileResponse, lower_text,
  token_subject, with_subject, create_access_token,
}
use merchant_ai_agent.Auth.Service.{
  Accounts, answered, merchant_by_email, profile_from_merchant, new_merchant, enter, auth_response,
  signup, login_as, login, if_active, merchant_of_id, merchant_of_subject, get_current_merchant,
  get_profile,
}
use merchant_ai_agent.Auth.Requests.{signup-made}

by_email-append :
    (email : String) (ms : List Merchant) (m : Merchant)
    → merchant_by_email email ms ≡ none
    → str_eq m.email email ≡ true
    → merchant_by_email email (ms ++ m ∷ []) ≡ some m
unfolding merchant_by_email
by_email-append email [] m h same = rw same refl
by_email-append email (n ∷ ms) m h same = elim (Bool-cases (str_eq n.email email)) [
  | inl e ↦ cc (rw e at h)
  | inr e ↦ rw e (by_email-append email ms m (rw e at h) same)
]

by_id-append :
    (id : Uuid) (ms : List Merchant) (m : Merchant)
    → merchant_by_id id ms ≡ none
    → m.id ≡ id
    → merchant_by_id id (ms ++ m ∷ []) ≡ some m
unfolding merchant_by_id
by_id-append id [] m h same = ground arith
by_id-append id (n ∷ ms) m h same = elim (Bool-cases (n.id == id)) [
  | inl e ↦ cc (rw e at h)
  | inr e ↦ rw e (by_id-append id ms m (rw e at h) same)
]

profile-same :
    (crypto : Crypto) (life later : ℕ) (m : Merchant)
    → (auth_response crypto life later m).profile ≡ profile_from_merchant m
unfolding auth_response
profile-same crypto life later m = refl

module _ (crypto : Crypto) (sound : IsSound crypto) (life : ℕ) where
  subject_of_token :
      (now t : ℕ) (text email : String)
      → now ≤ t
      → ltb t (now + life) ≡ true
      → token_subject crypto t (create_access_token crypto life now text email) ≡ some text
  unfolding token_subject create_access_token with_subject
  subject_of_token now t text email begun early =
      sound.decodes (record { sub = some text; email = email; iat = now; exp = now + life }) t
        (ground arith) early

  merchant-opens :
      (text : String) (id : Uuid) (m : Merchant) (ms : List Merchant)
      → parse_uuid (codes text) ≡ some id
      → merchant_by_id id ms ≡ some m
      → m.is_active ≡ true
      → merchant_of_subject (some text) ms ≡ ok m
  unfolding merchant_of_subject merchant_of_id if_active
  merchant-opens text id m ms printed found active = rw (printed, found, active) refl

  -- The profile that a token of `m` opens.
  opens :
      (now t : ℕ) (m : Merchant) (a : Accounts)
      → parse_uuid (codes (show_uuid m.id)) ≡ some m.id
      → merchant_by_id m.id a.merchants ≡ some m
      → m.is_active ≡ true
      → now ≤ t
      → ltb t (now + life) ≡ true
      → get_profile crypto t (some (auth_response crypto life now m).access_token) a
        ≡ ok (profile_from_merchant m)
  unfolding get_profile get_current_merchant auth_response
  opens now t m a printed found active begun early =
      rw
        (
          subject_of_token now t (show_uuid m.id) m.email begun early,
          merchant-opens (show_uuid m.id) m.id m a.merchants printed found active,
        )
        refl

  -- What logging in as the row `m` gives.
  logs_in :
      (now : ℕ) (password : String) (m : Merchant) (a : Accounts)
      → m.is_active ≡ true
      → crypto.verify password m.password_hash ≡ true
      → login_as crypto life both_written now password (some m) a
        ≡ ok (
          record a { cache = sync_merchant_cache m a.cache },
          ok (auth_response crypto life now m),
        )
  unfolding login_as
  logs_in now password m a active verified = rw (active, verified) refl

  -- The log-in succeeds, and its token opens the profile of the sign-up.
  abbrev pub CanLogIn : ℕ → ℕ → String → String → Accounts → MerchantProfileResponse → Type 0
  CanLogIn later t email password b profile =
      (c : Accounts) × (again : AuthResponse) × (login crypto life both_written later email password
          b
        ≡ ok (c, ok again))
      × (again.profile ≡ profile)
      × (get_profile crypto t (some again.access_token) c ≡ ok profile)

  entered-CanLogIn :
      (w : CacheWrites) (id : Uuid) (salt now : ℕ) (r : MerchantSignupRequest)
      (issuers : List String) (secret : Option String) (a : Accounts) (email : String) (later t : ℕ)
      → parse_uuid (codes (show_uuid id)) ≡ some id
      → merchant_by_id id a.merchants ≡ none
      → merchant_by_email (lower_text r.email) a.merchants ≡ none
      → lower_text email ≡ lower_text r.email
      → later ≤ t
      → ltb t (later + life) ≡ true
      → let m = new_merchant crypto id salt now r issuers secret in
        CanLogIn later t email r.password (enter crypto life now w m a).0 (profile_from_merchant m)
  unfolding enter login new_merchant
  entered-CanLogIn w id salt now r issuers secret a email later t printed new_id new_email same
        begun early =
      let m = new_merchant crypto id salt now r issuers secret in
      let b : Accounts = record {
        merchants = a.merchants ++ m ∷ [];
        cache = sync_with w m a.cache;
      } in
      let by_email : merchant_by_email (lower_text email) (a.merchants ++ m ∷ []) ≡ some m =
        rw same (
          by_email-append (lower_text r.email) a.merchants m new_email
            (eq_refl (lower_text r.email))) in
      (
        record b { cache = sync_merchant_cache m b.cache },
        auth_response crypto life later m,
        rw by_email (logs_in later r.password m b refl (sound.verifies r.password salt)),
        profile-same crypto life later m,
        opens later t m (record b { cache = sync_merchant_cache m b.cache }) printed
            (by_id-append id a.merchants m new_id refl) refl begun early,
      )

  -- What a sign-up that is answered shows is the profile of the row that it has added.
  reply-profile :
      (w : CacheWrites) (now : ℕ) (m : Merchant) (a : Accounts) (b : Accounts)
      (reply : AuthResponse)
      → enter crypto life now w m a ≡ (b, ok reply)
      → profile_from_merchant m ≡ reply.profile
  unfolding enter answered auth_response
  reply-profile both_written now m a b reply h = ground arith
  reply-profile first_written now m a b reply h = cc
  reply-profile none_written now m a b reply h = cc

  -- Who has signed up logs in with the same password, under any spelling of the email address in upper
  -- and lower case, if Redis is written, and is shown the same profile; from then on, until the token
  -- expires, it opens that profile. The id that was drawn is new and has 128 bits.
  pub signup_then_login :
      (w : CacheWrites) (id : Uuid) (salt now : ℕ) (r : MerchantSignupRequest) (a b : Accounts)
      (reply : AuthResponse) (email : String) (later t : ℕ)
      → id < 2 ^ 128
      → merchant_by_id id a.merchants ≡ none
      → signup crypto life w id salt now r a ≡ ok (b, ok reply)
      → lower_text email ≡ lower_text r.email
      → later ≤ t
      → ltb t (later + life) ≡ true
      → CanLogIn later t email r.password b reply.profile
  signup_then_login w id salt now r a b reply email later t bounded new_id h same begun early =
      let (issuers, secret, new_email, made) =
        signup-made crypto life w id salt now r a b (ok reply) h in
      let m = new_merchant crypto id salt now r issuers secret in
      let logged_in =
        entered-CanLogIn w id salt now r issuers secret a email later t
          (show_uuid-parses id bounded) new_id new_email same begun early in
      subst (λ p. CanLogIn later t email r.password b p) (reply-profile w now m a b reply made)
        (subst (λ pair. CanLogIn later t email r.password pair.0 (profile_from_merchant m)) made
          logged_in)
