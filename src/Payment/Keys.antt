-- ===== src/Payment/Keys.antt =====
-- Which keys the payment service uses towards the provider, over any sequence of requests.
use merchant_ai_agent.Base.{
  ℕ, ◌≡◌, ◌⊎◌, inl, inr, refl, String, Bool, true, false, Option, none, some, List, [], ◌∷◌, ◌++◌,
  str_eq, All, All-append, arith, subst, sym, Bool-cases,
}
use merchant_ai_agent.Base.Results.{Result, ok, err}
use merchant_ai_agent.Uuid.{Uuid, codes, parse_uuid}
use merchant_ai_agent.Strings.{has_text}
use merchant_ai_agent.Merchant.{Merchant, merchant_by_id}
use merchant_ai_agent.Merchant.Dict.{get, alive}
use merchant_ai_agent.Payment.{
  MerchantCredentials, Provider, ProviderCall, posts, cancels, Payments, RazorpayClientError,
  RazorpayClient, fake, real, is_test_key, is_mode, client_for_keys, get_razorpay_client, from_row,
  from_db, or_from_db, get_credentials,
}
use merchant_ai_agent.Payment.Router.{
  CreatePaymentLinkRequest, Link, link_payload, record_link, create_with, create_payment_link,
  cancel_reply, cancel_with, cancel_found, cancel_payment_link,
}

pub data Request : Type 0 where
  create_link : ℕ → CreatePaymentLinkRequest → Request
  cancel_link : ℕ → String → String → Request

module _ (decrypt : String → Option String) (provider : Provider) (mode : String) (ttl : ℕ) where
  unfoldable pub serve : Request → Payments → Payments
  unfolding create_payment_link cancel_payment_link
  serve (create_link now r) s = (create_payment_link decrypt provider mode ttl now r s).0
  serve (cancel_link now merchant_id invoice_id) s =
      (cancel_payment_link decrypt provider mode now merchant_id invoice_id s).0

  unfoldable pub serve_all : List Request → Payments → Payments
  unfolding serve
  serve_all [] s = s
  serve_all (q ∷ qs) s = serve_all qs (serve q s)

-- Keys that may be used in a mode.
pub record IsAllowed (mode : String) (c : MerchantCredentials) : Type 0 where
  pub has_id : has_text c.key_id ≡ true
  pub has_secret : has_text c.key_secret ≡ true
  pub not_fake : is_mode mode "fake" ≡ false
  pub matches :
      ((is_mode mode "test" ≡ true)
        × (is_test_key c.key_id ≡ true)
        × (is_test_key c.key_secret ≡ true))
      ⊎ ((is_mode mode "live" ≡ true) × (is_test_key c.key_id ≡ false))

abbrev pub keys_of : ProviderCall → MerchantCredentials
keys_of (posts c payload) = c
keys_of (cancels c link) = c

abbrev pub AllAllowed : String → List ProviderCall → Type 0
AllAllowed mode = All (λ call. IsAllowed mode (keys_of call))

client_same :
    (mode : String) (c d : MerchantCredentials) → client_for_keys mode c ≡ ok (real d) → c ≡ d
unfolding client_for_keys
client_same mode c d h = ground arith

-- The client that is returned has passed the checks.
kept_keys :
    (mode : String) (c d : MerchantCredentials)
    → is_mode mode "fake" ≡ false
    → client_for_keys mode c ≡ ok (real d)
    → IsAllowed mode c
unfolding client_for_keys
kept_keys mode c d other h = record {
  has_id = ground arith;
  has_secret = ground arith;
  not_fake = other;
  matches = elim (Bool-cases (is_mode mode "test")) [
    | inl test ↦ inl (test, ground arith, ground arith)
    | inr not_test ↦ inr (ground arith, ground arith)
  ];
}

keys-IsAllowed :
    (mode : String) (o : Option MerchantCredentials) (d : MerchantCredentials)
    → get_razorpay_client mode o ≡ ok (real d)
    → IsAllowed mode d
unfolding get_razorpay_client
keys-IsAllowed mode none d h = ground arith
keys-IsAllowed mode (some c) d h = elim (Bool-cases (is_mode mode "fake")) [
  | inl is_fake ↦ ground arith
  | inr other ↦
      let kept : client_for_keys mode c ≡ ok (real d) = ground arith in
      subst (IsAllowed mode) (client_same mode c d kept) (kept_keys mode c d other kept)
]

-- Looking up the credentials makes no call and touches no link.
abbrev pub Untouched : Payments → Payments → Type 0
Untouched s t = (t.calls ≡ s.calls) × (t.links ≡ s.links)

module _ (decrypt : String → Option String) (merchant_id : String) where
  row-Untouched :
      (o : Option Merchant) (s : Payments) → Untouched s (from_row decrypt merchant_id o s).0
  unfolding from_row
  row-Untouched none s = (refl, refl)
  row-Untouched (some m) s = ground arith

  db-Untouched : (o : Option Uuid) (s : Payments) → Untouched s (from_db decrypt merchant_id o s).0
  unfolding from_db
  db-Untouched none s = (refl, refl)
  db-Untouched (some id) s = row-Untouched (merchant_by_id id s.merchants) s

  or_db-Untouched :
      (o : Option MerchantCredentials) (s : Payments)
      → Untouched s (or_from_db decrypt merchant_id o s).0
  unfolding or_from_db
  or_db-Untouched none s = db-Untouched (parse_uuid (codes merchant_id)) s
  or_db-Untouched (some c) s = (refl, refl)

  pub credentials-Untouched : (s : Payments) → Untouched s (get_credentials decrypt merchant_id s).0
  unfolding get_credentials
  credentials-Untouched s = or_db-Untouched _ s

record-calls :
    (ttl now : ℕ) (invoice_id : String) (call : Result RazorpayClientError Link) (s : Payments)
    → (record_link ttl now invoice_id call s).0.calls ≡ s.calls
unfolding record_link
record-calls ttl now invoice_id (ok link) s = refl
record-calls ttl now invoice_id (err e) s = refl

reply-calls :
    (invoice_id : String) (done : Bool) (s : Payments)
    → (cancel_reply invoice_id done s).0.calls ≡ s.calls
unfolding cancel_reply
reply-calls invoice_id true s = refl
reply-calls invoice_id false s = refl

module _ (decrypt : String → Option String) (provider : Provider) (mode : String) where
  AllAllowed-add :
      (calls : List ProviderCall) (call : ProviderCall)
      → AllAllowed mode calls
      → IsAllowed mode (keys_of call)
      → AllAllowed mode (calls ++ call ∷ [])
  AllAllowed-add calls call h new = All-append _ calls (call ∷ []) h (new, tt)

  create-AllAllowed :
      (ttl now : ℕ) (r : CreatePaymentLinkRequest) (o : Option MerchantCredentials)
      (call : Result RazorpayClientError RazorpayClient) (s : Payments)
      → get_razorpay_client mode o ≡ call
      → AllAllowed mode s.calls
      → AllAllowed mode (create_with decrypt provider mode ttl now r call s).0.calls
  unfolding create_with
  create-AllAllowed ttl now r o (err e) s made h = h
  create-AllAllowed ttl now r o (ok fake) s made h = rw (record-calls _ _ _ _ _) h
  create-AllAllowed ttl now r o (ok (real c)) s made h =
      rw (record-calls _ _ _ _ _)
        (AllAllowed-add s.calls (posts c (link_payload ttl now r)) h (keys-IsAllowed mode o c made))

  cancel-AllAllowed :
      (invoice_id link : String) (o : Option MerchantCredentials)
      (call : Result RazorpayClientError RazorpayClient) (s : Payments)
      → get_razorpay_client mode o ≡ call
      → AllAllowed mode s.calls
      → AllAllowed mode (cancel_with decrypt provider mode invoice_id link call s).0.calls
  unfolding cancel_with
  cancel-AllAllowed invoice_id link o (err e) s made h = h
  cancel-AllAllowed invoice_id link o (ok fake) s made h = rw (reply-calls _ _ _) h
  cancel-AllAllowed invoice_id link o (ok (real c)) s made h =
      rw (reply-calls _ _ _)
        (AllAllowed-add s.calls (cancels c link) h (keys-IsAllowed mode o c made))

  found-AllAllowed :
      (merchant_id invoice_id : String) (o : Option String) (s : Payments)
      → AllAllowed mode s.calls
      → AllAllowed mode (cancel_found decrypt provider mode merchant_id invoice_id o s).0.calls
  unfolding cancel_found
  found-AllAllowed merchant_id invoice_id none s h = h
  found-AllAllowed merchant_id invoice_id (some link) s h = elim (Bool-cases (str_eq link "")) [
    | inl blank ↦ rw blank h
    | inr link_there ↦ rw link_there (
        cancel-AllAllowed invoice_id link (get_credentials decrypt merchant_id s).1 _
          (get_credentials decrypt merchant_id s).0 refl
          (subst (AllAllowed mode) (sym (credentials-Untouched decrypt merchant_id s).0) h))
  ]

  serve-AllAllowed :
      (ttl : ℕ) (q : Request) (s : Payments)
      → AllAllowed mode s.calls
      → AllAllowed mode (serve decrypt provider mode ttl q s).calls
  unfolding serve create_payment_link cancel_payment_link
  serve-AllAllowed ttl (create_link now r) s h =
      create-AllAllowed ttl now r (get_credentials decrypt r.merchant_id s).1 _
        (get_credentials decrypt r.merchant_id s).0 refl
        (subst (AllAllowed mode) (sym (credentials-Untouched decrypt r.merchant_id s).0) h)
  serve-AllAllowed ttl (cancel_link now merchant_id invoice_id) s h =
      found-AllAllowed merchant_id invoice_id (alive now (get invoice_id s.links)) s h

  -- Whatever links are created and cancelled, the provider is called with complete keys only: never in
  -- the mode "fake", with test keys alone in the mode "test", and with no test key id in the mode
  -- "live".
  pub serve_all-AllAllowed :
      (ttl : ℕ) (qs : List Request) (s : Payments)
      → AllAllowed mode s.calls
      → AllAllowed mode (serve_all decrypt provider mode ttl qs s).calls
  unfolding serve_all
  serve_all-AllAllowed ttl [] s h = h
  serve_all-AllAllowed ttl (q ∷ qs) s h =
      serve_all-AllAllowed ttl qs (serve decrypt provider mode ttl q s) (serve-AllAllowed ttl q s h)
