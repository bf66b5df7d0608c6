-- ===== src/Payment/Links.antt =====
-- A payment link that was created is the one that a cancellation of its invoice cancels.
use merchant_ai_agent.Base.{
  ℕ, ◌+◌, ◌<◌, ◌≡◌, refl, String, Bool, true, false, Option, none, some, List, [], ◌∷◌, ◌++◌,
  str_eq, if◌then◌else◌, All, ap, ◌∙◌, Bool-cases, inl, inr, eq_refl, lt→ltb,
}
use merchant_ai_agent.Base.Results.{Result, ok, err}
use merchant_ai_agent.Inventory.{Entry}
use merchant_ai_agent.Merchant.Dict.{get, get-put, get-drop, alive, lasting}
use merchant_ai_agent.Payment.{
  MerchantCredentials, Provider, cancels, Payments, RazorpayClientError, RazorpayClient, fake, real,
  get_razorpay_client, get_credentials,
}
use merchant_ai_agent.Payment.Router.{
  CreatePaymentLinkRequest, Link, record_link, create_with, create_payment_link, cancel_reply,
  cancel_with, cancel_found, cancel_payment_link, link_seconds, forget_link, fake_link,
}
use merchant_ai_agent.Payment.Keys.{
  Request, create_link, cancel_link, serve, serve_all, credentials-Untouched,
}

abbrev pub invoice_of : Request → String
invoice_of (create_link now r) = r.invoice_id
invoice_of (cancel_link now merchant_id invoice_id) = invoice_id

-- The request is about another invoice.
abbrev pub IsOther : String → Request → Type 0
IsOther invoice_id q = str_eq (invoice_of q) invoice_id ≡ false

record-link :
    (ttl now : ℕ) (invoice_id link : String) (call : Result RazorpayClientError Link) (s : Payments)
    → (record_link ttl now invoice_id call s).1.payment_link_id ≡ some link
    → get invoice_id (record_link ttl now invoice_id call s).0.links
      ≡ some (lasting link link_seconds now)
unfolding record_link
record-link ttl now invoice_id link (err e) s h = cc
record-link ttl now invoice_id link (ok made) s h = rw (get-put, eq_refl) (ap (λ o. alt o) h)
  where
    alt : Option String → Option (Entry String)
    alt none = none
    alt (some l) = some (lasting l link_seconds now)

record-other :
    (ttl now : ℕ) (invoice_id other : String) (call : Result RazorpayClientError Link)
    (s : Payments)
    → str_eq other invoice_id ≡ false
    → get invoice_id (record_link ttl now other call s).0.links ≡ get invoice_id s.links
unfolding record_link
record-other ttl now invoice_id other (err e) s h = refl
record-other ttl now invoice_id other (ok made) s h = rw (get-put, h) refl

reply-other :
    (invoice_id other : String) (done : Bool) (s : Payments)
    → str_eq other invoice_id ≡ false
    → get invoice_id (cancel_reply other done s).0.links ≡ get invoice_id s.links
unfolding cancel_reply forget_link
reply-other invoice_id other true s h = rw (get-drop, h) refl
reply-other invoice_id other false s h = refl

in_time :
    (link : String) (later now : ℕ)
    → later < now + 600
    → alive later (some (lasting link link_seconds now)) ≡ some link
unfolding alive lasting
in_time link later now early = rw (lt→ltb later (now + 600) early) refl

replied :
    (invoice_id : String) (done : Bool) (s : Payments)
    → ((cancel_reply invoice_id done s).0.calls ≡ s.calls)
      × ((cancel_reply invoice_id done s).1.cancelled ≡ (if done then some true else none))
unfolding cancel_reply
replied invoice_id true s = (refl, refl)
replied invoice_id false s = (refl, refl)

module _ (decrypt : String → Option String) (provider : Provider) (mode : String) where
  create-link :
      (ttl now : ℕ) (r : CreatePaymentLinkRequest) (link : String)
      (call : Result RazorpayClientError RazorpayClient) (s : Payments)
      → (create_with decrypt provider mode ttl now r call s).1.payment_link_id ≡ some link
      → get r.invoice_id (create_with decrypt provider mode ttl now r call s).0.links
        ≡ some (lasting link link_seconds now)
  unfolding create_with
  create-link ttl now r link (err e) s h = cc
  create-link ttl now r link (ok fake) s h =
      record-link ttl now r.invoice_id link (ok (fake_link r.invoice_id)) s h
  create-link ttl now r link (ok (real c)) s h = record-link ttl now r.invoice_id link _ _ h

  create-other :
      (ttl now : ℕ) (r : CreatePaymentLinkRequest) (invoice_id : String)
      (call : Result RazorpayClientError RazorpayClient) (s : Payments)
      → str_eq r.invoice_id invoice_id ≡ false
      → get invoice_id (create_with decrypt provider mode ttl now r call s).0.links
        ≡ get invoice_id s.links
  unfolding create_with
  create-other ttl now r invoice_id (err e) s h = refl
  create-other ttl now r invoice_id (ok fake) s h =
      record-other ttl now invoice_id r.invoice_id (ok (fake_link r.invoice_id)) s h
  create-other ttl now r invoice_id (ok (real c)) s h =
      record-other ttl now invoice_id r.invoice_id _ _ h

  cancel-other :
      (other link invoice_id : String) (call : Result RazorpayClientError RazorpayClient)
      (s : Payments)
      → str_eq other invoice_id ≡ false
      → get invoice_id (cancel_with decrypt provider mode other link call s).0.links
        ≡ get invoice_id s.links
  unfolding cancel_with
  cancel-other other link invoice_id (err e) s h = refl
  cancel-other other link invoice_id (ok fake) s h = reply-other invoice_id other true s h
  cancel-other other link invoice_id (ok (real c)) s h = reply-other invoice_id other _ _ h

  found-other :
      (merchant_id other invoice_id : String) (o : Option String) (s : Payments)
      → str_eq other invoice_id ≡ false
      → get invoice_id (cancel_found decrypt provider mode merchant_id other o s).0.links
        ≡ get invoice_id s.links
  unfolding cancel_found
  found-other merchant_id other invoice_id none s h = refl
  found-other merchant_id other invoice_id (some link) s h = elim (Bool-cases (str_eq link "")) [
    | inl blank ↦ rw blank refl
    | inr link_there ↦ rw link_there (
        cancel-other other link invoice_id _ _ h
        ∙ ap (get invoice_id) (credentials-Untouched decrypt merchant_id s).1)
  ]

  serve-other :
      (ttl : ℕ) (q : Request) (invoice_id : String) (s : Payments)
      → IsOther invoice_id q
      → get invoice_id (serve decrypt provider mode ttl q s).links ≡ get invoice_id s.links
  unfolding serve create_payment_link cancel_payment_link
  serve-other ttl (create_link now r) invoice_id s h =
      create-other ttl now r invoice_id _ _ h
      ∙ ap (get invoice_id) (credentials-Untouched decrypt r.merchant_id s).1
  serve-other ttl (cancel_link now merchant_id other) invoice_id s h =
      found-other merchant_id other invoice_id (alive now (get other s.links)) s h

  serve_all-other :
      (ttl : ℕ) (qs : List Request) (invoice_id : String) (s : Payments)
      → All (IsOther invoice_id) qs
      → get invoice_id (serve_all decrypt provider mode ttl qs s).links ≡ get invoice_id s.links
  unfolding serve_all
  serve_all-other ttl [] invoice_id s h = refl
  serve_all-other ttl (q ∷ qs) invoice_id s h =
      serve_all-other ttl qs invoice_id (serve decrypt provider mode ttl q s) h.1
      ∙ serve-other ttl q invoice_id s h.0

  cancels_link :
      (invoice_id link : String) (c : MerchantCredentials) (s : Payments)
      (call : Result RazorpayClientError RazorpayClient)
      → call ≡ ok (real c)
      → ((cancel_with decrypt provider mode invoice_id link call s).0.calls
          ≡ s.calls ++ cancels c link ∷ [])
        × ((cancel_with decrypt provider mode invoice_id link call s).1.cancelled
            ≡ (if provider.cancel_link c link then some true else none))
  unfolding cancel_with
  cancels_link invoice_id link c s call e =
      rw e (replied invoice_id (provider.cancel_link c link) _)

  cancels_found :
      (merchant_id invoice_id link : String) (c : MerchantCredentials) (o : Option String)
      (t : Payments)
      → o ≡ some link
      → str_eq link "" ≡ false
      → get_razorpay_client mode (get_credentials decrypt merchant_id t).1 ≡ ok (real c)
      → ((cancel_found decrypt provider mode merchant_id invoice_id o t).0.calls
          ≡ t.calls ++ cancels c link ∷ [])
        × ((cancel_found decrypt provider mode merchant_id invoice_id o t).1.cancelled
            ≡ (if provider.cancel_link c link then some true else none))
  unfolding cancel_found
  cancels_found merchant_id invoice_id link c o t found some_id keys =
      let (calls, reply) =
        cancels_link invoice_id link c (get_credentials decrypt merchant_id t).0 _ keys in
      let same = (credentials-Untouched decrypt merchant_id t).0 in
      rw (found, some_id) (calls ∙ ap (λ cs. cs ++ cancels c link ∷ []) same, reply)

  -- A link that was created, with an id that is not empty, is found for ten minutes whatever is asked
  -- about other invoices in between: a cancellation of its invoice with usable keys asks the provider to
  -- cancel this link, and reports what the provider has done.
  pub created_link_is_cancelled :
      (ttl now later : ℕ) (r : CreatePaymentLinkRequest) (link merchant_id : String) (s : Payments)
      (qs : List Request) (c : MerchantCredentials)
      → (create_payment_link decrypt provider mode ttl now r s).1.payment_link_id ≡ some link
      → str_eq link "" ≡ false
      → All (IsOther r.invoice_id) qs
      → later < now + 600
      → let t =
          serve_all decrypt provider mode ttl qs
            (create_payment_link decrypt provider mode ttl now r s).0 in
        get_razorpay_client mode (get_credentials decrypt merchant_id t).1 ≡ ok (real c)
        → ((cancel_payment_link decrypt provider mode later merchant_id r.invoice_id t).0.calls
            ≡ t.calls ++ cancels c link ∷ [])
          × ((cancel_payment_link decrypt provider mode later merchant_id r.invoice_id
                t).1.cancelled
              ≡ (if provider.cancel_link c link then some true else none))
  unfolding create_payment_link cancel_payment_link
  created_link_is_cancelled ttl now later r link merchant_id s qs c made some_id others early keys =
      cancels_found merchant_id r.invoice_id link c _ _ (ap (alive later) kept ∙ still) some_id keys
    where
      first : Payments
      first = (create_payment_link decrypt provider mode ttl now r s).0

      kept :
          get r.invoice_id (serve_all decrypt provider mode ttl qs first).links
          ≡ some (lasting link link_seconds now)
      kept = serve_all-other ttl qs r.invoice_id first others ∙ create-link ttl now r link _ _ made

      still : alive later (some (lasting link link_seconds now)) ≡ some link
      still = in_time link later now early
