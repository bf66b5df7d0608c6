-- ===== src/PaymentLog/Signed.antt =====
-- Where the webhooks in the payment log come from.
use merchant_ai_agent.Base.{
  ◌≡◌, refl, ◌∙◌, subst, ap, String, Bool, true, false, Option, none, some, List, [], ◌∷◌, map, any,
  select, str_eq, eq_iff, ◌⊎◌, inl, inr, All, All-append, Bool-cases, arith,
}
use merchant_ai_agent.Auth.{lower_text}
use merchant_ai_agent.Strings.{strip_text}
use merchant_ai_agent.PaymentLog.{Webhook, InvoiceAudit}
use merchant_ai_agent.PaymentLog.Consumer.{Message, read}
use merchant_ai_agent.PaymentLog.Kept.{Recorded, Reads, consume-Recorded}
use merchant_ai_agent.PaymentLog.Ingress.{
  Post, Links, is_forwarded, build_forward_headers, signature_header, verify_razorpay_signature,
  verify_and_enqueue, ingress_razorpay_webhook, Pipeline, Step, post, consumes, step, run,
}

is_blocked : String → Bool
unfolding any
is_blocked key = any (str_eq key) ("host" ∷ "content-length" ∷ "connection" ∷ [])

blocked-other : (key : String) → is_blocked key ≡ true → str_eq key "x-razorpay-signature" ≡ false
unfolding is_blocked any
blocked-other key h = elim (Bool-cases (str_eq key "x-razorpay-signature")) [
  | inl e ↦
      let impossible : is_blocked "x-razorpay-signature" ≡ true =
        subst (λ k. is_blocked k ≡ true) ((eq_iff key "x-razorpay-signature").0 e) h in
      cc
  | inr e ↦ e
]

-- The headers that are dropped on the way are not the signature.
signature-forwarded :
    (headers : List (String × String))
    → signature_header (build_forward_headers headers) ≡ signature_header headers
unfolding signature_header build_forward_headers select is_forwarded is_blocked any
signature-forwarded [] = refl
signature-forwarded ((key, value) ∷ headers) = elim (Bool-cases (is_blocked (lower_text key))) [
  | inl e ↦ rw (e, blocked-other (lower_text key) e) (signature-forwarded headers)
  | inr e ↦ rw (e, signature-forwarded headers) refl
]

-- One of the headers has the name, in any case, and holds this text.
pub HasSignature : String → List (String × String) → Type 0
HasSignature text [] = ⊥
HasSignature text ((key, value) ∷ headers) =
    ((lower_text key ≡ "x-razorpay-signature") × (value ≡ text)) ⊎ HasSignature text headers

signature_header-sent :
    (headers : List (String × String)) (text : String)
    → signature_header headers ≡ some text
    → HasSignature text headers
unfolding signature_header HasSignature
signature_header-sent [] text h = cc
signature_header-sent ((key, value) ∷ headers) text h =
    elim (Bool-cases (str_eq (lower_text key) "x-razorpay-signature")) [
      | inl e ↦ inl ((eq_iff (lower_text key) "x-razorpay-signature").0 e, ground arith)
      | inr e ↦ inr (signature_header-sent headers text (rw e at h))
    ]

module _ (hmac : String → String → String) (secret : String) (decode : String → Message) where
  -- A header of the post holds the HMAC of its body, under a secret that is not empty. Blanks around
  -- it do not count, nor does the case of the header's name.
  pub record IsSigned (p : Post) : Type 0 where
    pub signature : String
    pub is_sent : HasSignature signature p.headers
    pub is_digest : hmac secret p.raw_body ≡ strip_text signature
    pub has_secret : secret ≡ "" → ⊥

  verify : Post → Bool
  unfolding verify_razorpay_signature signature_header
  verify p = verify_razorpay_signature hmac secret p.raw_body (signature_header p.headers)

  verified_text-IsSigned :
      (p : Post) (o : Option String)
      → signature_header p.headers ≡ o
      → verify_razorpay_signature hmac secret p.raw_body o ≡ true
      → IsSigned p
  unfolding verify_razorpay_signature
  verified_text-IsSigned p none sent h = cc
  verified_text-IsSigned p (some signature) sent h = record {
    signature = signature;
    is_sent = signature_header-sent p.headers signature sent;
    is_digest = (eq_iff (hmac secret p.raw_body) (strip_text signature)).0 (ground arith);
    has_secret = λ empty.
        let same : str_eq secret "" ≡ true = (eq_iff secret "").1 empty in ground (arith, same, h);
  }

  verified-IsSigned : (p : Post) → verify p ≡ true → IsSigned p
  unfolding verify
  verified-IsSigned p h = verified_text-IsSigned p (signature_header p.headers) refl h

  -- One of the steps is a post with this webhook in its body, whose signature is right.
  pub IsPosted : List Step → Webhook → Type 0
  IsPosted [] h = ⊥
  IsPosted (post links p ∷ earlier) h =
      (IsSigned p × (read (decode p.raw_body) ≡ some h)) ⊎ IsPosted earlier h
  IsPosted (consumes event ∷ earlier) h = IsPosted earlier h

  -- The same of a body.
  IsPostedBody : List Step → String → Type 0
  IsPostedBody [] body = ⊥
  IsPostedBody (post links p ∷ earlier) body =
      (IsSigned p × (p.raw_body ≡ body)) ⊎ IsPostedBody earlier body
  IsPostedBody (consumes event ∷ earlier) body = IsPostedBody earlier body

  IsPostedBody-webhook :
      (steps : List Step) (body : String) (h : Webhook)
      → read (decode body) ≡ some h
      → IsPostedBody steps body
      → IsPosted steps h
  unfolding IsPosted IsPostedBody
  IsPostedBody-webhook [] body h e p = p
  IsPostedBody-webhook (post links p ∷ earlier) body h e (inl (signed, same)) =
      inl (signed, ap (λ b. read (decode b)) same ∙ e)
  IsPostedBody-webhook (post links p ∷ earlier) body h e (inr before) =
      inr (IsPostedBody-webhook earlier body h e before)
  IsPostedBody-webhook (consumes event ∷ earlier) body h e p =
      IsPostedBody-webhook earlier body h e p

  IsPosted-Reads :
      (steps : List Step) (body : String)
      → IsPostedBody steps body
      → Reads (IsPosted steps) (read (decode body))
  IsPosted-Reads steps body h = go (read (decode body)) refl
    where
      go : (o : Option Webhook) → read (decode body) ≡ o → Reads (IsPosted steps) o
      go none e = tt
      go (some w) e = IsPostedBody-webhook steps body w e h

  all-IsPosted-Reads :
      (steps : List Step) (topic : List String)
      → All (IsPostedBody steps) topic
      → All (λ m. Reads (IsPosted steps) (read m)) (map decode topic)
  all-IsPosted-Reads steps [] h = tt
  all-IsPosted-Reads steps (body ∷ topic) h =
      (IsPosted-Reads steps body h.0, all-IsPosted-Reads steps topic h.1)

  later-IsPostedBody :
      (links : Links) (p : Post) (earlier : List Step) (topic : List String)
      → All (IsPostedBody earlier) topic
      → All (IsPostedBody (post links p ∷ earlier)) topic
  unfolding IsPostedBody
  later-IsPostedBody links p earlier [] h = tt
  later-IsPostedBody links p earlier (body ∷ topic) h =
      (inr h.0, later-IsPostedBody links p earlier topic h.1)

  later-IsPosted :
      (links : Links) (p : Post) (earlier : List Step) (rows : List InvoiceAudit)
      → Recorded (IsPosted earlier) rows
      → Recorded (IsPosted (post links p ∷ earlier)) rows
  unfolding IsPosted
  later-IsPosted links p earlier [] h = tt
  later-IsPosted links p earlier (row ∷ rows) h = (inr h.0, later-IsPosted links p earlier rows h.1)

  accepted-IsPostedBody :
      (links : Links) (p : Post) (earlier : List Step) (topic : List String)
      → All (IsPostedBody (post links p ∷ earlier)) topic
      → All
          (IsPostedBody (post links p ∷ earlier))
          (verify_and_enqueue hmac secret links
            (record p { headers = build_forward_headers p.headers })
            topic).0
  unfolding verify_and_enqueue IsPostedBody verify
  accepted-IsPostedBody links p earlier topic h = elim (Bool-cases links.has_producer) [
    | inr a ↦ rw a h
    | inl a ↦ elim (Bool-cases (verify p)) [
      | inr b ↦ rw (a, signature-forwarded p.headers, b) h
      | inl b ↦ elim (Bool-cases links.broker_accepts) [
        | inr c ↦ rw (a, signature-forwarded p.headers, b, c) h
        | inl c ↦
            rw (a, signature-forwarded p.headers, b, c)
              (All-append _ topic (p.raw_body ∷ []) h (inl (verified-IsSigned p b, refl), tt))
      ]
    ]
  ]

  enqueued-IsPostedBody :
      (links : Links) (p : Post) (earlier : List Step) (topic : List String)
      → All (IsPostedBody (post links p ∷ earlier)) topic
      → All
          (IsPostedBody (post links p ∷ earlier))
          (ingress_razorpay_webhook hmac secret links p topic).0
  unfolding ingress_razorpay_webhook IsPostedBody
  enqueued-IsPostedBody links p earlier topic h = elim (Bool-cases links.worker_answers) [
    | inl e ↦ rw e (accepted-IsPostedBody links p earlier topic h)
    | inr e ↦ rw e h
  ]

  run-IsPosted :
      (steps : List Step) (pipeline : Pipeline)
      → pipeline.topic ≡ []
      → pipeline.consumer.world.invoice_audit ≡ []
      → All (IsPostedBody steps) (run hmac secret decode steps pipeline).topic
        × Recorded
            (IsPosted steps)
            (run hmac secret decode steps pipeline).consumer.world.invoice_audit
  unfolding run step IsPostedBody IsPosted
  run-IsPosted [] pipeline no_topic no_rows = rw (no_topic, no_rows) (tt, tt)
  run-IsPosted (post links p ∷ earlier) pipeline no_topic no_rows =
      let (bodies, rows) = run-IsPosted earlier pipeline no_topic no_rows in
      (
        enqueued-IsPostedBody links p earlier _ (later-IsPostedBody links p earlier _ bodies),
        later-IsPosted links p earlier _ rows,
      )
  run-IsPosted (consumes event ∷ earlier) pipeline no_topic no_rows =
      let (bodies, rows) = run-IsPosted earlier pipeline no_topic no_rows in
      let before = run hmac secret decode earlier pipeline in
      (
        bodies,
        consume-Recorded (IsPosted earlier) (map decode before.topic) event before.consumer
            (all-IsPosted-Reads earlier before.topic bodies) rows,
      )

-- However posts, deliveries, crashes and restarts alternate, each row of the payment log holds a
-- webhook that has come to the public endpoint in a post of which a header for the signature holds the
-- HMAC of its body, under a secret that is not empty; for a queue and a log that are empty at first.
pub recorded_webhooks_were_signed :
    (hmac : String → String → String) (secret : String) (decode : String → Message)
    (steps : List Step) (pipeline : Pipeline)
    → pipeline.topic ≡ []
    → pipeline.consumer.world.invoice_audit ≡ []
    → All
        (λ row. IsPosted hmac secret decode steps row.webhook_payload)
        (run hmac secret decode steps pipeline).consumer.world.invoice_audit
recorded_webhooks_were_signed hmac secret decode steps pipeline no_topic no_rows =
    (run-IsPosted hmac secret decode steps pipeline no_topic no_rows).1
