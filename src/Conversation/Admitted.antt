-- ===== src/Conversation/Admitted.antt =====
-- The gateway and the async worker together: which requests reach the merchant agent.
use merchant_ai_agent.Base.{
  ℕ, ◌≡◌, ◌↔◌, ◌⊎◌, inl, inr, refl, String, Bool, true, false, List, [], ◌∷◌, ◌++◌,
}
use merchant_ai_agent.Base.Results.{Result, ok, err}
use merchant_ai_agent.Mandate.{MandateClaims, Settings, Reason, Codec, Verifier, verify_mandate}
use merchant_ai_agent.Mandate.Accepted.{IsAcceptable, accepted_iff}
use merchant_ai_agent.Conversation.{
  ConverseRequest, ConverseResponse, Answer, failed, session_of, merchant_of, failed_response,
}
use merchant_ai_agent.Conversation.Gateway.{
  Buckets, is_rate_limited, admit, converse, forward_payload, gateway_reply,
}
use merchant_ai_agent.Conversation.Worker.{
  Turn, Backend, after_verification, worker_converse, turn_of,
}

module _ (agent : List Turn → Turn → Answer) (cfg : Settings) (codec : Codec) (drawn : String)
    (now : ℕ) where
  -- The gateway in front of the worker. The worker draws no id of its own, since it is given one.
  unfoldable pub gateway_and_worker :
      ℕ → ConverseRequest → Buckets → Backend → Buckets × Backend × ConverseResponse
  unfolding converse worker_converse
  gateway_and_worker limit payload buckets b =
      converse (worker_converse agent cfg codec drawn now) limit drawn now payload buckets b

  -- One turn was posted to the agent, marked as verified.
  abbrev pub Posted : ConverseRequest → List Turn → List Turn → Type 0
  Posted payload before after =
      (turn : Turn) × (after ≡ before ++ turn ∷ [])
      × (turn.mandate_verified ≡ true)
      × (turn.message ≡ payload.message)

  module _ (session : String) (payload : ConverseRequest) (posted : List Turn) where
    verified :
        (call : Verifier × Result Reason MandateClaims) (claims : MandateClaims)
        → call.1 ≡ ok claims
        → Posted payload posted (after_verification agent session payload posted call).0.posted
    unfolding after_verification turn_of
    verified (v, err reason) claims h = cc
    verified (v, ok accepted) claims h = (turn_of session payload, refl, refl, refl)

    unverified :
        (outer : String) (call : Verifier × Result Reason MandateClaims)
        → ((claims : MandateClaims) → ¬ (call.1 ≡ ok claims))
        → ((after_verification agent session payload posted call).0.posted ≡ posted)
          × ((gateway_reply outer (after_verification agent session payload posted call).1).status
              ≡ failed)
    unfolding after_verification gateway_reply failed_response
    unverified outer (v, err reason) h = (refl, refl)
    unverified outer (v, ok claims) h = absurd (h claims refl)

  -- A request may go on to the agent: it is within the limit, and its mandate is acceptable.
  abbrev pub MayProceed : ℕ → ConverseRequest → Buckets → Backend → Type 0
  MayProceed limit payload buckets b =
      ((is_rate_limited payload.consumer_agent_id limit now buckets).1 ≡ false)
      × ((claims : MandateClaims) × IsAcceptable cfg codec now (merchant_of payload.merchant_id)
            payload.human_sign_mandate b.verifier claims)

  module _ (payload : ConverseRequest) (b : Backend) where
    abbrev verification_call : Verifier × Result Reason MandateClaims
    verification_call =
        verify_mandate cfg codec now (merchant_of payload.merchant_id) payload.human_sign_mandate
          b.verifier

    abbrev worker : ConverseRequest → Backend → Backend × Answer
    worker = worker_converse agent cfg codec drawn now

    gate_posts :
        (session : String) (gate : Buckets × Bool) (claims : MandateClaims)
        → gate.1 ≡ false
        → verification_call.1 ≡ ok claims
        → Posted payload b.posted (admit worker session payload gate b).1.posted
    unfolding admit worker_converse forward_payload
    gate_posts session (buckets, true) claims within h = cc
    gate_posts session (buckets, false) claims within h =
        verified _ (forward_payload session payload) b.posted verification_call claims h

    gate_fails :
        (session : String) (gate : Buckets × Bool)
        → ¬ ((gate.1 ≡ false) × ((claims : MandateClaims) × (verification_call.1 ≡ ok claims)))
        → ((admit worker session payload gate b).1.posted ≡ b.posted)
          × ((admit worker session payload gate b).2.status ≡ failed)
    unfolding admit worker_converse forward_payload failed_response
    gate_fails session (buckets, true) h = (refl, refl)
    gate_fails session (buckets, false) h =
        unverified _ (forward_payload session payload) b.posted session verification_call
          (λ claims e. h (refl, (claims, e)))

  -- The agent is given one turn, with the message and marked as verified, or none, and the reply is a
  -- failure.
  abbrev pub Served : ConverseRequest → Backend → Buckets × Backend × ConverseResponse → Type 0
  Served payload b after = Posted payload b.posted after.1.posted

  abbrev pub Refused : Backend → Buckets × Backend × ConverseResponse → Type 0
  Refused b after = (after.1.posted ≡ b.posted) × (after.2.status ≡ failed)

  -- Through the gateway and the worker the agent is given a turn exactly if the consumer agent is within
  -- its rate and the mandate is acceptable; the turn is one, it carries the message, and it is marked as
  -- verified. Otherwise the agent is given none, and the reply is a failure.
  pub posted_iff_MayProceed :
      (limit : ℕ) (payload : ConverseRequest) (buckets : Buckets) (b : Backend)
      → (MayProceed limit payload buckets b
          × Served payload b (gateway_and_worker limit payload buckets b))
        ⊎ ((¬ MayProceed limit payload buckets b)
            × Refused b (gateway_and_worker limit payload buckets b))
  unfolding gateway_and_worker converse
  posted_iff_MayProceed limit payload buckets b =
      elim (decided gate.1 refl (verification_call payload b).1 refl) [
        | inl (within, (claims, acceptable)) ↦ inl (
          (within, (claims, acceptable)),
          gate_posts payload b session gate claims within ((accepts claims).1 acceptable),
        )
        | inr refused ↦ inr (
          refused,
          gate_fails payload b session gate (λ h. refused (h.0, (h.1.0, (accepts h.1.0).0 h.1.1))),
        )
      ]
    where
      session : String
      session = session_of payload.session_id drawn

      gate : Buckets × Bool
      gate = is_rate_limited payload.consumer_agent_id limit now buckets

      accepts :
          (claims : MandateClaims)
          → ((verification_call payload b).1 ≡ ok claims)
            ↔ IsAcceptable cfg codec now
                (merchant_of payload.merchant_id)
                payload.human_sign_mandate
                b.verifier
                claims
      accepts claims =
          accepted_iff cfg codec now (merchant_of payload.merchant_id) payload.human_sign_mandate
            b.verifier claims

      decided :
          (limited : Bool)
          → gate.1 ≡ limited
          → (call : Result Reason MandateClaims) → (verification_call payload b).1 ≡ call
          → MayProceed limit payload buckets b ⊎ (¬ MayProceed limit payload buckets b)
      decided false e (ok claims) h = inl (e, (claims, (accepts claims).0 h))
      decided false e (err reason) h = inr (λ m. cc ((accepts m.1.0).1 m.1.1, h))
      decided true e call h = inr (λ m. cc (m.0, e))
