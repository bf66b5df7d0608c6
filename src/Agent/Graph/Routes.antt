-- ===== src/Agent/Graph/Routes.antt =====
-- The edges of services/merchant_agent/graph/build_graph.py that depend on the state, and what the
-- nodes in front of them keep.
use merchant_ai_agent.Base.{
  ℕ, ◌≡◌, refl, sym, subst, ◌∙◌, Bool, true, false, Option, none, some, if◌then◌else◌, inl, inr,
  Bool-cases,
}
use merchant_ai_agent.Agent.{OrderState}
use merchant_ai_agent.Agent.Session as Session
use merchant_ai_agent.Agent.Session.{
  OrderDraft, TurnRequest, is_invoice_proceed_message, session_base, fill_from_draft, reset_turn,
  or_list, new_session,
}
use merchant_ai_agent.Agent.Asked as Asked
use merchant_ai_agent.Agent.Asked.{
  awaiting_of, loaded-awaiting, loaded-message, loaded-proceed, proceeds, was_asked, write_parsed,
}
use merchant_ai_agent.Agent.Identified.{AllIdentified, checked-identified, unavailable-keeps}
use merchant_ai_agent.Agent.React as React
use merchant_ai_agent.Agent.React.{ReactRoute, go_on}
use merchant_ai_agent.Agent.Stock as Stock
use merchant_ai_agent.Agent.Stock.{FinalizeRoute, Catalog, check_lines}
use merchant_ai_agent.Agent.Missing.{MissingRoute}
use merchant_ai_agent.Agent.Graph.{
  Node, parse_intent, react_planner, check_availability, suggest_alternative, check_missing_fields,
  ask_for_fields, offer_invoice_confirmation, finalize_order, generate_invoice, AgentTurnRequest,
  react_target, missing_target, finalize_target,
}
use merchant_ai_agent.Agent.Graph.Walk.{arrive}
use merchant_ai_agent.Agent.Graph.Kept.{executor-IsSameOrder}
use merchant_ai_agent.Agent.Graph.Stage.{Opening, Ordering}

module _ (r : AgentTurnRequest) (Confirmed : Type 0) where
  pub guarded :
      (b : Bool) (s : OrderState)
      → AllIdentified s.line_items
      → Opening r Confirmed s
      → AllIdentified (Asked.off_topic_guard b s).line_items
        × Opening r Confirmed (Asked.off_topic_guard b s)
  unfolding Asked.off_topic_guard
  guarded true s h o = (h, o)
  guarded false s h o = (h, o)

  pub off_guard :
      (P : Node → Type 0) (b : Bool) (next : Node)
      → P parse_intent
      → (if b then none else some parse_intent) ≡ some next
      → P next
  off_guard P true next p e = cc
  off_guard P false next p e = arrive P parse_intent next p e

  pub answered :
      (s : OrderState)
      → AllIdentified s.line_items
      → Opening r Confirmed s
      → AllIdentified (Session.resolve_invoice_confirmation s).line_items
        × Ordering r Confirmed (Session.resolve_invoice_confirmation s)
  unfolding Session.resolve_invoice_confirmation
  answered s h (idle, asked) = elim (Bool-cases s.awaiting_invoice_confirmation) [
    | inl e ↦ rw e (h, (refl, λ said. asked e said))
    | inr e ↦ rw e (h, (refl, λ said. cc))
  ]

  pub off_missing :
      (P : Node → Type 0) (route : MissingRoute) (next : Node)
      → (route ≡ MissingRoute.finalize_order → P finalize_order)
      → P ask_for_fields
      → P offer_invoice_confirmation
      → ◌≡◌ {A = Option Node} (some (missing_target route)) (some next)
      → P next
  unfolding missing_target
  off_missing P MissingRoute.finalize_order next f a o e = arrive P finalize_order next (f refl) e
  off_missing P MissingRoute.ask_for_fields next f a o e = arrive P ask_for_fields next a e
  off_missing P MissingRoute.offer_invoice_confirmation next f a o e =
      arrive P offer_invoice_confirmation next o e

  pub off_react :
      (P : Node → Type 0) (route : ReactRoute) (next : Node)
      → (go_on route ≡ true → P react_planner)
      → P check_availability
      → P suggest_alternative
      → ◌≡◌ {A = Option Node} (some (react_target route)) (some next)
      → P next
  unfolding react_target go_on
  off_react P ReactRoute.react_planner next p c s e = arrive P react_planner next (p refl) e
  off_react P ReactRoute.check_availability next p c s e = arrive P check_availability next c e
  off_react P ReactRoute.suggest_alternative next p c s e = arrive P suggest_alternative next s e

  pub off_stock :
      (P : Node → Type 0) (b : Bool) (next : Node)
      → P suggest_alternative
      → P check_missing_fields
      → ◌≡◌ {A = Option Node}
          (some (if b then suggest_alternative else check_missing_fields))
          (some next)
      → P next
  off_stock P true next s m e = arrive P suggest_alternative next s e
  off_stock P false next s m e = arrive P check_missing_fields next m e

  pub off_finalize :
      (P : Node → Type 0) (route : FinalizeRoute) (next : Node)
      → P suggest_alternative
      → P generate_invoice
      → ◌≡◌ {A = Option Node} (some (finalize_target route)) (some next)
      → P next
  unfolding finalize_target
  off_finalize P FinalizeRoute.suggest_alternative next s g e =
      arrive P suggest_alternative next s e
  off_finalize P FinalizeRoute.generate_invoice next s g e = arrive P generate_invoice next g e

  pub executed :
      (tools : React.Tools) (loop_max : ℕ) (s : OrderState)
      → AllIdentified s.line_items
      → Ordering r Confirmed s
      → let t = (React.executor tools loop_max s).0 in
        AllIdentified t.line_items × Ordering r Confirmed t
  executed tools loop_max s h (waits, agreed) =
      let same = executor-IsSameOrder tools loop_max s in
      (
        subst AllIdentified (sym same.lines) h,
        (same.awaits ∙ waits, λ said. agreed (sym same.proceeds ∙ said)),
      )

  pub in_stock :
      (today : ℕ) (catalog : Catalog) (s : OrderState)
      → AllIdentified s.line_items
      → Ordering r Confirmed s
      → let t = Stock.check_availability today catalog s in
        AllIdentified t.line_items × Ordering r Confirmed t
  unfolding Stock.check_availability
  in_stock today catalog s h (waits, agreed) =
      let checked = check_lines today catalog s.line_items in
      let (lines, proceed, awaits) =
        unavailable-keeps checked.short (record s { line_items = checked.lines }) in
      (
        subst AllIdentified (sym lines) (checked-identified today catalog s.line_items h),
        (awaits ∙ waits, λ said. agreed (sym proceed ∙ said)),
      )
