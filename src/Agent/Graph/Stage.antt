-- ===== src/Agent/Graph/Stage.antt =====
-- What holds before each node of services/merchant_agent/graph/build_graph.py of the question whether
-- the customer has agreed.
use merchant_ai_agent.Base.{◌≡◌, refl, true, false, Option, none, some, List, [], ◌∷◌, ◌++◌}
use merchant_ai_agent.Base.Results.{Result, ok, err}
use merchant_ai_agent.Agent.{LineItem, OrderState, is_nonempty}
use merchant_ai_agent.Agent.Session.{OrderDraft, is_invoice_proceed_message}
use merchant_ai_agent.Agent.Asked.{awaiting_of}
use merchant_ai_agent.Agent.Identified.{AllIdentified}
use merchant_ai_agent.Agent.Outcome.{Call}
use merchant_ai_agent.Agent.Closing.{ClosingError}
use merchant_ai_agent.Agent.Graph.{
  Node, load_session, off_topic_guard, parse_intent, resolve_invoice_confirmation, resolve_catalog,
  react_planner, react_tool_selector, react_executor, check_availability, suggest_alternative,
  check_missing_fields, ask_for_fields, offer_invoice_confirmation, finalize_order,
  generate_invoice, dispatch_invoice_processing, resolve_invoice_outcome, AgentTurnRequest, Fate,
  goes_well, raises, save_fails, NodeDependencies, Saved, Run, NodeRun, next_node,
}
use merchant_ai_agent.Agent.Graph.Walk.{Visited}
use merchant_ai_agent.Agent.Graph.Turn.{run_of, saved_as, with_persistence}

abbrev pub state_lines : Option OrderState → List LineItem
state_lines none = []
state_lines (some s) = s.line_items

abbrev pub draft_lines : Option OrderDraft → List LineItem
draft_lines none = []
draft_lines (some d) = d.line_items

abbrev pub IsIdentified : Saved → Type 0
IsIdentified saved =
    AllIdentified (state_lines saved.state) × AllIdentified (draft_lines saved.draft)

abbrev pub CallsOnlyIf : Type 0 → List Call → Type 0
CallsOnlyIf Confirmed calls = is_nonempty calls ≡ true → Confirmed

calls-append :
    (Confirmed : Type 0) (xs ys : List Call)
    → CallsOnlyIf Confirmed xs
    → CallsOnlyIf Confirmed ys
    → CallsOnlyIf Confirmed (xs ++ ys)
unfolding is_nonempty
calls-append Confirmed [] ys hx hy = hy
calls-append Confirmed (x ∷ xs) ys hx hy = λ h. hx refl

pub no_calls : (Confirmed : Type 0) → CallsOnlyIf Confirmed []
unfolding is_nonempty
no_calls Confirmed h = cc

module _ (r : AgentTurnRequest) (Confirmed : Type 0) where
  -- Before the answer to the question is read.
  abbrev pub Opening : OrderState → Type 0
  Opening s =
      (s.invoice_proceed ≡ false)
      × (s.awaiting_invoice_confirmation ≡ true
          → is_invoice_proceed_message s.message ≡ true
          → Confirmed)

  -- Behind that.
  abbrev pub Ordering : OrderState → Type 0
  Ordering s = (s.awaiting_invoice_confirmation ≡ false) × (s.invoice_proceed ≡ true → Confirmed)

  abbrev pub Stage : Node → Saved → OrderState → Type 0
  Stage load_session saved s =
      awaiting_of saved.state ≡ true → is_invoice_proceed_message r.turn.message ≡ true → Confirmed
  Stage off_topic_guard saved s = Opening s
  Stage parse_intent saved s = Opening s
  Stage resolve_invoice_confirmation saved s = Opening s
  Stage resolve_catalog saved s = Ordering s
  Stage react_planner saved s = Ordering s
  Stage react_tool_selector saved s = Ordering s
  Stage react_executor saved s = Ordering s
  Stage check_availability saved s = Ordering s
  Stage check_missing_fields saved s = Ordering s
  Stage suggest_alternative saved s = Unit
  Stage ask_for_fields saved s = Unit
  Stage offer_invoice_confirmation saved s = Unit
  Stage finalize_order saved s = Confirmed
  Stage generate_invoice saved s = Confirmed
  Stage dispatch_invoice_processing saved s = Confirmed
  Stage resolve_invoice_outcome saved s = Confirmed

  -- What a node has to see to.
  abbrev pub Leaves : Node → Result ClosingError NodeRun → Type 0
  Leaves node (err e) = Unit
  Leaves node (ok u) =
      AllIdentified u.state.line_items
      × CallsOnlyIf Confirmed u.calls
      × ((next : Node) → next_node node u.state ≡ some next → Stage next (saved_as u.state) u.state)

  abbrev pub Before : Node → Run → Type 0
  Before node run =
      AllIdentified run.state.line_items
      × IsIdentified run.saved
      × CallsOnlyIf Confirmed run.calls
      × Stage node run.saved run.state

  abbrev pub Always : Run → Type 0
  Always run = IsIdentified run.saved × CallsOnlyIf Confirmed run.calls

  pub persisted-Visited :
      (deps : NodeDependencies) (node : Node) (fate : Fate) (run : Run)
      (res : Result ClosingError NodeRun)
      → Before node run
      → Leaves node res
      → Visited deps r Before (λ ended. Always (run_of ended)) node (with_persistence fate run res)
  unfolding with_persistence saved_as run_of
  persisted-Visited deps node fate run (err e) (lines, saved, calls, stage) h = (saved, calls)
  persisted-Visited deps node raises run (ok u) (lines, saved, calls, stage) h =
      (saved, calls-append Confirmed run.calls u.calls calls h.1)
  persisted-Visited deps node save_fails run (ok u) (lines, saved, calls, stage) h =
      (saved, calls-append Confirmed run.calls u.calls calls h.1)
  persisted-Visited deps node goes_well run (ok u) (lines, saved, calls, stage) (kept, made, to) =
      let all = calls-append Confirmed run.calls u.calls calls made in
      let identified : IsIdentified (saved_as u.state) = (kept, kept) in
      ((λ last. (identified, all)), λ next e. (kept, identified, all, to next e))
