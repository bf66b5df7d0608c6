-- ===== src/Agent/Graph/Leaves.antt =====
-- Each node of services/merchant_agent/graph/build_graph.py keeps to the question whether the customer
-- has agreed, and so does a whole turn.
use merchant_ai_agent.Base.{ℕ, ◌≡◌, sym, subst, ◌∙◌, ap, String, Option, List, All}
use merchant_ai_agent.Base.Results.{Result, ok, err, ◌>>=◌, Ensures}
use merchant_ai_agent.Invoice.Service.{OrderTables}
use merchant_ai_agent.Agent.{
  OrderState, AuditAction, has_unavailable_items, unavailable_items_from_state,
}
use merchant_ai_agent.Agent.Session as Session
use merchant_ai_agent.Agent.Session.{
  OrderDraft, TurnRequest, is_invoice_proceed_message, session_base, fill_from_draft, reset_turn,
  or_list, new_session,
}
use merchant_ai_agent.Agent.Asked as Asked
use merchant_ai_agent.Agent.Asked.{
  awaiting_of, loaded-awaiting, loaded-message, loaded-proceed, proceeds, was_asked, write_parsed,
}
use merchant_ai_agent.Agent.Parse as Parse
use merchant_ai_agent.Agent.Lookup as Lookup
use merchant_ai_agent.Agent.Lookup.{Search}
use merchant_ai_agent.Agent.Identified.{HasId, AllIdentified, looked_up-identified}
use merchant_ai_agent.Agent.Confirmed.{finalized_only_if_confirmed}
use merchant_ai_agent.Agent.Outcome as Outcome
use merchant_ai_agent.Agent.Outcome.{Clients, Call}
use merchant_ai_agent.Agent.React as React
use merchant_ai_agent.Agent.React.{ReactRoute}
use merchant_ai_agent.Agent.Stock as Stock
use merchant_ai_agent.Agent.Stock.{FinalizeRoute, Catalog, check_lines}
use merchant_ai_agent.Agent.Missing as Missing
use merchant_ai_agent.Agent.Missing.{
  MissingRoute, or_lines, orderable_line_items, conclude_check, compute_missing_fields,
  blocking_unresolved_items,
}
use merchant_ai_agent.Agent.Closing as Closing
use merchant_ai_agent.Agent.Closing.{
  ClosingError, offer_if, Issuer, with_invoice, accepted_savings, order_lines, issue_invoice,
}
use merchant_ai_agent.Agent.Graph.{
  Node, load_session, off_topic_guard, parse_intent, resolve_invoice_confirmation, resolve_catalog,
  react_planner, react_tool_selector, react_executor, check_availability, suggest_alternative,
  check_missing_fields, ask_for_fields, offer_invoice_confirmation, finalize_order,
  generate_invoice, dispatch_invoice_processing, resolve_invoice_outcome, AgentTurnRequest,
  NodeDependencies, Run, run_node, next_node, quiet, invoiced_run, dispatched, concluded,
}
use merchant_ai_agent.Agent.Graph.Turn.{saved_as, visit, walk, run_of}
use merchant_ai_agent.Agent.Graph.Walk.{arrive, walked}
use merchant_ai_agent.Agent.Graph.Kept.{parsed-identified}
use merchant_ai_agent.Agent.Graph.Stage.{no_calls, Stage, Leaves, Before, Always, persisted-Visited}
use merchant_ai_agent.Agent.Graph.Lines.{
  loaded-identified, complete-identified, suggested-identified, offered-identified,
  finalized-identified, dispatched-lines, resolved-lines, made-lines,
}
use merchant_ai_agent.Agent.Graph.Routes.{
  guarded, off_guard, answered, off_missing, off_react, off_stock, off_finalize, executed, in_stock,
}

module _ (deps : NodeDependencies) (r : AgentTurnRequest) (Confirmed : Type 0)
    (ids : (name : String) (brand : Option String) → All HasId (deps.search name brand)) where
  -- The state that a node leaves, before it is saved.
  abbrev Next : Node → OrderState → Type 0
  Next next s = Stage r Confirmed next (saved_as s) s

  made-Leaves :
      (run : Run) (res : Result ClosingError (OrderState × OrderTables × List AuditAction))
      → AllIdentified run.state.line_items
      → Confirmed
      → Ensures
          (λ (made : OrderState × OrderTables × List AuditAction).
            made.0.line_items ≡ run.state.line_items)
          res
      → Leaves r Confirmed generate_invoice (do made ← res; ok (invoiced_run made))
  unfolding invoiced_run next_node
  made-Leaves run (err e) h agreed kept = tt
  made-Leaves run (ok made) h agreed kept = (
    subst AllIdentified (sym kept) h,
    no_calls Confirmed,
    λ next e. arrive (λ n. Next n made.0) dispatch_invoice_processing next agreed e,
  )

  leaves :
      (node : Node) (run : Run)
      → Before r Confirmed node run
      → Leaves r Confirmed node (run_node deps r node run)
  unfolding run_node next_node quiet dispatched concluded AllIdentified
  leaves load_session run (h, saved, calls, asked) =
      let read = loaded-message run.saved.state run.saved.draft deps.profile r.turn in
      let waiting = loaded-awaiting run.saved.state run.saved.draft deps.profile r.turn in
      let t = Session.load_session run.saved.state run.saved.draft deps.profile r.turn in
      (
        loaded-identified run.saved deps.profile r.turn saved,
        no_calls Confirmed,
        λ next e.
            arrive (λ n. Next n t) off_topic_guard next
              (
                loaded-proceed run.saved.state run.saved.draft deps.profile r.turn,
                λ waits said.
                    asked (sym waiting ∙ waits) (sym (ap is_invoice_proceed_message read) ∙ said),
              )
              e,
      )
  leaves off_topic_guard run (h, saved, calls, o) =
      let t = Asked.off_topic_guard (deps.unrelated run.state) run.state in
      let (h', o') = guarded r Confirmed (deps.unrelated run.state) run.state h o in
      (
        h',
        no_calls Confirmed,
        λ next e. off_guard r Confirmed (λ n. Next n t) t.off_topic next o' e,
      )
  leaves parse_intent run (h, saved, calls, o) =
      let found = deps.found run.state.message in
      let t = Parse.parse_intent found (deps.parsed run.state) run.state in
      (
        parsed-identified run.state.message found (deps.parsed run.state) run.state.line_items h,
        no_calls Confirmed,
        λ next e. arrive (λ n. Next n t) resolve_invoice_confirmation next o e,
      )
  leaves resolve_invoice_confirmation run (h, saved, calls, o) =
      let t = Session.resolve_invoice_confirmation run.state in
      let (h', o') = answered r Confirmed run.state h o in
      (h', no_calls Confirmed, λ next e. arrive (λ n. Next n t) resolve_catalog next o' e)
  leaves resolve_catalog run (h, saved, calls, o) =
      let t = Lookup.resolve_catalog deps.search deps.tools run.state in
      (
        looked_up-identified deps.search run.state.line_items ids h,
        no_calls Confirmed,
        λ next e. arrive (λ n. Next n t) react_planner next o e,
      )
  leaves react_planner run (h, saved, calls, o) =
      let t = React.planner run.state in
      (h, no_calls Confirmed, λ next e. arrive (λ n. Next n t) react_tool_selector next o e)
  leaves react_tool_selector run (h, saved, calls, o) =
      let t = React.tool_selector run.state in
      (h, no_calls Confirmed, λ next e. arrive (λ n. Next n t) react_executor next o e)
  leaves react_executor run (h, saved, calls, o) =
      let t = (React.executor deps.tools deps.loop_max run.state).0 in
      let (h', o') = executed r Confirmed deps.tools deps.loop_max run.state h o in
      (
        h',
        no_calls Confirmed,
        λ next e.
            off_react r Confirmed (λ n. Next n t) (React.conditional_executor t) next (λ again. o')
              o' tt e,
      )
  leaves check_availability run (h, saved, calls, o) =
      let t = Stock.check_availability deps.today (deps.catalog check_availability) run.state in
      let (h', o') =
        in_stock r Confirmed deps.today (deps.catalog check_availability) run.state h o in
      (
        h',
        no_calls Confirmed,
        λ next e. off_stock r Confirmed (λ n. Next n t) (has_unavailable_items t) next tt o' e,
      )
  leaves suggest_alternative run (h, saved, calls, o) = (
    suggested-identified deps.today (deps.catalog suggest_alternative) deps.tools deps.same_name
        (unavailable_items_from_state run.state) run.state h,
    no_calls Confirmed,
    λ next e. cc,
  )
  leaves check_missing_fields run (h, saved, calls, (waits, agreed)) =
      let t = Missing.check_missing_fields run.state in
      (
        complete-identified run.state h,
        no_calls Confirmed,
        λ next e.
            off_missing r Confirmed (λ n. Next n t) (Missing.missing_route t) next
              (λ route. agreed (finalized_only_if_confirmed run.state h waits route)) tt tt e,
      )
  leaves ask_for_fields run (h, saved, calls, o) = (h, no_calls Confirmed, λ next e. cc)
  leaves offer_invoice_confirmation run (h, saved, calls, o) =
      (offered-identified _ run.state h, no_calls Confirmed, λ next e. cc)
  leaves finalize_order run (h, saved, calls, agreed) =
      let t =
        (Stock.finalize_order deps.today (deps.catalog finalize_order) deps.fresh run.state).0 in
      (
        finalized-identified deps.today (deps.catalog finalize_order) deps.fresh run.state h,
        no_calls Confirmed,
        λ next e.
            off_finalize r Confirmed (λ n. Next n t) (Stock.finalize_route t) next tt agreed e,
      )
  leaves generate_invoice run (h, saved, calls, agreed) =
      made-Leaves run
        (Closing.generate_invoice deps.issuer r.session_id r.consumer_agent_id run.state run.tables)
        h agreed (made-lines deps.issuer r.session_id r.consumer_agent_id run.state run.tables)
  leaves dispatch_invoice_processing run (h, saved, calls, agreed) =
      let t = (Outcome.dispatch_invoice_processing deps.clients deps.default_mid run.state).0 in
      (
        subst AllIdentified (sym (dispatched-lines deps.clients deps.default_mid run.state)) h,
        λ some_call. agreed,
        λ next e. arrive (λ n. Next n t) resolve_invoice_outcome next agreed e,
      )
  leaves resolve_invoice_outcome run (h, saved, calls, agreed) = (
    subst AllIdentified (sym (resolved-lines deps.clients deps.default_mid deps.link_end run.state))
        h,
    λ some_call. agreed,
    λ next e. cc,
  )

  pub turn-Always :
      (limit : ℕ) (node : Node) (run : Run)
      → Before r Confirmed node run
      → Always r Confirmed (run_of (walk limit deps r node run))
  unfolding visit run_of
  turn-Always =
      walked deps r (Before r Confirmed) (λ ended. Always r Confirmed (run_of ended))
        (λ node run before. (before.1, before.2))
        (λ node run before.
          persisted-Visited r Confirmed deps node (deps.fate node run.state) run
            (run_node deps r node run) before (leaves node run before))
