-- ===== src/Agent/Graph/Served.antt =====
-- A turn that has called the services leaves the session with the id of a row.
use merchant_ai_agent.Base.{ℕ, ◌^◌, ◌<◌, ◌≡◌, refl, ◌∙◌, true, some, List, [], ◌∷◌, ◌++◌}
use merchant_ai_agent.Base.Results.{Result, ok, err, ◌>>=◌, Ensures}
use merchant_ai_agent.Invoice.Service.{OrderTables}
use merchant_ai_agent.Agent.{OrderState, AuditAction, is_nonempty, has_unavailable_items}
use merchant_ai_agent.Agent.Session as Session
use merchant_ai_agent.Agent.Asked as Asked
use merchant_ai_agent.Agent.Parse as Parse
use merchant_ai_agent.Agent.Lookup as Lookup
use merchant_ai_agent.Agent.Outcome as Outcome
use merchant_ai_agent.Agent.Outcome.{Clients, Call, invoice_id_text, with_invoice_id}
use merchant_ai_agent.Agent.React as React
use merchant_ai_agent.Agent.Stock as Stock
use merchant_ai_agent.Agent.Missing as Missing
use merchant_ai_agent.Agent.Closing as Closing
use merchant_ai_agent.Agent.Closing.{
  ClosingError, Issuer, accepted_savings, order_lines, issue_invoice, raise_as, with_invoice,
  invoice_request, invoice_error,
}
use merchant_ai_agent.Agent.Graph.{
  Node, load_session, off_topic_guard, parse_intent, resolve_invoice_confirmation, resolve_catalog,
  react_planner, react_tool_selector, react_executor, check_availability, suggest_alternative,
  check_missing_fields, ask_for_fields, offer_invoice_confirmation, finalize_order,
  generate_invoice, dispatch_invoice_processing, resolve_invoice_outcome, AgentTurnRequest, Fate,
  goes_well, raises, save_fails, NodeDependencies, Run, NodeRun, run_node, next_node, quiet,
  dispatched, concluded, invoiced_run,
}
use merchant_ai_agent.Agent.Graph.Turn.{
  Ended, saved_as, with_persistence, visit, invoke, initial_run, SessionStore, store_of,
}
use merchant_ai_agent.Agent.Graph.Walk.{arrive, Visited, walked}
use merchant_ai_agent.Agent.Graph.Routes.{
  off_guard, off_missing, off_react, off_stock, off_finalize,
}
use merchant_ai_agent.Agent.Graph.Made.{
  IsMade, IsServed, dispatched-invoice, outcome-id, generate_invoice-IsMade,
}

no_call : (calls : List Call) → calls ≡ [] → is_nonempty calls ≡ true → ⊥
unfolding is_nonempty
no_call [] e h = cc
no_call (x ∷ xs) e h = cc

module _ (deps : NodeDependencies) (r : AgentTurnRequest)
    (fresh : deps.issuer.fresh_id < 2 ^ 128) where
  abbrev Holds : Node → OrderTables → OrderState → Type 0
  Holds dispatch_invoice_processing tables s = IsMade tables s
  Holds resolve_invoice_outcome tables s = IsMade tables s
  Holds node tables s = Unit

  -- No call is made before the dispatch.
  abbrev Quiet : Node → List Call → Type 0
  Quiet resolve_invoice_outcome calls = Unit
  Quiet node calls = calls ≡ []

  idle-Quiet : (node : Node) (calls : List Call) → calls ≡ [] → Quiet node calls
  idle-Quiet resolve_invoice_outcome calls e = tt
  idle-Quiet node calls e = e

  abbrev Reaches : Node → Run → Type 0
  Reaches node run = Quiet node run.calls × Holds node run.tables run.state

  -- At the end.
  abbrev pub Served : Ended → Type 0
  Served (err failure) = Unit
  Served (ok run) = is_nonempty run.calls ≡ true → IsServed (store_of run)

  abbrev Early : Node → Result ClosingError NodeRun → Type 0
  Early node (err e) = Unit
  Early node (ok u) =
      (u.calls ≡ [])
      × ((next : Node) → next_node node u.state ≡ some next → Holds next u.tables u.state)

  node-Visited :
      (node : Node) (fate : Fate) (run : Run) (res : Result ClosingError NodeRun)
      → run.calls ≡ []
      → Early node res
      → Visited deps r Reaches Served node (with_persistence fate run res)
  unfolding with_persistence
  node-Visited node fate run (err e) idle h = tt
  node-Visited node raises run (ok u) idle h = tt
  node-Visited node save_fails run (ok u) idle h = tt
  node-Visited node goes_well run (ok u) idle (none_made, to) =
      let none_yet : run.calls ++ u.calls ≡ [] = rw idle none_made in
      (
        λ last called. elim (no_call (run.calls ++ u.calls) none_yet called) [ ],
        λ next e. (idle-Quiet next (run.calls ++ u.calls) none_yet, to next e),
      )

  dispatched-Visited :
      (fate : Fate) (run : Run)
      → IsMade run.tables run.state
      → Visited deps r Reaches Served dispatch_invoice_processing
          (with_persistence fate run (run_node deps r dispatch_invoice_processing run))
  unfolding with_persistence run_node dispatched next_node
  dispatched-Visited raises run made = tt
  dispatched-Visited save_fails run made = tt
  dispatched-Visited goes_well run made =
      let (t, made_calls) =
        Outcome.dispatch_invoice_processing deps.clients deps.default_mid run.state in
      let kept : IsMade run.tables t = record {
        invoice = made.invoice;
        is_kept = dispatched-invoice deps.clients deps.default_mid run.state ∙ made.is_kept;
        is_listed = made.is_listed;
      } in
      (
        λ last. cc,
        λ next e.
            arrive (λ n. Quiet n (run.calls ++ made_calls) × Holds n run.tables t)
              resolve_invoice_outcome next (tt, kept) e,
      )

  resolved-Visited :
      (fate : Fate) (run : Run)
      → IsMade run.tables run.state
      → Visited deps r Reaches Served resolve_invoice_outcome
          (with_persistence fate run (run_node deps r resolve_invoice_outcome run))
  unfolding with_persistence run_node concluded next_node store_of saved_as
  resolved-Visited raises run made = tt
  resolved-Visited save_fails run made = tt
  resolved-Visited goes_well run made =
      let listed = made.is_listed in
      (
        λ last called. record {
          id = listed.id;
          bounded = listed.bounded;
          is_spent = record {
            state =
                (Outcome.resolve_invoice_outcome deps.clients deps.default_mid deps.link_end
                  run.state).0;
            is_saved = refl;
            is_reserved =
                outcome-id deps.clients deps.default_mid deps.link_end run.state made.invoice
                  listed.id made.is_kept listed.is_shown;
            has_row = listed.has_row;
          };
        },
        λ next e. cc,
      )

  made-Early :
      (res : Result ClosingError (OrderState × OrderTables × List AuditAction))
      → Ensures (λ (made : OrderState × OrderTables × List AuditAction). IsMade made.1 made.0) res
      → Early generate_invoice (do made ← res; ok (invoiced_run made))
  unfolding invoiced_run next_node
  made-Early (err e) h = tt
  made-Early (ok made) h =
      (refl, λ next e. arrive (λ n. Holds n made.1 made.0) dispatch_invoice_processing next h e)

  through :
      (node : Node) (run : Run)
      → run.calls ≡ []
      → Early node (run_node deps r node run)
      → Visited deps r Reaches Served node (visit deps r node run)
  unfolding visit
  through node run idle h =
      node-Visited node (deps.fate node run.state) run (run_node deps r node run) idle h

  -- Only `generate_invoice` leads to the dispatch.
  reached :
      (node : Node) (run : Run)
      → Reaches node run
      → Visited deps r Reaches Served node (visit deps r node run)
  unfolding visit run_node next_node quiet
  reached load_session run (idle, h) =
      let t = Session.load_session run.saved.state run.saved.draft deps.profile r.turn in
      through load_session run idle
        (refl, λ next e. arrive (λ n. Holds n run.tables t) off_topic_guard next tt e)
  reached off_topic_guard run (idle, h) =
      let t = Asked.off_topic_guard (deps.unrelated run.state) run.state in
      through off_topic_guard run idle
        (refl, λ next e. off_guard r Unit (λ n. Holds n run.tables t) t.off_topic next tt e)
  reached parse_intent run (idle, h) =
      let t = Parse.parse_intent (deps.found run.state.message) (deps.parsed run.state) run.state in
      through parse_intent run idle
        (refl, λ next e. arrive (λ n. Holds n run.tables t) resolve_invoice_confirmation next tt e)
  reached resolve_invoice_confirmation run (idle, h) =
      let t = Session.resolve_invoice_confirmation run.state in
      through resolve_invoice_confirmation run idle
        (refl, λ next e. arrive (λ n. Holds n run.tables t) resolve_catalog next tt e)
  reached resolve_catalog run (idle, h) =
      let t = Lookup.resolve_catalog deps.search deps.tools run.state in
      through resolve_catalog run idle
        (refl, λ next e. arrive (λ n. Holds n run.tables t) react_planner next tt e)
  reached react_planner run (idle, h) =
      let t = React.planner run.state in
      through react_planner run idle
        (refl, λ next e. arrive (λ n. Holds n run.tables t) react_tool_selector next tt e)
  reached react_tool_selector run (idle, h) =
      let t = React.tool_selector run.state in
      through react_tool_selector run idle
        (refl, λ next e. arrive (λ n. Holds n run.tables t) react_executor next tt e)
  reached react_executor run (idle, h) =
      let t = (React.executor deps.tools deps.loop_max run.state).0 in
      through react_executor run idle (
        refl,
        λ next e.
            off_react r Unit (λ n. Holds n run.tables t) (React.conditional_executor t) next
              (λ again. tt) tt tt e,
      )
  reached check_availability run (idle, h) =
      let t = Stock.check_availability deps.today (deps.catalog check_availability) run.state in
      through check_availability run idle (
        refl,
        λ next e.
            off_stock r Unit (λ n. Holds n run.tables t) (has_unavailable_items t) next tt tt e,
      )
  reached suggest_alternative run (idle, h) =
      through suggest_alternative run idle (refl, λ next e. cc)
  reached check_missing_fields run (idle, h) =
      let t = Missing.check_missing_fields run.state in
      through check_missing_fields run idle (
        refl,
        λ next e.
            off_missing r Unit (λ n. Holds n run.tables t) (Missing.missing_route t) next
              (λ route. tt) tt tt e,
      )
  reached ask_for_fields run (idle, h) = through ask_for_fields run idle (refl, λ next e. cc)
  reached offer_invoice_confirmation run (idle, h) =
      through offer_invoice_confirmation run idle (refl, λ next e. cc)
  reached finalize_order run (idle, h) =
      let t =
        (Stock.finalize_order deps.today (deps.catalog finalize_order) deps.fresh run.state).0 in
      through finalize_order run idle (
        refl,
        λ next e.
            off_finalize r Unit (λ n. Holds n run.tables t) (Stock.finalize_route t) next tt tt e,
      )
  reached generate_invoice run (idle, h) = through generate_invoice run idle (
      made-Early
        (Closing.generate_invoice deps.issuer r.session_id r.consumer_agent_id run.state run.tables)
        (generate_invoice-IsMade deps.issuer r.session_id r.consumer_agent_id run.state run.tables
          fresh))
  reached dispatch_invoice_processing run (idle, h) =
      dispatched-Visited (deps.fate dispatch_invoice_processing run.state) run h
  reached resolve_invoice_outcome run (idle, h) =
      resolved-Visited (deps.fate resolve_invoice_outcome run.state) run h

  pub invoked-Served :
      (limit : ℕ) (store : SessionStore) → Served (invoke limit deps r store.saved store.tables)
  unfolding invoke initial_run
  invoked-Served limit store =
      walked deps r Reaches Served (λ node run h. tt) reached limit load_session
        (initial_run r store.saved store.tables) (refl, tt)
