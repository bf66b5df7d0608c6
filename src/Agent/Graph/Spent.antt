-- ===== src/Agent/Graph/Spent.antt =====
-- A session whose reserved invoice id has its row already gets no further invoice.
use merchant_ai_agent.Base.{
  ℕ, ◌≡◌, refl, sym, subst, ◌∙◌, String, true, false, some, List, [], ◌++◌, any, ◌==◌, str_eq,
}
use merchant_ai_agent.Base.Results.{Result, ok, err, ◌>>=◌}
use merchant_ai_agent.Uuid.{Uuid, parse_uuid, codes}
use merchant_ai_agent.Invoice.Service.{Order, OrderTables}
use merchant_ai_agent.Agent.{
  OrderState, AuditAction, has_unavailable_items, unavailable_items_from_state,
}
use merchant_ai_agent.Agent.Session as Session
use merchant_ai_agent.Agent.Session.{OrderDraft, TurnRequest}
use merchant_ai_agent.Agent.Asked as Asked
use merchant_ai_agent.Agent.Parse as Parse
use merchant_ai_agent.Agent.Lookup as Lookup
use merchant_ai_agent.Agent.React as React
use merchant_ai_agent.Agent.Stock as Stock
use merchant_ai_agent.Agent.Stock.{Catalog, check_lines, with_unavailable}
use merchant_ai_agent.Agent.Missing as Missing
use merchant_ai_agent.Agent.Missing.{conclude_check, orderable_line_items}
use merchant_ai_agent.Agent.Alternatives as Alternatives
use merchant_ai_agent.Agent.Closing as Closing
use merchant_ai_agent.Agent.Closing.{
  ClosingError, Issuer, offer_if, accepted_savings, order_lines, issue_invoice, invoice_request,
  raise_as, invoice_error, with_invoice,
}
use merchant_ai_agent.Agent.Graph.{
  Node, load_session, off_topic_guard, parse_intent, resolve_invoice_confirmation, resolve_catalog,
  react_planner, react_tool_selector, react_executor, check_availability, suggest_alternative,
  check_missing_fields, ask_for_fields, offer_invoice_confirmation, finalize_order,
  generate_invoice, dispatch_invoice_processing, resolve_invoice_outcome, AgentTurnRequest, Fate,
  goes_well, raises, save_fails, NodeDependencies, Saved, Run, NodeRun, run_node, next_node, quiet,
  dispatched, concluded, invoiced_run,
}
use merchant_ai_agent.Agent.Graph.Turn.{
  saved_as, with_persistence, visit, walk, run_of, invoke, initial_run, agent_turn, turn_run,
  SessionStore, store_of,
}
use merchant_ai_agent.Agent.Graph.Walk.{arrive, Visited, walked}
use merchant_ai_agent.Agent.Graph.Kept.{executor-IsSameOrder}
use merchant_ai_agent.Agent.Graph.Routes.{
  off_guard, off_missing, off_react, off_stock, off_finalize,
}
use merchant_ai_agent.Agent.Graph.Reserved.{
  never_made, IsReserved, loaded-IsReserved, guarded-IsReserved, answered-IsReserved,
  in_stock-IsReserved, suggested-IsReserved, concluded-IsReserved, offered-IsReserved,
  finalized-IsReserved,
}

-- The id that the session reserved is that of an order row.
pub record IsSpent (id : String) (uuid : Uuid) (store : SessionStore) : Type 0 where
  pub state : OrderState
  pub is_saved : store.saved.state ≡ some state
  pub is_reserved : state.reservation_invoice_id ≡ some id
  pub has_row : any (λ (o : Order). o.id == uuid) store.tables.orders ≡ true

module _ (deps : NodeDependencies) (r : AgentTurnRequest) (id : String) (uuid : Uuid)
    (nonempty : str_eq id "" ≡ false) (parses : parse_uuid (codes id) ≡ some uuid)
    (tables : OrderTables) (taken : any (λ (o : Order). o.id == uuid) tables.orders ≡ true) where
  -- The nodes behind `generate_invoice` are never reached.
  abbrev Holds : Node → OrderState → Type 0
  Holds load_session s = Unit
  Holds dispatch_invoice_processing s = ⊥
  Holds resolve_invoice_outcome s = ⊥
  Holds node s = IsReserved id s

  abbrev SavedId : Saved → Type 0
  SavedId saved = (s : OrderState) × (saved.state ≡ some s) × IsReserved id s

  abbrev Idle : Run → Type 0
  Idle run = (run.calls ≡ []) × (run.tables ≡ tables) × SavedId run.saved

  abbrev IdleBefore : Node → Run → Type 0
  IdleBefore node run = Idle run × Holds node run.state

  abbrev LeavesIdle : Node → Result ClosingError NodeRun → Type 0
  LeavesIdle node (err e) = Unit
  LeavesIdle node (ok u) =
      (u.calls ≡ [])
      × (u.tables ≡ tables)
      × IsReserved id u.state
      × ((next : Node) → next_node node u.state ≡ some next → Holds next u.state)

  saved-Idle :
      (node : Node) (fate : Fate) (run : Run) (res : Result ClosingError NodeRun)
      → Idle run
      → LeavesIdle node res
      → Visited deps r IdleBefore
          (λ ended. Idle (run_of ended))
          node
          (with_persistence fate run res)
  unfolding with_persistence saved_as run_of
  saved-Idle node fate run (err e) idle h = idle
  saved-Idle node raises run (ok u) (calls, same, saved) (none_made, kept, reserved, to) =
      (rw calls none_made, same, saved)
  saved-Idle node save_fails run (ok u) (calls, same, saved) (none_made, kept, reserved, to) =
      (rw calls none_made, kept, saved)
  saved-Idle node goes_well run (ok u) (calls, same, saved) (none_made, kept, reserved, to) =
      let now : Idle (record {
        state = u.state;
        saved = saved_as u.state;
        tables = u.tables;
        calls = run.calls ++ u.calls;
        audits = run.audits ++ u.audits;
      }) =
        (rw calls none_made, kept, (u.state, refl, reserved)) in
      ((λ last. now), λ next e. (now, to next e))

  refused-LeavesIdle :
      (res : Result ClosingError (OrderState × OrderTables × List AuditAction))
      → (e : ClosingError) × (res ≡ err e)
      → LeavesIdle generate_invoice (do made ← res; ok (invoiced_run made))
  refused-LeavesIdle (err e) h = tt
  refused-LeavesIdle (ok made) (e, h) = cc

  leaves_idle :
      (node : Node) (run : Run) → IdleBefore node run → LeavesIdle node (run_node deps r node run)
  unfolding run_node next_node quiet dispatched concluded Parse.parse_intent Asked.write_parsed
      Lookup.resolve_catalog React.planner React.tool_selector Missing.check_missing_fields
      Closing.ask_for_fields Closing.offer_invoice_confirmation Alternatives.suggest_alternative
  leaves_idle load_session run ((calls, kept, (s, saved, reserved)), h) =
      let t = Session.load_session run.saved.state run.saved.draft deps.profile r.turn in
      let now =
        loaded-IsReserved id s run.saved.state run.saved.draft deps.profile r.turn saved reserved in
      (refl, kept, now, λ next e. arrive (λ n. Holds n t) off_topic_guard next now e)
  leaves_idle off_topic_guard run ((calls, kept, saved), h) =
      let t = Asked.off_topic_guard (deps.unrelated run.state) run.state in
      let now = guarded-IsReserved id (deps.unrelated run.state) run.state h in
      (refl, kept, now, λ next e. off_guard r Unit (λ n. Holds n t) t.off_topic next now e)
  leaves_idle parse_intent run ((calls, kept, saved), h) =
      let t = Parse.parse_intent (deps.found run.state.message) (deps.parsed run.state) run.state in
      (refl, kept, h, λ next e. arrive (λ n. Holds n t) resolve_invoice_confirmation next h e)
  leaves_idle resolve_invoice_confirmation run ((calls, kept, saved), h) =
      let t = Session.resolve_invoice_confirmation run.state in
      let now = answered-IsReserved id run.state h in
      (refl, kept, now, λ next e. arrive (λ n. Holds n t) resolve_catalog next now e)
  leaves_idle resolve_catalog run ((calls, kept, saved), h) =
      let t = Lookup.resolve_catalog deps.search deps.tools run.state in
      (refl, kept, h, λ next e. arrive (λ n. Holds n t) react_planner next h e)
  leaves_idle react_planner run ((calls, kept, saved), h) =
      let t = React.planner run.state in
      (refl, kept, h, λ next e. arrive (λ n. Holds n t) react_tool_selector next h e)
  leaves_idle react_tool_selector run ((calls, kept, saved), h) =
      let t = React.tool_selector run.state in
      (refl, kept, h, λ next e. arrive (λ n. Holds n t) react_executor next h e)
  leaves_idle react_executor run ((calls, kept, saved), h) =
      let t = (React.executor deps.tools deps.loop_max run.state).0 in
      let now = (executor-IsSameOrder deps.tools deps.loop_max run.state).reserved ∙ h in
      (
        refl,
        kept,
        now,
        λ next e.
            off_react r Unit (λ n. Holds n t) (React.conditional_executor t) next (λ again. now) now
              now e,
      )
  leaves_idle check_availability run ((calls, kept, saved), h) =
      let t = Stock.check_availability deps.today (deps.catalog check_availability) run.state in
      let now = in_stock-IsReserved id deps.today (deps.catalog check_availability) run.state h in
      (
        refl,
        kept,
        now,
        λ next e. off_stock r Unit (λ n. Holds n t) (has_unavailable_items t) next now now e,
      )
  leaves_idle suggest_alternative run ((calls, kept, saved), h) = (
    refl,
    kept,
    suggested-IsReserved id deps.today (deps.catalog suggest_alternative) deps.tools deps.same_name
        (unavailable_items_from_state run.state) run.state h,
    λ next e. cc,
  )
  leaves_idle check_missing_fields run ((calls, kept, saved), h) =
      let t = Missing.check_missing_fields run.state in
      let now : IsReserved id t = concluded-IsReserved id _ _ run.state h in
      (
        refl,
        kept,
        now,
        λ next e.
            off_missing r Unit (λ n. Holds n t) (Missing.missing_route t) next (λ route. now) now
              now e,
      )
  leaves_idle ask_for_fields run ((calls, kept, saved), h) = (refl, kept, h, λ next e. cc)
  leaves_idle offer_invoice_confirmation run ((calls, kept, saved), h) =
      (refl, kept, offered-IsReserved id _ run.state h, λ next e. cc)
  leaves_idle finalize_order run ((calls, kept, saved), h) =
      let t =
        (Stock.finalize_order deps.today (deps.catalog finalize_order) deps.fresh run.state).0 in
      let now =
        finalized-IsReserved id deps.today (deps.catalog finalize_order) deps.fresh run.state
          nonempty h in
      (
        refl,
        kept,
        now,
        λ next e. off_finalize r Unit (λ n. Holds n t) (Stock.finalize_route t) next now now e,
      )
  leaves_idle generate_invoice run ((calls, kept, saved), h) =
      refused-LeavesIdle
        (Closing.generate_invoice deps.issuer r.session_id r.consumer_agent_id run.state run.tables)
        (never_made id uuid nonempty parses deps.issuer r.session_id r.consumer_agent_id run.state
          run.tables h
          (subst (λ t. any (λ (o : Order). o.id == uuid) t.orders ≡ true) (sym kept) taken))
  leaves_idle dispatch_invoice_processing run (idle, h) = elim h [ ]
  leaves_idle resolve_invoice_outcome run (idle, h) = elim h [ ]

  turn-Idle :
      (limit : ℕ) (run : Run) → Idle run → Idle (run_of (walk limit deps r load_session run))
  unfolding visit run_of
  turn-Idle limit run idle =
      walked deps r IdleBefore (λ ended. Idle (run_of ended)) (λ node run before. before.0)
        (λ node run before.
          saved-Idle node (deps.fate node run.state) run (run_node deps r node run) before.0
            (leaves_idle node run before))
        limit load_session run (idle, tt)

-- Once the id that the session reserved is that of an order row, whether that order was invoiced or
-- failed at the reservation, no turn asks for stock or for a payment link any more or adds a row, and
-- it leaves the session as stuck as it found it.
pub row_blocks_session :
    (limit : ℕ) (deps : NodeDependencies) (r : AgentTurnRequest) (id : String) (uuid : Uuid)
    (store : SessionStore)
    → str_eq id "" ≡ false
    → parse_uuid (codes id) ≡ some uuid
    → IsSpent id uuid store
    → let run = turn_run limit deps r store in
      (run.calls ≡ []) × (run.tables ≡ store.tables) × IsSpent id uuid (store_of run)
unfolding turn_run agent_turn invoke initial_run store_of
row_blocks_session limit deps r id uuid store nonempty parses spent =
    let start = initial_run r store.saved store.tables in
    let (calls, kept, (s, saved, reserved)) =
      turn-Idle deps r id uuid nonempty parses store.tables spent.has_row limit start
        (refl, refl, (spent.state, spent.is_saved, spent.is_reserved)) in
    (
      calls,
      kept,
      record {
        state = s;
        is_saved = saved;
        is_reserved = reserved;
        has_row =
            subst (λ t. any (λ (o : Order). o.id == uuid) t.orders ≡ true) (sym kept) spent.has_row;
      },
    )
