-- ===== src/Agent/Graph.antt =====
-- services/merchant_agent/graph/build_graph.py: the nodes of the agent, and the edges between them.
pub mod Turn
pub mod Walk
pub mod Kept
pub mod Stage
pub mod Lines
pub mod Routes
pub mod Leaves
pub mod Agreed
pub mod Rank
pub mod Ends
pub mod Reserved
pub mod Spent
pub mod Made
pub mod Once
pub mod Served
mod Tests
use merchant_ai_agent.Base.{
  ℕ, zero, suc, String, Bool, true, false, Option, none, some, List, [], ◌∷◌, ◌++◌, map,
  if◌then◌else◌,
}
use merchant_ai_agent.Base.Results.{Result, ok, err, ◌>>=◌}
use merchant_ai_agent.Invoice.Schema.{Invoice}
use merchant_ai_agent.Invoice.Service.{OrderTables}
use merchant_ai_agent.Agent.{
  Unavailable, MissingField, OrderStatus, failed, Reply, OrderState, Profile, AuditAction,
  item_unavailable, offer_surfaced, has_unavailable_items, unavailable_items_from_state,
  is_nonempty,
}
use merchant_ai_agent.Agent.Session as Session
use merchant_ai_agent.Agent.Session.{OrderDraft, TurnRequest, new_session}
use merchant_ai_agent.Agent.Memory.{draft_of}
use merchant_ai_agent.Agent.Merge.{ParsedIntent}
use merchant_ai_agent.Agent.Parse as Parse
use merchant_ai_agent.Agent.Parse.{Found}
use merchant_ai_agent.Agent.Asked as Asked
use merchant_ai_agent.Agent.Lookup as Lookup
use merchant_ai_agent.Agent.Lookup.{Search}
use merchant_ai_agent.Agent.React as React
use merchant_ai_agent.Agent.React.{Tools, ReactRoute}
use merchant_ai_agent.Agent.Stock as Stock
use merchant_ai_agent.Agent.Stock.{Catalog, FinalizeRoute}
use merchant_ai_agent.Agent.Missing as Missing
use merchant_ai_agent.Agent.Missing.{MissingRoute}
use merchant_ai_agent.Agent.Alternatives as Alternatives
use merchant_ai_agent.Agent.Outcome as Outcome
use merchant_ai_agent.Agent.Outcome.{Clients, Call}
use merchant_ai_agent.Agent.Closing as Closing
use merchant_ai_agent.Agent.Closing.{ClosingError, Issuer}

pub data Node : Type 0 where
  load_session off_topic_guard parse_intent resolve_invoice_confirmation resolve_catalog : Node
  react_planner react_tool_selector react_executor : Node
  check_availability suggest_alternative check_missing_fields ask_for_fields : Node
  offer_invoice_confirmation finalize_order generate_invoice : Node
  dispatch_invoice_processing resolve_invoice_outcome : Node

pub record AgentTurnRequest : Type 0 where
  pub session_id : String
  pub consumer_agent_id : String
  pub turn : TurnRequest

-- Whether a node comes to its end: an exception that nothing catches leaves it before its commit, or
-- its state cannot be saved.
pub data Fate : Type 0 where
  goes_well raises save_fails : Fate

-- What the nodes are told from outside: by the model, the catalog as each of them meets it, the tools,
-- the other services, the settings, the clock and `uuid4`.
pub record NodeDependencies : Type 0 where
  pub fate : Node → OrderState → Fate
  pub unrelated : OrderState → Bool
  pub found : String → Found
  pub parsed : OrderState → ParsedIntent
  pub profile : Profile
  pub search : Search
  pub tools : Tools
  pub loop_max : ℕ
  pub today : ℕ
  pub catalog : Node → Catalog
  pub same_name : Unavailable → List String
  pub fresh : String
  pub issuer : Issuer
  pub clients : Option Clients
  pub default_mid : String
  pub link_end : ℕ

-- What Redis holds of the session.
pub record Saved : Type 0 where
  pub state : Option OrderState
  pub draft : Option OrderDraft

-- A turn on its way: the state of the graph, what is saved, and what was done.
pub record Run : Type 0 where
  pub state : OrderState
  pub saved : Saved
  pub tables : OrderTables
  pub calls : List Call
  pub audits : List AuditAction

-- What a node returns and does.
pub record NodeRun : Type 0 where
  pub state : OrderState
  pub tables : OrderTables
  pub calls : List Call
  pub audits : List AuditAction

unfoldable pub quiet : Run → OrderState × List AuditAction → NodeRun
quiet run (s, audits) = record { state = s; tables = run.tables; calls = []; audits = audits }

-- The entry of `resolve_catalog`, if some offer was found.
unfoldable pub lookup_audits : OrderState → List AuditAction
unfolding is_nonempty
lookup_audits s = if is_nonempty s.resolved_offers then offer_surfaced ∷ [] else []

unfoldable pub stockout_audits : List Unavailable → List AuditAction
stockout_audits [] = []
stockout_audits (u ∷ us) = item_unavailable ∷ stockout_audits us

unfoldable pub dispatched : Run → OrderState × List Call → NodeRun
dispatched run (s, calls) = record { state = s; tables = run.tables; calls = calls; audits = [] }

unfoldable pub concluded : Run → OrderState × Outcome.Effects → NodeRun
concluded run (s, effects) = record {
  state = s;
  tables = run.tables;
  calls = effects.calls;
  audits = effects.audits;
}

unfoldable pub invoiced_run : OrderState × OrderTables × List AuditAction → NodeRun
invoiced_run (s, tables, audits) = record {
  state = s;
  tables = tables;
  calls = [];
  audits = audits;
}

-- The nodes by their functions.
unfoldable pub run_node :
    NodeDependencies → AgentTurnRequest → Node → Run → Result ClosingError NodeRun
unfolding quiet lookup_audits stockout_audits unavailable_items_from_state dispatched concluded
    invoiced_run Session.load_session Session.resolve_invoice_confirmation Asked.off_topic_guard
    Parse.parse_intent Lookup.resolve_catalog React.planner React.tool_selector React.executor
    Stock.check_availability Stock.finalize_order Alternatives.suggest_alternative
    Missing.check_missing_fields Closing.ask_for_fields Closing.offer_invoice_confirmation
    Closing.generate_invoice Outcome.dispatch_invoice_processing Outcome.resolve_invoice_outcome
run_node deps r load_session run =
    ok (quiet run (Session.load_session run.saved.state run.saved.draft deps.profile r.turn, []))
run_node deps r off_topic_guard run =
    ok (quiet run (Asked.off_topic_guard (deps.unrelated run.state) run.state, []))
run_node deps r parse_intent run = ok (
    quiet run
      (Parse.parse_intent (deps.found run.state.message) (deps.parsed run.state) run.state, []))
run_node deps r resolve_invoice_confirmation run =
    ok (quiet run (Session.resolve_invoice_confirmation run.state, []))
run_node deps r resolve_catalog run =
    let s = Lookup.resolve_catalog deps.search deps.tools run.state in
    ok (quiet run (s, lookup_audits s))
run_node deps r react_planner run = ok (quiet run (React.planner run.state, []))
run_node deps r react_tool_selector run = ok (quiet run (React.tool_selector run.state, []))
run_node deps r react_executor run =
    ok (quiet run (React.executor deps.tools deps.loop_max run.state))
run_node deps r check_availability run = ok (
    quiet run (Stock.check_availability deps.today (deps.catalog check_availability) run.state, []))
run_node deps r suggest_alternative run = ok (
    quiet run (
      Alternatives.suggest_alternative deps.today (deps.catalog suggest_alternative) deps.tools
          deps.same_name run.state,
      stockout_audits (unavailable_items_from_state run.state),
    ))
run_node deps r check_missing_fields run =
    ok (quiet run (Missing.check_missing_fields run.state, []))
run_node deps r ask_for_fields run = ok (quiet run (Closing.ask_for_fields run.state))
run_node deps r offer_invoice_confirmation run =
    ok (quiet run (Closing.offer_invoice_confirmation run.state))
run_node deps r finalize_order run =
    ok (
      quiet run
        (Stock.finalize_order deps.today (deps.catalog finalize_order) deps.fresh run.state))
run_node deps r generate_invoice run = do
  made ← Closing.generate_invoice deps.issuer r.session_id r.consumer_agent_id run.state run.tables
  ok (invoiced_run made)
run_node deps r dispatch_invoice_processing run =
    ok
      (dispatched run (Outcome.dispatch_invoice_processing deps.clients deps.default_mid run.state))
run_node deps r resolve_invoice_outcome run = ok (
    concluded run
      (Outcome.resolve_invoice_outcome deps.clients deps.default_mid deps.link_end run.state))

-- The routes, as the nodes that they lead to.
unfoldable pub react_target : ReactRoute → Node
react_target ReactRoute.react_planner = react_planner
react_target ReactRoute.check_availability = check_availability
react_target ReactRoute.suggest_alternative = suggest_alternative

unfoldable pub missing_target : MissingRoute → Node
missing_target MissingRoute.finalize_order = finalize_order
missing_target MissingRoute.ask_for_fields = ask_for_fields
missing_target MissingRoute.offer_invoice_confirmation = offer_invoice_confirmation

unfoldable pub finalize_target : FinalizeRoute → Node
finalize_target FinalizeRoute.suggest_alternative = suggest_alternative
finalize_target FinalizeRoute.generate_invoice = generate_invoice

-- The edges of the graph.
unfoldable pub next_node : Node → OrderState → Option Node
unfolding react_target missing_target finalize_target has_unavailable_items
    React.conditional_executor Missing.missing_route Stock.finalize_route
next_node load_session s = some off_topic_guard
next_node off_topic_guard s = if s.off_topic then none else some parse_intent
next_node parse_intent s = some resolve_invoice_confirmation
next_node resolve_invoice_confirmation s = some resolve_catalog
next_node resolve_catalog s = some react_planner
next_node react_planner s = some react_tool_selector
next_node react_tool_selector s = some react_executor
next_node react_executor s = some (react_target (React.conditional_executor s))
next_node check_availability s =
    some (if has_unavailable_items s then suggest_alternative else check_missing_fields)
next_node suggest_alternative s = none
next_node check_missing_fields s = some (missing_target (Missing.missing_route s))
next_node ask_for_fields s = none
next_node offer_invoice_confirmation s = none
next_node finalize_order s = some (finalize_target (Stock.finalize_route s))
next_node generate_invoice s = some dispatch_invoice_processing
next_node dispatch_invoice_processing s = some resolve_invoice_outcome
next_node resolve_invoice_outcome s = none
