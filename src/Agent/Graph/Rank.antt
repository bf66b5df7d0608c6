-- ===== src/Agent/Graph/Rank.antt =====
-- How many nodes of services/merchant_agent/graph/build_graph.py a turn still has before it.
use merchant_ai_agent.Base.{
  ℕ, ◌+◌, ◌*◌, ◌≤◌, ◌<◌, ◌≡◌, refl, Bool, true, false, not, ◌&&◌, ◌||◌, some, List, [], ◌∷◌, ◌++◌,
  any, ◌==◌, if◌then◌else◌, leb, max, is_some, arith,
}
use merchant_ai_agent.Base.Results.{Result, ok, err, ◌>>=◌}
use merchant_ai_agent.Invoice.Service.{OrderTables}
use merchant_ai_agent.Agent.{
  Goal, cross_sell_lookup, offer_lookup, campaign_scan, done, Tool, cross_sell_tool, offer_tool,
  campaign_tool, OrderState, AuditAction, is_nonempty, has_unavailable_items,
}
use merchant_ai_agent.Agent.React as React
use merchant_ai_agent.Agent.React.{
  Tools, ReactRoute, attempted, goal_number, plan, tools_for, run_selected, capped, go_on, item_ids,
}
use merchant_ai_agent.Agent.Rounds.{leaves}
use merchant_ai_agent.Agent.Session as Session
use merchant_ai_agent.Agent.Asked as Asked
use merchant_ai_agent.Agent.Parse as Parse
use merchant_ai_agent.Agent.Lookup as Lookup
use merchant_ai_agent.Agent.Outcome as Outcome
use merchant_ai_agent.Agent.Stock as Stock
use merchant_ai_agent.Agent.Missing as Missing
use merchant_ai_agent.Agent.Closing as Closing
use merchant_ai_agent.Agent.Closing.{ClosingError}
use merchant_ai_agent.Agent.Graph.{
  Node, load_session, off_topic_guard, parse_intent, resolve_invoice_confirmation, resolve_catalog,
  react_planner, react_tool_selector, react_executor, check_availability, suggest_alternative,
  check_missing_fields, ask_for_fields, offer_invoice_confirmation, finalize_order,
  generate_invoice, dispatch_invoice_processing, resolve_invoice_outcome, AgentTurnRequest,
  NodeDependencies, Run, NodeRun, run_node, next_node, invoiced_run, quiet, dispatched, concluded,
}
use merchant_ai_agent.Agent.Graph.Walk.{arrive}
use merchant_ai_agent.Agent.Graph.Kept.{executor-IsSameOrder}
use merchant_ai_agent.Agent.Graph.Routes.{
  off_guard, off_missing, off_react, off_stock, off_finalize,
}

one_unless : Bool → ℕ
one_unless b = if b then 0 else 1

-- The goals that the planner has not tried.
open_goals : List Goal → ℕ
unfolding one_unless
open_goals pad =
    one_unless (attempted cross_sell_lookup pad)
    + one_unless (attempted offer_lookup pad)
    + one_unless (attempted campaign_scan pad)

-- The nodes of the rounds that the chosen tools lead to.
further : List Tool → List Goal → ℕ
further [] pad = 0
further (tool ∷ tools) pad = 3 * (1 + open_goals pad)

-- At most so many nodes are visited from a node on.
pub rank : Node → OrderState → ℕ
rank load_session s = 23
rank off_topic_guard s = 22
rank parse_intent s = 21
rank resolve_invoice_confirmation s = 20
rank resolve_catalog s = 19
rank react_planner s = 9 + 3 * open_goals s.react_scratchpad
rank react_tool_selector s = 8 + further (tools_for s.react_goal) s.react_scratchpad
rank react_executor s = 7 + further s.react_selected_tools s.react_scratchpad
rank check_availability s = 6
rank check_missing_fields s = 5
rank finalize_order s = 4
rank generate_invoice s = 3
rank dispatch_invoice_processing s = 2
rank resolve_invoice_outcome s = 1
rank suggest_alternative s = 1
rank ask_for_fields s = 1
rank offer_invoice_confirmation s = 1

pub rank-positive : (node : Node) (s : OrderState) → 1 ≤ rank node s
unfolding rank
rank-positive node s = ground arith

pub rank_of_start : (s : OrderState) → rank load_session s ≡ 23
unfolding rank
rank_of_start s = refl

few_goals : (pad : List Goal) → open_goals pad ≤ 3
unfolding open_goals one_unless
few_goals pad = ground arith

attempted-append :
    (goal g : Goal) (pad : List Goal)
    → attempted goal (pad ++ g ∷ []) ≡ (attempted goal pad || goal_number g == goal_number goal)
unfolding attempted any
attempted-append goal g [] = ground arith
attempted-append goal g (x ∷ pad) = ground (arith, attempted-append goal g pad)

crosses : tools_for (some cross_sell_lookup) ≡ cross_sell_tool ∷ []
unfolding tools_for
crosses = refl

offers : tools_for (some offer_lookup) ≡ offer_tool ∷ []
unfolding tools_for
offers = refl

scans : tools_for (some campaign_scan) ≡ campaign_tool ∷ []
unfolding tools_for
scans = refl

-- A goal that is tried was open, and is so no more.
tried :
    (goal : Goal) (tool : Tool) (pad : List Goal)
    → tools_for (some goal) ≡ tool ∷ []
    → attempted goal pad ≡ false
    → 8 + further (tools_for (some goal)) (pad ++ goal ∷ []) < 9 + 3 * open_goals pad
unfolding open_goals one_unless further tools_for goal_number
tried cross_sell_lookup tool pad e h = ground (
  arith,
  h,
  attempted-append cross_sell_lookup cross_sell_lookup pad,
  attempted-append offer_lookup cross_sell_lookup pad,
  attempted-append campaign_scan cross_sell_lookup pad,
)
tried offer_lookup tool pad e h = ground (
  arith,
  h,
  attempted-append cross_sell_lookup offer_lookup pad,
  attempted-append offer_lookup offer_lookup pad,
  attempted-append campaign_scan offer_lookup pad,
)
tried campaign_scan tool pad e h = ground (
  arith,
  h,
  attempted-append cross_sell_lookup campaign_scan pad,
  attempted-append offer_lookup campaign_scan pad,
  attempted-append campaign_scan campaign_scan pad,
)
tried done tool pad e h = cc

finished :
    (pad : List Goal)
    → 8 + further (tools_for (some done)) (pad ++ done ∷ []) < 9 + 3 * open_goals pad
unfolding further tools_for
finished pad = omega arith

-- Whatever the planner plans, fewer nodes are left.
planned :
    (unavailable has_ids : Bool) (pad : List Goal)
    → let goal = plan unavailable has_ids pad in
      8 + further (tools_for (some goal)) (pad ++ goal ∷ []) < 9 + 3 * open_goals pad
unfolding plan
planned unavailable has_ids pad = go unavailable has_ids _ _ _ refl refl refl
  where
    goal : Bool → Bool → Bool → Bool → Bool → Goal
    goal u h a b c =
        if u && not a
        then cross_sell_lookup
        else if h && not b
        then offer_lookup
        else if h && not c
        then campaign_scan
        else done

    go :
        (u h a b c : Bool)
        → attempted cross_sell_lookup pad ≡ a
        → attempted offer_lookup pad ≡ b
        → attempted campaign_scan pad ≡ c
        → 8 + further (tools_for (some (goal u h a b c))) (pad ++ goal u h a b c ∷ [])
          < 9 + 3 * open_goals pad
    go true h false b c x y z = tried cross_sell_lookup cross_sell_tool pad crosses x
    go true true true false c x y z = tried offer_lookup offer_tool pad offers y
    go true true true true false x y z = tried campaign_scan campaign_tool pad scans z
    go true true true true true x y z = finished pad
    go true false true b c x y z = finished pad
    go false true a false c x y z = tried offer_lookup offer_tool pad offers y
    go false true a true false x y z = tried campaign_scan campaign_tool pad scans z
    go false true a true true x y z = finished pad
    go false false a b c x y z = finished pad

selected_some :
    (tools : Tools) (loop_max : ℕ) (s : OrderState)
    → go_on (React.conditional_executor (React.executor tools loop_max s).0) ≡ true
    → is_nonempty s.react_selected_tools ≡ true
unfolding React.executor React.conditional_executor capped run_selected is_nonempty
selected_some tools loop_max s h =
    go (leb (max 1 loop_max) s.react_loop_count) s.react_selected_tools h
  where
    chosen : Bool → List Tool → OrderState
    chosen b selected = (if b then capped s else run_selected tools selected s).0

    go :
        (b : Bool) (selected : List Tool)
        → go_on (React.conditional_executor (chosen b selected)) ≡ true
        → is_nonempty selected ≡ true
    go true selected h = ground (arith, h, leaves (has_unavailable_items (chosen true selected)))
    go false [] h = ground (arith, h, leaves (has_unavailable_items (chosen false [])))
    go false (tool ∷ more) h = refl

further-cons :
    (pad : List Goal) (tool : Tool) (more : List Tool)
    → 9 + 3 * open_goals pad < 7 + further (tool ∷ more) pad
unfolding further
further-cons pad tool more = omega arith

-- The executor goes back to the planner only with a tool that it has used.
used_tool :
    (tools : Tools) (loop_max : ℕ) (s : OrderState)
    → go_on (React.conditional_executor (React.executor tools loop_max s).0) ≡ true
    → 9 + 3 * open_goals (React.executor tools loop_max s).0.react_scratchpad
      < 7 + further s.react_selected_tools s.react_scratchpad
unfolding is_nonempty
used_tool tools loop_max s again =
    let same = executor-IsSameOrder tools loop_max s in
    rw same.scratchpad (go s.react_selected_tools (selected_some tools loop_max s again))
  where
    go :
        (selected : List Tool)
        → is_nonempty selected ≡ true
        → 9 + 3 * open_goals s.react_scratchpad < 7 + further selected s.react_scratchpad
    go [] h = cc
    go (tool ∷ more) h = further-cons s.react_scratchpad tool more

module _ (deps : NodeDependencies) (r : AgentTurnRequest) where
  -- Behind a node fewer nodes are left.
  abbrev pub Descends : ℕ → Node → Result ClosingError NodeRun → Type 0
  Descends n node (err e) = Unit
  Descends n node (ok u) =
      (next : Node) → next_node node u.state ≡ some next → rank next u.state < n

  made-Descends :
      (res : Result ClosingError (OrderState × OrderTables × List AuditAction))
      → Descends 3 generate_invoice (do made ← res; ok (invoiced_run made))
  unfolding invoiced_run next_node rank
  made-Descends (err e) = tt
  made-Descends (ok made) =
      λ next e. arrive (λ n. rank n made.0 < 3) dispatch_invoice_processing next (omega arith) e

  -- The node at the end of the edge, in the state `s`.
  abbrev Fewer : OrderState → ℕ → Node → Type 0
  Fewer s n next = rank next s < n

  pub descends :
      (node : Node) (run : Run) → Descends (rank node run.state) node (run_node deps r node run)
  unfolding run_node next_node quiet dispatched concluded rank React.planner React.tool_selector
  descends load_session run =
      let t = Session.load_session run.saved.state run.saved.draft deps.profile r.turn in
      λ next e. arrive (Fewer t 23) off_topic_guard next (omega arith) e
  descends off_topic_guard run =
      let t = Asked.off_topic_guard (deps.unrelated run.state) run.state in
      λ next e. off_guard r Unit (Fewer t 22) t.off_topic next (omega arith) e
  descends parse_intent run =
      let t = Parse.parse_intent (deps.found run.state.message) (deps.parsed run.state) run.state in
      λ next e. arrive (Fewer t 21) resolve_invoice_confirmation next (omega arith) e
  descends resolve_invoice_confirmation run =
      let t = Session.resolve_invoice_confirmation run.state in
      λ next e. arrive (Fewer t 20) resolve_catalog next (omega arith) e
  descends resolve_catalog run =
      let t = Lookup.resolve_catalog deps.search deps.tools run.state in
      λ next e.
        arrive (Fewer t 19) react_planner next (omega (arith, few_goals t.react_scratchpad)) e
  descends react_planner run =
      let t = React.planner run.state in
      λ next e.
        arrive (Fewer t (rank react_planner run.state)) react_tool_selector next
          (planned (is_some run.state.unavailable_item)
            (is_nonempty (item_ids run.state.line_items)) run.state.react_scratchpad)
          e
  descends react_tool_selector run =
      let t = React.tool_selector run.state in
      λ next e.
        arrive (Fewer t (rank react_tool_selector run.state)) react_executor next (omega arith) e
  descends react_executor run =
      let t = (React.executor deps.tools deps.loop_max run.state).0 in
      λ next e.
        off_react r Unit (Fewer t (rank react_executor run.state)) (React.conditional_executor t)
          next (λ again. used_tool deps.tools deps.loop_max run.state again) (omega arith)
          (omega arith) e
  descends check_availability run =
      let t = Stock.check_availability deps.today (deps.catalog check_availability) run.state in
      λ next e.
        off_stock r Unit (Fewer t 6) (has_unavailable_items t) next (omega arith) (omega arith) e
  descends check_missing_fields run =
      let t = Missing.check_missing_fields run.state in
      λ next e.
        off_missing r Unit (Fewer t 5) (Missing.missing_route t) next (λ route. omega arith)
          (omega arith) (omega arith) e
  descends finalize_order run =
      let t =
        (Stock.finalize_order deps.today (deps.catalog finalize_order) deps.fresh run.state).0 in
      λ next e.
        off_finalize r Unit (Fewer t 4) (Stock.finalize_route t) next (omega arith) (omega arith) e
  descends generate_invoice run =
      made-Descends
        (Closing.generate_invoice deps.issuer r.session_id r.consumer_agent_id run.state run.tables)
  descends dispatch_invoice_processing run =
      let t = (Outcome.dispatch_invoice_processing deps.clients deps.default_mid run.state).0 in
      λ next e. arrive (Fewer t 2) resolve_invoice_outcome next (omega arith) e
  descends resolve_invoice_outcome run = λ next e. cc
  descends suggest_alternative run = λ next e. cc
  descends ask_for_fields run = λ next e. cc
  descends offer_invoice_confirmation run = λ next e. cc
