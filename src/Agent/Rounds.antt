-- ===== src/Agent/Rounds.antt =====
-- The loop ends, and what it has done then.
use merchant_ai_agent.Base.{
  ℕ, zero, suc, ◌+◌, ◌-◌, ◌≤◌, ◌<◌, ◌≡◌, refl, Bool, true, false, Option, none, some, List, [], ◌∷◌,
  ◌++◌, leb, if◌then◌else◌, max, arith,
}
use merchant_ai_agent.Agent.{
  offer_lookup, campaign_scan, done, AuditAction, offer_surfaced, campaign_surfaced, Tool,
  offer_tool, campaign_tool, cross_sell_tool, OrderState, is_nonempty, has_unavailable_items,
}
use merchant_ai_agent.Agent.React.{
  Tools, item_ids, attempted, goal_number, plan, planner, tools_for, tool_selector, selects,
  tool_number, offers_for_items, or_empty, use_offers, use_campaigns, use_cross_sell, use_tools,
  tool_audits, run_selected, capped, executor, conditional_executor, suggest_alternative,
  check_availability, react_round, go_on, after_round, react_loop,
}

use_tools-loop_count :
    (tools : Tools) (selected : List Tool) (s t : OrderState)
    → (use_tools tools selected s t).react_loop_count ≡ t.react_loop_count
unfolding use_tools use_offers use_campaigns use_cross_sell
use_tools-loop_count tools selected s t =
    go (selects offer_tool selected) (selects campaign_tool selected)
      (selects cross_sell_tool selected)
  where
    go :
        (a b c : Bool)
        → (use_cross_sell tools c s
            (use_campaigns tools b s (use_offers tools a s t))).react_loop_count
          ≡ t.react_loop_count
    go true true true = refl
    go true true false = refl
    go true false true = refl
    go true false false = refl
    go false true true = refl
    go false true false = refl
    go false false true = refl
    go false false false = refl

pub leaves : (b : Bool) → go_on (if b then suggest_alternative else check_availability) ≡ false
unfolding go_on
leaves true = refl
leaves false = refl

selected-counts :
    (tools : Tools) (selected : List Tool) (s : OrderState)
    → go_on (conditional_executor (run_selected tools selected s).0) ≡ true
    → (run_selected tools selected s).0.react_loop_count ≡ s.react_loop_count + 1
unfolding run_selected conditional_executor
selected-counts tools [] s h =
    ground (arith, h, leaves (has_unavailable_items (run_selected tools [] s).0))
selected-counts tools (tool ∷ more) s h = use_tools-loop_count tools (tool ∷ more) s _

-- A round that goes back to the planner has counted itself, below the limit.
executor-counts :
    (tools : Tools) (loop_max : ℕ) (s : OrderState)
    → go_on (conditional_executor (executor tools loop_max s).0) ≡ true
    → ((executor tools loop_max s).0.react_loop_count ≡ s.react_loop_count + 1)
      × (s.react_loop_count < max 1 loop_max)
unfolding executor conditional_executor capped
executor-counts tools loop_max s h = go (leb (max 1 loop_max) s.react_loop_count) refl h
  where
    chosen : Bool → OrderState × List AuditAction
    chosen b = if b then capped s else run_selected tools s.react_selected_tools s

    go :
        (b : Bool)
        → leb (max 1 loop_max) s.react_loop_count ≡ b
        → go_on (conditional_executor (chosen b).0) ≡ true
        → ((chosen b).0.react_loop_count ≡ s.react_loop_count + 1)
          × (s.react_loop_count < max 1 loop_max)
    go true e h = ground (arith, h, leaves (has_unavailable_items (capped s).0))
    go false e h = (selected-counts tools s.react_selected_tools s h, ground (arith, e))

round-counts :
    (tools : Tools) (loop_max : ℕ) (s : OrderState)
    → go_on (conditional_executor (react_round tools loop_max s).0) ≡ true
    → ((react_round tools loop_max s).0.react_loop_count ≡ s.react_loop_count + 1)
      × (s.react_loop_count < max 1 loop_max)
unfolding react_round planner tool_selector
round-counts tools loop_max s h = executor-counts tools loop_max (tool_selector (planner s)) h

-- The loop of planner, tool selector and executor ends: from any state, one more round than the
-- limit leaves of the count is enough fuel.
pub react_loop_ends :
    (fuel : ℕ) (tools : Tools) (loop_max : ℕ) (s : OrderState)
    → max 1 loop_max - s.react_loop_count < fuel
    → (r : OrderState × List AuditAction) × (react_loop fuel tools loop_max s ≡ some r)
unfolding react_loop after_round
react_loop_ends zero tools loop_max s h = ground (arith, h)
react_loop_ends (suc fuel) tools loop_max s h =
    go (go_on (conditional_executor r.0)) refl
      (λ below. react_loop_ends fuel tools loop_max r.0 below)
  where
    r : OrderState × List AuditAction
    r = react_round tools loop_max s

    rest : Option (OrderState × List AuditAction)
    rest = react_loop fuel tools loop_max r.0

    go :
        (b : Bool)
        → go_on (conditional_executor r.0) ≡ b
        → (max 1 loop_max - r.0.react_loop_count < fuel
            → (t : OrderState × List AuditAction) × (rest ≡ some t))
        → (t : OrderState × List AuditAction) × (after_round b r rest ≡ some t)
    go false e ih = (r, refl)
    go true e ih =
        let (counted, below) = round-counts tools loop_max s e in
        let (t, ended) = ih (omega arith) in ((t.0, r.1 ++ t.1), rw ended refl)

-- What `load_session` resets for a turn.
abbrev pub fresh : OrderState → OrderState
fresh s = record s {
  react_scratchpad = [];
  react_loop_count = 0;
  react_loop_capped = false;
  unavailable_item = none;
  unavailable_items = [];
}

-- The states after the rounds of a turn whose lines have ids.
abbrev offered : Tools → OrderState → OrderState
offered tools s = record s {
  react_scratchpad = offer_lookup ∷ [];
  react_loop_count = 1;
  react_goal = some offer_lookup;
  react_selected_tools = [];
  react_should_continue = true;
  resolved_offers = offers_for_items tools.by_item (item_ids s.line_items) [];
}

abbrev campaigned : Tools → OrderState → OrderState
campaigned tools s = record s {
  react_scratchpad = offer_lookup ∷ campaign_scan ∷ [];
  react_loop_count = 2;
  react_goal = some campaign_scan;
  react_selected_tools = [];
  react_should_continue = true;
  resolved_offers = offers_for_items tools.by_item (item_ids s.line_items) [];
  campaign_context = or_empty (tools.scan (item_ids s.line_items));
}

abbrev pub scanned : Tools → OrderState → OrderState
scanned tools s = record s {
  react_scratchpad = offer_lookup ∷ campaign_scan ∷ done ∷ [];
  react_loop_count = 3;
  react_goal = some done;
  react_selected_tools = [];
  react_should_continue = false;
  resolved_offers = offers_for_items tools.by_item (item_ids s.line_items) [];
  campaign_context = or_empty (tools.scan (item_ids s.line_items));
}

module _ (tools : Tools) (m : ℕ) (s : OrderState)
    (has : is_nonempty (item_ids s.line_items) ≡ true) where
  first_round :
      leb (max 1 m) 0 ≡ false
      → react_round tools m (fresh s) ≡ (offered tools (fresh s), offer_surfaced ∷ [])
  unfolding react_round planner tool_selector executor run_selected use_tools tool_audits plan
      use_offers use_campaigns use_cross_sell selects tools_for attempted goal_number tool_number
  first_round below = rw has (rw below refl)

  second_round :
      leb (max 1 m) 1 ≡ false
      → react_round tools m (offered tools (fresh s))
        ≡ (campaigned tools (fresh s), campaign_surfaced ∷ [])
  unfolding react_round planner tool_selector executor run_selected use_tools tool_audits plan
      use_offers use_campaigns use_cross_sell selects tools_for attempted goal_number tool_number
  second_round below = rw has (rw below refl)

  third_round :
      leb (max 1 m) 2 ≡ false
      → react_round tools m (campaigned tools (fresh s)) ≡ (scanned tools (fresh s), [])
  unfolding react_round planner tool_selector executor run_selected use_tools tool_audits plan
      use_offers use_campaigns use_cross_sell selects tools_for attempted goal_number tool_number
  third_round below = rw has (rw below refl)

  -- With a limit of at least 3 a turn whose lines have ids makes three rounds and is never capped:
  -- the offers of each item, the campaigns, and the round that finds nothing to do.
  pub three_rounds :
      3 ≤ m
      → react_loop 3 tools m (fresh s)
        ≡ some (scanned tools (fresh s), offer_surfaced ∷ campaign_surfaced ∷ [])
  unfolding react_loop after_round conditional_executor go_on has_unavailable_items
  three_rounds le =
      rw (first_round (ground (arith, le)))
        (rw (second_round (ground (arith, le))) (rw (third_round (ground (arith, le))) refl))
