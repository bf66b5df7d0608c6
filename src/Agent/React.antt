-- ===== src/Agent/React.antt =====
-- The loop of planner, tool selector and executor (planner.py, tool_selector.py, executor.py).
use merchant_ai_agent.Base.{
  ℕ, zero, suc, ◌+◌, String, Bool, true, false, not, ◌&&◌, Option, none, some, List, [], ◌∷◌, ◌++◌,
  str_eq, ◌==◌, leb, if◌then◌else◌, is_some, any, max,
}
use merchant_ai_agent.Invoice.Offers.{Offer}
use merchant_ai_agent.Agent.{
  LineItem, Unavailable, Goal, cross_sell_lookup, offer_lookup, campaign_scan, done, Tool,
  cross_sell_tool, offer_tool, campaign_tool, AuditAction, offer_surfaced, campaign_surfaced,
  cross_sell_surfaced, OrderState, truthy, is_nonempty, unavailable_items_from_state,
  has_unavailable_items,
}

-- The tools of `NodeDependencies`: the offers for an item and the campaigns for items, or nothing
-- where the call raises; the cross-sell rows of an item, each by its target items.
pub record Tools : Type 0 where
  pub by_item : String → Option (List Offer)
  pub scan : List String → Option (List Offer)
  pub for_item : String → List (List String)

unfoldable pub item_ids : List LineItem → List String
item_ids [] = []
item_ids (item ∷ items) =
    let rest = item_ids items in
    elim item.item_id [ none ↦ rest | some id ↦ if str_eq id "" then rest else id ∷ rest ]

unfoldable pub goal_number : Goal → ℕ
goal_number cross_sell_lookup = 0
goal_number offer_lookup = 1
goal_number campaign_scan = 2
goal_number done = 3

unfoldable pub attempted : Goal → List Goal → Bool
unfolding any goal_number
attempted goal = any (λ g. goal_number g == goal_number goal)

unfoldable pub plan : Bool → Bool → List Goal → Goal
unfolding attempted
plan unavailable has_ids scratchpad =
    if unavailable && not (attempted cross_sell_lookup scratchpad)
    then cross_sell_lookup
    else if has_ids && not (attempted offer_lookup scratchpad)
    then offer_lookup
    else if has_ids && not (attempted campaign_scan scratchpad)
    then campaign_scan
    else done

-- `planner`. The scratchpad is kept by its goals.
unfoldable pub planner : OrderState → OrderState
unfolding plan item_ids is_nonempty
planner s =
    let goal =
      plan (is_some s.unavailable_item) (is_nonempty (item_ids s.line_items)) s.react_scratchpad in
    record s { react_goal = some goal; react_scratchpad = s.react_scratchpad ++ goal ∷ [] }

unfoldable pub tools_for : Option Goal → List Tool
tools_for (some offer_lookup) = offer_tool ∷ []
tools_for (some campaign_scan) = campaign_tool ∷ []
tools_for (some cross_sell_lookup) = cross_sell_tool ∷ []
tools_for (some done) = []
tools_for none = []

-- `tool_selector`
unfoldable pub tool_selector : OrderState → OrderState
unfolding tools_for
tool_selector s = record s { react_selected_tools = tools_for s.react_goal }

unfoldable pub tool_number : Tool → ℕ
tool_number cross_sell_tool = 0
tool_number offer_tool = 1
tool_number campaign_tool = 2

unfoldable pub selects : Tool → List Tool → Bool
unfolding any tool_number
selects tool = any (λ t. tool_number t == tool_number tool)

-- `str(offer.get("id") or "")`
unfoldable pub offer_key : Offer → String
offer_key offer = elim offer.id [ none ↦ "" | some id ↦ id ]

-- `offers_by_id[offer_id] = offer`: the place of a key is that of its first offer.
unfoldable pub put_offer : Offer → List Offer → List Offer
unfolding offer_key
put_offer offer [] = offer ∷ []
put_offer offer (o ∷ os) =
    let rest = put_offer offer os in
    if str_eq (offer_key o) (offer_key offer) then offer ∷ os else o ∷ rest

unfoldable pub put_offers : List Offer → List Offer → List Offer
unfolding put_offer
put_offers [] found = found
put_offers (offer ∷ offers) found =
    put_offers offers (if str_eq (offer_key offer) "" then found else put_offer offer found)

unfoldable pub or_empty {ℓ} : {A : Type ℓ} → Option (List A) → List A
or_empty none = []
or_empty (some xs) = xs

-- The loop of `offer_lookup_tool.by_item` over the item ids.
unfoldable pub offers_for_items :
    (String → Option (List Offer)) → List String → List Offer → List Offer
unfolding put_offers or_empty
offers_for_items by_item [] found = found
offers_for_items by_item (id ∷ ids) found =
    offers_for_items by_item ids (put_offers (or_empty (by_item id)) found)

unfoldable pub cross_sell_for :
    (String → List (List String)) → List Unavailable → List (List String)
unfolding truthy
cross_sell_for for_item [] = []
cross_sell_for for_item (u ∷ us) =
    let rest = cross_sell_for for_item us in
    elim u.item_id [ none ↦ rest | some id ↦ if str_eq id "" then rest else for_item id ++ rest ]

-- The three branches of `executor`, each by whether its tool is selected. `s` is the state that the
-- node was given.
unfoldable pub use_offers : Tools → Bool → OrderState → OrderState → OrderState
unfolding offers_for_items item_ids
use_offers tools false s t = t
use_offers tools true s t = record t {
  resolved_offers = offers_for_items tools.by_item (item_ids s.line_items) [];
}

unfoldable pub use_campaigns : Tools → Bool → OrderState → OrderState → OrderState
unfolding item_ids or_empty
use_campaigns tools false s t = t
use_campaigns tools true s t = record t {
  campaign_context = or_empty (tools.scan (item_ids s.line_items));
}

unfoldable pub use_cross_sell : Tools → Bool → OrderState → OrderState → OrderState
unfolding cross_sell_for unavailable_items_from_state
use_cross_sell tools false s t = t
use_cross_sell tools true s t = record t {
  cross_sell_candidates = cross_sell_for tools.for_item (unavailable_items_from_state s);
}

unfoldable pub use_tools : Tools → List Tool → OrderState → OrderState → OrderState
unfolding selects use_offers use_campaigns use_cross_sell
use_tools tools selected s t = use_cross_sell tools (selects cross_sell_tool selected) s (
    use_campaigns tools (selects campaign_tool selected) s
      (use_offers tools (selects offer_tool selected) s t))

unfoldable pub tool_audits : List Tool → List AuditAction
unfolding selects
tool_audits selected =
    (if selects offer_tool selected then offer_surfaced ∷ [] else [])
    ++ (if selects campaign_tool selected then campaign_surfaced ∷ [] else [])
    ++ (if selects cross_sell_tool selected then cross_sell_surfaced ∷ [] else [])

unfoldable pub run_selected : Tools → List Tool → OrderState → OrderState × List AuditAction
unfolding use_tools tool_audits
run_selected tools [] s =
    (record s { react_loop_count = s.react_loop_count + 1; react_should_continue = false }, [])
run_selected tools (tool ∷ more) s =
    let t = record s { react_loop_count = s.react_loop_count + 1; react_should_continue = true } in
    (
      record (use_tools tools (tool ∷ more) s t) { react_selected_tools = [] },
      tool_audits (tool ∷ more),
    )

unfoldable pub capped : OrderState → OrderState × List AuditAction
capped s = (
  record s { react_loop_capped = true; react_selected_tools = []; react_should_continue = false },
  AuditAction.react_loop_capped ∷ [],
)

-- `executor`, with the setting `react_loop_max`.
unfoldable pub executor : Tools → ℕ → OrderState → OrderState × List AuditAction
unfolding run_selected capped
executor tools loop_max s =
    if leb (max 1 loop_max) s.react_loop_count
    then capped s
    else run_selected tools s.react_selected_tools s

pub data ReactRoute : Type 0 where
  react_planner check_availability suggest_alternative : ReactRoute

-- `conditional_executor`
unfoldable pub conditional_executor : OrderState → ReactRoute
unfolding has_unavailable_items
conditional_executor s =
    if not s.react_loop_capped && s.react_should_continue
    then react_planner
    else if has_unavailable_items s
    then suggest_alternative
    else check_availability

-- One round: planner, tool selector and executor.
unfoldable pub react_round : Tools → ℕ → OrderState → OrderState × List AuditAction
unfolding planner tool_selector executor
react_round tools loop_max s = executor tools loop_max (tool_selector (planner s))

unfoldable pub go_on : ReactRoute → Bool
go_on react_planner = true
go_on check_availability = false
go_on suggest_alternative = false

-- The end of a round, with what the further rounds give.
unfoldable pub after_round :
    Bool
    → OrderState × List AuditAction
    → Option (OrderState × List AuditAction)
    → Option (OrderState × List AuditAction)
after_round false r rest = some r
after_round true r none = none
after_round true r (some (u, more)) = some (u, r.1 ++ more)

-- Rounds until the executor does not lead back to the planner, at most `fuel` of them.
unfoldable pub react_loop : ℕ → Tools → ℕ → OrderState → Option (OrderState × List AuditAction)
unfolding react_round conditional_executor go_on after_round
react_loop zero tools loop_max s = none
react_loop (suc fuel) tools loop_max s =
    let r = react_round tools loop_max s in
    after_round (go_on (conditional_executor r.0)) r (react_loop fuel tools loop_max r.0)
