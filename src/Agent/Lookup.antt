-- ===== src/Agent/Lookup.antt =====
-- `resolve_catalog` of services/merchant_agent/graph/nodes.py with `pick_best_match_payload` of
-- services/merchant_agent/catalog_service.py. What `resolve_item` finds is a parameter, as are the
-- tools.
use merchant_ai_agent.Base.{
  ℕ, String, Bool, true, false, not, ◌&&◌, ◌||◌, Option, none, some, List, [], ◌∷◌, ◌++◌, str_eq,
  map, any, select, is_some, ltb, ◌==◌, if◌then◌else◌,
}
use merchant_ai_agent.Base.Int.{ℤ, pos, negsuc, leb_ℤ}
use merchant_ai_agent.Strings.{has_text, strip_text, same_lower}
use merchant_ai_agent.Invoice.Offers.{Offer}
use merchant_ai_agent.Agent.{
  LineItem, missing_name, resolved_status, not_found, ambiguous, OrderState, truthy,
  is_stockout_pending, is_not_found,
}
use merchant_ai_agent.Agent.React.{Tools, item_ids, put_offers, or_empty, offers_for_items}

pub record Suggestion : Type 0 where
  pub item_id : String
  pub name : String
  pub brand : String
  pub weight_per_unit : String
  pub expiry_date : Option ℕ
  pub price_paise : ℤ
  pub available_qty : ℤ

abbrev pub Search : Type 0
Search = String → Option String → List Suggestion

-- `int(requested_qty or 1)`
unfoldable pub needed : Option ℤ → ℤ
needed none = pos 1
needed (some (pos n)) = if n == 0 then pos 1 else pos n
needed (some (negsuc n)) = negsuc n

-- The order of expiry dates as texts, in which `None` comes last.
unfoldable pub sooner : Option ℕ → Option ℕ → Bool
sooner none b = false
sooner (some a) none = true
sooner (some a) (some b) = ltb a b

-- Whether `b` sorts strictly before `a`: in stock first, then by the date.
unfoldable pub sorts_before : ℤ → Suggestion → Suggestion → Bool
unfolding sooner
sorts_before qty b a =
    let stocked_a = leb_ℤ qty a.available_qty in
    let stocked_b = leb_ℤ qty b.available_qty in
    (stocked_b && not stocked_a)
    || (not (stocked_a && not stocked_b) && sooner b.expiry_date a.expiry_date)

-- The head of the stable sort.
unfoldable pub first_sorted : ℤ → Suggestion → List Suggestion → Suggestion
unfolding sorts_before
first_sorted qty best [] = best
first_sorted qty best (m ∷ ms) = first_sorted qty (if sorts_before qty m best then m else best) ms

unfoldable pub mixed_weights : Suggestion → List Suggestion → Bool
unfolding any same_lower
mixed_weights m ms =
    any (λ (o : Suggestion). not (same_lower o.weight_per_unit m.weight_per_unit)) ms

-- Two brands that are not blank and differ.
unfoldable pub mixed_brands : List Suggestion → Bool
unfolding any same_lower strip_text has_text
mixed_brands [] = false
mixed_brands (m ∷ ms) =
    any
      (λ (o : Suggestion).
        has_text m.brand
        && has_text o.brand
        && not (same_lower (strip_text o.brand) (strip_text m.brand)))
      ms
    || mixed_brands ms

-- The choice in `resolve_catalog`: the only match, or the best of several.
unfoldable pub pick_best_match : Option ℤ → List Suggestion → Option Suggestion
unfolding mixed_weights mixed_brands first_sorted needed
pick_best_match qty [] = none
pick_best_match qty (m ∷ []) = some m
pick_best_match qty (m ∷ o ∷ ms) =
    if mixed_weights m (o ∷ ms)
    then none
    else if mixed_brands (m ∷ o ∷ ms)
    then none
    else some (first_sorted (needed qty) m (o ∷ ms))

unfoldable pub matched : LineItem → Suggestion → LineItem
matched item m = record item {
  item_id = some m.item_id;
  item_name = m.name;
  brand = some m.brand;
  weight_per_unit = some m.weight_per_unit;
  expiry_date = m.expiry_date;
  unit_price_paise = some m.price_paise;
  available_qty = some m.available_qty;
  resolved = true;
  catalog_status = some resolved_status;
}

-- A line beside the match that was chosen, if any, and all that were found.
unfoldable pub settle_line : Option Suggestion → List Suggestion → LineItem → LineItem
unfolding matched
settle_line (some m) found item = matched item m
settle_line none [] item = record item { resolved = false; catalog_status = some not_found }
settle_line none (m ∷ ms) item = record item { resolved = false; catalog_status = some ambiguous }

-- The lines that are looked up: not those that wait for a substitute or that have no name.
unfoldable pub is_searched : LineItem → Bool
unfolding is_stockout_pending
is_searched item = not (is_stockout_pending item.catalog_status) && not (str_eq item.item_name "")

unfoldable pub resolve_line : Search → LineItem → LineItem
unfolding pick_best_match settle_line is_stockout_pending
resolve_line search item =
    if is_stockout_pending item.catalog_status
    then item
    else if str_eq item.item_name ""
    then record item { catalog_status = some missing_name }
    else (let found = search item.item_name item.brand in
        settle_line (pick_best_match item.qty found) found item)

-- The matches between which the customer has to choose.
unfoldable pub open_matches : Search → LineItem → List Suggestion
unfolding is_searched pick_best_match
open_matches search item =
    let found = search item.item_name item.brand in
    if is_searched item && not (is_some (pick_best_match item.qty found)) then found else []

unfoldable pub all_open_matches : Search → List LineItem → List Suggestion
unfolding open_matches
all_open_matches search [] = []
all_open_matches search (item ∷ items) = open_matches search item ++ all_open_matches search items

-- `resolved_item_ids`
unfoldable pub matched_ids : Search → List LineItem → List String
unfolding is_searched pick_best_match
matched_ids search [] = []
matched_ids search (item ∷ items) =
    let rest = matched_ids search items in
    if is_searched item
    then elim (pick_best_match item.qty (search item.item_name item.brand)) [
      | none ↦ rest
      | some m ↦ m.item_id ∷ rest
    ]
    else rest

unfoldable pub suggestion_ids : List Suggestion → List String
suggestion_ids = map (λ (m : Suggestion). m.item_id)

-- `_apply_default_qty`
unfoldable pub default_qty : LineItem → LineItem
unfolding truthy is_not_found
default_qty item =
    if is_some item.qty
      || is_not_found item.catalog_status
      || str_eq item.item_name ""
      || not (truthy item.brand || truthy item.item_id || item.resolved)
    then item
    else record item { qty = some (pos 1) }

unfoldable pub scan_campaigns : Tools → List String → List Offer
unfolding or_empty
scan_campaigns tools [] = []
scan_campaigns tools (id ∷ ids) = or_empty (tools.scan (id ∷ ids))

-- `resolve_catalog`
unfoldable pub resolve_catalog : Search → Tools → OrderState → OrderState
unfolding resolve_line all_open_matches matched_ids suggestion_ids scan_campaigns put_offers
    offers_for_items item_ids default_qty
resolve_catalog search tools s =
    let lines = map (resolve_line search) s.line_items in
    let suggested = suggestion_ids (all_open_matches search s.line_items) in
    let campaigns =
      scan_campaigns tools
        (matched_ids search s.line_items ++ select (λ id. not (str_eq id "")) suggested) in
    let promoted = offers_for_items tools.by_item suggested [] in
    record s {
      line_items = map default_qty lines;
      catalog_suggestions = suggested;
      resolved_offers =
          offers_for_items tools.by_item (item_ids lines) (put_offers campaigns promoted);
      campaign_context = campaigns;
    }
