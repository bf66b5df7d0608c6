-- ===== src/Agent/Alternatives.antt =====
-- `suggest_alternative` and `_mark_line_stockout_pending` of services/merchant_agent/graph/nodes.py,
-- up to the texts of the reply.
use merchant_ai_agent.Base.{
  ℕ, String, Bool, true, false, not, ◌&&◌, ◌||◌, Option, none, some, List, [], ◌∷◌, ◌++◌, ◌==◌,
  str_eq, map, any, take, select, if◌then◌else◌,
}
use merchant_ai_agent.Base.Int.{pos, ltb_ℤ}
use merchant_ai_agent.Uuid.{codes}
use merchant_ai_agent.Invoice.Offers.{shown_id}
use merchant_ai_agent.Agent.{
  LineItem, Unavailable, stockout_pending, OrderState, awaiting_fields, alternatives_offered,
  truthy, unavailable_items_from_state,
}
use merchant_ai_agent.Agent.Names.{lower_code, names_similar}
use merchant_ai_agent.Agent.React.{Tools, offers_for_items}
use merchant_ai_agent.Agent.Stock.{Catalog, is_expired, lookup_id}

codes_eq : List ℕ → List ℕ → Bool
codes_eq [] [] = true
codes_eq [] (y ∷ ys) = false
codes_eq (x ∷ xs) [] = false
codes_eq (x ∷ xs) (y ∷ ys) = x == y && codes_eq xs ys

-- Equality of two texts in lower case, a missing one being empty.
lower_text : Option String → List ℕ
unfolding lower_code
lower_text none = []
lower_text (some text) = map lower_code (codes text)

unfoldable pub same_id : Unavailable → LineItem → Bool
unfolding truthy shown_id
same_id u item = truthy u.item_id && str_eq (shown_id item.item_id) (shown_id u.item_id)

unfoldable pub same_product : Unavailable → LineItem → Bool
unfolding truthy names_similar codes_eq lower_text
same_product u item =
    not (str_eq u.item_name "")
    && names_similar item.item_name u.item_name
    && (not (truthy u.brand) || codes_eq (lower_text item.brand) (lower_text u.brand))

unfoldable pub marked_if : Bool → LineItem → LineItem
marked_if true item = record item {
  resolved = false;
  item_id = none;
  catalog_status = some stockout_pending;
}
marked_if false item = item

unfoldable pub mark_line : Unavailable → LineItem → LineItem
unfolding marked_if same_id same_product
mark_line u item = marked_if (same_id u item || same_product u item) item

-- `_mark_line_stockout_pending`
unfoldable pub mark_line_stockout_pending : Unavailable → List LineItem → List LineItem
unfolding mark_line
mark_line_stockout_pending u = map (mark_line u)

unfoldable pub mark_all : List Unavailable → List LineItem → List LineItem
unfolding mark_line_stockout_pending
mark_all [] items = items
mark_all (u ∷ us) items = mark_all us (mark_line_stockout_pending u items)

-- Whether a target of the cross-sell rows is offered.
unfoldable pub on_shelf : ℕ → Catalog → String → Bool
unfolding is_expired lookup_id
on_shelf today catalog id = elim (catalog id) [
  | none ↦ false
  | some latest ↦ ltb_ℤ (pos 0) latest.available_qty && not (is_expired today latest.expiry_date)
]

unfoldable pub first_row_targets : List (List String) → List String
first_row_targets [] = []
first_row_targets (targets ∷ rows) = targets

unfoldable pub cross_sell_rows : Tools → Option String → List (List String)
unfolding truthy
cross_sell_rows tools none = []
cross_sell_rows tools (some id) = if str_eq id "" then [] else tools.for_item id

unfoldable pub or_else_list {ℓ} : {A : Type ℓ} → List A → List A → List A
or_else_list [] ys = ys
or_else_list (x ∷ xs) ys = x ∷ xs

-- The alternatives of `_stockout_section_for_item`: the first row's targets that are on the shelf, or
-- what `find_alternatives` (here `same_name`) gives.
unfoldable pub alternatives_for :
    ℕ → Catalog → Tools → (Unavailable → List String) → Unavailable → List String
unfolding on_shelf first_row_targets cross_sell_rows or_else_list select
alternatives_for today catalog tools same_name u =
    or_else_list
      (select (on_shelf today catalog) (first_row_targets (cross_sell_rows tools u.item_id)))
      (same_name u)

unfoldable pub gather_rows : Tools → List Unavailable → List (List String)
unfolding cross_sell_rows
gather_rows tools [] = []
gather_rows tools (u ∷ us) = cross_sell_rows tools u.item_id ++ gather_rows tools us

unfoldable pub gather_alternatives : (Unavailable → List String) → List Unavailable → List String
gather_alternatives alternatives [] = []
gather_alternatives alternatives (u ∷ us) = alternatives u ++ gather_alternatives alternatives us

-- The alternatives without repetition, in their order.
unfoldable pub dedupe : List String → List String → List String
unfolding any
dedupe seen [] = []
dedupe seen (id ∷ ids) =
    let rest = dedupe seen ids in
    let rest' = dedupe (id ∷ seen) ids in
    if str_eq id "" then id ∷ rest else if any (λ s. str_eq s id) seen then rest else id ∷ rest'

unfoldable pub ids_only : List String → List String
unfolding select
ids_only = select (λ id. not (str_eq id ""))

unfoldable pub suggest_for :
    ℕ → Catalog → Tools → (Unavailable → List String) → List Unavailable → OrderState → OrderState
unfolding mark_all dedupe gather_alternatives gather_rows alternatives_for offers_for_items ids_only
suggest_for today catalog tools same_name [] s = s
suggest_for today catalog tools same_name (u ∷ us) s =
    let found =
      dedupe [] (gather_alternatives (alternatives_for today catalog tools same_name) (u ∷ us)) in
    record s {
      reply = alternatives_offered;
      catalog_suggestions = take 6 found;
      cross_sell_candidates = gather_rows tools (u ∷ us);
      line_items = mark_all (u ∷ us) s.line_items;
      unavailable_items = [];
      unavailable_item = none;
      resolved_offers = offers_for_items tools.by_item (ids_only found) [];
      status = awaiting_fields;
    }

-- `suggest_alternative`
unfoldable pub suggest_alternative :
    ℕ → Catalog → Tools → (Unavailable → List String) → OrderState → OrderState
unfolding suggest_for unavailable_items_from_state
suggest_alternative today catalog tools same_name s =
    suggest_for today catalog tools same_name (unavailable_items_from_state s) s
