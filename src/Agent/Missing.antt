-- ===== src/Agent/Missing.antt =====
-- `_orderable_line_items`, `_blocking_unresolved_items`, `_compute_missing_fields` and
-- `check_missing_fields` of services/merchant_agent/graph/nodes.py, and `_missing_route` of
-- build_graph.py.
use merchant_ai_agent.Base.{
  Bool, true, false, not, ◌&&◌, ◌||◌, List, [], ◌∷◌, ◌++◌, str_eq, if◌then◌else◌, is_some, any,
  select,
}
use merchant_ai_agent.Agent.{
  LineItem, MissingField, alternative, product, quantity, OrderState, awaiting_fields, validated,
  truthy, is_nonempty, is_stockout_pending, is_not_found, is_ambiguous, is_orderable,
}

unfoldable pub orderable_line_items : List LineItem → List LineItem
unfolding is_orderable select
orderable_line_items = select is_orderable

-- The tests of the loop in `_blocking_unresolved_items`, given whether some line is orderable.
unfoldable pub is_blocking : Bool → LineItem → Bool
unfolding is_not_found is_stockout_pending is_ambiguous
is_blocking orderable item =
    not item.resolved
    && not (is_not_found item.catalog_status)
    && not (is_stockout_pending item.catalog_status)
    && not (is_ambiguous item.catalog_status && orderable)

unfoldable pub blocking_unresolved_items : List LineItem → List LineItem
unfolding is_blocking orderable_line_items is_nonempty select
blocking_unresolved_items items =
    select (is_blocking (is_nonempty (orderable_line_items items))) items

-- A list of one entry or of none.
unfoldable pub when : Bool → MissingField → List MissingField
when true field = field ∷ []
when false field = []

-- `needs_product` and `needs_qty` of the loop over the lines that the catalog did not rule out.
unfoldable pub needs_product : LineItem → Bool
unfolding truthy is_not_found
needs_product item =
    not (is_not_found item.catalog_status)
    && not (not (str_eq item.item_name "") && truthy item.brand)

unfoldable pub needs_qty : LineItem → Bool
unfolding is_not_found
needs_qty item = not (is_not_found item.catalog_status) && not (is_some item.qty)

-- The fields that the lines lack.
unfoldable pub missing_in_lines : List LineItem → List MissingField
unfolding any is_stockout_pending orderable_line_items is_nonempty when needs_product needs_qty
missing_in_lines items =
    if any (λ (i : LineItem). is_stockout_pending i.catalog_status) items
    then alternative ∷ []
    else if not (is_nonempty items)
    then product ∷ quantity ∷ []
    else if is_nonempty (orderable_line_items items)
    then when (any (λ (i : LineItem). i.resolved && not (is_some i.qty)) items) quantity
    else when
        (any needs_product items
          || not (any (λ (i : LineItem). not (is_not_found i.catalog_status)) items))
        product
      ++ when (any needs_qty items) quantity

unfoldable pub missing_in_order : OrderState → List MissingField
unfolding when truthy
missing_in_order s =
    when (not (truthy s.address)) MissingField.address
    ++ when (not (truthy s.phone)) MissingField.phone
    ++ when (not (truthy s.customer_name)) MissingField.customer_name
    ++ when (not s.mandate_verified) MissingField.mandate

-- `_compute_missing_fields`. No field is found twice, so that `_dedupe_missing_fields` keeps the
-- list.
unfoldable pub compute_missing_fields : OrderState → List MissingField
unfolding missing_in_lines missing_in_order
compute_missing_fields s = missing_in_lines s.line_items ++ missing_in_order s

unfoldable pub or_lines : List LineItem → List LineItem → List LineItem
or_lines [] items = items
or_lines (x ∷ xs) items = x ∷ xs

-- The state, given whether something is missing or blocks the order.
unfoldable pub conclude_check : Bool → List MissingField → OrderState → OrderState
unfolding orderable_line_items or_lines
conclude_check true missing s = record s { missing_fields = missing; status = awaiting_fields }
conclude_check false missing s = record s {
  missing_fields = [];
  status = validated;
  line_items = or_lines (orderable_line_items s.line_items) s.line_items;
}

unfoldable pub check_missing_fields : OrderState → OrderState
unfolding compute_missing_fields blocking_unresolved_items conclude_check is_nonempty
check_missing_fields s =
    let missing = compute_missing_fields s in
    let blocking = blocking_unresolved_items s.line_items in
    conclude_check (is_nonempty missing || is_nonempty blocking) missing s

pub data MissingRoute : Type 0 where
  finalize_order ask_for_fields offer_invoice_confirmation : MissingRoute

-- `_missing_route`
unfoldable pub missing_route : OrderState → MissingRoute
unfolding any is_nonempty is_orderable is_stockout_pending is_not_found is_ambiguous
missing_route s =
    if s.invoice_proceed
    then finalize_order
    else if is_nonempty s.missing_fields
    then ask_for_fields
    else if any (λ (i : LineItem). is_stockout_pending i.catalog_status) s.line_items
    then ask_for_fields
    else if any
        (λ (i : LineItem).
          not i.resolved && not (is_not_found i.catalog_status || is_ambiguous i.catalog_status))
        s.line_items
    then ask_for_fields
    else if any is_orderable s.line_items && not s.awaiting_invoice_confirmation
    then offer_invoice_confirmation
    else if not (any (λ (i : LineItem). i.resolved) s.line_items)
    then ask_for_fields
    else finalize_order
