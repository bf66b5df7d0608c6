-- ===== src/Agent/Stock.antt =====
-- `check_availability` and `finalize_order` of services/merchant_agent/graph/nodes.py, on what
-- `CatalogService.get_item_by_id` tells of an item; `is_expired` of shared/catalog_fields.py.
use merchant_ai_agent.Base.{
  ℕ, zero, suc, String, Bool, false, not, ◌&&◌, ◌||◌, Option, none, some, List, [], ◌∷◌, ltb,
  if◌then◌else◌,
}
use merchant_ai_agent.Base.Int.{ℤ, pos, negsuc, ltb_ℤ}
use merchant_ai_agent.Agent.{
  LineItem, Unavailable, MissingField, OrderState, awaiting_fields, validated, Reply, AuditAction,
  truthy, is_stockout_pending, has_unavailable_items,
}
use merchant_ai_agent.Agent.Missing.{orderable_line_items}

-- What the catalog tells of an item.
pub record Latest : Type 0 where
  pub available_qty : ℤ
  pub price_paise : ℤ
  pub weight_per_unit : Option String
  pub expiry_date : Option ℕ

abbrev pub Catalog : Type 0
Catalog = String → Option Latest

-- A text that is no date counts as no date.
unfoldable pub is_expired : ℕ → Option ℕ → Bool
is_expired today none = false
is_expired today (some day) = ltb day today

-- Whether the shelf lacks what the line asks for.
unfoldable pub falls_short : ℕ → Latest → ℤ → Bool
unfolding is_expired
falls_short today latest qty = is_expired today latest.expiry_date || ltb_ℤ latest.available_qty qty

unfoldable pub refreshed : LineItem → Latest → LineItem
refreshed item latest = record item {
  available_qty = some latest.available_qty;
  unit_price_paise = some latest.price_paise;
  weight_per_unit = latest.weight_per_unit;
  expiry_date = latest.expiry_date;
}

unfoldable pub unavailable_line : LineItem → ℤ → Unavailable
unavailable_line item available = record {
  item_id = item.item_id;
  item_name = item.item_name;
  brand = item.brand;
  requested_qty = item.qty;
  available_qty = available;
}

-- The lines, and those that the shelf does not cover.
pub record Checked : Type 0 where
  pub lines : List LineItem
  pub short : List Unavailable

unfoldable pub kept : LineItem → Checked → Checked
kept item rest = record { lines = item ∷ rest.lines; short = rest.short }

-- A line beside the catalog's answer, as both nodes treat it where there is one.
unfoldable pub compare_line : ℕ → LineItem → ℤ → Latest → Checked → Checked
unfolding falls_short kept unavailable_line refreshed
compare_line today item qty latest rest =
    if falls_short today latest qty
    then record {
      lines = item ∷ rest.lines;
      short = unavailable_line item latest.available_qty ∷ rest.short;
    }
    else kept (refreshed item latest) rest

-- One round of the loop in `check_availability`: a quantity of 0 is false.
unfoldable pub check_known : ℕ → Option Latest → Option ℤ → LineItem → Checked → Checked
unfolding kept compare_line
check_known today latest none item rest = kept item rest
check_known today latest (some (pos zero)) item rest = kept item rest
check_known today none (some (pos (suc q))) item rest = kept item rest
check_known today none (some (negsuc q)) item rest = kept item rest
check_known today (some latest) (some (pos (suc q))) item rest =
    compare_line today item (pos (suc q)) latest rest
check_known today (some latest) (some (negsuc q)) item rest =
    compare_line today item (negsuc q) latest rest

unfoldable pub lookup_id : Catalog → Option String → Option Latest
lookup_id catalog none = none
lookup_id catalog (some id) = catalog id

unfoldable pub check_lines : ℕ → Catalog → List LineItem → Checked
unfolding check_known lookup_id kept truthy is_stockout_pending
check_lines today catalog [] = record { lines = []; short = [] }
check_lines today catalog (item ∷ items) =
    let rest = check_lines today catalog items in
    if item.resolved && truthy item.item_id && not (is_stockout_pending item.catalog_status)
    then check_known today (lookup_id catalog item.item_id) item.qty item rest
    else kept item rest

unfoldable pub with_unavailable : List Unavailable → OrderState → OrderState
with_unavailable [] s = record s { unavailable_items = []; unavailable_item = none }
with_unavailable (u ∷ us) s = record s {
  unavailable_items = u ∷ us;
  unavailable_item = some u;
  status = awaiting_fields;
}

-- `check_availability`
unfoldable pub check_availability : ℕ → Catalog → OrderState → OrderState
unfolding check_lines with_unavailable
check_availability today catalog s =
    let checked = check_lines today catalog s.line_items in
    with_unavailable checked.short (record s { line_items = checked.lines })

-- One round of the loop in `finalize_order`, on an orderable line: an item that the catalog does
-- not know is short.
unfoldable pub finalize_known : ℕ → Option Latest → Option ℤ → LineItem → Checked → Checked
unfolding kept compare_line unavailable_line
finalize_known today latest none item rest = kept item rest
finalize_known today none (some q) item rest = record {
  lines = item ∷ rest.lines;
  short = unavailable_line item (pos 0) ∷ rest.short;
}
finalize_known today (some latest) (some q) item rest = compare_line today item q latest rest

unfoldable pub finalize_lines : ℕ → Catalog → List LineItem → Checked
unfolding finalize_known lookup_id
finalize_lines today catalog [] = record { lines = []; short = [] }
finalize_lines today catalog (item ∷ items) =
    finalize_known today (lookup_id catalog item.item_id) item.qty item
      (finalize_lines today catalog items)

-- The end of `finalize_order`.
unfoldable pub conclude_finalize :
    String → List LineItem → List Unavailable → OrderState → OrderState × List AuditAction
conclude_finalize id lines (u ∷ us) s = (
  record s {
    status = awaiting_fields;
    unavailable_items = u ∷ us;
    unavailable_item = some u;
    reservation_invoice_id = some id;
  },
  [],
)
conclude_finalize id lines [] s = (
  record s {
    line_items = lines;
    status = validated;
    reply = Reply.order_validated;
    unavailable_item = none;
    reservation_invoice_id = some id;
  },
  AuditAction.order_validated ∷ [],
)

-- `state.get("reservation_invoice_id") or str(uuid4())`
unfoldable pub invoice_id_of : String → Option String → String
unfolding truthy
invoice_id_of fresh none = fresh
invoice_id_of fresh (some id) = if truthy (some id) then id else fresh

unfoldable pub finalize_orderable :
    ℕ → Catalog → String → List LineItem → OrderState → OrderState × List AuditAction
unfolding finalize_lines conclude_finalize invoice_id_of
finalize_orderable today catalog fresh [] s = (
  record s {
    status = awaiting_fields;
    missing_fields = MissingField.product ∷ [];
    reply = Reply.nothing_to_invoice;
  },
  [],
)
finalize_orderable today catalog fresh (item ∷ items) s =
    let checked = finalize_lines today catalog (item ∷ items) in
    conclude_finalize (invoice_id_of fresh s.reservation_invoice_id) checked.lines checked.short s

-- `finalize_order`, with the UUID that `uuid4` would give.
unfoldable pub finalize_order : ℕ → Catalog → String → OrderState → OrderState × List AuditAction
unfolding finalize_orderable orderable_line_items
finalize_order today catalog fresh s =
    finalize_orderable today catalog fresh (orderable_line_items s.line_items) s

pub data FinalizeRoute : Type 0 where
  suggest_alternative generate_invoice : FinalizeRoute

-- `_finalize_route`
unfoldable pub finalize_route : OrderState → FinalizeRoute
unfolding has_unavailable_items
finalize_route s = if has_unavailable_items s then suggest_alternative else generate_invoice
