-- ===== src/Agent/Closing.antt =====
-- The nodes of services/merchant_agent/graph/nodes.py that close a turn or make its invoice:
-- `ask_for_fields`, `offer_invoice_confirmation` and `generate_invoice`.
use merchant_ai_agent.Base.{ℕ, String, Bool, true, false, Option, none, some, List, [], ◌∷◌, map}
use merchant_ai_agent.Base.Int.{pos}
use merchant_ai_agent.Base.Results.{Result, ok, err, ◌>>=◌}
use merchant_ai_agent.Uuid.{Uuid}
use merchant_ai_agent.Invoice.Schema.{Invoice}
use merchant_ai_agent.Invoice.Offers.{
  PricedLine, PriceError, AcceptedSaving, shown_id, build_accepted_offers,
}
use merchant_ai_agent.Invoice.Totals.{Fees}
use merchant_ai_agent.Invoice.Service as Service
use merchant_ai_agent.Invoice.Service.{OrderLine, OfferEntry, OrderTables, InvoiceError}
use merchant_ai_agent.Agent.{
  LineItem, OrderState, awaiting_fields, awaiting_confirmation, validated, Reply, AuditAction,
  invoice_confirmation_offered, fields_still_missing, offer_applied_logged, is_nonempty,
}
use merchant_ai_agent.Agent.Missing.{orderable_line_items}

-- `ask_for_fields`, up to the text of the reply.
unfoldable pub ask_for_fields : OrderState → OrderState × List AuditAction
ask_for_fields s =
    (record s { reply = Reply.fields_asked; status = awaiting_fields }, fields_still_missing ∷ [])

-- `offer_invoice_confirmation`, by whether some line is orderable.
unfoldable pub offer_if : Bool → OrderState → OrderState × List AuditAction
offer_if false s = (record s { status = awaiting_fields; reply = Reply.nothing_to_invoice }, [])
offer_if true s = (
  record s {
    reply = Reply.order_summary;
    status = awaiting_confirmation;
    awaiting_invoice_confirmation = true;
    invoice_proceed = false;
    catalog_suggestions = [];
  },
  invoice_confirmation_offered ∷ [],
)

unfoldable pub offer_invoice_confirmation : OrderState → OrderState × List AuditAction
unfolding offer_if is_nonempty orderable_line_items
offer_invoice_confirmation s = offer_if (is_nonempty (orderable_line_items s.line_items)) s

-- What `generate_invoice` raises: `int(None)` in the offers, and what InvoiceService raises on a line
-- or on the order.
pub data ClosingError : Type 0 where
  price_error : PriceError → ClosingError
  line_error : ClosingError
  invoice_error : InvoiceError → ClosingError

unfoldable pub priced_line : LineItem → PricedLine
priced_line item = record {
  item_id = item.item_id;
  qty = item.qty;
  unit_price_paise = item.unit_price_paise;
}

-- `int(item["qty"])`, `int(item["unit_price_paise"])` and the brand that an invoice line needs.
unfoldable pub needed_value : {A : Type 0} → Option A → Result ClosingError A
needed_value none = err line_error
needed_value (some a) = ok a

unfoldable pub order_line : LineItem → Result ClosingError OrderLine
unfolding needed_value shown_id
order_line item = do
  qty ← needed_value item.qty
  unit_price_paise ← needed_value item.unit_price_paise
  brand ← needed_value item.brand
  ok (record {
    item_id = shown_id item.item_id;
    item_name = item.item_name;
    brand = brand;
    qty = qty;
    unit_price_paise = unit_price_paise;
    weight_per_unit = item.weight_per_unit;
  })

unfoldable pub order_lines : List LineItem → Result ClosingError (List OrderLine)
unfolding order_line
order_lines [] = ok []
order_lines (item ∷ items) = do line ← order_line item; lines ← order_lines items; ok (line ∷ lines)

unfoldable pub offer_entry : AcceptedSaving → OfferEntry
offer_entry saving = record {
  id = some saving.id;
  description = saving.description;
  amount_saved_paise = pos saving.amount_saved_paise;
}

-- The errors of a call, as those of the node.
unfoldable pub raise_as : {E A : Type 0} → (E → ClosingError) → Result E A → Result ClosingError A
raise_as wrap (err e) = err (wrap e)
raise_as wrap (ok a) = ok a

-- What `InvoiceService.generate_invoice` reads from its settings, its clock and `uuid4`.
pub record Issuer : Type 0 where
  pub merchant_name : String
  pub fees : Fees
  pub fresh_id : Uuid
  pub issued_at : ℕ

unfoldable pub invoice_request :
    String → String → OrderState → List OrderLine → List AcceptedSaving → Service.Request
unfolding offer_entry
invoice_request session_id consumer_agent_id s lines accepted = record {
  session_id = session_id;
  consumer_agent_id = consumer_agent_id;
  mandate_verified = s.mandate_verified;
  line_items = lines;
  customer_name = s.customer_name;
  address = s.address;
  phone = s.phone;
  accepted_offers = map offer_entry accepted;
  order_id = s.reservation_invoice_id;
}

unfoldable pub with_invoice :
    OrderState → OrderTables × Invoice → OrderState × OrderTables × List AuditAction
with_invoice s (tables, invoice) = (
  record s {
    invoice = some invoice;
    status = validated;
    reply = Reply.invoice_generated;
    awaiting_invoice_confirmation = false;
    invoice_proceed = false;
  },
  tables,
  AuditAction.invoice_generated ∷ offer_applied_logged ∷ [],
)

unfoldable pub accepted_savings : OrderState → Result ClosingError (List AcceptedSaving)
unfolding build_accepted_offers priced_line raise_as
accepted_savings s =
    raise_as price_error (build_accepted_offers s.resolved_offers (map priced_line s.line_items))

unfoldable pub issue_invoice :
    Issuer
    → String
    → String
    → OrderState
    → OrderTables
    → List AcceptedSaving
    → List OrderLine
    → Result ClosingError (OrderTables × Invoice)
unfolding raise_as invoice_request Service.generate_invoice
issue_invoice issuer session_id consumer_agent_id s tables accepted lines = raise_as invoice_error (
    Service.generate_invoice issuer.merchant_name issuer.fees issuer.fresh_id issuer.issued_at
      (invoice_request session_id consumer_agent_id s lines accepted) tables)

-- `generate_invoice`, whose rows are committed with its audit entries: that of InvoiceService and its
-- own.
unfoldable pub generate_invoice :
    Issuer
    → String
    → String
    → OrderState
    → OrderTables
    → Result ClosingError (OrderState × OrderTables × List AuditAction)
unfolding accepted_savings order_lines issue_invoice with_invoice
generate_invoice issuer session_id consumer_agent_id s tables = do
  accepted ← accepted_savings s
  lines ← order_lines s.line_items
  issued ← issue_invoice issuer session_id consumer_agent_id s tables accepted lines
  ok (with_invoice s issued)
