-- ===== src/Invoice/Service.antt =====
-- `InvoiceService.generate_invoice` of services/merchant_agent/invoice_service.py, up to the clock
-- and the audit entry: the lines, the order row, the log of offers and the invoice.
use merchant_ai_agent.Base.{
  ℕ, String, Bool, Option, none, some, List, [], ◌∷◌, ◌++◌, ◌&&◌, not, if◌then◌else◌, str_eq, any,
  ◌==◌,
}
use merchant_ai_agent.Base.Int.{ℤ, pos, pos_part, ◌+ℤ◌, ◌*ℤ◌, ltb_ℤ}
use merchant_ai_agent.Base.Results.{Result, ok, err, ◌>>=◌, ◌>>◌}
use merchant_ai_agent.Uuid.{Uuid, parse_uuid, codes, show_uuid}
use merchant_ai_agent.Invoice.Schema.{Invoice, InvoiceLineItem, AcceptedOffer}
use merchant_ai_agent.Invoice.Totals.{Fees, InvoiceTotals, compute_invoice_totals}

-- An order line after `int(...)` of its numbers.
pub record OrderLine : Type 0 where
  pub item_id : String
  pub item_name : String
  pub brand : String
  pub qty : ℤ
  pub unit_price_paise : ℤ
  pub weight_per_unit : Option String

-- An entry of `accepted_offers`.
pub record OfferEntry : Type 0 where
  pub id : Option String
  pub description : String
  pub amount_saved_paise : ℤ

pub record Order : Type 0 where
  pub id : Uuid
  pub consumer_agent_id : String
  pub session_id : String
  pub status : String
  pub line_items : List InvoiceLineItem
  pub customer_name : Option String
  pub address : Option String
  pub phone_number : Option String
  pub mandate_verified : Bool
  pub total_paise : ℕ

pub record OfferAppliedLog : Type 0 where
  pub order_id : Uuid
  pub offer_id : Uuid
  pub description : String
  pub amount_saved_paise : ℤ

pub record OrderTables : Type 0 where
  pub orders : List Order
  pub offer_log : List OfferAppliedLog

-- `ValidationError` of pydantic, `ValueError` of `UUID(order_id)`, and the refusal of an order row
-- whose primary key is taken.
pub data InvoiceError : Type 0 where
  validation_error value_error integrity_error : InvoiceError

pub record Request : Type 0 where
  pub session_id : String
  pub consumer_agent_id : String
  pub mandate_verified : Bool
  pub line_items : List OrderLine
  pub customer_name : Option String
  pub address : Option String
  pub phone : Option String
  pub accepted_offers : List OfferEntry
  pub order_id : Option String

-- `x or None` of a text.
unfoldable pub nonempty : Option String → Option String
nonempty none = none
nonempty (some text) = if str_eq text "" then none else some text

-- The bounds `qty >= 1` and `unit_price_paise >= 0`. A line total of a valid line is not negative.
unfoldable pub is_valid : OrderLine → Bool
is_valid item = ltb_ℤ (pos 0) item.qty && not (ltb_ℤ item.unit_price_paise (pos 0))

unfoldable pub line_of : OrderLine → InvoiceLineItem
unfolding nonempty ◌*ℤ◌
line_of item = record {
  item_id = item.item_id;
  name = item.item_name;
  brand = item.brand;
  qty = pos_part item.qty;
  unit_price_paise = pos_part item.unit_price_paise;
  line_total_paise = pos_part (item.qty *ℤ item.unit_price_paise);
  weight_per_unit = nonempty item.weight_per_unit;
}

unfoldable pub invoice_line : OrderLine → Result InvoiceError InvoiceLineItem
unfolding is_valid line_of
invoice_line item = if is_valid item then ok (line_of item) else err validation_error

unfoldable pub invoice_lines : List OrderLine → Result InvoiceError (List InvoiceLineItem)
unfolding invoice_line
invoice_lines [] = ok []
invoice_lines (item ∷ items) = do
  line ← invoice_line item
  lines ← invoice_lines items
  ok (line ∷ lines)

unfoldable pub subtotal_of : List OrderLine → ℤ
unfolding ◌*ℤ◌ ◌+ℤ◌
subtotal_of [] = pos 0
subtotal_of (item ∷ items) = item.qty *ℤ item.unit_price_paise +ℤ subtotal_of items

unfoldable pub discount_of : List OfferEntry → ℤ
unfolding ◌+ℤ◌
discount_of [] = pos 0
discount_of (offer ∷ offers) = offer.amount_saved_paise +ℤ discount_of offers

-- `UUID(order_id) if order_id else uuid4()`.
unfoldable pub order_id_of : Uuid → Option String → Result InvoiceError Uuid
unfolding nonempty
order_id_of fresh text = elim (nonempty text) [
  | none ↦ ok fresh
  | some given ↦ elim (parse_uuid (codes given)) [ none ↦ err value_error | some u ↦ ok u ]
]

-- An offer whose id is missing, or is no UUID, is skipped.
unfoldable pub log_row :
    Uuid → OfferEntry → Option Uuid → List OfferAppliedLog → List OfferAppliedLog
log_row order offer none rest = rest
log_row order offer (some id) rest =
    record {
      order_id = order;
      offer_id = id;
      description = offer.description;
      amount_saved_paise = offer.amount_saved_paise;
    }
    ∷ rest

unfoldable pub offer_uuid : Option String → Option Uuid
offer_uuid none = none
offer_uuid (some text) = parse_uuid (codes text)

unfoldable pub log_offers : Uuid → List OfferEntry → List OfferAppliedLog
unfolding log_row offer_uuid nonempty
log_offers order [] = []
log_offers order (offer ∷ offers) =
    log_row order offer (offer_uuid (nonempty offer.id)) (log_offers order offers)

-- The offers of the invoice: those with an id, whose saving must not be negative.
unfoldable pub accepted_offer :
    OfferEntry
    → Option String
    → Result InvoiceError (List AcceptedOffer)
    → Result InvoiceError (List AcceptedOffer)
accepted_offer offer none rest = rest
accepted_offer offer (some id) rest =
    if ltb_ℤ offer.amount_saved_paise (pos 0) then err validation_error else do
      others ← rest
      ok (
          record {
            offer_id = id;
            description = offer.description;
            amount_saved_paise = pos_part offer.amount_saved_paise;
          }
          ∷ others)

unfoldable pub accepted_offers_of : List OfferEntry → Result InvoiceError (List AcceptedOffer)
unfolding accepted_offer nonempty
accepted_offers_of [] = ok []
accepted_offers_of (offer ∷ offers) =
    accepted_offer offer (nonempty offer.id) (accepted_offers_of offers)

-- Without the links and dates that later steps of the agent add.
unfoldable pub invoice_of :
    String
    → ℕ
    → Uuid
    → Request
    → List InvoiceLineItem
    → List AcceptedOffer
    → InvoiceTotals
    → Invoice
invoice_of merchant_name now id r lines offers t = record {
  order_id = show_uuid id;
  session_id = r.session_id;
  issued_at = now;
  merchant_name = merchant_name;
  customer_name = r.customer_name;
  address = r.address;
  phone_number = r.phone;
  line_items = lines;
  subtotal_paise = t.subtotal_paise;
  discount_paise = t.discount_paise;
  taxable_paise = t.taxable_paise;
  cgst_paise = t.cgst_paise;
  sgst_paise = t.sgst_paise;
  tax_paise = t.tax_paise;
  shipping_paise = t.shipping_paise;
  total_paise = t.total_paise;
  accepted_offers = offers;
  payment_link_url = none;
  payment_expires_at = none;
  reservation_expires_at = none;
}

unfoldable pub order_of : Uuid → Request → List InvoiceLineItem → InvoiceTotals → Order
order_of id r lines t = record {
  id = id;
  consumer_agent_id = r.consumer_agent_id;
  session_id = r.session_id;
  status = "INVOICED";
  line_items = lines;
  customer_name = r.customer_name;
  address = r.address;
  phone_number = r.phone;
  mandate_verified = r.mandate_verified;
  total_paise = t.total_paise;
}

-- The rows that are added and the invoice that is returned, once nothing can raise any more.
unfoldable pub issue :
    String
    → Fees
    → ℕ
    → Request
    → OrderTables
    → List InvoiceLineItem
    → Uuid
    → List AcceptedOffer
    → OrderTables × Invoice
unfolding subtotal_of discount_of log_offers invoice_of order_of
issue merchant_name fees now r db lines id offers =
    let totals =
      compute_invoice_totals fees (subtotal_of r.line_items) (discount_of r.accepted_offers) in
    let rows = order_of id r lines totals ∷ db.orders in
    let logs = log_offers id r.accepted_offers ++ db.offer_log in
    (
      record { orders = rows; offer_log = logs },
      invoice_of merchant_name now id r lines offers totals,
    )

-- `flush`, of the new order row.
unfoldable pub free_id : Uuid → OrderTables → Result InvoiceError (Unit {0})
unfolding any
free_id id db = if any (λ (o : Order). o.id == id) db.orders then err integrity_error else ok tt

-- The settings, the fresh UUID and the clock are read from outside. The caller commits the rows.
unfoldable pub generate_invoice :
    String → Fees → Uuid → ℕ → Request → OrderTables → Result InvoiceError (OrderTables × Invoice)
unfolding invoice_lines order_id_of free_id accepted_offers_of
generate_invoice merchant_name fees fresh now r db = do
  lines ← invoice_lines r.line_items
  id ← order_id_of fresh r.order_id
  free_id id db
  offers ← accepted_offers_of r.accepted_offers
  ok (issue merchant_name fees now r db lines id offers)
