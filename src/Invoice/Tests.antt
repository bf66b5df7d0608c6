-- ===== src/Invoice/Tests.antt =====
-- An invoice, its totals and its offers at concrete inputs.
use merchant_ai_agent.Base.{
  ◌+◌, ◌*◌, ◌≤◌, ◌<◌, ◌≡◌, refl, true, none, some, List, [], ◌∷◌, arith, any, ◌==◌,
}
use merchant_ai_agent.Base.Int.{pos}
use merchant_ai_agent.Base.Results.{ok, err}
use merchant_ai_agent.Uuid.{parse_uuid}
use merchant_ai_agent.Invoice.Schema.{Invoice, InvoiceLineItem, AcceptedOffer}
use merchant_ai_agent.Invoice.Totals.{Fees, compute_invoice_totals}
use merchant_ai_agent.Invoice.Bounds.{tax_near_exact, larger_discount, discount_can_cost}
use merchant_ai_agent.Invoice.Offers.{percent, flat, Offer, AcceptedSaving, build_accepted_offers}
use merchant_ai_agent.Invoice.Savings.{
  Priced, as_lines, IsAccounted, build_accepted_offers-IsAccounted,
}
use merchant_ai_agent.Invoice.Service.{
  Order, OrderTables, InvoiceError, Request, order_id_of, invoice_of, issue, generate_invoice,
}
use merchant_ai_agent.Invoice.Consistent.{
  IsConsistent, IsRecord, invoice-IsConsistent, taken_id_refused,
}

-- 18 percent, 49 rupees of shipping below 500 rupees.
abbrev fees : Fees
fees = record {
  gst_rate_bps = pos 1800;
  shipping_paise = pos 4900;
  free_shipping_min_paise = pos 50000;
}

tax_of_a_basket_is_near :
    let t = compute_invoice_totals fees (pos 33333) (pos 1000) in
    (10000 * t.tax_paise ≤ t.taxable_paise * (2 * 900))
    × (t.taxable_paise * (2 * 900) < 10000 * t.tax_paise + 20000)
tax_of_a_basket_is_near = tax_near_exact fees (pos 33333) (pos 1000) 900 refl

larger_discount_of_a_basket :
    let t₁ = compute_invoice_totals fees (pos 60000) (pos 5000) in
    let t₂ = compute_invoice_totals fees (pos 60000) (pos 20000) in
    (t₂.taxable_paise + t₂.tax_paise ≤ t₁.taxable_paise + t₁.tax_paise)
    × (t₂.total_paise ≤ t₁.total_paise + 4900)
larger_discount_of_a_basket = larger_discount fees (pos 60000) (pos 5000) (pos 20000) (omega arith)

-- A rupee off an order of 500 rupees costs 47.82 more.
costs_at_the_minimum :
    let t₁ = compute_invoice_totals fees (pos 50000) (pos 0) in
    let t₂ = compute_invoice_totals fees (pos 50000) (pos 100) in t₁.total_paise < t₂.total_paise
unfolding compute_invoice_totals
costs_at_the_minimum =
    discount_can_cost fees (pos 50000) (pos 0) (pos 100) (omega arith) (omega arith) (omega arith)

abbrev two_lines : List Priced
two_lines =
    record { item_id = some "tea"; qty = 2; price = 12000 }
    ∷ record { item_id = some "salt"; qty = 1; price = 2500 }
    ∷ []

abbrev tenth : Offer
tenth = record {
  id = some "offer-1";
  discount_type = percent;
  value = pos 10;
  description = "10% off tea";
  item_ids = "tea" ∷ [];
}

-- More than the salt is worth.
abbrev hundred_off : Offer
hundred_off = record {
  id = some "offer-2";
  discount_type = flat;
  value = pos 10000;
  description = "100 off salt";
  item_ids = "salt" ∷ [];
}

abbrev two_offers : List Offer
two_offers = hundred_off ∷ tenth ∷ []

build_accepted_offers-IsAccounted_example :
    (accepted : List AcceptedSaving) × (build_accepted_offers two_offers (as_lines two_lines)
      ≡ ok accepted)
    × IsAccounted two_lines two_offers accepted
build_accepted_offers-IsAccounted_example = build_accepted_offers-IsAccounted two_offers two_lines

tenth_of_tea :
    build_accepted_offers (tenth ∷ []) (as_lines two_lines)
    ≡ ok (record { id = "offer-1"; description = "10% off tea"; amount_saved_paise = 2400 } ∷ [])
unfolding build_accepted_offers as_lines
tenth_of_tea = refl

abbrev request : Request
request = record {
  session_id = "session";
  consumer_agent_id = "agent";
  mandate_verified = true;
  line_items =
      record {
        item_id = "tea";
        item_name = "Tea";
        brand = "Leaf";
        qty = pos 2;
        unit_price_paise = pos 12000;
        weight_per_unit = some "";
      }
      ∷ [];
  customer_name = none;
  address = none;
  phone = none;
  accepted_offers =
      record { id = some "offer-1"; description = "10% off tea"; amount_saved_paise = pos 2400 }
      ∷ [];
  order_id = none;
}

abbrev no_orders : OrderTables
no_orders = record { orders = []; offer_log = [] }

abbrev invoiced : InvoiceLineItem
invoiced = record {
  item_id = "tea";
  name = "Tea";
  brand = "Leaf";
  qty = 2;
  unit_price_paise = 12000;
  line_total_paise = 24000;
  weight_per_unit = none;
}

abbrev saved : AcceptedOffer
saved = record { offer_id = "offer-1"; description = "10% off tea"; amount_saved_paise = 2400 }

abbrev rows : OrderTables
unfolding issue
rows = (issue "Shop" fees 100 request no_orders (invoiced ∷ []) 7 (saved ∷ [])).0

abbrev invoice : Invoice
unfolding issue
invoice = (issue "Shop" fees 100 request no_orders (invoiced ∷ []) 7 (saved ∷ [])).1

invoice_total : invoice.total_paise ≡ 21600 + 3888 + 4900
unfolding invoice issue invoice_of compute_invoice_totals
invoice_total = refl

request_served : generate_invoice "Shop" fees 7 100 request no_orders ≡ ok (rows, invoice)
unfolding generate_invoice rows invoice
request_served = refl

invoice-IsConsistent_example :
    IsConsistent invoice × ((order : Order) × (rows.orders ≡ order ∷ []) × IsRecord order invoice)
invoice-IsConsistent_example =
    invoice-IsConsistent "Shop" fees 7 100 request no_orders rows invoice request_served

-- The order of the invoice above is in the table, and the next request names it.
abbrev again : Request
again = record request { order_id = some "00000000-0000-0000-0000-000000000007" }

again_id : order_id_of 8 again.order_id ≡ ok 7
unfolding order_id_of parse_uuid
again_id = refl

again_taken : any (λ (o : Order). o.id == 7) rows.orders ≡ true
unfolding any rows
again_taken = refl

again_refused : (e : InvoiceError) × (generate_invoice "Shop" fees 8 200 again rows ≡ err e)
again_refused = taken_id_refused "Shop" fees 8 7 200 again rows again_id again_taken
