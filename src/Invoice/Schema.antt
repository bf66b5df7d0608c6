-- ===== src/Invoice/Schema.antt =====
-- The models of shared/schemas/invoice.py. Pydantic admits only values within the bounds that the
-- fields state, so amounts are natural numbers, and `qty` is at least 1 where a line is validated.
use merchant_ai_agent.Base.{ℕ, String, Option, List}

pub record InvoiceLineItem : Type 0 where
  pub item_id : String
  pub name : String
  pub brand : String
  pub qty : ℕ
  pub unit_price_paise : ℕ
  pub line_total_paise : ℕ
  pub weight_per_unit : Option String

pub record AcceptedOffer : Type 0 where
  pub offer_id : String
  pub description : String
  pub amount_saved_paise : ℕ

pub record Invoice : Type 0 where
  pub order_id : String
  pub session_id : String
  pub issued_at : ℕ
  pub merchant_name : String
  pub customer_name : Option String
  pub address : Option String
  pub phone_number : Option String
  pub line_items : List InvoiceLineItem
  pub subtotal_paise : ℕ
  pub discount_paise : ℕ
  pub taxable_paise : ℕ
  pub cgst_paise : ℕ
  pub sgst_paise : ℕ
  pub tax_paise : ℕ
  pub shipping_paise : ℕ
  pub total_paise : ℕ
  pub accepted_offers : List AcceptedOffer
  pub payment_link_url : Option String
  pub payment_expires_at : Option ℕ
  pub reservation_expires_at : Option ℕ
