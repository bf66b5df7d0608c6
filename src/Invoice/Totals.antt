-- ===== src/Invoice/Totals.antt =====
-- shared/invoice_calc.py: subtotal, discount, GST in two halves, shipping.
use merchant_ai_agent.Base.{ℕ, ◌+◌, ◌-◌, ◌*◌, ◌/◌, if◌then◌else◌, leb}
use merchant_ai_agent.Base.Int.{ℤ, pos_part}

pub record InvoiceTotals : Type 0 where
  pub subtotal_paise : ℕ
  pub discount_paise : ℕ
  pub taxable_paise : ℕ
  pub cgst_paise : ℕ
  pub sgst_paise : ℕ
  pub tax_paise : ℕ
  pub shipping_paise : ℕ
  pub total_paise : ℕ

-- The fees of `get_settings()`.
pub record Fees : Type 0 where
  pub gst_rate_bps : ℤ
  pub shipping_paise : ℤ
  pub free_shipping_min_paise : ℤ

-- `max(subtotal - discount, 0)`, of two amounts that are not negative.
unfoldable pub taxable : ℕ → ℕ → ℕ
taxable subtotal discount = subtotal - discount

unfoldable pub half_tax : Fees → ℕ → ℕ
half_tax fees amount = amount * (pos_part fees.gst_rate_bps / 2) / 10000

unfoldable pub shipping : Fees → ℕ → ℕ
shipping fees amount =
    if leb (pos_part fees.free_shipping_min_paise) amount then 0 else pos_part fees.shipping_paise

-- `max(int(x), 0)` is `pos_part`.
unfoldable pub compute_invoice_totals : Fees → ℤ → ℤ → InvoiceTotals
unfolding taxable half_tax shipping
compute_invoice_totals fees subtotal discount =
    let amount = taxable (pos_part subtotal) (pos_part discount) in
    let cgst = half_tax fees amount in
    let sgst = half_tax fees amount in
    let fee = shipping fees amount in
    record {
      subtotal_paise = pos_part subtotal;
      discount_paise = pos_part discount;
      taxable_paise = amount;
      cgst_paise = cgst;
      sgst_paise = sgst;
      tax_paise = cgst + sgst;
      shipping_paise = fee;
      total_paise = amount + (cgst + sgst) + fee;
    }
