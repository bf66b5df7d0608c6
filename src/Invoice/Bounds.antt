-- ===== src/Invoice/Bounds.antt =====
-- How far the tax is from the exact rate, and how the total moves with the discount.
use merchant_ai_agent.Base.{ℕ, ◌+◌, ◌-◌, ◌*◌, ◌/◌, ◌≤◌, ◌<◌, ◌≡◌, arith}
use merchant_ai_agent.Base.Int.{ℤ, pos, pos_part}
use merchant_ai_agent.Invoice.Totals.{Fees, taxable, half_tax, shipping, compute_invoice_totals}

-- With an even rate the tax is the exact `taxable * rate / 10000`, rounded down by less than two
-- paise.
pub tax_near_exact :
    (fees : Fees) (subtotal discount : ℤ) (half : ℕ)
    → fees.gst_rate_bps ≡ pos (2 * half)
    → let t = compute_invoice_totals fees subtotal discount in
      (10000 * t.tax_paise ≤ t.taxable_paise * (2 * half))
      × (t.taxable_paise * (2 * half) < 10000 * t.tax_paise + 20000)
unfolding compute_invoice_totals
tax_near_exact fees subtotal discount half e =
    let halved : pos_part fees.gst_rate_bps / 2 ≡ half = rw e (omega arith) in
    rw halved (omega arith, omega arith)

scaled-le : (a b h : ℕ) → a ≤ b → a * h ≤ b * h
scaled-le a b h le = grind arith

half_tax_mono : (fees : Fees) (a b : ℕ) → a ≤ b → half_tax fees a ≤ half_tax fees b
unfolding half_tax
half_tax_mono fees a b le = omega (arith, scaled-le a b (pos_part fees.gst_rate_bps / 2) le)

shipping_bounded : (fees : Fees) (a : ℕ) → shipping fees a ≤ pos_part fees.shipping_paise
unfolding shipping
shipping_bounded fees a = ground arith

-- A larger discount never raises the goods with their tax, and raises the total by the shipping fee
-- at most.
pub larger_discount :
    (fees : Fees) (subtotal d₁ d₂ : ℤ)
    → pos_part d₁ ≤ pos_part d₂
    → let t₁ = compute_invoice_totals fees subtotal d₁ in
      let t₂ = compute_invoice_totals fees subtotal d₂ in
      (t₂.taxable_paise + t₂.tax_paise ≤ t₁.taxable_paise + t₁.tax_paise)
      × (t₂.total_paise ≤ t₁.total_paise + pos_part fees.shipping_paise)
unfolding compute_invoice_totals taxable
larger_discount fees subtotal d₁ d₂ le =
    let a = pos_part subtotal - pos_part d₂ in
    let b = pos_part subtotal - pos_part d₁ in
    let less : a ≤ b = omega arith in
    let tax = half_tax_mono fees a b less in
    let ship = shipping_bounded fees a in (omega arith, omega arith)

-- A discount that takes the goods below the free-shipping minimum can cost the customer money: if it
-- saves less, tax included, than the shipping fee, the total with the discount is the larger one.
pub discount_can_cost :
    (fees : Fees) (subtotal d₁ d₂ : ℤ)
    → let t₁ = compute_invoice_totals fees subtotal d₁ in
      let t₂ = compute_invoice_totals fees subtotal d₂ in
      pos_part fees.free_shipping_min_paise ≤ t₁.taxable_paise
      → t₂.taxable_paise < pos_part fees.free_shipping_min_paise
      → t₁.taxable_paise + t₁.tax_paise
        < t₂.taxable_paise + t₂.tax_paise + pos_part fees.shipping_paise
      → t₁.total_paise < t₂.total_paise
unfolding compute_invoice_totals shipping
discount_can_cost fees subtotal d₁ d₂ reached missed saves = ground arith
