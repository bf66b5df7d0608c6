-- ===== src/Invoice/Consistent.antt =====
-- An invoice adds up, and the order row says what the invoice says.
use mathlib.Core.Path.{subst}
use merchant_ai_agent.Base.{
  ℕ, ◌+◌, ◌*◌, ◌-◌, ◌≤◌, ◌≡◌, refl, Bool, true, false, any, ◌==◌, String, List, [], ◌∷◌, ◌&&◌, not,
  arith, All,
}
use merchant_ai_agent.Base.Int.{ℤ, pos, negsuc, pos_part, ◌+ℤ◌, ◌*ℤ◌, ltb_ℤ}
use merchant_ai_agent.Base.Results.{Result, ok, err, ◌>>=◌, ◌>>◌, bind-returned, ok-injective}
use merchant_ai_agent.Uuid.{Uuid, show_uuid}
use merchant_ai_agent.Invoice.Schema.{Invoice, InvoiceLineItem, AcceptedOffer}
use merchant_ai_agent.Invoice.Totals.{Fees, compute_invoice_totals, taxable}
use merchant_ai_agent.Invoice.Service.{
  OrderLine, Order, OrderTables, InvoiceError, integrity_error, Request, invoice_line, is_valid,
  line_of, invoice_lines, subtotal_of, accepted_offers_of, order_id_of, order_of, invoice_of, issue,
  free_id, generate_invoice,
}

unfoldable lines_total : List InvoiceLineItem → ℕ
lines_total [] = 0
lines_total (line ∷ lines) = line.line_total_paise + lines_total lines

pub IsPriced : InvoiceLineItem → Type 0
IsPriced line = (1 ≤ line.qty) × (line.line_total_paise ≡ line.qty * line.unit_price_paise)

-- One line: the quantity is at least 1, and the total is what the order asks for.
unfoldable IsLineOf : OrderLine → InvoiceLineItem → Type 0
IsLineOf item line =
    (item.qty ≡ pos line.qty) × (item.unit_price_paise ≡ pos line.unit_price_paise) × IsPriced line

line_of-IsLineOf : (item : OrderLine) → is_valid item ≡ true → IsLineOf item (line_of item)
unfolding is_valid line_of IsLineOf IsPriced ◌*ℤ◌
line_of-IsLineOf item e = go item.qty item.unit_price_paise e
  where
    go :
        (q u : ℤ)
        → (ltb_ℤ (pos 0) q && not (ltb_ℤ u (pos 0))) ≡ true
        → (q ≡ pos (pos_part q))
          × (u ≡ pos (pos_part u))
          × ((1 ≤ pos_part q) × (pos_part (q *ℤ u) ≡ pos_part q * pos_part u))
    go (pos q) (pos u) h = (refl, refl, (ground (arith, h), ground arith))
    go (pos q) (negsuc u) h = ground (arith, h)
    go (negsuc q) u h = ground (arith, h)

line-made :
    (item : OrderLine) (line : InvoiceLineItem) → invoice_line item ≡ ok line → IsLineOf item line
unfolding invoice_line
line-made item line e = go (is_valid item) refl
  where
    go : (b : Bool) → is_valid item ≡ b → IsLineOf item line
    go true v =
        let made : line_of item ≡ line = ground (arith, e, v) in
        subst (IsLineOf item) made (line_of-IsLineOf item v)
    go false v = cc

add-product :
    (q u z : ℤ) (a b c n : ℕ)
    → q ≡ pos a
    → u ≡ pos b
    → c ≡ a * b
    → z ≡ pos n
    → q *ℤ u +ℤ z ≡ pos (c + n)
unfolding ◌*ℤ◌ ◌+ℤ◌
add-product q u z a b c n eq eu ec ez = rw eq (rw eu (rw ec (rw ez (ground arith))))

AreMade : List OrderLine → List InvoiceLineItem → Type 0
AreMade items lines = All IsPriced lines × (subtotal_of items ≡ pos (lines_total lines))

lines-made :
    (items : List OrderLine) (lines : List InvoiceLineItem)
    → invoice_lines items ≡ ok lines
    → AreMade items lines
unfolding invoice_lines subtotal_of lines_total IsLineOf AreMade IsPriced
lines-made [] lines e = subst (AreMade []) (ok-injective [] lines e) (tt, refl)
lines-made (item ∷ items) lines e =
    let rest : InvoiceLineItem → Result InvoiceError (List InvoiceLineItem) =
      λ line. (do ls ← invoice_lines items; ok (line ∷ ls)) in
    let (line, e₁, e₂) = bind-returned (invoice_line item) rest lines e in
    let (ls, e₃, e₄) = bind-returned (invoice_lines items) (λ ls. ok (line ∷ ls)) lines e₂ in
    let (hq, hu, priced) = line-made item line e₁ in
    let (all, sum) = lines-made items ls e₃ in
    subst (AreMade (item ∷ items)) (ok-injective (line ∷ ls) lines e₄) (
      (priced, all),
      add-product _ _ _ line.qty line.unit_price_paise line.line_total_paise (lines_total ls) hq hu
          priced.1 sum,
    )

-- The invoice adds up: every line is its quantity times its price, the lines sum to the subtotal,
-- and the total is the discounted subtotal with both halves of the tax and the shipping.
pub IsConsistent : Invoice → Type 0
IsConsistent inv =
    (All IsPriced inv.line_items)
    × (lines_total inv.line_items ≡ inv.subtotal_paise)
    × (inv.taxable_paise ≡ inv.subtotal_paise - inv.discount_paise)
    × (inv.tax_paise ≡ inv.cgst_paise + inv.sgst_paise)
    × (inv.total_paise ≡ inv.taxable_paise + inv.tax_paise + inv.shipping_paise)

-- An order row records what the invoice asks for.
pub IsRecord : Order → Invoice → Type 0
IsRecord order inv =
    (show_uuid order.id ≡ inv.order_id)
    × (order.line_items ≡ inv.line_items)
    × (order.total_paise ≡ inv.total_paise)

AddsUp : OrderTables → OrderTables × Invoice → Type 0
AddsUp db result =
    IsConsistent result.1
    × ((order : Order) × (result.0.orders ≡ order ∷ db.orders) × IsRecord order result.1)

issue-AddsUp :
    (name : String) (fees : Fees) (now : ℕ) (r : Request) (db : OrderTables)
    (lines : List InvoiceLineItem) (id : Uuid) (offers : List AcceptedOffer)
    → AreMade r.line_items lines
    → AddsUp db (issue name fees now r db lines id offers)
unfolding issue invoice_of order_of AddsUp IsConsistent IsRecord AreMade compute_invoice_totals
    taxable
issue-AddsUp name fees now r db lines id offers (priced, sum) =
    let whole : lines_total lines ≡ pos_part (subtotal_of r.line_items) = rw sum refl in
    ((priced, whole, refl, refl, refl), (_, refl, (refl, refl, refl)))

-- An invoice that is issued adds up, and the one order row that is added records it.
pub invoice-IsConsistent :
    (name : String) (fees : Fees) (fresh : Uuid) (now : ℕ) (r : Request) (db db' : OrderTables)
    (inv : Invoice)
    → generate_invoice name fees fresh now r db ≡ ok (db', inv)
    → IsConsistent inv × ((order : Order) × (db'.orders ≡ order ∷ db.orders) × IsRecord order inv)
unfolding generate_invoice AddsUp
invoice-IsConsistent name fees fresh now r db db' inv e =
    let (lines, e₁, e₂) = bind-returned (invoice_lines r.line_items) _ (db', inv) e in
    let (id, e₃, e₄) = bind-returned (order_id_of fresh r.order_id) _ (db', inv) e₂ in
    let (_, free, e₄') = bind-returned (free_id id db) _ (db', inv) e₄ in
    let (offers, e₅, e₆) = bind-returned (accepted_offers_of r.accepted_offers) _ (db', inv) e₄' in
    subst (AddsUp db) (ok-injective _ (db', inv) e₆)
      (issue-AddsUp name fees now r db lines id offers (lines-made r.line_items lines e₁))

-- With the id of an order that is in the table no second invoice is made: the call raises, whatever
-- it is asked for.
pub taken_id_refused :
    (name : String) (fees : Fees) (fresh id : Uuid) (now : ℕ) (r : Request) (db : OrderTables)
    → order_id_of fresh r.order_id ≡ ok id
    → any (λ (o : Order). o.id == id) db.orders ≡ true
    → (e : InvoiceError) × (generate_invoice name fees fresh now r db ≡ err e)
unfolding generate_invoice free_id
taken_id_refused name fees fresh id now r db e taken = go (invoice_lines r.line_items)
  where
    go :
        (call : Result InvoiceError (List InvoiceLineItem))
        → (why : InvoiceError) × ((do
          lines ← call
          id ← order_id_of fresh r.order_id
          free_id id db
          offers ← accepted_offers_of r.accepted_offers
          ok (issue name fees now r db lines id offers))
            ≡ err why)
    go (err why) = (why, refl)
    go (ok lines) = (integrity_error, rw e (rw taken refl))
