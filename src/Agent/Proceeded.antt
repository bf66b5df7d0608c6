-- ===== src/Agent/Proceeded.antt =====
-- What a customer who says "proceed" can get past.
use merchant_ai_agent.Base.{ℕ, ◌≡◌, refl, String, Bool, true, false, ◌||◌, []}
use merchant_ai_agent.Agent.{OrderState, nothing_to_invoice, is_nonempty, has_unavailable_items}
use merchant_ai_agent.Agent.Missing.{
  orderable_line_items, or_lines, conclude_check, check_missing_fields, compute_missing_fields,
  blocking_unresolved_items, missing_route, finalize_order,
}
use merchant_ai_agent.Agent.Stock as Stock
use merchant_ai_agent.Agent.Stock.{
  Catalog, finalize_orderable, FinalizeRoute, generate_invoice, finalize_route,
}

checked-proceeds :
    (b : Bool) (s : OrderState)
    → s.invoice_proceed ≡ true
    → orderable_line_items s.line_items ≡ []
    → let t = conclude_check b (compute_missing_fields s) s in
      (missing_route t ≡ finalize_order)
      × (t.line_items ≡ s.line_items)
      × (has_unavailable_items t ≡ has_unavailable_items s)
unfolding conclude_check missing_route or_lines has_unavailable_items
checked-proceeds true s p o = (rw p refl, refl, refl)
checked-proceeds false s p o = (rw p refl, rw o refl, refl)

-- Once the customer has confirmed, an order in which no line can be invoiced goes through
-- `check_missing_fields`, whatever is missing (the verified mandate too), and through
-- `finalize_order`, which says that there is nothing to invoice, to the invoice all the same, with
-- the lines as they are.
pub confirmed_nothing_is_invoiced :
    (today : ℕ) (catalog : Catalog) (fresh : String) (s : OrderState)
    → s.invoice_proceed ≡ true
    → orderable_line_items s.line_items ≡ []
    → has_unavailable_items s ≡ false
    → let t = check_missing_fields s in
      let u = (Stock.finalize_order today catalog fresh t).0 in
      (missing_route t ≡ finalize_order)
      × (u.reply ≡ nothing_to_invoice)
      × (finalize_route u ≡ generate_invoice)
      × (u.line_items ≡ s.line_items)
unfolding check_missing_fields Stock.finalize_order finalize_orderable finalize_route
    has_unavailable_items
confirmed_nothing_is_invoiced today catalog fresh s p o n =
    let (route, lines, same) =
      checked-proceeds
        (is_nonempty (compute_missing_fields s)
          || is_nonempty (blocking_unresolved_items s.line_items))
        s p o in
    let empty : orderable_line_items (check_missing_fields s).line_items ≡ [] = rw lines o in
    rw empty (route, refl, rw same (rw n refl), lines)
