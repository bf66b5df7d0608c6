-- ===== src/Agent/Confirmed.antt =====
-- An invoice is made only when the customer has confirmed it, or when nothing is missing.
use merchant_ai_agent.Base.{
  ◌≡◌, refl, Bool, true, false, not, ◌&&◌, ◌||◌, List, [], ◌∷◌, ◌++◌, any, select, All, arith,
  subst,
}
use merchant_ai_agent.Agent.{
  LineItem, MissingField, OrderState, truthy, is_nonempty, is_stockout_pending, is_not_found,
  is_ambiguous, is_orderable,
}
use merchant_ai_agent.Agent.Missing.{
  orderable_line_items, blocking_unresolved_items, when, needs_qty, missing_in_lines,
  missing_in_order, compute_missing_fields, or_lines, conclude_check, check_missing_fields,
  missing_route, finalize_order,
}

abbrev is_resolved : LineItem → Bool
is_resolved i = i.resolved

abbrev is_pending : LineItem → Bool
is_pending i = is_stockout_pending i.catalog_status

-- What `resolve_catalog` leaves behind: a resolved line has an id, and its status says so.
unfoldable pub is_identified : LineItem → Bool
is_identified i =
    not i.resolved
    || (truthy i.item_id
        && not (is_not_found i.catalog_status || is_stockout_pending i.catalog_status))

nonempty-select : (p : LineItem → Bool) (xs : List LineItem) → is_nonempty (select p xs) ≡ any p xs
unfolding is_nonempty select any
nonempty-select p [] = refl
nonempty-select p (x ∷ xs) = ground (arith, nonempty-select p xs)

-- A resolved line that cannot be ordered lacks its quantity.
resolved-needs_qty :
    (xs : List LineItem)
    → All (λ i. is_identified i ≡ true) xs
    → any is_orderable xs ≡ false
    → any is_resolved xs ≡ true
    → any needs_qty xs ≡ true
unfolding any is_orderable needs_qty is_identified
resolved-needs_qty [] w o r = r
resolved-needs_qty (x ∷ xs) (w, ws) o r = ground (arith, w, o, r, resolved-needs_qty xs ws)

all-orderable :
    (xs : List LineItem)
    → (any is_pending (select is_orderable xs) ≡ false)
      × (any
            (λ (i : LineItem).
              not i.resolved
              && not (is_not_found i.catalog_status || is_ambiguous i.catalog_status))
            (select is_orderable xs)
          ≡ false)
      × (any is_orderable (select is_orderable xs) ≡ is_nonempty (select is_orderable xs))
unfolding any select is_orderable is_nonempty
all-orderable [] = (refl, refl, refl)
all-orderable (x ∷ xs) =
    let (a, b, c) = all-orderable xs in (ground (arith, a), ground (arith, b), ground (arith, c))

-- The tests of `missing_route` on the lines that `check_missing_fields` hands on.
abbrev is_open : LineItem → Bool
is_open i = not i.resolved && not (is_not_found i.catalog_status || is_ambiguous i.catalog_status)

nothing_missing :
    (xs : List LineItem)
    → All (λ i. is_identified i ≡ true) xs
    → missing_in_lines xs ≡ []
    → any is_orderable xs ≡ false
    → any is_resolved xs ≡ false
unfolding missing_in_lines orderable_line_items when
nothing_missing xs w m o =
    ground (arith, m, o, nonempty-select is_orderable xs, resolved-needs_qty xs w o)

append-[] : (xs ys : List MissingField) → is_nonempty (xs ++ ys) ≡ false → xs ≡ []
unfolding is_nonempty
append-[] [] ys h = refl
append-[] (x ∷ xs) ys h = cc

-- The route ends in `finalize_order` only with a confirmation, where no missing field and no
-- orderable line mean that no line is resolved.
route-confirmed :
    (s : OrderState)
    → s.awaiting_invoice_confirmation ≡ false
    → (is_nonempty s.missing_fields ≡ false
        → any is_orderable s.line_items ≡ false
        → any is_resolved s.line_items ≡ false)
    → missing_route s ≡ finalize_order
    → s.invoice_proceed ≡ true
unfolding missing_route
route-confirmed s a n h = ground (arith, a, n, h)

checked-resolved :
    (xs : List LineItem)
    → All (λ i. is_identified i ≡ true) xs
    → missing_in_lines xs ≡ []
    → any is_orderable (or_lines (orderable_line_items xs) xs) ≡ false
    → any is_resolved (or_lines (orderable_line_items xs) xs) ≡ false
unfolding orderable_line_items or_lines is_nonempty
checked-resolved xs w m h = go (select is_orderable xs) refl (h)
  where
    go :
        (ys : List LineItem)
        → select is_orderable xs ≡ ys
        → any is_orderable (or_lines ys xs) ≡ false
        → any is_resolved (or_lines ys xs) ≡ false
    go [] e h = nothing_missing xs w m h
    go (y ∷ ys) e h =
        let (_, _, c) = all-orderable xs in
        let shown : any is_orderable (y ∷ ys) ≡ is_nonempty (y ∷ ys) =
          subst (λ zs. any is_orderable zs ≡ is_nonempty zs) e c in
        ground (arith, h, shown)

-- With lines as the catalog leaves them and no confirmation asked for any more, the order reaches
-- `finalize_order`, and so an invoice, only if the customer has told the agent to proceed.
pub finalized_only_if_confirmed :
    (s : OrderState)
    → All (λ i. is_identified i ≡ true) s.line_items
    → s.awaiting_invoice_confirmation ≡ false
    → missing_route (check_missing_fields s) ≡ finalize_order
    → s.invoice_proceed ≡ true
unfolding check_missing_fields conclude_check compute_missing_fields
finalized_only_if_confirmed s w a h = go (is_nonempty missing || is_nonempty blocking) refl h
  where
    missing : List MissingField
    missing = compute_missing_fields s

    blocking : List LineItem
    blocking = blocking_unresolved_items s.line_items

    go :
        (b : Bool)
        → (is_nonempty missing || is_nonempty blocking) ≡ b
        → missing_route (conclude_check b missing s) ≡ finalize_order
        → s.invoice_proceed ≡ true
    go true e h =
        route-confirmed (conclude_check true missing s) a
          (λ m o.
            nothing_missing s.line_items w
              (append-[] (missing_in_lines s.line_items) (missing_in_order s) m) o)
          h
    go false e h =
        let full : is_nonempty missing ≡ false = ground (arith, e) in
        route-confirmed (conclude_check false missing s) a
          (λ m o.
            checked-resolved s.line_items w
              (append-[] (missing_in_lines s.line_items) (missing_in_order s) full) o)
          h
