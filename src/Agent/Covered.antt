-- ===== src/Agent/Covered.antt =====
-- What reaches the invoice is covered by the shelf, unless nothing was ordered at all.
use merchant_ai_agent.Base.{
  ℕ, ◌≤◌, ◌≡◌, refl, String, Bool, true, false, Option, none, some, List, [], ◌∷◌, if◌then◌else◌,
  is_some, All, arith, select,
}
use merchant_ai_agent.Base.Int.{ℤ, leb_ℤ}
use merchant_ai_agent.Agent.{
  LineItem, Unavailable, OrderState, validated, is_orderable, is_nonempty, has_unavailable_items,
}
use merchant_ai_agent.Agent.Missing.{orderable_line_items}
use merchant_ai_agent.Agent.Stock.{
  Latest, Catalog, is_expired, falls_short, refreshed, Checked, kept, compare_line, lookup_id,
  finalize_known, finalize_lines, conclude_finalize, finalize_orderable, finalize_order,
  generate_invoice, finalize_route, unavailable_line,
}

-- The catalog knows the item of the line, which expires today at the earliest, has the quantity, and
-- set the price of the line.
pub record IsCovered (today : ℕ) (catalog : Catalog) (item : LineItem) : Type 0 where
  pub latest : Latest
  pub qty : ℤ
  pub is_known : lookup_id catalog item.item_id ≡ some latest
  pub is_wanted : item.qty ≡ some qty
  pub is_in_date : (day : ℕ) → latest.expiry_date ≡ some day → today ≤ day
  pub is_on_shelf : leb_ℤ qty latest.available_qty ≡ true
  pub is_priced : item.unit_price_paise ≡ some latest.price_paise

enough-in_date :
    (today : ℕ) (latest : Latest) (qty : ℤ)
    → falls_short today latest qty ≡ false
    → (day : ℕ) → latest.expiry_date ≡ some day
    → today ≤ day
unfolding falls_short is_expired
enough-in_date today latest qty e day dated = ground (arith, e, dated)

enough-on_shelf :
    (today : ℕ) (latest : Latest) (qty : ℤ)
    → falls_short today latest qty ≡ false
    → leb_ℤ qty latest.available_qty ≡ true
unfolding falls_short
enough-on_shelf today latest qty e = ground (arith, e)

compared-IsCovered :
    (today : ℕ) (catalog : Catalog) (item : LineItem) (q : ℤ) (latest : Latest) (rest : Checked)
    → lookup_id catalog item.item_id ≡ some latest
    → item.qty ≡ some q
    → (compare_line today item q latest rest).short ≡ []
    → All (IsCovered today catalog) rest.lines
    → All (IsCovered today catalog) (compare_line today item q latest rest).lines
unfolding compare_line kept refreshed
compared-IsCovered today catalog item q latest rest known wanted short covered =
    go (falls_short today latest q) refl short
  where
    chosen : Bool → Checked
    chosen b =
        if b
        then record {
          lines = item ∷ rest.lines;
          short = unavailable_line item latest.available_qty ∷ rest.short;
        }
        else kept (refreshed item latest) rest

    go :
        (b : Bool)
        → falls_short today latest q ≡ b
        → (chosen b).short ≡ []
        → All (IsCovered today catalog) (chosen b).lines
    go true e h = cc
    go false e h = (
      record {
        latest = latest;
        qty = q;
        is_known = known;
        is_wanted = wanted;
        is_in_date = enough-in_date today latest q e;
        is_on_shelf = enough-on_shelf today latest q e;
        is_priced = refl;
      },
      covered,
    )

compare-short :
    (today : ℕ) (item : LineItem) (q : ℤ) (latest : Latest) (rest : Checked)
    → (compare_line today item q latest rest).short ≡ []
    → rest.short ≡ []
unfolding compare_line kept
compare-short today item q latest rest h = ground (arith, h)

finalize_lines-IsCovered :
    (today : ℕ) (catalog : Catalog) (items : List LineItem)
    → All (λ i. is_some i.qty ≡ true) items
    → (finalize_lines today catalog items).short ≡ []
    → All (IsCovered today catalog) (finalize_lines today catalog items).lines
unfolding finalize_lines finalize_known
finalize_lines-IsCovered today catalog [] w h = tt
finalize_lines-IsCovered today catalog (item ∷ items) (w, ws) h =
    go (lookup_id catalog item.item_id) item.qty refl refl w h
      (λ e. finalize_lines-IsCovered today catalog items ws e)
  where
    rest : Checked
    rest = finalize_lines today catalog items

    go :
        (latest : Option Latest) (qty : Option ℤ)
        → lookup_id catalog item.item_id ≡ latest
        → item.qty ≡ qty
        → is_some qty ≡ true
        → (finalize_known today latest qty item rest).short ≡ []
        → (rest.short ≡ [] → All (IsCovered today catalog) rest.lines)
        → All (IsCovered today catalog) (finalize_known today latest qty item rest).lines
    go latest none el eq w h ih = cc
    go none (some q) el eq w h ih = ground (arith, h)
    go (some latest) (some q) el eq w h ih =
        compared-IsCovered today catalog item q latest rest el eq h
          (ih (compare-short today item q latest rest h))

orderable-has_qty :
    (items : List LineItem) → All (λ i. is_some i.qty ≡ true) (orderable_line_items items)
unfolding orderable_line_items select is_orderable
orderable-has_qty [] = tt
orderable-has_qty (item ∷ items) = go (is_orderable item) refl (orderable-has_qty items)
  where
    rest : List LineItem
    rest = select is_orderable items

    go :
        (b : Bool)
        → is_orderable item ≡ b
        → All (λ i. is_some i.qty ≡ true) rest
        → All (λ i. is_some i.qty ≡ true) (if b then item ∷ rest else rest)
    go true e ih = (ground (arith, e), ih)
    go false e ih = ih

concluded-IsCovered :
    (today : ℕ) (catalog : Catalog) (id : String) (lines : List LineItem) (short : List Unavailable)
    (s : OrderState)
    → (short ≡ [] → All (IsCovered today catalog) lines)
    → finalize_route (conclude_finalize id lines short s).0 ≡ generate_invoice
    → ((conclude_finalize id lines short s).0.status ≡ validated)
      × All (IsCovered today catalog) (conclude_finalize id lines short s).0.line_items
unfolding conclude_finalize finalize_route has_unavailable_items is_nonempty
concluded-IsCovered today catalog id lines [] s covered h = (refl, covered refl)
concluded-IsCovered today catalog id lines (u ∷ us) s covered h = cc

-- An order with some line to invoice that `finalize_order` lets through to the invoice is
-- validated, and each of its lines is an item of the catalog that has not expired, in a quantity
-- that the shelf has, at the price of the catalog.
pub finalized-IsCovered :
    (today : ℕ) (catalog : Catalog) (fresh : String) (s : OrderState)
    → is_nonempty (orderable_line_items s.line_items) ≡ true
    → finalize_route (finalize_order today catalog fresh s).0 ≡ generate_invoice
    → ((finalize_order today catalog fresh s).0.status ≡ validated)
      × All (IsCovered today catalog) (finalize_order today catalog fresh s).0.line_items
unfolding finalize_order finalize_orderable is_nonempty
finalized-IsCovered today catalog fresh s n h =
    go (orderable_line_items s.line_items) (orderable-has_qty s.line_items) n h
  where
    go :
        (items : List LineItem)
        → All (λ i. is_some i.qty ≡ true) items
        → is_nonempty items ≡ true
        → finalize_route (finalize_orderable today catalog fresh items s).0 ≡ generate_invoice
        → ((finalize_orderable today catalog fresh items s).0.status ≡ validated)
          × All
              (IsCovered today catalog)
              (finalize_orderable today catalog fresh items s).0.line_items
    go [] w n h = cc
    go (item ∷ items) w n h =
        concluded-IsCovered today catalog _ _ _ s
          (finalize_lines-IsCovered today catalog (item ∷ items) w) h
