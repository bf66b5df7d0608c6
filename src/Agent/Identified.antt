-- ===== src/Agent/Identified.antt =====
-- The look-up and the stock check leave lines that `check_missing_fields` can rely on.
use merchant_ai_agent.Base.{
  ℕ, zero, suc, ◌≡◌, refl, sym, subst, ◌∙◌, String, Bool, true, false, not, ◌&&◌, Option, none,
  some, List, [], ◌∷◌, str_eq, map, if◌then◌else◌, All, arith,
}
use merchant_ai_agent.Base.Int.{ℤ, pos, negsuc}
use merchant_ai_agent.Agent.{
  LineItem, missing_name, Unavailable, OrderState, truthy, is_stockout_pending, is_not_found,
}
use merchant_ai_agent.Agent.Missing.{check_missing_fields, missing_route, finalize_order}
use merchant_ai_agent.Agent.Confirmed.{is_identified, finalized_only_if_confirmed}
use merchant_ai_agent.Agent.React.{Tools}
use merchant_ai_agent.Agent.Stock.{
  Latest, Catalog, Checked, kept, compare_line, refreshed, falls_short, unavailable_line,
  check_known, lookup_id, check_lines, with_unavailable, check_availability,
}
use merchant_ai_agent.Agent.Lookup.{
  Suggestion, Search, first_sorted, sorts_before, pick_best_match, needed, matched, settle_line,
  resolve_line, default_qty, resolve_catalog,
}

abbrev pub HasId : Suggestion → Type 0
HasId m = str_eq m.item_id "" ≡ false

first_sorted-HasId :
    (qty : ℤ) (ms : List Suggestion) (best : Suggestion)
    → HasId best
    → All HasId ms
    → HasId (first_sorted qty best ms)
unfolding first_sorted
first_sorted-HasId qty [] best h hs = h
first_sorted-HasId qty (m ∷ ms) best h (k, ks) =
    first_sorted-HasId qty ms (if sorts_before qty m best then m else best)
      (choose (sorts_before qty m best)) ks
  where
    choose : (b : Bool) → HasId (if b then m else best)
    choose true = k
    choose false = h

settled-identified :
    (o : Option Suggestion) (found : List Suggestion) (item : LineItem)
    → ((m : Suggestion) → o ≡ some m → HasId m)
    → is_identified (settle_line o found item) ≡ true
unfolding settle_line matched is_identified truthy is_not_found is_stockout_pending
settled-identified none [] item h = refl
settled-identified none (m ∷ ms) item h = refl
settled-identified (some m) found item h = rw (h m refl) refl

picked-HasId :
    (qty : Option ℤ) (found : List Suggestion) (m : Suggestion)
    → All HasId found
    → pick_best_match qty found ≡ some m
    → HasId m
unfolding pick_best_match
picked-HasId qty [] m hs e = cc
picked-HasId qty (x ∷ []) m (h, _) e = let same : x ≡ m = cc in subst HasId same h
picked-HasId qty (x ∷ o ∷ ms) m (h, hs) e =
    let best = first_sorted-HasId (needed qty) (o ∷ ms) x h hs in
    let same : first_sorted (needed qty) x (o ∷ ms) ≡ m = ground (arith, e) in subst HasId same best

unnamed-identified :
    (item : LineItem)
    → is_identified item ≡ true
    → is_identified (record item { catalog_status = some missing_name }) ≡ true
unfolding is_identified is_not_found is_stockout_pending
unnamed-identified item h = ground (arith, h)

resolved-identified :
    (search : Search) (item : LineItem)
    → ((name : String) (brand : Option String) → All HasId (search name brand))
    → is_identified item ≡ true
    → is_identified (resolve_line search item) ≡ true
unfolding resolve_line
resolved-identified search item ids h =
    go (is_stockout_pending item.catalog_status) (str_eq item.item_name "")
  where
    found : List Suggestion
    found = search item.item_name item.brand

    go :
        (a b : Bool)
        → is_identified (
            if a
            then item
            else if b
            then record item { catalog_status = some missing_name }
            else settle_line (pick_best_match item.qty found) found item)
          ≡ true
    go true b = h
    go false true = unnamed-identified item h
    go false false =
        settled-identified (pick_best_match item.qty found) found item
          (λ m e. picked-HasId item.qty found m (ids item.item_name item.brand) e)

pub default_qty-identified :
    (item : LineItem) → is_identified (default_qty item) ≡ is_identified item
unfolding default_qty is_identified
default_qty-identified item = ground arith

pub looked_up-identified :
    (search : Search) (items : List LineItem)
    → ((name : String) (brand : Option String) → All HasId (search name brand))
    → All (λ i. is_identified i ≡ true) items
    → All (λ i. is_identified i ≡ true) (map default_qty (map (resolve_line search) items))
looked_up-identified search [] ids hs = tt
looked_up-identified search (item ∷ items) ids (h, hs) = (
  default_qty-identified (resolve_line search item) ∙ resolved-identified search item ids h,
  looked_up-identified search items ids hs,
)

pub refreshed-identified :
    (item : LineItem) (latest : Latest) → is_identified (refreshed item latest) ≡ is_identified item
unfolding refreshed is_identified
refreshed-identified item latest = refl

unfoldable pub AllIdentified : List LineItem → Type 0
AllIdentified items = All (λ i. is_identified i ≡ true) items

pub compared-identified :
    (today : ℕ) (item : LineItem) (q : ℤ) (latest : Latest) (rest : Checked)
    → is_identified item ≡ true
    → AllIdentified rest.lines
    → AllIdentified (compare_line today item q latest rest).lines
unfolding compare_line kept AllIdentified
compared-identified today item q latest rest h hs = go (falls_short today latest q)
  where
    go :
        (b : Bool)
        → All
            (λ i. is_identified i ≡ true)
            (if b
              then record {
                lines = item ∷ rest.lines;
                short = unavailable_line item latest.available_qty ∷ rest.short;
              }
              else kept (refreshed item latest) rest).lines
    go true = (h, hs)
    go false = (refreshed-identified item latest ∙ h, hs)

known-identified :
    (today : ℕ) (latest : Option Latest) (qty : Option ℤ) (item : LineItem) (rest : Checked)
    → is_identified item ≡ true
    → AllIdentified rest.lines
    → AllIdentified (check_known today latest qty item rest).lines
unfolding check_known kept AllIdentified
known-identified today latest none item rest h hs = (h, hs)
known-identified today latest (some (pos zero)) item rest h hs = (h, hs)
known-identified today none (some (pos (suc q))) item rest h hs = (h, hs)
known-identified today none (some (negsuc q)) item rest h hs = (h, hs)
known-identified today (some latest) (some (pos (suc q))) item rest h hs =
    compared-identified today item (pos (suc q)) latest rest h hs
known-identified today (some latest) (some (negsuc q)) item rest h hs =
    compared-identified today item (negsuc q) latest rest h hs

pub checked-identified :
    (today : ℕ) (catalog : Catalog) (items : List LineItem)
    → AllIdentified items
    → AllIdentified (check_lines today catalog items).lines
unfolding check_lines kept AllIdentified
checked-identified today catalog [] hs = tt
checked-identified today catalog (item ∷ items) (h, hs) =
    go (item.resolved && truthy item.item_id && not (is_stockout_pending item.catalog_status))
      (checked-identified today catalog items hs)
  where
    rest : Checked
    rest = check_lines today catalog items

    go :
        (b : Bool)
        → All (λ i. is_identified i ≡ true) rest.lines
        → All
            (λ i. is_identified i ≡ true)
            (if b
              then check_known today (lookup_id catalog item.item_id) item.qty item rest
              else kept item rest).lines
    go true ih = known-identified today (lookup_id catalog item.item_id) item.qty item rest h ih
    go false ih = (h, ih)

-- The look-up of the lines, and the stock check on what it found.
unfoldable pub looked_up : ℕ → Catalog → Search → Tools → OrderState → OrderState
unfolding resolve_catalog check_availability
looked_up today catalog search tools s =
    check_availability today catalog (resolve_catalog search tools s)

pub unavailable-keeps :
    (us : List Unavailable) (s : OrderState)
    → ((with_unavailable us s).line_items ≡ s.line_items)
      × ((with_unavailable us s).invoice_proceed ≡ s.invoice_proceed)
      × ((with_unavailable us s).awaiting_invoice_confirmation ≡ s.awaiting_invoice_confirmation)
unfolding with_unavailable
unavailable-keeps [] s = (refl, refl, refl)
unavailable-keeps (u ∷ us) s = (refl, refl, refl)

-- Through the look-up in a catalog whose items have ids and through the stock check, an order whose
-- lines are as an earlier turn left them goes on to `finalize_order`, and so to an invoice, only if
-- the customer told the agent to proceed.
pub looked_up_waits_for_confirmation :
    (today : ℕ) (catalog : Catalog) (search : Search) (tools : Tools) (s : OrderState)
    → ((name : String) (brand : Option String) → All HasId (search name brand))
    → All (λ i. is_identified i ≡ true) s.line_items
    → s.awaiting_invoice_confirmation ≡ false
    → missing_route (check_missing_fields (looked_up today catalog search tools s)) ≡ finalize_order
    → s.invoice_proceed ≡ true
unfolding looked_up check_availability resolve_catalog AllIdentified
looked_up_waits_for_confirmation today catalog search tools s ids hs waits h =
    let r = resolve_catalog search tools s in
    let checked = check_lines today catalog r.line_items in
    let t = record r { line_items = checked.lines } in
    let (lines, proceeds, awaits) = unavailable-keeps checked.short t in
    let found = looked_up-identified search s.line_items ids hs in
    let identified =
      subst AllIdentified (sym lines) (checked-identified today catalog r.line_items found) in
    sym proceeds
    ∙ finalized_only_if_confirmed (with_unavailable checked.short t) identified (awaits ∙ waits) h
