-- ===== src/Agent/Withdrawn.antt =====
-- What was reported as unavailable can not be invoiced until the customer picks something else.
use merchant_ai_agent.Base.{
  ℕ, String, ◌≡◌, refl, Bool, true, false, ◌&&◌, ◌||◌, List, [], ◌∷◌, any, str_eq, All, arith,
}
use merchant_ai_agent.Invoice.Offers.{shown_id}
use merchant_ai_agent.Agent.{
  LineItem, Unavailable, OrderState, truthy, is_orderable, has_unavailable_items, is_nonempty,
  unavailable_items_from_state,
}
use merchant_ai_agent.Agent.React.{Tools}
use merchant_ai_agent.Agent.Stock.{Catalog}
use merchant_ai_agent.Agent.Alternatives.{
  same_id, same_product, marked_if, mark_line, mark_line_stockout_pending, mark_all, suggest_for,
  suggest_alternative,
}

-- A line that could be invoiced for the item that was reported.
unfoldable pub sells : Unavailable → LineItem → Bool
sells u item =
    truthy u.item_id && is_orderable item && str_eq (shown_id item.item_id) (shown_id u.item_id)

marked_if-sells :
    (u : Unavailable) (b : Bool) (item : LineItem)
    → sells u item ≡ false
    → sells u (marked_if b item) ≡ false
unfolding sells marked_if is_orderable
marked_if-sells u true item h = ground arith
marked_if-sells u false item h = h

other-sells : (u : Unavailable) (item : LineItem) → same_id u item ≡ false → sells u item ≡ false
unfolding sells same_id
other-sells u item h = ground (arith, h)

hidden-sells : (u : Unavailable) (item : LineItem) → sells u (marked_if true item) ≡ false
unfolding sells marked_if is_orderable
hidden-sells u item = ground arith

marked-sells : (u : Unavailable) (item : LineItem) → sells u (mark_line u item) ≡ false
unfolding sells mark_line
marked-sells u item = go (same_id u item) refl
  where
    go :
        (b : Bool)
        → same_id u item ≡ b
        → sells u (marked_if (b || same_product u item) item) ≡ false
    go true e = hidden-sells u item
    go false e = marked_if-sells u (same_product u item) item (other-sells u item e)

still-marked :
    (u v : Unavailable) (item : LineItem)
    → sells u item ≡ false
    → sells u (mark_line v item) ≡ false
unfolding mark_line
still-marked u v item h = marked_if-sells u (same_id v item || same_product v item) item h

all-marked :
    (u : Unavailable) (items : List LineItem)
    → any (sells u) (mark_line_stockout_pending u items) ≡ false
unfolding any mark_line_stockout_pending
all-marked u [] = refl
all-marked u (item ∷ items) = rw (marked-sells u item) (all-marked u items)

all-still_marked :
    (u v : Unavailable) (items : List LineItem)
    → any (sells u) items ≡ false
    → any (sells u) (mark_line_stockout_pending v items) ≡ false
unfolding any mark_line_stockout_pending
all-still_marked u v [] h = refl
all-still_marked u v (item ∷ items) h =
    ground (arith, h, still-marked u v item, all-still_marked u v items)

mark_all-keeps :
    (u : Unavailable) (us : List Unavailable) (items : List LineItem)
    → any (sells u) items ≡ false
    → any (sells u) (mark_all us items) ≡ false
unfolding mark_all
mark_all-keeps u [] items h = h
mark_all-keeps u (v ∷ vs) items h =
    mark_all-keeps u vs (mark_line_stockout_pending v items) (all-still_marked u v items h)

mark_all-sells :
    (us : List Unavailable) (items : List LineItem)
    → All (λ u. any (sells u) (mark_all us items) ≡ false) us
unfolding mark_all
mark_all-sells [] items = tt
mark_all-sells (u ∷ us) items =
    let marked = mark_line_stockout_pending u items in
    (mark_all-keeps u us marked (all-marked u items), mark_all-sells us marked)

-- After alternatives were suggested no line can be invoiced for an item that was reported as
-- unavailable, and the report itself is used up.
pub suggested_is_withdrawn :
    (today : ℕ) (catalog : Catalog) (tools : Tools) (same_name : Unavailable → List String)
    (s : OrderState)
    → let t = suggest_alternative today catalog tools same_name s in
      All (λ u. any (sells u) t.line_items ≡ false) (unavailable_items_from_state s)
      × (has_unavailable_items t ≡ false)
unfolding suggest_alternative suggest_for has_unavailable_items is_nonempty
suggested_is_withdrawn today catalog tools same_name s = go (unavailable_items_from_state s) refl
  where
    go :
        (us : List Unavailable)
        → unavailable_items_from_state s ≡ us
        → All
            (λ u. any (sells u) (suggest_for today catalog tools same_name us s).line_items ≡ false)
            us
          × (has_unavailable_items (suggest_for today catalog tools same_name us s) ≡ false)
    go [] e = (tt, rw e refl)
    go (u ∷ us) e = (mark_all-sells (u ∷ us) s.line_items, refl)
