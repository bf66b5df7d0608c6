-- ===== src/Reservation/Decrement.antt =====
-- One conditional decrement: it takes its quantity out of the one active row that has it, or
-- changes nothing.
use merchant_ai_agent.Base.{
  ℕ, ◌+◌, ◌<◌, ◌≡◌, refl, false, List, [], ◌∷◌, ◌==◌, ◌&&◌, leb, if◌then◌else◌, arith, update_where,
  count_where,
}
use merchant_ai_agent.Inventory.{Item}
use merchant_ai_agent.Inventory.Stock.{stock, on_sale, rows_of, IsKeyed}
use merchant_ai_agent.Reservation.{has_stock, take_stock, decrement_stock_if_available}

module _ (i q : ℕ) where
  -- No row with the id: nothing matches.
  absent-matches : (items : List Item) → rows_of i items ≡ 0 → count_where (has_stock i q) items ≡ 0
  unfolding count_where has_stock rows_of
  absent-matches [] h = refl
  absent-matches (r ∷ rs) h = ground (arith, absent-matches rs)

  absent-update :
      (items : List Item)
      → rows_of i items ≡ 0
      → update_where (has_stock i q) (take_stock q) items ≡ items
  unfolding update_where has_stock rows_of
  absent-update [] h = refl
  absent-update (r ∷ rs) h = ground (arith, absent-update rs)

  pub absent-on_sale : (items : List Item) → rows_of i items ≡ 0 → on_sale i items ≡ 0
  unfolding on_sale rows_of
  absent-on_sale [] h = refl
  absent-on_sale (r ∷ rs) h = ground (arith, absent-on_sale rs)

  -- The ids of the rows stay as they are.
  pub rows_of-decrement :
      (j : ℕ) (items : List Item)
      → rows_of j (decrement_stock_if_available i q items).0 ≡ rows_of j items
  unfolding decrement_stock_if_available update_where rows_of
  rows_of-decrement j [] = refl
  rows_of-decrement j (r ∷ rs) = ground (arith, rows_of-decrement j rs)

  -- What is taken off the shelf is the quantity, of this item alone, if the decrement succeeds.
  pub stock-decrement :
      (j : ℕ) (items : List Item)
      → IsKeyed items
      → let (items', reserved) = decrement_stock_if_available i q items in
        stock j items' + (if reserved && (i == j) then q else 0) ≡ stock j items
  unfolding decrement_stock_if_available update_where count_where has_stock stock rows_of
  stock-decrement j [] h = refl
  stock-decrement j (r ∷ rs) h =
      ground (arith, stock-decrement j rs, absent-matches rs, absent-update rs)

  pub on_sale-decrement :
      (j : ℕ) (items : List Item)
      → IsKeyed items
      → let (items', reserved) = decrement_stock_if_available i q items in
        on_sale j items' + (if reserved && (i == j) then q else 0) ≡ on_sale j items
  unfolding decrement_stock_if_available update_where count_where has_stock on_sale rows_of
  on_sale-decrement j [] h = refl
  on_sale-decrement j (r ∷ rs) h =
      ground (arith, on_sale-decrement j rs, absent-matches rs, absent-update rs)

  -- The decrement succeeds exactly if the active row has the quantity.
  pub decrement-succeeds :
      (items : List Item)
      → IsKeyed items
      → 0 < q
      → (decrement_stock_if_available i q items).1 ≡ leb q (on_sale i items)
  unfolding decrement_stock_if_available count_where has_stock on_sale rows_of
  decrement-succeeds [] h p = ground arith
  decrement-succeeds (r ∷ rs) h p =
      ground (arith, decrement-succeeds rs, absent-matches rs, absent-on_sale rs)

  -- A failed decrement changes nothing.
  pub decrement-failed :
      (items : List Item)
      → (decrement_stock_if_available i q items).1 ≡ false
      → (decrement_stock_if_available i q items).0 ≡ items
  unfolding decrement_stock_if_available update_where count_where
  decrement-failed [] h = refl
  decrement-failed (r ∷ rs) h = ground (arith, decrement-failed rs)

pub decrement-IsKeyed :
    (i q : ℕ) (items : List Item)
    → IsKeyed items
    → IsKeyed (decrement_stock_if_available i q items).0
unfolding decrement_stock_if_available update_where
decrement-IsKeyed i q [] h = tt
decrement-IsKeyed i q (r ∷ rs) h =
    ground (arith, decrement-IsKeyed i q rs h.1, rows_of-decrement i q r.id rs)
