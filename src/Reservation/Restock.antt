-- ===== src/Reservation/Restock.antt =====
-- What the settlement of released rows puts back on the shelf, and what the bulk updates of
-- `reserved_items` do to the sums by status.
use merchant_ai_agent.Base.{
  ℕ, ◌+◌, ◌≡◌, refl, Bool, List, [], ◌∷◌, ◌==◌, if◌then◌else◌, arith, All, select, update_where,
  sum_where, ◌∙◌,
}
use merchant_ai_agent.Inventory.{Item, ReservedItem, released, paid, is_held, is_paid}
use merchant_ai_agent.Inventory.Stock.{stock, reserved_as, rows_of, IsKeyed}
use merchant_ai_agent.Reservation.Expiry.{
  Rollback, is_expired_hold, is_hold_of, set_status, restore_stock,
}
use merchant_ai_agent.Reservation.Rollback.{settle, settle_row}

module _ (i q : ℕ) where
  restore-absent : (items : List Item) → rows_of i items ≡ 0 → restore_stock i q items ≡ items
  unfolding restore_stock update_where rows_of
  restore-absent [] h = refl
  restore-absent (r ∷ rs) h = ground (arith, restore-absent rs)

  pub rows_of-restore :
      (j : ℕ) (items : List Item) → rows_of j (restore_stock i q items) ≡ rows_of j items
  unfolding restore_stock update_where rows_of
  rows_of-restore j [] = refl
  rows_of-restore j (r ∷ rs) = ground (arith, rows_of-restore j rs)

  -- The one row with the id gains the quantity.
  pub stock-restore :
      (j : ℕ) (items : List Item)
      → rows_of i items ≡ 1
      → stock j (restore_stock i q items) ≡ stock j items + (if i == j then q else 0)
  unfolding restore_stock update_where rows_of stock
  stock-restore j [] h = absurd (omega arith)
  stock-restore j (r ∷ rs) h = ground (arith, stock-restore j rs, restore-absent rs)

pub restore-IsKeyed :
    (i q : ℕ) (items : List Item) → IsKeyed items → IsKeyed (restore_stock i q items)
unfolding restore_stock update_where
restore-IsKeyed i q [] h = tt
restore-IsKeyed i q (r ∷ rs) h =
    ground (arith, restore-IsKeyed i q rs h.1, rows_of-restore i q r.id rs)

-- The item of the row is in the table.
abbrev pub IsHomed : List Item → ReservedItem → Type 0
IsHomed items r = rows_of r.item_id items ≡ 1

pub rows_of-settle :
    (j : ℕ) (rows : List ReservedItem) (t : Rollback)
    → rows_of j (settle rows t).db.items ≡ rows_of j t.db.items
unfolding settle
rows_of-settle j [] t = refl
rows_of-settle j (row ∷ rows) t =
    rows_of-settle j rows (settle_row row t)
    ∙ rows_of-restore row.item_id row.reserved_qty j t.db.items

pub settle-IsKeyed :
    (rows : List ReservedItem) (t : Rollback)
    → IsKeyed t.db.items
    → IsKeyed (settle rows t).db.items
unfolding settle
settle-IsKeyed [] t h = h
settle-IsKeyed (row ∷ rows) t h =
    settle-IsKeyed rows (settle_row row t)
      (restore-IsKeyed row.item_id row.reserved_qty t.db.items h)

pub All-IsHomed :
    (rows : List ReservedItem) (items items' : List Item)
    → ((j : ℕ) → rows_of j items' ≡ rows_of j items)
    → All (IsHomed items) rows
    → All (IsHomed items') rows
All-IsHomed [] items items' same h = tt
All-IsHomed (r ∷ rows) items items' same h =
    (same r.item_id ∙ h.0, All-IsHomed rows items items' same h.1)

abbrev pub of_item : ℕ → ReservedItem → Bool
of_item j r = r.item_id == j

abbrev pub qty_of : ReservedItem → ℕ
qty_of r = r.reserved_qty

-- The settlement puts back what its rows hold.
pub stock-settle :
    (j : ℕ) (rows : List ReservedItem) (t : Rollback)
    → All (IsHomed t.db.items) rows
    → stock j (settle rows t).db.items ≡ stock j t.db.items + sum_where (of_item j) qty_of rows
unfolding settle sum_where
stock-settle j [] t h = omega arith
stock-settle j (row ∷ rows) t h = omega (
  arith,
  stock-settle j rows (settle_row row t) (
      All-IsHomed rows t.db.items (settle_row row t).db.items
        (λ k. rows_of-restore row.item_id row.reserved_qty k t.db.items) h.1),
  stock-restore row.item_id row.reserved_qty j t.db.items h.0,
)

-- Releasing the expired holds takes them out of the held units; the paid ones stay.
pub reserved_as-release :
    (now j : ℕ) (rows : List ReservedItem)
    → let rows' = update_where (is_expired_hold now) (set_status released) rows in
      (reserved_as is_held j rows'
          + sum_where (of_item j) qty_of (select (is_expired_hold now) rows)
        ≡ reserved_as is_held j rows)
      × (reserved_as is_paid j rows' ≡ reserved_as is_paid j rows)
unfolding reserved_as update_where sum_where select is_expired_hold set_status
reserved_as-release now j [] = (refl, refl)
reserved_as-release now j (r ∷ rows) = ground (arith, reserved_as-release now j rows)

-- Paying turns held units into paid ones.
pub reserved_as-pay :
    (invoice_id j : ℕ) (rows : List ReservedItem)
    → let rows' = update_where (is_hold_of invoice_id) (set_status paid) rows in
      reserved_as is_held j rows' + reserved_as is_paid j rows'
      ≡ reserved_as is_held j rows + reserved_as is_paid j rows
unfolding reserved_as update_where sum_where is_hold_of set_status
reserved_as-pay invoice_id j [] = refl
reserved_as-pay invoice_id j (r ∷ rows) = ground (arith, reserved_as-pay invoice_id j rows)
