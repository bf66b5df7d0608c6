-- ===== src/Reservation/Fits.antt =====
-- When `reserve` succeeds: exactly if the stock on sale covers the demand for each item, summed
-- over all the lines that name it.
use merchant_ai_agent.Base.{
  ℕ, ◌+◌, ◌≤◌, ◌<◌, ◌≡◌, ◌↔◌, refl, true, List, [], ◌∷◌, ◌==◌, le→leb, if◌then◌else◌, arith, All,
  ◌∙◌,
}
use merchant_ai_agent.Uuid.{Uuid}
use merchant_ai_agent.Inventory.{Item, Db}
use merchant_ai_agent.Inventory.Stock.{on_sale, stock, IsKeyed, rows_of}
use merchant_ai_agent.Reservation.{
  ReservationLineItem, UnavailableItem, insert_held_rows, reserve_lines,
  decrement_stock_if_available, reserve_in_transaction,
}
use merchant_ai_agent.Reservation.Decrement.{
  stock-decrement, on_sale-decrement, decrement-succeeds, decrement-IsKeyed, rows_of-decrement,
}

-- The units of an item that the lines ask for together.
unfoldable pub demand : Uuid → List ReservationLineItem → ℕ
demand i [] = 0
demand i (line ∷ lines) = (if line.item_id == i then line.qty else 0) + demand i lines

-- What the normalisations have checked.
abbrev pub IsPositive : ReservationLineItem → Type 0
IsPositive line = 0 < line.qty

abbrev pub Fits : List ReservationLineItem → List Item → Type 0
Fits lines items = (i : Uuid) → demand i lines ≤ on_sale i items

pub reserve_lines-IsKeyed :
    (lines : List ReservationLineItem) (items : List Item)
    → IsKeyed items
    → IsKeyed (reserve_lines lines items).0
unfolding reserve_lines
reserve_lines-IsKeyed [] items h = h
reserve_lines-IsKeyed (line ∷ lines) items h =
    reserve_lines-IsKeyed lines (decrement_stock_if_available line.item_id line.qty items).0
      (decrement-IsKeyed line.item_id line.qty items h)

pub rows_of-reserve_lines :
    (j : Uuid) (lines : List ReservationLineItem) (items : List Item)
    → rows_of j (reserve_lines lines items).0 ≡ rows_of j items
unfolding reserve_lines
rows_of-reserve_lines j [] items = refl
rows_of-reserve_lines j (line ∷ lines) items = ground (
  arith,
  rows_of-reserve_lines j lines (decrement_stock_if_available line.item_id line.qty items).0,
  rows_of-decrement line.item_id line.qty j items,
)

-- If no line failed, each item's stock fell by exactly the demand.
pub stock-reserve_lines :
    (j : Uuid) (lines : List ReservationLineItem) (items : List Item)
    → IsKeyed items
    → (reserve_lines lines items).1 ≡ []
    → stock j (reserve_lines lines items).0 + demand j lines ≡ stock j items
unfolding reserve_lines demand
stock-reserve_lines j [] items h e = ground arith
stock-reserve_lines j (line ∷ lines) items h e = ground (
  arith,
  stock-reserve_lines j lines (decrement_stock_if_available line.item_id line.qty items).0
      (decrement-IsKeyed line.item_id line.qty items h),
  stock-decrement line.item_id line.qty j items h,
)

fits_of_success :
    (i : Uuid) (lines : List ReservationLineItem) (items : List Item)
    → IsKeyed items
    → (reserve_lines lines items).1 ≡ []
    → demand i lines ≤ on_sale i items
unfolding reserve_lines demand
fits_of_success i [] items h e = ground arith
fits_of_success i (line ∷ lines) items h e = ground (
  arith,
  fits_of_success i lines (decrement_stock_if_available line.item_id line.qty items).0
      (decrement-IsKeyed line.item_id line.qty items h),
  on_sale-decrement line.item_id line.qty i items h,
)

-- The demand that is left fits what is left, once the first line is served.
Fits-tail :
    (line : ReservationLineItem) (lines : List ReservationLineItem) (items : List Item)
    → IsKeyed items
    → (decrement_stock_if_available line.item_id line.qty items).1 ≡ true
    → Fits (line ∷ lines) items
    → Fits lines (decrement_stock_if_available line.item_id line.qty items).0
unfolding demand
Fits-tail line lines items h done fits i =
    ground (arith, fits i, on_sale-decrement line.item_id line.qty i items h)

first-Fits :
    (line : ReservationLineItem) (lines : List ReservationLineItem) (items : List Item)
    → Fits (line ∷ lines) items
    → line.qty ≤ on_sale line.item_id items
unfolding demand
first-Fits line lines items fits = ground (arith, fits line.item_id)

success_of_Fits :
    (lines : List ReservationLineItem) (items : List Item)
    → IsKeyed items
    → All IsPositive lines
    → Fits lines items
    → (reserve_lines lines items).1 ≡ []
unfolding reserve_lines
success_of_Fits [] items h p fits = refl
success_of_Fits (line ∷ lines) items h p fits =
    let done : (decrement_stock_if_available line.item_id line.qty items).1 ≡ true =
      decrement-succeeds line.item_id line.qty items h p.0
      ∙ le→leb line.qty (on_sale line.item_id items) (first-Fits line lines items fits) in
    ground (
      arith,
      done,
      success_of_Fits lines (decrement_stock_if_available line.item_id line.qty items).0
          (decrement-IsKeyed line.item_id line.qty items h) p.1
          (Fits-tail line lines items h done fits),
    )

-- The transaction reports what its loop reports.
pub unavailable-reserve :
    (invoice_id : Uuid) (lines : List ReservationLineItem) (reserved_at expires_at : ℕ) (db : Db)
    → (reserve_in_transaction invoice_id lines reserved_at expires_at db).1
      ≡ (reserve_lines lines db.items).1
unfolding reserve_in_transaction
unavailable-reserve invoice_id lines reserved_at expires_at db = ground arith

-- The two ends of the transaction.
pub reserve-served :
    (i a e : ℕ) (lines : List ReservationLineItem) (db : Db)
    → (reserve_lines lines db.items).1 ≡ []
    → reserve_in_transaction i lines a e db
      ≡ (insert_held_rows i lines a e (record db { items = (reserve_lines lines db.items).0 }), [])
unfolding reserve_in_transaction
reserve-served i a e lines db h = ground arith

pub reserve-refused :
    (i a e : ℕ) (lines : List ReservationLineItem) (db : Db) (u : UnavailableItem)
    (us : List UnavailableItem)
    → (reserve_lines lines db.items).1 ≡ u ∷ us
    → reserve_in_transaction i lines a e db ≡ (db, u ∷ us)
unfolding reserve_in_transaction
reserve-refused i a e lines db u us h = ground arith

-- The reservation transaction reports no unavailable item exactly if, for every item, the
-- demand summed over all lines is at most the stock of its active row; for unique item ids and
-- lines of positive quantity.
pub reserve_succeeds_iff_fits :
    (invoice_id : Uuid) (lines : List ReservationLineItem) (reserved_at expires_at : ℕ) (db : Db)
    → IsKeyed db.items
    → All IsPositive lines
    → ((reserve_in_transaction invoice_id lines reserved_at expires_at db).1 ≡ [])
      ↔ ((i : Uuid) → demand i lines ≤ on_sale i db.items)
reserve_succeeds_iff_fits invoice_id lines reserved_at expires_at db h p =
    rw unavailable-reserve
      (λ e i. fits_of_success i lines db.items h e, λ fits. success_of_Fits lines db.items h p fits)
