-- ===== src/Reservation/Soundness.antt =====
-- The invariant of the tables, and that each transaction keeps it.
use merchant_ai_agent.Base.{
  ℕ, ◌+◌, ◌≤◌, ◌<◌, ◌≡◌, sym, ◌∙◌, true, List, [], ◌∷◌, ◌++◌, arith, All, All-append, Bool-cases,
  inl, inr, length, count_where,
}
use merchant_ai_agent.Inventory.{Item, ReservedItem, Db}
use merchant_ai_agent.Inventory.Stock.{rows_of, IsKeyed}
use merchant_ai_agent.Reservation.{
  ReservationLineItem, held_row, held_rows, insert_held_rows, reserve_lines, has_stock,
  decrement_stock_if_available,
}
use merchant_ai_agent.Reservation.Decrement.{decrement-IsKeyed, rows_of-decrement}
use merchant_ai_agent.Reservation.Rollback.{IsOther, IsKeyedHolds}
use merchant_ai_agent.Reservation.Restock.{IsHomed}

abbrev pub IsBelow : ℕ → ReservedItem → Type 0
IsBelow n r = r.id < n

-- Ids are unique, the next id is fresh, and every reservation is of an item in the table.
pub record IsSound (db : Db) : Type 0 where
  pub items_keyed : IsKeyed db.items
  pub holds_keyed : IsKeyedHolds db.reserved_items
  pub ids_below : All (IsBelow db.next_id) db.reserved_items
  pub holds_homed : All (IsHomed db.items) db.reserved_items

-- A successful decrement had a row to work on.
rows_of-decremented :
    (i q : ℕ) (items : List Item)
    → IsKeyed items
    → (decrement_stock_if_available i q items).1 ≡ true
    → rows_of i items ≡ 1
unfolding decrement_stock_if_available count_where rows_of has_stock
rows_of-decremented i q [] h e = ground arith
rows_of-decremented i q (r ∷ rs) h e = ground (arith, rows_of-decremented i q rs)

abbrev pub IsKnown : List Item → ReservationLineItem → Type 0
IsKnown items line = rows_of line.item_id items ≡ 1

pub All-IsKnown :
    (lines : List ReservationLineItem) (items items' : List Item)
    → ((j : ℕ) → rows_of j items' ≡ rows_of j items)
    → All (IsKnown items') lines
    → All (IsKnown items) lines
All-IsKnown [] items items' same h = tt
All-IsKnown (l ∷ ls) items items' same h =
    (sym (same l.item_id) ∙ h.0, All-IsKnown ls items items' same h.1)

-- Where all the lines were served, each names an item of the table.
pub reserved-IsKnown :
    (lines : List ReservationLineItem) (items : List Item)
    → IsKeyed items
    → (reserve_lines lines items).1 ≡ []
    → All (IsKnown items) lines
unfolding reserve_lines
reserved-IsKnown [] items h e = tt
reserved-IsKnown (line ∷ lines) items h e =
    let items' = (decrement_stock_if_available line.item_id line.qty items).0 in
    elim (Bool-cases (decrement_stock_if_available line.item_id line.qty items).1) [
      | inl done ↦ (
        rows_of-decremented line.item_id line.qty items h done,
        All-IsKnown lines items items' (λ j. rows_of-decrement line.item_id line.qty j items)
            (reserved-IsKnown lines items' (decrement-IsKeyed line.item_id line.qty items h)
              (ground (arith, done, e))),
      )
      | inr failed ↦ absurd (ground (arith, failed, e))
    ]

module _ (i a e : ℕ) where
  held_rows-IsHomed :
      (n : ℕ) (lines : List ReservationLineItem) (items : List Item)
      → All (IsKnown items) lines
      → All (IsHomed items) (held_rows i a e n lines)
  unfolding held_rows
  held_rows-IsHomed n [] items h = tt
  held_rows-IsHomed n (l ∷ ls) items h = (h.0, held_rows-IsHomed (n + 1) ls items h.1)

  held_rows-IsBelow :
      (n m : ℕ) (lines : List ReservationLineItem)
      → n + length lines ≤ m
      → All (IsBelow m) (held_rows i a e n lines)
  unfolding held_rows
  held_rows-IsBelow n m [] h = tt
  held_rows-IsBelow n m (l ∷ ls) h = (omega arith, held_rows-IsBelow (n + 1) m ls (omega arith))

  held_rows-IsOther :
      (n : ℕ) (lines : List ReservationLineItem) (r : ReservedItem)
      → r.id < n
      → All (IsOther r) (held_rows i a e n lines)
  unfolding held_rows
  held_rows-IsOther n [] r h = tt
  held_rows-IsOther n (l ∷ ls) r h = (omega arith, held_rows-IsOther (n + 1) ls r (omega arith))

  held_rows-IsKeyedHolds :
      (n : ℕ) (lines : List ReservationLineItem) → IsKeyedHolds (held_rows i a e n lines)
  unfolding held_rows
  held_rows-IsKeyedHolds n [] = tt
  held_rows-IsKeyedHolds n (l ∷ ls) = (
    held_rows-IsOther (n + 1) ls (held_row i a e n l) (omega arith),
    held_rows-IsKeyedHolds (n + 1) ls,
  )

  append-IsKeyedHolds :
      (n : ℕ) (lines : List ReservationLineItem) (rows : List ReservedItem)
      → All (IsBelow n) rows
      → IsKeyedHolds rows
      → IsKeyedHolds (rows ++ held_rows i a e n lines)
  append-IsKeyedHolds n lines [] b h = held_rows-IsKeyedHolds n lines
  append-IsKeyedHolds n lines (r ∷ rows) b h = (
    All-append (IsOther r) rows (held_rows i a e n lines) h.0 (held_rows-IsOther n lines r b.0),
    append-IsKeyedHolds n lines rows b.1 h.1,
  )

IsBelow-mono :
    (n m : ℕ) (rows : List ReservedItem) → n ≤ m → All (IsBelow n) rows → All (IsBelow m) rows
IsBelow-mono n m [] le h = tt
IsBelow-mono n m (r ∷ rows) le h = (omega (arith, h.0), IsBelow-mono n m rows le h.1)

pub insert_held_rows-IsSound :
    (i a e : ℕ) (lines : List ReservationLineItem) (db : Db)
    → IsSound db
    → All (IsKnown db.items) lines
    → IsSound (insert_held_rows i lines a e db)
unfolding insert_held_rows
insert_held_rows-IsSound i a e lines db s k = record {
  items_keyed = s.items_keyed;
  holds_keyed =
      append-IsKeyedHolds i a e db.next_id lines db.reserved_items s.ids_below s.holds_keyed;
  ids_below =
      All-append (IsBelow (db.next_id + length lines)) db.reserved_items
        (held_rows i a e db.next_id lines)
        (IsBelow-mono db.next_id (db.next_id + length lines) db.reserved_items (omega arith)
          s.ids_below)
        (held_rows-IsBelow i a e db.next_id (db.next_id + length lines) lines (omega arith));
  holds_homed =
      All-append (IsHomed db.items) db.reserved_items (held_rows i a e db.next_id lines)
        s.holds_homed (held_rows-IsHomed i a e db.next_id lines db.items k);
}
