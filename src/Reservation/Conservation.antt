-- ===== src/Reservation/Conservation.antt =====
-- No operation of the reservation service makes or loses a unit of stock.
use merchant_ai_agent.Base.{
  All-select, ℕ, ◌+◌, ◌≡◌, ◌≢◌, refl, Bool, List, [], ◌∷◌, ◌++◌, arith, All, select, sum_where,
}
use merchant_ai_agent.Uuid.{Uuid}
use merchant_ai_agent.Inventory.{Item, ReservedItem, HoldStatus, Db, is_held, is_paid}
use merchant_ai_agent.Inventory.Stock.{stock, reserved_as, IsKeyed, units}
use merchant_ai_agent.Reservation.{
  ReservationLineItem, held_rows, insert_held_rows, reserve_lines, reserve_in_transaction,
}
use merchant_ai_agent.Reservation.Expiry.{
  Rollback, is_expired_hold, rollback_in_transaction, mark_paid,
}
use merchant_ai_agent.Reservation.Fits.{demand, stock-reserve_lines}
use merchant_ai_agent.Reservation.Rollback.{IsKeyedHolds, release_rows-eq-bulk}
use merchant_ai_agent.Reservation.Restock.{
  IsHomed, stock-settle, reserved_as-release, reserved_as-pay,
}

-- The new rows hold the demand, and nothing in them is paid.
reserved_as-held_rows :
    (j invoice_id reserved_at expires_at next : ℕ) (lines : List ReservationLineItem)
    → let rows = held_rows invoice_id reserved_at expires_at next lines in
      (reserved_as is_held j rows ≡ demand j lines) × (reserved_as is_paid j rows ≡ 0)
unfolding held_rows reserved_as sum_where demand
reserved_as-held_rows j i a e n [] = (refl, refl)
reserved_as-held_rows j i a e n (line ∷ lines) =
    ground (arith, reserved_as-held_rows j i a e (n + 1) lines)

reserved_as-append :
    (p : HoldStatus → Bool) (j : ℕ) (xs ys : List ReservedItem)
    → reserved_as p j (xs ++ ys) ≡ reserved_as p j xs + reserved_as p j ys
unfolding reserved_as sum_where
reserved_as-append p j [] ys = omega arith
reserved_as-append p j (x ∷ xs) ys = omega (arith, reserved_as-append p j xs ys)

units-insert_held_rows :
    (j invoice_id reserved_at expires_at : ℕ) (lines : List ReservationLineItem) (db : Db)
    → units j (insert_held_rows invoice_id lines reserved_at expires_at db)
      ≡ units j db + demand j lines
unfolding units insert_held_rows
units-insert_held_rows j i a e lines db = omega (
  arith,
  reserved_as-append is_held j db.reserved_items (held_rows i a e db.next_id lines),
  reserved_as-append is_paid j db.reserved_items (held_rows i a e db.next_id lines),
  reserved_as-held_rows j i a e db.next_id lines,
)

-- A reservation, whether it succeeds or fails, keeps the units of every item (on the shelf,
-- held and paid together); for unique item ids.
pub units-reserve :
    (j : Uuid) (invoice_id : Uuid) (lines : List ReservationLineItem) (reserved_at expires_at : ℕ)
    (db : Db)
    → IsKeyed db.items
    → units j (reserve_in_transaction invoice_id lines reserved_at expires_at db).0 ≡ units j db
unfolding reserve_in_transaction
units-reserve j i lines a e db h = ground (
  arith,
  units-insert_held_rows j i a e lines (record db { items = (reserve_lines lines db.items).0 }),
  units_of_items j db (reserve_lines lines db.items).0,
  stock-reserve_lines j lines db.items h,
)
  where
    units_of_items :
        (j : ℕ) (db : Db) (items : List Item)
        → units j (record db { items = items }) + stock j db.items ≡ units j db + stock j items
    units_of_items j db items = unfold units in omega arith

-- A failed reservation leaves the tables as they were.
pub reserve_failed :
    (invoice_id : Uuid) (lines : List ReservationLineItem) (reserved_at expires_at : ℕ) (db : Db)
    → (reserve_in_transaction invoice_id lines reserved_at expires_at db).1 ≢ []
    → (reserve_in_transaction invoice_id lines reserved_at expires_at db).0 ≡ db
unfolding reserve_in_transaction
reserve_failed i lines a e db h = ground arith

-- The rollback keeps the units of every item; for unique row ids and rows of known items.
pub units-rollback :
    (j now : ℕ) (db : Db)
    → IsKeyedHolds db.reserved_items
    → All (IsHomed db.items) db.reserved_items
    → units j (rollback_in_transaction now db).db ≡ units j db
unfolding rollback_in_transaction units
units-rollback j now db k homed =
    let start : Rollback = record { db = db; restored_item_ids = []; released_by_invoice = [] } in
    let expired = select (is_expired_hold now) db.reserved_items in
    rw (release_rows-eq-bulk now db.reserved_items start k) (
      omega (
        arith,
        stock-settle j expired start
            (All-select (IsHomed db.items) (is_expired_hold now) db.reserved_items homed),
        reserved_as-release now j db.reserved_items,
      ))

pub units-mark_paid :
    (j invoice_id : ℕ) (db : Db) → units j (mark_paid invoice_id db).0 ≡ units j db
unfolding mark_paid units
units-mark_paid j i db = omega (arith, reserved_as-pay i j db.reserved_items)
