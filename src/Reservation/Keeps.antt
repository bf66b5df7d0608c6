-- ===== src/Reservation/Keeps.antt =====
-- Each of the three transactions keeps the invariant of the tables.
use merchant_ai_agent.Base.{
  ℕ, ◌≡◌, refl, sym, Bool, List, [], ◌∷◌, All, update_where, select, Bool-cases, inl, inr,
}
use merchant_ai_agent.Inventory.{Item, ReservedItem, HoldStatus, released, paid, Db}
use merchant_ai_agent.Inventory.Stock.{rows_of, IsKeyed}
use merchant_ai_agent.Reservation.{
  ReservationLineItem, UnavailableItem, reserve_lines, reserve_in_transaction,
}
use merchant_ai_agent.Reservation.Expiry.{
  Rollback, is_expired_hold, set_status, is_hold_of, rollback_in_transaction, mark_paid,
}
use merchant_ai_agent.Reservation.Fits.{
  reserve-served, reserve-refused, reserve_lines-IsKeyed, rows_of-reserve_lines,
}
use merchant_ai_agent.Reservation.Rollback.{
  IsOther, IsKeyedHolds, settle, settle_row, release_rows-eq-bulk,
}
use merchant_ai_agent.Reservation.Restock.{IsHomed, All-IsHomed, rows_of-settle, settle-IsKeyed}
use merchant_ai_agent.Reservation.Soundness.{
  IsBelow, IsSound, reserved-IsKnown, All-IsKnown, insert_held_rows-IsSound,
}

-- A change of status leaves ids and items alone.
module _ (p : ReservedItem → Bool) (status : HoldStatus) where
  status-IsOther :
      (r : ReservedItem) (rows : List ReservedItem)
      → All (IsOther r) rows
      → All (IsOther r) (update_where p (set_status status) rows)
  unfolding update_where set_status
  status-IsOther r [] h = tt
  status-IsOther r (s ∷ rows) h = elim (Bool-cases (p s)) [
    | inl e ↦ rw e (h.0, status-IsOther r rows h.1)
    | inr e ↦ rw e (h.0, status-IsOther r rows h.1)
  ]

  pub status-IsKeyedHolds :
      (rows : List ReservedItem)
      → IsKeyedHolds rows
      → IsKeyedHolds (update_where p (set_status status) rows)
  unfolding update_where set_status
  status-IsKeyedHolds [] h = tt
  status-IsKeyedHolds (r ∷ rows) h = elim (Bool-cases (p r)) [
    | inl e ↦ rw e (status-IsOther r rows h.0, status-IsKeyedHolds rows h.1)
    | inr e ↦ rw e (status-IsOther r rows h.0, status-IsKeyedHolds rows h.1)
  ]

  pub status-IsBelow :
      (n : ℕ) (rows : List ReservedItem)
      → All (IsBelow n) rows
      → All (IsBelow n) (update_where p (set_status status) rows)
  unfolding update_where set_status
  status-IsBelow n [] h = tt
  status-IsBelow n (r ∷ rows) h = elim (Bool-cases (p r)) [
    | inl e ↦ rw e (h.0, status-IsBelow n rows h.1)
    | inr e ↦ rw e (h.0, status-IsBelow n rows h.1)
  ]

  pub status-IsHomed :
      (items : List Item) (rows : List ReservedItem)
      → All (IsHomed items) rows
      → All (IsHomed items) (update_where p (set_status status) rows)
  unfolding update_where set_status
  status-IsHomed items [] h = tt
  status-IsHomed items (r ∷ rows) h = elim (Bool-cases (p r)) [
    | inl e ↦ rw e (h.0, status-IsHomed items rows h.1)
    | inr e ↦ rw e (h.0, status-IsHomed items rows h.1)
  ]

-- The tables with new rows in `items` under the same ids.
with_items-IsSound :
    (db : Db) (items : List Item)
    → IsSound db
    → IsKeyed items
    → ((j : ℕ) → rows_of j items ≡ rows_of j db.items)
    → IsSound (record db { items = items })
with_items-IsSound db items s k same = record {
  items_keyed = k;
  holds_keyed = s.holds_keyed;
  ids_below = s.ids_below;
  holds_homed = All-IsHomed db.reserved_items db.items items same s.holds_homed;
}

-- `reserve` keeps the invariant, whether it succeeds or fails.
pub reserve-IsSound :
    (i a e : ℕ) (lines : List ReservationLineItem) (db : Db)
    → IsSound db
    → IsSound (reserve_in_transaction i lines a e db).0
reserve-IsSound i a e lines db s = go (reserve_lines lines db.items).1 refl
  where
    items' : List Item
    items' = (reserve_lines lines db.items).0

    go :
        (u : List UnavailableItem)
        → (reserve_lines lines db.items).1 ≡ u
        → IsSound (reserve_in_transaction i lines a e db).0
    go [] h = rw (reserve-served i a e lines db h) (
        insert_held_rows-IsSound i a e lines (record db { items = items' })
          (with_items-IsSound db items' s (reserve_lines-IsKeyed lines db.items s.items_keyed)
            (λ j. rows_of-reserve_lines j lines db.items))
          (All-IsKnown lines items' db.items (λ j. sym (rows_of-reserve_lines j lines db.items))
            (reserved-IsKnown lines db.items s.items_keyed h)))
    go (u ∷ us) h = rw (reserve-refused i a e lines db u us h) s

next_id-settle :
    (rows : List ReservedItem) (t : Rollback) → (settle rows t).db.next_id ≡ t.db.next_id
unfolding settle
next_id-settle [] t = refl
next_id-settle (row ∷ rows) t = next_id-settle rows (settle_row row t)

-- The rollback keeps the invariant.
pub rollback-IsSound :
    (now : ℕ) (db : Db) → IsSound db → IsSound (rollback_in_transaction now db).db
unfolding rollback_in_transaction
rollback-IsSound now db s =
    let start : Rollback = record { db = db; restored_item_ids = []; released_by_invoice = [] } in
    let expired = select (is_expired_hold now) db.reserved_items in
    rw (release_rows-eq-bulk now db.reserved_items start s.holds_keyed) (record {
      items_keyed = settle-IsKeyed expired start s.items_keyed;
      holds_keyed =
          status-IsKeyedHolds (is_expired_hold now) released db.reserved_items s.holds_keyed;
      ids_below =
          rw (next_id-settle expired start) (
            status-IsBelow (is_expired_hold now) released db.next_id db.reserved_items s.ids_below);
      holds_homed =
          status-IsHomed (is_expired_hold now) released (settle expired start).db.items
            db.reserved_items
            (All-IsHomed db.reserved_items db.items (settle expired start).db.items
              (λ j. rows_of-settle j expired start) s.holds_homed);
    })

-- Payment keeps the invariant.
pub mark_paid-IsSound :
    (invoice_id : ℕ) (db : Db) → IsSound db → IsSound (mark_paid invoice_id db).0
unfolding mark_paid
mark_paid-IsSound i db s = record {
  items_keyed = s.items_keyed;
  holds_keyed = status-IsKeyedHolds (is_hold_of i) paid db.reserved_items s.holds_keyed;
  ids_below = status-IsBelow (is_hold_of i) paid db.next_id db.reserved_items s.ids_below;
  holds_homed = status-IsHomed (is_hold_of i) paid db.items db.reserved_items s.holds_homed;
}
