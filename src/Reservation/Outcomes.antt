-- ===== src/Reservation/Outcomes.antt =====
-- What a rollback leaves, what it reports, and what the reply of a reservation says.
use merchant_ai_agent.Base.{
  ℕ, ◌+◌, ◌≤◌, ◌<◌, ◌≡◌, ◌↔◌, refl, ap, Bool, true, some, List, [], ◌∷◌, append-nil, ◌&&◌, ◌==◌,
  arith, All, update_where, select, count_where, find_first, Bool-cases, inl, inr,
}
use merchant_ai_agent.Uuid.{Uuid}
use merchant_ai_agent.Inventory.{Item, ReservedItem, released, paid, Db, is_paid}
use merchant_ai_agent.Inventory.Stock.{on_sale, rows_of, IsKeyed}
use merchant_ai_agent.Reservation.{
  ReservationLineItem, Reply, Settings, StoredInvoice, World, UnavailableItem, reserve_lines,
  reserve_in_transaction, reserve_normalized, conclude, fetch_available_qty,
  decrement_stock_if_available,
}
use merchant_ai_agent.Reservation.Expiry.{
  Rollback, is_expired_hold, set_status, is_hold_of, rollback_in_transaction, rollback_audits,
  mark_paid, release_rows,
}
use merchant_ai_agent.Reservation.Decrement.{
  absent-on_sale, decrement-succeeds, decrement-failed, decrement-IsKeyed,
}
use merchant_ai_agent.Reservation.Fits.{IsPositive, unavailable-reserve}
use merchant_ai_agent.Reservation.Keeps.{status-IsKeyedHolds}
use merchant_ai_agent.Reservation.Rollback.{IsKeyedHolds, release_rows-eq-bulk}

-- The rows after a rollback are those of the bulk update.
pub rows-rollback :
    (now : ℕ) (db : Db)
    → IsKeyedHolds db.reserved_items
    → (rollback_in_transaction now db).db.reserved_items
      ≡ update_where (is_expired_hold now) (set_status released) db.reserved_items
unfolding rollback_in_transaction
rows-rollback now db k =
    ap (λ (t : Rollback). t.db.reserved_items)
      (release_rows-eq-bulk now db.reserved_items
        (record { db = db; restored_item_ids = []; released_by_invoice = [] }) k)

select-released :
    (now : ℕ) (rows : List ReservedItem)
    → select (is_expired_hold now) (update_where (is_expired_hold now) (set_status released) rows)
      ≡ []
unfolding select update_where is_expired_hold set_status
select-released now [] = refl
select-released now (r ∷ rows) = ground (arith, select-released now rows)

-- A rollback leaves no hold that had expired when it began; for unique row ids.
pub rollback_leaves_no_expired_hold :
    (now : ℕ) (db : Db)
    → IsKeyedHolds db.reserved_items
    → select (is_expired_hold now) (rollback_in_transaction now db).db.reserved_items ≡ []
rollback_leaves_no_expired_hold now db k =
    rw (rows-rollback now db k) (select-released now db.reserved_items)

-- With nothing to release, a rollback changes no table and releases no row.
rollback_idle :
    (now : ℕ) (db : Db)
    → select (is_expired_hold now) db.reserved_items ≡ []
    → rollback_in_transaction now db
      ≡ record { db = db; restored_item_ids = []; released_by_invoice = [] }
unfolding rollback_in_transaction release_rows rollback_audits
rollback_idle now db e = rw e (λ i. record {
  db = record db { audit_log = append-nil db.audit_log i };
  restored_item_ids = [];
  released_by_invoice = [];
})

-- A second rollback at the same time changes nothing and reports no invoice.
pub rollback_idempotent :
    (now : ℕ) (db : Db)
    → IsKeyedHolds db.reserved_items
    → rollback_in_transaction now (rollback_in_transaction now db).db ≡ record {
      db = (rollback_in_transaction now db).db;
      restored_item_ids = [];
      released_by_invoice = [];
    }
rollback_idempotent now db k =
    rollback_idle now (rollback_in_transaction now db).db (rollback_leaves_no_expired_hold now db k)

paid-update :
    (now i : ℕ) (rows : List ReservedItem)
    → All (λ (r : ReservedItem). r.invoice_id ≡ i → r.expires_at ≤ now) rows
    → count_where (is_hold_of i) (update_where (is_expired_hold now) (set_status released) rows) ≡ 0
unfolding count_where update_where is_expired_hold is_hold_of set_status
paid-update now i [] h = refl
paid-update now i (r ∷ rows) h = ground (arith, paid-update now i rows h.1, h.0)

-- A payment that is reported after a rollback has met the expired holds of its invoice marks no
-- row: the stock is back on the shelf, and nothing records the sale. For unique row ids.
pub late_payment_marks_nothing :
    (now i : ℕ) (db : Db)
    → IsKeyedHolds db.reserved_items
    → All (λ (r : ReservedItem). r.invoice_id ≡ i → r.expires_at ≤ now) db.reserved_items
    → (mark_paid i (rollback_in_transaction now db).db).1 ≡ 0
unfolding mark_paid
late_payment_marks_nothing now i db k h =
    rw (rows-rollback now db k) (paid-update now i db.reserved_items h)

unfoldable pub is_paid_of : Uuid → ReservedItem → Bool
is_paid_of i r = r.invoice_id == i && is_paid r.status

paid_in_time_rows :
    (now i : ℕ) (rows : List ReservedItem)
    → count_where (is_paid_of i) (
        update_where
          (is_expired_hold now)
          (set_status released)
          (update_where (is_hold_of i) (set_status paid) rows))
      ≡ count_where (is_paid_of i) rows + count_where (is_hold_of i) rows
unfolding count_where update_where is_expired_hold is_hold_of is_paid_of set_status
paid_in_time_rows now i [] = refl
paid_in_time_rows now i (r ∷ rows) = ground (arith, paid_in_time_rows now i rows)

-- A payment that arrives while rows of its invoice are held turns them into sales that no later
-- rollback undoes: after the rollback, the paid rows of the invoice are those it had and those
-- that the payment reported. For unique row ids.
pub paid_in_time_stays_paid :
    (now i : ℕ) (db : Db)
    → IsKeyedHolds db.reserved_items
    → count_where (is_paid_of i) (rollback_in_transaction now (mark_paid i db).0).db.reserved_items
      ≡ count_where (is_paid_of i) db.reserved_items + (mark_paid i db).1
unfolding mark_paid
paid_in_time_stays_paid now i db k =
    rw
      (rows-rollback now (mark_paid i db).0
        (status-IsKeyedHolds (is_hold_of i) paid db.reserved_items k))
      (paid_in_time_rows now i db.reserved_items)

-- Why a line was refused: less is on sale than it asks for.
abbrev pub IsShort : UnavailableItem → Type 0
IsShort u = u.available_qty < u.requested_qty

absent-fetch :
    (i : Uuid) (items : List Item) → rows_of i items ≡ 0 → fetch_available_qty i items ≡ 0
unfolding fetch_available_qty find_first rows_of
absent-fetch i [] h = refl
absent-fetch i (r ∷ rs) h = ground (arith, absent-fetch i rs)

fetch-on_sale :
    (i : Uuid) (items : List Item) → IsKeyed items → fetch_available_qty i items ≡ on_sale i items
unfolding fetch_available_qty find_first on_sale rows_of
fetch-on_sale i [] h = refl
fetch-on_sale i (r ∷ rs) h = ground (arith, fetch-on_sale i rs h.1, absent-on_sale i 0 rs)

refused-IsShort :
    (lines : List ReservationLineItem) (items : List Item)
    → IsKeyed items
    → All IsPositive lines
    → All IsShort (reserve_lines lines items).1
unfolding reserve_lines
refused-IsShort [] items k p = tt
refused-IsShort (line ∷ lines) items k p =
    let items' = (decrement_stock_if_available line.item_id line.qty items).0 in
    let rest = refused-IsShort lines items' (decrement-IsKeyed line.item_id line.qty items k) p.1 in
    elim (Bool-cases (decrement_stock_if_available line.item_id line.qty items).1) [
      | inl done ↦ rw done rest
      | inr failed ↦ rw failed (
        ground (
          arith,
          failed,
          decrement-failed line.item_id line.qty items failed,
          fetch-on_sale line.item_id items k,
          decrement-succeeds line.item_id line.qty items k p.0,
        ),
        rest,
      )
    ]

-- What a reply says of the items that it was given as unavailable.
IsTruthful : ℕ → ℕ → Reply → Type 0
IsTruthful now ttl reply =
    All IsShort reply.unavailable_items
    × ((reply.success ≡ true) ↔ (reply.unavailable_items ≡ []))
    × (reply.success ≡ true → reply.expires_at ≡ some (now + ttl))

conclude-IsTruthful :
    (cfg : Settings) (now later : ℕ) (i : Uuid) (lines : List ReservationLineItem)
    (payload : StoredInvoice) (w : World) (us : List UnavailableItem)
    → All IsShort us
    → IsTruthful now cfg.reservation_ttl_seconds (conclude cfg now later i lines payload w us).1
unfolding conclude IsTruthful
conclude-IsTruthful cfg now later i lines payload w [] h = (tt, (λ _. refl, λ _. refl), λ _. refl)
conclude-IsTruthful cfg now later i lines payload w (u ∷ us) h = (h, (λ e. cc, λ e. cc), λ e. cc)

-- The reply of a reservation tells the truth, for unique item ids and lines of positive
-- quantity: every item that it names as unavailable has less on sale than was asked for; it
-- reports success exactly if it names none; and then the hold ends a time-to-live after it began.
pub reply_truthful :
    (cfg : Settings) (now later : ℕ) (i : Uuid) (lines : List ReservationLineItem)
    (payload : StoredInvoice) (w : World)
    → IsKeyed w.db.items
    → All IsPositive lines
    → let reply = (reserve_normalized cfg now later i lines payload w).1 in
      All IsShort reply.unavailable_items
      × ((reply.success ≡ true) ↔ (reply.unavailable_items ≡ []))
      × (reply.success ≡ true → reply.expires_at ≡ some (now + cfg.reservation_ttl_seconds))
unfolding reserve_normalized IsTruthful
reply_truthful cfg now later i lines payload w k p =
    let r = reserve_in_transaction i lines now (now + cfg.reservation_ttl_seconds) w.db in
    conclude-IsTruthful cfg now later i lines payload (record w { db = r.0 }) r.1
      (rw unavailable-reserve (refused-IsShort lines w.db.items k p))
