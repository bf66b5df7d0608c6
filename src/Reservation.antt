-- ===== src/Reservation.antt =====
-- services/reservation_service/reservation_service.py: stock is taken out of `items` when a hold is
-- placed, and put back when the hold expires. Each public method is one transaction on `Db`
-- followed by writes to Redis; the scheduler and the router call them (rollback_scheduler.py,
-- router.py). A raise inside the transaction restores the tables.
mod Lines
pub mod Expiry
pub mod Router
pub mod Decrement
pub mod Fits
pub mod Rollback
pub mod Restock
pub mod Conservation
pub mod Soundness
pub mod Keeps
pub mod History
pub mod Outcomes
mod Tests
unfoldable pub use Lines.*
use merchant_ai_agent.Base.{
  ℕ, suc, ◌+◌, ◌-◌, ◌*◌, String, Bool, true, false, Option, none, some, List, [], ◌∷◌, ◌++◌, map,
  ◌==◌, if◌then◌else◌, ◌&&◌, leb, update_where, count_where, select, find_first, length,
}
use merchant_ai_agent.Base.Int.{ℤ, pos}
use merchant_ai_agent.Base.Results.{Result, ok, err, ◌>>=◌}
use merchant_ai_agent.Uuid.{Uuid}
use merchant_ai_agent.Inventory.{
  Item, ReservedItem, HoldStatus, held, released, paid, RollbackAudit, reservation_service, Db,
  is_held, CatalogPayload, Entry, Cache, cache_set, refresh_catalog_items, items_in,
}
use merchant_ai_agent.Invoice.Schema.{Invoice}

-- `get_settings()`, as far as this service reads it.
pub record Settings : Type 0 where
  pub reservation_ttl_seconds : ℕ
  pub catalog_cache_ttl_seconds : ℕ

-- What `store_invoice` keeps: the dumped invoice, or the payload that `reserve` makes up.
pub data StoredInvoice : Type 0 where
  dumped : Invoice → StoredInvoice
  made_up : Uuid → List ReservationLineItem → StoredInvoice

pub record World : Type 0 where
  pub db : Db
  pub catalog : Cache CatalogPayload
  pub invoices : Cache StoredInvoice

-- The row that `_decrement_stock_if_available` updates.
unfoldable pub has_stock : Uuid → ℕ → Item → Bool
has_stock item_id qty item =
    item.id == item_id && (leb qty item.quantity_available && item.is_active)

unfoldable pub take_stock : ℕ → Item → Item
take_stock qty item = record item { quantity_available = item.quantity_available - qty }

-- The new rows, and whether any row matched.
unfoldable pub decrement_stock_if_available : Uuid → ℕ → List Item → List Item × Bool
unfolding has_stock take_stock
decrement_stock_if_available item_id qty items = (
  update_where (has_stock item_id qty) (take_stock qty) items,
  leb 1 (count_where (has_stock item_id qty) items),
)

unfoldable pub fetch_available_qty : Uuid → List Item → ℕ
fetch_available_qty item_id items =
    elim (find_first (λ (r : Item). r.id == item_id && r.is_active) items) [
      | some item ↦ item.quantity_available
      | none ↦ 0
    ]

pub record UnavailableItem : Type 0 where
  pub item_id : Uuid
  pub requested_qty : ℕ
  pub available_qty : ℕ

-- The loop over the lines: the rows after it, and the lines that found no stock.
unfoldable pub reserve_lines :
    List ReservationLineItem → List Item → List Item × List UnavailableItem
reserve_lines [] items = (items, [])
reserve_lines (line ∷ lines) items =
    let (items', reserved) = decrement_stock_if_available line.item_id line.qty items in
    let (final, unavailable) = reserve_lines lines items' in
    (
      final,
      if reserved
          then unavailable
          else record {
            item_id = line.item_id;
            requested_qty = line.qty;
            available_qty = fetch_available_qty line.item_id items';
          }
            ∷ unavailable,
    )

unfoldable pub held_row : Uuid → ℕ → ℕ → ℕ → ReservationLineItem → ReservedItem
held_row invoice_id reserved_at expires_at id line = record {
  id = id;
  invoice_id = invoice_id;
  item_id = line.item_id;
  reserved_qty = line.qty;
  reserved_at = reserved_at;
  expires_at = expires_at;
  status = held;
}

unfoldable pub held_rows : Uuid → ℕ → ℕ → ℕ → List ReservationLineItem → List ReservedItem
unfolding held_row
held_rows invoice_id reserved_at expires_at next [] = []
held_rows invoice_id reserved_at expires_at next (line ∷ lines) =
    held_row invoice_id reserved_at expires_at next line
    ∷ held_rows invoice_id reserved_at expires_at (next + 1) lines

unfoldable pub insert_held_rows : Uuid → List ReservationLineItem → ℕ → ℕ → Db → Db
unfolding held_rows
insert_held_rows invoice_id lines reserved_at expires_at db = record db {
  reserved_items =
      db.reserved_items ++ held_rows invoice_id reserved_at expires_at db.next_id lines;
  next_id = db.next_id + length lines;
}

-- The transaction of `reserve`: `_InsufficientStockError` rolls every decrement back.
unfoldable pub reserve_in_transaction :
    Uuid → List ReservationLineItem → ℕ → ℕ → Db → Db × List UnavailableItem
reserve_in_transaction invoice_id lines reserved_at expires_at db =
    let (items', unavailable) = reserve_lines lines db.items in
    elim unavailable [
      | [] ↦ (
        insert_held_rows invoice_id lines reserved_at expires_at (record db { items = items' }),
        [],
      )
      | u ∷ us ↦ (db, u ∷ us)
    ]

unfoldable pub refresh_catalog_cache : Settings → ℕ → List Uuid → World → World
unfolding refresh_catalog_items items_in
refresh_catalog_cache cfg now item_ids w = record w {
  catalog =
      refresh_catalog_items cfg.catalog_cache_ttl_seconds now (items_in item_ids w.db.items)
        w.catalog;
}

pub record Reply : Type 0 where
  pub success : Bool
  pub unavailable_items : List UnavailableItem
  pub reserved_at : Option ℕ
  pub expires_at : Option ℕ

-- What follows the transaction: nothing, if it was rolled back, or the writes to Redis.
unfoldable pub conclude :
    Settings
    → ℕ
    → ℕ
    → Uuid
    → List ReservationLineItem
    → StoredInvoice
    → World
    → List UnavailableItem
    → World × Reply
unfolding refresh_catalog_cache cache_set
conclude cfg now later invoice_id lines payload w (u ∷ us) = (
  w,
  record { success = false; unavailable_items = u ∷ us; reserved_at = none; expires_at = none },
)
conclude cfg now later invoice_id lines payload w [] =
    let w' =
      refresh_catalog_cache cfg later (map (λ (l : ReservationLineItem). l.item_id) lines) w in
    (
      record w' {
        invoices = cache_set invoice_id payload cfg.reservation_ttl_seconds later w'.invoices;
      },
      record {
        success = true;
        unavailable_items = [];
        reserved_at = some now;
        expires_at = some (now + cfg.reservation_ttl_seconds);
      },
    )

-- `reserve` behind its normalisation. `now` is the time that it reads, `later` the time of the
-- writes to Redis.
unfoldable pub reserve_normalized :
    Settings → ℕ → ℕ → Uuid → List ReservationLineItem → StoredInvoice → World → World × Reply
unfolding conclude
reserve_normalized cfg now later invoice_id lines payload w =
    let (db', unavailable) =
      reserve_in_transaction invoice_id lines now (now + cfg.reservation_ttl_seconds) w.db in
    conclude cfg now later invoice_id lines payload (record w { db = db' }) unavailable

default_payload : Uuid → List ReservationLineItem → Option Invoice → StoredInvoice
default_payload invoice_id lines none = made_up invoice_id lines
default_payload invoice_id lines (some invoice) = dumped invoice

-- `reserve(invoice)`.
unfoldable pub reserve_invoice : Settings → ℕ → ℕ → Invoice → World → Result Error (World × Reply)
reserve_invoice cfg now later invoice w = do
  invoice_id ← uuid_of invoice.order_id
  lines ← normalize_line_items invoice
  ok (reserve_normalized cfg now later invoice_id lines (dumped invoice) w)

-- `reserve(invoice_id=..., line_items=..., invoice_payload=...)`.
unfoldable pub reserve_payload :
    Settings
    → ℕ
    → ℕ
    → Option String
    → List LineDict
    → Option Invoice
    → World
    → Result Error (World × Reply)
unfolding default_payload
reserve_payload cfg now later none line_items payload w = err invoice_id_required
reserve_payload cfg now later (some invoice_id) [] payload w = err line_items_required
reserve_payload cfg now later (some text) (d ∷ ds) payload w = do
  invoice_id ← uuid_of text
  lines ← normalize_payload_line_items (d ∷ ds)
  ok (
      reserve_normalized cfg now later invoice_id lines (default_payload invoice_id lines payload)
        w)
