-- ===== src/Reservation/Tests.antt =====
-- The reservation service on a small shop: the theorems at concrete inputs, and test runs.
use merchant_ai_agent.Base.{
  ℕ, ◌+◌, ◌≤◌, ◌≡◌, ◌↔◌, refl, true, false, none, some, List, [], ◌∷◌, select, update_where,
  count_where, arith, All,
}
use merchant_ai_agent.Base.Results.{Result, ok, err}
use merchant_ai_agent.Inventory.{Item, ReservedItem, held, released, Db, is_held, is_paid}
use merchant_ai_agent.Inventory.Stock.{stock, on_sale, reserved_as, units, rows_of}
use merchant_ai_agent.Reservation.{
  Settings, World, Reply, ReservationLineItem, Error, reserve_in_transaction, reserve_normalized,
  made_up, reserve_payload, uuid_of, normalize_payload_line_items,
}
use merchant_ai_agent.Reservation.Expiry.{
  Rollback, is_expired_hold, set_status, release_row, release_rows, rollback_in_transaction,
  rollback_expired_holds, mark_paid,
}
use merchant_ai_agent.Reservation.Router.{SubmitInvoiceRequest, submit_invoice}
use merchant_ai_agent.Reservation.Fits.{demand, reserve_succeeds_iff_fits}
use merchant_ai_agent.Reservation.Rollback.{settle, with_rows, release_rows-eq-bulk}
use merchant_ai_agent.Reservation.Soundness.{IsSound}
use merchant_ai_agent.Reservation.History.{
  Step, History, history-IsSound, history_conserves_units, never_oversold,
}
use merchant_ai_agent.Reservation.Outcomes.{
  IsShort, is_paid_of, rollback_leaves_no_expired_hold, rollback_idempotent,
  late_payment_marks_nothing, paid_in_time_stays_paid, reply_truthful,
}

abbrev rice : Item
rice = record {
  id = 1;
  name = "Rice";
  brand = "Fortune";
  weight_per_unit = "kg";
  price_paise = 9000;
  quantity_available = 5;
  expiry_date = 800;
  is_active = true;
}

abbrev milk : Item
milk = record rice {
  id = 2;
  name = "Milk";
  brand = "Amul";
  price_paise = 3000;
  quantity_available = 3;
}

abbrev old_hold : ReservedItem
old_hold = record {
  id = 7;
  invoice_id = 40;
  item_id = 2;
  reserved_qty = 2;
  reserved_at = 10;
  expires_at = 490;
  status = held;
}

abbrev shop : Db
shop = record { items = rice ∷ milk ∷ []; reserved_items = []; audit_log = []; next_id = 8 }

abbrev busy_shop : Db
busy_shop = record shop {
  reserved_items = old_hold ∷ record old_hold { id = 3; expires_at = 900 } ∷ [];
}

abbrev cfg : Settings
cfg = record { reservation_ttl_seconds = 480; catalog_cache_ttl_seconds = 600 }

abbrev opening : World
opening = record { db = shop; catalog = []; invoices = [] }

abbrev two_rices : List ReservationLineItem
two_rices = record { item_id = 1; qty = 2 } ∷ record { item_id = 1; qty = 3 } ∷ []

abbrev request : SubmitInvoiceRequest
request = record {
  invoice = none;
  invoice_id = some "00000000-0000-0000-0000-000000000028";
  line_items = record { item_id = "00000000-0000-0000-0000-000000000001"; qty = 4 } ∷ [];
}

abbrev or_opening : Result Error (World × Reply) → World × Reply
or_opening (ok r) = r
or_opening (err e) = (
  opening,
  record { success = false; unavailable_items = []; reserved_at = none; expires_at = none },
)

after_request : World × Reply
unfolding submit_invoice
after_request = or_opening (submit_invoice cfg 100 101 request opening)

after_request_lem : submit_invoice cfg 100 101 request opening ≡ ok after_request
unfolding after_request reserve_payload uuid_of normalize_payload_line_items
after_request_lem = refl

abbrev after_rollback : World
after_rollback = (rollback_expired_holds cfg 700 701 after_request.0).0

-- A request for four bags of rice is served; at 700 its hold has expired.
history : History opening after_rollback
history =
    History.followed_by
      (History.followed_by History.opening
        (Step.submission cfg 100 101 request after_request.1 after_request_lem))
      (Step.rollback cfg 700 701 refl)

shop-IsSound : IsSound shop
unfolding rows_of
shop-IsSound = record {
  items_keyed = (refl, (refl, tt));
  holds_keyed = tt;
  ids_below = tt;
  holds_homed = tt;
}

history_is_sound : IsSound after_rollback.db
history_is_sound = history-IsSound history shop-IsSound

history_conserves_units_example : units 1 after_rollback.db ≡ units 1 shop
history_conserves_units_example = history_conserves_units 1 history shop-IsSound

never_oversold_example :
    reserved_as is_held 1 after_rollback.db.reserved_items
      + reserved_as is_paid 1 after_rollback.db.reserved_items
    ≤ stock 1 shop.items
never_oversold_example = never_oversold 1 history shop-IsSound refl

reserve_succeeds_iff_fits_example :
    ((reserve_in_transaction 40 two_rices 100 580 shop).1 ≡ [])
    ↔ ((i : ℕ) → demand i two_rices ≤ on_sale i shop.items)
reserve_succeeds_iff_fits_example =
    reserve_succeeds_iff_fits 40 two_rices 100 580 shop shop-IsSound.items_keyed (omega arith)

abbrev start : Rollback
start = record { db = busy_shop; restored_item_ids = []; released_by_invoice = [] }

release_rows-eq-bulk_example :
    release_rows
      (select (is_expired_hold 500) busy_shop.reserved_items)
      (with_rows busy_shop.reserved_items start)
    ≡ with_rows
        (update_where (is_expired_hold 500) (set_status released) busy_shop.reserved_items)
        (settle (select (is_expired_hold 500) busy_shop.reserved_items) start)
release_rows-eq-bulk_example = release_rows-eq-bulk 500 busy_shop.reserved_items start (omega arith)

rollback_leaves_no_expired_hold_example :
    select (is_expired_hold 500) (rollback_in_transaction 500 busy_shop).db.reserved_items ≡ []
rollback_leaves_no_expired_hold_example =
    rollback_leaves_no_expired_hold 500 busy_shop (omega arith)

second_rollback_at_500 :
    rollback_in_transaction 500 (rollback_in_transaction 500 busy_shop).db ≡ record {
      db = (rollback_in_transaction 500 busy_shop).db;
      restored_item_ids = [];
      released_by_invoice = [];
    }
second_rollback_at_500 = rollback_idempotent 500 busy_shop (omega arith)

nothing_marked_at_900 : (mark_paid 40 (rollback_in_transaction 900 busy_shop).db).1 ≡ 0
nothing_marked_at_900 = late_payment_marks_nothing 900 40 busy_shop (omega arith) (omega arith)

paid_in_time_stays_paid_example :
    count_where
      (is_paid_of 40)
      (rollback_in_transaction 900 (mark_paid 40 busy_shop).0).db.reserved_items
    ≡ count_where (is_paid_of 40) busy_shop.reserved_items + (mark_paid 40 busy_shop).1
paid_in_time_stays_paid_example = paid_in_time_stays_paid 900 40 busy_shop (omega arith)

abbrev too_much : List ReservationLineItem
too_much = record { item_id = 2; qty = 9 } ∷ two_rices

reply_names_what_lacks :
    let reply = (reserve_normalized cfg 100 101 40 too_much (made_up 40 too_much) opening).1 in
    All IsShort reply.unavailable_items
    × ((reply.success ≡ true) ↔ (reply.unavailable_items ≡ []))
    × (reply.success ≡ true → reply.expires_at ≡ some 580)
reply_names_what_lacks =
    reply_truthful cfg 100 101 40 too_much (made_up 40 too_much) opening shop-IsSound.items_keyed
      (omega arith)

-- A rollback at 500 puts two bottles of milk back.
rollback-busy : stock 2 (rollback_in_transaction 500 busy_shop).db.items ≡ 5
unfolding rollback_in_transaction release_row stock select count_where update_where
rollback-busy = refl
