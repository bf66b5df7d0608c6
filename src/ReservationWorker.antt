-- ===== src/ReservationWorker.antt =====
-- services/reservation_worker/reservation_service.py: stock stays in `items` while it is held, and
-- a Redis counter for each item says how much of it is held. `true_available` is the difference.
-- The transactions on `Db` are as in the reservation service; a raise restores the tables.
mod Lines
pub mod Release
pub mod Counting
pub mod Balance
pub mod Availability
mod Tests
unfoldable pub use Lines.*
use merchant_ai_agent.Base.{
  ℕ, zero, suc, ◌+◌, ◌-◌, Bool, true, false, Option, none, some, List, [], ◌∷◌, ◌++◌, ◌==◌,
  if◌then◌else◌, ◌&&◌, leb, ltb, find_first, update_where, length,
}
use merchant_ai_agent.Base.Int.{ℤ, sub_ℕ}
use merchant_ai_agent.Base.Results.{Result, ok, err, ◌>>=◌, ◌>>◌}
use merchant_ai_agent.Uuid.{Uuid}
use merchant_ai_agent.Inventory.{Item, ReservedItem, held, Db}

-- The counters `reserved:item:{id}`. A key that is missing reads as 0, as does one that holds 0. No
-- writer stores a negative number.
abbrev pub Counters : Type 0
Counters = Uuid → ℕ

abbrev pub set_counter : Uuid → ℕ → Counters → Counters
set_counter i v c j = if i == j then v else c j

-- `redis.incrby`
unfoldable pub incr_counter : Uuid → ℕ → Counters → Counters
incr_counter i qty c = set_counter i (c i + qty) c

-- `_decrement_reserved_counter`: the key is deleted where `decrby` leaves nothing.
unfoldable pub decrement_reserved_counter : Uuid → ℕ → Counters → Counters
decrement_reserved_counter i qty c =
    if leb (c i) qty then set_counter i 0 c else set_counter i (c i - qty) c

pub record WorkerState : Type 0 where
  pub db : Db
  pub counters : Counters

-- `_load_item_for_update`
unfoldable pub load_item : Uuid → List Item → Option Item
load_item i = find_first (λ (r : Item). r.id == i && r.is_active)

-- `true_available`: of a row, active or not.
unfoldable pub true_available : Uuid → WorkerState → Result Error ℤ
true_available i w = elim (find_first (λ (r : Item). r.id == i) w.db.items) [
  | some item ↦ ok (sub_ℕ item.quantity_available (w.counters i))
  | none ↦ err item_not_found
]

-- The check of one line in `reserve`. `available - reserved < qty` over the integers.
unfoldable pub check_line : WorkerLine → WorkerState → Result Error (Unit {0})
unfolding load_item
check_line line w = elim (load_item line.item_id w.db.items) [
  | some item ↦
      if ltb item.quantity_available (w.counters line.item_id + line.qty)
      then err insufficient_stock
      else ok tt
  | none ↦ err item_not_found
]

unfoldable pub check_lines : List WorkerLine → WorkerState → Result Error (Unit {0})
unfolding check_line
check_lines [] w = ok tt
check_lines (line ∷ lines) w = do check_line line w; check_lines lines w

unfoldable pub hold_rows : Uuid → ℕ → ℕ → ℕ → List WorkerLine → List ReservedItem
hold_rows invoice_id now expires_at next [] = []
hold_rows invoice_id now expires_at next (line ∷ lines) =
    record {
      id = next;
      invoice_id = invoice_id;
      item_id = line.item_id;
      reserved_qty = line.qty;
      reserved_at = now;
      expires_at = expires_at;
      status = held;
    }
    ∷ hold_rows invoice_id now expires_at (next + 1) lines

-- How Redis answers the calls of `incrby`, in order, and whether the commit goes through: what the
-- environment may refuse.
pub record Faults : Type 0 where
  pub refused_increment : Option ℕ
  pub commit_refused : Bool

-- The loop of increments: the counters, the lines that were counted, and whether it got through.
pub record Increments : Type 0 where
  pub counters : Counters
  pub incremented : List WorkerLine
  pub done : Bool

unfoldable pub increment_all : Option ℕ → List WorkerLine → Increments → Increments
unfolding incr_counter
increment_all refused [] t = t
increment_all (some zero) (line ∷ lines) t = record t { done = false }
increment_all (some (suc n)) (line ∷ lines) t = increment_all (some n) lines (record t {
  counters = incr_counter line.item_id line.qty t.counters;
  incremented = t.incremented ++ line ∷ [];
})
increment_all none (line ∷ lines) t = increment_all none lines (record t {
  counters = incr_counter line.item_id line.qty t.counters;
  incremented = t.incremented ++ line ∷ [];
})

-- The `except` branch of `reserve`, in which Redis may refuse a decrement too: that raises, and the
-- increments behind it stay.
unfoldable pub undo_increments : Option ℕ → List WorkerLine → Counters → Counters
unfolding decrement_reserved_counter
undo_increments refused [] c = c
undo_increments (some zero) (line ∷ lines) c = c
undo_increments (some (suc n)) (line ∷ lines) c =
    undo_increments (some n) lines (decrement_reserved_counter line.item_id line.qty c)
undo_increments none (line ∷ lines) c =
    undo_increments none lines (decrement_reserved_counter line.item_id line.qty c)

-- The tables after the rows of a reservation were added.
unfoldable pub add_holds : Uuid → ℕ → ℕ → List WorkerLine → Db → Db
unfolding hold_rows
add_holds invoice_id now expires_at lines db = record db {
  reserved_items = db.reserved_items ++ hold_rows invoice_id now expires_at db.next_id lines;
  next_id = db.next_id + length lines;
}

-- The end of `reserve`, by whether increments and commit went through.
unfoldable pub settle_reserve :
    Option ℕ → Bool → Db → Increments → WorkerState → WorkerState × Result Error ℕ
unfolding undo_increments
settle_reserve refused true db' t w =
    (record { db = db'; counters = t.counters }, ok (length t.incremented))
settle_reserve refused false db' t w = (
  record { db = w.db; counters = undo_increments refused t.incremented t.counters },
  err upstream,
)

-- `reserve` behind its normalisation, with the decrement that Redis refuses in the `except` branch, if
-- any. What it returns is the number of lines that it holds.
unfoldable pub reserve_under :
    Option ℕ → Faults → ℕ → ℕ → Uuid → List WorkerLine → WorkerState → WorkerState × Result Error ℕ
unfolding check_lines increment_all add_holds settle_reserve
reserve_under refused_decrement faults now ttl invoice_id lines w = elim (check_lines lines w) [
  | err e ↦ (w, err e)
  | ok _ ↦
      let t =
        increment_all faults.refused_increment lines
          (record { counters = w.counters; incremented = []; done = true }) in
      settle_reserve refused_decrement (t.done && (if faults.commit_refused then false else true))
        (add_holds invoice_id now (now + ttl) lines w.db) t w
]

-- The same where no decrement is refused.
unfoldable pub reserve_holds :
    Faults → ℕ → ℕ → Uuid → List WorkerLine → WorkerState → WorkerState × Result Error ℕ
unfolding reserve_under
reserve_holds = reserve_under none
