-- ===== src/ReservationWorker/Release.antt =====
-- `commit`, `release` and `release_expired_holds` of
-- services/reservation_worker/reservation_service.py.
use merchant_ai_agent.Base.{
  ℕ, ◌+◌, ◌-◌, Bool, none, some, List, [], ◌∷◌, ◌++◌, map, ◌==◌, if◌then◌else◌, ◌&&◌, leb, ltb,
  select, update_where, length,
}
use merchant_ai_agent.Base.Results.{Result, ok, err, ◌>>=◌}
use merchant_ai_agent.Uuid.{Uuid}
use merchant_ai_agent.Inventory.{
  Item, ReservedItem, HoldStatus, released, committed, RollbackAudit, Actor, Db, is_held,
}
use merchant_ai_agent.ReservationWorker.{
  Error, item_not_found, insufficient_stock, Counters, decrement_reserved_counter, WorkerState,
  load_item,
}

-- `map[k] += n` on a `defaultdict(int)`.
unfoldable pub add_qty : Uuid → ℕ → List (Uuid × ℕ) → List (Uuid × ℕ)
add_qty k n [] = (k, n) ∷ []
add_qty k n ((j, m) ∷ totals) = if j == k then (j, m + n) ∷ totals else (j, m) ∷ add_qty k n totals

-- `item_qty_map` after the loop over the rows.
unfoldable pub item_totals : List ReservedItem → List (Uuid × ℕ) → List (Uuid × ℕ)
unfolding add_qty
item_totals [] totals = totals
item_totals (r ∷ rows) totals = item_totals rows (add_qty r.item_id r.reserved_qty totals)

unfoldable pub invoice_counts : List ReservedItem → List (Uuid × ℕ) → List (Uuid × ℕ)
unfolding add_qty
invoice_counts [] counts = counts
invoice_counts (r ∷ rows) counts = invoice_counts rows (add_qty r.invoice_id 1 counts)

unfoldable pub with_status : HoldStatus → ReservedItem → ReservedItem
with_status status r = record r { status = status }

-- `_fetch_held_rows_for_invoice`, `_fetch_expired_held_rows`
unfoldable pub holds_invoice : Uuid → ReservedItem → Bool
holds_invoice invoice_id r = r.invoice_id == invoice_id && is_held r.status

unfoldable pub holds_expired : ℕ → ReservedItem → Bool
holds_expired now r = is_held r.status && leb r.expires_at now

-- The loop of counter updates behind the transaction.
unfoldable pub decrement_all : List (Uuid × ℕ) → Counters → Counters
unfolding decrement_reserved_counter
decrement_all [] c = c
decrement_all ((i, n) ∷ totals) c = decrement_all totals (decrement_reserved_counter i n c)

unfoldable pub reduce_stock : Uuid → ℕ → List Item → List Item
reduce_stock i n =
    update_where (λ (r : Item). r.id == i)
      (λ (r : Item). record r { quantity_available = r.quantity_available - n })

-- One round of the loop over the totals in `commit`.
unfoldable pub commit_item : Uuid → ℕ → List Item → Result Error (List Item)
unfolding reduce_stock
commit_item i n items = elim (load_item i items) [
  | some item ↦
      if ltb item.quantity_available n then err insufficient_stock else ok (reduce_stock i n items)
  | none ↦ err item_not_found
]

unfoldable pub commit_items : List (Uuid × ℕ) → List Item → Result Error (List Item)
unfolding commit_item
commit_items [] items = ok items
commit_items ((i, n) ∷ totals) items = do items' ← commit_item i n items; commit_items totals items'

-- The tables where every row that passes `p` has the status.
unfoldable pub mark_rows : (ReservedItem → Bool) → HoldStatus → Db → Db
unfolding with_status
mark_rows p status db = record db {
  reserved_items = update_where p (with_status status) db.reserved_items;
}

-- `commit`. An invoice without held rows is reported as committed with 0 rows, which the general
-- case gives too; a raise leaves tables and counters alone.
unfoldable pub commit_invoice : Uuid → WorkerState → WorkerState × Result Error ℕ
unfolding holds_invoice item_totals commit_items mark_rows decrement_all
commit_invoice invoice_id w =
    let rows = select (holds_invoice invoice_id) w.db.reserved_items in
    let totals = item_totals rows [] in
    elim (commit_items totals w.db.items) [
      | err e ↦ (w, err e)
      | ok items ↦ (
        record {
          db = record (mark_rows (holds_invoice invoice_id) committed w.db) { items = items };
          counters = decrement_all totals w.counters;
        },
        ok (length rows),
      )
    ]

-- `release`
unfoldable pub release_invoice : Uuid → WorkerState → WorkerState × ℕ
unfolding holds_invoice item_totals mark_rows decrement_all
release_invoice invoice_id w =
    let rows = select (holds_invoice invoice_id) w.db.reserved_items in
    (
      record {
        db = mark_rows (holds_invoice invoice_id) released w.db;
        counters = decrement_all (item_totals rows []) w.counters;
      },
      length rows,
    )

unfoldable pub worker_audits : List (Uuid × ℕ) → List RollbackAudit
worker_audits = map (λ (e : Uuid × ℕ). record {
  session_id = e.0;
  actor = Actor.reservation_worker;
  released_rows = e.1;
})

-- `release_expired_holds`, with what it returns.
unfoldable pub release_expired_holds : ℕ → WorkerState → WorkerState × List (Uuid × ℕ)
unfolding holds_expired item_totals invoice_counts mark_rows decrement_all worker_audits
release_expired_holds now w =
    let rows = select (holds_expired now) w.db.reserved_items in
    let counts = invoice_counts rows [] in
    let db' = mark_rows (holds_expired now) released w.db in
    (
      record {
        db = record db' { audit_log = db'.audit_log ++ worker_audits counts };
        counters = decrement_all (item_totals rows []) w.counters;
      },
      counts,
    )
