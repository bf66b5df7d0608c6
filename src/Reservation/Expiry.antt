-- ===== src/Reservation/Expiry.antt =====
-- `rollback_expired_holds` and `mark_reserved_paid` of
-- services/reservation_service/reservation_service.py.
use merchant_ai_agent.Base.{
  ℕ, ◌+◌, String, Bool, List, [], ◌∷◌, ◌++◌, map, ◌==◌, if◌then◌else◌, ◌&&◌, leb, update_where,
  count_where, select,
}
use merchant_ai_agent.Base.Results.{Result, ok, ◌>>=◌}
use merchant_ai_agent.Uuid.{Uuid}
use merchant_ai_agent.Inventory.{
  Item, ReservedItem, HoldStatus, released, paid, RollbackAudit, Actor, Db, is_held,
}
use merchant_ai_agent.Reservation.{Settings, World, refresh_catalog_cache, Error, uuid_of}

-- The `SELECT` of the rows whose hold has run out.
unfoldable pub is_expired_hold : ℕ → ReservedItem → Bool
is_expired_hold now r = is_held r.status && leb r.expires_at now

unfoldable pub set_status : HoldStatus → ReservedItem → ReservedItem
set_status status r = record r { status = status }

unfoldable pub restore_stock : Uuid → ℕ → List Item → List Item
restore_stock item_id qty =
    update_where (λ (r : Item). r.id == item_id)
      (λ (r : Item). record r { quantity_available = r.quantity_available + qty })

-- `counts[k] += 1` on a `defaultdict(int)`, in insertion order.
unfoldable pub bump : Uuid → List (Uuid × ℕ) → List (Uuid × ℕ)
bump k [] = (k, 1) ∷ []
bump k ((j, n) ∷ counts) = if j == k then (j, n + 1) ∷ counts else (j, n) ∷ bump k counts

-- The variables of the loop.
pub record Rollback : Type 0 where
  pub db : Db
  pub restored_item_ids : List Uuid
  pub released_by_invoice : List (Uuid × ℕ)

-- One round: the row is released if it is still held, and only then is its stock put back.
unfoldable pub release_row : ReservedItem → Rollback → Rollback
unfolding set_status restore_stock bump
release_row row t =
    if leb 1
      (count_where (λ (r : ReservedItem). r.id == row.id && is_held r.status) t.db.reserved_items)
    then record {
      db = record t.db {
        reserved_items =
            update_where (λ (r : ReservedItem). r.id == row.id && is_held r.status)
              (set_status released) t.db.reserved_items;
        items = restore_stock row.item_id row.reserved_qty t.db.items;
      };
      restored_item_ids = t.restored_item_ids ++ row.item_id ∷ [];
      released_by_invoice = bump row.invoice_id t.released_by_invoice;
    }
    else t

unfoldable pub release_rows : List ReservedItem → Rollback → Rollback
release_rows [] t = t
release_rows (row ∷ rows) t = release_rows rows (release_row row t)

unfoldable pub rollback_audits : List (Uuid × ℕ) → List RollbackAudit
rollback_audits = map (λ (e : Uuid × ℕ). record {
  session_id = e.0;
  actor = Actor.reservation_service;
  released_rows = e.1;
})

-- The transaction of `rollback_expired_holds`.
unfoldable pub rollback_in_transaction : ℕ → Db → Rollback
unfolding is_expired_hold release_rows rollback_audits
rollback_in_transaction now db =
    let t =
      release_rows (select (is_expired_hold now) db.reserved_items)
        (record { db = db; restored_item_ids = []; released_by_invoice = [] }) in
    record t {
      db = record t.db { audit_log = t.db.audit_log ++ rollback_audits t.released_by_invoice };
    }

insert_sorted : Uuid → List Uuid → List Uuid
insert_sorted x [] = x ∷ []
insert_sorted x (y ∷ ys) = if leb x y then x ∷ y ∷ ys else y ∷ insert_sorted x ys

unfoldable pub sorted : List Uuid → List Uuid
unfolding insert_sorted
sorted [] = []
sorted (x ∷ xs) = insert_sorted x (sorted xs)

unfoldable pub rollback_expired_holds : Settings → ℕ → ℕ → World → World × List Uuid
unfolding sorted
rollback_expired_holds cfg now later w =
    let t = rollback_in_transaction now w.db in
    let w' : World = record w { db = t.db } in
    (
      elim t.restored_item_ids [ [] ↦ w' | i ∷ is ↦ refresh_catalog_cache cfg later (i ∷ is) w' ],
      sorted (map (λ (e : Uuid × ℕ). e.0) t.released_by_invoice),
    )

unfoldable pub is_hold_of : Uuid → ReservedItem → Bool
is_hold_of invoice_id r = r.invoice_id == invoice_id && is_held r.status

-- The `UPDATE` of `mark_reserved_paid`, and its row count.
unfoldable pub mark_paid : Uuid → Db → Db × ℕ
unfolding is_hold_of set_status
mark_paid invoice_id db = (
  record db {
    reserved_items = update_where (is_hold_of invoice_id) (set_status paid) db.reserved_items;
  },
  count_where (is_hold_of invoice_id) db.reserved_items,
)

unfoldable pub mark_reserved_paid : String → World → Result Error (World × ℕ)
mark_reserved_paid text w = do
  invoice_id ← uuid_of text
  let r = mark_paid invoice_id w.db
  ok (record w { db = r.0 }, r.1)
