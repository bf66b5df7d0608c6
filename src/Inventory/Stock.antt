-- ===== src/Inventory/Stock.antt =====
-- How much of an item the tables hold: on the shelf, and in reservations of a status.
use merchant_ai_agent.Base.{ℕ, ◌+◌, Bool, List, [], ◌∷◌, ◌==◌, ◌&&◌, ◌≡◌, count_where, sum_where}
use merchant_ai_agent.Uuid.{Uuid}
use merchant_ai_agent.Inventory.{Item, ReservedItem, HoldStatus, Db, is_held, is_paid}

-- The units of an item in `items`.
unfoldable pub stock : Uuid → List Item → ℕ
unfolding sum_where
stock i = sum_where (λ (r : Item). r.id == i) (λ (r : Item). r.quantity_available)

-- The units that a reservation may take: those of the active row.
unfoldable pub on_sale : Uuid → List Item → ℕ
unfolding sum_where
on_sale i = sum_where (λ (r : Item). r.id == i && r.is_active) (λ (r : Item). r.quantity_available)

-- The units of an item that stand in `reserved_items` under a status that passes `p`.
unfoldable pub reserved_as : (HoldStatus → Bool) → Uuid → List ReservedItem → ℕ
unfolding sum_where
reserved_as p i =
    sum_where (λ (r : ReservedItem). r.item_id == i && p r.status)
      (λ (r : ReservedItem). r.reserved_qty)

-- The rows with an id.
unfoldable pub rows_of : Uuid → List Item → ℕ
unfolding count_where
rows_of i = count_where (λ (r : Item). r.id == i)

-- The primary key of `items`: no id stands twice.
abbrev pub IsKeyed : List Item → Type 0
IsKeyed [] = Unit
IsKeyed (r ∷ rs) = (rows_of r.id rs ≡ 0) × IsKeyed rs

-- Every unit of an item that the shop still has or has sold: on the shelf, held, or paid.
unfoldable pub units : Uuid → Db → ℕ
unfolding stock reserved_as
units i db =
    stock i db.items
    + reserved_as is_held i db.reserved_items
    + reserved_as is_paid i db.reserved_items
