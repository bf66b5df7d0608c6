-- ===== src/Reservation/Rollback.antt =====
-- The row-by-row loop of `rollback_expired_holds` against one bulk update of the table.
use merchant_ai_agent.Base.{
  All-select, ℕ, ◌≡◌, ◌≢◌, refl, ap, sym, ◌∙◌, Bool, true, List, [], ◌∷◌, ◌++◌, ◌==◌, ◌&&◌, arith,
  All, select, update_where, count_where, Bool-cases, inl, inr,
}
use merchant_ai_agent.Inventory.{ReservedItem, released, is_held}
use merchant_ai_agent.Reservation.Expiry.{
  Rollback, is_expired_hold, set_status, restore_stock, bump, release_row, release_rows,
}

-- The primary key of `reserved_items`.
abbrev pub IsOther : ReservedItem → ReservedItem → Type 0
IsOther r s = s.id ≢ r.id

abbrev pub IsKeyedHolds : List ReservedItem → Type 0
IsKeyedHolds [] = Unit
IsKeyedHolds (r ∷ rs) = All (IsOther r) rs × IsKeyedHolds rs

-- What releasing a row does beside its own status: the stock goes back, and the books are kept.
unfoldable pub settle_row : ReservedItem → Rollback → Rollback
unfolding restore_stock bump
settle_row row t = record {
  db = record t.db { items = restore_stock row.item_id row.reserved_qty t.db.items };
  restored_item_ids = t.restored_item_ids ++ row.item_id ∷ [];
  released_by_invoice = bump row.invoice_id t.released_by_invoice;
}

unfoldable pub settle : List ReservedItem → Rollback → Rollback
unfolding settle_row
settle [] t = t
settle (row ∷ rows) t = settle rows (settle_row row t)

abbrev pub with_rows : List ReservedItem → Rollback → Rollback
with_rows rows t = record t { db = record t.db { reserved_items = rows } }

abbrev cons_row : ReservedItem → Rollback → Rollback
cons_row r t = with_rows (r ∷ t.db.reserved_items) t

-- The `UPDATE` of one round.
abbrev is_row : ReservedItem → ReservedItem → Bool
is_row row r = r.id == row.id && is_held r.status

other-matches :
    (row : ReservedItem) (rows : List ReservedItem)
    → All (IsOther row) rows
    → count_where (is_row row) rows ≡ 0
unfolding count_where
other-matches row [] h = refl
other-matches row (r ∷ rs) h = ground (arith, other-matches row rs h.1, h.0)

other-update :
    (row : ReservedItem) (rows : List ReservedItem)
    → All (IsOther row) rows
    → update_where (is_row row) (set_status released) rows ≡ rows
unfolding update_where
other-update row [] h = refl
other-update row (r ∷ rs) h = ground (arith, other-update row rs h.1, h.0)

release_row-cons :
    (row r : ReservedItem) (t : Rollback)
    → r.id ≢ row.id
    → release_row row (cons_row r t) ≡ cons_row r (release_row row t)
unfolding release_row count_where update_where
release_row-cons row r t h = ground arith

release_rows-cons :
    (rows : List ReservedItem) (r : ReservedItem) (t : Rollback)
    → All (IsOther r) rows
    → release_rows rows (cons_row r t) ≡ cons_row r (release_rows rows t)
unfolding release_rows
release_rows-cons [] r t h = refl
release_rows-cons (row ∷ rows) r t h =
    ap (release_rows rows) (release_row-cons row r t (λ e. h.0 (sym e)))
    ∙ release_rows-cons rows r (release_row row t) h.1

-- The first row of the table, held: its round changes this row alone.
release_row-head :
    (r : ReservedItem) (rows : List ReservedItem) (t : Rollback)
    → All (IsOther r) rows
    → is_held r.status ≡ true
    → release_row r (with_rows (r ∷ rows) t)
      ≡ cons_row (set_status released r) (with_rows rows (settle_row r t))
unfolding release_row count_where update_where settle_row
release_row-head r rows t h e = ground (arith, other-update r rows h)

expired-held : (now : ℕ) (r : ReservedItem) → is_expired_hold now r ≡ true → is_held r.status ≡ true
unfolding is_expired_hold
expired-held now r h = ground arith

-- The loop of the rollback, row by row with its test and its update, leaves the tables that one
-- bulk update of the expired holds and the settlement of each leave; for unique row ids.
pub release_rows-eq-bulk :
    (now : ℕ) (rows : List ReservedItem) (t : Rollback)
    → IsKeyedHolds rows
    → release_rows (select (is_expired_hold now) rows) (with_rows rows t)
      ≡ with_rows
          (update_where (is_expired_hold now) (set_status released) rows)
          (settle (select (is_expired_hold now) rows) t)
unfolding release_rows select update_where settle set_status
release_rows-eq-bulk now [] t h = refl
release_rows-eq-bulk now (r ∷ rows) t h = elim (Bool-cases (is_expired_hold now r)) [
  | inl e ↦ rw e (
      ap (release_rows (select (is_expired_hold now) rows))
        (release_row-head r rows t h.0 (expired-held now r e))
      ∙ release_rows-cons (select (is_expired_hold now) rows) (set_status released r)
          (with_rows rows (settle_row r t)) (All-select (IsOther r) (is_expired_hold now) rows h.0)
      ∙ ap (cons_row (set_status released r)) (release_rows-eq-bulk now rows (settle_row r t) h.1))
  | inr e ↦ rw e (
      release_rows-cons (select (is_expired_hold now) rows) r (with_rows rows t)
        (All-select (IsOther r) (is_expired_hold now) rows h.0)
      ∙ ap (cons_row r) (release_rows-eq-bulk now rows t h.1))
]
