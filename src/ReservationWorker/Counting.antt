-- ===== src/ReservationWorker/Counting.antt =====
-- What the loops over lines and rows do to the counters.
use merchant_ai_agent.Base.{
  ℕ, zero, suc, ◌+◌, ◌-◌, ◌≤◌, ◌≡◌, refl, Bool, true, false, Option, none, some, List, [], ◌∷◌,
  ◌++◌, ◌==◌, if◌then◌else◌, arith, select, sum_where, update_where,
}
use merchant_ai_agent.Uuid.{Uuid}
use merchant_ai_agent.Inventory.{ReservedItem, HoldStatus, is_held}
use merchant_ai_agent.Inventory.Stock.{reserved_as}
use merchant_ai_agent.ReservationWorker.{
  WorkerLine, Counters, incr_counter, decrement_reserved_counter, Increments, increment_all,
  undo_increments, hold_rows,
}
use merchant_ai_agent.ReservationWorker.Release.{
  add_qty, item_totals, decrement_all, with_status, holds_invoice, holds_expired,
}

-- The units of an item that the lines ask for together.
unfoldable pub line_demand : Uuid → List WorkerLine → ℕ
line_demand i [] = 0
line_demand i (line ∷ lines) = (if line.item_id == i then line.qty else 0) + line_demand i lines

unfoldable pub total_of : Uuid → List (Uuid × ℕ) → ℕ
total_of i [] = 0
total_of i ((j, n) ∷ totals) = (if j == i then n else 0) + total_of i totals

pub line_demand-append :
    (j : Uuid) (xs ys : List WorkerLine)
    → line_demand j (xs ++ ys) ≡ line_demand j xs + line_demand j ys
unfolding line_demand
line_demand-append j [] ys = omega arith
line_demand-append j (x ∷ xs) ys = omega (arith, line_demand-append j xs ys)

-- Each counter has grown by what was counted, whether or not the loop got through.
pub counters-increment_all :
    (j : Uuid) (refused : Option ℕ) (lines : List WorkerLine) (t : Increments)
    → let t' = increment_all refused lines t in
      t'.counters j + line_demand j t.incremented ≡ t.counters j + line_demand j t'.incremented
unfolding increment_all line_demand
counters-increment_all j none [] t = refl
counters-increment_all j (some n) [] t = refl
counters-increment_all j (some zero) (l ∷ ls) t = refl
counters-increment_all j (some (suc n)) (l ∷ ls) t = ground (
  arith,
  counters-increment_all j (some n) ls (record t {
    counters = incr_counter l.item_id l.qty t.counters;
    incremented = t.incremented ++ l ∷ [];
  }),
  line_demand-append j t.incremented (l ∷ []),
)
counters-increment_all j none (l ∷ ls) t = ground (
  arith,
  counters-increment_all j none ls (record t {
    counters = incr_counter l.item_id l.qty t.counters;
    incremented = t.incremented ++ l ∷ [];
  }),
  line_demand-append j t.incremented (l ∷ []),
)

-- A loop that got through has counted every line.
pub incremented-increment_all :
    (j : Uuid) (refused : Option ℕ) (lines : List WorkerLine) (t : Increments)
    → (increment_all refused lines t).done ≡ true
    → line_demand j (increment_all refused lines t).incremented
      ≡ line_demand j t.incremented + line_demand j lines
unfolding increment_all line_demand
incremented-increment_all j none [] t h = omega arith
incremented-increment_all j (some n) [] t h = omega arith
incremented-increment_all j (some zero) (l ∷ ls) t h = cc
incremented-increment_all j (some (suc n)) (l ∷ ls) t h = ground (
  arith,
  incremented-increment_all j (some n) ls (record t {
    counters = incr_counter l.item_id l.qty t.counters;
    incremented = t.incremented ++ l ∷ [];
  }),
  line_demand-append j t.incremented (l ∷ []),
)
incremented-increment_all j none (l ∷ ls) t h = ground (
  arith,
  incremented-increment_all j none ls (record t {
    counters = incr_counter l.item_id l.qty t.counters;
    incremented = t.incremented ++ l ∷ [];
  }),
  line_demand-append j t.incremented (l ∷ []),
)

pub counters-undo :
    (j : Uuid) (lines : List WorkerLine) (c : Counters)
    → undo_increments none lines c j ≡ c j - line_demand j lines
unfolding undo_increments line_demand
counters-undo j [] c = omega arith
counters-undo j (l ∷ ls) c =
    ground (arith, counters-undo j ls (decrement_reserved_counter l.item_id l.qty c))

-- Whichever decrement is refused, at most the lines are taken off.
pub counters-undo-le :
    (j : Uuid) (refused : Option ℕ) (lines : List WorkerLine) (c : Counters)
    → c j - line_demand j lines ≤ undo_increments refused lines c j
unfolding undo_increments line_demand
counters-undo-le j none [] c = omega arith
counters-undo-le j (some n) [] c = omega arith
counters-undo-le j (some zero) (l ∷ ls) c = omega arith
counters-undo-le j (some (suc n)) (l ∷ ls) c =
    ground (arith, counters-undo-le j (some n) ls (decrement_reserved_counter l.item_id l.qty c))
counters-undo-le j none (l ∷ ls) c =
    ground (arith, counters-undo-le j none ls (decrement_reserved_counter l.item_id l.qty c))

pub counters-decrement_all :
    (j : Uuid) (totals : List (Uuid × ℕ)) (c : Counters)
    → decrement_all totals c j ≡ c j - total_of j totals
unfolding decrement_all total_of
counters-decrement_all j [] c = omega arith
counters-decrement_all j ((i, n) ∷ totals) c =
    ground (arith, counters-decrement_all j totals (decrement_reserved_counter i n c))

total_of-add_qty :
    (j i n : ℕ) (totals : List (Uuid × ℕ))
    → total_of j (add_qty i n totals) ≡ total_of j totals + (if i == j then n else 0)
unfolding add_qty total_of
total_of-add_qty j i n [] = omega arith
total_of-add_qty j i n ((k, m) ∷ totals) = ground (arith, total_of-add_qty j i n totals)

abbrev pub is_of : ℕ → ReservedItem → Bool
is_of j r = r.item_id == j

abbrev pub units_of : ReservedItem → ℕ
units_of r = r.reserved_qty

pub total_of-item_totals :
    (j : Uuid) (rows : List ReservedItem) (totals : List (Uuid × ℕ))
    → total_of j (item_totals rows totals) ≡ total_of j totals + sum_where (is_of j) units_of rows
unfolding item_totals sum_where
total_of-item_totals j [] totals = omega arith
total_of-item_totals j (r ∷ rows) totals = omega (
  arith,
  total_of-item_totals j rows (add_qty r.item_id r.reserved_qty totals),
  total_of-add_qty j r.item_id r.reserved_qty totals,
)

-- The totals of the rows, from an empty map.
pub total_of-rows :
    (j : Uuid) (rows : List ReservedItem)
    → total_of j (item_totals rows []) ≡ sum_where (is_of j) units_of rows
unfolding total_of
total_of-rows j rows = omega (arith, total_of-item_totals j rows [])

pub held-hold_rows :
    (j i now e n : ℕ) (lines : List WorkerLine)
    → reserved_as is_held j (hold_rows i now e n lines) ≡ line_demand j lines
unfolding hold_rows reserved_as sum_where line_demand
held-hold_rows j i now e n [] = refl
held-hold_rows j i now e n (l ∷ ls) = ground (arith, held-hold_rows j i now e (n + 1) ls)

pub held-append :
    (j : ℕ) (xs ys : List ReservedItem)
    → reserved_as is_held j (xs ++ ys) ≡ reserved_as is_held j xs + reserved_as is_held j ys
unfolding reserved_as sum_where
held-append j [] ys = omega arith
held-append j (x ∷ xs) ys = omega (arith, held-append j xs ys)

-- Rows that leave the status HELD take their units out of the held ones.
module _ (status : HoldStatus) (left : is_held status ≡ false) where
  pub held-mark_invoice :
      (j i : ℕ) (rows : List ReservedItem)
      → reserved_as is_held j (update_where (holds_invoice i) (with_status status) rows)
          + sum_where (is_of j) units_of (select (holds_invoice i) rows)
        ≡ reserved_as is_held j rows
  unfolding reserved_as sum_where select update_where holds_invoice with_status
  held-mark_invoice j i [] = refl
  held-mark_invoice j i (r ∷ rows) = ground (arith, held-mark_invoice j i rows)

  pub held-mark_expired :
      (j now : ℕ) (rows : List ReservedItem)
      → reserved_as is_held j (update_where (holds_expired now) (with_status status) rows)
          + sum_where (is_of j) units_of (select (holds_expired now) rows)
        ≡ reserved_as is_held j rows
  unfolding reserved_as sum_where select update_where holds_expired with_status
  held-mark_expired j now [] = refl
  held-mark_expired j now (r ∷ rows) = ground (arith, held-mark_expired j now rows)
