-- ===== src/ReservationWorker/Availability.antt =====
-- True availability: a commit leaves it as it was, and a reservation of distinct items never
-- promises more than there is. Lines that repeat an item are checked one by one.
use merchant_ai_agent.Base.{
  ℕ, ◌+◌, ◌≤◌, ◌<◌, ◌≡◌, refl, true, false, Option, none, some, List, [], ◌∷◌, ◌==◌, if◌then◌else◌,
  arith, select, find_first, update_where,
}
use merchant_ai_agent.Base.Results.{Result, ok, err, bind-returned}
use merchant_ai_agent.Uuid.{Uuid}
use merchant_ai_agent.Inventory.{Item, committed}
use merchant_ai_agent.Inventory.Stock.{stock, rows_of, IsKeyed}
use merchant_ai_agent.ReservationWorker.{
  Error, WorkerLine, WorkerState, Faults, Increments, load_item, check_line, check_lines,
  increment_all, add_holds, settle_reserve, reserve_holds, incr_counter,
}
use merchant_ai_agent.ReservationWorker.Release.{
  holds_invoice, item_totals, reduce_stock, commit_item, commit_items, mark_rows, commit_invoice,
}
use merchant_ai_agent.ReservationWorker.Counting.{
  line_demand, total_of, counters-decrement_all, total_of-rows, held-mark_invoice,
  counters-increment_all, incremented-increment_all,
}
use merchant_ai_agent.ReservationWorker.Balance.{IsBalanced}

absent-load : (i : Uuid) (items : List Item) → rows_of i items ≡ 0 → load_item i items ≡ none
unfolding load_item find_first rows_of
absent-load i [] h = refl
absent-load i (r ∷ rs) h = ground (arith, absent-load i rs)

absent-stock : (i : Uuid) (items : List Item) → rows_of i items ≡ 0 → stock i items ≡ 0
unfolding stock rows_of
absent-stock i [] h = refl
absent-stock i (r ∷ rs) h = ground (arith, absent-stock i rs)

absent-reduce : (i n : ℕ) (items : List Item) → rows_of i items ≡ 0 → reduce_stock i n items ≡ items
unfolding reduce_stock update_where rows_of
absent-reduce i n [] h = refl
absent-reduce i n (r ∷ rs) h = ground (arith, absent-reduce i n rs)

-- The row that is loaded holds the whole stock of its item.
loaded-stock :
    (i : Uuid) (items : List Item) (item : Item)
    → IsKeyed items
    → load_item i items ≡ some item
    → stock i items ≡ item.quantity_available
unfolding load_item find_first stock rows_of
loaded-stock i [] item k e = cc
loaded-stock i (r ∷ rs) item k e =
    ground (arith, loaded-stock i rs item k.1, absent-load i rs, absent-stock i rs)

rows_of-reduce :
    (i n j : ℕ) (items : List Item) → rows_of j (reduce_stock i n items) ≡ rows_of j items
unfolding reduce_stock update_where rows_of
rows_of-reduce i n j [] = refl
rows_of-reduce i n j (r ∷ rs) = ground (arith, rows_of-reduce i n j rs)

reduce-IsKeyed : (i n : ℕ) (items : List Item) → IsKeyed items → IsKeyed (reduce_stock i n items)
unfolding reduce_stock update_where
reduce-IsKeyed i n [] k = tt
reduce-IsKeyed i n (r ∷ rs) k =
    ground (arith, reduce-IsKeyed i n rs k.1, rows_of-reduce i n r.id rs)

stock-reduce :
    (i n j : ℕ) (items : List Item)
    → IsKeyed items
    → n ≤ stock i items
    → stock j (reduce_stock i n items) + (if i == j then n else 0) ≡ stock j items
unfolding reduce_stock update_where stock rows_of
stock-reduce i n j [] k h = ground arith
stock-reduce i n j (r ∷ rs) k h =
    ground (arith, stock-reduce i n j rs k.1, absent-reduce i n rs, absent-stock i rs)

-- A line that passes its check fits beside what is held.
checked-line :
    (l : WorkerLine) (w : WorkerState)
    → IsKeyed w.db.items
    → check_line l w ≡ ok tt
    → w.counters l.item_id + l.qty ≤ stock l.item_id w.db.items
checked-line l w k h = go (load_item l.item_id w.db.items) refl
  where
    go :
        (loaded : Option Item)
        → load_item l.item_id w.db.items ≡ loaded
        → w.counters l.item_id + l.qty ≤ stock l.item_id w.db.items
    go none e = unfold check_line in ground (arith, e, h)
    go (some item) e =
        unfold check_line in ground (arith, e, h, loaded-stock l.item_id w.db.items item k e)

-- A round of `commit` that goes through had the stock, and takes it.
commit_item-reduces :
    (i n : ℕ) (items items' : List Item)
    → IsKeyed items
    → commit_item i n items ≡ ok items'
    → (n ≤ stock i items) × (items' ≡ reduce_stock i n items)
commit_item-reduces i n items items' k h = go (load_item i items) refl
  where
    go :
        (loaded : Option Item)
        → load_item i items ≡ loaded
        → (n ≤ stock i items) × (items' ≡ reduce_stock i n items)
    go none e = unfold commit_item in ground (arith, e, h)
    go (some item) e = unfold commit_item in ground (arith, e, h, loaded-stock i items item k e)

-- All rounds together take the totals.
commit_items-stock :
    (j : Uuid) (totals : List (Uuid × ℕ)) (items items' : List Item)
    → IsKeyed items
    → commit_items totals items ≡ ok items'
    → stock j items' + total_of j totals ≡ stock j items
unfolding commit_items total_of
commit_items-stock j [] items items' k h = ground arith
commit_items-stock j ((i, n) ∷ totals) items items' k h =
    let (next, first, rest) = bind-returned (commit_item i n items) _ _ h in
    let (enough, e) = commit_item-reduces i n items next k first in
    let keyed : IsKeyed next = rw e (reduce-IsKeyed i n items k) in
    ground (
      arith,
      e,
      commit_items-stock j totals next items' keyed rest,
      stock-reduce i n j items k enough,
    )

-- A commit that returns takes exactly the held units of the invoice off the shelf and off the
-- counters: what is truly available, stock less counter, is what it was, for every item (stated
-- without subtraction). For unique item ids and counters that agree with the held rows.
pub commit_keeps_availability :
    (i j : Uuid) (w : WorkerState) (n : ℕ)
    → IsKeyed w.db.items
    → IsBalanced w
    → (commit_invoice i w).1 ≡ ok n
    → let w' = (commit_invoice i w).0 in
      stock j w'.db.items + w.counters j ≡ stock j w.db.items + w'.counters j
commit_keeps_availability i j w n k b h = go (commit_items totals w.db.items) refl
  where
    totals : List (Uuid × ℕ)
    totals = item_totals (select (holds_invoice i) w.db.reserved_items) []

    go :
        (r : Result Error (List Item))
        → commit_items totals w.db.items ≡ r
        → stock j (commit_invoice i w).0.db.items + w.counters j
          ≡ stock j w.db.items + (commit_invoice i w).0.counters j
    go (err e) eq = unfold commit_invoice in ground (arith, eq, h)
    go (ok items) eq =
        unfold commit_invoice mark_rows in
        ground (
          arith,
          eq,
          b j,
          commit_items-stock j totals w.db.items items k eq,
          counters-decrement_all j totals w.counters,
          total_of-rows j (select (holds_invoice i) w.db.reserved_items),
          held-mark_invoice committed refl j i w.db.reserved_items,
        )

-- No item stands in two lines.
abbrev pub IsDistinct : List WorkerLine → Type 0
IsDistinct [] = Unit
IsDistinct (l ∷ ls) = (line_demand l.item_id ls ≡ 0) × IsDistinct ls

checked-fits :
    (j : Uuid) (lines : List WorkerLine) (w : WorkerState)
    → IsKeyed w.db.items
    → IsDistinct lines
    → check_lines lines w ≡ ok tt
    → w.counters j ≤ stock j w.db.items
    → w.counters j + line_demand j lines ≤ stock j w.db.items
unfolding check_lines line_demand
checked-fits j [] w k d h room = ground arith
checked-fits j (l ∷ ls) w k d h room =
    let (_, first, rest) = bind-returned (check_line l w) _ _ h in
    ground (arith, checked-fits j ls w k d.1 rest room, checked-line l w k first, d.0)

module _ (faults : Faults) (now ttl : ℕ) (i : Uuid) (lines : List WorkerLine)
    (w : WorkerState) where
  abbrev tally : Increments
  tally =
      increment_all faults.refused_increment lines
        (record { counters = w.counters; incremented = []; done = true })

  -- A reservation that returns has passed every check, and has counted every line.
  reserved-counters :
      (j : Uuid) (n : ℕ)
      → (reserve_holds faults now ttl i lines w).1 ≡ ok n
      → (check_lines lines w ≡ ok tt)
        × ((reserve_holds faults now ttl i lines w).0.db.items ≡ w.db.items)
        × ((reserve_holds faults now ttl i lines w).0.counters j
            ≡ w.counters j + line_demand j lines)
  unfolding reserve_holds settle_reserve add_holds line_demand
  reserved-counters j n h = ground (
    arith,
    incremented-increment_all j faults.refused_increment lines
        (record { counters = w.counters; incremented = []; done = true }),
    counters-increment_all j faults.refused_increment lines
        (record { counters = w.counters; incremented = []; done = true }),
  )

  -- A reservation whose lines name distinct items never promises more than there is: if
  -- a counter is at most the stock of its item before it, so it is after it. For unique item ids.
  pub reserve_distinct_fits :
      (n : ℕ) (j : Uuid)
      → IsKeyed w.db.items
      → IsDistinct lines
      → w.counters j ≤ stock j w.db.items
      → (reserve_holds faults now ttl i lines w).1 ≡ ok n
      → let w' = (reserve_holds faults now ttl i lines w).0 in w'.counters j ≤ stock j w'.db.items
  reserve_distinct_fits n j k d room h =
      let (checked, same, counted) = reserved-counters j n h in
      rw (counted, same) (checked-fits j lines w k d checked room)

-- The two lines of a request for `a` and again for `b` units of one item.
abbrev pub repeated : Uuid → ℕ → ℕ → List WorkerLine
repeated x a b = record { item_id = x; qty = a } ∷ record { item_id = x; qty = b } ∷ []

abbrev pub no_faults : Faults
no_faults = record { refused_increment = none; commit_refused = false }

-- Lines that repeat an item are checked each by itself: if either quantity fits and their sum does
-- not, the reservation returns all the same, and the counter exceeds the quantity in the row, so
-- that the true availability is negative.
pub repeated_lines_oversell :
    (now ttl : ℕ) (i x a b : ℕ) (w : WorkerState) (item : Item)
    → load_item x w.db.items ≡ some item
    → w.counters x + a ≤ item.quantity_available
    → w.counters x + b ≤ item.quantity_available
    → item.quantity_available < w.counters x + a + b
    → let (w', result) = reserve_holds no_faults now ttl i (repeated x a b) w in
      (result ≡ ok 2) × (item.quantity_available < w'.counters x)
unfolding reserve_holds check_lines check_line increment_all incr_counter settle_reserve
repeated_lines_oversell now ttl i x a b w item e fa fb over = ground arith
