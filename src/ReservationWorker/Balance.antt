-- ===== src/ReservationWorker/Balance.antt =====
-- The counters in Redis and the held rows in the database agree, whatever fails.
use merchant_ai_agent.Base.{
  ℕ, ◌+◌, ◌≤◌, ◌≡◌, refl, ◌∙◌, true, Option, none, subst, ap, List, [], ◌∷◌, arith, select,
}
use merchant_ai_agent.Base.Results.{err}
use merchant_ai_agent.Uuid.{Uuid}
use merchant_ai_agent.Inventory.{released, committed, is_held}
use merchant_ai_agent.Inventory.Stock.{reserved_as}
use merchant_ai_agent.ReservationWorker.{
  Error, WorkerLine, WorkerState, Faults, Increments, increment_all, undo_increments, add_holds,
  hold_rows, settle_reserve, reserve_under, reserve_holds,
}
use merchant_ai_agent.ReservationWorker.Release.{
  holds_invoice, holds_expired, item_totals, mark_rows, commit_invoice, release_invoice,
  release_expired_holds,
}
use merchant_ai_agent.ReservationWorker.Counting.{
  line_demand, counters-increment_all, incremented-increment_all, counters-undo, counters-undo-le,
  counters-decrement_all, total_of-rows, held-hold_rows, held-append, held-mark_invoice,
  held-mark_expired,
}

-- Every counter is the sum of the held rows of its item.
abbrev pub IsBalanced : WorkerState → Type 0
IsBalanced w = (j : Uuid) → w.counters j ≡ reserved_as is_held j w.db.reserved_items

abbrev counting : WorkerState → Increments
counting w = record { counters = w.counters; incremented = []; done = true }

held-add_holds :
    (j i now e : ℕ) (lines : List WorkerLine) (w : WorkerState)
    → reserved_as is_held j (add_holds i now e lines w.db).reserved_items
      ≡ reserved_as is_held j w.db.reserved_items + line_demand j lines
unfolding add_holds
held-add_holds j i now e lines w =
    held-append j w.db.reserved_items (hold_rows i now e w.db.next_id lines)
    ∙ omega (arith, held-hold_rows j i now e w.db.next_id lines)

module _ (j : Uuid) (faults : Faults) (now ttl : ℕ) (i : Uuid) (lines : List WorkerLine)
    (w : WorkerState) where
  abbrev tally : Increments
  tally = increment_all faults.refused_increment lines (counting w)

  -- Where the loop or the commit was refused, the counters read as before.
  counters-undone : undo_increments none tally.incremented tally.counters j ≡ w.counters j
  unfolding line_demand
  counters-undone = ground (
    arith,
    counters-undo j tally.incremented tally.counters,
    counters-increment_all j faults.refused_increment lines (counting w),
  )

  counters-counted : tally.done ≡ true → tally.counters j ≡ w.counters j + line_demand j lines
  unfolding line_demand
  counters-counted done = ground (
    arith,
    incremented-increment_all j faults.refused_increment lines (counting w),
    counters-increment_all j faults.refused_increment lines (counting w),
  )

  counters-kept :
      (refused : Option ℕ)
      → w.counters j ≤ undo_increments refused tally.incremented tally.counters j
  unfolding line_demand
  counters-kept refused = ground (
    arith,
    counters-undo-le j refused tally.incremented tally.counters,
    counters-increment_all j faults.refused_increment lines (counting w),
  )

  failed-tables :
      (refused : Option ℕ) (e : Error)
      → (reserve_under refused faults now ttl i lines w).1 ≡ err e
      → (reserve_under refused faults now ttl i lines w).0.db ≡ w.db
  unfolding reserve_under settle_reserve
  failed-tables refused e h = ground (arith, h)

  failed-counters :
      (refused : Option ℕ) (e : Error)
      → (reserve_under refused faults now ttl i lines w).1 ≡ err e
      → w.counters j ≤ (reserve_under refused faults now ttl i lines w).0.counters j
  unfolding reserve_under settle_reserve
  failed-counters refused e h = ground (arith, h, counters-kept refused)

  undone-counters :
      (e : Error)
      → (reserve_under none faults now ttl i lines w).1 ≡ err e
      → (reserve_under none faults now ttl i lines w).0.counters j ≡ w.counters j
  unfolding reserve_under settle_reserve
  undone-counters e h = ground (arith, h, counters-undone)

  -- A reservation that raises (a line that fails its check, a refused increment half-way, a refused
  -- commit) leaves the tables as they were. Its `except` branch never takes too much off a counter, and
  -- leaves every counter as it was if Redis refuses none of its decrements.
  pub failed_reserve_restores :
      (refused : Option ℕ) (e : Error)
      → (reserve_under refused faults now ttl i lines w).1 ≡ err e
      → let w' = (reserve_under refused faults now ttl i lines w).0 in
        (w'.db ≡ w.db)
        × (w.counters j ≤ w'.counters j)
        × (refused ≡ none → w'.counters j ≡ w.counters j)
  failed_reserve_restores refused e h = (
    failed-tables refused e h,
    failed-counters refused e h,
    λ works.
        let same = subst (λ o. (reserve_under o faults now ttl i lines w).1 ≡ err e) works h in
        ap (λ o. (reserve_under o faults now ttl i lines w).0.counters j) works
        ∙ undone-counters e same,
  )

  -- Whether it succeeds or raises, a reservation keeps counter and held rows of each item equal.
  reserve-balanced :
      w.counters j ≡ reserved_as is_held j w.db.reserved_items
      → (reserve_holds faults now ttl i lines w).0.counters j
        ≡ reserved_as is_held j (reserve_holds faults now ttl i lines w).0.db.reserved_items
  unfolding reserve_holds reserve_under settle_reserve
  reserve-balanced h =
      ground (arith, counters-undone, counters-counted, held-add_holds j i now (now + ttl) lines w)

pub reserve-IsBalanced :
    (faults : Faults) (now ttl : ℕ) (i : Uuid) (lines : List WorkerLine) (w : WorkerState)
    → IsBalanced w
    → IsBalanced (reserve_holds faults now ttl i lines w).0
reserve-IsBalanced faults now ttl i lines w h j = reserve-balanced j faults now ttl i lines w (h j)

pub release-IsBalanced :
    (i : Uuid) (w : WorkerState) → IsBalanced w → IsBalanced (release_invoice i w).0
unfolding release_invoice mark_rows
release-IsBalanced i w h j =
    let rows = select (holds_invoice i) w.db.reserved_items in
    omega (
      arith,
      h j,
      counters-decrement_all j (item_totals rows []) w.counters,
      total_of-rows j rows,
      held-mark_invoice released refl j i w.db.reserved_items,
    )

pub release_expired-IsBalanced :
    (now : ℕ) (w : WorkerState) → IsBalanced w → IsBalanced (release_expired_holds now w).0
unfolding release_expired_holds mark_rows
release_expired-IsBalanced now w h j =
    let rows = select (holds_expired now) w.db.reserved_items in
    omega (
      arith,
      h j,
      counters-decrement_all j (item_totals rows []) w.counters,
      total_of-rows j rows,
      held-mark_expired released refl j now w.db.reserved_items,
    )

commit-balanced :
    (i j : Uuid) (w : WorkerState)
    → w.counters j ≡ reserved_as is_held j w.db.reserved_items
    → (commit_invoice i w).0.counters j
      ≡ reserved_as is_held j (commit_invoice i w).0.db.reserved_items
unfolding commit_invoice mark_rows
commit-balanced i j w h =
    let rows = select (holds_invoice i) w.db.reserved_items in
    ground (
      arith,
      h,
      counters-decrement_all j (item_totals rows []) w.counters,
      total_of-rows j rows,
      held-mark_invoice committed refl j i w.db.reserved_items,
    )

pub commit-IsBalanced :
    (i : Uuid) (w : WorkerState) → IsBalanced w → IsBalanced (commit_invoice i w).0
commit-IsBalanced i w h j = commit-balanced i j w (h j)

-- The calls that the worker serves, with the faults that they meet.
pub data Call : Type 0 where
  reserve : Faults → ℕ → ℕ → Uuid → List WorkerLine → Call
  commit release : Uuid → Call
  expire : ℕ → Call

unfoldable pub serve : Call → WorkerState → WorkerState
serve (reserve faults now ttl i lines) w = (reserve_holds faults now ttl i lines w).0
serve (commit i) w = (commit_invoice i w).0
serve (release i) w = (release_invoice i w).0
serve (expire now) w = (release_expired_holds now w).0

unfoldable pub serve_all : List Call → WorkerState → WorkerState
serve_all [] w = w
serve_all (call ∷ calls) w = serve_all calls (serve call w)

serve-IsBalanced : (call : Call) (w : WorkerState) → IsBalanced w → IsBalanced (serve call w)
unfolding serve
serve-IsBalanced (reserve faults now ttl i lines) w h =
    reserve-IsBalanced faults now ttl i lines w h
serve-IsBalanced (commit i) w h = commit-IsBalanced i w h
serve-IsBalanced (release i) w h = release-IsBalanced i w h
serve-IsBalanced (expire now) w h = release_expired-IsBalanced now w h

-- After any sequence of reservations, commits, releases and expiry scans, with refused Redis
-- increments and refused commits among them whose increments are taken back, each counter is the sum of
-- the held rows of its item, if it was so at the start.
pub serve_all-IsBalanced :
    (calls : List Call) (w : WorkerState) → IsBalanced w → IsBalanced (serve_all calls w)
unfolding serve_all
serve_all-IsBalanced [] w h = h
serve_all-IsBalanced (call ∷ calls) w h =
    serve_all-IsBalanced calls (serve call w) (serve-IsBalanced call w h)
