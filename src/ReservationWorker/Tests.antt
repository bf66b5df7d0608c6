-- ===== src/ReservationWorker/Tests.antt =====
-- The reservation worker on a small shop: the theorems at concrete inputs.
use merchant_ai_agent.Base.{
  ℕ, ◌+◌, ◌≤◌, ◌<◌, ◌≡◌, refl, true, false, ◌==◌, if◌then◌else◌, Option, none, some, select,
  find_first, sum_where, List, [], ◌∷◌, arith,
}
use merchant_ai_agent.Base.Results.{ok, err}
use merchant_ai_agent.Inventory.{Item, ReservedItem, held}
use merchant_ai_agent.Inventory.Stock.{stock, rows_of, IsKeyed, reserved_as}
use merchant_ai_agent.ReservationWorker.{
  WorkerLine, WorkerState, Faults, upstream, reserve_under, reserve_holds, load_item,
}
use merchant_ai_agent.ReservationWorker.Release.{commit_invoice}
use merchant_ai_agent.ReservationWorker.Counting.{line_demand}
use merchant_ai_agent.ReservationWorker.Balance.{
  Call, serve_all, IsBalanced, failed_reserve_restores, serve_all-IsBalanced,
}
use merchant_ai_agent.ReservationWorker.Availability.{
  repeated, no_faults, commit_keeps_availability, IsDistinct, reserve_distinct_fits,
  repeated_lines_oversell,
}

abbrev tea : Item
tea = record {
  id = 1;
  name = "Tea";
  brand = "Nilgiri";
  weight_per_unit = "g";
  price_paise = 12000;
  quantity_available = 6;
  expiry_date = 900;
  is_active = true;
}

abbrev tea_hold : ReservedItem
tea_hold = record {
  id = 0;
  invoice_id = 50;
  item_id = 1;
  reserved_qty = 2;
  reserved_at = 5;
  expires_at = 305;
  status = held;
}

abbrev tea_shop : WorkerState
tea_shop = record {
  db = record { items = tea ∷ []; reserved_items = tea_hold ∷ []; audit_log = []; next_id = 1 };
  counters = λ j. if 1 == j then 2 else 0;
}

tea_shop-IsBalanced : IsBalanced tea_shop
unfolding reserved_as sum_where
tea_shop-IsBalanced j = ground arith

tea_shop-IsKeyed : IsKeyed tea_shop.db.items
unfolding rows_of
tea_shop-IsKeyed = (refl, tt)

abbrev faulty : Faults
faulty = record { refused_increment = some 1; commit_refused = false }

-- The second increment is refused, and the first is undone.
faulty_run : (reserve_under none faulty 10 300 60 (repeated 1 1 2) tea_shop).1 ≡ err upstream
unfolding reserve_under find_first
faulty_run = refl

-- Redis refuses the decrement as well, and the first increment stays.
stuck_counter : (reserve_under (some 0) faulty 10 300 60 (repeated 1 1 2) tea_shop).0.counters 1 ≡ 3
unfolding reserve_under find_first
stuck_counter = refl

failed_reserve_restores_example :
    let w' = (reserve_under none faulty 10 300 60 (repeated 1 1 2) tea_shop).0 in
    (w'.db ≡ tea_shop.db) × (2 ≤ w'.counters 1) × (◌≡◌ {A = Option ℕ} none none → w'.counters 1 ≡ 2)
failed_reserve_restores_example =
    failed_reserve_restores 1 faulty 10 300 60 (repeated 1 1 2) tea_shop none upstream faulty_run

abbrev calls : List Call
calls =
    Call.reserve faulty 10 300 60 (repeated 1 1 2)
    ∷ Call.reserve no_faults 11 300 61 (repeated 1 1 2)
    ∷ Call.commit 61
    ∷ Call.release 61
    ∷ Call.expire 305
    ∷ []

serve_all-IsBalanced_example : IsBalanced (serve_all calls tea_shop)
serve_all-IsBalanced_example = serve_all-IsBalanced calls tea_shop tea_shop-IsBalanced

commit_run : (commit_invoice 50 tea_shop).1 ≡ ok 1
unfolding commit_invoice load_item find_first select
commit_run = refl

availability_is_kept :
    let w' = (commit_invoice 50 tea_shop).0 in
    stock 1 w'.db.items + tea_shop.counters 1 ≡ stock 1 tea_shop.db.items + w'.counters 1
availability_is_kept =
    commit_keeps_availability 50 1 tea_shop 1 tea_shop-IsKeyed tea_shop-IsBalanced commit_run

abbrev one_line : List WorkerLine
one_line = record { item_id = 1; qty = 4 } ∷ []

reserve_run : (reserve_holds no_faults 10 300 60 one_line tea_shop).1 ≡ ok 1
unfolding reserve_holds find_first
reserve_run = refl

one_line-IsDistinct : IsDistinct one_line
unfolding line_demand
one_line-IsDistinct = (refl, tt)

tea_shop_room : (j : ℕ) → tea_shop.counters j ≤ stock j tea_shop.db.items
unfolding stock sum_where
tea_shop_room j = ground arith

distinct_items_fit :
    let w' = (reserve_holds no_faults 10 300 60 one_line tea_shop).0 in
    w'.counters 1 ≤ stock 1 w'.db.items
distinct_items_fit =
    reserve_distinct_fits no_faults 10 300 60 one_line tea_shop 1 1 tea_shop-IsKeyed
      one_line-IsDistinct (tea_shop_room 1) reserve_run

tea_loads : load_item 1 tea_shop.db.items ≡ some tea
unfolding load_item find_first
tea_loads = refl

repeated_lines_oversell_example :
    let (w', result) = reserve_holds no_faults 10 300 60 (repeated 1 3 4) tea_shop in
    (result ≡ ok 2) × (6 < w'.counters 1)
repeated_lines_oversell_example =
    repeated_lines_oversell 10 300 60 1 3 4 tea_shop tea tea_loads (omega arith) (omega arith)
      (omega arith)
