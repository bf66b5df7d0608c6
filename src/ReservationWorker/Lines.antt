-- ===== src/ReservationWorker/Lines.antt =====
-- `_normalize_line_items` of services/reservation_worker/reservation_service.py.
use merchant_ai_agent.Base.{ℕ, zero, suc, String, Option, none, some, List, [], ◌∷◌}
use merchant_ai_agent.Base.Int.{ℤ, pos, negsuc}
use merchant_ai_agent.Base.Results.{Result, ok, err, ◌>>=◌}
use merchant_ai_agent.Uuid.{Uuid, codes, parse_uuid}

pub record WorkerLine : Type 0 where
  pub item_id : Uuid
  pub qty : ℕ

-- `ReservationError` and its subclass by their messages, the ValueError of `UUID`, and what Redis
-- or the database raise.
pub data Error : Type 0 where
  incomplete_line qty_not_positive line_items_empty item_not_found insufficient_stock : Error
  badly_formed_uuid : Error
  upstream : Error

-- An entry of a dictionary, which may hold `None`.
pub data Field {ℓ} (A : Type ℓ) : Type ℓ where
  missing null : Field A
  value : A → Field A

pub record WorkerLineDict : Type 0 where
  pub item_id : Field String
  pub qty : Field ℤ
  pub reserved_qty : Field ℤ

present {ℓ} : {A : Type ℓ} → Field A → Option A
present missing = none
present null = none
present (value a) = some a

-- `line.get("qty", line.get("reserved_qty"))`
raw_qty : Field ℤ → Field ℤ → Option ℤ
unfolding present
raw_qty missing reserved_qty = present reserved_qty
raw_qty null reserved_qty = none
raw_qty (value q) reserved_qty = some q

-- `UUID(str(raw_item_id))`
worker_uuid : String → Result Error Uuid
unfolding parse_uuid
worker_uuid text = elim (parse_uuid (codes text)) [ some u ↦ ok u | none ↦ err badly_formed_uuid ]

checked_qty : ℤ → Result Error ℕ
checked_qty (pos zero) = err qty_not_positive
checked_qty (pos (suc n)) = ok (suc n)
checked_qty (negsuc n) = err qty_not_positive

complete_line : Option String → Option ℤ → Result Error WorkerLine
unfolding worker_uuid checked_qty
complete_line (some text) (some q) = do
  qty ← checked_qty q
  item_id ← worker_uuid text
  ok (record { item_id = item_id; qty = qty })
complete_line none q = err incomplete_line
complete_line (some text) none = err incomplete_line

normalize_worker_lines : List WorkerLineDict → Result Error (List WorkerLine)
unfolding complete_line raw_qty
normalize_worker_lines [] = ok []
normalize_worker_lines (d ∷ ds) = do
  line ← complete_line (present d.item_id) (raw_qty d.qty d.reserved_qty)
  lines ← normalize_worker_lines ds
  ok (line ∷ lines)

some_lines : List WorkerLine → Result Error (List WorkerLine)
some_lines [] = err line_items_empty
some_lines (l ∷ ls) = ok (l ∷ ls)

unfoldable pub normalize_line_dicts : List WorkerLineDict → Result Error (List WorkerLine)
unfolding normalize_worker_lines some_lines
normalize_line_dicts line_items = do lines ← normalize_worker_lines line_items; some_lines lines
