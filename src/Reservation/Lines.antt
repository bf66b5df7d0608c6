-- ===== src/Reservation/Lines.antt =====
-- The two normalisations of line items, and the checks of `reserve` on its arguments.
use merchant_ai_agent.Base.{ℕ, zero, suc, String, Option, none, some, List, [], ◌∷◌}
use merchant_ai_agent.Base.Int.{ℤ, pos, negsuc}
use merchant_ai_agent.Base.Results.{Result, ok, err, ◌>>=◌}
use merchant_ai_agent.Uuid.{Uuid, codes, parse_uuid}
use merchant_ai_agent.Invoice.Schema.{Invoice, InvoiceLineItem}

pub record ReservationLineItem : Type 0 where
  pub item_id : Uuid
  pub qty : ℕ

-- The ValueErrors by their messages, and the KeyError of `line["item_id"]`.
pub data Error : Type 0 where
  qty_not_positive badly_formed_uuid line_items_empty : Error
  invoice_id_required line_items_required : Error
  missing_item_id : Error

-- A line item as the dictionary that a request carries.
pub record LineDict : Type 0 where
  pub item_id : Option String
  pub qty : Option ℤ

unfoldable pub uuid_of : String → Result Error Uuid
unfolding parse_uuid
uuid_of text = elim (parse_uuid (codes text)) [ some u ↦ ok u | none ↦ err badly_formed_uuid ]

-- `if qty <= 0: raise ValueError`.
unfoldable pub positive : ℤ → Result Error ℕ
positive (pos zero) = err qty_not_positive
positive (pos (suc n)) = ok (suc n)
positive (negsuc n) = err qty_not_positive

-- `line.get("qty", 0)`
qty_or_zero : Option ℤ → ℤ
qty_or_zero none = pos 0
qty_or_zero (some q) = q

-- `line["item_id"]`
required_item_id : Option String → Result Error String
required_item_id none = err missing_item_id
required_item_id (some text) = ok text

unfoldable pub normalize_line : LineDict → Result Error ReservationLineItem
unfolding uuid_of positive qty_or_zero required_item_id
normalize_line line = do
  qty ← positive (qty_or_zero line.qty)
  text ← required_item_id line.item_id
  item_id ← uuid_of text
  ok (record { item_id = item_id; qty = qty })

normalize_lines : List LineDict → Result Error (List ReservationLineItem)
unfolding normalize_line
normalize_lines [] = ok []
normalize_lines (line ∷ lines) = do
  normalized ← normalize_line line
  rest ← normalize_lines lines
  ok (normalized ∷ rest)

nonempty : List ReservationLineItem → Result Error (List ReservationLineItem)
nonempty [] = err line_items_empty
nonempty (l ∷ ls) = ok (l ∷ ls)

unfoldable pub normalize_payload_line_items :
    List LineDict → Result Error (List ReservationLineItem)
unfolding normalize_lines nonempty
normalize_payload_line_items line_items = do lines ← normalize_lines line_items; nonempty lines

-- The router's dictionaries for the lines of an invoice.
unfoldable pub line_dicts : List InvoiceLineItem → List LineDict
line_dicts [] = []
line_dicts (l ∷ ls) = record { item_id = some l.item_id; qty = some (pos l.qty) } ∷ line_dicts ls

-- `_normalize_line_items`, on the lines of an invoice.
unfoldable pub normalize_line_items : Invoice → Result Error (List ReservationLineItem)
unfolding normalize_lines nonempty line_dicts
normalize_line_items invoice = do
  lines ← normalize_lines (line_dicts invoice.line_items)
  nonempty lines
