-- ===== src/Reservation/Router.antt =====
-- services/reservation_service/router.py and schemas.py: `POST /reservation/submit-invoice`.
use merchant_ai_agent.Base.{
  ℕ, String, Bool, Option, none, some, List, [], ◌∷◌, str_eq, if◌then◌else◌,
}
use merchant_ai_agent.Base.Int.{pos}
use merchant_ai_agent.Base.Results.{Result}
use merchant_ai_agent.Invoice.Schema.{Invoice}
use merchant_ai_agent.Reservation.{
  Settings, World, Reply, Error, LineDict, line_dicts, reserve_payload,
}

-- `ReservationSubmitLineItem`: `qty` is at least 1.
pub record SubmitLineItem : Type 0 where
  pub item_id : String
  pub qty : ℕ

pub record SubmitInvoiceRequest : Type 0 where
  pub invoice : Option Invoice
  pub invoice_id : Option String
  pub line_items : List SubmitLineItem

is_given : Option String → Bool
is_given none = Bool.false
is_given (some text) = if str_eq text "" then Bool.false else Bool.true

-- `_validate_shape`: whether the request is accepted at all.
unfoldable pub has_valid_shape : SubmitInvoiceRequest → Bool
unfolding is_given
has_valid_shape r = elim r.invoice [
  | some invoice ↦ Bool.true
  | none ↦ elim r.line_items [ [] ↦ Bool.false | l ∷ ls ↦ is_given r.invoice_id ]
]

submitted_lines : List SubmitLineItem → List LineDict
submitted_lines [] = []
submitted_lines (l ∷ ls) =
    record { item_id = some l.item_id; qty = some (pos l.qty) } ∷ submitted_lines ls

-- The two branches of `submit_invoice`.
unfoldable pub submit :
    Settings
    → ℕ
    → ℕ
    → Option Invoice
    → Option String
    → List SubmitLineItem
    → World
    → Result Error (World × Reply)
unfolding submitted_lines line_dicts
submit cfg now later (some invoice) id lines w =
    reserve_payload cfg now later (some invoice.order_id) (line_dicts invoice.line_items)
      (some invoice) w
submit cfg now later none id lines w =
    reserve_payload cfg now later id (submitted_lines lines) none w

-- `submit_invoice`, on a request of valid shape. `str(payload.invoice_id)` of a given id.
unfoldable pub submit_invoice :
    Settings → ℕ → ℕ → SubmitInvoiceRequest → World → Result Error (World × Reply)
unfolding submit
submit_invoice cfg now later r w = submit cfg now later r.invoice r.invoice_id r.line_items w
