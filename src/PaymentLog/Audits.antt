-- ===== src/PaymentLog/Audits.antt =====
-- What a merchant can read of the payment log: services/payment_log_service/router.py. The rows of
-- `invoice_audit` stand oldest first.
use merchant_ai_agent.Base.{
  ℕ, String, Bool, false, ◌&&◌, Option, none, some, List, [], ◌∷◌, ◌++◌, select, take, leb, str_eq,
  if◌then◌else◌,
}
use merchant_ai_agent.Base.Results.{Result, ok, err}
use merchant_ai_agent.Uuid.{Uuid, codes, parse_uuid, show_uuid}
use merchant_ai_agent.Auth.{Crypto, token_subject}
use merchant_ai_agent.PaymentLog.{InvoiceAudit}

-- The HTTP status of a failure: 401, or 422 for a limit out of range.
pub data ReadFailure : Type 0 where
  not_authorized bad_limit : ReadFailure

unfoldable pub canonical : Option Uuid → Result ReadFailure String
unfolding show_uuid
canonical none = err not_authorized
canonical (some id) = ok (show_uuid id)

unfoldable pub merchant_id_of : Option String → Result ReadFailure String
unfolding canonical
merchant_id_of none = err not_authorized
merchant_id_of (some text) = canonical (parse_uuid (codes text))

-- `get_current_merchant_id`, with the bearer token.
unfoldable pub get_current_merchant_id : Crypto → ℕ → Option String → Result ReadFailure String
unfolding merchant_id_of token_subject
get_current_merchant_id crypto now none = err not_authorized
get_current_merchant_id crypto now (some token) = merchant_id_of (token_subject crypto now token)

unfoldable pub is_of_merchant : String → InvoiceAudit → Bool
is_of_merchant merchant_id row = elim row.merchant_id [
  | none ↦ false
  | some id ↦ str_eq id merchant_id
]

abbrev newest_first : List InvoiceAudit → List InvoiceAudit
newest_first [] = []
newest_first (row ∷ rows) = newest_first rows ++ row ∷ []

-- `list_invoice_audit`
unfoldable pub list_invoice_audit :
    Result ReadFailure String → ℕ → List InvoiceAudit → Result ReadFailure (List InvoiceAudit)
unfolding select is_of_merchant
list_invoice_audit (err e) limit rows = err e
list_invoice_audit (ok merchant_id) limit rows =
    if leb 1 limit && leb limit 500
    then ok (take limit (newest_first (select (is_of_merchant merchant_id) rows)))
    else err bad_limit

-- `get_invoice_audit`
unfoldable pub get_invoice_audit :
    Result ReadFailure String → String → List InvoiceAudit → Result ReadFailure (List InvoiceAudit)
unfolding select is_of_merchant
get_invoice_audit (err e) invoice_id rows = err e
get_invoice_audit (ok merchant_id) invoice_id rows = ok (
    newest_first
      (select (λ row. str_eq row.invoice_id invoice_id && is_of_merchant merchant_id row) rows))
