-- ===== src/PaymentLog.antt =====
-- services/payment_log_service/payment_log_processor.py: a webhook of the payment provider becomes a
-- row of `invoice_audit`, and a successful payment marks the held rows of its invoice as paid. The
-- webhook is read by the fields that the code asks for; a value that is no dictionary is one without
-- keys.
pub mod Delivery
pub mod Consumer
pub mod Recorded
pub mod Ingress
pub mod Audits
pub mod Kept
pub mod Signed
mod Tests
use merchant_ai_agent.Base.{
  ℕ, String, Bool, true, false, not, ◌&&◌, ◌||◌, Option, none, some, List, [], ◌∷◌, ◌++◌, str_eq,
  any, find_first, or_else, if◌then◌else◌, ◌==◌,
}
use merchant_ai_agent.Base.Results.{Result, ok, err}
use merchant_ai_agent.Uuid.{Uuid, codes, parse_uuid, show_uuid}
use merchant_ai_agent.Strings.{has_text, strip_text, lower_is, stripped}
use merchant_ai_agent.Inventory.{cache_get}
use merchant_ai_agent.Invoice.Service.{Order}
use merchant_ai_agent.Reservation.{World, StoredInvoice, dumped, made_up, Error}
use merchant_ai_agent.Reservation.Expiry.{mark_reserved_paid}

-- A dictionary of notes that is not empty.
pub record Notes : Type 0 where
  pub invoice_id : Option String
  pub session_id : Option String
  pub merchant_id : Option String

pub record Entity : Type 0 where
  pub id : Option String
  pub order_id : Option String
  pub reference_id : Option String
  pub status : String
  pub notes : Option Notes

pub record Webhook : Type 0 where
  pub event : String
  pub payment : Entity
  pub payment_link : Entity
  pub payload_notes : Option Notes
  pub notes : Option Notes
  pub payment_id : Option String

pub data PaymentStatus : Type 0 where
  success failed : PaymentStatus

-- Where the payload of the invoice came from: Redis, the orders, or nowhere.
pub data InvoicePayload : Type 0 where
  stored : StoredInvoice → InvoicePayload
  from_order : Order → InvoicePayload
  no_payload : InvoicePayload

pub record InvoiceAudit : Type 0 where
  pub invoice_id : String
  pub session_id : Option String
  pub merchant_id : Option String
  pub payment_status : PaymentStatus
  pub razorpay_payment_id : Option String
  pub razorpay_order_id : Option String
  pub invoice_payload : InvoicePayload
  pub webhook_payload : Webhook

pub record PaymentWorld : Type 0 where
  pub shop : World
  pub orders : List Order
  pub invoice_audit : List InvoiceAudit

abbrev pub empty_notes : Notes
empty_notes = record { invoice_id = none; session_id = none; merchant_id = none }

unfoldable pub notes_or_empty : Option Notes → Notes
notes_or_empty none = empty_notes
notes_or_empty (some notes) = notes

-- `_extract_notes`
unfoldable pub extract_notes : Webhook → Notes
unfolding notes_or_empty
extract_notes h =
    notes_or_empty
      (or_else h.payment.notes (or_else h.payment_link.notes (or_else h.payload_notes h.notes)))

-- `_is_payment_success`
unfoldable pub is_payment_success : Webhook → Bool
unfolding lower_is strip_text
is_payment_success h =
    lower_is (strip_text h.event) "payment.captured"
    || lower_is (strip_text h.event) "payment_link.paid"
    || lower_is h.payment.status "captured"
    || lower_is h.payment_link.status "paid"

-- `x or y` of two texts, and `None` for an empty one.
unfoldable pub nonempty_of : Option String → Option String
nonempty_of none = none
nonempty_of (some text) = if str_eq text "" then none else some text

-- `_extract_payment_identifiers`
unfoldable pub payment_id_of : Webhook → Option String
unfolding nonempty_of
payment_id_of h = or_else (nonempty_of h.payment.id) (nonempty_of h.payment_id)

unfoldable pub order_id_of : Webhook → Option String
unfolding nonempty_of
order_id_of h = or_else (nonempty_of h.payment.order_id) (nonempty_of h.payment_link.reference_id)

-- The key `invoice:{id}` is read with the text of the id, and was written with that of a UUID.
unfoldable pub stored_under : ℕ → String → Option Uuid → World → Option StoredInvoice
unfolding cache_get
stored_under now text none w = none
stored_under now text (some id) w =
    if str_eq (show_uuid id) text then cache_get id now w.invoices else none

-- `_load_invoice_from_redis`
unfoldable pub load_invoice_from_redis : ℕ → Option String → World → Option StoredInvoice
unfolding stored_under
load_invoice_from_redis now none w = none
load_invoice_from_redis now (some text) w = stored_under now text (parse_uuid (codes text)) w

unfoldable pub order_under : Option Uuid → List Order → Option Order
unfolding find_first
order_under none orders = none
order_under (some id) orders = find_first (λ (o : Order). o.id == id) orders

-- `_reconstruct_invoice_from_order`
unfoldable pub reconstruct_invoice_from_order : Option String → List Order → Option Order
unfolding order_under
reconstruct_invoice_from_order none orders = none
reconstruct_invoice_from_order (some text) orders = order_under (parse_uuid (codes text)) orders

unfoldable pub payload_of : Option StoredInvoice → Option Order → InvoicePayload
payload_of (some invoice) order = stored invoice
payload_of none (some order) = from_order order
payload_of none none = no_payload

-- `invoice_payload.get("session_id")`; no payload has a merchant.
unfoldable pub payload_session : InvoicePayload → Option String
payload_session (stored (dumped invoice)) = some invoice.session_id
payload_session (stored (made_up id lines)) = none
payload_session (from_order order) = some order.session_id
payload_session no_payload = none

unfoldable pub session_or : Option String → Option String → Option String
unfolding has_text
session_or (some session) candidate = some session
session_or none none = none
session_or none (some candidate) = if has_text candidate then some candidate else none

-- The unique index of `invoice_audit` on invoice and payment, where NULLs are distinct.
unfoldable pub same_payment : Option String → Option String → Bool
same_payment (some a) (some b) = str_eq a b
same_payment (some a) none = false
same_payment none b = false

unfoldable pub has_row : String → Option String → List InvoiceAudit → Bool
unfolding any same_payment
has_row invoice_id payment_id = any (λ (r : InvoiceAudit).
    str_eq r.invoice_id invoice_id && same_payment r.razorpay_payment_id payment_id)

-- `_write_invoice_audit`: a row that the index refuses is dropped.
unfoldable pub write_invoice_audit : InvoiceAudit → List InvoiceAudit → List InvoiceAudit
unfolding has_row
write_invoice_audit row rows =
    if has_row row.invoice_id row.razorpay_payment_id rows then rows else rows ++ row ∷ []

unfoldable pub status_of : Bool → PaymentStatus
status_of true = success
status_of false = failed

unfoldable pub audit_invoice_id : Option String → Option String → Option String → String
audit_invoice_id (some id) order payment = id
audit_invoice_id none (some order) payment = order
audit_invoice_id none none (some payment) = payment
audit_invoice_id none none none = "unknown"

-- The row that a webhook asks for.
unfoldable pub audit_row : ℕ → Webhook → PaymentWorld → InvoiceAudit
unfolding extract_notes stripped load_invoice_from_redis reconstruct_invoice_from_order payload_of
    payload_session session_or is_payment_success status_of payment_id_of order_id_of
    audit_invoice_id
audit_row now h w =
    let notes = extract_notes h in
    let invoice_id = stripped notes.invoice_id in
    let payload =
      payload_of (load_invoice_from_redis now invoice_id w.shop)
        (reconstruct_invoice_from_order invoice_id w.orders) in
    record {
      invoice_id = audit_invoice_id invoice_id (order_id_of h) (payment_id_of h);
      session_id = session_or (stripped notes.session_id) (payload_session payload);
      merchant_id = stripped notes.merchant_id;
      payment_status = status_of (is_payment_success h);
      razorpay_payment_id = payment_id_of h;
      razorpay_order_id = order_id_of h;
      invoice_payload = payload;
      webhook_payload = h;
    }

unfoldable pub after_mark : World → Result Error (World × ℕ) → World
after_mark w (err e) = w
after_mark w (ok r) = r.0

-- `mark_reserved_paid`, where the id is no UUID nothing happens.
unfoldable pub mark_invoice : Bool → Option String → World → World
unfolding after_mark mark_reserved_paid
mark_invoice false id w = w
mark_invoice true none w = w
mark_invoice true (some id) w = after_mark w (mark_reserved_paid id w)

-- `process_webhook`
unfoldable pub process_webhook : ℕ → Webhook → PaymentWorld → PaymentWorld
unfolding audit_row write_invoice_audit mark_invoice is_payment_success extract_notes stripped
process_webhook now h w = record w {
  shop = mark_invoice (is_payment_success h) (stripped (extract_notes h).invoice_id) w.shop;
  invoice_audit = write_invoice_audit (audit_row now h w) w.invoice_audit;
}
