-- ===== src/Agent/Outcome.antt =====
-- `dispatch_invoice_processing` and `resolve_invoice_outcome` of
-- services/merchant_agent/graph/nodes.py: the reservation and the payment link are asked for side by
-- side, and the four outcomes are settled.
use merchant_ai_agent.Base.{
  ℕ, String, Bool, true, false, Option, none, some, List, [], ◌∷◌, ◌++◌, str_eq, if◌then◌else◌,
  or_else,
}
use merchant_ai_agent.Invoice.Schema.{Invoice}
use merchant_ai_agent.Agent.{
  Unavailable, OrderState, invoiced, awaiting_fields, Reply, AuditAction,
  orphaned_payment_link_risk, invoice_fulfilled, reservation_failed_payment_voided, ServiceResult,
  truthy,
}

-- The failure that stands for an exception, for an answer that is no dictionary, and for a missing
-- client.
abbrev pub failure : ServiceResult
failure = record {
  success = false;
  payment_link_url = none;
  expires_at = none;
  unavailable_items = [];
}

-- What the two services answer to their requests, an exception being none. The answer to the
-- cancellation of a payment link says whether it was cancelled, in `success` and `cancelled`.
pub record Clients : Type 0 where
  pub submit_invoice : String → Invoice → Option ServiceResult
  pub create_payment_link : String → String → ℕ → Option ServiceResult
  pub cancel_payment_link : String → String → Option Bool

-- The calls that were made.
pub data Call : Type 0 where
  submitted : String → Call
  link_created : String → ℕ → Call
  link_cancelled : String → Call

-- `_result_or_exception`, by the fields that are read later.
unfoldable pub result_or_exception : Option ServiceResult → ServiceResult
result_or_exception none = failure
result_or_exception (some r) = r

-- `_resolve_merchant_id`, on ids without surrounding blanks.
unfoldable pub resolve_merchant_id : String → Option String → String
unfolding truthy
resolve_merchant_id default_mid none =
    if str_eq default_mid "" then "00000000-0000-0000-0000-000000000001" else default_mid
resolve_merchant_id default_mid (some mid) =
    if str_eq mid ""
    then (if str_eq default_mid "" then "00000000-0000-0000-0000-000000000001" else default_mid)
    else mid

-- `str(invoice.get("order_id") or state.get("reservation_invoice_id") or "")`
unfoldable pub text_of : Option String → String
text_of none = ""
text_of (some id) = id

unfoldable pub invoice_id_text : Option Invoice → Option String → String
unfolding text_of
invoice_id_text none reserved = text_of reserved
invoice_id_text (some invoice) reserved =
    if str_eq invoice.order_id "" then text_of reserved else invoice.order_id

-- With the clients of `NodeDependencies`, `none` where they are not configured.
unfoldable pub dispatch_to :
    Option Clients → String → Option Invoice → OrderState → OrderState × List Call
unfolding result_or_exception resolve_merchant_id invoice_id_text
dispatch_to clients default_mid none s =
    (record s { reservation_result = some failure; payment_result = none }, [])
dispatch_to none default_mid (some invoice) s =
    (record s { reservation_result = some failure; payment_result = some failure }, [])
dispatch_to (some clients) default_mid (some invoice) s =
    let id = invoice_id_text (some invoice) s.reservation_invoice_id in
    let merchant_id = resolve_merchant_id default_mid s.merchant_id in
    (
      record s {
        reservation_result = some (result_or_exception (clients.submit_invoice id invoice));
        payment_result =
            some (
              result_or_exception (clients.create_payment_link merchant_id id invoice.total_paise));
      },
      submitted id ∷ link_created id invoice.total_paise ∷ [],
    )

unfoldable pub dispatch_invoice_processing :
    Option Clients → String → OrderState → OrderState × List Call
unfolding dispatch_to
dispatch_invoice_processing clients default_mid s = dispatch_to clients default_mid s.invoice s

unfoldable pub succeeded : Option ServiceResult → Bool
succeeded none = false
succeeded (some r) = r.success

unfoldable pub url_of : Option ServiceResult → Option String
url_of none = none
url_of (some r) = r.payment_link_url

unfoldable pub expiry_of : Option ServiceResult → Option ℕ
expiry_of none = none
expiry_of (some r) = r.expires_at

unfoldable pub unavailable_of : Option ServiceResult → List Unavailable
unavailable_of none = []
unavailable_of (some r) = r.unavailable_items

unfoldable pub first_of : List Unavailable → Option Unavailable
first_of [] = none
first_of (u ∷ us) = some u

-- Without an invoice both calls have failed before, so the links are not set.
unfoldable pub with_link : Option String → Option Invoice → Option Invoice
with_link none invoice = invoice
with_link (some url) none = none
with_link (some url) (some invoice) =
    if str_eq url "" then some invoice else some (record invoice { payment_link_url = some url })

unfoldable pub with_payment_expiry : Option ℕ → Option Invoice → Option Invoice
with_payment_expiry none invoice = invoice
with_payment_expiry (some t) none = none
with_payment_expiry (some t) (some invoice) = some (record invoice { payment_expires_at = some t })

unfoldable pub with_hold_expiry : Option ℕ → Option Invoice → Option Invoice
with_hold_expiry none invoice = invoice
with_hold_expiry (some t) none = none
with_hold_expiry (some t) (some invoice) = some (record invoice { reservation_expires_at = some t })

-- The ends of the branches, in which the confirmation is used up.
unfoldable pub settle_invoiced :
    Option ℕ → Option String → Option ℕ → Option Invoice → Reply → OrderState → OrderState
settle_invoiced hold url expiry invoice reply s = record s {
  status = invoiced;
  reply = reply;
  invoice = invoice;
  payment_link_url = url;
  payment_expires_at = expiry;
  reservation_expires_at = hold;
  awaiting_invoice_confirmation = false;
  invoice_proceed = false;
}

unfoldable pub settle_failed : Reply → OrderState → OrderState
unfolding unavailable_of first_of
settle_failed reply s = record s {
  status = awaiting_fields;
  reply = reply;
  unavailable_items = unavailable_of s.reservation_result;
  unavailable_item = first_of (unavailable_of s.reservation_result);
  payment_link_url = none;
  payment_expires_at = none;
  reservation_expires_at = none;
  invoice = none;
  awaiting_invoice_confirmation = false;
  invoice_proceed = false;
}

-- What a node did beside its updates.
pub record Effects : Type 0 where
  pub calls : List Call
  pub audits : List AuditAction

-- An exception has an audit entry. No answer is read, whatever it says.
unfoldable pub cancellation_audits : Option Bool → List AuditAction
cancellation_audits none = orphaned_payment_link_risk ∷ []
cancellation_audits (some cancelled) = []

-- The cancellation of the payment link.
unfoldable pub cancel_link : Option Clients → String → String → Effects
unfolding cancellation_audits
cancel_link none merchant_id id = record { calls = []; audits = [] }
cancel_link (some clients) merchant_id id =
    if str_eq id "" then record { calls = []; audits = [] } else record {
      calls = link_cancelled id ∷ [];
      audits = cancellation_audits (clients.cancel_payment_link merchant_id id);
    }

-- The branches by whether the reservation and the payment link succeeded. `now` is the clock plus
-- the life of a payment link.
unfoldable pub settle :
    Bool → Bool → Option Clients → String → String → ℕ → OrderState → OrderState × Effects
unfolding settle_invoiced settle_failed with_link with_payment_expiry with_hold_expiry url_of
    expiry_of cancel_link
settle true true clients merchant_id id link_end s =
    let url = url_of s.payment_result in
    let expiry = or_else (expiry_of s.payment_result) (some link_end) in
    let hold = expiry_of s.reservation_result in
    let invoice = with_hold_expiry hold (with_payment_expiry expiry (with_link url s.invoice)) in
    (
      record (settle_invoiced hold url expiry invoice Reply.payment_link_sent s) {
        unavailable_items = [];
        unavailable_item = none;
      },
      record { calls = []; audits = invoice_fulfilled ∷ [] },
    )
settle true false clients merchant_id id link_end s =
    let hold = expiry_of s.reservation_result in
    (
      settle_invoiced hold none none (with_hold_expiry hold s.invoice) Reply.payment_link_failed s,
      record { calls = []; audits = AuditAction.payment_link_failed ∷ [] },
    )
settle false true clients merchant_id id link_end s =
    let cancelled = cancel_link clients merchant_id id in
    (
      settle_failed Reply.link_voided s,
      record {
        calls = cancelled.calls;
        audits = cancelled.audits ++ reservation_failed_payment_voided ∷ [];
      },
    )
settle false false clients merchant_id id link_end s = (
  settle_failed Reply.reservation_failed s,
  record { calls = []; audits = AuditAction.reservation_failed ∷ [] },
)

unfoldable pub with_invoice_id : String → Option String → Option String
with_invoice_id id reserved = if str_eq id "" then reserved else some id

-- `resolve_invoice_outcome`, given the end of the life of a payment link that is made now.
unfoldable pub resolve_invoice_outcome :
    Option Clients → String → ℕ → OrderState → OrderState × Effects
unfolding settle succeeded invoice_id_text resolve_merchant_id with_invoice_id
resolve_invoice_outcome clients default_mid link_end s =
    let id = invoice_id_text s.invoice s.reservation_invoice_id in
    settle (succeeded s.reservation_result) (succeeded s.payment_result) clients
      (resolve_merchant_id default_mid s.merchant_id) id link_end
      (record s { reservation_invoice_id = with_invoice_id id s.reservation_invoice_id })
