-- ===== src/PaymentLog/Delivery.antt =====
-- Webhooks that are delivered again, in whole or after a crash in between, and those that follow one
-- another.
use merchant_ai_agent.Base.{
  ℕ, ◌≡◌, refl, sym, ◌∙◌, String, Bool, true, false, Option, none, some, List, [], ◌∷◌, ◌++◌,
  eq_refl, any, if◌then◌else◌, arith, update_where,
}
use merchant_ai_agent.Base.Results.{Result, ok, err, ◌>>=◌}
use merchant_ai_agent.Uuid.{Uuid}
use merchant_ai_agent.Strings.{stripped}
use merchant_ai_agent.Inventory.{ReservedItem, paid}
use merchant_ai_agent.Reservation.{World, Error, uuid_of}
use merchant_ai_agent.Reservation.Expiry.{mark_reserved_paid, mark_paid, is_hold_of, set_status}
use merchant_ai_agent.PaymentLog.{
  Webhook, InvoiceAudit, PaymentWorld, extract_notes, is_payment_success, payment_id_of,
  order_id_of, same_payment, has_row, write_invoice_audit, audit_invoice_id, audit_row, after_mark,
  mark_invoice, process_webhook,
}

has_row-append :
    (id p : String) (rows : List InvoiceAudit) (row : InvoiceAudit)
    → row.invoice_id ≡ id
    → row.razorpay_payment_id ≡ some p
    → has_row id (some p) (rows ++ row ∷ []) ≡ true
unfolding has_row any same_payment
has_row-append id p [] row e f = rw e (rw f (rw (eq_refl id) (rw (eq_refl p) refl)))
has_row-append id p (r ∷ rows) row e f = ground (arith, has_row-append id p rows row e f)

pub has_row-write :
    (id p : String) (rows : List InvoiceAudit) (row : InvoiceAudit)
    → row.invoice_id ≡ id
    → row.razorpay_payment_id ≡ some p
    → has_row id (some p) (write_invoice_audit row rows) ≡ true
unfolding write_invoice_audit
has_row-write id p rows row e f = go (has_row row.invoice_id row.razorpay_payment_id rows) refl
  where
    same : has_row row.invoice_id row.razorpay_payment_id rows ≡ has_row id (some p) rows
    same = rw e (rw f refl)

    go :
        (b : Bool)
        → has_row row.invoice_id row.razorpay_payment_id rows ≡ b
        → has_row id (some p) (if b then rows else rows ++ row ∷ []) ≡ true
    go true h = sym same ∙ h
    go false h = has_row-append id p rows row e f

-- A row with the key of one that is there changes nothing.
write-has_row :
    (id p : String) (rows : List InvoiceAudit) (row : InvoiceAudit)
    → row.invoice_id ≡ id
    → row.razorpay_payment_id ≡ some p
    → has_row id (some p) rows ≡ true
    → write_invoice_audit row rows ≡ rows
unfolding write_invoice_audit
write-has_row id p rows row e f h = rw e (rw f (rw h refl))

settled_twice :
    (i : Uuid) (rows : List ReservedItem)
    → update_where
        (is_hold_of i)
        (set_status paid)
        (update_where (is_hold_of i) (set_status paid) rows)
      ≡ update_where (is_hold_of i) (set_status paid) rows
unfolding update_where is_hold_of set_status
settled_twice i [] = refl
settled_twice i (r ∷ rows) = ground (arith, settled_twice i rows)

mark_paid_twice :
    (i : Uuid) (w : World)
    → let once = record w { db = (mark_paid i w.db).0 } in
      record once { db = (mark_paid i once.db).0 } ≡ once
unfolding mark_paid
mark_paid_twice i w = rw (settled_twice i w.db.reserved_items) refl

mark_twice :
    (b : Bool) (id : Option String) (w : World)
    → mark_invoice b id (mark_invoice b id w) ≡ mark_invoice b id w
unfolding mark_invoice after_mark mark_reserved_paid
mark_twice false id w = refl
mark_twice true none w = refl
mark_twice true (some text) w = go (uuid_of text)
  where
    step : Result Error Uuid → World → World
    step u v =
        after_mark v (do i ← u; ok (record v { db = (mark_paid i v.db).0 }, (mark_paid i v.db).1))

    go : (u : Result Error Uuid) → step u (step u w) ≡ step u w
    go (err e) = refl
    go (ok i) = mark_paid_twice i w

-- What one delivery leaves behind if the process dies between the audit row and the payment mark.
unfoldable pub interrupted : ℕ → Webhook → PaymentWorld → PaymentWorld
interrupted now h w = record w {
  invoice_audit = write_invoice_audit (audit_row now h w) w.invoice_audit;
}

rebuilt-eq :
    (w : PaymentWorld) (s t : World) (a b : List InvoiceAudit)
    → s ≡ t
    → a ≡ b
    → ◌≡◌ {A = PaymentWorld}
        (record w { shop = s; invoice_audit = a })
        (record w { shop = t; invoice_audit = b })
rebuilt-eq w s t a b es ea = rw es (rw ea refl)

row-recorded :
    (now later : ℕ) (h : Webhook) (w v : PaymentWorld) (payment : String)
    → payment_id_of h ≡ some payment
    → let rows = write_invoice_audit (audit_row now h w) w.invoice_audit in
      write_invoice_audit (audit_row later h v) rows ≡ rows
unfolding audit_row
row-recorded now later h w v payment e =
    let key =
      audit_invoice_id (stripped (extract_notes h).invoice_id) (order_id_of h) (payment_id_of h) in
    write-has_row key payment _ _ refl e (has_row-write key payment w.invoice_audit _ refl e)

-- A webhook that names its payment may be delivered again, at any later time, after it was processed
-- or after the process died half way: the tables end up as after one undisturbed delivery.
pub delivered_again :
    (now later : ℕ) (h : Webhook) (w : PaymentWorld) (payment : String)
    → payment_id_of h ≡ some payment
    → (process_webhook later h (process_webhook now h w) ≡ process_webhook now h w)
      × (process_webhook later h (interrupted now h w) ≡ process_webhook now h w)
unfolding process_webhook interrupted
delivered_again now later h w payment e =
    let good = is_payment_success h in
    let id = stripped (extract_notes h).invoice_id in
    let rows = write_invoice_audit (audit_row now h w) w.invoice_audit in
    let marked = mark_invoice good id w.shop in
    (
      rebuilt-eq w (mark_invoice good id marked) marked _ rows (mark_twice good id w.shop)
          (row-recorded now later h w (process_webhook now h w) payment e),
      rebuilt-eq w marked marked _ rows refl
          (row-recorded now later h w (interrupted now h w) payment e),
    )

-- A payment is on record with its first webhook: a later one, with another outcome, leaves the audit
-- as it is.
pub first_webhook_stays :
    (now later : ℕ) (h₁ h₂ : Webhook) (w : PaymentWorld) (invoice payment : String)
    → stripped (extract_notes h₁).invoice_id ≡ some invoice
    → stripped (extract_notes h₂).invoice_id ≡ some invoice
    → payment_id_of h₁ ≡ some payment
    → payment_id_of h₂ ≡ some payment
    → (process_webhook later h₂ (process_webhook now h₁ w)).invoice_audit
      ≡ (process_webhook now h₁ w).invoice_audit
unfolding process_webhook audit_row audit_invoice_id
first_webhook_stays now later h₁ h₂ w invoice payment a b c d =
    let rows = write_invoice_audit (audit_row now h₁ w) w.invoice_audit in
    write-has_row invoice payment rows _ (rw b refl) d
      (has_row-write invoice payment w.invoice_audit _ (rw a refl) c)
