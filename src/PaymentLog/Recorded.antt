-- ===== src/PaymentLog/Recorded.antt =====
-- No payment is lost on the way from the queue to the audit, and what one bad message does.
use merchant_ai_agent.Base.{
  ℕ, zero, suc, ◌≡◌, refl, sym, ap, ◌∙◌, String, Bool, true, false, ◌&&◌, Option, none, some, List,
  [], ◌∷◌, ◌++◌, any, if◌then◌else◌, arith,
}
use merchant_ai_agent.Strings.{stripped}
use merchant_ai_agent.PaymentLog.{
  Webhook, InvoiceAudit, PaymentWorld, extract_notes, payment_id_of, order_id_of, audit_invoice_id,
  audit_row, has_row, write_invoice_audit, process_webhook,
}
use merchant_ai_agent.PaymentLog.Delivery.{interrupted, has_row-write}
use merchant_ai_agent.PaymentLog.Consumer.{
  Message, unreadable, read, Fault, no_fault, at_start, half_way, at_commit, Consumer, handle,
  message_at, poll_message, Event, poll, restart, consume, consume_all,
}

unfoldable pub has_payment : String → Option String → List InvoiceAudit → Bool
has_payment id none rows = true
has_payment id (some p) rows = has_row id (some p) rows

-- A webhook that names its payment has a row for its invoice and payment.
unfoldable pub on_record : Webhook → List InvoiceAudit → Bool
unfolding has_payment
on_record h rows =
    has_payment
      (audit_invoice_id (stripped (extract_notes h).invoice_id) (order_id_of h) (payment_id_of h))
      (payment_id_of h) rows

unfoldable pub is_done : List InvoiceAudit → Option Webhook → Bool
unfolding on_record
is_done rows none = false
is_done rows (some h) = on_record h rows

-- The first messages are readable and on record.
unfoldable pub all_recorded : ℕ → List Message → List InvoiceAudit → Bool
unfolding is_done
all_recorded zero ms rows = true
all_recorded (suc n) [] rows = true
all_recorded (suc n) (m ∷ ms) rows = is_done rows (read m) && all_recorded n ms rows

has_row-grows :
    (id p : String) (rows more : List InvoiceAudit)
    → has_row id (some p) rows ≡ true
    → has_row id (some p) (rows ++ more) ≡ true
unfolding has_row any
has_row-grows id p [] more h = cc
has_row-grows id p (r ∷ rows) more h = ground (arith, h, has_row-grows id p rows more)

has_payment-write :
    (id : String) (p : Option String) (rows : List InvoiceAudit) (row : InvoiceAudit)
    → has_payment id p rows ≡ true
    → has_payment id p (write_invoice_audit row rows) ≡ true
unfolding has_payment write_invoice_audit
has_payment-write id none rows row h = refl
has_payment-write id (some p) rows row h = go (has_row row.invoice_id row.razorpay_payment_id rows)
  where
    go : (b : Bool) → has_row id (some p) (if b then rows else rows ++ row ∷ []) ≡ true
    go true = h
    go false = has_row-grows id p rows (row ∷ []) h

is_done-write :
    (o : Option Webhook) (rows : List InvoiceAudit) (row : InvoiceAudit)
    → is_done rows o ≡ true
    → is_done (write_invoice_audit row rows) o ≡ true
unfolding is_done on_record
is_done-write none rows row h = h
is_done-write (some h) rows row e = has_payment-write _ (payment_id_of h) rows row e

all_recorded-write :
    (n : ℕ) (ms : List Message) (rows : List InvoiceAudit) (row : InvoiceAudit)
    → all_recorded n ms rows ≡ true
    → all_recorded n ms (write_invoice_audit row rows) ≡ true
unfolding all_recorded
all_recorded-write zero ms rows row h = refl
all_recorded-write (suc n) [] rows row h = refl
all_recorded-write (suc n) (m ∷ ms) rows row h =
    ground (arith, h, is_done-write (read m) rows row, all_recorded-write n ms rows row)

on_record-process :
    (now : ℕ) (h : Webhook) (w : PaymentWorld)
    → on_record h (write_invoice_audit (audit_row now h w) w.invoice_audit) ≡ true
unfolding on_record has_payment audit_row
on_record-process now h w = go (payment_id_of h) refl
  where
    key : String
    key = audit_invoice_id (stripped (extract_notes h).invoice_id) (order_id_of h) (payment_id_of h)

    go :
        (p : Option String)
        → payment_id_of h ≡ p
        → has_payment key p (write_invoice_audit (audit_row now h w) w.invoice_audit) ≡ true
    go none e = refl
    go (some p) e = has_row-write key p w.invoice_audit (audit_row now h w) refl e

all_recorded-next :
    (n : ℕ) (ms : List Message) (m : Message) (rows : List InvoiceAudit)
    → all_recorded n ms rows ≡ true
    → message_at n ms ≡ some m
    → is_done rows (read m) ≡ true
    → all_recorded (suc n) ms rows ≡ true
unfolding all_recorded message_at
all_recorded-next n [] m rows h at d = refl
all_recorded-next zero (x ∷ ms) m rows h at d = ground (arith, at, d)
all_recorded-next (suc n) (x ∷ ms) m rows h at d =
    ground (arith, h, at, d, all_recorded-next n ms m rows)

-- The consumer stands at its last commit, and all messages before it are on record.
abbrev pub IsCaughtUp : List Message → Consumer → Type 0
IsCaughtUp ms c =
    (c.position ≡ c.committed) × (all_recorded c.committed ms c.world.invoice_audit ≡ true)

handled-IsCaughtUp :
    (fault : Fault) (now : ℕ) (ms : List Message) (m : Message) (c : Consumer) (o : Option Webhook)
    → message_at c.position ms ≡ some m
    → read m ≡ o
    → IsCaughtUp ms c
    → IsCaughtUp ms (handle fault now o c)
unfolding handle process_webhook interrupted is_done on_record
handled-IsCaughtUp fault now ms m c none at e good = good
handled-IsCaughtUp at_start now ms m c (some h) at e good = good
handled-IsCaughtUp half_way now ms m c (some h) at e (same, done) =
    (same, all_recorded-write c.committed ms c.world.invoice_audit (audit_row now h c.world) done)
handled-IsCaughtUp at_commit now ms m c (some h) at e (same, done) =
    (same, all_recorded-write c.committed ms c.world.invoice_audit (audit_row now h c.world) done)
handled-IsCaughtUp no_fault now ms m c (some h) at e (same, done) =
    let row = audit_row now h c.world in
    let rows = write_invoice_audit row c.world.invoice_audit in
    let kept : all_recorded c.position ms rows ≡ true =
      rw same (all_recorded-write c.committed ms c.world.invoice_audit row done) in
    (refl, all_recorded-next c.position ms m rows kept at (rw e (on_record-process now h c.world)))

consume-IsCaughtUp :
    (ms : List Message) (event : Event) (c : Consumer)
    → IsCaughtUp ms c
    → IsCaughtUp ms (consume ms event c)
unfolding consume poll_message
consume-IsCaughtUp ms (poll fault now) c good = go (message_at c.position ms) refl
  where
    go :
        (o : Option Message)
        → message_at c.position ms ≡ o
        → IsCaughtUp ms (poll_message fault now o c)
    go none e = good
    go (some m) e = handled-IsCaughtUp fault now ms m c (read m) e refl good
consume-IsCaughtUp ms restart c (same, done) = (refl, done)

-- From the start of the queue on, whatever fails and however often the process is restarted, the
-- consumer has committed only messages whose payments are on record.
pub consume_all-IsCaughtUp :
    (ms : List Message) (events : List Event) (c : Consumer)
    → IsCaughtUp ms c
    → IsCaughtUp ms (consume_all ms events c)
unfolding consume_all
consume_all-IsCaughtUp ms [] c good = good
consume_all-IsCaughtUp ms (event ∷ events) c good =
    consume_all-IsCaughtUp ms events (consume ms event c) (consume-IsCaughtUp ms event c good)

stuck :
    (ms : List Message) (event : Event) (c : Consumer)
    → c.position ≡ c.committed
    → message_at c.committed ms ≡ some unreadable
    → consume ms event c ≡ c
unfolding consume poll_message handle read
stuck ms (poll fault now) c same at = rw same (rw at refl)
stuck ms restart c same at = ap (λ (p : ℕ). record c { position = p }) (sym same)

-- A message that can not be read holds up its partition for good: no round and no restart gets past
-- it.
pub unreadable_blocks :
    (ms : List Message) (events : List Event) (c : Consumer)
    → c.position ≡ c.committed
    → message_at c.committed ms ≡ some unreadable
    → (consume_all ms events c).committed ≡ c.committed
unfolding consume_all
unreadable_blocks ms [] c same at = refl
unreadable_blocks ms (event ∷ events) c same at =
    ap (λ (next : Consumer). (consume_all ms events next).committed) (stuck ms event c same at)
    ∙ unreadable_blocks ms events c same at
