-- ===== src/PaymentLog/Kept.antt =====
-- What the consumer of the webhooks keeps of the rows of `invoice_audit`, for a property of webhooks.
use merchant_ai_agent.Base.{
  ℕ, zero, suc, Option, none, some, List, [], ◌∷◌, inl, inr, All, All-append, Bool-cases,
}
use merchant_ai_agent.PaymentLog.{
  Webhook, InvoiceAudit, PaymentWorld, audit_row, write_invoice_audit, has_row, process_webhook,
}
use merchant_ai_agent.PaymentLog.Delivery.{interrupted}
use merchant_ai_agent.PaymentLog.Consumer.{
  Message, Consumer, Event, Fault, no_fault, at_start, half_way, at_commit, read, handle,
  message_at, poll_message, poll, restart, consume,
}

module _ (P : Webhook → Type 0) where
  abbrev pub Recorded : List InvoiceAudit → Type 0
  Recorded = All (λ row. P row.webhook_payload)

  row-Recorded :
      (row : InvoiceAudit) (rows : List InvoiceAudit)
      → P row.webhook_payload
      → Recorded rows
      → Recorded (write_invoice_audit row rows)
  unfolding write_invoice_audit
  row-Recorded row rows p all =
      elim (Bool-cases (has_row row.invoice_id row.razorpay_payment_id rows)) [
        | inl e ↦ rw e all
        | inr e ↦ rw e (All-append _ rows (row ∷ []) all (p, tt))
      ]

  written-Recorded :
      (now : ℕ) (h : Webhook) (w : PaymentWorld) (rows : List InvoiceAudit)
      → P h
      → Recorded rows
      → Recorded (write_invoice_audit (audit_row now h w) rows)
  unfolding audit_row
  written-Recorded now h w rows p all = row-Recorded (audit_row now h w) rows p all

  abbrev pub Reads : Option Webhook → Type 0
  Reads none = Unit
  Reads (some h) = P h

  handle-Recorded :
      (fault : Fault) (now : ℕ) (h : Option Webhook) (c : Consumer)
      → Reads h
      → Recorded c.world.invoice_audit
      → Recorded (handle fault now h c).world.invoice_audit
  unfolding handle process_webhook interrupted
  handle-Recorded fault now none c p all = all
  handle-Recorded no_fault now (some h) c p all = written-Recorded now h c.world _ p all
  handle-Recorded at_start now (some h) c p all = all
  handle-Recorded half_way now (some h) c p all = written-Recorded now h c.world _ p all
  handle-Recorded at_commit now (some h) c p all = written-Recorded now h c.world _ p all

  polled-Recorded :
      (fault : Fault) (now n : ℕ) (messages : List Message) (c : Consumer)
      → All (λ m. Reads (read m)) messages
      → Recorded c.world.invoice_audit
      → Recorded (poll_message fault now (message_at n messages) c).world.invoice_audit
  unfolding poll_message message_at
  polled-Recorded fault now n [] c ps all = all
  polled-Recorded fault now zero (m ∷ messages) c ps all =
      handle-Recorded fault now (read m) c ps.0 all
  polled-Recorded fault now (suc n) (m ∷ messages) c ps all =
      polled-Recorded fault now n messages c ps.1 all

  pub consume-Recorded :
      (messages : List Message) (event : Event) (c : Consumer)
      → All (λ m. Reads (read m)) messages
      → Recorded c.world.invoice_audit
      → Recorded (consume messages event c).world.invoice_audit
  unfolding consume
  consume-Recorded messages (poll fault now) c ps all =
      polled-Recorded fault now c.position messages c ps all
  consume-Recorded messages restart c ps all = all
