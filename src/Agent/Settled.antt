-- ===== src/Agent/Settled.antt =====
-- The four outcomes of an invoice: what the customer is told, what is held, which link is alive.
use merchant_ai_agent.Base.{
  ℕ, ◌≡◌, ◌↔◌, refl, String, Bool, true, false, Option, none, some, [], ◌∷◌, str_eq, or_else,
  is_some, arith, ap, ◌∙◌,
}
use merchant_ai_agent.Invoice.Schema.{Invoice}
use merchant_ai_agent.Agent.{
  OrderState, invoiced, awaiting_fields, orphaned_payment_link_risk,
  reservation_failed_payment_voided,
}
use merchant_ai_agent.Agent.Outcome.{
  Clients, link_cancelled, result_or_exception, resolve_merchant_id, invoice_id_text, dispatch_to,
  dispatch_invoice_processing, succeeded, url_of, expiry_of, with_link, with_payment_expiry,
  with_hold_expiry, settle_invoiced, settle_failed, Effects, cancellation_audits, cancel_link,
  settle, resolve_invoice_outcome,
}

-- The two nodes in a row.
pub process_invoice : Clients → String → ℕ → OrderState → OrderState × Effects
process_invoice clients default_mid link_end s =
    resolve_invoice_outcome (some clients) default_mid link_end
      (dispatch_invoice_processing (some clients) default_mid s).0

-- What a turn leaves behind, by the answers of the reservation and of the payment service. Stock is
-- held exactly if the order is invoiced; the customer gets a link only if both succeeded; and the
-- payment service is asked once to cancel a link whose order has no stock. That this call raised is on
-- record; an answer that the link was not cancelled is not.
pub record IsSettled (held paid : Bool) (clients : Clients) (merchant_id id : String)
    (t : OrderState) (fx : Effects) : Type 0 where
  pub invoiced_iff_held : (t.status ≡ invoiced) ↔ (held ≡ true)
  pub invoice_iff_held : is_some t.invoice ≡ held
  pub link_needs_both : is_some t.payment_link_url ≡ true → (held ≡ true) × (paid ≡ true)
  pub link_voided : held ≡ false → paid ≡ true → fx.calls ≡ link_cancelled id ∷ []
  pub exception_recorded :
      held ≡ false
      → paid ≡ true
      → clients.cancel_payment_link merchant_id id ≡ none
      → fx.audits ≡ orphaned_payment_link_risk ∷ reservation_failed_payment_voided ∷ []
  pub answer_unread :
      (cancelled : Bool)
      → held ≡ false
      → paid ≡ true
      → clients.cancel_payment_link merchant_id id ≡ some cancelled
      → fx.audits ≡ reservation_failed_payment_voided ∷ []
  pub link_kept : held ≡ true → fx.calls ≡ []
  pub confirmation_used : (t.awaiting_invoice_confirmation ≡ false) × (t.invoice_proceed ≡ false)

with_link-is_some :
    (url : Option String) (o : Option Invoice) → is_some (with_link url o) ≡ is_some o
unfolding with_link
with_link-is_some none o = refl
with_link-is_some (some url) none = refl
with_link-is_some (some url) (some invoice) = ground arith

with_payment_expiry-is_some :
    (t : Option ℕ) (o : Option Invoice) → is_some (with_payment_expiry t o) ≡ is_some o
unfolding with_payment_expiry
with_payment_expiry-is_some none o = refl
with_payment_expiry-is_some (some t) none = refl
with_payment_expiry-is_some (some t) (some invoice) = refl

with_hold_expiry-is_some :
    (t : Option ℕ) (o : Option Invoice) → is_some (with_hold_expiry t o) ≡ is_some o
unfolding with_hold_expiry
with_hold_expiry-is_some none o = refl
with_hold_expiry-is_some (some t) none = refl
with_hold_expiry-is_some (some t) (some invoice) = refl

no-status : awaiting_fields ≡ invoiced → false ≡ true
no-status e = cc

no-truth : false ≡ true → awaiting_fields ≡ invoiced
no-truth e = cc

settle-IsSettled :
    (held paid : Bool) (clients : Clients) (merchant_id id : String) (link_end : ℕ) (s : OrderState)
    (invoice : Invoice)
    → s.invoice ≡ some invoice
    → str_eq id "" ≡ false
    → let (t, fx) = settle held paid (some clients) merchant_id id link_end s in
      IsSettled held paid clients merchant_id id t fx
unfolding settle settle_invoiced settle_failed cancel_link cancellation_audits with_link
    with_payment_expiry with_hold_expiry
settle-IsSettled true true clients mid id link_end s invoice e n =
    let url = url_of s.payment_result in
    let expiry = or_else (expiry_of s.payment_result) (some link_end) in
    let linked = with_link url s.invoice in
    let dated = with_payment_expiry expiry linked in
    let kept : is_some (with_hold_expiry (expiry_of s.reservation_result) dated) ≡ true =
      with_hold_expiry-is_some (expiry_of s.reservation_result) dated
      ∙ with_payment_expiry-is_some expiry linked
      ∙ with_link-is_some url s.invoice
      ∙ ap is_some e in
    record {
      invoiced_iff_held = ((λ _. refl), (λ _. refl));
      invoice_iff_held = kept;
      link_needs_both = λ _. (refl, refl);
      link_voided = λ h _. cc;
      exception_recorded = λ h _ _. cc;
      answer_unread = λ _ h _ _. cc;
      link_kept = λ _. refl;
      confirmation_used = (refl, refl);
    }
settle-IsSettled true false clients mid id link_end s invoice e n =
    let kept : is_some (with_hold_expiry (expiry_of s.reservation_result) s.invoice) ≡ true =
      with_hold_expiry-is_some (expiry_of s.reservation_result) s.invoice ∙ ap is_some e in
    record {
      invoiced_iff_held = ((λ _. refl), (λ _. refl));
      invoice_iff_held = kept;
      link_needs_both = λ h. cc;
      link_voided = λ h _. cc;
      exception_recorded = λ h _ _. cc;
      answer_unread = λ _ h _ _. cc;
      link_kept = λ _. refl;
      confirmation_used = (refl, refl);
    }
settle-IsSettled false true clients mid id link_end s invoice e n = record {
  invoiced_iff_held = (no-status, no-truth);
  invoice_iff_held = refl;
  link_needs_both = λ h. cc;
  link_voided = λ _ _. rw n refl;
  exception_recorded = λ _ _ h. rw n (rw h refl);
  answer_unread = λ _ _ _ h. rw n (rw h refl);
  link_kept = λ h. cc;
  confirmation_used = (refl, refl);
}
settle-IsSettled false false clients mid id link_end s invoice e n = record {
  invoiced_iff_held = (no-status, no-truth);
  invoice_iff_held = refl;
  link_needs_both = λ h. cc;
  link_voided = λ _ h. cc;
  exception_recorded = λ _ h _. cc;
  answer_unread = λ _ _ h _. cc;
  link_kept = λ h. cc;
  confirmation_used = (refl, refl);
}

-- An invoice with an id, sent to the reservation and the payment service at once, is settled by their
-- two answers, whatever they are.
pub process_invoice-IsSettled :
    (clients : Clients) (default_mid : String) (link_end : ℕ) (s : OrderState) (invoice : Invoice)
    → str_eq invoice.order_id "" ≡ false
    → let id = invoice.order_id in
      let merchant_id = resolve_merchant_id default_mid s.merchant_id in
      let held = (result_or_exception (clients.submit_invoice id invoice)).success in
      let paid =
        (result_or_exception
          (clients.create_payment_link merchant_id id invoice.total_paise)).success in
      let (t, fx) =
        process_invoice clients default_mid link_end (record s { invoice = some invoice }) in
      IsSettled held paid clients merchant_id id t fx
unfolding process_invoice resolve_invoice_outcome dispatch_invoice_processing dispatch_to succeeded
    invoice_id_text
process_invoice-IsSettled clients default_mid link_end s invoice n = rw n (
    settle-IsSettled _ _ clients (resolve_merchant_id default_mid s.merchant_id) invoice.order_id
      link_end _ invoice refl n)
