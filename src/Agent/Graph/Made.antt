-- ===== src/Agent/Graph/Made.antt =====
-- The invoice that `generate_invoice` of services/merchant_agent/graph/nodes.py has made goes with the
-- session to the end of the turn.
use merchant_ai_agent.Base.{
  ℕ, ◌^◌, ◌<◌, ◌≡◌, refl, ap, ◌∙◌, String, Bool, true, false, Option, none, some, List, str_eq,
}
use merchant_ai_agent.Base.Results.{Result, ok, err, ◌>>=◌, Ensures}
use merchant_ai_agent.Uuid.{Uuid, show_uuid}
use merchant_ai_agent.Uuid.Shown.Parses.{show_uuid-nonempty}
use merchant_ai_agent.Invoice.Schema.{Invoice}
use merchant_ai_agent.Invoice.Offers.{AcceptedSaving}
use merchant_ai_agent.Invoice.Service as Service
use merchant_ai_agent.Invoice.Service.{OrderTables, OrderLine, InvoiceError}
use merchant_ai_agent.Invoice.Recorded.{IsListed, invoice-IsListed}
use merchant_ai_agent.Agent.{OrderState, AuditAction}
use merchant_ai_agent.Agent.Outcome as Outcome
use merchant_ai_agent.Agent.Outcome.{Clients, Call, invoice_id_text, with_invoice_id}
use merchant_ai_agent.Agent.Closing as Closing
use merchant_ai_agent.Agent.Closing.{
  ClosingError, Issuer, accepted_savings, order_lines, issue_invoice, raise_as, with_invoice,
  invoice_request, invoice_error,
}
use merchant_ai_agent.Agent.Graph.Turn.{SessionStore}
use merchant_ai_agent.Agent.Graph.Spent.{IsSpent}

-- The invoice of the state carries the id of a row.
pub record IsMade (tables : OrderTables) (s : OrderState) : Type 0 where
  pub invoice : Invoice
  pub is_kept : s.invoice ≡ some invoice
  pub is_listed : IsListed tables.orders invoice

-- The session has had its invoice.
pub record IsServed (store : SessionStore) : Type 0 where
  pub id : Uuid
  pub bounded : id < 2 ^ 128
  pub is_spent : IsSpent (show_uuid id) id store

pub dispatched-invoice :
    (clients : Option Clients) (default_mid : String) (s : OrderState)
    → (Outcome.dispatch_invoice_processing clients default_mid s).0.invoice ≡ s.invoice
unfolding Outcome.dispatch_invoice_processing
dispatched-invoice clients default_mid s = go clients s.invoice refl
  where
    go :
        (clients : Option Clients) (invoice : Option Invoice)
        → s.invoice ≡ invoice
        → (Outcome.dispatch_to clients default_mid invoice s).0.invoice ≡ s.invoice
    go clients none e = refl
    go none (some i) e = refl
    go (some c) (some i) e = refl

settled-id :
    (held paid : Bool) (clients : Option Clients) (mid id : String) (link_end : ℕ) (s : OrderState)
    → (Outcome.settle held paid clients mid id link_end s).0.reservation_invoice_id
      ≡ s.reservation_invoice_id
unfolding Outcome.settle Outcome.settle_invoiced Outcome.settle_failed
settled-id true true clients mid id link_end s = refl
settled-id true false clients mid id link_end s = refl
settled-id false true clients mid id link_end s = refl
settled-id false false clients mid id link_end s = refl

named-id :
    (invoice : Invoice) (reserved : Option String) (id : Uuid)
    → invoice.order_id ≡ show_uuid id
    → with_invoice_id (invoice_id_text (some invoice) reserved) reserved ≡ some (show_uuid id)
unfolding with_invoice_id invoice_id_text
named-id invoice reserved id e =
    let named : str_eq invoice.order_id "" ≡ false =
      ap (λ t. str_eq t "") e ∙ show_uuid-nonempty id in
    rw named (rw named (ap (λ t. some t) e))

-- The outcome keeps the id of the invoice for the session.
pub outcome-id :
    (clients : Option Clients) (default_mid : String) (link_end : ℕ) (s : OrderState)
    (invoice : Invoice) (id : Uuid)
    → s.invoice ≡ some invoice
    → invoice.order_id ≡ show_uuid id
    → (Outcome.resolve_invoice_outcome clients default_mid link_end s).0.reservation_invoice_id
      ≡ some (show_uuid id)
unfolding Outcome.resolve_invoice_outcome
outcome-id clients default_mid link_end s invoice id kept shown =
    settled-id _ _ clients _ _ link_end _
    ∙ ap
        (λ o. with_invoice_id (invoice_id_text o s.reservation_invoice_id) s.reservation_invoice_id)
        kept
    ∙ named-id invoice s.reservation_invoice_id id shown

pub generate_invoice-IsMade :
    (issuer : Issuer) (session_id consumer : String) (s : OrderState) (tables : OrderTables)
    → issuer.fresh_id < 2 ^ 128
    → Ensures
        (λ (made : OrderState × OrderTables × List AuditAction). IsMade made.1 made.0)
        (Closing.generate_invoice issuer session_id consumer s tables)
unfolding Closing.generate_invoice with_invoice issue_invoice raise_as
generate_invoice-IsMade issuer session_id consumer s tables bounded =
    go (accepted_savings s) (order_lines s.line_items)
  where
    P : OrderState × OrderTables × List AuditAction → Type 0
    P made = IsMade made.1 made.0

    request : List AcceptedSaving → List OrderLine → Service.Request
    request a ls = invoice_request session_id consumer s ls a

    last :
        (r : Service.Request) (issued : Result InvoiceError (OrderTables × Invoice))
        → Service.generate_invoice issuer.merchant_name issuer.fees issuer.fresh_id issuer.issued_at
            r tables
          ≡ issued
        → Ensures P (do i ← raise_as invoice_error issued; ok (with_invoice s i))
    last r (err e) h = tt
    last r (ok i) h = record {
      invoice = i.1;
      is_kept = refl;
      is_listed =
          invoice-IsListed issuer.merchant_name issuer.fees issuer.fresh_id issuer.issued_at r
            tables i bounded h;
    }

    go :
        (accepted : Result ClosingError (List AcceptedSaving))
        (lines : Result ClosingError (List OrderLine))
        → Ensures P (do
          a ← accepted
          ls ← lines
          i ← issue_invoice issuer session_id consumer s tables a ls
          ok (with_invoice s i))
    go (err e) lines = tt
    go (ok a) (err e) = tt
    go (ok a) (ok ls) = last (request a ls) _ refl
