-- ===== src/Invoice/Recorded.antt =====
-- The order row of an invoice that services/merchant_agent/invoice_service.py has made.
use merchant_ai_agent.Base.{
  ℕ, ◌^◌, ◌<◌, ◌≡◌, refl, subst, String, true, Option, none, some, List, any, ◌==◌, arith,
}
use merchant_ai_agent.Base.Results.{Result, ok, err, bind-returned, ok-injective}
use merchant_ai_agent.Uuid.{Uuid, show_uuid, parse_uuid, codes}
use merchant_ai_agent.Uuid.Shown.Parses.{parsed-bounded}
use merchant_ai_agent.Invoice.Schema.{Invoice, InvoiceLineItem, AcceptedOffer}
use merchant_ai_agent.Invoice.Totals.{Fees}
use merchant_ai_agent.Invoice.Service.{
  Order, OrderTables, InvoiceError, Request, nonempty, invoice_lines, order_id_of, free_id,
  accepted_offers_of, issue, invoice_of, order_of, generate_invoice,
}

-- The invoice carries the id of a row of the table.
pub record IsListed (orders : List Order) (inv : Invoice) : Type 0 where
  pub id : Uuid
  pub bounded : id < 2 ^ 128
  pub is_shown : inv.order_id ≡ show_uuid id
  pub has_row : any (λ (o : Order). o.id == id) orders ≡ true

given-bounded :
    (fresh : Uuid) (o : Option Uuid) (text : String) (id : Uuid)
    → parse_uuid (codes text) ≡ o
    → ◌≡◌ {A = Result InvoiceError Uuid}
        (elim o [ none ↦ err InvoiceError.value_error | some u ↦ ok u ])
        (ok id)
    → id < 2 ^ 128
given-bounded fresh none text id e h = cc
given-bounded fresh (some u) text id e h =
    let same : u ≡ id = cc in subst (λ v. v < 2 ^ 128) same (parsed-bounded (codes text) u e)

order_id_of-bounded :
    (fresh : Uuid) (text : Option String) (id : Uuid)
    → fresh < 2 ^ 128
    → order_id_of fresh text ≡ ok id
    → id < 2 ^ 128
unfolding order_id_of
order_id_of-bounded fresh text id h e = go (nonempty text) e
  where
    go :
        (o : Option String)
        → ◌≡◌ {A = Result InvoiceError Uuid}
            (elim o [
              | none ↦ ok fresh
              | some given ↦ elim (parse_uuid (codes given)) [
                | none ↦ err InvoiceError.value_error
                | some u ↦ ok u
              ]
            ])
            (ok id)
        → id < 2 ^ 128
    go none e = let same : fresh ≡ id = cc in subst (λ v. v < 2 ^ 128) same h
    go (some given) e = given-bounded fresh (parse_uuid (codes given)) given id refl e

issued-IsListed :
    (name : String) (fees : Fees) (now : ℕ) (r : Request) (db : OrderTables)
    (lines : List InvoiceLineItem) (id : Uuid) (offers : List AcceptedOffer)
    → id < 2 ^ 128
    → let made = issue name fees now r db lines id offers in IsListed made.0.orders made.1
unfolding issue invoice_of order_of any
issued-IsListed name fees now r db lines id offers bounded = record {
  id = id;
  bounded = bounded;
  is_shown = refl;
  has_row = ground arith;
}

-- An invoice that is made carries the id of its row.
pub invoice-IsListed :
    (name : String) (fees : Fees) (fresh : Uuid) (now : ℕ) (r : Request) (db : OrderTables)
    (made : OrderTables × Invoice)
    → fresh < 2 ^ 128
    → generate_invoice name fees fresh now r db ≡ ok made
    → IsListed made.0.orders made.1
unfolding generate_invoice
invoice-IsListed name fees fresh now r db made bounded e =
    let (lines, e₁, e₂) = bind-returned (invoice_lines r.line_items) _ made e in
    let (id, e₃, e₄) = bind-returned (order_id_of fresh r.order_id) _ made e₂ in
    let (_, free, e₅) = bind-returned (free_id id db) _ made e₄ in
    let (offers, e₆, e₇) = bind-returned (accepted_offers_of r.accepted_offers) _ made e₅ in
    subst (λ (m : OrderTables × Invoice). IsListed m.0.orders m.1) (ok-injective _ made e₇)
      (issued-IsListed name fees now r db lines id offers
        (order_id_of-bounded fresh r.order_id id bounded e₃))
