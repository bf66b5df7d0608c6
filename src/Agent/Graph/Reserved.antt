-- ===== src/Agent/Graph/Reserved.antt =====
-- The nodes of services/merchant_agent/graph/build_graph.py keep the invoice id that the session
-- reserved, and make no invoice with one whose order row is there.
use merchant_ai_agent.Base.{
  ℕ, ◌≡◌, refl, sym, subst, ap, ◌∙◌, String, Bool, true, false, Option, none, some, List, [], ◌∷◌,
  any, ◌==◌, str_eq, Bool-cases, inl, inr,
}
use merchant_ai_agent.Base.Results.{Result, ok, err, ◌>>=◌}
use merchant_ai_agent.Uuid.{Uuid, parse_uuid, codes}
use merchant_ai_agent.Invoice.Schema.{Invoice}
use merchant_ai_agent.Invoice.Offers.{AcceptedSaving}
use merchant_ai_agent.Invoice.Service as Service
use merchant_ai_agent.Invoice.Service.{Order, OrderTables, OrderLine, InvoiceError}
use merchant_ai_agent.Invoice.Consistent.{taken_id_refused}
use merchant_ai_agent.Agent.{MissingField, Unavailable, LineItem, OrderState, Profile, truthy}
use merchant_ai_agent.Agent.Session as Session
use merchant_ai_agent.Agent.Session.{OrderDraft, TurnRequest}
use merchant_ai_agent.Agent.Asked as Asked
use merchant_ai_agent.Agent.React as React
use merchant_ai_agent.Agent.Stock as Stock
use merchant_ai_agent.Agent.Stock.{Catalog, check_lines, with_unavailable}
use merchant_ai_agent.Agent.Missing.{conclude_check, orderable_line_items}
use merchant_ai_agent.Agent.Alternatives as Alternatives
use merchant_ai_agent.Agent.Closing as Closing
use merchant_ai_agent.Agent.Closing.{
  ClosingError, Issuer, offer_if, accepted_savings, order_lines, issue_invoice, invoice_request,
  raise_as, invoice_error, with_invoice,
}

module _ (id : String) (uuid : Uuid) (nonempty : str_eq id "" ≡ false)
    (parses : parse_uuid (codes id) ≡ some uuid) where
  refused :
      (issuer : Issuer) (session_id consumer : String) (s : OrderState) (tables : OrderTables)
      (accepted : List AcceptedSaving) (lines : List OrderLine)
      → s.reservation_invoice_id ≡ some id
      → any (λ (o : Order). o.id == uuid) tables.orders ≡ true
      → (e : ClosingError) × (issue_invoice issuer session_id consumer s tables accepted lines
          ≡ err e)
  unfolding issue_invoice raise_as invoice_request Service.order_id_of Service.nonempty
  refused issuer session_id consumer s tables accepted lines reserved taken =
      let r = invoice_request session_id consumer s lines accepted in
      let known : Service.order_id_of issuer.fresh_id r.order_id ≡ ok uuid =
        rw reserved (rw nonempty (rw parses refl)) in
      let (e, raised) =
        taken_id_refused issuer.merchant_name issuer.fees issuer.fresh_id uuid issuer.issued_at r
          tables known taken in
      (invoice_error e, rw raised refl)

  pub never_made :
      (issuer : Issuer) (session_id consumer : String) (s : OrderState) (tables : OrderTables)
      → s.reservation_invoice_id ≡ some id
      → any (λ (o : Order). o.id == uuid) tables.orders ≡ true
      → (e : ClosingError) × (Closing.generate_invoice issuer session_id consumer s tables ≡ err e)
  unfolding Closing.generate_invoice
  never_made issuer session_id consumer s tables reserved taken =
      go (accepted_savings s) (order_lines s.line_items)
    where
      issue : List AcceptedSaving → List OrderLine → Result ClosingError (OrderTables × Invoice)
      issue = issue_invoice issuer session_id consumer s tables

      go :
          (accepted : Result ClosingError (List AcceptedSaving))
          (lines : Result ClosingError (List OrderLine))
          → (e : ClosingError) × ((do
            a ← accepted
            ls ← lines
            i ← issue a ls
            ok (with_invoice s i))
              ≡ err e)
      go (err e) lines = (e, refl)
      go (ok a) (err e) = (e, refl)
      go (ok a) (ok ls) =
          let (e, raised) = refused issuer session_id consumer s tables a ls reserved taken in
          (e, rw raised refl)

abbrev pub IsReserved : String → OrderState → Type 0
IsReserved id s = s.reservation_invoice_id ≡ some id

pub loaded-IsReserved :
    (id : String) (s : OrderState) (persisted : Option OrderState) (draft : Option OrderDraft)
    (profile : Profile) (r : TurnRequest)
    → persisted ≡ some s
    → IsReserved id s
    → IsReserved id (Session.load_session persisted draft profile r)
unfolding Session.load_session Session.reset_turn Session.fill_from_draft Session.session_base
loaded-IsReserved id s none draft profile r e h = cc
loaded-IsReserved id s (some t) none profile r e h = let same : t ≡ s = cc in rw same h
loaded-IsReserved id s (some t) (some d) profile r e h = let same : t ≡ s = cc in rw same h

pub guarded-IsReserved :
    (id : String) (b : Bool) (s : OrderState)
    → IsReserved id s
    → IsReserved id (Asked.off_topic_guard b s)
unfolding Asked.off_topic_guard
guarded-IsReserved id true s h = h
guarded-IsReserved id false s h = h

pub answered-IsReserved :
    (id : String) (s : OrderState)
    → IsReserved id s
    → IsReserved id (Session.resolve_invoice_confirmation s)
unfolding Session.resolve_invoice_confirmation
answered-IsReserved id s h = elim (Bool-cases s.awaiting_invoice_confirmation) [
  | inl e ↦ rw e h
  | inr e ↦ rw e h
]

unavailable-IsReserved :
    (id : String) (us : List Unavailable) (s : OrderState)
    → IsReserved id s
    → IsReserved id (with_unavailable us s)
unfolding with_unavailable
unavailable-IsReserved id [] s h = h
unavailable-IsReserved id (u ∷ us) s h = h

pub in_stock-IsReserved :
    (id : String) (today : ℕ) (catalog : Catalog) (s : OrderState)
    → IsReserved id s
    → IsReserved id (Stock.check_availability today catalog s)
unfolding Stock.check_availability
in_stock-IsReserved id today catalog s h = unavailable-IsReserved id _ _ h

pub suggested-IsReserved :
    (id : String) (today : ℕ) (catalog : Catalog) (tools : React.Tools)
    (same_name : Unavailable → List String) (us : List Unavailable) (s : OrderState)
    → IsReserved id s
    → IsReserved id (Alternatives.suggest_for today catalog tools same_name us s)
unfolding Alternatives.suggest_for
suggested-IsReserved id today catalog tools same_name [] s h = h
suggested-IsReserved id today catalog tools same_name (u ∷ us) s h = h

pub concluded-IsReserved :
    (id : String) (b : Bool) (missing : List MissingField) (s : OrderState)
    → IsReserved id s
    → IsReserved id (conclude_check b missing s)
unfolding conclude_check
concluded-IsReserved id true missing s h = h
concluded-IsReserved id false missing s h = h

pub offered-IsReserved :
    (id : String) (b : Bool) (s : OrderState) → IsReserved id s → IsReserved id (offer_if b s).0
unfolding offer_if
offered-IsReserved id true s h = h
offered-IsReserved id false s h = h

closed-IsReserved :
    (id : String) (lines : List LineItem) (short : List Unavailable) (s : OrderState)
    → IsReserved id (Stock.conclude_finalize id lines short s).0
unfolding Stock.conclude_finalize
closed-IsReserved id lines [] s = refl
closed-IsReserved id lines (u ∷ us) s = refl

kept_id : (id fresh : String) → str_eq id "" ≡ false → Stock.invoice_id_of fresh (some id) ≡ id
unfolding Stock.invoice_id_of truthy
kept_id id fresh nonempty = rw nonempty refl

pub finalized-IsReserved :
    (id : String) (today : ℕ) (catalog : Catalog) (fresh : String) (s : OrderState)
    → str_eq id "" ≡ false
    → IsReserved id s
    → IsReserved id (Stock.finalize_order today catalog fresh s).0
unfolding Stock.finalize_order Stock.finalize_orderable
finalized-IsReserved id today catalog fresh s nonempty h = go (orderable_line_items s.line_items)
  where
    go : (xs : List LineItem) → IsReserved id (Stock.finalize_orderable today catalog fresh xs s).0
    go [] = h
    go (x ∷ xs) =
        let checked = Stock.finalize_lines today catalog (x ∷ xs) in
        let same : Stock.invoice_id_of fresh s.reservation_invoice_id ≡ id =
          ap (Stock.invoice_id_of fresh) h ∙ kept_id id fresh nonempty in
        subst (λ i. IsReserved id (Stock.conclude_finalize i checked.lines checked.short s).0)
          (sym same) (closed-IsReserved id checked.lines checked.short s)
