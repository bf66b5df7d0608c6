-- ===== src/Agent/Graph/Lines.antt =====
-- The nodes of services/merchant_agent/graph/build_graph.py keep the lines of the order identified.
use merchant_ai_agent.Base.{
  ℕ, ◌≡◌, refl, String, Bool, true, false, Option, none, some, List, [], ◌∷◌, All-select,
}
use merchant_ai_agent.Base.Results.{Result, ok, err, ◌>>=◌, Ensures}
use merchant_ai_agent.Invoice.Schema.{Invoice}
use merchant_ai_agent.Invoice.Offers.{AcceptedSaving}
use merchant_ai_agent.Invoice.Service.{OrderTables, OrderLine}
use merchant_ai_agent.Agent.{
  LineItem, MissingField, Unavailable, OrderState, Profile, AuditAction, is_orderable,
}
use merchant_ai_agent.Agent.Session as Session
use merchant_ai_agent.Agent.Session.{
  OrderDraft, TurnRequest, is_invoice_proceed_message, session_base, fill_from_draft, reset_turn,
  or_list, new_session,
}
use merchant_ai_agent.Agent.Identified.{AllIdentified}
use merchant_ai_agent.Agent.Outcome as Outcome
use merchant_ai_agent.Agent.Outcome.{Clients, Call}
use merchant_ai_agent.Agent.React as React
use merchant_ai_agent.Agent.React.{ReactRoute}
use merchant_ai_agent.Agent.Stock as Stock
use merchant_ai_agent.Agent.Stock.{FinalizeRoute, Catalog, check_lines}
use merchant_ai_agent.Agent.Missing as Missing
use merchant_ai_agent.Agent.Missing.{
  MissingRoute, or_lines, orderable_line_items, conclude_check, compute_missing_fields,
  blocking_unresolved_items,
}
use merchant_ai_agent.Agent.Alternatives.{suggest_for}
use merchant_ai_agent.Agent.Closing as Closing
use merchant_ai_agent.Agent.Closing.{
  ClosingError, offer_if, Issuer, with_invoice, accepted_savings, order_lines, issue_invoice,
}
use merchant_ai_agent.Agent.Graph.{Saved}
use merchant_ai_agent.Agent.Graph.Kept.{marked_lines-identified, finalized_lines-identified}
use merchant_ai_agent.Agent.Graph.Stage.{state_lines, draft_lines, IsIdentified}

pub or-identified :
    (xs ys : List LineItem) → AllIdentified xs → AllIdentified ys → AllIdentified (or_list xs ys)
unfolding or_list
or-identified [] ys hx hy = hy
or-identified (x ∷ xs) ys hx hy = hx

pub none-identified : AllIdentified []
unfolding AllIdentified
none-identified = tt

pub loaded-identified :
    (saved : Saved) (profile : Profile) (r : TurnRequest)
    → IsIdentified saved
    → AllIdentified (Session.load_session saved.state saved.draft profile r).line_items
unfolding Session.load_session session_base fill_from_draft reset_turn
loaded-identified saved profile r (hs, hd) = go saved.state saved.draft hs hd
  where
    go :
        (persisted : Option OrderState) (draft : Option OrderDraft)
        → AllIdentified (state_lines persisted)
        → AllIdentified (draft_lines draft)
        → AllIdentified (Session.load_session persisted draft profile r).line_items
    go none none hs hd = none-identified
    go none (some d) hs hd = or-identified [] d.line_items none-identified hd
    go (some s) none hs hd = hs
    go (some s) (some d) hs hd = or-identified s.line_items d.line_items hs hd

concluded-identified :
    (b : Bool) (missing : List MissingField) (s : OrderState)
    → AllIdentified s.line_items
    → AllIdentified (conclude_check b missing s).line_items
unfolding conclude_check orderable_line_items or_lines AllIdentified
concluded-identified true missing s h = h
concluded-identified false missing s h =
    go (orderable_line_items s.line_items) (All-select _ is_orderable s.line_items h)
  where
    go : (xs : List LineItem) → AllIdentified xs → AllIdentified (or_lines xs s.line_items)
    go [] hs = h
    go (x ∷ xs) hs = hs

pub complete-identified :
    (s : OrderState)
    → AllIdentified s.line_items
    → AllIdentified (Missing.check_missing_fields s).line_items
unfolding Missing.check_missing_fields
complete-identified s h = concluded-identified _ (compute_missing_fields s) s h

pub suggested-identified :
    (today : ℕ) (catalog : Catalog) (tools : React.Tools) (same_name : Unavailable → List String)
    (us : List Unavailable) (s : OrderState)
    → AllIdentified s.line_items
    → AllIdentified (suggest_for today catalog tools same_name us s).line_items
unfolding suggest_for
suggested-identified today catalog tools same_name [] s h = h
suggested-identified today catalog tools same_name (u ∷ us) s h =
    marked_lines-identified (u ∷ us) s.line_items h

pub offered-identified :
    (b : Bool) (s : OrderState)
    → AllIdentified s.line_items
    → AllIdentified (offer_if b s).0.line_items
unfolding offer_if
offered-identified true s h = h
offered-identified false s h = h

pub closed-identified :
    (id : String) (lines : List LineItem) (short : List Unavailable) (s : OrderState)
    → AllIdentified lines
    → AllIdentified s.line_items
    → AllIdentified (Stock.conclude_finalize id lines short s).0.line_items
unfolding Stock.conclude_finalize
closed-identified id lines [] s hs h = hs
closed-identified id lines (u ∷ us) s hs h = h

pub finalized-identified :
    (today : ℕ) (catalog : Catalog) (fresh : String) (s : OrderState)
    → AllIdentified s.line_items
    → AllIdentified (Stock.finalize_order today catalog fresh s).0.line_items
unfolding Stock.finalize_order Stock.finalize_orderable orderable_line_items AllIdentified
finalized-identified today catalog fresh s h =
    go (orderable_line_items s.line_items) (All-select _ is_orderable s.line_items h)
  where
    go :
        (xs : List LineItem)
        → AllIdentified xs
        → AllIdentified (Stock.finalize_orderable today catalog fresh xs s).0.line_items
    go [] hs = h
    go (x ∷ xs) hs =
        closed-identified (Stock.invoice_id_of fresh s.reservation_invoice_id) _ _ s
          (finalized_lines-identified today catalog (x ∷ xs) hs) h

pub dispatched-lines :
    (clients : Option Clients) (default_mid : String) (s : OrderState)
    → (Outcome.dispatch_invoice_processing clients default_mid s).0.line_items ≡ s.line_items
unfolding Outcome.dispatch_invoice_processing
dispatched-lines clients default_mid s = go clients s.invoice
  where
    go :
        (clients : Option Clients) (invoice : Option _)
        → (Outcome.dispatch_to clients default_mid invoice s).0.line_items ≡ s.line_items
    go clients none = refl
    go none (some i) = refl
    go (some c) (some i) = refl

pub settled-lines :
    (held paid : Bool) (clients : Option Clients) (mid id : String) (link_end : ℕ) (s : OrderState)
    → (Outcome.settle held paid clients mid id link_end s).0.line_items ≡ s.line_items
unfolding Outcome.settle Outcome.settle_invoiced Outcome.settle_failed
settled-lines true true clients mid id link_end s = refl
settled-lines true false clients mid id link_end s = refl
settled-lines false true clients mid id link_end s = refl
settled-lines false false clients mid id link_end s = refl

pub resolved-lines :
    (clients : Option Clients) (default_mid : String) (link_end : ℕ) (s : OrderState)
    → (Outcome.resolve_invoice_outcome clients default_mid link_end s).0.line_items ≡ s.line_items
unfolding Outcome.resolve_invoice_outcome
resolved-lines clients default_mid link_end s = settled-lines _ _ clients _ _ link_end _

pub made-lines :
    (issuer : Issuer) (session_id consumer : String) (s : OrderState) (tables : OrderTables)
    → Ensures
        (λ (made : OrderState × OrderTables × List AuditAction). made.0.line_items ≡ s.line_items)
        (Closing.generate_invoice issuer session_id consumer s tables)
unfolding Closing.generate_invoice with_invoice
made-lines issuer session_id consumer s tables =
    go (accepted_savings s) (order_lines s.line_items)
      (issue_invoice issuer session_id consumer s tables)
  where
    P : OrderState × OrderTables × List AuditAction → Type 0
    P made = made.0.line_items ≡ s.line_items

    last :
        (issued : Result ClosingError (OrderTables × Invoice))
        → Ensures P (do i ← issued; ok (with_invoice s i))
    last (err e) = tt
    last (ok i) = refl

    go :
        (accepted : Result ClosingError (List AcceptedSaving))
        (lines : Result ClosingError (List OrderLine))
        (issue : List AcceptedSaving → List OrderLine → Result ClosingError (OrderTables × Invoice))
        → Ensures P (do a ← accepted; ls ← lines; i ← issue a ls; ok (with_invoice s i))
    go (err e) lines issue = tt
    go (ok a) (err e) issue = tt
    go (ok a) (ok ls) issue = last (issue a ls)
