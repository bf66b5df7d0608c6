-- ===== src/Agent/Asked.antt =====
-- The start of a turn in services/merchant_agent/graph: `load_session`, `off_topic_guard`, what
-- `parse_intent` returns, and the confirmation of an invoice.
use merchant_ai_agent.Base.{
  ◌≡◌, refl, String, Bool, true, false, Option, none, some, List, if◌then◌else◌, sym, ◌∙◌, ap,
}
use merchant_ai_agent.Agent.{
  LineItem, truthy, awaiting_fields, off_topic_redirect, OrderState, Profile,
}
use merchant_ai_agent.Agent.Session.{
  TurnRequest, OrderDraft, session_base, fill_from_draft, reset_turn, load_session,
  is_invoice_proceed_message, resolve_invoice_confirmation,
}

-- What `parse_intent` has to go by: the lines that the message leaves in the cart, and the details of
-- the customer that the model read in it.
pub record ParsedTurn : Type 0 where
  pub line_items : List LineItem
  pub customer_name : Option String
  pub address : Option String
  pub phone : Option String

-- `off_topic_guard`, with the answer of the model to the classification.
unfoldable pub off_topic_guard : Bool → OrderState → OrderState
off_topic_guard true s = record s {
  off_topic = true;
  status = awaiting_fields;
  reply = off_topic_redirect;
}
off_topic_guard false s = record s { off_topic = false }

-- Python's `a or b`.
unfoldable pub or_else : Option String → Option String → Option String
unfolding truthy
or_else a b = if truthy a then a else b

-- The keys that `parse_intent` returns.
unfoldable pub write_parsed : ParsedTurn → OrderState → OrderState
unfolding or_else
write_parsed parsed s = record s {
  line_items = parsed.line_items;
  customer_name =
      or_else parsed.customer_name (or_else s.customer_name s.customer_profile.customer_name);
  address = or_else parsed.address (or_else s.address s.customer_profile.address);
  phone = or_else parsed.phone (or_else s.phone s.customer_profile.phone);
}

-- `_off_topic_route` and the edges from `parse_intent` to the confirmation.
unfoldable pub after_guard : ParsedTurn → OrderState → OrderState
unfolding write_parsed resolve_invoice_confirmation
after_guard parsed s =
    if s.off_topic then s else resolve_invoice_confirmation (write_parsed parsed s)

-- The start of a turn, up to the confirmation.
unfoldable pub open_turn :
    Option OrderState → Option OrderDraft → Profile → TurnRequest → Bool → ParsedTurn → OrderState
unfolding load_session off_topic_guard after_guard
open_turn persisted saved profile r unrelated parsed =
    after_guard parsed (off_topic_guard unrelated (load_session persisted saved profile r))

unfoldable pub awaiting_of : Option OrderState → Bool
awaiting_of none = false
awaiting_of (some s) = s.awaiting_invoice_confirmation

base-awaiting :
    (persisted : Option OrderState) (saved : Option OrderDraft)
    → (session_base persisted saved).awaiting_invoice_confirmation ≡ awaiting_of persisted
unfolding session_base awaiting_of
base-awaiting (some s) saved = refl
base-awaiting none none = refl
base-awaiting none (some d) = refl

draft-awaiting :
    (saved : Option OrderDraft) (s : OrderState)
    → (fill_from_draft saved s).awaiting_invoice_confirmation ≡ s.awaiting_invoice_confirmation
unfolding fill_from_draft
draft-awaiting none s = refl
draft-awaiting (some d) s = refl

pub loaded-awaiting :
    (persisted : Option OrderState) (saved : Option OrderDraft) (profile : Profile)
    (r : TurnRequest)
    → (load_session persisted saved profile r).awaiting_invoice_confirmation ≡ awaiting_of persisted
unfolding load_session reset_turn
loaded-awaiting persisted saved profile r = draft-awaiting saved _ ∙ base-awaiting persisted saved

pub loaded-message :
    (persisted : Option OrderState) (saved : Option OrderDraft) (profile : Profile)
    (r : TurnRequest)
    → (load_session persisted saved profile r).message ≡ r.message
unfolding load_session reset_turn fill_from_draft
loaded-message persisted none profile r = refl
loaded-message persisted (some d) profile r = refl

pub loaded-proceed :
    (persisted : Option OrderState) (saved : Option OrderDraft) (profile : Profile)
    (r : TurnRequest)
    → (load_session persisted saved profile r).invoice_proceed ≡ false
unfolding load_session reset_turn
loaded-proceed persisted saved profile r = refl

-- The answer counts only where the question stands.
pub proceeds :
    (s : OrderState)
    → s.invoice_proceed ≡ false
    → (resolve_invoice_confirmation s).invoice_proceed ≡ true
    → (is_invoice_proceed_message s.message ≡ true) × (s.awaiting_invoice_confirmation ≡ true)
unfolding resolve_invoice_confirmation
proceeds s idle h = go s.awaiting_invoice_confirmation refl h
  where
    go :
        (b : Bool)
        → s.awaiting_invoice_confirmation ≡ b
        → (if b
            then record s {
              awaiting_invoice_confirmation = false;
              invoice_proceed = is_invoice_proceed_message s.message;
            }
            else s).invoice_proceed
          ≡ true
        → (is_invoice_proceed_message s.message ≡ true) × (s.awaiting_invoice_confirmation ≡ true)
    go true e p = (p, e)
    go false e p = cc

pub was_asked :
    (persisted : Option OrderState)
    → awaiting_of persisted ≡ true
    → (s : OrderState) × (persisted ≡ some s) × (s.awaiting_invoice_confirmation ≡ true)
unfolding awaiting_of
was_asked none h = cc
was_asked (some s) h = (s, refl, h)

understood : Option OrderState → Option OrderDraft → Profile → TurnRequest → ParsedTurn → OrderState
unfolding write_parsed off_topic_guard load_session
understood persisted saved profile r parsed =
    write_parsed parsed (off_topic_guard false (load_session persisted saved profile r))

-- A turn counts as a confirmation only if the session was saved by a turn that had asked for it, and
-- the message holds one of the phrases that proceed.
pub proceeds_only_if_asked :
    (persisted : Option OrderState) (saved : Option OrderDraft) (profile : Profile)
    (r : TurnRequest) (unrelated : Bool) (parsed : ParsedTurn)
    → (open_turn persisted saved profile r unrelated parsed).invoice_proceed ≡ true
    → (is_invoice_proceed_message r.message ≡ true)
      × ((s : OrderState) × (persisted ≡ some s) × (s.awaiting_invoice_confirmation ≡ true))
unfolding open_turn after_guard off_topic_guard understood write_parsed load_session reset_turn
proceeds_only_if_asked persisted saved profile r true parsed h = cc
proceeds_only_if_asked persisted saved profile r false parsed h =
    let said = proceeds (understood persisted saved profile r parsed) refl h in
    (
      sym (ap is_invoice_proceed_message (loaded-message persisted saved profile r)) ∙ said.0,
      was_asked persisted (sym (loaded-awaiting persisted saved profile r) ∙ said.1),
    )
