-- ===== src/Agent/Session.antt =====
-- `load_session` and `resolve_invoice_confirmation` of services/merchant_agent/graph/nodes.py.
use merchant_ai_agent.Base.{
  String, ◌≡◌, refl, Bool, true, false, Option, none, some, List, [], ◌∷◌, map, any, if◌then◌else◌,
}
use merchant_ai_agent.Uuid.{codes}
use merchant_ai_agent.Agent.{
  LineItem, MissingField, OrderStatus, draft, no_reply, Profile, OrderState, truthy,
}
use merchant_ai_agent.Agent.Names.{lower_code, is_within}

-- The keys that a turn brings.
pub record TurnRequest : Type 0 where
  pub message : String
  pub mandate_verified : Bool
  pub merchant_id : Option String

pub record OrderDraft : Type 0 where
  pub line_items : List LineItem
  pub customer_name : Option String
  pub address : Option String
  pub phone : Option String
  pub missing_fields : List MissingField
  pub status : Option OrderStatus

abbrev pub no_profile : Profile
no_profile = record { customer_name = none; address = none; phone = none }

-- The defaults of a session that has no state yet.
abbrev pub new_session : OrderState
new_session = record {
  message = "";
  mandate_verified = false;
  merchant_id = none;
  line_items = [];
  customer_name = none;
  address = none;
  phone = none;
  missing_fields = [];
  catalog_suggestions = [];
  status = draft;
  reply = no_reply;
  invoice = none;
  off_topic = false;
  unavailable_item = none;
  unavailable_items = [];
  resolved_offers = [];
  cross_sell_candidates = [];
  campaign_context = [];
  customer_profile = no_profile;
  react_scratchpad = [];
  reservation_invoice_id = none;
  reservation_result = none;
  payment_result = none;
  payment_link_url = none;
  payment_expires_at = none;
  reservation_expires_at = none;
  react_loop_count = 0;
  react_goal = none;
  react_selected_tools = [];
  react_loop_capped = false;
  react_should_continue = false;
  awaiting_invoice_confirmation = false;
  invoice_proceed = false;
}

status_or_draft : Option OrderStatus → OrderStatus
status_or_draft none = draft
status_or_draft (some status) = status

-- `dict(persisted_state or {})`, where a state that was saved has its status.
unfoldable pub session_base : Option OrderState → Option OrderDraft → OrderState
unfolding status_or_draft
session_base (some s) saved = s
session_base none none = new_session
session_base none (some d) = record new_session { status = status_or_draft d.status }

unfoldable pub or_text : Option String → Option String → Option String
unfolding truthy
or_text a b = if truthy a then a else if truthy b then b else a

unfoldable pub or_list {ℓ} : {A : Type ℓ} → List A → List A → List A
or_list [] ys = ys
or_list (x ∷ xs) ys = x ∷ xs

-- What the draft fills in where the state has nothing.
unfoldable pub fill_from_draft : Option OrderDraft → OrderState → OrderState
unfolding or_text or_list
fill_from_draft none s = s
fill_from_draft (some d) s = record s {
  line_items = or_list s.line_items d.line_items;
  customer_name = or_text s.customer_name d.customer_name;
  address = or_text s.address d.address;
  phone = or_text s.phone d.phone;
  missing_fields = or_list s.missing_fields d.missing_fields;
}

-- What every turn starts from.
unfoldable pub reset_turn : Profile → OrderState → OrderState
reset_turn profile s = record s {
  invoice_proceed = false;
  resolved_offers = [];
  cross_sell_candidates = [];
  campaign_context = [];
  react_scratchpad = [];
  react_loop_count = 0;
  react_selected_tools = [];
  react_loop_capped = false;
  react_should_continue = false;
  unavailable_item = none;
  unavailable_items = [];
  customer_profile = profile;
}

-- `load_session`, with the state and the draft that Redis holds and the personal memory.
unfoldable pub load_session :
    Option OrderState → Option OrderDraft → Profile → TurnRequest → OrderState
unfolding session_base fill_from_draft reset_turn
load_session persisted saved profile r = reset_turn profile (
    fill_from_draft saved (record (session_base persisted saved) {
      message = r.message;
      mandate_verified = r.mandate_verified;
      merchant_id = r.merchant_id;
    }))

abbrev pub invoice_proceed_phrases : List String
invoice_proceed_phrases =
    "proceed" ∷ "go ahead" ∷ "create invoice" ∷ "generate invoice" ∷ "confirm order" ∷ "yes"
    ∷ "looks good" ∷ "ok proceed" ∷ "okay proceed" ∷ "invoice please" ∷ "place order"
    ∷ "complete order" ∷ []

-- `_is_invoice_proceed_message`, on ASCII texts. No phrase is empty or begins or ends with a blank,
-- so that neither the test for an empty message nor `strip` has a say.
unfoldable pub is_invoice_proceed_message : String → Bool
unfolding any lower_code is_within
is_invoice_proceed_message message =
    any (λ phrase. is_within (codes phrase) (map lower_code (codes message)))
      invoice_proceed_phrases

-- `resolve_invoice_confirmation`. The answer to a message that adds to the order is that to any
-- other message which does not proceed.
unfoldable pub resolve_invoice_confirmation : OrderState → OrderState
unfolding is_invoice_proceed_message
resolve_invoice_confirmation s =
    if s.awaiting_invoice_confirmation
    then record s {
      awaiting_invoice_confirmation = false;
      invoice_proceed = is_invoice_proceed_message s.message;
    }
    else s

refusal_proceeds : is_invoice_proceed_message "Please do not proceed" ≡ true
unfolding is_invoice_proceed_message
refusal_proceeds = refl

addition-waits : is_invoice_proceed_message "Add two packs of milk" ≡ false
unfolding is_invoice_proceed_message
addition-waits = refl
