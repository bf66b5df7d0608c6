-- ===== src/Agent/Graph/Tests.antt =====
-- Whole turns at concrete sessions.
use merchant_ai_agent.Base.{
  ◌≡◌, refl, String, Bool, true, false, none, some, List, [], ◌∷◌, All, any, arith, str_eq,
  if◌then◌else◌,
}
use merchant_ai_agent.Base.Int.{pos}
use merchant_ai_agent.Uuid.{parse_uuid, codes}
use merchant_ai_agent.Invoice.Service.{Order, OrderTables}
use merchant_ai_agent.Agent.{OrderState, is_nonempty, awaiting_confirmation}
use merchant_ai_agent.Agent.Session.{new_session}
use merchant_ai_agent.Agent.Memory.{draft_of}
use merchant_ai_agent.Agent.Merge.{ParsedIntent}
use merchant_ai_agent.Agent.Lookup.{Suggestion}
use merchant_ai_agent.Agent.Identified.{HasId}
use merchant_ai_agent.Agent.Stock.{Catalog}
use merchant_ai_agent.Agent.Outcome.{Clients, failure}
use merchant_ai_agent.Agent.Graph.{AgentTurnRequest, goes_well, NodeDependencies}
use merchant_ai_agent.Agent.Graph.Once.{was_answered, calls_happen_once}
use merchant_ai_agent.Agent.Graph.Turn.{
  agent_turn, turn_run, invoke, Event, turn, draft_expires, happen_all, SessionStore,
}
use merchant_ai_agent.Agent.Graph.Agreed.{
  FindsIds, new_store, WasConfirmed, called_only_if_confirmed,
}
use merchant_ai_agent.Agent.Graph.Ends.{cut_off, turn_ends}
use merchant_ai_agent.Agent.Graph.Spent.{IsSpent, row_blocks_session}

abbrev nothing : ParsedIntent
nothing = record {
  line_items = [];
  remove_item_names = [];
  customer_name = none;
  address = none;
  phone = none;
}

abbrev two_milk : ParsedIntent
two_milk = record {
  line_items = record { item_name = "Milk"; brand = some "Amul"; qty = some (pos 2) } ∷ [];
  remove_item_names = [];
  customer_name = some "Asha";
  address = some "1 Main Road";
  phone = some "900";
}

abbrev carton : Suggestion
carton = record {
  item_id = "milk-1";
  name = "Milk";
  brand = "Amul";
  weight_per_unit = "1L";
  expiry_date = some 100;
  price_paise = pos 3100;
  available_qty = pos 3;
}

abbrev cartons_if : Bool → List Suggestion
cartons_if true = carton ∷ []
cartons_if false = []

abbrev fridge : Catalog
fridge id =
    if str_eq id "milk-1"
    then some (record {
      available_qty = pos 3;
      price_paise = pos 3100;
      weight_per_unit = none;
      expiry_date = some 100;
    })
    else none

abbrev both_work : Clients
both_work = record {
  submit_invoice = λ id invoice. some (record failure { success = true });
  create_payment_link =
      λ merchant id amount. some (record failure { success = true; payment_link_url = some "url" });
  cancel_payment_link = λ merchant id. some true;
}

-- The first seven days of the shop, in which nothing fails.
abbrev deps : NodeDependencies
deps = record {
  fate = λ node s. goes_well;
  unrelated = λ s. false;
  found = λ message. record { removed = []; phrases = [] };
  parsed = λ s. if str_eq s.message "yes" then nothing else two_milk;
  profile = record { customer_name = none; address = none; phone = none };
  search = λ name brand. cartons_if (str_eq name "Milk");
  tools = record { by_item = λ id. none; scan = λ ids. none; for_item = λ id. [] };
  loop_max = 4;
  today = 7;
  catalog = λ node. fridge;
  same_name = λ u. [];
  fresh = "00000000-0000-0000-0000-000000000007";
  issuer = record {
    merchant_name = "Shop";
    fees = record {
      gst_rate_bps = pos 1800;
      shipping_paise = pos 4900;
      free_shipping_min_paise = pos 50000;
    };
    fresh_id = 8;
    issued_at = 100;
  };
  clients = some both_work;
  default_mid = "m";
  link_end = 50;
}

abbrev request_of : String → AgentTurnRequest
request_of message = record {
  session_id = "s";
  consumer_agent_id = "a";
  turn = record { message = message; mandate_verified = true; merchant_id = none };
}

abbrev no_rows : OrderTables
no_rows = record { orders = []; offer_log = [] }

abbrev asked_for_milk : List Event
asked_for_milk = turn deps (request_of "two milk") ∷ draft_expires ∷ []

found-HasId : (b : Bool) → All HasId (cartons_if b)
found-HasId true = (refl, tt)
found-HasId false = tt

deps-FindsIds : FindsIds deps
deps-FindsIds name brand = found-HasId (str_eq name "Milk")

-- The first turn asks for a confirmation, and the second one calls both services.
first_turn_asks :
    (agent_turn 25 deps (request_of "two milk") (new_store no_rows).saved no_rows).1.status
    ≡ awaiting_confirmation
unfolding agent_turn
first_turn_asks = refl

second_turn_calls :
    is_nonempty
      (turn_run 25 deps (request_of "yes") (happen_all 25 asked_for_milk (new_store no_rows))).calls
    ≡ true
unfolding turn_run happen_all is_nonempty parse_uuid
second_turn_calls = refl

called_only_if_confirmed_example :
    WasConfirmed (happen_all 25 asked_for_milk (new_store no_rows)).saved (request_of "yes")
called_only_if_confirmed_example =
    called_only_if_confirmed 25 asked_for_milk no_rows deps (request_of "yes")
      (deps-FindsIds, (tt, tt)) deps-FindsIds second_turn_calls

turn_ends_example :
    cut_off (invoke 25 deps (request_of "two milk") (new_store no_rows).saved no_rows) ≡ false
turn_ends_example =
    turn_ends 25 deps (request_of "two milk") (new_store no_rows).saved no_rows (omega arith)

-- The session of an order that is in the table, in which the customer asks for more.
abbrev first_order : Order
first_order = record {
  id = 7;
  consumer_agent_id = "a";
  session_id = "s";
  status = "INVOICED";
  line_items = [];
  customer_name = none;
  address = none;
  phone_number = none;
  mandate_verified = true;
  total_paise = 0;
}

abbrev served_before : OrderState
served_before = record new_session {
  reservation_invoice_id = some "00000000-0000-0000-0000-000000000007";
  awaiting_invoice_confirmation = true;
}

abbrev spent_store : SessionStore
spent_store = record {
  saved = record { state = some served_before; draft = some (draft_of served_before) };
  tables = record { orders = first_order ∷ []; offer_log = [] };
}

spent_store-IsSpent : IsSpent "00000000-0000-0000-0000-000000000007" 7 spent_store
unfolding any
spent_store-IsSpent = record {
  state = served_before;
  is_saved = refl;
  is_reserved = refl;
  has_row = refl;
}

seven_parses : parse_uuid (codes "00000000-0000-0000-0000-000000000007") ≡ some 7
unfolding parse_uuid
seven_parses = refl

seven_blocks : (turn_run 25 deps (request_of "yes") spent_store).calls ≡ []
seven_blocks =
    (row_blocks_session 25 deps (request_of "yes") "00000000-0000-0000-0000-000000000007" 7
      spent_store refl seven_parses spent_store-IsSpent).0

-- The store in which the second turn finds the session.
abbrev asked_store : SessionStore
asked_store = happen_all 25 asked_for_milk (new_store no_rows)

second_turn_answered :
    was_answered (invoke 25 deps (request_of "yes") asked_store.saved asked_store.tables) ≡ true
unfolding invoke happen_all parse_uuid was_answered
second_turn_answered = refl

abbrev and_more : List Event
and_more = turn deps (request_of "two milk") ∷ []

calls_happen_once_example :
    (turn_run 25 deps
      (request_of "yes")
      (happen_all 25 (turn deps (request_of "yes") ∷ and_more) asked_store)).calls
    ≡ []
calls_happen_once_example =
    calls_happen_once 25 deps (request_of "yes") asked_store and_more deps (request_of "yes")
      (omega arith) second_turn_answered second_turn_calls (tt, tt)
