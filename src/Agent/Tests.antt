-- ===== src/Agent/Tests.antt =====
-- The agent's theorems at concrete states.
use merchant_ai_agent.Base.{
  ℕ, map, Bool, String, Option, ◌≡◌, refl, true, false, none, some, List, [], ◌∷◌, All, any, arith,
  str_eq, if◌then◌else◌,
}
use merchant_ai_agent.Base.Int.{pos}
use merchant_ai_agent.Invoice.Schema.{Invoice}
use merchant_ai_agent.Invoice.Offers.{Offer, percent}
use merchant_ai_agent.Agent.{
  LineItem, Unavailable, unavailable_items_from_state, resolved_status, ambiguous, OrderState,
  validated, nothing_to_invoice, AuditAction, offer_surfaced, campaign_surfaced, is_nonempty,
  has_unavailable_items, truthy, is_not_found, is_stockout_pending,
}
use merchant_ai_agent.Agent.Missing.{
  orderable_line_items, check_missing_fields, missing_route, finalize_order,
  offer_invoice_confirmation,
}
use merchant_ai_agent.Agent.Confirmed.{is_identified}
use merchant_ai_agent.Agent.Session.{
  load_session, TurnRequest, no_profile, new_session, is_invoice_proceed_message,
}
use merchant_ai_agent.Agent.Asked.{ParsedTurn, open_turn, proceeds_only_if_asked}
use merchant_ai_agent.Agent.Memory.{
  MemoryStore, Access, loads, saves, draft_of, save_state, access_all, load_both,
}
use merchant_ai_agent.Agent.Merge.{ParsedIntent, normalize_line_item}
use merchant_ai_agent.Agent.Parse.{Found, parsed_lines}
use merchant_ai_agent.Agent.Unresolved.{IsKnown, parsed-IsKnown}
use merchant_ai_agent.Agent.Loaded.{saved_session_is_loaded}
use merchant_ai_agent.Agent.Lookup.{default_qty, Suggestion, Search}
use merchant_ai_agent.Agent.Identified.{HasId, looked_up, looked_up_waits_for_confirmation}
use merchant_ai_agent.Agent.Distance.{distance, reversed_onto, edit_distance-eq-distance}
use merchant_ai_agent.Agent.Names.{edit_distance}
use merchant_ai_agent.Agent.React.{Tools, item_ids, react_loop}
use merchant_ai_agent.Agent.Rounds.{fresh, scanned, react_loop_ends, three_rounds}
use merchant_ai_agent.Agent.Stock as Stock
use merchant_ai_agent.Agent.Stock.{Latest, Catalog, generate_invoice, finalize_route}
use merchant_ai_agent.Agent.Covered.{IsCovered, finalized-IsCovered}
use merchant_ai_agent.Agent.Outcome.{Clients, failure, resolve_merchant_id, result_or_exception}
use merchant_ai_agent.Agent.Settled.{IsSettled, process_invoice, process_invoice-IsSettled}
use merchant_ai_agent.Agent.Alternatives.{suggest_alternative}
use merchant_ai_agent.Agent.Withdrawn.{sells, suggested_is_withdrawn}
use merchant_ai_agent.Agent.Session.{new_session}
use merchant_ai_agent.Agent.Proceeded.{confirmed_nothing_is_invoiced}

abbrev milk : LineItem
milk = record {
  item_name = "Milk";
  brand = some "Amul";
  qty = some (pos 2);
  item_id = some "milk-1";
  unit_price_paise = some (pos 3000);
  available_qty = some (pos 10);
  weight_per_unit = none;
  expiry_date = some 100;
  resolved = true;
  catalog_status = some resolved_status;
}

abbrev rice : LineItem
rice = record milk {
  item_name = "Rice";
  item_id = none;
  resolved = false;
  catalog_status = some ambiguous;
}

-- Everything is known, and the customer has said yes.
abbrev agreed : OrderState
agreed = record new_session {
  message = "yes";
  mandate_verified = true;
  line_items = milk ∷ [];
  customer_name = some "Asha";
  address = some "1 Main Road";
  phone = some "900";
  invoice_proceed = true;
}

agreed-identified : All (λ i. is_identified i ≡ true) agreed.line_items
unfolding is_identified truthy is_not_found is_stockout_pending
agreed-identified = (refl, tt)

agreed_route : missing_route (check_missing_fields agreed) ≡ finalize_order
unfolding missing_route check_missing_fields
agreed_route = refl

unasked_route :
    missing_route (check_missing_fields (record agreed { invoice_proceed = false }))
    ≡ offer_invoice_confirmation
unfolding missing_route check_missing_fields
unasked_route = refl

edit_distance-eq-distance_example :
    edit_distance (1 ∷ 2 ∷ 3 ∷ []) (1 ∷ 3 ∷ [])
    ≡ distance (reversed_onto [] (1 ∷ 2 ∷ 3 ∷ [])) (reversed_onto [] (1 ∷ 3 ∷ []))
edit_distance-eq-distance_example = edit_distance-eq-distance (1 ∷ 2 ∷ 3 ∷ []) (1 ∷ 3 ∷ [])

abbrev offer : Offer
offer = record {
  id = some "o";
  discount_type = percent;
  value = pos 5;
  description = "5%";
  item_ids = [];
}

abbrev tools : Tools
tools = record {
  by_item = λ id. if str_eq id "milk-1" then some (offer ∷ []) else none;
  scan = λ ids. some [];
  for_item = λ id. [];
}

five_rounds_end : (r : OrderState × List AuditAction) × (react_loop 5 tools 4 agreed ≡ some r)
five_rounds_end = react_loop_ends 5 tools 4 agreed (omega arith)

agreed-ids : is_nonempty (item_ids agreed.line_items) ≡ true
unfolding item_ids is_nonempty
agreed-ids = refl

four_allow_three :
    react_loop 3 tools 4 (fresh agreed)
    ≡ some (scanned tools (fresh agreed), offer_surfaced ∷ campaign_surfaced ∷ [])
four_allow_three = three_rounds tools 4 agreed agreed-ids (omega arith)

abbrev shelf : Catalog
shelf id =
    if str_eq id "milk-1"
    then some (record {
      available_qty = pos 3;
      price_paise = pos 3100;
      weight_per_unit = none;
      expiry_date = some 100;
    })
    else none

agreed-orderable : is_nonempty (orderable_line_items agreed.line_items) ≡ true
unfolding orderable_line_items is_nonempty
agreed-orderable = refl

agreed_finalized : finalize_route (Stock.finalize_order 99 shelf "u" agreed).0 ≡ generate_invoice
unfolding finalize_route Stock.finalize_order
agreed_finalized = refl

finalized-IsCovered_example :
    ((Stock.finalize_order 99 shelf "u" agreed).0.status ≡ validated)
    × All (IsCovered 99 shelf) (Stock.finalize_order 99 shelf "u" agreed).0.line_items
finalized-IsCovered_example =
    finalized-IsCovered 99 shelf "u" agreed agreed-orderable agreed_finalized

-- The customer agrees, and the only line left has no match in the catalog.
abbrev unmatched : OrderState
unmatched = record agreed { line_items = rice ∷ []; mandate_verified = false }

unmatched-orderable : orderable_line_items unmatched.line_items ≡ []
unfolding orderable_line_items
unmatched-orderable = refl

unmatched-available : has_unavailable_items unmatched ≡ false
unfolding has_unavailable_items
unmatched-available = refl

confirmed_nothing_is_invoiced_example :
    let t = check_missing_fields unmatched in
    let u = (Stock.finalize_order 99 shelf "u" t).0 in
    (missing_route t ≡ finalize_order)
    × (u.reply ≡ nothing_to_invoice)
    × (finalize_route u ≡ generate_invoice)
    × (u.line_items ≡ rice ∷ [])
confirmed_nothing_is_invoiced_example =
    confirmed_nothing_is_invoiced 99 shelf "u" unmatched refl unmatched-orderable
      unmatched-available

abbrev bill : Invoice
bill = record {
  order_id = "inv-1";
  session_id = "s";
  issued_at = 0;
  merchant_name = "Shop";
  customer_name = none;
  address = none;
  phone_number = none;
  line_items = [];
  subtotal_paise = 6200;
  discount_paise = 0;
  taxable_paise = 6200;
  cgst_paise = 0;
  sgst_paise = 0;
  tax_paise = 0;
  shipping_paise = 0;
  total_paise = 6200;
  accepted_offers = [];
  payment_link_url = none;
  payment_expires_at = none;
  reservation_expires_at = none;
}

-- The reservation fails, the payment link is made, and its cancellation raises.
abbrev unlucky : Clients
unlucky = record {
  submit_invoice = λ id invoice. none;
  create_payment_link =
      λ merchant id amount. some (record failure { success = true; payment_link_url = some "url" });
  cancel_payment_link = λ merchant id. none;
}

bill_id : str_eq "inv-1" "" ≡ false
bill_id = refl

process_invoice-IsSettled_example :
    let (t, fx) = process_invoice unlucky "m" 50 (record agreed { invoice = some bill }) in
    IsSettled false true unlucky (resolve_merchant_id "m" none) "inv-1" t fx
unfolding result_or_exception
process_invoice-IsSettled_example = process_invoice-IsSettled unlucky "m" 50 agreed bill bill_id

abbrev milk_report : Unavailable
milk_report = record {
  item_id = some "milk-1";
  item_name = "Milk";
  brand = some "Amul";
  requested_qty = some (pos 2);
  available_qty = pos 1;
}

abbrev reported : OrderState
reported = record agreed { unavailable_items = milk_report ∷ [] }

suggested_is_withdrawn_example :
    let t = suggest_alternative 99 shelf tools (λ u. "milk-2" ∷ []) reported in
    All (λ u. any (sells u) t.line_items ≡ false) (unavailable_items_from_state reported)
    × (has_unavailable_items t ≡ false)
suggested_is_withdrawn_example = suggested_is_withdrawn 99 shelf tools (λ u. "milk-2" ∷ []) reported

abbrev amul_milk : Suggestion
amul_milk = record {
  item_id = "milk-1";
  name = "Milk";
  brand = "Amul";
  weight_per_unit = "1L";
  expiry_date = some 100;
  price_paise = pos 3100;
  available_qty = pos 3;
}

abbrev found_if : Bool → List Suggestion
found_if true = amul_milk ∷ []
found_if false = []

abbrev search : Search
search name brand = found_if (str_eq name "Milk")

found-HasId : (b : Bool) → All HasId (found_if b)
found-HasId true = (refl, tt)
found-HasId false = tt

search-HasId : (name : String) (brand : Option String) → All HasId (search name brand)
search-HasId name brand = found-HasId (str_eq name "Milk")

looked_up_route :
    missing_route (check_missing_fields (looked_up 99 shelf search tools agreed)) ≡ finalize_order
unfolding missing_route check_missing_fields looked_up
looked_up_route = refl

agreed_waits : agreed.invoice_proceed ≡ true
agreed_waits =
    looked_up_waits_for_confirmation 99 shelf search tools agreed search-HasId agreed-identified
      refl looked_up_route

abbrev asked_session : OrderState
asked_session = record new_session { awaiting_invoice_confirmation = true }

abbrev yes_turn : TurnRequest
yes_turn = record { message = "Yes, looks good"; mandate_verified = true; merchant_id = none }

abbrev nothing_new : ParsedTurn
nothing_new = record { line_items = []; customer_name = none; address = none; phone = none }

yes_proceeds :
    (open_turn (some asked_session) none no_profile yes_turn false nothing_new).invoice_proceed
    ≡ true
unfolding open_turn
yes_proceeds = refl

no_proceeds_without_question :
    (is_invoice_proceed_message yes_turn.message ≡ true)
    × ((s : OrderState) × (some asked_session ≡ some s) × (s.awaiting_invoice_confirmation ≡ true))
no_proceeds_without_question =
    proceeds_only_if_asked (some asked_session) none no_profile yes_turn false nothing_new
      yes_proceeds

abbrev milk_line : LineItem
milk_line = record {
  item_name = "Milk ";
  brand = some "Amul";
  qty = none;
  item_id = some "milk-1";
  unit_price_paise = some (pos 3100);
  available_qty = some (pos 3);
  weight_per_unit = some "1L";
  expiry_date = some 100;
  resolved = true;
  catalog_status = some resolved_status;
}

abbrev salt_line : LineItem
salt_line = record milk_line { item_name = "Salt"; brand = some "Tata"; item_id = some "salt-1" }

-- "no salt", and two packs of beans.
abbrev beans_no_salt : ParsedIntent
beans_no_salt = record {
  line_items = record { item_name = "Beans"; brand = none; qty = some (pos 2) } ∷ [];
  remove_item_names = "salt" ∷ [];
  customer_name = none;
  address = none;
  phone = none;
}

abbrev no_phrases : Found
no_phrases = record { removed = []; phrases = [] }

abbrev new_cart : List LineItem
new_cart =
    record milk_line { item_name = "Milk"; qty = some (pos 1) }
    ∷ record {
      item_name = "Beans";
      brand = none;
      qty = some (pos 2);
      item_id = none;
      unit_price_paise = none;
      available_qty = none;
      weight_per_unit = none;
      expiry_date = none;
      resolved = false;
      catalog_status = none;
    }
    ∷ []

cart_is_parsed :
    parsed_lines "2 beans, no salt" no_phrases beans_no_salt (milk_line ∷ salt_line ∷ []) ≡ new_cart
unfolding parsed_lines
cart_is_parsed = refl

parsed-IsKnown_example :
    All
      (IsKnown (map default_qty (map normalize_line_item (milk_line ∷ salt_line ∷ []))))
      (parsed_lines "2 beans, no salt" no_phrases beans_no_salt (milk_line ∷ salt_line ∷ []))
parsed-IsKnown_example =
    parsed-IsKnown "2 beans, no salt" no_phrases beans_no_salt (milk_line ∷ salt_line ∷ [])

abbrev shopping : OrderState
shopping = record asked_session { line_items = milk_line ∷ []; phone = some "1" }

abbrev no_sessions : MemoryStore
no_sessions = record { states = []; drafts = [] }

abbrev other_traffic : List (ℕ × String × Access)
other_traffic = (110, "s2", saves new_session) ∷ (120, "s2", loads) ∷ []

saved_session_is_loaded_example :
    let loaded =
      load_both 1800 900 "s1"
        (access_all 1800 other_traffic (save_state 1800 100 "s1" shopping no_sessions)) in
    let turn = load_session loaded.0 loaded.1 no_profile yes_turn in
    (loaded ≡ (some shopping, some (draft_of shopping)))
    × ((turn.line_items ≡ milk_line ∷ [])
        × ((turn.missing_fields ≡ shopping.missing_fields)
            × (turn.awaiting_invoice_confirmation ≡ true)))
saved_session_is_loaded_example =
    saved_session_is_loaded "s1" 1800 100 900 shopping no_sessions other_traffic no_profile yes_turn
      (refl, (refl, tt)) (omega arith) (omega arith)
