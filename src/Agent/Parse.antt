-- ===== src/Agent/Parse.antt =====
-- How `parse_intent` of services/merchant_agent/graph/nodes.py rewrites the lines of the cart, on ASCII
-- texts. What the language model has read, and what the regular expressions find in the message, are
-- parameters.
use merchant_ai_agent.Base.{
  String, Bool, false, ◌&&◌, ◌||◌, Option, none, some, List, [], ◌∷◌, ◌++◌, map, any, if◌then◌else◌,
}
use merchant_ai_agent.Base.Int.{ℤ}
use merchant_ai_agent.Uuid.{codes}
use merchant_ai_agent.Strings.{strip_text}
use merchant_ai_agent.Agent.{LineItem, OrderState, is_stockout_pending}
use merchant_ai_agent.Agent.Names.{is_within, names_similar}
use merchant_ai_agent.Agent.Lookup.{default_qty}
use merchant_ai_agent.Agent.Merge.{
  ParsedIntent, drop_dominated, drop_removed_line_items, lower, merge_all, normalize_line_item,
  or_old,
}
use merchant_ai_agent.Agent.Asked.{write_parsed}

-- A product of the catalog that the message names, with its brand as the catalog writes it, and the
-- quantity behind it.
pub record Phrase : Type 0 where
  pub brand : String
  pub product : String
  pub qty : Option ℤ

-- What is found in the message: names to remove, and phrases.
pub record Found : Type 0 where
  pub removed : List String
  pub phrases : List Phrase

abbrev pub substitute_hints : List String
substitute_hints =
    "select" ∷ "choose" ∷ "switch" ∷ "instead" ∷ "replace" ∷ "go with" ∷ "i'll take" ∷ "ill take"
    ∷ "use " ∷ "okk" ∷ "ok " ∷ []

unfoldable pub substituted : Phrase → LineItem → LineItem
unfolding or_old
substituted phrase item = record item {
  brand = some phrase.brand;
  item_name = phrase.product;
  qty = or_old phrase.qty item.qty;
  resolved = false;
  item_id = none;
  catalog_status = none;
}

-- The first line that passes a test is changed.
unfoldable pub change_first :
    (LineItem → Bool) → (LineItem → LineItem) → List LineItem → List LineItem
change_first p f [] = []
change_first p f (item ∷ items) =
    let rest = change_first p f items in if p item then f item ∷ items else item ∷ rest

unfoldable pub is_pending : LineItem → Bool
unfolding is_stockout_pending
is_pending item = is_stockout_pending item.catalog_status

unfoldable pub is_target : Phrase → LineItem → Bool
unfolding is_pending names_similar
is_target phrase item = is_pending item && names_similar item.item_name phrase.product

unfoldable pub substitute : Phrase → List LineItem → List LineItem
unfolding any is_target is_pending change_first substituted
substitute phrase items =
    if any (is_target phrase) items
    then change_first (is_target phrase) (substituted phrase) items
    else change_first is_pending (substituted phrase) items

unfoldable pub substitute_all : List Phrase → List LineItem → List LineItem
unfolding substitute
substitute_all [] items = items
substitute_all (phrase ∷ phrases) items = substitute_all phrases (substitute phrase items)

-- `_apply_substitute_phrase`
unfoldable pub apply_substitute_phrase : String → List Phrase → List LineItem → List LineItem
unfolding any is_pending is_within lower substitute_all
apply_substitute_phrase message phrases items =
    if any is_pending items
      || any (λ hint. is_within (codes hint) (lower (strip_text message))) substitute_hints
    then substitute_all phrases items
    else items

-- The lines that `parse_intent` returns.
unfoldable pub parsed_lines : String → Found → ParsedIntent → List LineItem → List LineItem
unfolding normalize_line_item merge_all drop_removed_line_items drop_dominated
    apply_substitute_phrase default_qty
parsed_lines message found parsed items =
    let remove_names = parsed.remove_item_names ++ found.removed in
    map default_qty (
      apply_substitute_phrase message found.phrases (
        drop_dominated (
          drop_removed_line_items remove_names
            (merge_all remove_names parsed.line_items (map normalize_line_item items)))))

-- `parse_intent`
unfoldable pub parse_intent : Found → ParsedIntent → OrderState → OrderState
unfolding parsed_lines write_parsed
parse_intent found parsed s =
    write_parsed
      (record {
        line_items = parsed_lines s.message found parsed s.line_items;
        customer_name = parsed.customer_name;
        address = parsed.address;
        phone = parsed.phone;
      })
      s
