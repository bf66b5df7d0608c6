-- ===== src/Agent/Graph/Kept.antt =====
-- The lines of the order stay identified through the nodes of
-- services/merchant_agent/graph/build_graph.py, and what a node leaves alone.
use merchant_ai_agent.Base.{
  ℕ, ◌≡◌, refl, ◌∙◌, ap, String, Bool, true, false, ◌||◌, Option, none, some, List, [], ◌∷◌, map,
  if◌then◌else◌, inl, inr, leb, max, All,
}
use merchant_ai_agent.Base.Int.{ℤ}
use merchant_ai_agent.Agent.{
  LineItem, Unavailable, Tool, offer_tool, campaign_tool, cross_sell_tool, OrderState,
}
use merchant_ai_agent.Agent.Merge.{ParsedIntent, normalize_line_item}
use merchant_ai_agent.Agent.Parse.{Found, parsed_lines}
use merchant_ai_agent.Agent.Unresolved.{Among, IsKnown, parsed-IsKnown}
use merchant_ai_agent.Agent.Confirmed.{is_identified}
use merchant_ai_agent.Agent.Lookup.{default_qty}
use merchant_ai_agent.Agent.Identified.{AllIdentified, default_qty-identified, compared-identified}
use merchant_ai_agent.Agent.React.{
  Tools, selects, use_offers, use_campaigns, use_cross_sell, use_tools, run_selected, capped,
  executor,
}
use merchant_ai_agent.Agent.Alternatives.{
  marked_if, mark_line, mark_line_stockout_pending, mark_all, same_id, same_product,
}
use merchant_ai_agent.Agent.Stock.{
  Latest, Catalog, Checked, kept, finalize_known, finalize_lines, lookup_id,
}

-- What the nodes of the loop leave alone.
pub record IsSameOrder (s t : OrderState) : Type 0 where
  pub lines : t.line_items ≡ s.line_items
  pub awaits : t.awaiting_invoice_confirmation ≡ s.awaiting_invoice_confirmation
  pub proceeds : t.invoice_proceed ≡ s.invoice_proceed
  pub scratchpad : t.react_scratchpad ≡ s.react_scratchpad
  pub reserved : t.reservation_invoice_id ≡ s.reservation_invoice_id

use_tools-IsSameOrder :
    (tools : Tools) (selected : List Tool) (s t : OrderState)
    → IsSameOrder t (use_tools tools selected s t)
unfolding use_tools use_offers use_campaigns use_cross_sell
use_tools-IsSameOrder tools selected s t =
    go (selects offer_tool selected) (selects campaign_tool selected)
      (selects cross_sell_tool selected)
  where
    same :
        (u : OrderState)
        → u.line_items ≡ t.line_items
        → u.awaiting_invoice_confirmation ≡ t.awaiting_invoice_confirmation
        → u.invoice_proceed ≡ t.invoice_proceed
        → u.react_scratchpad ≡ t.react_scratchpad
        → u.reservation_invoice_id ≡ t.reservation_invoice_id
        → IsSameOrder t u
    same u a b c d e = record { lines = a; awaits = b; proceeds = c; scratchpad = d; reserved = e }

    go :
        (a b c : Bool)
        → IsSameOrder t
            (use_cross_sell tools c s (use_campaigns tools b s (use_offers tools a s t)))
    go true true true = same _ refl refl refl refl refl
    go true true false = same _ refl refl refl refl refl
    go true false true = same _ refl refl refl refl refl
    go true false false = same _ refl refl refl refl refl
    go false true true = same _ refl refl refl refl refl
    go false true false = same _ refl refl refl refl refl
    go false false true = same _ refl refl refl refl refl
    go false false false = same _ refl refl refl refl refl

selected-IsSameOrder :
    (tools : Tools) (selected : List Tool) (s : OrderState)
    → IsSameOrder s (run_selected tools selected s).0
unfolding run_selected
selected-IsSameOrder tools [] s = record {
  lines = refl;
  awaits = refl;
  proceeds = refl;
  scratchpad = refl;
  reserved = refl;
}
selected-IsSameOrder tools (tool ∷ more) s =
    let used = use_tools-IsSameOrder tools (tool ∷ more) s _ in
    record {
      lines = used.lines;
      awaits = used.awaits;
      proceeds = used.proceeds;
      scratchpad = used.scratchpad;
      reserved = used.reserved;
    }

pub executor-IsSameOrder :
    (tools : Tools) (loop_max : ℕ) (s : OrderState) → IsSameOrder s (executor tools loop_max s).0
unfolding executor capped
executor-IsSameOrder tools loop_max s = go (leb (max 1 loop_max) s.react_loop_count)
  where
    go :
        (b : Bool)
        → IsSameOrder s (if b then capped s else run_selected tools s.react_selected_tools s).0
    go true = record {
      lines = refl;
      awaits = refl;
      proceeds = refl;
      scratchpad = refl;
      reserved = refl;
    }
    go false = selected-IsSameOrder tools s.react_selected_tools s

Among-identified :
    (items : List LineItem) (item : LineItem)
    → AllIdentified items
    → Among item items
    → is_identified item ≡ true
unfolding Among AllIdentified
Among-identified [] item hs h = elim h [ ]
Among-identified (x ∷ items) item (h, hs) (inl e) = ap is_identified e ∙ h
Among-identified (x ∷ items) item (h, hs) (inr a) = Among-identified items item hs a

unresolved-identified : (item : LineItem) → item.resolved ≡ false → is_identified item ≡ true
unfolding is_identified
unresolved-identified item e = rw e refl

known-lines-identified :
    (known items : List LineItem)
    → AllIdentified known
    → All (IsKnown known) items
    → AllIdentified items
unfolding AllIdentified IsKnown
known-lines-identified known [] k hs = tt
known-lines-identified known (item ∷ items) k (inl e, hs) =
    (unresolved-identified item e, known-lines-identified known items k hs)
known-lines-identified known (item ∷ items) k (inr a, hs) =
    (Among-identified known item k a, known-lines-identified known items k hs)

stripped-identified :
    (items : List LineItem)
    → AllIdentified items
    → AllIdentified (map default_qty (map normalize_line_item items))
unfolding AllIdentified normalize_line_item is_identified
stripped-identified [] hs = tt
stripped-identified (item ∷ items) (h, hs) =
    (default_qty-identified (normalize_line_item item) ∙ h, stripped-identified items hs)

-- `parse_intent` marks no line as resolved.
pub parsed-identified :
    (message : String) (found : Found) (parsed : ParsedIntent) (items : List LineItem)
    → AllIdentified items
    → AllIdentified (parsed_lines message found parsed items)
parsed-identified message found parsed items hs =
    known-lines-identified (map default_qty (map normalize_line_item items)) _
      (stripped-identified items hs) (parsed-IsKnown message found parsed items)

marked-identified :
    (b : Bool) (item : LineItem)
    → is_identified item ≡ true
    → is_identified (marked_if b item) ≡ true
unfolding marked_if is_identified
marked-identified true item h = refl
marked-identified false item h = h

line-identified :
    (u : Unavailable) (items : List LineItem)
    → AllIdentified items
    → AllIdentified (mark_line_stockout_pending u items)
unfolding mark_line_stockout_pending mark_line AllIdentified
line-identified u [] hs = tt
line-identified u (item ∷ items) (h, hs) =
    (marked-identified (same_id u item || same_product u item) item h, line-identified u items hs)

pub marked_lines-identified :
    (us : List Unavailable) (items : List LineItem)
    → AllIdentified items
    → AllIdentified (mark_all us items)
unfolding mark_all
marked_lines-identified [] items hs = hs
marked_lines-identified (u ∷ us) items hs =
    marked_lines-identified us _ (line-identified u items hs)

finalized-line-identified :
    (today : ℕ) (latest : Option Latest) (qty : Option ℤ) (item : LineItem) (rest : Checked)
    → is_identified item ≡ true
    → AllIdentified rest.lines
    → AllIdentified (finalize_known today latest qty item rest).lines
unfolding finalize_known kept AllIdentified
finalized-line-identified today latest none item rest h hs = (h, hs)
finalized-line-identified today none (some q) item rest h hs = (h, hs)
finalized-line-identified today (some latest) (some q) item rest h hs =
    compared-identified today item q latest rest h hs

pub finalized_lines-identified :
    (today : ℕ) (catalog : Catalog) (items : List LineItem)
    → AllIdentified items
    → AllIdentified (finalize_lines today catalog items).lines
unfolding finalize_lines AllIdentified
finalized_lines-identified today catalog [] hs = tt
finalized_lines-identified today catalog (item ∷ items) (h, hs) =
    finalized-line-identified today (lookup_id catalog item.item_id) item.qty item
      (finalize_lines today catalog items) h (finalized_lines-identified today catalog items hs)
