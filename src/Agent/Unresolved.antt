-- ===== src/Agent/Unresolved.antt =====
-- What the cart of `parse_intent` in services/merchant_agent/graph/nodes.py may say of its lines.
use merchant_ai_agent.Base.{
  ◌≡◌, refl, String, Bool, false, not, Option, List, [], ◌∷◌, ◌++◌, map, any, ◌⊎◌, inl, inr, All,
  All-select, Bool-cases, arith, ap, ◌∙◌, str_eq, is_some, ◌||◌,
}
use merchant_ai_agent.Base.Int.{ℤ}
use merchant_ai_agent.Uuid.{codes}
use merchant_ai_agent.Strings.{strip_text}
use merchant_ai_agent.Agent.{LineItem, truthy}
use merchant_ai_agent.Agent.Lookup.{default_qty}
use merchant_ai_agent.Agent.Names.{names_similar, is_within}
use merchant_ai_agent.Agent.Merge.{
  ParsedLineItem, ParsedIntent, normalize_line_item, merged_line, new_line, merge_line, merge_split,
  merge_extracted, merge_all, drop_removed_line_items, drop_dominated, is_removed, is_dropped,
  is_dominated, lower,
}
use merchant_ai_agent.Agent.Parse.{
  Phrase, Found, substituted, change_first, substitute, substitute_all, apply_substitute_phrase,
  parsed_lines, is_target, is_pending, substitute_hints,
}

unfoldable pub Among : LineItem → List LineItem → Type 0
Among item [] = ⊥
Among item (other ∷ items) = (item ≡ other) ⊎ Among item items

-- A line counts as resolved only if it is one of these.
unfoldable pub IsKnown : List LineItem → LineItem → Type 0
IsKnown known item = (item.resolved ≡ false) ⊎ Among item known

module _ (known : List LineItem) where
  IsKnown-cons : (x item : LineItem) → IsKnown known item → IsKnown (x ∷ known) item
  unfolding IsKnown Among
  IsKnown-cons x item (inl e) = inl e
  IsKnown-cons x item (inr h) = inr (inr h)

  all-cons :
      (x : LineItem) (items : List LineItem)
      → All (IsKnown known) items
      → All (IsKnown (x ∷ known)) items
  all-cons x [] h = tt
  all-cons x (item ∷ items) h = (IsKnown-cons x item h.0, all-cons x items h.1)

all-IsKnown : (items : List LineItem) → All (IsKnown items) items
unfolding IsKnown Among
all-IsKnown [] = tt
all-IsKnown (item ∷ items) = (inr (inl refl), all-cons items item items (all-IsKnown items))

module _ (known : List LineItem) where
  merged-IsKnown :
      (brand : Option String) (name : String) (qty : Option ℤ) (item : LineItem)
      → IsKnown known item
      → IsKnown known (merged_line brand name qty item)
  unfolding IsKnown merged_line
  merged-IsKnown brand name qty item h =
      elim (Bool-cases (not (str_eq name "") || (truthy brand || is_some qty))) [
        | inl e ↦ rw e (inl refl)
        | inr e ↦ rw e h
      ]

  merge-IsKnown :
      (brand : Option String) (name : String) (qty : Option ℤ) (items : List LineItem)
      → All (IsKnown known) items
      → All (IsKnown known) (merge_line brand name qty items)
  unfolding merge_line IsKnown new_line
  merge-IsKnown brand name qty [] h = (inl refl, tt)
  merge-IsKnown brand name qty (item ∷ items) h =
      elim (Bool-cases (names_similar item.item_name name)) [
        | inl e ↦ rw e (merged-IsKnown brand name qty item h.0, h.1)
        | inr e ↦ rw e (h.0, merge-IsKnown brand name qty items h.1)
      ]

  merge_split-IsKnown :
      (qty : Option ℤ) (line : Option String × String) (items : List LineItem)
      → All (IsKnown known) items
      → All (IsKnown known) (merge_split qty line items)
  unfolding merge_split
  merge_split-IsKnown qty (brand, name) items h = merge-IsKnown brand name qty items h

  extracted-IsKnown :
      (remove_names : List String) (extracted : ParsedLineItem) (items : List LineItem)
      → All (IsKnown known) items
      → All (IsKnown known) (merge_extracted remove_names extracted items)
  unfolding merge_extracted
  extracted-IsKnown remove_names extracted items h =
      elim (Bool-cases (is_removed remove_names (strip_text extracted.item_name))) [
        | inl e ↦ rw e h
        | inr e ↦ rw e (merge_split-IsKnown _ _ items h)
      ]

  merge_all-IsKnown :
      (remove_names : List String) (parsed : List ParsedLineItem) (items : List LineItem)
      → All (IsKnown known) items
      → All (IsKnown known) (merge_all remove_names parsed items)
  unfolding merge_all
  merge_all-IsKnown remove_names [] items h = h
  merge_all-IsKnown remove_names (extracted ∷ parsed) items h =
      merge_all-IsKnown remove_names parsed _ (extracted-IsKnown remove_names extracted items h)

  changed-IsKnown :
      (p : LineItem → Bool) (phrase : Phrase) (items : List LineItem)
      → All (IsKnown known) items
      → All (IsKnown known) (change_first p (substituted phrase) items)
  unfolding change_first IsKnown substituted
  changed-IsKnown p phrase [] h = tt
  changed-IsKnown p phrase (item ∷ items) h = elim (Bool-cases (p item)) [
    | inl e ↦ rw e (inl refl, h.1)
    | inr e ↦ rw e (h.0, changed-IsKnown p phrase items h.1)
  ]

  substitute-IsKnown :
      (phrase : Phrase) (items : List LineItem)
      → All (IsKnown known) items
      → All (IsKnown known) (substitute phrase items)
  unfolding substitute
  substitute-IsKnown phrase items h = elim (Bool-cases (any (is_target phrase) items)) [
    | inl e ↦ rw e (changed-IsKnown _ phrase items h)
    | inr e ↦ rw e (changed-IsKnown _ phrase items h)
  ]

  substitute_all-IsKnown :
      (phrases : List Phrase) (items : List LineItem)
      → All (IsKnown known) items
      → All (IsKnown known) (substitute_all phrases items)
  unfolding substitute_all
  substitute_all-IsKnown [] items h = h
  substitute_all-IsKnown (phrase ∷ phrases) items h =
      substitute_all-IsKnown phrases _ (substitute-IsKnown phrase items h)

  apply-IsKnown :
      (message : String) (phrases : List Phrase) (items : List LineItem)
      → All (IsKnown known) items
      → All (IsKnown known) (apply_substitute_phrase message phrases items)
  unfolding apply_substitute_phrase
  apply-IsKnown message phrases items h =
      elim (Bool-cases (
        any is_pending items
        || any (λ hint. is_within (codes hint) (lower (strip_text message))) substitute_hints)) [
          | inl e ↦ rw e (substitute_all-IsKnown phrases items h)
          | inr e ↦ rw e h
        ]

  default-resolved : (item : LineItem) → (default_qty item).resolved ≡ item.resolved
  unfolding default_qty
  default-resolved item = ground arith

  Among-default :
      (items : List LineItem) (item : LineItem)
      → Among item items
      → Among (default_qty item) (map default_qty items)
  unfolding Among
  Among-default [] item h = elim h [ ]
  Among-default (x ∷ items) item (inl e) = inl (ap default_qty e)
  Among-default (x ∷ items) item (inr h) = inr (Among-default items item h)

  default-IsKnown :
      (item : LineItem) → IsKnown known item → IsKnown (map default_qty known) (default_qty item)
  unfolding IsKnown
  default-IsKnown item (inl e) = inl (default-resolved item ∙ e)
  default-IsKnown item (inr h) = inr (Among-default known item h)

  defaults-IsKnown :
      (items : List LineItem)
      → All (IsKnown known) items
      → All (IsKnown (map default_qty known)) (map default_qty items)
  defaults-IsKnown [] h = tt
  defaults-IsKnown (item ∷ items) h = (default-IsKnown item h.0, defaults-IsKnown items h.1)

-- Whatever the customer writes, whatever the model reads in it and whatever phrases are found, a line
-- of the new cart that counts as resolved is a line that the session already had, its name stripped,
-- with a quantity of one if it had none.
pub parsed-IsKnown :
    (message : String) (found : Found) (parsed : ParsedIntent) (items : List LineItem)
    → All
        (IsKnown (map default_qty (map normalize_line_item items)))
        (parsed_lines message found parsed items)
unfolding parsed_lines drop_removed_line_items drop_dominated
parsed-IsKnown message found parsed items =
    let known = map normalize_line_item items in
    let remove_names = parsed.remove_item_names ++ found.removed in
    let merged = merge_all remove_names parsed.line_items known in
    let kept = drop_removed_line_items remove_names merged in
    defaults-IsKnown known _ (
      apply-IsKnown known message found.phrases _ (
        All-select _ (λ item. not (is_dominated kept item)) kept
          (All-select _ (λ item. not (is_dropped remove_names item)) merged
            (merge_all-IsKnown known remove_names parsed.line_items known (all-IsKnown known)))))
