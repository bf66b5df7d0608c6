-- ===== src/Agent/Merge.antt =====
-- How `parse_intent` of services/merchant_agent/graph/nodes.py brings what the language model has read into
-- the lines of the cart, on ASCII texts.
use Prim.Native.String as Text
use Prim.Native.Char.{code}
use merchant_ai_agent.Base.{
  ℕ, ◌+◌, String, Bool, true, false, not, ◌&&◌, ◌||◌, Option, none, some, List, [], ◌∷◌, map, any,
  select, str_eq, is_some, ltb, ◌==◌, if◌then◌else◌,
}
use merchant_ai_agent.Base.Int.{ℤ, pos}
use merchant_ai_agent.Uuid.{codes}
use merchant_ai_agent.Strings.{strip_text, is_blank}
use merchant_ai_agent.Agent.{LineItem, truthy}
use merchant_ai_agent.Agent.Names.{lower_code, is_within, names_similar}

pub record ParsedLineItem : Type 0 where
  pub item_name : String
  pub brand : Option String
  pub qty : Option ℤ

pub record ParsedIntent : Type 0 where
  pub line_items : List ParsedLineItem
  pub remove_item_names : List String
  pub customer_name : Option String
  pub address : Option String
  pub phone : Option String

-- `_normalize_line_item`, on lines that have all keys.
unfoldable pub normalize_line_item : LineItem → LineItem
unfolding strip_text
normalize_line_item item = record item { item_name = strip_text item.item_name }

push_word : String → List String → List String
push_word word words = if str_eq word "" then words else word ∷ words

-- The word that begins here, and the words behind it.
word_and_rest : String → String × List String
unfolding push_word is_blank
word_and_rest Text.[] = ("", [])
word_and_rest (Text.◌∷◌ c rest) =
    let (word, words) = word_and_rest rest in
    if is_blank (code c) then ("", push_word word words) else (Text.◌∷◌ c word, words)

-- `text.split()`
unfoldable pub split_words : String → List String
unfolding word_and_rest push_word
split_words text = let (word, words) = word_and_rest text in push_word word words

-- `" ".join(words)`
unfoldable pub join_words : List String → String
join_words [] = ""
join_words (word ∷ []) = word
join_words (word ∷ next ∷ words) = Text.◌++◌ word (Text.◌++◌ " " (join_words (next ∷ words)))

unfoldable pub lower : String → List ℕ
unfolding lower_code
lower text = map lower_code (codes text)

-- Whether the customer has taken the product back.
unfoldable pub is_removed : List String → String → Bool
unfolding any names_similar is_within lower
is_removed remove_names name =
    not (str_eq name "")
    && any
        (λ remove.
          not (str_eq remove "")
          && (names_similar name remove
              || (is_within (lower name) (lower remove) || is_within (lower remove) (lower name))))
        remove_names

-- The name and the brand, split where the brand may be the first word of the name.
unfoldable pub split_brand : Option String → String → List String → Option String × String
unfolding join_words
split_brand (some brand) name words = (some brand, name)
split_brand none name (first ∷ next ∷ words) = (some first, join_words (next ∷ words))
split_brand none name (first ∷ []) = (none, name)
split_brand none name [] = (none, name)

-- `extracted.brand or None`
unfoldable pub brand_or_none : Option String → Option String
unfolding truthy
brand_or_none brand = if truthy brand then brand else none

unfoldable pub or_old : Option ℤ → Option ℤ → Option ℤ
or_old none old = old
or_old (some qty) old = some qty

-- The line that is there, after the customer has named it again.
unfoldable pub merged_line : Option String → String → Option ℤ → LineItem → LineItem
unfolding truthy or_old
merged_line brand name qty item =
    if not (str_eq name "") || (truthy brand || is_some qty)
    then record item {
      item_name = if str_eq name "" then item.item_name else name;
      brand = if truthy brand then brand else item.brand;
      qty = or_old qty item.qty;
      resolved = false;
      item_id = none;
      catalog_status = none;
    }
    else item

unfoldable pub new_line : Option String → String → Option ℤ → LineItem
new_line brand name qty = record {
  item_name = name;
  brand = brand;
  qty = qty;
  item_id = none;
  unit_price_paise = none;
  available_qty = none;
  weight_per_unit = none;
  expiry_date = none;
  resolved = false;
  catalog_status = none;
}

-- The first line with a similar name is merged; without one a line is added.
unfoldable pub merge_line : Option String → String → Option ℤ → List LineItem → List LineItem
unfolding names_similar merged_line new_line
merge_line brand name qty [] = new_line brand name qty ∷ []
merge_line brand name qty (item ∷ items) =
    let rest = merge_line brand name qty items in
    if names_similar item.item_name name
    then merged_line brand name qty item ∷ items
    else item ∷ rest

unfoldable pub merge_split : Option ℤ → Option String × String → List LineItem → List LineItem
unfolding merge_line
merge_split qty (brand, name) items = merge_line brand name qty items

unfoldable pub merge_extracted : List String → ParsedLineItem → List LineItem → List LineItem
unfolding is_removed strip_text merge_split split_brand brand_or_none split_words
merge_extracted remove_names extracted items =
    let name = strip_text extracted.item_name in
    if is_removed remove_names name
    then items
    else merge_split extracted.qty
        (split_brand (brand_or_none extracted.brand) name (split_words name)) items

unfoldable pub merge_all : List String → List ParsedLineItem → List LineItem → List LineItem
unfolding merge_extracted
merge_all remove_names [] items = items
merge_all remove_names (extracted ∷ more) items =
    merge_all remove_names more (merge_extracted remove_names extracted items)

-- `f"{brand} {item_name}".strip()`
unfoldable pub full_name : LineItem → String
unfolding strip_text
full_name item = elim item.brand [
  | none ↦ strip_text (Text.◌++◌ " " item.item_name)
  | some brand ↦ strip_text (Text.◌++◌ brand (Text.◌++◌ " " item.item_name))
]

unfoldable pub is_dropped : List String → LineItem → Bool
unfolding any names_similar full_name is_within lower
is_dropped remove_names item =
    any
      (λ remove.
        not (str_eq remove "")
        && ((names_similar item.item_name remove || names_similar (full_name item) remove)
            || (is_within (codes remove) (lower item.item_name)
                || is_within (lower item.item_name) (codes remove))))
      remove_names

-- `_drop_removed_line_items`
unfoldable pub drop_removed_line_items : List String → List LineItem → List LineItem
unfolding select is_dropped
drop_removed_line_items remove_names = select (λ item. not (is_dropped remove_names item))

one_if : Bool → ℕ
one_if true = 1
one_if false = 0

has_qty : Option ℤ → Bool
has_qty none = false
has_qty (some (pos n)) = not (n == 0)
has_qty (some negative) = true

unfoldable pub score : LineItem → ℕ
unfolding one_if has_qty truthy
score item = one_if (truthy item.brand) + one_if (has_qty item.qty) + one_if item.resolved

-- A line does not dominate itself, its score being the same.
unfoldable pub is_dominated : List LineItem → LineItem → Bool
unfolding any names_similar score
is_dominated items item =
    not item.resolved
    && any
        (λ (other : LineItem).
          names_similar item.item_name other.item_name && ltb (score item) (score other))
        items

unfoldable pub drop_dominated : List LineItem → List LineItem
unfolding select is_dominated
drop_dominated items = select (λ item. not (is_dominated items item)) items
