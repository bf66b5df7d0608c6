-- ===== src/Catalog/Match.antt =====
-- `_payload_matches` of services/merchant_agent/catalog_service.py, on ASCII texts.
use merchant_ai_agent.Base.{
  ℕ, ◌+◌, ◌-◌, ◌≡◌, refl, String, Bool, true, false, not, ◌&&◌, ◌||◌, Option, none, some, List, [],
  ◌∷◌, ◌++◌, map, any, select, leb, length, if◌then◌else◌,
}
use merchant_ai_agent.Uuid.{codes}
use merchant_ai_agent.Strings.{same_codes}
use merchant_ai_agent.Agent.Names.{lower_code, is_alnum, bare_name, is_within, edit_distance}

is_empty : List ℕ → Bool
is_empty [] = true
is_empty (c ∷ cs) = false

put_word : List ℕ → List (List ℕ) → List (List ℕ)
put_word [] words = words
put_word (c ∷ word) words = (c ∷ word) ∷ words

-- The words of a text in lower case, the one under way first.
words_of : List ℕ → List ℕ → List (List ℕ)
unfolding put_word is_alnum
words_of word [] = put_word word []
words_of word (c ∷ text) =
    let longer = words_of (word ++ c ∷ []) text in
    let next = put_word word (words_of [] text) in if is_alnum c then longer else next

-- `_tokens`
unfoldable pub tokens : String → List (List ℕ)
unfolding words_of lower_code
tokens value = words_of [] (map lower_code (codes value))

-- `_fuzzy_contains`, whose rows are those of the edit distance.
unfoldable pub fuzzy_contains : List ℕ → List ℕ → Bool
unfolding is_empty is_within edit_distance
fuzzy_contains haystack needle =
    if is_empty needle || is_within needle haystack
    then true
    else if leb (length needle) 2
    then false
    else if leb 2 ((length haystack - length needle) + (length needle - length haystack))
    then false
    else leb (edit_distance haystack needle) 1

-- `_normalize_token(brand) if brand else None`, where an empty result counts as none.
unfoldable pub wanted_brand : Option String → List ℕ
unfolding bare_name
wanted_brand none = []
wanted_brand (some brand) = bare_name brand

unfoldable pub or_tokens : List (List ℕ) → List (List ℕ) → List (List ℕ)
or_tokens [] others = others
or_tokens (t ∷ ts) others = t ∷ ts

unfoldable pub without : List ℕ → List (List ℕ) → List (List ℕ)
unfolding select same_codes
without brand = select (λ token. not (same_codes token brand))

-- The words of the query that name the product, by the brand that is wanted, or that of the payload.
unfoldable pub product_tokens : List ℕ → List ℕ → List (List ℕ) → List (List ℕ)
unfolding or_tokens without
product_tokens [] [] query = query
product_tokens [] (b ∷ brand) query = or_tokens (without (b ∷ brand) query) query
product_tokens (b ∷ brand) payload_brand query = or_tokens (without (b ∷ brand) query) query

unfoldable pub token_matches : String → List ℕ → Bool
unfolding is_empty is_within bare_name any tokens fuzzy_contains
token_matches name token =
    not (is_empty token)
    && (is_within token (bare_name name)
        || any (λ word. fuzzy_contains word token || fuzzy_contains token word) (tokens name))

unfoldable pub name_matches : String → String → List (List ℕ) → Bool
unfolding any token_matches is_empty is_within bare_name
name_matches name item_name [] = false
name_matches name item_name (token ∷ others) =
    any (token_matches name) (token ∷ others)
    || (not (is_empty (bare_name name)) && is_within (bare_name name) (bare_name item_name))

-- `_payload_matches`, of a payload with this name and brand.
unfoldable pub payload_matches : String → Option String → String → String → Bool
unfolding wanted_brand bare_name is_empty same_codes name_matches product_tokens tokens
payload_matches item_name brand name payload_brand =
    if not (is_empty (wanted_brand brand))
      && not (same_codes (bare_name payload_brand) (wanted_brand brand))
    then false
    else name_matches name item_name
        (product_tokens (wanted_brand brand) (bare_name payload_brand) (tokens item_name))

branded : payload_matches "amul mlk" none "Toned Milk" "Amul" ≡ true
unfolding payload_matches
branded = refl

other_brand : payload_matches "milk" (some "Amul") "Toned Milk" "Nandini" ≡ false
unfolding payload_matches
other_brand = refl
