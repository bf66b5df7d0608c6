-- ===== src/Agent/Names.antt =====
-- `_names_similar` of services/merchant_agent/graph/nodes.py, on ASCII texts: letters and digits in
-- lower case, one inside the other or one edit apart. The edit distance is computed row by row.
use merchant_ai_agent.Base.{
  ℕ, ◌+◌, ◌-◌, ◌≡◌, refl, String, Bool, true, false, ◌&&◌, ◌||◌, List, [], ◌∷◌, ◌==◌, leb,
  if◌then◌else◌, length, select, map, min,
}
use merchant_ai_agent.Uuid.{codes}

unfoldable pub lower_code : ℕ → ℕ
lower_code c = if leb b'A' c && leb c b'Z' then c + 32 else c

unfoldable pub is_alnum : ℕ → Bool
is_alnum c = (leb b'0' c && leb c b'9') || (leb b'a' c && leb c b'z')

-- `"".join(ch for ch in a.lower() if ch.isalnum())`
unfoldable pub bare_name : String → List ℕ
unfolding lower_code is_alnum select
bare_name text = select is_alnum (map lower_code (codes text))

unfoldable pub is_prefix : List ℕ → List ℕ → Bool
is_prefix [] ys = true
is_prefix (x ∷ xs) [] = false
is_prefix (x ∷ xs) (y ∷ ys) = x == y && is_prefix xs ys

-- `xs in ys` of two texts.
unfoldable pub is_within : List ℕ → List ℕ → Bool
unfolding is_prefix
is_within xs [] = is_prefix xs []
is_within xs (y ∷ ys) = is_prefix xs (y ∷ ys) || is_within xs ys

unfoldable pub edit_cost : ℕ → ℕ → ℕ
edit_cost a b = if a == b then 0 else 1

-- The inner loop: `last` is `curr[-1]`, and the row before starts at `prev[j - 1]`.
unfoldable pub fill_row : ℕ → ℕ → List ℕ → List ℕ → List ℕ
unfolding edit_cost
fill_row a last (p ∷ q ∷ prev) (b ∷ right) =
    let v = min (min (last + 1) (q + 1)) (p + edit_cost a b) in v ∷ fill_row a v (q ∷ prev) right
fill_row a last [] right = []
fill_row a last (p ∷ []) right = []
fill_row a last (p ∷ q ∷ prev) [] = []

-- The outer loop from row `i` on.
unfoldable pub fill_rows : ℕ → List ℕ → List ℕ → List ℕ → List ℕ
unfolding fill_row
fill_rows i prev [] right = prev
fill_rows i prev (a ∷ left) right = fill_rows (i + 1) (i ∷ fill_row a i prev right) left right

-- `list(range(len(right) + 1))`, from `j` on.
unfoldable pub first_row : ℕ → List ℕ → List ℕ
first_row j [] = j ∷ []
first_row j (b ∷ right) = j ∷ first_row (j + 1) right

-- `prev[-1]`
unfoldable pub last_entry : ℕ → List ℕ → ℕ
last_entry d [] = d
last_entry d (x ∷ xs) = last_entry x xs

unfoldable pub edit_distance : List ℕ → List ℕ → ℕ
unfolding fill_rows first_row last_entry
edit_distance left right = last_entry 0 (fill_rows 1 (first_row 0 right) left right)

is_empty : List ℕ → Bool
is_empty [] = true
is_empty (x ∷ xs) = false

unfoldable pub bare_similar : List ℕ → List ℕ → Bool
unfolding is_empty is_within edit_distance
bare_similar left right =
    if is_empty left || is_empty right
    then false
    else if is_within left right || is_within right left
    then true
    else if leb 2 ((length left - length right) + (length right - length left))
    then false
    else leb (edit_distance left right) 1

unfoldable pub names_similar : String → String → Bool
unfolding bare_name bare_similar
names_similar a b = bare_similar (bare_name a) (bare_name b)

milk : names_similar "Milk" "mil-lk" ≡ true
unfolding names_similar
milk = refl

milk-salt : names_similar "Milk" "Salt" ≡ false
unfolding names_similar
milk-salt = refl
