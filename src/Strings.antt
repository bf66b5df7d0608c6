-- ===== src/Strings.antt =====
-- Python's operations on ASCII texts: `strip`, `lower`, and the truth of an optional text.
use Prim.Native.String as Text
use Prim.Native.Char.{code}
use merchant_ai_agent.Base.{
  ℕ, ◌+◌, String, Bool, true, false, not, ◌&&◌, ◌||◌, Option, none, some, List, [], ◌∷◌, str_eq,
  any, map, ◌≡◌, refl, arith, if◌then◌else◌, leb, ◌==◌,
}
use merchant_ai_agent.Uuid.{codes}

unfoldable pub is_blank : ℕ → Bool
is_blank c = c == 32 || (leb 9 c && leb c 13) || (leb 28 c && leb c 31)

-- `text.strip()` is not empty.
unfoldable pub has_text : String → Bool
unfolding any is_blank
has_text text = any (λ c. not (is_blank c)) (codes text)

drop_left : String → String
unfolding is_blank
drop_left Text.[] = ""
drop_left (Text.◌∷◌ c rest) =
    let shorter = drop_left rest in if is_blank (code c) then shorter else Text.◌∷◌ c rest

drop_right : String → String
unfolding is_blank
drop_right Text.[] = ""
drop_right (Text.◌∷◌ c rest) =
    let shorter = drop_right rest in
    if str_eq shorter "" && is_blank (code c) then "" else Text.◌∷◌ c shorter

-- `text.strip()`
unfoldable pub strip_text : String → String
unfolding drop_left drop_right
strip_text text = drop_right (drop_left text)

unfoldable pub lowered : ℕ → ℕ
lowered c = if leb b'A' c && leb c b'Z' then c + 32 else c

unfoldable pub same_codes : List ℕ → List ℕ → Bool
same_codes [] [] = true
same_codes [] (y ∷ ys) = false
same_codes (x ∷ xs) [] = false
same_codes (x ∷ xs) (y ∷ ys) = x == y && same_codes xs ys

pub same_codes-eq : (a b : List ℕ) → same_codes a b ≡ true → a ≡ b
unfolding same_codes
same_codes-eq [] [] h = refl
same_codes-eq [] (y ∷ ys) h = cc
same_codes-eq (x ∷ xs) [] h = cc
same_codes-eq (x ∷ xs) (y ∷ ys) h = ground (arith, same_codes-eq xs ys)

pub same_codes_self : (a : List ℕ) → same_codes a a ≡ true
unfolding same_codes
same_codes_self [] = refl
same_codes_self (x ∷ xs) = ground (arith, same_codes_self xs)

-- `a.lower() == b`, of a text `b` in lower case.
unfoldable pub lower_is : String → String → Bool
unfolding lowered same_codes
lower_is a b = same_codes (map lowered (codes a)) (codes b)

-- `str(x or "").strip() or None`
unfoldable pub stripped : Option String → Option String
unfolding strip_text
stripped none = none
stripped (some text) = let bare = strip_text text in if str_eq bare "" then none else some bare

-- `a.lower() == b.lower()`
unfoldable pub same_lower : String → String → Bool
unfolding lowered same_codes
same_lower a b = same_codes (map lowered (codes a)) (map lowered (codes b))
