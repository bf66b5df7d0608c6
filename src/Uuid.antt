-- ===== src/Uuid.antt =====
-- Python's `UUID(hex)` on ASCII text. A UUID is its 128-bit number; `str(uuid)` is the lower-case
-- hexadecimal of that number at a fixed width, so the number stands for it, in its order too.
pub mod Shown
use Prim.Native.Char.{code}
use Prim.Native.String.{◌++◌}
use merchant_ai_agent.Base.{
  ℕ, zero, suc, ◌+◌, ◌-◌, ◌*◌, ◌^◌, ◌/◌, ◌%◌, String, ◌≡◌, refl, Bool, true, false, not, ◌&&◌, ◌||◌,
  Option, none, some, List, [], ◌∷◌, ltb, leb, ◌==◌, if◌then◌else◌, length, select,
}

abbrev pub Uuid : Type 0
Uuid = ℕ

-- The code points of a text.
abbrev pub codes : String → List ℕ
codes String.[] = []
codes (String.◌∷◌ c s) = code c ∷ codes s

-- The rest of `s` behind the prefix `p`.
strip_prefix : List ℕ → List ℕ → Option (List ℕ)
strip_prefix [] s = some s
strip_prefix (c ∷ p) [] = none
strip_prefix (c ∷ p) (d ∷ s) = if c == d then strip_prefix p s else none

-- `s.replace(p, "")`, on the fuel `length s`.
remove_all : ℕ → List ℕ → List ℕ → List ℕ
remove_all zero p s = s
remove_all (suc n) p [] = []
remove_all (suc n) p (c ∷ s) = elim (strip_prefix p (c ∷ s)) [
  | some rest ↦ remove_all n p rest
  | none ↦ c ∷ remove_all n p s
]

is_brace : ℕ → Bool
is_brace c = c == b'{' || c == b'}'

strip_left : (ℕ → Bool) → List ℕ → List ℕ
strip_left p [] = []
strip_left p (c ∷ s) = let rest = strip_left p s in if p c then rest else c ∷ s

strip_right : (ℕ → Bool) → List ℕ → List ℕ
strip_right p [] = []
strip_right p (c ∷ s) = elim (strip_right p s) [
  | [] ↦ if p c then [] else c ∷ []
  | d ∷ t ↦ c ∷ d ∷ t
]

strip : (ℕ → Bool) → List ℕ → List ℕ
unfolding strip_left strip_right
strip p s = strip_left p (strip_right p s)

hex_digit : ℕ → Option ℕ
hex_digit c =
    if leb b'0' c && leb c b'9'
    then some (c - b'0')
    else if leb b'a' c && leb c b'f'
    then some (c - b'a' + 10)
    else if leb b'A' c && leb c b'F'
    then some (c - b'A' + 10)
    else none

-- The digits of `int(s, 16)`: a `_` may stand between two digits. The flag says whether the last
-- character was a digit.
hex_digits : Bool → ℕ → List ℕ → Option ℕ
hex_digits after_digit acc [] = if after_digit then some acc else none
hex_digits after_digit acc (c ∷ s) = elim (hex_digit c) [
  | some d ↦ hex_digits true (acc * 16 + d) s
  | none ↦ let rest = hex_digits false acc s in if c == b'_' && after_digit then rest else none
]

-- `0x` may stand before the digits, and one `_` behind it.
hex_body : List ℕ → Option ℕ
hex_body (z ∷ x ∷ s) =
    if z == b'0' && (x == b'x' || x == b'X')
    then hex_digits (any_underscore s) 0 s
    else hex_digits false 0 (z ∷ x ∷ s)
  where
    any_underscore : List ℕ → Bool
    any_underscore [] = false
    any_underscore (c ∷ t) = c == b'_'
hex_body s = hex_digits false 0 s

is_space : ℕ → Bool
is_space c = c == 32 || leb 9 c && leb c 13 || leb 28 c && leb c 31

-- `int(s, 16)`; the flag says whether the number has a minus sign.
hex_int : List ℕ → Option (Bool × ℕ)
hex_int s = signed (strip is_space s)
  where
    with_sign : Bool → Option ℕ → Option (Bool × ℕ)
    with_sign minus none = none
    with_sign minus (some n) = some (minus, n)

    signed : List ℕ → Option (Bool × ℕ)
    signed [] = none
    signed (c ∷ t) =
        if c == b'-'
        then with_sign true (hex_body t)
        else if c == b'+'
        then with_sign false (hex_body t)
        else with_sign false (hex_body (c ∷ t))

-- The number must lie in 0 ≤ n < 2^128.
in_range : Option (Bool × ℕ) → Option Uuid
in_range none = none
in_range (some (minus, n)) =
    if minus && not (n == 0) then none else if ltb n (2 ^ 128) then some n else none

unfoldable pub parse_uuid : List ℕ → Option Uuid
unfolding remove_all strip_prefix strip is_brace hex_int hex_body hex_digits hex_digit is_space
    in_range select
parse_uuid s =
    let bare = remove_all (length s) (codes "uuid:") (remove_all (length s) (codes "urn:") s) in
    let hex = select (λ c. not (c == b'-')) (strip is_brace bare) in
    if length hex == 32 then in_range (hex_int hex) else none

parse_uuid-braces : parse_uuid (codes "{00000000-0000-0000-0000-0000000000Ff}") ≡ some 255
unfolding parse_uuid
parse_uuid-braces = refl

parse_uuid-short : parse_uuid (codes "not-a-uuid") ≡ none
unfolding parse_uuid
parse_uuid-short = refl

digit_text : List String → ℕ → String
digit_text [] n = ""
digit_text (d ∷ ds) zero = d
digit_text (d ∷ ds) (suc n) = digit_text ds n

digit_texts : List String
digit_texts =
    "0" ∷ "1" ∷ "2" ∷ "3" ∷ "4" ∷ "5" ∷ "6" ∷ "7" ∷ "8" ∷ "9" ∷ "a" ∷ "b" ∷ "c" ∷ "d" ∷ "e" ∷ "f"
    ∷ []

hex_text : ℕ → ℕ → String
unfolding digit_text digit_texts
hex_text zero n = ""
hex_text (suc width) n = hex_text width (n / 16) ++ digit_text digit_texts (n % 16)

-- `str(uuid)`.
unfoldable pub show_uuid : Uuid → String
unfolding hex_text
show_uuid u =
    hex_text 8 (u / 2 ^ 96)
    ++ "-"
    ++ hex_text 4 (u / 2 ^ 80)
    ++ "-"
    ++ hex_text 4 (u / 2 ^ 64)
    ++ "-"
    ++ hex_text 4 (u / 2 ^ 48)
    ++ "-"
    ++ hex_text 12 u

show_uuid-small : show_uuid 255 ≡ "00000000-0000-0000-0000-0000000000ff"
unfolding show_uuid
show_uuid-small = refl
