-- ===== src/Upload/Number.antt =====
-- Python's `int(text)` on an ASCII text that was stripped: a sign, and digits between which an
-- underscore may stand.
use merchant_ai_agent.Base.{
  ℕ, zero, suc, ◌+◌, ◌-◌, ◌*◌, ◌≡◌, refl, Bool, true, false, ◌&&◌, Option, none, some, List, [],
  ◌∷◌, ◌==◌, leb, if◌then◌else◌,
}
use merchant_ai_agent.Base.Int.{ℤ, pos, negsuc}
use merchant_ai_agent.Uuid.{codes}

is_digit : ℕ → Bool
is_digit c = leb b'0' c && leb c b'9'

-- The flag says whether the last character was a digit.
digits : Bool → ℕ → List ℕ → Option ℕ
unfolding is_digit
digits after_digit acc [] = if after_digit then some acc else none
digits after_digit acc (c ∷ s) =
    let number = digits true (acc * 10 + (c - b'0')) s in
    let rest = digits false acc s in
    if is_digit c then number else if c == b'_' && after_digit then rest else none

negated : ℕ → ℤ
negated zero = pos 0
negated (suc n) = negsuc n

signed : Bool → Option ℕ → Option ℤ
unfolding negated
signed minus none = none
signed minus (some n) = some (if minus then negated n else pos n)

unfoldable pub int_of_text : List ℕ → Option ℤ
unfolding signed digits
int_of_text [] = none
int_of_text (c ∷ s) =
    if c == b'-'
    then signed true (digits false 0 s)
    else if c == b'+'
    then signed false (digits false 0 s)
    else signed false (digits false 0 (c ∷ s))

grouped : int_of_text (codes "12_600") ≡ some (pos 12600)
unfolding int_of_text
grouped = refl

below_zero : int_of_text (codes "-3") ≡ some (negsuc 2)
unfolding int_of_text
below_zero = refl

not_a_number : int_of_text (codes "3.0") ≡ none
unfolding int_of_text
not_a_number = refl
