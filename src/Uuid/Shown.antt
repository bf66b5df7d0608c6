-- ===== src/Uuid/Shown.antt =====
-- The hexadecimal digits of `str(uuid)`, and what they read as.
pub mod Parses
use Prim.Native.Char.{code}
use Prim.Native.String.append as Append
use Prim.Native.String.{◌++◌ as append}
use merchant_ai_agent.Base.{
  ℕ, zero, suc, ◌+◌, ◌*◌, ◌^◌, ◌/◌, ◌%◌, ◌<◌, String, ◌≡◌, refl, sym, ap, ◌∙◌, Bool, true, false,
  not, ◌&&◌, ◌||◌, Option, none, some, List, [], ◌∷◌, ◌++◌, ltb, leb, ◌==◌, if◌then◌else◌, length,
  select, str_eq, eq_iff, Bool-cases, All, All-append, append_assoc, append-nil, ◌⊎◌, inl, inr,
  arith,
}
use merchant_ai_agent.Uuid.{
  Uuid, codes, strip_prefix, remove_all, is_brace, strip_left, strip_right, strip, hex_digit,
  hex_digits, hex_body, is_space, hex_int, in_range, parse_uuid, digit_text, digit_texts, hex_text,
  show_uuid,
}

codes-append : (s t : String) → codes (append s t) ≡ codes s ++ codes t
codes-append String.[] t = ap codes (Append.nil t)
codes-append (String.◌∷◌ c s) t =
    ap codes (Append.cons c s t) ∙ ap (λ cs. code c ∷ cs) (codes-append s t)

-- The code of a hexadecimal digit.
digit_code : ℕ → ℕ
digit_code d = if ltb d 10 then 48 + d else 87 + d

digit_text-code : (d : ℕ) → d < 16 → codes (digit_text digit_texts d) ≡ digit_code d ∷ []
unfolding digit_text digit_texts digit_code
digit_text-code zero h = refl
digit_text-code (suc zero) h = refl
digit_text-code (suc (suc zero)) h = refl
digit_text-code (suc (suc (suc zero))) h = refl
digit_text-code (suc (suc (suc (suc zero)))) h = refl
digit_text-code (suc (suc (suc (suc (suc zero))))) h = refl
digit_text-code (suc (suc (suc (suc (suc (suc zero)))))) h = refl
digit_text-code (suc (suc (suc (suc (suc (suc (suc zero))))))) h = refl
digit_text-code (suc (suc (suc (suc (suc (suc (suc (suc zero)))))))) h = refl
digit_text-code (suc (suc (suc (suc (suc (suc (suc (suc (suc zero))))))))) h = refl
digit_text-code (suc (suc (suc (suc (suc (suc (suc (suc (suc (suc zero)))))))))) h = refl
digit_text-code (suc (suc (suc (suc (suc (suc (suc (suc (suc (suc (suc zero))))))))))) h = refl
digit_text-code (suc (suc (suc (suc (suc (suc (suc (suc (suc (suc (suc (suc zero)))))))))))) h =
    refl
digit_text-code (suc (suc (suc (suc (suc (suc (suc (suc (suc (suc (suc (suc (suc zero)))))))))))))
      h =
    refl
digit_text-code
      (suc (suc (suc (suc (suc (suc (suc (suc (suc (suc (suc (suc (suc (suc zero)))))))))))))) h =
    refl
digit_text-code
      (suc (suc (suc (suc (suc (suc (suc (suc (suc (suc (suc (suc (suc (suc (suc zero)))))))))))))))
      h =
    refl
digit_text-code
      (suc
        (suc (suc (suc (suc (suc (suc (suc (suc (suc (suc (suc (suc (suc (suc (suc d))))))))))))))))
      h =
    let no : ⊥ = omega (arith, h) in elim no [ ]

unfoldable hexs : ℕ → ℕ → List ℕ
hexs zero n = []
hexs (suc width) n = hexs width (n / 16) ++ digit_code (n % 16) ∷ []

hex_text-codes : (width n : ℕ) → codes (hex_text width n) ≡ hexs width n
unfolding hex_text hexs
hex_text-codes zero n = refl
hex_text-codes (suc width) n =
    codes-append (hex_text width (n / 16)) (digit_text digit_texts (n % 16))
    ∙ ap (λ cs. cs ++ codes (digit_text digit_texts (n % 16))) (hex_text-codes width (n / 16))
    ∙ ap (λ cs. hexs width (n / 16) ++ cs) (digit_text-code (n % 16) (omega arith))

-- The code of a lower-case hexadecimal digit.
abbrev IsHex : ℕ → Type 0
IsHex c = ((leb 48 c && leb c 57) || (leb 97 c && leb c 102)) ≡ true

digit_code-IsHex : (d : ℕ) → d < 16 → IsHex (digit_code d)
unfolding digit_code
digit_code-IsHex d h = ground (arith, h)

hexs-IsHex : (width n : ℕ) → All IsHex (hexs width n)
unfolding hexs
hexs-IsHex zero n = tt
hexs-IsHex (suc width) n =
    All-append IsHex (hexs width (n / 16)) _ (hexs-IsHex width (n / 16))
      (digit_code-IsHex (n % 16) (omega arith), tt)

hex_digit-code : (d : ℕ) → d < 16 → hex_digit (digit_code d) ≡ some d
unfolding hex_digit digit_code
hex_digit-code d h = ground (arith, h)

-- The number that the digits add to.
value : ℕ → ℕ → ℕ → ℕ
value zero acc n = acc
value (suc width) acc n = value width acc (n / 16) * 16 + n % 16

-- The number without its last digits.
shifted : ℕ → ℕ → ℕ
shifted zero n = n
shifted (suc width) n = shifted width (n / 16)

value-shifted : (width n : ℕ) → value width (shifted width n) n ≡ n
unfolding value shifted
value-shifted zero n = refl
value-shifted (suc width) n = omega (arith, value-shifted width (n / 16))

digit-step :
    (d acc : ℕ) (after : Bool) (rest : List ℕ)
    → d < 16
    → hex_digits after acc (digit_code d ∷ rest) ≡ hex_digits true (acc * 16 + d) rest
unfolding hex_digits
digit-step d acc after rest h = rw (hex_digit-code d h, hex_digits) refl

digits-hexs :
    (width n acc : ℕ) (after : Bool) (rest : List ℕ)
    → hex_digits after acc (hexs (suc width) n ++ rest)
      ≡ hex_digits true (value (suc width) acc n) rest
unfolding hexs value
digits-hexs zero n acc after rest = digit-step (n % 16) acc after rest (omega arith)
digits-hexs (suc width) n acc after rest =
    ap (hex_digits after acc)
      (append_assoc (hexs (suc width) (n / 16)) (digit_code (n % 16) ∷ []) rest)
    ∙ digits-hexs width (n / 16) acc after (digit_code (n % 16) ∷ rest)
    ∙ digit-step (n % 16) (value (suc width) acc (n / 16)) true rest (omega arith)

shifted-4 : (n : ℕ) → shifted 4 n ≡ n / 65536
unfolding shifted
shifted-4 n = omega arith

shifted-8 : (n : ℕ) → shifted 8 n ≡ n / 4294967296
unfolding shifted
shifted-8 n = omega arith

shifted-12 : (n : ℕ) → shifted 12 n ≡ n / 281474976710656
unfolding shifted
shifted-12 n = omega arith

-- A group of digits continues the number that stands before it.
group :
    (width n acc : ℕ) (after : Bool) (rest : List ℕ)
    → shifted (suc width) n ≡ acc
    → hex_digits after acc (hexs (suc width) n ++ rest) ≡ hex_digits true n rest
group width n acc after rest e =
    digits-hexs width n acc after rest
    ∙ ap (λ v. hex_digits true v rest)
        (ap (λ a. value (suc width) a n) (sym e) ∙ value-shifted (suc width) n)
