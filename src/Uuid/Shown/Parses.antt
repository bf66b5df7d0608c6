-- ===== src/Uuid/Shown/Parses.antt =====
-- `UUID(str(uuid))` is the UUID.
use Prim.Native.String.{◌++◌ as append}
use merchant_ai_agent.Base.{
  ℕ, zero, suc, ◌^◌, ◌/◌, ◌<◌, String, ◌≡◌, refl, sym, ap, ◌∙◌, Bool, true, false, not, ◌&&◌, ◌||◌,
  Option, none, some, List, [], ◌∷◌, ◌++◌, ◌==◌, if◌then◌else◌, length, select, str_eq, eq_iff,
  Bool-cases, All, All-append, append-nil, ◌⊎◌, inl, inr, arith,
}
use merchant_ai_agent.Uuid.{
  Uuid, codes, strip_prefix, remove_all, is_brace, strip_left, strip_right, strip, hex_digits,
  hex_body, is_space, hex_int, in_range, parse_uuid, hex_text, show_uuid,
}
use merchant_ai_agent.Uuid.Shown.{
  IsHex, codes-append, group, hex_text-codes, hexs, hexs-IsHex, shifted-12, shifted-4, shifted-8,
}

-- The characters of `str(uuid)`.
abbrev IsShown : ℕ → Type 0
IsShown c = (IsHex c) ⊎ (c ≡ 45)

shown-no-u : (c : ℕ) → IsShown c → (117 == c) ≡ false
shown-no-u c (inl h) = ground (arith, h)
shown-no-u c (inr h) = ground (arith, h)

shown-no-brace : (c : ℕ) → IsShown c → is_brace c ≡ false
unfolding is_brace
shown-no-brace c (inl h) = ground (arith, h)
shown-no-brace c (inr h) = ground (arith, h)

removed-none : (n : ℕ) (p s : List ℕ) → All IsShown s → remove_all n (117 ∷ p) s ≡ s
unfolding remove_all strip_prefix
removed-none zero p s h = refl
removed-none (suc n) p [] h = refl
removed-none (suc n) p (c ∷ s) (h, hs) =
    let unlike : strip_prefix (117 ∷ p) (c ∷ s) ≡ none = rw (shown-no-u c h) refl in
    rw (unlike, remove_all) (ap (λ t. c ∷ t) (removed-none n p s hs))

right-none : (p : ℕ → Bool) (s : List ℕ) → All (λ c. p c ≡ false) s → strip_right p s ≡ s
unfolding strip_right
right-none p [] h = refl
right-none p (c ∷ []) (h, _) = rw h refl
right-none p (c ∷ d ∷ t) (h, hs) = rw (right-none p (d ∷ t) hs, strip_right) refl

left-none : (p : ℕ → Bool) (s : List ℕ) → All (λ c. p c ≡ false) s → strip_left p s ≡ s
unfolding strip_left
left-none p [] h = refl
left-none p (c ∷ s) (h, hs) = rw h refl

stripped-none : (p : ℕ → Bool) (s : List ℕ) → All (λ c. p c ≡ false) s → strip p s ≡ s
unfolding strip
stripped-none p s h = rw (right-none p s h) (left-none p s h)

-- Five groups with dashes between them.
dashed : List ℕ → List ℕ → List ℕ → List ℕ → List ℕ → List ℕ
dashed a b c d e = a ++ (45 ∷ (b ++ (45 ∷ (c ++ (45 ∷ (d ++ (45 ∷ e)))))))

dashed-codes :
    (a b c d e : String)
    → codes (
        append a
          (append "-" (append b (append "-" (append c (append "-" (append d (append "-" e))))))))
      ≡ dashed (codes a) (codes b) (codes c) (codes d) (codes e)
unfolding dashed
dashed-codes a b c d e = simp (codes-append)

-- The characters of `str(uuid)`.
shown : Uuid → List ℕ
shown u =
    dashed (hexs 8 (u / 2 ^ 96)) (hexs 4 (u / 2 ^ 80)) (hexs 4 (u / 2 ^ 64)) (hexs 4 (u / 2 ^ 48))
      (hexs 12 u)

show_uuid-codes : (u : Uuid) → codes (show_uuid u) ≡ shown u
unfolding show_uuid shown
show_uuid-codes u =
    dashed-codes (hex_text 8 (u / 2 ^ 96)) (hex_text 4 (u / 2 ^ 80)) (hex_text 4 (u / 2 ^ 64))
      (hex_text 4 (u / 2 ^ 48)) (hex_text 12 u)
    ∙ λ i.
        dashed (hex_text-codes 8 (u / 2 ^ 96) i) (hex_text-codes 4 (u / 2 ^ 80) i)
          (hex_text-codes 4 (u / 2 ^ 64) i) (hex_text-codes 4 (u / 2 ^ 48) i)
          (hex_text-codes 12 u i)

plain : Uuid → List ℕ
plain u =
    hexs 8 (u / 2 ^ 96)
    ++ (hexs 4 (u / 2 ^ 80) ++ (hexs 4 (u / 2 ^ 64) ++ (hexs 4 (u / 2 ^ 48) ++ hexs 12 u)))

plain-number : (u : Uuid) → u < 2 ^ 128 → hex_digits false 0 (plain u) ≡ some u
unfolding plain hex_digits
plain-number u h =
    group 7 (u / 2 ^ 96) 0 false _ (shifted-8 (u / 2 ^ 96) ∙ omega (arith, h))
    ∙ group 3 (u / 2 ^ 80) (u / 2 ^ 96) true _ (shifted-4 (u / 2 ^ 80) ∙ omega arith)
    ∙ group 3 (u / 2 ^ 64) (u / 2 ^ 80) true _ (shifted-4 (u / 2 ^ 64) ∙ omega arith)
    ∙ group 3 (u / 2 ^ 48) (u / 2 ^ 64) true _ (shifted-4 (u / 2 ^ 48) ∙ omega arith)
    ∙ ap (hex_digits true (u / 2 ^ 48)) (sym (append-nil (hexs 12 u)))
    ∙ group 11 u (u / 2 ^ 48) true [] (shifted-12 u)

hex-no-space : (c : ℕ) → IsHex c → is_space c ≡ false
unfolding is_space
hex-no-space c h = ground (arith, h)

hexes-no-space : (s : List ℕ) → All IsHex s → All (λ c. is_space c ≡ false) s
hexes-no-space [] h = tt
hexes-no-space (c ∷ s) (h, hs) = (hex-no-space c h, hexes-no-space s hs)

no-minus : (c : ℕ) → IsHex c → (c == b'-') ≡ false
no-minus c h = ground (arith, h)

no-plus : (c : ℕ) → IsHex c → (c == b'+') ≡ false
no-plus c h = ground (arith, h)

no-x : (z c : ℕ) → IsHex c → (z == b'0' && (c == b'x' || c == b'X')) ≡ false
no-x z c h = ground (arith, h)

unsigned :
    (c x n : ℕ) (s : List ℕ)
    → All IsHex (c ∷ x ∷ s)
    → hex_digits false 0 (c ∷ x ∷ s) ≡ some n
    → hex_int (c ∷ x ∷ s) ≡ some (false, n)
unfolding hex_int hex_body
unsigned c x n s (hc, (hx, hs)) e =
    let spaceless : strip is_space (c ∷ x ∷ s) ≡ c ∷ x ∷ s =
      stripped-none is_space (c ∷ x ∷ s) (hexes-no-space (c ∷ x ∷ s) (hc, (hx, hs))) in
    rw (spaceless, hex_int) (rw (no-minus c hc) (rw (no-plus c hc) (rw (no-x c x hx) (rw e refl))))

hexes-IsShown : (s : List ℕ) → All IsHex s → All IsShown s
hexes-IsShown [] h = tt
hexes-IsShown (c ∷ s) (h, hs) = (inl h, hexes-IsShown s hs)

-- A group and the dash behind it.
group-IsShown :
    (width n : ℕ) (rest : List ℕ) → All IsShown rest → All IsShown (hexs width n ++ (45 ∷ rest))
group-IsShown width n rest h =
    All-append IsShown (hexs width n) (45 ∷ rest) (hexes-IsShown _ (hexs-IsHex width n))
      (inr refl, h)

shown-IsShown : (u : Uuid) → All IsShown (shown u)
unfolding shown dashed
shown-IsShown u = group-IsShown 8 (u / 2 ^ 96) _ (
    group-IsShown 4 (u / 2 ^ 80) _ (
      group-IsShown 4 (u / 2 ^ 64) _
        (group-IsShown 4 (u / 2 ^ 48) _ (hexes-IsShown _ (hexs-IsHex 12 u)))))

not_dash : ℕ → Bool
not_dash c = not (c == b'-')

hexes-kept : (s : List ℕ) → All IsHex s → select not_dash s ≡ s
unfolding select not_dash
hexes-kept [] h = refl
hexes-kept (c ∷ s) (h, hs) = rw (no-minus c h) (ap (λ t. c ∷ t) (hexes-kept s hs))

group-select :
    (s rest : List ℕ) → All IsHex s → select not_dash (s ++ (45 ∷ rest)) ≡ s ++ select not_dash rest
unfolding select not_dash
group-select [] rest h = refl
group-select (c ∷ s) rest (h, hs) = rw (no-minus c h) (ap (λ t. c ∷ t) (group-select s rest hs))

undashed : (u : Uuid) → select not_dash (shown u) ≡ plain u
unfolding shown dashed plain
undashed u =
    group-select (hexs 8 (u / 2 ^ 96)) _ (hexs-IsHex 8 (u / 2 ^ 96))
    ∙ ap (λ t. hexs 8 (u / 2 ^ 96) ++ t)
        (group-select (hexs 4 (u / 2 ^ 80)) _ (hexs-IsHex 4 (u / 2 ^ 80))
          ∙ ap (λ t. hexs 4 (u / 2 ^ 80) ++ t)
              (group-select (hexs 4 (u / 2 ^ 64)) _ (hexs-IsHex 4 (u / 2 ^ 64))
                ∙ ap (λ t. hexs 4 (u / 2 ^ 64) ++ t)
                    (group-select (hexs 4 (u / 2 ^ 48)) _ (hexs-IsHex 4 (u / 2 ^ 48))
                      ∙ ap (λ t. hexs 4 (u / 2 ^ 48) ++ t) (hexes-kept _ (hexs-IsHex 12 u)))))

plain-IsHex : (u : Uuid) → All IsHex (plain u)
unfolding plain
plain-IsHex u = All-append IsHex (hexs 8 (u / 2 ^ 96)) _ (hexs-IsHex 8 (u / 2 ^ 96)) (
    All-append IsHex (hexs 4 (u / 2 ^ 80)) _ (hexs-IsHex 4 (u / 2 ^ 80)) (
      All-append IsHex (hexs 4 (u / 2 ^ 64)) _ (hexs-IsHex 4 (u / 2 ^ 64))
        (All-append IsHex (hexs 4 (u / 2 ^ 48)) _ (hexs-IsHex 4 (u / 2 ^ 48)) (hexs-IsHex 12 u))))

plain-length : (u : Uuid) → (length (plain u) == 32) ≡ true
unfolding plain hexs
plain-length u = refl

unbraced : (s : List ℕ) → All IsShown s → All (λ c. is_brace c ≡ false) s
unbraced [] h = tt
unbraced (c ∷ s) (h, hs) = (shown-no-brace c h, unbraced s hs)

plain-int : (u : Uuid) → u < 2 ^ 128 → hex_int (plain u) ≡ some (false, u)
unfolding plain hexs
plain-int u h = unsigned _ _ u _ (plain-IsHex u) (plain-number u h)

ranged : (u : Uuid) → u < 2 ^ 128 → in_range (some (false, u)) ≡ some u
unfolding in_range
ranged u h = ground (arith, h)

bared :
    (n : ℕ) (s : List ℕ)
    → All IsShown s
    → strip is_brace (remove_all n (codes "uuid:") (remove_all n (codes "urn:") s)) ≡ s
bared n s h =
    ap (λ t. strip is_brace (remove_all n (codes "uuid:") t)) (removed-none n (codes "rn:") s h)
    ∙ ap (strip is_brace) (removed-none n (codes "uid:") s h)
    ∙ stripped-none is_brace s (unbraced s h)

checked : List ℕ → Option Uuid
checked hex = if length hex == 32 then in_range (hex_int hex) else none

plain-checked : (u : Uuid) → u < 2 ^ 128 → checked (plain u) ≡ some u
unfolding checked
plain-checked u h = rw (plain-length u) (ap in_range (plain-int u h) ∙ ranged u h)

-- A UUID that is printed reads as itself.
pub show_uuid-parses : (u : Uuid) → u < 2 ^ 128 → parse_uuid (codes (show_uuid u)) ≡ some u
unfolding parse_uuid checked not_dash
show_uuid-parses u h =
    ap parse_uuid (show_uuid-codes u)
    ∙ ap (λ s. checked (select not_dash s)) (bared (length (shown u)) (shown u) (shown-IsShown u))
    ∙ ap checked (undashed u)
    ∙ plain-checked u h

ranged-bounded : (o : Option (Bool × ℕ)) (u : Uuid) → in_range o ≡ some u → u < 2 ^ 128
unfolding in_range
ranged-bounded none u e = cc
ranged-bounded (some (minus, n)) u e = ground (arith, e)

if-bounded :
    (b : Bool) (o : Option Uuid) (u : Uuid)
    → ((v : Uuid) → o ≡ some v → v < 2 ^ 128)
    → (if b then o else none) ≡ some u
    → u < 2 ^ 128
if-bounded true o u h e = h u e
if-bounded false o u h e = cc

checked-bounded : (hex : List ℕ) (u : Uuid) → checked hex ≡ some u → u < 2 ^ 128
unfolding checked
checked-bounded hex u e =
    if-bounded (length hex == 32) (in_range (hex_int hex)) u (λ v. ranged-bounded (hex_int hex) v) e

-- What is read as a UUID has 128 bits.
pub parsed-bounded : (s : List ℕ) (u : Uuid) → parse_uuid s ≡ some u → u < 2 ^ 128
unfolding parse_uuid checked not_dash
parsed-bounded s u e =
    let bare = remove_all (length s) (codes "uuid:") (remove_all (length s) (codes "urn:") s) in
    checked-bounded (select not_dash (strip is_brace bare)) u e

no_text : (u : Uuid) → codes (show_uuid u) ≡ [] → ⊥
unfolding shown dashed hexs
no_text u e = let shown-[] : shown u ≡ [] = sym (show_uuid-codes u) ∙ e in cc

pub show_uuid-nonempty : (u : Uuid) → str_eq (show_uuid u) "" ≡ false
show_uuid-nonempty u = elim (Bool-cases (str_eq (show_uuid u) "")) [
  | inl e ↦ elim (no_text u (ap codes ((eq_iff (show_uuid u) "").0 e))) [ ]
  | inr e ↦ e
]
