-- ===== src/Agent/Distance.antt =====
-- The rows of `_names_similar` hold the edit distance.
use merchant_ai_agent.Base.{
  ℕ, suc, ◌+◌, ◌≡◌, refl, ap, subst, sym, List, [], ◌∷◌, length, min, arith,
}
use merchant_ai_agent.Agent.Names.{
  edit_cost, fill_row, fill_rows, first_row, last_entry, edit_distance,
}

-- The distance by its recursion on the last letters: texts are read from their ends.
unfoldable pub distance : List ℕ → List ℕ → ℕ
unfolding edit_cost
distance [] [] = 0
distance [] (b ∷ v) = suc (distance [] v)
distance (a ∷ u) [] = suc (distance u [])
distance (a ∷ u) (b ∷ v) =
    min (min (distance (a ∷ u) v + 1) (distance u (b ∷ v) + 1)) (distance u v + edit_cost a b)

-- The texts turned round onto `acc`.
unfoldable pub reversed_onto : List ℕ → List ℕ → List ℕ
reversed_onto acc [] = acc
reversed_onto acc (x ∷ xs) = reversed_onto (x ∷ acc) xs

-- The distances of `u` to `v` and to each longer part of the text.
unfoldable row : List ℕ → List ℕ → List ℕ → List ℕ
unfolding distance
row u v [] = distance u v ∷ []
row u v (b ∷ right) = distance u v ∷ row u (b ∷ v) right

fill_row-row :
    (a : ℕ) (u v right : List ℕ)
    → distance (a ∷ u) v ∷ fill_row a (distance (a ∷ u) v) (row u v right) right
      ≡ row (a ∷ u) v right
unfolding row fill_row distance
fill_row-row a u v [] = refl
fill_row-row a u v (b ∷ []) = refl
fill_row-row a u v (b ∷ c ∷ right) =
    ap (λ zs. distance (a ∷ u) v ∷ zs) (fill_row-row a u (b ∷ v) (c ∷ right))

first_row-row : (v right : List ℕ) → first_row (distance [] v) right ≡ row [] v right
unfolding row first_row distance
first_row-row v [] = refl
first_row-row v (b ∷ right) =
    let step : distance [] v + 1 ≡ distance [] (b ∷ v) = omega arith in
    ap (λ zs. distance [] v ∷ zs) (rw step (first_row-row (b ∷ v) right))

distance-[] : (u : List ℕ) → distance u [] ≡ length u
unfolding distance
distance-[] [] = refl
distance-[] (a ∷ u) = ap suc (distance-[] u)

fill_rows-row :
    (u left right : List ℕ)
    → fill_rows (length u + 1) (row u [] right) left right ≡ row (reversed_onto u left) [] right
unfolding fill_rows reversed_onto
fill_rows-row u [] right = refl
fill_rows-row u (a ∷ left) right =
    let start : length u + 1 ≡ distance (a ∷ u) [] = omega (arith, distance-[] (a ∷ u)) in
    let next : (length u + 1) ∷ fill_row a (length u + 1) (row u [] right) right
        ≡ row (a ∷ u) [] right =
      subst (λ d. d ∷ fill_row a d (row u [] right) right ≡ row (a ∷ u) [] right) (sym start)
        (fill_row-row a u [] right) in
    let count : length u + 1 + 1 ≡ length (a ∷ u) + 1 = omega arith in
    rw next (rw count (fill_rows-row (a ∷ u) left right))

last-row :
    (d : ℕ) (u v right : List ℕ) → last_entry d (row u v right) ≡ distance u (reversed_onto v right)
unfolding row last_entry reversed_onto
last-row d u v [] = refl
last-row d u v (b ∷ right) = last-row (distance u v) u (b ∷ v) right

-- The distance that the rows compute is the recursive one, of the two texts read from their ends.
pub edit_distance-eq-distance :
    (left right : List ℕ)
    → edit_distance left right ≡ distance (reversed_onto [] left) (reversed_onto [] right)
unfolding edit_distance distance
edit_distance-eq-distance left right =
    let rows : fill_rows 1 (first_row 0 right) left right ≡ row (reversed_onto [] left) [] right =
      rw (first_row-row [] right) (fill_rows-row [] left right) in
    rw rows (last-row 0 (reversed_onto [] left) [] right)
