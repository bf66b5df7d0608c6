-- ===== src/Merchant/Dict.antt =====
-- The keys of Redis that have a text in them, as dictionaries.
use merchant_ai_agent.Base.{
  ℕ, ◌+◌, ◌≡◌, refl, String, Option, none, some, List, [], ◌∷◌, str_eq, eq_iff, if◌then◌else◌, ltb,
  arith,
}
use merchant_ai_agent.Inventory.{Entry}

abbrev pub TextMap {ℓ} : Type ℓ → Type ℓ
TextMap V = List (String × V)

module _ {ℓ} {V : Type ℓ} where
  unfoldable pub get : String → TextMap V → Option V
  get k [] = none
  get k ((j, v) ∷ d) = if str_eq j k then some v else get k d

  unfoldable pub put : String → V → TextMap V → TextMap V
  put k v [] = (k, v) ∷ []
  put k v ((j, w) ∷ d) = if str_eq j k then (j, v) ∷ d else (j, w) ∷ put k v d

  unfoldable pub drop : String → TextMap V → TextMap V
  drop k [] = []
  drop k ((j, w) ∷ d) = let rest = drop k d in if str_eq j k then rest else (j, w) ∷ rest

  pub get-put :
      (k j : String) (v : V) (d : TextMap V)
      → get k (put j v d) ≡ (if str_eq j k then some v else get k d)
  unfolding get put
  get-put k j v [] = refl
  get-put k j v ((i, w) ∷ d) = ground (arith, eq_iff j k, eq_iff i j, eq_iff i k, get-put k j v d)

  pub get-drop :
      (k j : String) (d : TextMap V) → get k (drop j d) ≡ (if str_eq j k then none else get k d)
  unfolding get drop
  get-drop k j [] = ground arith
  get-drop k j ((i, w) ∷ d) = ground (arith, eq_iff j k, eq_iff i j, eq_iff i k, get-drop k j d)

  -- The value of an entry that is alive at the time `now`.
  unfoldable pub alive : ℕ → Option (Entry V) → Option V
  alive now none = none
  alive now (some e) = if ltb now e.expires then some e.value else none

  -- An entry with the life `ttl`, made at the time `now`.
  unfoldable pub lasting : V → ℕ → ℕ → Entry V
  lasting v ttl now = record { value = v; expires = now + ttl }
