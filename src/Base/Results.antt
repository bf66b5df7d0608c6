-- ===== src/Base/Results.antt =====
-- Calls that may raise: what they return, or the exception.
use mathlib.Core.Path.{◌≡◌, refl}
use mathlib.Core.Logic.{◌⊎◌, inl, inr}
use native.Mathlib.Omega.{arith}

pub data Result {ℓ} (E A : Type ℓ) : Type ℓ where
  err : E → Result E A
  ok : A → Result E A

module _ {ℓ} {E A B : Type ℓ} where
  infixl 5 ◌>>=◌ ◌>>◌
  abbrev pub ◌>>=◌ : Result E A → (A → Result E B) → Result E B
  call >>= rest = elim call [ err e ↦ err e | ok a ↦ rest a ]

  abbrev pub ◌>>◌ : Result E A → Result E B → Result E B
  call >> rest = elim call [ err e ↦ err e | ok _ ↦ rest ]

  -- A block that returned has made its first call, which returned.
  pub bind-returned :
      (call : Result E A) (rest : A → Result E B) (b : B)
      → (call >>= rest) ≡ ok b
      → (a : A) × (call ≡ ok a) × (rest a ≡ ok b)
  bind-returned (err e) rest b raised = cc
  bind-returned (ok a) rest b returned = (a, refl, returned)

  -- A block that raised has raised in its first call or behind it.
  pub bind-raised :
      (call : Result E A) (rest : A → Result E B) (e : E)
      → (call >>= rest) ≡ err e
      → (call ≡ err e) ⊎ ((a : A) × (call ≡ ok a) × (rest a ≡ err e))
  bind-raised (err e') rest e raised = inl (ground arith)
  bind-raised (ok a) rest e raised = inr (a, refl, raised)

pub ok-injective {ℓ} : {E A : Type ℓ} (a b : A) → ◌≡◌ {A = Result E A} (ok a) (ok b) → a ≡ b
ok-injective a b h = cc

-- What a call returns, if it returns.
abbrev pub Ensures {κ} : {E A : Type 0} → (A → Type κ) → Result E A → Type κ
Ensures P (err e) = Unit
Ensures P (ok a) = P a
