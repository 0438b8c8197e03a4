-- ===== src/Prelude/Monad.antt =====
-- Code that may raise: its value, or the error that it raises. Each component has errors of its own.
use mathlib.Core.Path.{◌≡◌, refl}
use mathlib.Core.Logic.{◌⊎◌, inl, inr}

pub data Result {ℓ κ} (E : Type κ) (A : Type ℓ) : Type (ℓ ⊔ κ) where
  ok : A → Result E A
  err : E → Result E A

module _ {ε} {E : Type ε} where
  infixl 5 ◌>>=◌ ◌>>◌
  -- The code after a call that may raise.
  abbrev pub ◌>>=◌ {ℓ κ} : {A : Type ℓ} {B : Type κ} → Result E A → (A → Result E B) → Result E B
  r >>= rest = elim r [ ok a ↦ rest a | err e ↦ err e ]

  abbrev pub ◌>>◌ {κ} : {B : Type κ} → Result E (Unit {0}) → Result E B → Result E B
  r >> rest = elim r [ ok _ ↦ rest | err e ↦ err e ]

  pub Result-cases {ℓ} :
      {A : Type ℓ} (r : Result E A) → ((a : A) × (r ≡ ok a)) ⊎ ((e : E) × (r ≡ err e))
  Result-cases (ok a) = inl (a, refl)
  Result-cases (err e) = inr (e, refl)

  -- What raises inside a chain: its first call, or the code after it.
  pub >>=-eq-err {ℓ κ} :
      {A : Type ℓ} {B : Type κ} (r : Result E A) (rest : A → Result E B) {e : E}
      → (r >>= rest) ≡ err e
      → (r ≡ err e) ⊎ ((a : A) × (r ≡ ok a) × (rest a ≡ err e))
  >>=-eq-err (err e) rest raised = inl (cc)
  >>=-eq-err (ok a) rest raised = inr (a, refl, raised)

  -- A chain with a value has one at its first call.
  pub >>=-eq-ok {ℓ κ} :
      {A : Type ℓ} {B : Type κ} (r : Result E A) (rest : A → Result E B) {b : B}
      → (r >>= rest) ≡ ok b
      → (a : A) × (r ≡ ok a) × (rest a ≡ ok b)
  >>=-eq-ok (err e) rest value = cc
  >>=-eq-ok (ok a) rest value = (a, refl, value)

  pub ok_inj {ℓ} : {A : Type ℓ} {a b : A} → ◌≡◌ {A = Result E A} (ok a) (ok b) → a ≡ b
  ok_inj same = cc
