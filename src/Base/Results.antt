-- ===== src/Base/Results.antt =====
-- `anyhow::Result`: a value, or an error of the component's own error type.
use mathlib.Core.Path.{ap, sym, ◌∙◌, ◌≡◌, refl, subst}
use mathlib.Core.Logic.{◌⊎◌, inl, inr}
use mathlib.Core.Bool.{Bool, true, false}
use cherry_core.Base.Tests.{if◌then◌else◌}

pub data Result {ℓ} (E : Type 0) (A : Type ℓ) : Type ℓ where
  ok : A → Result E A
  err : E → Result E A

infixl 5 ◌>>=◌
abbrev pub ◌>>=◌ {ℓ κ} :
    {E : Type 0} {A : Type ℓ} {B : Type κ} → Result E A → (A → Result E B) → Result E B
ok a >>= f = f a
err e >>= f = err e

-- A postcondition: `P` holds of the value, if there is one.
pub data Ensures {ℓ κ} {E : Type 0} {A : Type ℓ} (P : A → Type κ) : Result E A → Type (ℓ ⊔ κ) where
  returns : {a : A} → P a → Ensures P (ok a)
  fails : {e : E} → Ensures P (err e)

module _ {ℓ κ} {E : Type 0} {A : Type ℓ} {P : A → Type κ} where
  pub Ensures-eq_ok : {r : Result E A} {a : A} → Ensures P r → r ≡ ok a → P a
  Ensures-eq_ok (returns h) e = subst P (cc) h
  Ensures-eq_ok fails e = cc

  -- A test that leads to an error, and the rest of the body.
  pub Ensures-guard :
      (b : Bool) (e : E) (r : Result E A)
      → (b ≡ false → Ensures P r)
      → Ensures P (if b then err e else r)
  Ensures-guard true e r h = fails
  Ensures-guard false e r h = h refl

  pub Ensures-if :
      (b : Bool) (r s : Result E A)
      → (b ≡ true → Ensures P r)
      → (b ≡ false → Ensures P s)
      → Ensures P (if b then r else s)
  Ensures-if true r s h k = h refl
  Ensures-if false r s h k = k refl

  pub Ensures->>= {ℓ' κ'} :
      {B : Type ℓ'} {Q : B → Type κ'} {r : Result E A} {f : A → Result E B}
      → Ensures P r
      → ((a : A) → P a → Ensures Q (f a))
      → Ensures Q (r >>= f)
  Ensures->>= (returns {a} h) k = k a h
  Ensures->>= fails k = fails

  pub Ensures-weaken {κ'} :
      {Q : A → Type κ'} {r : Result E A} → Ensures P r → ((a : A) → P a → Q a) → Ensures Q r
  Ensures-weaken (returns {a} h) k = returns (k a h)
  Ensures-weaken fails k = fails

pub Result-cases {ℓ} :
    {E : Type 0} {A : Type ℓ} (r : Result E A) → ((a : A) × (r ≡ ok a)) ⊎ ((e : E) × (r ≡ err e))
Result-cases (ok a) = inl (a, refl)
Result-cases (err e) = inr (e, refl)

pub >>=-eq_ok {ℓ κ} :
    {E : Type 0} {A : Type ℓ} {B : Type κ} {r : Result E A} {a : A} (f : A → Result E B)
    {s : Result E B}
    → r ≡ ok a
    → f a ≡ s
    → r >>= f ≡ s
>>=-eq_ok f e h = rw e h

ok_or {ℓ} : {E : Type 0} {A : Type ℓ} → A → Result E A → A
ok_or a (ok b) = b
ok_or a (err e) = a

pub ok-injective {ℓ} :
    {E : Type 0} {A : Type ℓ} {a b : A} {r : Result E A} → r ≡ ok a → r ≡ ok b → a ≡ b
unfolding ok_or
ok-injective {a = a} h k = ap (ok_or a) (sym h ∙ k)

-- Nothing is said of the value.
pub any_result {ℓ} : {E : Type 0} {A : Type ℓ} (r : Result E A) → Ensures (λ _. Unit {0}) r
any_result (ok a) = returns tt
any_result (err e) = fails
