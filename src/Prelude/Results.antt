-- ===== src/Prelude/Results.antt =====
-- A value or an error: Go's `(value, error)` with a nil error or a zero value.
use mathlib.Core.Path.{◌≡◌, refl, ap}
use mathlib.Core.Logic.{◌⊎◌, inl, inr}
use mathlib.Core.Bool.{Bool, true, false}

pub data Result {ℓ} (E A : Type ℓ) : Type ℓ where
  ok : A → Result E A
  err : E → Result E A

-- The two outcomes, each with its equation.
pub Result-cases {ℓ} :
    {E A : Type ℓ} (r : Result E A) → ((e : E) × (r ≡ err e)) ⊎ ((a : A) × (r ≡ ok a))
Result-cases (ok value) = inr (value, refl)
Result-cases (err failure) = inl (failure, refl)

pub ok_inj {ℓ} : {E A : Type ℓ} (a b : A) → ◌≡◌ {A = Result E A} (ok a) (ok b) → a ≡ b
ok_inj a b e = ap (λ r. elim r [ ok c ↦ c | err _ ↦ a ]) e

-- `x, err := m; if err != nil { return err }`
infixl 5 ◌>>=◌ ◌>>◌
abbrev pub ◌>>=◌ {ℓ} : {E A B : Type ℓ} → Result E A → (A → Result E B) → Result E B
ok a >>= f = f a
err e >>= f = err e

abbrev pub ◌>>◌ {ℓ} : {E A B : Type ℓ} → Result E A → Result E B → Result E B
ok a >> k = k
err e >> k = err e

-- `if test { return err }`
abbrev pub fail_if {ℓ} : {E : Type ℓ} → Bool → E → Result E (Unit {ℓ})
fail_if true e = err e
fail_if false e = ok tt

-- A chain that gives a value did so at each step.
pub bind-eq-ok {ℓ} :
    {E A B : Type ℓ} (m : Result E A) (f : A → Result E B) {b : B}
    → (m >>= f) ≡ ok b
    → (a : A) × (m ≡ ok a) × (f a ≡ ok b)
bind-eq-ok (ok a) f h = (a, refl, h)
bind-eq-ok (err e) f h = cc

pub fail_if-eq-ok {ℓ} :
    {E A : Type ℓ} (b : Bool) (e : E) (k : Result E A) {a : A}
    → (fail_if b e >> k) ≡ ok a
    → (b ≡ false) × (k ≡ ok a)
fail_if-eq-ok true e k h = cc
fail_if-eq-ok false e k h = (refl, h)
