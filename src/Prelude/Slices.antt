-- ===== src/Prelude/Slices.antt =====
-- Slices of lists that are appended or mapped.
use Prim.Native.Nat.{ℕ, zero, suc, ◌-◌}
use mathlib.Core.Path.{◌≡◌, refl, ap, ◌∙◌}
use mathlib.Core.List.{List, [], ◌∷◌, ◌++◌, map}
use native.Mathlib.Omega.{arith}
use tappet.Prelude.Lists.{length, take, drop}

over_zero : (n : ℕ) → 0 ≡ 0 - suc n
over_zero n = omega arith

minus_zero : (n : ℕ) → n ≡ n - 0
minus_zero n = omega arith

suc_minus : (n m : ℕ) → n - m ≡ suc n - suc m
suc_minus n m = omega arith

module _ {ℓ} {A : Type ℓ} where
  pub take-nil : (n : ℕ) → take {A = A} n [] ≡ []
  take-nil zero = refl
  take-nil (suc n) = refl

  pub take-append :
      (n : ℕ) (xs ys : List A) → take n (xs ++ ys) ≡ take n xs ++ take (n - length xs) ys
  take-append zero [] ys = refl
  take-append zero (x ∷ xs) ys = ap (λ (k : ℕ). take k ys) (over_zero (length xs))
  take-append (suc n) [] ys = ap (λ (k : ℕ). take k ys) (minus_zero (suc n))
  take-append (suc n) (x ∷ xs) ys =
      ap (λ zs. x ∷ zs) (take-append n xs ys)
      ∙ ap (λ (k : ℕ). (x ∷ take n xs) ++ take k ys) (suc_minus n (length xs))

  pub drop-append :
      (n : ℕ) (xs ys : List A) → drop n (xs ++ ys) ≡ drop n xs ++ drop (n - length xs) ys
  drop-append zero [] ys = refl
  drop-append zero (x ∷ xs) ys = ap (λ (k : ℕ). (x ∷ xs) ++ drop k ys) (over_zero (length xs))
  drop-append (suc n) [] ys = ap (λ (k : ℕ). drop k ys) (minus_zero (suc n))
  drop-append (suc n) (x ∷ xs) ys =
      drop-append n xs ys ∙ ap (λ (k : ℕ). drop n xs ++ drop k ys) (suc_minus n (length xs))

  pub append_assoc : (xs ys zs : List A) → (xs ++ ys) ++ zs ≡ xs ++ (ys ++ zs)
  append_assoc [] ys zs = refl
  append_assoc (x ∷ xs) ys zs = ap (λ ws. x ∷ ws) (append_assoc xs ys zs)

module _ {ℓ κ} {A : Type ℓ} {B : Type κ} (f : A → B) where
  pub length-map : (xs : List A) → length (map f xs) ≡ length xs
  length-map [] = refl
  length-map (x ∷ xs) = ap suc (length-map xs)

  pub map-take : (n : ℕ) (xs : List A) → map f (take n xs) ≡ take n (map f xs)
  map-take zero xs = refl
  map-take (suc n) [] = refl
  map-take (suc n) (x ∷ xs) = ap (λ ys. f x ∷ ys) (map-take n xs)

  pub map-drop : (n : ℕ) (xs : List A) → map f (drop n xs) ≡ drop n (map f xs)
  map-drop zero xs = refl
  map-drop (suc n) [] = refl
  map-drop (suc n) (x ∷ xs) = map-drop n xs
