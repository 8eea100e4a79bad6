-- ===== src/Capability/Manifest/Lists.antt =====
-- What is said of the items of a manifest, one by one and together.
use tappet.Capability.Hierarchy.{member}
use tappet.Prelude.{◌≡◌, refl, true, false, List, [], ◌∷◌, Bytes, bytes_eq_iff, arith}

-- No element occurs twice.
abbrev pub Distinct : List Bytes → Type 0
unfolding member
Distinct [] = Unit
Distinct (x ∷ xs) = (member x xs ≡ false) × Distinct xs

-- None is among those seen before, nor twice in the list: what a loop with a set of `seen` checks.
abbrev pub Fresh : List Bytes → List Bytes → Type 0
Fresh seen [] = Unit
Fresh seen (x ∷ xs) = (member x seen ≡ false) × Fresh (x ∷ seen) xs

not-member-Fresh :
    (z : Bytes) (seen xs : List Bytes) → Fresh seen xs → member z seen ≡ true → member z xs ≡ false
unfolding member
not-member-Fresh z seen [] f h = refl
not-member-Fresh z seen (x ∷ xs) f h =
    ground (arith, f, h, not-member-Fresh z (x ∷ seen) xs f.1, bytes_eq_iff z x)

pub Fresh-Distinct : (seen xs : List Bytes) → Fresh seen xs → Distinct xs
unfolding member
Fresh-Distinct seen [] f = tt
Fresh-Distinct seen (x ∷ xs) f = (
  not-member-Fresh x (x ∷ seen) xs f.1 (ground (arith, bytes_eq_iff x x)),
  Fresh-Distinct (x ∷ seen) xs f.1,
)
