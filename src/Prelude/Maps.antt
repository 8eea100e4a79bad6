-- ===== src/Prelude/Maps.antt =====
-- Go maps as association lists with one pair for a key. Order is the order of iteration, which
-- the source leaves open.
use Prim.Native.Nat.{ℕ, suc, ◌+◌, ◌≤◌}
use mathlib.Core.Path.{◌≡◌, refl}
use mathlib.Core.Logic.{◌↔◌}
use mathlib.Core.Bool.{Bool, true}
use mathlib.Core.List.{List, [], ◌∷◌}
use mathlib.Core.Option.{Option, none, some}
use native.Mathlib.Omega.{arith}
use tappet.Prelude.Tests.{◌==◌ as nat_beq, ==_iff, if◌then◌else◌}
use tappet.Prelude.Strings.{Bytes, bytes_eq, bytes_eq_iff}
use tappet.Prelude.Lists.{weight, length}

pub record Eq {ℓ} (A : Type ℓ) : Type ℓ where
  pub beq : A → A → Bool
  pub beq_iff : (a b : A) → (beq a b ≡ true) ↔ (a ≡ b)

instance abbrev pub nat_key : Eq ℕ
nat_key = record { beq = nat_beq; beq_iff = ==_iff }

instance abbrev pub bytes_key : Eq Bytes
bytes_key = record { beq = bytes_eq; beq_iff = bytes_eq_iff }

abbrev pub Map {ℓ κ} : Type ℓ → Type κ → Type (ℓ ⊔ κ)
Map K V = List (K × V)

module _ {ℓ κ} {K : Type ℓ} {V : Type κ} where
  abbrev pub values : Map K V → List V
  values [] = []
  values ((_, v) ∷ m) = v ∷ values m

  abbrev pub total : (V → ℕ) → Map K V → ℕ
  total f [] = 0
  total f ((_, v) ∷ m) = f v + total f m

module _ {ℓ κ} {K : Type ℓ} {V : Type κ} ⦃e : Eq K⦄ where
  -- `v, ok := m[k]`
  unfoldable pub lookup : K → Map K V → Option V
  lookup k [] = none
  lookup k ((j, v) ∷ m) = if e.beq j k then some v else lookup k m

  -- `delete(m, k)`
  unfoldable pub delete : K → Map K V → Map K V
  delete k [] = []
  delete k ((j, v) ∷ m) = let rest = delete k m in if e.beq j k then rest else (j, v) ∷ rest

  -- `m[k] = v`
  unfoldable pub insert : K → V → Map K V → Map K V
  unfolding delete
  insert k v m = (k, v) ∷ delete k m

  abbrev pub Unique : Map K V → Type κ
  Unique [] = Unit
  Unique ((k, _) ∷ m) = (lookup k m ≡ none) × Unique m

  pub lookup-delete :
      (k j : K) (m : Map K V) → lookup j (delete k m) ≡ (if e.beq k j then none else lookup j m)
  unfolding lookup delete
  lookup-delete k j [] = ground arith
  lookup-delete k j ((i, v) ∷ m) =
      ground (arith, lookup-delete k j m, e.beq_iff i k, e.beq_iff i j, e.beq_iff k j)

  pub lookup-insert :
      (k j : K) (v : V) (m : Map K V)
      → lookup j (insert k v m) ≡ (if e.beq k j then some v else lookup j m)
  unfolding lookup insert
  lookup-insert k j v m = ground (arith, lookup-delete k j m)

  pub delete-Unique : (k : K) (m : Map K V) → Unique m → Unique (delete k m)
  unfolding delete
  delete-Unique k [] u = u
  delete-Unique k ((j, v) ∷ m) u = ground (arith, delete-Unique k m, lookup-delete k j m)

  pub insert-Unique : (k : K) (v : V) (m : Map K V) → Unique m → Unique (insert k v m)
  unfolding insert
  insert-Unique k v m u = (ground (arith, lookup-delete k k m, e.beq_iff k k), delete-Unique k m u)

  -- A deletion takes the weight of the value under the key.
  delete_absent : (k : K) (m : Map K V) → lookup k m ≡ none → delete k m ≡ m
  unfolding lookup delete
  delete_absent k [] h = refl
  delete_absent k ((j, v) ∷ m) h = ground (arith, delete_absent k m, e.beq_iff j k)

  pub total-delete :
      (f : V → ℕ) (k : K) (m : Map K V)
      → Unique m
      → total f (delete k m) + weight f (lookup k m) ≡ total f m
  unfolding lookup delete
  total-delete f k [] u = refl
  total-delete f k ((j, v) ∷ m) u =
      ground (arith, total-delete f k m, e.beq_iff j k, delete_absent k m)

  pub total-insert :
      (f : V → ℕ) (k : K) (v : V) (m : Map K V)
      → Unique m
      → total f (insert k v m) + weight f (lookup k m) ≡ f v + total f m
  unfolding insert
  total-insert f k v m u = omega (arith, total-delete f k m u)

  pub length-delete-le : (k : K) (m : Map K V) → length (delete k m) ≤ length m
  unfolding delete
  length-delete-le k [] = omega arith
  length-delete-le k ((j, v) ∷ m) = ground (arith, length-delete-le k m)

  pub length-insert-le : (k : K) (v : V) (m : Map K V) → length (insert k v m) ≤ suc (length m)
  unfolding insert
  length-insert-le k v m = omega (arith, length-delete-le k m)

  -- Deleting a key that is there makes the map shorter, so that writing it again does not grow it.
  pub length-insert_present :
      (k : K) (v w : V) (m : Map K V) → lookup k m ≡ some w → length (insert k v m) ≤ length m
  unfolding insert delete lookup
  length-insert_present k v w [] h = absurd (ground arith)
  length-insert_present k v w ((j, u) ∷ m) h =
      ground (arith, length-delete-le k m, length-insert_present k v w m)
