-- ===== src/Capability/Paths.antt =====
-- The functions of Go's `strings` and `sort` that the capability package uses on dotted paths.
use tappet.Prelude.{
  ℕ, suc, zero, ◌≡◌, refl, Bool, true, false, ◌&&◌, ◌||◌, Option, none, some, List, [], ◌∷◌, ◌++◌,
  arith, ◌==◌, ltb, if◌then◌else◌, Bytes, is_empty, length,
}

-- `strings.Split(s, c)` for one byte `c`.
abbrev onto_first : ℕ → List Bytes → List Bytes
onto_first x [] = (x ∷ []) ∷ []
onto_first x (p ∷ ps) = (x ∷ p) ∷ ps

unfoldable pub split : ℕ → Bytes → List Bytes
split c [] = [] ∷ []
split c (x ∷ s) = let rest = split c s in if x == c then [] ∷ rest else onto_first x rest

-- `strings.Join(parts, c)`.
unfoldable pub join : ℕ → List Bytes → Bytes
join c [] = []
join c (p ∷ []) = p
join c (p ∷ q ∷ ps) = p ++ (c ∷ join c (q ∷ ps))

-- `strings.LastIndexByte(s, c)`: none for -1.
unfoldable pub last_index_byte : ℕ → Bytes → Option ℕ
last_index_byte c [] = none
last_index_byte c (x ∷ s) = elim (last_index_byte c s) [
  | some i ↦ some (suc i)
  | none ↦ if x == c then some zero else none
]

-- `strings.Trim(s, c)` for one byte `c`.
unfoldable pub trim_left : ℕ → Bytes → Bytes
trim_left c [] = []
trim_left c (x ∷ s) = let rest = trim_left c s in if x == c then rest else x ∷ s

unfoldable pub trim_right : ℕ → Bytes → Bytes
trim_right c [] = []
trim_right c (x ∷ s) = let rest = trim_right c s in if x == c && is_empty rest then [] else x ∷ rest

-- `a < b` on strings.
unfoldable pub bytes_lt : Bytes → Bytes → Bool
bytes_lt [] [] = false
bytes_lt [] (_ ∷ _) = true
bytes_lt (_ ∷ _) [] = false
bytes_lt (x ∷ a) (y ∷ b) = ltb x y || (x == y && bytes_lt a b)

-- `sort.Slice` for a less function: the source's keys are distinct where the order matters.
module _ {ℓ} {A : Type ℓ} (less : A → A → Bool) where
  unfoldable pub sort_insert : A → List A → List A
  sort_insert a [] = a ∷ []
  sort_insert a (x ∷ xs) = let rest = sort_insert a xs in if less x a then x ∷ rest else a ∷ x ∷ xs

  unfoldable pub sort_slice : List A → List A
  sort_slice [] = []
  sort_slice (x ∷ xs) = sort_insert x (sort_slice xs)

-- Splitting loses nothing.
split_nonempty : (c : ℕ) (s : Bytes) → is_empty (split c s) ≡ false
unfolding split
split_nonempty c [] = refl
split_nonempty c (x ∷ s) = ground (arith, split_nonempty c s)

join-onto_first :
    (c x : ℕ) (ps : List Bytes) → is_empty ps ≡ false → join c (onto_first x ps) ≡ x ∷ join c ps
unfolding join
join-onto_first c x [] h = absurd (ground arith)
join-onto_first c x (p ∷ []) h = refl
join-onto_first c x (p ∷ q ∷ ps) h = refl

join-nil : (c : ℕ) (ps : List Bytes) → is_empty ps ≡ false → join c ([] ∷ ps) ≡ c ∷ join c ps
unfolding join
join-nil c [] h = absurd (ground arith)
join-nil c (p ∷ ps) h = refl

pub join-split : (c : ℕ) (s : Bytes) → join c (split c s) ≡ s
unfolding split
join-split c [] = unfold join in refl
join-split c (x ∷ s) = ground (
  arith,
  join-split c s,
  split_nonempty c s,
  join-nil c (split c s),
  join-onto_first c x (split c s),
)

-- Whether the byte stands in the string.
unfoldable pub has_byte : ℕ → Bytes → Bool
has_byte c [] = false
has_byte c (x ∷ s) = x == c || has_byte c s

last_index_byte_absent : (c : ℕ) (s : Bytes) → has_byte c s ≡ false → last_index_byte c s ≡ none
unfolding last_index_byte has_byte
last_index_byte_absent c [] h = refl
last_index_byte_absent c (x ∷ s) h = ground (arith, last_index_byte_absent c s)

-- The separator before a last segment without one.
pub last_index_byte-append :
    (c : ℕ) (p s : Bytes)
    → has_byte c s ≡ false
    → last_index_byte c (p ++ (c ∷ s)) ≡ some (length p)
unfolding last_index_byte
last_index_byte-append c [] s h = ground (arith, last_index_byte_absent c s h)
last_index_byte-append c (x ∷ p) s h = ground (arith, last_index_byte-append c p s h)

-- A part without the separator, in front of one or alone.
pub split-append :
    (c : ℕ) (p s : Bytes) → has_byte c p ≡ false → split c (p ++ (c ∷ s)) ≡ p ∷ split c s
unfolding split has_byte
split-append c [] s h = ground arith
split-append c (x ∷ p) s h = ground (arith, split-append c p s)

pub split_whole : (c : ℕ) (p : Bytes) → has_byte c p ≡ false → split c p ≡ p ∷ []
unfolding split has_byte
split_whole c [] h = refl
split_whole c (x ∷ p) h = ground (arith, split_whole c p)
