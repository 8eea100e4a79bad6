-- ===== src/Capability/Search/Scores.antt =====
-- The scores of internal/capability/search.go are bounded.
use native.Mathlib.Nat.{
  div-mul-le_self, le_of_mul-le-mul_right, mul-le-mul_left, le_trans, div-zero,
}
use tappet.Capability.Types.{Record}
use tappet.Capability.Hierarchy.{member}
use tappet.Capability.Search.{
  Unicode, NormalizedSearchText, normalize_search_text, sum_lengths, distinct,
}
use tappet.Capability.Search.Matching.{
  SearchMatch, SearchField, search_exact_score, search_minimum_score, search_query_weight,
  search_field_weight, overlap_bytes, lexical_search_score, best_field, best_lexical_match,
  lexical_match, match_capability, exact_search_match, or_next, capability_fields, operation_fields,
  skill_fields,
}
use tappet.Prelude.{
  ℕ, zero, suc, ◌+◌, ◌*◌, ◌/◌, ◌≤◌, ◌≡◌, refl, sym, ap, Bool, true, false, Bool-cases, inl, inr,
  ◌⊎◌, Option, none, some, List, [], ◌∷◌, arith, ltb, if◌then◌else◌, length, Bytes, bytes_eq,
  bytes_eq_iff, some_inj, codes,
}

share_le : (k o q : ℕ) → o ≤ q → k * o / q ≤ k
share_le k o zero h = rw (div-zero (k * o)) omega arith
share_le k o (suc q) h =
    le_of_mul-le-mul_right (le_trans (div-mul-le_self (k * o) (suc q)) (mul-le-mul_left k h))
      (omega arith)

-- No token twice.
abbrev pub Distinct : List Bytes → Type 0
Distinct [] = Unit
Distinct (t ∷ ts) = (member t ts ≡ false) × Distinct ts

pub distinct-Distinct : (ts : List Bytes) → Distinct (distinct ts)
unfolding distinct
distinct-Distinct [] = tt
distinct-Distinct (t ∷ ts) = ground (arith, distinct-Distinct ts)

overlap_le_query : (query field : List Bytes) → overlap_bytes query field ≤ sum_lengths query
unfolding overlap_bytes sum_lengths
overlap_le_query [] field = omega arith
overlap_le_query (t ∷ ts) field = ground (arith, overlap_le_query ts field)

-- A field without a token.
without : Bytes → List Bytes → List Bytes
without t [] = []
without t (x ∷ xs) = let rest = without t xs in if bytes_eq x t then rest else x ∷ rest

member-without :
    (t u : Bytes) (xs : List Bytes) → bytes_eq u t ≡ false → member u (without t xs) ≡ member u xs
unfolding member without
member-without t u [] h = refl
member-without t u (x ∷ xs) h =
    ground (arith, member-without t u xs, bytes_eq_iff x t, bytes_eq_iff u x, bytes_eq_iff u t)

sum-without : (t : Bytes) (xs : List Bytes) → sum_lengths (without t xs) ≤ sum_lengths xs
unfolding without sum_lengths
sum-without t [] = omega arith
sum-without t (x ∷ xs) = ground (arith, sum-without t xs)

sum-without-member :
    (t : Bytes) (xs : List Bytes)
    → member t xs ≡ true
    → length t + sum_lengths (without t xs) ≤ sum_lengths xs
unfolding member without sum_lengths
sum-without-member t [] h = absurd (ground arith)
sum-without-member t (x ∷ xs) h = elim (Bool-cases (bytes_eq x t)) [
  | inl same ↦
      (let e = (bytes_eq_iff x t).0 same in
        rw (same, without) ground (arith, e, ap length e, sum-without t xs))
  | inr other ↦ ground (arith, other, sum-without-member t xs, bytes_eq_iff x t, bytes_eq_iff t x)
]

overlap-without :
    (t : Bytes) (ts field : List Bytes)
    → member t ts ≡ false
    → overlap_bytes ts (without t field) ≡ overlap_bytes ts field
unfolding overlap_bytes member
overlap-without t [] field h = refl
overlap-without t (u ∷ ts) field h = ground (
  arith,
  overlap-without t ts field,
  member-without t u field,
  bytes_eq_iff t u,
  bytes_eq_iff u t,
)

overlap_le_field :
    (query field : List Bytes) → Distinct query → overlap_bytes query field ≤ sum_lengths field
unfolding overlap_bytes
overlap_le_field [] field d = omega arith
overlap_le_field (t ∷ ts) field d = ground (
  arith,
  overlap_le_field ts field d.1,
  overlap_le_field ts (without t field) d.1,
  overlap-without t ts field d.0,
  sum-without-member t field,
)

-- A score is at most the exact score, when no token of the query occurs twice.
lexical_score_le :
    (query field : List Bytes)
    → Distinct query
    → lexical_search_score query field ≤ search_exact_score
unfolding lexical_search_score
lexical_score_le query field d =
    let o = overlap_bytes query field in
    ground (
      arith,
      share_le search_query_weight o (sum_lengths query) (overlap_le_query query field),
      share_le search_field_weight o (sum_lengths field) (overlap_le_field query field d),
    )

module _ (unicode : Unicode) (query : NormalizedSearchText)
    (distinct_tokens : Distinct query.token_set) where
  best_field-score :
      (score : ℕ) (name : Bytes) (fields : List SearchField)
      → score ≤ search_exact_score
      → (best_field unicode query score name fields).0 ≤ search_exact_score
  unfolding best_field
  best_field-score score name [] h = h
  best_field-score score name (field ∷ fields) h =
      let next =
        lexical_search_score query.token_set
          (normalize_search_text unicode field.value).token_set in
      let bound =
        lexical_score_le query.token_set (normalize_search_text unicode field.value).token_set
          distinct_tokens in
      elim (Bool-cases (ltb score next)) [
        | inl better ↦ rw (better, best_field) (best_field-score next field.name fields bound)
        | inr worse ↦ rw (worse, best_field) (best_field-score score name fields h)
      ]

  -- A match's tier and score.
  pub record IsRanked (m : SearchMatch) : Type 0 where
    pub tier : (1 ≤ m.tier) × (m.tier ≤ 5)
    pub least : search_minimum_score ≤ m.score
    pub most : m.score ≤ search_exact_score
    pub exact : (m.score ≡ search_exact_score) ⊎ (4 ≤ m.tier)

  exact_search_match-IsRanked :
      (tier : ℕ) (kind field : Bytes)
      → 1 ≤ tier
      → tier ≤ 3
      → IsRanked (exact_search_match tier kind field)
  unfolding exact_search_match
  exact_search_match-IsRanked tier kind field low high = record {
    tier = (low, omega arith);
    least = omega arith;
    most = omega arith;
    exact = inl refl;
  }

  best_lexical_match-IsRanked :
      (tier : ℕ) (kind : Bytes) (fields : List SearchField) (m : SearchMatch)
      → 4 ≤ tier
      → tier ≤ 5
      → best_lexical_match unicode query tier kind fields ≡ some m
      → IsRanked m
  unfolding best_lexical_match
  best_lexical_match-IsRanked tier kind fields m low high h =
      let bound = best_field-score 0 [] fields (omega arith) in
      let score = (best_field unicode query 0 [] fields).0 in
      elim (Bool-cases (ltb score search_minimum_score)) [
        | inl small ↦ absurd (ground (arith, small))
        | inr large ↦
            let tiered : m.tier ≡ tier = ground (arith, large) in
            let scored : m.score ≡ score = ground (arith, large) in
            record {
              tier = (omega (arith, tiered), omega (arith, tiered));
              least = ground (arith, large, scored);
              most = omega (arith, bound, scored);
              exact = inr (omega (arith, tiered));
            }
      ]

  abbrev Ranks : Option SearchMatch → Type 0
  Ranks o = (m : SearchMatch) → o ≡ some m → IsRanked m

  if-Ranks :
      (b : Bool) (x : SearchMatch) (rest : Option SearchMatch)
      → IsRanked x
      → Ranks rest
      → Ranks (if b then some x else rest)
  if-Ranks true x rest r k m h = rw (sym (some_inj x m h)) r
  if-Ranks false x rest r k m h = k m h

  or_next-Ranks : (o rest : Option SearchMatch) → Ranks o → Ranks rest → Ranks (or_next o rest)
  or_next-Ranks none rest r k m h = k m h
  or_next-Ranks (some x) rest r k m h = r m h

  none-Ranks : Ranks none
  none-Ranks m h = cc

  lexical_match-IsRanked : (r : Record) → Ranks (lexical_match unicode query r)
  unfolding lexical_match
  lexical_match-IsRanked r =
      let fields =
        λ (tier : ℕ) (kind : Bytes) (fs : List SearchField) (low : 4 ≤ tier) (high : tier ≤ 5)
            (m : SearchMatch).
          best_lexical_match-IsRanked tier kind fs m low high in
      or_next-Ranks _ _
        (fields 4 (codes "lexical_capability") (capability_fields r) (omega arith) (omega arith))
        (or_next-Ranks _ _
          (fields 5 (codes "lexical_operation") (operation_fields r) (omega arith) (omega arith))
          (fields 5 (codes "lexical_skill") (skill_fields r.skills) (omega arith) (omega arith)))

  -- A match has a tier from 1 to 5 and a score between the least score and the exact score, and
  -- has the exact score unless its tier is 4 or 5; no token of the query occurs twice.
  pub match_capability-IsRanked :
      (r : Record) (m : SearchMatch) → match_capability unicode query r ≡ some m → IsRanked m
  unfolding match_capability
  match_capability-IsRanked r m h =
      let first = λ (kind field : Bytes).
        exact_search_match-IsRanked 1 kind field (omega arith) (omega arith) in
      let second = λ (kind field : Bytes).
        exact_search_match-IsRanked 2 kind field (omega arith) (omega arith) in
      let third = λ (kind field : Bytes).
        exact_search_match-IsRanked 3 kind field (omega arith) (omega arith) in
      grind (arith, first, second, third, lexical_match-IsRanked r)
