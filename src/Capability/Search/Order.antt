-- ===== src/Capability/Search/Order.antt =====
-- The results of internal/capability/search.go: sorted, bounded, and of installed packages in the path.
use tappet.Capability.Paths.{bytes_lt, sort_insert, sort_slice}
use tappet.Capability.Registry.{RegistryGeneration}
use tappet.Capability.Search.{Unicode, NormalizedSearchText}
use tappet.Capability.Search.Matching.{match_capability}
use tappet.Capability.Search.Ranking.{
  RankedSearchResult, capability_card, capability_in_path, ranks_before, has_exact_identifier,
  collect,
}
use tappet.Prelude.{
  All, ℕ, zero, suc, ◌≡◌, refl, Bool, true, false, Bool-cases, inl, inr, ◌||◌, not, some,
  Option-cases, List, [], ◌∷◌, arith, take, Bytes, get_elem?,
}

-- No element is less than the one in front of it.
abbrev pub Sorted {ℓ} : {A : Type ℓ} → (A → A → Bool) → List A → Type 0
Sorted less [] = Unit
Sorted less (x ∷ []) = Unit
Sorted less (x ∷ y ∷ xs) = (less y x ≡ false) × Sorted less (y ∷ xs)

module _ {ℓ} {A : Type ℓ} (less : A → A → Bool)
    (asym : (a b : A) → less a b ≡ true → less b a ≡ false) where
  sort_insert-Sorted : (a : A) (xs : List A) → Sorted less xs → Sorted less (sort_insert less a xs)
  unfolding sort_insert
  sort_insert-Sorted a [] s = tt
  sort_insert-Sorted a (x ∷ []) s = elim (Bool-cases (less x a)) [
    | inl before ↦ rw (before, sort_insert) (asym x a before, tt)
    | inr after ↦ rw (after, sort_insert) (after, tt)
  ]
  sort_insert-Sorted a (x ∷ y ∷ xs) s =
      let rest = sort_insert-Sorted a (y ∷ xs) s.1 in
      elim (Bool-cases (less x a)) [
        | inr after ↦ rw (after, sort_insert) (after, s)
        | inl before ↦ elim (Bool-cases (less y a)) [
          | inl deeper ↦ rw (before, deeper, sort_insert) (s.0, rw (deeper, sort_insert) at rest)
          | inr here ↦ rw (before, here, sort_insert) (asym x a before, (here, s.1))
        ]
      ]

  pub sort_slice-Sorted : (xs : List A) → Sorted less (sort_slice less xs)
  unfolding sort_slice
  sort_slice-Sorted [] = tt
  sort_slice-Sorted (x ∷ xs) = sort_insert-Sorted x (sort_slice less xs) (sort_slice-Sorted xs)

module _ {ℓ} {A : Type ℓ} (less : A → A → Bool) where
  pub take-Sorted : (n : ℕ) (xs : List A) → Sorted less xs → Sorted less (take n xs)
  take-Sorted zero xs s = tt
  take-Sorted (suc n) [] s = tt
  take-Sorted (suc zero) (x ∷ []) s = tt
  take-Sorted (suc (suc n)) (x ∷ []) s = tt
  take-Sorted (suc zero) (x ∷ y ∷ xs) s = tt
  take-Sorted (suc (suc n)) (x ∷ y ∷ xs) s = (s.0, take-Sorted (suc n) (y ∷ xs) s.1)

  sort_insert-All :
      (P : A → Type 0) (a : A) (xs : List A) → P a → All P xs → All P (sort_insert less a xs)
  unfolding sort_insert
  sort_insert-All P a [] p ps = (p, tt)
  sort_insert-All P a (x ∷ xs) p ps = elim (Bool-cases (less x a)) [
    | inl before ↦ rw (before, sort_insert) (ps.0, sort_insert-All P a xs p ps.1)
    | inr after ↦ rw (after, sort_insert) (p, ps)
  ]

  pub sort_slice-All : (P : A → Type 0) (xs : List A) → All P xs → All P (sort_slice less xs)
  unfolding sort_slice
  sort_slice-All P [] ps = tt
  sort_slice-All P (x ∷ xs) ps =
      sort_insert-All P x (sort_slice less xs) ps.0 (sort_slice-All P xs ps.1)

  pub take-All : (P : A → Type 0) (n : ℕ) (xs : List A) → All P xs → All P (take n xs)
  take-All P zero xs ps = tt
  take-All P (suc n) [] ps = tt
  take-All P (suc n) (x ∷ xs) ps = (ps.0, take-All P n xs ps.1)

bytes_lt-asym : (a b : Bytes) → bytes_lt a b ≡ true → bytes_lt b a ≡ false
unfolding bytes_lt
bytes_lt-asym [] [] h = refl
bytes_lt-asym [] (y ∷ b) h = refl
bytes_lt-asym (x ∷ a) [] h = absurd (ground arith)
bytes_lt-asym (x ∷ a) (y ∷ b) h = ground (arith, bytes_lt-asym a b)

pub ranks_before-asym :
    (a b : RankedSearchResult) → ranks_before a b ≡ true → ranks_before b a ≡ false
unfolding ranks_before
ranks_before-asym a b h = ground (arith, bytes_lt-asym a.card.id b.card.id)

module _ (unicode : Unicode) (query : NormalizedSearchText) (path : Bytes) where
  -- A result stands for an installed package in the path that the query matches.
  pub record IsFound (gs : List (Bytes × RegistryGeneration)) (result : RankedSearchResult)
      : Type 0 where
    pub id : Bytes
    pub generation : RegistryGeneration
    pub at : ℕ
    pub installed_at : get_elem? gs at ≡ some (id, generation)
    pub not_retired : generation.retired ≡ false
    pub in_path : capability_in_path id path ≡ true
    pub matched : match_capability unicode query generation.package_record ≡ some result.found
    pub carded : result.card ≡ capability_card generation.package_record

  later :
      (g : Bytes × RegistryGeneration) (gs : List (Bytes × RegistryGeneration))
      (rs : List RankedSearchResult)
      → All (IsFound gs) rs
      → All (IsFound (g ∷ gs)) rs
  later g gs [] a = tt
  later g gs (r ∷ rs) (f, a) = (
    record {
      id = f.id;
      generation = f.generation;
      at = suc f.at;
      installed_at = f.installed_at;
      not_retired = f.not_retired;
      in_path = f.in_path;
      matched = f.matched;
      carded = f.carded;
    },
    later g gs rs a,
  )

  pub collect-IsFound :
      (gs : List (Bytes × RegistryGeneration)) → All (IsFound gs) (collect unicode query path gs)
  unfolding collect
  collect-IsFound [] = tt
  collect-IsFound ((id, g) ∷ gs) =
      let rest = later (id, g) gs (collect unicode query path gs) (collect-IsFound gs) in
      elim (Bool-cases (g.retired || not (capability_in_path id path))) [
        | inl skipped ↦ rw (skipped, collect) rest
        | inr kept ↦ elim (Option-cases (match_capability unicode query g.package_record)) [
          | inl missed ↦ rw (kept, missed, collect) rest
          | inr (m, hit) ↦
              rw (kept, hit, collect)
                (
                  record {
                    id = id;
                    generation = g;
                    at = 0;
                    installed_at = refl;
                    not_retired = ground (arith, kept);
                    in_path = ground (arith, kept);
                    matched = hit;
                    carded = refl;
                  },
                  rest,
                )
        ]
      ]

abbrev pub qualified :
    Unicode → NormalizedSearchText → List (Bytes × RegistryGeneration) → NormalizedSearchText
qualified unicode query gs = record query {
  qualified_identifier = has_exact_identifier unicode query.exact gs;
}
