-- ===== src/Capability/Search/Top.antt =====
-- The results of internal/capability/search.go against the installed packages: the best matches, each once.
use Prim.Native.Nat.{min}
use tappet.Capability.Registry.{RegistryGeneration}
use tappet.Capability.Search.{Unicode, NormalizedSearchText}
use tappet.Capability.Search.Matching.{match_capability}
use tappet.Capability.Search.Ranking.{
  RankedSearchResult, capability_card, capability_in_path, ranks_before,
}
use tappet.Capability.Search.Order.{Sorted, IsFound}
use tappet.Prelude.{
  All, ℕ, ◌+◌, ◌≡◌, Bool, false, not, ◌&&◌, none, some, List, length, Bytes, if◌then◌else◌, sum_by,
}

-- How many of the results pass a test.
abbrev pub count : (RankedSearchResult → Bool) → List RankedSearchResult → ℕ
count q = sum_by (λ (r : RankedSearchResult). if q r then 1 else 0)

module _ (unicode : Unicode) (query : NormalizedSearchText) (path : Bytes) where
  -- Whether an installed package is one to be found, with a result that passes a test.
  abbrev pub matches : (RankedSearchResult → Bool) → Bytes × RegistryGeneration → ℕ
  matches q (id, g) =
      if not g.retired && capability_in_path id path
      then elim (match_capability unicode query g.package_record) [
        | none ↦ 0
        | some found ↦
            if q (record { card = capability_card g.package_record; found = found }) then 1 else 0
      ]
      else 0

-- What the results of a search are, in front of the matches that the limit cuts off.
pub record IsTop (unicode : Unicode) (query : NormalizedSearchText) (path : Bytes) (limit : ℕ)
    (gs : List (Bytes × RegistryGeneration)) (results : List RankedSearchResult) : Type 0 where
  pub cut : List RankedSearchResult
  pub sorted : Sorted ranks_before results
  pub found : All (IsFound unicode query path gs) results
  pub each_once :
      (q : RankedSearchResult → Bool)
      → count q results + count q cut ≡ sum_by (matches unicode query path q) gs
  pub many : length results ≡ min limit (length results + length cut)
  pub best : All (λ kept. All (λ other. ranks_before other kept ≡ false) cut) results
