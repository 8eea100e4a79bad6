-- ===== src/Capability/Search/Ranking.antt =====
-- `Search` and `searchAndBrowse` of internal/capability/search.go, and `Catalog.Search` of catalog.go.
use tappet.Capability.Types.{Record, Skill}
use tappet.Capability.Paths.{bytes_lt, sort_slice}
use tappet.Capability.Identifiers.{valid_utf8, capability_id_matches}
use tappet.Capability.Registry.{Registry, RegistryGeneration}
use tappet.Capability.Browse.{HierarchyView, browse_locked}
use tappet.Capability.Describe.{CapabilityCounts}
use tappet.Capability.Search.{
  Unicode, SearchError, search_path_invalid, search_path_limit, search_limit_invalid,
  registry_closed, hierarchy_path_not_found, catalog_cursor_stale, NormalizedSearchText,
  normalize_exact, normalize_search_query,
}
use tappet.Capability.Search.Matching.{SearchMatch, match_capability, any_exact}
use tappet.Capability.PackageLimits.{max_hierarchy_path_bytes}
use tappet.Prelude.{
  ℕ, ◌+◌, Bool, false, ◌&&◌, ◌||◌, not, Option, none, some, List, [], ◌∷◌, ◌++◌, map, ltb, leb,
  ◌==◌, get_elem?, take, if◌then◌else◌, length, Bytes, codes, bytes_eq, is_empty, has_prefix, Map,
  Result, ok, err,
}

abbrev pub search_limit_max : ℕ
search_limit_max = 100

pub record SearchRequest : Type 0 where
  pub query : Bytes
  pub path : Bytes
  pub limit : ℕ

pub record CapabilityCard : Type 0 where
  pub id : Bytes
  pub name : Bytes
  pub version : Bytes
  pub description : Bytes
  pub path : Bytes
  pub tags : List Bytes
  pub counts : CapabilityCounts

-- `rankedSearchResult`: a `SearchResult` with its tier.
pub record RankedSearchResult : Type 0 where
  pub card : CapabilityCard
  pub found : SearchMatch

unfoldable pub resource_count : List Skill → ℕ
resource_count [] = 0
resource_count (s ∷ ss) = length s.resources + resource_count ss

-- `capabilityCard`
unfoldable pub capability_card : Record → CapabilityCard
unfolding resource_count
capability_card r = record {
  id = r.metadata.id;
  name = r.metadata.name;
  version = r.metadata.version;
  description = r.metadata.description;
  path = r.parent;
  tags = r.metadata.tags;
  counts = record {
    skills = length r.skills;
    operations = length r.operations;
    references = length r.context + resource_count r.skills;
  };
}

-- `capabilityInPath`
unfoldable pub capability_in_path : Bytes → Bytes → Bool
capability_in_path capability_id path =
    is_empty path || bytes_eq capability_id path || has_prefix capability_id (path ++ b'.' ∷ [])

-- The order of `sort.Slice` in `searchAndBrowse`.
unfoldable pub ranks_before : RankedSearchResult → RankedSearchResult → Bool
unfolding bytes_lt
ranks_before a b =
    if not (a.found.tier == b.found.tier)
    then ltb a.found.tier b.found.tier
    else if not (a.found.score == b.found.score)
    then ltb b.found.score a.found.score
    else bytes_lt a.card.id b.card.id

abbrev pub at_root : Bytes → Bytes
at_root path = if bytes_eq path (codes "/") then [] else path

-- The installed generations under their identifiers, in the order of the map.
unfoldable pub installed : Registry → Map Bytes ℕ → List (Bytes × RegistryGeneration)
installed r [] = []
installed r ((id, a) ∷ m) =
    let rest = installed r m in
    elim (get_elem? r.generations a) [ none ↦ rest | some g ↦ (id, g) ∷ rest ]

module _ (unicode : Unicode) where
  unfoldable pub has_exact_identifier : Bytes → List (Bytes × RegistryGeneration) → Bool
  unfolding any_exact normalize_exact
  has_exact_identifier query [] = false
  has_exact_identifier query ((id, g) ∷ gs) =
      let rest = has_exact_identifier query gs in
      if g.retired
      then rest
      else bytes_eq (normalize_exact unicode id) query
        || any_exact unicode query (map (λ o. id ++ b'/' ∷ o.id) g.package_record.operations)
        || rest

  -- The loop of `searchAndBrowse` over the entries.
  unfoldable pub collect :
      NormalizedSearchText → Bytes → List (Bytes × RegistryGeneration) → List RankedSearchResult
  unfolding match_capability capability_in_path capability_card
  collect query path [] = []
  collect query path ((id, g) ∷ gs) =
      let rest = collect query path gs in
      if g.retired || not (capability_in_path id path)
      then rest
      else elim (match_capability unicode query g.package_record) [
        | none ↦ rest
        | some found ↦ record { card = capability_card g.package_record; found = found } ∷ rest
      ]

  -- The results: ranked, and no more than the limit.
  unfoldable pub ranked :
      NormalizedSearchText → Bytes → ℕ → List (Bytes × RegistryGeneration) → List RankedSearchResult
  unfolding has_exact_identifier collect sort_slice ranks_before
  ranked query path limit gs =
      let qualified = record query { qualified_identifier = has_exact_identifier query.exact gs } in
      take limit (sort_slice ranks_before (collect qualified path gs))

  unfoldable pub path_error : Bytes → Option SearchError
  unfolding valid_utf8 capability_id_matches
  path_error path =
      if not (valid_utf8 path)
      then some search_path_invalid
      else if ltb max_hierarchy_path_bytes (length path)
      then some search_path_limit
      else if not (is_empty path) && not (capability_id_matches path)
      then some search_path_invalid
      else none

  -- `searchAndBrowse` behind the checks of the request.
  unfoldable pub search_installed :
      NormalizedSearchText
      → Bytes
      → ℕ
      → Option ℕ
      → Registry
      → Result SearchError (List RankedSearchResult × HierarchyView × ℕ)
  unfolding ranked installed browse_locked
  search_installed query path limit expected r =
      if r.closed
      then err registry_closed
      else if elim expected [ none ↦ false | some revision ↦ not (revision == r.revision) ]
      then err catalog_cursor_stale
      else elim (browse_locked path r) [
        | none ↦ err hierarchy_path_not_found
        | some view ↦
            if is_empty query.exact || length query.tokens == 0
            then ok ([], view, r.revision)
            else ok (ranked query path limit (installed r r.entries), view, r.revision)
      ]

  -- `searchAndBrowse`; a limit that is not positive is 0.
  unfoldable pub search_and_browse :
      SearchRequest
      → Option ℕ
      → Registry
      → Result SearchError (List RankedSearchResult × HierarchyView × ℕ)
  unfolding search_installed path_error normalize_search_query
  search_and_browse request expected r =
      if leb request.limit 0 || ltb search_limit_max request.limit
      then err search_limit_invalid
      else elim (normalize_search_query unicode request.query) [
        | err e ↦ err e
        | ok query ↦ elim (path_error (at_root request.path)) [
          | some e ↦ err e
          | none ↦ search_installed query (at_root request.path) request.limit expected r
        ]
      ]
