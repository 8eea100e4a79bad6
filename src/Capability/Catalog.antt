-- ===== src/Capability/Catalog.antt =====
-- internal/capability/catalog.go: a search with a page of the children of its path. The encoders, the
-- decoders and HMAC-SHA-256 are parameters, and so is the key that `newCatalog` draws. A child limit and
-- an offset are numbers here: the code refuses a negative one, as it does one that is too large.
pub mod Answers
pub mod Walks
use tappet.Capability.Paths.{split}
use tappet.Capability.Limits.{opaque_reference_max_bytes, broker_response_max_bytes}
use tappet.Capability.Registry.{Registry}
use tappet.Capability.Browse.{HierarchyEntry, HierarchyView}
use tappet.Capability.Search.{Unicode, SearchError, search_limit_invalid}
use tappet.Capability.Search.Ranking.{
  RankedSearchResult, search_limit_max, at_root, search_and_browse,
}
use tappet.Prelude.{
  ℕ, ◌+◌, ◌-◌, ◌&&◌, ◌||◌, not, Option, none, some, List, [], ◌∷◌, ◌++◌, ltb, if◌then◌else◌, length,
  take, drop, Bytes, codes, bytes_eq, is_empty, Result, ok, err, ◌>>=◌, ◌>>◌, fail_if,
}

pub data CatalogError : Type 0 where
  catalog_cursor_invalid service_quota : CatalogError
  search_failed : SearchError → CatalogError

pub record CatalogSearchRequest : Type 0 where
  pub query : Bytes
  pub path : Bytes
  pub limit : ℕ
  pub child_limit : ℕ
  pub child_cursor : Bytes

pub record CatalogSearchResponse : Type 0 where
  pub ranking_version : Bytes
  pub results : List RankedSearchResult
  pub path : Bytes
  pub children : List HierarchyEntry
  pub total_children : ℕ
  pub next_child_cursor : Bytes

-- `catalogCursor`
pub record CatalogCursor : Type 0 where
  pub path : Bytes
  pub revision : ℕ
  pub offset : ℕ

pub record CatalogCodec : Type 0 where
  pub marshal : CatalogSearchResponse → Bytes
  pub marshal_cursor : CatalogCursor → Bytes
  pub unmarshal_cursor : Bytes → Option CatalogCursor
  pub encode : Bytes → Bytes
  pub decode : Bytes → Option Bytes
  pub hmac : Bytes → Bytes → Bytes

-- `SearchRankingVersion`
abbrev pub search_ranking_version : Bytes
search_ranking_version = codes "lexical-v1"

-- The error of a call that is passed on.
abbrev pub searching : {A : Type 0} → Result SearchError A → Result CatalogError A
searching (ok a) = ok a
searching (err e) = err (search_failed e)

module _ (codec : CatalogCodec) where
  open codec use {marshal, marshal_cursor, unmarshal_cursor, encode, decode, hmac}

  -- `makeCursor`
  unfoldable pub make_cursor : Bytes → CatalogCursor → Bytes
  make_cursor key cursor =
      let signed = codes "catalog:v1:" ++ encode (marshal_cursor cursor) in
      signed ++ b':' ∷ encode (hmac key signed)

  -- `parseCursor`, of the parts of a token; none for its errors.
  unfoldable pub parse_parts : Bytes → List Bytes → Option CatalogCursor
  parse_parts key (head ∷ version ∷ encoded ∷ mac ∷ []) =
      if not (bytes_eq head (codes "catalog") && bytes_eq version (codes "v1"))
      then none
      else elim (decode mac) [
        | none ↦ none
        | some provided ↦
            if not (bytes_eq provided (hmac key (codes "catalog:v1:" ++ encoded)))
            then none
            else elim (decode encoded) [ none ↦ none | some payload ↦ unmarshal_cursor payload ]
      ]
  parse_parts key _ = none

  unfoldable pub parse_cursor : Bytes → Bytes → Option CatalogCursor
  unfolding split
  parse_cursor key token = parse_parts key (split b':' token)

  -- The revision that is expected and the offset: those of the cursor, if there is one.
  unfoldable pub cursor_start : Bytes → Bytes → Bytes → Result CatalogError (Option ℕ × ℕ)
  cursor_start key path token =
      if is_empty token
      then ok (none, 0)
      else if ltb opaque_reference_max_bytes (length token)
      then err catalog_cursor_invalid
      else elim (parse_cursor key token) [
        | none ↦ err catalog_cursor_invalid
        | some cursor ↦
            if not (bytes_eq cursor.path path)
            then err catalog_cursor_invalid
            else ok (some cursor.revision, cursor.offset)
      ]

  -- The end of the page.
  abbrev pub page_end : ℕ → ℕ → ℕ → ℕ
  page_end offset child_limit total =
      if ltb total (offset + child_limit) then total else offset + child_limit

  -- The response of `Search`, from the results, the view and the revision that it found.
  unfoldable pub page_of :
      Bytes → Bytes → ℕ → ℕ → List RankedSearchResult × HierarchyView × ℕ → CatalogSearchResponse
  page_of key path offset child_limit (results, view, revision) =
      let total = length view.children in
      let end = page_end offset child_limit total in
      record {
        ranking_version = search_ranking_version;
        results = results;
        path = view.path;
        children = take (end - offset) (drop offset view.children);
        total_children = total;
        next_child_cursor =
            if ltb 0 child_limit && ltb end total
            then make_cursor key (record { path = path; revision = revision; offset = end })
            else [];
      }

  -- `Search`
  unfoldable pub search :
      Unicode → Bytes → CatalogSearchRequest → Registry → Result CatalogError CatalogSearchResponse
  search unicode key request r = do
    fail_if (ltb search_limit_max request.child_limit) (search_failed search_limit_invalid)
    start ← cursor_start key (at_root request.path) request.child_cursor
    found ← searching (
        search_and_browse unicode
          (record { query = request.query; path = at_root request.path; limit = request.limit })
          start.0 r)
    fail_if (ltb (length found.1.children) start.1) catalog_cursor_invalid
    fail_if
        (ltb broker_response_max_bytes
          (length (marshal (page_of key (at_root request.path) start.1 request.child_limit found))))
        service_quota
    ok (page_of key (at_root request.path) start.1 request.child_limit found)
