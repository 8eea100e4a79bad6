-- ===== src/Capability/Catalog/Answers.antt =====
-- What a search of internal/capability/catalog.go that succeeds found.
use tappet.Capability.Identifiers.{valid_utf8}
use tappet.Capability.Limits.{broker_response_max_bytes}
use tappet.Capability.Registry.{Registry}
use tappet.Capability.Browse.{HierarchyView, browse_locked}
use tappet.Capability.Search.{SearchError, NormalizedSearchText, Unicode, normalize_search_query}
use tappet.Capability.Search.Ranking.{
  search_limit_max, SearchRequest, RankedSearchResult, at_root, search_and_browse, search_installed,
  path_error,
}
use tappet.Capability.Catalog.{
  CatalogSearchRequest, CatalogSearchResponse, CatalogCodec, searching, cursor_start, page_of,
  search,
}
use mathlib.Core.Path.{subst}
use tappet.Prelude.{
  ℕ, ◌≤◌, ◌≡◌, ◌∙◌, sym, ap, true, Option, none, some, List, arith, ltb, length, Bytes, bytes_eq,
  Result, ok, err, bind-eq-ok, fail_if-eq-ok, ok_inj, Option-cases, Result-cases, inl, inr,
}

searching-eq-ok : {A : Type 0} (m : Result SearchError A) {a : A} → searching m ≡ ok a → m ≡ ok a
searching-eq-ok (ok a) h = ap ok (ok_inj _ _ h)
searching-eq-ok (err e) h = absurd cc

at_root_again : (path : Bytes) → at_root (at_root path) ≡ at_root path
unfolding bytes_eq
at_root_again path = ground arith

path_error-none :
    (unicode : Unicode) (path : Bytes) → path_error unicode path ≡ none → valid_utf8 path ≡ true
unfolding path_error
path_error-none unicode path h = ground arith

search_installed-eq-ok :
    (unicode : Unicode) (query : NormalizedSearchText) (path : Bytes) (limit : ℕ)
    (expected : Option ℕ) (r : Registry) (results : List RankedSearchResult) (view : HierarchyView)
    (revision : ℕ)
    → search_installed unicode query path limit expected r ≡ ok (results, view, revision)
    → (browse_locked path r ≡ some view) × (revision ≡ r.revision)
unfolding search_installed
search_installed-eq-ok unicode query path limit expected r results view revision h =
    elim (Option-cases (browse_locked path r)) [
      | inl gone ↦ absurd (ground (arith, gone))
      | inr (v, here) ↦ (ground (arith, here), ground (arith, here))
    ]

search_and_browse-eq-ok :
    (unicode : Unicode) (request : SearchRequest) (expected : Option ℕ) (r : Registry)
    (results : List RankedSearchResult) (view : HierarchyView) (revision : ℕ)
    → search_and_browse unicode request expected r ≡ ok (results, view, revision)
    → (browse_locked (at_root request.path) r ≡ some view)
      × (revision ≡ r.revision)
      × (valid_utf8 (at_root request.path) ≡ true)
unfolding search_and_browse
search_and_browse-eq-ok unicode request expected r results view revision h =
    elim (Result-cases (normalize_search_query unicode request.query)) [
      | inl (e, bad) ↦ absurd (ground (arith, bad))
      | inr (query, good) ↦ elim (Option-cases (path_error unicode (at_root request.path))) [
        | inr (e, bad) ↦ absurd (ground (arith, good, bad))
        | inl fine ↦
            let inner : search_installed unicode query (at_root request.path) request.limit expected
                  r
                ≡ ok (results, view, revision) =
              ground (arith, good, fine) in
            let (browsed, same) =
              search_installed-eq-ok unicode query _ _ expected r results view revision inner in
            (browsed, same, path_error-none unicode (at_root request.path) fine)
      ]
    ]

module _ (codec : CatalogCodec) where
  -- What a search that succeeds found.
  pub record IsAnswered (unicode : Unicode) (key : Bytes) (request : CatalogSearchRequest)
      (r : Registry) (response : CatalogSearchResponse) : Type 0 where
    pub expected : Option ℕ
    pub offset : ℕ
    pub results : List RankedSearchResult
    pub view : HierarchyView
    pub started :
        cursor_start codec key (at_root request.path) request.child_cursor ≡ ok (expected, offset)
    pub browsed : browse_locked (at_root request.path) r ≡ some view
    pub text : valid_utf8 (at_root request.path) ≡ true
    pub within : offset ≤ length view.children
    pub page :
        response
        ≡ page_of codec key
            (at_root request.path)
            offset
            request.child_limit
            (results, view, r.revision)

  pub search-eq-ok :
      (unicode : Unicode) (key : Bytes) (request : CatalogSearchRequest) (r : Registry)
      (response : CatalogSearchResponse)
      → search codec unicode key request r ≡ ok response
      → IsAnswered unicode key request r response
  unfolding search
  search-eq-ok unicode key request r response h =
      let path = at_root request.path in
      let (_, h1) = fail_if-eq-ok (ltb search_limit_max request.child_limit) _ _ h in
      let ((expected, offset), started, h2) =
        bind-eq-ok (cursor_start codec key path request.child_cursor) _ h1 in
      let asked : SearchRequest = record {
        query = request.query;
        path = path;
        limit = request.limit;
      } in
      let ((results, view, revision), answered, h3) =
        bind-eq-ok (searching (search_and_browse unicode asked expected r)) _ h2 in
      let found = searching-eq-ok (search_and_browse unicode asked expected r) answered in
      let (browsed, same, text) =
        search_and_browse-eq-ok unicode asked expected r results view revision found in
      let (within, h4) = fail_if-eq-ok (ltb (length view.children) offset) _ _ h3 in
      let page = page_of codec key path offset request.child_limit (results, view, revision) in
      let (_, h5) =
        fail_if-eq-ok (ltb broker_response_max_bytes (length (codec.marshal page))) _ _ h4 in
      record {
        expected = expected;
        offset = offset;
        results = results;
        view = view;
        started = started;
        browsed = subst (λ p. browse_locked p r ≡ some view) (at_root_again request.path) browsed;
        text = subst (λ p. valid_utf8 p ≡ true) (at_root_again request.path) text;
        within = ground arith;
        page =
            sym (ok_inj page response h5)
            ∙ ap (λ (n : ℕ). page_of codec key path offset request.child_limit (results, view, n))
                same;
      }
