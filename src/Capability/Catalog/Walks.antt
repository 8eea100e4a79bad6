-- ===== src/Capability/Catalog/Walks.antt =====
-- Reading the children of a path of the catalog of internal/capability/catalog.go to the last one.
use tappet.Capability.Paths.{split, has_byte, split-append, split_whole}
use tappet.Capability.Identifiers.{valid_utf8}
use tappet.Capability.Registry.{Registry}
use tappet.Capability.Browse.{HierarchyEntry, HierarchyView, browse_locked}
use tappet.Capability.Search.{Unicode}
use tappet.Capability.Search.Ranking.{RankedSearchResult, at_root}
use tappet.Capability.Catalog.{
  CatalogSearchResponse, CatalogCursor, CatalogCodec, make_cursor, parse_parts, parse_cursor,
  cursor_start, page_end, page_of, search,
}
use mathlib.Core.Path.{subst}
use tappet.Prelude.{
  ℕ, ◌+◌, ◌-◌, ◌≤◌, ◌<◌, ◌≡◌, ◌∙◌, refl, sym, ap, true, false, Option, some, List, [], ◌∷◌, ◌++◌,
  arith, length, take, drop, Bytes, codes, bytes_eq, bytes_eq_iff, is_empty, ok, take_all,
  take-append-drop, drop-drop, length-drop,
}
use tappet.Capability.Catalog.Answers.{search-eq-ok}

module _ (codec : CatalogCodec) where
  parse_parts-signed :
      (key encoded mac : Bytes) (cursor : CatalogCursor)
      → codec.decode mac ≡ some (codec.hmac key (codes "catalog:v1:" ++ encoded))
      → codec.decode encoded ≡ some (codec.marshal_cursor cursor)
      → codec.unmarshal_cursor (codec.marshal_cursor cursor) ≡ some cursor
      → parse_parts codec key (codes "catalog" ∷ codes "v1" ∷ encoded ∷ mac ∷ []) ≡ some cursor
  unfolding parse_parts bytes_eq
  parse_parts-signed key encoded mac cursor signed opened found =
      let sign = codec.hmac key (codes "catalog:v1:" ++ encoded) in
      let same : bytes_eq sign sign ≡ true = (bytes_eq_iff sign sign).1 refl in
      rw (signed, same, opened, found, parse_parts) refl

  module _ (decodes : (b : Bytes) → codec.decode (codec.encode b) ≡ some b)
      (plain : (b : Bytes) → has_byte b':' (codec.encode b) ≡ false)
      (unmarshals : (c : CatalogCursor)
        → valid_utf8 c.path ≡ true
        → codec.unmarshal_cursor (codec.marshal_cursor c) ≡ some c) where
    parse_cursor-make_cursor :
        (key : Bytes) (cursor : CatalogCursor)
        → valid_utf8 cursor.path ≡ true
        → parse_cursor codec key (make_cursor codec key cursor) ≡ some cursor
    unfolding parse_cursor make_cursor
    parse_cursor-make_cursor key cursor text =
        let encoded = codec.encode (codec.marshal_cursor cursor) in
        let sign = codec.hmac key (codes "catalog:v1:" ++ encoded) in
        let parts : split b':' (make_cursor codec key cursor)
            ≡ codes "catalog" ∷ codes "v1" ∷ encoded ∷ codec.encode sign ∷ [] =
          rw
            (
              split-append b':' encoded (codec.encode sign) (plain (codec.marshal_cursor cursor)),
              split_whole b':' (codec.encode sign) (plain sign),
            )
            refl in
        ap (parse_parts codec key) parts
        ∙ parse_parts-signed key encoded (codec.encode sign) cursor (decodes sign)
            (decodes (codec.marshal_cursor cursor)) (unmarshals cursor text)

    cursor_start-make_cursor :
        (key path : Bytes) (cursor : CatalogCursor) (expected : Option ℕ) (offset : ℕ)
        → valid_utf8 cursor.path ≡ true
        → cursor_start codec key path (make_cursor codec key cursor) ≡ ok (expected, offset)
        → offset ≡ cursor.offset
    unfolding cursor_start
    cursor_start-make_cursor key path cursor expected offset text h =
        let read = parse_cursor-make_cursor key cursor text in
        let token : is_empty (make_cursor codec key cursor) ≡ false = unfold make_cursor in refl in
        ground (arith, read, token)

    page_of-last :
        (key path : Bytes) (offset child_limit revision : ℕ) (results : List RankedSearchResult)
        (view : HierarchyView)
        → offset ≤ length view.children
        → 0 < child_limit
        → let page = page_of codec key path offset child_limit (results, view, revision) in
          page.next_child_cursor ≡ [] → page.children ≡ drop offset view.children
    unfolding page_of make_cursor
    page_of-last key path offset child_limit revision results view within some_child ends =
        let total = length view.children in
        let whole =
          take_all (total - offset) (drop offset view.children)
            (omega (arith, length-drop offset view.children)) in
        ground (arith, whole)

    page_of-more :
        (key path : Bytes) (offset child_limit revision : ℕ) (results : List RankedSearchResult)
        (view : HierarchyView)
        → offset ≤ length view.children
        → let page = page_of codec key path offset child_limit (results, view, revision) in
          is_empty page.next_child_cursor ≡ false
          → let n = page_end codec offset child_limit (length view.children) in
            (page.next_child_cursor
              ≡ make_cursor codec key (record { path = path; revision = revision; offset = n }))
            × (page.children ++ drop n view.children ≡ drop offset view.children)
    unfolding page_of
    page_of-more key path offset child_limit revision results view within goes_on =
        let n = page_end codec offset child_limit (length view.children) in
        let forward : offset ≤ n = ground arith in
        let there : offset + (n - offset) ≡ n = omega (arith, forward) in
        let both = take-append-drop (n - offset) (drop offset view.children) in
        let next = drop-drop (n - offset) offset view.children in
        (
          ground arith,
          subst
              (λ (k : ℕ).
                take (n - offset) (drop offset view.children) ++ drop k view.children
                ≡ drop offset view.children)
              there
              (subst
                (λ zs.
                  take (n - offset) (drop offset view.children) ++ zs ≡ drop offset view.children)
                next both),
        )

    -- The pages of the children of a path, each asked for by the cursor of the one before, with
    -- whatever query and limits, to the one without a next cursor.
    pub data Walk (unicode : Unicode) (key : Bytes) (r : Registry) (path : Bytes)
        : Bytes → List HierarchyEntry → Type 0 where
      last :
          {token : Bytes} (query : Bytes) (limit child_limit : ℕ) (response : CatalogSearchResponse)
          → search codec unicode key
              (record {
                query = query;
                path = path;
                limit = limit;
                child_limit = child_limit;
                child_cursor = token;
              })
              r
            ≡ ok response
          → 0 < child_limit
          → response.next_child_cursor ≡ []
          → Walk unicode key r path token response.children
      more :
          {token : Bytes} (query : Bytes) (limit child_limit : ℕ) (response : CatalogSearchResponse)
          (rest : List HierarchyEntry)
          → search codec unicode key
              (record {
                query = query;
                path = path;
                limit = limit;
                child_limit = child_limit;
                child_cursor = token;
              })
              r
            ≡ ok response
          → is_empty response.next_child_cursor ≡ false
          → Walk unicode key r path response.next_child_cursor rest
          → Walk unicode key r path token (response.children ++ rest)

    Walk-cursor_start :
        (unicode : Unicode) (key : Bytes) (r : Registry) (path token : Bytes)
        (got : List HierarchyEntry) (start : ℕ)
        → ((expected : Option ℕ) (offset : ℕ)
            → cursor_start codec key (at_root path) token ≡ ok (expected, offset)
            → offset ≡ start)
        → Walk unicode key r path token got
        → (view : HierarchyView) × (browse_locked (at_root path) r ≡ some view)
          × (got ≡ drop start view.children)
    Walk-cursor_start unicode key r path token got start at
          (last query limit child_limit response h some_child ends) =
        let a = search-eq-ok codec unicode key _ r response h in
        let root = at_root path in
        let next = ap (λ (x : CatalogSearchResponse). x.next_child_cursor) a.page in
        let kids = ap (λ (x : CatalogSearchResponse). x.children) a.page in
        let here = ap (λ (k : ℕ). drop k a.view.children) (at a.expected a.offset a.started) in
        let rest =
          page_of-last key root a.offset child_limit r.revision a.results a.view a.within some_child
            (sym next ∙ ends) in
        (a.view, a.browsed, kids ∙ rest ∙ here)
    Walk-cursor_start unicode key r path token got start at
          (more query limit child_limit response rest h goes_on walk) =
        let a = search-eq-ok codec unicode key _ r response h in
        let root = at_root path in
        let next = ap (λ (x : CatalogSearchResponse). x.next_child_cursor) a.page in
        let kids = ap (λ (x : CatalogSearchResponse). x.children) a.page in
        let here = ap (λ (k : ℕ). drop k a.view.children) (at a.expected a.offset a.started) in
        let (cursor, joined) =
          page_of-more key root a.offset child_limit r.revision a.results a.view a.within
            (sym (ap is_empty next) ∙ goes_on) in
        let n = page_end codec a.offset child_limit (length a.view.children) in
        let (view, browsed, tail) =
          Walk-cursor_start unicode key r path response.next_child_cursor rest n
            (λ e o s.
              cursor_start-make_cursor key root
                (record { path = root; revision = r.revision; offset = n }) e o a.text
                (subst (λ t. cursor_start codec key root t ≡ ok (e, o)) (next ∙ cursor) s))
            walk in
        let same : view ≡ a.view = ground (arith, browsed, a.browsed) in
        let tail' : rest ≡ drop n a.view.children =
          tail ∙ ap (λ (v : HierarchyView). drop n v.children) same in
        (
          a.view,
          a.browsed,
          ap (λ ks. ks ++ rest) kids
              ∙ ap
                  (λ zs.
                    (page_of codec key root a.offset child_limit
                      (a.results, a.view, r.revision)).children
                    ++ zs)
                  tail'
              ∙ joined
              ∙ here,
        )

    cursor_start-nil :
        (key path : Bytes) (expected : Option ℕ) (offset : ℕ)
        → cursor_start codec key path [] ≡ ok (expected, offset)
        → offset ≡ 0
    unfolding cursor_start
    cursor_start-nil key path expected offset h = ground arith

    -- The pages of the children of a path that are read one after the other to the last, with
    -- whatever queries and limits, hold its children, each once and in order, when the decoders
    -- undo the encoders (a cursor's where its path is UTF-8) and no encoding has a colon.
    pub Walk-children :
        (unicode : Unicode) (key : Bytes) (r : Registry) (path : Bytes) (got : List HierarchyEntry)
        → Walk unicode key r path [] got
        → (view : HierarchyView) × (browse_locked (at_root path) r ≡ some view)
          × (got ≡ view.children)
    Walk-children unicode key r path got walk =
        Walk-cursor_start unicode key r path [] got 0 (cursor_start-nil key (at_root path)) walk
