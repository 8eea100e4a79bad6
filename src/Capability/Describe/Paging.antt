-- ===== src/Capability/Describe/Paging.antt =====
-- Reading a projection of internal/capability/describe.go to its end: the first page, and each further one asked for
-- with the cursor that the page before it carries.
use mathlib.Core.Path.{subst}
use tappet.Capability.Paths.{split, has_byte}
use tappet.Capability.Identifiers.{valid_utf8}
use tappet.Capability.Describe.{
  Projection, DescribeResponse, projection_item_count, page_projection,
}
use tappet.Capability.Describe.Pages.{
  Item, projection_items, response_items, page_projection-items, length-projection_items,
}
use tappet.Capability.Describe.Store.{
  ProjectionStore, ProjectionCursor, Codec, make_cursor, parse_parts, parse_cursor, page_of,
  bounded_page,
}
use tappet.Capability.Describe.Requests.{first_page, cursor_page}
use tappet.Capability.Describe.Cursors.{bounded_page-eq-ok}
use tappet.Capability.Describe.Walks.{parse_cursor-made}
use tappet.Prelude.{
  ℕ, ◌+◌, ◌≤◌, ◌≡◌, refl, sym, ap, ◌∙◌, true, false, inl, inr, Option, none, some, List, [], ◌++◌,
  arith, ltb, if◌then◌else◌, take, drop, Bytes, bytes_key, lookup, ok, take-append-drop, drop-drop,
  take_all, length-drop,
}
use tappet.Capability.Describe.Steps.{AreText, Only, cursor_page-IsNext, first_page-cases}

module _ (codec : Codec) where
  -- The pages from one on, each further one asked for at any time with the cursor that the page
  -- before it carries, to the one that carries none.
  pub data Pages : ProjectionStore → DescribeResponse → List Item → Type 0 where
    last :
        {s : ProjectionStore} {response : DescribeResponse}
        → response.next_cursor ≡ []
        → Pages s response (response_items response)
    more :
        {s s' : ProjectionStore} {response following : DescribeResponse} {rest : List Item}
        (now limit : ℕ)
        → cursor_page codec now response.next_cursor limit s ≡ (ok following, s')
        → Pages s' following rest
        → Pages s response (response_items response ++ rest)

  parse_cursor-nil : (key : Bytes) → parse_cursor codec key [] ≡ none
  unfolding parse_cursor parse_parts split
  parse_cursor-nil key = refl

  Pages-nil :
      (s : ProjectionStore) (response : DescribeResponse) (got : List Item)
      → response.next_cursor ≡ []
      → Pages s response got
      → got ≡ response_items response
  Pages-nil s response got ends (last same) = refl
  Pages-nil s response got ends (more {s' = s'} {following = following} now limit h pages) =
      let next = cursor_page-IsNext codec now response.next_cursor limit s following s' h in
      let none_read = ap (parse_cursor codec s.key) ends ∙ parse_cursor-nil s.key in
      absurd (cc (next.read, none_read))

  -- The token of a page: none behind the last item, else of the offset behind the page.
  page_of-next :
      (key : Bytes) (p : Projection) (offset limit : ℕ) (id : Bytes) (n : ℕ)
      → (page_of codec key p offset limit id n).next_cursor ≡ (
          if ltb (offset + n) (projection_item_count p)
          then make_cursor codec key (record { id = id; offset = offset + n; limit = limit })
          else [])
  unfolding page_of page_projection
  page_of-next key p offset limit id n = refl

  token_end :
      (key : Bytes) (cursor : ProjectionCursor) (count : ℕ)
      → (if ltb cursor.offset count then make_cursor codec key cursor else []) ≡ []
      → count ≤ cursor.offset
  unfolding make_cursor
  token_end key cursor count h = ground arith

  token_on :
      (key : Bytes) (cursor : ProjectionCursor) (count : ℕ) (token : Bytes)
      (found : ProjectionCursor)
      → token ≡ (if ltb cursor.offset count then make_cursor codec key cursor else [])
      → parse_cursor codec key token ≡ some found
      → token ≡ make_cursor codec key cursor
  token_on key cursor count token found h read = ground (arith, parse_cursor-nil key)

  page-items :
      (key : Bytes) (p : Projection) (id : Bytes) (offset limit n : ℕ) (response : DescribeResponse)
      → bounded_page codec key p offset limit id ≡ ok (response, n)
      → response_items response ≡ take n (drop offset (projection_items p))
  unfolding page_of
  page-items key p id offset limit n response h =
      let (_, _, _, made, _, _) = bounded_page-eq-ok codec key p offset limit id response n h in
      ap response_items made
      ∙ page_projection-items p offset n (
          if ltb (offset + n) (projection_item_count p)
          then make_cursor codec key (record { id = id; offset = offset + n; limit = limit })
          else [])

  module _ (decodes : (b : Bytes) → codec.decode (codec.encode b) ≡ some b)
      (plain : (b : Bytes) → has_byte b':' (codec.encode b) ≡ false)
      (unmarshals : (c : ProjectionCursor)
        → valid_utf8 c.id ≡ true
        → codec.unmarshal_cursor (codec.marshal_cursor c) ≡ some c) where
    Pages-bounded_page :
        (p : Projection) (id : Bytes) (offset limit n : ℕ) (s : ProjectionStore)
        (response : DescribeResponse) (got : List Item)
        → valid_utf8 id ≡ true
        → bounded_page codec s.key p offset limit id ≡ ok (response, n)
        → Only id p s
        → Pages s response got
        → got ≡ drop offset (projection_items p)
    Pages-bounded_page p id offset limit n s response got text page only (last ends) =
        let (_, _, inside, made, _, _) =
          bounded_page-eq-ok codec s.key p offset limit id response n page in
        let token =
          ap (λ (x : DescribeResponse). x.next_cursor) made
          ∙ page_of-next s.key p offset limit id n in
        let behind =
          token_end s.key (record { id = id; offset = offset + n; limit = limit })
            (projection_item_count p) (sym token ∙ ends) in
        page-items s.key p id offset limit n response page
        ∙ take_all n (drop offset (projection_items p)) (
            omega
              (arith, length-drop offset (projection_items p), length-projection_items p, behind))
    Pages-bounded_page p id offset limit n s response got text page only
          (more {s' = s'} {following = following} {rest = rest} now again h pages) =
        let (_, _, inside, made, _, _) =
          bounded_page-eq-ok codec s.key p offset limit id response n page in
        let token =
          ap (λ (x : DescribeResponse). x.next_cursor) made
          ∙ page_of-next s.key p offset limit id n in
        let next = cursor_page-IsNext codec now response.next_cursor again s following s' h in
        let cursor : ProjectionCursor = record { id = id; offset = offset + n; limit = limit } in
        let on : response.next_cursor ≡ make_cursor codec s.key cursor =
          token_on s.key cursor (projection_item_count p) response.next_cursor next.cursor token
            next.read in
        let same =
          parse_cursor-made codec decodes plain unmarshals s.key cursor next.cursor text
            (subst (λ t. parse_cursor codec s.key t ≡ some next.cursor) on next.read) in
        let its : next.entry.projection ≡ p = only next.entry (
          subst (λ (c : ProjectionCursor). lookup c.id s.entries ≡ some next.entry) same
            next.held) in
        let following_page : bounded_page codec s'.key p (offset + n) again id
            ≡ ok (following, next.n) =
          subst (λ k. bounded_page codec k p (offset + n) again id ≡ ok (following, next.n))
            (sym next.same_key)
            (subst (λ q. bounded_page codec s.key q (offset + n) again id ≡ ok (following, next.n))
              its
              (subst
                (λ (c : ProjectionCursor).
                  bounded_page codec s.key next.entry.projection c.offset again c.id
                  ≡ ok (following, next.n))
                same next.page)) in
        let tail =
          Pages-bounded_page p id (offset + n) again next.n s' following rest text following_page
            (next.keeps id p only) pages in
        rw
          (
            page-items s.key p id offset limit n response page,
            tail,
            sym (drop-drop n offset (projection_items p)),
          )
          (take-append-drop n (drop offset (projection_items p)))

    -- The pages of a projection, from the first on and each further one asked for with the
    -- cursor that the page before it carries, to the one that carries none, hold its items, each
    -- once and in order across the three sections, whatever the times and the limit, when the
    -- drawn identifiers are UTF-8, the decoders undo the encoders (a cursor's where its
    -- identifier is UTF-8) and no encoding has a colon.
    pub Pages-items :
        (now : ℕ) (draws : List (Option Bytes)) (p : Projection) (limit : ℕ)
        (s s' : ProjectionStore) (response : DescribeResponse) (got : List Item)
        → AreText draws
        → first_page codec now draws p limit s ≡ (ok response, s')
        → Pages s' response got
        → got ≡ projection_items p
    unfolding page_projection
    Pages-items now draws p limit s s' response got texts h pages =
        let count = projection_item_count p in
        elim (first_page-cases codec now draws p limit s s' response texts h) [
          | inl whole ↦
              Pages-nil s' response got (ap (λ (x : DescribeResponse). x.next_cursor) whole) pages
              ∙ ap response_items whole
              ∙ page_projection-items p 0 count []
              ∙ take_all count (projection_items p) (omega (arith, length-projection_items p))
          | inr f ↦
              Pages-bounded_page p f.id 0 limit f.n s' response got f.text
                (subst (λ k. bounded_page codec k p 0 limit f.id ≡ ok (response, f.n))
                  (sym f.same_key) f.page)
                f.only pages
        ]
