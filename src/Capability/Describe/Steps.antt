-- ===== src/Capability/Describe/Steps.antt =====
-- What `firstPage` and `cursorPage` of internal/capability/describe.go answer, and the entry that they leave.
use mathlib.Core.Path.{subst}
use tappet.Capability.Identifiers.{valid_utf8}
use tappet.Capability.Read.{new_unique_id_in, read_handle_collision_attempts}
use tappet.Capability.Describe.{
  Projection, DescribeResponse, projection_item_count, page_projection,
}
use tappet.Capability.Describe.Store.{
  ProjectionEntry, ProjectionStore, ProjectionCursor, Codec, parse_cursor, bounded_page,
  sweep_entries, sweep_locked, drop_entry, fits_response,
}
use tappet.Capability.Describe.Requests.{over_quota, open_entry, first_page, next_page, cursor_page}
use tappet.Prelude.{
  ◌⊎◌, ℕ, zero, suc, ◌+◌, ◌≡◌, refl, sym, ap, ◌∙◌, true, inl, inr, Option, none, some, Option-cases,
  Bool-cases, Result-cases, List, [], ◌∷◌, arith, leb, ◌==◌, ◌&&◌, if◌then◌else◌, Bytes, bytes_eq,
  bytes_eq_iff, bytes_key, Map, lookup, insert, lookup-insert, lookup-delete, ok,
}

-- The identifiers that the random source gives are UTF-8; one that it fails to give is none.
abbrev pub AreText : List (Option Bytes) → Type 0
AreText [] = Unit
AreText (none ∷ draws) = AreText draws
AreText (some id ∷ draws) = (valid_utf8 id ≡ true) × AreText draws

-- An entry under `id` is one of `p`.
abbrev pub Only : Bytes → Projection → ProjectionStore → Type 0
Only id p s = (e : ProjectionEntry) → lookup id s.entries ≡ some e → e.projection ≡ p

sweep_entries-keeps :
    (now : ℕ) (m : Map Bytes ProjectionEntry) (s : ProjectionStore)
    → ((sweep_entries now m s).key ≡ s.key)
      × ((id : Bytes) (e : ProjectionEntry)
          → lookup id (sweep_entries now m s).entries ≡ some e
          → lookup id s.entries ≡ some e)
unfolding sweep_entries
sweep_entries-keeps now [] s = (refl, λ id e h. h)
sweep_entries-keeps now ((j, f) ∷ m) s =
    let stay = sweep_entries-keeps now m s in
    let gone = sweep_entries-keeps now m (drop_entry j f s) in
    (
      ground (arith, stay.0, gone.0),
      λ id e h. grind (arith, stay.1 id e, gone.1 id e, lookup-delete, h),
    )

inserted-Only :
    (id j : Bytes) (p : Projection) (f : ProjectionEntry) (s : ProjectionStore)
    → (j ≡ id → f.projection ≡ p)
    → Only id p s
    → (e : ProjectionEntry) → lookup id (insert j f s.entries) ≡ some e
    → e.projection ≡ p
inserted-Only id j p f s mine only e h = elim (Bool-cases (bytes_eq j id)) [
  | inl same ↦
      let this : f ≡ e = grind (arith, lookup-insert, bytes_eq_iff j id) in
      ap (λ (x : ProjectionEntry). x.projection) (sym this) ∙ mine ((bytes_eq_iff j id).0 same)
  | inr other ↦ only e (grind (arith, lookup-insert, bytes_eq_iff j id))
]

drawn_text :
    (n : ℕ) (draws : List (Option Bytes)) (m : Map Bytes ProjectionEntry) (id : Bytes)
    → AreText draws
    → new_unique_id_in n draws m ≡ some id
    → valid_utf8 id ≡ true
unfolding new_unique_id_in
drawn_text zero draws m id texts h = cc
drawn_text (suc n) [] m id texts h = cc
drawn_text (suc n) (none ∷ draws) m id texts h = cc
drawn_text (suc n) (some j ∷ draws) m id texts h = elim (Option-cases (lookup j m)) [
  | inl absent ↦ ground (arith, texts.0)
  | inr (e, present) ↦ drawn_text n draws m id texts.1 (ground (arith, present))
]

module _ (codec : Codec) where
  -- What a page of a cursor is, and what it leaves in the store.
  pub record IsNext (token : Bytes) (limit : ℕ) (s : ProjectionStore) (response : DescribeResponse)
      (s' : ProjectionStore) : Type 0 where
    pub cursor : ProjectionCursor
    pub entry : ProjectionEntry
    pub n : ℕ
    pub read : parse_cursor codec s.key token ≡ some cursor
    pub held : lookup cursor.id s.entries ≡ some entry
    pub page :
        bounded_page codec s.key entry.projection cursor.offset limit cursor.id ≡ ok (response, n)
    pub same_key : s'.key ≡ s.key
    pub keeps : (id : Bytes) (p : Projection) → Only id p s → Only id p s'

  next_page-IsNext :
      (now : ℕ) (cursor : ProjectionCursor) (limit : ℕ) (s : ProjectionStore)
      (response : DescribeResponse) (s' : ProjectionStore)
      → next_page codec now cursor limit s ≡ (ok response, s')
      → (entry : ProjectionEntry) × (n : ℕ) × (lookup cursor.id s.entries ≡ some entry)
        × (bounded_page codec s.key entry.projection cursor.offset limit cursor.id
            ≡ ok (response, n))
        × (s' ≡ record s {
          entries = insert cursor.id (record entry { idle_until = now + s.limits.idle }) s.entries;
        })
  unfolding next_page
  next_page-IsNext now cursor limit s response s' h =
      elim (Option-cases (lookup cursor.id s.entries)) [
        | inl missing ↦ absurd (ground (arith, missing))
        | inr (entry, held) ↦
            elim (Result-cases
              (bounded_page codec s.key entry.projection cursor.offset limit cursor.id)) [
                | inl (e, bad) ↦ absurd (ground (arith, held, bad))
                | inr ((r, n), good) ↦
                    (entry, n, held, ground (arith, held, good), ground (arith, held, good))
              ]
      ]

  pub cursor_page-IsNext :
      (now : ℕ) (token : Bytes) (limit : ℕ) (s : ProjectionStore) (response : DescribeResponse)
      (s' : ProjectionStore)
      → cursor_page codec now token limit s ≡ (ok response, s')
      → IsNext token limit s response s'
  unfolding cursor_page sweep_locked
  cursor_page-IsNext now token limit s response s' h =
      elim (Option-cases (parse_cursor codec s.key token)) [
        | inl bad ↦ absurd (ground (arith, bad))
        | inr (cursor, read) ↦
            let inner : next_page codec now cursor limit (sweep_locked now s) ≡ (ok response, s') =
              ground (arith, read) in
            let swept = sweep_entries-keeps now s.entries s in
            let (entry, n, held, page, state) =
              next_page-IsNext now cursor limit (sweep_locked now s) response s' inner in
            record {
              cursor = cursor;
              entry = entry;
              n = n;
              read = read;
              held = swept.1 cursor.id entry held;
              page =
                  subst
                    (λ k.
                      bounded_page codec k entry.projection cursor.offset limit cursor.id
                      ≡ ok (response, n))
                    swept.0 page;
              same_key = ap (λ (x : ProjectionStore). x.key) state ∙ swept.0;
              keeps = λ id p only e there.
                  inserted-Only id cursor.id p
                    (record entry { idle_until = now + (sweep_locked now s).limits.idle })
                    (sweep_locked now s)
                    (λ same. only entry (rw⁻¹ same (swept.1 cursor.id entry held)))
                    (λ f at. only f (swept.1 id f at)) e
                    (subst (λ (x : ProjectionStore). lookup id x.entries ≡ some e) state there);
            }
      ]

  -- What a first page is, and what it leaves in the store: one page of everything, or a bounded page.
  pub record IsFirstPage (p : Projection) (limit : ℕ) (s : ProjectionStore)
      (response : DescribeResponse) (s' : ProjectionStore) : Type 0 where
    pub id : Bytes
    pub n : ℕ
    pub text : valid_utf8 id ≡ true
    pub page : bounded_page codec s.key p 0 limit id ≡ ok (response, n)
    pub same_key : s'.key ≡ s.key
    pub only : Only id p s'

  open_entry-IsFirstPage :
      (now : ℕ) (draws : List (Option Bytes)) (p : Projection) (limit : ℕ) (s : ProjectionStore)
      (response : DescribeResponse) (s' : ProjectionStore)
      → AreText draws
      → open_entry codec now draws p limit s ≡ (ok response, s')
      → IsFirstPage p limit s response s'
  unfolding open_entry
  open_entry-IsFirstPage now draws p limit s response s' texts h =
      let drawn = new_unique_id_in read_handle_collision_attempts draws s.entries in
      elim (Bool-cases (over_quota p s)) [
        | inl full ↦ absurd (ground (arith, full))
        | inr room ↦ elim (Option-cases drawn) [
          | inl nothing ↦ absurd (ground (arith, room, nothing))
          | inr (id, got) ↦ elim (Option-cases (lookup id s.entries)) [
            | inr (e, taken) ↦ absurd (ground (arith, room, got, taken))
            | inl free ↦ elim (Result-cases (bounded_page codec s.key p 0 limit id)) [
              | inl (e, bad) ↦ absurd (ground (arith, room, got, free, bad))
              | inr ((r, n), good) ↦
                  let entry : ProjectionEntry = record {
                    projection = p;
                    created = now;
                    idle_until = now + s.limits.idle;
                  } in
                  let added = record s {
                    entries = insert id entry s.entries;
                    bytes = s.bytes + p.bytes;
                  } in
                  let state : s' ≡ (
                      if n == projection_item_count p then drop_entry id entry added else added) =
                    ground (arith, room, got, free, good) in
                  let its : r ≡ response = ground (arith, room, got, free, good) in
                  record {
                    id = id;
                    n = n;
                    text = drawn_text read_handle_collision_attempts draws s.entries id texts got;
                    page = rw⁻¹ its good;
                    same_key = ground (arith, state);
                    only = λ e there. elim (Bool-cases (n == projection_item_count p)) [
                      | inl done ↦
                          absurd
                            (grind (arith, state, lookup-delete, bytes_eq_iff id id, done, there))
                      | inr left ↦
                          inserted-Only id id p entry s (λ same. refl)
                            (λ f at. absurd (ground (arith, free, at))) e
                            (ground (arith, state, left, there))
                    ];
                  }
            ]
          ]
        ]
      ]

  pub first_page-cases :
      (now : ℕ) (draws : List (Option Bytes)) (p : Projection) (limit : ℕ) (s s' : ProjectionStore)
      (response : DescribeResponse)
      → AreText draws
      → first_page codec now draws p limit s ≡ (ok response, s')
      → (response ≡ page_projection p 0 (projection_item_count p) [])
        ⊎ IsFirstPage p limit (sweep_locked now s) response s'
  unfolding first_page
  first_page-cases now draws p limit s s' response texts h =
      let whole = page_projection p 0 (projection_item_count p) [] in
      elim (Bool-cases s.closed) [
        | inl shut ↦ absurd (ground (arith, shut))
        | inr open_store ↦
            elim (Bool-cases (leb (projection_item_count p) limit && fits_response codec whole)) [
              | inl fits ↦ inl (ground (arith, open_store, fits))
              | inr large ↦ inr (
                  open_entry-IsFirstPage now draws p limit (sweep_locked now s) response s' texts
                    (ground (arith, open_store, large)))
            ]
      ]
