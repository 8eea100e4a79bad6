-- ===== src/Capability/Describe/Kept.antt =====
-- The requests of internal/capability/describe.go keep the accounts of the store.
use tappet.Capability.Types.{Record}
use tappet.Capability.Limits.{describe_limit_max}
use tappet.Capability.Registry.{lookup_capability}
use tappet.Capability.Read.{new_unique_id_in, read_handle_collision_attempts}
use tappet.Capability.Read.Parts.{package_of_lease}
use tappet.Capability.Describe.{
  Projection, projection_item_count, build_projection, normalize_includes,
}
use tappet.Capability.Describe.Store.{
  DescribeRequest, ProjectionEntry, ProjectionStore, ProjectionCursor, Describer, Codec, drop_entry,
  sweep_entries, sweep_locked, bounded_page,
}
use tappet.Capability.Describe.Requests.{
  over_quota, open_entry, first_page, next_page, cursor_page, describe_capability, describe,
  describe_id_invalid,
}
use tappet.Prelude.{
  ℕ, ◌+◌, ◌<◌, ◌^◌, ◌≡◌, refl, Bool-cases, inl, inr, Option, some, Option-cases, Result-cases, List,
  [], ◌∷◌, arith, ◌==◌, ltb, leb, length, Bytes, bytes_eq_iff, bytes_key, is_empty, Map, lookup,
  insert, lookup-insert, not, ◌||◌,
}
use tappet.Capability.Read.Opening.{new_unique_id_in-absent}
use tappet.Capability.Describe.Accounting.{
  IsAccounted, IsSmall, sweep_projections-IsAccounted, drop_entry-IsAccounted, added-IsAccounted,
  touched-IsAccounted,
}

sweep_entries-limits :
    (now : ℕ) (m : Map Bytes ProjectionEntry) (s : ProjectionStore)
    → (sweep_entries now m s).limits ≡ s.limits
unfolding sweep_entries
sweep_entries-limits now [] s = refl
sweep_entries-limits now ((id, e) ∷ m) s =
    ground (arith, sweep_entries-limits now m s, sweep_entries-limits now m (drop_entry id e s))

sweep-limits : (now : ℕ) (s : ProjectionStore) → (sweep_locked now s).limits ≡ s.limits
unfolding sweep_locked
sweep-limits now s = sweep_entries-limits now s.entries s

abbrev entry_of : ℕ → Projection → ProjectionStore → ProjectionEntry
entry_of now p s = record { projection = p; created = now; idle_until = now + s.limits.idle }

build_projection-small :
    (marshal : Projection → Bytes)
    → ((p : Projection) → length (marshal p) < 2 ^ 62)
    → (rec : Record) (include : List Bytes) (p : Projection)
    → build_projection marshal rec include ≡ some p
    → p.bytes < 2 ^ 62
unfolding build_projection
build_projection-small marshal encodes rec include p h = grind (arith, encodes)

module _ (codec : Codec) where
  open_entry-IsAccounted :
      (now : ℕ) (draws : List (Option Bytes)) (p : Projection) (limit : ℕ) (s : ProjectionStore)
      → IsSmall s.limits
      → p.bytes < 2 ^ 62
      → IsAccounted s
      → IsAccounted (open_entry codec now draws p limit s).1
  unfolding open_entry
  open_entry-IsAccounted now draws p limit s small size a =
      let drawn = new_unique_id_in read_handle_collision_attempts draws s.entries in
      elim (Bool-cases (over_quota p s)) [
        | inl full ↦ rw (full, open_entry) a
        | inr fits ↦ elim (Option-cases drawn) [
          | inl failed ↦ rw (fits, failed, open_entry) a
          | inr (id, new) ↦
              let absent =
                new_unique_id_in-absent read_handle_collision_attempts draws s.entries id new in
              let entry = entry_of now p s in
              let added : ProjectionStore = record s {
                entries = insert id entry s.entries;
                bytes = s.bytes + p.bytes;
              } in
              let kept = added-IsAccounted id entry s absent fits small size a in
              let here : lookup id added.entries ≡ some entry =
                ground (arith, lookup-insert id id entry s.entries, bytes_eq_iff id id) in
              let dropped = drop_entry-IsAccounted id entry added here kept in
              elim (Result-cases (bounded_page codec s.key p 0 limit id)) [
                | inl (e, refused) ↦ rw (fits, new, absent, refused, open_entry) dropped
                | inr ((response, consumed), done) ↦
                    elim (Bool-cases (consumed == projection_item_count p)) [
                      | inl whole ↦ rw (fits, new, absent, done, whole, open_entry) dropped
                      | inr part ↦ rw (fits, new, absent, done, part, open_entry) kept
                    ]
              ]
        ]
      ]

  pub first_page-IsAccounted :
      (now : ℕ) (draws : List (Option Bytes)) (p : Projection) (limit : ℕ) (s : ProjectionStore)
      → IsSmall s.limits
      → p.bytes < 2 ^ 62
      → IsAccounted s
      → IsAccounted (first_page codec now draws p limit s).1
  unfolding first_page
  first_page-IsAccounted now draws p limit s small size a =
      let kept = sweep_projections-IsAccounted now s a in
      ground (
        arith,
        a,
        kept,
        open_entry-IsAccounted now draws p limit (sweep_locked now s)
            (rw (sweep-limits now s) small) size kept,
      )

  next_page-IsAccounted :
      (now : ℕ) (cursor : ProjectionCursor) (limit : ℕ) (s : ProjectionStore)
      → IsAccounted s
      → IsAccounted (next_page codec now cursor limit s).1
  unfolding next_page
  next_page-IsAccounted now cursor limit s a = grind (arith, touched-IsAccounted cursor.id)

  pub cursor_page-IsAccounted :
      (now : ℕ) (token : Bytes) (limit : ℕ) (s : ProjectionStore)
      → IsAccounted s
      → IsAccounted (cursor_page codec now token limit s).1
  unfolding cursor_page
  cursor_page-IsAccounted now token limit s a =
      grind (arith, sweep_projections-IsAccounted now s a, next_page-IsAccounted now)

  describe_capability-IsAccounted :
      (now : ℕ) (draws : List (Option Bytes)) (request : DescribeRequest) (d : Describer)
      → IsSmall d.store.limits
      → ((p : Projection) → length (codec.marshal_projection p) < 2 ^ 62)
      → IsAccounted d.store
      → IsAccounted (describe_capability codec now draws request d).1.store
  unfolding describe_capability
  describe_capability-IsAccounted now draws request d small encodes a =
      elim (Option-cases (normalize_includes request.include)) [
        | inl bad ↦ rw (bad, describe_capability) a
        | inr (include, good) ↦
            elim (Result-cases (lookup_capability request.capability_id d.registry)) [
              | inl (e, failed) ↦ rw (good, failed, describe_capability) a
              | inr ((i, registry), found) ↦ elim (Option-cases (package_of_lease i registry)) [
                | inl absent ↦ rw (good, found, absent, describe_capability) a
                | inr (rec, present) ↦
                    elim (Option-cases (build_projection codec.marshal_projection rec include)) [
                      | inl bad ↦ rw (good, found, present, bad, describe_capability) a
                      | inr (p, built) ↦
                          rw (good, found, present, built, describe_capability)
                            (first_page-IsAccounted now draws p request.limit d.store small
                              (build_projection-small codec.marshal_projection encodes rec include p
                                built)
                              a)
                    ]
              ]
            ]
      ]

  -- A describe request, answered or refused, keeps the accounts of the projection store: its
  -- bytes are the sum over its entries and neither limit is passed, when it was so before, the
  -- limit on bytes is below 2 ^ 62 and every encoded projection is shorter than that.
  pub describe-IsAccounted :
      (now : ℕ) (draws : List (Option Bytes)) (request : DescribeRequest) (d : Describer)
      → IsSmall d.store.limits
      → ((p : Projection) → length (codec.marshal_projection p) < 2 ^ 62)
      → IsAccounted d.store
      → IsAccounted (describe codec now draws request d).1.store
  unfolding describe
  describe-IsAccounted now draws request d small encodes a =
      let first = describe_capability-IsAccounted now draws request d small encodes a in
      let next = cursor_page-IsAccounted now request.cursor request.limit d.store a in
      elim (Bool-cases (leb request.limit 0 || ltb describe_limit_max request.limit)) [
        | inl bad ↦ rw (bad, describe) a
        | inr bounded ↦ elim (Bool-cases d.store.closed) [
          | inl shut ↦ simp (bounded, shut, describe) a
          | inr opened ↦ elim (Bool-cases (is_empty request.cursor)) [
            | inl fresh ↦ elim (Bool-cases (describe_id_invalid request.capability_id)) [
              | inl bad ↦ simp (bounded, opened, fresh, bad, describe) a
              | inr good ↦ simp (bounded, opened, fresh, good, describe) first
            ]
            | inr token ↦
                elim (Bool-cases
                  (not (is_empty request.capability_id) || not (length request.include == 0))) [
                    | inl bad ↦ simp (bounded, opened, token, bad, describe) a
                    | inr good ↦ simp (bounded, opened, token, good, describe) next
                  ]
          ]
        ]
      ]
