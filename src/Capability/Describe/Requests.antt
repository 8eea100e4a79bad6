-- ===== src/Capability/Describe/Requests.antt =====
-- `Describe`, `firstPage` and `cursorPage` of internal/capability/describe.go.
use tappet.Capability.Identifiers.{capability_id_matches, valid_utf8}
use tappet.Capability.Registry.{capability_not_found, lookup_capability, release}
use tappet.Capability.Limits.{describe_limit_max, max_capability_id_bytes}
use tappet.Capability.Read.{new_unique_id_in, read_handle_collision_attempts}
use tappet.Capability.Read.Parts.{package_of_lease}
use tappet.Capability.Describe.{
  Projection, DescribeResponse, normalize_includes, build_projection, projection_item_count,
  page_projection,
}
use tappet.Prelude.{
  ℕ, ◌+◌, Bool, ◌&&◌, ◌||◌, not, Option, none, some, List, [], ◌==◌, ltb, leb, if◌then◌else◌,
  length, Bytes, bytes_key, is_empty, lookup, insert, gt64, Result, ok, err,
}
use tappet.Capability.Describe.Store.{
  DescribeError, describe_request_invalid, describe_cursor_invalid, describe_cursor_stale,
  service_closed, service_quota, cursor_generation, cursor_collision, lookup_failed,
  DescribeRequest, ProjectionEntry, ProjectionStore, ProjectionCursor, Describer, Codec, drop_entry,
  sweep_locked, fits_response, parse_cursor, bounded_page,
}

-- Whether one more projection passes a limit.
abbrev pub over_quota : Projection → ProjectionStore → Bool
over_quota p s =
    leb s.limits.max_count (length s.entries) || gt64 (s.bytes + p.bytes) s.limits.max_bytes

unfoldable pub describe_id_invalid : Bytes → Bool
unfolding valid_utf8 capability_id_matches
describe_id_invalid id =
    is_empty id
    || ltb max_capability_id_bytes (length id)
    || not (valid_utf8 id)
    || not (capability_id_matches id)

module _ (codec : Codec) where
  open codec use {marshal_projection}

  -- The rest of `firstPage` for a projection that gets an entry.
  unfoldable pub open_entry :
      ℕ
      → List (Option Bytes)
      → Projection
      → ℕ
      → ProjectionStore
      → Result DescribeError DescribeResponse × ProjectionStore
  unfolding bounded_page
  open_entry now draws p limit s =
      if over_quota p s
      then (err service_quota, s)
      else elim (new_unique_id_in read_handle_collision_attempts draws s.entries) [
        | none ↦ (err cursor_generation, s)
        | some id ↦
            let entry : ProjectionEntry = record {
              projection = p;
              created = now;
              idle_until = now + s.limits.idle;
            } in
            let added = record s {
              entries = insert id entry s.entries;
              bytes = s.bytes + p.bytes;
            } in
            elim (lookup id s.entries) [
              | some _ ↦ (err cursor_collision, s)
              | none ↦ elim (bounded_page codec s.key p 0 limit id) [
                | err e ↦ (err e, drop_entry id entry added)
                | ok (response, consumed) ↦ (
                  ok response,
                  if consumed == projection_item_count p then drop_entry id entry added else added,
                )
              ]
            ]
      ]

  -- `firstPage`
  unfoldable pub first_page :
      ℕ
      → List (Option Bytes)
      → Projection
      → ℕ
      → ProjectionStore
      → Result DescribeError DescribeResponse × ProjectionStore
  unfolding open_entry sweep_locked
  first_page now draws p limit s =
      if s.closed
      then (err service_closed, s)
      else let swept = sweep_locked now s in
        let whole = page_projection p 0 (projection_item_count p) [] in
        if leb (projection_item_count p) limit && fits_response codec whole
        then (ok whole, swept)
        else open_entry now draws p limit swept

  -- The part of `cursorPage` behind the sweep.
  unfoldable pub next_page :
      ℕ
      → ProjectionCursor
      → ℕ
      → ProjectionStore
      → Result DescribeError DescribeResponse × ProjectionStore
  unfolding bounded_page
  next_page now cursor limit s = elim (lookup cursor.id s.entries) [
    | none ↦ (err describe_cursor_stale, s)
    | some entry ↦
        if leb cursor.offset 0 || leb (projection_item_count entry.projection) cursor.offset
        then (err describe_cursor_invalid, s)
        else elim (bounded_page codec s.key entry.projection cursor.offset limit cursor.id) [
          | err e ↦ (err e, s)
          | ok (response, _) ↦ (
            ok response,
            record s {
              entries =
                  insert cursor.id (record entry { idle_until = now + s.limits.idle }) s.entries;
            },
          )
        ]
  ]

  -- `cursorPage`
  unfoldable pub cursor_page :
      ℕ → Bytes → ℕ → ProjectionStore → Result DescribeError DescribeResponse × ProjectionStore
  unfolding parse_cursor next_page sweep_locked
  cursor_page now token limit s = elim (parse_cursor codec s.key token) [
    | none ↦ (err describe_cursor_invalid, s)
    | some cursor ↦
        if not (cursor.limit == limit)
        then (err describe_cursor_invalid, s)
        else if s.closed
        then (err service_closed, s)
        else next_page now cursor limit (sweep_locked now s)
  ]

  -- The part of `Describe` for a capability: the package is held while the projection is built.
  unfoldable pub describe_capability :
      ℕ
      → List (Option Bytes)
      → DescribeRequest
      → Describer
      → Result DescribeError DescribeResponse × Describer
  unfolding normalize_includes build_projection first_page package_of_lease
  describe_capability now draws request d = elim (normalize_includes request.include) [
    | none ↦ (err describe_request_invalid, d)
    | some include ↦ elim (lookup_capability request.capability_id d.registry) [
      | err e ↦ (err (lookup_failed e), d)
      | ok (i, registry) ↦ elim (package_of_lease i registry) [
        | none ↦ (err (lookup_failed capability_not_found), d)
        | some package_record ↦
            let released = record d { registry = release i registry } in
            elim (build_projection marshal_projection package_record include) [
              | none ↦ (err describe_request_invalid, released)
              | some p ↦
                  let (result, store) = first_page now draws p request.limit released.store in
                  (result, record released { store = store })
            ]
      ]
    ]
  ]

  -- `Describe`
  unfoldable pub describe :
      ℕ
      → List (Option Bytes)
      → DescribeRequest
      → Describer
      → Result DescribeError DescribeResponse × Describer
  unfolding describe_capability cursor_page describe_id_invalid
  describe now draws request d =
      if leb request.limit 0 || ltb describe_limit_max request.limit
      then (err describe_request_invalid, d)
      else if d.store.closed
      then (err service_closed, d)
      else if is_empty request.cursor
      then (if describe_id_invalid request.capability_id
          then (err describe_request_invalid, d)
          else describe_capability now draws request d)
      else if not (is_empty request.capability_id) || not (length request.include == 0)
      then (err describe_request_invalid, d)
      else (let (result, store) = cursor_page now request.cursor request.limit d.store in
          (result, record d { store = store }))
