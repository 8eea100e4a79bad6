-- ===== src/Capability/Describe/Store.antt =====
-- `ProjectionStore` of internal/capability/describe.go. The encoders, the decoders and HMAC-SHA-256 are
-- parameters; the random source is the list of its draws, each encoded. A limit or an offset that is
-- not positive is 0 here, which the code refuses alike.
use tappet.Capability.Paths.{split}
use tappet.Capability.Registry.{Registry, RegistryError}
use tappet.Capability.Limits.{
  ProjectionLimits, describe_limit_max, opaque_reference_max_bytes, broker_response_max_bytes,
  min_time,
}
use tappet.Capability.Describe.{
  Projection, DescribeResponse, projection_item_count, page_projection,
}
use tappet.Prelude.{
  ℕ, zero, suc, ◌+◌, ◌-◌, Bool, true, ◌&&◌, ◌||◌, not, Option, none, some, List, [], ◌∷◌, ◌++◌, ltb,
  leb, if◌then◌else◌, length, Bytes, codes, bytes_eq, bytes_key, is_empty, Map, delete, Result, ok,
  err,
}

pub data DescribeError : Type 0 where
  describe_request_invalid describe_cursor_invalid describe_cursor_stale : DescribeError
  service_closed service_quota cursor_generation cursor_collision : DescribeError
  lookup_failed : RegistryError → DescribeError

pub record DescribeRequest : Type 0 where
  pub capability_id : Bytes
  pub include : List Bytes
  pub limit : ℕ
  pub cursor : Bytes

pub record ProjectionEntry : Type 0 where
  pub projection : Projection
  pub created : ℕ
  pub idle_until : ℕ

pub record ProjectionStore : Type 0 where
  pub limits : ProjectionLimits
  pub key : Bytes
  pub closed : Bool
  pub entries : Map Bytes ProjectionEntry
  pub bytes : ℕ

pub record ProjectionCursor : Type 0 where
  pub id : Bytes
  pub offset : ℕ
  pub limit : ℕ

-- The registry that the store looks packages up in, and the store.
pub record Describer : Type 0 where
  pub registry : Registry
  pub store : ProjectionStore

pub record Codec : Type 0 where
  pub marshal : DescribeResponse → Bytes
  pub marshal_projection : Projection → Bytes
  pub marshal_cursor : ProjectionCursor → Bytes
  pub unmarshal_cursor : Bytes → Option ProjectionCursor
  pub encode : Bytes → Bytes
  pub decode : Bytes → Option Bytes
  pub hmac : Bytes → Bytes → Bytes

-- When an entry is dropped: an entry's idle time, within its absolute time.
abbrev pub expiry : ProjectionLimits → ProjectionEntry → ℕ
expiry limits e = min_time e.idle_until (e.created + limits.absolute)

abbrev pub drop_entry : Bytes → ProjectionEntry → ProjectionStore → ProjectionStore
drop_entry id e s = record s { entries = delete id s.entries; bytes = s.bytes - e.projection.bytes }

unfoldable pub sweep_entries : ℕ → Map Bytes ProjectionEntry → ProjectionStore → ProjectionStore
sweep_entries now [] s = s
sweep_entries now ((id, e) ∷ m) s =
    sweep_entries now m (if leb (expiry s.limits e) now then drop_entry id e s else s)

-- `sweepLocked`
unfoldable pub sweep_locked : ℕ → ProjectionStore → ProjectionStore
unfolding sweep_entries
sweep_locked now s = sweep_entries now s.entries s

-- `Close`
unfoldable pub close : ProjectionStore → ProjectionStore
close s = record s { closed = true; entries = []; bytes = 0 }

-- `Stats`: the count and the bytes, after a sweep.
unfoldable pub stats : ℕ → ProjectionStore → (ℕ × ℕ) × ProjectionStore
unfolding sweep_locked
stats now s = let swept = sweep_locked now s in ((length swept.entries, swept.bytes), swept)

abbrev pub cursor_invalid : ProjectionCursor → Bool
cursor_invalid cursor =
    is_empty cursor.id
    || leb cursor.offset 0
    || leb cursor.limit 0
    || ltb describe_limit_max cursor.limit

module _ (codec : Codec) where
  open codec use {
    marshal, marshal_projection, marshal_cursor, unmarshal_cursor, encode, decode, hmac,
  }

  -- Whether `checkDescribeResponseSize` returns no error.
  unfoldable pub fits_response : DescribeResponse → Bool
  fits_response response = leb (length (marshal response)) broker_response_max_bytes

  -- `makeCursor`
  unfoldable pub make_cursor : Bytes → ProjectionCursor → Bytes
  make_cursor key cursor =
      let encoded = encode (marshal_cursor cursor) in
      let signed = codes "describe:v1:" ++ encoded in signed ++ b':' ∷ encode (hmac key signed)

  -- `parseCursor`, of the four parts of a token; none for its errors.
  unfoldable pub parse_parts : Bytes → List Bytes → Option ProjectionCursor
  parse_parts key (head ∷ version ∷ encoded ∷ mac ∷ []) =
      if not (bytes_eq head (codes "describe") && bytes_eq version (codes "v1"))
      then none
      else elim (decode mac) [
        | none ↦ none
        | some provided ↦
            if not (bytes_eq provided (hmac key (codes "describe:v1:" ++ encoded)))
            then none
            else elim (decode encoded) [
              | none ↦ none
              | some payload ↦ elim (unmarshal_cursor payload) [
                | none ↦ none
                | some cursor ↦ if cursor_invalid cursor then none else some cursor
              ]
            ]
      ]
  parse_parts key _ = none

  unfoldable pub parse_cursor : Bytes → Bytes → Option ProjectionCursor
  unfolding parse_parts split
  parse_cursor key token =
      if ltb opaque_reference_max_bytes (length token)
      then none
      else parse_parts key (split b':' token)

  -- The response of one turn of the loop of `boundedPage`.
  unfoldable pub page_of : Bytes → Projection → ℕ → ℕ → Bytes → ℕ → DescribeResponse
  unfolding make_cursor page_projection
  page_of key p offset limit id items = page_projection p offset items (
      if ltb (offset + items) (projection_item_count p)
      then make_cursor key (record { id = id; offset = offset + items; limit = limit })
      else [])

  -- The loop of `boundedPage`, from `items` down.
  unfoldable pub shrink : Bytes → Projection → ℕ → ℕ → Bytes → ℕ → Option (DescribeResponse × ℕ)
  unfolding page_of fits_response
  shrink key p offset limit id zero = none
  shrink key p offset limit id (suc n) =
      let smaller = shrink key p offset limit id n in
      let response = page_of key p offset limit id (suc n) in
      if fits_response response then some (response, suc n) else smaller

  -- `boundedPage`
  unfoldable pub bounded_page :
      Bytes → Projection → ℕ → ℕ → Bytes → Result DescribeError (DescribeResponse × ℕ)
  unfolding shrink
  bounded_page key p offset limit id =
      if leb (projection_item_count p) offset
      then err describe_cursor_invalid
      else let remaining = projection_item_count p - offset in
        let items_limit = if ltb remaining limit then remaining else limit in
        elim (shrink key p offset limit id items_limit) [
          | none ↦ err service_quota
          | some page ↦ ok page
        ]
