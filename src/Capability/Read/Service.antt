-- ===== src/Capability/Read/Service.antt =====
-- `readContinuation` and `Read` of internal/capability/read.go.
use tappet.Capability.Read.Parts.{Broker, Codec, parse_read_handle}
use tappet.Capability.Read.Initial.{read_initial}
use tappet.Capability.Read.{
  ReadError, read_request_invalid, continuation_invalid, continuation_stale, continuation_conflict,
  service_closed, ReadRequest, ReadResponse, ReadLease, World, read_bounds_invalid, sweep_locked,
  prepare_locked,
}
use tappet.Prelude.{
  ℕ, ◌&&◌, ◌||◌, not, Option, none, some, List, ◌==◌, if◌then◌else◌, Bytes, codes, bytes_eq,
  bytes_key, is_empty, has_prefix, lookup, insert, Result, ok, err,
}

module _ (codec : Codec) where
  open codec use {sha256, hex, marshal, raw_url_decode}

  -- The next chunk of a lease, which takes the lease's place.
  unfoldable pub next_chunk :
      ℕ → Bytes → ReadLease → ReadRequest → World → Result ReadError ReadResponse × World
  next_chunk later id lease request w =
      elim (prepare_locked marshal later w.store.limits w.snapshots lease request.ref request.offset
        request.max_bytes) [
          | err e ↦ (err e, w)
          | ok (lease', response) ↦ (
            ok response,
            record w { store = record w.store { reads = insert id lease' w.store.reads } },
          )
        ]

  unfoldable pub continue_lease :
      ℕ → Bytes → Bytes → ReadLease → ReadRequest → World → Result ReadError ReadResponse × World
  unfolding next_chunk
  continue_lease later scope id lease request w =
      if not (bytes_eq lease.scope_digest (sha256 scope))
      then (err continuation_stale, w)
      else if request.offset == lease.replay.offset
      then (
        (if bytes_eq lease.replay.input_ref request.ref
              && lease.replay.max_bytes == request.max_bytes
            then ok lease.replay.response
            else err continuation_conflict),
        w,
      )
      else if lease.final || not (request.offset == lease.replay.response.next_offset)
      then (err continuation_conflict, w)
      else next_chunk later id lease request w

  unfoldable pub read_continuation :
      ℕ → ℕ → Bytes → ReadRequest → World → Result ReadError ReadResponse × World
  unfolding parse_read_handle continue_lease sweep_locked
  read_continuation now later scope request w =
      if not (is_empty request.capability_id) || not (is_empty request.attempt_id)
      then (err read_request_invalid, w)
      else elim (parse_read_handle codec request.ref) [
        | none ↦ (err continuation_invalid, w)
        | some id ↦
            if w.store.closed
            then (err service_closed, w)
            else let swept = sweep_locked now w in
              elim (lookup id swept.store.reads) [
                | none ↦ (err continuation_stale, swept)
                | some lease ↦ continue_lease later scope id lease request swept
              ]
      ]

  -- `Read`
  unfoldable pub read :
      ℕ
      → ℕ
      → ℕ
      → List (Option Bytes)
      → Bytes
      → ReadRequest
      → Broker
      → Result ReadError ReadResponse × Broker
  unfolding read_initial read_continuation
  read first now later draws scope request b =
      if read_bounds_invalid scope request
      then (err read_request_invalid, b)
      else if has_prefix request.ref (codes "read:")
      then (let (result, w) = read_continuation now later scope request b.world in
          (result, record b { world = w }))
      else read_initial codec first now later draws scope request b
