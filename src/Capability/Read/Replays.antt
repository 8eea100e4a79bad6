-- ===== src/Capability/Read/Replays.antt =====
-- Requests of internal/capability/read.go that are sent again: the last chunk of a lease is kept.
use mathlib.Core.Path.{subst}
use tappet.Capability.Snapshot.{Digest}
use tappet.Capability.Read.{
  ReadError, ReadRequest, ReadResponse, ReadLease, World, prepare_locked, sweep_locked,
  sweep_entries, drop_locked,
}
use tappet.Capability.Read.Parts.{Codec, parse_read_handle}
use tappet.Capability.Read.Service.{next_chunk, continue_lease, read_continuation}
use tappet.Capability.Read.Chunk.{prepare_locked-eq-ok}
use tappet.Capability.Read.Accounting.{IsAccounted, lookup-sweep, unexpired}
use tappet.Capability.Read.Requests.{read_continuation-IsAccounted}
use tappet.Prelude.{
  ℕ, ◌<◌, ◌≡◌, refl, sym, Bool, false, Bool-cases, inl, inr, some, [], ◌∷◌, arith, Bytes,
  bytes_eq_iff, bytes_key, Map, lookup, insert, lookup-insert, Result, ok, Option-cases,
  Result-cases, ◌∙◌, ap, ◌==◌, is_empty, not, ◌||◌, some_inj,
}

-- A lease that holds the answer to a request.
pub record Holds (scope_digest : Digest) (request : ReadRequest) (response : ReadResponse)
    (lease : ReadLease) : Type 0 where
  pub scope : lease.scope_digest ≡ scope_digest
  pub input : lease.replay.input_ref ≡ request.ref
  pub at : lease.replay.offset ≡ request.offset
  pub size : lease.replay.max_bytes ≡ request.max_bytes
  pub answer : lease.replay.response ≡ response

sweep_entries-closed :
    (now : ℕ) (m : Map Bytes ReadLease) (w : World)
    → (sweep_entries now m w).store.closed ≡ w.store.closed
unfolding sweep_entries drop_locked
sweep_entries-closed now [] w = refl
sweep_entries-closed now ((id, l) ∷ m) w =
    ground (arith, sweep_entries-closed now m w, sweep_entries-closed now m (drop_locked id l w))

sweep-closed : (now : ℕ) (w : World) → (sweep_locked now w).store.closed ≡ w.store.closed
unfolding sweep_locked
sweep-closed now w = sweep_entries-closed now w.store.reads w

unexpired_live :
    (now : ℕ) (lease : ReadLease) → now < lease.expires_at → unexpired now (some lease) ≡ some lease
unexpired_live now lease h = ground (arith, h)

module _ (codec : Codec) where
  -- A continuation that is answered leaves a lease that holds the answer.
  continue_lease-Holds :
      (later : ℕ) (scope id : Bytes) (lease : ReadLease) (request : ReadRequest)
      (response : ReadResponse) (w w' : World)
      → lookup id w.store.reads ≡ some lease
      → continue_lease codec later scope id lease request w ≡ (ok response, w')
      → (lease' : ReadLease) × (lookup id w'.store.reads ≡ some lease')
        × Holds (codec.sha256 scope) request response lease'
        × (w'.store.closed ≡ w.store.closed)
  unfolding continue_lease next_chunk
  continue_lease-Holds later scope id lease request response w w' here h =
      let prepared =
        prepare_locked codec.marshal later w.store.limits w.snapshots lease request.ref
          request.offset request.max_bytes in
      let mine = bytes_eq_iff lease.scope_digest (codec.sha256 scope) in
      let same = bytes_eq_iff lease.replay.input_ref request.ref in
      elim (Bool-cases (request.offset == lease.replay.offset)) [
        | inl again ↦
            (let state : w' ≡ w = ground (arith, again) in
              (
                lease,
                rw state here,
                record {
                  scope = ground (arith, again, mine);
                  input = ground (arith, again, same);
                  at = ground (arith, again);
                  size = ground (arith, again);
                  answer = ground (arith, again);
                },
                rw state refl,
              ))
        | inr on ↦ elim (Result-cases prepared) [
          | inl (e, failed) ↦ absurd (ground (arith, on, failed))
          | inr ((lease', made), done) ↦
              let p =
                prepare_locked-eq-ok codec.marshal later w.store.limits w.snapshots lease
                  request.ref request.offset request.max_bytes lease' made done in
              let state : w'
                  ≡ record w { store = record w.store { reads = insert id lease' w.store.reads } } =
                ground (arith, on, done) in
              let its : response ≡ made = ground (arith, on, done) in
              let here' : lookup id w'.store.reads ≡ some lease' =
                rw state ground
                  (arith, lookup-insert id id lease' w.store.reads, bytes_eq_iff id id) in
              (
                lease',
                here',
                record {
                  scope = p.same_scope ∙ ground (arith, on, mine);
                  input = p.replay_ref;
                  at = p.replay_offset;
                  size = p.replay_size;
                  answer = p.replay_response ∙ sym its;
                },
                rw state refl,
              )
        ]
      ]

  -- A lease that holds the answer gives it again, and changes nothing.
  continue_lease-again :
      (later : ℕ) (scope id : Bytes) (lease : ReadLease) (request : ReadRequest)
      (response : ReadResponse) (w : World)
      → Holds (codec.sha256 scope) request response lease
      → continue_lease codec later scope id lease request w ≡ (ok response, w)
  unfolding continue_lease
  continue_lease-again later scope id lease request response w holds = ground (
    arith,
    holds.scope,
    holds.input,
    holds.at,
    holds.size,
    holds.answer,
    bytes_eq_iff lease.scope_digest (codec.sha256 scope),
    bytes_eq_iff lease.replay.input_ref request.ref,
  )

  -- The guards in front of a continuation.
  abbrev refused : ReadRequest → Bool
  refused request = not (is_empty request.capability_id) || not (is_empty request.attempt_id)

  read_continuation-guards :
      (now later : ℕ) (scope : Bytes) (request : ReadRequest) (response : ReadResponse)
      (w w' : World)
      → read_continuation codec now later scope request w ≡ (ok response, w')
      → (refused request ≡ false) × (w.store.closed ≡ false)
  unfolding read_continuation
  read_continuation-guards now later scope request response w w' h =
      elim (Option-cases (parse_read_handle codec request.ref)) [
        | inl bad ↦ absurd (ground (arith, bad))
        | inr (id, named) ↦ (ground (arith, h), ground (arith, h, named))
      ]

  read_continuation-runs :
      (now later : ℕ) (scope : Bytes) (request : ReadRequest) (id : Bytes) (lease : ReadLease)
      (w : World)
      → refused request ≡ false
      → parse_read_handle codec request.ref ≡ some id
      → w.store.closed ≡ false
      → lookup id (sweep_locked now w).store.reads ≡ some lease
      → read_continuation codec now later scope request w
        ≡ continue_lease codec later scope id lease request (sweep_locked now w)
  unfolding read_continuation
  read_continuation-runs now later scope request id lease w ungated named live here =
      simp (ungated, named, live, here) refl

  -- When a continuation is answered, the same request of the same scope, at any time before the
  -- lease that is left under its handle expires, gets the same response, and changes nothing but
  -- that leases which have expired are dropped; the store is accounted for before the first
  -- request.
  pub read_continuation-again :
      (now later now' later' : ℕ) (scope id : Bytes) (request : ReadRequest)
      (response : ReadResponse) (lease : ReadLease) (w w' : World)
      → IsAccounted w.store
      → read_continuation codec now later scope request w ≡ (ok response, w')
      → parse_read_handle codec request.ref ≡ some id
      → lookup id w'.store.reads ≡ some lease
      → now' < lease.expires_at
      → read_continuation codec now' later' scope request w' ≡ (ok response, sweep_locked now' w')
  unfolding read_continuation
  read_continuation-again now later now' later' scope id request response lease w w' a h named left
        early =
      let swept = sweep_locked now w in
      let asked = read_continuation-guards now later scope request response w w' h in
      elim (Option-cases (lookup id swept.store.reads)) [
        | inl gone ↦ absurd (ground (arith, named, gone))
        | inr (before, here) ↦
            let (lease', here', holds, shut) =
              continue_lease-Holds later scope id before request response swept w' here ground
                (arith, named, here) in
            let its : lease' ≡ lease = some_inj lease' lease (sym here' ∙ left) in
            let kept : IsAccounted w'.store =
              subst (λ (r : Result ReadError ReadResponse × World). IsAccounted r.1.store) h
                (read_continuation-IsAccounted codec now later scope request w a) in
            let live = lookup-sweep now' w' id kept.unique in
            let found = live ∙ ap (unexpired now') left ∙ unexpired_live now' lease early in
            read_continuation-runs now' later' scope request id lease w' asked.0 named
              (shut ∙ sweep-closed now w ∙ asked.1) found
            ∙ continue_lease-again later' scope id lease request response (sweep_locked now' w')
                (subst (Holds (codec.sha256 scope) request response) its holds)
      ]
