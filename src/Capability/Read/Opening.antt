-- ===== src/Capability/Read/Opening.antt =====
-- The accounts of internal/capability/read.go across the requests: a chunk, a new lease, and a whole
-- `Read` keep them.
use tappet.Capability.Types.{Artifact}
use tappet.Capability.Snapshot.{Digest, ArtifactLease}
use tappet.Capability.Limits.{ReadLeaseLimits, read_replay_reservation}
use tappet.Capability.Read.{
  ReadRequest, ReadLease, ReadLeaseStore, World, new_unique_id_in, read_handle_collision_attempts,
  prepare_locked,
}
use tappet.Capability.Read.Parts.{Codec, over_quota, registered}
use tappet.Capability.Read.Initial.{new_lease, open_lease}
use tappet.Capability.Read.Service.{next_chunk, continue_lease}
use tappet.Capability.Read.Chunk.{prepare_locked-eq-ok}
use tappet.Capability.Read.Accounting.{IsAccounted, pinned_by, reserved_by}
use tappet.Prelude.{
  ℕ, zero, suc, ◌+◌, ◌<◌, ◌^◌, ◌≡◌, false, Bool-cases, inl, inr, Option, none, some, List, [], ◌∷◌,
  arith, Bytes, bytes_eq_iff, bytes_key, Map, lookup, insert, lookup-insert, insert-Unique,
  total-insert, length-insert-le, length-insert_present, gt64_small, Option-cases, Result-cases, ap,
}

pub new_unique_id_in-absent {ℓ} :
    {V : Type ℓ} (n : ℕ) (draws : List (Option Bytes)) (m : Map Bytes V) (id : Bytes)
    → new_unique_id_in n draws m ≡ some id
    → lookup id m ≡ none
unfolding new_unique_id_in
new_unique_id_in-absent zero draws m id h = cc
new_unique_id_in-absent (suc n) [] m id h = cc
new_unique_id_in-absent (suc n) (none ∷ draws) m id h = cc
new_unique_id_in-absent (suc n) (some j ∷ draws) m id h = elim (Option-cases (lookup j m)) [
  | inl absent ↦ ground (arith, absent)
  | inr (_, present) ↦ new_unique_id_in-absent n draws m id (ground (arith, present))
]

-- Limits and sizes far below the range of `int64`, as the constructor's checks make them.
pub record IsSmall (limits : ReadLeaseLimits) : Type 0 where
  pub pinned : limits.max_pinned_bytes < 2 ^ 62
  pub replay : limits.max_replay_bytes < 2 ^ 62

-- A lease's successor in its place.
replace-IsAccounted :
    (id : Bytes) (lease lease' : ReadLease) (s : ReadLeaseStore)
    → lookup id s.reads ≡ some lease
    → lease'.artifact ≡ lease.artifact
    → lease'.attempt_key ≡ lease.attempt_key
    → IsAccounted s
    → IsAccounted (record s { reads = insert id lease' s.reads })
replace-IsAccounted id lease lease' s here artifact attempt a =
    let size : pinned_by lease' ≡ pinned_by lease = ap (λ x. x.bytes) artifact in
    record {
      unique = insert-Unique id lease' s.reads a.unique;
      unique_attempts = a.unique_attempts;
      pinned =
          ground (arith, a.pinned, size, here, total-insert pinned_by id lease' s.reads a.unique);
      reserved =
          ground (arith, a.reserved, here, total-insert reserved_by id lease' s.reads a.unique);
      attempt_of = λ j k h.
          ground (arith, a.attempt_of j k, lookup-insert id j lease' s.reads, bytes_eq_iff id j);
      lease_of = λ k j h.
          ground (arith, a.lease_of k j, lookup-insert id j lease' s.reads, bytes_eq_iff id j);
      count_fits = ground (arith, a.count_fits, length-insert_present id lease' lease s.reads here);
      pinned_fits = a.pinned_fits;
      reserved_fits = a.reserved_fits;
    }

-- A new lease under a new handle and an unknown attempt, within the limits.
registered-IsAccounted :
    (key : Digest) (id : Bytes) (lease : ReadLease) (artifact : Artifact) (s : ReadLeaseStore)
    → lookup id s.reads ≡ none
    → lookup key s.attempts ≡ none
    → lease.attempt_key ≡ key
    → lease.artifact ≡ artifact
    → over_quota artifact s ≡ false
    → IsSmall s.limits
    → artifact.bytes < 2 ^ 62
    → IsAccounted s
    → IsAccounted (registered key id lease s)
registered-IsAccounted key id lease artifact s new unknown mine its fits small size a =
    let bytes : lease.artifact.bytes ≡ artifact.bytes = ap (λ x. x.bytes) its in
    let pinned_sum = gt64_small (s.pinned_bytes + artifact.bytes) s.limits.max_pinned_bytes in
    let replay_sum =
      gt64_small (s.replay_bytes + read_replay_reservation) s.limits.max_replay_bytes in
    record {
      unique = insert-Unique id lease s.reads a.unique;
      unique_attempts = insert-Unique key id s.attempts a.unique_attempts;
      pinned = ground (arith, a.pinned, new, total-insert pinned_by id lease s.reads a.unique);
      reserved =
          ground (arith, a.reserved, new, total-insert reserved_by id lease s.reads a.unique);
      attempt_of = λ j k h. ground (
        arith,
        a.attempt_of j k,
        lookup-insert id j lease s.reads,
        bytes_eq_iff id j,
        lookup-insert key k id s.attempts,
        bytes_eq_iff key k,
      );
      lease_of = λ k j h. ground (
        arith,
        a.lease_of k j,
        lookup-insert id j lease s.reads,
        bytes_eq_iff id j,
        lookup-insert key k id s.attempts,
        bytes_eq_iff key k,
      );
      count_fits = ground (arith, a.count_fits, length-insert-le id lease s.reads);
      pinned_fits = ground (arith, a.pinned_fits, small.pinned, pinned_sum);
      reserved_fits = ground (arith, a.reserved_fits, small.replay, replay_sum);
    }

module _ (codec : Codec) where
  pub next_chunk-IsAccounted :
      (later : ℕ) (id : Bytes) (lease : ReadLease) (request : ReadRequest) (w : World)
      → lookup id w.store.reads ≡ some lease
      → IsAccounted w.store
      → IsAccounted (next_chunk codec later id lease request w).1.store
  unfolding next_chunk
  next_chunk-IsAccounted later id lease request w here a =
      let prepared =
        prepare_locked codec.marshal later w.store.limits w.snapshots lease request.ref
          request.offset request.max_bytes in
      elim (Result-cases prepared) [
        | inl (e, failed) ↦ rw (failed, next_chunk) a
        | inr ((lease', response), done) ↦
            let p =
              prepare_locked-eq-ok codec.marshal later w.store.limits w.snapshots lease request.ref
                request.offset request.max_bytes lease' response done in
            rw (done, next_chunk)
              (replace-IsAccounted id lease lease' w.store here p.same_artifact p.same_attempt a)
      ]

  pub continue_lease-IsAccounted :
      (later : ℕ) (scope id : Bytes) (lease : ReadLease) (request : ReadRequest) (w : World)
      → lookup id w.store.reads ≡ some lease
      → IsAccounted w.store
      → IsAccounted (continue_lease codec later scope id lease request w).1.store
  unfolding continue_lease
  continue_lease-IsAccounted later scope id lease request w here a =
      ground (arith, a, next_chunk-IsAccounted later id lease request w here a)

  pub open_lease-IsAccounted :
      (now later : ℕ) (draws : List (Option Bytes)) (scope : Bytes) (key : Digest)
      (request : ReadRequest) (artifact : Artifact) (object : ArtifactLease) (w : World)
      → lookup key w.store.attempts ≡ none
      → IsSmall w.store.limits
      → artifact.bytes < 2 ^ 62
      → IsAccounted w.store
      → IsAccounted (open_lease codec now later draws scope key request artifact object w).1.store
  unfolding open_lease
  open_lease-IsAccounted now later draws scope key request artifact object w unknown small size a =
      let drawn = new_unique_id_in read_handle_collision_attempts draws w.store.reads in
      elim (Bool-cases (over_quota artifact w.store)) [
        | inl full ↦ rw (full, open_lease) a
        | inr fits ↦ elim (Option-cases drawn) [
          | inl failed ↦ rw (fits, failed, open_lease) a
          | inr (id, new) ↦
              let first = new_lease codec now scope key id artifact object w.store.limits in
              elim (Result-cases (
                prepare_locked codec.marshal later w.store.limits w.snapshots first request.ref
                  request.offset request.max_bytes)) [
                    | inl (e, refused) ↦ rw (fits, new, refused, open_lease) a
                    | inr ((lease, response), done) ↦
                        let p =
                          prepare_locked-eq-ok codec.marshal later w.store.limits w.snapshots first
                            request.ref request.offset request.max_bytes lease response done in
                        rw (fits, new, done, open_lease)
                          (registered-IsAccounted key id lease artifact w.store
                            (new_unique_id_in-absent read_handle_collision_attempts draws
                              w.store.reads id new)
                            unknown p.same_attempt p.same_artifact fits small size a)
                  ]
        ]
      ]
