-- ===== src/Capability/Read/Chunk.antt =====
-- `prepareLocked` of internal/capability/read.go: what a prepared chunk is, and what it leaves alone.
use tappet.Capability.Snapshot.{SnapshotStore, read_range}
use tappet.Capability.Limits.{ReadLeaseLimits}
use tappet.Capability.Read.{ReadResponse, ReadLease, prepare_locked, chunk_response}
use tappet.Prelude.{ℕ, ◌≡◌, some, Option-cases, arith, Bytes, ok, inl, inr}

-- The lease and the response of one chunk, in terms of the lease before it.
pub record IsPrepared (now : ℕ) (limits : ReadLeaseLimits) (snapshots : SnapshotStore)
    (lease : ReadLease) (ref : Bytes) (offset size : ℕ) (lease' : ReadLease)
    (response : ReadResponse) : Type 0 where
  pub chunk : Bytes
  pub content : read_range offset size lease.object snapshots ≡ some chunk
  pub response_is : response ≡ (chunk_response now limits lease offset chunk).1
  pub same_id : lease'.id ≡ lease.id
  pub same_scope : lease'.scope_digest ≡ lease.scope_digest
  pub same_attempt : lease'.attempt_key ≡ lease.attempt_key
  pub same_artifact : lease'.artifact ≡ lease.artifact
  pub same_object : lease'.object ≡ lease.object
  pub same_created : lease'.created ≡ lease.created
  pub replay_ref : lease'.replay.input_ref ≡ ref
  pub replay_offset : lease'.replay.offset ≡ offset
  pub replay_size : lease'.replay.max_bytes ≡ size
  pub replay_response : lease'.replay.response ≡ response
  pub final_is : lease'.final ≡ response.complete
  pub expiry_is : lease'.expires_at ≡ response.expires_at

module _ (marshal : ReadResponse → Bytes) where
  pub prepare_locked-eq-ok :
      (now : ℕ) (limits : ReadLeaseLimits) (snapshots : SnapshotStore) (lease : ReadLease)
      (ref : Bytes) (offset size : ℕ) (lease' : ReadLease) (response : ReadResponse)
      → prepare_locked marshal now limits snapshots lease ref offset size ≡ ok (lease', response)
      → IsPrepared now limits snapshots lease ref offset size lease' response
  unfolding prepare_locked chunk_response
  prepare_locked-eq-ok now limits snapshots lease ref offset size lease' response h =
      elim (Option-cases (read_range offset size lease.object snapshots)) [
        | inl gone ↦ absurd (ground (arith, gone))
        | inr (chunk, here) ↦ record {
          chunk = chunk;
          content = here;
          response_is = ground (arith, here);
          same_id = ground (arith, here);
          same_scope = ground (arith, here);
          same_attempt = ground (arith, here);
          same_artifact = ground (arith, here);
          same_object = ground (arith, here);
          same_created = ground (arith, here);
          replay_ref = ground (arith, here);
          replay_offset = ground (arith, here);
          replay_size = ground (arith, here);
          replay_response = ground (arith, here);
          final_is = ground (arith, here);
          expiry_is = ground (arith, here);
        }
      ]
