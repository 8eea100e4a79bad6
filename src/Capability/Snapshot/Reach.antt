-- ===== src/Capability/Snapshot/Reach.antt =====
-- Every state that the calls on the store of internal/capability/snapshot.go lead to, in any order
-- and with the handles of every client: the snapshots and the artifact leases given out so far. The
-- mutex of the store makes each call one step.
pub mod Handles
pub mod Kept
pub mod Reads
use tappet.Prelude.{
  ℕ, ◌+◌, ◌≡◌, some, List, [], ◌∷◌, ◌++◌, if◌then◌else◌, Bytes, bytes_eq, bytes_key, values, ok,
  err, set, get_elem?, sum_by,
}
use tappet.Capability.Snapshot.{
  Digest, StoreLimits, SnapshotStore, StagingTransaction, Snapshot, ArtifactLease, StoreError,
  new_snapshot_store, reserve, abort, commit, release, release_lease, acquire_artifact,
}
use tappet.Capability.Snapshot.Objects.{Holds, count}
use tappet.Capability.Snapshot.Contents.{IsHashed, IsStaged}

-- The store and what was given out of it, oldest first.
pub record World : Type 0 where
  pub store : SnapshotStore
  pub snapshots : List Snapshot
  pub leases : List ArtifactLease

abbrev pub held_by_snapshot : Digest → Snapshot → ℕ
held_by_snapshot d snap = if snap.released then 0 else count d (values snap.digests)

abbrev pub held_by_lease : Digest → ArtifactLease → ℕ
held_by_lease d lease = if lease.released then 0 else (if bytes_eq lease.digest d then 1 else 0)

-- How many names of unreleased snapshots and unreleased leases stand for a digest.
abbrev pub holders : World → Digest → ℕ
holders w d = sum_by (held_by_snapshot d) w.snapshots + sum_by (held_by_lease d) w.leases

module _ (sha256 : Bytes → Digest) (hex : Digest → Bytes) where
  pub data Step : World → World → Type 0 where
    reserved :
        (size : ℕ) (t : StagingTransaction) {t' : StagingTransaction} {w : World}
        {s : SnapshotStore}
        → reserve size t w.store ≡ ok (t', s)
        → Step w (record w { store = s })
    aborted :
        (t : StagingTransaction) {w : World} → Step w (record w { store = (abort t w.store).1 })
    committed :
        (t : StagingTransaction) {snap : Snapshot} {w : World}
        → IsStaged sha256 t.artifacts
        → (commit t w.store).0 ≡ ok snap
        → Step w (record w { store = (commit t w.store).2; snapshots = w.snapshots ++ snap ∷ [] })
    refused :
        (t : StagingTransaction) {e : StoreError} {w : World}
        → (commit t w.store).0 ≡ err e
        → Step w (record w { store = (commit t w.store).2 })
    released :
        (i : ℕ) {snap : Snapshot} {w : World}
        → get_elem? w.snapshots i ≡ some snap
        → Step w (record w {
          store = (release snap w.store).1;
          snapshots = set w.snapshots i (release snap w.store).0;
        })
    acquired :
        (i : ℕ) (name : Bytes) (size : ℕ) (sha : Bytes) {snap : Snapshot} {lease : ArtifactLease}
        {s : SnapshotStore} {w : World}
        → get_elem? w.snapshots i ≡ some snap
        → acquire_artifact hex name size sha snap w.store ≡ some (lease, s)
        → Step w (record w { store = s; leases = w.leases ++ lease ∷ [] })
    lease_released :
        (i : ℕ) {lease : ArtifactLease} {w : World}
        → get_elem? w.leases i ≡ some lease
        → Step w (record w {
          store = (release_lease lease w.store).1;
          leases = set w.leases i (release_lease lease w.store).0;
        })

  pub data Reach (limits : StoreLimits) : World → Type 0 where
    new :
        {s : SnapshotStore}
        → new_snapshot_store limits ≡ ok s
        → Reach limits (record { store = s; snapshots = []; leases = [] })
    next : {w w' : World} → Reach limits w → Step w w' → Reach limits w'

  -- The count of references of each object, and that it stands under its digest.
  pub record IsKept (w : World) : Type 0 where
    pub holds : Holds (holders w) w.store
    pub hashed : IsHashed sha256 w.store.objects
