-- ===== src/Tests/SnapshotTests.antt =====
-- internal/capability/snapshot.go on one package of two files with the same bytes.
use tappet.Prelude.{
  set, ℕ, length, ◌+◌, ◌-◌, ◌≤◌, ◌≡◌, refl, true, false, none, some, [], ◌∷◌, arith, Bytes, codes,
  lookup, insert, delete, total, ok, err, gt64, bytes_eq, bytes_key,
}
use tappet.Capability.Snapshot.{
  new_snapshot_store, drop_refs, drop_ref, range_end, Digest, SnapshotStore, StagingTransaction,
  StagedArtifact, Snapshot, ArtifactLease, default_store_limits, begin, reserve, abort, commit,
  stage_reserved, read, release, read_range, acquire_artifact, digests_of, transaction_closed,
  new_bytes, retain, retain_all, package_artifact_max,
}
use tappet.Capability.Snapshot.Objects.{staged_size}
use tappet.Capability.Snapshot.Accounting.{
  IsAccounted, reserve-IsAccounted, abort-IsAccounted, commit-IsAccounted, commit_closed,
}
use tappet.Capability.Snapshot.Reach.{World, Step, Reach, IsKept}
use tappet.Capability.Snapshot.Reach.Kept.{Reach-IsKept}
use tappet.Capability.Snapshot.Reach.Reads.{digest_of, bytes_in_range, Reach-read, Reach-read_range}
use tappet.Capability.Snapshot.Contents.{IsStaged, IsHashed, stage_reserved-IsStaged, read-commit}

-- A digest for tests: no two texts share it.
abbrev digest : Bytes → Digest
digest bytes = 7 ∷ bytes

abbrev store : SnapshotStore
store = record {
  limits = default_store_limits;
  staging_reserved = 0;
  snapshot_reserved = 0;
  snapshot_used = 0;
  objects = [];
}

store-IsAccounted : IsAccounted 0 store
store-IsAccounted = record {
  counted = record { unique = tt; used = refl };
  staging = refl;
  snapshot = refl;
  staging_fits = omega arith;
  snapshot_fits = omega arith;
  staging_small = omega arith;
  snapshot_small = omega arith;
}

abbrev opened : StagingTransaction
opened = record { reserved = 4; artifacts = []; closed = false; package_size = 4 }

abbrev reserved : SnapshotStore
reserved = record store { staging_reserved = 4; snapshot_reserved = 4 }

reserves : reserve 4 begin store ≡ ok (opened, reserved)
unfolding reserve begin gt64
reserves = refl

-- A size that makes the sums of the tests wrap passes them. The counters, exact here, are then past `int64`.
wraps :
    reserve 9223372036854775807 opened reserved
    ≡ ok (
      record opened { reserved = 9223372036854775811; package_size = 9223372036854775811 },
      record reserved {
        staging_reserved = 9223372036854775811;
        snapshot_reserved = 9223372036854775811;
      },
    )
unfolding reserve gt64
wraps = refl

reserve-IsAccounted_example :
    IsAccounted (0 + 4) reserved
    × (opened.reserved ≡ begin.reserved + 4)
    × (opened.package_size ≤ package_artifact_max)
unfolding begin
reserve-IsAccounted_example =
    reserve-IsAccounted 4 0 begin store opened reserved (omega arith) (omega arith)
      store-IsAccounted reserves

reserved-IsAccounted : IsAccounted 4 reserved
reserved-IsAccounted = reserve-IsAccounted_example.0

abort-IsAccounted_example :
    IsAccounted (4 - 4) (abort opened reserved).1
    × (abort (abort opened reserved).0 (abort opened reserved).1 ≡ abort opened reserved)
abort-IsAccounted_example =
    abort-IsAccounted 4 opened reserved refl (omega arith) reserved-IsAccounted

abbrev a_file : StagedArtifact
a_file = record { content = codes "hi"; digest = digest (codes "hi") }

abbrev one_staged : StagingTransaction
one_staged = record opened { artifacts = (codes "a", a_file) ∷ [] }

stages : stage_reserved digest (codes "a") (some (codes "hi")) 2 10 opened ≡ ok one_staged
unfolding stage_reserved lookup insert delete
stages = refl

stage_reserved-IsStaged_example :
    IsStaged digest one_staged.artifacts
    × (total staged_size one_staged.artifacts ≡ 2 + total staged_size opened.artifacts)
    × (2 ≤ 10)
    × (length (codes "hi") ≡ 2)
    × (lookup (codes "a") opened.artifacts ≡ none)
    × (lookup (codes "a") one_staged.artifacts
        ≡ some (record { content = codes "hi"; digest = digest (codes "hi") }))
stage_reserved-IsStaged_example =
    stage_reserved-IsStaged digest (codes "a") (codes "hi") 2 10 opened one_staged
      (record { unique = tt; at = λ name a h. unfold lookup in ground arith }) stages

abbrev staged : StagingTransaction
staged = record opened { artifacts = (codes "b", a_file) ∷ (codes "a", a_file) ∷ [] }

abbrev snap : Snapshot
snap = record { digests = digests_of staged.artifacts; released = false }

commit-IsAccounted_example :
    ((commit staged reserved).0 ≡ ok snap)
    × ((commit staged reserved).1.closed ≡ true)
    × IsAccounted (4 - 4) (commit staged reserved).2
commit-IsAccounted_example =
    commit-IsAccounted 4 staged reserved refl (omega arith) (omega arith) reserved-IsAccounted

two_files : IsStaged digest staged.artifacts
unfolding lookup bytes_eq
two_files = record { unique = (refl, (refl, tt)); at = λ name a h. ground arith }

read-commit_example :
    (c : Bytes) × (read (codes "b") snap (commit staged reserved).2 ≡ some c)
    × (digest c ≡ digest (codes "hi"))
    × IsHashed digest (commit staged reserved).2.objects
read-commit_example =
    read-commit digest staged reserved snap (codes "b") a_file two_files
      (record { at = λ d o h. unfold lookup in ground arith }) commit-IsAccounted_example.0
      (unfold lookup bytes_eq in refl)

abbrev kept : SnapshotStore
kept = (commit staged reserved).2

abbrev hex : Digest → Bytes
hex d = d

abbrev lease : ArtifactLease
lease = record { digest = digest (codes "hi"); released = false }

abbrev object : ℕ → SnapshotStore
object n = record store {
  snapshot_used = 2;
  objects = (digest (codes "hi"), record { content = codes "hi"; refs = n }) ∷ [];
}

acquires :
    acquire_artifact hex (codes "a") 2 (digest (codes "hi")) snap kept ≡ some (lease, object 3)
unfolding acquire_artifact commit retain_all retain lookup bytes_eq insert delete new_bytes gt64
acquires = refl

opens : new_snapshot_store default_store_limits ≡ ok store
unfolding new_snapshot_store
opens = refl

-- Two names of one object, and a lease on it.
abbrev leased : World
leased = record { store = object 3; snapshots = snap ∷ []; leases = lease ∷ [] }

reaches_leased : Reach digest hex default_store_limits leased
reaches_leased =
    let made = Reach.next (Reach.new opens) (Step.reserved 4 begin reserves) in
    let filled = Reach.next made (Step.committed staged two_files commit-IsAccounted_example.0) in
    Reach.next filled (Step.acquired 0 (codes "a") 2 (digest (codes "hi")) refl acquires)

-- The snapshot is released before the lease.
abbrev unnamed : World
unnamed = record {
  store = (release snap leased.store).1;
  snapshots = set leased.snapshots 0 (release snap leased.store).0;
  leases = lease ∷ [];
}

reaches_unnamed : Reach digest hex default_store_limits unnamed
reaches_unnamed = Reach.next reaches_leased (Step.released 0 refl)

Reach-IsKept_example : IsKept digest hex unnamed
Reach-IsKept_example = Reach-IsKept digest hex default_store_limits unnamed reaches_unnamed

Reach-read_example :
    digest_of digest (read (codes "b") snap leased.store) ≡ lookup (codes "b") snap.digests
Reach-read_example =
    Reach-read digest hex default_store_limits leased 0 snap reaches_leased refl refl (codes "b")

Reach-read_range_example :
    (c : Bytes) × (digest c ≡ lease.digest)
    × ((offset max_bytes : ℕ)
        → read_range offset max_bytes lease unnamed.store ≡ bytes_in_range offset max_bytes c)
Reach-read_range_example =
    Reach-read_range digest hex default_store_limits unnamed 0 lease reaches_unnamed refl refl

reads_the_tail : read_range 1 5 lease unnamed.store ≡ some (codes "i")
unfolding read_range release drop_refs drop_ref lookup bytes_eq insert delete range_end
reads_the_tail = refl

commit_closed_example :
    commit (commit staged reserved).1 kept
    ≡ (err transaction_closed, (commit staged reserved).1, kept)
commit_closed_example = commit_closed (commit staged reserved).1 kept commit-IsAccounted_example.1
