-- ===== src/Capability/Snapshot/Holders.antt =====
-- Who keeps an object of internal/capability/snapshot.go alive: snapshots and artifact leases. An
-- object has one reference for each holder, and is freed with the last of them.
use tappet.Prelude.{
  ℕ, ◌+◌, ◌-◌, ◌<◌, ◌≡◌, refl, false, some, List, [], ◌∷◌, arith, if◌then◌else◌, Bytes, bytes_eq,
  bytes_eq_iff, lookup, lookup-insert, lookup-delete, values, bytes_key, length, ok, Option-cases,
  inl, inr, insert,
}
use tappet.Capability.Snapshot.{
  Digest, SnapshotObject, SnapshotStore, StagingTransaction, Snapshot, ArtifactLease, commit,
  release, release_lease, acquire_artifact, read_range, digests_of, retain_all, drop_refs, drop_ref,
  return_reservation,
}
use tappet.Capability.Snapshot.Objects.{
  Holds, count, retain_all-Holds, drop_refs-Holds, drop_ref-Holds,
}

pub commit-eq-ok :
    (t : StagingTransaction) (s : SnapshotStore) (snap : Snapshot)
    → (commit t s).0 ≡ ok snap
    → (snap.digests ≡ digests_of t.artifacts)
      × ((commit t s).2 ≡ return_reservation t.reserved (retain_all t.artifacts s))
unfolding commit
commit-eq-ok t s snap e = ground arith

-- A commit that succeeds lists the digest of each staged name, and adds one holder to a digest
-- for each name staged with it.
pub commit-Holds :
    (t : StagingTransaction) (s : SnapshotStore) (h : Digest → ℕ) (snap : Snapshot)
    → Holds h s
    → (commit t s).0 ≡ ok snap
    → (snap.digests ≡ digests_of t.artifacts)
      × Holds (λ d. h d + count d (values snap.digests)) (commit t s).2
commit-Holds t s h snap holds e =
    let (digests, state) = commit-eq-ok t s snap e in
    let kept =
      retain_all-Holds t.artifacts s h (λ d. h d + count d (values (digests_of t.artifacts)))
        (λ d. refl) holds in
    (digests, rw (digests, state) (record { refs = kept.refs; live = kept.live }))

-- The first release of a snapshot takes its holders away, one for each name, and each later one
-- changes nothing.
pub release-Holds :
    (snap : Snapshot) (s : SnapshotStore) (h h' : Digest → ℕ)
    → snap.released ≡ false
    → ((d : Digest) → h d ≡ count d (values snap.digests) + h' d)
    → Holds h s
    → let (snap', s') = release snap s in Holds h' s' × (release snap' s' ≡ (snap', s'))
unfolding release
release-Holds snap s h h' first split holds =
    rw first (drop_refs-Holds (values snap.digests) s h h' split holds, refl)

-- The first release of an artifact lease takes one holder of its digest away, and each later one
-- changes nothing.
pub release_lease-Holds :
    (lease : ArtifactLease) (s : SnapshotStore) (h h' : Digest → ℕ)
    → lease.released ≡ false
    → ((d : Digest) → h d ≡ (if bytes_eq lease.digest d then 1 else 0) + h' d)
    → Holds h s
    → let (lease', s') = release_lease lease s in
      Holds h' s' × (release_lease lease' s' ≡ (lease', s'))
unfolding release_lease
release_lease-Holds lease s h h' first split holds =
    rw first (drop_ref-Holds lease.digest s h h' split holds, refl)

drop_ref_keeps :
    (x d : Digest) (s : SnapshotStore) (o : SnapshotObject)
    → lookup d s.objects ≡ some o
    → (if bytes_eq x d then 1 else 0) < o.refs
    → lookup d (drop_ref x s).objects
      ≡ some (record o { refs = o.refs - (if bytes_eq x d then 1 else 0) })
unfolding drop_ref
drop_ref_keeps x d s o e more = grind (arith, lookup-insert, lookup-delete, bytes_eq_iff x d)

-- An object with more references than are dropped keeps its content.
drop_refs_keeps :
    (ds : List Digest) (d : Digest) (s : SnapshotStore) (o : SnapshotObject)
    → lookup d s.objects ≡ some o
    → count d ds < o.refs
    → lookup d (drop_refs ds s).objects ≡ some (record o { refs = o.refs - count d ds })
unfolding drop_refs
drop_refs_keeps [] d s o e more = ground (arith)
drop_refs_keeps (x ∷ ds) d s o e more =
    let one : ℕ = if bytes_eq x d then 1 else 0 in
    let step = drop_ref_keeps x d s o e (omega arith) in
    let rest =
      drop_refs_keeps ds d (drop_ref x s) (record o { refs = o.refs - one }) step (omega arith) in
    ground (arith, rest)

-- Where the object of an artifact lease has more references than the names that a snapshot gives
-- its digest, releasing the snapshot leaves what the lease reads.
pub read_range-release :
    (snap : Snapshot) (s : SnapshotStore) (lease : ArtifactLease) (o : SnapshotObject)
    (offset max_bytes : ℕ)
    → lookup lease.digest s.objects ≡ some o
    → count lease.digest (values snap.digests) < o.refs
    → read_range offset max_bytes lease (release snap s).1 ≡ read_range offset max_bytes lease s
unfolding read_range release
read_range-release snap s lease o offset max_bytes held more =
    ground (arith, drop_refs_keeps (values snap.digests) lease.digest s o held more)

module _ (hex : Digest → Bytes) where
  pub acquire_artifact-eq-some :
      (name : Bytes) (size : ℕ) (sha : Bytes) (snap : Snapshot) (s : SnapshotStore)
      (lease : ArtifactLease) (s' : SnapshotStore)
      → acquire_artifact hex name size sha snap s ≡ some (lease, s')
      → (o : SnapshotObject) × (lookup name snap.digests ≡ some lease.digest)
        × (lookup lease.digest s.objects ≡ some o)
        × (length o.content ≡ size)
        × (hex lease.digest ≡ sha)
        × (s'
            ≡ record s { objects = insert lease.digest (record o { refs = o.refs + 1 }) s.objects })
        × (lease.released ≡ false)
  unfolding acquire_artifact
  acquire_artifact-eq-some name size sha snap s lease s' e =
      elim (Option-cases (lookup name snap.digests)) [
        | inl missing ↦ absurd (ground arith)
        | inr (d, named) ↦ elim (Option-cases (lookup d s.objects)) [
          | inl gone ↦ absurd (ground arith)
          | inr (o, held) ↦ (
            o,
            ground (arith, bytes_eq_iff (hex d) sha),
            ground (arith, bytes_eq_iff (hex d) sha),
            ground (arith, bytes_eq_iff (hex d) sha),
            ground (arith, bytes_eq_iff (hex d) sha),
            ground (arith, bytes_eq_iff (hex d) sha),
            ground (arith, bytes_eq_iff (hex d) sha),
          )
        ]
      ]

  -- Acquiring an artifact adds one holder to the digest of the name, and succeeds only where the
  -- digest is the one that the caller expects.
  pub acquire_artifact-Holds :
      (name : Bytes) (size : ℕ) (sha : Bytes) (snap : Snapshot) (s : SnapshotStore) (h : Digest → ℕ)
      (lease : ArtifactLease) (s' : SnapshotStore)
      → Holds h s
      → acquire_artifact hex name size sha snap s ≡ some (lease, s')
      → Holds (λ d. h d + (if bytes_eq lease.digest d then 1 else 0)) s'
        × (lookup name snap.digests ≡ some lease.digest)
        × (hex lease.digest ≡ sha)
  acquire_artifact-Holds name size sha snap s h lease s' holds e =
      let (o, named, held, _, digest, state, _) =
        acquire_artifact-eq-some name size sha snap s lease s' e in
      (
        rw state (record {
          refs = λ d. grind (arith, holds.refs d, lookup-insert, bytes_eq_iff lease.digest d);
          live = λ d x p. grind (arith, holds.live d, lookup-insert, bytes_eq_iff lease.digest d);
        }),
        named,
        digest,
      )
