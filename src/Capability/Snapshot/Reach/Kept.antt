-- ===== src/Capability/Snapshot/Reach/Kept.antt =====
-- The references of internal/capability/snapshot.go in every state that is reached.
use tappet.Prelude.{
  ℕ, ◌≡◌, refl, some, [], ◌∷◌, ◌++◌, arith, Bytes, bytes_key, bytes_eq_iff, lookup, lookup-insert,
  values, ok, err, set, get_elem?, sum_by-append,
}
use tappet.Capability.Snapshot.{
  Digest, StoreLimits, SnapshotStore, StagingTransaction, Snapshot, ArtifactLease, StoreError,
  new_snapshot_store, reserve, abort, commit, release, release_lease, acquire_artifact,
}
use tappet.Capability.Snapshot.Objects.{count}
use tappet.Capability.Snapshot.Holders.{
  commit-eq-ok, commit-Holds, acquire_artifact-Holds, acquire_artifact-eq-some,
}
use tappet.Capability.Snapshot.Contents.{IsStaged, retain_all-IsHashed}
use tappet.Capability.Snapshot.Reach.{
  World, holders, held_by_snapshot, held_by_lease, Step, reserved, aborted, committed, refused,
  released, acquired, lease_released, Reach, new, next, IsKept,
}
use tappet.Capability.Snapshot.Reach.Handles.{
  Holds-same, set_holders, commit-fresh, release-drops, release_lease-drops, release-gone,
  release_lease-gone, release-IsHashed, release_lease-IsHashed, acquire_artifact-fresh,
}

module _ (sha256 : Bytes → Digest) (hex : Digest → Bytes) where
  new-IsKept :
      (limits : StoreLimits) (s : SnapshotStore)
      → new_snapshot_store limits ≡ ok s
      → IsKept sha256 hex (record { store = s; snapshots = []; leases = [] })
  unfolding new_snapshot_store
  new-IsKept limits s e =
      let empty : s.objects ≡ [] = ground arith in
      record {
        holds = record {
          refs = λ d. rw empty (unfold lookup in refl);
          live = λ d o p. absurd (unfold lookup in ground (arith, empty));
        };
        hashed = record { at = λ d o p. absurd (unfold lookup in ground (arith, empty)) };
      }

  committed-IsKept :
      (t : StagingTransaction) (snap : Snapshot) (w : World)
      → IsStaged sha256 t.artifacts
      → (commit t w.store).0 ≡ ok snap
      → IsKept sha256 hex w
      → IsKept sha256 hex
          (record w { store = (commit t w.store).2; snapshots = w.snapshots ++ snap ∷ [] })
  committed-IsKept t snap w staged e k =
      let (digests, state) = commit-eq-ok t w.store snap e in
      let added = commit-Holds t w.store (holders w) snap k.holds e in
      let open_handle : (d : Digest) → held_by_snapshot d snap ≡ count d (values snap.digests) =
        λ d. commit-fresh t w.store snap d e in
      let hashed = retain_all-IsHashed sha256 t.artifacts w.store staged k.hashed in
      record {
        holds =
            Holds-same _ _ _ _ refl
              (λ d.
                omega (
                  arith,
                  sum_by-append (held_by_snapshot d) w.snapshots (snap ∷ []),
                  open_handle d,
                ))
              added.1;
        hashed = rw state (record { at = hashed.at });
      }

  commit-eq-err :
      (t : StagingTransaction) (s : SnapshotStore) (e : StoreError)
      → (commit t s).0 ≡ err e
      → (commit t s).2.objects ≡ s.objects
  unfolding commit
  commit-eq-err t s e h = ground arith

  reserve-objects :
      (size : ℕ) (t t' : StagingTransaction) (s s' : SnapshotStore)
      → reserve size t s ≡ ok (t', s')
      → s'.objects ≡ s.objects
  unfolding reserve
  reserve-objects size t t' s s' h = ground arith

  abort-objects : (t : StagingTransaction) (s : SnapshotStore) → (abort t s).1.objects ≡ s.objects
  unfolding abort
  abort-objects t s = ground arith

  released-IsKept :
      (i : ℕ) (snap : Snapshot) (w : World)
      → get_elem? w.snapshots i ≡ some snap
      → IsKept sha256 hex w
      → IsKept sha256 hex (record w {
        store = (release snap w.store).1;
        snapshots = set w.snapshots i (release snap w.store).0;
      })
  released-IsKept i snap w here k =
      let gone = release-gone snap w.store in
      let moved = λ (d : Digest).
        set_holders (held_by_snapshot d) w.snapshots i snap (release snap w.store).0 here in
      record {
        holds =
            release-drops snap w.store (holders w) _ (λ d. omega (arith, moved d, gone d)) k.holds;
        hashed = release-IsHashed sha256 hex snap w.store k.hashed;
      }

  lease_released-IsKept :
      (i : ℕ) (lease : ArtifactLease) (w : World)
      → get_elem? w.leases i ≡ some lease
      → IsKept sha256 hex w
      → IsKept sha256 hex (record w {
        store = (release_lease lease w.store).1;
        leases = set w.leases i (release_lease lease w.store).0;
      })
  lease_released-IsKept i lease w here k =
      let gone = release_lease-gone lease w.store in
      let moved = λ (d : Digest).
        set_holders (held_by_lease d) w.leases i lease (release_lease lease w.store).0 here in
      record {
        holds =
            release_lease-drops lease w.store (holders w) _ (λ d. omega (arith, moved d, gone d))
              k.holds;
        hashed = release_lease-IsHashed sha256 hex lease w.store k.hashed;
      }

  acquired-IsKept :
      (name : Bytes) (size : ℕ) (sha : Bytes) (snap : Snapshot) (lease : ArtifactLease)
      (s : SnapshotStore) (w : World)
      → acquire_artifact hex name size sha snap w.store ≡ some (lease, s)
      → IsKept sha256 hex w
      → IsKept sha256 hex (record w { store = s; leases = w.leases ++ lease ∷ [] })
  acquired-IsKept name size sha snap lease s w e k =
      let (o, named, held, _, _, state, _) =
        acquire_artifact-eq-some hex name size sha snap w.store lease s e in
      let added =
        acquire_artifact-Holds hex name size sha snap w.store (holders w) lease s k.holds e in
      let open_handle = acquire_artifact-fresh sha256 hex name size sha snap lease w.store s e in
      record {
        holds =
            Holds-same s s _ _ refl
              (λ d.
                omega (arith, sum_by-append (held_by_lease d) w.leases (lease ∷ []), open_handle d))
              added.0;
        hashed = record {
          at = λ d x p.
              grind (arith, k.hashed.at d, lookup-insert, bytes_eq_iff lease.digest d, state, held);
        };
      }

  same_objects-IsKept :
      (w : World) (s : SnapshotStore)
      → s.objects ≡ w.store.objects
      → IsKept sha256 hex w
      → IsKept sha256 hex (record w { store = s })
  same_objects-IsKept w s e k = record {
    holds = Holds-same w.store s _ _ e (λ d. refl) k.holds;
    hashed = rw e (record { at = k.hashed.at });
  }

  Step-IsKept : (w w' : World) → Step sha256 hex w w' → IsKept sha256 hex w → IsKept sha256 hex w'
  Step-IsKept w w' (reserved size t {t'} {s = s} e) k =
      same_objects-IsKept w s (reserve-objects size t t' w.store s e) k
  Step-IsKept w w' (aborted t) k =
      same_objects-IsKept w (abort t w.store).1 (abort-objects t w.store) k
  Step-IsKept w w' (committed t {snap} staged e) k = committed-IsKept t snap w staged e k
  Step-IsKept w w' (refused t {e = failure} e) k =
      same_objects-IsKept w (commit t w.store).2 (commit-eq-err t w.store failure e) k
  Step-IsKept w w' (released i {snap} here) k = released-IsKept i snap w here k
  Step-IsKept w w' (acquired i name size sha {snap} {lease} {s} here e) k =
      acquired-IsKept name size sha snap lease s w e k
  Step-IsKept w w' (lease_released i {lease} here) k = lease_released-IsKept i lease w here k

  -- In every state that is reached, an object has as many references as names of unreleased
  -- snapshots and unreleased leases stand for its digest, no object is without one, and each
  -- stands under the digest of its bytes.
  pub Reach-IsKept :
      (limits : StoreLimits) (w : World) → Reach sha256 hex limits w → IsKept sha256 hex w
  Reach-IsKept limits w (new {s} e) = new-IsKept limits s e
  Reach-IsKept limits w (next {w = v} r step) = Step-IsKept v w step (Reach-IsKept limits v r)
