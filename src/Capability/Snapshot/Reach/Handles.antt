-- ===== src/Capability/Snapshot/Reach/Handles.antt =====
-- What a handle of internal/capability/snapshot.go holds before and after its release, and the digests that stay true.
use tappet.Prelude.{
  ℕ, ◌+◌, ◌≡◌, ◌∙◌, refl, sym, false, some, List, [], ◌∷◌, arith, if◌then◌else◌, Bytes, bytes_eq,
  bytes_key, bytes_eq_iff, lookup-insert, lookup-delete, values, ok, set, get_elem?, sum_by,
  sum_by-set, weight, over, inl, inr, Bool-cases,
}
use mathlib.Core.Path.{subst}
use tappet.Capability.Snapshot.{
  Digest, SnapshotStore, StagingTransaction, Snapshot, ArtifactLease, commit, release,
  release_lease, acquire_artifact, drop_refs, drop_ref,
}
use tappet.Capability.Snapshot.Objects.{Holds, count}
use tappet.Capability.Snapshot.Holders.{
  release-Holds, release_lease-Holds, acquire_artifact-eq-some,
}
use tappet.Capability.Snapshot.Contents.{IsHashed}
use tappet.Capability.Snapshot.Reach.{held_by_snapshot, held_by_lease}

pub Holds-same :
    (s s' : SnapshotStore) (h h' : Digest → ℕ)
    → s'.objects ≡ s.objects
    → ((d : Digest) → h' d ≡ h d)
    → Holds h s
    → Holds h' s'
Holds-same s s' h h' e same holds = record {
  refs = λ d. rw e (holds.refs d ∙ sym (same d));
  live = λ d o p. holds.live d o (rw⁻¹ e p);
}

-- A handle in its place, with what it and what stands there next hold.
pub set_holders {ℓ} :
    {A : Type ℓ} (f : A → ℕ) (xs : List A) (i : ℕ) (x y : A)
    → get_elem? xs i ≡ some x
    → sum_by f xs + f y ≡ f x + sum_by f (set xs i y)
set_holders f xs i x y here =
    let both : sum_by f (set xs i y) + f x ≡ sum_by f xs + f y =
      subst (λ o. sum_by f (set xs i y) + weight f o ≡ sum_by f xs + weight f (over y o)) here
        (sum_by-set f xs i y) in
    omega (arith, both)

pub commit-fresh :
    (t : StagingTransaction) (s : SnapshotStore) (snap : Snapshot) (d : Digest)
    → (commit t s).0 ≡ ok snap
    → held_by_snapshot d snap ≡ count d (values snap.digests)
unfolding commit
commit-fresh t s snap d e = let fresh : snap.released ≡ false = ground arith in rw fresh refl

pub release-drops :
    (snap : Snapshot) (s : SnapshotStore) (h h' : Digest → ℕ)
    → ((d : Digest) → h d ≡ held_by_snapshot d snap + h' d)
    → Holds h s
    → Holds h' (release snap s).1
unfolding release
release-drops snap s h h' split holds = elim (Bool-cases snap.released) [
  | inl again ↦
      let same : (d : Digest) → h' d ≡ h d = λ d. ground (arith, split d) in
      rw again (Holds-same s s h h' refl same holds)
  | inr first ↦
      let mine : (d : Digest) → h d ≡ count d (values snap.digests) + h' d =
        λ d. ground (arith, split d) in
      (release-Holds snap s h h' first mine holds).0
]

pub release_lease-drops :
    (lease : ArtifactLease) (s : SnapshotStore) (h h' : Digest → ℕ)
    → ((d : Digest) → h d ≡ held_by_lease d lease + h' d)
    → Holds h s
    → Holds h' (release_lease lease s).1
unfolding release_lease
release_lease-drops lease s h h' split holds = elim (Bool-cases lease.released) [
  | inl again ↦
      let same : (d : Digest) → h' d ≡ h d = λ d. ground (arith, split d) in
      rw again (Holds-same s s h h' refl same holds)
  | inr first ↦
      let mine : (d : Digest) → h d ≡ (if bytes_eq lease.digest d then 1 else 0) + h' d =
        λ d. ground (arith, split d) in
      (release_lease-Holds lease s h h' first mine holds).0
]

pub release-gone :
    (snap : Snapshot) (s : SnapshotStore) (d : Digest) → held_by_snapshot d (release snap s).0 ≡ 0
unfolding release
release-gone snap s d = ground arith

pub release_lease-gone :
    (lease : ArtifactLease) (s : SnapshotStore) (d : Digest)
    → held_by_lease d (release_lease lease s).0 ≡ 0
unfolding release_lease
release_lease-gone lease s d = ground arith

module _ (sha256 : Bytes → Digest) (hex : Digest → Bytes) where
  pub drop_ref-IsHashed :
      (d : Digest) (s : SnapshotStore)
      → IsHashed sha256 s.objects
      → IsHashed sha256 (drop_ref d s).objects
  unfolding drop_ref
  drop_ref-IsHashed x s h = record {
    at = λ d o p. grind (arith, h.at d, lookup-insert, lookup-delete, bytes_eq_iff x d);
  }

  pub drop_refs-IsHashed :
      (ds : List Digest) (s : SnapshotStore)
      → IsHashed sha256 s.objects
      → IsHashed sha256 (drop_refs ds s).objects
  unfolding drop_refs
  drop_refs-IsHashed [] s h = h
  drop_refs-IsHashed (d ∷ ds) s h = drop_refs-IsHashed ds (drop_ref d s) (drop_ref-IsHashed d s h)

  pub release-IsHashed :
      (snap : Snapshot) (s : SnapshotStore)
      → IsHashed sha256 s.objects
      → IsHashed sha256 (release snap s).1.objects
  unfolding release
  release-IsHashed snap s h = elim (Bool-cases snap.released) [
    | inl again ↦ rw again (record { at = h.at })
    | inr first ↦ rw first (record { at = (drop_refs-IsHashed (values snap.digests) s h).at })
  ]

  pub release_lease-IsHashed :
      (lease : ArtifactLease) (s : SnapshotStore)
      → IsHashed sha256 s.objects
      → IsHashed sha256 (release_lease lease s).1.objects
  unfolding release_lease
  release_lease-IsHashed lease s h = elim (Bool-cases lease.released) [
    | inl again ↦ rw again (record { at = h.at })
    | inr first ↦ rw first (record { at = (drop_ref-IsHashed lease.digest s h).at })
  ]

  pub acquire_artifact-fresh :
      (name : Bytes) (size : ℕ) (sha : Bytes) (snap : Snapshot) (lease : ArtifactLease)
      (s s' : SnapshotStore)
      → acquire_artifact hex name size sha snap s ≡ some (lease, s')
      → (d : Digest) → held_by_lease d lease ≡ (if bytes_eq lease.digest d then 1 else 0)
  acquire_artifact-fresh name size sha snap lease s s' e d =
      let (_, _, _, _, _, _, fresh) =
        acquire_artifact-eq-some hex name size sha snap s lease s' e in
      rw fresh refl
