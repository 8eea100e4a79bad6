-- ===== src/Capability/Snapshot/Reach/Reads.antt =====
-- What the handles of internal/capability/snapshot.go read in every state that is reached: the map
-- that the commit fixed and the artifact that was acquired, until the handle itself is released.
use mathlib.Core.Path.{subst}
use tappet.Prelude.{
  zero, suc, ltb, leb, ℕ, ◌+◌, ◌-◌, ◌≤◌, ◌<◌, ◌≡◌, false, Option, none, some, List, [], ◌∷◌, arith,
  if◌then◌else◌, Bytes, bytes_key, bytes_eq_iff, lookup, values, get_elem?, sum_by, take, drop,
  length, inl, inr, Option-cases, weight, Map, length-drop, take_all,
}
use tappet.Capability.Snapshot.{
  Digest, StoreLimits, SnapshotObject, Snapshot, ArtifactLease, read, read_range, range_end,
}
use tappet.Capability.Snapshot.Objects.{count}
use tappet.Capability.Snapshot.Reach.{
  World, holders, held_by_snapshot, held_by_lease, Reach, IsKept,
}
use tappet.Capability.Snapshot.Reach.Kept.{Reach-IsKept}

-- What stands in a list counts in its sum.
counted {ℓ} :
    {A : Type ℓ} (f : A → ℕ) (xs : List A) (i : ℕ) (x : A)
    → get_elem? xs i ≡ some x
    → f x ≤ sum_by f xs
counted f [] i x e = absurd cc
counted f (y ∷ xs) zero x e = ground (arith, e)
counted f (y ∷ xs) (suc i) x e = omega (arith, counted f xs i x e)

named_once :
    (m : Map Bytes Digest) (name : Bytes) (d : Digest)
    → lookup name m ≡ some d
    → 0 < count d (values m)
unfolding lookup
named_once [] name d e = absurd cc
named_once ((j, x) ∷ m) name d e = ground (arith, named_once m name d, bytes_eq_iff x d)

-- `Option.map sha256` of what is read.
abbrev pub digest_of : (Bytes → Digest) → Option Bytes → Option Digest
digest_of sha256 none = none
digest_of sha256 (some c) = some (sha256 c)

-- The bytes of a range: its end as an offset of 63 bits, or none.
abbrev pub bytes_in_range : ℕ → ℕ → Bytes → Option Bytes
bytes_in_range offset max_bytes c =
    if ltb (length c) offset
    then none
    else if leb 9223372036854775808 (offset + max_bytes)
    then some (drop offset c)
    else some (take max_bytes (drop offset c))

range_end_slice :
    (offset max_bytes : ℕ) (c : Bytes)
    → offset ≤ length c
    → take (range_end offset max_bytes (length c) - offset) (drop offset c) ≡ (
        if leb 9223372036854775808 (offset + max_bytes)
        then drop offset c
        else take max_bytes (drop offset c))
unfolding range_end
range_end_slice offset max_bytes c within =
    let size = length-drop offset c in
    let rest : take (length c - offset) (drop offset c) ≡ drop offset c =
      take_all (length c - offset) (drop offset c) (omega (arith, size)) in
    let long : length c ≤ offset + max_bytes → take max_bytes (drop offset c) ≡ drop offset c =
      λ past. take_all max_bytes (drop offset c) (omega (arith, size, past)) in
    let short : offset + max_bytes - offset ≡ max_bytes = omega arith in
    ground (arith, rest, long, short)

module _ (sha256 : Bytes → Digest) (hex : Digest → Bytes) where
  held_object :
      (w : World) (d : Digest)
      → IsKept sha256 hex w
      → 0 < holders w d
      → (o : SnapshotObject) × (lookup d w.store.objects ≡ some o) × (sha256 o.content ≡ d)
  held_object w d k held = elim (Option-cases (lookup d w.store.objects)) [
    | inl gone ↦ absurd (
        omega (
          arith,
          subst (λ o. weight (λ (x : SnapshotObject). x.refs) o ≡ holders w d) gone
              (k.holds.refs d),
        ))
    | inr (o, found) ↦ (o, found, k.hashed.at d o found)
  ]

  -- In every state that is reached, an unreleased snapshot reads, under each name, bytes of the
  -- digest that its commit fixed for the name, and nothing under any other name.
  pub Reach-read :
      (limits : StoreLimits) (w : World) (i : ℕ) (snap : Snapshot)
      → Reach sha256 hex limits w
      → get_elem? w.snapshots i ≡ some snap
      → snap.released ≡ false
      → (name : Bytes) → digest_of sha256 (read name snap w.store) ≡ lookup name snap.digests
  unfolding read
  Reach-read limits w i snap r here open_handle name =
      elim (Option-cases (lookup name snap.digests)) [
        | inl missing ↦ ground (arith, missing)
        | inr (d, named) ↦
            let k = Reach-IsKept sha256 hex limits w r in
            let mine = named_once snap.digests name d named in
            let among = counted (held_by_snapshot d) w.snapshots i snap here in
            let (o, found, content) =
              held_object w d k (ground (arith, mine, among, open_handle)) in
            ground (arith, named, found, content)
      ]

  -- In every state that is reached, an unreleased artifact lease has bytes of its digest, the
  -- same for each range: a range reads the bytes from its offset on, as many as were asked for
  -- or up to the last, all of them where the end of the range is past the largest offset, and
  -- nothing where the offset is past the last byte.
  pub Reach-read_range :
      (limits : StoreLimits) (w : World) (i : ℕ) (lease : ArtifactLease)
      → Reach sha256 hex limits w
      → get_elem? w.leases i ≡ some lease
      → lease.released ≡ false
      → (c : Bytes) × (sha256 c ≡ lease.digest)
        × ((offset max_bytes : ℕ)
            → read_range offset max_bytes lease w.store ≡ bytes_in_range offset max_bytes c)
  unfolding read_range
  Reach-read_range limits w i lease r here open_handle =
      let k = Reach-IsKept sha256 hex limits w r in
      let among = counted (held_by_lease lease.digest) w.leases i lease here in
      let (o, found, content) =
        held_object w lease.digest k
          (ground (arith, among, open_handle, bytes_eq_iff lease.digest lease.digest)) in
      (
        o.content,
        content,
        λ offset max_bytes. ground (arith, found, range_end_slice offset max_bytes o.content),
      )
