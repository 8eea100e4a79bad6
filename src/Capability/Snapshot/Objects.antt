-- ===== src/Capability/Snapshot/Objects.antt =====
-- The object table of internal/capability/snapshot.go under `retain` and `drop_ref`: its bytes are
-- counted, and an object has one reference for each holder.
use tappet.Prelude.{
  ℕ, ◌+◌, ◌≤◌, ◌<◌, ◌≡◌, refl, some, List, [], ◌∷◌, arith, ◌==◌, if◌then◌else◌, Bytes, bytes_eq,
  bytes_eq_iff, Map, lookup, values, total, weight, Unique, Option-cases, inl, inr, lookup-insert,
  lookup-delete, insert-Unique, delete-Unique, total-insert, total-delete, length, bytes_key,
  Bool-cases,
}
use tappet.Capability.Snapshot.{
  Digest, SnapshotObject, SnapshotStore, StagedArtifact, retain, retain_all, drop_ref, drop_refs,
  new_bytes, digests_of,
}

abbrev pub size_of : SnapshotObject → ℕ
size_of o = length o.content

abbrev pub staged_size : StagedArtifact → ℕ
staged_size a = length a.content

-- The table holds each digest once, and `snapshot_used` is the sum of its sizes.
pub record IsCounted (s : SnapshotStore) : Type 0 where
  pub unique : Unique s.objects
  pub used : s.snapshot_used ≡ total size_of s.objects

abbrev refs_at : SnapshotStore → Digest → ℕ
refs_at s d = weight (λ (o : SnapshotObject). o.refs) (lookup d s.objects)

-- `holders d` references to `d`, and no object without one.
pub record Holds (holders : Digest → ℕ) (s : SnapshotStore) : Type 0 where
  pub refs : (d : Digest) → refs_at s d ≡ holders d
  pub live : (d : Digest) (o : SnapshotObject) → lookup d s.objects ≡ some o → 0 < o.refs

-- How often `d` stands in a list of digests.
abbrev pub count : Digest → List Digest → ℕ
count d [] = 0
count d (x ∷ xs) = (if bytes_eq x d then 1 else 0) + count d xs

retain-Unique :
    (a : StagedArtifact) (s : SnapshotStore) → Unique s.objects → Unique (retain a s).objects
unfolding retain
retain-Unique a s u = elim (Option-cases (lookup a.digest s.objects)) [
  | inl new ↦ rw (new, retain) (insert-Unique a.digest _ s.objects u)
  | inr (o, old) ↦ rw (old, retain) (insert-Unique a.digest _ s.objects u)
]

pub retain-IsCounted :
    (a : StagedArtifact) (s : SnapshotStore) → IsCounted s → IsCounted (retain a s)
unfolding retain
retain-IsCounted a s c =
    let add = λ (o : SnapshotObject). total-insert size_of a.digest o s.objects c.unique in
    record { unique = retain-Unique a s c.unique; used = grind (arith, c.used, add) }

pub retain-Holds :
    (a : StagedArtifact) (s : SnapshotStore) (h h' : Digest → ℕ)
    → ((d : Digest) → h' d ≡ h d + (if bytes_eq a.digest d then 1 else 0))
    → Holds h s
    → Holds h' (retain a s)
unfolding retain
retain-Holds a s h h' e c = record {
  refs = λ d. grind (arith, e d, c.refs d, lookup-insert, bytes_eq_iff a.digest d);
  live = λ d o p. grind (arith, c.live d, lookup-insert, bytes_eq_iff a.digest d);
}

drop_ref-Unique :
    (d : Digest) (s : SnapshotStore) → Unique s.objects → Unique (drop_ref d s).objects
unfolding drop_ref
drop_ref-Unique d s u = elim (Option-cases (lookup d s.objects)) [
  | inl new ↦ rw (new, drop_ref) u
  | inr (o, old) ↦
      rw (old, drop_ref)
        (elim (Bool-cases (o.refs == 1)) [
          | inl last ↦ rw last (delete-Unique d s.objects u)
          | inr more ↦ rw more (insert-Unique d _ s.objects u)
        ])
]

pub drop_ref-IsCounted : (d : Digest) (s : SnapshotStore) → IsCounted s → IsCounted (drop_ref d s)
unfolding drop_ref
drop_ref-IsCounted d s c =
    let add = λ (o : SnapshotObject). total-insert size_of d o s.objects c.unique in
    record {
      unique = drop_ref-Unique d s c.unique;
      used = grind (arith, c.used, add, total-delete size_of d s.objects c.unique);
    }

pub drop_ref-Holds :
    (x : Digest) (s : SnapshotStore) (h h' : Digest → ℕ)
    → ((d : Digest) → h d ≡ (if bytes_eq x d then 1 else 0) + h' d)
    → Holds h s
    → Holds h' (drop_ref x s)
unfolding drop_ref
drop_ref-Holds x s h h' e c = record {
  refs = λ d. grind (arith, e d, c.refs d, lookup-insert, lookup-delete, bytes_eq_iff x d);
  live = λ d o p. grind (arith, c.live d, c.live x, lookup-insert, lookup-delete, bytes_eq_iff x d);
}

-- The frame: limits and reservations do not change.
pub retain_all-frame :
    (m : Map Bytes StagedArtifact) (s : SnapshotStore)
    → ((retain_all m s).limits ≡ s.limits)
      × ((retain_all m s).staging_reserved ≡ s.staging_reserved)
      × ((retain_all m s).snapshot_reserved ≡ s.snapshot_reserved)
unfolding retain_all retain
retain_all-frame [] s = (refl, refl, refl)
retain_all-frame ((_, a) ∷ m) s = ground (arith, retain_all-frame m (retain a s))

pub drop_refs-frame :
    (ds : List Digest) (s : SnapshotStore)
    → ((drop_refs ds s).limits ≡ s.limits)
      × ((drop_refs ds s).staging_reserved ≡ s.staging_reserved)
      × ((drop_refs ds s).snapshot_reserved ≡ s.snapshot_reserved)
unfolding drop_refs drop_ref
drop_refs-frame [] s = (refl, refl, refl)
drop_refs-frame (d ∷ ds) s = ground (arith, drop_refs-frame ds (drop_ref d s))

pub retain_all-IsCounted :
    (m : Map Bytes StagedArtifact) (s : SnapshotStore) → IsCounted s → IsCounted (retain_all m s)
unfolding retain_all
retain_all-IsCounted [] s c = c
retain_all-IsCounted ((_, a) ∷ m) s c = retain_all-IsCounted m (retain a s) (retain-IsCounted a s c)

pub drop_refs-IsCounted :
    (ds : List Digest) (s : SnapshotStore) → IsCounted s → IsCounted (drop_refs ds s)
unfolding drop_refs
drop_refs-IsCounted [] s c = c
drop_refs-IsCounted (d ∷ ds) s c = drop_refs-IsCounted ds (drop_ref d s) (drop_ref-IsCounted d s c)

pub retain_all-Holds :
    (m : Map Bytes StagedArtifact) (s : SnapshotStore) (h h' : Digest → ℕ)
    → ((d : Digest) → h' d ≡ h d + count d (values (digests_of m)))
    → Holds h s
    → Holds h' (retain_all m s)
unfolding retain_all
retain_all-Holds [] s h h' e c = record { refs = λ d. omega (arith, e d, c.refs d); live = c.live }
retain_all-Holds ((_, a) ∷ m) s h h' e c =
    retain_all-Holds m (retain a s) (λ d. h d + (if bytes_eq a.digest d then 1 else 0)) h'
      (λ d. ground (arith, e d)) (retain-Holds a s h _ (λ d. refl) c)

pub drop_refs-Holds :
    (ds : List Digest) (s : SnapshotStore) (h h' : Digest → ℕ)
    → ((d : Digest) → h d ≡ count d ds + h' d)
    → Holds h s
    → Holds h' (drop_refs ds s)
unfolding drop_refs
drop_refs-Holds [] s h h' e c = record { refs = λ d. omega (arith, e d, c.refs d); live = c.live }
drop_refs-Holds (x ∷ ds) s h h' e c =
    drop_refs-Holds ds (drop_ref x s) (λ d. count d ds + h' d) h' (λ d. refl)
      (drop_ref-Holds x s h _ (λ d. ground (arith, e d)) c)

-- The bytes that `retain_all` adds are at most those that `new_bytes` counted before it, and those
-- at most the staged ones.
new_bytes-retain-le :
    (a : StagedArtifact) (s : SnapshotStore) (m : Map Bytes StagedArtifact)
    → new_bytes (retain a s).objects m ≤ new_bytes s.objects m
unfolding new_bytes retain
new_bytes-retain-le a s [] = omega arith
new_bytes-retain-le a s ((_, b) ∷ m) =
    grind (arith, new_bytes-retain-le a s m, lookup-insert, bytes_eq_iff a.digest b.digest)

pub retain_all-used-le :
    (m : Map Bytes StagedArtifact) (s : SnapshotStore)
    → (retain_all m s).snapshot_used ≤ s.snapshot_used + new_bytes s.objects m
unfolding retain_all new_bytes retain
retain_all-used-le [] s = omega arith
retain_all-used-le ((_, a) ∷ m) s =
    ground (arith, retain_all-used-le m (retain a s), new_bytes-retain-le a s m)

pub new_bytes-le :
    (objects : Map Digest SnapshotObject) (m : Map Bytes StagedArtifact)
    → new_bytes objects m ≤ total staged_size m
unfolding new_bytes
new_bytes-le objects [] = omega arith
new_bytes-le objects ((_, a) ∷ m) = ground (arith, new_bytes-le objects m)
