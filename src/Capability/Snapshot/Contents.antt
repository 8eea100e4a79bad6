-- ===== src/Capability/Snapshot/Contents.antt =====
-- What internal/capability/snapshot.go stores: staged bytes are exactly the declared ones, and a
-- committed snapshot reads back bytes of the digest that was staged.
use tappet.Capability.Snapshot.Holders.{commit-eq-ok}
use tappet.Prelude.{
  ℕ, ◌+◌, ◌≤◌, ◌≡◌, refl, sym, Bool, true, false, none, some, [], ◌∷◌, arith, Bytes, bytes_eq_iff,
  lookup, insert, lookup-insert, bytes_key, length, take, ok, Map, Unique, total, total-insert,
  insert-Unique, length-take, Option-cases, inl, inr, take_all, ◌∙◌,
}
use tappet.Capability.Snapshot.{
  Digest, SnapshotObject, SnapshotStore, StagingTransaction, StagedArtifact, Snapshot, commit,
  stage_reserved, stage_copied, read, digests_of, retain, retain_all,
}
use tappet.Capability.Snapshot.Objects.{staged_size}

abbrev has {ℓ} : {V : Type ℓ} → Bytes → Map Bytes V → Bool
has k m = elim (lookup k m) [ none ↦ false | some _ ↦ true ]

retain-has :
    (d : Digest) (a : StagedArtifact) (s : SnapshotStore)
    → has d s.objects ≡ true
    → has d (retain a s).objects ≡ true
unfolding retain
retain-has d a s h = grind (arith, lookup-insert, bytes_eq_iff a.digest d)

retain-has_self :
    (a : StagedArtifact) (s : SnapshotStore) → has a.digest (retain a s).objects ≡ true
unfolding retain
retain-has_self a s = grind (arith, lookup-insert, bytes_eq_iff a.digest a.digest)

retain_all-has :
    (m : Map Bytes StagedArtifact) (d : Digest) (s : SnapshotStore)
    → has d s.objects ≡ true
    → has d (retain_all m s).objects ≡ true
unfolding retain_all
retain_all-has [] d s h = h
retain_all-has ((_, a) ∷ m) d s h = retain_all-has m d (retain a s) (retain-has d a s h)

retain_all-has_staged :
    (m : Map Bytes StagedArtifact) (name : Bytes) (a : StagedArtifact) (s : SnapshotStore)
    → lookup name m ≡ some a
    → has a.digest (retain_all m s).objects ≡ true
unfolding retain_all lookup
retain_all-has_staged [] name a s e = ground arith
retain_all-has_staged ((j, b) ∷ m) name a s e = ground (
  arith,
  retain_all-has_staged m name a (retain b s),
  retain_all-has m b.digest (retain b s),
  retain-has_self b s,
)

lookup-digests_of :
    (m : Map Bytes StagedArtifact) (name : Bytes)
    → lookup name (digests_of m) ≡ elim (lookup name m) [ none ↦ none | some a ↦ some a.digest ]
unfolding lookup
lookup-digests_of [] name = refl
lookup-digests_of ((j, b) ∷ m) name = ground (arith, lookup-digests_of m name)

module _ (sha256 : Bytes → Digest) where
  -- Each object stands under the digest of its content.
  pub record IsHashed (objects : Map Digest SnapshotObject) : Type 0 where
    pub at : (d : Digest) (o : SnapshotObject) → lookup d objects ≡ some o → sha256 o.content ≡ d

  -- Each staged artifact carries the digest of its bytes, and stands under one name.
  pub record IsStaged (m : Map Bytes StagedArtifact) : Type 0 where
    pub unique : Unique m
    pub at :
        (name : Bytes) (a : StagedArtifact) → lookup name m ≡ some a → sha256 a.content ≡ a.digest

  pub stage_reserved-eq-ok :
      (name bytes : Bytes) (declared maximum : ℕ) (t t' : StagingTransaction)
      → stage_reserved sha256 name (some bytes) declared maximum t ≡ ok t'
      → (t' ≡ record t {
        artifacts =
            insert name
              (record {
                content = take (declared + 1) bytes;
                digest = sha256 (take (declared + 1) bytes);
              })
              t.artifacts;
      })
        × (lookup name t.artifacts ≡ none)
        × (length (take (declared + 1) bytes) ≡ declared)
        × (declared ≤ maximum)
  unfolding stage_reserved stage_copied
  stage_reserved-eq-ok name bytes declared maximum t t' e = ground arith

  -- A staging that succeeds stores exactly the declared bytes under a new name with their
  -- digest, within the maximum, and leaves every staged artifact with the digest of its bytes.
  pub stage_reserved-IsStaged :
      (name bytes : Bytes) (declared maximum : ℕ) (t t' : StagingTransaction)
      → IsStaged t.artifacts
      → stage_reserved sha256 name (some bytes) declared maximum t ≡ ok t'
      → IsStaged t'.artifacts
        × (total staged_size t'.artifacts ≡ declared + total staged_size t.artifacts)
        × (declared ≤ maximum)
        × (length bytes ≡ declared)
        × (lookup name t.artifacts ≡ none)
        × (lookup name t'.artifacts ≡ some (record { content = bytes; digest = sha256 bytes }))
  stage_reserved-IsStaged name bytes declared maximum t t' staged e =
      let (state, fresh, exact, fits) = stage_reserved-eq-ok name bytes declared maximum t t' e in
      let size : length bytes ≡ declared = omega (arith, length-take (declared + 1) bytes) in
      let whole : take (declared + 1) bytes ≡ bytes = take_all (declared + 1) bytes (omega arith) in
      let a : StagedArtifact = record { content = bytes; digest = sha256 bytes } in
      let grown = total-insert staged_size name a t.artifacts staged.unique in
      (
        rw (state, whole)
            (record {
              unique = insert-Unique name a t.artifacts staged.unique;
              at = λ j b p. grind (arith, staged.at j, lookup-insert);
            }),
        rw (state, whole) (ground (arith, grown)),
        fits,
        size,
        fresh,
        rw (state, whole)
            (ground (arith, lookup-insert name name a t.artifacts, bytes_eq_iff name name)),
      )

  retain-IsHashed :
      (a : StagedArtifact) (s : SnapshotStore)
      → sha256 a.content ≡ a.digest
      → IsHashed s.objects
      → IsHashed (retain a s).objects
  unfolding retain
  retain-IsHashed a s e h = record {
    at = λ d o p. grind (arith, h.at d, lookup-insert, bytes_eq_iff a.digest d);
  }

  pub retain_all-IsHashed :
      (m : Map Bytes StagedArtifact) (s : SnapshotStore)
      → IsStaged m
      → IsHashed s.objects
      → IsHashed (retain_all m s).objects
  unfolding retain_all lookup
  retain_all-IsHashed [] s staged h = h
  retain_all-IsHashed ((j, a) ∷ m) s staged h =
      retain_all-IsHashed m (retain a s)
        (record {
          unique = staged.unique.1;
          at = λ name b p. staged.at name b (ground (arith, staged.unique.0, bytes_eq_iff j name));
        })
        (retain-IsHashed a s (staged.at j a (ground (arith, bytes_eq_iff j j))) h)

  -- After a commit that succeeds, the snapshot reads, under each staged name, bytes whose digest
  -- is the digest that was staged under it, and every object of the store still stands under its
  -- own digest.
  pub read-commit :
      (t : StagingTransaction) (s : SnapshotStore) (snap : Snapshot) (name : Bytes)
      (a : StagedArtifact)
      → IsStaged t.artifacts
      → IsHashed s.objects
      → (commit t s).0 ≡ ok snap
      → lookup name t.artifacts ≡ some a
      → (c : Bytes) × (read name snap (commit t s).2 ≡ some c)
        × (sha256 c ≡ sha256 a.content)
        × IsHashed (commit t s).2.objects
  unfolding read
  read-commit t s snap name a staged h e named =
      let (digests, state) = commit-eq-ok t s snap e in
      let hashed = retain_all-IsHashed t.artifacts s staged h in
      let present = retain_all-has_staged t.artifacts name a s named in
      let listed : lookup name snap.digests ≡ some a.digest =
        ground (arith, lookup-digests_of t.artifacts name) in
      elim (Option-cases (lookup a.digest (retain_all t.artifacts s).objects)) [
        | inl missing ↦ absurd (ground arith)
        | inr (o, found) ↦ (
          o.content,
          rw state (ground arith),
          hashed.at a.digest o found ∙ sym (staged.at name a named),
          rw state (record { at = hashed.at }),
        )
      ]
