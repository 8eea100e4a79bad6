-- ===== src/Capability/Snapshot/Accounting.antt =====
-- The byte accounting of internal/capability/snapshot.go: what open transactions have reserved and
-- what the objects use stay within the limits, and the counters are exact.
use tappet.Prelude.{
  ℕ, ◌+◌, ◌-◌, ◌≤◌, ◌<◌, ◌^◌, ◌≡◌, refl, sym, false, arith, total, err, ok, gt64_small, gt64,
  bytes_key, ap, true,
}
use mathlib.Core.Path.{subst}
use tappet.Capability.Snapshot.{
  SnapshotStore, StagingTransaction, reserve, abort, commit, digests_of, retain_all,
  package_artifact_max, new_bytes, return_reservation, transaction_closed,
}
use tappet.Capability.Snapshot.Objects.{
  IsCounted, staged_size, retain_all-IsCounted, retain_all-frame, retain_all-used-le, new_bytes-le,
}

-- `pending` is what the open transactions have reserved together. The limits leave room for one
-- more package below 2 ^ 63.
pub record IsAccounted (pending : ℕ) (s : SnapshotStore) : Type 0 where
  pub counted : IsCounted s
  pub staging : s.staging_reserved ≡ pending
  pub snapshot : s.snapshot_reserved ≡ pending
  pub staging_fits : s.staging_reserved ≤ s.limits.staging_bytes
  pub snapshot_fits : s.snapshot_used + s.snapshot_reserved ≤ s.limits.snapshot_bytes
  pub staging_small : s.limits.staging_bytes < 2 ^ 62
  pub snapshot_small : s.limits.snapshot_bytes < 2 ^ 62

abbrev pub reserved_by : ℕ → SnapshotStore → SnapshotStore
reserved_by size s = record s {
  staging_reserved = s.staging_reserved + size;
  snapshot_reserved = s.snapshot_reserved + size;
}

abbrev pub reserving : ℕ → StagingTransaction → StagingTransaction
reserving size t = record t { reserved = t.reserved + size; package_size = t.package_size + size }

-- The store and the transaction of a reservation that succeeds, and the three tests that it passed.
pub reserve-eq-ok :
    (size : ℕ) (t : StagingTransaction) (s : SnapshotStore) (t' : StagingTransaction)
    (s' : SnapshotStore)
    → reserve size t s ≡ ok (t', s')
    → (t' ≡ reserving size t)
      × (s' ≡ reserved_by size s)
      × (gt64 (t.package_size + size) package_artifact_max ≡ false)
      × (gt64 (s.staging_reserved + size) s.limits.staging_bytes ≡ false)
      × (gt64 (s.snapshot_used + s.snapshot_reserved + size) s.limits.snapshot_bytes ≡ false)
unfolding reserve
reserve-eq-ok size t s t' s' e = ground arith

-- A reservation of fewer than 2 ^ 62 bytes that succeeds, for a package within its limit in an
-- accounted store, keeps the accounts with its size added to what is pending, adds the size to
-- the transaction, and keeps the package within its limit. (With a larger size the sums of the
-- tests can wrap as int64.)
pub reserve-IsAccounted :
    (size pending : ℕ) (t : StagingTransaction) (s : SnapshotStore) (t' : StagingTransaction)
    (s' : SnapshotStore)
    → size < 2 ^ 62
    → t.package_size ≤ package_artifact_max
    → IsAccounted pending s
    → reserve size t s ≡ ok (t', s')
    → IsAccounted (pending + size) s'
      × (t'.reserved ≡ t.reserved + size)
      × (t'.package_size ≤ package_artifact_max)
reserve-IsAccounted size pending t s t' s' small fits a e =
    let (et, es, fits_package, fits_staging, fits_snapshot) = reserve-eq-ok size t s t' s' e in
    let whole = gt64_small (t.package_size + size) package_artifact_max (omega arith) in
    let staging =
      gt64_small (s.staging_reserved + size) s.limits.staging_bytes (omega (arith, a)) in
    let snapshot =
      gt64_small (s.snapshot_used + s.snapshot_reserved + size) s.limits.snapshot_bytes
        (omega (arith, a)) in
    (
      subst (IsAccounted (pending + size)) (sym es) (record {
        counted = record { unique = a.counted.unique; used = a.counted.used };
        staging = omega (arith, a.staging);
        snapshot = omega (arith, a.snapshot);
        staging_fits = ground (arith, staging);
        snapshot_fits = ground (arith, snapshot);
        staging_small = a.staging_small;
        snapshot_small = a.snapshot_small;
      }),
      ap (λ (x : StagingTransaction). x.reserved) et,
      ground (arith, whole, ap (λ (x : StagingTransaction). x.package_size) et),
    )

returned-IsAccounted :
    (pending n : ℕ) (s : SnapshotStore)
    → n ≤ pending
    → IsAccounted pending s
    → IsAccounted (pending - n) (return_reservation n s)
returned-IsAccounted pending n s le a = record {
  counted = record { unique = a.counted.unique; used = a.counted.used };
  staging = omega (arith, a.staging);
  snapshot = omega (arith, a.snapshot);
  staging_fits = omega (arith, a);
  snapshot_fits = omega (arith, a);
  staging_small = a.staging_small;
  snapshot_small = a.snapshot_small;
}

-- An abort of an open transaction takes its reservation out of what is pending and keeps the
-- accounts, and a second one changes nothing.
pub abort-IsAccounted :
    (pending : ℕ) (t : StagingTransaction) (s : SnapshotStore)
    → t.closed ≡ false
    → t.reserved ≤ pending
    → IsAccounted pending s
    → let (t', s') = abort t s in IsAccounted (pending - t.reserved) s' × (abort t' s' ≡ (t', s'))
unfolding abort
abort-IsAccounted pending t s opened le a =
    rw opened (returned-IsAccounted pending t.reserved s le a, refl)

retained-IsAccounted :
    (pending : ℕ) (t : StagingTransaction) (s : SnapshotStore)
    → t.reserved ≤ pending
    → total staged_size t.artifacts ≤ t.reserved
    → IsAccounted pending s
    → IsAccounted (pending - t.reserved) (return_reservation t.reserved (retain_all t.artifacts s))
retained-IsAccounted pending t s le staged a =
    let r = retain_all t.artifacts s in
    let counted = retain_all-IsCounted t.artifacts s a.counted in
    let (limits, staging, snapshot) = retain_all-frame t.artifacts s in
    let grown = retain_all-used-le t.artifacts s in
    let bounded = new_bytes-le s.objects t.artifacts in
    record {
      counted = record { unique = counted.unique; used = counted.used };
      staging = omega (arith, a.staging, staging);
      snapshot = omega (arith, a.snapshot, snapshot);
      staging_fits = rw limits (omega (arith, a, staging));
      snapshot_fits = rw limits (omega (arith, a, snapshot));
      staging_small = rw limits a.staging_small;
      snapshot_small = rw limits a.snapshot_small;
    }

commit-eq :
    (t : StagingTransaction) (s : SnapshotStore)
    → t.closed ≡ false
    → gt64 (s.snapshot_used + new_bytes s.objects t.artifacts) s.limits.snapshot_bytes ≡ false
    → commit t s ≡ (
      ok (record { digests = digests_of t.artifacts; released = false }),
      record t { closed = true },
      return_reservation t.reserved (retain_all t.artifacts s),
    )
unfolding commit
commit-eq t s opened fits = rw (opened, fits)

-- A commit of an open transaction whose staged bytes fit its reservation always succeeds in an
-- accounted store, closes the transaction, and keeps the accounts with the reservation taken out
-- of what is pending.
pub commit-IsAccounted :
    (pending : ℕ) (t : StagingTransaction) (s : SnapshotStore)
    → t.closed ≡ false
    → t.reserved ≤ pending
    → total staged_size t.artifacts ≤ t.reserved
    → IsAccounted pending s
    → let (r, t', s') = commit t s in
      (r ≡ ok (record { digests = digests_of t.artifacts; released = false }))
      × (t'.closed ≡ true)
      × IsAccounted (pending - t.reserved) s'
commit-IsAccounted pending t s opened le staged a =
    let sum = s.snapshot_used + new_bytes s.objects t.artifacts in
    let bounded = new_bytes-le s.objects t.artifacts in
    let test = gt64_small sum s.limits.snapshot_bytes (omega (arith, a)) in
    let fits : gt64 sum s.limits.snapshot_bytes ≡ false = ground (arith, test, a) in
    rw (commit-eq t s opened fits) (refl, refl, retained-IsAccounted pending t s le staged a)

-- A second commit or a commit after an abort is refused and changes nothing.
pub commit_closed :
    (t : StagingTransaction) (s : SnapshotStore)
    → t.closed ≡ true
    → commit t s ≡ (err transaction_closed, t, s)
unfolding commit
commit_closed t s closed = rw closed
