-- ===== src/Capability/Read/Accounting.antt =====
-- The accounts of internal/capability/read.go: the pinned and reserved bytes are those of the open
-- leases, leases and attempts point at one another, and no limit is passed.
use tappet.Capability.Snapshot.{Digest}
use tappet.Capability.Limits.{read_replay_reservation}
use tappet.Capability.Read.{
  ReadLease, ReadLeaseStore, World, drop_locked, sweep_entries, sweep_locked, drop_entries, close,
}
use tappet.Prelude.{
  ℕ, ◌≤◌, ◌≡◌, refl, true, false, Bool-cases, inl, inr, Option, none, some, [], ◌∷◌, arith, leb,
  if◌then◌else◌, length, Bytes, bytes_eq_iff, bytes_key, Map, lookup, total, Unique, lookup-delete,
  delete-Unique, total-delete, length-delete-le, Option-cases, ◌∙◌,
}

abbrev pub pinned_by : ReadLease → ℕ
pinned_by l = l.artifact.bytes

abbrev pub reserved_by : ReadLease → ℕ
reserved_by l = read_replay_reservation

abbrev pub key_of : Option ReadLease → Option Digest
key_of none = none
key_of (some l) = some l.attempt_key

pub record IsAccounted (s : ReadLeaseStore) : Type 0 where
  pub unique : Unique s.reads
  pub unique_attempts : Unique s.attempts
  pub pinned : s.pinned_bytes ≡ total pinned_by s.reads
  pub reserved : s.replay_bytes ≡ total reserved_by s.reads
  pub attempt_of :
      (id : Bytes) (k : Digest)
      → key_of (lookup id s.reads) ≡ some k
      → lookup k s.attempts ≡ some id
  pub lease_of :
      (k : Digest) (id : Bytes)
      → lookup k s.attempts ≡ some id
      → key_of (lookup id s.reads) ≡ some k
  pub count_fits : length s.reads ≤ s.limits.max_count
  pub pinned_fits : s.pinned_bytes ≤ s.limits.max_pinned_bytes
  pub reserved_fits : s.replay_bytes ≤ s.limits.max_replay_bytes

-- Dropping a lease that is there.
drop_locked-IsAccounted :
    (id : Bytes) (lease : ReadLease) (w : World)
    → lookup id w.store.reads ≡ some lease
    → IsAccounted w.store
    → IsAccounted (drop_locked id lease w).store
unfolding drop_locked
drop_locked-IsAccounted id lease w here a =
    let pinned = total-delete pinned_by id w.store.reads a.unique in
    let reserved = total-delete reserved_by id w.store.reads a.unique in
    let mine = a.attempt_of id lease.attempt_key (ground arith) in
    record {
      unique = delete-Unique id w.store.reads a.unique;
      unique_attempts = delete-Unique lease.attempt_key w.store.attempts a.unique_attempts;
      pinned = ground (arith, a.pinned, pinned);
      reserved = ground (arith, a.reserved, reserved);
      attempt_of = λ j k h. ground (
        arith,
        a.attempt_of j k,
        mine,
        lookup-delete id j w.store.reads,
        lookup-delete lease.attempt_key k w.store.attempts,
        bytes_eq_iff id j,
        bytes_eq_iff lease.attempt_key k,
      );
      lease_of = λ k j h. ground (
        arith,
        a.lease_of k j,
        mine,
        lookup-delete id j w.store.reads,
        lookup-delete lease.attempt_key k w.store.attempts,
        bytes_eq_iff id j,
        bytes_eq_iff lease.attempt_key k,
      );
      count_fits = omega (arith, a.count_fits, length-delete-le id w.store.reads);
      pinned_fits = omega (arith, a.pinned_fits);
      reserved_fits = omega (arith, a.reserved_fits);
    }

-- A loop over leases that are all there when it begins.
abbrev Within : Map Bytes ReadLease → World → Type 0
Within m w = (id : Bytes) (l : ReadLease) → lookup id m ≡ some l → lookup id w.store.reads ≡ some l

drop_locked-Within :
    (id : Bytes) (lease : ReadLease) (m : Map Bytes ReadLease) (w : World)
    → Unique ((id, lease) ∷ m)
    → Within ((id, lease) ∷ m) w
    → Within m (drop_locked id lease w)
unfolding drop_locked
drop_locked-Within id lease m w u within j l h =
    unfold lookup in
    ground (arith, within j l, lookup-delete id j w.store.reads, bytes_eq_iff id j, u.0)

Within-head :
    (id : Bytes) (lease : ReadLease) (m : Map Bytes ReadLease) (w : World)
    → Within ((id, lease) ∷ m) w
    → lookup id w.store.reads ≡ some lease
Within-head id lease m w within =
    within id lease (unfold lookup in ground (arith, bytes_eq_iff id id))

Within-tail :
    (id : Bytes) (lease : ReadLease) (m : Map Bytes ReadLease) (w : World)
    → Unique ((id, lease) ∷ m)
    → Within ((id, lease) ∷ m) w
    → Within m w
Within-tail id lease m w u within j l h =
    within j l (unfold lookup in ground (arith, bytes_eq_iff id j, u.0))

sweep_entries-IsAccounted :
    (now : ℕ) (m : Map Bytes ReadLease) (w : World)
    → Unique m
    → Within m w
    → IsAccounted w.store
    → IsAccounted (sweep_entries now m w).store
unfolding sweep_entries
sweep_entries-IsAccounted now [] w u within a = a
sweep_entries-IsAccounted now ((id, lease) ∷ m) w u within a =
    elim (Bool-cases (leb lease.expires_at now)) [
      | inl expired ↦
          rw (expired, sweep_entries)
            (sweep_entries-IsAccounted now m (drop_locked id lease w) u.1
              (drop_locked-Within id lease m w u within)
              (drop_locked-IsAccounted id lease w (Within-head id lease m w within) a))
      | inr live ↦
          rw (live, sweep_entries)
            (sweep_entries-IsAccounted now m w u.1 (Within-tail id lease m w u within) a)
    ]

pub sweep-IsAccounted :
    (now : ℕ) (w : World) → IsAccounted w.store → IsAccounted (sweep_locked now w).store
unfolding sweep_locked
sweep-IsAccounted now w a = sweep_entries-IsAccounted now w.store.reads w a.unique (λ id l h. h) a

-- The sweep drops exactly the leases that have expired.
abbrev pub unexpired : ℕ → Option ReadLease → Option ReadLease
unexpired now none = none
unexpired now (some l) = if leb l.expires_at now then none else some l

sweep_entries-lookup :
    (now : ℕ) (m : Map Bytes ReadLease) (w : World) (j : Bytes)
    → Unique m
    → lookup j (sweep_entries now m w).store.reads ≡ elim (lookup j m) [
      | none ↦ lookup j w.store.reads
      | some l ↦ if leb l.expires_at now then none else lookup j w.store.reads
    ]
unfolding sweep_entries lookup
sweep_entries-lookup now [] w j u = refl
sweep_entries-lookup now ((id, lease) ∷ m) w j u =
    unfold drop_locked in
    ground (
      arith,
      sweep_entries-lookup now m w j,
      sweep_entries-lookup now m (drop_locked id lease w) j,
      lookup-delete id j w.store.reads,
      bytes_eq_iff id j,
      u.0,
    )

pub lookup-sweep :
    (now : ℕ) (w : World) (j : Bytes)
    → Unique w.store.reads
    → lookup j (sweep_locked now w).store.reads ≡ unexpired now (lookup j w.store.reads)
unfolding sweep_locked
lookup-sweep now w j u = ground (arith, sweep_entries-lookup now w.store.reads w j u)

-- The loop of `Close` empties the maps and the counters.
drop_entries-IsAccounted :
    (m : Map Bytes ReadLease) (w : World)
    → Unique m
    → Within m w
    → IsAccounted w.store
    → IsAccounted (drop_entries m w).store
unfolding drop_entries
drop_entries-IsAccounted [] w u within a = a
drop_entries-IsAccounted ((id, lease) ∷ m) w u within a =
    drop_entries-IsAccounted m (drop_locked id lease w) u.1
      (drop_locked-Within id lease m w u within)
      (drop_locked-IsAccounted id lease w (Within-head id lease m w within) a)

drop_entries-lookup :
    (m : Map Bytes ReadLease) (w : World) (j : Bytes)
    → lookup j (drop_entries m w).store.reads
      ≡ elim (lookup j m) [ none ↦ lookup j w.store.reads | some _ ↦ none ]
unfolding drop_entries lookup
drop_entries-lookup [] w j = refl
drop_entries-lookup ((id, lease) ∷ m) w j =
    unfold drop_locked in
    ground (
      arith,
      drop_entries-lookup m (drop_locked id lease w) j,
      lookup-delete id j w.store.reads,
      bytes_eq_iff id j,
    )

total_of_absent :
    (f : ReadLease → ℕ) (m : Map Bytes ReadLease)
    → ((j : Bytes) → lookup j m ≡ none)
    → total f m ≡ 0
unfolding lookup
total_of_absent f [] h = refl
total_of_absent f ((id, l) ∷ m) h = absurd (ground (arith, h id, bytes_eq_iff id id))

-- Closing an open read store drops every lease and every attempt, leaves no pinned or reserved
-- bytes, and keeps the accounts.
pub close-IsAccounted :
    (w : World)
    → w.store.closed ≡ false
    → IsAccounted w.store
    → IsAccounted (close w).store
      × ((id : Bytes) → lookup id (close w).store.reads ≡ none)
      × ((k : Digest) → lookup k (close w).store.attempts ≡ none)
      × ((close w).store.pinned_bytes ≡ 0)
      × ((close w).store.replay_bytes ≡ 0)
unfolding close
close-IsAccounted w first a =
    let shut : World = record w { store = record w.store { closed = true } } in
    let b : IsAccounted shut.store = record {
      unique = a.unique;
      unique_attempts = a.unique_attempts;
      pinned = a.pinned;
      reserved = a.reserved;
      attempt_of = a.attempt_of;
      lease_of = a.lease_of;
      count_fits = a.count_fits;
      pinned_fits = a.pinned_fits;
      reserved_fits = a.reserved_fits;
    } in
    let c = drop_entries-IsAccounted w.store.reads shut a.unique (λ id l h. h) b in
    let none_left = λ (j : Bytes). drop_entries-lookup w.store.reads shut j in
    let gone = λ (j : Bytes).
      (let e : lookup j (drop_entries w.store.reads shut).store.reads ≡ none =
          ground (arith, none_left j) in
        e) in
    simp first (
      c,
      gone,
      (λ k. elim (Option-cases (lookup k (drop_entries w.store.reads shut).store.attempts)) [
        | inl absent ↦ absent
        | inr (id, here) ↦ absurd (ground (arith, c.lease_of k id here, gone id))
      ]),
      c.pinned ∙ total_of_absent pinned_by _ gone,
      c.reserved ∙ total_of_absent reserved_by _ gone,
    )
