-- ===== src/Capability/Describe/Accounting.antt =====
-- The accounts of `ProjectionStore` in internal/capability/describe.go: its bytes are those of its
-- entries, and no limit is passed.
use tappet.Capability.Limits.{ProjectionLimits}
use tappet.Capability.Describe.Store.{
  ProjectionEntry, ProjectionStore, expiry, drop_entry, sweep_entries, sweep_locked, close,
}
use tappet.Capability.Describe.Requests.{over_quota}
use tappet.Prelude.{
  ℕ, ◌+◌, ◌≤◌, ◌<◌, ◌^◌, ◌≡◌, refl, false, Bool-cases, inl, inr, none, some, [], ◌∷◌, arith, leb,
  length, Bytes, bytes_eq_iff, bytes_key, Map, lookup, insert, total, Unique, lookup-delete,
  insert-Unique, delete-Unique, total-insert, total-delete, length-delete-le, length-insert-le,
  length-insert_present, gt64_small,
}

abbrev pub size_of : ProjectionEntry → ℕ
size_of e = e.projection.bytes

pub record IsAccounted (s : ProjectionStore) : Type 0 where
  pub unique : Unique s.entries
  pub sum : s.bytes ≡ total size_of s.entries
  pub count_fits : length s.entries ≤ s.limits.max_count
  pub bytes_fit : s.bytes ≤ s.limits.max_bytes

pub drop_entry-IsAccounted :
    (id : Bytes) (e : ProjectionEntry) (s : ProjectionStore)
    → lookup id s.entries ≡ some e
    → IsAccounted s
    → IsAccounted (drop_entry id e s)
drop_entry-IsAccounted id e s here a = record {
  unique = delete-Unique id s.entries a.unique;
  sum = ground (arith, a.sum, here, total-delete size_of id s.entries a.unique);
  count_fits = omega (arith, a.count_fits, length-delete-le id s.entries);
  bytes_fit = omega (arith, a.bytes_fit);
}

-- A loop over entries that are all there when it begins.
abbrev Within : Map Bytes ProjectionEntry → ProjectionStore → Type 0
Within m s =
    (id : Bytes) (e : ProjectionEntry) → lookup id m ≡ some e → lookup id s.entries ≡ some e

sweep_entries-IsAccounted :
    (now : ℕ) (m : Map Bytes ProjectionEntry) (s : ProjectionStore)
    → Unique m
    → Within m s
    → IsAccounted s
    → IsAccounted (sweep_entries now m s)
unfolding sweep_entries
sweep_entries-IsAccounted now [] s u within a = a
sweep_entries-IsAccounted now ((id, e) ∷ m) s u within a =
    let here = within id e (unfold lookup in ground (arith, bytes_eq_iff id id)) in
    elim (Bool-cases (leb (expiry s.limits e) now)) [
      | inl expired ↦
          simp (expired, sweep_entries)
            (sweep_entries-IsAccounted now m (drop_entry id e s) u.1
              (λ j l h.
                unfold lookup in
                ground (arith, within j l, lookup-delete id j s.entries, bytes_eq_iff id j, u.0))
              (drop_entry-IsAccounted id e s here a))
      | inr live ↦
          simp (live, sweep_entries)
            (sweep_entries-IsAccounted now m s u.1
              (λ j l h. within j l (unfold lookup in ground (arith, bytes_eq_iff id j, u.0))) a)
    ]

pub sweep_projections-IsAccounted :
    (now : ℕ) (s : ProjectionStore) → IsAccounted s → IsAccounted (sweep_locked now s)
unfolding sweep_locked
sweep_projections-IsAccounted now s a =
    sweep_entries-IsAccounted now s.entries s a.unique (λ id e h. h) a

-- `Close` leaves nothing.
pub close_projections-IsAccounted :
    (s : ProjectionStore) → IsAccounted (close s) × ((close s).bytes ≡ 0)
unfolding close
close_projections-IsAccounted s =
    (record { unique = tt; sum = refl; count_fits = omega arith; bytes_fit = omega arith }, refl)

-- Limits and projections far below the range of `int64`.
pub record IsSmall (limits : ProjectionLimits) : Type 0 where
  pub max : limits.max_bytes < 2 ^ 62

-- A new entry under a new identifier, within the limits.
pub added-IsAccounted :
    (id : Bytes) (e : ProjectionEntry) (s : ProjectionStore)
    → lookup id s.entries ≡ none
    → over_quota e.projection s ≡ false
    → IsSmall s.limits
    → e.projection.bytes < 2 ^ 62
    → IsAccounted s
    → IsAccounted
        (record s { entries = insert id e s.entries; bytes = s.bytes + e.projection.bytes })
added-IsAccounted id e s new fits small size a = record {
  unique = insert-Unique id e s.entries a.unique;
  sum = ground (arith, a.sum, new, total-insert size_of id e s.entries a.unique);
  count_fits = ground (arith, a.count_fits, length-insert-le id e s.entries);
  bytes_fit =
      ground (
        arith,
        a.bytes_fit,
        small.max,
        gt64_small (s.bytes + e.projection.bytes) s.limits.max_bytes,
      );
}

-- A longer idle time for an entry that is there.
pub touched-IsAccounted :
    (id : Bytes) (e : ProjectionEntry) (idle : ℕ) (s : ProjectionStore)
    → lookup id s.entries ≡ some e
    → IsAccounted s
    → IsAccounted (record s { entries = insert id (record e { idle_until = idle }) s.entries })
touched-IsAccounted id e idle s here a =
    let e' : ProjectionEntry = record e { idle_until = idle } in
    record {
      unique = insert-Unique id e' s.entries a.unique;
      sum = ground (arith, a.sum, here, total-insert size_of id e' s.entries a.unique);
      count_fits = ground (arith, a.count_fits, length-insert_present id e' e s.entries here);
      bytes_fit = a.bytes_fit;
    }
