-- ===== src/Capability/Read/Transfer.antt =====
-- Reading an artifact of internal/capability/read.go chunk by chunk.
use tappet.Capability.Types.{Artifact}
use tappet.Capability.Snapshot.{SnapshotObject, SnapshotStore, ArtifactLease, read_range, range_end}
use tappet.Capability.Limits.{ReadLeaseLimits}
use tappet.Capability.Read.{ReadResponse, ReadLease, chunk_response}
use tappet.Capability.Read.Chunk.{IsPrepared}
use tappet.Prelude.{
  ℕ, ◌+◌, ◌-◌, ◌≤◌, ◌<◌, ◌^◌, ◌≡◌, sym, true, false, some, arith, length, ◌==◌, Bytes, bytes_key,
  lookup, take, drop, length-take, length-drop, drop-drop, ◌++◌, ◌∙◌, ap, take-append-drop-length,
  append-nil, drop_past,
}

-- A range that is read is a stretch of the content, not empty unless at its end.
pub record IsStretch (offset size : ℕ) (content chunk : Bytes) : Type 0 where
  pub cut : (n : ℕ) × (chunk ≡ take n (drop offset content))
  pub within : offset + length chunk ≤ length content
  pub goes_on : 0 < size → offset < length content → 0 < length chunk
  pub bounded : length chunk ≤ size

read_range-IsStretch :
    (offset size : ℕ) (lease : ArtifactLease) (s : SnapshotStore) (o : SnapshotObject)
    (chunk : Bytes)
    → offset + size < 2 ^ 63
    → lookup lease.digest s.objects ≡ some o
    → read_range offset size lease s ≡ some chunk
    → IsStretch offset size o.content chunk
unfolding read_range range_end
read_range-IsStretch offset size lease s o chunk small here h =
    let n = range_end offset size (length o.content) - offset in
    let rest = drop offset o.content in
    let e : chunk ≡ take n rest = ground (arith, here) in
    let fits : offset ≤ length o.content = ground (arith, here) in
    record {
      cut = (n, e);
      within = rw (e) ground (arith, fits, length-take n rest, length-drop offset o.content);
      goes_on = λ p q.
          rw (e) ground
            (arith, fits, p, q, small, length-take n rest, length-drop offset o.content);
      bounded =
          rw (e) ground (arith, fits, small, length-take n rest, length-drop offset o.content);
    }

-- The chunks of a lease, each asked for where the one before it ended, up to the last; the object
-- stays in the store, since the lease holds it.
pub data Transfer (limits : ReadLeaseLimits) (snapshots : SnapshotStore)
    : ReadLease → ℕ → Bytes → Type 0 where
  last :
      {lease lease' : ReadLease} (now : ℕ) (ref : Bytes) (offset size : ℕ) (response : ReadResponse)
      → offset + size < 2 ^ 63
      → IsPrepared now limits snapshots lease ref offset size lease' response
      → response.complete ≡ true
      → Transfer limits snapshots lease offset response.chunk
  more :
      {lease lease' : ReadLease} (now : ℕ) (ref : Bytes) (offset size : ℕ) (response : ReadResponse)
      (rest : Bytes)
      → offset + size < 2 ^ 63
      → IsPrepared now limits snapshots lease ref offset size lease' response
      → response.complete ≡ false
      → Transfer limits snapshots lease' response.next_offset rest
      → Transfer limits snapshots lease offset (response.chunk ++ rest)

-- A stretch and the content behind it.
stretch-append :
    (offset size : ℕ) (content chunk : Bytes)
    → IsStretch offset size content chunk
    → chunk ++ drop (offset + length chunk) content ≡ drop offset content
stretch-append offset size content chunk s =
    let (n, e) = s.cut in
    let rest = drop offset content in
    rw (e, sym (drop-drop (length (take n rest)) offset content)) (take-append-drop-length n rest)

-- The chunks of a lease, each asked for at the offset where the one before it ended, up to the
-- one marked complete, make up the object's bytes from the first offset on, when the object has
-- the size that the artifact declares.
pub Transfer-content :
    (limits : ReadLeaseLimits) (snapshots : SnapshotStore) (lease : ReadLease) (offset : ℕ)
    (got : Bytes) (o : SnapshotObject)
    → Transfer limits snapshots lease offset got
    → lookup lease.object.digest snapshots.objects ≡ some o
    → length o.content ≡ lease.artifact.bytes
    → got ≡ drop offset o.content
unfolding chunk_response
Transfer-content limits snapshots lease offset got o (last now ref _ size response small p done)
      here whole =
    let s =
      read_range-IsStretch offset size lease.object snapshots o p.chunk small here p.content in
    let its : response.chunk ≡ p.chunk = ap (λ (r : ReadResponse). r.chunk) p.response_is in
    let mark : response.complete ≡ (offset + length p.chunk == lease.artifact.bytes) =
      ap (λ (r : ReadResponse). r.complete) p.response_is in
    let ends : length o.content ≤ offset + length p.chunk = ground (arith, mark, done, whole) in
    rw
      (
        its,
        sym (stretch-append offset size o.content p.chunk s),
        drop_past (offset + length p.chunk) o.content ends,
      )
      (sym (append-nil p.chunk))
Transfer-content limits snapshots lease offset got o
      (more now ref _ size response rest small p going t) here whole =
    let s =
      read_range-IsStretch offset size lease.object snapshots o p.chunk small here p.content in
    let its : response.chunk ≡ p.chunk = ap (λ (r : ReadResponse). r.chunk) p.response_is in
    let next : response.next_offset ≡ offset + length p.chunk =
      ap (λ (r : ReadResponse). r.next_offset) p.response_is in
    let object = ap (λ (a : ArtifactLease). a.digest) p.same_object in
    let tail =
      Transfer-content limits snapshots _ response.next_offset rest o t (rw object here)
        (whole ∙ sym (ap (λ (a : Artifact). a.bytes) p.same_artifact)) in
    rw (its, tail, next) (stretch-append offset size o.content p.chunk s)

-- A chunk that is asked for before the end moves the offset forward, stays within the artifact
-- and is no longer than asked, when the object has the size that the artifact declares.
pub prepared_progress :
    (now : ℕ) (limits : ReadLeaseLimits) (snapshots : SnapshotStore) (lease lease' : ReadLease)
    (ref : Bytes) (offset size : ℕ) (response : ReadResponse) (o : SnapshotObject)
    → IsPrepared now limits snapshots lease ref offset size lease' response
    → offset + size < 2 ^ 63
    → lookup lease.object.digest snapshots.objects ≡ some o
    → length o.content ≡ lease.artifact.bytes
    → 0 < size
    → offset < lease.artifact.bytes
    → (offset < response.next_offset)
      × (response.next_offset ≤ lease.artifact.bytes)
      × (length response.chunk ≤ size)
unfolding chunk_response
prepared_progress now limits snapshots lease lease' ref offset size response o p small here whole
      positive before =
    let s =
      read_range-IsStretch offset size lease.object snapshots o p.chunk small here p.content in
    let its : response.chunk ≡ p.chunk = ap (λ (r : ReadResponse). r.chunk) p.response_is in
    let next : response.next_offset ≡ offset + length p.chunk =
      ap (λ (r : ReadResponse). r.next_offset) p.response_is in
    let some_bytes = s.goes_on positive (omega (arith, whole, before)) in
    (omega (arith, next, some_bytes), omega (arith, next, s.within, whole), rw (its) s.bounded)
