-- ===== src/Tests/ReadTests.antt =====
-- internal/capability/read.go on one artifact of four bytes, read in chunks.
use mathlib.Core.Path.{subst}
use tappet.Capability.Types.{Record, Artifact, context}
use tappet.Capability.Snapshot.{
  SnapshotStore, ArtifactLease, default_store_limits, read_range, range_end,
}
use tappet.Capability.Registry.{Registry, RegistryGeneration, empty_registry}
use tappet.Capability.Limits.{default_read_lease_limits}
use tappet.Capability.Read.{
  ReadRequest, ReadResponse, ReadLease, ReadLeaseStore, World, sweep_locked, close, attempt_fields,
  prepare_locked, chunk_response, ReadError, sweep_entries, decimal,
}
use tappet.Capability.Read.Parts.{Broker, Codec, parse_read_handle}
use tappet.Capability.Read.Initial.{new_lease}
use tappet.Capability.Read.Service.{read, read_continuation, continue_lease, next_chunk}
use tappet.Capability.Read.Chunk.{IsPrepared, prepare_locked-eq-ok}
use tappet.Capability.Read.Accounting.{IsAccounted, close-IsAccounted, key_of}
use tappet.Capability.Read.Opening.{IsSmall}
use tappet.Capability.Read.Requests.{HasSmallArtifacts, read-IsAccounted}
use tappet.Capability.Read.Replays.{read_continuation-again}
use tappet.Capability.Read.Transfer.{Transfer, last, more, Transfer-content, prepared_progress}
use tappet.Capability.Read.Keys.{IsBounded, attempt_fields_inj}
use tappet.Prelude.{
  ℕ, ◌≤◌, ◌<◌, ◌≡◌, refl, false, none, some, [], ◌∷◌, ◌++◌, arith, length, drop, get_elem?, Bytes,
  codes, bytes_eq, bytes_eq_iff, bytes_key, lookup, insert, delete, ok, err, Result, zero, suc, ◌^◌,
  sym, some_inj, ◌↔◌, has_prefix,
}

abbrev codec : Codec
codec = record {
  sha256 = λ b. b;
  hex = λ d. d;
  marshal = λ r. r.chunk;
  raw_url_decode = λ b. some b;
}

abbrev artifact : Artifact
artifact = record {
  ref = codes "artifact:v1:a";
  kind = context;
  id = codes "a";
  path = codes "a.txt";
  media_type = codes "text/plain";
  bytes = 4;
  sha256 = codes "d";
}

abbrev one_package : Record
one_package = record {
  metadata = record {
    id = codes "every.echo";
    name = codes "Echo";
    version = codes "1.0.0";
    description = codes "d";
    tags = [];
  };
  parent = codes "every";
  manifest_digest = [];
  skills = [];
  operations = [];
  context = artifact ∷ [];
  providers = [];
  artifacts = (codes "artifact:v1:a", artifact) ∷ [];
  snapshot = some (record { digests = (codes "a.txt", codes "d") ∷ []; released = false });
}

abbrev generation : RegistryGeneration
generation = record { id = 1; package_record = one_package; refs = 1; retired = false }

abbrev registry : Registry
registry = record empty_registry {
  generations = generation ∷ [];
  entries = (codes "every.echo", 0) ∷ [];
  next = 1;
}

abbrev stored : SnapshotStore
stored = record {
  limits = default_store_limits;
  staging_reserved = 0;
  snapshot_reserved = 0;
  snapshot_used = 4;
  objects = (codes "d", record { content = codes "abcd"; refs = 1 }) ∷ [];
}

abbrev reads : ReadLeaseStore
reads = record {
  limits = default_read_lease_limits;
  closed = false;
  reads = [];
  attempts = [];
  pinned_bytes = 0;
  replay_bytes = 0;
}

abbrev broker : Broker
broker = record { registry = registry; world = record { store = reads; snapshots = stored } }

abbrev request : ReadRequest
request = record {
  capability_id = codes "every.echo";
  ref = codes "artifact:v1:a";
  attempt_id = codes "read:0123456789012345678901";
  offset = 0;
  max_bytes = 3;
}

empty-IsAccounted : IsAccounted reads
unfolding lookup
empty-IsAccounted = record {
  unique = tt;
  unique_attempts = tt;
  pinned = refl;
  reserved = refl;
  attempt_of = λ id k h. ground arith;
  lease_of = λ k id h. ground arith;
  count_fits = omega arith;
  pinned_fits = omega arith;
  reserved_fits = omega arith;
}

within_range : IsSmall reads.limits
within_range = record { pinned = omega arith; replay = omega arith }

only_artifact :
    (ref : Bytes) (x : Artifact) → lookup ref one_package.artifacts ≡ some x → x.bytes < 2 ^ 62
unfolding lookup
only_artifact ref x h = ground arith

small_at :
    (a : ℕ) (g : RegistryGeneration) (ref : Bytes) (x : Artifact)
    → get_elem? registry.generations a ≡ some g
    → lookup ref g.package_record.artifacts ≡ some x
    → x.bytes < 2 ^ 62
small_at zero g ref x here found = only_artifact ref x (
    subst (λ (h : RegistryGeneration). lookup ref h.package_record.artifacts ≡ some x)
      (sym (some_inj generation g here)) found)
small_at (suc a) g ref x here found = cc

small_artifacts : HasSmallArtifacts codec registry
small_artifacts = record { small = small_at }

read-IsAccounted_example :
    IsAccounted
      (read codec 1 2 3
        (some (codes "0123456789abcdef") ∷ [])
        (codes "scope")
        request
        broker).1.world.store
read-IsAccounted_example =
    read-IsAccounted codec 1 2 3 (some (codes "0123456789abcdef") ∷ []) (codes "scope") request
      broker within_range small_artifacts empty-IsAccounted

-- A lease with its first chunk, and with its second and last.
abbrev object : ArtifactLease
object = record { digest = codes "d"; released = false }

abbrev handle : Bytes
handle = codes "0123456789abcdef"

abbrev new_one : ReadLease
new_one =
    new_lease codec 2 (codes "scope") (codes "k") handle artifact object default_read_lease_limits

abbrev no_response : ReadResponse
no_response = new_one.replay.response

abbrev prepared : ℕ → ReadLease → Bytes → ℕ → ℕ → ReadLease × ReadResponse
prepared now l ref offset size =
    elim (prepare_locked codec.marshal now default_read_lease_limits stored l ref offset size) [
      | ok p ↦ p
      | err e ↦ (l, no_response)
    ]

abbrev one : ReadLease × ReadResponse
one = prepared 3 new_one (codes "artifact:v1:a") 0 3

abbrev next_ref : Bytes
next_ref = codes "read:v1:0123456789abcdef"

abbrev two : ReadLease × ReadResponse
two = prepared 11 one.0 next_ref 3 3

one-IsPrepared :
    IsPrepared 3 default_read_lease_limits stored new_one (codes "artifact:v1:a") 0 3 one.0 one.1
unfolding prepare_locked read_range range_end lookup bytes_eq chunk_response
one-IsPrepared =
    prepare_locked-eq-ok codec.marshal 3 default_read_lease_limits stored new_one
      (codes "artifact:v1:a") 0 3 one.0 one.1 refl

two-IsPrepared : IsPrepared 11 default_read_lease_limits stored one.0 next_ref 3 3 two.0 two.1
unfolding prepare_locked read_range range_end lookup bytes_eq chunk_response
two-IsPrepared =
    prepare_locked-eq-ok codec.marshal 11 default_read_lease_limits stored one.0 next_ref 3 3 two.0
      two.1 refl

transfer : Transfer default_read_lease_limits stored new_one 0 (one.1.chunk ++ two.1.chunk)
unfolding prepare_locked read_range range_end lookup bytes_eq chunk_response
transfer =
    more 3 (codes "artifact:v1:a") 0 3 one.1 two.1.chunk (omega arith) one-IsPrepared refl
      (last 11 next_ref 3 3 two.1 (omega arith) two-IsPrepared refl)

Transfer-content_example : one.1.chunk ++ two.1.chunk ≡ drop 0 (codes "abcd")
Transfer-content_example =
    Transfer-content default_read_lease_limits stored new_one 0 (one.1.chunk ++ two.1.chunk)
      (record { content = codes "abcd"; refs = 1 }) transfer (unfold lookup bytes_eq in refl) refl

prepared_progress_example :
    (0 < one.1.next_offset) × (one.1.next_offset ≤ artifact.bytes) × (length one.1.chunk ≤ 3)
prepared_progress_example =
    prepared_progress 3 default_read_lease_limits stored new_one one.0 (codes "artifact:v1:a") 0 3
      one.1 (record { content = codes "abcd"; refs = 1 }) one-IsPrepared (omega arith)
      (unfold lookup bytes_eq in refl) refl (omega arith) (omega arith)

-- The store with that lease.
abbrev held : ReadLeaseStore
held = record reads {
  reads = (handle, one.0) ∷ [];
  attempts = (codes "k", handle) ∷ [];
  pinned_bytes = 4;
  replay_bytes = 131072;
}

single :
    (h key : Bytes) (l : ReadLease) (j k : Bytes)
    → l.attempt_key ≡ key
    → (key_of (lookup j ((h, l) ∷ [])) ≡ some k) ↔ (lookup k ((key, h) ∷ []) ≡ some j)
unfolding lookup
single h key l j k own = ground (arith, own, bytes_eq_iff h j, bytes_eq_iff key k)

held-IsAccounted : IsAccounted held
unfolding lookup prepare_locked read_range range_end bytes_eq chunk_response
held-IsAccounted = record {
  unique = (refl, tt);
  unique_attempts = (refl, tt);
  pinned = refl;
  reserved = refl;
  attempt_of = λ j k h. (single handle (codes "k") one.0 j k refl).0 h;
  lease_of = λ k j h. (single handle (codes "k") one.0 j k refl).1 h;
  count_fits = omega arith;
  pinned_fits = omega arith;
  reserved_fits = omega arith;
}

abbrev held_world : World
held_world = record { store = held; snapshots = stored }

close-IsAccounted_example :
    IsAccounted (close held_world).store
    × ((j : Bytes) → lookup j (close held_world).store.reads ≡ none)
    × ((k : Bytes) → lookup k (close held_world).store.attempts ≡ none)
    × ((close held_world).store.pinned_bytes ≡ 0)
    × ((close held_world).store.replay_bytes ≡ 0)
close-IsAccounted_example = close-IsAccounted held_world refl held-IsAccounted

abbrev next_request : ReadRequest
next_request = record {
  capability_id = [];
  ref = next_ref;
  attempt_id = [];
  offset = 3;
  max_bytes = 3;
}

abbrev continued : Result ReadError ReadResponse × World
continued = read_continuation codec 10 11 (codes "scope") next_request held_world

read_continuation-again_example :
    read_continuation codec 20 21 (codes "scope") next_request continued.1
    ≡ (ok two.1, sweep_locked 20 continued.1)
unfolding read_continuation parse_read_handle has_prefix sweep_locked sweep_entries continue_lease
    next_chunk prepare_locked read_range range_end lookup insert delete bytes_eq chunk_response
read_continuation-again_example =
    read_continuation-again codec 10 11 20 21 (codes "scope") handle next_request two.1 two.0
      held_world continued.1 held-IsAccounted refl refl refl (omega arith)

bounded : IsBounded (codes "scope") request
unfolding attempt_fields decimal
bounded = record {
  short =
      (omega arith, (omega arith, (omega arith, (omega arith, (omega arith, (omega arith, tt))))));
  offset = omega arith;
  size = omega arith;
}

attempt_fields_inj_example : (codes "scope" ≡ codes "scope") × (request ≡ request)
attempt_fields_inj_example =
    attempt_fields_inj (codes "scope") (codes "scope") request request bounded bounded refl
