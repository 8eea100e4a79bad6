-- ===== src/Lib.antt =====
-- A verification library for tappet, a broker that serves capability packages to agents.
--
-- The program's core is the package internal/capability. A package is staged and committed to the
-- snapshot store (snapshot.go) by the loader (loader.go), published in the registry (registry.go), and served
-- by three services: reads of artifacts in chunks (read.go), paged descriptions (describe.go) and the catalog
-- (catalog.go) with its search (search.go). The services look packages up in the registry under leases, and reads hold objects of the snapshot store
-- through artifact leases. internal/server/backend.go prints the paths that the registry resolves.
--
-- The parts and their files:
--   Prelude: numbers' tests, lists, byte strings, maps, `int64` sums, results.
--   Capability/Snapshot: internal/capability/snapshot.go. `StagingTransaction` and `SnapshotStore` are
--     records; `reserve`, `stage_reserved`, `abort`, `commit`, `read`, `release`, `acquire_artifact`,
--     `read_range` and `release_lease` have the names of the source's methods. Children: Objects (reference
--     counts), Accounting (bytes and reservations), Holders (who keeps an object), Contents (what is read), Reach
--     (every state that calls lead to), with Handles and Kept (who holds what in it) and Reads (what the handles
--     read).
--   Capability/Types, Paths, Hierarchy, Identifiers, Limits: the data of types.go and record.go, the string
--     functions that are used, the hierarchy of registry.go, the patterns of manifest.go, and
--     service_limits.go.
--     Children of Hierarchy: Nodes (which capability a node names), Children (the edges).
--   Capability/Registry: internal/capability/registry.go. A generation is an index of a heap that only
--     grows, a lease an index of another; `reclaimed` lists the generations whose record was released.
--     Children: Resolve and ToolPaths (resolution), Refs, Moves, Leases (one call each), Reach (any calls), Current
--     (the hierarchy kept).
--   Capability/Browse: `browseLocked` and `Browse`.
--   Capability/Read: internal/capability/read.go, with Parts, Initial and Service (`Read` and its parts), Chunk, Accounting,
--     Opening, Requests, Replays, Transfer and Keys.
--   Capability/Describe: internal/capability/describe.go, with Store, Requests, Pages, Cursors, Walks (the tokens), Steps, Paging (page after page),
--     Accounting and Kept.
--   Capability/Catalog: internal/capability/catalog.go. Children: Answers (what a search found) and Walks (page after
--     page).
--   Capability/Search: internal/capability/search.go, with Matching, Ranking, Scores, Order and Top.
--   Capability/Yaml: internal/capability/yaml.go, the scan of a line and of a text, and the walk over the nodes that
--     the parser gives. Child: Bounds (what the walk accepts).
--   Capability/PackageLimits, PackagePaths: limits.go, and the paths inside a package, with Safe.
--   Capability/Manifest: the data of types.go and the readers of fields. Children: Items and Whole (`ParseManifest`),
--     Lists, Valid, Providers, Documents and Sound (what a manifest that is read keeps to).
--   Capability/Skills: internal/capability/skill.go.
--   Capability/PackageFiles, PackageRecords, Loader: internal/capability/loader.go, with newArtifact and sortRecord of record.go. A load
--     passes the transaction and the store on; the deferred abort is `or_abort`. Children of Loader: Loading (a
--     transaction under way), Sizes (of a package's files) and Reserved.
--   Client/Events: internal/client/provider_events.go, the queue of a provider's notifications; each step of
--     a handler is a step of its own. Child: Bounds.
--   Client/Json: the scan of internal/client/json_validation.go over the tokens that the decoder gives, with fuel for
--     twice their number, since two calls in a row read a token. Children: Trees (JSON values), Bounds (what is
--     accepted) and Fuel.
--   Client/Lines: `boundedLineReader` of internal/client/response_limit.go; a read has one turn of fuel more
--     than the input has bytes, and each turn but the last takes a whole buffer. Child: Whole.
--   Tests: runs on small inputs, and the properties at them.
--
-- State is passed from call to call; a call under a lock is one step, and `readInitial`, which gives its
-- lock up in between, is three. Times are numbers of nanoseconds, and each call of the clock is an argument;
-- a random source is the list of its draws. A counter is a natural number; where the source adds two
-- `int64` values before a test, the test is on the wrapped sum (`gt64`). A map is a list of pairs with
-- one pair for a key. Recursion is structural, on fuel in the line reader and in the scan of JSON; a unique
-- handle is drawn at most four times, as in the source.
--
-- Parameters: SHA-256, HMAC, the JSON encoders and decoders, base64, NFC, NFKC, case folding, the Unicode
-- tables, the YAML parser, the media types and the file system are functions that a definition takes. A theorem about them names what it needs of them.
--
-- Not modelled: the system calls that open packages, the transports of the provider client with the record of
-- their errors and their other limits, the legacy hierarchy, the configuration, the
-- structure generator and the commands. Of what only reports (statistics), only `Stats` of the snapshots
-- and of the descriptions is here.
pub mod Prelude
pub mod Capability
pub mod Client
pub mod Tests
