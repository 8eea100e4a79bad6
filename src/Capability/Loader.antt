-- ===== src/Capability/Loader.antt =====
-- internal/capability/loader.go: the loads of one package and of a list. The descriptors that the code closes when it
-- returns have no state here.
pub mod Loading
pub mod Sizes
pub mod Reserved
use tappet.Capability.PackageRecords.{
  LoaderCodec, kind_name, ref_source, no_artifact, staged_under, sort_resources, sort_record,
  new_artifact, normalize_resources, normalize_skills, normalize_context, normalize_staged_package,
}
use tappet.Capability.PackageFiles.{
  OpenFile, Directory, ArtifactSpec, ArtifactSource, manifest_file_name, package_component_invalid,
  join_path, inside, resource_specs, skill_specs, context_specs, check_specs, artifact_specs,
  open_sources,
}
use tappet.Capability.Hierarchy.{member}
use tappet.Capability.Identifiers.{valid_utf8}
use tappet.Capability.Manifest.{Manifest, SkillDeclaration, SkillResource, ContextReference}
use tappet.Capability.Manifest.Whole.{ManifestCodec, parse_manifest}
use tappet.Capability.PackageLimits.{manifest_max_bytes, skill_max_bytes, artifact_max_bytes}
use tappet.Capability.PackagePaths.{PackageError, package_error, clean}
use tappet.Capability.Paths.{bytes_lt, has_byte, sort_slice}
use tappet.Capability.Skills.{SkillCodec, SkillDocument, parse_skill}
use tappet.Capability.Snapshot.{
  SnapshotStore, StagingTransaction, StagedArtifact, Snapshot, StoreError, begin, reserve,
  stage_reserved, commit, abort, release,
}
use tappet.Capability.Types.{
  Metadata, Operation, ProviderBinding, SkillMetadata, ArtifactKind, manifest, skill,
  skill_resource, context, Artifact, Skill, Record,
}
use tappet.Prelude.{
  ℕ, zero, suc, ◌+◌, Bool, true, false, not, ◌&&◌, ◌||◌, Option, none, some, List, [], ◌∷◌, ◌++◌,
  map, ltb, if◌then◌else◌, length, Bytes, codes, bytes_eq, bytes_key, is_empty, Map, lookup, insert,
  Result, ok, err, ◌>>=◌, ◌>>◌, fail_if,
}

module _ (codec : LoaderCodec) where
  open codec use {sha256, hex, media_type}

  -- The manifest's part of `loadFromRoot`: reserved, staged, parsed.
  unfoldable pub load_manifest :
      Bytes
      → OpenFile
      → StagingTransaction
      → SnapshotStore
      → Result PackageError Manifest × StagingTransaction × SnapshotStore
  load_manifest package_name file t s =
      let path = inside package_name manifest_file_name in
      if ltb manifest_max_bytes file.size
      then (err (package_error (codes "package_manifest_limit_exceeded") path), t, s)
      else elim (reserve file.size t s) [
        | err _ ↦
            (err (package_error (codes "package_staging_capacity_exhausted") package_name), t, s)
        | ok (t1, s1) ↦
            elim (stage_reserved sha256 manifest_file_name file.reader file.size manifest_max_bytes
              t1) [
                | err _ ↦
                    (err (package_error (codes "package_manifest_staging_failed") path), t1, s1)
                | ok t2 ↦
                    if file.close_fails
                    then (
                      err (package_error (codes "package_manifest_staging_failed") path),
                      t2,
                      s1,
                    )
                    else (
                      parse_manifest codec.manifests
                            (staged_under manifest_file_name t2.artifacts).content
                          >>= λ m.
                              fail_if (not (bytes_eq m.metadata.id package_name))
                                (package_error (codes "package_directory_mismatch") package_name)
                              >> ok m,
                      t2,
                      s1,
                    )
              ]
      ]

  -- The loop of `loadFromRoot` that stages the artifacts.
  unfoldable pub stage_sources :
      Bytes
      → List ArtifactSource
      → StagingTransaction
      → Result PackageError (Unit {0}) × StagingTransaction
  stage_sources package_name [] t = (ok tt, t)
  stage_sources package_name (source ∷ sources) t =
      let failure =
        package_error (codes "package_artifact_staging_failed")
          (inside package_name source.spec.path) in
      elim (stage_reserved sha256 source.spec.path source.file.reader source.file.size
        source.spec.maximum t) [
          | err _ ↦ (err failure, t)
          | ok t1 ↦
              if source.file.close_fails
              then (err failure, t1)
              else stage_sources package_name sources t1
        ]

  -- The end of `loadFromRoot`: the record, and the commit.
  unfoldable pub commit_package :
      Bytes
      → Manifest
      → StagingTransaction
      → SnapshotStore
      → Result PackageError Record × StagingTransaction × SnapshotStore
  commit_package package_name m t s = elim (normalize_staged_package codec m t.artifacts) [
    | err e ↦ (err e, t, s)
    | ok r ↦
        let (committed, t1, s1) = commit t s in
        elim committed [
          | err _ ↦
              (err (package_error (codes "package_snapshot_commit_failed") package_name), t1, s1)
          | ok snapshot ↦ (ok (record r { snapshot = some snapshot }), t1, s1)
        ]
  ]

  -- The artifacts' part of `loadFromRoot`.
  unfoldable pub load_artifacts :
      Directory
      → Bytes
      → Manifest
      → StagingTransaction
      → SnapshotStore
      → Result PackageError Record × StagingTransaction × SnapshotStore
  load_artifacts open_file package_name m t s =
      elim (artifact_specs m >>= λ specs. open_sources open_file package_name specs) [
        | err e ↦ (err e, t, s)
        | ok (sources, remaining_size) ↦ elim (reserve remaining_size t s) [
          | err _ ↦
              (err (package_error (codes "package_staging_capacity_exhausted") package_name), t, s)
          | ok (t1, s1) ↦
              let (staged, t2) = stage_sources package_name sources t1 in
              elim staged [ err e ↦ (err e, t2, s1) | ok _ ↦ commit_package package_name m t2 s1 ]
        ]
      ]

  -- `loadFromRoot` behind the package's directory, up to its deferred `abort`.
  unfoldable pub load_directory :
      Directory
      → Bytes
      → SnapshotStore
      → Result PackageError Record × StagingTransaction × SnapshotStore
  load_directory open_file package_name s = elim (open_file manifest_file_name) [
    | none ↦ (
      err (
          package_error (codes "package_manifest_artifact_invalid")
            (inside package_name manifest_file_name)),
      begin,
      s,
    )
    | some file ↦
        let (read, t1, s1) = load_manifest package_name file begin s in
        elim read [ err e ↦ (err e, t1, s1) | ok m ↦ load_artifacts open_file package_name m t1 s1 ]
  ]

  -- The deferred `abort`.
  unfoldable pub or_abort :
      Result PackageError Record × StagingTransaction × SnapshotStore
      → Result PackageError Record × SnapshotStore
  or_abort (ok r, t, s) = (ok r, s)
  or_abort (err e, t, s) = (err e, (abort t s).1)

  -- `loadFromRoot`
  unfoldable pub load_from_root :
      (Bytes → Option Directory)
      → Bytes
      → SnapshotStore
      → Result PackageError Record × SnapshotStore
  load_from_root open_package package_name s =
      let failure = package_error (codes "package_directory_invalid") package_name in
      if package_component_invalid package_name
      then (err failure, s)
      else elim (open_package package_name) [
        | none ↦ (err failure, s)
        | some open_file ↦ or_abort (load_directory open_file package_name s)
      ]

  -- `release` of each record.
  unfoldable pub release_records : List Record → SnapshotStore → SnapshotStore
  release_records [] s = s
  release_records (r ∷ rs) s = elim r.snapshot [
    | none ↦ release_records rs s
    | some snapshot ↦ release_records rs (release snapshot s).1
  ]

  -- The loop of `LoadAll`, with the records so far.
  unfoldable pub load_names :
      (Bytes → Option Directory)
      → List Bytes
      → List Record
      → List Bytes
      → SnapshotStore
      → Result PackageError (List Record) × SnapshotStore
  load_names open_package [] records seen s = (ok records, s)
  load_names open_package (name ∷ names) records seen s =
      let (loaded, s1) = load_from_root open_package name s in
      elim loaded [
        | err e ↦ (err e, release_records records s1)
        | ok r ↦ elim (member r.metadata.id seen) [
          | true ↦ (
            err (package_error (codes "package_duplicate_capability") name),
            release_records records (release_records (r ∷ []) s1),
          )
          | false ↦ load_names open_package names (records ++ r ∷ []) (r.metadata.id ∷ seen) s1
        ]
      ]

  -- `LoadAll`, of the root's package names.
  unfoldable pub load_all :
      (Bytes → Option Directory)
      → List Bytes
      → SnapshotStore
      → Result PackageError (List Record) × SnapshotStore
  load_all open_package names s =
      let (loaded, s1) = load_names open_package names [] [] s in
      elim loaded [
        | err e ↦ (err e, s1)
        | ok records ↦ (ok (sort_slice (λ a b. bytes_lt a.metadata.id b.metadata.id) records), s1)
      ]
