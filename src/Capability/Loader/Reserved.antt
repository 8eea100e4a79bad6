-- ===== src/Capability/Loader/Reserved.antt =====
-- The reservations of internal/capability/loader.go: whatever way a load ends, it leaves none behind.
use mathlib.Core.Path.{subst}
use tappet.Capability.PackageFiles.{
  OpenFile, Directory, manifest_file_name, artifact_specs, open_sources, package_component_invalid,
}
use tappet.Capability.PackageRecords.{LoaderCodec, normalize_staged_package, staged_under}
use tappet.Capability.Loader.{
  stage_sources, commit_package, load_artifacts, load_manifest, load_directory, or_abort,
  load_from_root,
}
use tappet.Capability.Manifest.{Manifest}
use tappet.Capability.Manifest.Whole.{parse_manifest}
use tappet.Capability.Manifest.Sound.{IsValidManifest, parse_manifest-IsValidManifest}
use tappet.Capability.PackageLimits.{manifest_max_bytes}
use tappet.Capability.PackagePaths.{PackageError}
use tappet.Capability.Snapshot.{
  SnapshotStore, StagingTransaction, begin, reserve, stage_reserved, commit, abort,
}
use tappet.Capability.Snapshot.Accounting.{IsAccounted, abort-IsAccounted, commit-IsAccounted}
use tappet.Capability.Types.{Record}
use tappet.Prelude.{
  ℕ, ◌+◌, ◌^◌, ◌<◌, ◌≡◌, not, Option, ltb, Bytes, bytes_eq, bytes_key, Result, ok, err, ◌>>=◌,
  arith, bind-eq-ok, fail_if-eq-ok, ok_inj, Result-cases, Option-cases, Bool-cases, inl, inr,
}
use tappet.Capability.Loader.Loading.{
  IsLoading, begin-IsLoading, weaken-IsLoading, reserve-IsLoading, stage-IsLoading,
  stage_sources-IsLoading,
}
use tappet.Capability.Loader.Sizes.{artifact_specs-maximums, open_sources-sizes}

module _ (codec : LoaderCodec) (base : ℕ) where
  open codec use {sha256}

  -- How a load may end: a package that is committed leaves nothing pending, and a failure leaves the transaction for
  -- the abort.
  abbrev Ends : {A : Type 0} → Result PackageError A × StagingTransaction × SnapshotStore → Type 0
  Ends (ok _, t, s) = IsAccounted base s
  Ends (err _, t, s) = IsLoading sha256 base 0 t s

  commit_package-Ends :
      (package_name : Bytes) (m : Manifest) (t : StagingTransaction) (s : SnapshotStore)
      → IsLoading sha256 base 0 t s
      → Ends (commit_package codec package_name m t s)
  unfolding commit_package
  commit_package-Ends package_name m t s l =
      elim (Result-cases (normalize_staged_package codec m t.artifacts)) [
        | inl (e, failed) ↦ rw (failed, commit_package) l
        | inr (r, made) ↦
            let (done, closed, accounts) =
              commit-IsAccounted (base + t.reserved) t s l.opened (omega arith)
                (omega (arith, l.room)) l.accounts in
            let kept = subst (λ n. IsAccounted n (commit t s).2) (omega arith) accounts in
            rw (made, done, commit_package) kept
      ]

  load_artifacts-Ends :
      (open_file : Directory) (package_name : Bytes) (m : Manifest) (t : StagingTransaction)
      (s : SnapshotStore)
      → IsValidManifest m
      → IsLoading sha256 base 0 t s
      → Ends (load_artifacts codec open_file package_name m t s)
  unfolding load_artifacts
  load_artifacts-Ends open_file package_name m t s valid l =
      elim (Result-cases
        (artifact_specs m >>= λ specs. open_sources open_file package_name specs)) [
          | inl (e, failed) ↦ rw (failed, load_artifacts) l
          | inr ((sources, n), opened) ↦
              let (specs, hs, ho) = bind-eq-ok (artifact_specs m) _ opened in
              let (same, within) = open_sources-sizes open_file package_name specs sources n ho in
              let small = artifact_specs-maximums m specs valid hs in
              elim (Result-cases (reserve n t s)) [
                | inl (e, full) ↦ rw (opened, full, load_artifacts) l
                | inr ((t1, s1), room) ↦
                    let reserved =
                      reserve-IsLoading sha256 base n t s t1 s1 (omega (arith, small, within)) l
                        room in
                    let staged =
                      stage_sources-IsLoading codec base package_name sources t1 s1
                        (subst (λ k. IsLoading sha256 base k t1 s1) same reserved) in
                    elim (Result-cases (stage_sources codec package_name sources t1).0) [
                      | inl (e, failed) ↦ rw (opened, room, failed, load_artifacts) staged
                      | inr (u, done) ↦
                          rw (opened, room, done, load_artifacts)
                            (commit_package-Ends package_name m
                              (stage_sources codec package_name sources t1).1 s1 staged)
                    ]
              ]
        ]

  -- The manifest's part: with a manifest it is valid, and either way the transaction is under way.
  load_manifest-IsLoading :
      (package_name : Bytes) (file : OpenFile) (t : StagingTransaction) (s : SnapshotStore)
      → IsLoading sha256 base 0 t s
      → let (read, t', s') = load_manifest codec package_name file t s in
        IsLoading sha256 base 0 t' s' × ((m : Manifest) → read ≡ ok m → IsValidManifest m)
  unfolding load_manifest
  load_manifest-IsLoading package_name file t s l =
      elim (Bool-cases (ltb manifest_max_bytes file.size)) [
        | inl large ↦ rw (large, load_manifest) (l, λ m h. cc)
        | inr small ↦
            let bound : file.size < 2 ^ 62 = ground (arith, small) in
            elim (Result-cases (reserve file.size t s)) [
              | inl (e, full) ↦ rw (small, full, load_manifest) (l, λ m h. cc)
              | inr ((t1, s1), room) ↦
                  let reserved = reserve-IsLoading sha256 base file.size t s t1 s1 bound l room in
                  elim (Result-cases (
                    stage_reserved sha256 manifest_file_name file.reader file.size
                      manifest_max_bytes t1)) [
                        | inl (e, failed) ↦
                            rw (small, room, failed, load_manifest)
                              (weaken-IsLoading sha256 base file.size t1 s1 reserved, λ m h. cc)
                        | inr (t2, staged) ↦
                            let under_way =
                              stage-IsLoading sha256 base file.size 0 manifest_max_bytes
                                manifest_file_name file.reader t1 s1 t2
                                (subst (λ n. IsLoading sha256 base n t1 s1) (omega arith) reserved)
                                staged in
                            elim (Bool-cases file.close_fails) [
                              | inl broken ↦
                                  rw (small, room, staged, broken, load_manifest)
                                    (under_way, λ m h. cc)
                              | inr closed ↦
                                  rw (small, room, staged, closed, load_manifest)
                                    (
                                      under_way,
                                      λ m h.
                                          let text =
                                            (staged_under manifest_file_name
                                              t2.artifacts).content in
                                          let (m', parsed, h1) =
                                            bind-eq-ok (parse_manifest codec.manifests text) _ h in
                                          let (same, h2) =
                                            fail_if-eq-ok
                                              (not (bytes_eq m'.metadata.id package_name)) _ _ h1 in
                                          rw⁻¹ (ok_inj m' m h2) (
                                            parse_manifest-IsValidManifest codec.manifests text m'
                                              parsed),
                                    )
                            ]
                      ]
            ]
      ]

  load_directory-Ends :
      (open_file : Directory) (package_name : Bytes) (s : SnapshotStore)
      → IsAccounted base s
      → Ends (load_directory codec open_file package_name s)
  unfolding load_directory
  load_directory-Ends open_file package_name s a =
      elim (Option-cases (open_file manifest_file_name)) [
        | inl missing ↦ rw (missing, load_directory) (begin-IsLoading sha256 base s a)
        | inr (file, found) ↦
            let begun = begin-IsLoading sha256 base s a in
            let (under_way, valid) = load_manifest-IsLoading package_name file begin s begun in
            elim (Result-cases (load_manifest codec package_name file begin s).0) [
              | inl (e, failed) ↦ rw (found, failed, load_directory) under_way
              | inr (m, parsed) ↦
                  rw (found, parsed, load_directory)
                    (load_artifacts-Ends open_file package_name m
                      (load_manifest codec package_name file begin s).1
                      (load_manifest codec package_name file begin s).2 (valid m parsed) under_way)
            ]
      ]

  or_abort-IsAccounted :
      (x : Result PackageError Record × StagingTransaction × SnapshotStore)
      → Ends x
      → IsAccounted base (or_abort codec x).1
  unfolding or_abort
  or_abort-IsAccounted (ok r, t, s) h = h
  or_abort-IsAccounted (err e, t, s) h =
      let (accounts, _) =
        abort-IsAccounted (base + t.reserved) t s h.opened (omega arith) h.accounts in
      subst (λ n. IsAccounted n (abort t s).1) (omega arith) accounts

  -- A load of a package, with any files behind it and however it ends, keeps the accounts of the
  -- snapshot store and leaves pending what was pending before: a failure gives every reservation
  -- back, and a commit turns its own into stored bytes.
  pub load_from_root-IsAccounted :
      (open_package : Bytes → Option Directory) (package_name : Bytes) (s : SnapshotStore)
      → IsAccounted base s
      → IsAccounted base (load_from_root codec open_package package_name s).1
  unfolding load_from_root
  load_from_root-IsAccounted open_package package_name s a =
      elim (Bool-cases (package_component_invalid package_name)) [
        | inl wrong ↦ rw (wrong, load_from_root) a
        | inr named ↦ elim (Option-cases (open_package package_name)) [
          | inl missing ↦ rw (named, missing, load_from_root) a
          | inr (open_file, found) ↦
              rw (named, found, load_from_root)
                (or_abort-IsAccounted (load_directory codec open_file package_name s)
                  (load_directory-Ends open_file package_name s a))
        ]
      ]
