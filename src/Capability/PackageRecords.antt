-- ===== src/Capability/PackageRecords.antt =====
-- newArtifact and sortRecord of internal/capability/record.go, and the record that normalizeStagedPackage of loader.go
-- makes of the staged files. SHA-256, hexadecimal and the media types are parameters.
use tappet.Capability.PackageFiles.{manifest_file_name, join_path}
use tappet.Capability.Identifiers.{valid_utf8}
use tappet.Capability.Manifest.{Manifest, SkillDeclaration, SkillResource, ContextReference}
use tappet.Capability.Manifest.Whole.{ManifestCodec}
use tappet.Capability.PackagePaths.{PackageError, package_error}
use tappet.Capability.Paths.{bytes_lt, sort_slice}
use tappet.Capability.Skills.{SkillCodec, parse_skill}
use tappet.Capability.Snapshot.{StagedArtifact}
use tappet.Capability.Types.{
  Metadata, ArtifactKind, manifest, skill, skill_resource, context, Artifact, Skill, Record,
}
use tappet.Prelude.{
  not, none, some, List, [], ◌∷◌, ◌++◌, map, if◌then◌else◌, length, Bytes, codes, bytes_key,
  is_empty, Map, lookup, insert, Result, ok, ◌>>=◌, ◌>>◌, fail_if,
}

pub record LoaderCodec : Type 0 where
  pub manifests : ManifestCodec
  pub skills : SkillCodec
  pub sha256 : Bytes → Bytes
  pub hex : Bytes → Bytes
  pub media_type : Bytes → Bytes

-- What `hex` prints of an artifact kind's constant, and the fields that `newArtifact` hashes.
abbrev pub kind_name : ArtifactKind → Bytes
kind_name manifest = codes "manifest"
kind_name skill = codes "skill"
kind_name skill_resource = codes "skill_resource"
kind_name context = codes "context"

unfoldable pub ref_source : Metadata → Bytes → ArtifactKind → Bytes → Bytes → Bytes
ref_source m manifest_digest kind id digest =
    m.id
    ++ (0
        ∷ (m.version
            ++ (0 ∷ (manifest_digest ++ (0 ∷ (kind_name kind ++ (0 ∷ (id ++ (0 ∷ digest)))))))))

abbrev pub no_artifact : StagedArtifact
no_artifact = record { content = []; digest = [] }

-- `transaction.artifacts[path]`
abbrev pub staged_under : Bytes → Map Bytes StagedArtifact → StagedArtifact
staged_under path m = elim (lookup path m) [ none ↦ no_artifact | some a ↦ a ]

unfoldable pub sort_resources : Skill → Skill
sort_resources k = record k { resources = sort_slice (λ a b. bytes_lt a.id b.id) k.resources }

-- `sortRecord`
unfoldable pub sort_record : Record → Record
sort_record r = record r {
  skills = sort_slice (λ a b. bytes_lt a.path b.path) (map sort_resources r.skills);
  operations = sort_slice (λ a b. bytes_lt a.id b.id) r.operations;
  context = sort_slice (λ a b. bytes_lt a.id b.id) r.context;
  providers = sort_slice (λ a b. bytes_lt a.id b.id) r.providers;
}

module _ (codec : LoaderCodec) where
  open codec use {sha256, hex, media_type}

  -- `newArtifact`
  unfoldable pub new_artifact :
      Metadata → Bytes → ArtifactKind → Bytes → Bytes → StagedArtifact → Artifact
  new_artifact m manifest_digest kind id path staged =
      let digest = hex staged.digest in
      record {
        ref = codes "artifact:v1:" ++ hex (sha256 (ref_source m manifest_digest kind id digest));
        kind = kind;
        id = id;
        path = path;
        media_type =
            if is_empty (media_type path)
            then codes "text/plain; charset=utf-8"
            else media_type path;
        bytes = length staged.content;
        sha256 = digest;
      }

  module _ (m : Metadata) (manifest_digest : Bytes) (staged : Map Bytes StagedArtifact) where
    -- The loops of `normalizeStagedPackage`, with the descriptors under their references so far.
    unfoldable pub normalize_resources :
        Bytes
        → List SkillResource
        → Map Bytes Artifact
        → Result PackageError (List Artifact × Map Bytes Artifact)
    normalize_resources skill_path [] found = ok ([], found)
    normalize_resources skill_path (r ∷ rs) found = do
      let path = join_path skill_path r.path
      let artifact = staged_under path staged
      fail_if (not (valid_utf8 artifact.content))
          (package_error (codes "package_artifact_invalid") path)
      let descriptor = new_artifact m manifest_digest skill_resource r.id path artifact
      later ← normalize_resources skill_path rs (insert descriptor.ref descriptor found)
      ok (descriptor ∷ later.0, later.1)

    unfoldable pub normalize_skills :
        List SkillDeclaration
        → Map Bytes Artifact
        → Result PackageError (List Skill × Map Bytes Artifact)
    normalize_skills [] found = ok ([], found)
    normalize_skills (s ∷ ss) found = do
      let path = join_path s.path (codes "SKILL.md")
      let artifact = staged_under path staged
      document ← parse_skill codec.skills artifact.content s.path
      let descriptor = new_artifact m manifest_digest skill document.metadata.name path artifact
      resources ← normalize_resources s.path s.resources (insert descriptor.ref descriptor found)
      later ← normalize_skills ss resources.1
      ok (
        record {
          path = s.path;
          metadata = document.metadata;
          artifact = descriptor;
          resources = resources.0;
        }
            ∷ later.0,
        later.1,
      )

    unfoldable pub normalize_context :
        List ContextReference
        → Map Bytes Artifact
        → Result PackageError (List Artifact × Map Bytes Artifact)
    normalize_context [] found = ok ([], found)
    normalize_context (c ∷ cs) found = do
      let artifact = staged_under c.path staged
      fail_if (not (valid_utf8 artifact.content))
          (package_error (codes "package_artifact_invalid") c.path)
      let descriptor = new_artifact m manifest_digest context c.id c.path artifact
      later ← normalize_context cs (insert descriptor.ref descriptor found)
      ok (descriptor ∷ later.0, later.1)

  -- `normalizeStagedPackage`; the snapshot comes with the commit.
  unfoldable pub normalize_staged_package :
      Manifest → Map Bytes StagedArtifact → Result PackageError Record
  normalize_staged_package m staged = do
    let own = staged_under manifest_file_name staged
    let digest = hex own.digest
    let descriptor =
        new_artifact m.metadata digest manifest (codes "manifest") manifest_file_name own
    skills ←
        normalize_skills m.metadata digest staged m.spec.skills ((descriptor.ref, descriptor) ∷ [])
    references ← normalize_context m.metadata digest staged m.spec.context skills.1
    ok (
        sort_record (record {
          metadata = m.metadata;
          parent = m.spec.parent;
          manifest_digest = digest;
          skills = skills.0;
          operations = m.spec.operations;
          context = references.0;
          providers = m.spec.providers;
          artifacts = references.1;
          snapshot = none;
        }))
