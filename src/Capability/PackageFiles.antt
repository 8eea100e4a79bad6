-- ===== src/Capability/PackageFiles.antt =====
-- The files of a package for internal/capability/loader.go: which artifacts a manifest names, and what opening them
-- gives. The file system is a parameter: a root opens a package's directory, and that opens its files, each with its
-- size, its reader and whether closing it fails.
use tappet.Capability.Hierarchy.{member}
use tappet.Capability.Manifest.{Manifest, SkillDeclaration, SkillResource, ContextReference}
use tappet.Capability.PackageLimits.{skill_max_bytes, artifact_max_bytes}
use tappet.Capability.PackagePaths.{PackageError, package_error, clean}
use tappet.Capability.Paths.{has_byte}
use tappet.Capability.Types.{ArtifactKind, skill, skill_resource, context}
use tappet.Prelude.{
  ℕ, ◌+◌, Bool, ◌||◌, Option, none, some, List, [], ◌∷◌, ◌++◌, ltb, if◌then◌else◌, Bytes, codes,
  bytes_eq, bytes_key, is_empty, Result, ok, err, ◌>>=◌, ◌>>◌, fail_if,
}

-- What `OpenRegularFile` gives; the reader is the bytes that it still has, or none where it fails.
pub record OpenFile : Type 0 where
  pub size : ℕ
  pub reader : Option Bytes
  pub close_fails : Bool

abbrev pub Directory : Type 0
Directory = Bytes → Option OpenFile

-- `artifactSpec`
pub record ArtifactSpec : Type 0 where
  pub path : Bytes
  pub kind : ArtifactKind
  pub id : Bytes
  pub maximum : ℕ

pub record ArtifactSource : Type 0 where
  pub spec : ArtifactSpec
  pub file : OpenFile

abbrev pub manifest_file_name : Bytes
manifest_file_name = codes "tappet.yaml"

-- `validatePackageComponent`: whether it returns an error.
unfoldable pub package_component_invalid : Bytes → Bool
package_component_invalid name =
    is_empty name
    || bytes_eq name (codes ".")
    || bytes_eq name (codes "..")
    || has_byte b'/' name
    || has_byte 92 name

-- `path.Join` of two elements.
unfoldable pub join_path : Bytes → Bytes → Bytes
join_path a b = if is_empty a then (if is_empty b then [] else clean b) else clean (a ++ b'/' ∷ b)

abbrev pub inside : Bytes → Bytes → Bytes
inside package_name path = package_name ++ b'/' ∷ path

-- The parts of `artifactSpecs` in order.
unfoldable pub resource_specs : Bytes → List SkillResource → List ArtifactSpec
resource_specs skill_path [] = []
resource_specs skill_path (r ∷ rs) =
    record {
      path = join_path skill_path r.path;
      kind = skill_resource;
      id = skill_path ++ b'/' ∷ r.id;
      maximum = artifact_max_bytes;
    }
    ∷ resource_specs skill_path rs

unfoldable pub skill_specs : List SkillDeclaration → List ArtifactSpec
skill_specs [] = []
skill_specs (s ∷ ss) =
    record {
      path = join_path s.path (codes "SKILL.md");
      kind = skill;
      id = s.path;
      maximum = skill_max_bytes;
    }
    ∷ (resource_specs s.path s.resources ++ skill_specs ss)

unfoldable pub context_specs : List ContextReference → List ArtifactSpec
context_specs [] = []
context_specs (c ∷ cs) =
    record { path = c.path; kind = context; id = c.id; maximum = artifact_max_bytes }
    ∷ context_specs cs

-- `add` of `artifactSpecs`, on each in order.
unfoldable pub check_specs : List ArtifactSpec → List Bytes → Result PackageError (Unit {0})
check_specs [] seen = ok tt
check_specs (spec ∷ specs) seen = do
  fail_if (member spec.path seen) (package_error (codes "package_duplicate_artifact") spec.path)
  check_specs specs (spec.path ∷ seen)

-- `artifactSpecs`
unfoldable pub artifact_specs : Manifest → Result PackageError (List ArtifactSpec)
artifact_specs m = do
  let specs = skill_specs m.spec.skills ++ context_specs m.spec.context
  _ ← check_specs specs (manifest_file_name ∷ [])
  ok specs

-- The loop of `loadFromRoot` that opens the artifacts: the sources, and their declared sizes together.
unfoldable pub open_sources :
    Directory → Bytes → List ArtifactSpec → Result PackageError (List ArtifactSource × ℕ)
open_sources open_file package_name [] = ok ([], 0)
open_sources open_file package_name (spec ∷ specs) = do
  file ← elim (open_file spec.path) [
    | none ↦ err (package_error (codes "package_artifact_invalid") (inside package_name spec.path))
    | some file ↦ ok file
  ]
  fail_if (ltb spec.maximum file.size)
      (package_error (codes "package_artifact_limit_exceeded") (inside package_name spec.path))
  later ← open_sources open_file package_name specs
  ok (record { spec = spec; file = file } ∷ later.0, file.size + later.1)
