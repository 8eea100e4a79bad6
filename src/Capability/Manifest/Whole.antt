-- ===== src/Capability/Manifest/Whole.antt =====
-- `ParseManifest` of internal/capability/manifest.go and its parts. The YAML parser, NFC and the JSON encoders
-- of the size check are parameters; an encoder gives none for its error.
use tappet.Capability.Hierarchy.{member}
use tappet.Capability.Identifiers.{capability_id_matches}
use tappet.Capability.Manifest.{
  Manifest, Spec, SkillResource, SkillDeclaration, ContextReference, item_path, mapping,
  required_field, scalar_string, optional_string, required_string, parse_string_sequence,
  semver_matches, duplicate_error,
}
use tappet.Capability.Manifest.Items.{
  parse_providers, parse_operations, parse_skills, parse_context,
}
use tappet.Capability.Limits.{max_capability_id_bytes}
use tappet.Capability.PackageLimits.{
  manifest_max_bytes, manifest_max_depth, manifest_max_nodes, max_name_bytes, max_version_bytes,
  max_description_bytes, max_tags, max_tag_bytes, max_all_tags_bytes, max_hierarchy_path_bytes,
  max_base_card_bytes, max_structure_item_bytes, max_structure_bytes,
}
use tappet.Capability.PackagePaths.{PackageError, package_error, validate_required_text}
use tappet.Capability.Types.{Metadata, Operation, ProviderBinding}
use tappet.Capability.Yaml.{YamlLimits, Node, Nodes, parse_bounded_yaml}
use tappet.Prelude.{
  ℕ, suc, ◌+◌, Bool, not, ◌||◌, Option, none, some, List, [], ◌∷◌, ◌++◌, map, ltb, if◌then◌else◌,
  length, Bytes, codes, bytes_eq, bytes_key, has_prefix, is_empty, Map, lookup, Result, ok, err,
  ◌>>=◌, ◌>>◌, fail_if,
}

-- What `validateNormalizedSize` encodes one by one.
pub data StructureItem : Type 0 where
  skill_item : SkillDeclaration → StructureItem
  resource_item : SkillResource → StructureItem
  operation_item : Operation → StructureItem
  context_item : ContextReference → StructureItem
  provider_item : ProviderBinding → StructureItem

pub record ManifestCodec : Type 0 where
  pub nfc : Bytes → Bytes
  pub is_space : ℕ → Bool
  pub decode : ℕ → Bytes → Option Nodes
  pub marshal_card : Metadata → Bytes → Option Bytes
  pub marshal_item : StructureItem → Option Bytes

-- The loop over the tags, which NFC has normalized: their bytes.
unfoldable pub check_tags : ℕ → List Bytes → List Bytes → Result PackageError ℕ
check_tags i [] seen = ok 0
check_tags i (tag ∷ tags) seen = do
  fail_if (is_empty tag)
      (package_error (codes "package_field_invalid") (item_path (codes "manifest.metadata.tags") i))
  fail_if (member tag seen) (duplicate_error (item_path (codes "manifest.metadata.tags") i))
  total ← check_tags (suc i) tags (tag ∷ seen)
  ok (length tag + total)

unfoldable pub skill_structure : List SkillDeclaration → List StructureItem
skill_structure [] = []
skill_structure (skill ∷ skills) =
    skill_item skill ∷ (map (λ r. resource_item r) skill.resources ++ skill_structure skills)

unfoldable pub structure_items : Spec → List StructureItem
structure_items spec =
    skill_structure spec.skills
    ++ (map (λ o. operation_item o) spec.operations
        ++ (map (λ c. context_item c) spec.context ++ map (λ p. provider_item p) spec.providers))

-- Checks of the manifest's fixed fields.
unfoldable pub check_constant : Map Bytes Node → Bytes → Bytes → Bytes → Result PackageError Bytes
check_constant fields name expected code = do
  n ← required_field fields name (codes "manifest")
  value ← scalar_string n (codes "manifest." ++ name)
  fail_if (not (bytes_eq value expected)) (package_error code (codes "manifest." ++ name))
  ok value

-- The parent of a spec: none, or a proper prefix of the capability's identifier.
unfoldable pub check_parent : Bytes → Bytes → Result PackageError (Unit {0})
check_parent parent capability_id =
    if is_empty parent
    then ok tt
    else fail_if
        (ltb max_hierarchy_path_bytes (length parent) || not (capability_id_matches parent))
        (package_error (codes "package_parent_invalid") (codes "manifest.spec.parent"))
      >> fail_if (not (has_prefix capability_id (parent ++ b'.' ∷ [])))
          (package_error (codes "package_parent_invalid") (codes "manifest.spec.parent"))

abbrev pub manifest_limits : YamlLimits
manifest_limits = record {
  bytes = manifest_max_bytes;
  depth = manifest_max_depth;
  nodes = manifest_max_nodes;
}

module _ (codec : ManifestCodec) where
  open codec use {nfc, is_space, decode, marshal_card, marshal_item}

  -- The checks on the normalized texts of `parseMetadata`.
  unfoldable pub check_texts : Bytes → Bytes → Bytes → Bytes → Result PackageError (Unit {0})
  check_texts id name version description = do
    _ ← validate_required_text (codes "manifest.metadata.id") id max_capability_id_bytes
    fail_if (not (capability_id_matches id))
        (package_error (codes "package_capability_id_invalid") (codes "manifest.metadata.id"))
    _ ← validate_required_text (codes "manifest.metadata.name") name max_name_bytes
    _ ← validate_required_text (codes "manifest.metadata.version") version max_version_bytes
    fail_if (not (semver_matches version))
        (package_error (codes "package_version_invalid") (codes "manifest.metadata.version"))
    validate_required_text (codes "manifest.metadata.description") description max_description_bytes

  -- `parseMetadata`
  unfoldable pub parse_metadata : Node → Result PackageError Metadata
  parse_metadata n = do
    fields ←
        mapping n (codes "manifest.metadata")
          (codes "id" ∷ codes "name" ∷ codes "version" ∷ codes "description" ∷ codes "tags" ∷ [])
    id ← required_string fields (codes "id") (codes "manifest.metadata")
    name ← required_string fields (codes "name") (codes "manifest.metadata")
    version ← required_string fields (codes "version") (codes "manifest.metadata")
    description ← required_string fields (codes "description") (codes "manifest.metadata")
    _ ← check_texts (nfc id) (nfc name) (nfc version) (nfc description)
    read_tags ←
        parse_string_sequence nfc (lookup (codes "tags") fields) (codes "manifest.metadata.tags")
          max_tags max_tag_bytes
    let tags = map nfc read_tags
    total ← check_tags 0 tags []
    fail_if (ltb max_all_tags_bytes total)
        (package_error (codes "package_field_limit_exceeded") (codes "manifest.metadata.tags"))
    ok (record {
      id = nfc id;
      name = nfc name;
      version = nfc version;
      description = nfc description;
      tags = tags;
    })

  -- `parseSpec`
  unfoldable pub parse_spec : Node → Bytes → Result PackageError Spec
  parse_spec n capability_id = do
    fields ← mapping n (codes "manifest.spec") (
        codes "parent"
        ∷ codes "skills"
        ∷ codes "operations"
        ∷ codes "context"
        ∷ codes "providers"
        ∷ [])
    parent ← optional_string fields (codes "parent") (codes "manifest.spec")
    _ ← check_parent (nfc parent) capability_id
    providers ← parse_providers nfc (lookup (codes "providers") fields)
    operations ←
        parse_operations nfc (map (λ p. p.id) providers) (lookup (codes "operations") fields)
    skills ← parse_skills nfc (lookup (codes "skills") fields)
    context ← parse_context nfc (lookup (codes "context") fields)
    ok (record {
      parent = nfc parent;
      skills = skills;
      operations = operations;
      context = context;
      providers = providers;
    })

  -- The loop of `validateNormalizedSize`: the bytes of the encoded items.
  unfoldable pub measure_items : ℕ → List StructureItem → Result PackageError ℕ
  measure_items i [] = ok 0
  measure_items i (item ∷ items) = do
    encoded ← elim (marshal_item item) [
      | none ↦ err (
          package_error (codes "package_normalization_failed")
            (item_path (codes "manifest.structure") i))
      | some e ↦ ok e
    ]
    fail_if (ltb max_structure_item_bytes (length encoded)) (
        package_error (codes "package_structure_limit_exceeded")
          (item_path (codes "manifest.structure") i))
    total ← measure_items (suc i) items
    ok (length encoded + total)

  -- `validateNormalizedSize`
  unfoldable pub validate_normalized_size : Manifest → Result PackageError (Unit {0})
  validate_normalized_size m = do
    card ← elim (marshal_card m.metadata m.spec.parent) [
      | none ↦
          err (package_error (codes "package_normalization_failed") (codes "manifest.metadata"))
      | some e ↦ ok e
    ]
    fail_if (ltb max_base_card_bytes (length card))
        (package_error (codes "package_structure_limit_exceeded") (codes "manifest.metadata"))
    total ← measure_items 0 (structure_items m.spec)
    fail_if (ltb max_structure_bytes total)
        (package_error (codes "package_structure_limit_exceeded") (codes "manifest.spec"))

  -- `ParseManifest`, of the document's node.
  unfoldable pub parse_root : Node → Result PackageError Manifest
  parse_root root = do
    fields ←
        mapping root (codes "manifest")
          (codes "apiVersion" ∷ codes "kind" ∷ codes "metadata" ∷ codes "spec" ∷ [])
    api_version ←
        check_constant fields (codes "apiVersion") (codes "tappet.gearboxlogic.dev/v1alpha1")
          (codes "package_manifest_version_unsupported")
    kind ←
        check_constant fields (codes "kind") (codes "Capability")
          (codes "package_manifest_kind_unsupported")
    metadata_node ← required_field fields (codes "metadata") (codes "manifest")
    metadata ← parse_metadata metadata_node
    spec_node ← required_field fields (codes "spec") (codes "manifest")
    spec ← parse_spec spec_node metadata.id
    let manifest : Manifest = record {
      api_version = api_version;
      kind = kind;
      metadata = metadata;
      spec = spec;
    }
    _ ← validate_normalized_size manifest
    ok manifest

  -- `ParseManifest`
  unfoldable pub parse_manifest : Bytes → Result PackageError Manifest
  parse_manifest text = elim (parse_bounded_yaml is_space decode manifest_limits text) [
    | err _ ↦ err (package_error (codes "package_manifest_invalid") (codes "tappet.yaml"))
    | ok root ↦ parse_root root
  ]
