-- ===== src/Capability/Manifest/Items.antt =====
-- The items of a manifest's spec in internal/capability/manifest.go: providers, operations, skills with their
-- resources, and context references. Each loop reads an item, checks it against those `seen`, and goes on.
use tappet.Capability.Hierarchy.{member}
use tappet.Capability.Manifest.{
  SkillResource, SkillDeclaration, ContextReference, field, item_path, count_limit_error,
  duplicate_error, mapping, bounded_sequence, required_string, required_normalized_id,
}
use tappet.Capability.PackageLimits.{
  max_providers, max_operations, max_skills, max_resources_per_skill, max_skill_resources,
  max_context_references, max_provider_id_bytes, max_provider_type_bytes, max_server_ref_bytes,
  max_operation_id_bytes, max_operation_description, max_provider_alias_bytes,
  max_operation_target_bytes, max_skill_path_bytes, max_resource_id_bytes, max_resource_kind_bytes,
  max_resource_path_bytes, max_context_id_bytes, max_context_path_bytes,
}
use tappet.Capability.PackagePaths.{
  PackageError, package_error, validate_required_text, normalize_package_path,
}
use tappet.Capability.Types.{Operation, ProviderBinding}
use tappet.Capability.Yaml.{Node}
use tappet.Prelude.{
  ℕ, suc, ◌+◌, not, ◌||◌, Option, List, [], ◌∷◌, ltb, length, Bytes, codes, bytes_eq, bytes_key,
  lookup, Result, ok, ◌>>=◌, ◌>>◌, fail_if,
}

module _ (nfc : Bytes → Bytes) where
  -- One turn of the loop of `parseProviders`.
  unfoldable pub parse_provider : Bytes → Node → List Bytes → Result PackageError ProviderBinding
  parse_provider path item seen = do
    fields ← mapping item path (codes "id" ∷ codes "type" ∷ codes "serverRef" ∷ [])
    id ← required_normalized_id nfc fields (codes "id") path max_provider_id_bytes
    fail_if (member id seen) (duplicate_error (field path (codes "id")))
    provider_type ← required_string fields (codes "type") path
    _ ← validate_required_text (field path (codes "type")) provider_type max_provider_type_bytes
    fail_if (not (bytes_eq provider_type (codes "mcp")))
        (package_error (codes "package_provider_type_unsupported") (field path (codes "type")))
    server_ref ← required_string fields (codes "serverRef") path
    _ ←
        validate_required_text (field path (codes "serverRef")) (nfc server_ref)
          max_server_ref_bytes
    ok (record { id = id; kind = provider_type; server_ref = nfc server_ref })

  unfoldable pub provider_items :
      ℕ → List Node → List Bytes → Result PackageError (List ProviderBinding)
  provider_items i [] seen = ok []
  provider_items i (item ∷ items) seen = do
    provider ← parse_provider (item_path (codes "manifest.spec.providers") i) item seen
    providers ← provider_items (suc i) items (provider.id ∷ seen)
    ok (provider ∷ providers)

  -- `parseProviders`
  unfoldable pub parse_providers : Option Node → Result PackageError (List ProviderBinding)
  parse_providers n = do
    items ← bounded_sequence n (codes "manifest.spec.providers") max_providers
    provider_items 0 items []

  -- One turn of the loop of `parseOperations`.
  unfoldable pub parse_operation :
      List Bytes → Bytes → Node → List Bytes → Result PackageError Operation
  parse_operation providers path item seen = do
    fields ←
        mapping item path
          (codes "id" ∷ codes "description" ∷ codes "provider" ∷ codes "target" ∷ [])
    id ← required_normalized_id nfc fields (codes "id") path max_operation_id_bytes
    fail_if (member id seen) (duplicate_error (field path (codes "id")))
    description ← required_string fields (codes "description") path
    _ ←
        validate_required_text (field path (codes "description")) (nfc description)
          max_operation_description
    provider ← required_normalized_id nfc fields (codes "provider") path max_provider_alias_bytes
    fail_if (not (member provider providers))
        (package_error (codes "package_reference_invalid") (field path (codes "provider")))
    target ← required_string fields (codes "target") path
    _ ← validate_required_text (field path (codes "target")) (nfc target) max_operation_target_bytes
    ok (record { id = id; description = nfc description; provider = provider; target = nfc target })

  unfoldable pub operation_items :
      List Bytes → ℕ → List Node → List Bytes → Result PackageError (List Operation)
  operation_items providers i [] seen = ok []
  operation_items providers i (item ∷ items) seen = do
    operation ← parse_operation providers (item_path (codes "manifest.spec.operations") i) item seen
    operations ← operation_items providers (suc i) items (operation.id ∷ seen)
    ok (operation ∷ operations)

  -- `parseOperations`
  unfoldable pub parse_operations : List Bytes → Option Node → Result PackageError (List Operation)
  parse_operations providers n = do
    items ← bounded_sequence n (codes "manifest.spec.operations") max_operations
    operation_items providers 0 items []

  -- One turn of the inner loop of `parseSkills`.
  unfoldable pub parse_resource :
      Bytes → Node → List Bytes → List Bytes → Result PackageError SkillResource
  parse_resource path item seen_ids seen_paths = do
    fields ← mapping item path (codes "id" ∷ codes "kind" ∷ codes "path" ∷ [])
    id ← required_normalized_id nfc fields (codes "id") path max_resource_id_bytes
    fail_if (member id seen_ids) (duplicate_error (field path (codes "id")))
    kind ← required_string fields (codes "kind") path
    fail_if (ltb max_resource_kind_bytes (length kind) || not (bytes_eq kind (codes "reference")))
        (package_error (codes "package_resource_kind_unsupported") (field path (codes "kind")))
    raw_path ← required_string fields (codes "path") path
    local_path ←
        normalize_package_path nfc raw_path max_resource_path_bytes (field path (codes "path"))
    fail_if (member local_path seen_paths) (duplicate_error (field path (codes "path")))
    ok (record { id = id; kind = kind; path = local_path })

  unfoldable pub resource_items :
      Bytes → ℕ → List Node → List Bytes → List Bytes → Result PackageError (List SkillResource)
  resource_items path i [] seen_ids seen_paths = ok []
  resource_items path i (item ∷ items) seen_ids seen_paths = do
    resource ← parse_resource (item_path path i) item seen_ids seen_paths
    resources ←
        resource_items path (suc i) items (resource.id ∷ seen_ids) (resource.path ∷ seen_paths)
    ok (resource ∷ resources)

  -- One turn of the loop of `parseSkills`, with the resources that the skills before it have.
  unfoldable pub parse_skill_item :
      Bytes → Node → List Bytes → ℕ → Result PackageError SkillDeclaration
  parse_skill_item path item seen total = do
    fields ← mapping item path (codes "path" ∷ codes "resources" ∷ [])
    raw_path ← required_string fields (codes "path") path
    skill_path ←
        normalize_package_path nfc raw_path max_skill_path_bytes (field path (codes "path"))
    fail_if (member skill_path seen) (duplicate_error (field path (codes "path")))
    items ←
        bounded_sequence (lookup (codes "resources") fields) (field path (codes "resources"))
          max_resources_per_skill
    fail_if (ltb max_skill_resources (total + length items))
        (count_limit_error (codes "manifest.spec.skills.resources"))
    resources ← resource_items (field path (codes "resources")) 0 items [] []
    ok (record { path = skill_path; resources = resources })

  unfoldable pub skill_items :
      ℕ → List Node → List Bytes → ℕ → Result PackageError (List SkillDeclaration)
  skill_items i [] seen total = ok []
  skill_items i (item ∷ items) seen total = do
    skill ← parse_skill_item (item_path (codes "manifest.spec.skills") i) item seen total
    skills ← skill_items (suc i) items (skill.path ∷ seen) (total + length skill.resources)
    ok (skill ∷ skills)

  -- `parseSkills`
  unfoldable pub parse_skills : Option Node → Result PackageError (List SkillDeclaration)
  parse_skills n = do
    items ← bounded_sequence n (codes "manifest.spec.skills") max_skills
    skill_items 0 items [] 0

  -- One turn of the loop of `parseContext`.
  unfoldable pub parse_context_item :
      Bytes → Node → List Bytes → List Bytes → Result PackageError ContextReference
  parse_context_item path item seen_ids seen_paths = do
    fields ← mapping item path (codes "id" ∷ codes "path" ∷ [])
    id ← required_normalized_id nfc fields (codes "id") path max_context_id_bytes
    fail_if (member id seen_ids) (duplicate_error (field path (codes "id")))
    raw_path ← required_string fields (codes "path") path
    local_path ←
        normalize_package_path nfc raw_path max_context_path_bytes (field path (codes "path"))
    fail_if (member local_path seen_paths) (duplicate_error (field path (codes "path")))
    ok (record { id = id; path = local_path })

  unfoldable pub context_items :
      ℕ → List Node → List Bytes → List Bytes → Result PackageError (List ContextReference)
  context_items i [] seen_ids seen_paths = ok []
  context_items i (item ∷ items) seen_ids seen_paths = do
    reference ←
        parse_context_item (item_path (codes "manifest.spec.context") i) item seen_ids seen_paths
    references ← context_items (suc i) items (reference.id ∷ seen_ids) (reference.path ∷ seen_paths)
    ok (reference ∷ references)

  -- `parseContext`
  unfoldable pub parse_context : Option Node → Result PackageError (List ContextReference)
  parse_context n = do
    items ← bounded_sequence n (codes "manifest.spec.context") max_context_references
    context_items 0 items [] []
