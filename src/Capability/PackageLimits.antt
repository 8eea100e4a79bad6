-- ===== src/Capability/PackageLimits.antt =====
-- internal/capability/limits.go: the limits on a package.
use tappet.Prelude.{ℕ}

abbrev pub manifest_max_bytes : ℕ
manifest_max_bytes = 1048576

abbrev pub manifest_max_depth : ℕ
manifest_max_depth = 64

abbrev pub manifest_max_nodes : ℕ
manifest_max_nodes = 16384

abbrev pub skill_max_bytes : ℕ
skill_max_bytes = 1048576

abbrev pub skill_frontmatter_max : ℕ
skill_frontmatter_max = 65536

abbrev pub artifact_max_bytes : ℕ
artifact_max_bytes = 4194304

abbrev pub max_skills : ℕ
max_skills = 32

abbrev pub max_skill_resources : ℕ
max_skill_resources = 128

abbrev pub max_resources_per_skill : ℕ
max_resources_per_skill = 32

abbrev pub max_operations : ℕ
max_operations = 128

abbrev pub max_context_references : ℕ
max_context_references = 128

abbrev pub max_providers : ℕ
max_providers = 32

abbrev pub max_structure_item_bytes : ℕ
max_structure_item_bytes = 4096

abbrev pub max_structure_bytes : ℕ
max_structure_bytes = 524288

abbrev pub max_name_bytes : ℕ
max_name_bytes = 128

abbrev pub max_version_bytes : ℕ
max_version_bytes = 64

abbrev pub max_description_bytes : ℕ
max_description_bytes = 1024

abbrev pub max_hierarchy_path_bytes : ℕ
max_hierarchy_path_bytes = 256

abbrev pub max_tags : ℕ
max_tags = 16

abbrev pub max_tag_bytes : ℕ
max_tag_bytes = 64

abbrev pub max_all_tags_bytes : ℕ
max_all_tags_bytes = 512

abbrev pub max_base_card_bytes : ℕ
max_base_card_bytes = 4096

abbrev pub max_skill_path_bytes : ℕ
max_skill_path_bytes = 512

abbrev pub max_skill_name_bytes : ℕ
max_skill_name_bytes = 128

abbrev pub max_skill_description : ℕ
max_skill_description = 1024

abbrev pub max_resource_id_bytes : ℕ
max_resource_id_bytes = 128

abbrev pub max_resource_kind_bytes : ℕ
max_resource_kind_bytes = 32

abbrev pub max_resource_path_bytes : ℕ
max_resource_path_bytes = 512

abbrev pub max_operation_id_bytes : ℕ
max_operation_id_bytes = 128

abbrev pub max_operation_description : ℕ
max_operation_description = 1024

abbrev pub max_provider_alias_bytes : ℕ
max_provider_alias_bytes = 128

abbrev pub max_operation_target_bytes : ℕ
max_operation_target_bytes = 256

abbrev pub max_context_id_bytes : ℕ
max_context_id_bytes = 128

abbrev pub max_context_path_bytes : ℕ
max_context_path_bytes = 512

abbrev pub max_provider_id_bytes : ℕ
max_provider_id_bytes = 128

abbrev pub max_provider_type_bytes : ℕ
max_provider_type_bytes = 32

abbrev pub max_server_ref_bytes : ℕ
max_server_ref_bytes = 256
