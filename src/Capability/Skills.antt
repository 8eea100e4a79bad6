-- ===== src/Capability/Skills.antt =====
-- `ParseSkill` of internal/capability/skill.go. NFC, NFKC, lower case and the Unicode tables are parameters, and so
-- is the YAML parser. The texts are UTF-8, as the document is when they are read.
use tappet.Capability.Identifiers.{valid_utf8}
use tappet.Capability.Manifest.{mapping, required_string, optional_string}
use tappet.Capability.PackageLimits.{
  skill_max_bytes, skill_frontmatter_max, manifest_max_depth, manifest_max_nodes,
  max_skill_name_bytes, max_skill_description,
}
use tappet.Capability.PackagePaths.{PackageError, package_error}
use tappet.Capability.Paths.{split, join, trim_right}
use tappet.Capability.Search.{runes_from, trim_func}
use tappet.Capability.Types.{SkillMetadata}
use tappet.Capability.Yaml.{
  Node, node, Nodes, cons, node_kind, node_value, is_mapping, is_scalar, YamlLimits, trim_return,
  parse_bounded_yaml,
}
use tappet.Prelude.{
  ℕ, Bool, true, false, not, ◌&&◌, ◌||◌, Option, none, some, List, [], ◌∷◌, ◌++◌, ◌==◌, ltb,
  if◌then◌else◌, length, Bytes, codes, bytes_eq, bytes_key, has_prefix, is_empty, Map, lookup,
  insert, Result, ok, err, ◌>>=◌, ◌>>◌, fail_if,
}

pub record SkillDocument : Type 0 where
  pub metadata : SkillMetadata
  pub body : Bytes

pub record SkillCodec : Type 0 where
  pub nfc : Bytes → Bytes
  pub nfkc : Bytes → Bytes
  pub to_lower : Bytes → Bytes
  pub is_space : ℕ → Bool
  pub is_letter : ℕ → Bool
  pub is_digit : ℕ → Bool
  pub decode : ℕ → Bytes → Option Nodes

abbrev pub max_agent_skill_name_characters : ℕ
max_agent_skill_name_characters = 64

abbrev pub max_agent_skill_description_chars : ℕ
max_agent_skill_description_chars = 1024

abbrev pub max_agent_skill_compatibility_chars : ℕ
max_agent_skill_compatibility_chars = 500

-- The loop of `splitSkillFrontmatter` over the lines behind the first, with the lines so far.
unfoldable pub split_at_marker : List Bytes → Bytes → Option (Bytes × Bytes)
unfolding trim_return join
split_at_marker [] front = none
split_at_marker (line ∷ lines) front =
    let later = split_at_marker lines (front ++ (line ++ 10 ∷ [])) in
    if bytes_eq (trim_return line) (codes "---") then some (front, join 10 lines) else later

abbrev behind_first : List Bytes → List Bytes
behind_first [] = []
behind_first (_ ∷ lines) = lines

-- `splitSkillFrontmatter`: the frontmatter and the body.
unfoldable pub split_skill_frontmatter : Bytes → Option (Bytes × Bytes)
unfolding split_at_marker split has_prefix
split_skill_frontmatter text =
    if has_prefix text (codes "---" ++ 10 ∷ []) || has_prefix text (codes "---" ++ 13 ∷ 10 ∷ [])
    then split_at_marker (behind_first (split 10 text)) []
    else none

-- `path.Base`
abbrev last_element : List Bytes → Bytes
last_element [] = []
last_element (p ∷ []) = p
last_element (p ∷ q ∷ ps) = last_element (q ∷ ps)

unfoldable pub base : Bytes → Bytes
unfolding trim_right split
base path =
    if is_empty path
    then codes "."
    else if is_empty (trim_right b'/' path)
    then codes "/"
    else last_element (split b'/' (trim_right b'/' path))

unfoldable pub ends_in_hyphen : Bytes → Bool
ends_in_hyphen [] = false
ends_in_hyphen (c ∷ s) = (is_empty s && c == b'-') || ends_in_hyphen s

-- `strings.Contains(name, "--")`
unfoldable pub has_double_hyphen : Bytes → Bool
unfolding has_prefix
has_double_hyphen [] = false
has_double_hyphen (c ∷ s) = has_prefix (c ∷ s) (codes "--") || has_double_hyphen s

unfoldable pub all_runes : (ℕ → Bool) → List ℕ → Bool
all_runes p [] = true
all_runes p (r ∷ rs) = p r && all_runes p rs

abbrev pub rune_count : Bytes → ℕ
unfolding runes_from
rune_count s = length (runes_from 0 0 s)

abbrev pub skill_file : Bytes → Bytes
skill_file skill_path = skill_path ++ codes "/SKILL.md"

module _ (codec : SkillCodec) where
  open codec use {nfc, nfkc, to_lower, is_space, is_letter, is_digit, decode}

  -- `validateAgentSkillName`: whether it returns no error.
  unfoldable pub agent_skill_name_valid : Bytes → Bytes → Bool
  agent_skill_name_valid name directory_name =
      not (is_empty name)
      && not (
          ltb max_agent_skill_name_characters (rune_count name)
          || ltb max_skill_name_bytes (length name))
      && bytes_eq name (to_lower name)
      && not (has_prefix name (codes "-") || ends_in_hyphen name)
      && not (has_double_hyphen name)
      && all_runes (λ r. r == b'-' || is_letter r || is_digit r) (runes_from 0 0 name)
      && bytes_eq (nfkc directory_name) name

  -- The loop of `parseSkillMetadataMap`.
  unfoldable pub metadata_pairs : Nodes → Map Bytes Bytes → Result PackageError (Map Bytes Bytes)
  metadata_pairs (cons key (cons value rest)) metadata = do
    fail_if (not (is_scalar (node_kind key)) || not (is_scalar (node_kind value))) (
        package_error (codes "package_skill_metadata_invalid") (codes "skill.frontmatter.metadata"))
    metadata_pairs rest (insert (nfc (node_value key)) (nfc (node_value value)) metadata)
  metadata_pairs _ metadata = ok metadata

  -- `parseSkillMetadataMap`
  unfoldable pub parse_skill_metadata_map : Option Node → Result PackageError (Map Bytes Bytes)
  parse_skill_metadata_map none = ok []
  parse_skill_metadata_map (some (node kind tag value anchor content)) = do
    fail_if (not (is_mapping kind)) (
        package_error (codes "package_skill_metadata_invalid") (codes "skill.frontmatter.metadata"))
    metadata_pairs content []

  -- The checks of `ParseSkill` on the normalized texts, for a skill under that path.
  unfoldable pub check_skill_texts : Bytes → Bytes → Bytes → Bytes → Result PackageError (Unit {0})
  check_skill_texts skill_path name description compatibility = do
    fail_if (not (agent_skill_name_valid name (base skill_path)))
        (package_error (codes "package_skill_metadata_invalid") (skill_file skill_path))
    fail_if (is_empty description)
        (package_error (codes "package_skill_metadata_invalid") (skill_file skill_path))
    fail_if
        (ltb max_agent_skill_description_chars (rune_count description)
          || ltb max_skill_description (length description))
        (package_error (codes "package_skill_metadata_invalid") (skill_file skill_path))
    fail_if (ltb max_agent_skill_compatibility_chars (rune_count compatibility))
        (package_error (codes "package_skill_metadata_invalid") (skill_file skill_path))

  -- The frontmatter's fields.
  unfoldable pub parse_frontmatter : Node → Bytes → Result PackageError SkillMetadata
  parse_frontmatter root skill_path = do
    fields ← mapping root (codes "skill.frontmatter") (
        codes "name"
        ∷ codes "description"
        ∷ codes "license"
        ∷ codes "allowed-tools"
        ∷ codes "metadata"
        ∷ codes "compatibility"
        ∷ [])
    name ← required_string fields (codes "name") (codes "skill.frontmatter")
    description ← required_string fields (codes "description") (codes "skill.frontmatter")
    license ← optional_string fields (codes "license") (codes "skill.frontmatter")
    allowed_tools ← optional_string fields (codes "allowed-tools") (codes "skill.frontmatter")
    compatibility ← optional_string fields (codes "compatibility") (codes "skill.frontmatter")
    let normal_name = nfkc (trim_func is_space name)
    let normal_description = nfc (trim_func is_space description)
    _ ← check_skill_texts skill_path normal_name normal_description (nfc compatibility)
    metadata ← parse_skill_metadata_map (lookup (codes "metadata") fields)
    ok (record {
      name = normal_name;
      description = normal_description;
      license = nfc license;
      allowed_tools = nfc allowed_tools;
      compatibility = nfc compatibility;
      metadata = metadata;
    })

  abbrev pub frontmatter_limits : YamlLimits
  frontmatter_limits = record {
    bytes = skill_frontmatter_max;
    depth = manifest_max_depth;
    nodes = manifest_max_nodes;
  }

  -- `ParseSkill`
  unfoldable pub parse_skill : Bytes → Bytes → Result PackageError SkillDocument
  parse_skill text skill_path = do
    fail_if (ltb skill_max_bytes (length text))
        (package_error (codes "package_skill_limit_exceeded") (skill_file skill_path))
    fail_if (not (valid_utf8 text))
        (package_error (codes "package_skill_invalid") (skill_file skill_path))
    parts ← elim (split_skill_frontmatter text) [
      | none ↦ err (package_error (codes "package_skill_invalid") (skill_file skill_path))
      | some parts ↦ ok parts
    ]
    fail_if (ltb skill_frontmatter_max (length parts.0))
        (package_error (codes "package_skill_frontmatter_limit_exceeded") (skill_file skill_path))
    root ← elim (parse_bounded_yaml is_space decode frontmatter_limits parts.0) [
      | err _ ↦
          err (package_error (codes "package_skill_frontmatter_invalid") (skill_file skill_path))
      | ok root ↦ ok root
    ]
    metadata ← parse_frontmatter root skill_path
    ok (record { metadata = metadata; body = trim_func is_space parts.1 })
