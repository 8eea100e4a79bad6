-- ===== src/Capability/Describe.antt =====
-- internal/capability/describe.go: projections of a package, their pages, and the store that keeps
-- the ones that are read through cursors. The JSON encoder is a parameter: any function.
pub mod Pages
pub mod Store
pub mod Requests
pub mod Cursors
pub mod Walks
pub mod Steps
pub mod Paging
pub mod Accounting
pub mod Kept
use tappet.Capability.Types.{Record, Metadata, Artifact, Skill, SkillMetadata, Operation}
use tappet.Capability.Paths.{bytes_lt, sort_slice}
use tappet.Capability.Identifiers.{valid_utf8}
use tappet.Capability.Limits.{describe_include_max_bytes}
use tappet.Prelude.{
  ℕ, ◌+◌, ◌-◌, Bool, true, false, ◌&&◌, ◌||◌, not, Option, none, some, List, [], ◌∷◌, ◌++◌, map,
  ◌==◌, ltb, leb, if◌then◌else◌, length, take, drop, Bytes, codes, bytes_eq, is_empty, Result, ok,
  err,
}

abbrev pub describe_skills : Bytes
describe_skills = codes "skills"

abbrev pub describe_operations : Bytes
describe_operations = codes "operations"

abbrev pub describe_references : Bytes
describe_references = codes "references"

pub record ArtifactDescription : Type 0 where
  pub ref : Bytes
  pub media_type : Bytes
  pub bytes : ℕ
  pub sha256 : Bytes

pub record SkillDescription : Type 0 where
  pub id : Bytes
  pub name : Bytes
  pub description : Bytes
  pub license : Bytes
  pub compatibility : Bytes
  pub artifact : ArtifactDescription

pub record OperationDescription : Type 0 where
  pub id : Bytes
  pub description : Bytes
  pub metadata_state : Bytes

pub record ReferenceDescription : Type 0 where
  pub id : Bytes
  pub kind : Bytes
  pub skill_id : Bytes
  pub artifact : ArtifactDescription

pub record CapabilityCounts : Type 0 where
  pub skills : ℕ
  pub operations : ℕ
  pub references : ℕ

-- `Projection`, whose exported fields are also those of `projectionWire`.
pub record Projection : Type 0 where
  pub capability_id : Bytes
  pub name : Bytes
  pub version : Bytes
  pub description : Bytes
  pub manifest_sha256 : Bytes
  pub include : List Bytes
  pub counts : CapabilityCounts
  pub skills : List SkillDescription
  pub operations : List OperationDescription
  pub references : List ReferenceDescription
  pub bytes : ℕ

pub record DescribeResponse : Type 0 where
  pub capability_id : Bytes
  pub name : Bytes
  pub version : Bytes
  pub description : Bytes
  pub manifest_sha256 : Bytes
  pub include : List Bytes
  pub counts : CapabilityCounts
  pub skills : List SkillDescription
  pub operations : List OperationDescription
  pub references : List ReferenceDescription
  pub next_cursor : Bytes

-- `describeArtifact`
abbrev pub describe_artifact : Artifact → ArtifactDescription
describe_artifact a = record {
  ref = a.ref;
  media_type = a.media_type;
  bytes = a.bytes;
  sha256 = a.sha256;
}

abbrev pub describe_skill : Skill → SkillDescription
describe_skill s = record {
  id = s.path;
  name = s.metadata.name;
  description = s.metadata.description;
  license = s.metadata.license;
  compatibility = s.metadata.compatibility;
  artifact = describe_artifact s.artifact;
}

abbrev pub describe_operation : Operation → OperationDescription
describe_operation o = record {
  id = o.id;
  description = o.description;
  metadata_state = codes "unavailable";
}

abbrev pub context_reference : Artifact → ReferenceDescription
context_reference a = record {
  id = a.id;
  kind = codes "context";
  skill_id = [];
  artifact = describe_artifact a;
}

abbrev pub skill_reference : Skill → Artifact → ReferenceDescription
skill_reference s a = record {
  id = s.path ++ b'/' ∷ a.id;
  kind = codes "skill_reference";
  skill_id = s.path;
  artifact = describe_artifact a;
}

unfoldable pub skill_references : List Skill → List ReferenceDescription
skill_references [] = []
skill_references (s ∷ ss) = map (skill_reference s) s.resources ++ skill_references ss

-- A section that the source knows.
abbrev pub known_section : Bytes → Bool
known_section section =
    bytes_eq section describe_skills
    || bytes_eq section describe_operations
    || bytes_eq section describe_references

unfoldable pub selects : Bytes → List Bytes → Bool
selects section [] = false
selects section (x ∷ xs) = bytes_eq x section || selects section xs

-- The loop of `normalizeIncludes`: whether a section is invalid, unknown or a duplicate.
unfoldable pub include_invalid : List Bytes → List Bytes → Bool
unfolding selects valid_utf8
include_invalid selected [] = false
include_invalid selected (section ∷ rest) =
    (not (valid_utf8 section) || ltb describe_include_max_bytes (length section))
    || not (known_section section)
    || selects section selected
    || include_invalid (section ∷ selected) rest

abbrev keep : Bool → Bytes → List Bytes → List Bytes
keep true section rest = section ∷ rest
keep false section rest = rest

-- `normalizeIncludes`: none for the error.
unfoldable pub normalize_includes : List Bytes → Option (List Bytes)
unfolding include_invalid selects
normalize_includes include =
    if length include == 0 || ltb 3 (length include)
    then none
    else if include_invalid [] include
    then none
    else some (
        keep (selects describe_skills include) describe_skills (
          keep (selects describe_operations include) describe_operations
            (keep (selects describe_references include) describe_references [])))

abbrev pub no_sections : Record → List Bytes → Projection
no_sections r include = record {
  capability_id = r.metadata.id;
  name = r.metadata.name;
  version = r.metadata.version;
  description = r.metadata.description;
  manifest_sha256 = r.manifest_digest;
  include = include;
  counts = record { skills = 0; operations = 0; references = 0 };
  skills = [];
  operations = [];
  references = [];
  bytes = 0;
}

-- One turn of the loop of `BuildProjection`.
unfoldable pub add_section : Record → Bytes → Projection → Projection
unfolding sort_slice bytes_lt skill_references
add_section r section p =
    if bytes_eq section describe_skills
    then (let skills =
          sort_slice (λ a b. bytes_lt a.id b.id) (p.skills ++ map describe_skill r.skills) in
        record p { skills = skills; counts = record p.counts { skills = length skills } })
    else if bytes_eq section describe_operations
    then (let operations = p.operations ++ map describe_operation r.operations in
        record p {
          operations = operations;
          counts = record p.counts { operations = length operations };
        })
    else if bytes_eq section describe_references
    then (let references =
          sort_slice (λ a b. bytes_lt a.id b.id)
            (p.references ++ (map context_reference r.context ++ skill_references r.skills)) in
        record p {
          references = references;
          counts = record p.counts { references = length references };
        })
    else p

unfoldable pub add_sections : Record → List Bytes → Projection → Projection
unfolding add_section
add_sections r [] p = p
add_sections r (section ∷ rest) p = add_sections r rest (add_section r section p)

-- `BuildProjection`: the encoder sees the projection without its size.
unfoldable pub build_projection : (Projection → Bytes) → Record → List Bytes → Option Projection
unfolding normalize_includes add_sections
build_projection marshal r include = elim (normalize_includes include) [
  | none ↦ none
  | some canonical ↦
      let built = add_sections r canonical (no_sections r canonical) in
      some (record built { bytes = length (marshal built) })
]

-- `projectionItemCount`
abbrev pub projection_item_count : Projection → ℕ
projection_item_count p = length p.skills + length p.operations + length p.references

-- The closure `copySection`: what it appends, and `offset` and `remaining` after it.
unfoldable pub copy_section {ℓ} : {A : Type ℓ} → List A → ℕ → ℕ → List A × ℕ × ℕ
copy_section items offset remaining =
    if remaining == 0
    then ([], offset, remaining)
    else if leb (length items) offset
    then ([], offset - length items, remaining)
    else let end =
        if ltb (length items) (offset + remaining) then length items else offset + remaining in
      (take (end - offset) (drop offset items), 0, remaining - (end - offset))

-- `pageProjection`
unfoldable pub page_projection : Projection → ℕ → ℕ → Bytes → DescribeResponse
unfolding copy_section
page_projection p offset limit next =
    let (skills, o1, r1) = copy_section p.skills offset limit in
    let (operations, o2, r2) = copy_section p.operations o1 r1 in
    let (references, _, _) = copy_section p.references o2 r2 in
    record {
      capability_id = p.capability_id;
      name = p.name;
      version = p.version;
      description = p.description;
      manifest_sha256 = p.manifest_sha256;
      include = p.include;
      counts = p.counts;
      skills = skills;
      operations = operations;
      references = references;
      next_cursor = next;
    }
