-- ===== src/Capability/Types.antt =====
-- internal/capability/types.go and record.go: the data of a capability package. Where the source
-- has a named string type with constants (`ArtifactKind`), the model has an enumeration.
use tappet.Prelude.{ℕ, Option, List, Map, Bytes}
use tappet.Capability.Snapshot.{Snapshot}

pub record Metadata : Type 0 where
  pub id : Bytes
  pub name : Bytes
  pub version : Bytes
  pub description : Bytes
  pub tags : List Bytes

pub record Operation : Type 0 where
  pub id : Bytes
  pub description : Bytes
  pub provider : Bytes
  pub target : Bytes

pub record ProviderBinding : Type 0 where
  pub id : Bytes
  pub kind : Bytes
  pub server_ref : Bytes

pub record SkillMetadata : Type 0 where
  pub name : Bytes
  pub description : Bytes
  pub license : Bytes
  pub allowed_tools : Bytes
  pub compatibility : Bytes
  pub metadata : Map Bytes Bytes

pub data ArtifactKind : Type 0 where
  manifest skill skill_resource context : ArtifactKind

pub record Artifact : Type 0 where
  pub ref : Bytes
  pub kind : ArtifactKind
  pub id : Bytes
  pub path : Bytes
  pub media_type : Bytes
  pub bytes : ℕ
  pub sha256 : Bytes

pub record Skill : Type 0 where
  pub path : Bytes
  pub metadata : SkillMetadata
  pub artifact : Artifact
  pub resources : List Artifact

-- One immutable normalized capability generation (`Record` of record.go).
pub record Record : Type 0 where
  pub metadata : Metadata
  pub parent : Bytes
  pub manifest_digest : Bytes
  pub skills : List Skill
  pub operations : List Operation
  pub context : List Artifact
  pub providers : List ProviderBinding
  pub artifacts : Map Bytes Artifact
  pub snapshot : Option Snapshot
