-- ===== src/Capability/Manifest.antt =====
-- The data of a manifest (internal/capability/types.go) and the readers of its fields (yaml.go and
-- manifest.go). An error keeps its code and its field's path; NFC is a parameter.
pub mod Items
pub mod Whole
pub mod Lists
pub mod Valid
pub mod Providers
pub mod Documents
pub mod Sound
use tappet.Capability.Hierarchy.{member}
use tappet.Capability.Identifiers.{local_id_matches, is_lower_alnum}
use tappet.Capability.PackagePaths.{PackageError, package_error, validate_required_text}
use tappet.Capability.Paths.{split}
use tappet.Capability.Read.{decimal}
use tappet.Capability.Types.{Metadata, Operation, ProviderBinding}
use tappet.Capability.Yaml.{
  Node, node, Nodes, nil, cons, YamlKind, node_kind, node_tag, node_value, is_mapping, is_scalar,
  is_sequence,
}
use tappet.Prelude.{
  ℕ, zero, suc, ◌+◌, Bool, true, false, not, ◌&&◌, ◌||◌, Option, none, some, List, [], ◌∷◌, ◌++◌,
  ◌==◌, ltb, leb, if◌then◌else◌, length, Bytes, codes, bytes_eq, bytes_key, is_empty, Map, lookup,
  Result, ok, err, ◌>>=◌, ◌>>◌, fail_if,
}

pub record SkillResource : Type 0 where
  pub id : Bytes
  pub kind : Bytes
  pub path : Bytes

pub record SkillDeclaration : Type 0 where
  pub path : Bytes
  pub resources : List SkillResource

pub record ContextReference : Type 0 where
  pub id : Bytes
  pub path : Bytes

pub record Spec : Type 0 where
  pub parent : Bytes
  pub skills : List SkillDeclaration
  pub operations : List Operation
  pub context : List ContextReference
  pub providers : List ProviderBinding

pub record Manifest : Type 0 where
  pub api_version : Bytes
  pub kind : Bytes
  pub metadata : Metadata
  pub spec : Spec

-- The paths of a field and of an item.
abbrev pub field : Bytes → Bytes → Bytes
field path name = path ++ b'.' ∷ name

unfoldable pub item_path : Bytes → ℕ → Bytes
unfolding decimal
item_path path i = path ++ b'[' ∷ (decimal 20 i ++ b']' ∷ [])

-- `countLimitError`, `duplicateError`
abbrev pub count_limit_error : Bytes → PackageError
count_limit_error path = package_error (codes "package_count_limit_exceeded") path

abbrev pub duplicate_error : Bytes → PackageError
duplicate_error path = package_error (codes "package_duplicate_reference") path

unfoldable pub node_list : Nodes → List Node
node_list nil = []
node_list (cons n ns) = n ∷ node_list ns

-- The loop of `mapping`, over keys that the walk over the nodes has checked.
unfoldable pub mapping_fields : Nodes → Bytes → List Bytes → Result PackageError (Map Bytes Node)
unfolding member
mapping_fields (cons key (cons value rest)) path allowed = do
  fail_if (not (member (node_value key) allowed))
      (package_error (codes "package_manifest_unknown_field") (field path (node_value key)))
  fields ← mapping_fields rest path allowed
  ok ((node_value key, value) ∷ fields)
mapping_fields _ path allowed = ok []

-- `mapping`
unfoldable pub mapping : Node → Bytes → List Bytes → Result PackageError (Map Bytes Node)
unfolding mapping_fields
mapping (node kind tag value anchor content) path allowed = do
  fail_if (not (is_mapping kind)) (package_error (codes "package_manifest_type_invalid") path)
  mapping_fields content path allowed

-- `requiredField`
unfoldable pub required_field : Map Bytes Node → Bytes → Bytes → Result PackageError Node
unfolding lookup
required_field fields name path = elim (lookup name fields) [
  | none ↦ err (package_error (codes "package_manifest_required_field") (field path name))
  | some n ↦ ok n
]

-- `scalarString`, of a node that is there.
unfoldable pub scalar_string : Node → Bytes → Result PackageError Bytes
scalar_string n path = do
  fail_if (not (is_scalar (node_kind n)) || not (bytes_eq (node_tag n) (codes "!!str")))
      (package_error (codes "package_manifest_type_invalid") path)
  ok (node_value n)

-- `optionalString`
unfoldable pub optional_string : Map Bytes Node → Bytes → Bytes → Result PackageError Bytes
unfolding scalar_string lookup
optional_string fields name path = elim (lookup name fields) [
  | none ↦ ok []
  | some n ↦ scalar_string n (field path name)
]

-- `sequence`, of a node or nil.
unfoldable pub sequence : Option Node → Bytes → Result PackageError (List Node)
unfolding node_list
sequence none path = ok []
sequence (some (node kind tag value anchor content)) path = do
  fail_if (not (is_sequence kind)) (package_error (codes "package_manifest_type_invalid") path)
  ok (node_list content)

-- A sequence of at most `max` items.
unfoldable pub bounded_sequence : Option Node → Bytes → ℕ → Result PackageError (List Node)
unfolding sequence
bounded_sequence n path max = do
  items ← sequence n path
  fail_if (ltb max (length items)) (count_limit_error path)
  ok items

-- `requiredString`
unfoldable pub required_string : Map Bytes Node → Bytes → Bytes → Result PackageError Bytes
unfolding required_field scalar_string
required_string fields name path = do
  n ← required_field fields name path
  scalar_string n (field path name)

module _ (nfc : Bytes → Bytes) where
  -- `requiredNormalizedID`
  unfoldable pub required_normalized_id :
      Map Bytes Node → Bytes → Bytes → ℕ → Result PackageError Bytes
  unfolding required_string validate_required_text local_id_matches
  required_normalized_id fields name item max_bytes = do
    value ← required_string fields name item
    _ ← validate_required_text (field item name) (nfc value) max_bytes
    fail_if (not (local_id_matches (nfc value)))
        (package_error (codes "package_identifier_invalid") (field item name))
    ok (nfc value)

  -- The loop of `parseStringSequence`.
  unfoldable pub parse_strings : Bytes → ℕ → ℕ → List Node → Result PackageError (List Bytes)
  unfolding scalar_string item_path
  parse_strings path max_bytes i [] = ok []
  parse_strings path max_bytes i (item ∷ items) = do
    value ← scalar_string item (item_path path i)
    fail_if (ltb max_bytes (length (nfc value)))
        (package_error (codes "package_field_limit_exceeded") (item_path path i))
    values ← parse_strings path max_bytes (suc i) items
    ok (nfc value ∷ values)

  -- `parseStringSequence`
  unfoldable pub parse_string_sequence :
      Option Node → Bytes → ℕ → ℕ → Result PackageError (List Bytes)
  unfolding bounded_sequence parse_strings
  parse_string_sequence n path max_items max_bytes = do
    items ← bounded_sequence n path max_items
    parse_strings path max_bytes 0 items

-- The longest part in front of which every byte passes, and what is left.
unfoldable pub span : (ℕ → Bool) → Bytes → Bytes × Bytes
span p [] = ([], [])
span p (c ∷ s) = let (front, rest) = span p s in if p c then (c ∷ front, rest) else ([], c ∷ s)

abbrev is_digit : ℕ → Bool
is_digit c = leb b'0' c && leb c b'9'

unfoldable pub all_bytes : (ℕ → Bool) → Bytes → Bool
all_bytes p [] = true
all_bytes p (c ∷ s) = p c && all_bytes p s

-- `0|[1-9][0-9]*`
unfoldable pub numeric_matches : Bytes → Bool
unfolding all_bytes
numeric_matches [] = false
numeric_matches (c ∷ s) = is_digit c && all_bytes is_digit s && (is_empty s || not (c == b'0'))

-- `[0-9A-Za-z-]+`
unfoldable pub label_matches : Bytes → Bool
unfolding all_bytes
label_matches s =
    not (is_empty s)
    && all_bytes (λ c. is_lower_alnum c || (leb b'A' c && leb c b'Z') || c == b'-') s

unfoldable pub all_labels : List Bytes → Bool
unfolding label_matches
all_labels [] = true
all_labels (l ∷ ls) = label_matches l && all_labels ls

unfoldable pub three_numbers : List Bytes → Bool
unfolding numeric_matches
three_numbers (a ∷ b ∷ c ∷ []) = numeric_matches a && numeric_matches b && numeric_matches c
three_numbers _ = false

unfoldable pub build_matches : Bytes → Bool
unfolding all_labels split
build_matches [] = true
build_matches (_ ∷ build) = all_labels (split b'.' build)

unfoldable pub release_matches : Bytes × Bytes → Bool
unfolding all_labels split build_matches
release_matches (release, build) = all_labels (split b'.' release) && build_matches build

unfoldable pub rest_matches : Bytes → Bool
unfolding span build_matches release_matches
rest_matches [] = true
rest_matches (c ∷ s) =
    if c == b'-'
    then release_matches (span (λ d. not (d == b'+')) s)
    else c == b'+' && build_matches (c ∷ s)

-- `semverPattern`: digits and dots come first, then labels behind `-`, then labels behind `+`.
unfoldable pub semver_matches : Bytes → Bool
unfolding span three_numbers rest_matches split
semver_matches s =
    let (core, rest) = span (λ c. is_digit c || c == b'.') s in
    three_numbers (split b'.' core) && rest_matches rest
