-- ===== src/Capability/Yaml/Bounds.antt =====
-- The walk over YAML nodes of internal/capability/yaml.go, against what it stands for.
use tappet.Capability.Hierarchy.{member}
use tappet.Capability.Yaml.{
  YamlLimits, YamlKind, Node, node, Nodes, nil, cons, node_kind, node_tag, node_value, is_mapping,
  is_scalar, is_alias, nodes_length, check_keys, check_mapping, validate_yaml_node,
  validate_yaml_nodes, parse_bounded_yaml,
}
use tappet.Prelude.{
  ℕ, suc, ◌+◌, ◌%◌, ◌≤◌, ◌≡◌, refl, Bool, true, false, not, ◌&&◌, ◌||◌, Option, none, some, List,
  [], ◌∷◌, leb, if◌then◌else◌, length, Bytes, codes, bytes_eq, is_empty, Result, ok, err, arith,
}
use Prim.Native.Nat.{max}

-- How many nodes there are, and how deep they nest.
unfoldable mutual
  pub size : Node → ℕ
  size (node _ _ _ _ content) = suc (sizes content)

  pub sizes : Nodes → ℕ
  sizes nil = 0
  sizes (cons n ns) = size n + sizes ns

unfoldable mutual
  pub height : Node → ℕ
  height (node _ _ _ _ content) = suc (heights content)

  pub heights : Nodes → ℕ
  heights nil = 0
  heights (cons n ns) = max (height n) (heights ns)

-- The keys of a mapping are distinct strings, none a merge key, and each has a value.
unfoldable pub plain_keys : List Bytes → Nodes → Bool
unfolding member
plain_keys seen nil = true
plain_keys seen (cons key nil) = false
plain_keys seen (cons key (cons value rest)) =
    not (bytes_eq (node_value key) (codes "<<"))
    && is_scalar (node_kind key)
    && bytes_eq (node_tag key) (codes "!!str")
    && not (member (node_value key) seen)
    && plain_keys (node_value key ∷ seen) rest

-- No alias, no anchor, and plain keys in every mapping.
unfoldable mutual
  unfolding plain_keys

  pub plain : Node → Bool
  plain (node kind tag value anchor content) =
      not (is_alias kind)
      && is_empty anchor
      && (not (is_mapping kind) || plain_keys [] content)
      && plains content

  pub plains : Nodes → Bool
  plains nil = true
  plains (cons n ns) = plain n && plains ns

abbrev pub value_of {ℓ} : {E A : Type ℓ} → Result E A → Option A
value_of (ok a) = some a
value_of (err _) = none

check_keys_lem :
    (ns : Nodes) (seen : List Bytes)
    → value_of (check_keys ns seen) ≡ (if plain_keys seen ns then some tt else none)
unfolding check_keys plain_keys
check_keys_lem nil seen = refl
check_keys_lem (cons key nil) seen = refl
check_keys_lem (cons key (cons value rest)) seen =
    ground (arith, check_keys_lem rest (node_value key ∷ seen))

plain_keys-even :
    (ns : Nodes) (seen : List Bytes) → plain_keys seen ns ≡ true → nodes_length ns % 2 ≡ 0
unfolding plain_keys nodes_length
plain_keys-even nil seen h = refl
plain_keys-even (cons key nil) seen h = absurd (ground arith)
plain_keys-even (cons key (cons value rest)) seen h =
    ground (arith, plain_keys-even rest (node_value key ∷ seen))

check_mapping_lem :
    (kind : YamlKind) (ns : Nodes)
    → value_of (check_mapping kind ns)
      ≡ (if not (is_mapping kind) || plain_keys [] ns then some tt else none)
unfolding check_mapping
check_mapping_lem kind ns = ground (arith, check_keys_lem ns [], plain_keys-even ns [])

-- One node, with the walk over its content.
validate_yaml_node-step :
    (limits : YamlLimits) (depth count : ℕ) (kind : YamlKind) (tag value anchor : Bytes)
    (content : Nodes)
    → (count + 1 ≤ limits.nodes
        → depth ≤ limits.depth
        → value_of (validate_yaml_nodes limits (suc depth) content (count + 1)) ≡ (
            if leb (depth + heights content) limits.depth
              && leb (count + 1 + sizes content) limits.nodes
              && plains content
            then some (count + 1 + sizes content)
            else none))
    → value_of (validate_yaml_node limits depth (node kind tag value anchor content) count) ≡ (
        if leb (depth + heights content) limits.depth
          && leb (count + 1 + sizes content) limits.nodes
          && plain (node kind tag value anchor content)
        then some (count + 1 + sizes content)
        else none)
unfolding validate_yaml_node plain
validate_yaml_node-step limits depth count kind tag value anchor content h =
    ground (arith, h, check_mapping_lem kind content)

-- What the walk over nodes gives, one level below `depth`.
abbrev Counted : YamlLimits → ℕ → ℕ → Nodes → Type 0
Counted limits depth count ns = value_of (validate_yaml_nodes limits (suc depth) ns count) ≡ (
    if leb (depth + heights ns) limits.depth && leb (count + sizes ns) limits.nodes && plains ns
    then some (count + sizes ns)
    else none)

validate_yaml_nodes-nil :
    (limits : YamlLimits) (depth count : ℕ)
    → count ≤ limits.nodes
    → depth ≤ limits.depth
    → Counted limits depth count nil
unfolding validate_yaml_node plain size height
validate_yaml_nodes-nil limits depth count fit deep = ground arith

validate_yaml_nodes-step :
    (limits : YamlLimits) (depth count : ℕ) (n : Node) (ns : Nodes)
    → value_of (validate_yaml_node limits (suc depth) n count) ≡ (
        if leb (depth + height n) limits.depth && leb (count + size n) limits.nodes && plain n
        then some (count + size n)
        else none)
    → (count + size n ≤ limits.nodes
        → depth ≤ limits.depth
        → Counted limits depth (count + size n) ns)
    → depth ≤ limits.depth
    → Counted limits depth count (cons n ns)
unfolding plain size height validate_yaml_node
validate_yaml_nodes-step limits depth count n ns here later deep = ground (arith, here, later)

mutual
  unfolding size height

  validate_yaml_node-value :
      (limits : YamlLimits) (depth count : ℕ) (n : Node)
      → value_of (validate_yaml_node limits (suc depth) n count) ≡ (
          if leb (depth + height n) limits.depth && leb (count + size n) limits.nodes && plain n
          then some (count + size n)
          else none)
  validate_yaml_node-value limits depth count (node kind tag value anchor content) =
      let step =
        validate_yaml_node-step limits (suc depth) count kind tag value anchor content
          (λ fit deep. validate_yaml_nodes-value limits (suc depth) (count + 1) content fit deep) in
      ground (arith, step)

  validate_yaml_nodes-value :
      (limits : YamlLimits) (depth count : ℕ) (ns : Nodes)
      → count ≤ limits.nodes
      → depth ≤ limits.depth
      → Counted limits depth count ns
  validate_yaml_nodes-value limits depth count nil fit deep =
      validate_yaml_nodes-nil limits depth count fit deep
  validate_yaml_nodes-value limits depth count (cons n ns) fit deep =
      validate_yaml_nodes-step limits depth count n ns
        (validate_yaml_node-value limits depth count n)
        (λ fit' deep'. validate_yaml_nodes-value limits depth (count + size n) ns fit' deep') deep

-- The walk over a YAML document accepts its node exactly when the node nests within the limit,
-- has no more nodes than the limit, and is free of aliases, anchors, merge keys and keys that
-- are repeated or not strings; it then returns the number of nodes.
pub validate_yaml_node_lem :
    (limits : YamlLimits) (n : Node)
    → value_of (validate_yaml_node limits 1 n 0) ≡ (
        if leb (height n) limits.depth && leb (size n) limits.nodes && plain n
        then some (size n)
        else none)
validate_yaml_node_lem limits n = ground (arith, validate_yaml_node-value limits 0 0 n)

-- What a text that is accepted has for its node.
pub record IsBoundedYaml (limits : YamlLimits) (n : Node) : Type 0 where
  pub deep : height n ≤ limits.depth
  pub many : size n ≤ limits.nodes
  pub plainly : plain n ≡ true

-- A text that is accepted is within the limit and has one document, whose node is bounded.
pub parse_bounded_yaml-IsBoundedYaml :
    (is_space : ℕ → Bool) (decode : ℕ → Bytes → Option Nodes) (limits : YamlLimits) (text : Bytes)
    (n : Node)
    → parse_bounded_yaml is_space decode limits text ≡ ok n
    → (length text ≤ limits.bytes) × (decode 0 text ≡ some (cons n nil)) × IsBoundedYaml limits n
unfolding parse_bounded_yaml
parse_bounded_yaml-IsBoundedYaml is_space decode limits text n h =
    let law = validate_yaml_node_lem limits n in
    (
      ground (arith, h),
      ground (arith, h),
      record {
        deep = ground (arith, law, h);
        many = ground (arith, law, h);
        plainly = ground (arith, law, h);
      },
    )
