-- ===== src/Capability/Yaml.antt =====
-- internal/capability/yaml.go: the limits on a YAML text, the scan before it is parsed, and the walk over
-- the nodes after. The parser (yaml.v3) is a parameter: the content of the document that each call of
-- `Decode` gives, or none for its error. A line is UTF-8, as the whole text is when it is scanned.
pub mod Bounds
use tappet.Capability.Hierarchy.{member}
use tappet.Capability.Identifiers.{valid_utf8}
use tappet.Capability.Paths.{split, has_byte}
use tappet.Capability.Search.{trim_func}
use tappet.Prelude.{
  ℕ, zero, suc, ◌+◌, ◌-◌, ◌%◌, Bool, true, false, not, ◌&&◌, ◌||◌, Option, none, some, List, [],
  ◌∷◌, ◌==◌, ltb, leb, if◌then◌else◌, length, Bytes, codes, bytes_eq, is_empty, Result, ok, err,
  ◌>>=◌, ◌>>◌, fail_if,
}

-- `yamlLimits`
pub record YamlLimits : Type 0 where
  pub bytes : ℕ
  pub depth : ℕ
  pub nodes : ℕ

-- `yaml.Node` of the parser, with its kind, tag, value, anchor and content.
pub data YamlKind : Type 0 where
  document_node sequence_node mapping_node scalar_node alias_node : YamlKind

mutual
  pub data Node : Type 0 where
    node : YamlKind → Bytes → Bytes → Bytes → Nodes → Node

  pub data Nodes : Type 0 where
    nil : Nodes
    cons : Node → Nodes → Nodes

pub data YamlError : Type 0 where
  too_many_bytes not_utf8 nul_byte nested_before_parsing nodes_before_parsing invalid_yaml
        multiple_documents :
      YamlError
  empty_document nesting_exceeded nodes_exceeded anchor_or_alias invalid_mapping merge_key
        key_not_string duplicate_key :
      YamlError

abbrev pub node_kind : Node → YamlKind
node_kind (node kind _ _ _ _) = kind

abbrev pub node_tag : Node → Bytes
node_tag (node _ tag _ _ _) = tag

abbrev pub node_value : Node → Bytes
node_value (node _ _ value _ _) = value

abbrev pub is_mapping : YamlKind → Bool
is_mapping mapping_node = true
is_mapping _ = false

abbrev pub is_scalar : YamlKind → Bool
is_scalar scalar_node = true
is_scalar _ = false

abbrev pub is_sequence : YamlKind → Bool
is_sequence sequence_node = true
is_sequence _ = false

abbrev pub is_alias : YamlKind → Bool
is_alias alias_node = true
is_alias _ = false

unfoldable pub nodes_length : Nodes → ℕ
nodes_length nil = 0
nodes_length (cons n ns) = suc (nodes_length ns)

-- `leadingSpaces`
unfoldable pub leading_spaces : Bytes → ℕ
leading_spaces [] = 0
leading_spaces (c ∷ s) = if c == b' ' then suc (leading_spaces s) else 0

-- `bytes.TrimSuffix(line, "\r")`
unfoldable pub trim_return : Bytes → Bytes
trim_return [] = []
trim_return (c ∷ s) = let rest = trim_return s in if c == 13 && is_empty s then [] else c ∷ rest

-- What `scanYAMLLine` has read of a line; the change of the depth is `opened` less `closed`.
pub record LineScan : Type 0 where
  pub nodes : ℕ
  pub opened : ℕ
  pub closed : ℕ
  pub single_quoted : Bool
  pub double_quoted : Bool
  pub escaped : Bool
  pub last_significant : ℕ

-- `lastSignificant == '|' || lastSignificant == '>'`
abbrev pub begins_block : LineScan → Bool
begins_block s = s.last_significant == b'|' || s.last_significant == b'>'

abbrev starts_with : ℕ → Bytes → Bool
starts_with c [] = false
starts_with c (d ∷ _) = d == c

-- A character outside quotes, at the start of the line or not, and not `#`.
unfoldable pub scan_plain : Bool → ℕ → Bytes → LineScan → LineScan
scan_plain first c rest s =
    let seen = if c == b' ' || c == 9 then s else record s { last_significant = c } in
    if c == 39
    then record seen { single_quoted = true }
    else if c == 34
    then record seen { double_quoted = true }
    else if c == b'{' || c == b'['
    then record seen { nodes = s.nodes + 1; opened = s.opened + 1 }
    else if c == b'}' || c == b']'
    then record seen { closed = s.closed + 1 }
    else if c == b':' || c == b','
    then record seen { nodes = s.nodes + 1 }
    else if c == b'-' && first && (is_empty rest || starts_with b' ' rest)
    then record seen { nodes = s.nodes + 1 }
    else seen

-- One turn of the loop of `scanYAMLLine`.
unfoldable pub scan_char : Bool → ℕ → Bytes → LineScan → LineScan
unfolding scan_plain
scan_char first c rest s =
    if s.double_quoted
    then if s.escaped
      then record s { escaped = false }
      else if c == 92
      then record s { escaped = true }
      else if c == 34
      then record s { double_quoted = false }
      else s
    else if s.single_quoted
    then if c == 39 && not (starts_with 39 rest) then record s { single_quoted = false } else s
    else scan_plain first c rest s

-- The loop, which a comment ends.
unfoldable pub scan_chars : Bool → Bytes → LineScan → LineScan
unfolding scan_char
scan_chars first [] s = s
scan_chars first (c ∷ rest) s =
    let more = scan_chars false rest (scan_char first c rest s) in
    if c == b'#' && not s.double_quoted && not s.single_quoted then s else more

-- `scanYAMLLine`
unfoldable pub scan_yaml_line : Bytes → LineScan
unfolding scan_chars
scan_yaml_line line = scan_chars true line (record {
  nodes = 1;
  opened = 0;
  closed = 0;
  single_quoted = false;
  double_quoted = false;
  escaped = false;
  last_significant = 0;
})

-- The variables of the loop of `preflightYAML`; the stack is without its bottom, -1.
pub record Preflight : Type 0 where
  pub indent_stack : List ℕ
  pub flow_depth : ℕ
  pub nodes : ℕ
  pub block_indent : Option ℕ

-- The inner loop of `preflightYAML`.
unfoldable pub pop_indents : ℕ → List ℕ → List ℕ
pop_indents indent [] = []
pop_indents indent (top ∷ stack) =
    let rest = pop_indents indent stack in if leb indent top then rest else top ∷ stack

unfoldable pub push_indent : ℕ → List ℕ → List ℕ
push_indent indent [] = indent ∷ []
push_indent indent (top ∷ stack) = if ltb top indent then indent ∷ top ∷ stack else top ∷ stack

-- Whether a line of that indentation belongs to a block scalar.
abbrev pub in_block : ℕ → Option ℕ → Bool
in_block indent none = false
in_block indent (some block) = ltb block indent

-- A line that is neither blank, nor a comment, nor in a block.
unfoldable pub preflight_line : YamlLimits → ℕ → Bytes → Preflight → Result YamlError Preflight
unfolding pop_indents push_indent scan_yaml_line
preflight_line limits indent trimmed p = do
  let stack = push_indent indent (pop_indents indent p.indent_stack)
  let scan = scan_yaml_line trimmed
  let depth = p.flow_depth + scan.opened - scan.closed
  fail_if (ltb limits.depth (length stack + p.flow_depth)) nested_before_parsing
  fail_if (ltb limits.nodes (p.nodes + scan.nodes)) nodes_before_parsing
  fail_if (ltb limits.depth (length stack + depth)) nested_before_parsing
  ok (record {
    indent_stack = stack;
    flow_depth = depth;
    nodes = p.nodes + scan.nodes;
    block_indent = if begins_block scan then some indent else none;
  })

-- The keys of a mapping, each with the value behind it.
unfoldable pub check_keys : Nodes → List Bytes → Result YamlError (Unit {0})
unfolding member
check_keys nil seen = ok tt
check_keys (cons key nil) seen = err invalid_mapping
check_keys (cons key (cons value rest)) seen = do
  fail_if (bytes_eq (node_value key) (codes "<<")) merge_key
  fail_if (not (is_scalar (node_kind key)) || not (bytes_eq (node_tag key) (codes "!!str")))
      key_not_string
  fail_if (member (node_value key) seen) duplicate_key
  check_keys rest (node_value key ∷ seen)

unfoldable pub check_mapping : YamlKind → Nodes → Result YamlError (Unit {0})
unfolding check_keys nodes_length
check_mapping kind content =
    if is_mapping kind
    then fail_if (nodes_length content % 2 == 1) invalid_mapping >> check_keys content []
    else ok tt

-- `validateYAMLNode`: the count of nodes so far goes in and comes out.
unfoldable mutual
  unfolding check_mapping

  pub validate_yaml_node : YamlLimits → ℕ → Node → ℕ → Result YamlError ℕ
  validate_yaml_node limits depth (node kind tag value anchor content) count = do
    fail_if (ltb limits.depth depth) nesting_exceeded
    fail_if (ltb limits.nodes (count + 1)) nodes_exceeded
    fail_if (is_alias kind || not (is_empty anchor)) anchor_or_alias
    _ ← check_mapping kind content
    validate_yaml_nodes limits (suc depth) content (count + 1)

  pub validate_yaml_nodes : YamlLimits → ℕ → Nodes → ℕ → Result YamlError ℕ
  validate_yaml_nodes limits depth nil count = ok count
  validate_yaml_nodes limits depth (cons n ns) count = do
    counted ← validate_yaml_node limits depth n count
    validate_yaml_nodes limits depth ns counted

-- The document's node: `document.Content[0]`, where that is all there is.
unfoldable pub only_node : Nodes → Result YamlError Node
only_node (cons root nil) = ok root
only_node _ = err empty_document

-- Whether a second document was decoded, with content.
abbrev pub has_content : Option Nodes → Bool
has_content none = false
has_content (some nil) = false
has_content (some (cons _ _)) = true

module _ (is_space : ℕ → Bool) (decode : ℕ → Bytes → Option Nodes) where
  unfoldable pub preflight_lines : YamlLimits → List Bytes → Preflight → Result YamlError Preflight
  unfolding preflight_line leading_spaces trim_return trim_func
  preflight_lines limits [] p = ok p
  preflight_lines limits (raw ∷ lines) p =
      let line = trim_return raw in
      let trimmed = trim_func is_space line in
      let skipped = preflight_lines limits lines p in
      let scanned = preflight_line limits (leading_spaces line) trimmed p >>= λ q.
      preflight_lines limits lines q in
      if is_empty trimmed
        || starts_with b'#' trimmed
        || in_block (leading_spaces line) p.block_indent
      then skipped
      else scanned

  -- `preflightYAML`
  unfoldable pub preflight_yaml : YamlLimits → Bytes → Result YamlError Preflight
  unfolding preflight_lines split
  preflight_yaml limits text =
      preflight_lines limits (split 10 text)
        (record { indent_stack = []; flow_depth = 0; nodes = 0; block_indent = none })

  -- `parseBoundedYAML`
  unfoldable pub parse_bounded_yaml : YamlLimits → Bytes → Result YamlError Node
  unfolding preflight_yaml only_node valid_utf8 has_byte validate_yaml_node
  parse_bounded_yaml limits text = do
    fail_if (ltb limits.bytes (length text)) too_many_bytes
    fail_if (not (valid_utf8 text)) not_utf8
    fail_if (has_byte 0 text) nul_byte
    _ ← preflight_yaml limits text
    document ← elim (decode 0 text) [ none ↦ err invalid_yaml | some content ↦ ok content ]
    fail_if (has_content (decode 1 text)) multiple_documents
    root ← only_node document
    _ ← validate_yaml_node limits 1 root 0
    ok root
