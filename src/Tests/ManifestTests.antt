-- ===== src/Tests/ManifestTests.antt =====
-- internal/capability/yaml.go, manifest.go and loader.go on one small package: an operation, a provider and no files
-- but the manifest.
use tappet.Capability.Yaml.{
  Node, node, Nodes, nil, cons, mapping_node, sequence_node, scalar_node, YamlLimits,
  validate_yaml_node, scan_yaml_line,
}
use tappet.Capability.Yaml.Bounds.{size, height, plain, value_of, validate_yaml_node_lem}
use tappet.Capability.Manifest.{Manifest}
use tappet.Capability.Manifest.Whole.{ManifestCodec, StructureItem}
use tappet.Capability.Types.{Metadata}
use tappet.Capability.PackageFiles.{Directory}
use tappet.Capability.PackageRecords.{LoaderCodec}
use tappet.Capability.Loader.{load_from_root}
use tappet.Capability.Loader.Reserved.{load_from_root-IsAccounted}
use tappet.Capability.Skills.{SkillCodec}
use tappet.Capability.Snapshot.{SnapshotStore, default_store_limits}
use tappet.Capability.Snapshot.Accounting.{IsAccounted}
use tappet.Prelude.{
  ℕ, zero, suc, ◌≡◌, refl, Bool, false, ◌&&◌, Option, none, some, [], ◌∷◌, ◌==◌, leb, if◌then◌else◌,
  Bytes, codes, bytes_eq, arith,
}

abbrev text_node : Bytes → Node
text_node value = node scalar_node (codes "!!str") value [] nil

abbrev pair : Bytes → Node → Nodes → Nodes
pair key value rest = cons (text_node key) (cons value rest)

abbrev map_node : Nodes → Node
map_node content = node mapping_node (codes "!!map") [] [] content

abbrev seq_node : Nodes → Node
seq_node content = node sequence_node (codes "!!seq") [] [] content

abbrev metadata_node : Node
metadata_node = map_node (
    pair (codes "id") (text_node (codes "a.b")) (
      pair (codes "name") (text_node (codes "B")) (
        pair (codes "version") (text_node (codes "1.0.0-rc.1"))
          (pair (codes "description") (text_node (codes "d")) nil))))

abbrev spec_node : Node
spec_node = map_node (
    pair (codes "parent") (text_node (codes "a")) (
      pair (codes "operations")
        (seq_node (
          cons
            (map_node (
              pair (codes "id") (text_node (codes "echo")) (
                pair (codes "description") (text_node (codes "e")) (
                  pair (codes "provider") (text_node (codes "p"))
                    (pair (codes "target") (text_node (codes "t")) nil)))))
            nil))
        (pair (codes "providers")
          (seq_node (
            cons
              (map_node (
                pair (codes "id") (text_node (codes "p")) (
                  pair (codes "type") (text_node (codes "mcp"))
                    (pair (codes "serverRef") (text_node (codes "s")) nil))))
              nil))
          nil)))

abbrev root_node : Node
root_node = map_node (
    pair (codes "apiVersion") (text_node (codes "tappet.gearboxlogic.dev/v1alpha1")) (
      pair (codes "kind") (text_node (codes "Capability"))
        (pair (codes "metadata") metadata_node (pair (codes "spec") spec_node nil))))

abbrev same_bytes : Bytes → Bytes
same_bytes s = s

abbrev is_blank : ℕ → Bool
is_blank c = c == 32

abbrev decode_once : ℕ → Bytes → Option Nodes
decode_once zero s = some (cons root_node nil)
decode_once (suc _) s = none

abbrev encode_card : Metadata → Bytes → Option Bytes
encode_card m parent = some (codes "{}")

abbrev encode_item : StructureItem → Option Bytes
encode_item item = some (codes "{}")

abbrev small_codec : ManifestCodec
small_codec = record {
  nfc = same_bytes;
  is_space = is_blank;
  decode = decode_once;
  marshal_card = encode_card;
  marshal_item = encode_item;
}

abbrev small_manifest : Manifest
small_manifest = record {
  api_version = codes "tappet.gearboxlogic.dev/v1alpha1";
  kind = codes "Capability";
  metadata = record {
    id = codes "a.b";
    name = codes "B";
    version = codes "1.0.0-rc.1";
    description = codes "d";
    tags = [];
  };
  spec = record {
    parent = codes "a";
    skills = [];
    operations =
        (record {
          id = codes "echo";
          description = codes "e";
          provider = codes "p";
          target = codes "t";
        })
        ∷ [];
    context = [];
    providers = (record { id = codes "p"; kind = codes "mcp"; server_ref = codes "s" }) ∷ [];
  };
}

abbrev tiny_limits : YamlLimits
tiny_limits = record { bytes = 1000; depth = 3; nodes = 10 }

validate_yaml_node_lem_example : value_of (validate_yaml_node tiny_limits 1 metadata_node 0) ≡ (
    if leb (height metadata_node) 3 && leb (size metadata_node) 10 && plain metadata_node
    then some (size metadata_node)
    else none)
validate_yaml_node_lem_example = validate_yaml_node_lem tiny_limits metadata_node

-- Behind a doubled quote, what is quoted is counted.
doubled_quote : (scan_yaml_line (codes "a: 'b'', [[ c'")).opened ≡ 2
unfolding scan_yaml_line
doubled_quote = refl

abbrev skill_codec : SkillCodec
skill_codec = record {
  nfc = same_bytes;
  nfkc = same_bytes;
  to_lower = same_bytes;
  is_space = is_blank;
  is_letter = is_blank;
  is_digit = is_blank;
  decode = decode_once;
}

abbrev loader_codec : LoaderCodec
loader_codec = record {
  manifests = small_codec;
  skills = skill_codec;
  sha256 = same_bytes;
  hex = same_bytes;
  media_type = same_bytes;
}

abbrev one_file : Directory
one_file path =
    if bytes_eq path (codes "tappet.yaml")
    then some (record { size = 4; reader = some (codes "a: b"); close_fails = false })
    else none

abbrev one_package : Bytes → Option Directory
one_package name = if bytes_eq name (codes "a.b") then some one_file else none

abbrev empty_store : SnapshotStore
empty_store = record {
  limits = default_store_limits;
  staging_reserved = 0;
  snapshot_reserved = 0;
  snapshot_used = 0;
  objects = [];
}

empty_store_accounts : IsAccounted 0 empty_store
empty_store_accounts = record {
  counted = record { unique = tt; used = refl };
  staging = refl;
  snapshot = refl;
  staging_fits = omega arith;
  snapshot_fits = omega arith;
  staging_small = omega arith;
  snapshot_small = omega arith;
}

load_from_root-IsAccounted_example :
    IsAccounted 0 (load_from_root loader_codec one_package (codes "a.b") empty_store).1
load_from_root-IsAccounted_example =
    load_from_root-IsAccounted loader_codec 0 one_package (codes "a.b") empty_store
      empty_store_accounts
