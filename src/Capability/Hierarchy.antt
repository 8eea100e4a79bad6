-- ===== src/Capability/Hierarchy.antt =====
-- The hierarchy of internal/capability/registry.go: `hierarchyNode`, `rebuildHierarchyLocked` and
-- the views that `browseLocked` returns. The nodes are rebuilt from the identifiers and parents of
-- the installed capabilities.
pub mod Nodes
pub mod Children
use tappet.Capability.Paths.{split, join, bytes_lt, sort_slice}
use tappet.Prelude.{
  Bool, false, ◌||◌, Option, none, some, List, [], ◌∷◌, ◌++◌, if◌then◌else◌, Bytes, bytes_eq,
  bytes_key, is_empty, Map, lookup, insert,
}

pub record HierarchyNode : Type 0 where
  pub capability_id : Bytes
  pub children : List Bytes

abbrev pub empty_node : HierarchyNode
empty_node = record { capability_id = []; children = [] }

-- The two maps that the rebuild fills; a set of children is a list without repetitions.
pub record Build : Type 0 where
  pub nodes : Map Bytes HierarchyNode
  pub edges : Map Bytes (List Bytes)

unfoldable pub member : Bytes → List Bytes → Bool
member x [] = false
member x (y ∷ ys) = bytes_eq x y || member x ys

abbrev pub or_else {ℓ} : {A : Type ℓ} → A → Option A → A
or_else d none = d
or_else d (some a) = a

-- One turn of the loop in `ensurePath`: the node of `current`, and the edge from `parent` to it.
unfoldable pub link : Bytes → Bytes → Build → Build
unfolding member
link parent current b =
    let siblings = or_else [] (lookup parent b.edges) in
    record {
      nodes = elim (lookup current b.nodes) [
        | some _ ↦ b.nodes
        | none ↦ insert current empty_node b.nodes
      ];
      edges =
          insert parent (if member current siblings then siblings else current ∷ siblings) b.edges;
    }

unfoldable pub ensure_parts : List Bytes → List Bytes → Bytes → Build → Build
unfolding link
ensure_parts done [] parent b = b
ensure_parts done (p ∷ ps) parent b =
    let current = join b'.' (done ++ p ∷ []) in
    ensure_parts (done ++ p ∷ []) ps current (link parent current b)

unfoldable pub ensure_path : Bytes → Build → Build
unfolding ensure_parts
ensure_path path b = if is_empty path then b else ensure_parts [] (split b'.' path) [] b

unfoldable pub add_capability : Bytes → Bytes → Build → Build
unfolding ensure_path
add_capability id parent b =
    let ensured = ensure_path id (ensure_path parent b) in
    record ensured {
      nodes =
          insert id (record (or_else empty_node (lookup id ensured.nodes)) { capability_id = id })
            ensured.nodes;
    }

unfoldable pub add_capabilities : List (Bytes × Bytes) → Build → Build
add_capabilities [] b = b
add_capabilities ((id, parent) ∷ es) b = add_capabilities es (add_capability id parent b)

-- The last loop: each set of children, sorted, goes to its parent's node.
unfoldable pub attach_children :
    Map Bytes (List Bytes) → Map Bytes HierarchyNode → Map Bytes HierarchyNode
attach_children [] nodes = nodes
attach_children ((parent, children) ∷ edges) nodes =
    let node = or_else empty_node (lookup parent nodes) in
    attach_children edges (
      insert parent (record node { children = sort_slice bytes_lt (node.children ++ children) })
        nodes)

-- `rebuildHierarchyLocked`, from the identifier and the parent of each entry.
unfoldable pub rebuild_hierarchy : List (Bytes × Bytes) → Map Bytes HierarchyNode
unfolding add_capabilities attach_children
rebuild_hierarchy es =
    let b = add_capabilities es (record { nodes = ([], empty_node) ∷ []; edges = [] }) in
    attach_children b.edges b.nodes
