-- ===== src/Capability/Browse.antt =====
-- `Browse` and `browseLocked` of internal/capability/registry.go.
use tappet.Capability.Paths.{trim_left, trim_right}
use tappet.Capability.Hierarchy.{empty_node, or_else}
use tappet.Capability.Registry.{Registry, RegistryGeneration}
use tappet.Prelude.{
  ℕ, Option, none, some, List, [], ◌∷◌, if◌then◌else◌, length, get_elem?, Bytes, codes, bytes_eq,
  bytes_key, is_empty, lookup, Result, ok, err,
}

pub record HierarchyEntry : Type 0 where
  pub path : Bytes
  pub capability_id : Bytes
  pub name : Bytes
  pub description : Bytes
  pub operations : ℕ

pub record HierarchyView : Type 0 where
  pub path : Bytes
  pub capability_id : Bytes
  pub children : List HierarchyEntry

-- The installed generation of a capability: `r.entries[id]`.
unfoldable pub entry_of : Bytes → Registry → Option RegistryGeneration
entry_of id r = elim (lookup id r.entries) [ none ↦ none | some a ↦ get_elem? r.generations a ]

-- One child: every child has a node (`attach_children`), and one without is the empty node here.
unfoldable pub child_entry : Registry → Bytes → HierarchyEntry
unfolding entry_of
child_entry r path =
    let node = or_else empty_node (lookup path r.nodes) in
    let bare : HierarchyEntry = record {
      path = path;
      capability_id = node.capability_id;
      name = [];
      description = [];
      operations = 0;
    } in
    if is_empty node.capability_id then bare else elim (entry_of node.capability_id r) [
      | none ↦ bare
      | some g ↦ record bare {
        name = g.package_record.metadata.name;
        description = g.package_record.metadata.description;
        operations = length g.package_record.operations;
      }
    ]

unfoldable pub child_entries : Registry → List Bytes → List HierarchyEntry
unfolding child_entry
child_entries r [] = []
child_entries r (path ∷ paths) = child_entry r path ∷ child_entries r paths

-- `browseLocked`: none for ErrHierarchyPathNotFound.
unfoldable pub browse_locked : Bytes → Registry → Option HierarchyView
unfolding child_entries
browse_locked path r = elim (lookup path r.nodes) [
  | none ↦ none
  | some node ↦ some (record {
    path = path;
    capability_id = node.capability_id;
    children = child_entries r node.children;
  })
]

pub data BrowseError : Type 0 where
  registry_closed hierarchy_path_not_found : BrowseError

-- `Browse`
unfoldable pub browse : Bytes → Registry → Result BrowseError HierarchyView
unfolding browse_locked trim_left trim_right
browse hierarchy_path r =
    let trimmed = trim_right b'.' (trim_left b'.' hierarchy_path) in
    let path = if bytes_eq trimmed (codes "/") then [] else trimmed in
    if r.closed
    then err registry_closed
    else elim (browse_locked path r) [ none ↦ err hierarchy_path_not_found | some view ↦ ok view ]
