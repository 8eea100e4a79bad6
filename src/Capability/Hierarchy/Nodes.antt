-- ===== src/Capability/Hierarchy/Nodes.antt =====
-- The nodes of the hierarchy that internal/capability/registry.go rebuilds, and what they name.
use tappet.Capability.Hierarchy.{
  HierarchyNode, empty_node, Build, member, link, ensure_parts, ensure_path, add_capability,
  add_capabilities, attach_children, rebuild_hierarchy, or_else,
}
use tappet.Capability.Paths.{split, join, bytes_lt, sort_slice}
use tappet.Prelude.{
  ◌≡◌, refl, ◌∙◌, ap, none, some, List, [], ◌∷◌, ◌++◌, if◌then◌else◌, Bytes, bytes_eq, bytes_eq_iff,
  bytes_key, Map, lookup, insert, lookup-insert, arith,
}

-- The capability that the node of a path names: [] if there is no node or it names none.
abbrev pub capability_at : Bytes → Map Bytes HierarchyNode → Bytes
capability_at p nodes = elim (lookup p nodes) [ none ↦ [] | some n ↦ n.capability_id ]

abbrev pub identifiers : List (Bytes × Bytes) → List Bytes
identifiers [] = []
identifiers ((id, _) ∷ es) = id ∷ identifiers es

capability_at-insert :
    (p q : Bytes) (n : HierarchyNode) (nodes : Map Bytes HierarchyNode)
    → capability_at p (insert q n nodes)
      ≡ (if bytes_eq q p then n.capability_id else capability_at p nodes)
capability_at-insert p q n nodes = ground (arith, lookup-insert q p n nodes)

capability_at-link :
    (p parent current : Bytes) (b : Build)
    → capability_at p (link parent current b).nodes ≡ capability_at p b.nodes
unfolding link
capability_at-link p parent current b =
    ground (arith, lookup-insert current p empty_node b.nodes, bytes_eq_iff current p)

capability_at-ensure_parts :
    (p : Bytes) (done ps : List Bytes) (parent : Bytes) (b : Build)
    → capability_at p (ensure_parts done ps parent b).nodes ≡ capability_at p b.nodes
unfolding ensure_parts
capability_at-ensure_parts p done [] parent b = refl
capability_at-ensure_parts p done (q ∷ ps) parent b =
    let current = join 46 (done ++ q ∷ []) in
    capability_at-ensure_parts p (done ++ q ∷ []) ps current (link parent current b)
    ∙ capability_at-link p parent current b

capability_at-ensure_path :
    (p path : Bytes) (b : Build)
    → capability_at p (ensure_path path b).nodes ≡ capability_at p b.nodes
unfolding ensure_path
capability_at-ensure_path p [] b = refl
capability_at-ensure_path p (x ∷ s) b = capability_at-ensure_parts p [] (split 46 (x ∷ s)) [] b

capability_at-add_capability :
    (p id parent : Bytes) (b : Build)
    → capability_at p (add_capability id parent b).nodes
      ≡ (if bytes_eq id p then id else capability_at p b.nodes)
unfolding add_capability
capability_at-add_capability p id parent b =
    let first = capability_at-ensure_path p parent b in
    let second = capability_at-ensure_path p id (ensure_path parent b) in
    let ensured = ensure_path id (ensure_path parent b) in
    let named : HierarchyNode = record (or_else empty_node (lookup id ensured.nodes)) {
      capability_id = id;
    } in
    capability_at-insert p id named ensured.nodes
    ∙ ap (λ c. if bytes_eq id p then id else c) (second ∙ first)

capability_at-add_capabilities :
    (p : Bytes) (es : List (Bytes × Bytes)) (b : Build)
    → capability_at p (add_capabilities es b).nodes
      ≡ (if member p (identifiers es) then p else capability_at p b.nodes)
unfolding add_capabilities member
capability_at-add_capabilities p [] b = refl
capability_at-add_capabilities p ((id, parent) ∷ es) b = ground (
  arith,
  capability_at-add_capabilities p es (add_capability id parent b),
  capability_at-add_capability p id parent b,
  bytes_eq_iff id p,
  bytes_eq_iff p id,
)

capability_at-attach :
    (p parent : Bytes) (children : List Bytes) (nodes : Map Bytes HierarchyNode)
    → capability_at p (
        insert parent
          (record (or_else empty_node (lookup parent nodes)) { children = children })
          nodes)
      ≡ capability_at p nodes
capability_at-attach p parent children nodes = ground (
  arith,
  lookup-insert parent p (record (or_else empty_node (lookup parent nodes)) { children = children })
      nodes,
  bytes_eq_iff parent p,
)

capability_at-attach_children :
    (p : Bytes) (edges : Map Bytes (List Bytes)) (nodes : Map Bytes HierarchyNode)
    → capability_at p (attach_children edges nodes) ≡ capability_at p nodes
unfolding attach_children
capability_at-attach_children p [] nodes = refl
capability_at-attach_children p ((parent, children) ∷ edges) nodes =
    let node = or_else empty_node (lookup parent nodes) in
    let sorted = sort_slice bytes_lt (node.children ++ children) in
    capability_at-attach_children p edges (insert parent (record node { children = sorted }) nodes)
    ∙ capability_at-attach p parent sorted nodes

capability_at-root : (p : Bytes) → capability_at p (([], empty_node) ∷ []) ≡ []
unfolding lookup
capability_at-root p = ground arith

-- In the hierarchy rebuilt from the installed capabilities, the node of a path names the
-- capability of that identifier if it is installed, and none otherwise.
pub rebuild_hierarchy-capability_at :
    (p : Bytes) (es : List (Bytes × Bytes))
    → capability_at p (rebuild_hierarchy es) ≡ (if member p (identifiers es) then p else [])
unfolding rebuild_hierarchy
rebuild_hierarchy-capability_at p es =
    capability_at-attach_children p
      (add_capabilities es (record { nodes = ([], empty_node) ∷ []; edges = [] })).edges
      (add_capabilities es (record { nodes = ([], empty_node) ∷ []; edges = [] })).nodes
    ∙ capability_at-add_capabilities p es (record { nodes = ([], empty_node) ∷ []; edges = [] })
    ∙ ap (λ c. if member p (identifiers es) then p else c) (capability_at-root p)
