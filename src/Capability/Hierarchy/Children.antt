-- ===== src/Capability/Hierarchy/Children.antt =====
-- The children of the nodes in the hierarchy that internal/capability/registry.go rebuilds.
use tappet.Capability.Hierarchy.{
  HierarchyNode, empty_node, Build, member, or_else, link, ensure_parts, ensure_path,
  add_capability, add_capabilities, attach_children, rebuild_hierarchy,
}
use tappet.Capability.Paths.{split, join, bytes_lt, sort_insert, sort_slice}
use tappet.Prelude.{
  ℕ, zero, suc, ◌<◌, ◌≡◌, ◌⊎◌, inl, inr, refl, sym, Bool, true, false, ◌||◌, some, Bool-cases, List,
  [], ◌∷◌, ◌++◌, if◌then◌else◌, Bytes, bytes_eq, bytes_eq_iff, bytes_key, is_empty, Map, lookup,
  insert, lookup-insert, arith, length, take, get_elem?, append_assoc, append-nil,
}

-- The children of the node of a path.
abbrev pub children_at : Bytes → Map Bytes HierarchyNode → List Bytes
children_at p nodes = (or_else empty_node (lookup p nodes)).children

abbrev HasEdge : Bytes → Bytes → Build → Type 0
HasEdge p c b = member c (or_else [] (lookup p b.edges)) ≡ true

member-append_right :
    (c : Bytes) (xs ys : List Bytes) → member c ys ≡ true → member c (xs ++ ys) ≡ true
unfolding member
member-append_right c [] ys h = h
member-append_right c (x ∷ xs) ys h = ground (arith, member-append_right c xs ys h)

member-append_left :
    (c : Bytes) (xs ys : List Bytes) → member c xs ≡ true → member c (xs ++ ys) ≡ true
unfolding member
member-append_left c [] ys h = absurd (ground arith)
member-append_left c (x ∷ xs) ys h = ground (arith, member-append_left c xs ys)

member-sort_insert :
    (less : Bytes → Bytes → Bool) (c x : Bytes) (xs : List Bytes)
    → member c (sort_insert less x xs) ≡ (bytes_eq c x || member c xs)
unfolding member sort_insert
member-sort_insert less c x [] = refl
member-sort_insert less c x (y ∷ xs) = ground (arith, member-sort_insert less c x xs)

member-sort_slice :
    (less : Bytes → Bytes → Bool) (c : Bytes) (xs : List Bytes)
    → member c (sort_slice less xs) ≡ member c xs
unfolding member sort_slice
member-sort_slice less c [] = refl
member-sort_slice less c (x ∷ xs) =
    ground (arith, member-sort_insert less c x (sort_slice less xs), member-sort_slice less c xs)

-- A turn of the loop keeps the edges, and has its own.
link-keeps :
    (p c parent current : Bytes) (b : Build) → HasEdge p c b → HasEdge p c (link parent current b)
unfolding link member
link-keeps p c parent current b h =
    let siblings = or_else [] (lookup parent b.edges) in
    ground (
      arith,
      h,
      bytes_eq_iff parent p,
      lookup-insert parent p (if member current siblings then siblings else current ∷ siblings)
          b.edges,
    )

link-HasEdge : (parent current : Bytes) (b : Build) → HasEdge parent current (link parent current b)
unfolding link member
link-HasEdge parent current b =
    let siblings = or_else [] (lookup parent b.edges) in
    ground (
      arith,
      bytes_eq_iff parent parent,
      bytes_eq_iff current current,
      lookup-insert parent parent (if member current siblings then siblings else current ∷ siblings)
          b.edges,
    )

ensure_parts-keeps :
    (p c : Bytes) (done ps : List Bytes) (parent : Bytes) (b : Build)
    → HasEdge p c b
    → HasEdge p c (ensure_parts done ps parent b)
unfolding ensure_parts
ensure_parts-keeps p c done [] parent b h = h
ensure_parts-keeps p c done (q ∷ ps) parent b h =
    let current = join 46 (done ++ q ∷ []) in
    ensure_parts-keeps p c (done ++ q ∷ []) ps current (link parent current b)
      (link-keeps p c parent current b h)

-- A prefix of the parts, and the prefix with one part more.
ensure_parts-HasEdge :
    (k : ℕ) (done ps : List Bytes) (b : Build)
    → k < length ps
    → HasEdge
        (join 46 (done ++ take k ps))
        (join 46 (done ++ take (suc k) ps))
        (ensure_parts done ps (join 46 done) b)
unfolding ensure_parts
ensure_parts-HasEdge k done [] b h = absurd (omega arith)
ensure_parts-HasEdge zero done (q ∷ ps) b h =
    let current = join 46 (done ++ q ∷ []) in
    rw (append-nil done) (
      ensure_parts-keeps (join 46 done) current (done ++ q ∷ []) ps current
        (link (join 46 done) current b) (link-HasEdge (join 46 done) current b))
ensure_parts-HasEdge (suc k) done (q ∷ ps) b h =
    let current = join 46 (done ++ q ∷ []) in
    rw
      (
        sym (append_assoc done (q ∷ []) (take k ps)),
        sym (append_assoc done (q ∷ []) (take (suc k) ps)),
      )
      (ensure_parts-HasEdge k (done ++ q ∷ []) ps (link (join 46 done) current b) (omega arith))

ensure_path-keeps :
    (p c path : Bytes) (b : Build) → HasEdge p c b → HasEdge p c (ensure_path path b)
unfolding ensure_path
ensure_path-keeps p c [] b h = h
ensure_path-keeps p c (x ∷ s) b h = ensure_parts-keeps p c [] (split 46 (x ∷ s)) [] b h

abbrev prefix : ℕ → Bytes → Bytes
prefix k path = join 46 (take k (split 46 path))

ensure_path-HasEdge :
    (k : ℕ) (path : Bytes) (b : Build)
    → is_empty path ≡ false
    → k < length (split 46 path)
    → HasEdge (prefix k path) (prefix (suc k) path) (ensure_path path b)
unfolding ensure_path join
ensure_path-HasEdge k [] b full h = absurd (ground arith)
ensure_path-HasEdge k (x ∷ s) b full h = ensure_parts-HasEdge k [] (split 46 (x ∷ s)) b h

add_capability-keeps :
    (p c id parent : Bytes) (b : Build) → HasEdge p c b → HasEdge p c (add_capability id parent b)
unfolding add_capability
add_capability-keeps p c id parent b h =
    ensure_path-keeps p c id (ensure_path parent b) (ensure_path-keeps p c parent b h)

add_capabilities-keeps :
    (p c : Bytes) (es : List (Bytes × Bytes)) (b : Build)
    → HasEdge p c b
    → HasEdge p c (add_capabilities es b)
unfolding add_capabilities
add_capabilities-keeps p c [] b h = h
add_capabilities-keeps p c ((id, parent) ∷ es) b h =
    add_capabilities-keeps p c es (add_capability id parent b)
      (add_capability-keeps p c id parent b h)

add_capability-HasEdge :
    (k : ℕ) (path id parent : Bytes) (b : Build)
    → (path ≡ id) ⊎ (path ≡ parent)
    → is_empty path ≡ false
    → k < length (split 46 path)
    → HasEdge (prefix k path) (prefix (suc k) path) (add_capability id parent b)
unfolding add_capability
add_capability-HasEdge k path id parent b (inl same) full h =
    rw⁻¹ same (ensure_path-HasEdge k path (ensure_path parent b) full h)
add_capability-HasEdge k path id parent b (inr same) full h = rw⁻¹ same (
    ensure_path-keeps (prefix k path) (prefix (suc k) path) id (ensure_path path b)
      (ensure_path-HasEdge k path b full h))

add_capabilities-HasEdge :
    (k i : ℕ) (path id parent : Bytes) (es : List (Bytes × Bytes)) (b : Build)
    → get_elem? es i ≡ some (id, parent)
    → (path ≡ id) ⊎ (path ≡ parent)
    → is_empty path ≡ false
    → k < length (split 46 path)
    → HasEdge (prefix k path) (prefix (suc k) path) (add_capabilities es b)
unfolding add_capabilities
add_capabilities-HasEdge k i path id parent [] b here of full h = absurd (ground arith)
add_capabilities-HasEdge k zero path id parent ((id', parent') ∷ es) b here of full h =
    let own : (path ≡ id') ⊎ (path ≡ parent') = ground (arith, here, of) in
    add_capabilities-keeps (prefix k path) (prefix (suc k) path) es (add_capability id' parent' b)
      (add_capability-HasEdge k path id' parent' b own full h)
add_capabilities-HasEdge k (suc i) path id parent ((id', parent') ∷ es) b here of full h =
    add_capabilities-HasEdge k i path id parent es (add_capability id' parent' b) here of full h

-- The last loop gives each node its children, and takes none away.
attach_children-step :
    (p c parent : Bytes) (children : List Bytes) (nodes : Map Bytes HierarchyNode)
    → (member c (children_at p nodes) ≡ true) ⊎ ((parent ≡ p) × (member c children ≡ true))
    → member c (
        children_at p (
          insert parent
            (record (or_else empty_node (lookup parent nodes)) {
              children = sort_slice bytes_lt (children_at parent nodes ++ children);
            })
            nodes))
      ≡ true
attach_children-step p c parent children nodes h =
    let old = children_at parent nodes in
    let node : HierarchyNode = record (or_else empty_node (lookup parent nodes)) {
      children = sort_slice bytes_lt (old ++ children);
    } in
    let put = lookup-insert parent p node nodes in
    ground (
      arith,
      h,
      put,
      bytes_eq_iff parent p,
      member-sort_slice bytes_lt c (old ++ children),
      member-append_left c old children,
      member-append_right c old children,
    )

attach_children-keeps :
    (p c : Bytes) (edges : Map Bytes (List Bytes)) (nodes : Map Bytes HierarchyNode)
    → member c (children_at p nodes) ≡ true
    → member c (children_at p (attach_children edges nodes)) ≡ true
unfolding attach_children
attach_children-keeps p c [] nodes h = h
attach_children-keeps p c ((parent, children) ∷ edges) nodes h =
    attach_children-keeps p c edges _ (attach_children-step p c parent children nodes (inl h))

attach_children-children :
    (p c : Bytes) (edges : Map Bytes (List Bytes)) (nodes : Map Bytes HierarchyNode)
    → member c (or_else [] (lookup p edges)) ≡ true
    → member c (children_at p (attach_children edges nodes)) ≡ true
unfolding attach_children lookup
attach_children-children p c [] nodes h = absurd (unfold member in ground arith)
attach_children-children p c ((parent, children) ∷ edges) nodes h =
    elim (Bool-cases (bytes_eq parent p)) [
      | inl same ↦
          let here : member c children ≡ true = ground (arith, h, same) in
          attach_children-keeps p c edges _ (
            attach_children-step p c parent children nodes
              (inr ((bytes_eq_iff parent p).0 same, here)))
      | inr other ↦
          let later : member c (or_else [] (lookup p edges)) ≡ true = ground (arith, h, other) in
          attach_children-children p c edges _ later
    ]

-- In the hierarchy rebuilt from the installed capabilities, for the identifier or the parent of
-- any of them that is not empty, the node of each prefix of its dotted parts, the root for none,
-- lists the prefix with one part more among its children.
pub rebuild_hierarchy-children :
    (k i : ℕ) (path id parent : Bytes) (es : List (Bytes × Bytes))
    → get_elem? es i ≡ some (id, parent)
    → (path ≡ id) ⊎ (path ≡ parent)
    → is_empty path ≡ false
    → k < length (split 46 path)
    → member
        (join 46 (take (suc k) (split 46 path)))
        (children_at (join 46 (take k (split 46 path))) (rebuild_hierarchy es))
      ≡ true
unfolding rebuild_hierarchy
rebuild_hierarchy-children k i path id parent es here of full h =
    let b : Build = record { nodes = ([], empty_node) ∷ []; edges = [] } in
    attach_children-children (prefix k path) (prefix (suc k) path) (add_capabilities es b).edges
      (add_capabilities es b).nodes
      (add_capabilities-HasEdge k i path id parent es b here of full h)
