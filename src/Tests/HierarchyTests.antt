-- ===== src/Tests/HierarchyTests.antt =====
-- internal/capability/registry.go: the hierarchy of one capability, below a parent.
use tappet.Capability.Hierarchy.{rebuild_hierarchy, member}
use tappet.Capability.Hierarchy.Nodes.{capability_at, identifiers, rebuild_hierarchy-capability_at}
use tappet.Capability.Hierarchy.Children.{children_at, rebuild_hierarchy-children}
use tappet.Capability.Paths.{split, join}
use tappet.Prelude.{
  ◌≡◌, refl, true, inl, [], ◌∷◌, Bytes, codes, take, if◌then◌else◌, arith, List, length,
}

abbrev paths : List (Bytes × Bytes)
paths = (codes "a.b", codes "a") ∷ []

rebuild_hierarchy-capability_at_example :
    capability_at (codes "a.b") (rebuild_hierarchy paths)
    ≡ (if member (codes "a.b") (identifiers paths) then codes "a.b" else [])
rebuild_hierarchy-capability_at_example = rebuild_hierarchy-capability_at (codes "a.b") paths

two_parts : length (split 46 (codes "a.b")) ≡ 2
unfolding split
two_parts = refl

rebuild_hierarchy-children_example :
    member
      (join 46 (take 2 (split 46 (codes "a.b"))))
      (children_at (join 46 (take 1 (split 46 (codes "a.b")))) (rebuild_hierarchy paths))
    ≡ true
rebuild_hierarchy-children_example =
    rebuild_hierarchy-children 1 0 (codes "a.b") (codes "a.b") (codes "a") paths refl (inl refl)
      refl (omega (arith, two_parts))
