-- ===== src/Capability/Registry/Current.antt =====
-- The hierarchy that internal/capability/registry.go keeps is the one of what is installed.
use tappet.Capability.Types.{Record}
use tappet.Capability.Registry.{
  Registry, RegistryGeneration, Invocation, empty_registry, add, add_locked, reinstall, uninstall,
  retire_locked, release, release_generation, normalized, publish, retire_all, close,
  lookup_capability, current_generation, acquire, new_registry, add_all, rebuild_hierarchy_locked,
  entry_paths, revise,
}
use tappet.Capability.Registry.Resolve.{
  resolve_operation, resolve_operation-eq-ok, current_generation-eq-some,
}
use tappet.Capability.Registry.Reach.{
  Step, Reach, start, next, added, reinstalled, uninstalled, looked_up, resolved, released, closed,
}
use tappet.Capability.Hierarchy.{rebuild_hierarchy}
use tappet.Prelude.{
  ℕ, ◌+◌, ◌≡◌, ◌⊎◌, ◌∙◌, ap, sym, refl, true, Option, none, some, Option-cases, Bool-cases, inl,
  inr, List, [], ◌∷◌, arith, get_elem?, set, ◌-◌, delete, get_elem?-set, Bytes, bytes_key, Map,
  lookup, values, ok, Result-cases,
}

-- An open registry's nodes are the rebuilt hierarchy of its entries.
abbrev pub IsCurrent : Registry → Type 0
IsCurrent r =
    (r.closed ≡ true) ⊎ (r.nodes ≡ rebuild_hierarchy (entry_paths r.generations r.entries))

-- A change of a generation that keeps its record.
entry_paths-set :
    (gs : List RegistryGeneration) (a : ℕ) (g g' : RegistryGeneration) (m : Map Bytes ℕ)
    → get_elem? gs a ≡ some g
    → g'.package_record ≡ g.package_record
    → entry_paths (set gs a g') m ≡ entry_paths gs m
unfolding entry_paths
entry_paths-set gs a g g' [] here same = refl
entry_paths-set gs a g g' ((id, j) ∷ m) here same =
    ground (arith, entry_paths-set gs a g g' m here same, get_elem?-set gs a g' j, here, same)

revise-IsCurrent : (r : Registry) → IsCurrent (revise r)
revise-IsCurrent r = inr refl

pub add-IsCurrent : (c : Option Record) (r r' : Registry) → add c r ≡ ok r' → IsCurrent r'
unfolding add
add-IsCurrent c r r' e = elim (Result-cases (add_locked c r)) [
  | inl (failure, p) ↦ absurd (ground arith)
  | inr (mid, p) ↦ let state : r' ≡ revise mid = ground arith in rw state (revise-IsCurrent mid)
]

reinstall-IsCurrent : (c : Option Record) (r r' : Registry) → reinstall c r ≡ ok r' → IsCurrent r'
unfolding reinstall
reinstall-IsCurrent c r r' e = elim (Result-cases (normalized c)) [
  | inl (failure, p) ↦ absurd (ground arith)
  | inr (rec, p) ↦ elim (Option-cases (lookup rec.metadata.id r.entries)) [
    | inl gone ↦ absurd (ground arith)
    | inr (a, here) ↦
        let mid = retire_locked a (publish rec r) in
        let state : r' ≡ revise mid = ground arith in rw state (revise-IsCurrent mid)
  ]
]

uninstall-IsCurrent : (id : Bytes) (r r' : Registry) → uninstall id r ≡ ok r' → IsCurrent r'
unfolding uninstall
uninstall-IsCurrent id r r' e = elim (Option-cases (lookup id r.entries)) [
  | inl gone ↦ absurd (ground arith)
  | inr (a, here) ↦
      let mid = retire_locked a (record r { entries = delete id r.entries }) in
      let state : r' ≡ revise mid = ground arith in rw state (revise-IsCurrent mid)
]

-- The leases change references only.
acquire-IsCurrent :
    (a : ℕ) (g : RegistryGeneration) (i : Option Invocation) (r : Registry)
    → get_elem? r.generations a ≡ some g
    → IsCurrent r
    → IsCurrent (acquire a g i r).1
acquire-IsCurrent a g i r here current =
    let kept =
      entry_paths-set r.generations a g (record g { refs = g.refs + 1 }) r.entries here refl in
    elim current [ inl shut ↦ inl shut | inr same ↦ inr (same ∙ ap rebuild_hierarchy (sym kept)) ]

release_generation-IsCurrent :
    (a : ℕ) (r : Registry) → IsCurrent r → IsCurrent (release_generation a r)
unfolding release_generation
release_generation-IsCurrent a r current = elim (Option-cases (get_elem? r.generations a)) [
  | inl gone ↦ let state : release_generation a r ≡ r = ground arith in rw state current
  | inr (g, here) ↦
      let kept =
        entry_paths-set r.generations a g (record g { refs = g.refs - 1 }) r.entries here refl in
      ground (arith, kept, current, here)
]

release-IsCurrent : (i : ℕ) (r : Registry) → IsCurrent r → IsCurrent (release i r)
unfolding release
release-IsCurrent i r current = elim (Option-cases (get_elem? r.leases i)) [
  | inl gone ↦ let state : release i r ≡ r = ground arith in rw state current
  | inr (l, here) ↦ elim (Bool-cases l.released) [
    | inl again ↦ let state : release i r ≡ r = ground arith in rw state current
    | inr first ↦
        let mid = record r { leases = set r.leases i (record l { released = true }) } in
        let state : release i r ≡ release_generation l.generation mid = ground arith in
        rw state (release_generation-IsCurrent l.generation mid current)
  ]
]

retire_all-closed : (addresses : List ℕ) (r : Registry) → (retire_all addresses r).closed ≡ r.closed
unfolding retire_all retire_locked
retire_all-closed [] r = refl
retire_all-closed (a ∷ addresses) r =
    ground (arith, retire_all-closed addresses (retire_locked a r))

close-IsCurrent : (r : Registry) → IsCurrent (close r)
unfolding close
close-IsCurrent r =
    inl (ground (arith, retire_all-closed (values r.entries) (record r { closed = true })))

new_registry-IsCurrent : (cs : List (Option Record)) → IsCurrent (new_registry cs).1
unfolding new_registry
new_registry-IsCurrent cs =
    let r = (add_all cs empty_registry).1 in
    elim (Option-cases (add_all cs empty_registry).0) [
      | inl fine ↦
          let state : (new_registry cs).1 ≡ rebuild_hierarchy_locked r = ground arith in
          rw state (inr refl)
      | inr (failure, p) ↦
          let state : (new_registry cs).1 ≡ close r = ground arith in rw state (close-IsCurrent r)
    ]

lookup_capability-IsCurrent :
    (id : Bytes) (r r' : Registry) (i : ℕ)
    → IsCurrent r
    → lookup_capability id r ≡ ok (i, r')
    → IsCurrent r'
unfolding lookup_capability
lookup_capability-IsCurrent id r r' i current e = elim (Option-cases (current_generation id r)) [
  | inl missing ↦ absurd (ground arith)
  | inr ((a, g), here) ↦
      let (_, at, fresh) = current_generation-eq-some id r a g here in
      let state : r' ≡ (acquire a g none r).1 = ground arith in
      rw state (acquire-IsCurrent a g none r at current)
]

resolve_operation-IsCurrent :
    (id operation : Bytes) (r r' : Registry) (i : ℕ)
    → IsCurrent r
    → resolve_operation id operation r ≡ ok (i, r')
    → IsCurrent r'
resolve_operation-IsCurrent id operation r r' i current e =
    let (a, g, invocation, _, at, _, state, _, _, _, _) =
      resolve_operation-eq-ok id operation r r' i e in
    rw state (acquire-IsCurrent a g (some invocation) r at current)

Step-IsCurrent : {r r' : Registry} → Step r r' → IsCurrent r → IsCurrent r'
Step-IsCurrent (added c {r} {r'} e) current = add-IsCurrent c r r' e
Step-IsCurrent (reinstalled c {r} {r'} e) current = reinstall-IsCurrent c r r' e
Step-IsCurrent (uninstalled id {r} {r'} e) current = uninstall-IsCurrent id r r' e
Step-IsCurrent (looked_up id i {r} {r'} e) current = lookup_capability-IsCurrent id r r' i current e
Step-IsCurrent (resolved id o i {r} {r'} e) current =
    resolve_operation-IsCurrent id o r r' i current e
Step-IsCurrent (released i {r}) current = release-IsCurrent i r current
Step-IsCurrent (closed {r}) current = close-IsCurrent r

-- In every registry that calls in any order reach from a new one, the registry is closed or the
-- nodes it keeps are the hierarchy rebuilt from its installed entries.
pub Reach-IsCurrent : {r : Registry} → Reach r → IsCurrent r
Reach-IsCurrent (start records) = new_registry-IsCurrent records
Reach-IsCurrent (next reached step) = Step-IsCurrent step (Reach-IsCurrent reached)
