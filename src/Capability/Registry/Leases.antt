-- ===== src/Capability/Registry/Leases.antt =====
-- Taking and releasing leases in internal/capability/registry.go keeps the references exact.
use tappet.Capability.Registry.{
  Registry, RegistryGeneration, Lease, Invocation, acquire, release, reclaim_locked,
  current_generation, lookup_capability,
}
use tappet.Capability.Registry.Resolve.{
  resolve_operation, resolve_operation-eq-ok, current_generation-eq-some,
}
use tappet.Capability.Registry.Refs.{IsValid, active}
use tappet.Prelude.{
  ℕ, ◌+◌, ◌-◌, ◌<◌, ◌≡◌, true, false, ◌&&◌, Option, none, some, Option-cases, Bool-cases, inl, inr,
  [], ◌∷◌, arith, ◌==◌, if◌then◌else◌, get_elem?, set, sum_by, Bytes, bytes_key, get_elem?-set,
  sum_by-append, sum_by-set, ok,
}

pub acquire-IsValid :
    (a : ℕ) (g : RegistryGeneration) (i : Option Invocation) (r : Registry)
    → get_elem? r.generations a ≡ some g
    → g.retired ≡ false
    → IsValid r
    → IsValid (acquire a g i r).1
acquire-IsValid a g i r here fresh v =
    let at = get_elem?-set r.generations a (record g { refs = g.refs + 1 }) in
    let more = λ (j : ℕ).
      sum_by-append (active j) r.leases
        ((record { generation = a; invocation = i; released = false }) ∷ []) in
    record {
      unique = v.unique;
      entry = λ id j h. grind (arith, v.entry id j, at j, here, fresh);
      owned = λ id j h. grind (arith, v.owned id j, at j, here, fresh);
      counted = λ j. ground (arith, v.counted j, at j, more j, here, fresh);
      reclaimed_once = λ j. ground (arith, v.reclaimed_once j, at j, here, fresh);
    }

pub lookup_capability-IsValid :
    (id : Bytes) (r r' : Registry) (i : ℕ)
    → IsValid r
    → lookup_capability id r ≡ ok (i, r')
    → IsValid r'
unfolding lookup_capability
lookup_capability-IsValid id r r' i v e = elim (Option-cases (current_generation id r)) [
  | inl missing ↦ absurd (ground arith)
  | inr ((a, g), here) ↦
      let (_, at, fresh) = current_generation-eq-some id r a g here in
      let state : r' ≡ (acquire a g none r).1 = ground arith in
      rw state (acquire-IsValid a g none r at fresh v)
]

pub resolve_operation-IsValid :
    (id operation : Bytes) (r r' : Registry) (i : ℕ)
    → IsValid r
    → resolve_operation id operation r ≡ ok (i, r')
    → IsValid r'
resolve_operation-IsValid id operation r r' i v e =
    let (a, g, invocation, _, at, fresh, state, _, _, _, _) =
      resolve_operation-eq-ok id operation r r' i e in
    rw state (acquire-IsValid a g (some invocation) r at fresh v)

-- Releasing a lease for the first time takes one reference of its generation away.
module _ (i : ℕ) (l : Lease) (g : RegistryGeneration) (r : Registry)
    (here : get_elem? r.leases i ≡ some l) (first : l.released ≡ false)
    (at : get_elem? r.generations l.generation ≡ some g) (v : IsValid r) where
  abbrev done : Lease
  done = record l { released = true }

  less : (j : ℕ) → sum_by (active j) (set r.leases i done) + active j l ≡ sum_by (active j) r.leases
  less j = ground (arith, sum_by-set (active j) r.leases i done)

  held : 0 < g.refs
  held = ground (arith, v.counted l.generation, less l.generation)

  abbrev lowered : RegistryGeneration
  lowered = record g { refs = g.refs - 1 }

  abbrev written : Registry
  written = record r {
    leases = set r.leases i done;
    generations = set r.generations l.generation lowered;
  }

  release_first :
      release i r
      ≡ (if g.refs == 1 && g.retired then reclaim_locked l.generation written else written)
  unfolding release
  release_first = ground (arith, held)

  written-at :
      (j : ℕ)
      → get_elem? written.generations j
        ≡ (if l.generation == j then some lowered else get_elem? r.generations j)
  written-at j = ground (arith, get_elem?-set r.generations l.generation lowered j)

  release-IsValid_first : IsValid (release i r)
  release-IsValid_first = rw release_first (elim (Bool-cases (g.refs == 1 && g.retired)) [
    | inl last ↦ rw last (record {
      unique = v.unique;
      entry = λ id j h. ground (arith, v.entry id j h, written-at j);
      owned = λ id j h. ground (arith, v.owned id j, written-at j);
      counted = λ j. ground (arith, v.counted j, written-at j, less j, held);
      reclaimed_once = λ j. ground (arith, v.reclaimed_once j, written-at j, held);
    })
    | inr more ↦ rw more (record {
      unique = v.unique;
      entry = λ id j h. ground (arith, v.entry id j h, written-at j);
      owned = λ id j h. ground (arith, v.owned id j, written-at j);
      counted = λ j. ground (arith, v.counted j, written-at j, less j, held);
      reclaimed_once = λ j. ground (arith, v.reclaimed_once j, written-at j, held);
    })
  ])

pub release-IsValid : (i : ℕ) (r : Registry) → IsValid r → IsValid (release i r)
unfolding release
release-IsValid i r v = elim (Option-cases (get_elem? r.leases i)) [
  | inl missing ↦ let same : release i r ≡ r = ground arith in rw same v
  | inr (l, here) ↦ elim (Bool-cases l.released) [
    | inl again ↦ let same : release i r ≡ r = ground arith in rw same v
    | inr first ↦ elim (Option-cases (get_elem? r.generations l.generation)) [
      | inl missing ↦ absurd (
          ground (
            arith,
            v.counted l.generation,
            sum_by-set (active l.generation) r.leases i (record l { released = true }),
          ))
      | inr (g, at) ↦ release-IsValid_first i l g r here first at v
    ]
  ]
]
