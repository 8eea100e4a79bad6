-- ===== src/Capability/Registry.antt =====
-- internal/capability/registry.go: installed capabilities, their generations, and the leases that
-- keep a retired generation alive. A generation is an address in `generations`, as the source
-- shares it by pointer; a lease is an index in `leases`. `reclaimed` lists the addresses whose
-- record `reclaimLocked` released, in order.
pub mod Refs
pub mod Resolve
pub mod ToolPaths
pub mod Moves
pub mod Leases
pub mod Reach
pub mod Current
use tappet.Capability.Hierarchy.{HierarchyNode, rebuild_hierarchy}
use tappet.Capability.Types.{Record, Operation, ProviderBinding}
use tappet.Prelude.{
  ℕ, zero, suc, ◌+◌, ◌-◌, ◌%◌, ◌^◌, Bool, true, false, ◌&&◌, ◌||◌, not, Option, none, some, List,
  [], ◌∷◌, ◌++◌, ◌==◌, leb, if◌then◌else◌, length, get_elem?, set, Bytes, bytes_key, Map, lookup,
  insert, delete, values, Result, ok, err,
}

pub data RegistryError : Type 0 where
  record_required registry_closed capability_not_found operation_not_found : RegistryError
  capability_duplicate binding_absent ambiguous_tool_path hierarchy_path_not_found : RegistryError

pub record RegistryGeneration : Type 0 where
  pub id : ℕ
  pub package_record : Record
  pub refs : ℕ
  pub retired : Bool

-- What an `InvocationLease` holds beside its generation.
pub record Invocation : Type 0 where
  pub capability_id : Bytes
  pub operation : Operation
  pub binding : ProviderBinding

-- A `CapabilityLease` (no invocation) or an `InvocationLease`; `released` is its `sync.Once`.
pub record Lease : Type 0 where
  pub generation : ℕ
  pub invocation : Option Invocation
  pub released : Bool

pub record Registry : Type 0 where
  pub generations : List RegistryGeneration
  pub entries : Map Bytes ℕ
  pub nodes : Map Bytes HierarchyNode
  pub next : ℕ
  pub revision : ℕ
  pub closed : Bool
  pub leases : List Lease
  pub reclaimed : List ℕ

abbrev pub empty_registry : Registry
empty_registry = record {
  generations = [];
  entries = [];
  nodes = [];
  next = 0;
  revision = 0;
  closed = false;
  leases = [];
  reclaimed = [];
}

-- `uint64` counters wrap.
abbrev pub next64 : ℕ → ℕ
next64 n = (n + 1) % 2 ^ 64

-- The identifier and the parent of each entry's record.
unfoldable pub entry_paths : List RegistryGeneration → Map Bytes ℕ → List (Bytes × Bytes)
entry_paths generations [] = []
entry_paths generations ((id, a) ∷ m) =
    let rest = entry_paths generations m in
    elim (get_elem? generations a) [ none ↦ rest | some g ↦ (id, g.package_record.parent) ∷ rest ]

abbrev pub rebuild_hierarchy_locked : Registry → Registry
rebuild_hierarchy_locked r = record r {
  nodes = rebuild_hierarchy (entry_paths r.generations r.entries);
}

-- The allocation that `addLocked` and `Reinstall` share.
abbrev pub new_generation : Record → Registry → RegistryGeneration
new_generation rec r = record {
  id = next64 r.next;
  package_record = rec;
  refs = 1;
  retired = false;
}

abbrev pub publish : Record → Registry → Registry
publish rec r = record r {
  next = next64 r.next;
  generations = r.generations ++ new_generation rec r ∷ [];
  entries = insert rec.metadata.id (length r.generations) r.entries;
}

-- `record == nil || record.snapshot == nil`
unfoldable pub normalized : Option Record → Result RegistryError Record
normalized none = err record_required
normalized (some rec) = elim rec.snapshot [ none ↦ err record_required | some _ ↦ ok rec ]

unfoldable pub add_locked : Option Record → Registry → Result RegistryError Registry
unfolding normalized
add_locked candidate r = elim (normalized candidate) [
  | err e ↦ err e
  | ok rec ↦ elim (lookup rec.metadata.id r.entries) [
    | some _ ↦ err capability_duplicate
    | none ↦ ok (publish rec r)
  ]
]

abbrev pub revise : Registry → Registry
revise r = let h = rebuild_hierarchy_locked r in record h { revision = next64 r.revision }

unfoldable pub add : Option Record → Registry → Result RegistryError Registry
unfolding add_locked
add candidate r =
    if r.closed
    then err registry_closed
    else elim (add_locked candidate r) [ err e ↦ err e | ok r' ↦ ok (revise r') ]

abbrev pub reclaim_locked : ℕ → Registry → Registry
reclaim_locked a r = record r { reclaimed = a ∷ r.reclaimed }

-- The last reference is the one that makes `refs` 0.
unfoldable pub retire_locked : ℕ → Registry → Registry
retire_locked a r = elim (get_elem? r.generations a) [
  | none ↦ r
  | some g ↦
      let retired = record r {
        generations = set r.generations a (record g { retired = true; refs = g.refs - 1 });
      } in
      if g.refs == 1 then reclaim_locked a retired else retired
]

unfoldable pub reinstall : Option Record → Registry → Result RegistryError Registry
unfolding normalized retire_locked
reinstall candidate r = elim (normalized candidate) [
  | err e ↦ err e
  | ok rec ↦ if r.closed then err registry_closed else elim (lookup rec.metadata.id r.entries) [
    | none ↦ err capability_not_found
    | some current ↦ ok (revise (retire_locked current (publish rec r)))
  ]
]

unfoldable pub uninstall : Bytes → Registry → Result RegistryError Registry
unfolding retire_locked
uninstall capability_id r =
    if r.closed then err registry_closed else elim (lookup capability_id r.entries) [
      | none ↦ err capability_not_found
      | some current ↦
          ok
            (revise (retire_locked current (record r { entries = delete capability_id r.entries })))
    ]

-- `generation.refs++` and the new lease.
abbrev pub acquire : ℕ → RegistryGeneration → Option Invocation → Registry → ℕ × Registry
acquire a g invocation r = (
  length r.leases,
  record r {
    generations = set r.generations a (record g { refs = g.refs + 1 });
    leases =
        r.leases ++ (record { generation = a; invocation = invocation; released = false }) ∷ [];
  },
)

-- The generation under a capability, unless it is retired.
unfoldable pub current_generation : Bytes → Registry → Option (ℕ × RegistryGeneration)
current_generation capability_id r = elim (lookup capability_id r.entries) [
  | none ↦ none
  | some a ↦ elim (get_elem? r.generations a) [
    | none ↦ none
    | some g ↦ if g.retired then none else some (a, g)
  ]
]

-- `Lookup`
unfoldable pub lookup_capability : Bytes → Registry → Result RegistryError (ℕ × Registry)
unfolding current_generation
lookup_capability capability_id r =
    if r.closed then err registry_closed else elim (current_generation capability_id r) [
      | none ↦ err capability_not_found
      | some (a, g) ↦ ok (acquire a g none r)
    ]

-- `release` on a generation: a count of 0 is left alone.
unfoldable pub release_generation : ℕ → Registry → Registry
release_generation a r = elim (get_elem? r.generations a) [
  | none ↦ r
  | some g ↦
      if leb g.refs 0
      then r
      else let released = record r {
        generations = set r.generations a (record g { refs = g.refs - 1 });
      } in
        if g.refs == 1 && g.retired then reclaim_locked a released else released
]

-- `Release` of either lease.
unfoldable pub release : ℕ → Registry → Registry
unfolding release_generation
release i r = elim (get_elem? r.leases i) [
  | none ↦ r
  | some l ↦
      if l.released
      then r
      else release_generation l.generation
          (record r { leases = set r.leases i (record l { released = true }) })
]

unfoldable pub retire_all : List ℕ → Registry → Registry
unfolding retire_locked
retire_all [] r = r
retire_all (a ∷ addresses) r = retire_all addresses (retire_locked a r)

unfoldable pub close : Registry → Registry
unfolding retire_all
close r =
    if r.closed
    then r
    else let retired = retire_all (values r.entries) (record r { closed = true }) in
      record retired { entries = []; nodes = [] }

-- The loop of `NewRegistry`: the error that ends it, and the registry so far.
unfoldable pub add_all : List (Option Record) → Registry → Option RegistryError × Registry
add_all [] r = (none, r)
add_all (c ∷ cs) r = elim (add_locked c r) [ err e ↦ (some e, r) | ok r' ↦ add_all cs r' ]

-- On an error the records that were added are released again.
unfoldable pub new_registry : List (Option Record) → Option RegistryError × Registry
unfolding add_all close
new_registry records =
    let (failure, r) = add_all records empty_registry in
    elim failure [ some e ↦ (some e, close r) | none ↦ (none, rebuild_hierarchy_locked r) ]
