-- ===== src/Capability/Registry/Resolve.antt =====
-- `ResolveOperation` and `ResolveToolPath` of internal/capability/registry.go, and `legacyToolPath`
-- of internal/server/backend.go, which prints the paths that they read.
use tappet.Capability.Types.{Record, Operation, ProviderBinding}
use tappet.Capability.Paths.{last_index_byte}
use tappet.Capability.Registry.{
  Registry, RegistryGeneration, RegistryError, registry_closed, capability_not_found,
  operation_not_found, binding_absent, ambiguous_tool_path, Invocation, current_generation, acquire,
}
use tappet.Prelude.{
  ℕ, ◌+◌, ◌-◌, ◌≡◌, refl, false, not, ◌||◌, Option, none, some, List, [], ◌∷◌, ◌++◌, ◌==◌, leb,
  if◌then◌else◌, length, get_elem?, take, drop, Bytes, bytes_eq, bytes_key, is_empty, Map, lookup,
  Result, ok, err, Option-cases, inl, inr, arith,
}

-- The two loops of `ResolveOperation`.
unfoldable pub find_operation : Bytes → List Operation → Option Operation
find_operation id [] = none
find_operation id (o ∷ os) = if bytes_eq o.id id then some o else find_operation id os

unfoldable pub find_binding : Bytes → List ProviderBinding → Option ProviderBinding
find_binding id [] = none
find_binding id (p ∷ ps) = if bytes_eq p.id id then some p else find_binding id ps

unfoldable pub resolve_operation : Bytes → Bytes → Registry → Result RegistryError (ℕ × Registry)
unfolding current_generation
resolve_operation capability_id operation_id r =
    if r.closed then err registry_closed else elim (current_generation capability_id r) [
      | none ↦ err capability_not_found
      | some (a, g) ↦ elim (find_operation operation_id g.package_record.operations) [
        | none ↦ err operation_not_found
        | some operation ↦ elim (find_binding operation.provider g.package_record.providers) [
          | none ↦ err binding_absent
          | some binding ↦ ok (
              acquire a g
                (some (record {
                  capability_id = capability_id;
                  operation = operation;
                  binding = binding;
                }))
                r)
        ]
      ]
    ]

-- The operation of a record that has exactly one.
abbrev pub sole_operation : Record → Option Operation
sole_operation rec = elim rec.operations [
  | [] ↦ none
  | o ∷ os ↦ if is_empty os then some o else none
]

-- `legacyPath` in the first loop of `ResolveToolPath`: the target, behind a parent that is not empty.
unfoldable pub legacy_path : Record → Operation → Bytes
legacy_path rec o = if not (is_empty rec.parent) then rec.parent ++ (b'.' ∷ o.target) else o.target

-- The test of one entry in the first loop of `ResolveToolPath`.
unfoldable pub legacy_match : Bytes → Bytes → RegistryGeneration → Option (Bytes × Bytes)
unfolding legacy_path
legacy_match tool_path capability_id g =
    if g.retired then none else elim (sole_operation g.package_record) [
      | none ↦ none
      | some o ↦
          let path = legacy_path g.package_record o in
          if bytes_eq tool_path path || bytes_eq tool_path (path ++ (b'.' ∷ o.target))
          then some (capability_id, o.id)
          else none
    ]

unfoldable pub legacy_matches : Bytes → List RegistryGeneration → Map Bytes ℕ → List (Bytes × Bytes)
legacy_matches tool_path generations [] = []
legacy_matches tool_path generations ((id, a) ∷ m) =
    let rest = legacy_matches tool_path generations m in
    elim (get_elem? generations a) [
      | none ↦ rest
      | some g ↦ elim (legacy_match tool_path id g) [ none ↦ rest | some found ↦ found ∷ rest ]
    ]

-- `toolPath[separator+1:]` where there is a separator, else the whole path.
unfoldable pub last_segment : Bytes → Bytes
last_segment path = elim (last_index_byte b'.' path) [ none ↦ path | some i ↦ drop (i + 1) path ]

-- The second look: a capability under the path itself whose sole operation has its last segment.
unfoldable pub whole_path_match : Bytes → Registry → Option Bytes
unfolding current_generation last_segment
whole_path_match tool_path r = elim (current_generation tool_path r) [
  | none ↦ none
  | some (_, g) ↦ elim (sole_operation g.package_record) [
    | none ↦ none
    | some o ↦ if bytes_eq o.id (last_segment tool_path) then some o.id else none
  ]
]

-- The last look: the path is a capability and an operation.
unfoldable pub split_tool_path : Bytes → Result RegistryError (Bytes × Bytes)
split_tool_path tool_path = elim (last_index_byte b'.' tool_path) [
  | none ↦ err operation_not_found
  | some i ↦
      if leb i 0 || i == length tool_path - 1
      then err operation_not_found
      else ok (take i tool_path, drop (i + 1) tool_path)
]

abbrev after_legacy : Bytes → Registry → List (Bytes × Bytes) → Result RegistryError (Bytes × Bytes)
after_legacy tool_path r (found ∷ []) = ok found
after_legacy tool_path r (_ ∷ _ ∷ _) = err ambiguous_tool_path
after_legacy tool_path r [] = elim (whole_path_match tool_path r) [
  | some operation_id ↦ ok (tool_path, operation_id)
  | none ↦ split_tool_path tool_path
]

-- What `ResolveToolPath` finds under the read lock.
unfoldable pub tool_path_target : Bytes → Registry → Result RegistryError (Bytes × Bytes)
unfolding legacy_matches
tool_path_target tool_path r =
    after_legacy tool_path r (legacy_matches tool_path r.generations r.entries)

-- The read lock is given up before `ResolveOperation` takes the lock: `read` is the registry that
-- the path was looked up in, and `r` the registry at the second lock.
unfoldable pub resolve_tool_path : Bytes → Registry → Registry → Result RegistryError (ℕ × Registry)
unfolding tool_path_target resolve_operation
resolve_tool_path tool_path read r = elim (tool_path_target tool_path read) [
  | err e ↦ err e
  | ok (capability_id, operation_id) ↦ resolve_operation capability_id operation_id r
]

-- `legacyToolPath`
unfoldable pub legacy_tool_path : Record → Operation → Bytes
legacy_tool_path rec o = elim (sole_operation rec) [
  | some _ ↦ if is_empty rec.parent then o.target else rec.parent ++ (b'.' ∷ o.target)
  | none ↦ rec.metadata.id ++ (b'.' ∷ o.id)
]

pub current_generation-eq-some :
    (id : Bytes) (r : Registry) (a : ℕ) (g : RegistryGeneration)
    → current_generation id r ≡ some (a, g)
    → (lookup id r.entries ≡ some a) × (get_elem? r.generations a ≡ some g) × (g.retired ≡ false)
unfolding current_generation
current_generation-eq-some id r a g e = elim (Option-cases (lookup id r.entries)) [
  | inl missing ↦ absurd (ground arith)
  | inr (b, here) ↦ elim (Option-cases (get_elem? r.generations b)) [
    | inl missing ↦ absurd (ground arith)
    | inr (f, at) ↦ (ground arith, ground arith, ground arith)
  ]
]

-- What a resolution that succeeds has found and changed.
pub resolve_operation-eq-ok :
    (id operation_id : Bytes) (r r' : Registry) (i : ℕ)
    → resolve_operation id operation_id r ≡ ok (i, r')
    → (a : ℕ) × (g : RegistryGeneration) × (v : Invocation) × (lookup id r.entries ≡ some a)
      × (get_elem? r.generations a ≡ some g)
      × (g.retired ≡ false)
      × (r' ≡ (acquire a g (some v) r).1)
      × (i ≡ length r.leases)
      × (v.capability_id ≡ id)
      × (find_operation operation_id g.package_record.operations ≡ some v.operation)
      × (find_binding v.operation.provider g.package_record.providers ≡ some v.binding)
unfolding resolve_operation
resolve_operation-eq-ok id operation_id r r' i e = elim (Option-cases (current_generation id r)) [
  | inl missing ↦ absurd (ground arith)
  | inr ((a, g), here) ↦
      elim (Option-cases (find_operation operation_id g.package_record.operations)) [
        | inl missing ↦ absurd (ground arith)
        | inr (o, found) ↦
            elim (Option-cases (find_binding o.provider g.package_record.providers)) [
              | inl missing ↦ absurd (ground arith)
              | inr (b, bound) ↦
                  let (entry, at, fresh) = current_generation-eq-some id r a g here in
                  (
                    a,
                    g,
                    record { capability_id = id; operation = o; binding = b },
                    entry,
                    at,
                    fresh,
                    ground arith,
                    ground arith,
                    refl,
                    found,
                    bound,
                  )
            ]
      ]
]
