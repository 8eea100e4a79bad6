-- ===== src/Tests/RegistryTests.antt =====
-- internal/capability/registry.go on a small registry: one capability, reinstalled under a lease.
use tappet.Capability.Paths.{has_byte}
use tappet.Capability.Registry.{Invocation}
use tappet.Capability.Registry.Resolve.{
  resolve_operation, legacy_tool_path, tool_path_target, find_operation, find_binding,
}
use tappet.Capability.Registry.ToolPaths.{
  IsFirst, OthersSilent, resolve_operation_lease, legacy_tool_path_sole, legacy_tool_path_split,
}
use tappet.Capability.Types.{Record, Operation, ProviderBinding}
use tappet.Capability.Registry.{
  Registry, RegistryGeneration, RegistryError, Lease, add, reinstall, lookup_capability, close,
  new_registry, release,
}
use tappet.Capability.Registry.Refs.{IsValid, count}
use tappet.Capability.Registry.Reach.{
  Reach, start, next, added, reinstalled, looked_up, Reach-IsValid, leased_not_reclaimed,
  closed_reclaims_all, released,
}
use tappet.Capability.Registry.Current.{IsCurrent, Reach-IsCurrent}
use tappet.Capability.Hierarchy.{rebuild_hierarchy}
use tappet.Prelude.{
  ◌+◌, ℕ, ◌≡◌, refl, true, false, none, some, [], ◌∷◌, Bytes, codes, lookup, insert, delete,
  bytes_eq, Result, ok, err, get_elem?, bytes_eq_iff, arith, bytes_key,
}

abbrev provider : ProviderBinding
provider = record { id = codes "p"; kind = codes "mcp"; server_ref = codes "s" }

abbrev operation : Operation
operation = record {
  id = codes "echo";
  description = codes "d";
  provider = codes "p";
  target = codes "echo";
}

abbrev package_of : Bytes → Record
package_of version = record {
  metadata = record {
    id = codes "every.echo";
    name = codes "Echo";
    version = version;
    description = codes "d";
    tags = [];
  };
  parent = codes "every";
  manifest_digest = [];
  skills = [];
  operations = operation ∷ [];
  context = [];
  providers = provider ∷ [];
  artifacts = [];
  snapshot = some (record { digests = []; released = false });
}

abbrev fresh : Registry
fresh = (new_registry []).1

abbrev after : Registry → Result RegistryError Registry → Registry
after d (ok r) = r
after d (err e) = d

abbrev with_one : Registry
with_one = after fresh (add (some (package_of (codes "1.0.0"))) fresh)

abbrev with_lease : Registry
with_lease = elim (lookup_capability (codes "every.echo") with_one) [
  | ok (_, r) ↦ r
  | err e ↦ with_one
]

abbrev replaced : Registry
replaced = after with_lease (reinstall (some (package_of (codes "1.1.0"))) with_lease)

Reach-replaced : Reach replaced
unfolding new_registry add lookup_capability reinstall rebuild_hierarchy lookup insert bytes_eq
Reach-replaced =
    next
      (next (next (start []) (added (some (package_of (codes "1.0.0"))) refl))
        (looked_up (codes "every.echo") 0 refl))
      (reinstalled (some (package_of (codes "1.1.0"))) refl)

Reach-IsValid_example : IsValid replaced
Reach-IsValid_example = Reach-IsValid Reach-replaced

Reach-IsCurrent_example : IsCurrent replaced
Reach-IsCurrent_example = Reach-IsCurrent Reach-replaced

leased_not_reclaimed_example : count 0 replaced.reclaimed ≡ 0
unfolding new_registry add lookup_capability reinstall rebuild_hierarchy lookup insert bytes_eq
leased_not_reclaimed_example =
    leased_not_reclaimed 0 (record { generation = 0; invocation = none; released = false })
      Reach-replaced refl refl

abbrev returned : Registry
returned = release 0 replaced

abbrev newest : RegistryGeneration
newest = record { id = 2; package_record = package_of (codes "1.1.0"); refs = 0; retired = true }

closed_reclaims_all_example : count 1 (close returned).reclaimed ≡ 1
unfolding new_registry add lookup_capability reinstall rebuild_hierarchy lookup insert bytes_eq
    close release
closed_reclaims_all_example =
    closed_reclaims_all 1 newest (next Reach-replaced (released 0)) refl (λ b. refl) refl

abbrev echo_lease : ℕ × Registry
echo_lease = elim (resolve_operation (codes "every.echo") (codes "echo") with_one) [
  | ok answer ↦ answer
  | err e ↦ (0, with_one)
]

resolve_operation_lease_example :
    (l : Lease) × (v : Invocation) × (g : RegistryGeneration) × (get_elem? with_one.leases 0 ≡ none)
    × (get_elem? echo_lease.1.leases 0 ≡ some l)
    × (l.released ≡ false)
    × (lookup (codes "every.echo") echo_lease.1.entries ≡ some l.generation)
    × (get_elem? with_one.generations l.generation ≡ some g)
    × (g.retired ≡ false)
    × (get_elem? echo_lease.1.generations l.generation ≡ some (record g { refs = g.refs + 1 }))
    × (l.invocation ≡ some v)
    × (v.capability_id ≡ codes "every.echo")
    × IsFirst (λ (o : Operation). o.id) (codes "echo") g.package_record.operations v.operation
    × IsFirst
        (λ (p : ProviderBinding). p.id)
        v.operation.provider
        g.package_record.providers
        v.binding
unfolding new_registry add rebuild_hierarchy lookup insert bytes_eq resolve_operation find_operation
    find_binding
resolve_operation_lease_example =
    resolve_operation_lease (codes "every.echo") (codes "echo") with_one echo_lease.1 0 refl

abbrev first_generation : RegistryGeneration
first_generation = record {
  id = 1;
  package_record = package_of (codes "1.0.0");
  refs = 1;
  retired = false;
}

alone :
    (path : Bytes) → OthersSilent path (codes "every.echo") with_one.generations with_one.entries
unfolding new_registry add rebuild_hierarchy lookup insert delete
alone path j b g here at other = absurd (ground (arith, bytes_eq_iff (codes "every.echo") j))

legacy_tool_path_sole_example :
    tool_path_target (legacy_tool_path (package_of (codes "1.0.0")) operation) with_one
    ≡ ok (codes "every.echo", codes "echo")
unfolding new_registry add rebuild_hierarchy lookup insert bytes_eq
legacy_tool_path_sole_example =
    legacy_tool_path_sole (codes "every.echo") 0 first_generation operation with_one (refl, tt) refl
      refl refl refl (alone (legacy_tool_path (package_of (codes "1.0.0")) operation))

-- A capability of two operations.
abbrev two_package : Record
two_package = record (package_of (codes "1.0.0")) {
  operations = operation ∷ record operation { id = codes "ping"; target = codes "ping" } ∷ [];
}

abbrev with_two : Registry
with_two = after fresh (add (some two_package) fresh)

abbrev two_generation : RegistryGeneration
two_generation = record { id = 1; package_record = two_package; refs = 1; retired = false }

alone_two :
    (path : Bytes) → OthersSilent path (codes "every.echo") with_two.generations with_two.entries
unfolding new_registry add rebuild_hierarchy lookup insert delete
alone_two path j b g here at other = absurd (ground (arith, bytes_eq_iff (codes "every.echo") j))

legacy_tool_path_split_example :
    tool_path_target (legacy_tool_path two_package operation) with_two
    ≡ ok (codes "every.echo", codes "echo")
unfolding new_registry add rebuild_hierarchy lookup insert bytes_eq has_byte legacy_tool_path
legacy_tool_path_split_example =
    legacy_tool_path_split (codes "every.echo") 0 two_generation operation with_two (refl, tt) refl
      refl refl refl refl refl refl refl refl (alone_two (legacy_tool_path two_package operation))
