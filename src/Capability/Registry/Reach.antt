-- ===== src/Capability/Registry/Reach.antt =====
-- Construction and `Close` of internal/capability/registry.go, every registry that the operations
-- reach, and what holds of it: no record is reclaimed while something refers to it, nor twice, and
-- none is kept once nothing does.
use tappet.Capability.Registry.Moves.{
  IsValidAt-frame, IsValid-empty, add-IsValid, add_locked-IsValid, reinstall-IsValid,
  uninstall-IsValid,
}
use tappet.Capability.Registry.Leases.{
  lookup_capability-IsValid, resolve_operation-IsValid, release-IsValid,
}
use tappet.Capability.Types.{Record}
use tappet.Capability.Registry.{
  Registry, RegistryGeneration, Lease, empty_registry, add, add_locked, reinstall, uninstall,
  retire_locked, release, retire_all, close, lookup_capability, new_registry, add_all,
  rebuild_hierarchy_locked,
}
use tappet.Capability.Registry.Resolve.{resolve_operation}
use tappet.Capability.Registry.Refs.{IsValid, IsValidAt, active, count, retire-IsValidAt}
use tappet.Prelude.{
  ℕ, zero, suc, ◌≤◌, ◌≡◌, refl, true, false, Option, none, some, Option-cases, Bool-cases, inl, inr,
  List, [], ◌∷◌, arith, get_elem?, sum_by, Bytes, bytes_eq_iff, bytes_key, Map, lookup, values, ok,
  Result-cases,
}

-- The loop of `Close` retires what is left in order.
retire_all-IsValidAt :
    (m : Map Bytes ℕ) (r : Registry) → IsValidAt m r → IsValidAt [] (retire_all (values m) r)
unfolding retire_all
retire_all-IsValidAt [] r v = v
retire_all-IsValidAt ((id, a) ∷ m) r v =
    let mine = v.entry id a (unfold lookup in ground (arith, bytes_eq_iff id id)) in
    retire_all-IsValidAt m (retire_locked a r) (
      retire-IsValidAt m a r id v.unique.1 mine
        (λ k j h. (
          unfold lookup in ground (arith, v.unique.0, v.entry k j, mine, bytes_eq_iff id k, h),
          unfold lookup in ground (arith, v.unique.0, v.entry k j, mine, bytes_eq_iff id k, h),
        ))
        (λ k j ne h. unfold lookup in ground (arith, v.owned k j h, bytes_eq_iff id k)) v.counted
        v.reclaimed_once)

pub close-IsValid : (r : Registry) → IsValid r → IsValid (close r)
unfolding close
close-IsValid r v = elim (Bool-cases r.closed) [
  | inl again ↦ let same : close r ≡ r = ground arith in rw same v
  | inr first ↦
      let shut = record r { closed = true } in
      let all =
        retire_all-IsValidAt r.entries shut (IsValidAt-frame r.entries r shut refl refl refl v) in
      simp first (record {
        unique = tt;
        entry = all.entry;
        owned = all.owned;
        counted = all.counted;
        reclaimed_once = all.reclaimed_once;
      })
]

pub add_all-IsValid :
    (cs : List (Option Record)) (r : Registry) → IsValid r → IsValid (add_all cs r).1
unfolding add_all
add_all-IsValid [] r v = v
add_all-IsValid (c ∷ cs) r v = elim (Result-cases (add_locked c r)) [
  | inl (failure, p) ↦ rw (p, add_all) v
  | inr (next, p) ↦ rw (p, add_all) (add_all-IsValid cs next (add_locked-IsValid c r next v p))
]

pub new_registry-IsValid : (cs : List (Option Record)) → IsValid (new_registry cs).1
unfolding new_registry
new_registry-IsValid cs =
    let r = (add_all cs empty_registry).1 in
    let v = add_all-IsValid cs empty_registry IsValid-empty in
    elim (Option-cases (add_all cs empty_registry).0) [
      | inl fine ↦
          let state : (new_registry cs).1 ≡ rebuild_hierarchy_locked r = ground arith in
          rw state (IsValidAt-frame r.entries r (rebuild_hierarchy_locked r) refl refl refl v)
      | inr (failure, p) ↦
          let state : (new_registry cs).1 ≡ close r = ground arith in rw state (close-IsValid r v)
    ]

-- One call on the registry, by any client: a call that fails leaves the registry as it was.
pub data Step : Registry → Registry → Type 0 where
  added : (candidate : Option Record) {r r' : Registry} → add candidate r ≡ ok r' → Step r r'
  reinstalled :
      (candidate : Option Record) {r r' : Registry} → reinstall candidate r ≡ ok r' → Step r r'
  uninstalled : (id : Bytes) {r r' : Registry} → uninstall id r ≡ ok r' → Step r r'
  looked_up :
      (id : Bytes) (i : ℕ) {r r' : Registry} → lookup_capability id r ≡ ok (i, r') → Step r r'
  resolved :
      (id operation : Bytes) (i : ℕ) {r r' : Registry}
      → resolve_operation id operation r ≡ ok (i, r')
      → Step r r'
  released : (i : ℕ) {r : Registry} → Step r (release i r)
  closed : {r : Registry} → Step r (close r)

-- The registries that calls in any order make of a new one.
pub data Reach : Registry → Type 0 where
  start : (records : List (Option Record)) → Reach (new_registry records).1
  next : {r r' : Registry} → Reach r → Step r r' → Reach r'

Step-IsValid : {r r' : Registry} → Step r r' → IsValid r → IsValid r'
Step-IsValid (added c {r} {r'} e) v = add-IsValid c r r' v e
Step-IsValid (reinstalled c {r} {r'} e) v = reinstall-IsValid c r r' v e
Step-IsValid (uninstalled id {r} {r'} e) v = uninstall-IsValid id r r' v e
Step-IsValid (looked_up id i {r} {r'} e) v = lookup_capability-IsValid id r r' i v e
Step-IsValid (resolved id o i {r} {r'} e) v = resolve_operation-IsValid id o r r' i v e
Step-IsValid (released i {r}) v = release-IsValid i r v
Step-IsValid (closed {r}) v = close-IsValid r v

-- In every registry that calls in any order reach from a new one, each generation has one
-- reference while it is installed and one for each lease on it that is not released, stands
-- under the identifier of its record, and its record was released exactly once if it is retired
-- with no reference, else never.
pub Reach-IsValid : {r : Registry} → Reach r → IsValid r
Reach-IsValid (start records) = new_registry-IsValid records
Reach-IsValid (next reached step) = Step-IsValid step (Reach-IsValid reached)

sum_by-ge :
    (f : Lease → ℕ) (ls : List Lease) (i : ℕ) (l : Lease)
    → get_elem? ls i ≡ some l
    → f l ≤ sum_by f ls
sum_by-ge f [] i l h = absurd (ground arith)
sum_by-ge f (x ∷ ls) zero l h = ground arith
sum_by-ge f (x ∷ ls) (suc i) l h = ground (arith, sum_by-ge f ls i l)

-- In every registry that is reached, the record of a generation with a lease that is not
-- released has not been reclaimed, whether its capability is still installed or not.
pub leased_not_reclaimed :
    {r : Registry} (i : ℕ) (l : Lease)
    → Reach r
    → get_elem? r.leases i ≡ some l
    → l.released ≡ false
    → count l.generation r.reclaimed ≡ 0
leased_not_reclaimed {r} i l reached here open_lease =
    let v = Reach-IsValid reached in
    ground (
      arith,
      v.counted l.generation,
      v.reclaimed_once l.generation,
      sum_by-ge (active l.generation) r.leases i l here,
    )

close-entries : (r : Registry) (id : Bytes) → r.closed ≡ false → lookup id (close r).entries ≡ none
unfolding close lookup
close-entries r id first = rw first

-- Once a reached, open registry is closed and no lease on any generation is left, the record of
-- every generation that was ever installed has been reclaimed exactly once.
pub closed_reclaims_all :
    {r : Registry} (a : ℕ) (g : RegistryGeneration)
    → Reach r
    → r.closed ≡ false
    → ((b : ℕ) → sum_by (active b) (close r).leases ≡ 0)
    → get_elem? (close r).generations a ≡ some g
    → count a (close r).reclaimed ≡ 1
closed_reclaims_all {r} a g reached first idle here =
    let v = close-IsValid r (Reach-IsValid reached) in
    ground (
      arith,
      close-entries r g.package_record.metadata.id first,
      v.counted a,
      v.reclaimed_once a,
      idle a,
      v.owned g.package_record.metadata.id a,
    )
