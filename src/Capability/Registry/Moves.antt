-- ===== src/Capability/Registry/Moves.antt =====
-- Each operation of internal/capability/registry.go keeps the references of the generations exact.
use tappet.Capability.Types.{Record}
use tappet.Capability.Registry.{
  Registry, empty_registry, add, add_locked, normalized, reinstall, uninstall, publish,
  retire_locked, new_generation, revise,
}
use tappet.Capability.Registry.Refs.{
  IsValid, IsValidAt, publish-IsValid, retire-IsValidAt, retire-frame,
}
use tappet.Prelude.{
  ℕ, ◌≡◌, refl, Option, none, some, Option-cases, inl, inr, arith, length, Bytes, bytes_eq_iff,
  bytes_key, Map, lookup, delete, lookup-insert, lookup-delete, insert-Unique, delete-Unique,
  get_elem?-snoc, get_elem?-past, ok, Result-cases,
}

-- Validity does not read the hierarchy, the counters or the closed flag.
pub IsValidAt-frame :
    (installed : Map Bytes ℕ) (r r' : Registry)
    → r'.generations ≡ r.generations
    → r'.leases ≡ r.leases
    → r'.reclaimed ≡ r.reclaimed
    → IsValidAt installed r
    → IsValidAt installed r'
IsValidAt-frame installed r r' g l c v = record {
  unique = v.unique;
  entry = λ id a h. rw g (v.entry id a h);
  owned = λ id a h. v.owned id a (rw g at h);
  counted = λ a. rw (g, l) (v.counted a);
  reclaimed_once = λ a. rw (g, c) (v.reclaimed_once a);
}

pub IsValid-empty : IsValid empty_registry
unfolding lookup
IsValid-empty = record {
  unique = tt;
  entry = λ id a h. ground arith;
  owned = λ id a h. ground arith;
  counted = λ a. refl;
  reclaimed_once = λ a. refl;
}

-- Each successful change of the registry is one of four moves.
add_locked-eq-ok :
    (candidate : Option Record) (r r' : Registry)
    → add_locked candidate r ≡ ok r'
    → (rec : Record) × (lookup rec.metadata.id r.entries ≡ none) × (r' ≡ publish rec r)
unfolding add_locked
add_locked-eq-ok candidate r r' e = elim (Result-cases (normalized candidate)) [
  | inl (failure, p) ↦ absurd (ground arith)
  | inr (rec, p) ↦ (rec, ground arith, ground arith)
]

pub add_locked-IsValid :
    (candidate : Option Record) (r r' : Registry)
    → IsValid r
    → add_locked candidate r ≡ ok r'
    → IsValid r'
add_locked-IsValid candidate r r' v e =
    let (rec, fresh, state) = add_locked-eq-ok candidate r r' e in
    rw state (publish-IsValid rec r fresh v)

pub add-IsValid :
    (candidate : Option Record) (r r' : Registry) → IsValid r → add candidate r ≡ ok r' → IsValid r'
unfolding add
add-IsValid candidate r r' v e = elim (Result-cases (add_locked candidate r)) [
  | inl (failure, p) ↦ absurd (ground arith)
  | inr (next, p) ↦
      let state : r' ≡ revise next = ground arith in
      rw state (
        IsValidAt-frame next.entries next (revise next) refl refl refl
          (add_locked-IsValid candidate r next v p))
]

-- Reinstalling: the new generation takes the place of the current one, which is retired.
replace-IsValid :
    (rec : Record) (current : ℕ) (r : Registry)
    → lookup rec.metadata.id r.entries ≡ some current
    → IsValid r
    → IsValid (retire_locked current (publish rec r))
replace-IsValid rec current r here v =
    let p = publish rec r in
    let past = get_elem?-past r.generations (length r.generations) (omega arith) in
    let at = get_elem?-snoc r.generations (new_generation rec r) in
    let same = bytes_eq_iff rec.metadata.id in
    let mine = v.entry rec.metadata.id current here in
    let (entries, _, _) = retire-frame current p in
    simp entries (
      retire-IsValidAt p.entries current p rec.metadata.id (insert-Unique _ _ r.entries v.unique)
        (ground (arith, at current, mine, past))
        (λ id j h. (
          grind (arith, v.entry id j, lookup-insert, at, past, mine, same id),
          grind (arith, v.entry id j, lookup-insert, at, past, mine, same id),
        ))
        (λ id j ne h. grind (arith, v.owned id j, lookup-insert, at, same id, mine))
        (λ j. ground (arith, v.counted j, at j, past))
        (λ j. ground (arith, v.reclaimed_once j, at j, past)))

pub reinstall-IsValid :
    (candidate : Option Record) (r r' : Registry)
    → IsValid r
    → reinstall candidate r ≡ ok r'
    → IsValid r'
unfolding reinstall
reinstall-IsValid candidate r r' v e = elim (Result-cases (normalized candidate)) [
  | inl (failure, p) ↦ absurd (ground arith)
  | inr (rec, p) ↦ elim (Option-cases (lookup rec.metadata.id r.entries)) [
    | inl missing ↦ absurd (ground arith)
    | inr (current, here) ↦
        let next = retire_locked current (publish rec r) in
        let state : r' ≡ revise next = ground arith in
        rw state (
          IsValidAt-frame next.entries next (revise next) refl refl refl
            (replace-IsValid rec current r here v))
  ]
]

remove-IsValid :
    (id : Bytes) (current : ℕ) (r : Registry)
    → lookup id r.entries ≡ some current
    → IsValid r
    → IsValid (retire_locked current (record r { entries = delete id r.entries }))
remove-IsValid id current r here v =
    let p = record r { entries = delete id r.entries } in
    let mine = v.entry id current here in
    let same = bytes_eq_iff id in
    let (entries, _, _) = retire-frame current p in
    simp entries (
      retire-IsValidAt p.entries current p id (delete-Unique id r.entries v.unique) mine
        (λ k j h. (
          grind (arith, v.entry k j, lookup-delete, mine, same k),
          grind (arith, v.entry k j, lookup-delete, mine, same k),
        ))
        (λ k j ne h. grind (arith, v.owned k j, lookup-delete, same k, here)) v.counted
        v.reclaimed_once)

pub uninstall-IsValid :
    (id : Bytes) (r r' : Registry) → IsValid r → uninstall id r ≡ ok r' → IsValid r'
unfolding uninstall
uninstall-IsValid id r r' v e = elim (Option-cases (lookup id r.entries)) [
  | inl missing ↦ absurd (ground arith)
  | inr (current, here) ↦
      let next = retire_locked current (record r { entries = delete id r.entries }) in
      let state : r' ≡ revise next = ground arith in
      rw state (
        IsValidAt-frame next.entries next (revise next) refl refl refl
          (remove-IsValid id current r here v))
]
