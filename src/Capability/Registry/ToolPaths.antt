-- ===== src/Capability/Registry/ToolPaths.antt =====
-- What a resolution in internal/capability/registry.go returns, and that the paths which
-- internal/server/backend.go prints resolve to the operations that they were printed for.
use tappet.Capability.Types.{Operation, ProviderBinding}
use tappet.Capability.Paths.{has_byte, last_index_byte-append}
use tappet.Capability.Registry.{Registry, RegistryGeneration, Lease, Invocation, current_generation}
use tappet.Capability.Registry.Resolve.{
  find_operation, find_binding, resolve_operation, sole_operation, legacy_path, legacy_match,
  legacy_matches, whole_path_match, split_tool_path, tool_path_target, legacy_tool_path,
  resolve_operation-eq-ok,
}
use tappet.Prelude.{
  All, true, ap, sym, ◌∙◌, ◌+◌, get_elem?-set, ℕ, ◌≡◌, ◌≢◌, refl, false, none, some, Option-cases,
  inl, inr, List, [], ◌∷◌, ◌++◌, arith, length, length-append, get_elem?, get_elem?-snoc,
  take-append_left, drop-append_left, Bytes, bytes_eq, bytes_eq_iff, bytes_key, is_empty, Map,
  lookup, Unique, ok, get_elem?-past, Bool-cases, drop-drop, ◌<◌,
}

-- Which element of a list a loop that stops at the first with the key has found.
pub record IsFirst {A : Type 0} (key : A → Bytes) (id : Bytes) (xs : List A) (x : A) : Type 0 where
  pub before : List A
  pub after : List A
  pub place : xs ≡ before ++ (x ∷ after)
  pub others : All (λ y. bytes_eq (key y) id ≡ false) before
  pub its_key : key x ≡ id

IsFirst-head :
    {A : Type 0} (key : A → Bytes) (id : Bytes) (x y : A) (xs : List A)
    → bytes_eq (key x) id ≡ true
    → x ≡ y
    → IsFirst key id (x ∷ xs) y
IsFirst-head key id x y xs here same = record {
  before = [];
  after = xs;
  place = ap (λ z. z ∷ xs) same;
  others = tt;
  its_key = ap key (sym same) ∙ (bytes_eq_iff (key x) id).0 here;
}

IsFirst-cons :
    {A : Type 0} (key : A → Bytes) (id : Bytes) (x y : A) (xs : List A)
    → bytes_eq (key x) id ≡ false
    → IsFirst key id xs y
    → IsFirst key id (x ∷ xs) y
IsFirst-cons key id x y xs other f = record {
  before = x ∷ f.before;
  after = f.after;
  place = ap (λ zs. x ∷ zs) f.place;
  others = (other, f.others);
  its_key = f.its_key;
}

find_operation-IsFirst :
    (id : Bytes) (os : List Operation) (o : Operation)
    → find_operation id os ≡ some o
    → IsFirst (λ (x : Operation). x.id) id os o
unfolding find_operation
find_operation-IsFirst id [] o h = absurd (ground arith)
find_operation-IsFirst id (x ∷ os) o h = elim (Bool-cases (bytes_eq x.id id)) [
  | inl here ↦ IsFirst-head (λ (y : Operation). y.id) id x o os here (ground arith)
  | inr other ↦
      IsFirst-cons (λ (y : Operation). y.id) id x o os other
        (find_operation-IsFirst id os o (ground arith))
]

find_binding-IsFirst :
    (id : Bytes) (ps : List ProviderBinding) (p : ProviderBinding)
    → find_binding id ps ≡ some p
    → IsFirst (λ (x : ProviderBinding). x.id) id ps p
unfolding find_binding
find_binding-IsFirst id [] p h = absurd (ground arith)
find_binding-IsFirst id (x ∷ ps) p h = elim (Bool-cases (bytes_eq x.id id)) [
  | inl here ↦ IsFirst-head (λ (y : ProviderBinding). y.id) id x p ps here (ground arith)
  | inr other ↦
      IsFirst-cons (λ (y : ProviderBinding). y.id) id x p ps other
        (find_binding-IsFirst id ps p (ground arith))
]

-- A resolution that succeeds gives out a new lease, not released, on the generation installed
-- under the capability, which is not retired and counts one reference more. The lease carries
-- the first operation of the generation's record with the identifier that was asked for, and the
-- first of that record's bindings with the identifier of the operation's provider.
pub resolve_operation_lease :
    (id operation_id : Bytes) (r r' : Registry) (i : ℕ)
    → resolve_operation id operation_id r ≡ ok (i, r')
    → (l : Lease) × (v : Invocation) × (g : RegistryGeneration) × (get_elem? r.leases i ≡ none)
      × (get_elem? r'.leases i ≡ some l)
      × (l.released ≡ false)
      × (lookup id r'.entries ≡ some l.generation)
      × (get_elem? r.generations l.generation ≡ some g)
      × (g.retired ≡ false)
      × (get_elem? r'.generations l.generation ≡ some (record g { refs = g.refs + 1 }))
      × (l.invocation ≡ some v)
      × (v.capability_id ≡ id)
      × IsFirst (λ (o : Operation). o.id) operation_id g.package_record.operations v.operation
      × IsFirst
          (λ (p : ProviderBinding). p.id)
          v.operation.provider
          g.package_record.providers
          v.binding
resolve_operation_lease id operation_id r r' i e =
    let (a, g, v, entry, at, fresh, state, index, capability, found, bound) =
      resolve_operation-eq-ok id operation_id r r' i e in
    let l : Lease = record { generation = a; invocation = some v; released = false } in
    let counted = record g { refs = g.refs + 1 } in
    (
      l,
      v,
      g,
      rw index (get_elem?-past r.leases (length r.leases) (omega arith)),
      rw (state, index) (ground (arith, get_elem?-snoc r.leases l (length r.leases))),
      refl,
      rw state entry,
      at,
      fresh,
      rw state (ground (arith, get_elem?-set r.generations a counted a, at)),
      refl,
      capability,
      find_operation-IsFirst operation_id g.package_record.operations v.operation found,
      find_binding-IsFirst v.operation.provider g.package_record.providers v.binding bound,
    )

-- No entry of `m` but one under `id` answers to the path.
abbrev pub OthersSilent : Bytes → Bytes → List RegistryGeneration → Map Bytes ℕ → Type 0
OthersSilent path id generations m =
    (j : Bytes) (b : ℕ) (g : RegistryGeneration)
    → lookup j m ≡ some b
    → get_elem? generations b ≡ some g
    → j ≢ id
    → legacy_match path j g ≡ none

legacy_matches-none :
    (path : Bytes) (generations : List RegistryGeneration) (m : Map Bytes ℕ)
    → Unique m
    → ((j : Bytes) (b : ℕ) (g : RegistryGeneration)
        → lookup j m ≡ some b
        → get_elem? generations b ≡ some g
        → legacy_match path j g ≡ none)
    → legacy_matches path generations m ≡ []
unfolding legacy_matches
legacy_matches-none path generations [] u silent = refl
legacy_matches-none path generations ((j, b) ∷ m) u silent =
    let rest =
      legacy_matches-none path generations m u.1
        (λ k c g h at. silent k c g (unfold lookup in ground (arith, u.0, bytes_eq_iff j k)) at) in
    elim (Option-cases (get_elem? generations b)) [
      | inl missing ↦ ground (arith, rest)
      | inr (g, at) ↦
          let quiet = silent j b g (unfold lookup in ground (arith, bytes_eq_iff j j)) at in
          ground (arith, rest, quiet)
    ]

legacy_matches_one :
    (path id : Bytes) (generations : List RegistryGeneration) (m : Map Bytes ℕ) (a : ℕ)
    (g : RegistryGeneration) (found : Bytes × Bytes)
    → Unique m
    → lookup id m ≡ some a
    → get_elem? generations a ≡ some g
    → legacy_match path id g ≡ some found
    → OthersSilent path id generations m
    → legacy_matches path generations m ≡ found ∷ []
unfolding legacy_matches
legacy_matches_one path id generations [] a g found u here at hit silent =
    unfold lookup in absurd (ground arith)
legacy_matches_one path id generations ((j, b) ∷ m) a g found u here at hit silent =
    let later = λ (k : Bytes) (c : ℕ) (f : RegistryGeneration) (h : lookup k m ≡ some c).
      silent k c f (unfold lookup in ground (arith, u.0, bytes_eq_iff j k)) in
    elim (Bool-cases (bytes_eq j id)) [
      | inl same ↦
          let e : j ≡ id = (bytes_eq_iff j id).0 same in
          let there : get_elem? generations b ≡ some g = unfold lookup in ground arith in
          let hit_j : legacy_match path j g ≡ some found = rw e hit in
          let rest = legacy_matches-none path generations m u.1 (λ k c f h there_k.
            later k c f h there_k (λ ek. unfold lookup in ground (arith, u.0, bytes_eq_iff j k))) in
          ground (arith, rest, hit_j, there)
      | inr other ↦
          let rest =
            legacy_matches_one path id generations m a g found u.1 (unfold lookup in ground arith)
              at hit later in
          elim (Option-cases (get_elem? generations b)) [
            | inl missing ↦ ground (arith, rest)
            | inr (f, there) ↦
                let quiet =
                  silent j b f (unfold lookup in ground (arith, bytes_eq_iff j j)) there
                    (λ e. ground (arith, bytes_eq_iff j id)) in
                ground (arith, rest, quiet)
          ]
    ]

positive_length : (s : Bytes) → is_empty s ≡ false → 0 < length s
positive_length [] h = ground arith
positive_length (x ∷ s) h = omega arith

split_tool_path-join :
    (p s : Bytes)
    → is_empty p ≡ false
    → is_empty s ≡ false
    → has_byte b'.' s ≡ false
    → split_tool_path (p ++ (b'.' ∷ s)) ≡ ok (p, s)
unfolding split_tool_path
split_tool_path-join p s nonempty nonempty_s plain =
    let tail = drop-drop 1 (length p) (p ++ (b'.' ∷ s)) in
    let positive : 0 < length p = positive_length p nonempty in
    let positive_s : 0 < length s = positive_length s nonempty_s in
    ground (
      arith,
      last_index_byte-append b'.' p s plain,
      take-append_left p (b'.' ∷ s),
      drop-append_left p (b'.' ∷ s),
      tail,
      length-append p (b'.' ∷ s),
      positive,
      positive_s,
    )

module _ (id : Bytes) (a : ℕ) (g : RegistryGeneration) (o : Operation) (r : Registry)
    (unique : Unique r.entries) (here : lookup id r.entries ≡ some a)
    (at : get_elem? r.generations a ≡ some g) (current : g.retired ≡ false) where
  -- The printed path of the sole operation of an installed capability resolves to that
  -- capability and operation, where no other capability answers to the path.
  pub legacy_tool_path_sole :
      sole_operation g.package_record ≡ some o
      → OthersSilent (legacy_tool_path g.package_record o) id r.generations r.entries
      → tool_path_target (legacy_tool_path g.package_record o) r ≡ ok (id, o.id)
  unfolding tool_path_target
  legacy_tool_path_sole sole silent =
      let path = legacy_tool_path g.package_record o in
      let hit : legacy_match path id g ≡ some (id, o.id) =
        unfold legacy_match legacy_path legacy_tool_path in
        ground (arith, bytes_eq_iff path path) in
      rw (
        legacy_matches_one path id r.generations r.entries a g (id, o.id) unique here at hit silent)

  -- Where an installed capability has several operations, the printed path of an operation
  -- resolves to that capability and operation, if no capability has that path as its identifier,
  -- no other answers to it, and the identifiers are not empty and that of the operation has no
  -- dot.
  pub legacy_tool_path_split :
      sole_operation g.package_record ≡ none
      → g.package_record.metadata.id ≡ id
      → is_empty id ≡ false
      → is_empty o.id ≡ false
      → has_byte b'.' o.id ≡ false
      → lookup (legacy_tool_path g.package_record o) r.entries ≡ none
      → OthersSilent (legacy_tool_path g.package_record o) id r.generations r.entries
      → tool_path_target (legacy_tool_path g.package_record o) r ≡ ok (id, o.id)
  unfolding tool_path_target
  legacy_tool_path_split several named nonempty nonempty_op plain absent silent =
      let path = legacy_tool_path g.package_record o in
      let written : path ≡ id ++ (b'.' ∷ o.id) = unfold legacy_tool_path in ground arith in
      let quiet = legacy_matches-none path r.generations r.entries unique (λ j b f h there.
        elim (Bool-cases (bytes_eq j id)) [
          | inl same ↦
              let e : j ≡ id = (bytes_eq_iff j id).0 same in
              let ours : lookup id r.entries ≡ some b = rw (← e) h in
              unfold legacy_match in ground arith
          | inr other ↦ silent j b f h there (λ e. ground (arith, bytes_eq_iff j id))
        ]) in
      let whole : whole_path_match path r ≡ none =
        unfold whole_path_match current_generation in ground arith in
      ground (arith, quiet, whole, written, split_tool_path-join id o.id nonempty nonempty_op plain)
