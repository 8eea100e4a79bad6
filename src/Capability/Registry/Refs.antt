-- ===== src/Capability/Registry/Refs.antt =====
-- The life of a generation in internal/capability/registry.go: it has one reference while it is
-- installed and one for each lease that is not released, and its record is reclaimed once, when the
-- last of them goes.
use tappet.Capability.Types.{Record}
use tappet.Capability.Registry.{
  Registry, RegistryGeneration, Lease, publish, retire_locked, new_generation,
}
use tappet.Prelude.{
  ℕ, ◌+◌, ◌-◌, ◌≡◌, true, ◌&&◌, not, Option, none, some, List, [], ◌∷◌, arith, ◌==◌, if◌then◌else◌,
  length, get_elem?, sum_by, Bytes, bytes_eq_iff, bytes_key, Map, lookup, Unique, lookup-insert,
  insert-Unique, get_elem?-set, get_elem?-snoc, get_elem?-past, ◌≢◌,
}

-- 1 for a lease of the generation at `a` that is not released.
abbrev pub active : ℕ → Lease → ℕ
active a l = if not l.released && l.generation == a then 1 else 0

abbrev pub refs_of : Option RegistryGeneration → ℕ
refs_of none = 0
refs_of (some g) = g.refs

-- 1 for a generation that is still installed.
abbrev pub installed_of : Option RegistryGeneration → ℕ
installed_of none = 0
installed_of (some g) = if g.retired then 0 else 1

-- The capability that a generation is installed under.
abbrev pub owner : Option RegistryGeneration → Option Bytes
owner none = none
owner (some g) = if g.retired then none else some g.package_record.metadata.id

-- 1 for a generation that nothing refers to any more.
abbrev pub gone : Option RegistryGeneration → ℕ
gone none = 0
gone (some g) = if g.retired && g.refs == 0 then 1 else 0

-- How often the record of the generation at `a` was released.
abbrev pub count : ℕ → List ℕ → ℕ
count a [] = 0
count a (x ∷ xs) = (if x == a then 1 else 0) + count a xs

-- `installed` is what is installed: the entries, or those that a loop has still to retire.
pub record IsValidAt (installed : Map Bytes ℕ) (r : Registry) : Type 0 where
  pub unique : Unique installed
  pub entry :
      (id : Bytes) (a : ℕ)
      → lookup id installed ≡ some a
      → owner (get_elem? r.generations a) ≡ some id
  pub owned :
      (id : Bytes) (a : ℕ)
      → owner (get_elem? r.generations a) ≡ some id
      → lookup id installed ≡ some a
  pub counted :
      (a : ℕ)
      → refs_of (get_elem? r.generations a)
        ≡ installed_of (get_elem? r.generations a) + sum_by (active a) r.leases
  pub reclaimed_once : (a : ℕ) → count a r.reclaimed ≡ gone (get_elem? r.generations a)

abbrev pub IsValid : Registry → Type 0
IsValid r = IsValidAt r.entries r

pub publish-IsValid :
    (rec : Record) (r : Registry)
    → lookup rec.metadata.id r.entries ≡ none
    → IsValid r
    → IsValid (publish rec r)
publish-IsValid rec r fresh v =
    let past = get_elem?-past r.generations (length r.generations) (omega arith) in
    let at = get_elem?-snoc r.generations (new_generation rec r) in
    let same = bytes_eq_iff rec.metadata.id in
    record {
      unique = insert-Unique _ _ r.entries v.unique;
      entry = λ id a h. grind (arith, v.entry id a, lookup-insert, at, same id);
      owned = λ id a h. grind (arith, v.owned id a, lookup-insert, at, same id);
      counted = λ a. ground (arith, v.counted a, at a, past);
      reclaimed_once = λ a. ground (arith, v.reclaimed_once a, at a, past);
    }

abbrev retired_of : Option RegistryGeneration → Option RegistryGeneration
retired_of none = none
retired_of (some g) = some (record g { retired = true; refs = g.refs - 1 })

abbrev last_of : Option RegistryGeneration → ℕ
last_of none = 0
last_of (some g) = if g.refs == 1 then 1 else 0

-- What `retireLocked` does, address by address.
module _ (a : ℕ) (r : Registry) where
  retire-get :
      (j : ℕ)
      → get_elem? (retire_locked a r).generations j
        ≡ (if a == j then retired_of (get_elem? r.generations j) else get_elem? r.generations j)
  unfolding retire_locked
  retire-get j = grind (arith, get_elem?-set)

  retire-count :
      (j : ℕ)
      → count j (retire_locked a r).reclaimed
        ≡ count j r.reclaimed + (if a == j then last_of (get_elem? r.generations a) else 0)
  unfolding retire_locked
  retire-count j = ground arith

  pub retire-frame :
      ((retire_locked a r).entries ≡ r.entries)
      × ((retire_locked a r).leases ≡ r.leases)
      × ((retire_locked a r).closed ≡ r.closed)
  unfolding retire_locked
  retire-frame = ground arith

-- Retiring the generation at `a`, which is installed, leaves the others installed.
pub retire-IsValidAt :
    (installed : Map Bytes ℕ) (a : ℕ) (r : Registry) (own : Bytes)
    → Unique installed
    → owner (get_elem? r.generations a) ≡ some own
    → ((id : Bytes) (j : ℕ)
        → lookup id installed ≡ some j
        → (a ≢ j) × (owner (get_elem? r.generations j) ≡ some id))
    → ((id : Bytes) (j : ℕ)
        → a ≢ j
        → owner (get_elem? r.generations j) ≡ some id
        → lookup id installed ≡ some j)
    → ((j : ℕ)
        → refs_of (get_elem? r.generations j)
          ≡ installed_of (get_elem? r.generations j) + sum_by (active j) r.leases)
    → ((j : ℕ) → count j r.reclaimed ≡ gone (get_elem? r.generations j))
    → IsValidAt installed (retire_locked a r)
retire-IsValidAt installed a r own unique owned_a entry owned counted once =
    let (_, leases, _) = retire-frame a r in
    record {
      unique = unique;
      entry = λ id j h. ground (arith, entry id j h, retire-get a r j);
      owned = λ id j h. ground (arith, owned id j, retire-get a r j);
      counted = λ j. rw leases (ground (arith, counted j, retire-get a r j));
      reclaimed_once = λ j. ground (arith, once j, counted j, retire-get a r j, retire-count a r j);
    }
