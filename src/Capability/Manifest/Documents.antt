-- ===== src/Capability/Manifest/Documents.antt =====
-- The skills, resources and context references of a manifest that is read (internal/capability/manifest.go).
use tappet.Capability.Hierarchy.{member}
use tappet.Capability.Manifest.{
  SkillResource, SkillDeclaration, ContextReference, field, item_path, mapping, required_string,
  required_normalized_id,
}
use tappet.Capability.Manifest.Lists.{Fresh}
use tappet.Capability.PackagePaths.Safe.{IsPackagePath}
use tappet.Capability.Yaml.{Node}
use tappet.Prelude.{
  All, ℕ, suc, ◌≤◌, ◌≡◌, refl, false, List, [], ◌∷◌, map, length, Bytes, codes, ok, arith,
  bind-eq-ok, bytes_eq_iff, bytes_eq, fail_if-eq-ok, ok_inj, not,
}
use tappet.Capability.Manifest.Valid.{
  IsLocalId, required_normalized_id-IsLocalId, normalize_package_path-IsPackagePath,
  bounded_sequence-length,
}
use tappet.Capability.Manifest.Items.{
  parse_resource, resource_items, parse_skill_item, skill_items, parse_skills, parse_context_item,
  context_items, parse_context,
}
use tappet.Capability.PackageLimits.{
  max_skills, max_resources_per_skill, max_skill_resources, max_context_references,
  max_skill_path_bytes, max_resource_id_bytes, max_resource_kind_bytes, max_resource_path_bytes,
  max_context_id_bytes, max_context_path_bytes,
}
use tappet.Capability.Manifest.Lists.{Distinct, Fresh-Distinct}
use tappet.Capability.Manifest.{bounded_sequence, SkillResource}
use tappet.Capability.PackagePaths.{normalize_package_path}
use tappet.Prelude.{Option, lookup, bytes_key, ltb, ◌||◌, ◌+◌, sum_by}

abbrev pub IsResource : SkillResource → Type 0
IsResource r =
    IsLocalId max_resource_id_bytes r.id
    × (r.kind ≡ codes "reference")
    × IsPackagePath max_resource_path_bytes r.path

-- The identifiers, and the paths.
abbrev pub resource_ids : List SkillResource → List Bytes
resource_ids rs = map (λ r. r.id) rs

abbrev pub resource_paths : List SkillResource → List Bytes
resource_paths rs = map (λ r. r.path) rs

parse_resource-IsResource :
    (nfc : Bytes → Bytes) (path : Bytes) (item : Node) (ids paths : List Bytes) (r : SkillResource)
    → parse_resource nfc path item ids paths ≡ ok r
    → IsResource r × (member r.id ids ≡ false) × (member r.path paths ≡ false)
unfolding parse_resource
parse_resource-IsResource nfc path item ids paths r h =
    let (fields, _, h1) =
      bind-eq-ok (mapping item path (codes "id" ∷ codes "kind" ∷ codes "path" ∷ [])) _ h in
    let (id, hid, h2) =
      bind-eq-ok (required_normalized_id nfc fields (codes "id") path max_resource_id_bytes) _ h1 in
    let (fresh, h3) = fail_if-eq-ok (member id ids) _ _ h2 in
    let (kind, _, h4) = bind-eq-ok (required_string fields (codes "kind") path) _ h3 in
    let (known, h5) =
      fail_if-eq-ok
        (ltb max_resource_kind_bytes (length kind) || not (bytes_eq kind (codes "reference"))) _ _
        h4 in
    let (raw, _, h6) = bind-eq-ok (required_string fields (codes "path") path) _ h5 in
    let (place, hp, h7) =
      bind-eq-ok
        (normalize_package_path nfc raw max_resource_path_bytes (field path (codes "path"))) _ h6 in
    let (fresh_path, h8) = fail_if-eq-ok (member place paths) _ _ h7 in
    let kinds : kind ≡ codes "reference" =
      (bytes_eq_iff kind (codes "reference")).0 (ground arith) in
    let inside =
      normalize_package_path-IsPackagePath nfc raw place max_resource_path_bytes
        (field path (codes "path")) hp in
    let local =
      required_normalized_id-IsLocalId nfc fields (codes "id") path id max_resource_id_bytes hid in
    rw⁻¹ (ok_inj _ r h8) ((local, kinds, inside), fresh, fresh_path)

resource_items-IsResource :
    (nfc : Bytes → Bytes) (path : Bytes) (i : ℕ) (items : List Node) (ids paths : List Bytes)
    (rs : List SkillResource)
    → resource_items nfc path i items ids paths ≡ ok rs
    → All IsResource rs
      × Fresh ids (resource_ids rs)
      × Fresh paths (resource_paths rs)
      × (length rs ≡ length items)
unfolding resource_items
resource_items-IsResource nfc path i [] ids paths rs h = ground (arith, h)
resource_items-IsResource nfc path i (item ∷ items) ids paths rs h =
    let (r, h', h1) = bind-eq-ok (parse_resource nfc (item_path path i) item ids paths) _ h in
    let (rest, hr, h2) =
      bind-eq-ok (resource_items nfc path (suc i) items (r.id ∷ ids) (r.path ∷ paths)) _ h1 in
    let (valid, fresh, fresh_path) =
      parse_resource-IsResource nfc (item_path path i) item ids paths r h' in
    let (each, f, g, size) =
      resource_items-IsResource nfc path (suc i) items (r.id ∷ ids) (r.path ∷ paths) rest hr in
    rw⁻¹ (ok_inj (r ∷ rest) rs h2) ((valid, each), (fresh, f), (fresh_path, g), omega (arith, size))

abbrev pub IsSkill : SkillDeclaration → Type 0
IsSkill s =
    IsPackagePath max_skill_path_bytes s.path
    × All IsResource s.resources
    × (Distinct (resource_ids s.resources) × Distinct (resource_paths s.resources))
    × (length s.resources ≤ max_resources_per_skill)

parse_skill_item-IsSkill :
    (nfc : Bytes → Bytes) (path : Bytes) (item : Node) (seen : List Bytes) (total : ℕ)
    (s : SkillDeclaration)
    → parse_skill_item nfc path item seen total ≡ ok s
    → IsSkill s × (member s.path seen ≡ false) × (total + length s.resources ≤ max_skill_resources)
unfolding parse_skill_item
parse_skill_item-IsSkill nfc path item seen total s h =
    let (fields, _, h1) =
      bind-eq-ok (mapping item path (codes "path" ∷ codes "resources" ∷ [])) _ h in
    let (raw, _, h2) = bind-eq-ok (required_string fields (codes "path") path) _ h1 in
    let (place, hp, h3) =
      bind-eq-ok (normalize_package_path nfc raw max_skill_path_bytes (field path (codes "path"))) _
        h2 in
    let (fresh, h4) = fail_if-eq-ok (member place seen) _ _ h3 in
    let named = lookup (codes "resources") fields in
    let (items, hi, h5) =
      bind-eq-ok (bounded_sequence named (field path (codes "resources")) max_resources_per_skill) _
        h4 in
    let (room, h6) = fail_if-eq-ok (ltb max_skill_resources (total + length items)) _ _ h5 in
    let (rs, hr, h7) =
      bind-eq-ok (resource_items nfc (field path (codes "resources")) 0 items [] []) _ h6 in
    let (each, ids, paths, size) =
      resource_items-IsResource nfc (field path (codes "resources")) 0 items [] [] rs hr in
    let few = bounded_sequence-length named _ max_resources_per_skill items hi in
    let inside =
      normalize_package_path-IsPackagePath nfc raw place max_skill_path_bytes
        (field path (codes "path")) hp in
    rw⁻¹ (ok_inj _ s h7) (
      (
        inside,
        each,
        (Fresh-Distinct [] _ ids, Fresh-Distinct [] _ paths),
        omega (arith, size, few),
      ),
      fresh,
      ground (arith, size, room),
    )

abbrev pub resource_count : SkillDeclaration → ℕ
resource_count s = length s.resources

skill_items-IsSkill :
    (nfc : Bytes → Bytes) (i : ℕ) (items : List Node) (seen : List Bytes) (total : ℕ)
    (ss : List SkillDeclaration)
    → skill_items nfc i items seen total ≡ ok ss
    → total ≤ max_skill_resources
    → All IsSkill ss
      × Fresh seen (map (λ s. s.path) ss)
      × (length ss ≡ length items)
      × (total + sum_by resource_count ss ≤ max_skill_resources)
unfolding skill_items
skill_items-IsSkill nfc i [] seen total ss h fit =
    rw⁻¹ (ok_inj [] ss h) (tt, tt, refl, omega (arith, fit))
skill_items-IsSkill nfc i (item ∷ items) seen total ss h fit =
    let path = item_path (codes "manifest.spec.skills") i in
    let (s, hs, h1) = bind-eq-ok (parse_skill_item nfc path item seen total) _ h in
    let (rest, hr, h2) =
      bind-eq-ok (skill_items nfc (suc i) items (s.path ∷ seen) (total + length s.resources)) _
        h1 in
    let (valid, fresh, room) = parse_skill_item-IsSkill nfc path item seen total s hs in
    let (each, f, size, sum) =
      skill_items-IsSkill nfc (suc i) items (s.path ∷ seen) (total + length s.resources) rest hr
        room in
    rw⁻¹ (ok_inj (s ∷ rest) ss h2)
      ((valid, each), (fresh, f), omega (arith, size), omega (arith, sum))

pub parse_skills-IsSkill :
    (nfc : Bytes → Bytes) (n : Option Node) (ss : List SkillDeclaration)
    → parse_skills nfc n ≡ ok ss
    → All IsSkill ss
      × Distinct (map (λ s. s.path) ss)
      × (length ss ≤ max_skills)
      × (sum_by resource_count ss ≤ max_skill_resources)
unfolding parse_skills
parse_skills-IsSkill nfc n ss h =
    let (items, hi, h1) =
      bind-eq-ok (bounded_sequence n (codes "manifest.spec.skills") max_skills) _ h in
    let (each, fresh, size, sum) = skill_items-IsSkill nfc 0 items [] 0 ss h1 (omega arith) in
    (
      each,
      Fresh-Distinct [] _ fresh,
      omega (arith, size, bounded_sequence-length n _ max_skills items hi),
      omega (arith, sum),
    )

abbrev pub IsContext : ContextReference → Type 0
IsContext c = IsLocalId max_context_id_bytes c.id × IsPackagePath max_context_path_bytes c.path

abbrev pub context_ids : List ContextReference → List Bytes
context_ids cs = map (λ c. c.id) cs

abbrev pub context_paths : List ContextReference → List Bytes
context_paths cs = map (λ c. c.path) cs

parse_context_item-IsContext :
    (nfc : Bytes → Bytes) (path : Bytes) (item : Node) (ids paths : List Bytes)
    (c : ContextReference)
    → parse_context_item nfc path item ids paths ≡ ok c
    → IsContext c × (member c.id ids ≡ false) × (member c.path paths ≡ false)
unfolding parse_context_item
parse_context_item-IsContext nfc path item ids paths c h =
    let (fields, _, h1) = bind-eq-ok (mapping item path (codes "id" ∷ codes "path" ∷ [])) _ h in
    let (id, hid, h2) =
      bind-eq-ok (required_normalized_id nfc fields (codes "id") path max_context_id_bytes) _ h1 in
    let (fresh, h3) = fail_if-eq-ok (member id ids) _ _ h2 in
    let (raw, _, h4) = bind-eq-ok (required_string fields (codes "path") path) _ h3 in
    let (place, hp, h5) =
      bind-eq-ok (normalize_package_path nfc raw max_context_path_bytes (field path (codes "path")))
        _ h4 in
    let (fresh_path, h6) = fail_if-eq-ok (member place paths) _ _ h5 in
    let inside =
      normalize_package_path-IsPackagePath nfc raw place max_context_path_bytes
        (field path (codes "path")) hp in
    let local =
      required_normalized_id-IsLocalId nfc fields (codes "id") path id max_context_id_bytes hid in
    rw⁻¹ (ok_inj _ c h6) ((local, inside), fresh, fresh_path)

context_items-IsContext :
    (nfc : Bytes → Bytes) (i : ℕ) (items : List Node) (ids paths : List Bytes)
    (cs : List ContextReference)
    → context_items nfc i items ids paths ≡ ok cs
    → All IsContext cs
      × Fresh ids (context_ids cs)
      × Fresh paths (context_paths cs)
      × (length cs ≡ length items)
unfolding context_items
context_items-IsContext nfc i [] ids paths cs h = ground (arith, h)
context_items-IsContext nfc i (item ∷ items) ids paths cs h =
    let path = item_path (codes "manifest.spec.context") i in
    let (c, hc, h1) = bind-eq-ok (parse_context_item nfc path item ids paths) _ h in
    let (rest, hr, h2) =
      bind-eq-ok (context_items nfc (suc i) items (c.id ∷ ids) (c.path ∷ paths)) _ h1 in
    let (valid, fresh, fresh_path) = parse_context_item-IsContext nfc path item ids paths c hc in
    let (each, f, g, size) =
      context_items-IsContext nfc (suc i) items (c.id ∷ ids) (c.path ∷ paths) rest hr in
    rw⁻¹ (ok_inj (c ∷ rest) cs h2) ((valid, each), (fresh, f), (fresh_path, g), omega (arith, size))

pub parse_context-IsContext :
    (nfc : Bytes → Bytes) (n : Option Node) (cs : List ContextReference)
    → parse_context nfc n ≡ ok cs
    → All IsContext cs
      × (Distinct (context_ids cs) × Distinct (context_paths cs))
      × (length cs ≤ max_context_references)
unfolding parse_context
parse_context-IsContext nfc n cs h =
    let (items, hi, h1) =
      bind-eq-ok (bounded_sequence n (codes "manifest.spec.context") max_context_references) _ h in
    let (each, ids, paths, size) = context_items-IsContext nfc 0 items [] [] cs h1 in
    (
      each,
      (Fresh-Distinct [] _ ids, Fresh-Distinct [] _ paths),
      omega (arith, size, bounded_sequence-length n _ max_context_references items hi),
    )
