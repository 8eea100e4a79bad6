-- ===== src/Capability/Manifest/Sound.antt =====
-- `ParseManifest` of internal/capability/manifest.go: what every manifest that it returns keeps to.
use tappet.Capability.Hierarchy.{member}
use tappet.Capability.Identifiers.{capability_id_matches}
use tappet.Capability.Limits.{max_capability_id_bytes}
use tappet.Capability.Manifest.{
  Manifest, Spec, item_path, mapping, required_field, scalar_string, optional_string,
  required_string, parse_string_sequence, parse_strings, bounded_sequence, semver_matches,
}
use tappet.Capability.Manifest.Documents.{
  IsSkill, IsContext, resource_count, context_ids, context_paths, parse_skills-IsSkill,
  parse_context-IsContext,
}
use tappet.Capability.Manifest.Items.{
  parse_providers, parse_operations, parse_skills, parse_context,
}
use tappet.Capability.Manifest.Lists.{Distinct, Fresh, Fresh-Distinct}
use tappet.Capability.Manifest.Providers.{
  IsProvider, IsOperation, parse_providers-IsProvider, parse_operations-IsOperation,
}
use tappet.Capability.Manifest.Valid.{bounded_sequence-length}
use tappet.Capability.Manifest.Whole.{
  ManifestCodec, check_tags, check_constant, check_texts, parse_metadata, check_parent, parse_spec,
  validate_normalized_size, parse_root, parse_manifest, manifest_limits,
}
use tappet.Capability.PackageLimits.{
  max_providers, max_operations, max_skills, max_skill_resources, max_context_references,
  max_name_bytes, max_version_bytes, max_description_bytes, max_tags, max_tag_bytes,
  max_all_tags_bytes, max_hierarchy_path_bytes,
}
use tappet.Capability.PackagePaths.{validate_required_text}
use tappet.Capability.PackagePaths.Safe.{IsText, validate_required_text-IsText}
use tappet.Capability.Types.{Metadata}
use tappet.Capability.Yaml.{Node, parse_bounded_yaml}
use tappet.Prelude.{
  All, ℕ, suc, ◌+◌, ◌≤◌, ◌≡◌, ◌⊎◌, inl, inr, refl, ap, true, false, not, Option, List, [], ◌∷◌,
  ◌++◌, map, ltb, length, length-map, Bytes, codes, bytes_eq, bytes_eq_iff, bytes_key, has_prefix,
  is_empty, Map, lookup, ok, arith, bind-eq-ok, fail_if-eq-ok, ok_inj, sum_by, Result-cases,
}

abbrev pub IsPresent : Bytes → Type 0
IsPresent t = is_empty t ≡ false

check_tags-Fresh :
    (i : ℕ) (tags seen : List Bytes) (total : ℕ)
    → check_tags i tags seen ≡ ok total
    → All IsPresent tags × Fresh seen tags × (total ≡ sum_by length tags)
unfolding check_tags
check_tags-Fresh i [] seen total h = ground (arith, h)
check_tags-Fresh i (tag ∷ tags) seen total h =
    let (present, h1) = fail_if-eq-ok (is_empty tag) _ _ h in
    let (fresh, h2) = fail_if-eq-ok (member tag seen) _ _ h1 in
    let (rest, hr, h3) = bind-eq-ok (check_tags (suc i) tags (tag ∷ seen)) _ h2 in
    let (each, f, sum) = check_tags-Fresh (suc i) tags (tag ∷ seen) rest hr in
    ((present, each), (fresh, f), omega (arith, ok_inj (length tag + rest) total h3, sum))

length-parse_strings :
    (nfc : Bytes → Bytes) (path : Bytes) (max i : ℕ) (items : List Node) (values : List Bytes)
    → parse_strings nfc path max i items ≡ ok values
    → length values ≡ length items
unfolding parse_strings
length-parse_strings nfc path max i [] values h = ground (arith, h)
length-parse_strings nfc path max i (item ∷ items) values h =
    let (value, _, h1) = bind-eq-ok (scalar_string item (item_path path i)) _ h in
    let (_, h2) = fail_if-eq-ok (ltb max (length (nfc value))) _ _ h1 in
    let (rest, hr, h3) = bind-eq-ok (parse_strings nfc path max (suc i) items) _ h2 in
    rw⁻¹ (ok_inj (nfc value ∷ rest) values h3)
      (ap suc (length-parse_strings nfc path max (suc i) items rest hr))

parse_string_sequence-length :
    (nfc : Bytes → Bytes) (n : Option Node) (path : Bytes) (max_items max_bytes : ℕ)
    (values : List Bytes)
    → parse_string_sequence nfc n path max_items max_bytes ≡ ok values
    → length values ≤ max_items
unfolding parse_string_sequence
parse_string_sequence-length nfc n path max_items max_bytes values h =
    let (items, hs, hp) = bind-eq-ok (bounded_sequence n path max_items) _ h in
    omega (
      arith,
      bounded_sequence-length n path max_items items hs,
      length-parse_strings nfc path max_bytes 0 items values hp,
    )

tags_within :
    (nfc : Bytes → Bytes) (read : List Bytes) (total : ℕ)
    → length read ≤ max_tags
    → ltb max_all_tags_bytes total ≡ false
    → total ≡ sum_by length (map nfc read)
    → (length (map nfc read) ≤ max_tags) × (sum_by length (map nfc read) ≤ max_all_tags_bytes)
tags_within nfc read total few fit sum =
    (omega (arith, few, length-map nfc read), ground (arith, fit, sum))

pub record IsValidMetadata (m : Metadata) : Type 0 where
  pub id : IsText max_capability_id_bytes m.id × (capability_id_matches m.id ≡ true)
  pub name : IsText max_name_bytes m.name
  pub version : IsText max_version_bytes m.version × (semver_matches m.version ≡ true)
  pub description : IsText max_description_bytes m.description
  pub tags : All IsPresent m.tags × Distinct m.tags
  pub tags_fit : (length m.tags ≤ max_tags) × (sum_by length m.tags ≤ max_all_tags_bytes)

-- No parent, or a path within the limit that is a proper prefix of the identifier, up to a dot.
abbrev pub IsParentOf : Bytes → Bytes → Type 0
IsParentOf parent id =
    (parent ≡ [])
    ⊎ ((length parent ≤ max_hierarchy_path_bytes)
        × (capability_id_matches parent ≡ true)
        × (has_prefix id (parent ++ b'.' ∷ []) ≡ true))

pub record IsValidSpec (id : Bytes) (s : Spec) : Type 0 where
  pub parent : IsParentOf s.parent id
  pub providers :
      All IsProvider s.providers
      × Distinct (map (λ p. p.id) s.providers)
      × (length s.providers ≤ max_providers)
  pub operations :
      All (IsOperation (map (λ p. p.id) s.providers)) s.operations
      × Distinct (map (λ o. o.id) s.operations)
      × (length s.operations ≤ max_operations)
  pub skills :
      All IsSkill s.skills
      × Distinct (map (λ k. k.path) s.skills)
      × (length s.skills ≤ max_skills)
      × (sum_by resource_count s.skills ≤ max_skill_resources)
  pub context :
      All IsContext s.context
      × (Distinct (context_ids s.context) × Distinct (context_paths s.context))
      × (length s.context ≤ max_context_references)

pub record IsValidManifest (m : Manifest) : Type 0 where
  pub api_version : m.api_version ≡ codes "tappet.gearboxlogic.dev/v1alpha1"
  pub kind : m.kind ≡ codes "Capability"
  pub metadata : IsValidMetadata m.metadata
  pub spec : IsValidSpec m.metadata.id m.spec

check_parent-IsParentOf :
    (parent id : Bytes) → check_parent parent id ≡ ok tt → IsParentOf parent id
unfolding check_parent
check_parent-IsParentOf [] id h = inl refl
check_parent-IsParentOf (c ∷ s) id h = inr (ground (arith, h), ground (arith, h), ground (arith, h))

check_constant-eq-ok :
    (fields : Map Bytes Node) (name expected code value : Bytes)
    → check_constant fields name expected code ≡ ok value
    → value ≡ expected
unfolding check_constant
check_constant-eq-ok fields name expected code value h =
    let (n, _, h1) = bind-eq-ok (required_field fields name (codes "manifest")) _ h in
    let (v, _, h2) = bind-eq-ok (scalar_string n (codes "manifest." ++ name)) _ h1 in
    let (same, h3) = fail_if-eq-ok (not (bytes_eq v expected)) _ _ h2 in
    rw⁻¹ (ok_inj v value h3) ((bytes_eq_iff v expected).0 (ground arith))

module _ (codec : ManifestCodec) where
  open codec use {nfc, is_space, decode}

  check_texts-eq-ok :
      (id name version description : Bytes)
      → check_texts codec id name version description ≡ ok tt
      → (IsText max_capability_id_bytes id × (capability_id_matches id ≡ true))
        × IsText max_name_bytes name
        × (IsText max_version_bytes version × (semver_matches version ≡ true))
        × IsText max_description_bytes description
  unfolding check_texts
  check_texts-eq-ok id name version description h =
      let (_, hi, h1) =
        bind-eq-ok
          (validate_required_text (codes "manifest.metadata.id") id max_capability_id_bytes) _ h in
      let (pattern_ok, h2) = fail_if-eq-ok (not (capability_id_matches id)) _ _ h1 in
      let (_, hn, h3) =
        bind-eq-ok (validate_required_text (codes "manifest.metadata.name") name max_name_bytes) _
          h2 in
      let (_, hv, h4) =
        bind-eq-ok
          (validate_required_text (codes "manifest.metadata.version") version max_version_bytes) _
          h3 in
      let (semver, h5) = fail_if-eq-ok (not (semver_matches version)) _ _ h4 in
      (
        (validate_required_text-IsText _ id max_capability_id_bytes hi, ground arith),
        validate_required_text-IsText _ name max_name_bytes hn,
        (validate_required_text-IsText _ version max_version_bytes hv, ground arith),
        validate_required_text-IsText _ description max_description_bytes h5,
      )

  parse_metadata-IsValidMetadata :
      (n : Node) (m : Metadata) → parse_metadata codec n ≡ ok m → IsValidMetadata m
  unfolding parse_metadata
  parse_metadata-IsValidMetadata n m h =
      let at = codes "manifest.metadata" in
      let (fields, _, h1) =
        bind-eq-ok
          (mapping n (codes "manifest.metadata")
            (codes "id" ∷ codes "name" ∷ codes "version" ∷ codes "description" ∷ codes "tags" ∷ []))
          _ h in
      let (id, _, h2) = bind-eq-ok (required_string fields (codes "id") at) _ h1 in
      let (name, _, h3) = bind-eq-ok (required_string fields (codes "name") at) _ h2 in
      let (version, _, h4) = bind-eq-ok (required_string fields (codes "version") at) _ h3 in
      let (about, _, h5) = bind-eq-ok (required_string fields (codes "description") at) _ h4 in
      let (_, texts, h6) =
        bind-eq-ok (check_texts codec (nfc id) (nfc name) (nfc version) (nfc about)) _ h5 in
      let named = lookup (codes "tags") fields in
      let (read, hr, h7) =
        bind-eq-ok
          (parse_string_sequence nfc named (codes "manifest.metadata.tags") max_tags max_tag_bytes)
          _ h6 in
      let (total, ht, h8) = bind-eq-ok (check_tags 0 (map nfc read) []) _ h7 in
      let (fit, h9) = fail_if-eq-ok (ltb max_all_tags_bytes total) _ _ h8 in
      let (i, t, v, d) = check_texts-eq-ok (nfc id) (nfc name) (nfc version) (nfc about) texts in
      let (each, fresh, sum) = check_tags-Fresh 0 (map nfc read) [] total ht in
      let few =
        parse_string_sequence-length nfc named (codes "manifest.metadata.tags") max_tags
          max_tag_bytes read hr in
      rw⁻¹ (ok_inj _ m h9) (record {
        id = i;
        name = t;
        version = v;
        description = d;
        tags = (each, Fresh-Distinct [] _ fresh);
        tags_fit = tags_within nfc read total few fit sum;
      })

  parse_spec-IsValidSpec :
      (n : Node) (id : Bytes) (s : Spec) → parse_spec codec n id ≡ ok s → IsValidSpec id s
  unfolding parse_spec
  parse_spec-IsValidSpec n id s h =
      let (fields, _, h1) =
        bind-eq-ok
          (mapping n (codes "manifest.spec") (
            codes "parent"
            ∷ codes "skills"
            ∷ codes "operations"
            ∷ codes "context"
            ∷ codes "providers"
            ∷ []))
          _ h in
      let (parent, _, h2) =
        bind-eq-ok (optional_string fields (codes "parent") (codes "manifest.spec")) _ h1 in
      let (_, hp, h3) = bind-eq-ok (check_parent (nfc parent) id) _ h2 in
      let (ps, hps, h4) =
        bind-eq-ok (parse_providers nfc (lookup (codes "providers") fields)) _ h3 in
      let (os, hos, h5) =
        bind-eq-ok (parse_operations nfc (map (λ p. p.id) ps) (lookup (codes "operations") fields))
          _ h4 in
      let (ss, hss, h6) = bind-eq-ok (parse_skills nfc (lookup (codes "skills") fields)) _ h5 in
      let (cs, hcs, h7) = bind-eq-ok (parse_context nfc (lookup (codes "context") fields)) _ h6 in
      rw⁻¹ (ok_inj _ s h7) (record {
        parent = check_parent-IsParentOf (nfc parent) id hp;
        providers = parse_providers-IsProvider nfc _ ps hps;
        operations = parse_operations-IsOperation nfc _ _ os hos;
        skills = parse_skills-IsSkill nfc _ ss hss;
        context = parse_context-IsContext nfc _ cs hcs;
      })

  parse_root-IsValidManifest :
      (root : Node) (m : Manifest) → parse_root codec root ≡ ok m → IsValidManifest m
  unfolding parse_root
  parse_root-IsValidManifest root m h =
      let (fields, _, h1) =
        bind-eq-ok
          (mapping root (codes "manifest")
            (codes "apiVersion" ∷ codes "kind" ∷ codes "metadata" ∷ codes "spec" ∷ []))
          _ h in
      let (version, hv, h2) =
        bind-eq-ok
          (check_constant fields (codes "apiVersion") (codes "tappet.gearboxlogic.dev/v1alpha1")
            (codes "package_manifest_version_unsupported"))
          _ h1 in
      let (kind, hk, h3) =
        bind-eq-ok
          (check_constant fields (codes "kind") (codes "Capability")
            (codes "package_manifest_kind_unsupported"))
          _ h2 in
      let (mn, _, h4) =
        bind-eq-ok (required_field fields (codes "metadata") (codes "manifest")) _ h3 in
      let (metadata, hm, h5) = bind-eq-ok (parse_metadata codec mn) _ h4 in
      let (sn, _, h6) = bind-eq-ok (required_field fields (codes "spec") (codes "manifest")) _ h5 in
      let (spec, hs, h7) = bind-eq-ok (parse_spec codec sn metadata.id) _ h6 in
      let made : Manifest = record {
        api_version = version;
        kind = kind;
        metadata = metadata;
        spec = spec;
      } in
      let (_, _, h8) = bind-eq-ok (validate_normalized_size codec made) _ h7 in
      rw⁻¹ (ok_inj made m h8) (record {
        api_version = check_constant-eq-ok fields _ _ _ version hv;
        kind = check_constant-eq-ok fields _ _ _ kind hk;
        metadata = parse_metadata-IsValidMetadata mn metadata hm;
        spec = parse_spec-IsValidSpec sn metadata.id spec hs;
      })

  pub parse_manifest-IsValidManifest :
      (text : Bytes) (m : Manifest) → parse_manifest codec text ≡ ok m → IsValidManifest m
  unfolding parse_manifest
  parse_manifest-IsValidManifest text m h =
      elim (Result-cases (parse_bounded_yaml is_space decode manifest_limits text)) [
        | inl (e, failure) ↦ absurd (ground (arith, failure, h))
        | inr (root, success) ↦ parse_root-IsValidManifest root m (ground (arith, success, h))
      ]
