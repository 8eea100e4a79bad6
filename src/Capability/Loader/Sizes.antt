-- ===== src/Capability/Loader/Sizes.antt =====
-- The sizes of a package's files in internal/capability/loader.go: those of a valid manifest do not overflow.
use tappet.Capability.PackageFiles.{
  Directory, ArtifactSpec, ArtifactSource, manifest_file_name, inside, skill_specs, resource_specs,
  context_specs, check_specs, artifact_specs, open_sources,
}
use tappet.Capability.Manifest.{Manifest, SkillDeclaration, SkillResource, ContextReference}
use tappet.Capability.Manifest.Documents.{resource_count}
use tappet.Capability.Manifest.Sound.{IsValidManifest}
use tappet.Capability.PackageLimits.{artifact_max_bytes, skill_max_bytes}
use tappet.Capability.PackagePaths.{package_error}
use tappet.Prelude.{
  ℕ, ◌+◌, ◌*◌, ◌^◌, ◌≤◌, ◌<◌, ◌≡◌, refl, sym, ap, ◌∙◌, List, [], ◌∷◌, ◌++◌, ltb, length, Bytes,
  codes, bytes_key, ok, ◌>>=◌, ◌>>◌, fail_if, arith, bind-eq-ok, fail_if-eq-ok, ok_inj,
  Option-cases, inl, inr, sum_by,
}
use tappet.Capability.Loader.Loading.{sizes}

-- The maximums of the artifacts, together.
abbrev pub maximums : List ArtifactSpec → ℕ
maximums [] = 0
maximums (spec ∷ specs) = spec.maximum + maximums specs

maximums-append : (a b : List ArtifactSpec) → maximums (a ++ b) ≡ maximums a + maximums b
maximums-append [] b = omega arith
maximums-append (x ∷ a) b = omega (arith, maximums-append a b)

maximums-resource_specs :
    (path : Bytes) (rs : List SkillResource)
    → maximums (resource_specs path rs) ≡ artifact_max_bytes * length rs
unfolding resource_specs
maximums-resource_specs path [] = omega arith
maximums-resource_specs path (r ∷ rs) = omega (arith, maximums-resource_specs path rs)

maximums-skill_specs :
    (ss : List SkillDeclaration)
    → maximums (skill_specs ss)
      ≡ skill_max_bytes * length ss + artifact_max_bytes * sum_by resource_count ss
unfolding skill_specs
maximums-skill_specs [] = omega arith
maximums-skill_specs (s ∷ ss) = omega (
  arith,
  maximums-skill_specs ss,
  maximums-resource_specs s.path s.resources,
  maximums-append (resource_specs s.path s.resources) (skill_specs ss),
)

maximums-context_specs :
    (cs : List ContextReference) → maximums (context_specs cs) ≡ artifact_max_bytes * length cs
unfolding context_specs
maximums-context_specs [] = omega arith
maximums-context_specs (c ∷ cs) = omega (arith, maximums-context_specs cs)

-- The artifacts of a valid manifest are few enough that their sizes do not overflow.
pub artifact_specs-maximums :
    (m : Manifest) (specs : List ArtifactSpec)
    → IsValidManifest m
    → artifact_specs m ≡ ok specs
    → maximums specs < 2 ^ 62
unfolding artifact_specs
artifact_specs-maximums m specs valid h =
    let all = skill_specs m.spec.skills ++ context_specs m.spec.context in
    let (_, _, h1) = bind-eq-ok (check_specs all (manifest_file_name ∷ [])) _ h in
    let few_skills = valid.spec.skills.2 in
    let few_resources = valid.spec.skills.3 in
    let few_contexts = valid.spec.context.2 in
    rw⁻¹ (ok_inj all specs h1) (
      omega (
        arith,
        maximums-append (skill_specs m.spec.skills) (context_specs m.spec.context),
        maximums-skill_specs m.spec.skills,
        maximums-context_specs m.spec.context,
        few_skills,
        few_resources,
        few_contexts,
      ))

pub open_sources-sizes :
    (open_file : Directory) (package_name : Bytes) (specs : List ArtifactSpec)
    (sources : List ArtifactSource) (n : ℕ)
    → open_sources open_file package_name specs ≡ ok (sources, n)
    → (n ≡ sizes sources) × (n ≤ maximums specs)
unfolding open_sources
open_sources-sizes open_file package_name [] sources n h = ground (arith, h)
open_sources-sizes open_file package_name (spec ∷ specs) sources n h =
    elim (Option-cases (open_file spec.path)) [
      | inl missing ↦ absurd (ground (arith, missing, h))
      | inr (file, found) ↦
          let opened : (fail_if (ltb spec.maximum file.size) (
                  package_error (codes "package_artifact_limit_exceeded")
                    (inside package_name spec.path))
                >> (open_sources open_file package_name specs >>= λ later.
                    ok (record { spec = spec; file = file } ∷ later.0, file.size + later.1)))
              ≡ ok (sources, n) =
            sym (rw found refl) ∙ h in
          let (fits, h1) = fail_if-eq-ok (ltb spec.maximum file.size) _ _ opened in
          let ((rest, k), hr, h2) = bind-eq-ok (open_sources open_file package_name specs) _ h1 in
          let (same, within) = open_sources-sizes open_file package_name specs rest k hr in
          let made = ok_inj _ (sources, n) h2 in
          let its : record { spec = spec; file = file } ∷ rest ≡ sources =
            ap (λ (x : List ArtifactSource × ℕ). x.0) made in
          let sum : file.size + k ≡ n = ap (λ (x : List ArtifactSource × ℕ). x.1) made in
          (rw⁻¹ its (omega (arith, same, sum)), ground (arith, fits, within, sum))
    ]
