-- ===== src/Capability/Manifest/Providers.antt =====
-- The providers and operations of a manifest that is read (internal/capability/manifest.go).
use tappet.Capability.Hierarchy.{member}
use tappet.Capability.Manifest.{field, item_path, mapping, required_string, required_normalized_id}
use tappet.Capability.Manifest.Lists.{Fresh}
use tappet.Capability.PackagePaths.{validate_required_text}
use tappet.Capability.PackagePaths.Safe.{IsText, validate_required_text-IsText}
use tappet.Capability.PackageLimits.{
  max_provider_id_bytes, max_server_ref_bytes, max_provider_type_bytes,
}
use tappet.Capability.Types.{Operation, ProviderBinding}
use tappet.Capability.Yaml.{Node}
use tappet.Prelude.{
  All, ℕ, suc, ◌≤◌, ◌≡◌, true, false, List, [], ◌∷◌, map, length, Bytes, codes, ok, arith,
  bind-eq-ok, bytes_eq_iff, bytes_eq, fail_if-eq-ok, ok_inj, not,
}
use tappet.Capability.Manifest.Valid.{
  IsLocalId, required_normalized_id-IsLocalId, bounded_sequence-length,
}
use tappet.Capability.Manifest.Items.{
  parse_provider, provider_items, parse_providers, parse_operation, operation_items,
  parse_operations,
}
use tappet.Capability.PackageLimits.{
  max_providers, max_operations, max_operation_id_bytes, max_operation_description,
  max_provider_alias_bytes, max_operation_target_bytes,
}
use tappet.Capability.Manifest.Lists.{Distinct, Fresh-Distinct}
use tappet.Capability.Manifest.{bounded_sequence}
use tappet.Prelude.{Option, bytes_key}

abbrev pub IsProvider : ProviderBinding → Type 0
IsProvider p =
    IsLocalId max_provider_id_bytes p.id
    × (p.kind ≡ codes "mcp")
    × IsText max_server_ref_bytes p.server_ref

-- The fields of a provider, behind its mapping.
parse_provider-IsProvider :
    (nfc : Bytes → Bytes) (path : Bytes) (item : Node) (seen : List Bytes) (p : ProviderBinding)
    → parse_provider nfc path item seen ≡ ok p
    → IsProvider p × (member p.id seen ≡ false)
unfolding parse_provider
parse_provider-IsProvider nfc path item seen p h =
    let (fields, _, h1) =
      bind-eq-ok (mapping item path (codes "id" ∷ codes "type" ∷ codes "serverRef" ∷ [])) _ h in
    let (id, hid, h2) =
      bind-eq-ok (required_normalized_id nfc fields (codes "id") path max_provider_id_bytes) _ h1 in
    let (fresh, h3) = fail_if-eq-ok (member id seen) _ _ h2 in
    let (kind, _, h4) = bind-eq-ok (required_string fields (codes "type") path) _ h3 in
    let (_, _, h5) =
      bind-eq-ok (validate_required_text (field path (codes "type")) kind max_provider_type_bytes) _
        h4 in
    let (same, h6) = fail_if-eq-ok (not (bytes_eq kind (codes "mcp"))) _ _ h5 in
    let (server, _, h7) = bind-eq-ok (required_string fields (codes "serverRef") path) _ h6 in
    let (_, ht, h8) =
      bind-eq-ok
        (validate_required_text (field path (codes "serverRef")) (nfc server) max_server_ref_bytes)
        _ h7 in
    let text =
      validate_required_text-IsText (field path (codes "serverRef")) (nfc server)
        max_server_ref_bytes ht in
    let local =
      required_normalized_id-IsLocalId nfc fields (codes "id") path id max_provider_id_bytes hid in
    let made = ok_inj _ p h8 in
    let kinds : kind ≡ codes "mcp" = (bytes_eq_iff kind (codes "mcp")).0 (ground arith) in
    rw⁻¹ made ((local, kinds, text), fresh)

provider_items-IsProvider :
    (nfc : Bytes → Bytes) (i : ℕ) (items : List Node) (seen : List Bytes)
    (ps : List ProviderBinding)
    → provider_items nfc i items seen ≡ ok ps
    → All IsProvider ps × Fresh seen (map (λ p. p.id) ps) × (length ps ≡ length items)
unfolding provider_items
provider_items-IsProvider nfc i [] seen ps h = ground (arith, h)
provider_items-IsProvider nfc i (item ∷ items) seen ps h =
    let (p, hp, h') =
      bind-eq-ok (parse_provider nfc (item_path (codes "manifest.spec.providers") i) item seen) _
        h in
    let (rest, hr, h'') = bind-eq-ok (provider_items nfc (suc i) items (p.id ∷ seen)) _ h' in
    let here = parse_provider-IsProvider nfc _ item seen p hp in
    let later = provider_items-IsProvider nfc (suc i) items (p.id ∷ seen) rest hr in
    ground (arith, here, later, h'')

pub parse_providers-IsProvider :
    (nfc : Bytes → Bytes) (n : Option Node) (ps : List ProviderBinding)
    → parse_providers nfc n ≡ ok ps
    → All IsProvider ps × Distinct (map (λ p. p.id) ps) × (length ps ≤ max_providers)
unfolding parse_providers
parse_providers-IsProvider nfc n ps h =
    let (items, hi, h1) =
      bind-eq-ok (bounded_sequence n (codes "manifest.spec.providers") max_providers) _ h in
    let (each, fresh, size) = provider_items-IsProvider nfc 0 items [] ps h1 in
    (
      each,
      Fresh-Distinct [] _ fresh,
      omega (arith, size, bounded_sequence-length n _ max_providers items hi),
    )

abbrev pub IsOperation : List Bytes → Operation → Type 0
IsOperation providers o =
    IsLocalId max_operation_id_bytes o.id
    × IsText max_operation_description o.description
    × (IsLocalId max_provider_alias_bytes o.provider × (member o.provider providers ≡ true))
    × IsText max_operation_target_bytes o.target

parse_operation-IsOperation :
    (nfc : Bytes → Bytes) (providers : List Bytes) (path : Bytes) (item : Node) (seen : List Bytes)
    (o : Operation)
    → parse_operation nfc providers path item seen ≡ ok o
    → IsOperation providers o × (member o.id seen ≡ false)
unfolding parse_operation
parse_operation-IsOperation nfc providers path item seen o h =
    let (fields, _, h1) =
      bind-eq-ok
        (mapping item path
          (codes "id" ∷ codes "description" ∷ codes "provider" ∷ codes "target" ∷ []))
        _ h in
    let (id, hid, h2) =
      bind-eq-ok (required_normalized_id nfc fields (codes "id") path max_operation_id_bytes) _
        h1 in
    let (fresh, h3) = fail_if-eq-ok (member id seen) _ _ h2 in
    let (about, _, h4) = bind-eq-ok (required_string fields (codes "description") path) _ h3 in
    let (_, ha, h5) =
      bind-eq-ok
        (validate_required_text (field path (codes "description")) (nfc about)
          max_operation_description)
        _ h4 in
    let (by, hby, h6) =
      bind-eq-ok
        (required_normalized_id nfc fields (codes "provider") path max_provider_alias_bytes) _ h5 in
    let (known, h7) = fail_if-eq-ok (not (member by providers)) _ _ h6 in
    let (target, _, h8) = bind-eq-ok (required_string fields (codes "target") path) _ h7 in
    let (_, ht, h9) =
      bind-eq-ok
        (validate_required_text (field path (codes "target")) (nfc target)
          max_operation_target_bytes)
        _ h8 in
    rw⁻¹ (ok_inj _ o h9) (
      (
        required_normalized_id-IsLocalId nfc fields (codes "id") path id max_operation_id_bytes hid,
        validate_required_text-IsText (field path (codes "description")) (nfc about)
            max_operation_description ha,
        (
          required_normalized_id-IsLocalId nfc fields (codes "provider") path by
              max_provider_alias_bytes hby,
          ground arith,
        ),
        validate_required_text-IsText (field path (codes "target")) (nfc target)
            max_operation_target_bytes ht,
      ),
      fresh,
    )

operation_items-IsOperation :
    (nfc : Bytes → Bytes) (providers : List Bytes) (i : ℕ) (items : List Node) (seen : List Bytes)
    (os : List Operation)
    → operation_items nfc providers i items seen ≡ ok os
    → All (IsOperation providers) os × Fresh seen (map (λ o. o.id) os) × (length os ≡ length items)
unfolding operation_items
operation_items-IsOperation nfc providers i [] seen os h = ground (arith, h)
operation_items-IsOperation nfc providers i (item ∷ items) seen os h =
    let path = item_path (codes "manifest.spec.operations") i in
    let (o, ho, h1) = bind-eq-ok (parse_operation nfc providers path item seen) _ h in
    let (rest, hr, h2) =
      bind-eq-ok (operation_items nfc providers (suc i) items (o.id ∷ seen)) _ h1 in
    let here = parse_operation-IsOperation nfc providers path item seen o ho in
    let later = operation_items-IsOperation nfc providers (suc i) items (o.id ∷ seen) rest hr in
    rw⁻¹ (ok_inj (o ∷ rest) os h2) ((here.0, later.0), (here.1, later.1), omega (arith, later.2))

pub parse_operations-IsOperation :
    (nfc : Bytes → Bytes) (providers : List Bytes) (n : Option Node) (os : List Operation)
    → parse_operations nfc providers n ≡ ok os
    → All (IsOperation providers) os × Distinct (map (λ o. o.id) os) × (length os ≤ max_operations)
unfolding parse_operations
parse_operations-IsOperation nfc providers n os h =
    let (items, hi, h1) =
      bind-eq-ok (bounded_sequence n (codes "manifest.spec.operations") max_operations) _ h in
    let (each, fresh, size) = operation_items-IsOperation nfc providers 0 items [] os h1 in
    (
      each,
      Fresh-Distinct [] _ fresh,
      omega (arith, size, bounded_sequence-length n _ max_operations items hi),
    )
