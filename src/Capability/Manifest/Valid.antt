-- ===== src/Capability/Manifest/Valid.antt =====
-- What a manifest that is read keeps to: the checks of internal/capability/manifest.go on each item.
use tappet.Capability.Identifiers.{local_id_matches}
use tappet.Capability.Manifest.{bounded_sequence, sequence, required_normalized_id}
use tappet.Capability.PackagePaths.{normalize_package_path}
use tappet.Capability.PackagePaths.Safe.{IsText, IsPackagePath, check_package_path-IsPackagePath}
use tappet.Capability.Yaml.{Node}
use tappet.Prelude.{ℕ, Option, ◌≤◌, ◌≡◌, true, List, length, Bytes, Map, ok, arith, bind-eq-ok}

abbrev pub IsLocalId : ℕ → Bytes → Type 0
IsLocalId max s = IsText max s × (local_id_matches s ≡ true)

pub required_normalized_id-IsLocalId :
    (nfc : Bytes → Bytes) (fields : Map Bytes Node) (name path id : Bytes) (max : ℕ)
    → required_normalized_id nfc fields name path max ≡ ok id
    → IsLocalId max id
unfolding required_normalized_id
required_normalized_id-IsLocalId nfc fields name path id max h = ground (arith, h)

pub normalize_package_path-IsPackagePath :
    (nfc : Bytes → Bytes) (value path : Bytes) (max : ℕ) (field_path : Bytes)
    → normalize_package_path nfc value max field_path ≡ ok path
    → IsPackagePath max path
unfolding normalize_package_path
normalize_package_path-IsPackagePath nfc value path max field_path h =
    (check_package_path-IsPackagePath (nfc value) path max field_path h).0

pub bounded_sequence-length :
    (n : Option Node) (path : Bytes) (max : ℕ) (items : List Node)
    → bounded_sequence n path max ≡ ok items
    → length items ≤ max
unfolding bounded_sequence
bounded_sequence-length n path max items h =
    let (read, _, h1) = bind-eq-ok (sequence n path) _ h in ground (arith, h1)
