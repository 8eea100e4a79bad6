-- ===== src/Capability/PackagePaths.antt =====
-- Paths inside a package: Go's `path.Clean`, and `normalizePackagePath` of internal/capability/manifest.go.
-- NFC is a parameter.
pub mod Safe
use tappet.Capability.Identifiers.{valid_utf8}
use tappet.Capability.Paths.{split, join, has_byte}
use tappet.Prelude.{
  ℕ, Bool, ◌||◌, not, List, [], ◌∷◌, ◌++◌, ltb, if◌then◌else◌, length, Bytes, codes, bytes_eq,
  is_empty, has_prefix, Result, ok, err, ◌>>=◌, ◌>>◌, fail_if,
}

-- `Error` of internal/capability/errors.go, without the error that it wraps.
pub record PackageError : Type 0 where
  pub code : Bytes
  pub path : Bytes

abbrev pub package_error : Bytes → Bytes → PackageError
package_error code path = record { code = code; path = path }

-- An element of a path, and the elements kept before it, the last one first.
unfoldable pub clean_element : Bool → Bytes → List Bytes → List Bytes
clean_element rooted e [] =
    if is_empty e || bytes_eq e (codes ".")
    then []
    else if bytes_eq e (codes "..")
    then if rooted then [] else e ∷ []
    else e ∷ []
clean_element rooted e (last ∷ kept) =
    if is_empty e || bytes_eq e (codes ".")
    then last ∷ kept
    else if bytes_eq e (codes "..")
    then if bytes_eq last (codes "..") then e ∷ last ∷ kept else kept
    else e ∷ last ∷ kept

unfoldable pub clean_elements : Bool → List Bytes → List Bytes → List Bytes
unfolding clean_element
clean_elements rooted [] kept = kept
clean_elements rooted (e ∷ es) kept = clean_elements rooted es (clean_element rooted e kept)

unfoldable pub reversed_onto : List Bytes → List Bytes → List Bytes
reversed_onto [] done = done
reversed_onto (e ∷ es) done = reversed_onto es (e ∷ done)

-- `path.Clean`
unfoldable pub clean : Bytes → Bytes
unfolding clean_elements reversed_onto join split
clean path =
    let rooted = has_prefix path (codes "/") in
    let elements = reversed_onto (clean_elements rooted (split b'/' path) []) [] in
    if rooted
    then b'/' ∷ join b'/' elements
    else if is_empty elements
    then codes "."
    else join b'/' elements

-- `validateRequiredText`
unfoldable pub validate_required_text : Bytes → Bytes → ℕ → Result PackageError (Unit {0})
unfolding valid_utf8
validate_required_text field_path value max_bytes = do
  fail_if (is_empty value) (package_error (codes "package_field_invalid") field_path)
  fail_if (not (valid_utf8 value)) (package_error (codes "package_field_invalid") field_path)
  fail_if (ltb max_bytes (length value))
      (package_error (codes "package_field_limit_exceeded") field_path)

-- `normalizePackagePath`, of a value that NFC has normalized.
unfoldable pub check_package_path : Bytes → ℕ → Bytes → Result PackageError Bytes
unfolding validate_required_text clean has_byte
check_package_path value max_bytes field_path = do
  _ ← validate_required_text field_path value max_bytes
  fail_if (has_byte 92 value || has_prefix value (codes "/") || has_byte 0 value)
      (package_error (codes "package_path_invalid") field_path)
  let cleaned = clean value
  fail_if
      (bytes_eq cleaned (codes ".")
        || bytes_eq cleaned (codes "..")
        || has_prefix cleaned (codes "../")
        || not (bytes_eq cleaned value))
      (package_error (codes "package_path_invalid") field_path)
  ok cleaned

unfoldable pub normalize_package_path :
    (Bytes → Bytes) → Bytes → ℕ → Bytes → Result PackageError Bytes
unfolding check_package_path
normalize_package_path nfc value max_bytes field_path =
    check_package_path (nfc value) max_bytes field_path
