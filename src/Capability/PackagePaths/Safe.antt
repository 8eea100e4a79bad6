-- ===== src/Capability/PackagePaths/Safe.antt =====
-- What a path that `normalizePackagePath` of internal/capability/manifest.go accepts looks like.
use tappet.Capability.Identifiers.{valid_utf8}
use tappet.Capability.PackagePaths.{
  clean_element, clean_elements, reversed_onto, clean, validate_required_text, check_package_path,
}
use tappet.Capability.Paths.{split, join, has_byte, split-append, split_whole, join-split}
use tappet.Prelude.{
  ℕ, ◌+◌, ◌≤◌, ◌≡◌, refl, sym, ap, ◌∙◌, Bool, true, false, not, ◌||◌, List, [], ◌∷◌, length, Bytes,
  codes, bytes_eq, bytes_eq_iff, is_empty, has_prefix, ok, arith, bind-eq-ok, fail_if-eq-ok, ok_inj,
  Bool-cases, inl, inr,
}

-- An element that stays where it is: not empty, neither `.` nor `..`.
abbrev pub IsPlainElement : Bytes → Type 0
IsPlainElement e =
    (is_empty e ≡ false) × (bytes_eq e (codes ".") ≡ false) × (bytes_eq e (codes "..") ≡ false)

abbrev pub AllPlain : List Bytes → Type 0
AllPlain [] = Unit
AllPlain (e ∷ es) = IsPlainElement e × AllPlain es

abbrev AllWhole : List Bytes → Type 0
AllWhole [] = Unit
AllWhole (e ∷ es) = (has_byte b'/' e ≡ false) × AllWhole es

split-AllWhole : (s : Bytes) → AllWhole (split b'/' s)
unfolding split has_byte
split-AllWhole [] = (refl, tt)
split-AllWhole (x ∷ s) = ground (arith, split-AllWhole s)

clean_elements-AllWhole :
    (rooted : Bool) (es kept : List Bytes)
    → AllWhole es
    → AllWhole kept
    → AllWhole (clean_elements rooted es kept)
unfolding clean_elements
clean_elements-AllWhole rooted [] kept h k = k
clean_elements-AllWhole rooted (e ∷ es) [] h k =
    clean_elements-AllWhole rooted es (clean_element rooted e []) h.1 (ground (arith, h, k))
clean_elements-AllWhole rooted (e ∷ es) (last ∷ kept) h k =
    clean_elements-AllWhole rooted es (clean_element rooted e (last ∷ kept)) h.1
      (ground (arith, h, k))

reversed_onto-AllWhole :
    (es done : List Bytes) → AllWhole es → AllWhole done → AllWhole (reversed_onto es done)
unfolding reversed_onto
reversed_onto-AllWhole [] done h k = k
reversed_onto-AllWhole (e ∷ es) done h k = reversed_onto-AllWhole es (e ∷ done) h.1 (h.0, k)

length-reversed_onto :
    (es done : List Bytes) → length (reversed_onto es done) ≡ length es + length done
unfolding reversed_onto
length-reversed_onto [] done = omega arith
length-reversed_onto (e ∷ es) done = omega (arith, length-reversed_onto es (e ∷ done))

split-join : (es : List Bytes) → AllWhole es → is_empty es ≡ false → split b'/' (join b'/' es) ≡ es
unfolding join
split-join [] h full = absurd (ground arith)
split-join (p ∷ []) h full = split_whole b'/' p h.0
split-join (p ∷ q ∷ ps) h full =
    split-append b'/' p (join b'/' (q ∷ ps)) h.0 ∙ ap (λ r. p ∷ r) (split-join (q ∷ ps) h.1 refl)

-- Cleaning never adds an element.
length-clean_elements-le :
    (es kept : List Bytes) → length (clean_elements false es kept) ≤ length es + length kept
unfolding clean_elements
length-clean_elements-le [] kept = omega arith
length-clean_elements-le (e ∷ es) [] =
    ground (arith, length-clean_elements-le es (clean_element false e []))
length-clean_elements-le (e ∷ es) (last ∷ kept) =
    ground (arith, length-clean_elements-le es (clean_element false e (last ∷ kept)))

-- Behind an element that is not `..`, all are plain where cleaning drops none.
clean_elements-AllPlain :
    (es : List Bytes) (last : Bytes) (kept : List Bytes)
    → bytes_eq last (codes "..") ≡ false
    → length es + length (last ∷ kept) ≤ length (clean_elements false es (last ∷ kept))
    → AllPlain es
unfolding clean_elements
clean_elements-AllPlain [] last kept h k = tt
clean_elements-AllPlain (e ∷ es) last kept h k = ground (
  arith,
  h,
  k,
  clean_elements-AllPlain es e (last ∷ kept),
  length-clean_elements-le es (last ∷ kept),
  length-clean_elements-le es kept,
)

-- A path whose first element is `..` leaves the package.
leading_parent :
    (es : List Bytes)
    → (bytes_eq (join b'/' (codes ".." ∷ es)) (codes "..")
        || has_prefix (join b'/' (codes ".." ∷ es)) (codes "../"))
      ≡ true
unfolding join bytes_eq has_prefix
leading_parent [] = refl
leading_parent (q ∷ es) = ground arith

-- The elements of a path that cleaning leaves as it is.
elements-AllPlain :
    (e : Bytes) (es : List Bytes)
    → length (e ∷ es) ≤ length (clean_elements false (e ∷ es) [])
    → bytes_eq e (codes "..") ≡ false
    → AllPlain (e ∷ es)
unfolding clean_elements
elements-AllPlain e es h inside =
    ground (arith, h, inside, clean_elements-AllPlain es e [], length-clean_elements-le es [])

-- A path that is its own cleaned form, and not `.`, is its elements joined, and none is dropped.
clean_fixed :
    (path : Bytes)
    → has_prefix path (codes "/") ≡ false
    → clean path ≡ path
    → bytes_eq (clean path) (codes ".") ≡ false
    → length (split b'/' path) ≤ length (clean_elements false (split b'/' path) [])
unfolding clean
clean_fixed path relative fixed named =
    let kept = clean_elements false (split b'/' path) [] in
    let elements = reversed_onto kept [] in
    let whole =
      reversed_onto-AllWhole kept []
        (clean_elements-AllWhole false (split b'/' path) [] (split-AllWhole path) tt) tt in
    let sizes = length-reversed_onto kept [] in
    elim (Bool-cases (is_empty elements)) [
      | inl none_left ↦
          absurd (ground (arith, relative, none_left, named, bytes_eq_iff (codes ".") (codes ".")))
      | inr some_left ↦
          let joined : path ≡ join b'/' elements = ground (arith, relative, some_left, fixed) in
          let parts : split b'/' path ≡ elements =
            ap (split b'/') joined ∙ split-join elements whole some_left in
          omega (arith, ap length parts, sizes)
    ]

split-AllPlain :
    (path : Bytes)
    → has_prefix path (codes "/") ≡ false
    → clean path ≡ path
    → bytes_eq (clean path) (codes ".") ≡ false
    → bytes_eq (clean path) (codes "..") ≡ false
    → has_prefix (clean path) (codes "../") ≡ false
    → AllPlain (split b'/' path)
split-AllPlain path relative fixed named parent below =
    go (split b'/' path) refl (clean_fixed path relative fixed named)
  where
    go :
        (es : List Bytes)
        → split b'/' path ≡ es
        → length es ≤ length (clean_elements false es [])
        → AllPlain (split b'/' path)
    go [] e h = rw e tt
    go (p ∷ ps) e h = elim (Bool-cases (bytes_eq p (codes ".."))) [
      | inl up ↦
          let front = (bytes_eq_iff p (codes "..")).0 up in
          let joined : path ≡ join b'/' (codes ".." ∷ ps) =
            sym (join-split b'/' path) ∙ ap (join b'/') e ∙ ap (λ q. join b'/' (q ∷ ps)) front in
          absurd (ground (arith, leading_parent ps, joined, fixed, parent, below))
      | inr inside ↦ rw e (elements-AllPlain p ps h inside)
    ]

-- A path that is accepted is text within its limit, and its elements are plain.
pub record IsPackagePath (max : ℕ) (path : Bytes) : Type 0 where
  pub present : is_empty path ≡ false
  pub utf8 : valid_utf8 path ≡ true
  pub within : length path ≤ max
  pub portable :
      (has_byte 92 path ≡ false) × (has_byte 0 path ≡ false) × (has_prefix path (codes "/") ≡ false)
  pub inside : AllPlain (split b'/' path)

-- A text that is there, is UTF-8 and is within its limit.
abbrev pub IsText : ℕ → Bytes → Type 0
IsText max s = (is_empty s ≡ false) × (valid_utf8 s ≡ true) × (length s ≤ max)

pub validate_required_text-IsText :
    (path value : Bytes) (max : ℕ)
    → validate_required_text path value max ≡ ok tt
    → IsText max value
unfolding validate_required_text
validate_required_text-IsText path value max h = ground (arith, h)

pub check_package_path-IsPackagePath :
    (value path : Bytes) (max : ℕ) (field_path : Bytes)
    → check_package_path value max field_path ≡ ok path
    → IsPackagePath max path × (path ≡ value)
unfolding check_package_path
check_package_path-IsPackagePath value path max field_path h =
    let (_, text, h1) = bind-eq-ok (validate_required_text field_path value max) _ h in
    let (ports, h2) =
      fail_if-eq-ok (has_byte 92 value || has_prefix value (codes "/") || has_byte 0 value) _ _
        h1 in
    let (fine, h3) =
      fail_if-eq-ok
        (bytes_eq (clean value) (codes ".")
          || bytes_eq (clean value) (codes "..")
          || has_prefix (clean value) (codes "../")
          || not (bytes_eq (clean value) value))
        _ _ h2 in
    let fixed = (bytes_eq_iff (clean value) value).0 (ground arith) in
    let same : path ≡ value = sym (ok_inj (clean value) path h3) ∙ fixed in
    let (present, utf8, within) = validate_required_text-IsText field_path value max text in
    let plain =
      split-AllPlain value (ground arith) fixed (ground arith) (ground arith) (ground arith) in
    rw same (
      record {
        present = present;
        utf8 = utf8;
        within = within;
        portable = ground arith;
        inside = plain;
      },
      refl,
    )
