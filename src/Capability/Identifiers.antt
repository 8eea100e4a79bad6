-- ===== src/Capability/Identifiers.antt =====
-- The patterns on identifiers of internal/capability/manifest.go (`localIDPattern`,
-- `capabilityIDPattern`), and Go's `utf8.ValidString`.
use tappet.Capability.Paths.{split}
use tappet.Prelude.{
  ℕ, zero, suc, Bool, true, false, ◌&&◌, ◌||◌, Option, none, some, List, [], ◌∷◌, ◌==◌, leb, ltb,
  if◌then◌else◌, Bytes, is_empty,
}

-- `[a-z0-9]`
abbrev pub is_lower_alnum : ℕ → Bool
is_lower_alnum c = (leb b'a' c && leb c b'z') || (leb b'0' c && leb c b'9')

-- `[a-z0-9-]*[a-z0-9]` up to the end.
unfoldable pub ends_in_alnum : Bytes → Bool
ends_in_alnum [] = false
ends_in_alnum (c ∷ []) = is_lower_alnum c
ends_in_alnum (c ∷ d ∷ s) = (is_lower_alnum c || c == b'-') && ends_in_alnum (d ∷ s)

-- `localIDPattern`
unfoldable pub local_id_matches : Bytes → Bool
unfolding ends_in_alnum
local_id_matches [] = false
local_id_matches (c ∷ s) = is_lower_alnum c && (is_empty s || ends_in_alnum s)

unfoldable pub all_local_ids : List Bytes → Bool
unfolding local_id_matches
all_local_ids [] = true
all_local_ids (p ∷ ps) = local_id_matches p && all_local_ids ps

-- `capabilityIDPattern`: local identifiers between dots.
unfoldable pub capability_id_matches : Bytes → Bool
unfolding all_local_ids split
capability_id_matches s = all_local_ids (split b'.' s)

-- What follows a first byte: the count of continuation bytes, and the range of the first of them.
unfoldable pub utf8_lead : ℕ → Option (ℕ × ℕ × ℕ)
utf8_lead c =
    if ltb c 128
    then some (0, 128, 191)
    else if leb 194 c && leb c 223
    then some (1, 128, 191)
    else if c == 224
    then some (2, 160, 191)
    else if c == 237
    then some (2, 128, 159)
    else if leb 225 c && leb c 239
    then some (2, 128, 191)
    else if c == 240
    then some (3, 144, 191)
    else if leb 241 c && leb c 243
    then some (3, 128, 191)
    else if c == 244
    then some (3, 128, 143)
    else none

unfoldable pub utf8_from : ℕ → ℕ → ℕ → Bytes → Bool
unfolding utf8_lead
utf8_from n lo hi [] = n == 0
utf8_from zero lo hi (c ∷ s) = elim (utf8_lead c) [
  | none ↦ false
  | some (n, lo', hi') ↦ utf8_from n lo' hi' s
]
utf8_from (suc n) lo hi (c ∷ s) = leb lo c && leb c hi && utf8_from n 128 191 s

-- `utf8.ValidString`
unfoldable pub valid_utf8 : Bytes → Bool
unfolding utf8_from
valid_utf8 s = utf8_from 0 128 191 s
