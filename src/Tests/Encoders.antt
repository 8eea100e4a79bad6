-- ===== src/Tests/Encoders.antt =====
-- Encoders and decoders for the tests of the cursors in internal/capability: no encoding has a colon.
use tappet.Capability.Paths.{has_byte}
use tappet.Prelude.{◌+◌, ◌-◌, ◌≡◌, refl, false, [], ◌∷◌, arith, Bytes}

abbrev pub shift : Bytes → Bytes
shift [] = []
shift (c ∷ b) = (c + 59) ∷ shift b

abbrev pub unshift : Bytes → Bytes
unshift [] = []
unshift (c ∷ b) = (c - 59) ∷ unshift b

pub unshift-shift : (b : Bytes) → unshift (shift b) ≡ b
unshift-shift [] = refl
unshift-shift (c ∷ b) = ground (arith, unshift-shift b)

pub shift_plain : (b : Bytes) → has_byte b':' (shift b) ≡ false
unfolding has_byte
shift_plain [] = refl
shift_plain (c ∷ b) = ground (arith, shift_plain b)
