-- ===== src/Capability/Describe/Walks.antt =====
-- The cursor tokens of internal/capability/describe.go: what is accepted, and that what is made is read back.
use tappet.Capability.Paths.{split, has_byte, split-append, split_whole}
use tappet.Capability.Identifiers.{valid_utf8}
use tappet.Capability.Limits.{opaque_reference_max_bytes}
use tappet.Capability.Describe.Store.{
  ProjectionCursor, Codec, cursor_invalid, make_cursor, parse_parts, parse_cursor,
}
use tappet.Prelude.{
  ◌≤◌, ◌≡◌, refl, ap, ◌∙◌, Bool, true, false, none, inl, inr, some, Option-cases, List, [], ◌∷◌,
  ◌++◌, arith, ltb, if◌then◌else◌, length, Bytes, codes, bytes_eq, bytes_eq_iff, ◌&&◌,
}

and_both : (a b : Bool) → (a && b) ≡ true → (a ≡ true) × (b ≡ true)
and_both a b h = ground arith

module _ (codec : Codec) where
  -- What a token of an accepted cursor is: its parts, signed under the key, and the cursor's bounds.
  pub record IsSigned (key token : Bytes) (cursor : ProjectionCursor) : Type 0 where
    pub encoded : Bytes
    pub mac : Bytes
    pub parts : split b':' token ≡ codes "describe" ∷ codes "v1" ∷ encoded ∷ mac ∷ []
    pub signed : codec.decode mac ≡ some (codec.hmac key (codes "describe:v1:" ++ encoded))
    pub payload :
        (bytes : Bytes) × (codec.decode encoded ≡ some bytes)
        × (codec.unmarshal_cursor bytes ≡ some cursor)
    pub bounds : cursor_invalid cursor ≡ false

  parse_parts-eq-some :
      (key : Bytes) (token : Bytes) (parts : List Bytes) (cursor : ProjectionCursor)
      → split b':' token ≡ parts
      → parse_parts codec key parts ≡ some cursor
      → IsSigned key token cursor
  unfolding parse_parts
  parse_parts-eq-some key token (head ∷ version ∷ encoded ∷ mac ∷ []) cursor e h =
      let is_head = bytes_eq_iff head (codes "describe") in
      let is_version = bytes_eq_iff version (codes "v1") in
      let sign = codec.hmac key (codes "describe:v1:" ++ encoded) in
      elim (Option-cases (codec.decode mac)) [
        | inl bad ↦ absurd (ground (arith, bad))
        | inr (provided, read) ↦ elim (Option-cases (codec.decode encoded)) [
          | inl bad ↦ absurd (ground (arith, bad, read))
          | inr (bytes, opened) ↦
              let named : (bytes_eq head (codes "describe") && bytes_eq version (codes "v1"))
                  ≡ true =
                ground (arith, read) in
              let names =
                and_both (bytes_eq head (codes "describe")) (bytes_eq version (codes "v1")) named in
              let same : bytes_eq provided sign ≡ true = ground (arith, read) in
              let its : provided ≡ sign = (bytes_eq_iff provided sign).0 same in
              let found : codec.unmarshal_cursor bytes ≡ some cursor =
                ground (arith, read, opened) in
              record {
                encoded = encoded;
                mac = mac;
                parts = e ∙ rw (is_head.0 names.0, is_version.0 names.1) refl;
                signed = read ∙ ap some its;
                payload = (bytes, opened, found);
                bounds = ground (arith, read, opened, found);
              }
        ]
      ]
  parse_parts-eq-some key token _ cursor e h = cc

  -- A cursor token that is accepted has four parts, the last of which decodes to the code of the
  -- third under the store's key, and the cursor in its payload is within its bounds.
  pub parse_cursor-IsSigned :
      (key token : Bytes) (cursor : ProjectionCursor)
      → parse_cursor codec key token ≡ some cursor
      → IsSigned key token cursor
  unfolding parse_cursor
  parse_cursor-IsSigned key token cursor h =
      parse_parts-eq-some key token (split b':' token) cursor refl (ground arith)

  parse_cursor-split :
      (key token : Bytes) (parts : List Bytes)
      → split b':' token ≡ parts
      → length token ≤ opaque_reference_max_bytes
      → parse_cursor codec key token ≡ parse_parts codec key parts
  unfolding parse_cursor
  parse_cursor-split key token parts e short =
      let small : ltb opaque_reference_max_bytes (length token) ≡ false = ground (arith, short) in
      rw (small, e, parse_cursor) refl

  parse_parts-signed :
      (key encoded mac bytes : Bytes) (cursor : ProjectionCursor)
      → codec.decode mac ≡ some (codec.hmac key (codes "describe:v1:" ++ encoded))
      → codec.decode encoded ≡ some bytes
      → codec.unmarshal_cursor bytes ≡ some cursor
      → parse_parts codec key (codes "describe" ∷ codes "v1" ∷ encoded ∷ mac ∷ [])
        ≡ (if cursor_invalid cursor then none else some cursor)
  unfolding parse_parts bytes_eq
  parse_parts-signed key encoded mac bytes cursor signed opened found =
      let sign = codec.hmac key (codes "describe:v1:" ++ encoded) in
      let same : bytes_eq sign sign ≡ true = (bytes_eq_iff sign sign).1 refl in
      rw (signed, same, opened, found, parse_parts) refl

  module _ (decodes : (b : Bytes) → codec.decode (codec.encode b) ≡ some b)
      (plain : (b : Bytes) → has_byte b':' (codec.encode b) ≡ false)
      (unmarshals : (c : ProjectionCursor)
        → valid_utf8 c.id ≡ true
        → codec.unmarshal_cursor (codec.marshal_cursor c) ≡ some c) where
    made_parts :
        (key : Bytes) (cursor : ProjectionCursor)
        → valid_utf8 cursor.id ≡ true
        → parse_parts codec key (split b':' (make_cursor codec key cursor))
          ≡ (if cursor_invalid cursor then none else some cursor)
    unfolding make_cursor split
    made_parts key cursor text =
        let encoded = codec.encode (codec.marshal_cursor cursor) in
        let sign = codec.hmac key (codes "describe:v1:" ++ encoded) in
        let parts : split b':' (make_cursor codec key cursor)
            ≡ codes "describe" ∷ codes "v1" ∷ encoded ∷ codec.encode sign ∷ [] =
          rw
            (
              split-append b':' encoded (codec.encode sign) (plain (codec.marshal_cursor cursor)),
              split_whole b':' (codec.encode sign) (plain sign),
            )
            refl in
        ap (parse_parts codec key) parts
        ∙ parse_parts-signed key encoded (codec.encode sign) (codec.marshal_cursor cursor) cursor
            (decodes sign) (decodes (codec.marshal_cursor cursor)) (unmarshals cursor text)

    -- A cursor that is made under a key is read back under it, when the token is not too long,
    -- the cursor is within its bounds, its identifier is UTF-8, the decoders undo the encoders
    -- (a cursor's where its identifier is UTF-8) and no encoding has a colon.
    pub parse_cursor-make_cursor :
        (key : Bytes) (cursor : ProjectionCursor)
        → valid_utf8 cursor.id ≡ true
        → cursor_invalid cursor ≡ false
        → length (make_cursor codec key cursor) ≤ opaque_reference_max_bytes
        → parse_cursor codec key (make_cursor codec key cursor) ≡ some cursor
    parse_cursor-make_cursor key cursor text bounds short =
        let read : parse_parts codec key (split b':' (make_cursor codec key cursor)) ≡ some cursor =
          rw⁻¹ (ap (λ b. if b then none else some cursor) bounds) (made_parts key cursor text) in
        parse_cursor-split key (make_cursor codec key cursor) _ refl short ∙ read

    -- What is read from a token that was made is what it was made from.
    pub parse_cursor-made :
        (key : Bytes) (cursor found : ProjectionCursor)
        → valid_utf8 cursor.id ≡ true
        → parse_cursor codec key (make_cursor codec key cursor) ≡ some found
        → found ≡ cursor
    unfolding parse_cursor
    parse_cursor-made key cursor found text h = ground (arith, made_parts key cursor text)
