-- ===== src/Client/Json/Fuel.antt =====
-- The scan of internal/client/json_validation.go ends on every stream of tokens: it never runs out of fuel.
use tappet.Client.Json.{
  Token, open_object, close_object, open_array, close_array, scalar, text, Stream, token, ends,
  JsonError, out_of_fuel, name_not_text, depth_exceeded, nodes_exceeded, duplicate_member,
  unexpected_delimiter, mismatched_delimiter, decode_failed, multiple_values, end_of_file,
  malformed, next_token, has_more, member_name, closes, at_end, stream_length, scan_value,
  scan_members, scan_elements, add_node, reject_json_members,
}
use tappet.Prelude.{
  ℕ, zero, suc, ◌+◌, ◌≤◌, ◌<◌, ◌≡◌, refl, Bool, true, false, not, List, [], ◌∷◌, arith, Bytes,
  Result, ok, err, ◌>>=◌, ◌>>◌, fail_if, ltb, Bool-cases, inl, inr,
}
use tappet.Capability.Hierarchy.{member}

abbrev pub runs_out : JsonError → Bool
runs_out out_of_fuel = true
runs_out depth_exceeded = false
runs_out nodes_exceeded = false
runs_out duplicate_member = false
runs_out name_not_text = false
runs_out unexpected_delimiter = false
runs_out mismatched_delimiter = false
runs_out multiple_values = false
runs_out (decode_failed e) = false

-- A result within `P`, or an error of the code.
abbrev pub Returns : {A : Type 0} → (A → Type 0) → Result JsonError A → Type 0
Returns P (ok a) = P a
Returns P (err e) = runs_out e ≡ false

Returns-bind :
    {A B : Type 0} (P : A → Type 0) (Q : B → Type 0) (m : Result JsonError A)
    (f : A → Result JsonError B)
    → Returns P m
    → ((a : A) → P a → Returns Q (f a))
    → Returns Q (m >>= f)
Returns-bind P Q (ok a) f h k = k a h
Returns-bind P Q (err e) f h k = h

Returns-fail_if :
    {A : Type 0} (Q : A → Type 0) (b : Bool) (e : JsonError) (m : Result JsonError A)
    → runs_out e ≡ false
    → Returns Q m
    → Returns Q (fail_if b e >> m)
Returns-fail_if Q true e m h k = h
Returns-fail_if Q false e m h k = k

-- Less, or no more, than so many tokens are left.
abbrev Left : {A : Type 0} → ℕ → A × Stream → Type 0
Left n (a, s) = stream_length s < n

next_token-Left : (s : Stream) → Returns (Left (stream_length s)) (next_token s)
next_token-Left (token t s) = omega arith
next_token-Left (ends more e) = refl

Returns-either :
    {A : Type 0} (Q : A → Type 0) (b : Bool) (x y : Result JsonError A)
    → Returns Q x
    → (b ≡ true → Returns Q y)
    → Returns Q (elim b [ false ↦ x | true ↦ y ])
Returns-either Q true x y hx hy = hy refl
Returns-either Q false x y hx hy = hx

Left-le :
    {A : Type 0} (m n : ℕ)
    → m ≤ n
    → (r : Result JsonError (A × Stream)) → Returns (Left m) r
    → Returns (Left n) r
Left-le m n le (ok (a, s)) h = omega arith
Left-le m n le (err e) h = h

member_name-Returns : (t : Token) → Returns (λ (b : Bytes). Unit {0}) (member_name t)
member_name-Returns (text name) = tt
member_name-Returns scalar = refl
member_name-Returns open_object = refl
member_name-Returns close_object = refl
member_name-Returns open_array = refl
member_name-Returns close_array = refl

at_end-Returns :
    (max_depth max_nodes : ℕ) (s : Stream)
    → Returns (λ (u : Unit {0}). Unit {0}) (at_end max_depth max_nodes s)
at_end-Returns max_depth max_nodes (token t s) = refl
at_end-Returns max_depth max_nodes (ends more end_of_file) = tt
at_end-Returns max_depth max_nodes (ends more malformed) = refl

module _ (max_depth max_nodes : ℕ) where
  add_node-Returns :
      (nodes : ℕ) → Returns (λ (n : ℕ). Unit {0}) (add_node max_depth max_nodes nodes)
  unfolding add_node
  add_node-Returns nodes = elim (Bool-cases (ltb max_nodes (nodes + 1))) [
    | inl over ↦ rw over refl
    | inr fits ↦ rw fits tt
  ]

  -- The end of an array or an object: the token that closes it.
  closing-Left :
      (open_token : Token) (nodes n : ℕ) (s : Stream)
      → stream_length s < n
      → Returns (Left n) (
          next_token s >>= λ closing.
          fail_if (not (closes open_token closing.0)) mismatched_delimiter >> ok (nodes, closing.1))
  closing-Left open_token nodes n s h =
      Returns-bind (Left (stream_length s)) (Left n) (next_token s) _ (next_token-Left s)
        (λ (t, rest) less.
          Returns-fail_if (Left n) (not (closes open_token t)) mismatched_delimiter
            (ok (nodes, rest)) refl (omega arith))

  -- A value that opens with a delimiter, around what stands inside.
  container-Left :
      (open_token : Token) (nodes depth : ℕ) (s : Stream) (scan : ℕ → Result JsonError (ℕ × Stream))
      → ((counted : ℕ) → Returns (Left (suc (stream_length s))) (scan counted))
      → Returns (Left (suc (stream_length s))) (
          fail_if (ltb max_depth depth) depth_exceeded
          >> (add_node max_depth max_nodes nodes >>= λ counted. scan counted >>= λ inside.
              next_token inside.1 >>= λ closing.
              fail_if (not (closes open_token closing.0)) mismatched_delimiter
              >> ok (inside.0, closing.1)))
  container-Left open_token nodes depth s scan h =
      let n : ℕ = suc (stream_length s) in
      Returns-fail_if (Left n) (ltb max_depth depth) depth_exceeded _ refl (
        Returns-bind (λ (m : ℕ). Unit {0}) (Left n) (add_node max_depth max_nodes nodes) _
          (add_node-Returns nodes)
          (λ counted done.
            Returns-bind (Left n) (Left n) (scan counted) _ (h counted)
              (λ (m, rest) less. closing-Left open_token m n rest less)))

  leaf-Left :
      (nodes : ℕ) (s : Stream)
      → Returns
          (Left (suc (stream_length s)))
          (add_node max_depth max_nodes nodes >>= λ counted. ok (counted, s))
  leaf-Left nodes s =
      Returns-bind (λ (m : ℕ). Unit {0}) (Left (suc (stream_length s)))
        (add_node max_depth max_nodes nodes) _ (add_node-Returns nodes)
        (λ counted done. omega arith)

  mutual
    unfolding scan_value

    scan_value-Left :
        (fuel nodes depth : ℕ) (s : Stream)
        → stream_length s + stream_length s < fuel
        → Returns (Left (stream_length s)) (scan_value max_depth max_nodes fuel nodes depth s)
    scan_value-Left zero nodes depth s enough = absurd (omega arith)
    scan_value-Left (suc fuel) nodes depth (ends more e) enough = refl
    scan_value-Left (suc fuel) nodes depth (token scalar s) enough = leaf-Left nodes s
    scan_value-Left (suc fuel) nodes depth (token (text t) s) enough = leaf-Left nodes s
    scan_value-Left (suc fuel) nodes depth (token close_array s) enough =
        container-Left close_array nodes depth s (λ counted. err unexpected_delimiter)
          (λ counted. refl)
    scan_value-Left (suc fuel) nodes depth (token close_object s) enough =
        container-Left close_object nodes depth s (λ counted. err unexpected_delimiter)
          (λ counted. refl)
    scan_value-Left (suc fuel) nodes depth (token open_array s) enough =
        container-Left open_array nodes depth s _
          (λ counted. scan_elements-Left fuel counted depth s (omega arith))
    scan_value-Left (suc fuel) nodes depth (token open_object s) enough =
        container-Left open_object nodes depth s _
          (λ counted. scan_members-Left fuel counted depth [] s (omega arith))

    scan_elements-Left :
        (fuel nodes depth : ℕ) (s : Stream)
        → suc (stream_length s + stream_length s) < fuel
        → Returns
            (Left (suc (stream_length s)))
            (scan_elements max_depth max_nodes fuel nodes depth s)
    scan_elements-Left zero nodes depth s enough = absurd (omega arith)
    scan_elements-Left (suc fuel) nodes depth s enough =
        let n : ℕ = suc (stream_length s) in
        Returns-either (Left n) (has_more s) (ok (nodes, s)) _ (omega arith) (λ more.
          Returns-bind (Left (stream_length s)) (Left n)
            (scan_value max_depth max_nodes fuel nodes (suc depth) s) _
            (scan_value-Left fuel nodes (suc depth) s (omega arith))
            (λ (m, tail) fewer.
              Left-le (suc (stream_length tail)) n (omega arith)
                (scan_elements max_depth max_nodes fuel m depth tail)
                (scan_elements-Left fuel m depth tail (omega arith))))

    scan_members-Left :
        (fuel nodes depth : ℕ) (seen : List Bytes) (s : Stream)
        → suc (stream_length s + stream_length s) < fuel
        → Returns
            (Left (suc (stream_length s)))
            (scan_members max_depth max_nodes fuel nodes depth seen s)
    scan_members-Left zero nodes depth seen s enough = absurd (omega arith)
    scan_members-Left (suc fuel) nodes depth seen s enough =
        let n : ℕ = suc (stream_length s) in
        Returns-either (Left n) (has_more s) (ok (nodes, s)) _ (omega arith) (λ more.
          Returns-bind (Left (stream_length s)) (Left n) (next_token s) _ (next_token-Left s)
            (λ (t, rest) less.
              Returns-bind (λ (b : Bytes). Unit {0}) (Left n) (member_name t) _
                (member_name-Returns t)
                (λ name is_text.
                  Returns-bind (λ (m : ℕ). Unit {0}) (Left n) (add_node max_depth max_nodes nodes) _
                    (add_node-Returns nodes)
                    (λ counted done.
                      Returns-fail_if (Left n) (member name seen) duplicate_member _ refl (
                        Returns-bind (Left (stream_length rest)) (Left n)
                          (scan_value max_depth max_nodes fuel counted (suc depth) rest) _
                          (scan_value-Left fuel counted (suc depth) rest (omega arith))
                          (λ (m, tail) fewer.
                            Left-le (suc (stream_length tail)) n (omega arith)
                              (scan_members max_depth max_nodes fuel m depth (name ∷ seen) tail)
                              (scan_members-Left fuel m depth (name ∷ seen) tail
                                (omega arith))))))))

  -- On every stream of tokens, however it ends, the scan accepts or fails with an error of the
  -- code: the fuel that it starts with is enough.
  pub reject_json_members-Returns :
      (s : Stream)
      → Returns (λ (u : Unit {0}). Unit {0}) (reject_json_members max_depth max_nodes s)
  unfolding reject_json_members
  reject_json_members-Returns s =
      Returns-bind (Left (stream_length s)) (λ (u : Unit {0}). Unit {0})
        (scan_value max_depth max_nodes (suc (stream_length s + stream_length s)) 0 1 s) _
        (scan_value-Left (suc (stream_length s + stream_length s)) 0 1 s (omega arith))
        (λ (n, rest) less. at_end-Returns max_depth max_nodes rest)
