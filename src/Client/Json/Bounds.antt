-- ===== src/Client/Json/Bounds.antt =====
-- What the scan of internal/client/json_validation.go accepts, against the value that it reads.
use tappet.Client.Json.{
  close_object, close_array, Stream, token, has_more, stream_length, scan_value, scan_members,
  scan_elements, add_node, at_end, reject_json_members,
}
use tappet.Client.Json.Trees.{
  Json, json_scalar, json_text, json_array, json_object, Elements, no_elements, element, Members,
  no_members, member_of, tokens, element_tokens, member_tokens, size, element_sizes, member_sizes,
  height, element_heights, member_heights, distinct, elements_distinct, members_distinct, cost,
  element_costs, member_costs, cost_positive, tokens_more, tokens_cost,
}
use tappet.Prelude.{
  ℕ, zero, suc, ◌+◌, ◌≤◌, ◌<◌, ◌≡◌, refl, false, ◌&&◌, Option, none, some, List, [], ◌∷◌, arith,
  leb, if◌then◌else◌, Bytes, Result, ok, err, Result-cases, inl, inr,
}

abbrev pub value_of {ℓ} : {E A : Type ℓ} → Result E A → Option A
value_of (ok a) = some a
value_of (err _) = none

abbrev fuel_of : Stream → ℕ
fuel_of s = suc (stream_length s + stream_length s)

module _ (max_depth max_nodes : ℕ) where
  abbrev Scanned : ℕ → ℕ → ℕ → Json → Stream → Type 0
  Scanned fuel nodes depth v k =
      value_of (scan_value max_depth max_nodes fuel nodes (suc depth) (tokens v k)) ≡ (
        if leb (depth + height v) max_depth && leb (nodes + size v) max_nodes && distinct v
        then some (nodes + size v, k)
        else none)

  scan_value-scalar :
      (fuel nodes depth : ℕ) (k : Stream)
      → depth ≤ max_depth
      → Scanned (suc fuel) nodes depth json_scalar k
  unfolding scan_value tokens height size distinct add_node
  scan_value-scalar fuel nodes depth k deep = ground arith

  scan_value-text :
      (fuel nodes depth : ℕ) (t : Bytes) (k : Stream)
      → depth ≤ max_depth
      → Scanned (suc fuel) nodes depth (json_text t) k
  unfolding scan_value tokens height size distinct add_node
  scan_value-text fuel nodes depth t k deep = ground arith

  abbrev ScannedElements : ℕ → ℕ → ℕ → Elements → Stream → Type 0
  ScannedElements fuel nodes depth es k =
      value_of (scan_elements max_depth max_nodes fuel nodes depth (element_tokens es k)) ≡ (
        if leb (depth + element_heights es) max_depth
          && leb (nodes + element_sizes es) max_nodes
          && elements_distinct es
        then some (nodes + element_sizes es, k)
        else none)

  abbrev ScannedMembers : ℕ → ℕ → ℕ → List Bytes → Members → Stream → Type 0
  ScannedMembers fuel nodes depth seen ms k =
      value_of (scan_members max_depth max_nodes fuel nodes depth seen (member_tokens ms k)) ≡ (
        if leb (depth + member_heights ms) max_depth
          && leb (nodes + member_sizes ms) max_nodes
          && members_distinct seen ms
        then some (nodes + member_sizes ms, k)
        else none)

  scan_value-array :
      (fuel nodes depth : ℕ) (es : Elements) (k : Stream)
      → (suc depth ≤ max_depth
          → nodes + 1 ≤ max_nodes
          → ScannedElements fuel (nodes + 1) (suc depth) es (token close_array k))
      → Scanned (suc fuel) nodes depth (json_array es) k
  unfolding scan_value tokens height size distinct add_node
  scan_value-array fuel nodes depth es k h =
      elim (Result-cases (
        scan_elements max_depth max_nodes fuel (nodes + 1) (suc depth)
          (element_tokens es (token close_array k)))) [
            | inl (e, bad) ↦ ground (arith, h, bad)
            | inr ((n, s), good) ↦ ground (arith, h, good)
          ]

  scan_value-object :
      (fuel nodes depth : ℕ) (ms : Members) (k : Stream)
      → (suc depth ≤ max_depth
          → nodes + 1 ≤ max_nodes
          → ScannedMembers fuel (nodes + 1) (suc depth) [] ms (token close_object k))
      → Scanned (suc fuel) nodes depth (json_object ms) k
  unfolding scan_value tokens height size distinct add_node
  scan_value-object fuel nodes depth ms k h =
      elim (Result-cases (
        scan_members max_depth max_nodes fuel (nodes + 1) (suc depth) []
          (member_tokens ms (token close_object k)))) [
            | inl (e, bad) ↦ ground (arith, h, bad)
            | inr ((n, s), good) ↦ ground (arith, h, good)
          ]

  scan_elements-none :
      (fuel nodes depth : ℕ) (k : Stream)
      → has_more k ≡ false
      → depth ≤ max_depth
      → nodes ≤ max_nodes
      → ScannedElements (suc fuel) nodes depth no_elements k
  unfolding scan_value tokens height size distinct
  scan_elements-none fuel nodes depth k last deep fit = ground (arith, last)

  scan_elements-element :
      (fuel nodes depth : ℕ) (v : Json) (es : Elements) (k : Stream)
      → depth ≤ max_depth
      → Scanned fuel nodes depth v (element_tokens es k)
      → (nodes + size v ≤ max_nodes → ScannedElements fuel (nodes + size v) depth es k)
      → ScannedElements (suc fuel) nodes depth (element v es) k
  unfolding scan_value tokens height size distinct
  scan_elements-element fuel nodes depth v es k deep here later =
      let more = tokens_more v (element_tokens es k) in
      elim (Result-cases
        (scan_value max_depth max_nodes fuel nodes (suc depth) (tokens v (element_tokens es k)))) [
          | inl (e, bad) ↦ ground (arith, here, later, bad, more)
          | inr ((n, s), good) ↦ ground (arith, here, later, good, more)
        ]

  scan_members-none :
      (fuel nodes depth : ℕ) (seen : List Bytes) (k : Stream)
      → has_more k ≡ false
      → depth ≤ max_depth
      → nodes ≤ max_nodes
      → ScannedMembers (suc fuel) nodes depth seen no_members k
  unfolding scan_value tokens height size distinct
  scan_members-none fuel nodes depth seen k last deep fit = ground (arith, last)

  scan_members-member :
      (fuel nodes depth : ℕ) (seen : List Bytes) (name : Bytes) (v : Json) (ms : Members)
      (k : Stream)
      → depth ≤ max_depth
      → Scanned fuel (nodes + 1) depth v (member_tokens ms k)
      → (nodes + 1 + size v ≤ max_nodes
          → ScannedMembers fuel (nodes + 1 + size v) depth (name ∷ seen) ms k)
      → ScannedMembers (suc fuel) nodes depth seen (member_of name v ms) k
  unfolding scan_value tokens height size distinct add_node
  scan_members-member fuel nodes depth seen name v ms k deep here later =
      elim (Result-cases (
        scan_value max_depth max_nodes fuel (nodes + 1) (suc depth)
          (tokens v (member_tokens ms k)))) [
            | inl (e, bad) ↦ ground (arith, here, later, bad)
            | inr ((n, s), good) ↦ ground (arith, here, later, good)
          ]

  mutual
    unfolding cost

    scan_value-tokens :
        (fuel nodes depth : ℕ) (v : Json) (k : Stream)
        → cost v ≤ fuel
        → depth ≤ max_depth
        → Scanned fuel nodes depth v k
    scan_value-tokens zero nodes depth v k enough deep = absurd (omega (arith, cost_positive v))
    scan_value-tokens (suc fuel) nodes depth json_scalar k enough deep =
        scan_value-scalar fuel nodes depth k deep
    scan_value-tokens (suc fuel) nodes depth (json_text t) k enough deep =
        scan_value-text fuel nodes depth t k deep
    scan_value-tokens (suc fuel) nodes depth (json_array es) k enough deep =
        scan_value-array fuel nodes depth es k (λ inner fit.
          scan_elements-tokens fuel (nodes + 1) (suc depth) es (token close_array k) (omega arith)
            refl inner fit)
    scan_value-tokens (suc fuel) nodes depth (json_object ms) k enough deep =
        scan_value-object fuel nodes depth ms k (λ inner fit.
          scan_members-tokens fuel (nodes + 1) (suc depth) [] ms (token close_object k)
            (omega arith) refl inner fit)

    scan_elements-tokens :
        (fuel nodes depth : ℕ) (es : Elements) (k : Stream)
        → element_costs es < fuel
        → has_more k ≡ false
        → depth ≤ max_depth
        → nodes ≤ max_nodes
        → ScannedElements fuel nodes depth es k
    scan_elements-tokens zero nodes depth es k enough last deep fit = absurd (omega arith)
    scan_elements-tokens (suc fuel) nodes depth no_elements k enough last deep fit =
        scan_elements-none fuel nodes depth k last deep fit
    scan_elements-tokens (suc fuel) nodes depth (element v es) k enough last deep fit =
        scan_elements-element fuel nodes depth v es k deep
          (scan_value-tokens fuel nodes depth v (element_tokens es k) (omega arith) deep)
          (λ fit'.
            scan_elements-tokens fuel (nodes + size v) depth es k (omega (arith, cost_positive v))
              last deep fit')

    scan_members-tokens :
        (fuel nodes depth : ℕ) (seen : List Bytes) (ms : Members) (k : Stream)
        → member_costs ms < fuel
        → has_more k ≡ false
        → depth ≤ max_depth
        → nodes ≤ max_nodes
        → ScannedMembers fuel nodes depth seen ms k
    scan_members-tokens zero nodes depth seen ms k enough last deep fit = absurd (omega arith)
    scan_members-tokens (suc fuel) nodes depth seen no_members k enough last deep fit =
        scan_members-none fuel nodes depth seen k last deep fit
    scan_members-tokens (suc fuel) nodes depth seen (member_of name v ms) k enough last deep fit =
        scan_members-member fuel nodes depth seen name v ms k deep
          (scan_value-tokens fuel (nodes + 1) depth v (member_tokens ms k) (omega arith) deep)
          (λ fit'.
            scan_members-tokens fuel (nodes + 1 + size v) depth (name ∷ seen) ms k
              (omega (arith, cost_positive v)) last deep fit')

  -- The scan of the tokens of a JSON value accepts it exactly when its arrays and objects nest
  -- no deeper than the limit, its values and names are no more than the limit, and no object has
  -- a name twice, where nothing follows it but the end.
  pub reject_json_members_lem :
      (v : Json) (k : Stream)
      → value_of (reject_json_members max_depth max_nodes (tokens v k)) ≡ (
          if leb (height v) max_depth && leb (size v) max_nodes && distinct v
          then value_of (at_end max_depth max_nodes k)
          else none)
  unfolding reject_json_members
  reject_json_members_lem v k =
      let scanned =
        scan_value-tokens (fuel_of (tokens v k)) 0 0 v k (omega (arith, tokens_cost v k))
          (omega arith) in
      elim (Result-cases (scan_value max_depth max_nodes (fuel_of (tokens v k)) 0 1 (tokens v k))) [
        | inl (e, bad) ↦ ground (arith, scanned, bad)
        | inr ((n, s), good) ↦ ground (arith, scanned, good)
      ]
