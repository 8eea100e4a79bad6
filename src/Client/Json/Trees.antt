-- ===== src/Client/Json/Trees.antt =====
-- JSON values, for internal/client/json_validation.go: their tokens, and what the limits of the scan count.
use tappet.Capability.Hierarchy.{member}
use tappet.Client.Json.{
  open_object, close_object, open_array, close_array, scalar, text, Stream, token, has_more,
  stream_length,
}
use tappet.Prelude.{ℕ, suc, ◌+◌, ◌<◌, ◌≡◌, refl, Bool, true, not, ◌&&◌, List, [], ◌∷◌, arith, Bytes}
use Prim.Native.Nat.{max}

-- A JSON value: a text, another scalar, an array or an object.
mutual
  pub data Json : Type 0 where
    json_scalar : Json
    json_text : Bytes → Json
    json_array : Elements → Json
    json_object : Members → Json

  pub data Elements : Type 0 where
    no_elements : Elements
    element : Json → Elements → Elements

  pub data Members : Type 0 where
    no_members : Members
    member_of : Bytes → Json → Members → Members

-- The tokens of a value, in front of others.
unfoldable mutual
  pub tokens : Json → Stream → Stream
  tokens json_scalar k = token scalar k
  tokens (json_text t) k = token (text t) k
  tokens (json_array es) k = token open_array (element_tokens es (token close_array k))
  tokens (json_object ms) k = token open_object (member_tokens ms (token close_object k))

  pub element_tokens : Elements → Stream → Stream
  element_tokens no_elements k = k
  element_tokens (element v es) k = tokens v (element_tokens es k)

  pub member_tokens : Members → Stream → Stream
  member_tokens no_members k = k
  member_tokens (member_of name v ms) k = token (text name) (tokens v (member_tokens ms k))

-- How many values and names there are, how deep arrays and objects nest, and whether the names of
-- each object are distinct.
unfoldable mutual
  pub size : Json → ℕ
  size json_scalar = 1
  size (json_text t) = 1
  size (json_array es) = suc (element_sizes es)
  size (json_object ms) = suc (member_sizes ms)

  pub element_sizes : Elements → ℕ
  element_sizes no_elements = 0
  element_sizes (element v es) = size v + element_sizes es

  pub member_sizes : Members → ℕ
  member_sizes no_members = 0
  member_sizes (member_of name v ms) = suc (size v) + member_sizes ms

unfoldable mutual
  pub height : Json → ℕ
  height json_scalar = 0
  height (json_text t) = 0
  height (json_array es) = suc (element_heights es)
  height (json_object ms) = suc (member_heights ms)

  pub element_heights : Elements → ℕ
  element_heights no_elements = 0
  element_heights (element v es) = max (height v) (element_heights es)

  pub member_heights : Members → ℕ
  member_heights no_members = 0
  member_heights (member_of name v ms) = max (height v) (member_heights ms)

unfoldable mutual
  unfolding member

  pub distinct : Json → Bool
  distinct json_scalar = true
  distinct (json_text t) = true
  distinct (json_array es) = elements_distinct es
  distinct (json_object ms) = members_distinct [] ms

  pub elements_distinct : Elements → Bool
  elements_distinct no_elements = true
  elements_distinct (element v es) = distinct v && elements_distinct es

  pub members_distinct : List Bytes → Members → Bool
  members_distinct seen no_members = true
  members_distinct seen (member_of name v ms) =
      not (member name seen) && distinct v && members_distinct (name ∷ seen) ms

-- How many tokens a value has.
unfoldable mutual
  pub cost : Json → ℕ
  cost json_scalar = 1
  cost (json_text t) = 1
  cost (json_array es) = 2 + element_costs es
  cost (json_object ms) = 2 + member_costs ms

  pub element_costs : Elements → ℕ
  element_costs no_elements = 0
  element_costs (element v es) = cost v + element_costs es

  pub member_costs : Members → ℕ
  member_costs no_members = 0
  member_costs (member_of name v ms) = suc (cost v) + member_costs ms

pub cost_positive : (v : Json) → 0 < cost v
unfolding cost
cost_positive json_scalar = omega arith
cost_positive (json_text t) = omega arith
cost_positive (json_array es) = omega arith
cost_positive (json_object ms) = omega arith

mutual
  unfolding cost tokens

  pub tokens_cost : (v : Json) (k : Stream) → stream_length (tokens v k) ≡ cost v + stream_length k
  tokens_cost json_scalar k = omega arith
  tokens_cost (json_text t) k = omega arith
  tokens_cost (json_array es) k = omega (arith, elements_cost es (token close_array k))
  tokens_cost (json_object ms) k = omega (arith, members_cost ms (token close_object k))

  elements_cost :
      (es : Elements) (k : Stream)
      → stream_length (element_tokens es k) ≡ element_costs es + stream_length k
  elements_cost no_elements k = omega arith
  elements_cost (element v es) k =
      omega (arith, tokens_cost v (element_tokens es k), elements_cost es k)

  members_cost :
      (ms : Members) (k : Stream)
      → stream_length (member_tokens ms k) ≡ member_costs ms + stream_length k
  members_cost no_members k = omega arith
  members_cost (member_of name v ms) k =
      omega (arith, tokens_cost v (member_tokens ms k), members_cost ms k)

pub tokens_more : (v : Json) (k : Stream) → has_more (tokens v k) ≡ true
unfolding tokens
tokens_more json_scalar k = refl
tokens_more (json_text t) k = refl
tokens_more (json_array es) k = refl
tokens_more (json_object ms) k = refl
