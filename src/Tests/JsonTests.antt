-- ===== src/Tests/JsonTests.antt =====
-- internal/client/json_validation.go on `{"a":[1],"a":2}`, with the second name changed and as it is.
use tappet.Capability.Hierarchy.{member}
use tappet.Client.Json.{
  Stream, ends, end_of_file, duplicate_member, depth_exceeded, scan_value, add_node, at_end,
  reject_json_members, reject_duplicate_json_members,
}
use tappet.Client.Json.Trees.{
  Json, json_scalar, json_array, json_object, element, no_elements, member_of, no_members, tokens,
  size, height, distinct,
}
use tappet.Client.Json.Bounds.{value_of, reject_json_members_lem}
use tappet.Client.Json.Fuel.{Returns, reject_json_members-Returns}
use tappet.Prelude.{
  true, ◌≡◌, ◌&&◌, refl, false, none, Bytes, codes, bytes_eq, leb, if◌then◌else◌, ok, err,
}

abbrev value : Bytes → Json
value name = json_object (
    member_of (codes "a") (json_array (element json_scalar no_elements))
      (member_of name json_scalar no_members))

abbrev nothing_more : Stream
nothing_more = ends false end_of_file

accepts : reject_duplicate_json_members (tokens (value (codes "b")) nothing_more) ≡ ok tt
unfolding reject_duplicate_json_members reject_json_members scan_value add_node tokens member
    bytes_eq
accepts = refl

repeated :
    reject_duplicate_json_members (tokens (value (codes "a")) nothing_more) ≡ err duplicate_member
unfolding reject_duplicate_json_members reject_json_members scan_value add_node tokens member
    bytes_eq
repeated = refl

nested : reject_json_members 1 10 (tokens (value (codes "b")) nothing_more) ≡ err depth_exceeded
unfolding reject_json_members scan_value add_node tokens member bytes_eq
nested = refl

reject_json_members_lem_example :
    value_of (reject_json_members 2 6 (tokens (value (codes "b")) nothing_more)) ≡ (
      if leb (height (value (codes "b"))) 2
        && leb (size (value (codes "b"))) 6
        && distinct (value (codes "b"))
      then value_of (at_end 2 6 nothing_more)
      else none)
reject_json_members_lem_example = reject_json_members_lem 2 6 (value (codes "b")) nothing_more

reject_json_members-Returns_example :
    Returns
      (λ (u : Unit {0}). Unit {0})
      (reject_json_members 2 6 (tokens (value (codes "b")) (ends true end_of_file)))
reject_json_members-Returns_example =
    reject_json_members-Returns 2 6 (tokens (value (codes "b")) (ends true end_of_file))
