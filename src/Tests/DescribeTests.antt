-- ===== src/Tests/DescribeTests.antt =====
-- internal/capability/describe.go on a projection of two operations and a context reference.
use tappet.Capability.Types.{Record, Artifact, Operation, context}
use tappet.Capability.Paths.{sort_slice, sort_insert}
use tappet.Capability.Registry.{empty_registry}
use tappet.Capability.Limits.{default_projection_limits}
use tappet.Capability.Describe.{
  Projection, DescribeResponse, page_projection, copy_section, add_sections, add_section,
  describe_operations, describe_references, no_sections, skill_references,
}
use tappet.Capability.Describe.Pages.{Item, projection_items, response_items, page_projection-items}
use tappet.Capability.Describe.Store.{
  DescribeError, DescribeRequest, ProjectionStore, ProjectionCursor, Describer, Codec,
  fits_response, make_cursor, parse_cursor, page_of, bounded_page,
}
use tappet.Capability.Describe.Requests.{describe, first_page, cursor_page}
use tappet.Capability.Describe.Cursors.{bounded_page-total}
use tappet.Capability.Describe.Walks.{IsSigned, parse_cursor-IsSigned, parse_cursor-make_cursor}
use tappet.Capability.Describe.Accounting.{IsAccounted}
use tappet.Capability.Describe.Kept.{describe-IsAccounted}
use tappet.Capability.Describe.Paging.{Pages, last, more, Pages-items}
use tappet.Capability.Identifiers.{valid_utf8}
use tappet.Tests.Encoders.{shift, unshift, unshift-shift, shift_plain}
use tappet.Capability.Read.{new_unique_id_in}
use tappet.Prelude.{
  insert, gt64, lookup, List, Result, ℕ, ◌≡◌, refl, false, Option, none, some, [], ◌∷◌, ◌++◌, arith,
  length, drop, take, Bytes, codes, bytes_eq, bytes_key, ok, err, ap,
}

abbrev marshal_cursor : ProjectionCursor → Bytes
marshal_cursor c = c.offset ∷ c.limit ∷ c.id

abbrev unmarshal_cursor : Bytes → Option ProjectionCursor
unmarshal_cursor (o ∷ l ∷ id) = some (record { id = id; offset = o; limit = l })
unmarshal_cursor _ = none

abbrev codec : Codec
codec = record {
  marshal = λ r. r.name;
  marshal_projection = λ p. codes "{}";
  marshal_cursor = marshal_cursor;
  unmarshal_cursor = unmarshal_cursor;
  encode = shift;
  decode = λ b. some (unshift b);
  hmac = λ k b. length b ∷ k;
}

abbrev cursor : ProjectionCursor
cursor = record { id = codes "id"; offset = 1; limit = 2 }

abbrev key : Bytes
key = codes "key"

parse_cursor-make_cursor_example :
    parse_cursor codec key (make_cursor codec key cursor) ≡ some cursor
parse_cursor-make_cursor_example =
    parse_cursor-make_cursor codec (λ b. ap some (unshift-shift b)) shift_plain (λ c text. refl) key
      cursor (unfold valid_utf8 in refl) refl (unfold make_cursor in omega arith)

parse_cursor-IsSigned_example : IsSigned codec key (make_cursor codec key cursor) cursor
parse_cursor-IsSigned_example =
    parse_cursor-IsSigned codec key (make_cursor codec key cursor) cursor
      parse_cursor-make_cursor_example

abbrev operation : Bytes → Operation
operation id = record { id = id; description = codes "d"; provider = codes "p"; target = id }

abbrev note : Artifact
note = record {
  ref = codes "artifact:v1:n";
  kind = context;
  id = codes "note";
  path = codes "note.md";
  media_type = codes "text/plain";
  bytes = 1;
  sha256 = [];
}

abbrev two_operations : Record
two_operations = record {
  metadata = record {
    id = codes "every.echo";
    name = codes "Echo";
    version = codes "1.0.0";
    description = codes "d";
    tags = [];
  };
  parent = codes "every";
  manifest_digest = [];
  skills = [];
  operations = operation (codes "a") ∷ operation (codes "b") ∷ [];
  context = note ∷ [];
  providers = [];
  artifacts = [];
  snapshot = none;
}

abbrev projection : Projection
projection =
    add_sections two_operations (describe_operations ∷ describe_references ∷ [])
      (no_sections two_operations (describe_operations ∷ describe_references ∷ []))

page_projection-items_example :
    response_items (page_projection projection 1 2 [])
    ≡ take 2 (drop 1 (projection_items projection))
page_projection-items_example = page_projection-items projection 1 2 []

bounded_page-total_example :
    (response : DescribeResponse) × (n : ℕ) × (bounded_page codec key projection 0 2 (codes "id")
      ≡ ok (response, n))
bounded_page-total_example =
    bounded_page-total codec key projection 0 2 (codes "id")
      (unfold add_sections add_section bytes_eq skill_references sort_slice sort_insert in
        omega arith)
      (omega arith)
      (unfold page_of page_projection copy_section fits_response add_sections add_section bytes_eq
          skill_references sort_slice sort_insert in
        refl)

abbrev store : ProjectionStore
store = record {
  limits = default_projection_limits;
  key = key;
  closed = false;
  entries = [];
  bytes = 0;
}

abbrev draws : List (Option Bytes)
draws = some (codes "id") ∷ []

-- The first page has two of the three items, and a cursor.
abbrev opened : Result DescribeError DescribeResponse × ProjectionStore
opened = first_page codec 1 draws projection 2 store

abbrev first_response : DescribeResponse
first_response = elim opened.0 [
  | ok response ↦ response
  | err e ↦ page_projection projection 0 0 []
]

abbrev continued : Result DescribeError DescribeResponse × ProjectionStore
continued = cursor_page codec 2 first_response.next_cursor 2 opened.1

abbrev second_response : DescribeResponse
second_response = elim continued.0 [
  | ok response ↦ response
  | err e ↦ page_projection projection 0 0 []
]

abbrev both : List Item
both = response_items first_response ++ response_items second_response

first_answer : first_page codec 1 draws projection 2 store ≡ (ok first_response, opened.1)
unfolding first_page add_sections bytes_eq sort_insert gt64 new_unique_id_in lookup
first_answer = refl

two_items : length (response_items first_response) ≡ 2
unfolding first_page add_sections bytes_eq sort_insert gt64 new_unique_id_in lookup
two_items = refl

second_answer :
    cursor_page codec 2 first_response.next_cursor 2 opened.1 ≡ (ok second_response, continued.1)
unfolding first_page add_sections bytes_eq sort_insert gt64 new_unique_id_in lookup cursor_page
    insert
second_answer = refl

nothing_more : second_response.next_cursor ≡ []
unfolding first_page add_sections bytes_eq sort_insert gt64 new_unique_id_in lookup cursor_page
    insert
nothing_more = refl

read_twice : Pages codec opened.1 first_response both
read_twice =
    more {response = first_response} {following = second_response} 2 2 second_answer
      (last nothing_more)

Pages-items_example : both ≡ projection_items projection
Pages-items_example =
    Pages-items codec (λ b. ap some (unshift-shift b)) shift_plain (λ c text. refl) 1 draws
      projection 2 store opened.1 first_response both (unfold valid_utf8 in (refl, tt)) first_answer
      read_twice

abbrev describer : Describer
describer = record {
  registry = record empty_registry {
    generations =
        record { id = 1; package_record = two_operations; refs = 1; retired = false } ∷ [];
    entries = (codes "every.echo", 0) ∷ [];
    next = 1;
  };
  store = store;
}

abbrev request : DescribeRequest
request = record {
  capability_id = codes "every.echo";
  include = describe_operations ∷ [];
  limit = 1;
  cursor = [];
}

describe-IsAccounted_example :
    IsAccounted (describe codec 1 (some (codes "id") ∷ []) request describer).1.store
describe-IsAccounted_example =
    describe-IsAccounted codec 1 (some (codes "id") ∷ []) request describer
      (record { max = omega arith }) (λ p. omega arith)
      (record { unique = tt; sum = refl; count_fits = omega arith; bytes_fit = omega arith })
