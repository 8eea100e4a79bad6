-- ===== src/Tests/CatalogTests.antt =====
-- internal/capability/catalog.go on a root with two children, one page for each.
use tappet.Capability.Hierarchy.{empty_node}
use tappet.Capability.Registry.{Registry, empty_registry}
use tappet.Capability.Browse.{HierarchyEntry, HierarchyView, browse_locked}
use tappet.Capability.Search.{Unicode}
use tappet.Capability.Search.Ranking.{at_root, search_and_browse}
use tappet.Capability.Catalog.{
  CatalogSearchRequest, CatalogSearchResponse, CatalogCursor, CatalogCodec, make_cursor,
  parse_cursor, parse_parts, cursor_start, page_of, search,
}
use tappet.Capability.Catalog.Walks.{Walk, last, more, Walk-children}
use tappet.Tests.Encoders.{shift, unshift, unshift-shift, shift_plain}
use tappet.Prelude.{
  ◌≡◌, refl, ap, false, Option, none, some, [], ◌∷◌, arith, length, Bytes, bytes_eq, bytes_key,
  lookup, codes, ok,
}

-- Text without case or words.
abbrev plain_text : Unicode
plain_text = record {
  nfc = λ s. s;
  fold = λ s. s;
  is_space = λ c. false;
  is_letter = λ c. false;
  is_number = λ c. false;
  is_upper = λ c. false;
  is_lower = λ c. false;
}

abbrev unmarshal_cursor : Bytes → Option CatalogCursor
unmarshal_cursor (r ∷ o ∷ path) = some (record { path = path; revision = r; offset = o })
unmarshal_cursor _ = none

abbrev codec : CatalogCodec
codec = record {
  marshal = λ r. r.path;
  marshal_cursor = λ c. c.revision ∷ c.offset ∷ c.path;
  unmarshal_cursor = unmarshal_cursor;
  encode = shift;
  decode = λ b. some (unshift b);
  hmac = λ k b. length b ∷ k;
}

abbrev key : Bytes
key = codes "key"

abbrev two_children : Registry
two_children = record empty_registry {
  nodes = ([], record empty_node { children = codes "every" ∷ codes "other" ∷ [] }) ∷ [];
  revision = 4;
}

abbrev child : Bytes → HierarchyEntry
child path = record { path = path; capability_id = []; name = []; description = []; operations = 0 }

abbrev request : Bytes → CatalogSearchRequest
request token = record {
  query = [];
  path = codes "/";
  limit = 1;
  child_limit = 1;
  child_cursor = token;
}

abbrev page : Bytes → Bytes → CatalogSearchResponse
page path next = record {
  ranking_version = codes "lexical-v1";
  results = [];
  path = [];
  children = child path ∷ [];
  total_children = 2;
  next_child_cursor = next;
}

abbrev token : Bytes
token = make_cursor codec key (record { path = []; revision = 4; offset = 1 })

first_page : search codec plain_text key (request []) two_children ≡ ok (page (codes "every") token)
unfolding search cursor_start search_and_browse lookup page_of
first_page = refl

second_page :
    search codec plain_text key (request token) two_children ≡ ok (page (codes "other") [])
unfolding search cursor_start make_cursor parse_cursor parse_parts bytes_eq search_and_browse lookup
    page_of
second_page = refl

both_pages :
    Walk codec
      (λ b. ap some (unshift-shift b))
      shift_plain
      (λ c text. refl)
      plain_text
      key
      two_children
      (codes "/")
      []
      (child (codes "every") ∷ child (codes "other") ∷ [])
unfolding make_cursor
both_pages = more [] 1 1 _ _ first_page refl (last [] 1 1 _ second_page (omega arith) refl)

Walk-children_example :
    (view : HierarchyView) × (browse_locked (at_root (codes "/")) two_children ≡ some view)
    × (child (codes "every") ∷ child (codes "other") ∷ [] ≡ view.children)
Walk-children_example =
    Walk-children codec (λ b. ap some (unshift-shift b)) shift_plain (λ c text. refl) plain_text key
      two_children (codes "/") (child (codes "every") ∷ child (codes "other") ∷ []) both_pages
