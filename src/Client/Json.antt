-- ===== src/Client/Json.antt =====
-- internal/client/json_validation.go: the scan of a JSON value before it is decoded. A decoder is what
-- `json.Decoder.Token` gives call after call, up to its error; `More` looks at what comes next, so the
-- end of a stream tells what it finds there. Each call takes one unit of fuel, and two calls in a row read
-- a token.
pub mod Trees
pub mod Bounds
pub mod Fuel
use tappet.Capability.Hierarchy.{member}
use tappet.Prelude.{
  ℕ, zero, suc, ◌+◌, Bool, true, false, not, List, [], ◌∷◌, ltb, if◌then◌else◌, Bytes, bytes_key,
  Result, ok, err, ◌>>=◌, ◌>>◌, fail_if,
}

pub data Token : Type 0 where
  open_object close_object open_array close_array scalar : Token
  text : Bytes → Token

pub data DecodeError : Type 0 where
  end_of_file malformed : DecodeError

pub data Stream : Type 0 where
  token : Token → Stream → Stream
  ends : Bool → DecodeError → Stream

pub data JsonError : Type 0 where
  depth_exceeded nodes_exceeded duplicate_member name_not_text unexpected_delimiter : JsonError
  mismatched_delimiter multiple_values out_of_fuel : JsonError
  decode_failed : DecodeError → JsonError

-- `Decoder.Token`
abbrev pub next_token : Stream → Result JsonError (Token × Stream)
next_token (token t s) = ok (t, s)
next_token (ends more e) = err (decode_failed e)

-- `Decoder.More`
abbrev pub has_more : Stream → Bool
has_more (token close_object s) = false
has_more (token close_array s) = false
has_more (token open_object s) = true
has_more (token open_array s) = true
has_more (token scalar s) = true
has_more (token (text name) s) = true
has_more (ends more e) = more

abbrev pub is_delimiter : Token → Bool
is_delimiter scalar = false
is_delimiter (text name) = false
is_delimiter open_object = true
is_delimiter close_object = true
is_delimiter open_array = true
is_delimiter close_array = true

abbrev pub member_name : Token → Result JsonError Bytes
member_name (text name) = ok name
member_name scalar = err name_not_text
member_name open_object = err name_not_text
member_name close_object = err name_not_text
member_name open_array = err name_not_text
member_name close_array = err name_not_text

-- Whether the second token closes the first.
abbrev pub closes : Token → Token → Bool
closes open_object close_object = true
closes open_array close_array = true
closes _ _ = false

abbrev pub stream_length : Stream → ℕ
stream_length (token t s) = suc (stream_length s)
stream_length (ends more e) = 0

abbrev pub max_provider_json_depth : ℕ
max_provider_json_depth = 128

abbrev pub max_provider_json_nodes : ℕ
max_provider_json_nodes = 1048576

module _ (max_depth max_nodes : ℕ) where
  -- `addNode`, of the nodes so far.
  unfoldable pub add_node : ℕ → Result JsonError ℕ
  add_node nodes = if ltb max_nodes (nodes + 1) then err nodes_exceeded else ok (nodes + 1)

  -- `scanJSONValue` with its two loops: over the members of an object, with the names met so far, and
  -- over the elements of an array.
  unfoldable mutual
    pub scan_value : ℕ → ℕ → ℕ → Stream → Result JsonError (ℕ × Stream)
    scan_value zero nodes depth s = err out_of_fuel
    scan_value (suc fuel) nodes depth s = do
      read ← next_token s
      elim (is_delimiter read.0) [
        | false ↦ add_node nodes >>= λ counted. ok (counted, read.1)
        | true ↦ do
          fail_if (ltb max_depth depth) depth_exceeded
          counted ← add_node nodes
          inside ← elim read.0 [
            | open_object ↦ scan_members fuel counted depth [] read.1
            | open_array ↦ scan_elements fuel counted depth read.1
            | close_object ↦ err unexpected_delimiter
            | close_array ↦ err unexpected_delimiter
            | scalar ↦ err unexpected_delimiter
            | text _ ↦ err unexpected_delimiter
          ]
          closing ← next_token inside.1
          fail_if (not (closes read.0 closing.0)) mismatched_delimiter
          ok (inside.0, closing.1)
      ]

    pub scan_members : ℕ → ℕ → ℕ → List Bytes → Stream → Result JsonError (ℕ × Stream)
    scan_members zero nodes depth seen s = err out_of_fuel
    scan_members (suc fuel) nodes depth seen s = elim (has_more s) [
      | false ↦ ok (nodes, s)
      | true ↦ do
        key ← next_token s
        name ← member_name key.0
        counted ← add_node nodes
        fail_if (member name seen) duplicate_member
        value ← scan_value fuel counted (suc depth) key.1
        scan_members fuel value.0 depth (name ∷ seen) value.1
    ]

    pub scan_elements : ℕ → ℕ → ℕ → Stream → Result JsonError (ℕ × Stream)
    scan_elements zero nodes depth s = err out_of_fuel
    scan_elements (suc fuel) nodes depth s = elim (has_more s) [
      | false ↦ ok (nodes, s)
      | true ↦ do
        value ← scan_value fuel nodes (suc depth) s
        scan_elements fuel value.0 depth value.1
    ]

  -- What has to come behind the value: the end of the text.
  abbrev pub at_end : Stream → Result JsonError (Unit {0})
  at_end (token t s) = err multiple_values
  at_end (ends more end_of_file) = ok tt
  at_end (ends more malformed) = err (decode_failed malformed)

  -- `rejectJSONMembersWithLimits`
  unfoldable pub reject_json_members : Stream → Result JsonError (Unit {0})
  reject_json_members s = do
    read ← scan_value (suc (stream_length s + stream_length s)) 0 1 s
    at_end read.1

-- `RejectDuplicateJSONMembers`
unfoldable pub reject_duplicate_json_members : Stream → Result JsonError (Unit {0})
reject_duplicate_json_members = reject_json_members max_provider_json_depth max_provider_json_nodes
