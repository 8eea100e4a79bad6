-- ===== src/Capability/Search/Matching.antt =====
-- `matchCapability` of internal/capability/search.go, and the scores.
use tappet.Capability.Types.{Record, Operation, Skill}
use tappet.Capability.Hierarchy.{member}
use tappet.Capability.Search.{
  Unicode, NormalizedSearchText, normalize_exact, normalize_search_text, sum_lengths,
}
use tappet.Prelude.{
  ℕ, ◌+◌, ◌*◌, ◌/◌, Bool, false, ◌||◌, Option, none, some, List, [], ◌∷◌, ◌++◌, map, ltb,
  if◌then◌else◌, length, Bytes, codes, bytes_eq, ◌==◌,
}

abbrev pub search_exact_score : ℕ
search_exact_score = 1000000

abbrev pub search_minimum_score : ℕ
search_minimum_score = 375000

abbrev pub search_query_weight : ℕ
search_query_weight = 500000

abbrev pub search_field_weight : ℕ
search_field_weight = 250000

abbrev pub search_evidence_per_byte : ℕ
search_evidence_per_byte = 25000

abbrev pub search_evidence_maximum : ℕ
search_evidence_maximum = 250000

-- `searchMatch`
pub record SearchMatch : Type 0 where
  pub tier : ℕ
  pub score : ℕ
  pub kind : Bytes
  pub matched_field : Bytes
  pub reason : Bytes

pub record SearchField : Type 0 where
  pub name : Bytes
  pub value : Bytes

abbrev pub field_of : Bytes → Bytes → SearchField
field_of name value = record { name = name; value = value }

-- `searchReason`
unfoldable pub search_reason : Bytes → Bytes
search_reason kind =
    if bytes_eq kind (codes "exact_capability_id")
    then codes "exact capability ID"
    else if bytes_eq kind (codes "exact_operation_id")
    then codes "exact operation ID"
    else if bytes_eq kind (codes "exact_capability_name")
    then codes "exact capability name"
    else if bytes_eq kind (codes "exact_tag")
    then codes "exact tag"
    else if bytes_eq kind (codes "exact_local_operation_id")
    then codes "exact local operation ID"
    else if bytes_eq kind (codes "exact_skill_name")
    then codes "exact skill name"
    else if bytes_eq kind (codes "lexical_capability")
    then codes "capability metadata overlap"
    else if bytes_eq kind (codes "lexical_operation")
    then codes "operation description overlap"
    else if bytes_eq kind (codes "lexical_skill")
    then codes "skill metadata overlap"
    else []

-- The bytes of the query's tokens that the field has.
unfoldable pub overlap_bytes : List Bytes → List Bytes → ℕ
unfolding member
overlap_bytes [] field = 0
overlap_bytes (t ∷ ts) field = (if member t field then length t else 0) + overlap_bytes ts field

-- `lexicalSearchScore`
unfoldable pub lexical_search_score : List Bytes → List Bytes → ℕ
unfolding overlap_bytes sum_lengths
lexical_search_score query field =
    if length query == 0 || length field == 0
    then 0
    else let overlap = overlap_bytes query field in
      if overlap == 0
      then 0
      else search_query_weight * overlap / sum_lengths query
        + search_field_weight * overlap / sum_lengths field
        + (if ltb search_evidence_maximum (overlap * search_evidence_per_byte)
            then search_evidence_maximum
            else overlap * search_evidence_per_byte)

-- `exactSearchMatch`
unfoldable pub exact_search_match : ℕ → Bytes → Bytes → SearchMatch
unfolding search_reason
exact_search_match tier kind field = record {
  tier = tier;
  score = search_exact_score;
  kind = kind;
  matched_field = field;
  reason = search_reason kind;
}

abbrev pub operation_ids : Record → List Bytes
operation_ids r = map (λ (o : Operation). r.metadata.id ++ b'/' ∷ o.id) r.operations

abbrev pub capability_fields : Record → List SearchField
capability_fields r =
    field_of (codes "capability_name") r.metadata.name
    ∷ field_of (codes "capability_description") r.metadata.description
    ∷ []

abbrev pub operation_fields : Record → List SearchField
operation_fields r =
    map (λ (o : Operation). field_of (codes "operation_description") o.description) r.operations

unfoldable pub skill_fields : List Skill → List SearchField
skill_fields [] = []
skill_fields (s ∷ ss) =
    field_of (codes "skill_name") s.metadata.name
    ∷ field_of (codes "skill_description") s.metadata.description
    ∷ skill_fields ss

-- The first of two answers.
abbrev pub or_next : Option SearchMatch → Option SearchMatch → Option SearchMatch
or_next none next = next
or_next (some m) next = some m

module _ (unicode : Unicode) where
  -- The loop of `bestLexicalMatch`: the best score so far, and its field.
  unfoldable pub best_field : NormalizedSearchText → ℕ → Bytes → List SearchField → ℕ × Bytes
  unfolding lexical_search_score normalize_search_text
  best_field query score name [] = (score, name)
  best_field query score name (field ∷ fields) =
      let next =
        lexical_search_score query.token_set
          (normalize_search_text unicode field.value).token_set in
      let better = ltb score next in
      best_field query (if better then next else score) (if better then field.name else name) fields

  -- `bestLexicalMatch`
  unfoldable pub best_lexical_match :
      NormalizedSearchText → ℕ → Bytes → List SearchField → Option SearchMatch
  unfolding best_field search_reason
  best_lexical_match query tier kind fields =
      let (score, name) = best_field query 0 [] fields in
      if ltb score search_minimum_score
      then none
      else some (record {
        tier = tier;
        score = score;
        kind = kind;
        matched_field = name;
        reason = search_reason kind;
      })

  -- Whether one of the strings is the query's exact text, when normalized.
  unfoldable pub any_exact : Bytes → List Bytes → Bool
  unfolding normalize_exact
  any_exact exact [] = false
  any_exact exact (s ∷ ss) = bytes_eq (normalize_exact unicode s) exact || any_exact exact ss

  -- The lexical part of `matchCapability`.
  unfoldable pub lexical_match : NormalizedSearchText → Record → Option SearchMatch
  unfolding best_lexical_match skill_fields
  lexical_match query r =
      or_next (best_lexical_match query 4 (codes "lexical_capability") (capability_fields r)) (
        or_next (best_lexical_match query 5 (codes "lexical_operation") (operation_fields r))
          (best_lexical_match query 5 (codes "lexical_skill") (skill_fields r.skills)))

  -- `matchCapability`
  unfoldable pub match_capability : NormalizedSearchText → Record → Option SearchMatch
  unfolding any_exact lexical_match exact_search_match normalize_exact
  match_capability query r =
      if bytes_eq (normalize_exact unicode r.metadata.id) query.exact
      then some (exact_search_match 1 (codes "exact_capability_id") (codes "capability_id"))
      else if any_exact query.exact (operation_ids r)
      then some (exact_search_match 1 (codes "exact_operation_id") (codes "operation_id"))
      else if query.qualified_identifier
      then none
      else if bytes_eq (normalize_exact unicode r.metadata.name) query.exact
      then some (exact_search_match 2 (codes "exact_capability_name") (codes "capability_name"))
      else if any_exact query.exact r.metadata.tags
      then some (exact_search_match 3 (codes "exact_tag") (codes "tag"))
      else if any_exact query.exact (map (λ (o : Operation). o.id) r.operations)
      then some
          (exact_search_match 3 (codes "exact_local_operation_id") (codes "local_operation_id"))
      else if any_exact query.exact (map (λ (s : Skill). s.metadata.name) r.skills)
      then some (exact_search_match 3 (codes "exact_skill_name") (codes "skill_name"))
      else lexical_match query r
