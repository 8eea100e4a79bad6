-- ===== src/Capability/Search.antt =====
-- internal/capability/search.go: the text of a query and of the fields it is matched with. The Unicode
-- tables, NFC and case folding are parameters: any functions. A token set is a list without repetitions.
-- The strings are valid UTF-8, which the code checks of a query and the manifest reader of a field.
pub mod Matching
pub mod Ranking
pub mod Scores
pub mod Order
pub mod Top
use tappet.Capability.Hierarchy.{member}
use tappet.Capability.Identifiers.{valid_utf8, utf8_lead}
use tappet.Prelude.{
  ℕ, zero, suc, ◌+◌, ◌-◌, ◌*◌, ◌/◌, ◌%◌, Bool, true, false, ◌&&◌, ◌||◌, not, Option, none, some,
  List, [], ◌∷◌, ◌++◌, ◌==◌, ltb, leb, if◌then◌else◌, length, take, drop, Bytes, codes, bytes_eq,
  is_empty, Result, ok, err,
}

pub record Unicode : Type 0 where
  pub nfc : Bytes → Bytes
  pub fold : Bytes → Bytes
  pub is_space : ℕ → Bool
  pub is_letter : ℕ → Bool
  pub is_number : ℕ → Bool
  pub is_upper : ℕ → Bool
  pub is_lower : ℕ → Bool

pub data SearchError : Type 0 where
  search_query_invalid search_query_limit search_path_invalid search_path_limit : SearchError
  search_limit_invalid registry_closed hierarchy_path_not_found catalog_cursor_stale : SearchError

-- `normalizedSearchText`
pub record NormalizedSearchText : Type 0 where
  pub exact : Bytes
  pub tokens : List Bytes
  pub token_set : List Bytes
  pub token_bytes : ℕ
  pub qualified_identifier : Bool

abbrev pub search_query_max_bytes : ℕ
search_query_max_bytes = 4096

-- `[]rune(s)` on valid UTF-8: the rune of each lead byte, with its continuation bytes added.
abbrev lead_bits : ℕ → ℕ → ℕ
lead_bits zero c = c
lead_bits (suc zero) c = c - 192
lead_bits (suc (suc zero)) c = c - 224
lead_bits (suc (suc (suc _))) c = c - 240

unfoldable pub runes_from : ℕ → ℕ → Bytes → List ℕ
unfolding utf8_lead
runes_from n rune [] = []
runes_from zero rune (c ∷ s) = elim (utf8_lead c) [
  | none ↦ runes_from 0 0 s
  | some (zero, _, _) ↦ c ∷ runes_from 0 0 s
  | some (suc n, _, _) ↦ runes_from (suc n) (lead_bits (suc n) c) s
]
runes_from (suc zero) rune (c ∷ s) = (rune * 64 + (c - 128)) ∷ runes_from 0 0 s
runes_from (suc (suc n)) rune (c ∷ s) = runes_from (suc n) (rune * 64 + (c - 128)) s

-- `string(runes)`
unfoldable pub encode_rune : ℕ → Bytes
encode_rune r =
    if ltb r 128
    then r ∷ []
    else if ltb r 2048
    then (192 + r / 64) ∷ (128 + r % 64) ∷ []
    else if ltb r 65536
    then (224 + r / 4096) ∷ (128 + r / 64 % 64) ∷ (128 + r % 64) ∷ []
    else (240 + r / 262144) ∷ (128 + r / 4096 % 64) ∷ (128 + r / 64 % 64) ∷ (128 + r % 64) ∷ []

unfoldable pub encode_runes : List ℕ → Bytes
unfolding encode_rune
encode_runes [] = []
encode_runes (r ∷ rs) = encode_rune r ++ encode_runes rs

unfoldable pub trim_start : (ℕ → Bool) → List ℕ → List ℕ
trim_start p [] = []
trim_start p (r ∷ rs) = let rest = trim_start p rs in if p r then rest else r ∷ rs

unfoldable pub trim_end : (ℕ → Bool) → List ℕ → List ℕ
trim_end p [] = []
trim_end p (r ∷ rs) = let rest = trim_end p rs in if p r && is_empty rest then [] else r ∷ rest

-- `strings.TrimFunc`
unfoldable pub trim_func : (ℕ → Bool) → Bytes → Bytes
unfolding trim_start trim_end runes_from encode_runes
trim_func p s = encode_runes (trim_end p (trim_start p (runes_from 0 0 s)))

-- Three runes backwards and three forwards spell a product (`preserveGitProductBoundary`).
unfoldable pub preserve_git_product_boundary : List ℕ → List ℕ → Bool
unfolding bytes_eq
preserve_git_product_boundary (c ∷ b ∷ a ∷ _) (d ∷ e ∷ f ∷ _) =
    let product = a ∷ b ∷ c ∷ d ∷ e ∷ f ∷ [] in
    bytes_eq product (codes "GitHub") || bytes_eq product (codes "GitLab")
preserve_git_product_boundary _ _ = false

unfoldable pub sum_lengths : List Bytes → ℕ
sum_lengths [] = 0
sum_lengths (t ∷ ts) = length t + sum_lengths ts

unfoldable pub distinct : List Bytes → List Bytes
unfolding member
distinct [] = []
distinct (t ∷ ts) = let rest = distinct ts in if member t rest then rest else t ∷ rest

module _ (unicode : Unicode) where
  open unicode use {nfc, fold, is_space, is_letter, is_number, is_upper, is_lower}

  -- `normalizeExact`
  unfoldable pub normalize_exact : Bytes → Bytes
  unfolding trim_func
  normalize_exact s = nfc (fold (trim_func is_space (nfc s)))

  abbrev next_is_lower : List ℕ → Bool
  next_is_lower [] = false
  next_is_lower (r ∷ _) = is_lower r

  -- `camelBoundary`, and not within a product.
  unfoldable pub splits_before : List ℕ → ℕ → List ℕ → Bool
  unfolding preserve_git_product_boundary
  splits_before [] current rest = false
  splits_before (previous ∷ before) current rest =
      (is_upper current && (is_lower previous || (is_upper previous && next_is_lower rest)))
      && not (preserve_git_product_boundary (previous ∷ before) (current ∷ rest))

  -- `flush`: the normalized token, unless it is empty.
  unfoldable pub flush : Option (List ℕ) → List Bytes → List Bytes
  unfolding normalize_exact
  flush none tokens = tokens
  flush (some runes) tokens =
      let token = normalize_exact (encode_runes runes) in
      if is_empty token then tokens else token ∷ tokens

  -- What a rune does to the token that is being read: the one that ends, and the one that goes on.
  unfoldable pub turn : List ℕ → Option (List ℕ) → ℕ → List ℕ → Option (List ℕ) × Option (List ℕ)
  unfolding splits_before
  turn before started current rest =
      if not (is_letter current) && not (is_number current) then (started, none) else elim started [
        | none ↦ (none, some (current ∷ []))
        | some runes ↦
            if splits_before before current rest
            then (some runes, some (current ∷ []))
            else (none, some (runes ++ current ∷ []))
      ]

  -- The loop of `tokenizeSearchText`; `before` holds the runes that are read, the last one first.
  unfoldable pub tokens_from : List ℕ → Option (List ℕ) → List ℕ → List Bytes
  unfolding flush turn
  tokens_from before started [] = flush started []
  tokens_from before started (current ∷ rest) =
      let (ended, started') = turn before started current rest in
      flush ended (tokens_from (current ∷ before) started' rest)

  -- `normalizeSearchText`
  unfoldable pub normalize_search_text : Bytes → NormalizedSearchText
  unfolding tokens_from sum_lengths distinct normalize_exact
  normalize_search_text value =
      let text = trim_func is_space (nfc value) in
      let tokens = tokens_from [] none (runes_from 0 0 text) in
      record {
        exact = normalize_exact text;
        tokens = tokens;
        token_set = distinct tokens;
        token_bytes =
            if ltb 1 (length tokens)
            then sum_lengths tokens + (length tokens - 1)
            else sum_lengths tokens;
        qualified_identifier = false;
      }

  -- `normalizeSearchQuery`
  unfoldable pub normalize_search_query : Bytes → Result SearchError NormalizedSearchText
  unfolding normalize_search_text valid_utf8
  normalize_search_query value =
      if not (valid_utf8 value)
      then err search_query_invalid
      else let normalized = normalize_search_text value in
        if ltb search_query_max_bytes (length normalized.exact)
          || ltb search_query_max_bytes normalized.token_bytes
        then err search_query_limit
        else ok normalized
