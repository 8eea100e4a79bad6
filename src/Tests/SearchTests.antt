-- ===== src/Tests/SearchTests.antt =====
-- internal/capability/search.go on one package.
use tappet.Capability.Types.{Record}
use tappet.Capability.Hierarchy.{member}
use tappet.Capability.Registry.{RegistryGeneration}
use tappet.Capability.Search.{
  Unicode, NormalizedSearchText, normalize_search_text, normalize_exact, trim_func, trim_start,
  trim_end, runes_from, encode_runes, encode_rune, tokens_from, flush, turn, splits_before,
  distinct, preserve_git_product_boundary,
}
use tappet.Capability.Identifiers.{utf8_lead}
use tappet.Capability.Search.Matching.{match_capability, any_exact, exact_search_match}
use tappet.Capability.Search.Scores.{Distinct, IsRanked, match_capability-IsRanked}
use tappet.Prelude.{
  ◌≡◌, refl, false, ◌&&◌, ◌||◌, none, List, [], ◌∷◌, leb, Bytes, codes, bytes_eq, ◌==◌,
}

-- ASCII stands for Unicode.
abbrev ascii : Unicode
ascii = record {
  nfc = λ s. s;
  fold = λ s. s;
  is_space = λ c. c == 32;
  is_letter = λ c. (leb 65 c && leb c 90) || (leb 97 c && leb c 122);
  is_number = λ c. leb 48 c && leb c 57;
  is_upper = λ c. leb 65 c && leb c 90;
  is_lower = λ c. leb 97 c && leb c 122;
}

abbrev echo_package : Record
echo_package = record {
  metadata = record {
    id = codes "every.echo";
    name = codes "Echo";
    version = codes "1.0.0";
    description = codes "says it back";
    tags = [];
  };
  parent = codes "every";
  manifest_digest = [];
  skills = [];
  operations = [];
  context = [];
  providers = [];
  artifacts = [];
  snapshot = none;
}

abbrev query : NormalizedSearchText
query = normalize_search_text ascii (codes " Echo")

query_tokens : query.token_set ≡ codes "Echo" ∷ []
unfolding normalize_search_text trim_func trim_start trim_end runes_from encode_runes encode_rune
    tokens_from flush turn splits_before distinct utf8_lead normalize_exact member
query_tokens = refl

camel :
    (normalize_search_text ascii (codes "listOpen GitHubIssues")).tokens
    ≡ codes "list" ∷ codes "Open" ∷ codes "GitHub" ∷ codes "Issues" ∷ []
unfolding normalize_search_text trim_func trim_start trim_end runes_from encode_runes encode_rune
    tokens_from flush turn splits_before distinct utf8_lead normalize_exact member
    preserve_git_product_boundary bytes_eq
camel = refl

query_distinct : Distinct query.token_set
query_distinct = rw query_tokens (unfold member in (refl, tt))

match_capability-IsRanked_example :
    IsRanked ascii query query_distinct
      (exact_search_match 2 (codes "exact_capability_name") (codes "capability_name"))
unfolding normalize_search_text trim_func trim_start trim_end runes_from encode_runes encode_rune
    tokens_from flush turn splits_before distinct utf8_lead normalize_exact member match_capability
    any_exact bytes_eq
match_capability-IsRanked_example =
    match_capability-IsRanked ascii query query_distinct echo_package
      (exact_search_match 2 (codes "exact_capability_name") (codes "capability_name")) refl

abbrev installed_two : List (Bytes × RegistryGeneration)
installed_two =
    (
      codes "every.echo",
      record { id = 1; package_record = echo_package; refs = 1; retired = false },
    )
    ∷ (
      codes "every.other",
      record {
        id = 2;
        package_record = record echo_package {
          metadata = record echo_package.metadata {
            id = codes "every.other";
            name = codes "Echos";
          };
        };
        refs = 1;
        retired = false;
      },
    )
    ∷ []
