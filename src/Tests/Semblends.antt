-- ===== src/Tests/Semblends.antt =====
-- The theorems on the adapter of the pipeline at a composite of two donors and a position map.
use semblend_vllm_connector.Prelude.{
  ℕ, ◌≡◌, refl, String, true, false, none, some, List, [], ◌∷◌, ◌++◌, arith, All, if◌then◌else◌,
  str_eq,
}
use semblend_vllm_connector.Types.{LoadPiece, SemanticLookupRequest, SemanticLookupResult}
use semblend_vllm_connector.Scheduler.{Request}
use semblend_vllm_connector.SpanPlan.{multi_donor_pieces}
use semblend_vllm_connector.SpanPlan.Verbatim.{IsVerbatim, multi_donor_pieces-IsVerbatim}
use semblend_vllm_connector.Semblend.Lookup.{Pipeline, PipelineResult, pipeline_lookup}
use semblend_vllm_connector.Semblend.{
  Composite, zip_pairs, zip_composite, segments_from_position_map, segments_from_multi_donor_map,
}
use semblend_vllm_connector.Semblend.Runs.{pairs_of_all, AreMaximal}
use semblend_vllm_connector.Semblend.Mapping.{
  segments_from_position_map-IsExpanded, IsServable, segments_from_multi_donor_map-IsServable,
}
use semblend_vllm_connector.Semblend.Answer.{IsAnswer, pipeline_lookup-IsAnswer}
use semblend_vllm_connector.Tests.Data.{ratio, tokens, engine, request, lookup_hit}

abbrev donors : List ℕ
donors = 3 ∷ 4 ∷ 5 ∷ 9 ∷ 10 ∷ []

abbrev targets : List ℕ
targets = 0 ∷ 1 ∷ 2 ∷ 3 ∷ 4 ∷ []

segments_from_position_map-IsExpanded_example :
    (pairs_of_all (segments_from_position_map "donor" (some (donors, targets)))
      ≡ zip_pairs "donor" donors targets)
    × AreMaximal (segments_from_position_map "donor" (some (donors, targets)))
segments_from_position_map-IsExpanded_example =
    segments_from_position_map-IsExpanded "donor" donors targets refl

-- The first donor has the request's tokens 0 to 5, the other its tokens from 6 on.
abbrev get_tokens : String → List ℕ
get_tokens donor_id =
    if str_eq donor_id "a" then 1 ∷ 2 ∷ 3 ∷ 4 ∷ 5 ∷ 6 ∷ 0 ∷ [] else 7 ∷ 8 ∷ 9 ∷ 10 ∷ 11 ∷ 12 ∷ []

-- The pair at target 6 of the first donor is not identical.
abbrev composite : Composite
composite = record {
  donor_ids = "b" ∷ "b" ∷ "b" ∷ "b" ∷ "a" ∷ "a" ∷ "a" ∷ [];
  donor_positions = 2 ∷ 3 ∷ 4 ∷ 5 ∷ 4 ∷ 5 ∷ 6 ∷ [];
  target_positions = 8 ∷ 9 ∷ 10 ∷ 11 ∷ 4 ∷ 5 ∷ 6 ∷ [];
}

segments_from_multi_donor_map-IsServable_example :
    IsServable get_tokens tokens
      (zip_composite composite.donor_ids composite.donor_positions composite.target_positions)
      (segments_from_multi_donor_map (some composite) (some get_tokens) tokens)
segments_from_multi_donor_map-IsServable_example =
    segments_from_multi_donor_map-IsServable get_tokens tokens composite refl refl

-- A prompt of twenty tokens, of which the first four are computed: the first donor serves the block at
-- 4 to 8, the other one the blocks at 8 to 16.
abbrev long_prompt : List ℕ
long_prompt = tokens ++ 13 ∷ 14 ∷ 15 ∷ 16 ∷ 17 ∷ 18 ∷ 19 ∷ 20 ∷ []

abbrev long_tokens : String → List ℕ
long_tokens donor_id =
    if str_eq donor_id "a"
    then 1 ∷ 2 ∷ 3 ∷ 4 ∷ 5 ∷ 6 ∷ 7 ∷ 8 ∷ 0 ∷ []
    else 7 ∷ 8 ∷ 9 ∷ 10 ∷ 11 ∷ 12 ∷ 13 ∷ 14 ∷ 15 ∷ 16 ∷ []

abbrev long_composite : Composite
long_composite = record {
  donor_ids = "b" ∷ "b" ∷ "b" ∷ "b" ∷ "b" ∷ "b" ∷ "b" ∷ "b" ∷ "a" ∷ "a" ∷ "a" ∷ "a" ∷ "a" ∷ [];
  donor_positions = 2 ∷ 3 ∷ 4 ∷ 5 ∷ 6 ∷ 7 ∷ 8 ∷ 9 ∷ 4 ∷ 5 ∷ 6 ∷ 7 ∷ 8 ∷ [];
  target_positions = 8 ∷ 9 ∷ 10 ∷ 11 ∷ 12 ∷ 13 ∷ 14 ∷ 15 ∷ 4 ∷ 5 ∷ 6 ∷ 7 ∷ 8 ∷ [];
}

abbrev long_request : Request
long_request = record request { token_ids = long_prompt }

abbrev found : SemanticLookupResult
found = record lookup_hit {
  segments = segments_from_multi_donor_map (some long_composite) (some long_tokens) long_prompt;
}

-- The two donors' pieces of that prompt.
abbrev served_pieces : List LoadPiece
served_pieces =
    (record { donor_id = "a"; donor_start = 4; target_start = 4; token_count = 4 })
    ∷ (record { donor_id = "b"; donor_start = 2; target_start = 8; token_count = 8 })
    ∷ []

found_pieces : multi_donor_pieces engine long_request 4 found ≡ served_pieces
unfolding multi_donor_pieces semblend_vllm_connector.Span.trim_pieces
    semblend_vllm_connector.Span.chain_at_boundary semblend_vllm_connector.SpanPlan.captured_runs
    segments_from_multi_donor_map semblend_vllm_connector.Prelude.round_up
    semblend_vllm_connector.Prelude.round_down semblend_vllm_connector.Plan.cacheable_prefix_tokens
found_pieces = refl

multi_donor_pieces-IsVerbatim_example :
    All
      (λ piece.
        IsVerbatim long_tokens long_prompt piece.donor_id piece.donor_start piece.target_start
          piece.token_count)
      (multi_donor_pieces engine long_request 4 found)
multi_donor_pieces-IsVerbatim_example =
    multi_donor_pieces-IsVerbatim long_tokens (some long_composite) engine long_request 4 found
      (omega arith) refl

abbrev lookup_request : SemanticLookupRequest
lookup_request = record {
  request_id = "r1";
  token_ids = tokens;
  prompt_text = none;
  model_id = "model";
  namespace = "space";
  cache_salt = none;
  already_computed_tokens = 0;
}

abbrev pipeline_result : PipelineResult
pipeline_result = record {
  found = true;
  donor_id = "a";
  similarity = ratio 9 10;
  reuse_ratio = ratio 1 2;
  donor_tokens = [];
  rejection_reason = none;
  position_map = none;
  multi_donor_position_map = some composite;
}

abbrev pipeline : Pipeline
pipeline = record {
  find_donor = λ asked top_k. some pipeline_result;
  get_donor_tokens = some get_tokens;
  has_store = true;
  visible_donors = λ namespace. some 2;
  size = some 2;
  span_run_possible = none;
  is_pipeline_error = λ reason. false;
}

pipeline_lookup-IsAnswer_example :
    IsAnswer pipeline (some pipeline_result) (pipeline_lookup pipeline 4 lookup_request)
pipeline_lookup-IsAnswer_example = pipeline_lookup-IsAnswer pipeline 4 lookup_request
