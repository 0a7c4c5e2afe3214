-- ===== src/Semblend/Lookup.antt =====
-- providers/semblend.py: `lookup`, what it remembers of a miss, and what is passed on to the pipeline.
use semblend_vllm_connector.Prelude.{
  ℕ, ◌+◌, String, Bool, false, not, ◌&&◌, Option, none, some, List, [], ◌∷◌, Ratio, ltb,
  if◌then◌else◌, length, str_eq,
}
use semblend_vllm_connector.Types.{
  MaterializationKind, SemanticSegment, SemanticLookupRequest, SemanticLookupResult,
  DonorRegistration,
}
use semblend_vllm_connector.Semblend.{
  Composite, segments_from_position_map, segments_from_multi_donor_map,
}

-- What the pipeline answers to a lookup.
pub record PipelineResult : Type 0 where
  pub found : Bool
  pub donor_id : String
  pub similarity : Ratio
  pub reuse_ratio : Ratio
  pub donor_tokens : List ℕ
  pub rejection_reason : Option String
  pub position_map : Option (List ℕ × List ℕ)
  pub multi_donor_position_map : Option Composite

-- What the provider asks of the pipeline and its store. `visible_donors` is none where the store cannot
-- count by namespace or fails to, `size` where it has no number; `is_pipeline_error` is
-- `reason.startswith("pipeline_error")`.
pub record Pipeline : Type 0 where
  pub find_donor : SemanticLookupRequest → ℕ → Option PipelineResult
  pub get_donor_tokens : Option (String → List ℕ)
  pub has_store : Bool
  pub visible_donors : String → Option ℕ
  pub size : Option ℕ
  pub span_run_possible : Option (List ℕ → String → ℕ → ℕ → Bool)
  pub is_pipeline_error : String → Bool

pub data CountScope : Type 0 where
  of_namespace of_store no_count : CountScope

unfoldable pub donor_count : Pipeline → String → Option ℕ × CountScope
donor_count pipeline namespace =
    if not pipeline.has_store
    then (none, CountScope.no_count)
    else (elim (pipeline.visible_donors namespace) [
      | some n ↦ (some n, CountScope.of_namespace)
      | none ↦ elim pipeline.size [
        | some n ↦ (some n, CountScope.of_store)
        | none ↦ (none, CountScope.no_count)
      ]
    ])

unfoldable pub bare_reason : Pipeline → Option String → Option String
bare_reason pipeline none = none
bare_reason pipeline (some reason) =
    if str_eq reason ""
    then none
    else if pipeline.is_pipeline_error reason
    then some "pipeline_error"
    else some reason

pub record MissDiagnostics : Type 0 where
  pub rejection_reason : Option String
  pub donor_count : Option ℕ
  pub donor_count_scope : CountScope
  pub best_similarity : Option Ratio
  pub reuse_ratio : Option Ratio

-- A figure that is not above 0 was not computed.
abbrev pub measured : Ratio → Option Ratio
measured r = if ltb 0 r.num then some r else none

unfoldable pub miss_diagnostics : Pipeline → String → Option PipelineResult → MissDiagnostics
unfolding donor_count bare_reason
miss_diagnostics pipeline namespace none =
    let (count, scope) = donor_count pipeline namespace in
    record {
      rejection_reason = some "no_result";
      donor_count = count;
      donor_count_scope = scope;
      best_similarity = none;
      reuse_ratio = none;
    }
miss_diagnostics pipeline namespace (some result) =
    let (count, scope) = donor_count pipeline namespace in
    record {
      rejection_reason = bare_reason pipeline result.rejection_reason;
      donor_count = count;
      donor_count_scope = scope;
      best_similarity = measured result.similarity;
      reuse_ratio = measured result.reuse_ratio;
    }

abbrev pub segments_or : List SemanticSegment → List SemanticSegment → List SemanticSegment
segments_or [] other = other
segments_or (segment ∷ rest) other = segment ∷ rest

unfoldable pub segments_of :
    Pipeline → SemanticLookupRequest → PipelineResult → List SemanticSegment
unfolding segments_from_multi_donor_map segments_from_position_map
segments_of pipeline request result =
    segments_or
      (segments_from_multi_donor_map result.multi_donor_position_map pipeline.get_donor_tokens
        request.token_ids)
      (segments_from_position_map result.donor_id result.position_map)

-- `sum(seg.token_count for seg in segments)`
abbrev pub covered : List SemanticSegment → ℕ
covered [] = 0
covered (segment ∷ rest) = segment.token_count + covered rest

-- The result of a hit.
abbrev pub discovery : PipelineResult → List SemanticSegment → SemanticLookupResult
discovery result segments = record {
  donor_id = result.donor_id;
  similarity = result.similarity;
  reusable_token_count = covered segments;
  materialization_kind = MaterializationKind.discovery_only;
  donor_token_ids = result.donor_tokens;
  block_refs = [];
  segments = segments;
  reason = some "semblend_discovery";
}

abbrev pub is_hit : Option PipelineResult → Bool
is_hit none = false
is_hit (some result) = result.found && not (str_eq result.donor_id "")

unfoldable pub answer :
    Pipeline
    → SemanticLookupRequest
    → Option PipelineResult
    → Option SemanticLookupResult × Option MissDiagnostics
unfolding miss_diagnostics segments_of
answer pipeline request none = (none, some (miss_diagnostics pipeline request.namespace none))
answer pipeline request (some result) =
    if is_hit (some result)
    then (some (discovery result (segments_of pipeline request result)), none)
    else (none, some (miss_diagnostics pipeline request.namespace (some result)))

-- `lookup`, with the `_last_miss` that it leaves.
unfoldable pub pipeline_lookup :
    Pipeline → ℕ → SemanticLookupRequest → Option SemanticLookupResult × Option MissDiagnostics
unfolding answer
pipeline_lookup pipeline lookup_top_k request =
    answer pipeline request (pipeline.find_donor request lookup_top_k)

unfoldable pub pipeline_span_run_possible : Pipeline → List ℕ → String → ℕ → ℕ → Option Bool
pipeline_span_run_possible pipeline token_ids namespace start length =
    elim pipeline.span_run_possible [
      | none ↦ none
      | some check ↦ some (check token_ids namespace start length)
    ]

-- The arguments of the pipeline's `register_donor`; the tenant and the template of a donor's metadata
-- are left out. `cache_salt` is none where this pipeline takes no such argument.
pub record Registered : Type 0 where
  pub request_id : String
  pub token_ids : List ℕ
  pub prompt_text : String
  pub extra_key : String
  pub cache_salt : Option (Option String)

-- `takes_salt` says whether the pipeline's signature has the argument.
unfoldable pub pipeline_register_donor : Bool → DonorRegistration → Option Registered
pipeline_register_donor takes_salt donor =
    if not donor.has_captured_kv
    then none
    else some (record {
      request_id = donor.donor_id;
      token_ids = donor.token_ids;
      prompt_text = elim donor.prompt_text [ none ↦ "" | some text ↦ text ];
      extra_key = donor.namespace;
      cache_salt = if takes_salt then some donor.cache_salt else none;
    })
