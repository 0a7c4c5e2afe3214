-- ===== src/Semblend/Answer.antt =====
-- What the provider answers to a lookup, and what it remembers of a miss.
use semblend_vllm_connector.Prelude.{
  ℕ, zero, suc, ◌<◌, ◌≡◌, ◌≢◌, ◌⊎◌, refl, inl, inr, String, true, false, not, ◌&&◌, Option, none,
  some, List, [], ◌∷◌, arith, length, length-append, Ratio, ltb, str_eq, eq_iff, Keeps-if_eq,
}
use semblend_vllm_connector.Types.{
  MaterializationKind, SemanticSegment, SemanticLookupRequest, SemanticLookupResult,
}
use semblend_vllm_connector.Semblend.Lookup.{
  PipelineResult, Pipeline, MissDiagnostics, measured, bare_reason, miss_diagnostics, segments_of,
  covered, is_hit, answer, pipeline_lookup,
}
use semblend_vllm_connector.Semblend.Runs.{stretch, pairs_of, pairs_of_all}

-- A figure is there only where it is above 0.
abbrev pub IsMeasured : Option Ratio → Type 0
IsMeasured none = Unit
IsMeasured (some r) = 0 < r.num

-- A reason carries no message of the pipeline's own errors.
abbrev pub IsBare : Pipeline → Option String → Type 0
IsBare pipeline none = Unit
IsBare pipeline (some reason) =
    (reason ≡ "pipeline_error")
    ⊎ (reason ≡ "no_result")
    ⊎ (pipeline.is_pipeline_error reason ≡ false)

abbrev pub IsDiagnosis : Pipeline → MissDiagnostics → Type 0
IsDiagnosis pipeline d =
    IsBare pipeline d.rejection_reason × IsMeasured d.best_similarity × IsMeasured d.reuse_ratio

abbrev pub IsAnswer :
    Pipeline → Option PipelineResult → Option SemanticLookupResult × Option MissDiagnostics → Type 0
IsAnswer pipeline found (some hit, some d) = ⊥
IsAnswer pipeline found (none, none) = ⊥
IsAnswer pipeline found (none, some d) = (is_hit found ≡ false) × IsDiagnosis pipeline d
IsAnswer pipeline found (some hit, none) =
    (result : PipelineResult) × (found ≡ some result)
    × (result.found ≡ true)
    × (result.donor_id ≢ "")
    × (hit.donor_id ≡ result.donor_id)
    × (hit.materialization_kind ≡ MaterializationKind.discovery_only)
    × (hit.reusable_token_count ≡ length (pairs_of_all hit.segments))

length-stretch : (id : String) (d t n : ℕ) → length (stretch id d t n) ≡ n
length-stretch id d t zero = refl
length-stretch id d t (suc n) = omega (arith, length-stretch id (suc d) (suc t) n)

covered-eq : (segments : List SemanticSegment) → covered segments ≡ length (pairs_of_all segments)
covered-eq [] = refl
covered-eq (seg ∷ rest) =
    let here = length-stretch seg.donor_id seg.donor_start seg.target_start seg.token_count in
    omega (arith, length-append (pairs_of seg) (pairs_of_all rest), here, covered-eq rest)

measured-IsMeasured : (r : Ratio) → IsMeasured (measured r)
measured-IsMeasured r =
    Keeps-if_eq IsMeasured (ltb 0 r.num) _ _ (λ above. ground (arith, above)) (λ none_above. tt)

bare_reason-IsBare :
    (pipeline : Pipeline) (reason : Option String) → IsBare pipeline (bare_reason pipeline reason)
unfolding bare_reason
bare_reason-IsBare pipeline none = tt
bare_reason-IsBare pipeline (some reason) =
    Keeps-if_eq (IsBare pipeline) (str_eq reason "") _ _ (λ empty. tt)
      (λ named.
        Keeps-if_eq (IsBare pipeline) (pipeline.is_pipeline_error reason) _ _ (λ error. inl refl)
          (λ fine. inr (inr fine)))

miss_diagnostics-IsDiagnosis :
    (pipeline : Pipeline) (namespace : String) (found : Option PipelineResult)
    → IsDiagnosis pipeline (miss_diagnostics pipeline namespace found)
unfolding miss_diagnostics
miss_diagnostics-IsDiagnosis pipeline namespace none = (inr (inl refl), tt, tt)
miss_diagnostics-IsDiagnosis pipeline namespace (some result) = (
  bare_reason-IsBare pipeline result.rejection_reason,
  measured-IsMeasured result.similarity,
  measured-IsMeasured result.reuse_ratio,
)

answer-IsAnswer :
    (pipeline : Pipeline) (request : SemanticLookupRequest) (found : Option PipelineResult)
    → IsAnswer pipeline found (answer pipeline request found)
unfolding answer
answer-IsAnswer pipeline request none =
    (refl, miss_diagnostics-IsDiagnosis pipeline request.namespace none)
answer-IsAnswer pipeline request (some result) =
    Keeps-if_eq (IsAnswer pipeline (some result)) (result.found && not (str_eq result.donor_id ""))
      _ _
      (λ yes. (
        result,
        refl,
        ground (arith, yes),
        (λ empty. ground (arith, yes, (eq_iff result.donor_id "").1 empty)),
        refl,
        refl,
        covered-eq (segments_of pipeline request result),
      ))
      (λ no. (no, miss_diagnostics-IsDiagnosis pipeline request.namespace (some result)))

-- A lookup answers with a hit and no diagnostics, or with none and diagnostics. A hit is the pipeline's
-- own find, named, offered for discovery only, with the number of the aligned tokens that its segments
-- stand for as its reusable tokens. The diagnostics of a miss report a figure only where it is above 0
-- and no text of an error of the pipeline.
pub pipeline_lookup-IsAnswer :
    (pipeline : Pipeline) (lookup_top_k : ℕ) (request : SemanticLookupRequest)
    → IsAnswer pipeline
        (pipeline.find_donor request lookup_top_k)
        (pipeline_lookup pipeline lookup_top_k request)
unfolding pipeline_lookup
pipeline_lookup-IsAnswer pipeline lookup_top_k request =
    answer-IsAnswer pipeline request (pipeline.find_donor request lookup_top_k)
