-- ===== src/SegmentPlan.antt =====
-- connector.py, segmented prefill: the later segments of a running prefill, and how far it may compute
-- before the next one.
pub mod MidPrefill
pub mod Limit
use semblend_vllm_connector.Prelude.{
  ℕ, ◌+◌, ◌-◌, ◌%◌, min, String, Bool, not, ◌&&◌, ◌||◌, Option, none, some, List, [], ◌∷◌, ltb, leb,
  ◌==◌, if◌then◌else◌, get, add, length, round_down, round_up, str_eq,
}
use semblend_vllm_connector.Types.{
  MaterializationKind, SemanticSegment, SemanticLookupResult, LoadPiece,
}
use semblend_vllm_connector.Config.{is_semantic_span}
use semblend_vllm_connector.Journal.{count, audit}
use semblend_vllm_connector.Scheduler.{LoadPlan, Scheduler, note, Request, Engine}
use semblend_vllm_connector.Span.{
  RawSpan, Run, block_align_spans, supply_at_boundary, chain_at_boundary, trim_pieces, sum_counts,
}
use semblend_vllm_connector.Plan.{
  Reply, returned, index_error, decline, cacheable_prefix_tokens, record_load_plan,
}
use semblend_vllm_connector.SpanPlan.{headroom, captured_runs, chain_load_plan}

-- The cached lookup's runs and the namespace that they were looked up in.
runs_of : Engine → Option (Option SemanticLookupResult) → Option String → Option (List Run × String)
runs_of e (some (some result)) (some namespace) = elim result.segments [
  | [] ↦ none
  | seg ∷ rest ↦ some (captured_runs e namespace (seg ∷ rest), namespace)
]
runs_of e _ _ = none

unfoldable pub segment_runs : Engine → String → Scheduler → Option (List Run × String)
unfolding runs_of
segment_runs e request_id s =
    if not (is_semantic_span e.config.mode)
    then none
    else runs_of e (get request_id s.lookup_cache) (get request_id s.segment_namespaces)

mid_prefill_pieces : Engine → Request → ℕ → List Run → List LoadPiece
mid_prefill_pieces e r computed runs =
    trim_pieces (chain_at_boundary runs computed e.block_size) (computed + headroom e r computed)

serve_segment : Request → String → ℕ → List LoadPiece → Scheduler → Reply × Scheduler
unfolding chain_load_plan
serve_segment r namespace computed [] s = (index_error, s)
serve_segment r namespace computed (first ∷ rest) s =
    let pieces = first ∷ rest in
    let plan = chain_load_plan r computed first pieces in
    let (_, s') = record_load_plan r.request_id (record plan { namespace = namespace }) s in
    (
      returned (sum_counts pieces),
      note
          (λ j.
            audit "segmented_prefill_segment_advertised" r.request_id
              (count "segmented_prefill_segments_total" j))
          s',
    )

mid_prefill_from : Engine → Request → ℕ → Option (List Run × String) → Scheduler → Reply × Scheduler
unfolding mid_prefill_pieces serve_segment
mid_prefill_from e r computed none s = decline s
mid_prefill_from e r computed (some (runs, namespace)) s =
    let pieces = mid_prefill_pieces e r computed runs in
    if ltb (sum_counts pieces) e.config.min_mid_prefill_segment
    then decline s
    else serve_segment r namespace computed pieces s

unfoldable pub get_num_new_matched_tokens_mid_prefill :
    Engine → Request → ℕ → Scheduler → Reply × Scheduler
unfolding mid_prefill_from
get_num_new_matched_tokens_mid_prefill e r computed s =
    if not (computed % e.block_size == 0)
    then decline s
    else mid_prefill_from e r computed (segment_runs e r.request_id s) s

-- The loop of `get_prefill_compute_limit`: the least usable block edge, with the floor still to go.
abbrev pub is_usable_edge : ℕ → ℕ → ℕ → Run → Bool
is_usable_edge block floor compute_from run =
    let edge = round_up run.target_start block in
    not (leb edge compute_from || ltb (run.target_start + run.length) (edge + floor))

pub earlier : Option ℕ → ℕ → Option ℕ
earlier none edge = some edge
earlier (some best) edge = if ltb edge best then some edge else some best

pub edge_from : ℕ → ℕ → ℕ → Option ℕ → List Run → Option ℕ
unfolding earlier
edge_from block floor compute_from best [] = best
edge_from block floor compute_from best (run ∷ rest) =
    edge_from block floor compute_from
      (if is_usable_edge block floor compute_from run
        then earlier best (round_up run.target_start block)
        else best)
      rest

distance_to : ℕ → Option ℕ → Option ℕ
distance_to compute_from none = none
distance_to compute_from (some edge) = some (edge - compute_from)

limit_from : Engine → ℕ → Option (List Run × String) → Option ℕ
unfolding edge_from distance_to
limit_from e compute_from none = none
limit_from e compute_from (some (runs, namespace)) =
    distance_to compute_from
      (edge_from e.block_size e.config.min_mid_prefill_segment compute_from none runs)

unfoldable pub get_prefill_compute_limit : Engine → Request → ℕ → Scheduler → Option ℕ
unfolding limit_from
get_prefill_compute_limit e r compute_from s =
    limit_from e compute_from (segment_runs e r.request_id s)
