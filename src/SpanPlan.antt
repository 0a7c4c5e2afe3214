-- ===== src/SpanPlan.antt =====
-- connector.py, semantic-span mode: a span of one donor, a span assembled from several, and the later
-- segments of a running prefill.
pub mod Sound
pub mod Single
pub mod Multi
pub mod Verbatim
use semblend_vllm_connector.Prelude.{
  ℕ, ◌+◌, ◌-◌, ◌%◌, min, String, Bool, not, ◌&&◌, ◌||◌, Option, none, some, List, [], ◌∷◌, ltb, leb,
  ◌==◌, if◌then◌else◌, get, add, length, round_down, round_up, str_eq,
}
use semblend_vllm_connector.Types.{
  MaterializationKind, SemanticSegment, SemanticLookupResult, LoadPiece,
}
use semblend_vllm_connector.Config.{is_semantic_span}
use semblend_vllm_connector.Journal.{count, audit}
use semblend_vllm_connector.Scheduler.{LoadPlan, Scheduler, note, Request, Engine}
use semblend_vllm_connector.Span.{
  RawSpan, Run, block_align_spans, supply_at_boundary, chain_at_boundary, trim_pieces, sum_counts,
}
use semblend_vllm_connector.Plan.{
  Reply, returned, index_error, decline, cacheable_prefix_tokens, record_load_plan,
}

-- The segment's run, trimmed to what its donor has captured; an empty one is dropped.
captured_run : ℕ → SemanticSegment → Option Run
captured_run stored seg =
    let length = min seg.token_count (stored - seg.donor_start) in
    if ltb 0 length
    then some (record {
      donor_id = seg.donor_id;
      donor_start = seg.donor_start;
      target_start = seg.target_start;
      length = length;
    })
    else none

or_skip {ℓ} : {A : Type ℓ} → Option A → List A → List A
or_skip none rest = rest
or_skip (some x) rest = x ∷ rest

unfoldable pub captured_runs : Engine → String → List SemanticSegment → List Run
unfolding captured_run or_skip
captured_runs e namespace [] = []
captured_runs e namespace (seg ∷ rest) =
    or_skip (captured_run (e.stored_donor_token_count seg.donor_id namespace) seg)
      (captured_runs e namespace rest)

captured_span : ℕ → SemanticSegment → Option RawSpan
captured_span stored seg =
    let length = min seg.token_count (stored - seg.donor_start) in
    if ltb 0 length
    then some
        (record { target_start = seg.target_start; length = length; donor_start = seg.donor_start })
    else none

-- The loop over `result.segments`: those of the winning donor only.
raw_spans : String → ℕ → List SemanticSegment → List RawSpan
unfolding captured_span or_skip
raw_spans donor_id stored [] = []
raw_spans donor_id stored (seg ∷ rest) =
    or_skip (if str_eq seg.donor_id donor_id then captured_span stored seg else none)
      (raw_spans donor_id stored rest)

-- max_materialized_tokens, in whole blocks.
abbrev pub materialized_cap : Engine → ℕ
materialized_cap e = round_down e.config.max_materialized_tokens e.block_size

abbrev pub headroom : Engine → Request → ℕ → ℕ
headroom e r computed = cacheable_prefix_tokens (length r.token_ids) e.block_size - computed

-- The supply and its two clamps: the count before the headroom, the count after it, the donor start.
pub span_supply : Engine → Request → ℕ → SemanticLookupResult → ℕ × ℕ × Option ℕ
unfolding raw_spans
span_supply e r computed result =
    let stored = e.stored_donor_token_count result.donor_id r.namespace in
    let spans =
      block_align_spans (raw_spans result.donor_id stored result.segments) e.block_size
        e.config.min_semantic_span in
    let (supplied, donor_start) = supply_at_boundary spans computed e.block_size in
    let capped = min supplied (materialized_cap e) in
    (capped, min capped (headroom e r computed), donor_start)

span_load_plan : Engine → Request → ℕ → SemanticLookupResult → ℕ → ℕ → LoadPlan
span_load_plan e r computed result token_count donor_start = record {
  donor_id = result.donor_id;
  token_count = token_count;
  materialization_kind = MaterializationKind.semantic_span;
  namespace = r.namespace;
  boundary = computed;
  donor_start = some donor_start;
  target_start = some (round_up computed e.block_size);
  pieces = [];
}

-- `_record_load_plan` and, for a plan that is new or different, its advertise row.
pub advertise : Request → String → LoadPlan → Scheduler → Reply × Scheduler
advertise r event plan s =
    let (changed, s') = record_load_plan r.request_id plan s in
    (returned plan.token_count, if changed then note (audit event r.request_id) s' else s')

boundary_missed : Request → Scheduler → Reply × Scheduler
boundary_missed r s = decline (
    note
      (λ j.
        audit "semantic_span_boundary_missed" r.request_id
          (count "semantic_span_boundary_missed_per_attempt" j))
      s)

serve_span :
    Engine → Request → ℕ → SemanticLookupResult → ℕ → Option ℕ → Scheduler → Reply × Scheduler
unfolding advertise boundary_missed span_load_plan
serve_span e r computed result token_count none s = boundary_missed r s
serve_span e r computed result token_count (some donor_start) s =
    if ltb 0 token_count
    then advertise r "semantic_span_load_advertised"
        (span_load_plan e r computed result token_count donor_start) s
    else boundary_missed r s

note_clamped : Request → Bool → Scheduler → Scheduler
note_clamped r clamped s =
    if clamped
    then note
        (λ j.
          audit "semantic_span_supply_clamped" r.request_id
            (count "semantic_span_clamped_to_prompt_headroom_per_attempt" j))
        s
    else s

unfoldable pub plan_span :
    Engine → Request → ℕ → SemanticLookupResult → Scheduler → Reply × Scheduler
unfolding span_supply serve_span note_clamped
plan_span e r computed result s =
    let (capped, token_count, donor_start) = span_supply e r computed result in
    let s' = note_clamped r (ltb (headroom e r computed) capped) s in
    if ltb 0 token_count && ltb token_count e.config.min_semantic_span
    then decline (
        note
          (λ j.
            audit "semantic_span_declined_below_min_after_clamp" r.request_id
              (count "semantic_span_declined_below_min_after_clamp_per_attempt" j))
          s')
    else serve_span e r computed result token_count donor_start s'

donors_of : List LoadPiece → List String
donors_of [] = []
donors_of (piece ∷ rest) = add piece.donor_id (donors_of rest)

unfoldable pub chain_load_plan : Request → ℕ → LoadPiece → List LoadPiece → LoadPlan
chain_load_plan r computed first pieces = record {
  donor_id = first.donor_id;
  token_count = sum_counts pieces;
  materialization_kind = MaterializationKind.semantic_span;
  namespace = r.namespace;
  boundary = computed;
  donor_start = some first.donor_start;
  target_start = some computed;
  pieces = pieces;
}

unfoldable pub multi_donor_pieces : Engine → Request → ℕ → SemanticLookupResult → List LoadPiece
multi_donor_pieces e r computed result =
    let runs = captured_runs e r.namespace result.segments in
    let cap = min (materialized_cap e) (headroom e r computed) in
    trim_pieces (chain_at_boundary runs computed e.block_size) (computed + cap)

-- From `first = pieces[0]` on, which raises for an empty list.
serve_chain : Request → ℕ → List LoadPiece → Scheduler → Reply × Scheduler
unfolding chain_load_plan donors_of
serve_chain r computed [] s = (index_error, s)
serve_chain r computed (first ∷ rest) s =
    let pieces = first ∷ rest in
    let (changed, s') = record_load_plan r.request_id (chain_load_plan r computed first pieces) s in
    (
      returned (sum_counts pieces),
      if changed
          then note
              (λ j. audit "semantic_span_load_advertised" r.request_id (
                if ltb 1 (length (donors_of pieces))
                then count "semantic_span_multi_donor_loads_total" j
                else j))
              s'
          else s',
    )

unfoldable pub plan_multi_donor_span :
    Engine → Request → ℕ → SemanticLookupResult → Scheduler → Reply × Scheduler
unfolding multi_donor_pieces serve_chain
plan_multi_donor_span e r computed result s =
    let pieces = multi_donor_pieces e r computed result in
    if ltb (sum_counts pieces) e.config.min_semantic_span
    then decline (
        note
          (λ j.
            audit "semantic_span_multi_donor_declined" r.request_id
              (count "semantic_span_multi_donor_declined_per_attempt" j))
          s)
    else serve_chain r computed pieces s

-- The number of distinct donors among the segments.
segment_donors : List SemanticSegment → List String
segment_donors [] = []
segment_donors (seg ∷ rest) = add seg.donor_id (segment_donors rest)

-- The branch of the match hook for a result with segments.
unfoldable pub span_branch :
    Engine → Request → ℕ → SemanticLookupResult → Scheduler → Reply × Scheduler
unfolding segment_donors
span_branch e r computed result s =
    if not (computed % e.block_size == 0)
    then decline (
        note
          (λ j.
            audit "semantic_span_declined_unaligned_boundary" r.request_id
              (count "semantic_span_declined_unaligned_boundary_per_attempt" j))
          s)
    else if e.config.multi_donor_spans && ltb 1 (length (segment_donors result.segments))
    then plan_multi_donor_span e r computed result s
    else plan_span e r computed result s
