-- ===== src/SpanPlan/Multi.antt =====
-- A span assembled from several donors, and the later segments of a prefill.
use semblend_vllm_connector.Prelude.{
  ℕ, ◌+◌, ◌≤◌, ◌<◌, min, ◌≡◌, refl, sym, ap, subst, ◌%◌, ◌∙◌, true, false, not, ◌&&◌, List, [], ◌∷◌,
  arith, ltb, ◌==◌, get, All, length, IsAligned, round_down, round_down-le, round_down-IsAligned,
  add-IsAligned, min-IsAligned, round_up_of_IsAligned,
}
use semblend_vllm_connector.Types.{SemanticLookupResult, LoadPiece}
use semblend_vllm_connector.Scheduler.{Scheduler, Request, Engine}
use semblend_vllm_connector.Span.{Run, chain_at_boundary, trim_pieces, sum_counts}
use semblend_vllm_connector.Span.Chain.{Chained}
use semblend_vllm_connector.Span.Trim.{chain_at_boundary-IsChain, trim-Chained, sum_counts-Chained}
use semblend_vllm_connector.Plan.{record_load_plan}
use semblend_vllm_connector.Plan.Sound.{record_load_plan-get}
use semblend_vllm_connector.SpanPlan.{
  headroom, materialized_cap, captured_runs, multi_donor_pieces, chain_load_plan, serve_chain,
  plan_multi_donor_span, segment_donors, span_branch,
}
use semblend_vllm_connector.SpanPlan.Sound.{
  load_plans-note_if, IsSound, declined, served, raised, IsSound-if,
}
use semblend_vllm_connector.SpanPlan.Single.{headroom-IsAligned, headroom_room, plan_span-IsSound}

All-unit : (runs : List Run) → All (λ _. Unit {0}) runs
All-unit [] = tt
All-unit (run ∷ rest) = (tt, All-unit rest)

-- From an aligned position, a chain trimmed at an aligned limit runs back to back to a block edge at
-- or before that limit.
pub chain_to_limit :
    (runs : List Run) (computed block limit : ℕ)
    → 0 < block
    → IsAligned block computed
    → IsAligned block limit
    → computed ≤ limit
    → (final : ℕ) × Chained computed
        (trim_pieces (chain_at_boundary runs computed block) limit)
        final
      × (final ≤ limit)
      × IsAligned block final
chain_to_limit runs computed block limit block_pos aligned at_limit room =
    let chain =
      chain_at_boundary-IsChain (λ _. Unit {0}) runs (All-unit runs) computed block block_pos in
    let edge = round_down chain.stop block in
    let chained : Chained computed (chain_at_boundary runs computed block) edge =
      subst (λ from. Chained from (chain_at_boundary runs computed block) edge)
        (round_up_of_IsAligned computed block block_pos aligned) chain.chained in
    (
      min edge limit,
      trim-Chained limit computed edge (chain_at_boundary runs computed block) chained room,
      omega arith,
      min-IsAligned block edge limit (round_down-IsAligned chain.stop block block_pos) at_limit,
    )

pub no_floor :
    (pieces : List LoadPiece) (floor : ℕ)
    → pieces ≡ []
    → ltb (sum_counts pieces) floor ≡ false
    → floor ≡ 0
no_floor pieces floor empty enough =
    let none_counted : sum_counts pieces ≡ 0 = ap sum_counts empty in ground arith

module _ (e : Engine) (r : Request) (computed : ℕ) (block_pos : 0 < e.block_size)
    (aligned : IsAligned e.block_size computed) where
  pub Chained-room :
      (pieces : List LoadPiece) (final cap : ℕ)
      → Chained computed pieces final
      → final ≤ computed + cap
      → IsAligned e.block_size final
      → (sum_counts pieces ≤ cap) × IsAligned e.block_size (computed + sum_counts pieces)
  Chained-room pieces final cap c h a =
      let sum_eq = sum_counts-Chained computed final pieces c in
      (omega arith, subst (IsAligned e.block_size) (sym sum_eq) a)

  module _ (result : SemanticLookupResult) where
    multi_donor_pieces_bounds :
        (final : ℕ) × Chained computed (multi_donor_pieces e r computed result) final
        × (sum_counts (multi_donor_pieces e r computed result) ≤ headroom e r computed)
        × (sum_counts (multi_donor_pieces e r computed result) ≤ e.config.max_materialized_tokens)
        × IsAligned e.block_size (computed + sum_counts (multi_donor_pieces e r computed result))
    unfolding multi_donor_pieces
    multi_donor_pieces_bounds =
        let cap = min (materialized_cap e) (headroom e r computed) in
        let cap_aligned =
          min-IsAligned e.block_size (materialized_cap e) (headroom e r computed)
            (round_down-IsAligned e.config.max_materialized_tokens e.block_size block_pos)
            (headroom-IsAligned e r computed block_pos aligned) in
        let runs = captured_runs e r.namespace result.segments in
        let (final, chained, within, edge) =
          chain_to_limit runs computed e.block_size (computed + cap) block_pos aligned
            (add-IsAligned e.block_size computed cap aligned cap_aligned) (omega arith) in
        let (fits, sum_edge) = Chained-room _ final cap chained within edge in
        (
          final,
          chained,
          omega arith,
          omega (arith, round_down-le e.config.max_materialized_tokens e.block_size),
          sum_edge,
        )

    serve_chain-IsSound :
        (pieces : List LoadPiece) (final : ℕ) (s : Scheduler)
        → (pieces ≡ [] → (e.config.multi_donor_spans ≡ true) × (e.config.min_semantic_span ≡ 0))
        → Chained computed pieces final
        → sum_counts pieces ≤ headroom e r computed
        → sum_counts pieces ≤ e.config.max_materialized_tokens
        → IsAligned e.block_size (computed + sum_counts pieces)
        → IsSound e r computed (serve_chain r computed pieces s)
    unfolding serve_chain
    serve_chain-IsSound [] final s empty c h k a = raised s (empty refl).0 (empty refl).1
    serve_chain-IsSound (first ∷ rest) final s empty c h k a =
        let plan = chain_load_plan r computed first (first ∷ rest) in
        served (sum_counts (first ∷ rest)) _ (record {
          plan = plan;
          memo =
              ap (get r.request_id)
                (load_plans-note_if _ _ (record_load_plan r.request_id plan s).1)
              ∙ record_load_plan-get r.request_id plan s;
          plan_count = unfold chain_load_plan in refl;
          plan_boundary = unfold chain_load_plan in refl;
          room = headroom_room e r computed block_pos aligned _ (omega arith) h;
          edge = a;
          budget = k;
        })

    plan_multi_donor_span-IsSound :
        (s : Scheduler)
        → e.config.multi_donor_spans ≡ true
        → IsSound e r computed (plan_multi_donor_span e r computed result s)
    unfolding plan_multi_donor_span
    plan_multi_donor_span-IsSound s multi =
        let (final, chained, within, budget, edge) = multi_donor_pieces_bounds in
        let pieces = multi_donor_pieces e r computed result in
        IsSound-if e r computed (ltb (sum_counts pieces) e.config.min_semantic_span) _ _
          (λ _. declined _)
          (λ enough.
            serve_chain-IsSound pieces final s
              (λ empty. (multi, no_floor pieces e.config.min_semantic_span empty enough)) chained
              within budget edge)

module _ (e : Engine) (r : Request) (computed : ℕ) (block_pos : 0 < e.block_size) where
  pub span_branch-IsSound :
      (result : SemanticLookupResult) (s : Scheduler)
      → IsSound e r computed (span_branch e r computed result s)
  unfolding span_branch
  span_branch-IsSound result s =
      IsSound-if e r computed (not (computed % e.block_size == 0)) _ _ (λ _. declined _)
        (λ on_edge.
          let aligned : IsAligned e.block_size computed = ground arith in
          IsSound-if e r computed
            (e.config.multi_donor_spans && ltb 1 (length (segment_donors result.segments))) _ _
            (λ several.
              plan_multi_donor_span-IsSound e r computed block_pos aligned result s (ground arith))
            (λ _. plan_span-IsSound e r computed block_pos aligned result s))
