-- ===== src/SegmentPlan/MidPrefill.antt =====
-- The later segments of a running prefill.
use semblend_vllm_connector.Prelude.{
  ℕ, ◌+◌, ◌≤◌, ◌<◌, ◌≡◌, refl, sym, subst, ◌%◌, ◌⊎◌, inl, inr, String, Bool, true, false, not,
  Option, none, some, List, [], ◌∷◌, arith, ltb, ◌==◌, get, length, IsAligned, add-IsAligned,
  if◌then◌else◌,
}
use semblend_vllm_connector.Types.{LoadPiece}
use semblend_vllm_connector.Scheduler.{LoadPlan, Scheduler, Request, Engine}
use semblend_vllm_connector.Span.{Run, chain_at_boundary, trim_pieces, sum_counts}
use semblend_vllm_connector.Span.Chain.{Chained}
use semblend_vllm_connector.Span.Trim.{sum_counts-Chained}
use semblend_vllm_connector.Plan.{Reply, returned, index_error}
use semblend_vllm_connector.Plan.Sound.{record_load_plan-get}
use semblend_vllm_connector.SpanPlan.{headroom, chain_load_plan}
use semblend_vllm_connector.SegmentPlan.{
  mid_prefill_pieces, serve_segment, mid_prefill_from, segment_runs,
  get_num_new_matched_tokens_mid_prefill,
}
use semblend_vllm_connector.SpanPlan.Multi.{chain_to_limit, no_floor, Chained-room}
use semblend_vllm_connector.SpanPlan.Single.{headroom-IsAligned, headroom_room}

module _ (e : Engine) (r : Request) (computed : ℕ) where
  -- Nothing, or a window of `n` tokens with a plan of pieces that fill it; or the IndexError.
  abbrev pub IsSegment : Reply × Scheduler → Type 0
  IsSegment (returned n, s) =
      (n ≡ 0)
      ⊎ ((plan : LoadPlan) × (get r.request_id s.load_plans ≡ some plan)
          × (plan.token_count ≡ n)
          × (plan.boundary ≡ computed)
          × Chained computed plan.pieces (computed + n)
          × (computed + n + 2 ≤ length r.token_ids)
          × IsAligned e.block_size (computed + n)
          × (e.config.min_mid_prefill_segment ≤ n))
  IsSegment (index_error, s) = e.config.min_mid_prefill_segment ≡ 0

  IsSegment-if :
      (b : Bool) (x y : Reply × Scheduler)
      → (b ≡ true → IsSegment x)
      → (b ≡ false → IsSegment y)
      → IsSegment (if b then x else y)
  IsSegment-if true x y hx hy = hx refl
  IsSegment-if false x y hx hy = hy refl

  module _ (block_pos : 0 < e.block_size) (aligned : IsAligned e.block_size computed) where
    serve_segment-IsSegment :
        (namespace : String) (pieces : List LoadPiece) (final : ℕ) (s : Scheduler)
        → Chained computed pieces final
        → sum_counts pieces ≤ headroom e r computed
        → IsAligned e.block_size (computed + sum_counts pieces)
        → ltb (sum_counts pieces) e.config.min_mid_prefill_segment ≡ false
        → IsSegment (serve_segment r namespace computed pieces s)
    unfolding serve_segment
    serve_segment-IsSegment namespace [] final s c h a enough =
        no_floor [] e.config.min_mid_prefill_segment refl enough
    serve_segment-IsSegment namespace (first ∷ rest) final s c h a enough = inr (
      record (chain_load_plan r computed first (first ∷ rest)) { namespace = namespace },
      record_load_plan-get r.request_id _ s,
      unfold chain_load_plan in refl,
      unfold chain_load_plan in refl,
      unfold chain_load_plan in
          subst (Chained computed (first ∷ rest))
            (sym (sum_counts-Chained computed final (first ∷ rest) c)) c,
      headroom_room e r computed block_pos aligned _ (omega (arith, c.1)) h,
      a,
      ground arith,
    )

    from-IsSegment :
        (found : Option (List Run × String)) (s : Scheduler)
        → IsSegment (mid_prefill_from e r computed found s)
    unfolding mid_prefill_from mid_prefill_pieces
    from-IsSegment none s = inl refl
    from-IsSegment (some (runs, namespace)) s =
        let (final, chained, within, edge) =
          chain_to_limit runs computed e.block_size (computed + headroom e r computed) block_pos
            aligned
            (add-IsAligned e.block_size computed (headroom e r computed) aligned
              (headroom-IsAligned e r computed block_pos aligned))
            (omega arith) in
        let (fits, sum_edge) =
          Chained-room e r computed block_pos aligned _ final (headroom e r computed) chained within
            edge in
        IsSegment-if
          (ltb
            (sum_counts (
              trim_pieces (chain_at_boundary runs computed e.block_size)
                (computed + headroom e r computed)))
            e.config.min_mid_prefill_segment)
          _ _ (λ _. inl refl)
          (λ enough. serve_segment-IsSegment namespace _ final s chained fits sum_edge enough)

-- Mid-prefill the hook answers 0, or a count n of at least min_mid_prefill_segment for which the memo
-- holds a plan of n tokens at this position, whose pieces fill the window back to back, and the window
-- ends on a block edge with two prompt tokens or more after it. It raises only with
-- min_mid_prefill_segment = 0.
pub get_num_new_matched_tokens_mid_prefill-IsSegment :
    (e : Engine) (r : Request) (computed : ℕ) (s : Scheduler)
    → 0 < e.block_size
    → IsSegment e r computed (get_num_new_matched_tokens_mid_prefill e r computed s)
unfolding get_num_new_matched_tokens_mid_prefill
get_num_new_matched_tokens_mid_prefill-IsSegment e r computed s block_pos =
    IsSegment-if e r computed (not (computed % e.block_size == 0)) _ _ (λ _. inl refl)
      (λ on_edge.
        from-IsSegment e r computed block_pos (ground arith) (segment_runs e r.request_id s) s)
