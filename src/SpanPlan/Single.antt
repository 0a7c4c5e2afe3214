-- ===== src/SpanPlan/Single.antt =====
-- A span of one donor.
use semblend_vllm_connector.Prelude.{
  ℕ, ◌+◌, ◌-◌, ◌≤◌, ◌<◌, min, ◌≡◌, refl, ◌&&◌, Option, none, some, List, [], ◌∷◌, arith, ltb, All,
  length, IsAligned, round_up, round_down-le, round_down-IsAligned, add-IsAligned, sub-IsAligned,
  min-IsAligned, round_up_of_IsAligned,
}
use semblend_vllm_connector.Types.{SemanticLookupResult}
use semblend_vllm_connector.Scheduler.{Scheduler, Request, Engine}
use semblend_vllm_connector.Span.{BlockSpan, block_align_spans, supply_at_boundary}
use semblend_vllm_connector.Span.Align.{Placed, block_align_spans-Placed}
use semblend_vllm_connector.Span.Supply.{Supplies, supply_at_boundary-Supplies}
use semblend_vllm_connector.Plan.{cacheable_prefix_tokens}
use semblend_vllm_connector.Plan.Sound.{cacheable_prefix_tokens_bounds}
use semblend_vllm_connector.SpanPlan.{
  headroom, materialized_cap, raw_spans, span_supply, serve_span, plan_span,
}
use semblend_vllm_connector.SpanPlan.Sound.{IsSound, declined, IsSound-if, advertise-IsSound}

EndsAligned : ℕ → BlockSpan → Type 0
EndsAligned block span = IsAligned block span.target_end

Placed-EndsAligned :
    (block floor cursor : ℕ) (spans : List BlockSpan)
    → Placed block floor cursor spans
    → All (EndsAligned block) spans
unfolding EndsAligned
Placed-EndsAligned block floor cursor [] p = tt
Placed-EndsAligned block floor cursor (span ∷ rest) p =
    (p.2, Placed-EndsAligned block floor span.target_end rest p.4)

Supplies-IsAligned :
    (block usable : ℕ) (supply : ℕ × Option ℕ)
    → IsAligned block usable
    → Supplies (EndsAligned block) usable supply
    → IsAligned block supply.0
unfolding EndsAligned
Supplies-IsAligned block usable (n, none) at s = rw s (grind arith)
Supplies-IsAligned block usable (n, some donor_start) at s =
    let n_eq : n ≡ s.0.target_end - usable = omega arith in
    rw n_eq (sub-IsAligned block s.0.target_end usable s.1 at)

module _ (e : Engine) (r : Request) (computed : ℕ) (block_pos : 0 < e.block_size)
    (aligned : IsAligned e.block_size computed) where
  pub headroom-IsAligned : IsAligned e.block_size (headroom e r computed)
  headroom-IsAligned =
      sub-IsAligned e.block_size (cacheable_prefix_tokens (length r.token_ids) e.block_size)
        computed (cacheable_prefix_tokens_bounds (length r.token_ids) e.block_size block_pos).0
        aligned

  -- What a clamp by the headroom leaves: room for two more tokens.
  pub headroom_room :
      (n : ℕ) → 0 < n → n ≤ headroom e r computed → computed + n + 2 ≤ length r.token_ids
  headroom_room n h k =
      let bounds = cacheable_prefix_tokens_bounds (length r.token_ids) e.block_size block_pos in
      omega (arith, bounds.1 (omega arith))

  module _ (result : SemanticLookupResult) where
    spans : List BlockSpan
    spans =
        block_align_spans
          (raw_spans result.donor_id (e.stored_donor_token_count result.donor_id r.namespace)
            result.segments)
          e.block_size e.config.min_semantic_span

    supplied-IsAligned : IsAligned e.block_size (supply_at_boundary spans computed e.block_size).0
    unfolding spans
    supplied-IsAligned =
        let raws =
          raw_spans result.donor_id (e.stored_donor_token_count result.donor_id r.namespace)
            result.segments in
        let floor = e.config.min_semantic_span in
        let placed = block_align_spans-Placed e.block_size block_pos floor raws in
        Supplies-IsAligned e.block_size (round_up computed e.block_size)
          (supply_at_boundary spans computed e.block_size)
          (rw (round_up_of_IsAligned computed e.block_size block_pos aligned) aligned)
          (supply_at_boundary-Supplies spans computed e.block_size (EndsAligned e.block_size)
            (Placed-EndsAligned e.block_size floor 0 spans placed))

    span_supply_bounds :
        ((span_supply e r computed result).1 ≤ headroom e r computed)
        × ((span_supply e r computed result).1 ≤ e.config.max_materialized_tokens)
        × IsAligned e.block_size (span_supply e r computed result).1
    unfolding span_supply spans
    span_supply_bounds = (
      omega arith,
      omega (arith, round_down-le e.config.max_materialized_tokens e.block_size),
      min-IsAligned e.block_size
          (min (supply_at_boundary spans computed e.block_size).0 (materialized_cap e))
          (headroom e r computed)
          (min-IsAligned e.block_size (supply_at_boundary spans computed e.block_size).0
            (materialized_cap e) supplied-IsAligned
            (round_down-IsAligned e.config.max_materialized_tokens e.block_size block_pos))
          headroom-IsAligned,
    )

    serve_span-IsSound :
        (n : ℕ) (donor_start : Option ℕ) (s : Scheduler)
        → n ≤ headroom e r computed
        → n ≤ e.config.max_materialized_tokens
        → IsAligned e.block_size n
        → IsSound e r computed (serve_span e r computed result n donor_start s)
    unfolding serve_span
    serve_span-IsSound n none s h k a = declined _
    serve_span-IsSound n (some donor_start) s h k a =
        IsSound-if e r computed (ltb 0 n) _ _
          (λ pos.
            advertise-IsSound e r computed _ _ s refl (headroom_room n (ground arith) h)
              (add-IsAligned e.block_size computed n aligned a) k)
          (λ _. declined _)

    pub plan_span-IsSound : (s : Scheduler) → IsSound e r computed (plan_span e r computed result s)
    unfolding plan_span
    plan_span-IsSound s =
        let (within, budget, edge) = span_supply_bounds in
        let (_, n, donor_start) = span_supply e r computed result in
        IsSound-if e r computed (ltb 0 n && ltb n e.config.min_semantic_span) _ _ (λ _. declined _)
          (λ _. serve_span-IsSound n donor_start _ within budget edge)
