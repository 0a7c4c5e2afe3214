-- ===== src/PrefixPlan/Sound.antt =====
-- What the request-only and exact-prefix branches advertise.
use semblend_vllm_connector.Prelude.{
  ℕ, ◌-◌, ◌≤◌, ◌<◌, min, ◌≡◌, refl, Bool, arith, ltb, leb, length, get, IsAligned, round_down,
  round_down-le, round_down-IsAligned, add-IsAligned,
}
use semblend_vllm_connector.Types.{SemanticLookupResult}
use semblend_vllm_connector.Scheduler.{Scheduler, Request, Engine}
use semblend_vllm_connector.Plan.{cacheable_prefix_tokens}
use semblend_vllm_connector.Plan.Sound.{cacheable_prefix_tokens_bounds}
use semblend_vllm_connector.SpanPlan.Sound.{IsSound, declined, IsSound-if, advertise-IsSound}
use semblend_vllm_connector.PrefixPlan.{
  request_only_candidate, plan_request_only, exact_prefix_count, plan_exact_prefix,
  reject_no_safe_plan, no_safe_plan_reason, has_reason, or_none,
}

module _ (e : Engine) (r : Request) (computed : ℕ) (block_pos : 0 < e.block_size) where
  request_only_candidate_bounds :
      (result : SemanticLookupResult)
      → (request_only_candidate e r result ≤ length r.token_ids)
        × (request_only_candidate e r result ≤ e.config.max_materialized_tokens)
  unfolding request_only_candidate
  request_only_candidate_bounds result = ground arith

  pub plan_request_only-IsSound :
      (result : SemanticLookupResult) (first_lookup : Bool) (s : Scheduler)
      → computed ≡ 0
      → IsSound e r computed (plan_request_only e r computed result first_lookup s)
  unfolding plan_request_only
  plan_request_only-IsSound result first_lookup s start =
      let candidate = request_only_candidate e r result in
      let n = cacheable_prefix_tokens candidate e.block_size in
      let (edge, room, _) = cacheable_prefix_tokens_bounds candidate e.block_size block_pos in
      let (in_prompt, in_budget) = request_only_candidate_bounds result in
      IsSound-if e r computed (ltb 0 n) _ _
        (λ pos.
          let long : 0 < n = ground arith in
          advertise-IsSound e r computed _ _ s refl (omega (arith, room long))
            (rw start (add-IsAligned e.block_size 0 n (grind arith) edge))
            (omega (arith, room long)))
        (λ _. declined _)

  module _ (aligned : IsAligned e.block_size computed) where
    exact_prefix_count_bounds :
        (result : SemanticLookupResult)
        → (exact_prefix_count e r computed result
            ≤ cacheable_prefix_tokens (length r.token_ids) e.block_size - computed)
          × (exact_prefix_count e r computed result ≤ e.config.max_materialized_tokens)
          × IsAligned e.block_size (exact_prefix_count e r computed result)
    unfolding exact_prefix_count
    exact_prefix_count_bounds result =
        let reusable_end =
          round_down (min result.reusable_token_count (length r.token_ids)) e.block_size in
        let prompt_end = cacheable_prefix_tokens (length r.token_ids) e.block_size in
        let window =
          min (min reusable_end prompt_end - computed) e.config.max_materialized_tokens in
        let below = round_down-le window e.block_size in
        (omega arith, omega arith, round_down-IsAligned window e.block_size block_pos)

    pub plan_exact_prefix-IsSound :
        (result : SemanticLookupResult) (s : Scheduler)
        → IsSound e r computed (plan_exact_prefix e r computed result s)
    unfolding plan_exact_prefix
    plan_exact_prefix-IsSound result s =
        let n = exact_prefix_count e r computed result in
        let (within, budget, edge) = exact_prefix_count_bounds result in
        let bounds = cacheable_prefix_tokens_bounds (length r.token_ids) e.block_size block_pos in
        IsSound-if e r computed (leb n 0) _ _ (λ _. declined _)
          (λ some.
            let long : 0 < n = ground arith in
            advertise-IsSound e r computed _ _ s refl (omega (arith, bounds.1 (omega arith)))
              (add-IsAligned e.block_size computed n aligned edge) budget)

  pub reject_no_safe_plan-IsSound :
      (result : SemanticLookupResult) (s : Scheduler)
      → IsSound e r computed (reject_no_safe_plan e r result s)
  unfolding reject_no_safe_plan
  reject_no_safe_plan-IsSound result s =
      IsSound-if e r computed
        (has_reason (no_safe_plan_reason e r result)
          (or_none (get r.request_id s.no_safe_plan_reasons)))
        _ _ (λ _. declined _) (λ _. declined _)
