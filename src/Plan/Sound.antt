-- ===== src/Plan/Sound.antt =====
-- The bound on what may be advertised, and what the memo holds after a plan is recorded.
use semblend_vllm_connector.Prelude.{
  ℕ, ◌+◌, ◌-◌, ◌≤◌, ◌<◌, ◌≡◌, inl, inr, String, some, arith, leb, IsAligned, Bool-cases, get, put,
  get-put_self, round_down-le, lt-round_down, round_down-IsAligned,
}
use semblend_vllm_connector.Scheduler.{LoadPlan, Scheduler}
use semblend_vllm_connector.Plan.{cacheable_prefix_tokens, record_load_plan}

module _ (n block : ℕ) (block_pos : 0 < block) where
  -- A cacheable prefix is a whole number of blocks; unless it is empty it leaves at least two of the
  -- prompt's tokens to compute; and one more block would leave fewer than two.
  pub cacheable_prefix_tokens_bounds :
      IsAligned block (cacheable_prefix_tokens n block)
      × (0 < cacheable_prefix_tokens n block → cacheable_prefix_tokens n block + 2 ≤ n)
      × (n < cacheable_prefix_tokens n block + block + 2)
  unfolding cacheable_prefix_tokens
  cacheable_prefix_tokens_bounds = elim (Bool-cases (leb (n - 1) 0)) [
    | inl small ↦ rw small (grind arith, λ h. elim h [ ], ground arith)
    | inr large ↦ rw large (
      round_down-IsAligned (n - 1 - 1) block block_pos,
      λ h. ground (arith, round_down-le (n - 1 - 1) block),
      ground (arith, lt-round_down (n - 1 - 1) block block_pos),
    )
  ]

module _ (request_id : String) (plan : LoadPlan) (s : Scheduler) where
  pub record_load_plan-load_plans :
      (record_load_plan request_id plan s).1.load_plans ≡ put request_id plan s.load_plans
  unfolding record_load_plan
  record_load_plan-load_plans = ground arith

  pub record_load_plan-get :
      get request_id (record_load_plan request_id plan s).1.load_plans ≡ some plan
  record_load_plan-get = rw record_load_plan-load_plans (get-put_self request_id plan s.load_plans)
