-- ===== src/Tests/Hooks.antt =====
-- The theorems on the scheduler's hooks at one connector and one request.
use semblend_vllm_connector.Prelude.{
  ℕ, Bool, ◌≡◌, refl, sym, ap, some, [], ◌∷◌, arith, All, false, get, round_up, round_down,
}
use semblend_vllm_connector.Span.{supply_at_boundary, block_align_spans}
use semblend_vllm_connector.SpanPlan.{span_branch, plan_span}
use semblend_vllm_connector.Plan.{returned, cacheable_prefix_tokens}
use semblend_vllm_connector.Match.{
  get_num_new_matched_tokens, gates, past_gates, span_run_ruled_out, consult, record_attempt,
  on_result, on_hit,
}
use semblend_vllm_connector.Match.Sound.{IsCreditable, get_num_new_matched_tokens-IsCreditable}
use semblend_vllm_connector.Fills.Keeps.{Mismatched}
use semblend_vllm_connector.Alloc.{update_state_after_alloc}
use semblend_vllm_connector.Alloc.Commit.{IsAllocated, update_state_after_alloc-IsAllocated}
use semblend_vllm_connector.Capture.{advance_capture}
use semblend_vllm_connector.Capture.Extent.{IsAdvanced, advance_capture-IsAdvanced}
use semblend_vllm_connector.Registration.{retry_deferred_registrations, register_donor_on_finish}
use semblend_vllm_connector.Registration.Durable.{
  AllIndexed, IsWaiting, retry_deferred_registrations-Durable,
}
use semblend_vllm_connector.Registration.Finish.{IsFinished, register_donor_on_finish-IsFinished}
use semblend_vllm_connector.Types.{PendingLoad}
use semblend_vllm_connector.Step.{request_finished, collect_loads}
use semblend_vllm_connector.Registration.Keeps.{Awaits}
use semblend_vllm_connector.Step.Retire.{IsForgotten, request_finished-IsForgotten}
use semblend_vllm_connector.Step.Loads.{IsSingle, transfers, planned, collect_loads-IsSplit}
use semblend_vllm_connector.SegmentPlan.{get_num_new_matched_tokens_mid_prefill}
use semblend_vllm_connector.SpanPlan.{captured_runs}
use semblend_vllm_connector.SegmentPlan.{get_prefill_compute_limit, segment_runs}
use semblend_vllm_connector.SegmentPlan.Limit.{IsLimit, get_prefill_compute_limit-IsLimit}
use semblend_vllm_connector.SegmentPlan.MidPrefill.{
  IsSegment, get_num_new_matched_tokens_mid_prefill-IsSegment,
}
use semblend_vllm_connector.Fills.{Eviction, evict_filled_blocks, settle}
use semblend_vllm_connector.Fills.Evict.{IsEvicted, evict_filled_blocks-IsEvicted}
use semblend_vllm_connector.Fills.Settled.{IsScanned, settle-IsScanned}
use semblend_vllm_connector.Tests.Data.{
  engine, request, scheduler, looked_up, all_cached, fill, capture, pending, pool,
}

get_num_new_matched_tokens-IsCreditable_example :
    IsCreditable engine request 4 (get_num_new_matched_tokens engine request 4 scheduler)
get_num_new_matched_tokens-IsCreditable_example =
    get_num_new_matched_tokens-IsCreditable engine request 4 scheduler (omega arith) refl

-- The run above does serve a span.
matched : (get_num_new_matched_tokens engine request 4 scheduler).0 ≡ returned 4
unfolding get_num_new_matched_tokens gates past_gates span_run_ruled_out consult get record_attempt
    on_result on_hit span_branch plan_span supply_at_boundary block_align_spans round_up round_down
    cacheable_prefix_tokens
matched = refl

advance_capture-IsAdvanced_example :
    IsAdvanced engine "r1" capture 7 scheduler (advance_capture engine "r1" capture 7 scheduler)
advance_capture-IsAdvanced_example =
    advance_capture-IsAdvanced engine "r1" capture 7 scheduler (omega arith)

update_state_after_alloc-IsAllocated_example :
    IsAllocated "r1"
      (some ((5 ∷ 6 ∷ 7 ∷ []) ∷ []))
      4
      engine
      scheduler
      (Mismatched pool engine (some all_cached))
      (update_state_after_alloc pool engine "r1"
        (some ((5 ∷ 6 ∷ 7 ∷ []) ∷ []))
        4
        (some all_cached)
        scheduler)
update_state_after_alloc-IsAllocated_example =
    update_state_after_alloc-IsAllocated pool engine "r1" 4 scheduler (some ((5 ∷ 6 ∷ 7 ∷ []) ∷ []))
      (some all_cached)

retry_deferred_registrations-Durable_example :
    AllIndexed engine scheduler.deferred_registrations scheduler.offered
      (retry_deferred_registrations engine false scheduler).offered
    × All
        (IsWaiting engine false scheduler.scheduler_step)
        (retry_deferred_registrations engine false scheduler).deferred_registrations
retry_deferred_registrations-Durable_example =
    retry_deferred_registrations-Durable engine false scheduler

register_donor_on_finish-IsFinished_example :
    IsFinished engine request scheduler (register_donor_on_finish engine request scheduler)
register_donor_on_finish-IsFinished_example =
    register_donor_on_finish-IsFinished engine request scheduler

request_finished-IsForgotten_example :
    IsForgotten "r1" (request_finished engine request scheduler)
    × Awaits scheduler (request_finished engine request scheduler)
request_finished-IsForgotten_example = request_finished-IsForgotten engine request scheduler

-- A load of three tokens of one donor and two of another.
abbrev split_load : PendingLoad
split_load = record pending {
  pieces =
      record { donor_id = "donor"; donor_start = 8; target_start = 4; token_count = 3 }
      ∷ record { donor_id = "other"; donor_start = 1; target_start = 7; token_count = 2 }
      ∷ [];
}

collect_loads-IsSplit_example :
    All IsSingle (collect_loads (("r1", split_load) ∷ []) scheduler).0
    × (transfers (collect_loads (("r1", split_load) ∷ []) scheduler).0
        ≡ planned (("r1", split_load) ∷ []))
collect_loads-IsSplit_example = collect_loads-IsSplit (("r1", split_load) ∷ []) scheduler

get_num_new_matched_tokens_mid_prefill-IsSegment_example :
    IsSegment engine request 4 (get_num_new_matched_tokens_mid_prefill engine request 4 looked_up)
get_num_new_matched_tokens_mid_prefill-IsSegment_example =
    get_num_new_matched_tokens_mid_prefill-IsSegment engine request 4 looked_up (omega arith)

get_prefill_compute_limit-IsLimit_example :
    IsLimit engine 2
      (segment_runs engine "r1" looked_up)
      (get_prefill_compute_limit engine request 2 looked_up)
get_prefill_compute_limit-IsLimit_example =
    get_prefill_compute_limit-IsLimit engine request 2 looked_up

limited : get_prefill_compute_limit engine request 2 looked_up ≡ some 2
unfolding get_prefill_compute_limit segment_runs get captured_runs round_up
limited = refl

-- Whether a block is cached after an eviction.
abbrev after : ℕ → Eviction (ℕ → Bool) → Bool
after block (Eviction.evicted cached) = cached block
after block (Eviction.raised cached) = cached block

evict_filled_blocks-IsEvicted_example :
    IsEvicted pool engine "r1" fill scheduler all_cached
      (evict_filled_blocks pool engine "r1" fill (some all_cached) scheduler)
evict_filled_blocks-IsEvicted_example =
    evict_filled_blocks-IsEvicted pool engine "r1" fill scheduler
      (λ blocks cached cached' same block. ap (after block) (sym same))
      (λ blocks cached cached' raises block. cc) all_cached

settle-IsScanned_example : IsScanned (settle fill (6 ∷ []))
settle-IsScanned_example =
    settle-IsScanned fill (6 ∷ []) (5 ∷ 6 ∷ 7 ∷ []) refl (λ block there unsettled. there)
