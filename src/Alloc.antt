-- ===== src/Alloc.antt =====
-- connector.py, `update_state_after_alloc`: a memoized plan becomes a pending load once vLLM has
-- allocated blocks for it.
pub mod Commit
use semblend_vllm_connector.Prelude.{
  ℕ, ◌/◌, String, true, false, Option, none, some, List, [], leb, if◌then◌else◌, get, put, remove,
  add,
}
use semblend_vllm_connector.Types.{PendingLoad}
use semblend_vllm_connector.Journal.{count, audit}
use semblend_vllm_connector.Scheduler.{LoadPlan, FilledBlocks, Scheduler, note, Engine}
use semblend_vllm_connector.Fills.{BlockPool, Pass, done, assertion_error, track_filled_blocks}

pub pending_load : String → LoadPlan → List (List ℕ) → PendingLoad
pending_load request_id plan block_ids = record {
  request_id = request_id;
  donor_id = plan.donor_id;
  token_count = plan.token_count;
  materialization_kind = plan.materialization_kind;
  namespace = plan.namespace;
  block_ids = some block_ids;
  donor_start = plan.donor_start;
  target_start = plan.target_start;
  pieces = plan.pieces;
}

abbrev pub start_of : Option ℕ → ℕ
start_of none = 0
start_of (some start) = start

pub first_fill : Engine → LoadPlan → List (List ℕ) → FilledBlocks
first_fill e plan block_ids = record {
  block_ids = block_ids;
  first_approx_block = start_of plan.target_start / e.block_size;
  donor_id = plan.donor_id;
  namespace = plan.namespace;
  settled = [];
  scan_from = 0;
}

-- `self._filled_blocks[request_id] = ...`; none is the AssertionError, which ends the engine.
abbrev pub keep_fill {ℓ} : {P : Type ℓ} → String → Pass P → Option (Scheduler × P)
keep_fill request_id (done state s pool) =
    some (record s { filled_blocks = put request_id state s.filled_blocks }, pool)
keep_fill request_id assertion_error = none

-- Before the state of the fill is taken up.
pub commit_load : String → LoadPlan → List (List ℕ) → Scheduler → Scheduler
unfolding pending_load
commit_load request_id plan block_ids s = note (audit "load_allocated" request_id) (record s {
  pending_loads = put request_id (pending_load request_id plan block_ids) s.pending_loads;
  served_request_ids = add request_id s.served_request_ids;
})

module _ (b : BlockPool) where
  open b use {Pool}

  alloc_plan :
      Engine
      → String
      → LoadPlan
      → Option (List (List ℕ))
      → Option Pool
      → Scheduler
      → Option (Scheduler × Option Pool)
  unfolding commit_load first_fill
  alloc_plan e request_id plan none pool s = some (
    note (λ j. audit "load_declined_no_blocks" request_id (count "load_declined_no_blocks" j)) s,
    pool,
  )
  alloc_plan e request_id plan (some block_ids) pool s = keep_fill request_id (
      track_filled_blocks b e request_id (first_fill e plan block_ids) pool
        (commit_load request_id plan block_ids s))

  -- With external tokens credited.
  alloc_credited :
      Engine
      → String
      → Option LoadPlan
      → Option (List (List ℕ))
      → Option Pool
      → Scheduler
      → Option (Scheduler × Option Pool)
  unfolding alloc_plan
  alloc_credited e request_id none block_ids pool s = some (
    note (λ j. audit "alloc_without_pending_load" request_id (count "alloc_without_pending_load" j))
        s,
    pool,
  )
  alloc_credited e request_id (some plan) block_ids pool s =
      alloc_plan e request_id plan block_ids pool s

  alloc_dropped : String → Option LoadPlan → Scheduler → Scheduler
  alloc_dropped request_id none s = s
  alloc_dropped request_id (some plan) s =
      note (λ j. audit "load_dropped_before_alloc" request_id (count "load_dropped_before_alloc" j))
        s

  unfoldable pub update_state_after_alloc :
      Engine
      → String
      → Option (List (List ℕ))
      → ℕ
      → Option Pool
      → Scheduler
      → Option (Scheduler × Option Pool)
  unfolding alloc_credited alloc_dropped
  update_state_after_alloc e request_id block_ids num_external_tokens pool s =
      let plan = get request_id s.load_plans in
      let s' = record s {
        filled_blocks = remove request_id s.filled_blocks;
        load_plans = remove request_id s.load_plans;
      } in
      if leb num_external_tokens 0
      then some (alloc_dropped request_id plan s', pool)
      else alloc_credited e request_id plan block_ids pool s'
