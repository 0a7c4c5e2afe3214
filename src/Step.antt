-- ===== src/Step.antt =====
-- connector.py: the hooks that tie the scheduler role together, `build_connector_meta` once per step
-- and `request_finished` once per request. `none` is an exception that ends the step (a ValueError of
-- a block table or the AssertionError of an eviction).
pub mod Loads
pub mod Retire
use semblend_vllm_connector.Prelude.{
  ℕ, suc, String, Bool, true, false, Option, none, some, ◌>>=◌, List, [], ◌∷◌, ◌++◌, if◌then◌else◌,
  get, put, remove, contains, discard,
}
use semblend_vllm_connector.Types.{LoadPiece, PendingLoad, PendingStore, SemBlendConnectorMetadata}
use semblend_vllm_connector.Journal.{count, audit, forget_request_join_key}
use semblend_vllm_connector.Scheduler.{FilledBlocks, Scheduler, note, Request, Engine}
use semblend_vllm_connector.Fills.{BlockPool, track_filled_blocks}
use semblend_vllm_connector.Alloc.{keep_fill}
use semblend_vllm_connector.Registration.{retry_deferred_registrations, register_donor_on_finish}
use semblend_vllm_connector.Capture.{
  CachedRequest, SchedulerOutput, normalize_block_ids, extend_block_table,
}
use semblend_vllm_connector.Stores.{build_store_metadata}

piece_load : PendingLoad → LoadPiece → PendingLoad
piece_load load piece = record load {
  donor_id = piece.donor_id;
  token_count = piece.token_count;
  donor_start = some piece.donor_start;
  target_start = some piece.target_start;
  pieces = [];
}

unfoldable pub piece_loads : PendingLoad → List LoadPiece → List PendingLoad
unfolding piece_load
piece_loads load [] = []
piece_loads load (piece ∷ rest) = piece_load load piece ∷ piece_loads load rest

abbrev pub has_blocks : Option (List (List ℕ)) → Bool
has_blocks none = false
has_blocks (some block_ids) = true

-- One load for each piece of a plan with pieces.
unfoldable pub loads_of : PendingLoad → List PendingLoad
unfolding piece_loads
loads_of load = elim load.pieces [ [] ↦ load ∷ [] | piece ∷ rest ↦ piece_loads load (piece ∷ rest) ]

-- The loop over the pending loads.
unfoldable pub collect_loads :
    List (String × PendingLoad) → Scheduler → List PendingLoad × Scheduler
unfolding loads_of
collect_loads [] s = ([], s)
collect_loads ((key, load) ∷ rest) s =
    if has_blocks load.block_ids
    then (let (loads, s') = collect_loads rest s in (loads_of load ++ loads, s'))
    else collect_loads rest (
        note
          (λ j. audit "load_declined_no_blocks" load.request_id (count "load_declined_no_blocks" j))
          s)

unfoldable pub retire_fills : List String → Scheduler → Scheduler
retire_fills [] s = s
retire_fills (finished_id ∷ rest) s = retire_fills rest (record s {
  filled_blocks = remove finished_id s.filled_blocks;
  reported_fill_blocks = remove finished_id s.reported_fill_blocks;
})

-- The state for this step's table; a replaced table is a fresh claim.
unfoldable pub next_fill : FilledBlocks → List (List ℕ) → Bool → FilledBlocks
next_fill state block_ids replace_table = record state {
  block_ids = block_ids;
  settled = if replace_table then [] else state.settled;
  scan_from = if replace_table then 0 else state.scan_from;
}

module _ (b : BlockPool) where
  open b use {Pool}

  track_row :
      Engine
      → List String
      → CachedRequest
      → Option FilledBlocks
      → Option Pool
      → Scheduler
      → Option (Scheduler × Option Pool)
  unfolding next_fill
  track_row e resumed r none pool s = some (s, pool)
  track_row e resumed r (some state) pool s = do
    block_ids ←
        extend_block_table state.block_ids (normalize_block_ids r.new_block_ids)
          (contains r.req_id resumed)
    keep_fill r.req_id (
        track_filled_blocks b e r.req_id (next_fill state block_ids (contains r.req_id resumed))
          pool s)

  track_rows :
      Engine
      → List String
      → List CachedRequest
      → Option Pool
      → Scheduler
      → Option (Scheduler × Option Pool)
  unfolding track_row
  track_rows e resumed [] pool s = some (s, pool)
  track_rows e resumed (r ∷ rest) pool s = do
    (s', pool') ← track_row e resumed r (get r.req_id s.filled_blocks) pool s
    track_rows e resumed rest pool' s'

  unfoldable pub track_running_fills :
      Engine → SchedulerOutput → Option Pool → Scheduler → Option (Scheduler × Option Pool)
  unfolding retire_fills track_rows
  track_running_fills e out pool s =
      let s' = retire_fills out.finished_req_ids s in
      elim out.scheduled_cached_reqs [
        | none ↦ some (s', pool)
        | some rows ↦ track_rows e out.resumed_req_ids rows pool s'
      ]

  -- The metadata, and what is cleared with it.
  hand_over :
      List PendingLoad
      → List PendingStore
      → Scheduler × Option Pool
      → SemBlendConnectorMetadata × Scheduler × Option Pool
  hand_over loads stores (s, pool) = (
    record { loads = loads; stores = stores; finalize = s.pending_finalize },
    record s { pending_loads = []; pending_finalize = [] },
    pool,
  )

  unfoldable pub build_connector_meta :
      Engine
      → SchedulerOutput
      → Option Pool
      → Scheduler
      → Option (SemBlendConnectorMetadata × Scheduler × Option Pool)
  unfolding collect_loads track_running_fills hand_over
  build_connector_meta e out pool s =
      let s₁ =
        retry_deferred_registrations e false (record s { scheduler_step = suc s.scheduler_step }) in
      let (loads, s₂) = collect_loads s₁.pending_loads s₁ in
      do
        (stores, s₃) ← build_store_metadata e out s₂
        tracked ← track_running_fills e out pool s₃
        some (hand_over loads stores tracked)

-- What `request_finished` forgets before the registration.
unfoldable pub forget_plan : String → Scheduler → Scheduler
forget_plan request_id s = record s {
  lookup_cache = remove request_id s.lookup_cache;
  stage_requests = discard request_id s.stage_requests;
  segment_namespaces = remove request_id s.segment_namespaces;
  load_plans = remove request_id s.load_plans;
  attempts = remove request_id s.attempts;
  no_safe_plan_reasons = remove request_id s.no_safe_plan_reasons;
  capture_state = remove request_id s.capture_state;
  filled_blocks = remove request_id s.filled_blocks;
  reported_fill_blocks = remove request_id s.reported_fill_blocks;
}

-- The `finally` block.
unfoldable pub forget_capture : String → Scheduler → Scheduler
forget_capture request_id s = note (forget_request_join_key request_id) (record s {
  capture_skipped_reasons = remove request_id s.capture_skipped_reasons;
  capture_boundaries = remove request_id s.capture_boundaries;
  captures_opened = remove request_id s.captures_opened;
})

-- The answer is always (False, None).
unfoldable pub request_finished : Engine → Request → Scheduler → Scheduler
unfolding forget_plan forget_capture
request_finished e r s = forget_capture r.request_id (
    register_donor_on_finish e r
      (forget_plan r.request_id (retry_deferred_registrations e false s)))

-- `on_new_request`
unfoldable pub on_new_request : Request → Scheduler → Scheduler
on_new_request r s = note (audit "request_first_seen" r.request_id) s
