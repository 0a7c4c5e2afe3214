-- ===== src/Stores.antt =====
-- connector.py, `_build_store_metadata`: the stores that one scheduler step opens or extends. A
-- ValueError of `zip(..., strict=True)` ends the step and is `none`. The columns of vLLM's
-- CachedRequestData are taken as rows of equal number.
pub mod Extent
use semblend_vllm_connector.Prelude.{
  ℕ, String, Bool, true, false, not, Option, none, some, ◌>>=◌, List, [], ◌∷◌, ◌++◌, Dict, ltb,
  if◌then◌else◌, get, put, remove, contains, length,
}
use semblend_vllm_connector.Types.{PendingStore}
use semblend_vllm_connector.Journal.{count, audit}
use semblend_vllm_connector.Scheduler.{CaptureState, Scheduler, note, Engine}
use semblend_vllm_connector.Capture.{
  NewRequest, CachedRequest, SchedulerOutput, normalize_block_ids, materialization_enabled,
  note_capture_disabled, note_capture_skipped, capture_allowed, capture_policy_decline,
  computed_end, extend_block_table, advance_capture,
}

abbrev pub is_open : Option CaptureState → Bool
is_open none = false
is_open (some state) = true

-- The loop over `finished_req_ids`.
unfoldable pub retire_captures : List String → Scheduler → Scheduler
retire_captures [] s = s
retire_captures (finished_id ∷ rest) s = retire_captures rest (record s {
  capture_state = remove finished_id s.capture_state;
  pending_finalize =
      if is_open (get finished_id s.capture_state)
      then s.pending_finalize ++ (finished_id ∷ [])
      else s.pending_finalize;
  captures_opened = remove finished_id s.captures_opened;
  capture_skipped_reasons = remove finished_id s.capture_skipped_reasons;
  capture_boundaries = remove finished_id s.capture_boundaries;
})

-- With the block table read.
admit_blocks :
    Engine
    → Option (Dict ℕ)
    → NewRequest
    → Option (List (List ℕ))
    → Scheduler
    → Option PendingStore × Scheduler
admit_blocks e scheduled r none s =
    (none, note_capture_skipped r.req_id "no_block_ids" "capture_skipped_no_block_ids" s)
admit_blocks e scheduled r (some block_ids) s =
    let (end, s') =
      computed_end r.req_id r.num_computed_tokens (length r.token_ids) scheduled (record s {
        capture_boundaries = put r.req_id r.num_computed_tokens s.capture_boundaries;
      }) in
    advance_capture e r.req_id
      (record {
        token_ids = r.token_ids;
        block_ids = block_ids;
        namespace = r.namespace;
        captured_end = 0;
      })
      end s'

admit_policy :
    Engine
    → Option (Dict ℕ)
    → NewRequest
    → Option (String × String)
    → Scheduler
    → Option PendingStore × Scheduler
unfolding admit_blocks
admit_policy e scheduled r none s = admit_blocks e scheduled r (normalize_block_ids r.block_ids) s
admit_policy e scheduled r (some (reason, counter)) s =
    (none, note_capture_skipped r.req_id reason counter s)

-- One request that is scheduled for the first time.
unfoldable pub admit_one :
    Engine → Option (Dict ℕ) → NewRequest → Scheduler → Option PendingStore × Scheduler
unfolding admit_policy
admit_one e scheduled r s =
    if ltb (length r.token_ids) e.config.min_prompt_tokens
    then (none, note_capture_skipped r.req_id "short_prompt" "capture_skipped_short_prompt" s)
    else (let (allowed, s') = capture_allowed e r.req_id s in
        if not allowed
        then (
          none,
          note_capture_skipped r.req_id "served_request" "capture_skipped_served_request" s',
        )
        else admit_policy e scheduled r (capture_policy_decline e r) s')

-- `if store is not None: stores.append(store)`
abbrev pub with_store : Option PendingStore → List PendingStore → List PendingStore
with_store none stores = stores
with_store (some store) stores = store ∷ stores

unfoldable pub capture_admitted :
    Engine → Option (Dict ℕ) → List NewRequest → Scheduler → List PendingStore × Scheduler
unfolding admit_one
capture_admitted e scheduled [] s = ([], s)
capture_admitted e scheduled (r ∷ rest) s =
    let (store, s') = admit_one e scheduled r s in
    let (stores, s'') = capture_admitted e scheduled rest s' in (with_store store stores, s'')

close_short : String → Scheduler → Scheduler
close_short request_id s =
    note (λ j. audit "capture_closed_short" request_id (count "capture_closed_short_at_decode" j))
      (record s {
        capture_state = remove request_id s.capture_state;
        pending_finalize = s.pending_finalize ++ (request_id ∷ []);
      })

continue_prefill :
    Engine
    → Option (Dict ℕ)
    → List String
    → CachedRequest
    → CaptureState
    → Scheduler
    → Option (Option PendingStore × Scheduler)
continue_prefill e scheduled resumed r state s = do
  block_ids ←
      extend_block_table state.block_ids (normalize_block_ids r.new_block_ids)
        (contains r.req_id resumed)
  let (end, s') = computed_end r.req_id r.num_computed_tokens (length state.token_ids) scheduled s
  some (advance_capture e r.req_id (record state { block_ids = block_ids }) end s')

-- One row, with the capture that is open for it.
continue_open :
    Engine
    → Option (Dict ℕ)
    → List String
    → CachedRequest
    → Option CaptureState
    → Scheduler
    → Option (Option PendingStore × Scheduler)
unfolding continue_prefill close_short
continue_open e scheduled resumed r none s = some (none, s)
continue_open e scheduled resumed r (some state) s =
    let (allowed, s') = capture_allowed e r.req_id s in
    if not allowed
    then (let skipped =
          note_capture_skipped r.req_id "served_request" "capture_skipped_served_request" s' in
        some (none, record skipped { capture_state = remove r.req_id skipped.capture_state }))
    else if ltb 0 r.num_output_tokens
    then some (none, close_short r.req_id s')
    else continue_prefill e scheduled resumed r state s'

unfoldable pub continue_one :
    Engine
    → Option (Dict ℕ)
    → List String
    → CachedRequest
    → Scheduler
    → Option (Option PendingStore × Scheduler)
unfolding continue_open
continue_one e scheduled resumed r s =
    continue_open e scheduled resumed r (get r.req_id s.capture_state) s

unfoldable pub continue_rows :
    Engine
    → Option (Dict ℕ)
    → List String
    → List CachedRequest
    → Scheduler
    → Option (List PendingStore × Scheduler)
unfolding continue_one
continue_rows e scheduled resumed [] s = some ([], s)
continue_rows e scheduled resumed (r ∷ rest) s = do
  (store, s') ← continue_one e scheduled resumed r s
  (stores, s'') ← continue_rows e scheduled resumed rest s'
  some (with_store store stores, s'')

-- Without an open capture the source returns before the loop, whose rows would then all be skipped.
continue_cached :
    Option (List CachedRequest)
    → Engine
    → SchedulerOutput
    → Scheduler
    → Option (List PendingStore × Scheduler)
unfolding continue_rows
continue_cached none e out s = some ([], s)
continue_cached (some rows) e out s =
    continue_rows e out.num_scheduled_tokens out.resumed_req_ids rows s

unfoldable pub capture_continuations :
    Engine → SchedulerOutput → Scheduler → Option (List PendingStore × Scheduler)
unfolding continue_cached
capture_continuations e out s = continue_cached out.scheduled_cached_reqs e out s

unfoldable pub build_store_metadata :
    Engine → SchedulerOutput → Scheduler → Option (List PendingStore × Scheduler)
unfolding retire_captures capture_admitted capture_continuations
build_store_metadata e out s =
    if not (materialization_enabled e)
    then some ([], note_capture_disabled s)
    else (let (admitted, s') =
          capture_admitted e out.num_scheduled_tokens out.scheduled_new_reqs
            (retire_captures out.finished_req_ids s) in
        do (continued, s'') ← capture_continuations e out s'; some (admitted ++ continued, s''))
