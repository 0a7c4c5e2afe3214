-- ===== src/Capture.antt =====
-- connector.py: which requests are captured as donors, and how far at each scheduler step. A capture
-- never covers a block that the forward pass has not filled.
pub mod Extent
use semblend_vllm_connector.Prelude.{
  ℕ, zero, suc, ◌+◌, ◌*◌, min, max, String, Bool, true, false, not, ◌&&◌, ◌||◌, Option, none, some,
  ◌>>=◌, List, [], ◌∷◌, ◌++◌, Dict, ltb, leb, ◌==◌, if◌then◌else◌, get, put, remove, contains,
  discard, length, round_down, str_eq,
}
use semblend_vllm_connector.Types.{PendingStore}
use semblend_vllm_connector.Config.{is_discovery_only}
use semblend_vllm_connector.Journal.{stat, count, audit, audit_engine, or_zero}
use semblend_vllm_connector.Scheduler.{CaptureState, Scheduler, note, Engine}
use semblend_vllm_connector.Plan.{cacheable_prefix_tokens}

-- The `block_ids` of a scheduled request: absent, one flat list or one list for each group.
pub data RawBlockIds : Type 0 where
  absent : RawBlockIds
  flat : List ℕ → RawBlockIds
  grouped : List (List ℕ) → RawBlockIds

unfoldable pub normalize_block_ids : RawBlockIds → Option (List (List ℕ))
normalize_block_ids RawBlockIds.absent = none
normalize_block_ids (RawBlockIds.flat []) = none
normalize_block_ids (RawBlockIds.flat (block ∷ rest)) = some ((block ∷ rest) ∷ [])
normalize_block_ids (RawBlockIds.grouped []) = none
normalize_block_ids (RawBlockIds.grouped (group ∷ rest)) = some (group ∷ rest)

-- vLLM's NewRequestData, as far as it is read: `namespace` is what `namespace_for_request` digests
-- and the hints are what `_hinted` reads.
pub record NewRequest : Type 0 where
  pub req_id : String
  pub token_ids : List ℕ
  pub block_ids : RawBlockIds
  pub num_computed_tokens : ℕ
  pub namespace : String
  pub stage_hinted : Bool
  pub capture_hinted : Bool

-- A row of vLLM's CachedRequestData.
pub record CachedRequest : Type 0 where
  pub req_id : String
  pub new_block_ids : RawBlockIds
  pub num_computed_tokens : ℕ
  pub num_output_tokens : ℕ

pub record SchedulerOutput : Type 0 where
  pub finished_req_ids : List String
  pub scheduled_new_reqs : List NewRequest
  pub scheduled_cached_reqs : Option (List CachedRequest)
  pub resumed_req_ids : List String
  pub num_scheduled_tokens : Option (Dict ℕ)

unfoldable pub materialization_enabled : Engine → Bool
materialization_enabled e = elim e.compat_decline [
  | none ↦ not (is_discovery_only e.config.mode)
  | some reason ↦ false
]

unfoldable pub note_capture_disabled : Scheduler → Scheduler
note_capture_disabled s =
    note
      (λ j.
        let first = stat "capture_disabled_steps" j == 0 in
        let j' = count "capture_disabled_steps" j in
        if first then audit_engine "capture_disabled" j' else j')
      s

unfoldable pub note_capture_skipped : String → String → String → Scheduler → Scheduler
note_capture_skipped request_id reason counter s =
    note (λ j. audit "capture_skipped" request_id (count counter j))
      (record s { capture_skipped_reasons = put request_id reason s.capture_skipped_reasons })

-- Whether the request may be captured, which consumes its mark in the served set.
unfoldable pub capture_allowed : Engine → String → Scheduler → Bool × Scheduler
capture_allowed e request_id s =
    if not (contains request_id s.served_request_ids) then (true, s) else (
      e.config.capture_served_requests,
      record s { served_request_ids = discard request_id s.served_request_ids },
    )

-- digest < rate * 2 ** 64
unfoldable pub sampled_for_capture : Engine → String → Bool
sampled_for_capture e request_id =
    let rate = e.config.capture_sample_rate in
    if leb rate.den rate.num
    then true
    else if leb rate.num 0
    then false
    else ltb (e.digest request_id * rate.den) (rate.num * 18446744073709551616)

-- The reason and its counter, or none.
unfoldable pub capture_policy_decline : Engine → NewRequest → Option (String × String)
capture_policy_decline e r =
    if r.stage_hinted
    then some ("staged_prefill_stage", "capture_skipped_staged_prefill_stage")
    else if str_eq e.config.capture_policy "sampled"
    then (if sampled_for_capture e r.req_id
        then none
        else some ("not_sampled", "capture_skipped_not_sampled"))
    else if str_eq e.config.capture_policy "hinted"
    then (if r.capture_hinted then none else some ("not_hinted", "capture_skipped_not_hinted"))
    else none

unfoldable pub computed_end : String → ℕ → ℕ → Option (Dict ℕ) → Scheduler → ℕ × Scheduler
computed_end request_id num_computed_tokens prompt_tokens none s = (
  prompt_tokens,
  note
      (λ j.
        let first = stat "capture_unclamped_no_schedule_info" j == 0 in
        let j' = count "capture_unclamped_no_schedule_info" j in
        if first then audit_engine "capture_unclamped_no_schedule_info" j' else j')
      s,
)
computed_end request_id num_computed_tokens prompt_tokens (some scheduled) s =
    (num_computed_tokens + or_zero (get request_id scheduled), s)

-- `zip(current, added, strict=True)`; none is its ValueError.
extend_groups : List (List ℕ) → List (List ℕ) → Option (List (List ℕ))
extend_groups [] [] = some []
extend_groups (old ∷ current) (new ∷ added) = do
  rest ← extend_groups current added
  some ((old ++ new) ∷ rest)
extend_groups _ _ = none

unfoldable pub extend_block_table :
    List (List ℕ) → Option (List (List ℕ)) → Bool → Option (List (List ℕ))
unfolding extend_groups
extend_block_table current none replace_table = some current
extend_block_table current (some added) replace_table =
    if replace_table then some added else extend_groups current added

-- `len(state.block_ids[0])`: an empty table, which `normalize_block_ids` never gives, has no blocks.
abbrev pub head_blocks : List (List ℕ) → ℕ
head_blocks [] = 0
head_blocks (group ∷ rest) = length group

pub capture_end : Engine → CaptureState → ℕ → ℕ
capture_end e state computed =
    min
      (min (cacheable_prefix_tokens (length state.token_ids) e.block_size)
        (head_blocks state.block_ids * e.block_size))
      (round_down computed e.block_size)

pub store_to : String → CaptureState → ℕ → Bool → PendingStore
store_to request_id state end final = record {
  request_id = request_id;
  token_ids = state.token_ids;
  token_count = end;
  namespace = state.namespace;
  block_ids = some state.block_ids;
  final = final;
}

-- The captures still open, after a store up to `end`.
keep_capture : String → CaptureState → ℕ → Bool → Scheduler → Scheduler
keep_capture request_id state end final s = record s {
  capture_state =
      if final
      then remove request_id s.capture_state
      else put request_id (record state { captured_end = end }) s.capture_state;
  captures_opened = put request_id state.namespace s.captures_opened;
  capture_skipped_reasons = remove request_id s.capture_skipped_reasons;
}

unfoldable pub advance_capture :
    Engine → String → CaptureState → ℕ → Scheduler → Option PendingStore × Scheduler
unfolding capture_end store_to keep_capture
advance_capture e request_id state computed s =
    let prompt_cap = cacheable_prefix_tokens (length state.token_ids) e.block_size in
    if leb prompt_cap 0
    then (
      none,
      note_capture_skipped request_id "prompt_below_one_block"
          "capture_skipped_prompt_below_one_block"
          (record s { capture_state = remove request_id s.capture_state }),
    )
    else (let end = capture_end e state computed in
        if leb end state.captured_end
        then (none, record s { capture_state = put request_id state s.capture_state })
        else (let final = leb prompt_cap end in
            (
              some (store_to request_id state end final),
              keep_capture request_id state end final s,
            )))
