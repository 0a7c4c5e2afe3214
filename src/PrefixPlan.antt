-- ===== src/PrefixPlan.antt =====
-- connector.py: the match hook's branches for a whole-prefix load (request-only mode), for an exact
-- prefix, and for a hit that no branch can serve.
pub mod Sound
use semblend_vllm_connector.Prelude.{
  ℕ, ◌-◌, min, String, Bool, true, false, not, ◌&&◌, ◌||◌, Option, none, some, List, [], ◌∷◌, ltb,
  leb, ◌==◌, if◌then◌else◌, get, put, length, round_down,
}
use semblend_vllm_connector.Types.{ReuseMode, MaterializationKind, SemanticLookupResult}
use semblend_vllm_connector.Journal.{count, count_by, audit}
use semblend_vllm_connector.Scheduler.{LoadPlan, NoSafePlanReason, Scheduler, note, Request, Engine}
use semblend_vllm_connector.Plan.{Reply, decline, cacheable_prefix_tokens, common_prefix_len}
use semblend_vllm_connector.SpanPlan.{advertise}

-- `max_candidate_tokens`
pub request_only_candidate : Engine → Request → SemanticLookupResult → ℕ
request_only_candidate e r result =
    let common_prefix = common_prefix_len result.donor_token_ids r.token_ids in
    let candidate =
      min
        (min (min (length r.token_ids) (length result.donor_token_ids))
          (e.stored_donor_token_count result.donor_id r.namespace))
        e.config.max_materialized_tokens in
    if e.config.allow_non_identical_request_only then candidate else min candidate common_prefix

request_only_plan : Request → ℕ → SemanticLookupResult → ℕ → LoadPlan
request_only_plan r computed result token_count = record {
  donor_id = result.donor_id;
  token_count = token_count;
  materialization_kind = MaterializationKind.request_only;
  namespace = r.namespace;
  boundary = computed;
  donor_start = none;
  target_start = none;
  pieces = [];
}

reject_request_only : Engine → Request → SemanticLookupResult → Bool → Scheduler → Scheduler
reject_request_only e r result first_lookup s =
    let common_prefix = common_prefix_len result.donor_token_ids r.token_ids in
    let non_identical =
      not e.config.allow_non_identical_request_only && ltb common_prefix (length r.token_ids) in
    if first_lookup
    then note
        (λ j. audit "request_only_load_rejected" r.request_id (
          count_by (if non_identical then 1 else 0)
            "request_only_loads_rejected_non_identical_prefix" j))
        s
    else s

unfoldable pub plan_request_only :
    Engine → Request → ℕ → SemanticLookupResult → Bool → Scheduler → Reply × Scheduler
unfolding request_only_candidate request_only_plan reject_request_only
plan_request_only e r computed result first_lookup s =
    let token_count = cacheable_prefix_tokens (request_only_candidate e r result) e.block_size in
    if ltb 0 token_count
    then advertise r "request_only_load_advertised"
        (request_only_plan r computed result token_count) s
    else decline (reject_request_only e r result first_lookup s)

-- The donor bound, the prompt bound and the operator bound, in that order.
pub exact_prefix_count : Engine → Request → ℕ → SemanticLookupResult → ℕ
exact_prefix_count e r computed result =
    let reusable_end =
      round_down (min result.reusable_token_count (length r.token_ids)) e.block_size in
    let prompt_end = cacheable_prefix_tokens (length r.token_ids) e.block_size in
    round_down (min (min reusable_end prompt_end - computed) e.config.max_materialized_tokens)
      e.block_size

exact_prefix_plan : Request → ℕ → SemanticLookupResult → ℕ → LoadPlan
exact_prefix_plan r computed result token_count = record {
  donor_id = result.donor_id;
  token_count = token_count;
  materialization_kind = result.materialization_kind;
  namespace = r.namespace;
  boundary = computed;
  donor_start = some computed;
  target_start = some computed;
  pieces = [];
}

unfoldable pub plan_exact_prefix :
    Engine → Request → ℕ → SemanticLookupResult → Scheduler → Reply × Scheduler
unfolding exact_prefix_count exact_prefix_plan
plan_exact_prefix e r computed result s =
    let token_count = exact_prefix_count e r computed result in
    if leb token_count 0
    then decline (
        note
          (λ j.
            audit "exact_prefix_load_declined" r.request_id
              (count "exact_prefix_declined_below_one_block_after_clamp_per_attempt" j))
          s)
    else advertise r "exact_prefix_load_advertised"
        (exact_prefix_plan r computed result token_count) s

abbrev pub is_empty {ℓ} : {A : Type ℓ} → List A → Bool
is_empty [] = true
is_empty (x ∷ xs) = false

abbrev pub is_exact_kind : MaterializationKind → Bool
is_exact_kind MaterializationKind.exact_prefix = true
is_exact_kind _ = false

reason_in_mode : ReuseMode → Engine → Request → SemanticLookupResult → NoSafePlanReason
reason_in_mode ReuseMode.semantic_span_experimental e r result = NoSafePlanReason.no_segments
reason_in_mode ReuseMode.request_only_experimental e r result =
    if is_empty result.donor_token_ids
    then NoSafePlanReason.no_donor_token_ids
    else if not (e.has_stored_donor result.donor_id r.namespace)
    then NoSafePlanReason.donor_not_stored
    else NoSafePlanReason.boundary_not_zero
reason_in_mode ReuseMode.exact_prefix e r result =
    if not (is_exact_kind result.materialization_kind)
    then NoSafePlanReason.mode_kind_mismatch
    else if is_empty result.block_refs
    then NoSafePlanReason.no_block_refs
    else NoSafePlanReason.no_reusable_tokens
reason_in_mode _ e r result = NoSafePlanReason.mode_kind_mismatch

unfoldable pub no_safe_plan_reason : Engine → Request → SemanticLookupResult → NoSafePlanReason
unfolding reason_in_mode
no_safe_plan_reason e r result = reason_in_mode e.config.mode e r result

abbrev pub reason_tag : NoSafePlanReason → ℕ
reason_tag NoSafePlanReason.no_segments = 0
reason_tag NoSafePlanReason.no_donor_token_ids = 1
reason_tag NoSafePlanReason.donor_not_stored = 2
reason_tag NoSafePlanReason.boundary_not_zero = 3
reason_tag NoSafePlanReason.mode_kind_mismatch = 4
reason_tag NoSafePlanReason.no_block_refs = 5
reason_tag NoSafePlanReason.no_reusable_tokens = 6

abbrev pub rejected_counter : NoSafePlanReason → String
rejected_counter NoSafePlanReason.no_segments = "materialization_rejected_no_safe_plan_no_segments"
rejected_counter NoSafePlanReason.no_donor_token_ids =
    "materialization_rejected_no_safe_plan_no_donor_token_ids"
rejected_counter NoSafePlanReason.donor_not_stored =
    "materialization_rejected_no_safe_plan_donor_not_stored"
rejected_counter NoSafePlanReason.boundary_not_zero =
    "materialization_rejected_no_safe_plan_boundary_not_zero"
rejected_counter NoSafePlanReason.mode_kind_mismatch =
    "materialization_rejected_no_safe_plan_mode_kind_mismatch"
rejected_counter NoSafePlanReason.no_block_refs =
    "materialization_rejected_no_safe_plan_no_block_refs"
rejected_counter NoSafePlanReason.no_reusable_tokens =
    "materialization_rejected_no_safe_plan_no_reusable_tokens"

has_reason : NoSafePlanReason → List NoSafePlanReason → Bool
has_reason reason [] = false
has_reason reason (other ∷ rest) = reason_tag reason == reason_tag other || has_reason reason rest

or_none : Option (List NoSafePlanReason) → List NoSafePlanReason
or_none none = []
or_none (some reasons) = reasons

-- One row for each reason of a request; the request itself is counted with its first reason.
unfoldable pub reject_no_safe_plan :
    Engine → Request → SemanticLookupResult → Scheduler → Reply × Scheduler
unfolding no_safe_plan_reason has_reason or_none
reject_no_safe_plan e r result s =
    let reason = no_safe_plan_reason e r result in
    let recorded = or_none (get r.request_id s.no_safe_plan_reasons) in
    if has_reason reason recorded
    then decline s
    else decline (
        note
          (λ j. audit "materialization_rejected_no_safe_plan" r.request_id (
            count (rejected_counter reason)
              (if is_empty recorded then count "materialization_rejected_no_safe_plan" j else j)))
          (record s {
            no_safe_plan_reasons = put r.request_id (reason ∷ recorded) s.no_safe_plan_reasons;
          }))
