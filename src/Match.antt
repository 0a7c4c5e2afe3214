-- ===== src/Match.antt =====
-- connector.py, `get_num_new_matched_tokens`: the gates, the memoized lookup and the branches.
pub mod Sound
use semblend_vllm_connector.Prelude.{
  ℕ, ◌+◌, ◌-◌, max, String, Bool, true, false, not, ◌&&◌, ◌||◌, Option, none, some, List, ltb, ◌==◌,
  if◌then◌else◌, get, put, add, length, round_up,
}
use semblend_vllm_connector.Types.{MaterializationKind, SemanticLookupRequest, SemanticLookupResult}
use semblend_vllm_connector.Config.{
  is_discovery_only, is_exact_prefix, is_request_only, is_semantic_span, quotient_at_least,
}
use semblend_vllm_connector.Journal.{count, audit, or_zero}
use semblend_vllm_connector.Scheduler.{
  Scheduler, note, Request, Engine, LookupReply, raised, found, PrecheckReply, failed, answered,
}
use semblend_vllm_connector.Plan.{Reply, decline}
use semblend_vllm_connector.SpanPlan.{span_branch}
use semblend_vllm_connector.PrefixPlan.{
  plan_request_only, plan_exact_prefix, reject_no_safe_plan, is_empty, is_exact_kind,
}

abbrev pub is_some {ℓ} : {A : Type ℓ} → Option A → Bool
is_some none = false
is_some (some x) = true

abbrev pub is_discovery_kind : MaterializationKind → Bool
is_discovery_kind MaterializationKind.discovery_only = true
is_discovery_kind _ = false

-- This visit's 0-based number, and the state that has counted it.
unfoldable pub record_attempt : String → Scheduler → ℕ × Scheduler
record_attempt request_id s =
    let attempt = or_zero (get request_id s.attempts) in
    (attempt, record s { attempts = put request_id (attempt + 1) s.attempts })

-- A counter and an audit row, always or for the first visit only.
abbrev pub counted : String → String → String → Scheduler → Scheduler
counted counter event request_id s = note (λ j. audit event request_id (count counter j)) s

abbrev pub counted_if : Bool → String → String → String → Scheduler → Scheduler
counted_if first counter event request_id s =
    if first then counted counter event request_id s else s

-- The answer of the provider's filter, where it has one: only an explicit `False` rules out.
ruled_out_by : PrecheckReply → Request → Scheduler → Bool × Scheduler
ruled_out_by failed r s = (false, note (count "lookup_precheck_errors_total") s)
ruled_out_by (answered (some false)) r s = (
  true,
  counted "skipped_no_shared_run_per_attempt" "lookup_skipped_no_shared_run" r.request_id s,
)
ruled_out_by (answered _) r s = (false, s)

checked_by :
    Option (List ℕ → String → ℕ → ℕ → PrecheckReply)
    → Engine
    → Request
    → ℕ
    → Scheduler
    → Bool × Scheduler
unfolding ruled_out_by
checked_by none e r computed s = (false, s)
checked_by (some check) e r computed s =
    let block = max 1 e.block_size in
    ruled_out_by
      (check r.token_ids r.namespace (round_up computed block) e.config.min_semantic_span) r s

unfoldable pub span_run_ruled_out : Engine → Request → ℕ → Scheduler → Bool × Scheduler
unfolding checked_by
span_run_ruled_out e r computed s =
    if not (is_semantic_span e.config.mode) || not e.config.lookup_precheck
    then (false, s)
    else checked_by e.span_run_possible e r computed s

-- The branches for a hit, from the mode test on.
unfoldable pub on_hit :
    Engine → Request → ℕ → Bool → SemanticLookupResult → Scheduler → Reply × Scheduler
on_hit e r computed first_lookup result s =
    if is_discovery_only e.config.mode
    then decline (
        if first_lookup
        then note
            (λ j.
              let j' =
                audit "materialization_suppressed_by_mode" r.request_id
                  (count "materialization_suppressed_by_mode" j) in
              if is_discovery_kind result.materialization_kind
              then count "discovery_only_hits_total" j'
              else j')
            s
        else s)
    else if is_semantic_span e.config.mode && not (is_empty result.segments)
    then span_branch e r computed result s
    else if is_request_only e.config.mode
        && not (is_empty result.donor_token_ids)
        && e.has_stored_donor result.donor_id r.namespace
        && computed == 0
    then plan_request_only e r computed result first_lookup s
    else if is_discovery_kind result.materialization_kind
    then decline (
        counted_if first_lookup "discovery_only_hits_total" "discovery_only_no_supply" r.request_id
          s)
    else if is_exact_prefix e.config.mode
        && is_exact_kind result.materialization_kind
        && not (is_empty result.block_refs)
        && ltb 0 result.reusable_token_count
    then plan_exact_prefix e r computed result s
    else reject_no_safe_plan e r result s

-- A miss, or a hit.
unfoldable pub on_result :
    Engine → Request → ℕ → Bool → Option SemanticLookupResult → Scheduler → Reply × Scheduler
on_result e r computed first_lookup none s =
    decline (counted_if first_lookup "semantic_misses_total" "semantic_lookup_miss" r.request_id s)
on_result e r computed first_lookup (some result) s =
    on_hit e r computed first_lookup result
      (counted_if first_lookup "semantic_hits_total" "semantic_lookup_hit" r.request_id s)

lookup_request : Engine → Request → ℕ → SemanticLookupRequest
lookup_request e r computed = record {
  request_id = r.request_id;
  token_ids = r.token_ids;
  prompt_text = e.query_text r computed;
  model_id = r.model_id;
  namespace = r.namespace;
  cache_salt = r.cache_salt;
  already_computed_tokens = computed;
}

-- The provider's answer: an exception is not memoized, a result (or a miss) is.
on_reply : LookupReply → Engine → Request → ℕ → Scheduler → Reply × Scheduler
on_reply raised e r computed s =
    decline (counted "provider_errors_total" "lookup_error" r.request_id s)
on_reply (found result) e r computed s = on_result e r computed true result (record s {
  lookup_cache = put r.request_id result s.lookup_cache;
  segment_namespaces = put r.request_id r.namespace s.segment_namespaces;
})

on_cache :
    Option (Option SemanticLookupResult) → Engine → Request → ℕ → Scheduler → Reply × Scheduler
unfolding on_reply lookup_request
on_cache none e r computed s = on_reply (e.lookup (lookup_request e r computed)) e r computed s
on_cache (some result) e r computed s = on_result e r computed false result s

unfoldable pub consult : Engine → Request → ℕ → Scheduler → Reply × Scheduler
unfolding on_cache
consult e r computed s = on_cache (get r.request_id s.lookup_cache) e r computed s

mark_stage : Request → Scheduler → Scheduler
mark_stage r s =
    if r.stage_hinted then record s { stage_requests = add r.request_id s.stage_requests } else s

-- From the provider test on.
unfoldable pub past_gates : Engine → Request → ℕ → Bool → Scheduler → Reply × Scheduler
unfolding mark_stage
past_gates e r computed first_attempt s =
    if not e.has_provider
    then decline (counted_if first_attempt "skipped_no_provider" "lookup_error" r.request_id s)
    else (let (ruled_out, s') = span_run_ruled_out e r computed (mark_stage r s) in
        if ruled_out then decline s' else consult e r computed s')

-- The early exits, in order.
unfoldable pub gates : Engine → Request → ℕ → Bool → Scheduler → Reply × Scheduler
gates e r computed first_attempt s =
    let tokens = length r.token_ids in
    if is_some e.compat_decline
    then decline (
        counted_if first_attempt "skipped_incompatible_engine_config"
          "lookup_skipped_incompatible_engine" r.request_id s)
    else if is_empty r.token_ids || ltb tokens e.config.min_prompt_tokens
    then decline (
        counted_if first_attempt "skipped_short_prompt" "lookup_skipped_short_prompt" r.request_id
          s)
    else if quotient_at_least computed (max tokens 1) e.config.skip_when_exact_prefix_ratio_at_least
    then decline (
        counted "skipped_exact_prefix_sufficient_per_attempt" "lookup_skipped_exact_ratio"
          r.request_id s)
    else if ltb computed e.config.min_boundary_tokens
    then decline (
        counted "skipped_below_min_boundary_per_attempt" "lookup_skipped_below_min_boundary"
          r.request_id s)
    else if is_semantic_span e.config.mode && ltb (tokens - computed) e.config.min_semantic_span
    then decline (
        counted "skipped_remaining_below_min_span_per_attempt"
          "lookup_skipped_remaining_below_min_span" r.request_id s)
    else past_gates e r computed first_attempt s

unfoldable pub get_num_new_matched_tokens : Engine → Request → ℕ → Scheduler → Reply × Scheduler
get_num_new_matched_tokens e r computed s =
    let (attempt, s') = record_attempt r.request_id s in
    let first_attempt = attempt == 0 in
    gates e r computed first_attempt (if first_attempt then note (count "lookups_total") s' else s')
