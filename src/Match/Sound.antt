-- ===== src/Match/Sound.antt =====
-- The match hook as a whole, whatever the provider answers.
use semblend_vllm_connector.Prelude.{
  ℕ, ◌-◌, ◌<◌, max, ◌≡◌, refl, ◌⊎◌, inl, inr, Bool, true, false, not, ◌&&◌, ◌||◌, Option, none,
  some, arith, ltb, ◌==◌, get, length, IsAligned,
}
use semblend_vllm_connector.Types.{SemanticLookupResult}
use semblend_vllm_connector.Config.{
  is_discovery_only, is_exact_prefix, is_request_only, is_semantic_span, quotient_at_least,
}
use semblend_vllm_connector.Scheduler.{Scheduler, Request, Engine, LookupReply, raised, found}
use semblend_vllm_connector.Plan.{Reply, returned, index_error}
use semblend_vllm_connector.SpanPlan.Sound.{IsServed, IsSound, declined, served, IsSound-if}
use semblend_vllm_connector.SpanPlan.Multi.{span_branch-IsSound}
use semblend_vllm_connector.PrefixPlan.{is_empty, is_exact_kind}
use semblend_vllm_connector.PrefixPlan.Sound.{
  plan_request_only-IsSound, plan_exact_prefix-IsSound, reject_no_safe_plan-IsSound,
}
use semblend_vllm_connector.Match.{
  is_some, is_discovery_kind, span_run_ruled_out, mark_stage, on_hit, on_result, on_reply, on_cache,
  consult, past_gates, gates, get_num_new_matched_tokens,
}

module _ (e : Engine) (r : Request) (computed : ℕ) (block_pos : 0 < e.block_size)
    (aligned : IsAligned e.block_size computed) where
  on_hit-IsSound :
      (first_lookup : Bool) (result : SemanticLookupResult) (s : Scheduler)
      → IsSound e r computed (on_hit e r computed first_lookup result s)
  unfolding on_hit
  on_hit-IsSound first_lookup result s =
      IsSound-if e r computed (is_discovery_only e.config.mode) _ _ (λ _. declined _)
        (λ _.
          IsSound-if e r computed (is_semantic_span e.config.mode && not (is_empty result.segments))
            _ _ (λ _. span_branch-IsSound e r computed block_pos result s)
            (λ _.
              IsSound-if e r computed
                (is_request_only e.config.mode
                  && not (is_empty result.donor_token_ids)
                  && e.has_stored_donor result.donor_id r.namespace
                  && computed == 0)
                _ _
                (λ whole.
                  plan_request_only-IsSound e r computed block_pos result first_lookup s
                    (ground arith))
                (λ _.
                  IsSound-if e r computed (is_discovery_kind result.materialization_kind) _ _
                    (λ _. declined _)
                    (λ _.
                      IsSound-if e r computed
                        (is_exact_prefix e.config.mode
                          && is_exact_kind result.materialization_kind
                          && not (is_empty result.block_refs)
                          && ltb 0 result.reusable_token_count)
                        _ _ (λ _. plan_exact_prefix-IsSound e r computed block_pos aligned result s)
                        (λ _. reject_no_safe_plan-IsSound e r computed block_pos result s)))))

  on_result-IsSound :
      (first_lookup : Bool) (result : Option SemanticLookupResult) (s : Scheduler)
      → IsSound e r computed (on_result e r computed first_lookup result s)
  unfolding on_result
  on_result-IsSound first_lookup none s = declined _
  on_result-IsSound first_lookup (some result) s = on_hit-IsSound first_lookup result _

  on_reply-IsSound :
      (reply : LookupReply) (s : Scheduler) → IsSound e r computed (on_reply reply e r computed s)
  unfolding on_reply
  on_reply-IsSound raised s = declined _
  on_reply-IsSound (found result) s = on_result-IsSound true result _

  on_cache-IsSound :
      (cached : Option (Option SemanticLookupResult)) (s : Scheduler)
      → IsSound e r computed (on_cache cached e r computed s)
  unfolding on_cache
  on_cache-IsSound none s = on_reply-IsSound _ s
  on_cache-IsSound (some result) s = on_result-IsSound false result s

  consult-IsSound : (s : Scheduler) → IsSound e r computed (consult e r computed s)
  unfolding consult
  consult-IsSound s = on_cache-IsSound (get r.request_id s.lookup_cache) s

  past_gates-IsSound :
      (first_attempt : Bool) (s : Scheduler)
      → IsSound e r computed (past_gates e r computed first_attempt s)
  unfolding past_gates
  past_gates-IsSound first_attempt s =
      IsSound-if e r computed (not e.has_provider) _ _ (λ _. declined _)
        (λ _.
          IsSound-if e r computed (span_run_ruled_out e r computed (mark_stage r s)).0 _ _
            (λ _. declined _) (λ _. consult-IsSound _))

  gates-IsSound :
      (first_attempt : Bool) (s : Scheduler)
      → IsSound e r computed (gates e r computed first_attempt s)
  unfolding gates
  gates-IsSound first_attempt s =
      IsSound-if e r computed (is_some e.compat_decline) _ _ (λ _. declined _)
        (λ _.
          IsSound-if e r computed
            (is_empty r.token_ids || ltb (length r.token_ids) e.config.min_prompt_tokens) _ _
            (λ _. declined _)
            (λ _.
              IsSound-if e r computed
                (quotient_at_least computed (max (length r.token_ids) 1)
                  e.config.skip_when_exact_prefix_ratio_at_least)
                _ _ (λ _. declined _)
                (λ _.
                  IsSound-if e r computed (ltb computed e.config.min_boundary_tokens) _ _
                    (λ _. declined _)
                    (λ _.
                      IsSound-if e r computed
                        (is_semantic_span e.config.mode
                          && ltb (length r.token_ids - computed) e.config.min_semantic_span)
                        _ _ (λ _. declined _) (λ _. past_gates-IsSound first_attempt s)))))

  hook-IsSound : (s : Scheduler) → IsSound e r computed (get_num_new_matched_tokens e r computed s)
  unfolding get_num_new_matched_tokens
  hook-IsSound s = gates-IsSound _ _

-- What a reply of the match hook means.
abbrev pub IsCreditable : Engine → Request → ℕ → Reply × Scheduler → Type 0
IsCreditable e r computed (returned n, s) = (n ≡ 0) ⊎ IsServed e r computed n s
IsCreditable e r computed (index_error, s) =
    (e.config.multi_donor_spans ≡ true) × (e.config.min_semantic_span ≡ 0)

IsSound-IsCreditable :
    (e : Engine) (r : Request) (computed : ℕ) {out : Reply × Scheduler}
    → IsSound e r computed out
    → IsCreditable e r computed out
IsSound-IsCreditable e r computed (declined s) = inl refl
IsSound-IsCreditable e r computed (served n s h) = inr h
IsSound-IsCreditable e r computed (IsSound.raised s h k) = (h, k)

-- From a block-aligned boundary, whatever the provider, the donor store and the earlier calls: the
-- hook answers 0, or it answers a count n with a plan of n tokens at this boundary in the memo, such
-- that the window ends on a block edge, leaves at least two prompt tokens after it and is within
-- max_materialized_tokens. It raises only with multi_donor_spans on and min_semantic_span = 0.
pub get_num_new_matched_tokens-IsCreditable :
    (e : Engine) (r : Request) (computed : ℕ) (s : Scheduler)
    → 0 < e.block_size
    → IsAligned e.block_size computed
    → IsCreditable e r computed (get_num_new_matched_tokens e r computed s)
get_num_new_matched_tokens-IsCreditable e r computed s block_pos aligned =
    IsSound-IsCreditable e r computed (hook-IsSound e r computed block_pos aligned s)
