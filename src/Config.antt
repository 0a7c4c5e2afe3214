-- ===== src/Config.antt =====
-- config.py: the settings that decide something, and the self-defeating combinations that
-- `validation_warnings` names. Reading them from vLLM's configuration and the environment is not
-- modelled. A float is a fraction (`Ratio`); every count is a natural number.
use semblend_vllm_connector.Prelude.{
  ℕ, ◌*◌, String, Bool, true, false, ◌&&◌, List, [], ◌∷◌, ◌++◌, ltb, leb, Ratio, str_eq,
}
use semblend_vllm_connector.Types.{ReuseMode}

pub record SemBlendVllmConfig : Type 0 where
  pub mode : ReuseMode
  pub min_prompt_tokens : ℕ
  pub min_semantic_span : ℕ
  pub lookup_precheck : Bool
  pub multi_donor_spans : Bool
  pub min_mid_prefill_segment : ℕ
  pub min_boundary_tokens : ℕ
  pub evict_filled_blocks_from_prefix_cache : Bool
  pub min_similarity : Ratio
  pub max_donors : ℕ
  pub register_donors : Bool
  pub skip_when_exact_prefix_ratio_at_least : Ratio
  pub lookup_top_k : ℕ
  pub max_materialized_tokens : ℕ
  pub allow_non_identical_request_only : Bool
  pub capture_served_requests : Bool
  pub capture_policy : String
  pub capture_sample_rate : Ratio
  pub capture_write_queue_depth : ℕ
  pub capture_write_close_timeout_s : Ratio
  pub donor_registration_retry_steps : ℕ
  pub kv_storage_backend : String
  pub kv_memory_max_donors : ℕ

-- a / b ≥ r, for b > 0.
abbrev pub quotient_at_least : ℕ → ℕ → Ratio → Bool
quotient_at_least a b r = leb (r.num * b) (a * r.den)

abbrev pub is_discovery_only : ReuseMode → Bool
is_discovery_only ReuseMode.discovery_only = true
is_discovery_only _ = false

abbrev pub is_exact_prefix : ReuseMode → Bool
is_exact_prefix ReuseMode.exact_prefix = true
is_exact_prefix _ = false

abbrev pub is_request_only : ReuseMode → Bool
is_request_only ReuseMode.request_only_experimental = true
is_request_only _ = false

abbrev pub is_semantic_span : ReuseMode → Bool
is_semantic_span ReuseMode.semantic_span_experimental = true
is_semantic_span _ = false

pub data ConfigWarning : Type 0 where
  prompt_floor_below_span_floor samples_nothing samples_everything : ConfigWarning
  no_registration_retry no_close_wait no_queue_room : ConfigWarning

warn_if : Bool → ConfigWarning → List ConfigWarning
warn_if true w = w ∷ []
warn_if false w = []

unfoldable pub validation_warnings : SemBlendVllmConfig → List ConfigWarning
unfolding warn_if
validation_warnings c =
    let sampled = str_eq c.capture_policy "sampled" in
    warn_if (is_semantic_span c.mode && ltb c.min_prompt_tokens c.min_semantic_span)
      ConfigWarning.prompt_floor_below_span_floor
    ++ (warn_if (sampled && leb c.capture_sample_rate.num 0) ConfigWarning.samples_nothing
        ++ (warn_if (sampled && leb c.capture_sample_rate.den c.capture_sample_rate.num)
              ConfigWarning.samples_everything
            ++ (warn_if (leb c.donor_registration_retry_steps 0) ConfigWarning.no_registration_retry
                ++ (warn_if (leb c.capture_write_close_timeout_s.num 0) ConfigWarning.no_close_wait
                    ++ warn_if (ltb c.capture_write_queue_depth 1) ConfigWarning.no_queue_room))))
