-- ===== src/Tests/Data.antt =====
-- A connector in semantic-span mode with one donor in its store, and a request for it.
use semblend_vllm_connector.Prelude.{
  ℕ, Bool, true, false, not, ◌&&◌, none, some, List, [], ◌∷◌, Ratio,
}
use semblend_vllm_connector.Types.{
  ReuseMode, MaterializationKind, SemanticLookupResult, DonorRegistration, PendingLoad,
}
use semblend_vllm_connector.Config.{SemBlendVllmConfig}
use semblend_vllm_connector.Journal.{Journal}
use semblend_vllm_connector.Scheduler.{
  LoadPlan, CaptureState, PendingDonorRegistration, FilledBlocks, Scheduler, Request, LookupReply,
  Engine,
}
use semblend_vllm_connector.Fills.{Eviction, BlockPool, member}
use semblend_vllm_connector.Capture.{SchedulerOutput, RawBlockIds}

abbrev pub ratio : ℕ → ℕ → Ratio
ratio num den = record { num = num; den = den }

abbrev pub config : SemBlendVllmConfig
config = record {
  mode = ReuseMode.semantic_span_experimental;
  min_prompt_tokens = 4;
  min_semantic_span = 4;
  lookup_precheck = false;
  multi_donor_spans = false;
  min_mid_prefill_segment = 4;
  min_boundary_tokens = 0;
  evict_filled_blocks_from_prefix_cache = true;
  min_similarity = ratio 1 2;
  max_donors = 8;
  register_donors = true;
  skip_when_exact_prefix_ratio_at_least = ratio 9 10;
  lookup_top_k = 4;
  max_materialized_tokens = 1024;
  allow_non_identical_request_only = false;
  capture_served_requests = false;
  capture_policy = "all";
  capture_sample_rate = ratio 1 1;
  capture_write_queue_depth = 4;
  capture_write_close_timeout_s = ratio 5 1;
  donor_registration_retry_steps = 2;
  kv_storage_backend = "disk";
  kv_memory_max_donors = 8;
}

abbrev pub tokens : List ℕ
tokens = 1 ∷ 2 ∷ 3 ∷ 4 ∷ 5 ∷ 6 ∷ 7 ∷ 8 ∷ 9 ∷ 10 ∷ 11 ∷ 12 ∷ []

abbrev pub lookup_hit : SemanticLookupResult
lookup_hit = record {
  donor_id = "donor";
  similarity = ratio 1 1;
  reusable_token_count = 12;
  materialization_kind = MaterializationKind.semantic_span;
  donor_token_ids = [];
  block_refs = [];
  segments =
      record { donor_id = "donor"; donor_start = 6; target_start = 2; token_count = 10 } ∷ [];
  reason = none;
}

abbrev pub engine : Engine
engine = record {
  config = config;
  block_size = 4;
  compat_decline = none;
  has_provider = true;
  lookup = λ request. LookupReply.found (some lookup_hit);
  span_run_possible = none;
  query_text = λ r boundary. none;
  donor_text = λ r boundary. none;
  digest = λ request_id. 7;
  stored_donor_token_count = λ donor_id namespace. 16;
  has_stored_donor = λ donor_id namespace. true;
  register_raises = λ donor. false;
}

abbrev pub request : Request
request = record {
  request_id = "r1";
  token_ids = tokens;
  namespace = "space";
  model_id = "model";
  cache_salt = none;
  stage_hinted = false;
  capture_hinted = false;
}

abbrev pub journal : Journal
journal = record {
  audit_path = true;
  stats = [];
  request_seqs = [];
  request_event_seqs = [];
  next_request_seq = 0;
  rows = [];
}

abbrev pub donor : DonorRegistration
donor = record {
  donor_id = "held";
  token_ids = tokens;
  prompt_text = none;
  model_id = "model";
  namespace = "space";
  cache_salt = none;
  has_captured_kv = true;
}

abbrev pub held : PendingDonorRegistration
held = record { donor = donor; capture_namespace = "space"; opened_at_step = 1 }

abbrev pub plan : LoadPlan
plan = record {
  donor_id = "donor";
  token_count = 4;
  materialization_kind = MaterializationKind.semantic_span;
  namespace = "space";
  boundary = 4;
  donor_start = some 8;
  target_start = some 4;
  pieces = [];
}

abbrev pub scheduler : Scheduler
scheduler = record {
  journal = journal;
  attempts = [];
  lookup_cache = [];
  segment_namespaces = [];
  stage_requests = [];
  no_safe_plan_reasons = [];
  load_plans = ("r1", plan) ∷ [];
  pending_loads = [];
  served_request_ids = [];
  filled_blocks = [];
  reported_fill_blocks = [];
  capture_state = [];
  captures_opened = ("r1", "space") ∷ [];
  capture_boundaries = [];
  capture_skipped_reasons = [];
  pending_finalize = [];
  deferred_registrations = ("held", held) ∷ [];
  scheduler_step = 2;
  offered = [];
}

-- After the request's lookup, with its segments at hand.
abbrev pub looked_up : Scheduler
looked_up = record scheduler {
  lookup_cache = ("r1", some lookup_hit) ∷ [];
  segment_namespaces = ("r1", "space") ∷ [];
}

abbrev pub capture : CaptureState
capture = record {
  token_ids = tokens;
  block_ids = (5 ∷ 6 ∷ 7 ∷ []) ∷ [];
  namespace = "space";
  captured_end = 0;
}

abbrev pub pending : PendingLoad
pending = record {
  request_id = "r1";
  donor_id = "donor";
  token_count = 4;
  materialization_kind = MaterializationKind.semantic_span;
  namespace = "space";
  block_ids = some ((5 ∷ 6 ∷ 7 ∷ []) ∷ []);
  donor_start = some 8;
  target_start = some 4;
  pieces = record { donor_id = "donor"; donor_start = 8; target_start = 4; token_count = 4 } ∷ [];
}

abbrev pub fill : FilledBlocks
fill = record {
  block_ids = (5 ∷ 6 ∷ 7 ∷ []) ∷ [];
  first_approx_block = 1;
  donor_id = "donor";
  namespace = "space";
  settled = [];
  scan_from = 0;
}

-- One request that is scheduled for the first time, with seven tokens computed after this step.
abbrev pub output : SchedulerOutput
output = record {
  finished_req_ids = [];
  scheduled_new_reqs =
      record {
        req_id = "r2";
        token_ids = tokens;
        block_ids = RawBlockIds.flat (5 ∷ 6 ∷ 7 ∷ []);
        num_computed_tokens = 0;
        namespace = "space";
        stage_hinted = false;
        capture_hinted = false;
      }
      ∷ [];
  scheduled_cached_reqs = some [];
  resumed_req_ids = [];
  num_scheduled_tokens = some (("r2", 7) ∷ []);
}

-- A pool as the set of the blocks it names.
abbrev pub pool : BlockPool
pool = record {
  Pool = ℕ → Bool;
  is_cached = λ cached block. cached block;
  null_block = λ cached. some 0;
  hash_block_size = λ cached. 4;
  evict_blocks =
      λ blocks cached. Eviction.evicted (λ block. cached block && not (member block blocks));
}

abbrev pub all_cached : ℕ → Bool
all_cached block = true
