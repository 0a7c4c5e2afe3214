-- ===== src/Scheduler.antt =====
-- connector.py: the state that one connector carries in the scheduler role, and what it is told by
-- the engine, the provider and the store at a call. The hooks are in Match, Alloc, Capture,
-- Registration and Step.
use semblend_vllm_connector.Prelude.{ℕ, String, Bool, Option, List, Dict}
use semblend_vllm_connector.Types.{
  MaterializationKind, SemanticLookupRequest, SemanticLookupResult, DonorRegistration, LoadPiece,
  PendingLoad,
}
use semblend_vllm_connector.Config.{SemBlendVllmConfig}
use semblend_vllm_connector.Journal.{Journal}

-- The dictionary that `_record_load_plan` memoizes.
pub record LoadPlan : Type 0 where
  pub donor_id : String
  pub token_count : ℕ
  pub materialization_kind : MaterializationKind
  pub namespace : String
  pub boundary : ℕ
  pub donor_start : Option ℕ
  pub target_start : Option ℕ
  pub pieces : List LoadPiece

pub record CaptureState : Type 0 where
  pub token_ids : List ℕ
  pub block_ids : List (List ℕ)
  pub namespace : String
  pub captured_end : ℕ

-- What `donor_registered` reports about the text slice is left out.
pub record PendingDonorRegistration : Type 0 where
  pub donor : DonorRegistration
  pub capture_namespace : String
  pub opened_at_step : ℕ

pub record FilledBlocks : Type 0 where
  pub block_ids : List (List ℕ)
  pub first_approx_block : ℕ
  pub donor_id : String
  pub namespace : String
  pub settled : List ℕ
  pub scan_from : ℕ

pub data NoSafePlanReason : Type 0 where
  no_segments no_donor_token_ids donor_not_stored boundary_not_zero : NoSafePlanReason
  mode_kind_mismatch no_block_refs no_reusable_tokens : NoSafePlanReason

pub record Scheduler : Type 0 where
  pub journal : Journal
  pub attempts : Dict ℕ
  pub lookup_cache : Dict (Option SemanticLookupResult)
  pub segment_namespaces : Dict String
  pub stage_requests : List String
  pub no_safe_plan_reasons : Dict (List NoSafePlanReason)
  pub load_plans : Dict LoadPlan
  pub pending_loads : Dict PendingLoad
  pub served_request_ids : List String
  pub filled_blocks : Dict FilledBlocks
  pub reported_fill_blocks : Dict (List ℕ)
  pub capture_state : Dict CaptureState
  pub captures_opened : Dict String
  pub capture_boundaries : Dict ℕ
  pub capture_skipped_reasons : Dict String
  pub pending_finalize : List String
  pub deferred_registrations : Dict PendingDonorRegistration
  pub scheduler_step : ℕ
  -- The donors that the provider's `register_donor` took, the last one first.
  pub offered : List DonorRegistration

abbrev pub note : (Journal → Journal) → Scheduler → Scheduler
note f s = record s { journal = f s.journal }

-- What a hook reads of the vLLM request that it is given. `namespace` is what
-- `namespace_for_request` digests (SHA-256) and the hints are what `_hinted` reads under the two keys.
pub record Request : Type 0 where
  pub request_id : String
  pub token_ids : List ℕ
  pub namespace : String
  pub model_id : String
  pub cache_salt : Option String
  pub stage_hinted : Bool
  pub capture_hinted : Bool

pub data LookupReply : Type 0 where
  raised : LookupReply
  found : Option SemanticLookupResult → LookupReply

pub data PrecheckReply : Type 0 where
  failed : PrecheckReply
  answered : Option Bool → PrecheckReply

-- The configuration, and what the provider, the tokenizer and the donor store answer at this call.
pub record Engine : Type 0 where
  pub config : SemBlendVllmConfig
  pub block_size : ℕ
  pub compat_decline : Option String
  pub has_provider : Bool
  pub lookup : SemanticLookupRequest → LookupReply
  pub span_run_possible : Option (List ℕ → String → ℕ → ℕ → PrecheckReply)
  pub query_text : Request → ℕ → Option String
  pub donor_text : Request → ℕ → Option String
  -- The first eight bytes of the SHA-256 of a request id.
  pub digest : String → ℕ
  pub stored_donor_token_count : String → String → ℕ
  pub has_stored_donor : String → String → Bool
  pub register_raises : DonorRegistration → Bool
