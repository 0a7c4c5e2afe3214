-- ===== src/Types.antt =====
-- types.py: the values that the connector, its provider and the worker exchange. Token positions,
-- lengths and block ids are natural numbers; tokens are numbers; names are strings. The free-form
-- `metadata` and `quality_signals` mappings and the donor's timestamp decide nothing and are left out.
use semblend_vllm_connector.Prelude.{ℕ, String, Bool, Option, List, Ratio}

pub data ReuseMode : Type 0 where
  discovery_only exact_prefix request_only_experimental : ReuseMode
  segmented_experimental semantic_span_experimental : ReuseMode

pub data MaterializationKind : Type 0 where
  discovery_only exact_prefix request_only semantic_span segmented : MaterializationKind

pub record SemanticBlockRef : Type 0 where
  pub block_id : String
  pub start_token : ℕ
  pub token_count : ℕ

pub record SemanticSegment : Type 0 where
  pub donor_id : String
  pub donor_start : ℕ
  pub target_start : ℕ
  pub token_count : ℕ

pub record SemanticLookupRequest : Type 0 where
  pub request_id : String
  pub token_ids : List ℕ
  pub prompt_text : Option String
  pub model_id : String
  pub namespace : String
  pub cache_salt : Option String
  pub already_computed_tokens : ℕ

-- A list that is `None` in the source is read by its truth value only, so it is the empty list.
pub record SemanticLookupResult : Type 0 where
  pub donor_id : String
  pub similarity : Ratio
  pub reusable_token_count : ℕ
  pub materialization_kind : MaterializationKind
  pub donor_token_ids : List ℕ
  pub block_refs : List SemanticBlockRef
  pub segments : List SemanticSegment
  pub reason : Option String

pub record DonorRegistration : Type 0 where
  pub donor_id : String
  pub token_ids : List ℕ
  pub prompt_text : Option String
  pub model_id : String
  pub namespace : String
  pub cache_salt : Option String
  pub has_captured_kv : Bool

pub record LoadPiece : Type 0 where
  pub donor_id : String
  pub donor_start : ℕ
  pub target_start : ℕ
  pub token_count : ℕ

pub record PendingLoad : Type 0 where
  pub request_id : String
  pub donor_id : String
  pub token_count : ℕ
  pub materialization_kind : MaterializationKind
  pub namespace : String
  pub block_ids : Option (List (List ℕ))
  pub donor_start : Option ℕ
  pub target_start : Option ℕ
  pub pieces : List LoadPiece

pub record PendingStore : Type 0 where
  pub request_id : String
  pub token_ids : List ℕ
  pub token_count : ℕ
  pub namespace : String
  pub block_ids : Option (List (List ℕ))
  pub final : Bool

pub record SemBlendConnectorMetadata : Type 0 where
  pub loads : List PendingLoad
  pub stores : List PendingStore
  pub finalize : List String
