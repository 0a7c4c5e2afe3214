-- ===== src/Worker.antt =====
-- connector.py: the state that one connector carries in the worker role, and the donor store that it
-- reads and writes. A tensor is a list of rows, one for each token (`HostKv`), and a layer of the paged
-- KV cache is a function from slots to rows, whatever the axes of its tensor; how a tensor is laid out,
-- split and rotated is not modelled.
use semblend_vllm_connector.Prelude.{
  ℕ, String, Bool, true, false, Option, none, some, List, [], ◌∷◌, ◌++◌, Dict, get, remove,
}
use semblend_vllm_connector.Config.{SemBlendVllmConfig}
use semblend_vllm_connector.Journal.{Journal}
use semblend_vllm_connector.Writer.{Row, HostKv, WriteJob}

-- A donor of the memory tier.
pub record MemoryEntry : Type 0 where
  pub token_count : ℕ
  pub request_id : String
  pub layers : Dict HostKv

-- A donor's directory: a file for each layer, none where the file cannot be parsed, and the token count
-- of its metadata.json.
pub record DonorDir : Type 0 where
  pub files : Dict (Option HostKv)
  pub published : Option ℕ

abbrev pub no_dir : DonorDir
no_dir = record { files = []; published = none }

-- `ForwardContext.attn_metadata`, of which only whether it is MLA metadata is read.
pub data AttnMetadata : Type 0 where
  shared : Bool → AttnMetadata
  by_layer : Dict Bool → AttnMetadata
  microbatches : List (Dict Bool) → AttnMetadata

-- `memory_store` has its least recently used donor first. `queue` are the jobs that the capture writer
-- has not run yet, and `inflight_layers` the layers staged for them, by storage key and layer.
pub record Worker : Type 0 where
  pub journal : Journal
  pub memory_store : Dict MemoryEntry
  pub disk : Dict DonorDir
  pub kv_caches : String → ℕ → Row
  pub registered_kv_caches : List String
  pub last_attn_metadata : Option AttnMetadata
  pub load_error_block_ids : List ℕ
  pub capture_progress : Dict (Dict ℕ)
  pub capture_namespaces : Dict String
  pub capture_base_missing_noted : Dict ℕ
  pub capture_skipped_reasons : Dict String
  pub capture_write_failed : List String
  pub finalize_pending : List String
  pub finalized_donors : Dict ℕ
  pub inflight_layers : Dict (Dict HostKv)
  pub queue : List WriteJob
  pub writer_closed : Bool
  pub writer_stats : Dict ℕ
  pub writer_events : List String
  pub writer_failed_requests : List String
  pub writer_evicted : List String

-- The configuration and what the worker reads of the engine. `storage_key` is the SHA-256 of a donor id
-- and a namespace; `rotate` turns the keys of a donor's row from one position to another, and
-- `layout_accepted` says whether the code knows how to address a layer's tensor.
pub record WorkerEngine : Type 0 where
  pub config : SemBlendVllmConfig
  pub block_size : ℕ
  pub storage_key : String → String → String
  pub rope_known : Bool
  pub rotate : ℕ → ℕ → Row → Row
  pub layout_accepted : String → Bool

abbrev pub note : (Journal → Journal) → Worker → Worker
note f w = record w { journal = f w.journal }

abbrev pub dir_or_none : Option DonorDir → DonorDir
dir_or_none none = no_dir
dir_or_none (some dir) = dir

unfoldable pub donor_dir : String → Worker → DonorDir
donor_dir key w = dir_or_none (get key w.disk)

abbrev pub is_some {ℓ} : {A : Type ℓ} → Option A → Bool
is_some none = false
is_some (some a) = true

unfoldable pub has_stored_donor : WorkerEngine → String → String → Worker → Bool
unfolding donor_dir
has_stored_donor e donor_id namespace w =
    is_some (donor_dir (e.storage_key donor_id namespace) w).published

-- `move_to_end`, where the key is there.
unfoldable pub move_to_end {ℓ} : {V : Type ℓ} → String → Dict V → Dict V
move_to_end key d = elim (get key d) [ none ↦ d | some v ↦ remove key d ++ (key, v) ∷ [] ]

count_of : Option MemoryEntry → Option ℕ → ℕ
count_of (some entry) published = entry.token_count
count_of none (some n) = n
count_of none none = 0

unfoldable pub stored_donor_token_count : WorkerEngine → String → String → Worker → ℕ × Worker
unfolding donor_dir move_to_end count_of
stored_donor_token_count e donor_id namespace w =
    let key = e.storage_key donor_id namespace in
    (
      count_of (get key w.memory_store) (donor_dir key w).published,
      record w { memory_store = move_to_end key w.memory_store },
    )

-- The blocks reported for this forward pass are handed over once.
unfoldable pub get_block_ids_with_load_errors : Worker → List ℕ × Worker
get_block_ids_with_load_errors w = (w.load_error_block_ids, record w { load_error_block_ids = [] })
