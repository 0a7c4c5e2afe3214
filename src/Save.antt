-- ===== src/Save.antt =====
-- connector.py: `save_kv_layer`, the worker's half of a capture: each layer of a step's stores is copied
-- out of the paged KV cache and handed to the capture writer. What a capture costs in time and bytes,
-- the side stream of the copy and the CUDA event that ends it are left out.
pub mod Base
pub mod Captured
use semblend_vllm_connector.Prelude.{
  ℕ, ◌+◌, ◌-◌, String, Bool, true, false, ◌||◌, Option, none, some, List, [], ◌∷◌, ◌++◌, Dict, get,
  put, contains, add, if◌then◌else◌, ltb, leb, ◌==◌, length, min,
}
use semblend_vllm_connector.Types.{PendingStore, SemBlendConnectorMetadata}
use semblend_vllm_connector.Journal.{stat, count, audit, audit_engine}
use semblend_vllm_connector.Slots.{SlotMapping, slot_mapping}
use semblend_vllm_connector.Writer.{Row, HostKv}
use semblend_vllm_connector.Worker.{AttnMetadata, Worker, WorkerEngine, note}
use semblend_vllm_connector.Load.{is_mla}
use semblend_vllm_connector.Staging.{
  progress_of, or_zero, captured_layer, note_capture_base_missing, submit_captured_layer,
}

-- A call returns, or an exception leaves the connector.
pub data Call : Type 0 where
  returns raises : Worker → Call

-- `kv_layer[slots]`
pub gathered : (ℕ → Row) → List ℕ → HostKv
gathered cache [] = []
gathered cache (slot ∷ slots) = cache slot ∷ gathered cache slots

-- The rest of `_capture_layer`, from the position that the window starts at and what stands before it.
capture_from :
    WorkerEngine → PendingStore → List (List ℕ) → String → Option Bool → ℕ → HostKv → Worker → Call
unfolding gathered submit_captured_layer
capture_from e store blocks layer metadata start base w =
    elim (slot_mapping e.block_size blocks (store.token_count - start) start) [
      | SlotMapping.slots mapped ↦
          if is_mla metadata || e.layout_accepted layer
          then (let actual = start + length mapped in
              let progress = progress_of store.request_id w in
              let w' =
                submit_captured_layer e store layer (base ++ gathered (w.kv_caches layer) mapped)
                  actual w in
              Call.returns (record w' {
                journal = count "capture_layers_total" w'.journal;
                capture_namespaces = put store.request_id store.namespace w'.capture_namespaces;
                capture_progress =
                    put store.request_id (put layer actual progress) w'.capture_progress;
              }))
          else Call.raises w
      | SlotMapping.multi_group_refused ↦ Call.raises w
      | SlotMapping.window_not_covered ↦ Call.raises w
    ]

capture_onto :
    WorkerEngine
    → PendingStore
    → List (List ℕ)
    → String
    → Option Bool
    → ℕ
    → Option HostKv
    → Worker
    → Call
unfolding capture_from note_capture_base_missing
capture_onto e store blocks layer metadata start (some base) w =
    capture_from e store blocks layer metadata start base w
capture_onto e store blocks layer metadata start none w =
    capture_from e store blocks layer metadata 0 [] (
      if ltb 0 start
      then note_capture_base_missing store (note (count "layer_capture_base_missing") w)
      else w)

-- The hook is handed the layer's own metadata, and takes a dictionary of layers as not MLA.
abbrev pub own_metadata : Option AttnMetadata → Option Bool
own_metadata (some (AttnMetadata.shared mla)) = some mla
own_metadata _ = none

-- `blocks` are the store's block ids.
unfoldable pub capture_layer :
    WorkerEngine → PendingStore → List (List ℕ) → String → Option AttnMetadata → Worker → Call
unfolding capture_onto captured_layer
capture_layer e store blocks layer attn w =
    let start = or_zero (get layer (progress_of store.request_id w)) in
    if leb store.token_count start
    then Call.returns (note (count "layer_capture_skipped_nothing_new") w)
    else capture_onto e store blocks layer (own_metadata attn) start
        (if ltb 0 start then captured_layer e store layer w else none) w

-- `min(progress.values())`, for a progress that is not empty.
unfoldable pub shortest : ℕ → Dict ℕ → ℕ
shortest n [] = n
shortest n ((layer, m) ∷ rest) = shortest (min n m) rest

finalize_at : String → ℕ → Worker → Worker
finalize_at request_id token_count w =
    let marked = record w { finalize_pending = add request_id w.finalize_pending } in
    elim (get request_id w.finalized_donors) [
      | none ↦ marked
      | some published ↦ if published == token_count then w else marked
    ]

finalize_progress : String → Dict ℕ → Worker → Worker
unfolding finalize_at shortest
finalize_progress request_id [] w = w
finalize_progress request_id ((layer, n) ∷ rest) w = finalize_at request_id (shortest n rest) w

unfoldable pub queue_finalize : String → Worker → Worker
unfolding finalize_progress
queue_finalize request_id w =
    if contains request_id w.capture_write_failed
    then w
    else finalize_progress request_id (progress_of request_id w) w

unfoldable pub queue_finalizes : List String → Worker → Worker
queue_finalizes [] w = w
queue_finalizes (request_id ∷ rest) w = queue_finalizes rest (queue_finalize request_id w)

note_store_skipped : String → Worker → Worker
note_store_skipped request_id w = record w {
  journal =
      audit "capture_skipped" request_id
        (count "capture_skipped_store_without_block_ids" w.journal);
  capture_skipped_reasons = put request_id "store_without_block_ids" w.capture_skipped_reasons;
}

save_store : WorkerEngine → String → Option AttnMetadata → PendingStore → Worker → Call
unfolding note_store_skipped
save_store e layer attn store w = elim store.block_ids [
  | none ↦ Call.returns (note_store_skipped store.request_id w)
  | some blocks ↦ elim (capture_layer e store blocks layer attn w) [
    | raises w' ↦ Call.raises w'
    | returns w' ↦ Call.returns (if store.final then queue_finalize store.request_id w' else w')
  ]
]

save_stores : WorkerEngine → String → Option AttnMetadata → List PendingStore → Worker → Call
unfolding save_store
save_stores e layer attn [] w = Call.returns w
save_stores e layer attn (store ∷ rest) w = elim (save_store e layer attn store w) [
  | raises w' ↦ Call.raises w'
  | returns w' ↦ save_stores e layer attn rest w'
]

-- `metadata` is none where another connector's metadata reached this worker.
unfoldable pub save_kv_layer :
    WorkerEngine → Option SemBlendConnectorMetadata → String → Option AttnMetadata → Worker → Call
unfolding save_stores queue_finalizes
save_kv_layer e none layer attn w =
    let first = stat "capture_metadata_unexpected_type_layers" w.journal == 0 in
    let w' = note (count "capture_metadata_unexpected_type_layers") w in
    Call.returns (if first then note (audit_engine "capture_metadata_unexpected_type") w' else w')
save_kv_layer e (some metadata) layer attn w =
    save_stores e layer attn metadata.stores (queue_finalizes metadata.finalize w)
