-- ===== src/Load.antt =====
-- connector.py: `start_load_kv`, which writes the donor KV of a step's loads into the paged KV cache
-- before the forward pass. A load ends with the cache written, with the blocks handed back for
-- recomputation, or with an exception that ends the step.
pub mod Layer
pub mod Placed
pub mod Source
pub mod Cut
pub mod Written
pub mod Layers
pub mod Served
use semblend_vllm_connector.Prelude.{
  ℕ, zero, suc, ◌+◌, ◌<◌, ◌≡◌, String, Bool, true, false, not, ◌&&◌, ◌||◌, Option, none, some, List,
  [], ◌∷◌, ◌++◌, Dict, get, put, remove, if◌then◌else◌, ltb, leb, ◌==◌, str_eq, take, drop, length,
}
use semblend_vllm_connector.Types.{MaterializationKind, PendingLoad, SemBlendConnectorMetadata}
use semblend_vllm_connector.Journal.{stat, count, count_by, audit, audit_engine}
use semblend_vllm_connector.Fills.{union}
use semblend_vllm_connector.Slots.{SlotMapping, slot_mapping, destination_block_ids}
use semblend_vllm_connector.Writer.{Row, HostKv}
use semblend_vllm_connector.Worker.{
  MemoryEntry, DonorDir, AttnMetadata, Worker, WorkerEngine, note, donor_dir, is_some, move_to_end,
}
pub use semblend_vllm_connector.Load.Layer.*
unfoldable pub use semblend_vllm_connector.Load.Layer.{
  layer_attn_metadata, rotated, rotated_window, semantic_span_slice, layer_rows, layer_source,
  write_rows, set_layer, repeated, rows_for, inject_kv_into_layer, place_rows, note_missing,
  load_layer,
}

-- The layers written and the ones declined, first to last, and whether the loop was left because the
-- donor is gone or by an exception.
pub record LayersRun : Type 0 where
  pub worker : Worker
  pub materialized : List String
  pub declined : List String
  pub donor_gone : Bool
  pub raised : Bool

-- The loop over the layers. What follows a layer is run on the state that the layer leaves.
abbrev pub after_layer : String → (Worker → LayersRun) → LayerOutcome × Worker → LayersRun
after_layer layer rest (LayerOutcome.written, w) =
    let r = rest w in record r { materialized = layer ∷ r.materialized }
after_layer layer rest (LayerOutcome.declined reason, w) =
    let r = rest w in record r { declined = layer ∷ r.declined }
after_layer layer rest (LayerOutcome.gone, w) = record {
  worker = w;
  materialized = [];
  declined = [];
  donor_gone = true;
  raised = false;
}
after_layer layer rest (LayerOutcome.refused, w) = record {
  worker = w;
  materialized = [];
  declined = [];
  donor_gone = false;
  raised = true;
}

unfoldable pub load_layers :
    WorkerEngine
    → PendingLoad
    → List (List ℕ)
    → Option MemoryEntry
    → Option AttnMetadata
    → List String
    → Worker
    → LayersRun
load_layers e load blocks entry attn [] w = record {
  worker = w;
  materialized = [];
  declined = [];
  donor_gone = false;
  raised = false;
}
load_layers e load blocks entry attn (layer ∷ rest) w =
    after_layer layer (load_layers e load blocks entry attn rest)
      (load_layer e load blocks entry attn layer w)

abbrev pub is_empty : List String → Bool
is_empty [] = true
is_empty (x ∷ xs) = false

-- How a load ended: by an exception, with its blocks handed back, with nothing to write into, or with
-- the layers of the list written.
pub data LoadOutcome : Type 0 where
  raised handed_back no_layers : LoadOutcome
  materialized : List String → LoadOutcome

hand_back : WorkerEngine → PendingLoad → Worker → Worker
hand_back e load w =
    let failed = union (destination_block_ids e.block_size load) [] in
    record w {
      load_error_block_ids = union failed w.load_error_block_ids;
      journal =
          audit "load_error_blocks_reported" load.request_id
            (count_by (length failed) "load_error_blocks_reported" w.journal);
    }

note_declines : PendingLoad → LayersRun → Worker → Worker
note_declines load r w =
    if is_empty r.declined
    then w
    else note (audit "semantic_span_layers_declined" load.request_id) w

note_gone : PendingLoad → Bool → Worker → Worker
note_gone load true w =
    note
      (λ j.
        audit "runtime_materialization_declined" load.request_id
          (count "load_declined_donor_gone" j))
      w
note_gone load false w = w

-- What follows the loop over the layers.
unfoldable pub conclude : WorkerEngine → PendingLoad → LayersRun → LoadOutcome × Worker
unfolding hand_back note_declines note_gone
conclude e load r =
    let w = note_gone load r.donor_gone (note_declines load r r.worker) in
    let request_id = load.request_id in
    if r.raised
    then (LoadOutcome.raised, r.worker)
    else if is_span load.materialization_kind && (r.donor_gone || is_empty r.materialized)
    then (LoadOutcome.raised, note (audit "runtime_materialization_failed_loud" request_id) w)
    else if r.donor_gone
    then (LoadOutcome.handed_back, hand_back e load w)
    else if is_empty r.materialized
    then (
      LoadOutcome.no_layers,
      note
          (λ j.
            audit "runtime_materialization_declined" request_id
              (count "loads_rejected_no_kv_layers" j))
          w,
    )
    else (
      LoadOutcome.materialized r.materialized,
      note (λ j. audit "runtime_materialized" request_id (count "loads_materialized_total" j)) w,
    )

-- A load counts as a use of the donor's entry.
pub begin_load : WorkerEngine → PendingLoad → Worker → Worker
begin_load e load w = record w {
  journal = audit "runtime_materialization_started" load.request_id w.journal;
  memory_store = move_to_end (e.storage_key load.donor_id load.namespace) w.memory_store;
}

-- The donor's entry in the memory tier.
abbrev pub entry_of : WorkerEngine → PendingLoad → Worker → Option MemoryEntry
entry_of e load w = get (e.storage_key load.donor_id load.namespace) w.memory_store

pub load_into :
    WorkerEngine
    → Option AttnMetadata
    → List String
    → PendingLoad
    → Option (List (List ℕ))
    → Worker
    → LoadOutcome × Worker
unfolding conclude begin_load
load_into e attn layers load none w = (LoadOutcome.raised, w)
load_into e attn layers load (some blocks) w =
    conclude e load
      (load_layers e load blocks (entry_of e load w) attn layers (begin_load e load w))

-- The body of the loop over the loads, for the layers that `_iter_kv_layers` yields.
unfoldable pub load_one :
    WorkerEngine → Option AttnMetadata → List String → PendingLoad → Worker → LoadOutcome × Worker
unfolding load_into
load_one e attn layers load w = load_into e attn layers load load.block_ids w

abbrev pub is_raised : LoadOutcome → Bool
is_raised LoadOutcome.raised = true
is_raised _ = false

-- The loop over the loads, with how each of those reached ended; an exception ends it.
unfoldable pub load_all :
    WorkerEngine
    → Option AttnMetadata
    → List String
    → List PendingLoad
    → Worker
    → List LoadOutcome × Worker
load_all e attn layers [] w = ([], w)
load_all e attn layers (load ∷ rest) w =
    let (outcome, w') = load_one e attn layers load w in
    let (outcomes, w'') = load_all e attn layers rest w' in
    if is_raised outcome then (outcome ∷ [], w') else (outcome ∷ outcomes, w'')

unfoldable pub register_kv_caches : List String → Worker → Worker
register_kv_caches names w =
    note (audit_engine "kv_caches_registered") (record w { registered_kv_caches = names })

-- The layers that `_iter_kv_layers` yields, given those of the forward context.
unfoldable pub iter_kv_layers : List String → Worker → List String
iter_kv_layers no_compile_layers w =
    if is_empty w.registered_kv_caches then no_compile_layers else w.registered_kv_caches

-- The layout that the step's layers are read with, and the state that remembers it.
step_attn_metadata : Option AttnMetadata → Worker → Option AttnMetadata × Worker
step_attn_metadata (some attn) w = (some attn, record w { last_attn_metadata = some attn })
step_attn_metadata none w =
    let first = stat "materialized_without_forward" w.journal == 0 in
    let w' = note (count "materialized_without_forward") w in
    (
      w.last_attn_metadata,
      if first then note (audit_engine "materialized_without_forward") w' else w',
    )

-- `metadata` is none where another connector's metadata reached this worker.
unfoldable pub start_load_kv :
    WorkerEngine
    → Option SemBlendConnectorMetadata
    → Option AttnMetadata
    → List String
    → Worker
    → List LoadOutcome × Worker
unfolding step_attn_metadata load_all iter_kv_layers
start_load_kv e none attn no_compile_layers w =
    let first = stat "load_metadata_unexpected_type_steps" w.journal == 0 in
    let w' = note (count "load_metadata_unexpected_type_steps") w in
    ([], if first then note (audit_engine "load_metadata_unexpected_type") w' else w')
start_load_kv e (some metadata) attn no_compile_layers w = elim metadata.loads [
  | [] ↦ ([], w)
  | load ∷ rest ↦
      let (layout, w') = step_attn_metadata attn w in
      load_all e layout (iter_kv_layers no_compile_layers w) (load ∷ rest) w'
]
