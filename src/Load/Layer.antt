-- ===== src/Load/Layer.antt =====
-- connector.py, `start_load_kv`: one layer of a load. Its donor copy is read, cut to the load's window,
-- rotated for a span, and written into the slots of the window.
use semblend_vllm_connector.Prelude.{
  ℕ, zero, suc, String, Bool, true, false, ◌&&◌, ◌||◌, Option, none, some, List, [], ◌∷◌, Dict, get,
  if◌then◌else◌, ltb, ◌==◌, str_eq, take, drop, length,
}
use semblend_vllm_connector.Types.{MaterializationKind, PendingLoad}
use semblend_vllm_connector.Journal.{count}
use semblend_vllm_connector.Slots.{SlotMapping, slot_mapping}
use semblend_vllm_connector.Writer.{Row, HostKv}
use semblend_vllm_connector.Worker.{
  MemoryEntry, AttnMetadata, Worker, WorkerEngine, note, donor_dir,
}

abbrev pub first_batch : List (Dict Bool) → Dict Bool
first_batch [] = []
first_batch (batch ∷ rest) = batch

-- Whether the layer's metadata is MLA metadata; none where there is no metadata for the layer.
unfoldable pub layer_attn_metadata : Option AttnMetadata → String → Option Bool
layer_attn_metadata none layer = none
layer_attn_metadata (some (AttnMetadata.shared is_mla)) layer = some is_mla
layer_attn_metadata (some (AttnMetadata.by_layer metadata)) layer = get layer metadata
layer_attn_metadata (some (AttnMetadata.microbatches batches)) layer =
    get layer (first_batch batches)

abbrev pub is_mla : Option Bool → Bool
is_mla none = false
is_mla (some mla) = mla

-- What a layer's step of a load came to.
pub data LayerOutcome : Type 0 where
  written gone refused : LayerOutcome
  declined : String → LayerOutcome

abbrev pub is_span : MaterializationKind → Bool
is_span MaterializationKind.semantic_span = true
is_span _ = false

abbrev pub or_zero : Option ℕ → ℕ
or_zero none = 0
or_zero (some n) = n

-- `src[start : start + count]`
abbrev pub slice : ℕ → ℕ → HostKv → HostKv
slice start count rows = take count (drop start rows)

unfoldable pub rotated : (Row → Row) → HostKv → HostKv
rotated rotate [] = []
rotated rotate (row ∷ rows) = rotate row ∷ rotated rotate rows

-- The slice of a span load, or the counter that says why the layer is declined.
pub data SpanSlice : Type 0 where
  window : HostKv → SpanSlice
  decline : String → SpanSlice

unfoldable pub rotated_window : WorkerEngine → HostKv → ℕ → Option ℕ → Option ℕ → SpanSlice
unfolding rotated
rotated_window e src count (some donor_start) (some target_start) =
    if ltb (length (slice donor_start count src)) count
    then SpanSlice.decline "semantic_span_declined_short_donor"
    else SpanSlice.window
        (rotated (e.rotate donor_start target_start) (slice donor_start count src))
rotated_window e src count _ _ = SpanSlice.decline "semantic_span_declined_no_rope_params"

unfoldable pub semantic_span_slice : WorkerEngine → HostKv → PendingLoad → Option Bool → SpanSlice
unfolding rotated_window
semantic_span_slice e src load metadata =
    if is_mla metadata
    then SpanSlice.decline "semantic_span_declined_mla"
    else if e.rope_known
    then rotated_window e src load.token_count load.donor_start load.target_start
    else SpanSlice.decline "semantic_span_declined_no_rope_params"

-- What is to be written of a layer.
unfoldable pub layer_rows : WorkerEngine → HostKv → PendingLoad → Option Bool → SpanSlice
unfolding semantic_span_slice
layer_rows e src load metadata =
    if is_span load.materialization_kind
    then semantic_span_slice e src load metadata
    else SpanSlice.window (slice (or_zero load.donor_start) load.token_count src)

-- The layer's copy in the memory entry, or else in its file.
unfoldable pub layer_source :
    WorkerEngine → PendingLoad → Option MemoryEntry → String → Worker → Option HostKv
unfolding donor_dir
layer_source e load entry layer w =
    let file = get layer (donor_dir (e.storage_key load.donor_id load.namespace) w).files in
    let from_file : Option HostKv = elim file [ none ↦ none | some parsed ↦ parsed ] in
    elim entry [
      | none ↦ from_file
      | some kept ↦ elim (get layer kept.layers) [ none ↦ from_file | some rows ↦ some rows ]
    ]

-- `cache[slots] = rows`, in order.
unfoldable pub write_rows : List ℕ → List Row → (ℕ → Row) → ℕ → Row
write_rows (slot ∷ slots) (row ∷ rows) cache =
    write_rows slots rows (λ s. if slot == s then row else cache s)
write_rows _ _ cache = cache

unfoldable pub set_layer : String → (ℕ → Row) → Worker → Worker
set_layer layer cache w = record w {
  kv_caches = λ name. if str_eq layer name then cache else w.kv_caches name;
}

unfoldable pub repeated : ℕ → Row → List Row
repeated zero row = []
repeated (suc n) row = row ∷ repeated n row

-- PyTorch repeats a single row over all slots where the layout is MLA; any other mismatch raises.
unfoldable pub rows_for : Option Bool → ℕ → List Row → List Row
unfolding repeated
rows_for (some true) n (row ∷ []) = repeated n row
rows_for _ n rows = rows

unfoldable pub inject_kv_into_layer :
    WorkerEngine → String → List Row → List ℕ → Option Bool → Worker → LayerOutcome × Worker
unfolding write_rows set_layer rows_for
inject_kv_into_layer e layer rows slots metadata w =
    let fitted = rows_for metadata (length slots) rows in
    if (is_mla metadata || e.layout_accepted layer) && length fitted == length slots
    then (LayerOutcome.written, set_layer layer (write_rows slots fitted (w.kv_caches layer)) w)
    else (LayerOutcome.refused, w)

-- Rows into the slots of the load's window.
unfoldable pub place_rows :
    WorkerEngine
    → PendingLoad
    → List (List ℕ)
    → String
    → Option Bool
    → SpanSlice
    → Worker
    → LayerOutcome × Worker
unfolding inject_kv_into_layer
place_rows e load blocks layer metadata (SpanSlice.decline counter) w =
    (LayerOutcome.declined counter, note (count counter) w)
place_rows e load blocks layer metadata (SpanSlice.window rows) w =
    elim (slot_mapping e.block_size blocks load.token_count (or_zero load.target_start)) [
      | SlotMapping.slots mapped ↦ inject_kv_into_layer e layer rows mapped metadata w
      | SlotMapping.multi_group_refused ↦ (LayerOutcome.refused, w)
      | SlotMapping.window_not_covered ↦ (LayerOutcome.refused, w)
    ]

unfoldable pub note_missing : Option Bool → Worker → Worker
note_missing none w = note (count "layer_attn_metadata_missing") w
note_missing (some metadata) w = w

-- The body of the loop over the layers.
unfoldable pub load_layer :
    WorkerEngine
    → PendingLoad
    → List (List ℕ)
    → Option MemoryEntry
    → Option AttnMetadata
    → String
    → Worker
    → LayerOutcome × Worker
unfolding layer_source layer_rows place_rows note_missing layer_attn_metadata
load_layer e load blocks entry attn layer w =
    let metadata = layer_attn_metadata attn layer in
    let w' = note_missing metadata w in
    elim (layer_source e load entry layer w) [
      | none ↦ (LayerOutcome.gone, w')
      | some src ↦ place_rows e load blocks layer metadata (layer_rows e src load metadata) w'
    ]
