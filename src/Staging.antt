-- ===== src/Staging.antt =====
-- connector.py: what stands between a captured layer and the capture writer. A layer is staged, its job
-- is queued, and what the writer reports is taken over by the thread that drains its reports.
use semblend_vllm_connector.Prelude.{
  ℕ, ◌+◌, String, Bool, true, Option, none, some, List, [], ◌∷◌, ◌++◌, Dict, get, put, remove,
  contains, add, if◌then◌else◌, ◌==◌, str_eq,
}
use semblend_vllm_connector.Types.{PendingStore}
use semblend_vllm_connector.Journal.{audit}
use semblend_vllm_connector.Writer.{HostKv, Kind, WriteJob}
use semblend_vllm_connector.Worker.{MemoryEntry, Worker, WorkerEngine, note, donor_dir}

abbrev pub or_nil {ℓ} : {V : Type ℓ} → Option (Dict V) → Dict V
or_nil none = []
or_nil (some d) = d

abbrev pub progress_of : String → Worker → Dict ℕ
progress_of request_id w = or_nil (get request_id w.capture_progress)

abbrev pub or_zero : Option ℕ → ℕ
or_zero none = 0
or_zero (some n) = n

abbrev pub staged_under : String → Worker → Dict HostKv
staged_under key w = or_nil (get key w.inflight_layers)

abbrev pub staged_layer : String → String → Worker → Option HostKv
staged_layer key layer w = get layer (staged_under key w)

abbrev pub entry_layer : String → Option MemoryEntry → Option HostKv
entry_layer layer none = none
entry_layer layer (some entry) = get layer entry.layers

abbrev pub parsed_file : Option (Option HostKv) → Option HostKv
parsed_file none = none
parsed_file (some parsed) = parsed

-- The copy of a layer in the donor store, or none where there is none that can be read.
unfoldable pub stored_layer : WorkerEngine → String → String → Worker → Option HostKv
unfolding donor_dir
stored_layer e key layer w =
    if str_eq e.config.kv_storage_backend "memory"
    then entry_layer layer (get key w.memory_store)
    else parsed_file (get layer (donor_dir key w).files)

unfoldable pub captured_layer : WorkerEngine → PendingStore → String → Worker → Option HostKv
unfolding stored_layer
captured_layer e store layer w =
    let key = e.storage_key store.request_id store.namespace in
    if contains store.request_id w.capture_write_failed
    then none
    else (elim (staged_layer key layer w) [
      | none ↦ stored_layer e key layer w
      | some staged ↦ some staged
    ])

unfoldable pub note_capture_base_missing : PendingStore → Worker → Worker
note_capture_base_missing store w =
    let noted = get store.request_id w.capture_base_missing_noted in
    let w' = record w {
      journal = audit "capture_base_missing" store.request_id w.journal;
      capture_base_missing_noted =
          put store.request_id store.token_count w.capture_base_missing_noted;
    } in
    elim noted [ none ↦ w' | some n ↦ if n == store.token_count then w else w' ]

-- A queued write failed, or was never queued.
unfoldable pub record_write_error : WorkerEngine → WriteJob → Worker → Worker
record_write_error e job w =
    let key = e.storage_key job.request_id job.namespace in
    record w {
      writer_stats =
          put "capture_write_errors_total"
            (or_zero (get "capture_write_errors_total" w.writer_stats) + 1) w.writer_stats;
      writer_events = w.writer_events ++ job.request_id ∷ [];
      writer_failed_requests = add job.request_id w.writer_failed_requests;
      inflight_layers = elim job.layer_name [
        | none ↦ w.inflight_layers
        | some layer ↦ elim (get key w.inflight_layers) [
          | none ↦ w.inflight_layers
          | some staged ↦ put key (remove layer staged) w.inflight_layers
        ]
      ];
    }

abbrev pub add_all : List String → List String → List String
add_all [] set = set
add_all (x ∷ rest) set = add x (add_all rest set)

abbrev pub remove_all {ℓ} : {V : Type ℓ} → List String → Dict V → Dict V
remove_all [] d = d
remove_all (x ∷ rest) d = remove_all rest (remove x d)

-- The rows of the failed writes, in order.
unfoldable pub audit_failures : List String → Worker → Worker
audit_failures [] w = w
audit_failures (request_id ∷ rest) w =
    audit_failures rest (note (audit "donor_capture_write_failed" request_id) w)

unfoldable pub drain_writer_reports : Worker → Worker
unfolding audit_failures
drain_writer_reports w = audit_failures w.writer_events (record w {
  writer_events = [];
  writer_failed_requests = [];
  writer_evicted = [];
  capture_write_failed = add_all w.writer_failed_requests w.capture_write_failed;
  capture_progress = remove_all w.writer_evicted w.capture_progress;
  finalized_donors = remove_all w.writer_evicted w.finalized_donors;
  capture_base_missing_noted = remove_all w.writer_evicted w.capture_base_missing_noted;
})

-- `in_time` is false where the queue has no room before the deadline of a teardown.
unfoldable pub submit_write : WorkerEngine → Bool → WriteJob → Worker → Worker
unfolding record_write_error drain_writer_reports
submit_write e in_time job w =
    if w.writer_closed
    then drain_writer_reports (record_write_error e job w)
    else if in_time
    then record w { queue = w.queue ++ job ∷ [] }
    else drain_writer_reports (record_write_error e job w)

abbrev pub layer_job : PendingStore → String → HostKv → ℕ → WriteJob
layer_job store layer host_kv token_count = record {
  request_id = store.request_id;
  namespace = store.namespace;
  kind = Kind.layer;
  layer_name = some layer;
  payload = host_kv;
  token_count = token_count;
  layer_names = [];
}

unfoldable pub submit_captured_layer :
    WorkerEngine → PendingStore → String → HostKv → ℕ → Worker → Worker
unfolding submit_write
submit_captured_layer e store layer host_kv token_count w =
    let key = e.storage_key store.request_id store.namespace in
    submit_write e true (layer_job store layer host_kv token_count) (record w {
      inflight_layers = put key (put layer host_kv (staged_under key w)) w.inflight_layers;
    })
