-- ===== src/Publish.antt =====
-- connector.py: the jobs of the capture writer and what a step makes of them: the layers land in the
-- donor store, and then the records of the donors that they complete, which make a donor discoverable.
-- The writer runs its queue in order (Writer); a failed write is a raised exception of `save_file` or of
-- the making of the record, as the store decides (`StoreReplies`). The temporary file of a record that
-- could not be replaced is not modelled.
pub mod Records
pub mod Memory
pub mod Loaded
pub mod Reports
use semblend_vllm_connector.Prelude.{
  ℕ, zero, suc, ◌+◌, max, String, Bool, true, false, not, ◌&&◌, ◌||◌, Option, none, some, List, [],
  ◌∷◌, ◌++◌, Dict, get, put, remove, contains, discard, if◌then◌else◌, ltb, leb, ◌==◌, str_eq,
  length, map,
}
use semblend_vllm_connector.Journal.{count, audit, forget_request_join_key}
use semblend_vllm_connector.Writer.{HostKv, Kind, WriteJob}
use semblend_vllm_connector.Worker.{
  MemoryEntry, DonorDir, no_dir, Worker, WorkerEngine, note, donor_dir, is_some, has_stored_donor,
  move_to_end,
}
use semblend_vllm_connector.Staging.{
  progress_of, or_zero, record_write_error, drain_writer_reports, submit_write,
}
use semblend_vllm_connector.Save.{shortest, queue_finalizes}

-- How a write of a layer ends: its file holds the tensor, the directory cannot be made, the file that was
-- there stays, or a file that cannot be parsed is left.
pub data SaveReply : Type 0 where
  saved no_directory failed truncated : SaveReply

-- How the replacement of a record ends: it is there, the directory cannot be made, or the record that was
-- there stays.
pub data RecordReply : Type 0 where
  replaced no_directory failed : RecordReply

-- What the store does at a call: a write of a layer, the replacement of a record, the removal of an
-- evicted donor's record, and the removal of a capture's files, which may stop after some of them.
pub record StoreReplies : Type 0 where
  pub save_file : WriteJob → SaveReply
  pub replace : WriteJob → RecordReply
  pub retract_raises : String → Bool
  pub remove_stops : String → Option ℕ

-- A job is done, or raises.
pub data JobRun : Type 0 where
  lands raises : Worker → JobRun

writer_count : String → Worker → Worker
writer_count name w = record w {
  writer_stats = put name (or_zero (get name w.writer_stats) + 1) w.writer_stats;
}

abbrev pub layer_of : WriteJob → String
layer_of job = elim job.layer_name [ none ↦ "None" | some layer ↦ layer ]

-- The layer is on the store, so its staged copy goes.
unstage : String → String → Worker → Worker
unstage key layer w = record w {
  inflight_layers = elim (get key w.inflight_layers) [
    | none ↦ w.inflight_layers
    | some staged ↦ put key (remove layer staged) w.inflight_layers
  ];
}

-- The record of an evicted donor goes, and its directory if nothing else is in it.
abbrev pub retracted : String → Worker → Dict DonorDir
retracted key w =
    let dir = donor_dir key w in
    elim dir.files [
      | [] ↦ remove key w.disk
      | file ∷ rest ↦ put key (record dir { published = none }) w.disk
    ]

evict_entry : StoreReplies → String → MemoryEntry → Worker → Worker
unfolding writer_count
evict_entry replies key entry w =
    let w' =
      writer_count "memory_store_evictions"
        (record w { writer_evicted = w.writer_evicted ++ entry.request_id ∷ [] }) in
    if replies.retract_raises key
    then writer_count "memory_store_eviction_retract_errors" w'
    else record w' { disk = retracted key w }

-- The `while` loop over the entries, the least recently used first.
pub evict_down_to : StoreReplies → ℕ → Dict MemoryEntry → Worker → Dict MemoryEntry × Worker
unfolding evict_entry
evict_down_to replies cap [] w = ([], w)
evict_down_to replies cap ((key, entry) ∷ rest) w =
    let shorter = evict_down_to replies cap rest (evict_entry replies key entry w) in
    if ltb cap (length ((key, entry) ∷ rest)) then shorter else ((key, entry) ∷ rest, w)

-- `entry[layer] = payload`, on the entry that the store holds under the key.
set_entry_layer : String → String → HostKv → Dict MemoryEntry → Dict MemoryEntry
set_entry_layer key layer payload d = elim (get key d) [
  | none ↦ d
  | some entry ↦ put key (record entry { layers = put layer payload entry.layers }) d
]

write_to_memory :
    WorkerEngine → StoreReplies → String → WriteJob → Option MemoryEntry → Worker → Worker
unfolding evict_down_to set_entry_layer
write_to_memory e replies key job none w =
    let fresh : MemoryEntry = record {
      token_count = job.token_count;
      request_id = job.request_id;
      layers = [];
    } in
    let (kept, w') =
      evict_down_to replies (max 1 e.config.kv_memory_max_donors)
        (w.memory_store ++ (key, fresh) ∷ []) w in
    record w' { memory_store = set_entry_layer key (layer_of job) job.payload kept }
write_to_memory e replies key job (some entry) w = record w {
  memory_store =
      set_entry_layer key (layer_of job) job.payload
        (move_to_end key (put key (record entry { token_count = job.token_count }) w.memory_store));
}

abbrev pub with_file : String → String → Option HostKv → Worker → Worker
with_file key layer content w =
    let dir = donor_dir key w in
    record w { disk = put key (record dir { files = put layer content dir.files }) w.disk }

-- `os.makedirs`
abbrev pub with_directory : String → Worker → Worker
with_directory key w = record w { disk = put key (donor_dir key w) w.disk }

write_to_disk : StoreReplies → String → WriteJob → Worker → JobRun
unfolding unstage writer_count
write_to_disk replies key job w = elim (replies.save_file job) [
  | saved ↦ JobRun.lands (
      writer_count "capture_layer_writes_total"
        (unstage key (layer_of job) (with_file key (layer_of job) (some job.payload) w)))
  | no_directory ↦ JobRun.raises w
  | failed ↦ JobRun.raises (with_directory key w)
  | truncated ↦ JobRun.raises (with_file key (layer_of job) none w)
]

unfoldable pub write_captured_layer : WorkerEngine → StoreReplies → WriteJob → Worker → JobRun
unfolding write_to_memory write_to_disk unstage writer_count
write_captured_layer e replies job w =
    let key = e.storage_key job.request_id job.namespace in
    if str_eq e.config.kv_storage_backend "memory"
    then JobRun.lands (
        writer_count "capture_layer_writes_total" (
          unstage key (layer_of job)
            (write_to_memory e replies key job (get key w.memory_store) w)))
    else write_to_disk replies key job w

abbrev pub all_in {ℓ} : {V : Type ℓ} → List String → Dict V → Bool
all_in [] d = true
all_in (name ∷ rest) d = is_some (get name d) && all_in rest d

publish_record : StoreReplies → String → WriteJob → Worker → JobRun
unfolding writer_count
publish_record replies key job w = elim (replies.replace job) [
  | replaced ↦ JobRun.lands (
      writer_count "capture_metadata_writes_total" (record w {
        disk = put key (record (donor_dir key w) { published = some job.token_count }) w.disk;
      }))
  | no_directory ↦ JobRun.raises w
  | failed ↦ JobRun.raises (with_directory key w)
]

publish : WorkerEngine → StoreReplies → String → WriteJob → Bool → Worker → JobRun
unfolding publish_record
publish e replies key job complete w =
    if complete then publish_record replies key job w else JobRun.raises w

publish_from_memory :
    WorkerEngine → StoreReplies → String → WriteJob → Option MemoryEntry → Worker → JobRun
unfolding publish writer_count
publish_from_memory e replies key job none w =
    JobRun.lands (writer_count "capture_metadata_skipped_evicted" w)
publish_from_memory e replies key job (some entry) w =
    publish e replies key job (all_in job.layer_names entry.layers) w

unfoldable pub write_donor_metadata : WorkerEngine → StoreReplies → WriteJob → Worker → JobRun
unfolding publish publish_from_memory
write_donor_metadata e replies job w =
    let key = e.storage_key job.request_id job.namespace in
    if str_eq e.config.kv_storage_backend "memory"
    then publish_from_memory e replies key job (get key w.memory_store) w
    else publish e replies key job (all_in job.layer_names (donor_dir key w).files) w

run_of_kind : WorkerEngine → StoreReplies → WriteJob → Kind → Worker → JobRun
unfolding write_captured_layer write_donor_metadata
run_of_kind e replies job Kind.layer w = write_captured_layer e replies job w
run_of_kind e replies job Kind.metadata w = write_donor_metadata e replies job w

unfoldable pub run_write_job : WorkerEngine → StoreReplies → WriteJob → Worker → JobRun
unfolding run_of_kind
run_write_job e replies job w = run_of_kind e replies job job.kind w

after_run : WorkerEngine → WriteJob → JobRun → Worker
unfolding record_write_error
after_run e job (JobRun.lands w) = w
after_run e job (JobRun.raises w) = record_write_error e job w

-- The writer's thread runs these jobs, first to last.
unfoldable pub run_jobs : WorkerEngine → StoreReplies → List WriteJob → Worker → Worker
unfolding after_run run_write_job
run_jobs e replies [] w = w
run_jobs e replies (job ∷ rest) w =
    run_jobs e replies rest (after_run e job (run_write_job e replies job w))

-- `writer.join()`, which an empty queue and a closed writer return from at once.
unfoldable pub join : WorkerEngine → StoreReplies → Worker → Worker
unfolding run_jobs
join e replies w =
    if w.writer_closed then w else run_jobs e replies w.queue (record w { queue = [] })
