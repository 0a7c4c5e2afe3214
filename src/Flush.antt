-- ===== src/Flush.antt =====
-- connector.py: the worker's hooks that publish donors and clear up after them: `wait_for_save`,
-- `get_finished` and the worker's half of `shutdown`. The cost that they account for is left out.
pub mod Failed
pub mod Orphans
pub mod Vouched
use Prim.Native.Nat.{Ordering}
use Prim.Native.String.{compare}
use semblend_vllm_connector.Prelude.{
  ℕ, zero, suc, String, Bool, true, false, not, ◌&&◌, ◌||◌, Option, none, some, List, [], ◌∷◌, ◌++◌,
  Dict, get, put, remove, contains, discard, if◌then◌else◌, str_eq, length, take, drop, leb,
}
use semblend_vllm_connector.Journal.{count, audit, forget_request_join_key}
use semblend_vllm_connector.Writer.{HostKv, Kind, WriteJob}
use semblend_vllm_connector.Worker.{
  DonorDir, Worker, WorkerEngine, note, donor_dir, is_some, has_stored_donor,
}
use semblend_vllm_connector.Staging.{
  progress_of, record_write_error, drain_writer_reports, submit_write,
}
use semblend_vllm_connector.Save.{shortest, queue_finalizes}
use semblend_vllm_connector.Publish.{StoreReplies, run_jobs, join}

abbrev str_leb : String → String → Bool
str_leb a b = elim (compare a b) [ Ordering.gt ↦ false | _ ↦ true ]

insert_sorted : String → List String → List String
insert_sorted x [] = x ∷ []
insert_sorted x (y ∷ ys) =
    let further = insert_sorted x ys in if str_leb x y then x ∷ y ∷ ys else y ∷ further

-- `sorted(names)`
pub sorted : List String → List String
unfolding insert_sorted
sorted [] = []
sorted (x ∷ xs) = insert_sorted x (sorted xs)

abbrev pub keys {ℓ} : {V : Type ℓ} → Dict V → List String
keys [] = []
keys ((key, v) ∷ rest) = key ∷ keys rest

-- The job of a record, which vouches for the layers of the progress.
abbrev pub record_job : String → String → Dict ℕ → ℕ → WriteJob
record_job request_id namespace progress token_count = record {
  request_id = request_id;
  namespace = namespace;
  kind = Kind.metadata;
  layer_name = none;
  payload = [];
  token_count = token_count;
  layer_names = sorted (keys progress);
}

finalize_layers : WorkerEngine → (WriteJob → Bool) → String → String → Dict ℕ → Worker → Worker
unfolding submit_write shortest
finalize_layers e in_time request_id namespace [] w = w
finalize_layers e in_time request_id namespace ((layer, n) ∷ rest) w =
    let token_count = shortest n rest in
    let job = record_job request_id namespace ((layer, n) ∷ rest) token_count in
    if contains request_id w.capture_write_failed
    then note (count "capture_finalize_skipped_write_failed") w
    else submit_write e (in_time job) job
        (record w { finalized_donors = put request_id token_count w.finalized_donors })

-- The body of the loop over the pending finalizes.
unfoldable pub submit_finalize : WorkerEngine → (WriteJob → Bool) → String → Worker → Worker
unfolding finalize_layers
submit_finalize e in_time request_id w = elim (get request_id w.capture_namespaces) [
  | none ↦ w
  | some namespace ↦ finalize_layers e in_time request_id namespace (progress_of request_id w) w
]

submit_finalizes : WorkerEngine → (WriteJob → Bool) → List String → Worker → Worker
unfolding submit_finalize
submit_finalizes e in_time [] w = w
submit_finalizes e in_time (request_id ∷ rest) w =
    submit_finalizes e in_time rest (submit_finalize e in_time request_id w)

-- `in_time` says whether a job finds room before the deadline, which only a teardown sets.
unfoldable pub submit_pending_finalizes : WorkerEngine → (WriteJob → Bool) → Worker → Worker
unfolding submit_finalizes
submit_pending_finalizes e in_time w =
    record (submit_finalizes e in_time (sorted w.finalize_pending) w) { finalize_pending = [] }

unfoldable pub flush_captures : WorkerEngine → StoreReplies → Worker → Worker
unfolding submit_pending_finalizes join drain_writer_reports
flush_captures e replies w = drain_writer_reports (
    join e replies
      (submit_pending_finalizes e (λ job. true) (drain_writer_reports (join e replies w))))

unfoldable pub wait_for_save : WorkerEngine → StoreReplies → Worker → Worker
unfolding flush_captures
wait_for_save = flush_captures

discard_files : StoreReplies → String → String → DonorDir → Worker → Worker
discard_files replies key request_id dir w = elim (replies.remove_stops key) [
  | none ↦ record w {
    disk = remove key w.disk;
    journal =
        audit "capture_orphan_discarded" request_id
          (count "capture_orphans_discarded_total" w.journal);
  }
  | some n ↦ record w {
    disk = put key (record dir { files = drop n dir.files }) w.disk;
    journal = count "capture_orphan_discard_errors" w.journal;
  }
]

-- A directory that is not there cannot be listed.
unfoldable pub discard_unpublished_capture :
    WorkerEngine → StoreReplies → String → String → Worker → Worker
unfolding discard_files
discard_unpublished_capture e replies request_id namespace w =
    let key = e.storage_key request_id namespace in
    if str_eq namespace "" || not (str_eq e.config.kv_storage_backend "disk")
    then w
    else if has_stored_donor e request_id namespace w
    then w
    else (elim (get key w.disk) [
      | none ↦ w
      | some dir ↦ discard_files replies key request_id dir w
    ])

abbrev namespace_or_empty : String → Worker → String
namespace_or_empty request_id w = elim (get request_id w.capture_namespaces) [
  | none ↦ ""
  | some namespace ↦ namespace
]

-- What `get_finished` does for one finished request after the flush.
unfoldable pub forget_request : WorkerEngine → StoreReplies → String → Worker → Worker
unfolding discard_unpublished_capture
forget_request e replies request_id w =
    let w' = discard_unpublished_capture e replies request_id (namespace_or_empty request_id w) w in
    record w' {
      capture_progress = remove request_id w'.capture_progress;
      capture_base_missing_noted = remove request_id w'.capture_base_missing_noted;
      capture_skipped_reasons = remove request_id w'.capture_skipped_reasons;
      capture_namespaces = remove request_id w'.capture_namespaces;
      finalized_donors = remove request_id w'.finalized_donors;
      capture_write_failed = discard request_id w'.capture_write_failed;
      journal = forget_request_join_key request_id w'.journal;
    }

forget_requests : WorkerEngine → StoreReplies → List String → Worker → Worker
unfolding forget_request
forget_requests e replies [] w = w
forget_requests e replies (request_id ∷ rest) w =
    forget_requests e replies rest (forget_request e replies request_id w)

unfoldable pub get_finished : WorkerEngine → StoreReplies → List String → Worker → Worker
unfolding queue_finalizes flush_captures forget_requests
get_finished e replies finished w =
    forget_requests e replies finished (flush_captures e replies (queue_finalizes finished w))

-- The jobs that the writer is handed back at the deadline.
abandon : WorkerEngine → List WriteJob → Worker → Worker
unfolding record_write_error
abandon e [] w = w
abandon e (job ∷ rest) w = abandon e rest (record_write_error e job w)

-- How `close` ends within its time: the thread runs the whole queue and stops; or the queue stays full,
-- the thread has run the first of its jobs and the rest is handed back, less the one that a thread which
-- is still running has in its hands; or the thread outlives the wait with the jobs it has not run.
pub data Teardown : Type 0 where
  drained : Teardown
  gave_up : ℕ → Bool → Teardown
  outlived : ℕ → Teardown

abbrev is_running : Teardown → Bool
is_running Teardown.drained = false
is_running (Teardown.gave_up reached running) = running
is_running (Teardown.outlived reached) = true

closed_by : WorkerEngine → StoreReplies → Teardown → Worker → Worker
unfolding run_jobs abandon
closed_by e replies Teardown.drained w =
    run_jobs e replies w.queue (record w { queue = []; writer_closed = true })
closed_by e replies (Teardown.gave_up reached running) w =
    abandon e (drop (if running then suc reached else reached) w.queue)
      (run_jobs e replies (take reached w.queue) (record w { queue = []; writer_closed = true }))
closed_by e replies (Teardown.outlived reached) w =
    run_jobs e replies (take reached w.queue)
      (record w { queue = drop reached w.queue; writer_closed = true })

unfoldable pub close_writer : WorkerEngine → StoreReplies → Teardown → Worker → Worker
unfolding closed_by
close_writer e replies t w = if w.writer_closed then w else closed_by e replies t w

discard_all : WorkerEngine → StoreReplies → Dict String → Worker → Worker
unfolding discard_unpublished_capture
discard_all e replies [] w = w
discard_all e replies ((request_id, namespace) ∷ rest) w =
    discard_all e replies rest (discard_unpublished_capture e replies request_id namespace w)

-- The worker's half of `shutdown`; the scheduler's last pass over its held donors is in Registration.
-- A writer that is still running keeps its files.
unfoldable pub shutdown :
    WorkerEngine → StoreReplies → (WriteJob → Bool) → Teardown → Worker → Worker
unfolding submit_pending_finalizes close_writer drain_writer_reports discard_all
shutdown e replies in_time t w =
    let closed =
      drain_writer_reports (close_writer e replies t (submit_pending_finalizes e in_time w)) in
    if is_running t then closed else discard_all e replies closed.capture_namespaces closed
