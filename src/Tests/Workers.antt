-- ===== src/Tests/Workers.antt =====
-- The theorems on the worker's hooks at a donor of one layer, which is stored, published and loaded.
use semblend_vllm_connector.Prelude.{
  inl, inr, ap, sym, length, some-eq-some, get, ◌≡◌, ◌≢◌, refl, String, true, false, none, some,
  List, [], ◌∷◌, ◌+◌, ◌++◌, All, arith, contains,
}
use semblend_vllm_connector.Types.{PendingStore}
use semblend_vllm_connector.Writer.{HostKv, WriteJob}
use semblend_vllm_connector.Worker.{Worker, WorkerEngine}
use semblend_vllm_connector.Load.{load_one, layer_source, entry_of}
use semblend_vllm_connector.Load.Served.{IsServed, load_one-IsServed}
use semblend_vllm_connector.Staging.{layer_job}
use semblend_vllm_connector.Save.{capture_layer}
use semblend_vllm_connector.Save.Base.{HoldsProgress}
use semblend_vllm_connector.Save.Captured.{IsCaptured, capture_layer-IsCaptured}
use semblend_vllm_connector.Publish.{
  SaveReply, RecordReply, StoreReplies, JobRun, write_captured_layer, write_donor_metadata,
  run_jobs, run_write_job,
}
use semblend_vllm_connector.Publish.Records.{IsRecorded, write_donor_metadata-IsRecorded}
use semblend_vllm_connector.Publish.Loaded.{write_captured_layer-Loadable}
use semblend_vllm_connector.Publish.Memory.{IsReadBack, write_captured_layer-IsReadBack}
use semblend_vllm_connector.Flush.{
  record_job, submit_pending_finalizes, discard_unpublished_capture,
}
use semblend_vllm_connector.Flush.Vouched.{IsVouched, submit_pending_finalizes-Vouched}
use semblend_vllm_connector.Flush.Failed.{settled, submit_pending_finalizes-Withheld}
use semblend_vllm_connector.Flush.Orphans.{IsDiscarded, discard-IsDiscarded}
use semblend_vllm_connector.Tests.Data.{config, journal, tokens, pending}

abbrev worker_engine : WorkerEngine
worker_engine = record {
  config = config;
  block_size = 4;
  storage_key = λ donor_id namespace. donor_id;
  rope_known = true;
  rotate = λ from to row. row + to;
  layout_accepted = λ layer. true;
}

-- A row of the cache is its slot.
abbrev worker : Worker
worker = record {
  journal = journal;
  memory_store = [];
  disk =
      (
        "donor",
        record {
          files = ("layer0", some (0 ∷ 1 ∷ 2 ∷ 3 ∷ 4 ∷ 5 ∷ 6 ∷ 7 ∷ 8 ∷ 9 ∷ 10 ∷ 11 ∷ [])) ∷ [];
          published = some 12;
        },
      )
      ∷ [];
  kv_caches = λ layer slot. slot;
  registered_kv_caches = "layer0" ∷ [];
  last_attn_metadata = none;
  load_error_block_ids = [];
  capture_progress = [];
  capture_namespaces = [];
  capture_base_missing_noted = [];
  capture_skipped_reasons = [];
  capture_write_failed = [];
  finalize_pending = [];
  finalized_donors = [];
  inflight_layers = [];
  queue = [];
  writer_closed = false;
  writer_stats = [];
  writer_events = [];
  writer_failed_requests = [];
  writer_evicted = [];
}

abbrev layers : List String
layers = "layer0" ∷ []

load_one-IsServed_example :
    IsServed worker_engine none layers pending worker
      (load_one worker_engine none layers pending worker)
unfolding contains
load_one-IsServed_example = load_one-IsServed worker_engine none layers pending worker (refl, tt)

-- The first ten tokens, of which four are captured.
abbrev store : PendingStore
store = record {
  request_id = "donor";
  token_ids = tokens;
  namespace = "space";
  block_ids = some ((5 ∷ 6 ∷ 7 ∷ []) ∷ []);
  token_count = 10;
  final = true;
}

abbrev staged_rows : HostKv
staged_rows = 20 ∷ 21 ∷ 22 ∷ 23 ∷ []

-- The four rows are staged.
abbrev halfway : Worker
halfway = record worker {
  capture_progress = ("donor", ("layer0", 4) ∷ []) ∷ [];
  inflight_layers = ("donor", ("layer0", staged_rows) ∷ []) ∷ [];
}

halfway-HoldsProgress : HoldsProgress worker_engine store "layer0" halfway
unfolding get
halfway-HoldsProgress base past sound (inl staged) = ap length (sym (some-eq-some staged))
halfway-HoldsProgress base past sound (inr absent) = cc absent.0

capture_layer-IsCaptured_example :
    IsCaptured worker_engine store
      ((5 ∷ 6 ∷ 7 ∷ []) ∷ [])
      "layer0"
      halfway
      (capture_layer worker_engine store ((5 ∷ 6 ∷ 7 ∷ []) ∷ []) "layer0" none halfway)
capture_layer-IsCaptured_example =
    capture_layer-IsCaptured worker_engine store ((5 ∷ 6 ∷ 7 ∷ []) ∷ []) "layer0" none halfway
      (omega arith) refl halfway-HoldsProgress

-- No layer can be written; everything else succeeds.
abbrev replies : StoreReplies
replies = record {
  save_file = λ job. SaveReply.no_directory;
  replace = λ job. RecordReply.replaced;
  retract_raises = λ key. false;
  remove_stops = λ key. none;
}

abbrev job : WriteJob
job = layer_job store "layer0" (1 ∷ 2 ∷ 3 ∷ []) 3

abbrev metadata_job : WriteJob
metadata_job = record_job "donor" "space" (("layer0", 12) ∷ []) 12

write_donor_metadata-IsRecorded_example :
    IsRecorded worker_engine replies metadata_job worker
      (write_donor_metadata worker_engine replies metadata_job worker)
write_donor_metadata-IsRecorded_example =
    write_donor_metadata-IsRecorded worker_engine replies metadata_job worker

abbrev memory_engine : WorkerEngine
memory_engine = record worker_engine {
  config = record config { kv_storage_backend = "memory"; kv_memory_max_donors = 1 };
}

abbrev full : Worker
full = record worker {
  memory_store = ("other", record { token_count = 1; request_id = "other"; layers = [] }) ∷ [];
}

write_captured_layer-IsReadBack_example :
    IsReadBack memory_engine replies job full (write_captured_layer memory_engine replies job full)
write_captured_layer-IsReadBack_example =
    write_captured_layer-IsReadBack memory_engine replies job full (omega arith)

abbrev saving : StoreReplies
saving = record replies { save_file = λ job. SaveReply.saved }

abbrev worker_of : JobRun → Worker
worker_of (JobRun.lands w) = w
worker_of (JobRun.raises w) = w

abbrev landed : Worker
landed = worker_of (write_captured_layer worker_engine saving job worker)

write_captured_layer-Loadable_example :
    layer_source worker_engine pending (entry_of worker_engine pending landed) "layer0" landed
    ≡ some (1 ∷ 2 ∷ 3 ∷ [])
unfolding write_captured_layer get
write_captured_layer-Loadable_example =
    write_captured_layer-Loadable worker_engine saving job worker pending landed (omega arith)
      (inr refl) refl refl refl

-- A capture of "donor" whose only layer is complete.
abbrev captured : Worker
captured = record worker {
  capture_progress = ("donor", ("layer0", 12) ∷ []) ∷ [];
  capture_namespaces = ("donor", "space") ∷ [];
  finalize_pending = "donor" ∷ [];
}

submit_pending_finalizes-Vouched_example :
    (new : List WriteJob) × ((submit_pending_finalizes worker_engine (λ job. true) captured).queue
      ≡ [] ++ new)
    × All (IsVouched captured) new
    × ((submit_pending_finalizes worker_engine (λ job. true) captured).finalize_pending ≡ [])
submit_pending_finalizes-Vouched_example =
    submit_pending_finalizes-Vouched worker_engine captured refl

abbrev queued : Worker
queued = record captured { queue = job ∷ [] }

submit_pending_finalizes-Withheld_example :
    (new : List WriteJob) × ((submit_pending_finalizes worker_engine
        (λ job. true)
        (settled worker_engine replies queued)).queue
      ≡ (settled worker_engine replies queued).queue ++ new)
    × All (λ submitted. submitted.request_id ≢ "donor") new
unfolding run_jobs run_write_job
submit_pending_finalizes-Withheld_example =
    submit_pending_finalizes-Withheld worker_engine replies queued (record captured { queue = [] })
      [] [] job refl refl refl

abbrev unpublished : Worker
unpublished = record worker {
  disk = ("donor", record { files = ("layer0", none) ∷ []; published = none }) ∷ [];
}

discard-IsDiscarded_example :
    IsDiscarded worker_engine replies "donor" "space" unpublished
      (discard_unpublished_capture worker_engine replies "donor" "space" unpublished)
discard-IsDiscarded_example =
    discard-IsDiscarded worker_engine replies "donor" "space" unpublished refl refl
