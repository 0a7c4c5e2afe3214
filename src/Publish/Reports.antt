-- ===== src/Publish/Reports.antt =====
-- What the writer's jobs report, and what the step takes over of it: the requests whose writes failed.
use semblend_vllm_connector.Prelude.{
  ℕ, max, ◌≡◌, refl, ap, sym, subst, ◌∙◌, inl, inr, String, Bool, true, Option, none, some, List,
  [], ◌∷◌, ◌++◌, arith, Bool-cases, Dict, get, contains, add, ltb, str_eq, eq_iff, length, Keeps-if,
}
use semblend_vllm_connector.Journal.{Journal, audit}
use semblend_vllm_connector.Writer.{WriteJob, Kind}
use semblend_vllm_connector.Worker.{MemoryEntry, Worker, WorkerEngine, note, donor_dir}
use semblend_vllm_connector.Staging.{add_all, audit_failures, drain_writer_reports}
use semblend_vllm_connector.Publish.{
  StoreReplies, SaveReply, RecordReply, publish_record, JobRun, all_in, writer_count, evict_entry,
  evict_down_to, write_to_memory, write_to_disk, write_captured_layer, publish, publish_from_memory,
  write_donor_metadata, run_write_job, run_of_kind, after_run, run_jobs, unstage,
}

-- A job leaves the reports of failures and the writer's flag to whoever handles its end.
abbrev IsQuiet : Worker → Worker → Type 0
IsQuiet w u =
    (u.writer_closed ≡ w.writer_closed) × (u.writer_failed_requests ≡ w.writer_failed_requests)

abbrev IsQuietRun : Worker → JobRun → Type 0
IsQuietRun w (JobRun.lands u) = IsQuiet w u
IsQuietRun w (JobRun.raises u) = IsQuiet w u

evict_entry-IsQuiet :
    (replies : StoreReplies) (key : String) (entry : MemoryEntry) (w : Worker)
    → IsQuiet w (evict_entry replies key entry w)
unfolding evict_entry writer_count
evict_entry-IsQuiet replies key entry w =
    Keeps-if (IsQuiet w) (replies.retract_raises key) _ _ (refl, refl) (refl, refl)

evict_down_to-IsQuiet :
    (replies : StoreReplies) (most : ℕ) (d : Dict MemoryEntry) (w : Worker)
    → IsQuiet w (evict_down_to replies most d w).1
unfolding evict_down_to
evict_down_to-IsQuiet replies most [] w = (refl, refl)
evict_down_to-IsQuiet replies most ((key, entry) ∷ rest) w =
    let first = evict_entry-IsQuiet replies key entry w in
    let others = evict_down_to-IsQuiet replies most rest (evict_entry replies key entry w) in
    Keeps-if (λ (r : Dict MemoryEntry × Worker). IsQuiet w r.1)
      (ltb most (length ((key, entry) ∷ rest))) _ _ (others.0 ∙ first.0, others.1 ∙ first.1)
      (refl, refl)

module _ (e : WorkerEngine) (replies : StoreReplies) (job : WriteJob) (w : Worker) where
  abbrev key : String
  key = e.storage_key job.request_id job.namespace

  write_to_memory-IsQuiet :
      (o : Option MemoryEntry) → IsQuiet w (write_to_memory e replies key job o w)
  unfolding write_to_memory
  write_to_memory-IsQuiet none =
      evict_down_to-IsQuiet replies (max 1 e.config.kv_memory_max_donors) (w.memory_store ++ _ ∷ [])
        w
  write_to_memory-IsQuiet (some entry) = (refl, refl)

  write_to_disk-IsQuiet : IsQuietRun w (write_to_disk replies key job w)
  unfolding write_to_disk writer_count unstage
  write_to_disk-IsQuiet = split (replies.save_file job) refl
    where
      split :
          (r : SaveReply)
          → replies.save_file job ≡ r
          → IsQuietRun w (write_to_disk replies key job w)
      split SaveReply.saved is = rw (is, write_to_disk) (refl, refl)
      split SaveReply.no_directory is = rw (is, write_to_disk) (refl, refl)
      split SaveReply.failed is = rw (is, write_to_disk) (refl, refl)
      split SaveReply.truncated is = rw (is, write_to_disk) (refl, refl)

  record-IsQuiet : IsQuietRun w (publish_record replies key job w)
  unfolding publish_record writer_count
  record-IsQuiet = split (replies.replace job) refl
    where
      split :
          (r : RecordReply)
          → replies.replace job ≡ r
          → IsQuietRun w (publish_record replies key job w)
      split RecordReply.replaced is = rw (is, publish_record) (refl, refl)
      split RecordReply.no_directory is = rw (is, publish_record) (refl, refl)
      split RecordReply.failed is = rw (is, publish_record) (refl, refl)

  publish-IsQuiet : (complete : Bool) → IsQuietRun w (publish e replies key job complete w)
  unfolding publish
  publish-IsQuiet complete = Keeps-if (IsQuietRun w) complete _ _ record-IsQuiet (refl, refl)

  publish_from_memory-IsQuiet :
      (o : Option MemoryEntry) → IsQuietRun w (publish_from_memory e replies key job o w)
  unfolding publish_from_memory writer_count
  publish_from_memory-IsQuiet none = (refl, refl)
  publish_from_memory-IsQuiet (some entry) = publish-IsQuiet (all_in job.layer_names entry.layers)

  run_of_kind-IsQuiet : (kind : Kind) → IsQuietRun w (run_of_kind e replies job kind w)
  unfolding run_of_kind write_captured_layer write_donor_metadata writer_count unstage
  run_of_kind-IsQuiet Kind.layer =
      Keeps-if (IsQuietRun w) (str_eq e.config.kv_storage_backend "memory") _ _
        (write_to_memory-IsQuiet (get key w.memory_store)) write_to_disk-IsQuiet
  run_of_kind-IsQuiet Kind.metadata =
      Keeps-if (IsQuietRun w) (str_eq e.config.kv_storage_backend "memory") _ _
        (publish_from_memory-IsQuiet (get key w.memory_store))
        (publish-IsQuiet (all_in job.layer_names (donor_dir key w).files))

  run_write_job-IsQuiet : IsQuietRun w (run_write_job e replies job w)
  unfolding run_write_job
  run_write_job-IsQuiet = run_of_kind-IsQuiet job.kind

contains-add :
    (k j : String) (set : List String) → contains k set ≡ true → contains k (add j set) ≡ true
unfolding add
contains-add k j set h = ground (arith, h)

contains-add_self : (k : String) (set : List String) → contains k (add k set) ≡ true
unfolding add
contains-add_self k set = ground (arith, eq_iff k k)

-- What has failed before stays reported, and a failed job's request is reported.
after_run_mono :
    (e : WorkerEngine) (job : WriteJob) (w : Worker) (run : JobRun) (k : String)
    → IsQuietRun w run
    → contains k w.writer_failed_requests ≡ true
    → contains k (after_run e job run).writer_failed_requests ≡ true
unfolding after_run
after_run_mono e job w (JobRun.lands u) k quiet h =
    subst (λ set. contains k set ≡ true) (sym quiet.1) h
after_run_mono e job w (JobRun.raises u) k quiet h =
    contains-add k job.request_id u.writer_failed_requests
      (subst (λ set. contains k set ≡ true) (sym quiet.1) h)

after_run-closed :
    (e : WorkerEngine) (job : WriteJob) (w : Worker) (run : JobRun)
    → IsQuietRun w run
    → (after_run e job run).writer_closed ≡ w.writer_closed
unfolding after_run
after_run-closed e job w (JobRun.lands u) quiet = quiet.0
after_run-closed e job w (JobRun.raises u) quiet = quiet.0

module _ (e : WorkerEngine) (replies : StoreReplies) where
  pub run_jobs-closed :
      (jobs : List WriteJob) (w : Worker)
      → (run_jobs e replies jobs w).writer_closed ≡ w.writer_closed
  unfolding run_jobs
  run_jobs-closed [] w = refl
  run_jobs-closed (job ∷ rest) w =
      run_jobs-closed rest (after_run e job (run_write_job e replies job w))
      ∙ after_run-closed e job w (run_write_job e replies job w)
          (run_write_job-IsQuiet e replies job w)

  run_jobs_mono :
      (jobs : List WriteJob) (w : Worker) (k : String)
      → contains k w.writer_failed_requests ≡ true
      → contains k (run_jobs e replies jobs w).writer_failed_requests ≡ true
  unfolding run_jobs
  run_jobs_mono [] w k h = h
  run_jobs_mono (job ∷ rest) w k h =
      run_jobs_mono rest (after_run e job (run_write_job e replies job w)) k (
        after_run_mono e job w (run_write_job e replies job w) k
          (run_write_job-IsQuiet e replies job w) h)

  -- The request of a job that raises is reported by the end of the run.
  pub run_jobs-reported :
      (before after : List WriteJob) (job : WriteJob) (w u : Worker)
      → run_write_job e replies job (run_jobs e replies before w) ≡ JobRun.raises u
      → contains job.request_id
          (run_jobs e replies (before ++ job ∷ after) w).writer_failed_requests
        ≡ true
  unfolding run_jobs after_run
  run_jobs-reported [] after job w u raises =
      run_jobs_mono after (after_run e job (run_write_job e replies job w)) job.request_id (
        subst (λ run. contains job.request_id (after_run e job run).writer_failed_requests ≡ true)
          (sym raises) (contains-add_self job.request_id u.writer_failed_requests))
  run_jobs-reported (first ∷ before) after job w u raises =
      run_jobs-reported before after job (after_run e first (run_write_job e replies first w)) u
        raises

audit_failures-eq :
    (ids : List String) (w : Worker)
    → (j : Journal) × (audit_failures ids w ≡ record w { journal = j })
unfolding audit_failures
audit_failures-eq [] w = (w.journal, refl)
audit_failures-eq (request_id ∷ rest) w =
    audit_failures-eq rest (note (audit "donor_capture_write_failed" request_id) w)

contains-add_all :
    (k : String) (xs set : List String) → contains k xs ≡ true → contains k (add_all xs set) ≡ true
unfolding contains
contains-add_all k [] set h = cc
contains-add_all k (x ∷ xs) set h = elim (Bool-cases (str_eq x k)) [
  | inl same ↦
      let e : x ≡ k = (eq_iff x k).0 same in
      subst (λ y. contains k (add y (add_all xs set)) ≡ true) (sym e)
        (contains-add_self k (add_all xs set))
  | inr other ↦
      contains-add k x (add_all xs set) (contains-add_all k xs set (ground (arith, h, other)))
]

-- After the reports are drained their requests count as failed, and the writer's flag stays.
pub drain-failed :
    (w : Worker) (k : String)
    → contains k w.writer_failed_requests ≡ true
    → contains k (drain_writer_reports w).capture_write_failed ≡ true
unfolding drain_writer_reports
drain-failed w k h =
    let (j, eq) = audit_failures-eq w.writer_events _ in
    subst (λ u. contains k u.capture_write_failed ≡ true) (sym eq)
      (contains-add_all k w.writer_failed_requests w.capture_write_failed h)

pub drain-closed : (w : Worker) → (drain_writer_reports w).writer_closed ≡ w.writer_closed
unfolding drain_writer_reports
drain-closed w = ap (λ u. u.writer_closed) (audit_failures-eq w.writer_events _).1
