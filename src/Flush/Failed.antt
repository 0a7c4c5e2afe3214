-- ===== src/Flush/Failed.antt =====
-- What a failed write means for the record of its donor.
use semblend_vllm_connector.Prelude.{
  ◌≡◌, ◌≢◌, ap, sym, ◌∙◌, true, false, List, [], ◌∷◌, ◌++◌, All, contains, if-eq_of_false, subst,
}
use semblend_vllm_connector.Writer.{WriteJob}
use semblend_vllm_connector.Worker.{Worker, WorkerEngine}
use semblend_vllm_connector.Staging.{drain_writer_reports}
use semblend_vllm_connector.Publish.{StoreReplies, JobRun, run_write_job, run_jobs, join}
use semblend_vllm_connector.Publish.Reports.{
  run_jobs-closed, run_jobs-reported, drain-failed, drain-closed,
}
use semblend_vllm_connector.Flush.{submit_pending_finalizes}
use semblend_vllm_connector.Flush.Vouched.{IsVouched, submit_pending_finalizes-Vouched}

-- The state of a step when its records are submitted: its jobs have run, and their reports are drained.
abbrev pub settled : WorkerEngine → StoreReplies → Worker → Worker
settled e replies w = drain_writer_reports (join e replies w)

join-eq :
    (e : WorkerEngine) (replies : StoreReplies) (w : Worker)
    → w.writer_closed ≡ false
    → join e replies w ≡ run_jobs e replies w.queue (record w { queue = [] })
unfolding join
join-eq e replies w runs = if-eq_of_false w.writer_closed _ _ runs

settled-closed :
    (e : WorkerEngine) (replies : StoreReplies) (w : Worker)
    → w.writer_closed ≡ false
    → (settled e replies w).writer_closed ≡ false
settled-closed e replies w runs =
    drain-closed (join e replies w)
    ∙ ap (λ u. u.writer_closed) (join-eq e replies w runs)
    ∙ run_jobs-closed e replies w.queue (record w { queue = [] })
    ∙ runs

settled-failed :
    (e : WorkerEngine) (replies : StoreReplies) (w u : Worker) (before after : List WriteJob)
    (job : WriteJob)
    → w.writer_closed ≡ false
    → w.queue ≡ before ++ job ∷ after
    → run_write_job e replies job (run_jobs e replies before (record w { queue = [] }))
      ≡ JobRun.raises u
    → contains job.request_id (settled e replies w).capture_write_failed ≡ true
settled-failed e replies w u before after job runs queued raises =
    drain-failed (join e replies w) job.request_id (
      subst (λ v. contains job.request_id v.writer_failed_requests ≡ true)
        (sym (
          join-eq e replies w runs
          ∙ ap (λ jobs. run_jobs e replies jobs (record w { queue = [] })) queued))
        (run_jobs-reported e replies before after job (record w { queue = [] }) u raises))

not_vouched :
    (w : Worker) (job : WriteJob) (new : List WriteJob)
    → contains job.request_id w.capture_write_failed ≡ true
    → All (IsVouched w) new
    → All (λ record_of. record_of.request_id ≢ job.request_id) new
not_vouched w job [] failed vouched = tt
not_vouched w job (other ∷ new) failed vouched =
    ((λ same. cc), not_vouched w job new failed vouched.1)

-- For a writer that is not closed: where a job of the step raises at its turn, the records that the step
-- then submits are none of that job's request.
pub submit_pending_finalizes-Withheld :
    (e : WorkerEngine) (replies : StoreReplies) (w u : Worker) (before after : List WriteJob)
    (job : WriteJob)
    → w.writer_closed ≡ false
    → w.queue ≡ before ++ job ∷ after
    → run_write_job e replies job (run_jobs e replies before (record w { queue = [] }))
      ≡ JobRun.raises u
    → (new : List WriteJob) × ((submit_pending_finalizes e
          (λ job'. true)
          (settled e replies w)).queue
        ≡ (settled e replies w).queue ++ new)
      × All (λ submitted. submitted.request_id ≢ job.request_id) new
submit_pending_finalizes-Withheld e replies w u before after job runs queued raises =
    let (new, eq, vouched, _) =
      submit_pending_finalizes-Vouched e (settled e replies w) (settled-closed e replies w runs) in
    (
      new,
      eq,
      not_vouched (settled e replies w) job new
          (settled-failed e replies w u before after job runs queued raises) vouched,
    )
