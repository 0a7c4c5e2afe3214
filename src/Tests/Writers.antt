-- ===== src/Tests/Writers.antt =====
-- The theorems on the capture writer at a run with two layer jobs and a donor record, one write of
-- which fails.
use semblend_vllm_connector.Prelude.{
  ℕ, ◌+◌, ◌≡◌, refl, inl, true, false, some, List, [], ◌∷◌, arith,
}
use semblend_vllm_connector.Writer.{
  WriteJob, Kind, CaptureWriter, new, submit, resume, get_job, run_job, close, give_up, abandon_one,
  Step, Reach, here, next, run,
}
use semblend_vllm_connector.Writer.Accounted.{total, held, jobs, IsAccounted, Reach-IsAccounted}
use semblend_vllm_connector.Writer.Order.{InOrder, Reach-InOrder}
use semblend_vllm_connector.Writer.Close.{IsEnded, close-NoneLost}
use semblend_vllm_connector.Writer.Progress.{IsDrained, run-IsDrained}

abbrev layer_job : List ℕ → WriteJob
layer_job rows = record {
  request_id = "r1";
  namespace = "space";
  kind = Kind.layer;
  layer_name = some "layer0";
  payload = rows;
  token_count = 2;
  layer_names = [];
}

abbrev first : WriteJob
first = layer_job (7 ∷ 8 ∷ [])

abbrev second : WriteJob
second = layer_job (9 ∷ [])

-- The first job is written, and the second is queued.
abbrev open_run : (w : CaptureWriter) × Reach (new 1) w
unfolding new submit resume get_job run_job
open_run = (
  _,
  next
      (next
        (next
          (next (next (next here (Step.submits first refl)) (Step.resumes [] [] first refl refl))
            (Step.gets refl))
          (Step.runs true refl))
        (Step.submits second refl))
      (Step.resumes [] [] second refl refl),
)

-- The thread hangs in the second job, a third one fills the queue, and close gives up on it.
abbrev closed_run : (w : CaptureWriter) × Reach (new 1) w
unfolding new submit resume get_job run_job close give_up abandon_one
closed_run = (
  _,
  next
      (next
        (next
          (next
            (next (next (next open_run.1 (Step.gets refl)) (Step.submits first refl))
              (Step.resumes [] [] first refl refl))
            (Step.closes refl))
          (Step.gives_up refl))
        (Step.abandons refl))
      (Step.abandons refl),
)

Reach-IsAccounted_example : IsAccounted open_run.0
Reach-IsAccounted_example = Reach-IsAccounted 1 open_run.1

Reach-InOrder_example : InOrder open_run.0
Reach-InOrder_example = Reach-InOrder 1 open_run.1

close-NoneLost_example :
    IsEnded closed_run.0.thread closed_run.0.queue
    × ((f : WriteJob → ℕ)
        → total f closed_run.0.accepted
          ≡ total f closed_run.0.written
            + total f closed_run.0.failed
            + total f (held closed_run.0.thread)
            + total f (jobs closed_run.0.queue))
unfolding closed_run
close-NoneLost_example = close-NoneLost 1 closed_run.1 refl (inl refl)

run-IsDrained_example : IsDrained (λ job. false) open_run.0 (run 2 (λ job. false) open_run.0)
unfolding open_run
run-IsDrained_example = run-IsDrained 1 (λ job. false) 2 open_run.1 refl (omega arith)
