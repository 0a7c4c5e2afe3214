-- ===== src/Writer/Order.antt =====
-- The order in which the writer writes.
use mathlib.Core.List.{Sublistᴰ, append_assoc}
use mathlib.Core.List.Sublistᴰ
use semblend_vllm_connector.Prelude.{
  ℕ, ◌≡◌, refl, ap, sym, subst, Bool, true, false, Option, none, some, List, [], ◌∷◌, ◌++◌, length,
  ltb, Returns, Returns-some, Keeps-if, Returns-if, Returns->>=,
}
use semblend_vllm_connector.Writer.{
  WriteJob, Thread, Phase, CaptureWriter, new, job_of, submit, resume, get_job, run_job, close,
  seal, give_up, abandon_one, Step, Reach, put_nowait, take_from, handle, put_sentinel, give_up_in,
  abandon_in, ensure_thread, enter, started, Reach-keeps,
}
use semblend_vllm_connector.Writer.Accounted.{jobs, held, held-started, held-after_job}

-- What is written, then what the thread holds, then what is queued.
abbrev pub InOrder : CaptureWriter → Type 0
InOrder w = Sublistᴰ (w.written ++ (held w.thread ++ jobs w.queue)) w.accepted

jobs-append : (xs ys : List (Option WriteJob)) → jobs (xs ++ ys) ≡ jobs xs ++ jobs ys
jobs-append [] ys = refl
jobs-append (none ∷ xs) ys = jobs-append xs ys
jobs-append (some job ∷ xs) ys = ap (job ∷◌) (jobs-append xs ys)

jobs-job_of : (item : Option WriteJob) → jobs (item ∷ []) ≡ job_of item
jobs-job_of none = refl
jobs-job_of (some job) = refl

put_nowait-InOrder :
    (item : Option WriteJob) (w : CaptureWriter) → InOrder w → Returns InOrder (put_nowait item w)
unfolding put_nowait
put_nowait-InOrder item w h =
    Returns-if InOrder (ltb (length w.queue) w.max_queue_depth) _ none
      (subst (λ l. Sublistᴰ l (w.accepted ++ job_of item))
        (simp (jobs-append, jobs-job_of, append_assoc))
        (Sublistᴰ.append h (Sublistᴰ.refl (job_of item))))
      tt

submit-InOrder : (job : WriteJob) (w : CaptureWriter) → InOrder w → Returns InOrder (submit job w)
unfolding submit ensure_thread enter
submit-InOrder job w h =
    Returns->>= InOrder InOrder (ensure_thread w) (λ w'. some (enter job w'))
      (Returns-if InOrder w.closed none (some (record w { thread = started w.thread })) tt
        (rw (held-started w.thread) h))
      (λ w' h'. h')

take_from-InOrder :
    (q : List (Option WriteJob)) (t : Thread) (w : CaptureWriter)
    → w.queue ≡ q
    → w.thread ≡ t
    → InOrder w
    → Returns InOrder (take_from q t w)
unfolding take_from
take_from-InOrder (item ∷ rest) Thread.waiting w eq et h =
    subst (λ l. Sublistᴰ (w.written ++ l) w.accepted) (rw (et, eq)) h
take_from-InOrder [] t w eq et h = tt
take_from-InOrder (item ∷ rest) _ w eq et h = tt

handle-InOrder :
    (succeeds : Bool) (t : Thread) (w : CaptureWriter)
    → w.thread ≡ t
    → InOrder w
    → Returns InOrder (handle succeeds t w)
unfolding handle
handle-InOrder succeeds Thread.absent w e h = tt
handle-InOrder succeeds Thread.waiting w e h = tt
handle-InOrder succeeds Thread.stopped w e h = tt
handle-InOrder succeeds (Thread.holding none) w e h =
    subst (λ t. Sublistᴰ (w.written ++ (held t ++ jobs w.queue)) w.accepted) e h
handle-InOrder true (Thread.holding (some job)) w e h =
    rw (held-after_job w.stopping, append_assoc w.written (job ∷ []) (jobs w.queue))
      (subst (λ t. Sublistᴰ (w.written ++ (held t ++ jobs w.queue)) w.accepted) e h)
handle-InOrder false (Thread.holding (some job)) w e h = rw (held-after_job w.stopping) (
    Sublistᴰ.trans
      (Sublistᴰ.append (Sublistᴰ.refl w.written) (Sublistᴰ.cons (Sublistᴰ.refl (jobs w.queue))))
      (subst (λ t. Sublistᴰ (w.written ++ (held t ++ jobs w.queue)) w.accepted) e h))

put_sentinel-InOrder :
    (p : Phase) (w : CaptureWriter) → InOrder w → Returns InOrder (put_sentinel p w)
unfolding put_sentinel
put_sentinel-InOrder Phase.closing w h =
    put_nowait-InOrder none (record w { phase = Phase.sealed }) h
put_sentinel-InOrder _ w h = tt

give_up_in-InOrder : (p : Phase) (w : CaptureWriter) → InOrder w → Returns InOrder (give_up_in p w)
unfolding give_up_in
give_up_in-InOrder Phase.closing w h = h
give_up_in-InOrder _ w h = tt

-- A list with a part in front holds what stands behind that part.
behind : (xs ys : List WriteJob) → Sublistᴰ ys (xs ++ ys)
behind [] ys = Sublistᴰ.refl ys
behind (x ∷ xs) ys = Sublistᴰ.cons (behind xs ys)

abandon_in-InOrder :
    (p : Phase) (q : List (Option WriteJob)) (w : CaptureWriter)
    → w.queue ≡ q
    → InOrder w
    → Returns InOrder (abandon_in p q w)
unfolding abandon_in
abandon_in-InOrder Phase.abandoning [] w e h = h
abandon_in-InOrder Phase.abandoning (item ∷ rest) w e h =
    Sublistᴰ.trans
      (Sublistᴰ.append (Sublistᴰ.refl w.written)
        (Sublistᴰ.append (Sublistᴰ.refl (held w.thread)) (behind (job_of item) (jobs rest))))
      (subst (λ q. Sublistᴰ (w.written ++ (held w.thread ++ jobs q)) w.accepted) e h)
abandon_in-InOrder _ q w e h = tt

close-InOrder : (w : CaptureWriter) → InOrder w → InOrder (close w)
unfolding close
close-InOrder w h = Keeps-if InOrder w.closed w _ h h

Step-InOrder : (w u : CaptureWriter) → Step w u → InOrder w → InOrder u
unfolding resume get_job run_job seal give_up abandon_one
Step-InOrder w u (Step.submits job e) h =
    Returns-some InOrder (submit job w) (submit-InOrder job w h) e
Step-InOrder w u (Step.resumes before after job b e) h =
    Returns-some InOrder (resume job (before ++ after) w)
      (put_nowait-InOrder (some job) (record w { blocked = before ++ after }) h) e
Step-InOrder w u (Step.times_out before after job b e) h = subst InOrder (sym e) h
Step-InOrder w u (Step.gets e) h =
    Returns-some InOrder (get_job w) (take_from-InOrder w.queue w.thread w refl refl h) e
Step-InOrder w u (Step.runs succeeds e) h =
    Returns-some InOrder (run_job succeeds w) (handle-InOrder succeeds w.thread w refl h) e
Step-InOrder w u (Step.closes e) h = subst InOrder e (close-InOrder w h)
Step-InOrder w u (Step.seals e) h =
    Returns-some InOrder (seal w) (put_sentinel-InOrder w.phase w h) e
Step-InOrder w u (Step.gives_up e) h =
    Returns-some InOrder (give_up w) (give_up_in-InOrder w.phase w h) e
Step-InOrder w u (Step.abandons e) h =
    Returns-some InOrder (abandon_one w) (abandon_in-InOrder w.phase w.queue w refl h) e

new-InOrder : (depth : ℕ) → InOrder (new depth)
unfolding new
new-InOrder depth = Sublistᴰ.refl []

-- However the threads interleave and whichever writes fail: the jobs written so far, followed by the
-- one in the thread's hands and by the queued ones, stand in the order in which they were accepted.
pub Reach-InOrder : (depth : ℕ) {w : CaptureWriter} → Reach (new depth) w → InOrder w
Reach-InOrder depth r = Reach-keeps InOrder Step-InOrder (new-InOrder depth) r
