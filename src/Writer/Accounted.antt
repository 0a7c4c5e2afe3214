-- ===== src/Writer/Accounted.antt =====
-- The writer's queue and its counter, and what becomes of every job that enters the queue.
use semblend_vllm_connector.Prelude.{
  ℕ, ◌+◌, ◌≤◌, ◌≡◌, refl, ap, sym, subst, inl, inr, Bool, true, false, not, Option, none, some,
  List, [], ◌∷◌, ◌++◌, arith, length, length-append, Bool-cases, ltb, if◌then◌else◌, Returns,
  Keeps-if, Returns-if, Returns->>=, Returns-some,
}
use semblend_vllm_connector.Writer.{
  WriteJob, Thread, Phase, CaptureWriter, new, job_of, submit, resume, get_job, run_job, close,
  seal, give_up, abandon_one, Step, Reach, put_nowait, take_from, handle, put_sentinel, give_up_in,
  abandon_in, ensure_thread, enter, started, after_job, is_absent, is_nil_job, Reach-keeps,
}

-- The sum of a weight over jobs. With the weight that is 1 at one job and 0 elsewhere it counts that job.
abbrev pub total : (WriteJob → ℕ) → List WriteJob → ℕ
total f [] = 0
total f (job ∷ jobs) = f job + total f jobs

abbrev pub jobs : List (Option WriteJob) → List WriteJob
jobs [] = []
jobs (item ∷ rest) = job_of item ++ jobs rest

abbrev pub held : Thread → List WriteJob
held (Thread.holding item) = job_of item
held _ = []

-- The items that the thread has taken and not yet marked done.
abbrev pub in_hand : Thread → ℕ
in_hand (Thread.holding item) = 1
in_hand _ = 0

pub record IsAccounted (w : CaptureWriter) : Type 0 where
  pub bounded : length w.queue ≤ w.max_queue_depth
  pub counted : w.unfinished ≡ length w.queue + in_hand w.thread
  pub fates :
      (f : WriteJob → ℕ)
      → total f w.accepted
        ≡ total f w.written + total f w.failed + total f (held w.thread) + total f (jobs w.queue)

total-append :
    (f : WriteJob → ℕ) (xs ys : List WriteJob) → total f (xs ++ ys) ≡ total f xs + total f ys
total-append f [] ys = omega arith
total-append f (x ∷ xs) ys = omega (arith, total-append f xs ys)

total-jobs-append :
    (f : WriteJob → ℕ) (xs ys : List (Option WriteJob))
    → total f (jobs (xs ++ ys)) ≡ total f (jobs xs) + total f (jobs ys)
total-jobs-append f [] ys = omega arith
total-jobs-append f (none ∷ xs) ys = total-jobs-append f xs ys
total-jobs-append f (some job ∷ xs) ys = omega (arith, total-jobs-append f xs ys)

total-job_of-queue :
    (f : WriteJob → ℕ) (item : Option WriteJob) (q : List (Option WriteJob))
    → total f (jobs (q ++ item ∷ [])) ≡ total f (jobs q) + total f (job_of item)
total-job_of-queue f none q = total-jobs-append f q (none ∷ [])
total-job_of-queue f (some job) q = omega (arith, total-jobs-append f q (some job ∷ []))

put_nowait-IsAccounted :
    (item : Option WriteJob) (w : CaptureWriter)
    → IsAccounted w
    → Returns IsAccounted (put_nowait item w)
unfolding put_nowait
put_nowait-IsAccounted item w h = elim (Bool-cases (ltb (length w.queue) w.max_queue_depth)) [
  | inl room ↦ rw room (record {
    bounded = ground (arith, length-append w.queue (item ∷ []), room);
    counted = omega (arith, h.counted, length-append w.queue (item ∷ []));
    fates = λ f. omega (
      arith,
      h.fates f,
      total-append f w.accepted (job_of item),
      total-job_of-queue f item w.queue,
    );
  })
  | inr full ↦ rw full tt
]

pub held-started : (t : Thread) → held (started t) ≡ held t
held-started Thread.absent = refl
held-started _ = refl

in_hand-started : (t : Thread) → in_hand (started t) ≡ in_hand t
in_hand-started Thread.absent = refl
in_hand-started _ = refl

started-IsAccounted :
    (w : CaptureWriter) → IsAccounted w → IsAccounted (record w { thread = started w.thread })
started-IsAccounted w h = record {
  bounded = h.bounded;
  counted = omega (arith, h.counted, in_hand-started w.thread);
  fates = λ f. rw (held-started w.thread) (h.fates f);
}

enter-IsAccounted : (job : WriteJob) (w : CaptureWriter) → IsAccounted w → IsAccounted (enter job w)
unfolding enter
enter-IsAccounted job w h = record { bounded = h.bounded; counted = h.counted; fates = h.fates }

submit-IsAccounted :
    (job : WriteJob) (w : CaptureWriter) → IsAccounted w → Returns IsAccounted (submit job w)
unfolding submit ensure_thread
submit-IsAccounted job w h =
    Returns->>= IsAccounted IsAccounted (ensure_thread w) (λ w'. some (enter job w'))
      (Returns-if IsAccounted w.closed none (some (record w { thread = started w.thread })) tt
        (started-IsAccounted w h))
      (λ w' h'. enter-IsAccounted job w' h')

take_from-IsAccounted :
    (q : List (Option WriteJob)) (t : Thread) (w : CaptureWriter)
    → w.queue ≡ q
    → w.thread ≡ t
    → IsAccounted w
    → Returns IsAccounted (take_from q t w)
unfolding take_from
take_from-IsAccounted (item ∷ rest) Thread.waiting w eq et h = record {
  bounded = omega (arith, h.bounded, ap length eq);
  counted = omega (arith, h.counted, ap length eq, ap in_hand et);
  fates = λ f. omega (
    arith,
    h.fates f,
    ap (λ t. total f (held t)) et,
    ap (λ q. total f (jobs q)) eq,
    total-append f (job_of item) (jobs rest),
  );
}
take_from-IsAccounted [] t w eq et h = tt
take_from-IsAccounted (item ∷ rest) _ w eq et h = tt

pub held-after_job : (stopping : Bool) → held (after_job stopping) ≡ []
unfolding after_job
held-after_job true = refl
held-after_job false = refl

in_hand-after_job : (stopping : Bool) → in_hand (after_job stopping) ≡ 0
unfolding after_job
in_hand-after_job true = refl
in_hand-after_job false = refl

handle-IsAccounted :
    (succeeds : Bool) (t : Thread) (w : CaptureWriter)
    → w.thread ≡ t
    → IsAccounted w
    → Returns IsAccounted (handle succeeds t w)
unfolding handle
handle-IsAccounted succeeds Thread.absent w e h = tt
handle-IsAccounted succeeds Thread.waiting w e h = tt
handle-IsAccounted succeeds Thread.stopped w e h = tt
handle-IsAccounted succeeds (Thread.holding none) w e h = record {
  bounded = h.bounded;
  counted = omega (arith, h.counted, ap in_hand e);
  fates = λ f. omega (arith, h.fates f, ap (λ t. total f (held t)) e);
}
handle-IsAccounted true (Thread.holding (some job)) w e h = record {
  bounded = h.bounded;
  counted = omega (arith, h.counted, ap in_hand e, in_hand-after_job w.stopping);
  fates = λ f. omega (
    arith,
    h.fates f,
    ap (λ t. total f (held t)) e,
    ap (total f) (held-after_job w.stopping),
    total-append f w.written (job ∷ []),
  );
}
handle-IsAccounted false (Thread.holding (some job)) w e h = record {
  bounded = h.bounded;
  counted = omega (arith, h.counted, ap in_hand e, in_hand-after_job w.stopping);
  fates = λ f. omega (
    arith,
    h.fates f,
    ap (λ t. total f (held t)) e,
    ap (total f) (held-after_job w.stopping),
    total-append f w.failed (job ∷ []),
  );
}

put_sentinel-IsAccounted :
    (p : Phase) (w : CaptureWriter) → IsAccounted w → Returns IsAccounted (put_sentinel p w)
unfolding put_sentinel
put_sentinel-IsAccounted Phase.closing w h =
    put_nowait-IsAccounted none (record w { phase = Phase.sealed })
      (record { bounded = h.bounded; counted = h.counted; fates = h.fates })
put_sentinel-IsAccounted _ w h = tt

give_up_in-IsAccounted :
    (p : Phase) (w : CaptureWriter) → IsAccounted w → Returns IsAccounted (give_up_in p w)
unfolding give_up_in
give_up_in-IsAccounted Phase.closing w h = record {
  bounded = h.bounded;
  counted = h.counted;
  fates = h.fates;
}
give_up_in-IsAccounted _ w h = tt

abandon_in-IsAccounted :
    (p : Phase) (q : List (Option WriteJob)) (w : CaptureWriter)
    → w.queue ≡ q
    → IsAccounted w
    → Returns IsAccounted (abandon_in p q w)
unfolding abandon_in
abandon_in-IsAccounted Phase.abandoning [] w e h = record {
  bounded = h.bounded;
  counted = h.counted;
  fates = h.fates;
}
abandon_in-IsAccounted Phase.abandoning (item ∷ rest) w e h = record {
  bounded = omega (arith, h.bounded, ap length e);
  counted = omega (arith, h.counted, ap length e);
  fates = λ f. omega (
    arith,
    h.fates f,
    ap (λ q. total f (jobs q)) e,
    total-append f (job_of item) (jobs rest),
    total-append f w.failed (job_of item),
  );
}
abandon_in-IsAccounted _ q w e h = tt

close-IsAccounted : (w : CaptureWriter) → IsAccounted w → IsAccounted (close w)
unfolding close
close-IsAccounted w h =
    Keeps-if IsAccounted w.closed w
      (record w {
        closed = true;
        phase = if is_absent w.thread then Phase.settled else Phase.closing;
        overtaken = not (is_nil_job w.blocked);
      })
      h (record { bounded = h.bounded; counted = h.counted; fates = h.fates })

Step-IsAccounted : (w u : CaptureWriter) → Step w u → IsAccounted w → IsAccounted u
unfolding resume get_job run_job seal give_up abandon_one
Step-IsAccounted w u (Step.submits job e) h =
    Returns-some IsAccounted (submit job w) (submit-IsAccounted job w h) e
Step-IsAccounted w u (Step.resumes before after job b e) h =
    Returns-some IsAccounted (resume job (before ++ after) w)
      (put_nowait-IsAccounted (some job) (record w { blocked = before ++ after })
        (record { bounded = h.bounded; counted = h.counted; fates = h.fates }))
      e
Step-IsAccounted w u (Step.times_out before after job b e) h =
    subst IsAccounted (sym e) (record { bounded = h.bounded; counted = h.counted; fates = h.fates })
Step-IsAccounted w u (Step.gets e) h =
    Returns-some IsAccounted (get_job w) (take_from-IsAccounted w.queue w.thread w refl refl h) e
Step-IsAccounted w u (Step.runs succeeds e) h =
    Returns-some IsAccounted (run_job succeeds w) (handle-IsAccounted succeeds w.thread w refl h) e
Step-IsAccounted w u (Step.closes e) h = subst IsAccounted e (close-IsAccounted w h)
Step-IsAccounted w u (Step.seals e) h =
    Returns-some IsAccounted (seal w) (put_sentinel-IsAccounted w.phase w h) e
Step-IsAccounted w u (Step.gives_up e) h =
    Returns-some IsAccounted (give_up w) (give_up_in-IsAccounted w.phase w h) e
Step-IsAccounted w u (Step.abandons e) h =
    Returns-some IsAccounted (abandon_one w) (abandon_in-IsAccounted w.phase w.queue w refl h) e

new-IsAccounted : (depth : ℕ) → IsAccounted (new depth)
unfolding new
new-IsAccounted depth = record { bounded = omega arith; counted = refl; fates = λ f. refl }

-- However the threads interleave and whichever writes fail: the queue keeps its bound, its counter is
-- the number of items queued or in the thread's hands, and every job that entered the queue is, as
-- often as it entered, written, reported to on_error, in the thread's hands or still queued.
pub Reach-IsAccounted : (depth : ℕ) {w : CaptureWriter} → Reach (new depth) w → IsAccounted w
Reach-IsAccounted depth r = Reach-keeps IsAccounted Step-IsAccounted (new-IsAccounted depth) r
