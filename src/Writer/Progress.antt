-- ===== src/Writer/Progress.antt =====
-- How long the thread takes to empty the queue of an open writer.
use mathlib.Core.List.{append_assoc, append-nil}
use semblend_vllm_connector.Prelude.{
  ℕ, zero, suc, ◌+◌, ◌-◌, ◌*◌, ◌≤◌, ◌≡◌, refl, sym, subst, ◌∙◌, inl, inr, Bool, true, false, Option,
  none, some, List, [], ◌∷◌, ◌++◌, arith, length, Bool-cases, ◌||◌, ◌==◌, if◌then◌else◌,
}
use semblend_vllm_connector.Writer.{
  WriteJob, Thread, Phase, CaptureWriter, new, Reach, run, join_returns,
}
use semblend_vllm_connector.Writer.Accounted.{jobs, held, in_hand, Reach-IsAccounted}
use semblend_vllm_connector.Writer.Phases.{NoSentinel, Fits, IsOpen}
use semblend_vllm_connector.Writer.Close.{Reach-IsPhased}

-- The jobs whose write succeeds, and those whose write fails.
abbrev pub landed : (WriteJob → Bool) → List WriteJob → List WriteJob
landed store [] = []
landed store (job ∷ rest) = if store job then job ∷ landed store rest else landed store rest

abbrev pub lost : (WriteJob → Bool) → List WriteJob → List WriteJob
lost store [] = []
lost store (job ∷ rest) = if store job then lost store rest else job ∷ lost store rest

-- A writer whose thread waits for an item.
abbrev idle :
    CaptureWriter → List (Option WriteJob) → ℕ → List WriteJob → List WriteJob → CaptureWriter
idle w q n ws fs = record w {
  queue = q;
  thread = Thread.waiting;
  stopping = false;
  unfinished = n;
  written = ws;
  failed = fs;
}

idle-eq :
    (w : CaptureWriter) {n n' : ℕ} {ws ws' fs fs' : List WriteJob}
    → n ≡ n'
    → ws ≡ ws'
    → fs ≡ fs'
    → idle w [] n ws fs ≡ idle w [] n' ws' fs'
idle-eq w en ew ef = λ i. idle w [] (en i) (ew i) (ef i)

module _ (store : WriteJob → Bool) (w : CaptureWriter) where
  run-idle :
      (fuel : ℕ) (q : List (Option WriteJob)) (n : ℕ) (ws fs : List WriteJob)
      → NoSentinel q
      → 2 * length q ≤ fuel
      → run fuel store (idle w q n ws fs)
        ≡ idle w [] (n - length q) (ws ++ landed store (jobs q)) (fs ++ lost store (jobs q))
  unfolding run
  run-idle zero [] n ws fs h enough =
      idle-eq w (omega arith) (sym (append-nil ws)) (sym (append-nil fs))
  run-idle (suc fuel) [] n ws fs h enough =
      idle-eq w (omega arith) (sym (append-nil ws)) (sym (append-nil fs))
  run-idle zero (item ∷ q) n ws fs h enough = absurd (omega arith)
  run-idle (suc zero) (item ∷ q) n ws fs h enough = absurd (omega arith)
  run-idle (suc (suc fuel)) (none ∷ q) n ws fs h enough = absurd h
  run-idle (suc (suc fuel)) (some job ∷ q) n ws fs h enough = elim (Bool-cases (store job)) [
    | inl lands ↦ rw lands (
        run-idle fuel q (n - 1) (ws ++ job ∷ []) fs h (omega arith)
        ∙ idle-eq w (omega arith) (append_assoc ws (job ∷ []) (landed store (jobs q))) refl)
    | inr fails ↦ rw fails (
        run-idle fuel q (n - 1) ws (fs ++ job ∷ []) h (omega arith)
        ∙ idle-eq w (omega arith) refl (append_assoc fs (job ∷ []) (lost store (jobs q))))
  ]

-- The queue is empty, `join` returns, and every job that was pending in `w` has been written or failed,
-- as the store decided, in order.
abbrev pub IsDrained : (WriteJob → Bool) → CaptureWriter → CaptureWriter → Type 0
IsDrained store w u =
    (u.queue ≡ [])
    × (join_returns u ≡ true)
    × (u.written ≡ w.written ++ landed store (held w.thread ++ jobs w.queue))
    × (u.failed ≡ w.failed ++ lost store (held w.thread ++ jobs w.queue))

returns_at_zero : (a b : Bool) (n : ℕ) → n ≡ 0 → (a || b || n == 0) ≡ true
returns_at_zero true b n e = refl
returns_at_zero false true n e = refl
returns_at_zero false false n e = ground arith

module _ (store : WriteJob → Bool) (w : CaptureWriter) (at_work : w.stopping ≡ false) where
  run-waiting :
      (fuel : ℕ)
      → w.thread ≡ Thread.waiting
      → NoSentinel w.queue
      → w.unfinished ≡ length w.queue
      → 2 * length w.queue ≤ fuel
      → IsDrained store w (run fuel store w)
  unfolding join_returns
  run-waiting fuel et h counted enough =
      let w' = record w { thread = Thread.waiting; stopping = false } in
      let same : w' ≡ w = λ i. record w { thread = sym et i; stopping = sym at_work i } in
      subst (λ v. IsDrained store v (run fuel store v)) same
        (subst (IsDrained store w')
          (sym (run-idle store w fuel w.queue w.unfinished w.written w.failed h enough))
          (refl, returns_at_zero false w.closed _ (omega arith), refl, refl))

  run-holding :
      (fuel : ℕ) (job : WriteJob)
      → w.thread ≡ Thread.holding (some job)
      → NoSentinel w.queue
      → w.unfinished ≡ suc (length w.queue)
      → 2 * length w.queue ≤ fuel
      → IsDrained store w (run (suc fuel) store w)
  unfolding join_returns run
  run-holding fuel job et h counted enough =
      let w' = record w { thread = Thread.holding (some job); stopping = false } in
      let same : w' ≡ w = λ i. record w { thread = sym et i; stopping = sym at_work i } in
      subst (λ v. IsDrained store v (run (suc fuel) store v)) same
        (subst (IsDrained store w')
          (sym (
            run-idle store w (suc (suc fuel)) (some job ∷ w.queue) w.unfinished w.written w.failed h
              (omega arith)))
          (refl, returns_at_zero false w.closed _ (omega arith), refl, refl))

-- A thread that was never started has nothing to do.
run-absent :
    (store : WriteJob → Bool) (fuel : ℕ) (w : CaptureWriter)
    → w.thread ≡ Thread.absent
    → run fuel store w ≡ w
unfolding run
run-absent store zero w e = refl
run-absent store (suc fuel) w e =
    let w' = record w { thread = Thread.absent } in
    let same : w' ≡ w = λ i. record w { thread = sym e i } in
    subst (λ v. run (suc fuel) store v ≡ v) same refl

module _ (store : WriteJob → Bool) (w : CaptureWriter) where
  run-open :
      (t : Thread) (fuel : ℕ)
      → w.thread ≡ t
      → w.stopping ≡ false
      → IsOpen t w.queue w.blocked
      → w.unfinished ≡ length w.queue + in_hand t
      → 2 * length w.queue + in_hand t ≤ fuel
      → IsDrained store w (run fuel store w)
  unfolding join_returns
  run-open Thread.absent fuel et es h counted enough =
      subst (IsDrained store w) (sym (run-absent store fuel w et))
        (rw (et, h.0) (refl, refl, sym (append-nil w.written), sym (append-nil w.failed)))
  run-open Thread.waiting fuel et es h counted enough =
      run-waiting store w es fuel et h (omega arith) (omega arith)
  run-open Thread.stopped fuel et es h counted enough = absurd h
  run-open (Thread.holding none) fuel et es h counted enough = absurd h
  run-open (Thread.holding (some job)) zero et es h counted enough = absurd (omega arith)
  run-open (Thread.holding (some job)) (suc fuel) et es h counted enough =
      run-holding store w es fuel job et h (omega arith) (omega arith)

  opened-run :
      (p : Phase) (fuel : ℕ)
      → Fits p w.thread w.queue w.blocked w.closed w.stopping w.overtaken
      → w.closed ≡ false
      → w.unfinished ≡ length w.queue + in_hand w.thread
      → 2 * length w.queue + in_hand w.thread ≤ fuel
      → IsDrained store w (run fuel store w)
  opened-run Phase.opened fuel h e counted enough =
      run-open w.thread fuel refl h.1 h.2 counted enough
  opened-run Phase.closing fuel h e counted enough = cc
  opened-run Phase.sealed fuel h e counted enough = cc
  opened-run Phase.abandoning fuel h e counted enough = cc
  opened-run Phase.settled fuel h e counted enough = cc

-- From every state that an open writer can be in, two steps of the thread for each queued job and one
-- for the job in its hands empty the queue, whichever writes fail: a join then returns, and the pending
-- jobs have been written or failed in order, just as the store decided.
pub run-IsDrained :
    (depth : ℕ) {w : CaptureWriter} (store : WriteJob → Bool) (fuel : ℕ)
    → Reach (new depth) w
    → w.closed ≡ false
    → 2 * length w.queue + in_hand w.thread ≤ fuel
    → IsDrained store w (run fuel store w)
run-IsDrained depth {w} store fuel r e enough =
    opened-run store w w.phase fuel (Reach-IsPhased depth r) e (Reach-IsAccounted depth r).counted
      enough
