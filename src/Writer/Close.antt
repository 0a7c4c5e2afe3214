-- ===== src/Writer/Close.antt =====
-- What `close` leaves behind, where no submitter was about to put a job when it was called.
use semblend_vllm_connector.Prelude.{
  ℕ, ◌+◌, ◌≡◌, refl, sym, subst, ◌⊎◌, inl, inr, Bool, true, false, not, Option, none, some, List,
  [], ◌∷◌, ◌++◌, length, ltb, if◌then◌else◌, Returns, Returns-some, Returns-if, Returns-if_eq,
  Returns->>=, Keeps-if_eq,
}
use semblend_vllm_connector.Writer.{
  WriteJob, Thread, Phase, CaptureWriter, new, submit, resume, get_job, run_job, close, seal,
  give_up, abandon_one, Step, Reach, put_nowait, take_from, handle, put_sentinel, give_up_in,
  abandon_in, ensure_thread, enter, started, is_absent, is_nil_job, Reach-keeps,
}
use semblend_vllm_connector.Writer.Accounted.{total, jobs, held, Reach-IsAccounted}
use semblend_vllm_connector.Writer.Phases.{
  IsLive, IsOpen, IsSealed, EndsInSentinel-put, Fits, IsPhased, submit-Fits, resume-Fits, get-Fits,
  stop-Fits, run-Fits, EndsInSentinel,
}

put_job-IsPhased :
    (job : WriteJob) (w : CaptureWriter)
    → Fits w.phase w.thread (w.queue ++ some job ∷ []) w.blocked w.closed w.stopping w.overtaken
    → Returns IsPhased (put_nowait (some job) w)
unfolding put_nowait
put_job-IsPhased job w h = Returns-if IsPhased (ltb (length w.queue) w.max_queue_depth) _ none h tt

submit-IsPhased :
    (job : WriteJob) (w : CaptureWriter) → IsPhased w → Returns IsPhased (submit job w)
unfolding submit ensure_thread enter
submit-IsPhased job w h =
    Returns->>= (λ w'. IsPhased (enter job w')) IsPhased (ensure_thread w)
      (λ w'. some (enter job w'))
      (Returns-if_eq (λ w'. IsPhased (enter job w')) w.closed none
        (some (record w { thread = started w.thread })) (λ e. tt)
        (λ e.
          (submit-Fits job w.blocked w.closed w.stopping w.overtaken w.phase w.thread w.queue e
            h).1))
      (λ w' h'. h')

-- The submitters that wait are some, if there is one in their list.
wait-ne-nil :
    (w : CaptureWriter) (before after : List WriteJob) (job : WriteJob)
    → w.blocked ≡ before ++ job ∷ after
    → w.blocked ≡ []
    → ⊥
wait-ne-nil w [] after job b e = cc
wait-ne-nil w (first ∷ before) after job b e = cc

live-IsSealed : (t : Thread) (q : List (Option WriteJob)) → IsLive t q → IsSealed t (q ++ none ∷ [])
live-IsSealed Thread.absent q h = h
live-IsSealed Thread.waiting q h = EndsInSentinel-put q h
live-IsSealed Thread.stopped q h = absurd h
live-IsSealed (Thread.holding none) q h = absurd h
live-IsSealed (Thread.holding (some job)) q h = EndsInSentinel-put q h

nil_of_not_waiting : (b : List WriteJob) → not (is_nil_job b) ≡ false → b ≡ []
nil_of_not_waiting [] e = refl
nil_of_not_waiting (job ∷ b) e = cc

opened-closing :
    (t : Thread) (q : List (Option WriteJob)) (b : List WriteJob) (s : Bool)
    → s ≡ false
    → IsOpen t q b
    → Fits (if is_absent t then Phase.settled else Phase.closing) t q b true s (not (is_nil_job b))
opened-closing Thread.absent q b s e h = (refl, λ o. (h.1, h.0))
opened-closing Thread.waiting q b s e h = (refl, e, λ o. (nil_of_not_waiting b o, h))
opened-closing Thread.stopped q b s e h = absurd h
opened-closing (Thread.holding none) q b s e h = absurd h
opened-closing (Thread.holding (some job)) q b s e h = (refl, e, λ o. (nil_of_not_waiting b o, h))

module _ (w : CaptureWriter) where
  take_from-IsPhased :
      (q : List (Option WriteJob)) (t : Thread)
      → w.queue ≡ q
      → w.thread ≡ t
      → IsPhased w
      → Returns IsPhased (take_from q t w)
  unfolding take_from
  take_from-IsPhased (item ∷ rest) Thread.waiting eq et h =
      get-Fits w.blocked w.closed w.stopping w.overtaken w.phase item rest (
        subst (λ t. Fits w.phase t (item ∷ rest) w.blocked w.closed w.stopping w.overtaken) et
          (subst (λ q. Fits w.phase w.thread q w.blocked w.closed w.stopping w.overtaken) eq h))
  take_from-IsPhased [] t eq et h = tt
  take_from-IsPhased (item ∷ rest) _ eq et h = tt

  handle-IsPhased :
      (succeeds : Bool) (t : Thread)
      → w.thread ≡ t
      → IsPhased w
      → Returns IsPhased (handle succeeds t w)
  unfolding handle
  handle-IsPhased succeeds Thread.absent e h = tt
  handle-IsPhased succeeds Thread.waiting e h = tt
  handle-IsPhased succeeds Thread.stopped e h = tt
  handle-IsPhased succeeds (Thread.holding none) e h =
      stop-Fits w.blocked w.closed w.stopping w.overtaken w.phase w.queue
        (subst (λ t. Fits w.phase t w.queue w.blocked w.closed w.stopping w.overtaken) e h)
  handle-IsPhased true (Thread.holding (some job)) e h =
      run-Fits w.blocked w.closed w.stopping w.overtaken w.phase w.queue job
        (subst (λ t. Fits w.phase t w.queue w.blocked w.closed w.stopping w.overtaken) e h)
  handle-IsPhased false (Thread.holding (some job)) e h =
      run-Fits w.blocked w.closed w.stopping w.overtaken w.phase w.queue job
        (subst (λ t. Fits w.phase t w.queue w.blocked w.closed w.stopping w.overtaken) e h)

  put_sentinel-IsPhased :
      (p : Phase) → w.phase ≡ p → IsPhased w → Returns IsPhased (put_sentinel p w)
  unfolding put_sentinel put_nowait
  put_sentinel-IsPhased Phase.closing e h =
      let at_closing : Fits Phase.closing w.thread w.queue w.blocked w.closed w.stopping
          w.overtaken =
        subst (λ p. Fits p w.thread w.queue w.blocked w.closed w.stopping w.overtaken) e h in
      Returns-if IsPhased (ltb (length w.queue) w.max_queue_depth) _ none
        (
          at_closing.0,
          at_closing.1,
          λ o. ((at_closing.2 o).0, live-IsSealed w.thread w.queue (at_closing.2 o).1),
        )
        tt
  put_sentinel-IsPhased _ e h = tt

  give_up_in-IsPhased : (p : Phase) → w.phase ≡ p → IsPhased w → Returns IsPhased (give_up_in p w)
  unfolding give_up_in
  give_up_in-IsPhased Phase.closing e h =
      let at_closing : Fits Phase.closing w.thread w.queue w.blocked w.closed w.stopping
          w.overtaken =
        subst (λ p. Fits p w.thread w.queue w.blocked w.closed w.stopping w.overtaken) e h in
      (at_closing.0, λ o. (at_closing.2 o).0)
  give_up_in-IsPhased _ e h = tt

  abandon_in-IsPhased :
      (p : Phase) (q : List (Option WriteJob))
      → w.phase ≡ p
      → IsPhased w
      → Returns IsPhased (abandon_in p q (record w { queue = q }))
  unfolding abandon_in
  abandon_in-IsPhased Phase.abandoning [] e h =
      let now : Fits Phase.abandoning w.thread w.queue w.blocked w.closed w.stopping w.overtaken =
        subst (λ p. Fits p w.thread w.queue w.blocked w.closed w.stopping w.overtaken) e h in
      (now.0, λ o. (now.1 o, refl))
  abandon_in-IsPhased Phase.abandoning (item ∷ rest) e h =
      rw e (subst (λ p. Fits p w.thread w.queue w.blocked w.closed w.stopping w.overtaken) e h)
  abandon_in-IsPhased _ q e h = tt

  close_in-Fits :
      (p : Phase)
      → w.closed ≡ false
      → Fits p w.thread w.queue w.blocked w.closed w.stopping w.overtaken
      → Fits
          (if is_absent w.thread then Phase.settled else Phase.closing)
          w.thread
          w.queue
          w.blocked
          true
          w.stopping
          (not (is_nil_job w.blocked))
  close_in-Fits Phase.opened e h = opened-closing w.thread w.queue w.blocked w.stopping h.1 h.2
  close_in-Fits Phase.closing e h = cc
  close_in-Fits Phase.sealed e h = cc
  close_in-Fits Phase.abandoning e h = cc
  close_in-Fits Phase.settled e h = cc

  close-IsPhased : IsPhased w → IsPhased (close w)
  unfolding close
  close-IsPhased h = Keeps-if_eq IsPhased w.closed w _ (λ e. h) (λ e. close_in-Fits w.phase e h)

Step-IsPhased : (w u : CaptureWriter) → Step w u → IsPhased w → IsPhased u
unfolding resume get_job run_job seal give_up abandon_one
Step-IsPhased w u (Step.submits job e) h =
    Returns-some IsPhased (submit job w) (submit-IsPhased job w h) e
Step-IsPhased w u (Step.resumes before after job b e) h =
    Returns-some IsPhased (resume job (before ++ after) w)
      (put_job-IsPhased job (record w { blocked = before ++ after })
        (resume-Fits job w.blocked w.closed w.stopping w.overtaken w.phase w.thread w.queue
          (before ++ after) (wait-ne-nil w before after job b) h).0)
      e
Step-IsPhased w u (Step.times_out before after job b e) h =
    subst IsPhased (sym e)
      (resume-Fits job w.blocked w.closed w.stopping w.overtaken w.phase w.thread w.queue
        (before ++ after) (wait-ne-nil w before after job b) h).1
Step-IsPhased w u (Step.gets e) h =
    Returns-some IsPhased (get_job w) (take_from-IsPhased w w.queue w.thread refl refl h) e
Step-IsPhased w u (Step.runs succeeds e) h =
    Returns-some IsPhased (run_job succeeds w) (handle-IsPhased w succeeds w.thread refl h) e
Step-IsPhased w u (Step.closes e) h = subst IsPhased e (close-IsPhased w h)
Step-IsPhased w u (Step.seals e) h =
    Returns-some IsPhased (seal w) (put_sentinel-IsPhased w w.phase refl h) e
Step-IsPhased w u (Step.gives_up e) h =
    Returns-some IsPhased (give_up w) (give_up_in-IsPhased w w.phase refl h) e
Step-IsPhased w u (Step.abandons e) h =
    Returns-some IsPhased (abandon_one w) (abandon_in-IsPhased w w.phase w.queue refl h) e

new-IsPhased : (depth : ℕ) → IsPhased (new depth)
unfolding new
new-IsPhased depth = (refl, refl, (refl, refl))

pub Reach-IsPhased : (depth : ℕ) {w : CaptureWriter} → Reach (new depth) w → IsPhased w
Reach-IsPhased depth r = Reach-keeps IsPhased Step-IsPhased (new-IsPhased depth) r

-- `close` returns at once where no thread was ever started, after it has given up and failed what was
-- queued, or behind the sentinel: once the thread has stopped, or at the deadline with the thread alive.
abbrev pub HasReturned : CaptureWriter → Type 0
HasReturned w = (w.phase ≡ Phase.settled) ⊎ (w.phase ≡ Phase.sealed)

abbrev pub is_alive : Thread → Bool
is_alive Thread.absent = false
is_alive Thread.waiting = true
is_alive Thread.stopped = false
is_alive (Thread.holding item) = true

-- Nothing is queued, or the thread is alive and the last item of the queue is the sentinel, behind which
-- there is nothing.
abbrev pub IsEnded : Thread → List (Option WriteJob) → Type 0
IsEnded t q = (q ≡ []) ⊎ ((is_alive t ≡ true) × EndsInSentinel q)

sealed-IsEnded : (t : Thread) (q : List (Option WriteJob)) → IsSealed t q → IsEnded t q
sealed-IsEnded Thread.absent q h = absurd h
sealed-IsEnded Thread.waiting q h = inr (refl, h)
sealed-IsEnded Thread.stopped q h = inl h
sealed-IsEnded (Thread.holding none) q h = inl h
sealed-IsEnded (Thread.holding (some job)) q h = inr (refl, h)

returned-IsEnded :
    (w : CaptureWriter)
    → IsPhased w
    → w.overtaken ≡ false
    → HasReturned w
    → IsEnded w.thread w.queue
returned-IsEnded w h o (inl done) =
    inl
      ((subst (λ p. Fits p w.thread w.queue w.blocked w.closed w.stopping w.overtaken) done h).1
        o).1
returned-IsEnded w h o (inr at_end) =
    sealed-IsEnded w.thread w.queue
      ((subst (λ p. Fits p w.thread w.queue w.blocked w.closed w.stopping w.overtaken) at_end h).2
        o).1

-- Where no submitter was between its check and its put when `close` was called: once `close` can have
-- returned, the queue is empty, or the thread is alive and every queued job stands before the sentinel;
-- and every job that ever entered the queue is, as often as it entered, written, reported to on_error, in
-- the thread's hands or still queued.
pub close-NoneLost :
    (depth : ℕ) {w : CaptureWriter}
    → Reach (new depth) w
    → w.overtaken ≡ false
    → HasReturned w
    → IsEnded w.thread w.queue
      × ((f : WriteJob → ℕ)
          → total f w.accepted
            ≡ total f w.written
              + total f w.failed
              + total f (held w.thread)
              + total f (jobs w.queue))
close-NoneLost depth {w} r o returned =
    (returned-IsEnded w (Reach-IsPhased depth r) o returned, (Reach-IsAccounted depth r).fates)
