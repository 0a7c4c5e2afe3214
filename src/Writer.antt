-- ===== src/Writer.antt =====
-- capture_writer.py: the thread that lands captured layers and donor records, behind a bounded FIFO.
-- One state for the queue, the thread and whoever is about to put a job in the queue; each operation stands
-- for what its thread does without giving the others a turn, and `Step` interleaves them. A write
-- succeeds or raises as the store decides. Time, log lines, the CUDA event of a job and the exit hook
-- of the process, which only calls `close`, are left out.
pub mod Accounted
pub mod Order
pub mod Phases
pub mod Close
pub mod Progress
use semblend_vllm_connector.Prelude.{
  ℕ, zero, suc, ◌+◌, ◌-◌, max, ◌≡◌, String, Bool, true, false, not, ◌&&◌, ◌||◌, Option, none, some,
  List, [], ◌∷◌, ◌++◌, ltb, ◌==◌, if◌then◌else◌, length, ◌>>=◌, subst, refl,
}

-- The keys and values of one token in one layer, of which only the identity matters.
abbrev pub Row : Type 0
Row = ℕ

-- A host tensor: a row for each token.
abbrev pub HostKv : Type 0
HostKv = List Row

pub data Kind : Type 0 where
  layer metadata : Kind

pub record WriteJob : Type 0 where
  pub request_id : String
  pub namespace : String
  pub kind : Kind
  pub layer_name : Option String
  pub payload : HostKv
  pub token_count : ℕ
  pub layer_names : List String

-- What is in the thread's hands: nothing, a job, or the sentinel that ends it.
pub data Thread : Type 0 where
  absent waiting stopped : Thread
  holding : Option WriteJob → Thread

-- How far `close` is: not called, before the sentinel, behind it, failing what is queued, or done.
pub data Phase : Type 0 where
  opened closing sealed abandoning settled : Phase

-- `blocked` are the jobs whose submitters have found the writer open and not yet put them in the queue,
-- be it that they wait for room. `accepted`, `written` and `failed` record what
-- entered the queue, what was written and what `on_error` was called for, in order; `overtaken` says
-- that there was such a submitter when `close` was called.
pub record CaptureWriter : Type 0 where
  pub max_queue_depth : ℕ
  pub queue : List (Option WriteJob)
  pub unfinished : ℕ
  pub thread : Thread
  pub closed : Bool
  pub stopping : Bool
  pub phase : Phase
  pub blocked : List WriteJob
  pub accepted : List WriteJob
  pub written : List WriteJob
  pub failed : List WriteJob
  pub overtaken : Bool

unfoldable pub new : ℕ → CaptureWriter
new max_queue_depth = record {
  max_queue_depth = max 1 max_queue_depth;
  queue = [];
  unfinished = 0;
  thread = Thread.absent;
  closed = false;
  stopping = false;
  phase = Phase.opened;
  blocked = [];
  accepted = [];
  written = [];
  failed = [];
  overtaken = false;
}

abbrev pub started : Thread → Thread
started Thread.absent = Thread.waiting
started Thread.waiting = Thread.waiting
started Thread.stopped = Thread.stopped
started (Thread.holding item) = Thread.holding item

-- none is the RuntimeError of a closed writer.
unfoldable pub ensure_thread : CaptureWriter → Option CaptureWriter
ensure_thread w = if w.closed then none else some (record w { thread = started w.thread })

abbrev pub job_of : Option WriteJob → List WriteJob
job_of none = []
job_of (some job) = job ∷ []

-- `Queue.put_nowait`; none is `queue.Full`.
unfoldable pub put_nowait : Option WriteJob → CaptureWriter → Option CaptureWriter
put_nowait item w =
    if ltb (length w.queue) w.max_queue_depth
    then some (record w {
      queue = w.queue ++ item ∷ [];
      unfinished = suc w.unfinished;
      accepted = w.accepted ++ job_of item;
    })
    else none

enter : WriteJob → CaptureWriter → CaptureWriter
enter job w = record w { blocked = job ∷ w.blocked }

-- `submit` up to its `put`. The lock of `_ensure_thread` is released before that, so that others can
-- have a turn, and the submitter then needs room in the queue, whether it waits for it or not.
unfoldable pub submit : WriteJob → CaptureWriter → Option CaptureWriter
unfolding ensure_thread enter
submit job w = ensure_thread w >>= λ w'. some (enter job w')

-- A submitter's `put` finds room.
unfoldable pub resume : WriteJob → List WriteJob → CaptureWriter → Option CaptureWriter
unfolding put_nowait
resume job others w = put_nowait (some job) (record w { blocked = others })

abbrev pub is_absent : Thread → Bool
is_absent Thread.absent = true
is_absent _ = false

-- Whether `join` returns at once.
unfoldable pub join_returns : CaptureWriter → Bool
join_returns w = is_absent w.thread || w.closed || w.unfinished == 0

take_from : List (Option WriteJob) → Thread → CaptureWriter → Option CaptureWriter
take_from (item ∷ rest) Thread.waiting w =
    some (record w { queue = rest; thread = Thread.holding item })
take_from _ _ w = none

-- The thread's `get`.
unfoldable pub get_job : CaptureWriter → Option CaptureWriter
unfolding take_from
get_job w = take_from w.queue w.thread w

task_done : CaptureWriter → CaptureWriter
task_done w = record w { unfinished = w.unfinished - 1 }

pub after_job : Bool → Thread
after_job stopping = if stopping then Thread.stopped else Thread.waiting

handle : Bool → Thread → CaptureWriter → Option CaptureWriter
unfolding task_done after_job
handle succeeds (Thread.holding none) w = some (task_done (record w { thread = Thread.stopped }))
handle succeeds (Thread.holding (some job)) w = some (
    task_done (
      if succeeds
      then record w { thread = after_job w.stopping; written = w.written ++ job ∷ [] }
      else record w { thread = after_job w.stopping; failed = w.failed ++ job ∷ [] }))
handle succeeds _ w = none

-- The rest of one round of `_run`, given whether the write succeeds.
unfoldable pub run_job : Bool → CaptureWriter → Option CaptureWriter
unfolding handle
run_job succeeds w = handle succeeds w.thread w

-- What the thread does next, where the store decides each write by `store`; none where it waits for
-- an item or has returned.
thread_step : (WriteJob → Bool) → Thread → CaptureWriter → Option CaptureWriter
unfolding get_job run_job
thread_step store Thread.waiting w = get_job w
thread_step store (Thread.holding none) w = run_job true w
thread_step store (Thread.holding (some job)) w = run_job (store job) w
thread_step store _ w = none

-- The loop of `_run`, as far as it goes with the thread alone: two steps for each item.
unfoldable pub run : ℕ → (WriteJob → Bool) → CaptureWriter → CaptureWriter
unfolding thread_step
run zero store w = w
run (suc fuel) store w = elim (thread_step store w.thread w) [
  | none ↦ w
  | some w' ↦ run fuel store w'
]

abbrev pub is_nil_job : List WriteJob → Bool
is_nil_job [] = true
is_nil_job (job ∷ jobs) = false

-- `close` up to the sentinel; a second call returns without an effect.
unfoldable pub close : CaptureWriter → CaptureWriter
close w = if w.closed then w else record w {
  closed = true;
  phase = if is_absent w.thread then Phase.settled else Phase.closing;
  overtaken = not (is_nil_job w.blocked);
}

put_sentinel : Phase → CaptureWriter → Option CaptureWriter
unfolding put_nowait
put_sentinel Phase.closing w = put_nowait none (record w { phase = Phase.sealed })
put_sentinel _ w = none

-- The sentinel's `put` finds room before the deadline.
unfoldable pub seal : CaptureWriter → Option CaptureWriter
unfolding put_sentinel
seal w = put_sentinel w.phase w

give_up_in : Phase → CaptureWriter → Option CaptureWriter
give_up_in Phase.closing w = some (record w { stopping = true; phase = Phase.abandoning })
give_up_in _ w = none

-- The deadline passes first.
unfoldable pub give_up : CaptureWriter → Option CaptureWriter
unfolding give_up_in
give_up w = give_up_in w.phase w

abandon_in : Phase → List (Option WriteJob) → CaptureWriter → Option CaptureWriter
unfolding task_done
abandon_in Phase.abandoning [] w = some (record w { phase = Phase.settled })
abandon_in Phase.abandoning (item ∷ rest) w =
    some (task_done (record w { queue = rest; failed = w.failed ++ job_of item }))
abandon_in _ _ w = none

-- One round of `_abandon_queued`.
unfoldable pub abandon_one : CaptureWriter → Option CaptureWriter
unfolding abandon_in
abandon_one w = abandon_in w.phase w.queue w

pub data Step (w u : CaptureWriter) : Type 0 where
  submits : (job : WriteJob) → submit job w ≡ some u → Step w u
  resumes :
      (before after : List WriteJob) (job : WriteJob)
      → w.blocked ≡ before ++ job ∷ after
      → resume job (before ++ after) w ≡ some u
      → Step w u
  times_out :
      (before after : List WriteJob) (job : WriteJob)
      → w.blocked ≡ before ++ job ∷ after
      → u ≡ record w { blocked = before ++ after }
      → Step w u
  gets : get_job w ≡ some u → Step w u
  runs : (succeeds : Bool) → run_job succeeds w ≡ some u → Step w u
  closes : close w ≡ u → Step w u
  seals : seal w ≡ some u → Step w u
  gives_up : give_up w ≡ some u → Step w u
  abandons : abandon_one w ≡ some u → Step w u

pub data Reach (w : CaptureWriter) : CaptureWriter → Type 0 where
  here : Reach w w
  next : {u v : CaptureWriter} → Reach w u → Step u v → Reach w v

-- An invariant is kept along every run if each operation keeps it.
pub Reach-keeps {ℓ} :
    (P : CaptureWriter → Type ℓ) {w u : CaptureWriter}
    → ((a b : CaptureWriter) → Step a b → P a → P b)
    → P w
    → Reach w u
    → P u
Reach-keeps P keep h here = h
Reach-keeps P keep h (next {u} {v} r st) = keep u v st (Reach-keeps P keep h r)
