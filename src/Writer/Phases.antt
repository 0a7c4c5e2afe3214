-- ===== src/Writer/Phases.antt =====
-- The phases of `close`, and what each has of the thread, the queue and the waiting submitters.
use semblend_vllm_connector.Prelude.{
  ◌≡◌, refl, sym, subst, Bool, true, false, Option, none, some, List, [], ◌∷◌, ◌++◌,
}
use semblend_vllm_connector.Writer.{WriteJob, Thread, Phase, CaptureWriter, started, after_job}

abbrev pub NoSentinel : List (Option WriteJob) → Type 0
NoSentinel [] = Unit
NoSentinel (none ∷ rest) = ⊥
NoSentinel (some job ∷ rest) = NoSentinel rest

-- The sentinel is the last item.
abbrev pub EndsInSentinel : List (Option WriteJob) → Type 0
EndsInSentinel [] = ⊥
EndsInSentinel (none ∷ rest) = rest ≡ []
EndsInSentinel (some job ∷ rest) = EndsInSentinel rest

abbrev pub IsLive : Thread → List (Option WriteJob) → Type 0
IsLive Thread.absent q = ⊥
IsLive Thread.waiting q = NoSentinel q
IsLive Thread.stopped q = ⊥
IsLive (Thread.holding none) q = ⊥
IsLive (Thread.holding (some job)) q = NoSentinel q

abbrev pub IsOpen : Thread → List (Option WriteJob) → List WriteJob → Type 0
IsOpen Thread.absent q b = (q ≡ []) × (b ≡ [])
IsOpen Thread.waiting q b = NoSentinel q
IsOpen Thread.stopped q b = ⊥
IsOpen (Thread.holding none) q b = ⊥
IsOpen (Thread.holding (some job)) q b = NoSentinel q

abbrev pub IsSealed : Thread → List (Option WriteJob) → Type 0
IsSealed Thread.absent q = ⊥
IsSealed Thread.waiting q = EndsInSentinel q
IsSealed Thread.stopped q = q ≡ []
IsSealed (Thread.holding none) q = q ≡ []
IsSealed (Thread.holding (some job)) q = EndsInSentinel q

-- What the phases promise about the thread, the queue and the waiting submitters, from the flags
-- `closed`, `stopping` and `overtaken`.
abbrev pub Fits :
    Phase → Thread → List (Option WriteJob) → List WriteJob → Bool → Bool → Bool → Type 0
Fits Phase.opened t q b c s o = (c ≡ false) × (s ≡ false) × IsOpen t q b
Fits Phase.closing t q b c s o = (c ≡ true) × (s ≡ false) × (o ≡ false → (b ≡ []) × IsLive t q)
Fits Phase.sealed t q b c s o = (c ≡ true) × (s ≡ false) × (o ≡ false → (b ≡ []) × IsSealed t q)
Fits Phase.abandoning t q b c s o = (c ≡ true) × (o ≡ false → b ≡ [])
Fits Phase.settled t q b c s o = (c ≡ true) × (o ≡ false → (b ≡ []) × (q ≡ []))

abbrev pub IsPhased : CaptureWriter → Type 0
IsPhased w = Fits w.phase w.thread w.queue w.blocked w.closed w.stopping w.overtaken

NoSentinel-put :
    (q : List (Option WriteJob)) (job : WriteJob) → NoSentinel q → NoSentinel (q ++ some job ∷ [])
NoSentinel-put [] job h = tt
NoSentinel-put (none ∷ rest) job h = h
NoSentinel-put (some j ∷ rest) job h = NoSentinel-put rest job h

pub EndsInSentinel-put :
    (q : List (Option WriteJob)) → NoSentinel q → EndsInSentinel (q ++ none ∷ [])
EndsInSentinel-put [] h = refl
EndsInSentinel-put (none ∷ rest) h = elim h [ ]
EndsInSentinel-put (some j ∷ rest) h = EndsInSentinel-put rest h

module _ (job : WriteJob) (b : List WriteJob) (c s o : Bool) where
  IsOpen-put :
      (t : Thread) (q : List (Option WriteJob))
      → IsOpen t q b
      → IsOpen (started t) (q ++ some job ∷ []) b
  IsOpen-put Thread.absent q h = rw h.0 tt
  IsOpen-put Thread.waiting q h = NoSentinel-put q job h
  IsOpen-put Thread.stopped q h = h
  IsOpen-put (Thread.holding none) q h = h
  IsOpen-put (Thread.holding (some j)) q h = NoSentinel-put q job h

  IsOpen-wait :
      (t : Thread) (q : List (Option WriteJob)) → IsOpen t q b → IsOpen (started t) q (job ∷ b)
  IsOpen-wait Thread.absent q h = rw h.0 tt
  IsOpen-wait Thread.waiting q h = h
  IsOpen-wait Thread.stopped q h = h
  IsOpen-wait (Thread.holding none) q h = h
  IsOpen-wait (Thread.holding (some j)) q h = h

  pub submit-Fits :
      (p : Phase) (t : Thread) (q : List (Option WriteJob))
      → c ≡ false
      → Fits p t q b c s o
      → Fits p (started t) (q ++ some job ∷ []) b c s o × Fits p (started t) q (job ∷ b) c s o
  submit-Fits Phase.opened t q e h =
      ((h.0, h.1, IsOpen-put t q h.2), (h.0, h.1, IsOpen-wait t q h.2))
  submit-Fits Phase.closing t q e h = cc
  submit-Fits Phase.sealed t q e h = cc
  submit-Fits Phase.abandoning t q e h = cc
  submit-Fits Phase.settled t q e h = cc

  IsOpen-resume :
      (t : Thread) (q : List (Option WriteJob)) (others : List WriteJob)
      → (b ≡ [] → ⊥)
      → IsOpen t q b
      → IsOpen t (q ++ some job ∷ []) others × IsOpen t q others
  IsOpen-resume Thread.absent q others some_wait h = absurd (some_wait h.1)
  IsOpen-resume Thread.waiting q others some_wait h = (NoSentinel-put q job h, h)
  IsOpen-resume Thread.stopped q others some_wait h = absurd h
  IsOpen-resume (Thread.holding none) q others some_wait h = absurd h
  IsOpen-resume (Thread.holding (some j)) q others some_wait h = (NoSentinel-put q job h, h)

  pub resume-Fits :
      (p : Phase) (t : Thread) (q : List (Option WriteJob)) (others : List WriteJob)
      → (b ≡ [] → ⊥)
      → Fits p t q b c s o
      → Fits p t (q ++ some job ∷ []) others c s o × Fits p t q others c s o
  resume-Fits Phase.opened t q others some_wait h =
      let both = IsOpen-resume t q others some_wait h.2 in ((h.0, h.1, both.0), (h.0, h.1, both.1))
  resume-Fits Phase.closing t q others some_wait h =
      let never = λ (e : o ≡ false). some_wait (h.2 e).0 in
      ((h.0, h.1, λ e. absurd (never e)), (h.0, h.1, λ e. absurd (never e)))
  resume-Fits Phase.sealed t q others some_wait h =
      let never = λ (e : o ≡ false). some_wait (h.2 e).0 in
      ((h.0, h.1, λ e. absurd (never e)), (h.0, h.1, λ e. absurd (never e)))
  resume-Fits Phase.abandoning t q others some_wait h =
      ((h.0, λ e. absurd (some_wait (h.1 e))), (h.0, λ e. absurd (some_wait (h.1 e))))
  resume-Fits Phase.settled t q others some_wait h =
      ((h.0, λ e. absurd (some_wait (h.1 e).0)), (h.0, λ e. absurd (some_wait (h.1 e).0)))

module _ (b : List WriteJob) (c s o : Bool) where
  pub get-Fits :
      (p : Phase) (item : Option WriteJob) (rest : List (Option WriteJob))
      → Fits p Thread.waiting (item ∷ rest) b c s o
      → Fits p (Thread.holding item) rest b c s o
  get-Fits Phase.opened none rest h = h
  get-Fits Phase.opened (some job) rest h = h
  get-Fits Phase.closing none rest h = h
  get-Fits Phase.closing (some job) rest h = h
  get-Fits Phase.sealed none rest h = h
  get-Fits Phase.sealed (some job) rest h = h
  get-Fits Phase.abandoning item rest h = h
  get-Fits Phase.settled item rest h = (h.0, λ e. cc (h.1 e).1)

  pub stop-Fits :
      (p : Phase) (q : List (Option WriteJob))
      → Fits p (Thread.holding none) q b c s o
      → Fits p Thread.stopped q b c s o
  stop-Fits Phase.opened q h = h
  stop-Fits Phase.closing q h = h
  stop-Fits Phase.sealed q h = h
  stop-Fits Phase.abandoning q h = h
  stop-Fits Phase.settled q h = h

  pub run-Fits :
      (p : Phase) (q : List (Option WriteJob)) (job : WriteJob)
      → Fits p (Thread.holding (some job)) q b c s o
      → Fits p (after_job s) q b c s o
  unfolding after_job
  run-Fits Phase.opened q job h =
      subst (λ s'. Fits Phase.opened (after_job s') q b c s o) (sym h.1) h
  run-Fits Phase.closing q job h =
      subst (λ s'. Fits Phase.closing (after_job s') q b c s o) (sym h.1) h
  run-Fits Phase.sealed q job h =
      subst (λ s'. Fits Phase.sealed (after_job s') q b c s o) (sym h.1) h
  run-Fits Phase.abandoning q job h = h
  run-Fits Phase.settled q job h = h
