-- ===== src/Flush/Vouched.antt =====
-- Which records a step submits.
use mathlib.Core.List.{append_assoc, append-nil}
use semblend_vllm_connector.Prelude.{
  ℕ, ◌≤◌, min, ◌≡◌, refl, ap, sym, ◌∙◌, String, Bool, true, false, Option, none, some, List, [],
  ◌∷◌, ◌++◌, arith, Dict, get, put, contains, All, Keeps-if_eq, if-eq_of_false,
}
use semblend_vllm_connector.Journal.{Journal, count}
use semblend_vllm_connector.Writer.{WriteJob, Kind}
use semblend_vllm_connector.Worker.{Worker, WorkerEngine}
use semblend_vllm_connector.Staging.{progress_of, submit_write}
use semblend_vllm_connector.Save.{shortest}
use semblend_vllm_connector.Flush.{
  keys, sorted, record_job, finalize_layers, submit_finalize, submit_finalizes,
  submit_pending_finalizes,
}

AtMost : ℕ → Dict ℕ → Type 0
AtMost n progress = All (λ entry. n ≤ entry.1) progress

AtMost-le : (m n : ℕ) (progress : Dict ℕ) → m ≤ n → AtMost n progress → AtMost m progress
unfolding AtMost
AtMost-le m n [] h k = tt
AtMost-le m n ((layer, x) ∷ rest) h k = (omega (arith, h, k.0), AtMost-le m n rest h k.1)

shortest-le : (n : ℕ) (rest : Dict ℕ) → (shortest n rest ≤ n) × AtMost (shortest n rest) rest
unfolding shortest AtMost
shortest-le n [] = (omega arith, tt)
shortest-le n ((layer, m) ∷ rest) =
    let below = shortest-le (min n m) rest in
    (omega (arith, below.0), (omega (arith, below.0), below.1))

-- A record that the state vouches for: of a request none of whose writes has failed, under the namespace
-- of its capture, as long as the shortest of its layers, and naming all of them.
abbrev pub IsVouched : Worker → WriteJob → Type 0
IsVouched w job =
    (job.kind ≡ Kind.metadata)
    × (contains job.request_id w.capture_write_failed ≡ false)
    × (get job.request_id w.capture_namespaces ≡ some job.namespace)
    × All (λ entry. job.token_count ≤ entry.1) (progress_of job.request_id w)
    × (job.layer_names ≡ sorted (keys (progress_of job.request_id w)))

module _ (e : WorkerEngine) (w : Worker) (runs : w.writer_closed ≡ false) where
  -- What submitting records changes.
  abbrev submitted : Journal → Dict ℕ → List WriteJob → Worker
  submitted j finalized queue = record w {
    journal = j;
    finalized_donors = finalized;
    queue = queue;
  }

  abbrev Submits : List WriteJob → Worker → Type 0
  Submits queue u =
      (j : Journal) × (finalized : Dict ℕ) × (new : List WriteJob) × (u
        ≡ submitted j finalized (queue ++ new))
      × All (IsVouched w) new

  abbrev always : WriteJob → Bool
  always job = true

  layers-Submits :
      (j : Journal) (finalized : Dict ℕ) (queue : List WriteJob) (request_id namespace : String)
      (progress : Dict ℕ)
      → progress_of request_id w ≡ progress
      → get request_id w.capture_namespaces ≡ some namespace
      → Submits queue
          (finalize_layers e always request_id namespace progress (submitted j finalized queue))
  unfolding finalize_layers submit_write AtMost
  layers-Submits j finalized queue request_id namespace [] is at =
      (j, finalized, [], (λ i. submitted j finalized (sym (append-nil queue) i)), tt)
  layers-Submits j finalized queue request_id namespace ((layer, n) ∷ rest) is at =
      let short = shortest-le n rest in
      Keeps-if_eq (Submits queue) (contains request_id w.capture_write_failed) _ _
        (λ failed.
          let j' = count "capture_finalize_skipped_write_failed" j in
          (j', finalized, [], (λ i. submitted j' finalized (sym (append-nil queue) i)), tt))
        (λ fine. (
          j,
          put request_id (shortest n rest) finalized,
          record_job request_id namespace ((layer, n) ∷ rest) (shortest n rest) ∷ [],
          if-eq_of_false w.writer_closed _ _ runs,
          ((refl, fine, at, rw is short, ap (λ p. sorted (keys p)) (sym is)), tt),
        ))

  finalize-Submits :
      (j : Journal) (finalized : Dict ℕ) (queue : List WriteJob) (request_id : String)
      → Submits queue (submit_finalize e always request_id (submitted j finalized queue))
  unfolding submit_finalize
  finalize-Submits j finalized queue request_id = split (get request_id w.capture_namespaces) refl
    where
      split :
          (o : Option String)
          → get request_id w.capture_namespaces ≡ o
          → Submits queue (submit_finalize e always request_id (submitted j finalized queue))
      split none is =
          rw (is, submit_finalize)
            (j, finalized, [], (λ i. submitted j finalized (sym (append-nil queue) i)), tt)
      split (some namespace) is =
          rw (is, submit_finalize)
            (layers-Submits j finalized queue request_id namespace (progress_of request_id w) refl
              is)

  All-append :
      (xs ys : List WriteJob)
      → All (IsVouched w) xs
      → All (IsVouched w) ys
      → All (IsVouched w) (xs ++ ys)
  All-append [] ys h k = k
  All-append (x ∷ xs) ys h k = (h.0, All-append xs ys h.1 k)

  finalizes-Submits :
      (ids : List String) (j : Journal) (finalized : Dict ℕ) (queue : List WriteJob)
      → Submits queue (submit_finalizes e always ids (submitted j finalized queue))
  unfolding submit_finalizes
  finalizes-Submits [] j finalized queue =
      (j, finalized, [], (λ i. submitted j finalized (sym (append-nil queue) i)), tt)
  finalizes-Submits (request_id ∷ rest) j finalized queue =
      let (j', finalized', new, eq, vouched) = finalize-Submits j finalized queue request_id in
      let (j'', finalized'', more, eq', all) =
        finalizes-Submits rest j' finalized' (queue ++ new) in
      (
        j'',
        finalized'',
        new ++ more,
        ap (submit_finalizes e always rest) eq
            ∙ eq'
            ∙ (λ i. submitted j'' finalized'' (append_assoc queue new more i)),
        All-append new more vouched all,
      )

-- For a writer that is not closed and a step with no deadline: the jobs that are queued behind the others
-- are records only, each of a request none of whose writes has failed, under the namespace of its
-- capture, naming all of its layers and no longer than the shortest of them; and no finalize is left
-- pending.
pub submit_pending_finalizes-Vouched :
    (e : WorkerEngine) (w : Worker)
    → w.writer_closed ≡ false
    → (new : List WriteJob) × ((submit_pending_finalizes e (λ job. true) w).queue ≡ w.queue ++ new)
      × All (IsVouched w) new
      × ((submit_pending_finalizes e (λ job. true) w).finalize_pending ≡ [])
unfolding submit_pending_finalizes
submit_pending_finalizes-Vouched e w runs =
    let (j, finalized, new, eq, vouched) =
      finalizes-Submits e w runs (sorted w.finalize_pending) w.journal w.finalized_donors w.queue in
    (new, ap (λ u. u.queue) eq, vouched, refl)
