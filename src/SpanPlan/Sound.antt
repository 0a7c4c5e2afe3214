-- ===== src/SpanPlan/Sound.antt =====
-- What a semantic-span branch advertises.
use semblend_vllm_connector.Prelude.{
  ℕ, ◌+◌, ◌≤◌, ◌≡◌, refl, sym, ap, subst, ◌∙◌, String, Bool, true, false, some, if◌then◌else◌, get,
  length, IsAligned,
}
use semblend_vllm_connector.Journal.{Journal}
use semblend_vllm_connector.Scheduler.{LoadPlan, Scheduler, Request, Engine}
use semblend_vllm_connector.Plan.{Reply, returned, index_error, record_load_plan}
use semblend_vllm_connector.Plan.Sound.{record_load_plan-get}
use semblend_vllm_connector.SpanPlan.{advertise}

-- An audit row or a count leaves the memo alone.
pub load_plans-note_if :
    (b : Bool) (j : Journal) (s : Scheduler)
    → (if b then record s { journal = j } else s).load_plans ≡ s.load_plans
load_plans-note_if true j s = refl
load_plans-note_if false j s = refl

module _ (e : Engine) (r : Request) (computed : ℕ) where
  -- `n` more tokens after the computed ones: the memo holds a plan of `n` tokens at this boundary,
  -- the window ends on a block edge with two prompt tokens or more after it, and `n` is within the
  -- operator's budget.
  pub record IsServed (n : ℕ) (s : Scheduler) : Type 0 where
    pub plan : LoadPlan
    pub memo : get r.request_id s.load_plans ≡ some plan
    pub plan_count : plan.token_count ≡ n
    pub plan_boundary : plan.boundary ≡ computed
    pub room : computed + n + 2 ≤ length r.token_ids
    pub edge : IsAligned e.block_size (computed + n)
    pub budget : n ≤ e.config.max_materialized_tokens

  -- The answers of the match hook: nothing, a served window, or the IndexError.
  pub data IsSound : Reply × Scheduler → Type 0 where
    declined : (s : Scheduler) → IsSound (returned 0, s)
    served : (n : ℕ) (s : Scheduler) → IsServed n s → IsSound (returned n, s)
    raised :
        (s : Scheduler)
        → e.config.multi_donor_spans ≡ true
        → e.config.min_semantic_span ≡ 0
        → IsSound (index_error, s)

  pub IsSound-if :
      (b : Bool) (x y : Reply × Scheduler)
      → (b ≡ true → IsSound x)
      → (b ≡ false → IsSound y)
      → IsSound (if b then x else y)
  IsSound-if true x y hx hy = hx refl
  IsSound-if false x y hx hy = hy refl

  module _ (event : String) (plan : LoadPlan) (s : Scheduler) where
    advertise-memo : get r.request_id (advertise r event plan s).1.load_plans ≡ some plan
    unfolding advertise
    advertise-memo =
        ap (get r.request_id) (load_plans-note_if _ _ (record_load_plan r.request_id plan s).1)
        ∙ record_load_plan-get r.request_id plan s

    advertise-reply : (advertise r event plan s).0 ≡ returned plan.token_count
    unfolding advertise
    advertise-reply = refl

    pub advertise-IsSound :
        plan.boundary ≡ computed
        → computed + plan.token_count + 2 ≤ length r.token_ids
        → IsAligned e.block_size (computed + plan.token_count)
        → plan.token_count ≤ e.config.max_materialized_tokens
        → IsSound (advertise r event plan s)
    advertise-IsSound at room edge budget =
        subst (λ reply. IsSound (reply, (advertise r event plan s).1)) (sym advertise-reply)
          (served plan.token_count (advertise r event plan s).1 (record {
            plan = plan;
            memo = advertise-memo;
            plan_count = refl;
            plan_boundary = at;
            room = room;
            edge = edge;
            budget = budget;
          }))
