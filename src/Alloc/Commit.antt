-- ===== src/Alloc/Commit.antt =====
-- What an allocation leaves behind.
use semblend_vllm_connector.Prelude.{
  ℕ, ◌/◌, ◌<◌, ◌≡◌, refl, ◌∙◌, ◌⊎◌, inl, inr, String, Option, none, some, List, arith, leb,
  Bool-cases, get, put, remove, add, get-put_self, get-remove_self,
}
use semblend_vllm_connector.Scheduler.{LoadPlan, FilledBlocks, Scheduler, Engine}
use semblend_vllm_connector.Fills.{BlockPool, Pass, done, assertion_error}
use semblend_vllm_connector.Fills.Keeps.{KeepsLoads, Mismatched, track_filled_blocks-KeepsLoads}
use semblend_vllm_connector.Alloc.{
  pending_load, start_of, first_fill, keep_fill, commit_load, alloc_plan, alloc_credited,
  alloc_dropped, update_state_after_alloc,
}

module _ (request_id : String) (block_ids : Option (List (List ℕ))) (credited : ℕ) (e : Engine)
    (s : Scheduler) where
  -- Nothing was served: no pending load, no served request and no fill came of the call.
  abbrev pub IsUnserved : Scheduler → Type 0
  IsUnserved s' =
      ((credited ≡ 0) ⊎ ((get request_id s.load_plans ≡ none) ⊎ (block_ids ≡ none)))
      × (s'.pending_loads ≡ s.pending_loads)
      × (s'.served_request_ids ≡ s.served_request_ids)
      × (get request_id s'.filled_blocks ≡ none)

  -- The memoized plan was committed, with the blocks allocated, and its fill is tracked from the
  -- block of its first token.
  abbrev pub IsCommitted : Scheduler → Type 0
  IsCommitted s' =
      (plan : LoadPlan) × (blocks : List (List ℕ)) × (fill : FilledBlocks) × (0 < credited)
      × (get request_id s.load_plans ≡ some plan)
      × (block_ids ≡ some blocks)
      × (s'.pending_loads ≡ put request_id (pending_load request_id plan blocks) s.pending_loads)
      × (s'.served_request_ids ≡ add request_id s.served_request_ids)
      × (get request_id s'.filled_blocks ≡ some fill)
      × (fill.block_ids ≡ blocks)
      × (fill.first_approx_block ≡ start_of plan.target_start / e.block_size)

  abbrev pub IsAllocated {ℓ} : {P : Type ℓ} → Type 0 → Option (Scheduler × P) → Type 0
  IsAllocated R none = R
  IsAllocated R (some (s', pool)) =
      (s'.load_plans ≡ remove request_id s.load_plans) × (IsUnserved s' ⊎ IsCommitted s')

  kept-IsAllocated {ℓ} :
      {P : Type ℓ} (R : Type 0) (plan : LoadPlan) (blocks : List (List ℕ)) (s₀ : Scheduler)
      (pass : Pass P)
      → 0 < credited
      → get request_id s.load_plans ≡ some plan
      → block_ids ≡ some blocks
      → s₀.load_plans ≡ remove request_id s.load_plans
      → s₀.pending_loads ≡ put request_id (pending_load request_id plan blocks) s.pending_loads
      → s₀.served_request_ids ≡ add request_id s.served_request_ids
      → KeepsLoads R (first_fill e plan blocks) s₀ pass
      → IsAllocated R (keep_fill request_id pass)
  unfolding first_fill
  kept-IsAllocated R plan blocks s₀ (done state s' pool) pos at_plan at_blocks plans loads served
        (b, f, p, l, r, _) =
      (
        p ∙ plans,
        inr (
          plan,
          blocks,
          state,
          pos,
          at_plan,
          at_blocks,
          l ∙ loads,
          r ∙ served,
          get-put_self request_id state s'.filled_blocks,
          b,
          f,
        ),
      )
  kept-IsAllocated R plan blocks s₀ assertion_error pos at_plan at_blocks plans loads served k = k

module _ (b : BlockPool) (e : Engine) (request_id : String) (credited : ℕ) (s : Scheduler) where
  open b use {Pool}

  cleared : Scheduler
  cleared = record s {
    filled_blocks = remove request_id s.filled_blocks;
    load_plans = remove request_id s.load_plans;
  }

  credited-IsAllocated :
      (plan : Option LoadPlan) (block_ids : Option (List (List ℕ))) (pool : Option Pool)
      → 0 < credited
      → get request_id s.load_plans ≡ plan
      → IsAllocated request_id block_ids credited e s
          (Mismatched b e pool)
          (alloc_credited b e request_id plan block_ids pool cleared)
  unfolding alloc_credited alloc_plan cleared commit_load
  credited-IsAllocated none block_ids pool pos at_plan =
      (refl, inl (inr (inl at_plan), refl, refl, get-remove_self request_id s.filled_blocks))
  credited-IsAllocated (some plan) none pool pos at_plan =
      (refl, inl (inr (inr refl), refl, refl, get-remove_self request_id s.filled_blocks))
  credited-IsAllocated (some plan) (some blocks) pool pos at_plan =
      kept-IsAllocated request_id (some blocks) credited e s (Mismatched b e pool) plan blocks
        (commit_load request_id plan blocks cleared) _ pos at_plan refl refl refl refl
        (track_filled_blocks-KeepsLoads b e request_id (first_fill e plan blocks) pool _)

  dropped-IsAllocated :
      (plan : Option LoadPlan) (block_ids : Option (List (List ℕ))) (pool : Option Pool)
      → credited ≡ 0
      → IsAllocated request_id block_ids credited e s
          (Mismatched b e pool)
          (some (alloc_dropped b request_id plan cleared, pool))
  unfolding alloc_dropped cleared
  dropped-IsAllocated none block_ids pool zero_credited =
      (refl, inl (inl zero_credited, refl, refl, get-remove_self request_id s.filled_blocks))
  dropped-IsAllocated (some plan) block_ids pool zero_credited =
      (refl, inl (inl zero_credited, refl, refl, get-remove_self request_id s.filled_blocks))

  -- The memoized plan is consumed whatever happens. Either it is committed: tokens were credited, a
  -- plan and blocks were there, the pending load carries that plan and those blocks, the request is
  -- marked as served and its fill is tracked from the block of the plan's first token. Or one of the
  -- three is missing, and no load, no served mark and no fill of this request is left. It raises only
  -- for a pool whose hash block size is not the engine's block size.
  pub update_state_after_alloc-IsAllocated :
      (block_ids : Option (List (List ℕ))) (pool : Option Pool)
      → IsAllocated request_id block_ids credited e s
          (Mismatched b e pool)
          (update_state_after_alloc b e request_id block_ids credited pool s)
  unfolding update_state_after_alloc cleared
  update_state_after_alloc-IsAllocated block_ids pool = elim (Bool-cases (leb credited 0)) [
    | inl none_credited ↦
        rw none_credited
          (dropped-IsAllocated (get request_id s.load_plans) block_ids pool (ground arith))
    | inr some_credited ↦
        rw some_credited
          (credited-IsAllocated (get request_id s.load_plans) block_ids pool (ground arith) refl)
  ]
