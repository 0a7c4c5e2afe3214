-- ===== src/Fills/Keeps.antt =====
-- What a pass over a request's filled blocks leaves alone.
use semblend_vllm_connector.Prelude.{
  ℕ, ◌≡◌, ◌≢◌, refl, arith, Bool, true, false, not, ◌&&◌, String, Option, none, some, List, ◌==◌,
  if◌then◌else◌, contains,
}
use semblend_vllm_connector.Scheduler.{FilledBlocks, Scheduler, Engine}
use semblend_vllm_connector.Fills.{
  Eviction, BlockPool, Pass, done, assertion_error, found_cached, is_nil, note_left, note_evicted,
  after_evict, settle, settle_and_count, note_filled_blocks_left_cached, evict_filled_blocks,
  track_filled_blocks,
}

abbrev pub KeepsLoads {ℓ} : {P : Type ℓ} → Type 0 → FilledBlocks → Scheduler → Pass P → Type 0
KeepsLoads R state s (done state' s' pool) =
    (state'.block_ids ≡ state.block_ids)
    × (state'.first_approx_block ≡ state.first_approx_block)
    × (s'.load_plans ≡ s.load_plans)
    × (s'.pending_loads ≡ s.pending_loads)
    × (s'.served_request_ids ≡ s.served_request_ids)
    × (s'.filled_blocks ≡ s.filled_blocks)
KeepsLoads R state s assertion_error = R

KeepsLoads-if {ℓ} :
    {P : Type ℓ} (R : Type 0) (state : FilledBlocks) (s : Scheduler) (test : Bool) (x y : Pass P)
    → (test ≡ true → KeepsLoads R state s x)
    → (test ≡ false → KeepsLoads R state s y)
    → KeepsLoads R state s (if test then x else y)
KeepsLoads-if R state s true x y hx hy = hx refl
KeepsLoads-if R state s false x y hx hy = hy refl

module _ (b : BlockPool) (e : Engine) where
  open b use {Pool, hash_block_size}

  -- What the assertion of `_evict_filled_blocks` rules out.
  abbrev pub Mismatched : Option Pool → Type 0
  Mismatched none = ⊥
  Mismatched (some pool) = hash_block_size pool ≢ e.block_size

module _ (b : BlockPool) (e : Engine) (request_id : String) (state : FilledBlocks) where
  open b use {Pool, is_cached, null_block, hash_block_size, evict_blocks}

  left-KeepsLoads :
      (pool : Option Pool) (s : Scheduler)
      → KeepsLoads
          (Mismatched b e pool)
          state
          s
          (note_filled_blocks_left_cached b request_id state pool s)
  unfolding note_filled_blocks_left_cached note_left settle_and_count settle
  left-KeepsLoads none s = (refl, refl, refl, refl, refl, refl)
  left-KeepsLoads (some pool) s =
      KeepsLoads-if (Mismatched b e (some pool)) state s (is_nil b (found_cached b pool state)) _ _
        (λ _. (refl, refl, refl, refl, refl, refl)) (λ _. (refl, refl, refl, refl, refl, refl))

  after_evict-KeepsLoads :
      (found : List ℕ) (pool : Pool) (answer : Eviction Pool) (s : Scheduler)
      → KeepsLoads
          (Mismatched b e (some pool))
          state
          s
          (after_evict b request_id state found answer s)
  unfolding after_evict note_evicted settle_and_count settle
  after_evict-KeepsLoads found pool (Eviction.raised pool') s = (refl, refl, refl, refl, refl, refl)
  after_evict-KeepsLoads found pool (Eviction.evicted pool') s =
      (refl, refl, refl, refl, refl, refl)

  evict-KeepsLoads :
      (pool : Option Pool) (s : Scheduler)
      → KeepsLoads (Mismatched b e pool) state s (evict_filled_blocks b e request_id state pool s)
  unfolding evict_filled_blocks
  evict-KeepsLoads none s = (refl, refl, refl, refl, refl, refl)
  evict-KeepsLoads (some pool) s =
      KeepsLoads-if (Mismatched b e (some pool)) state s
        (not (hash_block_size pool == e.block_size)) _ _ (λ h. ground arith)
        (λ _.
          KeepsLoads-if (Mismatched b e (some pool)) state s (is_nil b (found_cached b pool state))
            _ _ (λ _. (refl, refl, refl, refl, refl, refl))
            (λ _.
              after_evict-KeepsLoads (found_cached b pool state) pool
                (evict_blocks (found_cached b pool state) pool) s))

  pub track_filled_blocks-KeepsLoads :
      (pool : Option Pool) (s : Scheduler)
      → KeepsLoads (Mismatched b e pool) state s (track_filled_blocks b e request_id state pool s)
  unfolding track_filled_blocks
  track_filled_blocks-KeepsLoads pool s =
      KeepsLoads-if (Mismatched b e pool) state s
        (e.config.evict_filled_blocks_from_prefix_cache
          && not (contains request_id s.stage_requests))
        _ _ (λ _. evict-KeepsLoads pool s) (λ _. left-KeepsLoads pool s)
