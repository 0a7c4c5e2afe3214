-- ===== src/Fills/Evict.antt =====
-- What an eviction pass leaves in the prefix cache, for a pool that evicts what it is told to.
use semblend_vllm_connector.Prelude.{
  ℕ, ◌≡◌, ◌≢◌, refl, ◌⊎◌, inl, inr, Bool, true, false, not, ◌&&◌, ◌||◌, String, Option, none, some,
  List, [], ◌∷◌, ◌==◌, if◌then◌else◌, arith, drop,
}
use semblend_vllm_connector.Journal.{count}
use semblend_vllm_connector.Scheduler.{FilledBlocks, Scheduler, note, Engine}
use semblend_vllm_connector.Fills.{
  Eviction, BlockPool, Pass, done, assertion_error, member, is_block, wanted, select, select_groups,
  scan_start, cached_fill_blocks, found_cached, is_nil, after_evict, evict_filled_blocks,
}
use semblend_vllm_connector.Fills.Scan.{member-union, member-select}

-- The block stands at or after `start` in some group of the table.
abbrev pub occurs : ℕ → ℕ → List (List ℕ) → Bool
occurs start block [] = false
occurs start block (group ∷ rest) = member block (drop start group) || occurs start block rest

-- A block that the pass has to see to: of the fill, not the null block and not settled.
abbrev pub in_fill : Option ℕ → FilledBlocks → ℕ → Bool
in_fill null state block =
    not (is_block null block)
    && not (member block state.settled)
    && occurs (scan_start state) block state.block_ids

member-select_groups :
    (test : ℕ → Bool) (start block : ℕ) (groups : List (List ℕ))
    → member block (select_groups test start groups) ≡ (test block && occurs start block groups)
unfolding select_groups
member-select_groups test start block [] = ground arith
member-select_groups test start block (group ∷ rest) = ground (
  arith,
  member-union block (select test (drop start group)) (select_groups test start rest),
  member-select test block (drop start group),
  member-select_groups test start block rest,
)

member-cached_fill_blocks :
    (is_cached : ℕ → Bool) (null : Option ℕ) (state : FilledBlocks) (block : ℕ)
    → member block (cached_fill_blocks is_cached null state)
      ≡ (is_cached block && in_fill null state block)
unfolding cached_fill_blocks wanted
member-cached_fill_blocks is_cached null state block = ground (
  arith,
  member-select_groups (wanted is_cached null state.settled) (scan_start state) block
      state.block_ids,
)

module _ (b : BlockPool) where
  open b use {Pool, is_cached, null_block, hash_block_size, evict_blocks}

  -- vLLM's `evict_blocks`: the blocks named leave the prefix cache and no other block does.
  abbrev pub EvictsExactly : Type 0
  EvictsExactly =
      (blocks : List ℕ) (pool pool' : Pool)
      → evict_blocks blocks pool ≡ Eviction.evicted pool'
      → (block : ℕ) → is_cached pool' block ≡ (is_cached pool block && not (member block blocks))

  -- Where it raises, some of the blocks named may have left, and nothing else has changed.
  abbrev pub RaisesWithin : Type 0
  RaisesWithin =
      (blocks : List ℕ) (pool pool' : Pool)
      → evict_blocks blocks pool ≡ Eviction.raised pool'
      → (block : ℕ)
      → is_cached pool' block
        ≡ (is_cached pool block && (not (member block blocks) || is_cached pool' block))

  module _ (e : Engine) (request_id : String) (state : FilledBlocks) (s : Scheduler) where
    -- The pool evicted exactly what was cached of the fill; or `evict_blocks` raised: the fill stays as
    -- it was tracked, the pass is counted, and only blocks of the fill can have left the cache.
    abbrev pub IsEvicted : Pool → Pass (Option Pool) → Type 0
    IsEvicted pool (done state' s' none) = ⊥
    IsEvicted pool (done state' s' (some pool')) =
        ((block : ℕ)
          → is_cached pool' block
            ≡ (is_cached pool block && not (in_fill (null_block pool) state block)))
        ⊎ ((evict_blocks (cached_fill_blocks (is_cached pool) (null_block pool) state) pool
              ≡ Eviction.raised pool')
            × (state' ≡ state)
            × (s' ≡ note (count "prefix_cache_eviction_error_passes") s)
            × ((block : ℕ)
                → is_cached pool' block ≡ (
                    is_cached pool block
                    && (not (in_fill (null_block pool) state block) || is_cached pool' block))))
    IsEvicted pool assertion_error = hash_block_size pool ≢ e.block_size

    IsEvicted-if :
        (pool : Pool) (test : Bool) (x y : Pass (Option Pool))
        → (test ≡ true → IsEvicted pool x)
        → (test ≡ false → IsEvicted pool y)
        → IsEvicted pool (if test then x else y)
    IsEvicted-if pool true x y hx hy = hx refl
    IsEvicted-if pool false x y hx hy = hy refl

    nothing_found :
        (pool : Pool) (found : List ℕ) (block : ℕ)
        → is_nil b found ≡ true
        → member block found ≡ (is_cached pool block && in_fill (null_block pool) state block)
        → is_cached pool block
          ≡ (is_cached pool block && not (in_fill (null_block pool) state block))
    unfolding is_nil
    nothing_found pool [] block empty h = ground arith
    nothing_found pool (x ∷ xs) block empty h = ground arith

    all_evicted :
        (pool pool' : Pool) (found : List ℕ) (block : ℕ)
        → is_cached pool' block ≡ (is_cached pool block && not (member block found))
        → member block found ≡ (is_cached pool block && in_fill (null_block pool) state block)
        → is_cached pool' block
          ≡ (is_cached pool block && not (in_fill (null_block pool) state block))
    all_evicted pool pool' found block h k = ground arith

    some_evicted :
        (pool pool' : Pool) (found : List ℕ) (block : ℕ)
        → is_cached pool' block
          ≡ (is_cached pool block && (not (member block found) || is_cached pool' block))
        → member block found ≡ (is_cached pool block && in_fill (null_block pool) state block)
        → is_cached pool' block ≡ (
            is_cached pool block
            && (not (in_fill (null_block pool) state block) || is_cached pool' block))
    some_evicted pool pool' found block h k = ground arith

    after_evict-IsEvicted :
        EvictsExactly
        → RaisesWithin
        → (pool : Pool) (answer : Eviction Pool)
        → evict_blocks (cached_fill_blocks (is_cached pool) (null_block pool) state) pool ≡ answer
        → IsEvicted pool (
            after_evict b request_id state
              (cached_fill_blocks (is_cached pool) (null_block pool) state)
              answer
              s)
    unfolding after_evict
    after_evict-IsEvicted law within pool (Eviction.raised pool') at = inr (
      at,
      refl,
      refl,
      λ block.
          some_evicted pool pool' (cached_fill_blocks (is_cached pool) (null_block pool) state)
            block (within _ pool pool' at block)
            (member-cached_fill_blocks (is_cached pool) (null_block pool) state block),
    )
    after_evict-IsEvicted law within pool (Eviction.evicted pool') at = inl (λ block.
        all_evicted pool pool' (cached_fill_blocks (is_cached pool) (null_block pool) state) block
          (law _ pool pool' at block)
          (member-cached_fill_blocks (is_cached pool) (null_block pool) state block))

    -- For a pool whose `evict_blocks` takes exactly the named blocks out of the prefix cache, or raises
    -- with some of them taken out: after a pass a block is cached if and only if it was cached before
    -- and is not a block of the fill from the scan's start on (the null block and settled blocks aside).
    -- Where `evict_blocks` raises, the fill stays as it was tracked, the scheduler's state changes by a
    -- count only, and no other block leaves or enters the cache. The assertion fails only for another
    -- hash block size.
    pub evict_filled_blocks-IsEvicted :
        EvictsExactly
        → RaisesWithin
        → (pool : Pool) → IsEvicted pool (evict_filled_blocks b e request_id state (some pool) s)
    unfolding evict_filled_blocks found_cached
    evict_filled_blocks-IsEvicted law within pool =
        IsEvicted-if pool (not (hash_block_size pool == e.block_size)) _ _ (λ other. ground arith)
          (λ _.
            IsEvicted-if pool
              (is_nil b (cached_fill_blocks (is_cached pool) (null_block pool) state)) _ _
              (λ empty. inl (λ block.
                nothing_found pool (cached_fill_blocks (is_cached pool) (null_block pool) state)
                  block empty
                  (member-cached_fill_blocks (is_cached pool) (null_block pool) state block)))
              (λ _.
                after_evict-IsEvicted law within pool
                  (evict_blocks (cached_fill_blocks (is_cached pool) (null_block pool) state) pool)
                  refl))
