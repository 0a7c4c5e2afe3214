-- ===== src/Fills.antt =====
-- connector.py: the blocks that a committed load filled, which vLLM hashes into its exact prefix
-- cache, are evicted from it (or left there and counted) on the step they are met.
pub mod Scan
pub mod Keeps
pub mod Evict
pub mod Settled
use semblend_vllm_connector.Prelude.{
  ℕ, zero, suc, ◌+◌, ◌-◌, ◌<◌, max, String, Bool, true, false, not, ◌&&◌, ◌||◌, ◌≡◌, Option, none,
  some, List, [], ◌∷◌, ◌++◌, ltb, ◌==◌, if◌then◌else◌, get, put, contains, length, get_elem?, drop,
}
use semblend_vllm_connector.Journal.{stat, count, count_by, audit}
use semblend_vllm_connector.Scheduler.{FilledBlocks, Scheduler, note, Engine}

-- How vLLM's `evict_blocks` ends; it may raise after it has evicted some of the blocks.
pub data Eviction (Pool : Type 0) : Type 0 where
  evicted raised : Pool → Eviction Pool

-- vLLM's block pool: which blocks its prefix-cache table names, and `evict_blocks`.
pub record BlockPool : Type 1 where
  pub Pool : Type 0
  pub is_cached : Pool → ℕ → Bool
  pub null_block : Pool → Option ℕ
  pub hash_block_size : Pool → ℕ
  pub evict_blocks : List ℕ → Pool → Eviction Pool

abbrev pub member : ℕ → List ℕ → Bool
member block [] = false
member block (other ∷ rest) = other == block || member block rest

-- `settled | handled`
abbrev pub union : List ℕ → List ℕ → List ℕ
union [] set = set
union (block ∷ rest) set =
    if member block (union rest set) then union rest set else block ∷ union rest set

-- `scanned - reported`
abbrev pub minus : List ℕ → List ℕ → List ℕ
minus [] set = []
minus (block ∷ rest) set = if member block set then minus rest set else block ∷ minus rest set

pub is_block : Option ℕ → ℕ → Bool
is_block none block = false
is_block (some null) block = null == block

-- The comprehension's conditions on one block.
pub wanted : (ℕ → Bool) → Option ℕ → List ℕ → ℕ → Bool
unfolding is_block
wanted is_cached null settled block =
    not (is_block null block) && not (member block settled) && is_cached block

unfoldable pub select : (ℕ → Bool) → List ℕ → List ℕ
select test [] = []
select test (block ∷ rest) =
    let others = select test rest in
    if test block then (if member block others then others else block ∷ others) else others

pub select_groups : (ℕ → Bool) → ℕ → List (List ℕ) → List ℕ
unfolding select
select_groups test start [] = []
select_groups test start (group ∷ rest) =
    union (select test (drop start group)) (select_groups test start rest)

abbrev pub scan_start : FilledBlocks → ℕ
scan_start state = max state.first_approx_block state.scan_from

unfoldable pub cached_fill_blocks : (ℕ → Bool) → Option ℕ → FilledBlocks → List ℕ
unfolding wanted select_groups
cached_fill_blocks is_cached null state =
    select_groups (wanted is_cached null state.settled) (scan_start state) state.block_ids

abbrev pub head_group : List (List ℕ) → List ℕ
head_group [] = []
head_group (group ∷ rest) = group

-- The `while` loop over `head[cursor:]`.
pub advance : ℕ → List ℕ → List ℕ → ℕ
advance cursor [] settled = cursor
advance cursor (block ∷ rest) settled =
    let further = advance (suc cursor) rest settled in
    if member block settled then further else cursor

unfoldable pub settle : FilledBlocks → List ℕ → FilledBlocks
unfolding advance
settle state handled =
    let settled = union handled state.settled in
    record state {
      settled = settled;
      scan_from =
          advance (scan_start state) (drop (scan_start state) (head_group state.block_ids)) settled;
    }

abbrev pub or_nothing : Option (List ℕ) → List ℕ
or_nothing none = []
or_nothing (some blocks) = blocks

unfoldable pub reported_blocks : String → Scheduler → List ℕ
reported_blocks request_id s = or_nothing (get request_id s.reported_fill_blocks)

unfoldable pub settle_and_count :
    String → FilledBlocks → List ℕ → Scheduler → FilledBlocks × Scheduler
unfolding settle reported_blocks
settle_and_count request_id state handled s = (
  settle state handled,
  record s {
    reported_fill_blocks =
        put request_id (union handled (reported_blocks request_id s)) s.reported_fill_blocks;
  },
)

-- What a pass returns: the tracked state, the scheduler's state and the pool, or the failed assertion.
pub data Pass {ℓ} (Pool : Type ℓ) : Type ℓ where
  done : FilledBlocks → Scheduler → Pool → Pass Pool
  assertion_error : Pass Pool

module _ (b : BlockPool) where
  open b use {Pool, is_cached, null_block, hash_block_size, evict_blocks}

  -- The scheduler's pool, or none where `bind_gpu_block_pool` was never called.
  found_cached : Pool → FilledBlocks → List ℕ
  found_cached pool state = cached_fill_blocks (is_cached pool) (null_block pool) state

  is_nil : List ℕ → Bool
  is_nil [] = true
  is_nil (block ∷ rest) = false

  note_left : String → FilledBlocks → List ℕ → Scheduler → FilledBlocks × Scheduler
  note_left request_id state scanned s =
      let first_seen = minus scanned (reported_blocks request_id s) in
      settle_and_count request_id state scanned (
        note
          (λ j. audit "prefix_cache_blocks_left_cached" request_id (
            count_by (length first_seen) "prefix_cache_distinct_blocks_left_cached"
              (count_by (length scanned) "prefix_cache_blocks_left_cached" j)))
          s)

  unfoldable pub note_filled_blocks_left_cached :
      String → FilledBlocks → Option Pool → Scheduler → Pass (Option Pool)
  unfolding found_cached note_left is_nil
  note_filled_blocks_left_cached request_id state none s =
      done state (note (count "prefix_cache_left_cached_passes_without_pool") s) none
  note_filled_blocks_left_cached request_id state (some pool) s =
      let scanned = found_cached pool state in
      if is_nil scanned
      then done state s (some pool)
      else (let (state', s') = note_left request_id state scanned s in done state' s' (some pool))

  note_evicted : String → FilledBlocks → List ℕ → Scheduler → FilledBlocks × Scheduler
  note_evicted request_id state to_evict s =
      let first_seen = minus to_evict (reported_blocks request_id s) in
      settle_and_count request_id state to_evict (
        note
          (λ j. audit "prefix_cache_blocks_evicted" request_id (
            count_by (length first_seen) "prefix_cache_distinct_blocks_evicted"
              (count_by (length to_evict) "prefix_cache_blocks_evicted" j)))
          s)

  -- `pool.evict_blocks(to_evict)`: after an exception the fill stays as it was tracked.
  after_evict : String → FilledBlocks → List ℕ → Eviction Pool → Scheduler → Pass (Option Pool)
  unfolding note_evicted
  after_evict request_id state to_evict (raised pool') s =
      done state (note (count "prefix_cache_eviction_error_passes") s) (some pool')
  after_evict request_id state to_evict (evicted pool') s =
      let (state', s') = note_evicted request_id state to_evict s in done state' s' (some pool')

  unfoldable pub evict_filled_blocks :
      Engine → String → FilledBlocks → Option Pool → Scheduler → Pass (Option Pool)
  unfolding found_cached after_evict is_nil
  evict_filled_blocks e request_id state none s =
      done state (note (count "prefix_cache_eviction_passes_without_pool") s) none
  evict_filled_blocks e request_id state (some pool) s =
      if not (hash_block_size pool == e.block_size)
      then assertion_error
      else (let to_evict = found_cached pool state in
          if is_nil to_evict
          then done state s (some pool)
          else after_evict request_id state to_evict (evict_blocks to_evict pool) s)

  unfoldable pub track_filled_blocks :
      Engine → String → FilledBlocks → Option Pool → Scheduler → Pass (Option Pool)
  track_filled_blocks e request_id state pool s =
      if e.config.evict_filled_blocks_from_prefix_cache
        && not (contains request_id s.stage_requests)
      then evict_filled_blocks e request_id state pool s
      else note_filled_blocks_left_cached request_id state pool s
