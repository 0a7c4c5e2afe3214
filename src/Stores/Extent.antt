-- ===== src/Stores/Extent.antt =====
-- The stores that a scheduler step hands to the worker.
use semblend_vllm_connector.Prelude.{
  ℕ, ◌+◌, ◌*◌, ◌≤◌, ◌<◌, ◌≡◌, String, Option, none, some, List, Memᴰ, Dict, All, IsAligned, length,
  contains,
}
use semblend_vllm_connector.Types.{PendingStore}
use semblend_vllm_connector.Scheduler.{Scheduler, Engine}
use semblend_vllm_connector.Capture.{
  CachedRequest, SchedulerOutput, normalize_block_ids, extend_block_table, head_blocks,
}

-- A store ends on a block edge, within the blocks of its own table and two tokens or more before the
-- prompt's end, and is not empty.
abbrev pub IsStore : Engine → PendingStore → Type 0
IsStore e store =
    (table : List (List ℕ)) × (store.block_ids ≡ some table)
    × (0 < store.token_count)
    × (store.token_count ≤ head_blocks table * e.block_size)
    × (store.token_count + 2 ≤ length store.token_ids)
    × IsAligned e.block_size store.token_count

abbrev MaybeStore : Engine → Option PendingStore → Type 0
MaybeStore e none = Unit
MaybeStore e (some store) = IsStore e store

module _ (e : Engine) (block_pos : 0 < e.block_size) where
  module _ (scheduled : Option (Dict ℕ)) (resumed : List String) where
    -- The row's block table does not have the groups of a table that it should extend.
    abbrev pub IsMismatch : CachedRequest → Type 0
    IsMismatch r =
        (table : List (List ℕ)) × (extend_block_table table (normalize_block_ids r.new_block_ids)
            (contains r.req_id resumed)
          ≡ none)

    abbrev IsContinued : CachedRequest → Option (Option PendingStore × Scheduler) → Type 0
    IsContinued r none = IsMismatch r
    IsContinued r (some (store, s')) = MaybeStore e store

    -- For the rows of a step: stores that can be written, or the row that raised the ValueError.
    abbrev pub AreContinued : List CachedRequest → Option (List PendingStore × Scheduler) → Type 0
    AreContinued rows none = (r : CachedRequest) × Memᴰ r rows × IsMismatch r
    AreContinued rows (some (stores, s')) = All (IsStore e) stores

  module _ (out : SchedulerOutput) where
    abbrev pub AreStored : Option (List PendingStore × Scheduler) → Type 0
    AreStored none =
        (rows : List CachedRequest) × (out.scheduled_cached_reqs ≡ some rows)
        × ((r : CachedRequest) × Memᴰ r rows
            × IsMismatch out.num_scheduled_tokens out.resumed_req_ids r)
    AreStored (some (stores, s')) = All (IsStore e) stores
