-- ===== src/Slots.antt =====
-- connector.py: which slots of the paged KV cache a load or a capture addresses, and which blocks a
-- failed load is reported for. The counter and the audit row that precede a RuntimeError are left out.
pub mod Address
use semblend_vllm_connector.Prelude.{
  ℕ, zero, suc, ◌+◌, ◌-◌, ◌*◌, ◌/◌, ◌%◌, Option, none, some, List, [], ◌∷◌, ◌++◌, ltb,
  if◌then◌else◌, take, drop, length,
}
use semblend_vllm_connector.Types.{PendingLoad}

-- `range(start, start + count)`
range : ℕ → ℕ → List ℕ
range start zero = []
range start (suc count) = start ∷ range (suc start) count

-- The outer sum of the block starts and the offsets, flattened.
slots_of : ℕ → List ℕ → List ℕ
unfolding range
slots_of block_size [] = []
slots_of block_size (block ∷ rest) =
    range (block * block_size) block_size ++ slots_of block_size rest

-- `group[start_block:end_block]`, where `-(-x // n)` is the quotient rounded up.
unfoldable pub window_blocks : ℕ → List ℕ → ℕ → ℕ → List ℕ
window_blocks block_size group token_count target_start =
    let start_block = target_start / block_size in
    let end_block = (target_start + token_count + block_size - 1) / block_size in
    take (end_block - start_block) (drop start_block group)

pub data SlotMapping : Type 0 where
  slots : List ℕ → SlotMapping
  multi_group_refused window_not_covered : SlotMapping

unfoldable pub slot_mapping : ℕ → List (List ℕ) → ℕ → ℕ → SlotMapping
unfolding slots_of window_blocks
slot_mapping block_size (group ∷ []) token_count target_start =
    let blocks = window_blocks block_size group token_count target_start in
    let offset = target_start % block_size in
    if ltb (length blocks * block_size) (token_count + offset)
    then SlotMapping.window_not_covered
    else SlotMapping.slots (take token_count (drop offset (slots_of block_size blocks)))
slot_mapping block_size _ token_count target_start = SlotMapping.multi_group_refused

or_start : Option ℕ → ℕ
or_start none = 0
or_start (some start) = start

destination_from : ℕ → Option (List (List ℕ)) → ℕ → ℕ → List ℕ
unfolding window_blocks
destination_from block_size (some (group ∷ rest)) token_count target_start =
    window_blocks block_size group token_count target_start
destination_from block_size _ token_count target_start = []

-- The set of the blocks of the load's window.
unfoldable pub destination_block_ids : ℕ → PendingLoad → List ℕ
unfolding destination_from or_start
destination_block_ids block_size load =
    destination_from block_size load.block_ids load.token_count (or_start load.target_start)
