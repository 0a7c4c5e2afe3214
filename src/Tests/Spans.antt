-- ===== src/Tests/Spans.antt =====
-- The theorems on spans, pieces and slots at concrete inputs.
use semblend_vllm_connector.Prelude.{
  ℕ, ◌+◌, ◌<◌, ◌≤◌, ◌≡◌, refl, String, none, some, List, [], ◌∷◌, arith, All, round_up, round_down,
  IsAligned,
}
use semblend_vllm_connector.Span.{
  RawSpan, BlockSpan, Run, block_align_spans, supply_at_boundary, chain_at_boundary,
}
use semblend_vllm_connector.Span.Align.{
  Placed, CutFrom, IsTooShort, block_align_spans-Placed, block_align_spans-CutFrom,
  block_align_spans-eq_nil,
}
use semblend_vllm_connector.Span.Supply.{
  Supplies, Misses, supply_at_boundary-Supplies, supply_at_boundary-none,
}
use semblend_vllm_connector.Span.Trim.{IsChain, chain_at_boundary-IsChain}
use semblend_vllm_connector.Span.Identity.{
  Identical, IsIdenticalPiece, supply_at_boundary-Identical, chain_at_boundary-Identical,
}
use semblend_vllm_connector.Plan.{cacheable_prefix_tokens}
use semblend_vllm_connector.Plan.Sound.{cacheable_prefix_tokens_bounds}
use semblend_vllm_connector.Slots.{slot_mapping}
use semblend_vllm_connector.Slots.Address.{IsMapping, slot_mapping-IsMapping}

-- Donor positions are 100 further on than target positions.
abbrev shifted_raw : RawSpan
shifted_raw = record { target_start = 5; length = 60; donor_start = 105 }

abbrev short_raw : RawSpan
short_raw = record { target_start = 70; length = 20; donor_start = 170 }

abbrev raws : List RawSpan
raws = short_raw ∷ shifted_raw ∷ []

abbrev first_run : Run
first_run = record { donor_id = "a"; donor_start = 105; target_start = 5; length = 60 }

abbrev second_run : Run
second_run = record { donor_id = "b"; donor_start = 140; target_start = 40; length = 50 }

abbrev runs : List Run
runs = first_run ∷ second_run ∷ []

abbrev donor_token : String → ℕ → ℕ
donor_token donor_id position = position

abbrev target_token : ℕ → ℕ
target_token position = position + 100

block_align_spans-Placed_example : Placed 16 16 0 (block_align_spans raws 16 16)
block_align_spans-Placed_example = block_align_spans-Placed 16 (omega arith) 16 raws

block_align_spans-CutFrom_example :
    All
      (λ span. (raw : RawSpan) × (19 < raw.length) × CutFrom raw span)
      (block_align_spans raws 16 16)
block_align_spans-CutFrom_example =
    block_align_spans-CutFrom 16 (omega arith) 16 (λ raw. 19 < raw.length) raws
      (omega arith, (omega arith, tt))

aligned_short : block_align_spans (short_raw ∷ []) 16 16 ≡ []
unfolding block_align_spans round_up round_down
aligned_short = refl

block_align_spans-eq_nil_example : All (IsTooShort 16 16) (short_raw ∷ [])
block_align_spans-eq_nil_example =
    block_align_spans-eq_nil 16 (omega arith) 16 (short_raw ∷ []) aligned_short

abbrev block_span : BlockSpan
block_span = record { target_start = 16; target_end = 64; donor_start = 116 }

supply_at_boundary-Supplies_example :
    Supplies
      (λ span. 0 < span.target_end)
      (round_up 20 16)
      (supply_at_boundary (block_span ∷ []) 20 16)
supply_at_boundary-Supplies_example =
    supply_at_boundary-Supplies (block_span ∷ []) 20 16 (λ span. 0 < span.target_end)
      (omega arith, tt)

missed : (supply_at_boundary (block_span ∷ []) 64 16).1 ≡ none
unfolding supply_at_boundary round_up
missed = refl

supply_at_boundary-none_example : All (Misses (round_up 64 16)) (block_span ∷ [])
supply_at_boundary-none_example = supply_at_boundary-none (block_span ∷ []) 64 16 missed

supplied : supply_at_boundary (block_align_spans raws 16 16) 20 16 ≡ (32, some 132)
unfolding supply_at_boundary block_align_spans round_up round_down
supplied = refl

supply_at_boundary-Identical_example :
    Identical (donor_token "a") target_token 132 (round_up 20 16) 32
supply_at_boundary-Identical_example =
    supply_at_boundary-Identical (donor_token "a") target_token raws 20 16 16 (omega arith)
      ((λ i h. omega arith), ((λ i h. omega arith), tt)) 32 132 supplied

chain_at_boundary-IsChain_example :
    IsChain
      (λ run. 49 < run.length)
      runs
      (omega arith, (omega arith, tt))
      20
      16
      (omega arith)
      (chain_at_boundary runs 20 16)
chain_at_boundary-IsChain_example =
    chain_at_boundary-IsChain (λ run. 49 < run.length) runs (omega arith, (omega arith, tt)) 20 16
      (omega arith)

chain_at_boundary-Identical_example :
    All (IsIdenticalPiece donor_token target_token) (chain_at_boundary runs 20 16)
chain_at_boundary-Identical_example =
    chain_at_boundary-Identical donor_token target_token runs 20 16 (omega arith)
      ((λ i h. omega arith), ((λ i h. omega arith), tt))

-- A prompt of one block and one token has no cacheable block, though one token would be left.
one_block_and_one : cacheable_prefix_tokens 17 16 ≡ 0
unfolding cacheable_prefix_tokens round_down
one_block_and_one = refl

cacheable_prefix_tokens_bounds_example :
    IsAligned 16 (cacheable_prefix_tokens 17 16)
    × (0 < cacheable_prefix_tokens 17 16 → cacheable_prefix_tokens 17 16 + 2 ≤ 17)
    × (17 < cacheable_prefix_tokens 17 16 + 16 + 2)
cacheable_prefix_tokens_bounds_example = cacheable_prefix_tokens_bounds 17 16 (omega arith)

slot_mapping-IsMapping_example :
    IsMapping 16
      (omega arith)
      ((3 ∷ 7 ∷ 9 ∷ []) ∷ [])
      20
      21
      (slot_mapping 16 ((3 ∷ 7 ∷ 9 ∷ []) ∷ []) 20 21)
slot_mapping-IsMapping_example =
    slot_mapping-IsMapping 16 (omega arith) ((3 ∷ 7 ∷ 9 ∷ []) ∷ []) 20 21
