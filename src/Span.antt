-- ===== src/Span.antt =====
-- semantic_span.py: spans of donor KV snapped to block edges, and the run that can be served from
-- the scheduler's boundary. The proofs are in the modules below.
pub mod Align
pub mod Supply
pub mod Chain
pub mod Trim
pub mod Identity
use semblend_vllm_connector.Prelude.{
  ℕ, zero, suc, ◌+◌, ◌-◌, min, max, String, Bool, true, false, not, ◌&&◌, Option, none, some, List,
  [], ◌∷◌, ltb, leb, if◌then◌else◌, length, round_down, round_up,
}
use semblend_vllm_connector.Types.{LoadPiece}

-- A mapping with the keys target_start, length, donor_start.
pub record RawSpan : Type 0 where
  pub target_start : ℕ
  pub length : ℕ
  pub donor_start : ℕ

pub record BlockSpan : Type 0 where
  pub target_start : ℕ
  pub target_end : ℕ
  pub donor_start : ℕ

-- A mapping with the keys donor_id, donor_start, target_start, length.
pub record Run : Type 0 where
  pub donor_id : String
  pub donor_start : ℕ
  pub target_start : ℕ
  pub length : ℕ

-- `sorted(spans, key=target_start)`, which is stable.
insert_by_start : RawSpan → List RawSpan → List RawSpan
insert_by_start raw [] = raw ∷ []
insert_by_start raw (other ∷ rest) =
    if leb raw.target_start other.target_start
    then raw ∷ other ∷ rest
    else other ∷ insert_by_start raw rest

sort_by_start : List RawSpan → List RawSpan
unfolding insert_by_start
sort_by_start [] = []
sort_by_start (raw ∷ rest) = insert_by_start raw (sort_by_start rest)

snap : ℕ → RawSpan → BlockSpan
snap block_size raw =
    let snapped_start = round_up raw.target_start block_size in
    record {
      target_start = snapped_start;
      target_end = round_down (raw.target_start + raw.length) block_size;
      donor_start = raw.donor_start + (snapped_start - raw.target_start);
    }

-- The two `continue` tests of the loop.
is_kept : ℕ → ℕ → BlockSpan → Bool
is_kept min_span cursor span =
    not (ltb span.target_start cursor)
    && not (ltb (span.target_end - span.target_start) (max min_span 1))

align_from : ℕ → ℕ → ℕ → List RawSpan → List BlockSpan
unfolding snap is_kept
align_from block_size min_span cursor [] = []
align_from block_size min_span cursor (raw ∷ rest) =
    let span = snap block_size raw in
    elim (is_kept min_span cursor span) [
      | true ↦ span ∷ align_from block_size min_span span.target_end rest
      | false ↦ align_from block_size min_span cursor rest
    ]

unfoldable pub block_align_spans : List RawSpan → ℕ → ℕ → List BlockSpan
unfolding align_from sort_by_start
block_align_spans spans block_size min_span = align_from block_size min_span 0 (sort_by_start spans)

holds_position : ℕ → BlockSpan → Bool
holds_position usable_from span =
    leb span.target_start usable_from && ltb usable_from span.target_end

supply_of : ℕ → BlockSpan → ℕ × Option ℕ
supply_of usable_from span =
    (span.target_end - usable_from, some (span.donor_start + (usable_from - span.target_start)))

supply_from : ℕ → List BlockSpan → ℕ × Option ℕ
unfolding holds_position supply_of
supply_from usable_from [] = (0, none)
supply_from usable_from (span ∷ rest) =
    if holds_position usable_from span
    then supply_of usable_from span
    else supply_from usable_from rest

unfoldable pub supply_at_boundary : List BlockSpan → ℕ → ℕ → ℕ × Option ℕ
unfolding supply_from
supply_at_boundary spans boundary block_size = supply_from (round_up boundary block_size) spans

abbrev pub run_end : Run → ℕ
run_end run = run.target_start + run.length

covers : ℕ → Run → Bool
covers position run = leb run.target_start position && ltb position (run_end run)

reaches_further : Run → Option Run → Bool
reaches_further run none = true
reaches_further run (some best) = ltb (run_end best) (run_end run)

further : ℕ → Option Run → Run → Option Run
unfolding covers reaches_further
further position best run =
    if covers position run && reaches_further run best then some run else best

-- The inner `for` loop: the covering run that reaches furthest, the first of those.
best_from : ℕ → Option Run → List Run → Option Run
unfolding further
best_from position best [] = best
best_from position best (run ∷ rest) = best_from position (further position best run) rest

piece_of : ℕ → Run → LoadPiece
piece_of position run = record {
  donor_id = run.donor_id;
  donor_start = run.donor_start + (position - run.target_start);
  target_start = position;
  token_count = run_end run - position;
}

-- The `while True` loop: the pieces, and the position at which it breaks.
pub chain_loop : ℕ → List Run → ℕ → List LoadPiece × ℕ
unfolding best_from piece_of
chain_loop zero runs position = ([], position)
chain_loop (suc fuel) runs position = elim (best_from position none runs) [
  | none ↦ ([], position)
  | some run ↦
      let rest = chain_loop fuel runs (run_end run) in (piece_of position run ∷ rest.0, rest.1)
]

unfoldable pub trim_pieces : List LoadPiece → ℕ → List LoadPiece
trim_pieces [] end = []
trim_pieces (piece ∷ rest) end =
    let count = min piece.token_count (end - piece.target_start) in
    let kept = trim_pieces rest end in
    if ltb 0 count then record piece { token_count = count } ∷ kept else kept

-- sum(piece["token_count"] for piece in pieces)
abbrev pub sum_counts : List LoadPiece → ℕ
sum_counts [] = 0
sum_counts (piece ∷ rest) = piece.token_count + sum_counts rest

-- Each round ends at the end of another run, so one round more than there are runs is enough.
unfoldable pub chain_at_boundary : List Run → ℕ → ℕ → List LoadPiece
unfolding chain_loop best_from piece_of trim_pieces
chain_at_boundary runs boundary block_size =
    let chain = chain_loop (suc (length runs)) runs (round_up boundary block_size) in
    trim_pieces chain.0 (round_down chain.1 block_size)
