-- ===== src/Span/Identity.antt =====
-- Which tokens are served, where the raw alignment holds the target's own.
use semblend_vllm_connector.Prelude.{
  ℕ, ◌+◌, ◌-◌, ◌≤◌, ◌<◌, ◌≡◌, sym, ap, subst, ◌∙◌, String, some, List, [], ◌∷◌, arith, All,
  round_up,
}
use semblend_vllm_connector.Types.{LoadPiece}
use semblend_vllm_connector.Span.{
  RawSpan, Run, block_align_spans, supply_at_boundary, chain_at_boundary,
}
use semblend_vllm_connector.Span.Align.{block_align_spans-CutFrom}
use semblend_vllm_connector.Span.Supply.{Supplies, supply_at_boundary-Supplies}
use semblend_vllm_connector.Span.Chain.{IsPart}
use semblend_vllm_connector.Span.Trim.{chain_at_boundary-IsChain}

-- `length` tokens of the donor from one position are those of the target from another.
abbrev pub Identical : (ℕ → ℕ) → (ℕ → ℕ) → ℕ → ℕ → ℕ → Type 0
Identical donor target donor_start target_start length =
    (i : ℕ) → i < length → donor (donor_start + i) ≡ target (target_start + i)

-- A stretch that is read with the same shift, and lies within, is identical too.
Identical-shift :
    (donor target : ℕ → ℕ) (d t n d' t' n' : ℕ)
    → Identical donor target d t n
    → t ≤ t'
    → t' + n' ≤ t + n
    → d' + t ≡ d + t'
    → Identical donor target d' t' n'
Identical-shift donor target d t n d' t' n' same starts ends shifted i h =
    let at_donor : d' + i ≡ d + ((t' - t) + i) = omega arith in
    let at_target : t + ((t' - t) + i) ≡ t' + i = omega arith in
    ap donor at_donor ∙ same ((t' - t) + i) (omega arith) ∙ ap target at_target

module _ (donor target : ℕ → ℕ) (raws : List RawSpan) (boundary block floor : ℕ)
    (block_pos : 0 < block) where
  abbrev IsIdenticalRaw : RawSpan → Type 0
  IsIdenticalRaw raw = Identical donor target raw.donor_start raw.target_start raw.length

  -- The supply of the spans that `block_align_spans` makes of identical raw spans is identical to the
  -- target from the block edge at or after the boundary.
  pub supply_at_boundary-Identical :
      All IsIdenticalRaw raws
      → (n donor_start : ℕ)
      → supply_at_boundary (block_align_spans raws block floor) boundary block
        ≡ (n, some donor_start)
      → Identical donor target donor_start (round_up boundary block) n
  supply_at_boundary-Identical same n donor_start e =
      let spans = block_align_spans raws block floor in
      let (span, (raw, ident, from), starts, _, ends, shifted) =
        subst (Supplies _ (round_up boundary block)) e (
          supply_at_boundary-Supplies spans boundary block _
            (block_align_spans-CutFrom block block_pos floor IsIdenticalRaw raws same)) in
      Identical-shift donor target raw.donor_start raw.target_start raw.length donor_start
        (round_up boundary block) n ident (omega (arith, from.starts)) (omega (arith, from.ends))
        (omega (arith, from.shifted))

module _ (donor : String → ℕ → ℕ) (target : ℕ → ℕ) where
  abbrev pub IsIdenticalRun : Run → Type 0
  IsIdenticalRun run =
      Identical (donor run.donor_id) target run.donor_start run.target_start run.length

  abbrev pub IsIdenticalPiece : LoadPiece → Type 0
  IsIdenticalPiece piece =
      Identical (donor piece.donor_id) target piece.donor_start piece.target_start piece.token_count

  IsPart-Identical : (piece : LoadPiece) → IsPart IsIdenticalRun piece → IsIdenticalPiece piece
  IsPart-Identical piece (run, ident, part) =
      subst (λ d. Identical (donor d) target piece.donor_start piece.target_start piece.token_count)
        (sym part.donor)
        (Identical-shift (donor run.donor_id) target run.donor_start run.target_start run.length
          piece.donor_start piece.target_start piece.token_count ident part.starts part.ends
          part.shifted)

  All-IsPart-Identical :
      (pieces : List LoadPiece) → All (IsPart IsIdenticalRun) pieces → All IsIdenticalPiece pieces
  All-IsPart-Identical [] ps = tt
  All-IsPart-Identical (piece ∷ rest) ps =
      (IsPart-Identical piece ps.0, All-IsPart-Identical rest ps.1)

  -- Every piece that `chain_at_boundary` takes from identical runs, from whichever donor, is identical
  -- to the target at its own place.
  pub chain_at_boundary-Identical :
      (runs : List Run) (boundary block : ℕ)
      → 0 < block
      → All IsIdenticalRun runs
      → All IsIdenticalPiece (chain_at_boundary runs boundary block)
  chain_at_boundary-Identical runs boundary block block_pos same =
      All-IsPart-Identical (chain_at_boundary runs boundary block)
        (chain_at_boundary-IsChain IsIdenticalRun runs same boundary block block_pos).parts
