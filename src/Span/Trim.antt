-- ===== src/Span/Trim.antt =====
-- `trim_pieces` cuts a chain of pieces off at a position, and `chain_at_boundary` as a whole.
use semblend_vllm_connector.Prelude.{
  ℕ, suc, ◌+◌, ◌-◌, ◌≤◌, ◌<◌, min, ◌≡◌, refl, sym, ◌∙◌, subst, true, false, List, [], ◌∷◌, ◌⊎◌, inl,
  inr, arith, ltb, length, All, Bool-cases, round_down, round_up, round_down-le, round_up-IsAligned,
  le-round_down,
}
use semblend_vllm_connector.Types.{LoadPiece}
use semblend_vllm_connector.Span.{Run, chain_loop, trim_pieces, sum_counts, chain_at_boundary}
use semblend_vllm_connector.Span.Chain.{
  Chained, PartOf, IsPart, CoversNot, chain_loop-IsCover, chain_loop-stops, ending_after-le-length,
}

pub sum_counts-Chained :
    (position final : ℕ) (pieces : List LoadPiece)
    → Chained position pieces final
    → position + sum_counts pieces ≡ final
sum_counts-Chained position final [] c = omega arith
sum_counts-Chained position final (piece ∷ rest) c =
    omega (arith, sum_counts-Chained (position + piece.token_count) final rest c.2)

lt_cases : (a b : ℕ) → (a < b) ⊎ (b ≤ a)
lt_cases a b = omega arith

module _ (end : ℕ) where
  cut : LoadPiece → LoadPiece
  cut piece = record piece { token_count = min piece.token_count (end - piece.target_start) }

  cut-within :
      (piece : LoadPiece)
      → piece.target_start + piece.token_count ≤ end
      → (cut piece).token_count ≡ piece.token_count
  unfolding cut
  cut-within piece h = omega arith

  cut-PartOf : (run : Run) (piece : LoadPiece) → PartOf run piece → PartOf run (cut piece)
  unfolding cut
  cut-PartOf run piece part = record {
    donor = part.donor;
    starts = part.starts;
    ends = omega (arith, part.ends);
    shifted = part.shifted;
  }

  trim-keeps :
      (piece : LoadPiece) (rest : List LoadPiece)
      → piece.target_start < end
      → 0 < piece.token_count
      → trim_pieces (piece ∷ rest) end ≡ cut piece ∷ trim_pieces rest end
  unfolding trim_pieces cut
  trim-keeps piece rest h k = ground arith

  trim-drops :
      (piece : LoadPiece) (rest : List LoadPiece)
      → end ≤ piece.target_start
      → trim_pieces (piece ∷ rest) end ≡ trim_pieces rest end
  unfolding trim_pieces
  trim-drops piece rest h = ground arith

  trim-step-kept :
      (piece : LoadPiece) (rest : List LoadPiece)
      → ltb 0 (min piece.token_count (end - piece.target_start)) ≡ true
      → trim_pieces (piece ∷ rest) end ≡ cut piece ∷ trim_pieces rest end
  unfolding trim_pieces cut
  trim-step-kept piece rest e = ground arith

  trim-step-dropped :
      (piece : LoadPiece) (rest : List LoadPiece)
      → ltb 0 (min piece.token_count (end - piece.target_start)) ≡ false
      → trim_pieces (piece ∷ rest) end ≡ trim_pieces rest end
  unfolding trim_pieces
  trim-step-dropped piece rest e = ground arith

  trim-nil : trim_pieces [] end ≡ []
  unfolding trim_pieces
  trim-nil = refl

  trim-past :
      (position final : ℕ) (pieces : List LoadPiece)
      → Chained position pieces final
      → end ≤ position
      → trim_pieces pieces end ≡ []
  trim-past position final [] c h = trim-nil
  trim-past position final (piece ∷ rest) c h =
      trim-drops piece rest (omega arith)
      ∙ trim-past (position + piece.token_count) final rest c.2 (omega arith)

  pub trim-Chained :
      (position final : ℕ) (pieces : List LoadPiece)
      → Chained position pieces final
      → position ≤ end
      → Chained position (trim_pieces pieces end) (min final end)
  trim-Chained position final [] c h = rw trim-nil (omega arith)
  trim-Chained position final (piece ∷ rest) c h = elim (lt_cases position end) [
    | inl before ↦ rw (trim-keeps piece rest (omega arith) c.1) (
      unfold cut in c.0,
      unfold cut in omega arith,
      elim (lt_cases end (position + piece.token_count)) [
        | inl over ↦
            rw (trim-past (position + piece.token_count) final rest c.2 (omega arith))
              (unfold cut in omega (arith, sum_counts-Chained _ final rest c.2))
        | inr within ↦
            subst (λ n. Chained (position + n) (trim_pieces rest end) (min final end))
              (sym (cut-within piece (omega arith)))
              (trim-Chained (position + piece.token_count) final rest c.2 within)
      ],
    )
    | inr at_end ↦
        rw (trim-past position final (piece ∷ rest) c at_end)
          (omega (arith, sum_counts-Chained position final (piece ∷ rest) c))
  ]

  pub trim-IsPart :
      (P : Run → Type 0) (pieces : List LoadPiece)
      → All (IsPart P) pieces
      → All (IsPart P) (trim_pieces pieces end)
  trim-IsPart P [] ps = rw trim-nil tt
  trim-IsPart P (piece ∷ rest) ps =
      elim (Bool-cases (ltb 0 (min piece.token_count (end - piece.target_start)))) [
        | inl kept ↦
            rw (trim-step-kept piece rest kept)
              ((ps.0.0, ps.0.1, cut-PartOf ps.0.0 piece ps.0.2), trim-IsPart P rest ps.1)
        | inr dropped ↦ rw (trim-step-dropped piece rest dropped) (trim-IsPart P rest ps.1)
      ]

-- Every position between the ends of a chain lies in a run.
abbrev pub IsCovered : (Run → Type 0) → ℕ → Type 0
IsCovered P position =
    (run : Run) × P run × (run.target_start ≤ position) × (position < run.target_start + run.length)

Chained-IsCovered :
    (P : Run → Type 0) (from to : ℕ) (pieces : List LoadPiece)
    → Chained from pieces to
    → All (IsPart P) pieces
    → (position : ℕ) → from ≤ position
    → position < to
    → IsCovered P position
Chained-IsCovered P from to [] c ps position h k = absurd (omega arith)
Chained-IsCovered P from to (piece ∷ rest) c ps position h k =
    elim (lt_cases position (from + piece.token_count)) [
      | inl here ↦
          let part = ps.0.2 in
          (ps.0.0, ps.0.1, omega (arith, part.starts), omega (arith, part.ends))
      | inr later ↦ Chained-IsCovered P (from + piece.token_count) to rest c.2 ps.1 position later k
    ]

module _ (P : Run → Type 0) (runs : List Run) (ps : All P runs) (boundary block : ℕ)
    (block_pos : 0 < block) where
  -- What the chain is: from the block edge at or after the boundary, `stop` is the first position
  -- that no run covers, and the pieces run back to back to the last block edge at or before it.
  pub record IsChain (pieces : List LoadPiece) : Type 0 where
    pub stop : ℕ
    pub forward : round_up boundary block ≤ stop
    pub uncovered : All (CoversNot stop) runs
    pub covered :
        (position : ℕ) → round_up boundary block ≤ position → position < stop → IsCovered P position
    pub chained : Chained (round_up boundary block) pieces (round_down stop block)
    pub parts : All (IsPart P) pieces

  -- For runs that all have a property, the chain from the block edge at or after the boundary goes back
  -- to back, without an empty piece, to the last block edge before the first position that no run
  -- covers; every position before that lies in a run, and every piece is read from a run's own donor
  -- at the donor position that the run gives it.
  pub chain_at_boundary-IsChain : IsChain (chain_at_boundary runs boundary block)
  unfolding chain_at_boundary
  chain_at_boundary-IsChain =
      let from = round_up boundary block in
      let chain = chain_loop (suc (length runs)) runs from in
      let (chained, parts, forward) = chain_loop-IsCover P runs ps (suc (length runs)) from in
      let edge = round_down chain.1 block in
      let room =
        le-round_down from chain.1 block block_pos (round_up-IsAligned boundary block block_pos)
          forward in
      let fit : min chain.1 edge ≡ edge = omega (arith, round_down-le chain.1 block) in
      record {
        stop = chain.1;
        forward = forward;
        uncovered =
            chain_loop-stops P runs ps (suc (length runs)) from
              (omega (arith, ending_after-le-length from runs));
        covered = Chained-IsCovered P from chain.1 chain.0 chained parts;
        chained =
            subst (Chained from (trim_pieces chain.0 edge)) fit
              (trim-Chained edge from chain.1 chain.0 chained room);
        parts = trim-IsPart edge P chain.0 parts;
      }
