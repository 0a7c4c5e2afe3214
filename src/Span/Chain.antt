-- ===== src/Span/Chain.antt =====
-- The greedy cover of `chain_at_boundary`, before its end is trimmed to a block edge.
use semblend_vllm_connector.Prelude.{
  ℕ, zero, suc, ◌+◌, ◌≤◌, ◌<◌, ◌≡◌, refl, sym, subst, ap, ◌∙◌, true, false, Option, none, some,
  List, [], ◌∷◌, ◌⊎◌, inl, inr, arith, ltb, if◌then◌else◌, length, All, Option-cases, some-eq-some,
}
use semblend_vllm_connector.Types.{LoadPiece}
use semblend_vllm_connector.Span.{Run, run_end, covers, further, best_from, piece_of, chain_loop}

-- Pieces that are not empty, back to back from one position to another.
abbrev pub Chained : ℕ → List LoadPiece → ℕ → Type 0
Chained position [] final = position ≡ final
Chained position (piece ∷ rest) final =
    (piece.target_start ≡ position)
    × (0 < piece.token_count)
    × Chained (position + piece.token_count) rest final

-- The piece is read from the run's own donor, at the donor position that the run gives it.
pub record PartOf (run : Run) (piece : LoadPiece) : Type 0 where
  pub donor : piece.donor_id ≡ run.donor_id
  pub starts : run.target_start ≤ piece.target_start
  pub ends : piece.target_start + piece.token_count ≤ run_end run
  pub shifted : piece.donor_start + run.target_start ≡ run.donor_start + piece.target_start

abbrev pub IsPart : (Run → Type 0) → LoadPiece → Type 0
IsPart P piece = (run : Run) × P run × PartOf run piece

abbrev pub CoversNot : ℕ → Run → Type 0
CoversNot position run = (position < run.target_start) ⊎ (run_end run ≤ position)

covers_bounds :
    (position : ℕ) (run : Run)
    → covers position run ≡ true
    → (run.target_start ≤ position) × (position < run_end run)
unfolding covers
covers_bounds position run e = ground arith

covers-CoversNot : (position : ℕ) (run : Run) → covers position run ≡ false → CoversNot position run
unfolding covers
covers-CoversNot position run e = ground arith

-- How many runs end after a position.
pub ending_after : ℕ → List Run → ℕ
ending_after position [] = 0
ending_after position (run ∷ rest) =
    (if ltb position (run_end run) then 1 else 0) + ending_after position rest

ending_after_mono : (p q : ℕ) (runs : List Run) → p ≤ q → ending_after q runs ≤ ending_after p runs
unfolding ending_after
ending_after_mono p q [] h = omega arith
ending_after_mono p q (run ∷ rest) h = ground (arith, ending_after_mono p q rest)

pub ending_after-le-length : (p : ℕ) (runs : List Run) → ending_after p runs ≤ length runs
unfolding ending_after
ending_after-le-length p [] = omega arith
ending_after-le-length p (run ∷ rest) = ground (arith, ending_after-le-length p rest)

module _ (position : ℕ) where
  further_cases :
      (best : Option Run) (run : Run)
      → ((covers position run ≡ true) × (further position best run ≡ some run))
        ⊎ (further position best run ≡ best)
  unfolding further
  further_cases best run = ground arith

  further-none :
      (best : Option Run) (run : Run)
      → further position best run ≡ none
      → (best ≡ none) × (covers position run ≡ false)
  unfolding further
  further-none best run = ground arith

  best_from-none :
      (best : Option Run) (runs : List Run)
      → best_from position best runs ≡ none
      → (best ≡ none) × All (CoversNot position) runs
  unfolding best_from
  best_from-none best [] e = (e, tt)
  best_from-none best (run ∷ rest) e =
      let (further_none, rest_not) = best_from-none (further position best run) rest e in
      let (best_none, not_covered) = further-none best run further_none in
      (best_none, (covers-CoversNot position run not_covered, rest_not))

  best_from-some :
      (P : Run → Type 0) (best : Option Run) (runs : List Run) {run : Run}
      → All P runs
      → best_from position best runs ≡ some run
      → (best ≡ some run) ⊎ (P run × (covers position run ≡ true))
  unfolding best_from
  best_from-some P best [] ps e = inl e
  best_from-some P best (r ∷ rest) ps e =
      elim (best_from-some P (further position best r) rest ps.1 e) [
        | inr found ↦ inr found
        | inl here ↦ elim (further_cases best r) [
          | inl (covered, taken) ↦
              let same = some-eq-some (sym taken ∙ here) in
              inr (subst P same ps.0, subst (λ x. covers position x ≡ true) same covered)
          | inr kept ↦ inl (sym kept ∙ here)
        ]
      ]

  best_from-ends :
      (best : Option Run) (runs : List Run) {run : Run}
      → position < run_end run
      → best_from position best runs ≡ some run
      → (best ≡ some run) ⊎ (ending_after (run_end run) runs < ending_after position runs)
  unfolding best_from ending_after
  best_from-ends best [] h e = inl e
  best_from-ends best (r ∷ rest) {run} h e =
      let fewer : ending_after (run_end run) rest ≤ ending_after position rest =
        ending_after_mono position (run_end run) rest (omega arith) in
      elim (best_from-ends (further position best r) rest h e) [
        | inr falls ↦ inr (ground arith)
        | inl here ↦ elim (further_cases best r) [
          | inl (_, taken) ↦
              let same = ap run_end (some-eq-some (sym taken ∙ here)) in inr (ground arith)
          | inr kept ↦ inl (sym kept ∙ here)
        ]
      ]

module _ (fuel : ℕ) (runs : List Run) (position : ℕ) where
  chain_loop-none :
      best_from position none runs ≡ none → chain_loop (suc fuel) runs position ≡ ([], position)
  unfolding chain_loop
  chain_loop-none e = rw (e, chain_loop)

  chain_loop-some :
      {run : Run}
      → best_from position none runs ≡ some run
      → chain_loop (suc fuel) runs position ≡ (
        piece_of position run ∷ (chain_loop fuel runs (run_end run)).0,
        (chain_loop fuel runs (run_end run)).1,
      )
  unfolding chain_loop
  chain_loop-some e = rw (e, chain_loop)

module _ (P : Run → Type 0) (runs : List Run) (ps : All P runs) where
  best-covers :
      (position : ℕ) {run : Run}
      → best_from position none runs ≡ some run
      → P run × (run.target_start ≤ position) × (position < run_end run)
  best-covers position {run} e = elim (best_from-some position P none runs ps e) [
    | inl never ↦ cc
    | inr (p, covered) ↦
        let (starts, ends) = covers_bounds position run covered in (p, starts, ends)
  ]

  piece_of-PartOf :
      (position : ℕ) (run : Run)
      → run.target_start ≤ position
      → position < run_end run
      → PartOf run (piece_of position run)
  unfolding piece_of
  piece_of-PartOf position run h k = record {
    donor = refl;
    starts = h;
    ends = omega arith;
    shifted = omega arith;
  }

  piece_of_bounds :
      (position : ℕ) (run : Run)
      → position < run_end run
      → ((piece_of position run).target_start ≡ position)
        × (0 < (piece_of position run).token_count)
        × (run_end run ≡ position + (piece_of position run).token_count)
  unfolding piece_of
  piece_of_bounds position run h = (refl, omega arith, omega arith)

  -- The pieces are parts of runs, back to back from the position to where the loop stopped.
  abbrev pub IsCover : ℕ → List LoadPiece × ℕ → Type 0
  IsCover position chain =
      Chained position chain.0 chain.1 × All (IsPart P) chain.0 × (position ≤ chain.1)

  pub chain_loop-IsCover : (fuel position : ℕ) → IsCover position (chain_loop fuel runs position)
  chain_loop-IsCover zero position = unfold chain_loop in (refl, tt, omega arith)
  chain_loop-IsCover (suc fuel) position = elim (Option-cases (best_from position none runs)) [
    | inl stop ↦
        subst (IsCover position) (sym (chain_loop-none fuel runs position stop))
          (refl, tt, omega arith)
    | inr (run, e) ↦
        let (p, starts, ends) = best-covers position e in
        let (chained, parts, grows) = chain_loop-IsCover fuel (run_end run) in
        let (at, long, next) = piece_of_bounds position run ends in
        let chain = chain_loop fuel runs (run_end run) in
        subst (IsCover position) (sym (chain_loop-some fuel runs position e)) (
          (at, long, subst (λ q. Chained q chain.0 chain.1) next chained),
          ((run, p, piece_of-PartOf position run starts ends), parts),
          omega arith,
        )
  ]

  -- The loop ends by its test: with one round for each run that is left, no run covers its end.
  pub chain_loop-stops :
      (fuel position : ℕ)
      → ending_after position runs < fuel
      → All (CoversNot (chain_loop fuel runs position).1) runs
  chain_loop-stops zero position h = elim h [ ]
  chain_loop-stops (suc fuel) position h = elim (Option-cases (best_from position none runs)) [
    | inl stop ↦
        rw (chain_loop-none fuel runs position stop) (best_from-none position none runs stop).1
    | inr (run, e) ↦
        let (p, starts, ends) = best-covers position e in
        rw (chain_loop-some fuel runs position e) (
          chain_loop-stops fuel (run_end run) (elim (best_from-ends position none runs ends e) [
            | inl never ↦ cc
            | inr fewer ↦ omega arith
          ]))
  ]
