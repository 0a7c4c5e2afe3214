-- ===== src/SpanPlan/Verbatim.antt =====
-- From the pipeline's composite to the pieces of a span, and the tokens that they hold.
use semblend_vllm_connector.Prelude.{
  ℕ, zero, suc, ◌+◌, ◌-◌, ◌≤◌, ◌<◌, min, ◌≡◌, ap, sym, subst, ◌∙◌, String, true, Option, none, some,
  List, [], ◌∷◌, ◌++◌, arith, All, ltb, ◌==◌, ◌&&◌, get_elem?, length, Keeps-if,
}
use semblend_vllm_connector.Types.{SemanticSegment, SemanticLookupResult, LoadPiece}
use semblend_vllm_connector.Scheduler.{Request, Engine}
use semblend_vllm_connector.Span.{trim_pieces}
use semblend_vllm_connector.Span.Identity.{
  Identical, IsIdenticalRun, IsIdenticalPiece, chain_at_boundary-Identical,
}
use semblend_vllm_connector.Semblend.{
  Pair, Composite, same_token, is_identical, zip_composite, sort_by_target, kept, runs,
  segments_from_multi_donor_map,
}
use semblend_vllm_connector.Semblend.Runs.{stretch, pairs_of, pairs_of_all, pairs_of-runs}
use semblend_vllm_connector.Semblend.Mapping.{kept-identical}
use semblend_vllm_connector.SpanPlan.{captured_run, or_skip, captured_runs, multi_donor_pieces}

-- A token as a number, with different numbers where there is none.
abbrev donor_code : Option ℕ → ℕ
donor_code none = 0
donor_code (some token) = token + 2

abbrev target_code : Option ℕ → ℕ
target_code none = 1
target_code (some token) = token + 2

code_of_same : (a b : Option ℕ) → same_token a b ≡ true → donor_code a ≡ target_code b
code_of_same none b h = cc
code_of_same (some a) none h = cc
code_of_same (some a) (some b) h = ground (arith, h)

same_of_code : (a b : Option ℕ) → donor_code a ≡ target_code b → same_token a b ≡ true
same_of_code none none h = absurd (omega (arith, h))
same_of_code none (some b) h = absurd (omega (arith, h))
same_of_code (some a) none h = absurd (omega (arith, h))
same_of_code (some a) (some b) h = ground (arith, h)

module _ (get_tokens : String → List ℕ) (target_tokens : List ℕ) where
  abbrev donor_at : String → ℕ → ℕ
  donor_at donor_id i = donor_code (get_elem? (get_tokens donor_id) i)

  abbrev target_at : ℕ → ℕ
  target_at i = target_code (get_elem? target_tokens i)

  -- Every token of a stretch of the donor is the target's own.
  abbrev pub IsVerbatim : String → ℕ → ℕ → ℕ → Type 0
  IsVerbatim donor_id d t n =
      All (λ p. is_identical get_tokens target_tokens p ≡ true) (stretch donor_id d t n)

  Identical-of_stretch :
      (donor_id : String) (n d t : ℕ)
      → IsVerbatim donor_id d t n
      → Identical (donor_at donor_id) target_at d t n
  Identical-of_stretch donor_id zero d t h i below = absurd (omega (arith, below))
  Identical-of_stretch donor_id (suc n) d t h zero below =
      let d0 : d ≡ d + 0 = omega arith in
      let t0 : t ≡ t + 0 = omega arith in
      let here = code_of_same (get_elem? (get_tokens donor_id) d) (get_elem? target_tokens t) h.0 in
      ap (donor_at donor_id) (sym d0) ∙ here ∙ ap target_at t0
  Identical-of_stretch donor_id (suc n) d t h (suc i) below =
      let d' : d + suc i ≡ suc d + i = omega arith in
      let t' : suc t + i ≡ t + suc i = omega arith in
      ap (donor_at donor_id) d'
      ∙ Identical-of_stretch donor_id n (suc d) (suc t) h.1 i (omega (arith, below))
      ∙ ap target_at t'

  stretch_of_Identical :
      (donor_id : String) (n d t : ℕ)
      → Identical (donor_at donor_id) target_at d t n
      → IsVerbatim donor_id d t n
  stretch_of_Identical donor_id zero d t h = tt
  stretch_of_Identical donor_id (suc n) d t h =
      let d0 : d ≡ d + 0 = omega arith in
      let t0 : t + 0 ≡ t = omega arith in
      (
        same_of_code (get_elem? (get_tokens donor_id) d) (get_elem? target_tokens t)
            (ap (donor_at donor_id) d0 ∙ h 0 (omega arith) ∙ ap target_at t0),
        stretch_of_Identical donor_id n (suc d) (suc t) (λ i below.
            let d' : suc d + i ≡ d + suc i = omega arith in
            let t' : t + suc i ≡ suc t + i = omega arith in
            ap (donor_at donor_id) d' ∙ h (suc i) (omega (arith, below)) ∙ ap target_at t'),
      )

  abbrev IsVerbatimSegment : SemanticSegment → Type 0
  IsVerbatimSegment seg = IsVerbatim seg.donor_id seg.donor_start seg.target_start seg.token_count

  All-left : (P : Pair → Type 0) (ps qs : List Pair) → All P (ps ++ qs) → All P ps × All P qs
  All-left P [] qs h = (tt, h)
  All-left P (p ∷ ps) qs h = let rest = All-left P ps qs h.1 in ((h.0, rest.0), rest.1)

  segments-IsVerbatim :
      (segments : List SemanticSegment)
      → All (λ p. is_identical get_tokens target_tokens p ≡ true) (pairs_of_all segments)
      → All IsVerbatimSegment segments
  segments-IsVerbatim [] h = tt
  segments-IsVerbatim (seg ∷ rest) h =
      let parts = All-left _ (pairs_of seg) (pairs_of_all rest) h in
      (parts.0, segments-IsVerbatim rest parts.1)

  -- Whatever the lengths of its lists, a composite gives identical segments only.
  composite-IsVerbatim :
      (mapping : Option Composite)
      → All IsVerbatimSegment
          (segments_from_multi_donor_map mapping (some get_tokens) target_tokens)
  unfolding segments_from_multi_donor_map
  composite-IsVerbatim none = tt
  composite-IsVerbatim (some mapping) =
      let identical = is_identical get_tokens target_tokens in
      let ordered =
        sort_by_target
          (zip_composite mapping.donor_ids mapping.donor_positions mapping.target_positions) in
      Keeps-if (All IsVerbatimSegment)
        (length mapping.donor_ids == length mapping.donor_positions
          && length mapping.donor_positions == length mapping.target_positions)
        _ _
        (segments-IsVerbatim (runs (kept identical ordered)) (
          subst (All (λ p. identical p ≡ true)) (sym (pairs_of-runs (kept identical ordered)))
            (kept-identical identical ordered)))
        tt

  shorter :
      (donor_id : String) (d t n m : ℕ)
      → m ≤ n
      → Identical (donor_at donor_id) target_at d t n
      → Identical (donor_at donor_id) target_at d t m
  shorter donor_id d t n m le h i below = h i (omega (arith, le, below))

  captured_runs-Identical :
      (e : Engine) (namespace : String) (segments : List SemanticSegment)
      → All IsVerbatimSegment segments
      → All (IsIdenticalRun donor_at target_at) (captured_runs e namespace segments)
  unfolding captured_runs captured_run or_skip
  captured_runs-Identical e namespace [] h = tt
  captured_runs-Identical e namespace (seg ∷ rest) h =
      let stored = e.stored_donor_token_count seg.donor_id namespace in
      let count = min seg.token_count (stored - seg.donor_start) in
      let others = captured_runs-Identical e namespace rest h.1 in
      Keeps-if
        (λ o. All (IsIdenticalRun donor_at target_at) (or_skip o (captured_runs e namespace rest)))
        (ltb 0 count) _ _
        (
          shorter seg.donor_id seg.donor_start seg.target_start seg.token_count count (omega arith)
              (Identical-of_stretch seg.donor_id seg.token_count seg.donor_start seg.target_start
                h.0),
          others,
        )
        others

  trim_pieces-Identical :
      (pieces : List LoadPiece) (end : ℕ)
      → All (IsIdenticalPiece donor_at target_at) pieces
      → All (IsIdenticalPiece donor_at target_at) (trim_pieces pieces end)
  unfolding trim_pieces
  trim_pieces-Identical [] end h = tt
  trim_pieces-Identical (piece ∷ rest) end h =
      let count = min piece.token_count (end - piece.target_start) in
      let others = trim_pieces-Identical rest end h.1 in
      Keeps-if (All (IsIdenticalPiece donor_at target_at)) (ltb 0 count) _ _
        (
          shorter piece.donor_id piece.donor_start piece.target_start piece.token_count count
              (omega arith) h.0,
          others,
        )
        others

  pieces-IsVerbatim :
      (pieces : List LoadPiece)
      → All (IsIdenticalPiece donor_at target_at) pieces
      → All
          (λ piece.
            IsVerbatim piece.donor_id piece.donor_start piece.target_start piece.token_count)
          pieces
  pieces-IsVerbatim [] h = tt
  pieces-IsVerbatim (piece ∷ rest) h = (
    stretch_of_Identical piece.donor_id piece.token_count piece.donor_start piece.target_start h.0,
    pieces-IsVerbatim rest h.1,
  )

-- For a block size above 0 and a lookup's result whose segments come from the pipeline's composite for
-- this request: every token of every piece that a multi-donor span is planned from, from whichever
-- donor, is there in that donor and is the request's own token at the position that it is loaded to.
pub multi_donor_pieces-IsVerbatim :
    (get_tokens : String → List ℕ) (mapping : Option Composite) (e : Engine) (r : Request)
    (computed : ℕ) (result : SemanticLookupResult)
    → 0 < e.block_size
    → result.segments ≡ segments_from_multi_donor_map mapping (some get_tokens) r.token_ids
    → All
        (λ piece.
          IsVerbatim get_tokens r.token_ids piece.donor_id piece.donor_start piece.target_start
            piece.token_count)
        (multi_donor_pieces e r computed result)
unfolding multi_donor_pieces
multi_donor_pieces-IsVerbatim get_tokens mapping e r computed result pos from =
    pieces-IsVerbatim get_tokens r.token_ids (multi_donor_pieces e r computed result) (
      trim_pieces-Identical get_tokens r.token_ids _ _ (
        chain_at_boundary-Identical (donor_at get_tokens r.token_ids)
          (target_at get_tokens r.token_ids) (captured_runs e r.namespace result.segments) computed
          e.block_size pos
          (captured_runs-Identical get_tokens r.token_ids e r.namespace result.segments (
            subst (All (IsVerbatimSegment get_tokens r.token_ids)) (sym from)
              (composite-IsVerbatim get_tokens r.token_ids mapping)))))
