-- ===== src/Span/Align.antt =====
-- What `block_align_spans` returns, against its raw spans.
use semblend_vllm_connector.Prelude.{
  ℕ, ◌+◌, ◌-◌, ◌≤◌, ◌<◌, max, ◌≡◌, refl, sym, ◌∙◌, true, false, List, [], ◌∷◌, inl, inr, arith, leb,
  All, IsAligned, Bool-cases, round_down, round_up, round_down-le, round_down-IsAligned,
  le-round_up, round_up-IsAligned,
}
use semblend_vllm_connector.Span.{
  RawSpan, BlockSpan, insert_by_start, sort_by_start, snap, is_kept, align_from, block_align_spans,
}

-- Spans on block edges, each at least `max floor 1` long and none before the end of the one above.
abbrev pub Placed : ℕ → ℕ → ℕ → List BlockSpan → Type 0
Placed block floor cursor [] = Unit {0}
Placed block floor cursor (span ∷ rest) =
    (cursor ≤ span.target_start)
    × IsAligned block span.target_start
    × IsAligned block span.target_end
    × (span.target_start + max floor 1 ≤ span.target_end)
    × Placed block floor span.target_end rest

-- `span` is cut out of `raw`, with the donor position moved by the same distance.
pub record CutFrom (raw : RawSpan) (span : BlockSpan) : Type 0 where
  pub starts : raw.target_start ≤ span.target_start
  pub ends : span.target_end ≤ raw.target_start + raw.length
  pub shifted : span.donor_start + raw.target_start ≡ raw.donor_start + span.target_start

-- `raw` has no room for a span of the floor's length between two block edges.
abbrev pub IsTooShort : ℕ → ℕ → RawSpan → Type 0
IsTooShort block floor raw =
    round_down (raw.target_start + raw.length) block - round_up raw.target_start block < max floor 1

module _ (P : RawSpan → Type 0) where
  All-insert_by_start :
      (raw : RawSpan) (raws : List RawSpan) → P raw → All P raws → All P (insert_by_start raw raws)
  unfolding insert_by_start
  All-insert_by_start raw [] p ps = (p, tt)
  All-insert_by_start raw (other ∷ rest) p ps =
      elim (Bool-cases (leb raw.target_start other.target_start)) [
        | inl before ↦ rw before (p, ps)
        | inr after ↦ rw after (ps.0, All-insert_by_start raw rest p ps.1)
      ]

  All-insert_by_start_inv :
      (raw : RawSpan) (raws : List RawSpan) → All P (insert_by_start raw raws) → P raw × All P raws
  unfolding insert_by_start
  All-insert_by_start_inv raw [] ps = ps
  All-insert_by_start_inv raw (other ∷ rest) ps =
      elim (Bool-cases (leb raw.target_start other.target_start)) [
        | inl before ↦ let qs = rw before at ps in (qs.0, qs.1)
        | inr after ↦
            let qs = rw after at ps in
            let rs = All-insert_by_start_inv raw rest qs.1 in (rs.0, (qs.0, rs.1))
      ]

  All-sort_by_start : (raws : List RawSpan) → All P raws → All P (sort_by_start raws)
  unfolding sort_by_start
  All-sort_by_start [] ps = tt
  All-sort_by_start (raw ∷ rest) ps =
      All-insert_by_start raw (sort_by_start rest) ps.0 (All-sort_by_start rest ps.1)

  All-sort_by_start_inv : (raws : List RawSpan) → All P (sort_by_start raws) → All P raws
  unfolding sort_by_start
  All-sort_by_start_inv [] ps = tt
  All-sort_by_start_inv (raw ∷ rest) ps =
      let qs = All-insert_by_start_inv raw (sort_by_start rest) ps in
      (qs.0, All-sort_by_start_inv rest qs.1)

module _ (block : ℕ) (block_pos : 0 < block) (floor : ℕ) where
  snap-CutFrom :
      (raw : RawSpan) (cursor : ℕ)
      → is_kept floor cursor (snap block raw) ≡ true
      → CutFrom raw (snap block raw)
  unfolding snap is_kept
  snap-CutFrom raw cursor kept = record {
    starts = le-round_up raw.target_start block block_pos;
    ends = round_down-le (raw.target_start + raw.length) block;
    shifted = omega (arith, le-round_up raw.target_start block block_pos);
  }

  kept_bounds :
      (span : BlockSpan) (cursor : ℕ)
      → is_kept floor cursor span ≡ true
      → (cursor ≤ span.target_start) × (span.target_start + max floor 1 ≤ span.target_end)
  unfolding is_kept
  kept_bounds span cursor kept = ground arith

  align_from-kept :
      (cursor : ℕ) (raw : RawSpan) (rest : List RawSpan)
      → is_kept floor cursor (snap block raw) ≡ true
      → align_from block floor cursor (raw ∷ rest)
        ≡ snap block raw ∷ align_from block floor (snap block raw).target_end rest
  unfolding align_from
  align_from-kept cursor raw rest kept = rw (kept, align_from)

  align_from-skipped :
      (cursor : ℕ) (raw : RawSpan) (rest : List RawSpan)
      → is_kept floor cursor (snap block raw) ≡ false
      → align_from block floor cursor (raw ∷ rest) ≡ align_from block floor cursor rest
  unfolding align_from
  align_from-skipped cursor raw rest skipped = rw (skipped, align_from)

  align_from-nil : (cursor : ℕ) → align_from block floor cursor [] ≡ []
  unfolding align_from
  align_from-nil cursor = refl

  snap-IsAligned :
      (raw : RawSpan)
      → IsAligned block (snap block raw).target_start × IsAligned block (snap block raw).target_end
  unfolding snap
  snap-IsAligned raw = (
    round_up-IsAligned raw.target_start block block_pos,
    round_down-IsAligned (raw.target_start + raw.length) block block_pos,
  )

  align_from-Placed :
      (cursor : ℕ) (raws : List RawSpan)
      → Placed block floor cursor (align_from block floor cursor raws)
  align_from-Placed cursor [] = rw align_from-nil tt
  align_from-Placed cursor (raw ∷ rest) =
      elim (Bool-cases (is_kept floor cursor (snap block raw))) [
        | inl kept ↦
            let (after, long) = kept_bounds (snap block raw) cursor kept in
            let (left, right) = snap-IsAligned raw in
            rw (align_from-kept cursor raw rest kept)
              (after, left, right, long, align_from-Placed (snap block raw).target_end rest)
        | inr skipped ↦
            rw (align_from-skipped cursor raw rest skipped) (align_from-Placed cursor rest)
      ]

  align_from-CutFrom :
      (P : RawSpan → Type 0) (cursor : ℕ) (raws : List RawSpan)
      → All P raws
      → All
          (λ span. (raw : RawSpan) × P raw × CutFrom raw span)
          (align_from block floor cursor raws)
  align_from-CutFrom P cursor [] ps = rw align_from-nil tt
  align_from-CutFrom P cursor (raw ∷ rest) ps =
      elim (Bool-cases (is_kept floor cursor (snap block raw))) [
        | inl kept ↦ rw (align_from-kept cursor raw rest kept) (
          (raw, ps.0, snap-CutFrom raw cursor kept),
          align_from-CutFrom P (snap block raw).target_end rest ps.1,
        )
        | inr skipped ↦
            rw (align_from-skipped cursor raw rest skipped) (align_from-CutFrom P cursor rest ps.1)
      ]

  skipped_at_zero :
      (raw : RawSpan) → is_kept floor 0 (snap block raw) ≡ false → IsTooShort block floor raw
  unfolding is_kept snap
  skipped_at_zero raw skipped = ground arith

  align_from-eq_nil :
      (raws : List RawSpan) → align_from block floor 0 raws ≡ [] → All (IsTooShort block floor) raws
  align_from-eq_nil [] e = tt
  align_from-eq_nil (raw ∷ rest) e = elim (Bool-cases (is_kept floor 0 (snap block raw))) [
    | inl kept ↦ absurd (cc (align_from-kept 0 raw rest kept))
    | inr skipped ↦ (
      skipped_at_zero raw skipped,
      align_from-eq_nil rest (sym (align_from-skipped 0 raw rest skipped) ∙ e),
    )
  ]

  -- The snapped spans lie on block edges, are at least as long as the floor and one token, and come
  -- in target order with none reaching into the next.
  pub block_align_spans-Placed :
      (raws : List RawSpan) → Placed block floor 0 (block_align_spans raws block floor)
  unfolding block_align_spans
  block_align_spans-Placed raws = align_from-Placed 0 (sort_by_start raws)

  -- Every snapped span is cut out of a raw span, so what holds of every raw span holds of its origin,
  -- and its donor position moved exactly as far as its target position.
  pub block_align_spans-CutFrom :
      (P : RawSpan → Type 0) (raws : List RawSpan)
      → All P raws
      → All
          (λ span. (raw : RawSpan) × P raw × CutFrom raw span)
          (block_align_spans raws block floor)
  unfolding block_align_spans
  block_align_spans-CutFrom P raws ps =
      align_from-CutFrom P 0 (sort_by_start raws) (All-sort_by_start P raws ps)

  -- No span comes back only if no raw span holds the floor's length between two block edges.
  pub block_align_spans-eq_nil :
      (raws : List RawSpan)
      → block_align_spans raws block floor ≡ []
      → All (IsTooShort block floor) raws
  unfolding block_align_spans
  block_align_spans-eq_nil raws e =
      All-sort_by_start_inv (IsTooShort block floor) raws (align_from-eq_nil (sort_by_start raws) e)
