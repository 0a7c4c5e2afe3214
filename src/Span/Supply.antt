-- ===== src/Span/Supply.antt =====
-- What `supply_at_boundary` returns.
use semblend_vllm_connector.Prelude.{
  ℕ, ◌+◌, ◌≤◌, ◌<◌, ◌≡◌, refl, sym, subst, true, false, Option, none, some, List, [], ◌∷◌, ◌⊎◌, inl,
  inr, arith, All, Bool-cases, round_up,
}
use semblend_vllm_connector.Span.{
  BlockSpan, holds_position, supply_of, supply_from, supply_at_boundary,
}

-- What is supplied from `usable`: a stretch to the end of one span, or nothing.
abbrev pub Supplies : (BlockSpan → Type 0) → ℕ → ℕ × Option ℕ → Type 0
Supplies P usable (n, none) = n ≡ 0
Supplies P usable (n, some donor_start) =
    (span : BlockSpan) × P span
    × (span.target_start ≤ usable)
    × (0 < n)
    × (usable + n ≡ span.target_end)
    × (donor_start + span.target_start ≡ span.donor_start + usable)

abbrev pub Misses : ℕ → BlockSpan → Type 0
Misses usable span = (usable < span.target_start) ⊎ (span.target_end ≤ usable)

module _ (usable : ℕ) where
  holds_position-Misses :
      (span : BlockSpan) → holds_position usable span ≡ false → Misses usable span
  unfolding holds_position
  holds_position-Misses span e = ground arith

  supply_of-Supplies :
      (P : BlockSpan → Type 0) (span : BlockSpan)
      → P span
      → holds_position usable span ≡ true
      → Supplies P usable (supply_of usable span)
  unfolding supply_of holds_position
  supply_of-Supplies P span p e = (span, p, ground arith, ground arith, ground arith, ground arith)

  supply_from-held :
      (span : BlockSpan) (rest : List BlockSpan)
      → holds_position usable span ≡ true
      → supply_from usable (span ∷ rest) ≡ supply_of usable span
  unfolding supply_from
  supply_from-held span rest held = rw (held, supply_from)

  supply_from-missed :
      (span : BlockSpan) (rest : List BlockSpan)
      → holds_position usable span ≡ false
      → supply_from usable (span ∷ rest) ≡ supply_from usable rest
  unfolding supply_from
  supply_from-missed span rest missed = rw (missed, supply_from)

  supply_from-Supplies :
      (P : BlockSpan → Type 0) (spans : List BlockSpan)
      → All P spans
      → Supplies P usable (supply_from usable spans)
  supply_from-Supplies P [] ps = unfold supply_from in refl
  supply_from-Supplies P (span ∷ rest) ps = elim (Bool-cases (holds_position usable span)) [
    | inl held ↦
        subst (Supplies P usable) (sym (supply_from-held span rest held))
          (supply_of-Supplies P span ps.0 held)
    | inr missed ↦
        subst (Supplies P usable) (sym (supply_from-missed span rest missed))
          (supply_from-Supplies P rest ps.1)
  ]

  supply_from-none :
      (spans : List BlockSpan) → (supply_from usable spans).1 ≡ none → All (Misses usable) spans
  unfolding supply_from
  supply_from-none [] e = tt
  supply_from-none (span ∷ rest) e = elim (Bool-cases (holds_position usable span)) [
    | inl held ↦ absurd (ground arith)
    | inr missed ↦ (holds_position-Misses span missed, supply_from-none rest (ground arith))
  ]

module _ (spans : List BlockSpan) (boundary block_size : ℕ) where
  -- From the block edge at or after the boundary the supply is a stretch, not empty, up to the end of
  -- a span, read from the donor position that this span has for it; or it is (0, None).
  pub supply_at_boundary-Supplies :
      (P : BlockSpan → Type 0)
      → All P spans
      → Supplies P (round_up boundary block_size) (supply_at_boundary spans boundary block_size)
  unfolding supply_at_boundary
  supply_at_boundary-Supplies P ps = supply_from-Supplies (round_up boundary block_size) P spans ps

  -- Nothing is supplied only where no span holds that block edge.
  pub supply_at_boundary-none :
      (supply_at_boundary spans boundary block_size).1 ≡ none
      → All (Misses (round_up boundary block_size)) spans
  unfolding supply_at_boundary
  supply_at_boundary-none e = supply_from-none (round_up boundary block_size) spans e
