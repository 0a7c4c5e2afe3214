-- ===== src/SegmentPlan/Limit.antt =====
-- How far a prefill may compute before it stands at a segment that can be loaded.
use semblend_vllm_connector.Prelude.{
  ℕ, ◌+◌, ◌-◌, ◌≤◌, ◌<◌, ◌≡◌, refl, sym, subst, ◌∙◌, ◌⊎◌, inl, inr, String, Bool, true, false,
  Option, none, some, List, [], ◌∷◌, arith, Memᴰ, All, Bool-cases, ltb, some-eq-some, round_up,
}
use semblend_vllm_connector.Scheduler.{Scheduler, Request, Engine}
use semblend_vllm_connector.Span.{Run, run_end}
use semblend_vllm_connector.SegmentPlan.{
  is_usable_edge, earlier, edge_from, distance_to, limit_from, segment_runs,
  get_prefill_compute_limit,
}

module _ (block floor from : ℕ) where
  abbrev edge_of : Run → ℕ
  edge_of run = round_up run.target_start block

  abbrev Below : ℕ → Option ℕ → Type 0
  Below edge none = Unit
  Below edge (some best) = edge ≤ best

  Below-le : (best : Option ℕ) (edge edge' : ℕ) → edge ≤ edge' → Below edge' best → Below edge best
  Below-le none edge edge' h k = tt
  Below-le (some best) edge edge' h k = omega (arith, h, k)

  -- The result of the loop over `runs`, begun with `best`.
  abbrev Near : Option ℕ → List Run → Option ℕ → Type 0
  Near best runs none =
      (best ≡ none) × All (λ run. is_usable_edge block floor from run ≡ false) runs
  Near best runs (some edge) =
      ((best ≡ some edge)
        ⊎ ((run : Run) × Memᴰ run runs
            × (is_usable_edge block floor from run ≡ true)
            × (edge ≡ edge_of run)))
      × Below edge best
      × All (λ run. is_usable_edge block floor from run ≡ true → edge ≤ edge_of run) runs

  Near-skip :
      (best out : Option ℕ) (run : Run) (rest : List Run)
      → is_usable_edge block floor from run ≡ false
      → Near best rest out
      → Near best (run ∷ rest) out
  Near-skip best none run rest miss (h, k) = (h, (miss, k))
  Near-skip best (some edge) run rest miss (inl h, b, k) = (inl h, b, ((λ usable. ground arith), k))
  Near-skip best (some edge) run rest miss (inr (r, m, u, e), b, k) =
      (inr (r, Memᴰ.tail m, u, e), b, ((λ usable. ground arith), k))

  -- The run's edge becomes the best one.
  Near-take :
      (best out : Option ℕ) (run : Run) (rest : List Run)
      → is_usable_edge block floor from run ≡ true
      → Below (edge_of run) best
      → Near (some (edge_of run)) rest out
      → Near best (run ∷ rest) out
  Near-take best none run rest hit lower (h, k) = grind (arith, h)
  Near-take best (some edge) run rest hit lower (inl h, b, k) = (
    inr (run, Memᴰ.head refl, hit, sym (some-eq-some h)),
    Below-le best edge (edge_of run) b lower,
    ((λ usable. b), k),
  )
  Near-take best (some edge) run rest hit lower (inr (r, m, u, e), b, k) =
      (inr (r, Memᴰ.tail m, u, e), Below-le best edge (edge_of run) b lower, ((λ usable. b), k))

  Near-pass :
      (best : ℕ) (out : Option ℕ) (run : Run) (rest : List Run)
      → is_usable_edge block floor from run ≡ true
      → best ≤ edge_of run
      → Near (some best) rest out
      → Near (some best) (run ∷ rest) out
  Near-pass best none run rest hit higher (h, k) = grind (arith, h)
  Near-pass best (some edge) run rest hit higher (inl h, b, k) =
      (inl h, b, ((λ usable. omega (arith, b, higher)), k))
  Near-pass best (some edge) run rest hit higher (inr (r, m, u, e), b, k) =
      (inr (r, Memᴰ.tail m, u, e), b, ((λ usable. omega (arith, b, higher)), k))

  edge_from-Near :
      (best : Option ℕ) (runs : List Run) → Near best runs (edge_from block floor from best runs)
  unfolding edge_from earlier
  edge_from-Near none [] = (refl, tt)
  edge_from-Near (some best) [] = (inl refl, omega arith, tt)
  edge_from-Near none (run ∷ rest) = elim (Bool-cases (is_usable_edge block floor from run)) [
    | inl hit ↦ rw hit (Near-take none _ run rest hit tt (edge_from-Near (some (edge_of run)) rest))
    | inr miss ↦ rw miss (Near-skip none _ run rest miss (edge_from-Near none rest))
  ]
  edge_from-Near (some best) (run ∷ rest) =
      elim (Bool-cases (is_usable_edge block floor from run)) [
        | inl hit ↦ rw hit (elim (Bool-cases (ltb (edge_of run) best)) [
          | inl nearer ↦ rw nearer (
              Near-take (some best) _ run rest hit (ground arith)
                (edge_from-Near (some (edge_of run)) rest))
          | inr farther ↦
              rw farther
                (Near-pass best _ run rest hit (ground arith) (edge_from-Near (some best) rest))
        ])
        | inr miss ↦
            rw miss (Near-skip (some best) _ run rest miss (edge_from-Near (some best) rest))
      ]

module _ (e : Engine) (from : ℕ) where
  abbrev pub usable_from : Run → Bool
  usable_from = is_usable_edge e.block_size e.config.min_mid_prefill_segment from

  -- What a limit means for the runs of the request's lookup.
  abbrev pub IsLimit : Option (List Run × String) → Option ℕ → Type 0
  IsLimit none out = out ≡ none
  IsLimit (some (runs, namespace)) none = All (λ run. usable_from run ≡ false) runs
  IsLimit (some (runs, namespace)) (some distance) =
      (run : Run) × Memᴰ run runs
      × (0 < distance)
      × (from + distance ≡ round_up run.target_start e.block_size)
      × (from + distance + e.config.min_mid_prefill_segment ≤ run_end run)
      × All
          (λ other.
            usable_from other ≡ true → from + distance ≤ round_up other.target_start e.block_size)
          runs

  All-shift :
      (edge distance : ℕ) (runs : List Run)
      → edge ≡ from + distance
      → All (λ run. usable_from run ≡ true → edge ≤ round_up run.target_start e.block_size) runs
      → All
          (λ run. usable_from run ≡ true → from + distance ≤ round_up run.target_start e.block_size)
          runs
  All-shift edge distance runs same h =
      subst
        (λ n. All (λ run. usable_from run ≡ true → n ≤ round_up run.target_start e.block_size) runs)
        same h

  distance-IsLimit :
      (runs : List Run) (namespace : String) (out : Option ℕ)
      → Near e.block_size e.config.min_mid_prefill_segment from none runs out
      → IsLimit (some (runs, namespace)) (distance_to from out)
  unfolding distance_to
  distance-IsLimit runs namespace none h = h.1
  distance-IsLimit runs namespace (some edge) (inl h, b, k) = grind (arith, h)
  distance-IsLimit runs namespace (some edge) (inr (run, m, u, same), b, k) =
      let back : edge ≡ from + (edge - from) = ground (arith, u, same) in
      (
        run,
        m,
        ground (arith, u, same),
        sym back ∙ same,
        ground (arith, u, same),
        All-shift edge (edge - from) runs back k,
      )

  found-IsLimit : (found : Option (List Run × String)) → IsLimit found (limit_from e from found)
  unfolding limit_from
  found-IsLimit none = refl
  found-IsLimit (some (runs, namespace)) =
      distance-IsLimit runs namespace _
        (edge_from-Near e.block_size e.config.min_mid_prefill_segment from none runs)

-- A limit is the distance to the nearest block edge after `compute_from` at which a run of the
-- request's lookup starts and has min_mid_prefill_segment tokens left. There is none only where no run
-- of the lookup has such an edge, or the request has no runs to be served from.
pub get_prefill_compute_limit-IsLimit :
    (e : Engine) (r : Request) (from : ℕ) (s : Scheduler)
    → IsLimit e from (segment_runs e r.request_id s) (get_prefill_compute_limit e r from s)
unfolding get_prefill_compute_limit
get_prefill_compute_limit-IsLimit e r from s = found-IsLimit e from (segment_runs e r.request_id s)
