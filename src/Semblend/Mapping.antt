-- ===== src/Semblend/Mapping.antt =====
-- What becomes of a position map and of a composite of several donors.
use semblend_vllm_connector.Prelude.{
  ℕ, ◌+◌, ◌≤◌, ◌≡◌, refl, ap, sym, subst, ◌∙◌, String, Bool, true, some, List, [], ◌∷◌, arith, All,
  length, Keeps-if_eq, if-eq_of_true, if◌then◌else◌, ◌==◌, ◌&&◌, leb, Keeps-if,
}
use semblend_vllm_connector.Types.{SemanticSegment}
use semblend_vllm_connector.Semblend.{
  Pair, runs, zip_pairs, zip_composite, segments_from_position_map, Composite, is_identical,
  sort_by_target, insert_by_target, kept, segments_from_multi_donor_map,
}
use semblend_vllm_connector.Semblend.Runs.{pairs_of_all, AreMaximal, pairs_of-runs, runs-AreMaximal}

-- The segments of two lists of equal length stand for exactly their pairs, in order, under the donor's
-- id; each has a token and none could be joined with the next.
pub segments_from_position_map-IsExpanded :
    (donor_id : String) (donors targets : List ℕ)
    → length donors ≡ length targets
    → (pairs_of_all (segments_from_position_map donor_id (some (donors, targets)))
        ≡ zip_pairs donor_id donors targets)
      × AreMaximal (segments_from_position_map donor_id (some (donors, targets)))
unfolding segments_from_position_map
segments_from_position_map-IsExpanded donor_id donors targets same =
    let P = λ (segments : List SemanticSegment).
      (pairs_of_all segments ≡ zip_pairs donor_id donors targets) × AreMaximal segments in
    subst P (sym (if-eq_of_true (length donors == length targets) _ _ (ground (arith, same)))) (
      pairs_of-runs (zip_pairs donor_id donors targets),
      runs-AreMaximal (zip_pairs donor_id donors targets),
    )

-- The sum of a weight over pairs; the weight that is 1 at one pair and 0 elsewhere counts that pair.
abbrev pub total : (Pair → ℕ) → List Pair → ℕ
total f [] = 0
total f (p ∷ rest) = f p + total f rest

-- The targets do not go back.
abbrev pub Ascending : List Pair → Type 0
Ascending [] = Unit
Ascending (p ∷ rest) = All (λ q. p.target ≤ q.target) rest × Ascending rest

total-insert_by_target :
    (f : Pair → ℕ) (p : Pair) (ps : List Pair) → total f (insert_by_target p ps) ≡ f p + total f ps
unfolding insert_by_target
total-insert_by_target f p [] = refl
total-insert_by_target f p (q ∷ rest) = ground (arith, total-insert_by_target f p rest)

total-sort_by_target : (f : Pair → ℕ) (ps : List Pair) → total f (sort_by_target ps) ≡ total f ps
unfolding sort_by_target
total-sort_by_target f [] = refl
total-sort_by_target f (p ∷ rest) =
    total-insert_by_target f p (sort_by_target rest)
    ∙ ap (λ n. f p + n) (total-sort_by_target f rest)

All-insert_by_target {ℓ} :
    (P : Pair → Type ℓ) (p : Pair) (ps : List Pair) → P p → All P ps → All P (insert_by_target p ps)
unfolding insert_by_target
All-insert_by_target P p [] h hs = (h, tt)
All-insert_by_target P p (q ∷ rest) h hs =
    Keeps-if (All P) (leb p.target q.target) _ _ (h, hs)
      (hs.0, All-insert_by_target P p rest h hs.1)

All-weaken :
    (m n : ℕ) (ps : List Pair) → m ≤ n → All (λ q. n ≤ q.target) ps → All (λ q. m ≤ q.target) ps
All-weaken m n [] h hs = tt
All-weaken m n (p ∷ ps) h hs = (omega (arith, h, hs.0), All-weaken m n ps h hs.1)

insert_by_target-Ascending :
    (p : Pair) (ps : List Pair) → Ascending ps → Ascending (insert_by_target p ps)
unfolding insert_by_target
insert_by_target-Ascending p [] up = (tt, tt)
insert_by_target-Ascending p (q ∷ rest) up =
    Keeps-if_eq Ascending (leb p.target q.target) _ _
      (λ before.
        let le : p.target ≤ q.target = ground (arith, before) in
        ((le, All-weaken p.target q.target rest le up.0), up))
      (λ after. (
        All-insert_by_target (λ x. q.target ≤ x.target) p rest (ground (arith, after)) up.0,
        insert_by_target-Ascending p rest up.1,
      ))

sort_by_target-Ascending : (ps : List Pair) → Ascending (sort_by_target ps)
unfolding sort_by_target
sort_by_target-Ascending [] = tt
sort_by_target-Ascending (p ∷ rest) =
    insert_by_target-Ascending p (sort_by_target rest) (sort_by_target-Ascending rest)

module _ (identical : Pair → Bool) where
  pub kept-identical : (ps : List Pair) → All (λ p. identical p ≡ true) (kept identical ps)
  unfolding kept
  kept-identical [] = tt
  kept-identical (p ∷ rest) =
      Keeps-if_eq (All (λ q. identical q ≡ true)) (identical p) _ _
        (λ yes. (yes, kept-identical rest)) (λ no. kept-identical rest)

  All-kept {ℓ} : (P : Pair → Type ℓ) (ps : List Pair) → All P ps → All P (kept identical ps)
  unfolding kept
  All-kept P [] hs = tt
  All-kept P (p ∷ rest) hs =
      Keeps-if (All P) (identical p) _ _ (hs.0, All-kept P rest hs.1) (All-kept P rest hs.1)

  kept-Ascending : (ps : List Pair) → Ascending ps → Ascending (kept identical ps)
  unfolding kept
  kept-Ascending [] up = tt
  kept-Ascending (p ∷ rest) up =
      Keeps-if Ascending (identical p) _ _
        (All-kept (λ q. p.target ≤ q.target) rest up.0, kept-Ascending rest up.1)
        (kept-Ascending rest up.1)

  total-kept :
      (f : Pair → ℕ) (ps : List Pair)
      → total f (kept identical ps) ≡ total (λ p. if identical p then f p else 0) ps
  unfolding kept
  total-kept f [] = refl
  total-kept f (p ∷ rest) = ground (arith, total-kept f rest)

-- What the segments of a composite stand for: only pairs at which the donor holds the target's token,
-- each as often as the composite has it, in the order of the target, in runs that cannot be joined.
pub record IsServable (get_tokens : String → List ℕ) (target_tokens : List ℕ) (pairs : List Pair)
    (segments : List SemanticSegment) : Type 0 where
  pub identical : All (λ p. is_identical get_tokens target_tokens p ≡ true) (pairs_of_all segments)
  pub complete :
      (f : Pair → ℕ)
      → total f (pairs_of_all segments)
        ≡ total (λ p. if is_identical get_tokens target_tokens p then f p else 0) pairs
  pub ascending : Ascending (pairs_of_all segments)
  pub maximal : AreMaximal segments

module _ (get_tokens : String → List ℕ) (target_tokens : List ℕ) where
  runs-IsServable :
      (pairs : List Pair)
      → IsServable get_tokens target_tokens pairs
          (runs (kept (is_identical get_tokens target_tokens) (sort_by_target pairs)))
  runs-IsServable pairs =
      let identical = is_identical get_tokens target_tokens in
      let ordered = sort_by_target pairs in
      let back = sym (pairs_of-runs (kept identical ordered)) in
      record {
        identical = subst (All (λ p. identical p ≡ true)) back (kept-identical identical ordered);
        complete = λ f.
            ap (total f) (sym back)
            ∙ total-kept identical f ordered
            ∙ total-sort_by_target (λ p. if identical p then f p else 0) pairs;
        ascending =
            subst Ascending back
              (kept-Ascending identical ordered (sort_by_target-Ascending pairs));
        maximal = runs-AreMaximal (kept identical ordered);
      }

  -- For a composite whose three lists have one length and a store that answers for tokens: every pair
  -- that the segments stand for has the target's own token, every such pair of the composite is in them
  -- as often as it is there, their targets do not go back, and no segment could be joined with the next.
  pub segments_from_multi_donor_map-IsServable :
      (mapping : Composite)
      → length mapping.donor_ids ≡ length mapping.donor_positions
      → length mapping.donor_positions ≡ length mapping.target_positions
      → IsServable get_tokens target_tokens
          (zip_composite mapping.donor_ids mapping.donor_positions mapping.target_positions)
          (segments_from_multi_donor_map (some mapping) (some get_tokens) target_tokens)
  unfolding segments_from_multi_donor_map
  segments_from_multi_donor_map-IsServable mapping same same' =
      subst (IsServable get_tokens target_tokens _)
        (sym (
          if-eq_of_true
            (length mapping.donor_ids == length mapping.donor_positions
              && length mapping.donor_positions == length mapping.target_positions)
            _ _ (ground (arith, same, same'))))
        (runs-IsServable
          (zip_composite mapping.donor_ids mapping.donor_positions mapping.target_positions))
