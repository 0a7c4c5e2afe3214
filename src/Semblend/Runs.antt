-- ===== src/Semblend/Runs.antt =====
-- The runs that aligned pairs are grouped into.
use semblend_vllm_connector.Prelude.{
  ℕ, zero, suc, ◌+◌, ◌≡◌, refl, ap, sym, subst, ◌∙◌, String, Bool, true, false, List, [], ◌∷◌, ◌++◌,
  arith, inl, inr, ◌==◌, ◌&&◌, str_eq, eq_iff, Bool-cases, ◌<◌,
}
use semblend_vllm_connector.Types.{SemanticSegment}
use semblend_vllm_connector.Semblend.{Pair, segment_of, continues, runs_from, runs}

-- The pairs that a stretch of `count` tokens stands for.
abbrev pub stretch : String → ℕ → ℕ → ℕ → List Pair
stretch donor_id d t zero = []
stretch donor_id d t (suc n) =
    record { donor_id = donor_id; donor = d; target = t } ∷ stretch donor_id (suc d) (suc t) n

abbrev pub pairs_of : SemanticSegment → List Pair
pairs_of segment =
    stretch segment.donor_id segment.donor_start segment.target_start segment.token_count

abbrev pub pairs_of_all : List SemanticSegment → List Pair
pairs_of_all [] = []
pairs_of_all (segment ∷ rest) = pairs_of segment ++ pairs_of_all rest

-- The segment that comes next does not go on where this one ends.
abbrev joins : SemanticSegment → SemanticSegment → Bool
joins a b =
    str_eq b.donor_id a.donor_id
    && b.donor_start == a.donor_start + a.token_count
    && b.target_start == a.target_start + a.token_count

abbrev Apart : SemanticSegment → List SemanticSegment → Type 0
Apart a [] = Unit
Apart a (b ∷ rest) = joins a b ≡ false

-- Every segment has a token, and none could be joined with the next.
abbrev pub AreMaximal : List SemanticSegment → Type 0
AreMaximal [] = Unit
AreMaximal (a ∷ rest) = (0 < a.token_count) × Apart a rest × AreMaximal rest

-- The pair that stands `n` positions after another.
abbrev shifted : Pair → ℕ → Pair
shifted p n = record { donor_id = p.donor_id; donor = p.donor + n; target = p.target + n }

Pair-eq : (p q : Pair) → p.donor_id ≡ q.donor_id → p.donor ≡ q.donor → p.target ≡ q.target → p ≡ q
Pair-eq p q e f g i = record { donor_id = e i; donor = f i; target = g i }

stretch-suc :
    (id : String) (d t n : ℕ) (rest : List Pair)
    → stretch id d t (suc n) ++ rest
      ≡ stretch id d t n ++ record { donor_id = id; donor = d + n; target = t + n } ∷ rest
stretch-suc id d t zero rest = ap (λ p. p ∷ rest) (Pair-eq _ _ refl (omega arith) (omega arith))
stretch-suc id d t (suc n) rest =
    ap (λ ps. record { donor_id = id; donor = d; target = t } ∷ ps)
      (stretch-suc id (suc d) (suc t) n rest
        ∙ ap (λ p. stretch id (suc d) (suc t) n ++ p ∷ rest)
            (Pair-eq _ _ refl (omega arith) (omega arith)))

-- A pair that continues the run stands right after it.
continues-shifted :
    (first last p : Pair) (n : ℕ)
    → last ≡ shifted first n
    → continues last p ≡ true
    → p ≡ shifted first (suc n)
continues-shifted first last p n is h =
    let same : p.donor_id ≡ last.donor_id =
      (eq_iff p.donor_id last.donor_id).0 (ground (arith, h)) in
    Pair-eq _ _ (same ∙ ap (λ q. q.donor_id) is) (ground (arith, h, ap (λ q. q.donor) is))
      (ground (arith, h, ap (λ q. q.target) is))

pairs_of-runs_from :
    (first : Pair) (n : ℕ) (last : Pair) (rest : List Pair)
    → last ≡ shifted first n
    → pairs_of_all (runs_from first (suc n) last rest) ≡ pairs_of (segment_of first (suc n)) ++ rest
unfolding runs_from
pairs_of-runs_from first n last [] is = refl
pairs_of-runs_from first n last (p ∷ rest) is = elim (Bool-cases (continues last p)) [
  | inl on ↦
      rw (on, runs_from)
        (pairs_of-runs_from first (suc n) p rest (continues-shifted first last p n is on)
          ∙ stretch-suc first.donor_id first.donor first.target (suc n) rest
          ∙ ap (λ q. pairs_of (segment_of first (suc n)) ++ q ∷ rest)
              (sym (continues-shifted first last p n is on)))
  | inr off ↦
      rw (off, runs_from)
        (ap (λ ps. pairs_of (segment_of first (suc n)) ++ ps)
          (pairs_of-runs_from p 0 p rest (Pair-eq _ _ refl (omega arith) (omega arith))))
]

Apart-runs_from :
    (a : SemanticSegment) (p : Pair) (n : ℕ) (last : Pair) (rest : List Pair)
    → joins a (segment_of p 0) ≡ false
    → Apart a (runs_from p n last rest)
unfolding runs_from
Apart-runs_from a p n last [] h = h
Apart-runs_from a p n last (q ∷ rest) h = elim (Bool-cases (continues last q)) [
  | inl on ↦ rw (on, runs_from) (Apart-runs_from a p (suc n) q rest h)
  | inr off ↦ rw (off, runs_from) h
]

not_continued :
    (first last p : Pair) (n : ℕ)
    → last ≡ shifted first n
    → continues last p ≡ false
    → joins (segment_of first (suc n)) (segment_of p 0) ≡ false
not_continued first last p n is off =
    let at : (d t : ℕ) → Bool =
      λ d t. str_eq p.donor_id first.donor_id && p.donor == d && p.target == t in
    let d : first.donor + suc n ≡ first.donor + n + 1 = omega arith in
    let t : first.target + suc n ≡ first.target + n + 1 = omega arith in
    (λ i. at (d i) (t i)) ∙ subst (λ q. continues q p ≡ false) is off

runs_from-AreMaximal :
    (first : Pair) (n : ℕ) (last : Pair) (rest : List Pair)
    → last ≡ shifted first n
    → AreMaximal (runs_from first (suc n) last rest)
unfolding runs_from
runs_from-AreMaximal first n last [] is = (omega arith, tt, tt)
runs_from-AreMaximal first n last (p ∷ rest) is = elim (Bool-cases (continues last p)) [
  | inl on ↦
      rw (on, runs_from)
        (runs_from-AreMaximal first (suc n) p rest (continues-shifted first last p n is on))
  | inr off ↦
      rw (off, runs_from)
        (
          omega arith,
          Apart-runs_from (segment_of first (suc n)) p 1 p rest
              (not_continued first last p n is off),
          runs_from-AreMaximal p 0 p rest (Pair-eq _ _ refl (omega arith) (omega arith)),
        )
]

-- The runs stand for exactly the pairs that they were made of, in their order.
pub pairs_of-runs : (pairs : List Pair) → pairs_of_all (runs pairs) ≡ pairs
unfolding runs
pairs_of-runs [] = refl
pairs_of-runs (p ∷ rest) =
    pairs_of-runs_from p 0 p rest (Pair-eq _ _ refl (omega arith) (omega arith))

pub runs-AreMaximal : (pairs : List Pair) → AreMaximal (runs pairs)
unfolding runs
runs-AreMaximal [] = tt
runs-AreMaximal (p ∷ rest) =
    runs_from-AreMaximal p 0 p rest (Pair-eq _ _ refl (omega arith) (omega arith))
