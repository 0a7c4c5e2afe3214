-- ===== src/Semblend.antt =====
-- providers/semblend.py: the adapter of the SemBlend pipeline, a third-party package whose answers are
-- arguments here. Positions are natural numbers, so that the test `0 <= d` of a position holds. The
-- figures of a miss are fractions, with 0 for a figure that the pipeline does not carry; a hit's quality
-- signals and timings are left out.
pub mod Runs
pub mod Mapping
pub mod Lookup
pub mod Answer
use semblend_vllm_connector.Prelude.{
  ℕ, zero, suc, ◌+◌, String, Bool, true, false, not, ◌&&◌, ◌||◌, Option, none, some, List, [], ◌∷◌,
  Ratio, ltb, leb, ◌==◌, if◌then◌else◌, length, get_elem?, str_eq,
}
use semblend_vllm_connector.Types.{
  MaterializationKind, SemanticSegment, SemanticLookupRequest, SemanticLookupResult,
  DonorRegistration,
}

-- A donor's position and the position of the target that it is aligned with.
pub record Pair : Type 0 where
  pub donor_id : String
  pub donor : ℕ
  pub target : ℕ

abbrev pub segment_of : Pair → ℕ → SemanticSegment
segment_of first count = record {
  donor_id = first.donor_id;
  donor_start = first.donor;
  target_start = first.target;
  token_count = count;
}

-- Both sides advance by one, on one donor.
abbrev pub continues : Pair → Pair → Bool
continues p q = str_eq q.donor_id p.donor_id && q.donor == p.donor + 1 && q.target == p.target + 1

-- The loop over the pairs, with the run that is open: its first pair, its length and its last pair.
unfoldable pub runs_from : Pair → ℕ → Pair → List Pair → List SemanticSegment
runs_from first count last [] = segment_of first count ∷ []
runs_from first count last (p ∷ rest) = elim (continues last p) [
  | true ↦ runs_from first (suc count) p rest
  | false ↦ segment_of first count ∷ runs_from p 1 p rest
]

unfoldable pub runs : List Pair → List SemanticSegment
unfolding runs_from
runs [] = []
runs (p ∷ rest) = runs_from p 1 p rest

abbrev pub zip_pairs : String → List ℕ → List ℕ → List Pair
zip_pairs donor_id (d ∷ donors) (t ∷ targets) =
    record { donor_id = donor_id; donor = d; target = t } ∷ zip_pairs donor_id donors targets
zip_pairs donor_id _ _ = []

-- `position_map`: the two lists, or none. The caller reads `None` and an empty list alike.
unfoldable pub segments_from_position_map : String → Option (List ℕ × List ℕ) → List SemanticSegment
unfolding runs
segments_from_position_map donor_id none = []
segments_from_position_map donor_id (some (donors, targets)) =
    if length donors == length targets then runs (zip_pairs donor_id donors targets) else []

abbrev pub zip_composite : List String → List ℕ → List ℕ → List Pair
zip_composite (id ∷ ids) (d ∷ donors) (t ∷ targets) =
    record { donor_id = id; donor = d; target = t } ∷ zip_composite ids donors targets
zip_composite _ _ _ = []

abbrev pub same_token : Option ℕ → Option ℕ → Bool
same_token (some a) (some b) = a == b
same_token _ _ = false

-- The donor holds the target's own token at this pair. `get_tokens` answers none, and so no token, for a
-- donor that the store does not have.
abbrev pub is_identical : (String → List ℕ) → List ℕ → Pair → Bool
is_identical get_tokens target_tokens p =
    same_token (get_elem? (get_tokens p.donor_id) p.donor) (get_elem? target_tokens p.target)

-- `sorted(..., key=targets)`, which is stable.
unfoldable pub insert_by_target : Pair → List Pair → List Pair
insert_by_target p [] = p ∷ []
insert_by_target p (q ∷ rest) =
    let further = insert_by_target p rest in
    if leb p.target q.target then p ∷ q ∷ rest else q ∷ further

unfoldable pub sort_by_target : List Pair → List Pair
unfolding insert_by_target
sort_by_target [] = []
sort_by_target (p ∷ rest) = insert_by_target p (sort_by_target rest)

unfoldable pub kept : (Pair → Bool) → List Pair → List Pair
kept identical [] = []
kept identical (p ∷ rest) =
    let others = kept identical rest in if identical p then p ∷ others else others

pub record Composite : Type 0 where
  pub donor_ids : List String
  pub donor_positions : List ℕ
  pub target_positions : List ℕ

-- `get_tokens` is none where the pipeline has no store that can be asked for tokens.
unfoldable pub segments_from_multi_donor_map :
    Option Composite → Option (String → List ℕ) → List ℕ → List SemanticSegment
unfolding runs sort_by_target kept
segments_from_multi_donor_map none get_tokens target_tokens = []
segments_from_multi_donor_map (some mapping) none target_tokens = []
segments_from_multi_donor_map (some mapping) (some get_tokens) target_tokens =
    if length mapping.donor_ids == length mapping.donor_positions
      && length mapping.donor_positions == length mapping.target_positions
    then runs (
        kept (is_identical get_tokens target_tokens) (
          sort_by_target
            (zip_composite mapping.donor_ids mapping.donor_positions mapping.target_positions)))
    else []
