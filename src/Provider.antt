-- ===== src/Provider.antt =====
-- provider.py: `rank_candidates` and the small local provider. A similarity is the fraction that the
-- source divides out.
pub mod Lookup
pub mod Kept
use semblend_vllm_connector.Prelude.{
  ℕ, ◌*◌, String, Bool, true, false, not, ◌&&◌, Option, none, some, List, [], ◌∷◌, Dict, Ratio, ltb,
  leb, ◌==◌, if◌then◌else◌, get, put, remove, length, take, str_eq,
}
use semblend_vllm_connector.Types.{
  MaterializationKind, SemanticLookupRequest, SemanticLookupResult, DonorRegistration,
}
use semblend_vllm_connector.Fills.{member, union, select}

pub record Scored : Type 0 where
  pub similarity : Ratio
  pub donor : DonorRegistration

abbrev pub at_least : Ratio → Ratio → Bool
at_least a b = leb (b.num * a.den) (a.num * b.den)

-- `usable.sort(key=similarity, reverse=True)`, which keeps the order of equals.
pub insert_by_similarity : Scored → List Scored → List Scored
insert_by_similarity x [] = x ∷ []
insert_by_similarity x (other ∷ rest) =
    let below = insert_by_similarity x rest in
    if at_least x.similarity other.similarity then x ∷ other ∷ rest else other ∷ below

pub usable : List Scored → List Scored
unfolding insert_by_similarity
usable [] = []
usable (x ∷ rest) =
    if x.donor.has_captured_kv then insert_by_similarity x (usable rest) else usable rest

unfoldable pub rank_candidates : List Scored → ℕ → List Scored
unfolding usable
rank_candidates scored top_k = if ltb 0 top_k then take top_k (usable scored) else usable scored

pub record LocalSemanticProvider : Type 0 where
  pub min_similarity : Ratio
  pub max_donors : ℕ
  pub lookup_top_k : ℕ
  pub donors : Dict DonorRegistration

-- `set(tokens)`
token_set : List ℕ → List ℕ
token_set tokens = union tokens []

abbrev pub is_nil {ℓ} : {A : Type ℓ} → List A → Bool
is_nil [] = true
is_nil (x ∷ xs) = false

token_jaccard : List ℕ → List ℕ → Ratio
unfolding token_set select
token_jaccard query tokens = record {
  num = length (select (λ token. member token tokens) (token_set query));
  den = length (union query (token_set tokens));
}

-- The tests of the loop over the donors.
pub is_scored : LocalSemanticProvider → SemanticLookupRequest → DonorRegistration → Bool
unfolding token_jaccard
is_scored p request donor =
    str_eq donor.namespace request.namespace
    && str_eq donor.model_id request.model_id
    && not (is_nil donor.token_ids)
    && at_least (token_jaccard request.token_ids donor.token_ids) p.min_similarity

scored_from : LocalSemanticProvider → SemanticLookupRequest → Dict DonorRegistration → List Scored
unfolding is_scored token_jaccard
scored_from p request [] = []
scored_from p request ((key, donor) ∷ rest) =
    let others = scored_from p request rest in
    if is_scored p request donor
    then record { similarity = token_jaccard request.token_ids donor.token_ids; donor = donor }
      ∷ others
    else others

unfoldable pub scored_donors : LocalSemanticProvider → SemanticLookupRequest → List Scored
unfolding scored_from
scored_donors p request = if is_nil request.token_ids then [] else scored_from p request p.donors

abbrev pub same_tokens : List ℕ → List ℕ → Bool
same_tokens [] [] = true
same_tokens (a ∷ left) (b ∷ right) = a == b && same_tokens left right
same_tokens _ _ = false

-- The result for the first candidate.
result_for : SemanticLookupRequest → List Scored → Option SemanticLookupResult
result_for request [] = none
result_for request (best ∷ rest) =
    let exact = same_tokens best.donor.token_ids request.token_ids in
    some (record {
      donor_id = best.donor.donor_id;
      similarity = best.similarity;
      reusable_token_count = if exact then length request.token_ids else 0;
      materialization_kind =
          if exact then MaterializationKind.exact_prefix else MaterializationKind.discovery_only;
      donor_token_ids = best.donor.token_ids;
      block_refs = [];
      segments = [];
      reason = some (if exact then "local_exact" else "local_semantic_discovery");
    })

unfoldable pub lookup : LocalSemanticProvider → SemanticLookupRequest → Option SemanticLookupResult
unfolding result_for
lookup p request = result_for request (rank_candidates (scored_donors p request) p.lookup_top_k)

-- The `while` loop; none is the KeyError of `popitem` on an empty dictionary.
pub make_room : ℕ → Dict DonorRegistration → Option (Dict DonorRegistration)
make_room max_donors [] = if leb max_donors 0 then none else some []
make_room max_donors (oldest ∷ rest) =
    let shorter = make_room max_donors rest in
    if leb max_donors (length (oldest ∷ rest)) then shorter else some (oldest ∷ rest)

abbrev pub is_known : Option DonorRegistration → Bool
is_known none = false
is_known (some donor) = true

with_donor :
    DonorRegistration
    → LocalSemanticProvider
    → Option (Dict DonorRegistration)
    → Option LocalSemanticProvider
with_donor donor p none = none
with_donor donor p (some donors) = some (record p { donors = put donor.donor_id donor donors })

unfoldable pub register_donor :
    DonorRegistration → LocalSemanticProvider → Option LocalSemanticProvider
unfolding make_room with_donor
register_donor donor p =
    if is_known (get donor.donor_id p.donors)
    then with_donor donor p (some (remove donor.donor_id p.donors))
    else with_donor donor p (make_room p.max_donors p.donors)

unfoldable pub clear_donors : LocalSemanticProvider → LocalSemanticProvider
clear_donors p = record p { donors = [] }
