-- ===== src/Provider/Lookup.antt =====
-- Whom a lookup can find.
use semblend_vllm_connector.Prelude.{
  ℕ, zero, suc, ◌<◌, ◌≡◌, refl, ap, inl, inr, Bool, true, false, Option, none, some, List, [], ◌∷◌,
  arith, Memᴰ, Dict, All, Bool-cases, ltb, if◌then◌else◌, take, length, eq_iff, String,
}
use semblend_vllm_connector.Types.{SemanticLookupRequest, SemanticLookupResult, DonorRegistration}
use semblend_vllm_connector.Provider.{
  Scored, at_least, same_tokens, insert_by_similarity, usable, rank_candidates,
  LocalSemanticProvider, is_nil, is_scored, scored_from, scored_donors, result_for, lookup,
}

-- A found donor: one of the provider's, of the request's own namespace and model, that passed the
-- score's floor.
abbrev pub IsEligible : LocalSemanticProvider → SemanticLookupRequest → DonorRegistration → Type 0
IsEligible p request donor =
    (key : String) × Memᴰ (key, donor) p.donors
    × (donor.namespace ≡ request.namespace)
    × (donor.model_id ≡ request.model_id)
    × (is_scored p request donor ≡ true)

module _ (P : Scored → Type 0) where
  All-if :
      (test : Bool) (xs ys : List Scored)
      → (test ≡ true → All P xs)
      → All P ys
      → All P (if test then xs else ys)
  All-if true xs ys h k = h refl
  All-if false xs ys h k = k

  All-insert_by_similarity :
      (x : Scored) (xs : List Scored) → P x → All P xs → All P (insert_by_similarity x xs)
  unfolding insert_by_similarity
  All-insert_by_similarity x [] h k = (h, tt)
  All-insert_by_similarity x (other ∷ rest) h k =
      elim (Bool-cases (at_least x.similarity other.similarity)) [
        | inl first ↦ rw first (h, k)
        | inr later ↦ rw later (k.0, All-insert_by_similarity x rest h k.1)
      ]

  All-take : (n : ℕ) (xs : List Scored) → All P xs → All P (take n xs)
  All-take zero xs h = tt
  All-take (suc n) [] h = tt
  All-take (suc n) (x ∷ xs) h = (h.0, All-take n xs h.1)

module _ (P : Scored → Type 0) where
  abbrev Captured : Scored → Type 0
  Captured x = P x × (x.donor.has_captured_kv ≡ true)

  -- What passes the first test is captured.
  All-usable : (xs : List Scored) → All P xs → All Captured (usable xs)
  unfolding usable
  All-usable [] h = tt
  All-usable (x ∷ rest) h =
      All-if Captured x.donor.has_captured_kv (insert_by_similarity x (usable rest)) (usable rest)
        (λ captured.
          All-insert_by_similarity Captured x (usable rest) (h.0, captured) (All-usable rest h.1))
        (All-usable rest h.1)

  pub All-rank_candidates :
      (xs : List Scored) (top_k : ℕ) → All P xs → All Captured (rank_candidates xs top_k)
  unfolding rank_candidates
  All-rank_candidates xs top_k h = elim (Bool-cases (ltb 0 top_k)) [
    | inl cut ↦ rw cut (All-take Captured top_k (usable xs) (All-usable xs h))
    | inr whole ↦ rw whole (All-usable xs h)
  ]

All-tail {ℓ} :
    {A : Type ℓ} (x : A) (xs ys : List A) → All (λ y. Memᴰ y xs) ys → All (λ y. Memᴰ y (x ∷ xs)) ys
All-tail x xs [] h = tt
All-tail x xs (y ∷ ys) h = (Memᴰ.tail h.0, All-tail x xs ys h.1)

All-self {ℓ} : {A : Type ℓ} (xs : List A) → All (λ x. Memᴰ x xs) xs
All-self [] = tt
All-self (x ∷ xs) = (Memᴰ.head refl, All-tail x xs xs (All-self xs))

is_nil-insert_by_similarity :
    (x : Scored) (xs : List Scored) → is_nil (insert_by_similarity x xs) ≡ false
unfolding insert_by_similarity
is_nil-insert_by_similarity x [] = refl
is_nil-insert_by_similarity x (other ∷ rest) = ground arith

-- Nothing is usable only where no donor is captured.
is_nil-usable :
    (xs : List Scored) → is_nil (usable xs) ≡ true → All (λ x. x.donor.has_captured_kv ≡ false) xs
unfolding usable
is_nil-usable [] h = tt
is_nil-usable (x ∷ rest) h =
    let missing : x.donor.has_captured_kv ≡ false =
      ground (arith, h, is_nil-insert_by_similarity x (usable rest)) in
    (missing, is_nil-usable rest (ground (arith, h, missing)))

is_nil-take : (n : ℕ) (xs : List Scored) → 0 < n → is_nil (take n xs) ≡ true → is_nil xs ≡ true
is_nil-take n [] h k = refl
is_nil-take zero (x ∷ xs) h k = elim h [ ]
is_nil-take (suc n) (x ∷ xs) h k = k

is_nil-rank_candidates :
    (xs : List Scored) (top_k : ℕ)
    → is_nil (rank_candidates xs top_k) ≡ true
    → is_nil (usable xs) ≡ true
unfolding rank_candidates
is_nil-rank_candidates xs top_k h = ground (arith, h, is_nil-take top_k (usable xs))

module _ (p : LocalSemanticProvider) (request : SemanticLookupRequest) where
  own_space :
      (donor : DonorRegistration)
      → is_scored p request donor ≡ true
      → (donor.namespace ≡ request.namespace) × (donor.model_id ≡ request.model_id)
  unfolding is_scored
  own_space donor passed = (
    (eq_iff donor.namespace request.namespace).0 (ground arith),
    (eq_iff donor.model_id request.model_id).0 (ground arith),
  )

  scored_from-IsEligible :
      (held : Dict DonorRegistration)
      → All (λ entry. Memᴰ entry p.donors) held
      → All (λ x. IsEligible p request x.donor) (scored_from p request held)
  unfolding scored_from
  scored_from-IsEligible [] h = tt
  scored_from-IsEligible ((key, donor) ∷ rest) h = elim (Bool-cases (is_scored p request donor)) [
    | inl passed ↦ rw passed (
      (key, h.0, (own_space donor passed).0, (own_space donor passed).1, passed),
      scored_from-IsEligible rest h.1,
    )
    | inr missed ↦ rw missed (scored_from-IsEligible rest h.1)
  ]

  scored_donors-IsEligible : All (λ x. IsEligible p request x.donor) (scored_donors p request)
  unfolding scored_donors
  scored_donors-IsEligible = elim (Bool-cases (is_nil request.token_ids)) [
    | inl nothing ↦ rw nothing tt
    | inr tokens ↦ rw tokens (scored_from-IsEligible p.donors (All-self p.donors))
  ]

  -- A hit is on an eligible donor with captured KV and returns its tokens; it is an exact match just
  -- where the tokens are the request's own, and only then counts them as reusable.
  abbrev pub IsHit : Option SemanticLookupResult → Type 0
  IsHit none = All (λ x. x.donor.has_captured_kv ≡ false) (scored_donors p request)
  IsHit (some result) =
      (donor : DonorRegistration) × IsEligible p request donor
      × (donor.has_captured_kv ≡ true)
      × (result.donor_id ≡ donor.donor_id)
      × (result.donor_token_ids ≡ donor.token_ids)
      × (result.reusable_token_count
          ≡ (if same_tokens donor.token_ids request.token_ids then length request.token_ids else 0))

  result_for-IsHit :
      (xs : List Scored)
      → All (λ x. IsEligible p request x.donor × (x.donor.has_captured_kv ≡ true)) xs
      → rank_candidates (scored_donors p request) p.lookup_top_k ≡ xs
      → IsHit (result_for request xs)
  unfolding result_for
  result_for-IsHit [] h none_left =
      is_nil-usable (scored_donors p request)
        (is_nil-rank_candidates (scored_donors p request) p.lookup_top_k (ap is_nil none_left))
  result_for-IsHit (best ∷ rest) h some_left = (best.donor, h.0.0, h.0.1, refl, refl, refl)

  -- What a lookup finds is one of the provider's own donors, of the request's namespace and model and
  -- past the score's floor, with captured KV. The result carries that donor's id and tokens, and counts
  -- tokens as reusable, all of the request's, just where the two token lists are the same. Nothing is
  -- found only where no donor that passes the score's tests has captured KV.
  pub lookup-IsHit : IsHit (lookup p request)
  unfolding lookup
  lookup-IsHit =
      result_for-IsHit (rank_candidates (scored_donors p request) p.lookup_top_k)
        (All-rank_candidates (λ x. IsEligible p request x.donor) (scored_donors p request)
          p.lookup_top_k scored_donors-IsEligible)
        refl
