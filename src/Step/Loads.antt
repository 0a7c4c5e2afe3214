-- ===== src/Step/Loads.antt =====
-- The loads that a step hands to the worker.
use semblend_vllm_connector.Prelude.{
  ℕ, ◌≡◌, refl, ap, sym, ◌∙◌, String, true, Option, none, some, List, [], ◌∷◌, ◌++◌, All, Dict,
  Bool-cases, inl, inr, if◌then◌else◌,
}
use mathlib.Core.List.{append_assoc, append-nil}
use semblend_vllm_connector.Semblend.{Pair}
use semblend_vllm_connector.Semblend.Runs.{stretch}
use semblend_vllm_connector.Types.{LoadPiece, PendingLoad}
use semblend_vllm_connector.Scheduler.{Scheduler}
use semblend_vllm_connector.Step.{piece_loads, piece_load, has_blocks, loads_of, collect_loads}

-- What the worker reads: one donor, and blocks to write to.
abbrev pub IsSingle : PendingLoad → Type 0
IsSingle load = (has_blocks load.block_ids ≡ true) × (load.pieces ≡ [])

All-append :
    (xs ys : List PendingLoad) → All IsSingle xs → All IsSingle ys → All IsSingle (xs ++ ys)
All-append [] ys h k = k
All-append (x ∷ xs) ys h k = (h.0, All-append xs ys h.1 k)

piece_loads-IsSingle :
    (load : PendingLoad) (pieces : List LoadPiece)
    → has_blocks load.block_ids ≡ true
    → All IsSingle (piece_loads load pieces)
unfolding piece_loads piece_load
piece_loads-IsSingle load [] h = tt
piece_loads-IsSingle load (piece ∷ rest) h = ((h, refl), piece_loads-IsSingle load rest h)

loads_of-IsSingle :
    (load : PendingLoad) (pieces : List LoadPiece)
    → load.pieces ≡ pieces
    → has_blocks load.block_ids ≡ true
    → All IsSingle (loads_of load)
unfolding loads_of
loads_of-IsSingle load [] at h = rw at ((h, refl), tt)
loads_of-IsSingle load (piece ∷ rest) at h = rw at (piece_loads-IsSingle load (piece ∷ rest) h)

-- A token that is to be loaded: for whom, in which namespace and into which blocks, and the donor's
-- position with the target's.
pub record Transfer : Type 0 where
  pub request_id : String
  pub namespace : String
  pub block_ids : Option (List (List ℕ))
  pub pair : Pair

abbrev for_request : String → String → Option (List (List ℕ)) → List Pair → List Transfer
for_request id space blocks [] = []
for_request id space blocks (p ∷ rest) =
    record { request_id = id; namespace = space; block_ids = blocks; pair = p }
    ∷ for_request id space blocks rest

abbrev with_load : PendingLoad → List Pair → List Transfer
with_load load = for_request load.request_id load.namespace load.block_ids

abbrev or_zero : Option ℕ → ℕ
or_zero none = 0
or_zero (some n) = n

-- The tokens of a load that the worker reads, from its one donor.
abbrev pub own_transfers : PendingLoad → List Transfer
own_transfers load =
    with_load load (
      stretch load.donor_id (or_zero load.donor_start) (or_zero load.target_start) load.token_count)

abbrev pub transfers : List PendingLoad → List Transfer
transfers [] = []
transfers (load ∷ rest) = own_transfers load ++ transfers rest

abbrev pieces_pairs : List LoadPiece → List Pair
pieces_pairs [] = []
pieces_pairs (piece ∷ rest) =
    stretch piece.donor_id piece.donor_start piece.target_start piece.token_count
    ++ pieces_pairs rest

-- The tokens of a pending load: those of its pieces, from the donor of each, or its own if it has none.
abbrev planned_by : PendingLoad → List LoadPiece → List Transfer
planned_by load [] = own_transfers load
planned_by load (piece ∷ rest) = with_load load (pieces_pairs (piece ∷ rest))

abbrev pub planned : Dict PendingLoad → List Transfer
planned [] = []
planned ((key, load) ∷ rest) =
    if has_blocks load.block_ids then planned_by load load.pieces ++ planned rest else planned rest

for_request-append :
    (id space : String) (blocks : Option (List (List ℕ))) (ps qs : List Pair)
    → for_request id space blocks (ps ++ qs)
      ≡ for_request id space blocks ps ++ for_request id space blocks qs
for_request-append id space blocks [] qs = refl
for_request-append id space blocks (p ∷ ps) qs =
    ap (record { request_id = id; namespace = space; block_ids = blocks; pair = p } ∷◌)
      (for_request-append id space blocks ps qs)

transfers-append : (xs ys : List PendingLoad) → transfers (xs ++ ys) ≡ transfers xs ++ transfers ys
transfers-append [] ys = refl
transfers-append (x ∷ xs) ys =
    ap (λ ts. own_transfers x ++ ts) (transfers-append xs ys)
    ∙ sym (append_assoc (own_transfers x) (transfers xs) (transfers ys))

transfers-piece_loads :
    (load : PendingLoad) (pieces : List LoadPiece)
    → transfers (piece_loads load pieces) ≡ with_load load (pieces_pairs pieces)
unfolding piece_loads piece_load
transfers-piece_loads load [] = refl
transfers-piece_loads load (piece ∷ rest) =
    ap (λ ts. own_transfers (piece_load load piece) ++ ts) (transfers-piece_loads load rest)
    ∙ sym (
        for_request-append load.request_id load.namespace load.block_ids
          (stretch piece.donor_id piece.donor_start piece.target_start piece.token_count)
          (pieces_pairs rest))

transfers-loads_of :
    (load : PendingLoad) (pieces : List LoadPiece)
    → load.pieces ≡ pieces
    → transfers (loads_of load) ≡ planned_by load load.pieces
unfolding loads_of
transfers-loads_of load [] at = rw at (append-nil (own_transfers load))
transfers-loads_of load (piece ∷ rest) at = rw at (transfers-piece_loads load (piece ∷ rest))

-- Each load handed to the worker has blocks and one donor, and together they load exactly the tokens of
-- the pending loads that have blocks, in order: for the same request, in the same namespace and blocks,
-- and with pieces, each piece's tokens from its own donor.
pub collect_loads-IsSplit :
    (pending : Dict PendingLoad) (s : Scheduler)
    → All IsSingle (collect_loads pending s).0
      × (transfers (collect_loads pending s).0 ≡ planned pending)
unfolding collect_loads
collect_loads-IsSplit [] s = (tt, refl)
collect_loads-IsSplit ((key, load) ∷ rest) s = elim (Bool-cases (has_blocks load.block_ids)) [
  | inl there ↦
      let others = collect_loads-IsSplit rest s in
      rw there (
        All-append (loads_of load) (collect_loads rest s).0
            (loads_of-IsSingle load load.pieces refl there) others.0,
        transfers-append (loads_of load) (collect_loads rest s).0
            ∙ ap (λ ts. ts ++ transfers (collect_loads rest s).0)
                (transfers-loads_of load load.pieces refl)
            ∙ ap (λ ts. planned_by load load.pieces ++ ts) others.1,
      )
  | inr missing ↦ rw missing (collect_loads-IsSplit rest _)
]
