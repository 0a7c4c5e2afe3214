-- ===== src/Plan.antt =====
-- connector.py: what the match hook answers, the bound that vLLM's own lookup respects, and the load
-- plan that it memoizes for the allocation hook.
pub mod Sound
use semblend_vllm_connector.Prelude.{
  ℕ, suc, ◌-◌, String, Bool, true, false, ◌&&◌, Option, none, some, List, [], ◌∷◌, ◌==◌, leb,
  if◌then◌else◌, get, put, round_down, str_eq,
}
use semblend_vllm_connector.Types.{MaterializationKind, LoadPiece}
use semblend_vllm_connector.Journal.{count}
use semblend_vllm_connector.Scheduler.{LoadPlan, Scheduler, note}

-- `returned n` is the hook's `(n, False)`; `index_error` is Python's IndexError.
pub data Reply : Type 0 where
  returned : ℕ → Reply
  index_error : Reply

-- `return 0, False`
abbrev pub decline : Scheduler → Reply × Scheduler
decline s = (Reply.returned 0, s)

-- With `eligible = n - 1` tokens, `(eligible - 1) // block * block`: two tokens are kept back.
unfoldable pub cacheable_prefix_tokens : ℕ → ℕ → ℕ
cacheable_prefix_tokens num_tokens block_size =
    let eligible = num_tokens - 1 in
    if leb eligible 0 then 0 else round_down (eligible - 1) block_size

unfoldable pub common_prefix_len : List ℕ → List ℕ → ℕ
common_prefix_len [] right = 0
common_prefix_len (a ∷ left) [] = 0
common_prefix_len (a ∷ left) (b ∷ right) =
    let more = suc (common_prefix_len left right) in if a == b then more else 0

abbrev pub kind_tag : MaterializationKind → ℕ
kind_tag MaterializationKind.discovery_only = 0
kind_tag MaterializationKind.exact_prefix = 1
kind_tag MaterializationKind.request_only = 2
kind_tag MaterializationKind.semantic_span = 3
kind_tag MaterializationKind.segmented = 4

same_position : Option ℕ → Option ℕ → Bool
same_position none none = true
same_position (some a) (some b) = a == b
same_position _ _ = false

same_pieces : List LoadPiece → List LoadPiece → Bool
same_pieces [] [] = true
same_pieces (p ∷ ps) (q ∷ qs) =
    str_eq p.donor_id q.donor_id
    && p.donor_start == q.donor_start
    && p.target_start == q.target_start
    && p.token_count == q.token_count
    && same_pieces ps qs
same_pieces _ _ = false

-- `previous == plan`
unfoldable pub same_plan : LoadPlan → LoadPlan → Bool
unfolding same_position same_pieces
same_plan p q =
    str_eq p.donor_id q.donor_id
    && p.token_count == q.token_count
    && kind_tag p.materialization_kind == kind_tag q.materialization_kind
    && str_eq p.namespace q.namespace
    && p.boundary == q.boundary
    && same_position p.donor_start q.donor_start
    && same_position p.target_start q.target_start
    && same_pieces p.pieces q.pieces

abbrev pub advertised_counter : MaterializationKind → String
advertised_counter MaterializationKind.discovery_only = "discovery_only_loads_advertised_total"
advertised_counter MaterializationKind.exact_prefix = "exact_prefix_loads_advertised_total"
advertised_counter MaterializationKind.request_only = "request_only_loads_advertised_total"
advertised_counter MaterializationKind.semantic_span = "semantic_span_loads_advertised_total"
advertised_counter MaterializationKind.segmented = "segmented_loads_advertised_total"

-- Whether the plan is new or different, and its count.
compared : Option LoadPlan → LoadPlan → Scheduler → Bool × Scheduler
compared none plan s = (true, note (count (advertised_counter plan.materialization_kind)) s)
compared (some previous) plan s =
    if same_plan previous plan
    then (false, s)
    else (true, note (count "load_plan_revised_per_attempt") s)

unfoldable pub record_load_plan : String → LoadPlan → Scheduler → Bool × Scheduler
unfolding compared same_plan
record_load_plan request_id plan s =
    compared (get request_id s.load_plans) plan
      (record s { load_plans = put request_id plan s.load_plans })
