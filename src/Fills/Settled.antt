-- ===== src/Fills/Settled.antt =====
-- The blocks that a scan skips, because it starts at `scan_from`.
use semblend_vllm_connector.Prelude.{
  ℕ, zero, suc, ◌+◌, ◌-◌, ◌≤◌, max, ◌≡◌, refl, sym, ap, subst, ◌∙◌, inl, inr, true, false, ◌||◌,
  List, [], ◌∷◌, arith, drop, Bool-cases,
}
use semblend_vllm_connector.Scheduler.{FilledBlocks}
use semblend_vllm_connector.Fills.{member, union, scan_start, head_group, advance, settle}
use semblend_vllm_connector.Fills.Evict.{occurs}
use semblend_vllm_connector.Fills.Scan.{member-union}

-- Whatever of the fill is not settled stands at or after the scan's start.
abbrev pub IsScanned : FilledBlocks → Type 0
IsScanned state =
    (block : ℕ)
    → occurs state.first_approx_block block state.block_ids ≡ true
    → member block state.settled ≡ false
    → occurs (scan_start state) block state.block_ids ≡ true

le-advance : (cursor : ℕ) (xs settled : List ℕ) → cursor ≤ advance cursor xs settled
unfolding advance
le-advance cursor [] settled = omega arith
le-advance cursor (x ∷ xs) settled = ground (arith, le-advance (suc cursor) xs settled)

suc_add : (n m : ℕ) → suc (n + m) ≡ suc n + m
suc_add n m = omega arith

drop-nil : (m : ℕ) → drop {A = ℕ} m [] ≡ []
drop-nil zero = refl
drop-nil (suc m) = refl

drop-drop : (m n : ℕ) (xs : List ℕ) → drop m (drop n xs) ≡ drop (n + m) xs
drop-drop m zero xs = ap (λ k. drop k xs) (omega arith)
drop-drop m (suc n) [] = drop-nil m ∙ sym (drop-nil (suc n + m))
drop-drop m (suc n) (x ∷ xs) = drop-drop m n xs ∙ ap (λ k. drop k (x ∷ xs)) (suc_add n m)

suc_sub : (c n : ℕ) → suc c ≤ n → n - c ≡ suc (n - suc c)
suc_sub c n h = omega arith

sub_self : (c : ℕ) → c - c ≡ 0
sub_self c = omega arith

other :
    (block x : ℕ) (xs settled : List ℕ)
    → member block (x ∷ xs) ≡ true
    → member block settled ≡ false
    → member x settled ≡ true
    → member block xs ≡ true
other block x xs settled h k there = grind arith

-- A block that is not settled is not passed over.
member-advance :
    (block cursor : ℕ) (xs settled : List ℕ)
    → member block xs ≡ true
    → member block settled ≡ false
    → member block (drop (advance cursor xs settled - cursor) xs) ≡ true
unfolding advance
member-advance block cursor [] settled h k = ground arith
member-advance block cursor (x ∷ xs) settled h k = elim (Bool-cases (member x settled)) [
  | inl settled_x ↦ rw settled_x (
      subst (λ n. member block (drop n (x ∷ xs)) ≡ true)
        (sym
          (suc_sub cursor (advance (suc cursor) xs settled) (le-advance (suc cursor) xs settled)))
        (member-advance block (suc cursor) xs settled (other block x xs settled h k settled_x) k))
  | inr unsettled ↦
      rw unsettled (subst (λ n. member block (drop n (x ∷ xs)) ≡ true) (sym (sub_self cursor)) h)
]

reach :
    (first from cursor : ℕ)
    → first ≤ from
    → from ≤ cursor
    → from + (cursor - from) ≡ max first cursor
reach first from cursor h k = omega arith

-- The same of a scan that starts at `from`, in a table of one group.
next_scan :
    (first from block : ℕ) (group settled : List ℕ)
    → first ≤ from
    → (member block (drop from group) || false) ≡ true
    → member block settled ≡ false
    → (member block (drop (max first (advance from (drop from group) settled)) group) || false)
      ≡ true
next_scan first from block group settled le here unsettled =
    let cursor = advance from (drop from group) settled in
    let passed = member-advance block from (drop from group) settled (ground arith) unsettled in
    subst (λ n. (member block (drop n group) || false) ≡ true)
      (reach first from cursor le (le-advance from (drop from group) settled))
      (subst (λ xs. (member block xs || false) ≡ true) (drop-drop (cursor - from) from group)
        (ground (arith, passed)))

module _ (state : FilledBlocks) (handled : List ℕ) (group : List ℕ)
    (single : state.block_ids ≡ group ∷ []) where
  -- A pass over a table of one group keeps it true that every block of the fill, from its first
  -- approximate block on, is settled or stands at or after the start of the next scan.
  pub settle-IsScanned : IsScanned state → IsScanned (settle state handled)
  unfolding settle
  settle-IsScanned scanned block there unsettled =
      let settled' = union handled state.settled in
      subst
        (λ ids.
          occurs (scan_start state) block ids ≡ true
          → occurs
              (max state.first_approx_block
                (advance (scan_start state) (drop (scan_start state) (head_group ids)) settled'))
              block ids
            ≡ true)
        (sym single)
        (λ here.
          next_scan state.first_approx_block (scan_start state) block group settled' (omega arith)
            here unsettled)
        (scanned block there (ground (arith, member-union block handled state.settled, unsettled)))
