-- ===== src/Load/Placed.antt =====
-- What one slot of a layer's cache holds after the rows of a window are written.
use semblend_vllm_connector.Prelude.{
  ℕ, zero, suc, ◌+◌, ◌≡◌, ◌⊎◌, refl, sym, ap, ◌∙◌, inl, inr, Bool, true, false, Option, none, some,
  List, [], ◌∷◌, arith, get_elem?, take, drop, length, Bool-cases, ◌==◌, some-eq-some,
  if-eq_of_true, if-eq_of_false, if◌then◌else◌,
}
use semblend_vllm_connector.Types.{MaterializationKind, PendingLoad}
use semblend_vllm_connector.Fills.{member}
use semblend_vllm_connector.Slots.Address.{get_elem?-drop}
use semblend_vllm_connector.Writer.{Row, HostKv}
use semblend_vllm_connector.Worker.{WorkerEngine}
use semblend_vllm_connector.Load.{or_zero, is_mla, slice, write_rows, repeated, rotated, rows_for}

abbrev pub IsSpanLoad : PendingLoad → Type 0
IsSpanLoad load = load.materialization_kind ≡ MaterializationKind.semantic_span

-- The value for the window's token `i`, from the donor's copy `src`: for a span the donor's row at that
-- token, rotated from the donor's start to the target's; for any other load the donor's row itself, or,
-- in an MLA layer whose cut of the donor is a single row, that row.
abbrev pub IsRowFor : WorkerEngine → PendingLoad → Option Bool → HostKv → ℕ → Row → Type 0
IsRowFor e load metadata src i value =
    (IsSpanLoad load
      × (is_mla metadata ≡ false)
      × (e.rope_known ≡ true)
      × (from : ℕ) × (to : ℕ) × (row : Row) × (load.donor_start ≡ some from)
      × (load.target_start ≡ some to)
      × (get_elem? src (from + i) ≡ some row)
      × (value ≡ e.rotate from to row))
    ⊎ ((IsSpanLoad load → ⊥) × (get_elem? src (or_zero load.donor_start + i) ≡ some value))
    ⊎ ((IsSpanLoad load → ⊥)
        × (metadata ≡ some true)
        × (length (slice (or_zero load.donor_start) load.token_count src) ≡ 1)
        × (get_elem? src (or_zero load.donor_start) ≡ some value))

-- What a slot holds: the value for a token of the window that has this slot, or, outside the window's
-- slots, what it held.
abbrev pub IsSlotOf :
    WorkerEngine → PendingLoad → Option Bool → HostKv → List ℕ → ℕ → Row → Row → Type 0
IsSlotOf e load metadata src slots slot old value =
    ((i : ℕ) × (get_elem? slots i ≡ some slot) × IsRowFor e load metadata src i value)
    ⊎ ((member slot slots ≡ false) × (value ≡ old))

pub write_rows-at :
    (slots : List ℕ) (rows : List Row) (cache : ℕ → Row) (slot : ℕ)
    → length rows ≡ length slots
    → ((i : ℕ) × (get_elem? slots i ≡ some slot)
        × (get_elem? rows i ≡ some (write_rows slots rows cache slot)))
      ⊎ ((member slot slots ≡ false) × (write_rows slots rows cache slot ≡ cache slot))
unfolding write_rows
write_rows-at [] rows cache slot h = inr (refl, refl)
write_rows-at (s ∷ slots) [] cache slot h = absurd (omega (arith, h))
write_rows-at (s ∷ slots) (row ∷ rows) cache slot h =
    elim (write_rows-at slots rows (λ t. if s == t then row else cache t) slot (omega (arith, h))) [
      | inl (i, at, held) ↦ inl (suc i, at, held)
      | inr (out, same) ↦ elim (Bool-cases (s == slot)) [
        | inl hit ↦ inl (
          zero,
          ap some (ground (arith, hit)),
          ap some (sym (same ∙ if-eq_of_true (s == slot) row (cache slot) hit)),
        )
        | inr other ↦
            inr
              (ground (arith, out, other), same ∙ if-eq_of_false (s == slot) row (cache slot) other)
      ]
    ]

get_elem?-of_take :
    (n : ℕ) (xs : HostKv) (i : ℕ) (x : Row)
    → get_elem? (take n xs) i ≡ some x
    → get_elem? xs i ≡ some x
get_elem?-of_take zero xs i x h = cc
get_elem?-of_take (suc n) [] i x h = cc
get_elem?-of_take (suc n) (y ∷ xs) zero x h = h
get_elem?-of_take (suc n) (y ∷ xs) (suc i) x h = get_elem?-of_take n xs i x h

pub get_elem?-slice :
    (start count : ℕ) (src : HostKv) (i : ℕ) (x : Row)
    → get_elem? (slice start count src) i ≡ some x
    → get_elem? src (start + i) ≡ some x
get_elem?-slice start count src i x h =
    sym (get_elem?-drop start src i) ∙ get_elem?-of_take count (drop start src) i x h

pub get_elem?-rotated :
    (rotate : Row → Row) (rows : HostKv) (i : ℕ) (x : Row)
    → get_elem? (rotated rotate rows) i ≡ some x
    → (row : Row) × (get_elem? rows i ≡ some row) × (x ≡ rotate row)
unfolding rotated
get_elem?-rotated rotate [] i x h = cc
get_elem?-rotated rotate (row ∷ rows) zero x h = (row, refl, sym (some-eq-some h))
get_elem?-rotated rotate (row ∷ rows) (suc i) x h = get_elem?-rotated rotate rows i x h

pub length-rotated :
    (rotate : Row → Row) (rows : HostKv) → length (rotated rotate rows) ≡ length rows
unfolding rotated
length-rotated rotate [] = refl
length-rotated rotate (row ∷ rows) = ap suc (length-rotated rotate rows)

get_elem?-repeated :
    (n : ℕ) (row : Row) (i : ℕ) (x : Row) → get_elem? (repeated n row) i ≡ some x → x ≡ row
unfolding repeated
get_elem?-repeated zero row i x h = cc
get_elem?-repeated (suc n) row zero x h = sym (some-eq-some h)
get_elem?-repeated (suc n) row (suc i) x h = get_elem?-repeated n row i x h

length-repeated : (n : ℕ) (row : Row) → length (repeated n row) ≡ n
unfolding repeated
length-repeated zero row = refl
length-repeated (suc n) row = ap suc (length-repeated n row)

-- The rows fitted to the slots are the window's rows, or an MLA layer's single row.
pub get_elem?-rows_for :
    (metadata : Option Bool) (n : ℕ) (rows : List Row) (i : ℕ) (x : Row)
    → get_elem? (rows_for metadata n rows) i ≡ some x
    → (get_elem? rows i ≡ some x)
      ⊎ ((metadata ≡ some true) × (length rows ≡ 1) × (get_elem? rows 0 ≡ some x))
unfolding rows_for
get_elem?-rows_for none n rows i x h = inl h
get_elem?-rows_for (some false) n rows i x h = inl h
get_elem?-rows_for (some true) n [] i x h = inl h
get_elem?-rows_for (some true) n (row ∷ []) i x h =
    inr (refl, refl, ap some (sym (get_elem?-repeated n row i x h)))
get_elem?-rows_for (some true) n (row ∷ next ∷ rows) i x h = inl h

-- Only other rows than the window's own can fail to fit where those fit.
pub length-rows_for :
    (metadata : Option Bool) (n : ℕ) (rows : List Row)
    → length rows ≡ n
    → length (rows_for metadata n rows) ≡ n
unfolding rows_for
length-rows_for none n rows h = h
length-rows_for (some false) n rows h = h
length-rows_for (some true) n [] h = h
length-rows_for (some true) n (row ∷ []) h = length-repeated n row
length-rows_for (some true) n (row ∷ next ∷ rows) h = h
