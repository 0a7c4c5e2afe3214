-- ===== src/Slots/Address.antt =====
-- Where the slots of a mapping point, and which windows are refused.
use semblend_vllm_connector.Prelude.{
  ℕ, zero, suc, ◌+◌, ◌-◌, ◌*◌, ◌/◌, ◌%◌, ◌≤◌, ◌<◌, ◌≡◌, ◌≢◌, refl, sym, ap, subst, ◌∙◌, inl, inr,
  min, leb, some, List, [], ◌∷◌, ◌++◌, arith, ltb, get_elem?, take, drop, length, Bool-cases,
  some-eq-some, length-append, length-drop,
}
use native.Mathlib.Nat.{mul_comm, mul-sub, mod-lt, div-add-mod'}
use semblend_vllm_connector.Slots.{
  range, slots_of, window_blocks, SlotMapping, slots, multi_group_refused, window_not_covered,
  slot_mapping,
}

min-le : (a b : ℕ) → a ≤ b → min a b ≡ a
min-le a b h = omega arith

min-ge : (a b : ℕ) → b < a → min a b ≡ b
min-ge a b h = omega arith

add-zero_left : (i : ℕ) → 0 + i ≡ i
add-zero_left i = omega arith

add-suc_left : (n i : ℕ) → suc n + i ≡ suc (n + i)
add-suc_left n i = omega arith

get_elem?-range :
    (start count i : ℕ) → i < count → get_elem? (range start count) i ≡ some (start + i)
unfolding range
get_elem?-range start zero i h = elim h [ ]
get_elem?-range start (suc count) zero h = ap some (omega arith)
get_elem?-range start (suc count) (suc i) h =
    get_elem?-range (suc start) count i (omega (arith, h)) ∙ ap some (omega arith)

length-range : (start count : ℕ) → length (range start count) ≡ count
unfolding range
length-range start zero = refl
length-range start (suc count) = ap suc (length-range (suc start) count)

module _ {ℓ} {A : Type ℓ} where
  get_elem?-append_left :
      (xs ys : List A) (i : ℕ) → i < length xs → get_elem? (xs ++ ys) i ≡ get_elem? xs i
  get_elem?-append_left [] ys i h = elim h [ ]
  get_elem?-append_left (x ∷ xs) ys zero h = refl
  get_elem?-append_left (x ∷ xs) ys (suc i) h = get_elem?-append_left xs ys i (omega (arith, h))

  get_elem?-append_right :
      (xs ys : List A) (i : ℕ) → get_elem? (xs ++ ys) (length xs + i) ≡ get_elem? ys i
  get_elem?-append_right [] ys i = ap (get_elem? ys) (add-zero_left i)
  get_elem?-append_right (x ∷ xs) ys i =
      ap (get_elem? (x ∷ (xs ++ ys))) (add-suc_left (length xs) i) ∙ get_elem?-append_right xs ys i

  pub get_elem?-drop :
      (n : ℕ) (xs : List A) (i : ℕ) → get_elem? (drop n xs) i ≡ get_elem? xs (n + i)
  get_elem?-drop zero xs i = ap (get_elem? xs) (sym (add-zero_left i))
  get_elem?-drop (suc n) [] i = refl
  get_elem?-drop (suc n) (x ∷ xs) i =
      get_elem?-drop n xs i ∙ ap (get_elem? (x ∷ xs)) (sym (add-suc_left n i))

  get_elem?-take : (n : ℕ) (xs : List A) (i : ℕ) → i < n → get_elem? (take n xs) i ≡ get_elem? xs i
  get_elem?-take zero xs i h = elim h [ ]
  get_elem?-take (suc n) [] i h = refl
  get_elem?-take (suc n) (x ∷ xs) zero h = refl
  get_elem?-take (suc n) (x ∷ xs) (suc i) h = get_elem?-take n xs i (omega (arith, h))

  length-take : (n : ℕ) (xs : List A) → length (take n xs) ≡ min n (length xs)
  length-take zero xs = omega arith
  length-take (suc n) [] = omega arith
  length-take (suc n) (x ∷ xs) = omega (arith, length-take n xs)

  get_elem?-within : (xs : List A) (i : ℕ) → i < length xs → (x : A) × (get_elem? xs i ≡ some x)
  get_elem?-within [] i h = elim h [ ]
  get_elem?-within (x ∷ xs) zero h = (x, refl)
  get_elem?-within (x ∷ xs) (suc i) h = get_elem?-within xs i (omega (arith, h))

module _ (bs : ℕ) (bs_pos : 0 < bs) where
  length-slots_of : (blocks : List ℕ) → length (slots_of bs blocks) ≡ length blocks * bs
  unfolding slots_of
  length-slots_of [] = grind arith
  length-slots_of (block ∷ rest) =
      length-append (range (block * bs) bs) (slots_of bs rest)
      ∙ grind (arith, length-range (block * bs) bs, length-slots_of rest)

  zero_block : (o : ℕ) → 0 * bs + o ≡ o
  zero_block o = grind arith

  next_block : (head k o : ℕ) → suc k * bs + o ≡ length (range (head * bs) bs) + (k * bs + o)
  next_block head k o = grind (arith, length-range (head * bs) bs)

  -- The slot at block index `k` and offset `o`.
  get_elem?-slots_of :
      (blocks : List ℕ) (k o block : ℕ)
      → get_elem? blocks k ≡ some block
      → o < bs
      → get_elem? (slots_of bs blocks) (k * bs + o) ≡ some (block * bs + o)
  unfolding slots_of
  get_elem?-slots_of [] k o block at h = grind (arith, at)
  get_elem?-slots_of (head ∷ rest) zero o block at h =
      ap (get_elem? (range (head * bs) bs ++ slots_of bs rest)) (zero_block o)
      ∙ (get_elem?-append_left (range (head * bs) bs) (slots_of bs rest) o
            (rw (length-range (head * bs) bs) h)
          ∙ get_elem?-range (head * bs) bs o h
          ∙ ap (λ b. some (b * bs + o)) (some-eq-some at))
  get_elem?-slots_of (head ∷ rest) (suc k) o block at h =
      ap (get_elem? (range (head * bs) bs ++ slots_of bs rest)) (next_block head k o)
      ∙ get_elem?-append_right (range (head * bs) bs) (slots_of bs rest) (k * bs + o)
      ∙ get_elem?-slots_of rest k o block at h

  -- The same by position: `start` blocks into the table, `offset` into the first of them.
  module _ (t n : ℕ) where
    start_le : t / bs * bs + t % bs ≡ t
    start_le = grind arith

    reaches : (end : ℕ) → t + n ≤ end * bs → n + t % bs ≤ (end - t / bs) * bs
    reaches end h = grind (
      arith,
      start_le,
      mul_comm (end - t / bs) bs,
      mul-sub bs end (t / bs),
      mul_comm bs end,
      mul_comm bs (t / bs),
    )

    later : (i : ℕ) → t / bs ≤ (t + i) / bs
    later i = grind arith

    place : (i : ℕ) → t % bs + i ≡ ((t + i) / bs - t / bs) * bs + (t + i) % bs
    place i = grind (
      arith,
      start_le,
      div-add-mod' (t + i) bs,
      mul_comm ((t + i) / bs - t / bs) bs,
      mul-sub bs ((t + i) / bs) (t / bs),
      mul_comm bs ((t + i) / bs),
      mul_comm bs (t / bs),
      later i,
    )

  times_sub : (k l : ℕ) → (k - l) * bs ≡ k * bs - l * bs
  times_sub k l = grind (arith, mul_comm (k - l) bs, mul-sub bs k l, mul_comm bs k, mul_comm bs l)

  reached : (n t : ℕ) → t + n ≤ (t + n + bs - 1) / bs * bs
  reached n t = grind arith

  le_times : (k l : ℕ) → k ≤ l → k * bs ≤ l * bs
  le_times k l h = grind arith

  lt_times : (k l : ℕ) → k < l → k * bs < l * bs
  lt_times k l h = grind arith

  tail_short : (n t len : ℕ) → (len - t / bs) * bs < n + t % bs → len * bs < t + n
  tail_short n t len short = elim (Bool-cases (leb (t / bs) len)) [
    | inl le ↦
        omega
          (arith, short, times_sub len (t / bs), start_le t n, le_times (t / bs) len (ground arith))
    | inr gt ↦ omega (arith, lt_times len (t / bs) (ground arith), start_le t n)
  ]

  uncovered_by :
      (n t count len : ℕ)
      → count ≡ min ((t + n + bs - 1) / bs - t / bs) (len - t / bs)
      → count * bs < n + t % bs
      → len * bs < t + n
  uncovered_by n t count len e short =
      let end = (t + n + bs - 1) / bs in
      elim (Bool-cases (leb (end - t / bs) (len - t / bs))) [
        | inl le ↦ omega (
          arith,
          reaches t n end (reached n t),
          subst (λ c. c * bs < n + t % bs) (e ∙ min-le (end - t / bs) (len - t / bs) (ground arith))
              short,
        )
        | inr gt ↦ tail_short n t len (
            subst (λ c. c * bs < n + t % bs)
              (e ∙ min-ge (end - t / bs) (len - t / bs) (ground arith)) short)
      ]

  lt_of_mul-lt : (k l : ℕ) → k * bs < l * bs → k < l
  lt_of_mul-lt k l h = grind arith

  module _ (group : List ℕ) (n t : ℕ) where
    -- A block index within the window's blocks is one of the table's.
    get_elem?-window :
        (k : ℕ)
        → k < length (window_blocks bs group n t)
        → get_elem? (window_blocks bs group n t) k ≡ get_elem? group (t / bs + k)
    unfolding window_blocks
    get_elem?-window k h =
        get_elem?-take ((t + n + bs - 1) / bs - t / bs) (drop (t / bs) group) k
          (omega (arith, h, length-take ((t + n + bs - 1) / bs - t / bs) (drop (t / bs) group)))
        ∙ get_elem?-drop (t / bs) group k

    abbrev pub Addressed : ℕ → List ℕ → Type 0
    Addressed i mapped =
        (block : ℕ) × (get_elem? group ((t + i) / bs) ≡ some block)
        × (get_elem? mapped i ≡ some (block * bs + (t + i) % bs))

    block_index : (i : ℕ) → (t + i) / bs ≡ t / bs + ((t + i) / bs - t / bs)
    block_index i = omega (arith, later t n i)

    index-lt :
        (i : ℕ)
        → i < n
        → n + t % bs ≤ length (window_blocks bs group n t) * bs
        → (t + i) / bs - t / bs < length (window_blocks bs group n t)
    index-lt i h enough =
        lt_of_mul-lt ((t + i) / bs - t / bs) (length (window_blocks bs group n t))
          (omega (arith, place t n i, h, enough))

    -- Enough blocks: token `i` of the window has its block and its slot.
    slot-Addressed :
        (i : ℕ)
        → i < n
        → n + t % bs ≤ length (window_blocks bs group n t) * bs
        → Addressed i (take n (drop (t % bs) (slots_of bs (window_blocks bs group n t))))
    slot-Addressed i h enough =
        let k = (t + i) / bs - t / bs in
        let (block, at) = get_elem?-within (window_blocks bs group n t) k (index-lt i h enough) in
        (
          block,
          ap (get_elem? group) (block_index i)
              ∙ sym (get_elem?-window k (index-lt i h enough))
              ∙ at,
          get_elem?-take n (drop (t % bs) (slots_of bs (window_blocks bs group n t))) i h
              ∙ get_elem?-drop (t % bs) (slots_of bs (window_blocks bs group n t)) i
              ∙ ap (get_elem? (slots_of bs (window_blocks bs group n t))) (place t n i)
              ∙ get_elem?-slots_of (window_blocks bs group n t) k ((t + i) % bs) block at
                  (mod-lt (t + i) bs_pos),
        )

    uncovered : length (window_blocks bs group n t) * bs < n + t % bs → length group * bs < t + n
    unfolding window_blocks
    uncovered short =
        uncovered_by n t (length (window_blocks bs group n t)) (length group)
          (length-take ((t + n + bs - 1) / bs - t / bs) (drop (t / bs) group)
            ∙ ap (min ((t + n + bs - 1) / bs - t / bs)) (length-drop (t / bs) group))
          short

    mapped-length :
        n + t % bs ≤ length (window_blocks bs group n t) * bs
        → length (take n (drop (t % bs) (slots_of bs (window_blocks bs group n t)))) ≡ n
    mapped-length enough = omega (
      arith,
      enough,
      length-take n (drop (t % bs) (slots_of bs (window_blocks bs group n t))),
      length-drop (t % bs) (slots_of bs (window_blocks bs group n t)),
      length-slots_of (window_blocks bs group n t),
    )

  -- What the answer means, for a table of one group; any other table is refused.
  abbrev pub IsMapping : List (List ℕ) → ℕ → ℕ → SlotMapping → Type 0
  IsMapping table n t (slots mapped) =
      (group : List ℕ) × (table ≡ group ∷ [])
      × (length mapped ≡ n)
      × ((i : ℕ) → i < n → Addressed group n t i mapped)
  IsMapping table n t window_not_covered =
      (group : List ℕ) × (table ≡ group ∷ []) × (length group * bs < t + n)
  IsMapping table n t multi_group_refused = length table ≢ 1

  -- For every block table, count and start: a mapping has one slot for each token of the window
  -- [target_start, target_start + token_count), and the slot of a token is its offset in the block
  -- that the table has at the token's block index; a window is called uncovered only where it ends
  -- after the table's last block; several groups (or none) are refused.
  pub slot_mapping-IsMapping :
      (table : List (List ℕ)) (n t : ℕ) → IsMapping table n t (slot_mapping bs table n t)
  unfolding slot_mapping
  slot_mapping-IsMapping [] n t = λ h. grind (arith, h)
  slot_mapping-IsMapping (group ∷ other ∷ rest) n t = λ h. grind (arith, h)
  slot_mapping-IsMapping (group ∷ []) n t =
      elim (Bool-cases (ltb (length (window_blocks bs group n t) * bs) (n + t % bs))) [
        | inl short ↦ rw short (group, refl, uncovered group n t (ground arith))
        | inr enough ↦ rw enough (
          group,
          refl,
          mapped-length group n t (ground arith),
          λ i h. slot-Addressed group n t i h (ground arith),
        )
      ]
