-- ===== src/Capture/Extent.antt =====
-- How far `_advance_capture` stores: bounds, block edges, progress and when it is the last store.
use semblend_vllm_connector.Prelude.{
  ℕ, ◌+◌, ◌*◌, ◌≤◌, ◌<◌, min, ◌≡◌, refl, ◌⊎◌, inl, inr, String, true, false, Option, none, some,
  arith, Bool-cases, leb, get, length, IsAligned, get-put_self, get-remove_self, round_down,
  round_down-le, round_down-IsAligned, min-IsAligned,
}
use semblend_vllm_connector.Types.{PendingStore}
use semblend_vllm_connector.Scheduler.{CaptureState, Scheduler, Engine}
use semblend_vllm_connector.Plan.{cacheable_prefix_tokens}
use semblend_vllm_connector.Plan.Sound.{cacheable_prefix_tokens_bounds}
use semblend_vllm_connector.Capture.{
  head_blocks, capture_end, store_to, keep_capture, note_capture_skipped, advance_capture,
}

module _ (e : Engine) (request_id : String) (state : CaptureState) (computed : ℕ)
    (s : Scheduler) where
  -- What a call leaves: a store that reaches further than the capture did, up to a block edge of the
  -- prompt that the forward pass has computed and the table has blocks for; or no store, with the
  -- capture where it was, or given up.
  abbrev pub IsAdvanced : Option PendingStore × Scheduler → Type 0
  IsAdvanced (none, s') =
      ((get request_id s'.capture_state ≡ some state)
        × (capture_end e state computed ≤ state.captured_end))
      ⊎ ((get request_id s'.capture_state ≡ none)
          × (cacheable_prefix_tokens (length state.token_ids) e.block_size ≡ 0)
          × ((reason : String) × (get request_id s'.capture_skipped_reasons ≡ some reason)))
  IsAdvanced (some store, s') =
      (state.captured_end < store.token_count)
      × (store.token_count ≤ computed)
      × (store.token_count ≤ head_blocks state.block_ids * e.block_size)
      × (store.token_count + 2 ≤ length state.token_ids)
      × IsAligned e.block_size store.token_count
      × (store.block_ids ≡ some state.block_ids)
      × (store.token_ids ≡ state.token_ids)
      × (get request_id s'.captures_opened ≡ some state.namespace)
      × (get request_id s'.capture_skipped_reasons ≡ none)
      × (((store.final ≡ true)
            × (get request_id s'.capture_state ≡ none)
            × (store.token_count ≡ cacheable_prefix_tokens (length state.token_ids) e.block_size))
          ⊎ ((store.final ≡ false)
              × (get request_id s'.capture_state
                  ≡ some (record state { captured_end = store.token_count }))
              × (store.token_count
                  < cacheable_prefix_tokens (length state.token_ids) e.block_size)))

  abbrev cap : ℕ
  cap = cacheable_prefix_tokens (length state.token_ids) e.block_size

  capture_end-le :
      (capture_end e state computed ≤ cap)
      × (capture_end e state computed ≤ head_blocks state.block_ids * e.block_size)
      × (capture_end e state computed ≤ computed)
  unfolding capture_end
  capture_end-le = (omega arith, omega arith, omega (arith, round_down-le computed e.block_size))

  capture_end-IsAligned : 0 < e.block_size → IsAligned e.block_size (capture_end e state computed)
  unfolding capture_end
  capture_end-IsAligned block_pos =
      min-IsAligned e.block_size (min cap (head_blocks state.block_ids * e.block_size))
        (round_down computed e.block_size)
        (min-IsAligned e.block_size cap (head_blocks state.block_ids * e.block_size)
          (cacheable_prefix_tokens_bounds (length state.token_ids) e.block_size block_pos).0
          (grind arith))
        (round_down-IsAligned computed e.block_size block_pos)

  declined-IsAdvanced :
      leb cap 0 ≡ true → IsAdvanced (advance_capture e request_id state computed s)
  unfolding advance_capture note_capture_skipped
  declined-IsAdvanced small = rw small (
      inr (
        get-remove_self request_id s.capture_state,
        ground arith,
        ("prompt_below_one_block", get-put_self request_id _ s.capture_skipped_reasons),
      ))

  waiting-IsAdvanced :
      leb cap 0 ≡ false
      → leb (capture_end e state computed) state.captured_end ≡ true
      → IsAdvanced (advance_capture e request_id state computed s)
  unfolding advance_capture
  waiting-IsAdvanced large behind =
      rw (large, behind) (inl (get-put_self request_id state s.capture_state, ground arith))

  final-IsAdvanced :
      0 < e.block_size
      → leb cap 0 ≡ false
      → leb (capture_end e state computed) state.captured_end ≡ false
      → leb cap (capture_end e state computed) ≡ true
      → IsAdvanced (advance_capture e request_id state computed s)
  unfolding advance_capture keep_capture store_to
  final-IsAdvanced block_pos large ahead full =
      rw (large, ahead, full)
        (
          ground arith,
          capture_end-le.2,
          capture_end-le.1,
          ground (
            arith,
            capture_end-le.0,
            (cacheable_prefix_tokens_bounds (length state.token_ids) e.block_size block_pos).1,
          ),
          capture_end-IsAligned block_pos,
          refl,
          refl,
          get-put_self request_id state.namespace s.captures_opened,
          get-remove_self request_id s.capture_skipped_reasons,
          inl (refl, get-remove_self request_id s.capture_state, ground (arith, capture_end-le.0)),
        )

  open-IsAdvanced :
      0 < e.block_size
      → leb cap 0 ≡ false
      → leb (capture_end e state computed) state.captured_end ≡ false
      → leb cap (capture_end e state computed) ≡ false
      → IsAdvanced (advance_capture e request_id state computed s)
  unfolding advance_capture keep_capture store_to
  open-IsAdvanced block_pos large ahead short =
      rw (large, ahead, short)
        (
          ground arith,
          capture_end-le.2,
          capture_end-le.1,
          ground (
            arith,
            capture_end-le.0,
            (cacheable_prefix_tokens_bounds (length state.token_ids) e.block_size block_pos).1,
          ),
          capture_end-IsAligned block_pos,
          refl,
          refl,
          get-put_self request_id state.namespace s.captures_opened,
          get-remove_self request_id s.capture_skipped_reasons,
          inr (refl, get-put_self request_id _ s.capture_state, ground arith),
        )

  -- A store reaches further than the capture did. It ends on a block edge, at or before what the
  -- forward pass has computed and within the blocks of the table, and leaves two prompt tokens or
  -- more; it is final, and the capture closed, exactly when it ends at the prompt's cacheable prefix.
  -- Without a store the capture is kept where it was, nothing new being complete, or the prompt has
  -- no cacheable block, the capture is gone and the reason is on record.
  pub advance_capture-IsAdvanced :
      0 < e.block_size → IsAdvanced (advance_capture e request_id state computed s)
  advance_capture-IsAdvanced block_pos = elim (Bool-cases (leb cap 0)) [
    | inl small ↦ declined-IsAdvanced small
    | inr large ↦ elim (Bool-cases (leb (capture_end e state computed) state.captured_end)) [
      | inl behind ↦ waiting-IsAdvanced large behind
      | inr ahead ↦ elim (Bool-cases (leb cap (capture_end e state computed))) [
        | inl full ↦ final-IsAdvanced block_pos large ahead full
        | inr short ↦ open-IsAdvanced block_pos large ahead short
      ]
    ]
  ]
