-- ===== src/Load/Written.antt =====
-- What a load makes of one layer: written, declined, refused or without a donor's copy.
use semblend_vllm_connector.Prelude.{
  ℕ, ◌≡◌, ◌≢◌, ◌⊎◌, refl, inl, inr, String, Bool, true, false, Option, none, some, List, ◌==◌,
  str_eq, length, Keeps-if_eq, ◌&&◌, ◌||◌, arith, eq_iff,
}
use semblend_vllm_connector.Types.{PendingLoad}
use semblend_vllm_connector.Slots.{SlotMapping, slot_mapping}
use semblend_vllm_connector.Writer.{Row, HostKv}
use semblend_vllm_connector.Worker.{MemoryEntry, AttnMetadata, Worker, WorkerEngine}
use semblend_vllm_connector.Load.{
  LayerOutcome, SpanSlice, layer_attn_metadata, layer_source, layer_rows, rows_for, write_rows,
  or_zero, inject_kv_into_layer, place_rows, note_missing, load_layer, is_mla, set_layer, slice,
}
use semblend_vllm_connector.Load.Placed.{IsSlotOf, write_rows-at, length-rows_for}
use semblend_vllm_connector.Load.Source.{
  files_of, IsCopy, IsGone, layer_source-IsCopy, layer_source-IsGone,
}
use semblend_vllm_connector.Load.Cut.{
  IsCut, IsDecline, layer_rows-IsCut, layer_rows-IsDecline, IsCut-length, fitted-IsRowFor,
}

module _ (e : WorkerEngine) (load : PendingLoad) (blocks : List (List ℕ))
    (entry : Option MemoryEntry) (attn : Option AttnMetadata) where
  abbrev window_of : SlotMapping
  window_of = slot_mapping e.block_size blocks load.token_count (or_zero load.target_start)

  -- The layer's new cache, slot by slot, from the donor's copy and the old cache.
  abbrev pub IsWritten : Worker → String → (ℕ → Row) → Type 0
  IsWritten w layer cache =
      (src : HostKv) × (slots : List ℕ) × IsCopy entry layer (files_of e load w) src
      × (window_of ≡ SlotMapping.slots slots)
      × ((slot : ℕ)
          → IsSlotOf e load (layer_attn_metadata attn layer) src slots slot (w.kv_caches layer slot)
              (cache slot))

  -- Why a layer cannot be written: its window is not in the block table, its layout is not known, or the
  -- rows cut of the donor's copy are not as many as the slots.
  abbrev IsMisfit : String → HostKv → Type 0
  IsMisfit layer src =
      (window_of ≡ SlotMapping.multi_group_refused)
      ⊎ (window_of ≡ SlotMapping.window_not_covered)
      ⊎ ((is_mla (layer_attn_metadata attn layer) ≡ false) × (e.layout_accepted layer ≡ false))
      ⊎ ((slots : List ℕ) × (window_of ≡ SlotMapping.slots slots)
          × (length (slice (or_zero load.donor_start) load.token_count src) ≢ length slots))

  abbrev pub IsRefused : Worker → String → Type 0
  IsRefused w layer =
      (src : HostKv) × IsCopy entry layer (files_of e load w) src × IsMisfit layer src

  abbrev pub IsDeclined : Worker → String → Type 0
  IsDeclined w layer =
      (src : HostKv) × IsCopy entry layer (files_of e load w) src
      × IsDecline e load (layer_attn_metadata attn layer) src

  -- What a layer's step leaves of the caches, by its outcome.
  abbrev Leaves : Worker → String → LayerOutcome → Worker → Type 0
  Leaves w layer LayerOutcome.written w' =
      IsWritten w layer (w'.kv_caches layer)
      × ((name : String) → str_eq layer name ≡ false → w'.kv_caches name ≡ w.kv_caches name)
  Leaves w layer LayerOutcome.gone w' =
      (w'.kv_caches ≡ w.kv_caches) × IsGone entry layer (files_of e load w)
  Leaves w layer LayerOutcome.refused w' = (w'.kv_caches ≡ w.kv_caches) × IsRefused w layer
  Leaves w layer (LayerOutcome.declined reason) w' =
      (w'.kv_caches ≡ w.kv_caches) × IsDeclined w layer

  abbrev pub IsLayerStep : Worker → String → LayerOutcome × Worker → Type 0
  IsLayerStep w layer (outcome, w') = (w'.disk ≡ w.disk) × Leaves w layer outcome w'

  -- A state before the write that differs from the loop's in its journal only.
  abbrev SameStore : Worker → Worker → Type 0
  SameStore w w' = (w'.disk ≡ w.disk) × (w'.kv_caches ≡ w.kv_caches)

  same_length : (a : Bool) (n m : ℕ) → (a && n == m) ≡ true → n ≡ m
  same_length a n m h = ground arith

  unfit :
      (mla accepted : Bool) (n m : ℕ)
      → ((mla || accepted) && n == m) ≡ false
      → ((mla ≡ false) × (accepted ≡ false)) ⊎ (n ≢ m)
  unfit mla accepted n m h = ground arith

  module _ (layer : String) (w w' : Worker) (src : HostKv) (same : SameStore w w')
      (found : IsCopy entry layer (files_of e load w) src) where
    abbrev metadata : Option Bool
    metadata = layer_attn_metadata attn layer

    written_slot :
        (rows : HostKv) (slots : List ℕ)
        → IsCut e load metadata src rows
        → length (rows_for metadata (length slots) rows) ≡ length slots
        → (slot : ℕ)
        → IsSlotOf e load metadata src slots slot
            (w.kv_caches layer slot)
            (write_rows slots (rows_for metadata (length slots) rows) (w.kv_caches layer) slot)
    written_slot rows slots cut fits slot =
        elim (write_rows-at slots (rows_for metadata (length slots) rows) (w.kv_caches layer) slot
          fits) [
            | inl (i, at, held) ↦
                inl (i, at, fitted-IsRowFor e load metadata src rows (length slots) i _ cut held)
            | inr other ↦ inr other
          ]

    misfit :
        (rows : HostKv) (slots : List ℕ)
        → IsCut e load metadata src rows
        → window_of ≡ SlotMapping.slots slots
        → ((is_mla metadata || e.layout_accepted layer)
            && length (rows_for metadata (length slots) rows) == length slots)
          ≡ false
        → IsMisfit layer src
    misfit rows slots cut mapped h =
        elim (unfit (is_mla metadata) (e.layout_accepted layer)
          (length (rows_for metadata (length slots) rows)) (length slots) h) [
            | inl unknown ↦ inr (inr (inl unknown))
            | inr uneven ↦ inr (
                inr (
                  inr (
                    slots,
                    mapped,
                    λ even. uneven (
                        length-rows_for metadata (length slots) rows
                          (IsCut-length e load metadata src rows (length slots) cut even)),
                  )))
          ]

    inject-IsLayerStep :
        (rows : HostKv) (slots : List ℕ)
        → IsCut e load metadata src rows
        → window_of ≡ SlotMapping.slots slots
        → IsLayerStep w layer (inject_kv_into_layer e layer rows slots metadata w')
    unfolding inject_kv_into_layer set_layer
    inject-IsLayerStep rows slots cut mapped =
        let fitted = rows_for metadata (length slots) rows in
        Keeps-if_eq (IsLayerStep w layer)
          ((is_mla metadata || e.layout_accepted layer) && length fitted == length slots)
          (LayerOutcome.written, set_layer layer (write_rows slots fitted (w'.kv_caches layer)) w')
          (LayerOutcome.refused, w')
          (λ fits. (
            same.0,
            (
              (
                src,
                slots,
                found,
                mapped,
                rw ((eq_iff layer layer).1 refl, same.1)
                    (written_slot rows slots cut (same_length _ _ _ fits)),
              ),
              λ name other. rw (other, same.1) refl,
            ),
          ))
          (λ h. (same.0, (same.1, (src, found, misfit rows slots cut mapped h))))

    place-IsLayerStep :
        (slice : SpanSlice)
        → layer_rows e src load metadata ≡ slice
        → IsLayerStep w layer (place_rows e load blocks layer metadata slice w')
    unfolding place_rows
    place-IsLayerStep (SpanSlice.decline counter) window =
        (same.0, (same.1, (src, found, layer_rows-IsDecline e load metadata src counter window)))
    place-IsLayerStep (SpanSlice.window rows) window = split window_of refl
      where
        split :
            (m : SlotMapping)
            → window_of ≡ m
            → IsLayerStep w layer
                (place_rows e load blocks layer metadata (SpanSlice.window rows) w')
        split (SlotMapping.slots mapped) is =
            rw (is, place_rows)
              (inject-IsLayerStep rows mapped (layer_rows-IsCut e load metadata src rows window) is)
        split SlotMapping.multi_group_refused is =
            rw (is, place_rows) (same.0, (same.1, (src, found, inl is)))
        split SlotMapping.window_not_covered is =
            rw (is, place_rows) (same.0, (same.1, (src, found, inr (inl is))))

  missing-SameStore : (layout : Option Bool) (w : Worker) → SameStore w (note_missing layout w)
  unfolding note_missing
  missing-SameStore none w = (refl, refl)
  missing-SameStore (some mla) w = (refl, refl)

  pub load_layer-IsLayerStep :
      (layer : String) (w : Worker)
      → IsLayerStep w layer (load_layer e load blocks entry attn layer w)
  unfolding load_layer
  load_layer-IsLayerStep layer w = split (layer_source e load entry layer w) refl
    where
      split :
          (source : Option HostKv)
          → layer_source e load entry layer w ≡ source
          → IsLayerStep w layer (load_layer e load blocks entry attn layer w)
      split none is =
          let (disk, same) = missing-SameStore (layer_attn_metadata attn layer) w in
          rw (is, load_layer) (disk, (same, layer_source-IsGone e load entry layer w is))
      split (some src) is =
          rw (is, load_layer)
            (place-IsLayerStep layer w (note_missing (layer_attn_metadata attn layer) w) src
              (missing-SameStore (layer_attn_metadata attn layer) w)
              (layer_source-IsCopy e load entry layer w src is)
              (layer_rows e src load (layer_attn_metadata attn layer)) refl)
