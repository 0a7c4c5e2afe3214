-- ===== src/Save/Captured.antt =====
-- What a call of `_capture_layer` hands to the writer and remembers.
use semblend_vllm_connector.Prelude.{
  ℕ, suc, contains, sym, length-append, ◌+◌, ◌-◌, ◌<◌, ◌≤◌, ◌≡◌, ◌⊎◌, refl, ap, subst, ◌∙◌, inl,
  inr, String, Bool, false, ◌||◌, Option, none, some, List, [], ◌∷◌, ◌++◌, arith, Dict, get, put,
  get-put_self, if◌then◌else◌, ltb, leb, ◌==◌, length, Keeps-if, Keeps-if_eq, if-eq_of_false,
}
use semblend_vllm_connector.Types.{PendingStore}
use semblend_vllm_connector.Journal.{Journal, count}
use semblend_vllm_connector.Slots.{SlotMapping, slot_mapping}
use semblend_vllm_connector.Slots.Address.{slot_mapping-IsMapping, IsMapping}
use semblend_vllm_connector.Writer.{Row, HostKv}
use semblend_vllm_connector.Worker.{AttnMetadata, Worker, WorkerEngine, note}
use semblend_vllm_connector.Load.{is_mla}
use semblend_vllm_connector.Staging.{
  or_nil, progress_of, captured_layer, note_capture_base_missing, submit_captured_layer,
  submit_write, layer_job, staged_layer, staged_under,
}
use semblend_vllm_connector.Save.{
  Call, gathered, capture_from, capture_onto, own_metadata, capture_layer,
}
use semblend_vllm_connector.Save.Base.{
  start_of, IsHeldCopy, IsBase, HoldsProgress, read_base, captured_layer-some, captured_layer-none,
}

-- The capture's own state is what it was.
abbrev pub IsUntouched : Worker → Worker → Type 0
IsUntouched w u =
    (u.queue ≡ w.queue)
    × (u.capture_progress ≡ w.capture_progress)
    × (u.inflight_layers ≡ w.inflight_layers)

abbrev pub IsCaptured :
    WorkerEngine → PendingStore → List (List ℕ) → String → Worker → Call → Type 0
IsCaptured e store blocks layer w (Call.raises u) = IsUntouched w u
IsCaptured e store blocks layer w (Call.returns u) =
    ((store.token_count ≤ start_of store layer w) × IsUntouched w u)
    ⊎ ((from : ℕ) × (base : HostKv) × (slots : List ℕ) × IsBase e store layer w from base
        × (from < store.token_count)
        × (length (base ++ gathered (w.kv_caches layer) slots) ≡ store.token_count)
        × (slot_mapping e.block_size blocks (store.token_count - from) from
            ≡ SlotMapping.slots slots)
        × (u.queue
            ≡ w.queue
              ++ layer_job store layer (base ++ gathered (w.kv_caches layer) slots)
                  store.token_count
                ∷ [])
        × (get layer (progress_of store.request_id u) ≡ some store.token_count)
        × (staged_layer (e.storage_key store.request_id store.namespace) layer u
            ≡ some (base ++ gathered (w.kv_caches layer) slots)))

mapped-length :
    (bs : ℕ) (blocks : List (List ℕ)) (n t : ℕ) (slots : List ℕ)
    → 0 < bs
    → slot_mapping bs blocks n t ≡ SlotMapping.slots slots
    → length slots ≡ n
mapped-length bs blocks n t slots pos e =
    (subst (IsMapping bs pos blocks n t) e (slot_mapping-IsMapping bs pos blocks n t)).2

-- An entry of a nested dictionary, just written.
nested-put {ℓ} :
    {V : Type ℓ} (k j : String) (v : V) (inner : Dict V) (d : Dict (Dict V))
    → get j (or_nil (get k (put k (put j v inner) d))) ≡ some v
nested-put k j v inner d =
    ap (λ o. get j (or_nil o)) (get-put_self k (put j v inner) d) ∙ get-put_self j v inner

length-gathered : (cache : ℕ → Row) (slots : List ℕ) → length (gathered cache slots) ≡ length slots
unfolding gathered
length-gathered cache [] = refl
length-gathered cache (slot ∷ slots) = ap suc (length-gathered cache slots)

module _ (e : WorkerEngine) (store : PendingStore) (blocks : List (List ℕ)) (layer : String)
    (metadata : Option Bool) (pos : 0 < e.block_size) (w : Worker) (runs : w.writer_closed ≡ false)
    (holds : HoldsProgress e store layer w) where
  stored_base :
      (base : HostKv)
      → (if ltb 0 (start_of store layer w) then captured_layer e store layer w else none)
        ≡ some base
      → (contains store.request_id w.capture_write_failed ≡ false) × IsHeldCopy e store layer w base
  stored_base base read =
      captured_layer-some e store layer w base (read_base (start_of store layer w) _ base read).1

  IsBase-length : (from : ℕ) (base : HostKv) → IsBase e store layer w from base → length base ≡ from
  IsBase-length from base (inl (at, past, sound, held)) =
      holds base (subst (λ n. 0 < n) at past) sound held ∙ sym at
  IsBase-length from base (inr (at, empty, why)) = ap length empty ∙ sym at

  -- The state with other journal entries.
  abbrev noting : Journal → Dict ℕ → Worker
  noting j noted = record w { journal = j; capture_base_missing_noted = noted }

  submit-queued :
      (j : Journal) (noted : Dict ℕ) (host : HostKv) (n : ℕ)
      → submit_captured_layer e store layer host n (noting j noted) ≡ record w {
        journal = j;
        capture_base_missing_noted = noted;
        queue = w.queue ++ layer_job store layer host n ∷ [];
        inflight_layers =
            put
              (e.storage_key store.request_id store.namespace)
              (put layer host (staged_under (e.storage_key store.request_id store.namespace) w))
              w.inflight_layers;
      }
  unfolding submit_captured_layer submit_write
  submit-queued j noted host n = if-eq_of_false w.writer_closed _ _ runs

  capture_mapped :
      (j : Journal) (noted : Dict ℕ) (from : ℕ) (base : HostKv) (m : SlotMapping)
      → slot_mapping e.block_size blocks (store.token_count - from) from ≡ m
      → IsBase e store layer w from base
      → from < store.token_count
      → IsCaptured e store blocks layer w
          (capture_from e store blocks layer metadata from base (noting j noted))
  unfolding capture_from
  capture_mapped j noted from base SlotMapping.multi_group_refused is at more =
      rw (is, capture_from) (refl, refl, refl)
  capture_mapped j noted from base SlotMapping.window_not_covered is at more =
      rw (is, capture_from) (refl, refl, refl)
  capture_mapped j noted from base (SlotMapping.slots slots) is at more =
      let host = base ++ gathered (w.kv_caches layer) slots in
      let whole : from + length slots ≡ store.token_count =
        omega
          (arith, mapped-length e.block_size blocks (store.token_count - from) from slots pos is) in
      let rows_long : length host ≡ store.token_count = omega (
        arith,
        length-append base (gathered (w.kv_caches layer) slots),
        length-gathered (w.kv_caches layer) slots,
        IsBase-length from base at,
        whole,
      ) in
      rw (is, capture_from)
        (Keeps-if (IsCaptured e store blocks layer w) (is_mla metadata || e.layout_accepted layer) _
          _
          (rw (submit-queued j noted host (from + length slots), whole)
            (inr (
              from,
              base,
              slots,
              at,
              more,
              rows_long,
              is,
              refl,
              nested-put _ _ _ _ w.capture_progress,
              nested-put _ _ _ _ w.inflight_layers,
            )))
          (refl, refl, refl))

  after_note :
      (P : Worker → Type 0) (f : Journal → Journal)
      → ((j : Journal) (noted : Dict ℕ) → P (noting j noted))
      → P (note_capture_base_missing store (note f w))
  unfolding note_capture_base_missing
  after_note P f each = split (get store.request_id w.capture_base_missing_noted) refl
    where
      split :
          (o : Option ℕ)
          → get store.request_id w.capture_base_missing_noted ≡ o
          → P (note_capture_base_missing store (note f w))
      split none is = rw (is, note_capture_base_missing) (each _ _)
      split (some n) is =
          rw (is, note_capture_base_missing)
            (Keeps-if P (n == store.token_count) _ _ (each _ _) (each _ _))

  capture_onto-IsCaptured :
      (o : Option HostKv)
      → start_of store layer w < store.token_count
      → (if ltb 0 (start_of store layer w) then captured_layer e store layer w else none) ≡ o
      → IsCaptured e store blocks layer w
          (capture_onto e store blocks layer metadata (start_of store layer w) o w)
  unfolding capture_onto
  capture_onto-IsCaptured (some base) more read =
      capture_mapped w.journal w.capture_base_missing_noted (start_of store layer w) base _ refl
        (inl (
          refl,
          (read_base (start_of store layer w) _ base read).0,
          (stored_base base read).0,
          (stored_base base read).1,
        ))
        more
  capture_onto-IsCaptured none more read =
      let P = λ (v : Worker).
        IsCaptured e store blocks layer w (capture_from e store blocks layer metadata 0 [] v) in
      Keeps-if P (ltb 0 (start_of store layer w)) _ w
        (after_note P (count "layer_capture_base_missing") (λ j noted.
          capture_mapped j noted 0 [] _ refl
            (inr (refl, refl, captured_layer-none e store layer w read)) (omega arith)))
        (capture_mapped w.journal w.capture_base_missing_noted 0 [] _ refl
          (inr (refl, refl, captured_layer-none e store layer w read)) (omega arith))

-- For a writer that is not closed, a block size above 0, and a layer whose held copy, staged or else
-- stored, has as many rows as its progress, where there is progress and no write of the request failed.
-- Either that progress has reached the store's end and nothing is done; or one job is queued behind the
-- others, staged and remembered as reaching that end, and its payload has a row for each token up to
-- there: the held copy, followed by the rows of the slots from the layer's progress on; or the rows of
-- the slots from 0 alone, and then the layer has no progress, a write of the request has failed, or no
-- copy is held; or an exception leaves queue, staging and progress alone.
pub capture_layer-IsCaptured :
    (e : WorkerEngine) (store : PendingStore) (blocks : List (List ℕ)) (layer : String)
    (attn : Option AttnMetadata) (w : Worker)
    → 0 < e.block_size
    → w.writer_closed ≡ false
    → HoldsProgress e store layer w
    → IsCaptured e store blocks layer w (capture_layer e store blocks layer attn w)
unfolding capture_layer
capture_layer-IsCaptured e store blocks layer attn w pos runs holds =
    Keeps-if_eq (IsCaptured e store blocks layer w) (leb store.token_count (start_of store layer w))
      _ _ (λ reached. inl (ground (arith, reached), (refl, refl, refl)))
      (λ more.
        capture_onto-IsCaptured e store blocks layer (own_metadata attn) pos w runs holds _
          (ground (arith, more)) refl)
