-- ===== src/Save/Base.antt =====
-- What the earlier chunks of a captured layer are read back from.
use semblend_vllm_connector.Prelude.{
  ℕ, contains, ◌<◌, ◌≡◌, ◌⊎◌, refl, inl, inr, String, Bool, true, false, Option, none, some, [],
  arith, get, if◌then◌else◌, ltb, length,
}
use semblend_vllm_connector.Types.{PendingStore}
use semblend_vllm_connector.Writer.{HostKv}
use semblend_vllm_connector.Worker.{Worker, WorkerEngine}
use semblend_vllm_connector.Staging.{
  progress_of, or_zero, captured_layer, staged_layer, stored_layer,
}

abbrev pub start_of : PendingStore → String → Worker → ℕ
start_of store layer w = or_zero (get layer (progress_of store.request_id w))

-- What the connector holds of a layer: its staged copy, or else its copy in the donor store.
abbrev pub IsHeldCopy : WorkerEngine → PendingStore → String → Worker → HostKv → Type 0
IsHeldCopy e store layer w base =
    let key = e.storage_key store.request_id store.namespace in
    (staged_layer key layer w ≡ some base)
    ⊎ ((staged_layer key layer w ≡ none) × (stored_layer e key layer w ≡ some base))

-- No copy of the layer's earlier chunks can be read: none was captured, a write of the request has
-- failed, or the layer is held in neither place.
abbrev pub NoBase : WorkerEngine → PendingStore → String → Worker → Type 0
NoBase e store layer w =
    let key = e.storage_key store.request_id store.namespace in
    (start_of store layer w ≡ 0)
    ⊎ (contains store.request_id w.capture_write_failed ≡ true)
    ⊎ ((staged_layer key layer w ≡ none) × (stored_layer e key layer w ≡ none))

-- What the window is appended to, and where it starts: the held copy of the earlier chunks, at the
-- layer's own progress, or nothing, at 0.
abbrev pub IsBase : WorkerEngine → PendingStore → String → Worker → ℕ → HostKv → Type 0
IsBase e store layer w from base =
    ((from ≡ start_of store layer w)
      × (0 < from)
      × (contains store.request_id w.capture_write_failed ≡ false)
      × IsHeldCopy e store layer w base)
    ⊎ ((from ≡ 0) × (base ≡ []) × NoBase e store layer w)

-- With some progress and no failed write, a held copy has as many rows as that progress.
abbrev pub HoldsProgress : WorkerEngine → PendingStore → String → Worker → Type 0
HoldsProgress e store layer w =
    (base : HostKv)
    → 0 < start_of store layer w
    → contains store.request_id w.capture_write_failed ≡ false
    → IsHeldCopy e store layer w base
    → length base ≡ start_of store layer w

pub read_base :
    (start : ℕ) (o : Option HostKv) (base : HostKv)
    → (if ltb 0 start then o else none) ≡ some base
    → (0 < start) × (o ≡ some base)
read_base start o base h = ground arith

read_none :
    (start : ℕ) (o : Option HostKv)
    → (if ltb 0 start then o else none) ≡ none
    → (start ≡ 0) ⊎ (o ≡ none)
read_none start o h = ground arith

read_failed :
    (failed : Bool) (o : Option HostKv) (base : HostKv)
    → (if failed then none else o) ≡ some base
    → (failed ≡ false) × (o ≡ some base)
read_failed failed o base h = ground arith

read_nothing :
    (failed : Bool) (o : Option HostKv)
    → (if failed then none else o) ≡ none
    → (failed ≡ true) ⊎ (o ≡ none)
read_nothing failed o h = ground arith

-- The first of two options.
abbrev first_of : Option HostKv → Option HostKv → Option HostKv
first_of o o' = elim o [ none ↦ o' | some staged ↦ some staged ]

first_of-some :
    (o o' : Option HostKv) (base : HostKv)
    → first_of o o' ≡ some base
    → (o ≡ some base) ⊎ ((o ≡ none) × (o' ≡ some base))
first_of-some none o' base h = inr (refl, h)
first_of-some (some staged) o' base h = inl h

first_of-none : (o o' : Option HostKv) → first_of o o' ≡ none → (o ≡ none) × (o' ≡ none)
first_of-none none o' h = (refl, h)
first_of-none (some staged) o' h = cc

pub captured_layer-some :
    (e : WorkerEngine) (store : PendingStore) (layer : String) (w : Worker) (base : HostKv)
    → captured_layer e store layer w ≡ some base
    → (contains store.request_id w.capture_write_failed ≡ false) × IsHeldCopy e store layer w base
unfolding captured_layer
captured_layer-some e store layer w base h =
    let (sound, held) = read_failed (contains store.request_id w.capture_write_failed) _ base h in
    (sound, first_of-some _ _ base held)

pub captured_layer-none :
    (e : WorkerEngine) (store : PendingStore) (layer : String) (w : Worker)
    → (if ltb 0 (start_of store layer w) then captured_layer e store layer w else none) ≡ none
    → NoBase e store layer w
unfolding captured_layer
captured_layer-none e store layer w h = elim (read_none (start_of store layer w) _ h) [
  | inl fresh ↦ inl fresh
  | inr unread ↦ elim (read_nothing (contains store.request_id w.capture_write_failed) _ unread) [
    | inl failed ↦ inr (inl failed)
    | inr absent ↦ inr (inr (first_of-none _ _ absent))
  ]
]
