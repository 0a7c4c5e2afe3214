-- ===== src/Load/Layers.antt =====
-- What a load leaves in the caches of all its layers.
use semblend_vllm_connector.Prelude.{
  ℕ, ◌≡◌, refl, ap, sym, subst, ◌∙◌, String, true, false, Option, List, [], ◌∷◌, str_eq, All, arith,
  contains, Bool-cases, inl, inr, eq_iff,
}
use semblend_vllm_connector.Types.{PendingLoad}
use semblend_vllm_connector.Worker.{donor_dir, MemoryEntry, AttnMetadata, Worker, WorkerEngine}
use semblend_vllm_connector.Load.{
  LayerOutcome, LayersRun, after_layer, load_layer, load_layers, layer_attn_metadata,
}
use semblend_vllm_connector.Load.Placed.{IsSlotOf}
use semblend_vllm_connector.Load.Source.{files_of, IsCopy, IsGone}
use semblend_vllm_connector.Load.Written.{
  IsWritten, IsRefused, IsDeclined, IsLayerStep, load_layer-IsLayerStep,
}

abbrev pub Distinct : List String → Type 0
Distinct [] = Unit
Distinct (layer ∷ rest) = (contains layer rest ≡ false) × Distinct rest

-- Each layer is in one of the two lists, in order.
pub data Split : List String → List String → List String → Type 0 where
  done : Split [] [] []
  left : {ls ms ds : List String} (l : String) → Split ls ms ds → Split (l ∷ ls) (l ∷ ms) ds
  right : {ls ms ds : List String} (l : String) → Split ls ms ds → Split (l ∷ ls) ms (l ∷ ds)

contains-others :
    (layer name : String) (rest : List String)
    → contains layer rest ≡ false
    → contains name rest ≡ true
    → str_eq layer name ≡ false
contains-others layer name rest absent there = elim (Bool-cases (str_eq layer name)) [
  | inl same ↦
      let e : layer ≡ name = (eq_iff layer name).0 same in
      cc (absent, there, ap (λ n. contains n rest) e)
  | inr other ↦ other
]

module _ (e : WorkerEngine) (load : PendingLoad) (blocks : List (List ℕ))
    (entry : Option MemoryEntry) (attn : Option AttnMetadata) where
  -- What is said of a layer by the donor's files holds of an earlier state with the same files.
  files-eq : (w v : Worker) → v.disk ≡ w.disk → files_of e load v ≡ files_of e load w
  unfolding donor_dir
  files-eq w v disk = λ i. files_of e load (record w { disk = disk i })

  pub IsWritten-earlier :
      (w v : Worker) (layer : String) (cache : ℕ → ℕ)
      → v.disk ≡ w.disk
      → v.kv_caches layer ≡ w.kv_caches layer
      → IsWritten e load blocks entry attn v layer cache
      → IsWritten e load blocks entry attn w layer cache
  IsWritten-earlier w v layer cache disk same (src, slots, found, mapped, holds) = (
    src,
    slots,
    subst (λ files. IsCopy entry layer files src) (files-eq w v disk) found,
    mapped,
    λ slot.
        subst
          (λ old.
            IsSlotOf e load (layer_attn_metadata attn layer) src slots slot (old slot) (cache slot))
          same (holds slot),
  )

  -- One of the layers has no copy of the donor's.
  abbrev pub SomeGone : Worker → List String → Type 0
  SomeGone w layers =
      (layer : String) × (contains layer layers ≡ true) × IsGone entry layer (files_of e load w)

  abbrev pub SomeRefused : Worker → List String → Type 0
  SomeRefused w layers =
      (layer : String) × (contains layer layers ≡ true) × IsRefused e load blocks entry attn w layer

  SomeGone-later :
      (w v : Worker) (layer : String) (rest : List String)
      → v.disk ≡ w.disk
      → SomeGone v rest
      → SomeGone w (layer ∷ rest)
  unfolding contains
  SomeGone-later w v layer rest disk (name, there, gone) =
      (name, ground (arith, there), subst (IsGone entry name) (files-eq w v disk) gone)

  SomeRefused-later :
      (w v : Worker) (layer : String) (rest : List String)
      → v.disk ≡ w.disk
      → SomeRefused v rest
      → SomeRefused w (layer ∷ rest)
  unfolding contains
  SomeRefused-later w v layer rest disk (name, there, (src, found, why)) = (
    name,
    ground (arith, there),
    (src, subst (λ files. IsCopy entry name files src) (files-eq w v disk) found, why),
  )

  pub All-IsDeclined :
      (w v : Worker) (ds : List String)
      → v.disk ≡ w.disk
      → All (IsDeclined e load blocks entry attn v) ds
      → All (IsDeclined e load blocks entry attn w) ds
  All-IsDeclined w v [] disk h = tt
  All-IsDeclined w v (layer ∷ ds) disk ((src, found, why), h) = (
    (src, subst (λ files. IsCopy entry layer files src) (files-eq w v disk) found, why),
    All-IsDeclined w v ds disk h,
  )

  abbrev pub IsRun : Worker → List String → LayersRun → Type 0
  IsRun w layers r =
      (r.worker.disk ≡ w.disk)
      × ((name : String)
          → contains name layers ≡ false
          → r.worker.kv_caches name ≡ w.kv_caches name)
      × All
          (λ layer.
            (contains layer layers ≡ true)
            × IsWritten e load blocks entry attn w layer (r.worker.kv_caches layer))
          r.materialized
      × (r.donor_gone ≡ false → r.raised ≡ false → Split layers r.materialized r.declined)
      × All (IsDeclined e load blocks entry attn w) r.declined
      × (r.donor_gone ≡ true → SomeGone w layers)
      × (r.raised ≡ true → SomeRefused w layers)

  All-later :
      (w v : Worker) (layer : String) (rest ms : List String) (caches : String → ℕ → ℕ)
      → v.disk ≡ w.disk
      → ((name : String) → str_eq layer name ≡ false → v.kv_caches name ≡ w.kv_caches name)
      → contains layer rest ≡ false
      → All (λ m. (contains m rest ≡ true) × IsWritten e load blocks entry attn v m (caches m)) ms
      → All
          (λ m.
            (contains m (layer ∷ rest) ≡ true) × IsWritten e load blocks entry attn w m (caches m))
          ms
  unfolding contains
  All-later w v layer rest [] caches disk same absent h = tt
  All-later w v layer rest (m ∷ ms) caches disk same absent h = (
    (
      ground (arith, h.0.0),
      IsWritten-earlier w v m (caches m) disk (same m (contains-others layer m rest absent h.0.0))
          h.0.1,
    ),
    All-later w v layer rest ms caches disk same absent h.1,
  )

  -- The caches of the names that are in no list stay.
  later_names :
      (layer name : String) (rest : List String)
      → contains name (layer ∷ rest) ≡ false
      → (str_eq layer name ≡ false) × (contains name rest ≡ false)
  unfolding contains
  later_names layer name rest h = (ground arith, ground arith)

  after_layer-IsRun :
      (w : Worker) (layer : String) (rest : List String) (run : Worker → LayersRun)
      (o : LayerOutcome) (v : Worker)
      → IsLayerStep e load blocks entry attn w layer (o, v)
      → contains layer rest ≡ false
      → IsRun v rest (run v)
      → IsRun w (layer ∷ rest) (after_layer layer run (o, v))
  unfolding contains
  after_layer-IsRun w layer rest run LayerOutcome.written v (disk, (here, same)) absent h = (
    h.0 ∙ disk,
    λ name out.
        h.1 name (later_names layer name rest out).1
        ∙ same name (later_names layer name rest out).0,
    (
      (
        ground (arith, eq_iff layer layer),
        subst (IsWritten e load blocks entry attn w layer) (sym (h.1 layer absent)) here,
      ),
      All-later w v layer rest (run v).materialized (run v).worker.kv_caches disk same absent h.2,
    ),
    λ kept calm. Split.left layer (h.3 kept calm),
    All-IsDeclined w v (run v).declined disk h.4,
    λ gone. SomeGone-later w v layer rest disk (h.5 gone),
    λ stops. SomeRefused-later w v layer rest disk (h.6 stops),
  )
  after_layer-IsRun w layer rest run LayerOutcome.gone v (disk, (same, gone)) absent h = (
    disk,
    λ name out. ap (λ c. c name) same,
    tt,
    λ kept calm. cc,
    tt,
    λ _. (layer, ground (arith, eq_iff layer layer), gone),
    λ stops. cc,
  )
  after_layer-IsRun w layer rest run LayerOutcome.refused v (disk, (same, refused)) absent h = (
    disk,
    λ name out. ap (λ c. c name) same,
    tt,
    λ kept calm. cc,
    tt,
    λ gone. cc,
    λ _. (layer, ground (arith, eq_iff layer layer), refused),
  )
  after_layer-IsRun w layer rest run (LayerOutcome.declined reason) v (disk, (same, why)) absent h =
      (
        h.0 ∙ disk,
        λ name out. h.1 name (later_names layer name rest out).1 ∙ ap (λ c. c name) same,
        All-later w v layer rest (run v).materialized (run v).worker.kv_caches disk
            (λ name other. ap (λ c. c name) same) absent h.2,
        λ kept calm. Split.right layer (h.3 kept calm),
        (why, All-IsDeclined w v (run v).declined disk h.4),
        λ gone. SomeGone-later w v layer rest disk (h.5 gone),
        λ stops. SomeRefused-later w v layer rest disk (h.6 stops),
      )

  pub load_layers-IsRun :
      (layers : List String) (w : Worker)
      → Distinct layers
      → IsRun w layers (load_layers e load blocks entry attn layers w)
  unfolding load_layers
  load_layers-IsRun [] w h =
      (refl, λ name out. refl, tt, λ kept calm. Split.done, tt, λ gone. cc, λ stops. cc)
  load_layers-IsRun (layer ∷ rest) w h =
      let (o, v) = load_layer e load blocks entry attn layer w in
      after_layer-IsRun w layer rest (load_layers e load blocks entry attn rest) o v
        (load_layer-IsLayerStep e load blocks entry attn layer w) h.0 (load_layers-IsRun rest v h.1)
