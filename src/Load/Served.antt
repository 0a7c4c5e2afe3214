-- ===== src/Load/Served.antt =====
-- How a load ends, and what it leaves in the paged KV cache.
use semblend_vllm_connector.Prelude.{
  ℕ, ◌≡◌, ◌≢◌, ◌⊎◌, refl, ap, sym, subst, String, Bool, true, false, Option, none, some, List, [],
  ◌∷◌, All, arith, contains, inl, inr, ◌||◌, ◌&&◌, Keeps-if_eq, Keeps-if, Bool-cases,
}
use semblend_vllm_connector.Types.{MaterializationKind, PendingLoad}
use semblend_vllm_connector.Fills.{member, union}
use semblend_vllm_connector.Fills.Scan.{member-union}
use semblend_vllm_connector.Slots.{destination_block_ids}
use semblend_vllm_connector.Worker.{donor_dir, AttnMetadata, Worker, WorkerEngine}
use semblend_vllm_connector.Load.{
  LayersRun, LoadOutcome, conclude, load_into, load_one, is_empty, is_span, entry_of, begin_load,
  hand_back, note_declines, note_gone,
}
use semblend_vllm_connector.Load.Placed.{IsSpanLoad}
use semblend_vllm_connector.Load.Written.{IsWritten, IsDeclined}
use semblend_vllm_connector.Load.Layers.{
  Distinct, Split, SomeGone, SomeRefused, All-IsDeclined, IsRun, IsWritten-earlier,
  load_layers-IsRun,
}

right_true : (a b : Bool) → (a && b) ≡ true → b ≡ true
right_true a b h = ground arith

left_true : (a b : Bool) → (a && b) ≡ true → a ≡ true
left_true a b h = ground arith

span_false_gone : (a b c : Bool) → (a && (b || c)) ≡ false → b ≡ true → a ≡ false
span_false_gone a b c h k = ground arith

span_false_empty : (a b c : Bool) → (a && (b || c)) ≡ false → c ≡ true → a ≡ false
span_false_empty a b c h k = ground arith

module _ (e : WorkerEngine) (attn : Option AttnMetadata) (layers : List String)
    (load : PendingLoad) where
  -- What the outcome of a load says of the state after it, against the state before it.
  abbrev pub IsServed : Worker → LoadOutcome × Worker → Type 0
  IsServed w (LoadOutcome.materialized ms, u) =
      (blocks : List (List ℕ)) × (ds : List String) × (load.block_ids ≡ some blocks)
      × (is_empty ms ≡ false)
      × Split layers ms ds
      × All (IsDeclined e load blocks (entry_of e load w) attn w) ds
      × All (λ layer. IsWritten e load blocks (entry_of e load w) attn w layer (u.kv_caches layer))
          ms
  IsServed w (LoadOutcome.handed_back, u) =
      (load.materialization_kind ≢ MaterializationKind.semantic_span)
      × ((blocks : List (List ℕ)) × (load.block_ids ≡ some blocks)
          × SomeGone e load blocks (entry_of e load w) attn w layers)
      × All (λ block. member block u.load_error_block_ids ≡ true)
          (destination_block_ids e.block_size load)
  IsServed w (LoadOutcome.no_layers, u) = layers ≡ []
  IsServed w (LoadOutcome.raised, u) =
      (load.block_ids ≡ none)
      ⊎ ((blocks : List (List ℕ)) × (load.block_ids ≡ some blocks)
          × ((IsSpanLoad load × SomeGone e load blocks (entry_of e load w) attn w layers)
              ⊎ (IsSpanLoad load × All (IsDeclined e load blocks (entry_of e load w) attn w) layers)
              ⊎ SomeRefused e load blocks (entry_of e load w) attn w layers))

  not_span : is_span load.materialization_kind ≡ false → IsSpanLoad load → ⊥
  not_span h k = cc (ap is_span k, h)

  is_span_load :
      (kind : MaterializationKind) → is_span kind ≡ true → kind ≡ MaterializationKind.semantic_span
  is_span_load MaterializationKind.semantic_span h = refl
  is_span_load MaterializationKind.discovery_only h = cc
  is_span_load MaterializationKind.exact_prefix h = cc
  is_span_load MaterializationKind.request_only h = cc
  is_span_load MaterializationKind.segmented h = cc

  Split-nil : (ls ms ds : List String) → ms ≡ [] → ds ≡ [] → Split ls ms ds → ls ≡ []
  Split-nil ls ms ds em ed Split.done = refl
  Split-nil ls ms ds em ed (Split.left l s) = cc
  Split-nil ls ms ds em ed (Split.right l s) = cc

  eq_nil_of_is_empty : (ms : List String) → is_empty ms ≡ true → ms ≡ []
  eq_nil_of_is_empty [] h = refl
  eq_nil_of_is_empty (m ∷ ms) h = cc

  -- The notes between the layers and the outcome leave the caches alone.
  kv_caches-noted :
      (gone : Bool) (r : LayersRun) (w : Worker)
      → (note_gone load gone (note_declines load r w)).kv_caches ≡ w.kv_caches
  unfolding note_gone note_declines
  kv_caches-noted true r w =
      Keeps-if {A = Worker} (λ v. v.kv_caches ≡ w.kv_caches) (is_empty r.declined) _ _ refl refl
  kv_caches-noted false r w =
      Keeps-if {A = Worker} (λ v. v.kv_caches ≡ w.kv_caches) (is_empty r.declined) _ _ refl refl

  member-failed :
      (block : ℕ) (failed old : List ℕ)
      → member block failed ≡ true
      → member block (union (union failed []) old) ≡ true
  member-failed block failed old h =
      ground (arith, member-union block (union failed []) old, member-union block failed [], h)

  All-member :
      (xs ys : List ℕ)
      → ((block : ℕ) → member block xs ≡ true → member block ys ≡ true)
      → All (λ block. member block ys ≡ true) xs
  All-member [] ys h = tt
  All-member (x ∷ xs) ys h =
      (h x (ground arith), All-member xs ys (λ block there. h block (ground (arith, there))))

  Split-right : (ls ms ds : List String) → ms ≡ [] → Split ls ms ds → ls ≡ ds
  Split-right ls ms ds em Split.done = refl
  Split-right ls ms ds em (Split.left l s) = cc
  Split-right ls ms ds em (Split.right l s) = ap (λ r. l ∷ r) (Split-right _ ms _ em s)

  -- Only a span load declines a layer.
  no_declines :
      (blocks : List (List ℕ)) (w : Worker) (ds : List String)
      → is_span load.materialization_kind ≡ false
      → All (IsDeclined e load blocks (entry_of e load w) attn w) ds
      → ds ≡ []
  no_declines blocks w [] h all = refl
  no_declines blocks w (layer ∷ ds) h ((src, found, why), all) = absurd (not_span h why.0)

  module _ (blocks : List (List ℕ)) (w : Worker) (placed : load.block_ids ≡ some blocks) where
    All-begun :
        (ms : List String) (caches caches' : String → ℕ → ℕ)
        → caches' ≡ caches
        → All
            (λ m.
              (contains m layers ≡ true)
              × IsWritten e load blocks (entry_of e load w) attn (begin_load e load w) m (caches m))
            ms
        → All (λ m. IsWritten e load blocks (entry_of e load w) attn w m (caches' m)) ms
    unfolding begin_load
    All-begun [] caches caches' same h = tt
    All-begun (m ∷ ms) caches caches' same h = (
      subst (λ c. IsWritten e load blocks (entry_of e load w) attn w m (c m)) (sym same)
          (IsWritten-earlier e load blocks (entry_of e load w) attn w (begin_load e load w) m
            (caches m) refl refl h.0.1),
      All-begun ms caches caches' same h.1,
    )

    abbrev Begun : LayersRun → Type 0
    Begun r = IsRun e load blocks (entry_of e load w) attn (begin_load e load w) layers r

    donor_gone-SomeGone :
        (r : LayersRun)
        → Begun r
        → r.donor_gone ≡ true
        → SomeGone e load blocks (entry_of e load w) attn w layers
    unfolding begin_load donor_dir
    donor_gone-SomeGone r h = h.5

    raised-SomeRefused :
        (r : LayersRun)
        → Begun r
        → r.raised ≡ true
        → SomeRefused e load blocks (entry_of e load w) attn w layers
    unfolding begin_load donor_dir
    raised-SomeRefused r h = h.6

    declined-IsDeclined :
        (r : LayersRun)
        → Begun r
        → All (IsDeclined e load blocks (entry_of e load w) attn w) r.declined
    unfolding begin_load donor_dir
    declined-IsDeclined r h =
        All-IsDeclined e load blocks (entry_of e load w) attn w (begin_load e load w) r.declined
          refl h.4

    -- A span load that wrote nothing: a layer has no copy, or every layer is declined.
    span_loud :
        (r : LayersRun)
        → Begun r
        → r.raised ≡ false
        → (r.donor_gone || is_empty r.materialized) ≡ true
        → SomeGone e load blocks (entry_of e load w) attn w layers
          ⊎ All (IsDeclined e load blocks (entry_of e load w) attn w) layers
    span_loud r h calm loud = elim (Bool-cases r.donor_gone) [
      | inl gone ↦ inl (donor_gone-SomeGone r h gone)
      | inr kept ↦
          let empty : is_empty r.materialized ≡ true = ground (arith, loud, kept) in
          inr (
            subst (All (IsDeclined e load blocks (entry_of e load w) attn w))
              (sym (Split-right layers _ _ (eq_nil_of_is_empty _ empty) (h.3 kept calm)))
              (declined-IsDeclined r h))
    ]

    conclude-IsServed :
        (r : LayersRun)
        → IsRun e load blocks (entry_of e load w) attn (begin_load e load w) layers r
        → IsServed w (conclude e load r)
    unfolding conclude hand_back
    conclude-IsServed r h =
        let span = is_span load.materialization_kind in
        Keeps-if_eq (IsServed w) r.raised _ _
          (λ stops. inr (blocks, placed, inr (inr (raised-SomeRefused r h stops))))
          (λ calm.
            Keeps-if_eq (IsServed w) (span && (r.donor_gone || is_empty r.materialized)) _ _
              (λ loud.
                let span = is_span_load load.materialization_kind (left_true _ _ loud) in
                elim (span_loud r h calm (right_true _ _ loud)) [
                  | inl gone ↦ inr (blocks, placed, inl (span, gone))
                  | inr declined ↦ inr (blocks, placed, inr (inl (span, declined)))
                ])
              (λ soft.
                Keeps-if_eq (IsServed w) r.donor_gone _ _
                  (λ gone. (
                    not_span (span_false_gone _ _ _ soft gone),
                    (blocks, placed, donor_gone-SomeGone r h gone),
                    All-member _ _ (λ block there. member-failed block _ _ there),
                  ))
                  (λ kept.
                    Keeps-if_eq (IsServed w) (is_empty r.materialized) _ _
                      (λ empty.
                        Split-nil layers _ _ (eq_nil_of_is_empty _ empty)
                          (no_declines blocks w _ (span_false_empty _ _ _ soft empty)
                            (declined-IsDeclined r h))
                          (h.3 kept calm))
                      (λ some_layer. (
                        blocks,
                        r.declined,
                        placed,
                        some_layer,
                        h.3 kept calm,
                        declined-IsDeclined r h,
                        All-begun r.materialized r.worker.kv_caches _
                            (kv_caches-noted r.donor_gone r r.worker) h.2,
                      )))))

  load_into-IsServed :
      (w : Worker) (o : Option (List (List ℕ)))
      → load.block_ids ≡ o
      → Distinct layers
      → IsServed w (load_into e attn layers load o w)
  unfolding load_into
  load_into-IsServed w none is distinct = inl is
  load_into-IsServed w (some blocks) is distinct = conclude-IsServed blocks w is _ (
      load_layers-IsRun e load blocks (entry_of e load w) attn layers (begin_load e load w)
        distinct)

  -- For layers with distinct names. A load ends with nothing where there is no layer; or with its
  -- blocks handed back for recomputation, which is no span load and one of whose layers has no copy of
  -- the donor's, in memory or in its file; or with an exception: it has no blocks, or it is a span load
  -- and one layer has no copy or every layer is declined, or one layer has its window outside the block
  -- table, a layout that is not known, or not as many rows as slots; or with caches written. Then the
  -- layers are those written and those declined, in order. Each slot of a written layer holds the value
  -- for a token of the load's window that has this slot (the row of the donor's copy at that token after
  -- the donor's start, rotated from that start to the target's for a span; in an MLA layer a cut of one
  -- row is repeated), or it is none of the window's slots and holds what it held. A layer is declined in
  -- a span load only: it is MLA, no rotation is known, a start is missing, or the donor's copy is short.
  pub load_one-IsServed :
      (w : Worker) → Distinct layers → IsServed w (load_one e attn layers load w)
  unfolding load_one
  load_one-IsServed w distinct = load_into-IsServed w load.block_ids refl distinct
