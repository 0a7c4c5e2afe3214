-- ===== src/Load/Cut.antt =====
-- What a load cuts out of the donor's copy of a layer.
use semblend_vllm_connector.Prelude.{
  ℕ, ◌≡◌, ◌<◌, ◌⊎◌, refl, sym, ap, subst, ◌∙◌, inl, inr, String, Bool, true, false, Option, none,
  some, if◌then◌else◌, length, arith, get_elem?,
}
use semblend_vllm_connector.Types.{MaterializationKind, PendingLoad}
use semblend_vllm_connector.Writer.{Row, HostKv}
use semblend_vllm_connector.Worker.{WorkerEngine}
use semblend_vllm_connector.Load.{
  SpanSlice, layer_rows, rows_for, or_zero, is_mla, semantic_span_slice, rotated_window, is_span,
  slice, rotated,
}
use semblend_vllm_connector.Load.Placed.{
  IsSpanLoad, IsRowFor, get_elem?-slice, get_elem?-rotated, length-rotated, get_elem?-rows_for,
}

-- Why a layer of a span load is declined.
abbrev pub IsDecline : WorkerEngine → PendingLoad → Option Bool → HostKv → Type 0
IsDecline e load metadata src =
    IsSpanLoad load
    × ((is_mla metadata ≡ true)
        ⊎ (e.rope_known ≡ false)
        ⊎ (load.donor_start ≡ none)
        ⊎ (load.target_start ≡ none)
        ⊎ ((from : ℕ) × (load.donor_start ≡ some from)
            × (length (slice from load.token_count src) < load.token_count)))

-- What is cut out of the donor's copy.
abbrev pub IsCut : WorkerEngine → PendingLoad → Option Bool → HostKv → HostKv → Type 0
IsCut e load metadata src rows =
    (IsSpanLoad load
      × (is_mla metadata ≡ false)
      × (e.rope_known ≡ true)
      × (from : ℕ) × (to : ℕ) × (load.donor_start ≡ some from)
      × (load.target_start ≡ some to)
      × (rows ≡ rotated (e.rotate from to) (slice from load.token_count src)))
    ⊎ ((IsSpanLoad load → ⊥) × (rows ≡ slice (or_zero load.donor_start) load.token_count src))

if-eq-window :
    (b : Bool) (counter : String) (held rows : HostKv)
    → (if b then SpanSlice.decline counter else SpanSlice.window held) ≡ SpanSlice.window rows
    → rows ≡ held
if-eq-window true counter held rows h = cc
if-eq-window false counter held rows h = cc

if-eq-decline :
    (b : Bool) (counter reason : String) (held : HostKv)
    → (if b then SpanSlice.decline counter else SpanSlice.window held) ≡ SpanSlice.decline reason
    → b ≡ true
if-eq-decline true counter reason held h = refl
if-eq-decline false counter reason held h = cc

guarded-window :
    (mla rope : Bool) (counter counter' : String) (inner : SpanSlice) (rows : HostKv)
    → (if mla
        then SpanSlice.decline counter
        else if rope
        then inner
        else SpanSlice.decline counter')
      ≡ SpanSlice.window rows
    → (mla ≡ false) × (rope ≡ true) × (inner ≡ SpanSlice.window rows)
guarded-window true rope counter counter' inner rows h = cc
guarded-window false true counter counter' inner rows h = (refl, refl, h)
guarded-window false false counter counter' inner rows h = cc

guarded-decline :
    (mla rope : Bool) (counter counter' reason : String) (inner : SpanSlice)
    → (if mla
        then SpanSlice.decline counter
        else if rope
        then inner
        else SpanSlice.decline counter')
      ≡ SpanSlice.decline reason
    → (mla ≡ true) ⊎ (rope ≡ false) ⊎ (inner ≡ SpanSlice.decline reason)
guarded-decline true rope counter counter' reason inner h = inl refl
guarded-decline false true counter counter' reason inner h = inr (inr h)
guarded-decline false false counter counter' reason inner h = inr (inl refl)

-- The two kinds of load, for a slice of the first and a cut of the second.
kind-window :
    (kind : MaterializationKind) (slice : SpanSlice) (cut rows : HostKv)
    → (if is_span kind then slice else SpanSlice.window cut) ≡ SpanSlice.window rows
    → ((kind ≡ MaterializationKind.semantic_span) × (slice ≡ SpanSlice.window rows))
      ⊎ ((kind ≡ MaterializationKind.semantic_span → ⊥) × (rows ≡ cut))
kind-window MaterializationKind.semantic_span slice cut rows h = inl (refl, h)
kind-window MaterializationKind.discovery_only slice cut rows h = inr (λ k. cc, cc)
kind-window MaterializationKind.exact_prefix slice cut rows h = inr (λ k. cc, cc)
kind-window MaterializationKind.request_only slice cut rows h = inr (λ k. cc, cc)
kind-window MaterializationKind.segmented slice cut rows h = inr (λ k. cc, cc)

kind-decline :
    (kind : MaterializationKind) (slice : SpanSlice) (cut : HostKv) (counter : String)
    → (if is_span kind then slice else SpanSlice.window cut) ≡ SpanSlice.decline counter
    → (kind ≡ MaterializationKind.semantic_span) × (slice ≡ SpanSlice.decline counter)
kind-decline MaterializationKind.semantic_span slice cut counter h = (refl, h)
kind-decline MaterializationKind.discovery_only slice cut counter h = cc
kind-decline MaterializationKind.exact_prefix slice cut counter h = cc
kind-decline MaterializationKind.request_only slice cut counter h = cc
kind-decline MaterializationKind.segmented slice cut counter h = cc

module _ (e : WorkerEngine) (src : HostKv) (count : ℕ) where
  rotated_window-window :
      (o o' : Option ℕ) (rows : HostKv)
      → rotated_window e src count o o' ≡ SpanSlice.window rows
      → (from : ℕ) × (to : ℕ) × (o ≡ some from)
        × (o' ≡ some to)
        × (rows ≡ rotated (e.rotate from to) (slice from count src))
  unfolding rotated_window
  rotated_window-window (some from) (some to) rows h =
      (from, to, refl, refl, if-eq-window _ _ _ rows h)
  rotated_window-window none o' rows h = cc
  rotated_window-window (some from) none rows h = cc

  rotated_window-decline :
      (o o' : Option ℕ) (counter : String)
      → rotated_window e src count o o' ≡ SpanSlice.decline counter
      → (o ≡ none)
        ⊎ (o' ≡ none)
        ⊎ ((from : ℕ) × (o ≡ some from) × (length (slice from count src) < count))
  unfolding rotated_window
  rotated_window-decline (some from) (some to) counter h =
      let short = if-eq-decline _ _ counter _ h in inr (inr (from, refl, ground (arith, short)))
  rotated_window-decline none o' counter h = inl refl
  rotated_window-decline (some from) none counter h = inr (inl refl)

module _ (e : WorkerEngine) (load : PendingLoad) (metadata : Option Bool) (src : HostKv) where
  pub layer_rows-IsCut :
      (rows : HostKv)
      → layer_rows e src load metadata ≡ SpanSlice.window rows
      → IsCut e load metadata src rows
  unfolding layer_rows semantic_span_slice
  layer_rows-IsCut rows h =
      elim (kind-window load.materialization_kind (semantic_span_slice e src load metadata)
        (slice (or_zero load.donor_start) load.token_count src) rows h) [
          | inl (span, sliced) ↦
              let (layout, known, cut) = guarded-window _ _ _ _ _ rows sliced in
              let (from, to, at, onto, same) =
                rotated_window-window e src load.token_count _ _ rows cut in
              inl (span, layout, known, from, to, at, onto, same)
          | inr plain ↦ inr plain
        ]

  pub layer_rows-IsDecline :
      (counter : String)
      → layer_rows e src load metadata ≡ SpanSlice.decline counter
      → IsDecline e load metadata src
  unfolding layer_rows semantic_span_slice
  layer_rows-IsDecline counter h =
      let (span, sliced) =
        kind-decline load.materialization_kind (semantic_span_slice e src load metadata)
          (slice (or_zero load.donor_start) load.token_count src) counter h in
      (
        span,
        elim (guarded-decline _ _ _ _ counter _ sliced) [
          | inl mla ↦ inl mla
          | inr (inl unknown) ↦ inr (inl unknown)
          | inr (inr cut) ↦
              inr (inr (rotated_window-decline e src load.token_count _ _ counter cut))
        ],
      )

  -- As many rows as are cut of the donor's copy.
  pub IsCut-length :
      (rows : HostKv) (n : ℕ)
      → IsCut e load metadata src rows
      → length (slice (or_zero load.donor_start) load.token_count src) ≡ n
      → length rows ≡ n
  IsCut-length rows n (inl (span, layout, known, from, to, at, onto, same)) h =
      ap length same
      ∙ length-rotated _ _
      ∙ ap (λ o. length (slice (or_zero o) load.token_count src)) (sym at)
      ∙ h
  IsCut-length rows n (inr (plain, same)) h = ap length same ∙ h

  -- A row fitted to the slots is the one for its token.
  pub fitted-IsRowFor :
      (rows : HostKv) (n i : ℕ) (value : Row)
      → IsCut e load metadata src rows
      → get_elem? (rows_for metadata n rows) i ≡ some value
      → IsRowFor e load metadata src i value
  fitted-IsRowFor rows n i value (inl (span, layout, known, from, to, at, onto, same)) h =
      elim (get_elem?-rows_for metadata n rows i value h) [
        | inl held ↦
            let (row, there, turned) =
              get_elem?-rotated (e.rotate from to) _ i value
                (ap (λ r. get_elem? r i) (sym same) ∙ held) in
            inl (
              span,
              layout,
              known,
              from,
              to,
              row,
              at,
              onto,
              get_elem?-slice from load.token_count src i row there,
              turned,
            )
        | inr (mla, one, held) ↦ cc (layout, ap is_mla mla)
      ]
  fitted-IsRowFor rows n i value (inr (plain, same)) h =
      elim (get_elem?-rows_for metadata n rows i value h) [
        | inl held ↦ inr (
            inl (
              plain,
              get_elem?-slice (or_zero load.donor_start) load.token_count src i value
                  (ap (λ r. get_elem? r i) (sym same) ∙ held),
            ))
        | inr (mla, one, held) ↦ inr (
            inr (
              plain,
              mla,
              ap length (sym same) ∙ one,
              subst (λ at. get_elem? src at ≡ some value) (omega arith)
                  (get_elem?-slice (or_zero load.donor_start) load.token_count src 0 value
                    (ap (λ r. get_elem? r 0) (sym same) ∙ held)),
            ))
      ]
