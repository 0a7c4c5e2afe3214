-- ===== src/Publish/Loaded.antt =====
-- What a load of a donor reads after the capture writer has landed a layer.
use mathlib.Core.Bool.{true≢false}
use semblend_vllm_connector.Prelude.{
  max, ◌≤◌, ◌≡◌, ◌⊎◌, refl, ap, sym, subst, ◌∙◌, inl, inr, String, true, Option, none, some,
  Bool-cases, get, length, str_eq, Keeps-if_eq, if-eq_of_true, if-eq_of_false,
}
use semblend_vllm_connector.Types.{PendingLoad}
use semblend_vllm_connector.Writer.{WriteJob, HostKv}
use semblend_vllm_connector.Worker.{MemoryEntry, Worker, WorkerEngine, donor_dir}
use semblend_vllm_connector.Load.{layer_source, entry_of}
use semblend_vllm_connector.Staging.{stored_layer, entry_layer, parsed_file}
use semblend_vllm_connector.Publish.{
  StoreReplies, SaveReply, JobRun, layer_of, write_to_disk, write_captured_layer, unstage,
  writer_count,
}
use semblend_vllm_connector.Publish.Memory.{IsReadBack, write_captured_layer-IsReadBack}

-- The layers are kept on the memory tier, or no donor of that key is.
abbrev pub IsOnTier : WorkerEngine → String → Worker → Type 0
IsOnTier e key w =
    (str_eq e.config.kv_storage_backend "memory" ≡ true) ⊎ (get key w.memory_store ≡ none)

module _ (e : WorkerEngine) (load : PendingLoad) (layer : String) (u : Worker) (rows : HostKv) where
  abbrev load_key : String
  load_key = e.storage_key load.donor_id load.namespace

  from_entry :
      (o : Option MemoryEntry)
      → entry_layer layer o ≡ some rows
      → layer_source e load o layer u ≡ some rows
  unfolding layer_source
  from_entry none h = cc
  from_entry (some entry) h = rw (h, layer_source) refl

  from_file :
      (file : Option (Option HostKv))
      → parsed_file file ≡ some rows
      → elim file [ none ↦ none | some parsed ↦ parsed ] ≡ some rows
  from_file none h = h
  from_file (some parsed) h = h

  layer_source-stored :
      IsOnTier e load_key u
      → stored_layer e load_key layer u ≡ some rows
      → layer_source e load (entry_of e load u) layer u ≡ some rows
  unfolding stored_layer layer_source
  layer_source-stored tier h = elim (Bool-cases (str_eq e.config.kv_storage_backend "memory")) [
    | inl memory ↦ from_entry (get load_key u.memory_store) (sym (if-eq_of_true _ _ _ memory) ∙ h)
    | inr disk ↦ elim tier [
      | inl memory ↦ absurd (true≢false (sym memory ∙ disk))
      | inr absent ↦
          rw (absent, layer_source)
            (from_file (get layer (donor_dir load_key u).files)
              (sym (if-eq_of_false _ _ _ disk) ∙ h))
    ]
  ]

abbrev KeepsMemory : Worker → JobRun → Type 0
KeepsMemory w (JobRun.lands u) = u.memory_store ≡ w.memory_store
KeepsMemory w (JobRun.raises u) = u.memory_store ≡ w.memory_store

module _ (e : WorkerEngine) (replies : StoreReplies) (job : WriteJob) (w : Worker) where
  abbrev key : String
  key = e.storage_key job.request_id job.namespace

  write_to_disk-KeepsMemory : KeepsMemory w (write_to_disk replies key job w)
  unfolding write_to_disk unstage writer_count
  write_to_disk-KeepsMemory = split (replies.save_file job) refl
    where
      split :
          (r : SaveReply)
          → replies.save_file job ≡ r
          → KeepsMemory w (write_to_disk replies key job w)
      split SaveReply.saved is = rw (is, write_to_disk) refl
      split SaveReply.no_directory is = rw (is, write_to_disk) refl
      split SaveReply.failed is = rw (is, write_to_disk) refl
      split SaveReply.truncated is = rw (is, write_to_disk) refl

  abbrev TierAfter : JobRun → Type 0
  TierAfter (JobRun.lands u) = IsOnTier e key u
  TierAfter (JobRun.raises u) = Unit

  on_disk : (run : JobRun) → get key w.memory_store ≡ none → KeepsMemory w run → TierAfter run
  on_disk (JobRun.lands u) absent kept = inr (ap (get key) kept ∙ absent)
  on_disk (JobRun.raises u) absent kept = tt

  write_captured_layer-TierAfter :
      IsOnTier e key w → TierAfter (write_captured_layer e replies job w)
  unfolding write_captured_layer
  write_captured_layer-TierAfter tier =
      Keeps-if_eq TierAfter (str_eq e.config.kv_storage_backend "memory") _ _ inl (λ disk.
        elim tier [
          | inl memory ↦ absurd (true≢false (sym memory ∙ disk))
          | inr absent ↦ on_disk (write_to_disk replies key job w) absent write_to_disk-KeepsMemory
        ])

  -- For a memory tier within its bound, on the memory tier or with no memory entry of the donor: after a
  -- layer job that lands, a load of that donor in the job's namespace reads exactly the job's rows as the
  -- layer's source.
  pub write_captured_layer-Loadable :
      (load : PendingLoad) (u : Worker)
      → length w.memory_store ≤ max 1 e.config.kv_memory_max_donors
      → IsOnTier e key w
      → load.donor_id ≡ job.request_id
      → load.namespace ≡ job.namespace
      → write_captured_layer e replies job w ≡ JobRun.lands u
      → layer_source e load (entry_of e load u) (layer_of job) u ≡ some job.payload
  write_captured_layer-Loadable load u bound tier same_donor same_namespace lands =
      let same_key : key ≡ e.storage_key load.donor_id load.namespace =
        λ i. e.storage_key (sym same_donor i) (sym same_namespace i) in
      let read =
        subst (IsReadBack e replies job w) lands
          (write_captured_layer-IsReadBack e replies job w bound) in
      let tier' : IsOnTier e key u = subst TierAfter lands (write_captured_layer-TierAfter tier) in
      layer_source-stored e load (layer_of job) u job.payload
        (subst (λ k. IsOnTier e k u) same_key tier')
        (subst (λ k. stored_layer e k (layer_of job) u ≡ some job.payload) same_key read.0)
