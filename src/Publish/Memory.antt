-- ===== src/Publish/Memory.antt =====
-- What can be read back of what is written, and the bound of the memory tier.
use semblend_vllm_connector.Prelude.{
  ℕ, ◌≤◌, max, ◌≡◌, ◌⊎◌, refl, ap, ◌∙◌, inl, inr, String, Bool, false, Option, none, some, [], ◌∷◌,
  ◌++◌, arith, Dict, get, put, remove, get-put_self, get-remove_self, get-append_new,
  length-put_of_get, length-remove_of_get, length, length-append, ltb, str_eq, Keeps-if_eq,
  if-eq_of_false, if-eq_of_true,
}
use semblend_vllm_connector.Writer.{WriteJob, HostKv}
use semblend_vllm_connector.Worker.{
  MemoryEntry, Worker, WorkerEngine, donor_dir, dir_or_none, move_to_end,
}
use semblend_vllm_connector.Staging.{entry_layer, parsed_file, stored_layer}
use semblend_vllm_connector.Publish.{
  StoreReplies, SaveReply, JobRun, layer_of, unstage, evict_down_to, evict_entry, set_entry_layer,
  write_to_memory, write_to_disk, write_captured_layer, writer_count, with_file,
}

get-tail :
    (key j : String) (x : MemoryEntry) (d : Dict MemoryEntry)
    → get key ((j, x) ∷ d) ≡ none
    → get key d ≡ none
unfolding get
get-tail key j x d h = ground (arith, h)

abbrev Holds : String → MemoryEntry → Dict MemoryEntry × Worker → Type 0
Holds key entry (d, w) = get key d ≡ some entry

abbrev layer_in : String → String → Dict MemoryEntry → Option HostKv
layer_in key layer d = entry_layer layer (get key d)

length-evict_down_to :
    (replies : StoreReplies) (cap : ℕ) (d : Dict MemoryEntry) (w : Worker)
    → length (evict_down_to replies cap d w).0 ≤ cap
unfolding evict_down_to
length-evict_down_to replies cap [] w = omega arith
length-evict_down_to replies cap ((key, entry) ∷ rest) w =
    ground (arith, length-evict_down_to replies cap rest (evict_entry replies key entry w))

-- The donor that comes last is not evicted.
get-evict_down_to :
    (replies : StoreReplies) (cap : ℕ) (key : String) (fresh : MemoryEntry) (d : Dict MemoryEntry)
    (w : Worker)
    → 1 ≤ cap
    → get key d ≡ none
    → get key (evict_down_to replies cap (d ++ (key, fresh) ∷ []) w).0 ≡ some fresh
unfolding evict_down_to get
get-evict_down_to replies cap key fresh [] w pos h =
    Keeps-if_eq (Holds key fresh) (ltb cap 1) _ _ (λ over. absurd (ground (arith, over)))
      (λ fits. get-append_new key fresh [] refl)
get-evict_down_to replies cap key fresh ((j, x) ∷ d) w pos h =
    Keeps-if_eq (Holds key fresh) (ltb cap (length ((j, x) ∷ d ++ (key, fresh) ∷ []))) _ _
      (λ over.
        get-evict_down_to replies cap key fresh d (evict_entry replies j x w) pos
          (get-tail key j x d h))
      (λ fits. get-append_new key fresh ((j, x) ∷ d) h)

length-set_entry_layer :
    (key layer : String) (payload : HostKv) (d : Dict MemoryEntry)
    → length (set_entry_layer key layer payload d) ≤ length d
unfolding set_entry_layer
length-set_entry_layer key layer payload d = split (get key d) refl
  where
    split :
        (o : Option MemoryEntry)
        → get key d ≡ o
        → length (set_entry_layer key layer payload d) ≤ length d
    split none is = rw (is, set_entry_layer) (omega arith)
    split (some entry) is =
        rw (is, set_entry_layer) (omega (arith, length-put_of_get key entry _ d is))

-- The entry's layer, just set.
layer-set_entry_layer :
    (key layer : String) (payload : HostKv) (d : Dict MemoryEntry) (entry : MemoryEntry)
    → get key d ≡ some entry
    → layer_in key layer (set_entry_layer key layer payload d) ≡ some payload
unfolding set_entry_layer
layer-set_entry_layer key layer payload d entry is =
    rw (is, set_entry_layer)
      (ap (entry_layer layer) (get-put_self key _ d) ∙ get-put_self layer payload entry.layers)

module _ (key : String) (entry : MemoryEntry) (d : Dict MemoryEntry)
    (at : get key d ≡ some entry) where
  move_to_end-eq : move_to_end key d ≡ remove key d ++ (key, entry) ∷ []
  unfolding move_to_end
  move_to_end-eq = rw (at, move_to_end) refl

  length-move_to_end : length (move_to_end key d) ≤ length d
  length-move_to_end = rw move_to_end-eq (
      omega (
        arith,
        length-append (remove key d) ((key, entry) ∷ []),
        length-remove_of_get key entry d at,
      ))

  get-move_to_end : get key (move_to_end key d) ≡ some entry
  get-move_to_end =
      rw move_to_end-eq (get-append_new key entry (remove key d) (get-remove_self key d))

abbrev cap_of : WorkerEngine → ℕ
cap_of e = max 1 e.config.kv_memory_max_donors

-- The layer is in the donor's entry, and the tier is within its bound.
abbrev IsPlaced : WorkerEngine → String → WriteJob → Worker → Type 0
IsPlaced e key job u =
    (layer_in key (layer_of job) u.memory_store ≡ some job.payload)
    × (length u.memory_store ≤ cap_of e)

write_to_memory-IsPlaced :
    (e : WorkerEngine) (replies : StoreReplies) (key : String) (job : WriteJob) (w : Worker)
    (o : Option MemoryEntry)
    → get key w.memory_store ≡ o
    → length w.memory_store ≤ cap_of e
    → IsPlaced e key job (write_to_memory e replies key job o w)
unfolding write_to_memory
write_to_memory-IsPlaced e replies key job w none is bound =
    let fresh : MemoryEntry = record {
      token_count = job.token_count;
      request_id = job.request_id;
      layers = [];
    } in
    let grown = w.memory_store ++ (key, fresh) ∷ [] in
    (
      layer-set_entry_layer key (layer_of job) job.payload _ fresh
          (get-evict_down_to replies (cap_of e) key fresh w.memory_store w (omega arith) is),
      omega (
        arith,
        length-set_entry_layer key (layer_of job) job.payload
            (evict_down_to replies (cap_of e) grown w).0,
        length-evict_down_to replies (cap_of e) grown w,
      ),
    )
write_to_memory-IsPlaced e replies key job w (some entry) is bound =
    let marked : MemoryEntry = record entry { token_count = job.token_count } in
    let there = get-put_self key marked w.memory_store in
    let held = put key marked w.memory_store in
    (
      layer-set_entry_layer key (layer_of job) job.payload _ marked
          (get-move_to_end key marked held there),
      omega (
        arith,
        length-set_entry_layer key (layer_of job) job.payload (move_to_end key held),
        length-move_to_end key marked held there,
        length-put_of_get key entry marked w.memory_store is,
        bound,
      ),
    )

module _ (e : WorkerEngine) (replies : StoreReplies) (job : WriteJob) (w : Worker) where
  abbrev key : String
  key = e.storage_key job.request_id job.namespace

  abbrev in_memory : Bool
  in_memory = str_eq e.config.kv_storage_backend "memory"

  -- What reading the layer back gives after the job.
  abbrev pub IsReadBack : JobRun → Type 0
  IsReadBack (JobRun.lands u) =
      (stored_layer e key (layer_of job) u ≡ some job.payload)
      × ((in_memory ≡ false) ⊎ (length u.memory_store ≤ max 1 e.config.kv_memory_max_donors))
  IsReadBack (JobRun.raises u) =
      (stored_layer e key (layer_of job) u ≡ stored_layer e key (layer_of job) w)
      ⊎ (stored_layer e key (layer_of job) u ≡ none)

  write_to_disk-IsReadBack : in_memory ≡ false → IsReadBack (write_to_disk replies key job w)
  unfolding write_to_disk stored_layer unstage writer_count donor_dir
  write_to_disk-IsReadBack disk = split (replies.save_file job) refl
    where
      read :
          (content : Option HostKv)
          → parsed_file (
              get
                (layer_of job)
                (dir_or_none (get key (with_file key (layer_of job) content w).disk)).files)
            ≡ content
      read content =
          ap (λ o. parsed_file (get (layer_of job) (dir_or_none o).files))
            (get-put_self key _ w.disk)
          ∙ ap parsed_file (get-put_self (layer_of job) content (donor_dir key w).files)

      split :
          (r : SaveReply) → replies.save_file job ≡ r → IsReadBack (write_to_disk replies key job w)
      split SaveReply.saved is =
          rw (is, write_to_disk)
            (if-eq_of_false in_memory _ _ disk ∙ read (some job.payload), inl disk)
      split SaveReply.no_directory is = rw (is, write_to_disk) (inl refl)
      split SaveReply.failed is =
          rw (is, write_to_disk) (inl (rw (disk, get-put_self key (donor_dir key w) w.disk) refl))
      split SaveReply.truncated is =
          rw (is, write_to_disk) (inr (if-eq_of_false in_memory _ _ disk ∙ read none))

  -- A layer job that lands can be read back from the store under its donor's key and layer, on either
  -- tier, and leaves the memory tier within max(1, kv_memory_max_donors) donors; after one
  -- that raises the same is read as before it, or no copy at all. For a memory tier within its bound before.
  pub write_captured_layer-IsReadBack :
      length w.memory_store ≤ max 1 e.config.kv_memory_max_donors
      → IsReadBack (write_captured_layer e replies job w)
  unfolding write_captured_layer stored_layer unstage writer_count
  write_captured_layer-IsReadBack bound =
      Keeps-if_eq IsReadBack in_memory _ _
        (λ memory.
          let placed =
            write_to_memory-IsPlaced e replies key job w (get key w.memory_store) refl bound in
          (if-eq_of_true in_memory _ _ memory ∙ placed.0, inr placed.1))
        write_to_disk-IsReadBack
