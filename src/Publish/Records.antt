-- ===== src/Publish/Records.antt =====
-- When a donor's record is published.
use mathlib.Core.Bool.{true≢false}
use semblend_vllm_connector.Prelude.{
  some-eq-some, ◌≡◌, ◌⊎◌, refl, ap, sym, subst, ◌∙◌, inl, inr, String, Bool, true, false, ◌&&◌,
  Option, none, some, List, [], ◌∷◌, arith, Dict, get, get-put_self, str_eq, All, Keeps-if_eq,
  remove, remove-put,
}
use semblend_vllm_connector.Writer.{WriteJob}
use semblend_vllm_connector.Worker.{
  MemoryEntry, Worker, WorkerEngine, donor_dir, dir_or_none, is_some,
}
use semblend_vllm_connector.Publish.{
  StoreReplies, RecordReply, publish_record, with_directory, JobRun, all_in, publish,
  publish_from_memory, writer_count, write_donor_metadata,
}

abbrev AllIn {ℓ} : {V : Type ℓ} → List String → Dict V → Type 0
AllIn names d = All (λ name. is_some (get name d) ≡ true) names

both_left : (a b : Bool) → (a && b) ≡ true → a ≡ true
both_left a b h = ground arith

both_right : (a b : Bool) → (a && b) ≡ true → b ≡ true
both_right a b h = ground arith

all_in→AllIn {ℓ} :
    {V : Type ℓ} (names : List String) (d : Dict V) → all_in names d ≡ true → AllIn names d
all_in→AllIn [] d h = tt
all_in→AllIn (name ∷ rest) d h = (both_left _ _ h, all_in→AllIn rest d (both_right _ _ h))

all_in-not {ℓ} :
    {V : Type ℓ} (names : List String) (d : Dict V) → all_in names d ≡ false → AllIn names d → ⊥
all_in-not [] d h k = cc
all_in-not (name ∷ rest) d h k = all_in-not rest d (ground (arith, h, k.0)) k.1

module _ (e : WorkerEngine) (replies : StoreReplies) (job : WriteJob) (w : Worker) where
  abbrev key : String
  key = e.storage_key job.request_id job.namespace

  abbrev in_memory : Bool
  in_memory = str_eq e.config.kv_storage_backend "memory"

  -- Every layer that the job vouches for is in the donor's entry, or has its file.
  abbrev pub IsHeld : Type 0
  IsHeld =
      ((in_memory ≡ true)
        × ((entry : MemoryEntry) × (get key w.memory_store ≡ some entry)
            × AllIn job.layer_names entry.layers))
      ⊎ ((in_memory ≡ false) × AllIn job.layer_names (donor_dir key w).files)

  abbrev pub IsRecorded : JobRun → Type 0
  IsRecorded (JobRun.lands u) =
      (u.memory_store ≡ w.memory_store)
      × ((IsHeld
            × ((donor_dir key u).published ≡ some job.token_count)
            × ((donor_dir key u).files ≡ (donor_dir key w).files)
            × (remove key u.disk ≡ remove key w.disk))
          ⊎ ((in_memory ≡ true) × (get key w.memory_store ≡ none) × (u.disk ≡ w.disk)))
  IsRecorded (JobRun.raises u) =
      ((u ≡ w) × ((IsHeld → ⊥) ⊎ (replies.replace job ≡ RecordReply.no_directory)))
      ⊎ ((u ≡ with_directory key w) × (replies.replace job ≡ RecordReply.failed))

  record-IsRecorded : IsHeld → IsRecorded (publish_record replies key job w)
  unfolding publish_record writer_count donor_dir
  record-IsRecorded all = split (replies.replace job) refl
    where
      split :
          (r : RecordReply)
          → replies.replace job ≡ r
          → IsRecorded (publish_record replies key job w)
      split RecordReply.replaced is =
          rw (is, publish_record)
            (
              refl,
              inl (
                all,
                ap (λ o. (dir_or_none o).published) (get-put_self key _ w.disk),
                ap (λ o. (dir_or_none o).files) (get-put_self key _ w.disk),
                remove-put key _ w.disk,
              ),
            )
      split RecordReply.no_directory is = rw (is, publish_record) (inl (refl, inr is))
      split RecordReply.failed is = rw (is, publish_record) (inr (refl, is))

  publish-IsRecorded :
      (complete : Bool)
      → (complete ≡ true → IsHeld)
      → (complete ≡ false → IsHeld → ⊥)
      → IsRecorded (publish e replies key job complete w)
  unfolding publish
  publish-IsRecorded complete all some_missing =
      Keeps-if_eq IsRecorded complete _ _ (λ full. record-IsRecorded (all full))
        (λ partial. inl (refl, inl (some_missing partial)))

  from_entry :
      (o : Option MemoryEntry)
      → in_memory ≡ true
      → get key w.memory_store ≡ o
      → IsRecorded (publish_from_memory e replies key job o w)
  unfolding publish_from_memory writer_count
  from_entry none memory is = (refl, inr (memory, is, refl))
  from_entry (some entry) memory is =
      publish-IsRecorded (all_in job.layer_names entry.layers)
        (λ full. inl (memory, (entry, is, all_in→AllIn job.layer_names entry.layers full)))
        (λ partial held. elim held [
          | inl (m, (kept, there, all)) ↦
              all_in-not job.layer_names entry.layers partial
                (subst (λ x. AllIn job.layer_names x.layers) (some-eq-some (sym there ∙ is)) all)
          | inr (m, all) ↦ true≢false (sym memory ∙ m)
        ])

  -- The job of a donor's record ends in one of three ways. It is published under the donor's key with
  -- the job's length, files and other donors left alone, and then every layer that it vouches for is in
  -- the store; or nothing changes because the donor's memory entry has been evicted; or it raises: with
  -- nothing changed because a layer is missing or the donor's directory cannot be made, or with only
  -- the directory made because the record's file could not be written or replaced.
  pub write_donor_metadata-IsRecorded : IsRecorded (write_donor_metadata e replies job w)
  unfolding write_donor_metadata
  write_donor_metadata-IsRecorded =
      Keeps-if_eq IsRecorded in_memory _ _
        (λ memory. from_entry (get key w.memory_store) memory refl)
        (λ disk.
          publish-IsRecorded (all_in job.layer_names (donor_dir key w).files)
            (λ full. inr (disk, all_in→AllIn job.layer_names (donor_dir key w).files full))
            (λ partial held. elim held [
              | inl (m, kept) ↦ true≢false (sym m ∙ disk)
              | inr (m, all) ↦ all_in-not job.layer_names (donor_dir key w).files partial all
            ]))
