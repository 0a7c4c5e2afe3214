-- ===== src/Flush/Orphans.antt =====
-- What is left of a capture that was never published.
use mathlib.Core.Bool.{true≢false}
use semblend_vllm_connector.Prelude.{
  ℕ, zero, suc, [], remove-put, remove-remove, ◌∙◌, ◌≡◌, refl, ap, sym, String, Bool, true, false,
  not, ◌||◌, Option, none, some, get, remove, drop, get-remove_self, get-put_self, str_eq,
  Keeps-if_eq,
}
use semblend_vllm_connector.Worker.{
  DonorDir, Worker, WorkerEngine, donor_dir, dir_or_none, is_some, has_stored_donor,
}
use semblend_vllm_connector.Publish.{StoreReplies}
use semblend_vllm_connector.Flush.{discard_files, discard_unpublished_capture}

-- Nothing changes but the files below the key, and no donor is published or retracted.
abbrev pub IsConfined : String → Worker → Worker → Type 0
IsConfined key w u =
    (remove key u.disk ≡ remove key w.disk)
    × ((donor_dir key u).published ≡ (donor_dir key w).published)
    × (u.memory_store ≡ w.memory_store)

-- What the discard makes of a donor that is published or not, where the removal stops after some of the
-- files or not.
abbrev pub Outcome : String → Bool → Option ℕ → Worker → Worker → Type 0
Outcome key true stops w u = u ≡ w
Outcome key false none w u = get key u.disk ≡ none
Outcome key false (some n) w u = (donor_dir key u).files ≡ drop n (donor_dir key w).files

drop-nil {ℓ} : {A : Type ℓ} (n : ℕ) → drop {A = A} n [] ≡ []
drop-nil zero = refl
drop-nil (suc n) = refl

published-none : (o : Option ℕ) → is_some o ≡ false → o ≡ none
published-none none h = refl
published-none (some n) h = cc

module _ (e : WorkerEngine) (replies : StoreReplies) (request_id namespace : String)
    (w : Worker) where
  abbrev key : String
  key = e.storage_key request_id namespace

  files-IsConfined :
      (dir : DonorDir)
      → get key w.disk ≡ some dir
      → dir.published ≡ none
      → IsConfined key w (discard_files replies key request_id dir w)
  unfolding discard_files donor_dir
  files-IsConfined dir is blank = split (replies.remove_stops key) refl
    where
      split :
          (o : Option ℕ)
          → replies.remove_stops key ≡ o
          → IsConfined key w (discard_files replies key request_id dir w)
      split none stops =
          rw (stops, discard_files, get-remove_self key w.disk, is)
            (remove-remove key w.disk, sym blank, refl)
      split (some n) stops =
          let left = record dir { files = drop n dir.files } in
          rw (stops, discard_files, is, get-put_self key left w.disk)
            (remove-put key left w.disk, refl, refl)

  files-Outcome :
      (dir : DonorDir) (o : Option ℕ)
      → get key w.disk ≡ some dir
      → replies.remove_stops key ≡ o
      → Outcome key false o w (discard_files replies key request_id dir w)
  unfolding discard_files donor_dir
  files-Outcome dir none is stops = rw (stops, discard_files) (get-remove_self key w.disk)
  files-Outcome dir (some n) is stops =
      rw
        (
          stops,
          discard_files,
          is,
          get-put_self key (record dir { files = drop n dir.files }) w.disk,
        )
        refl

  unpublished :
      (dir : DonorDir)
      → get key w.disk ≡ some dir
      → has_stored_donor e request_id namespace w ≡ false
      → dir.published ≡ none
  unfolding has_stored_donor donor_dir
  unpublished dir is fresh =
      sym (ap (λ o. (dir_or_none o).published) is)
      ∙ published-none (donor_dir key w).published fresh

  nothing-Outcome : (o : Option ℕ) → get key w.disk ≡ none → Outcome key false o w w
  unfolding donor_dir
  nothing-Outcome none is = is
  nothing-Outcome (some n) is = rw is (sym (drop-nil n))

  abbrev pub IsDiscarded : Worker → Type 0
  IsDiscarded u =
      IsConfined key w u
      × Outcome key (has_stored_donor e request_id namespace w) (replies.remove_stops key) w u

  by_dir :
      (o : Option DonorDir)
      → get key w.disk ≡ o
      → has_stored_donor e request_id namespace w ≡ false
      → IsDiscarded (elim o [ none ↦ w | some dir ↦ discard_files replies key request_id dir w ])
  by_dir none is fresh =
      rw fresh ((refl, refl, refl), nothing-Outcome (replies.remove_stops key) is)
  by_dir (some dir) is fresh = rw fresh (
    files-IsConfined dir is (unpublished dir is fresh),
    files-Outcome dir (replies.remove_stops key) is refl,
  )

  -- On the disk tier and for a namespace that is not empty: the state of a published donor stays as it
  -- is; otherwise nothing is left of the capture, or only the files behind those that the removal
  -- reached before it stopped. No other donor's files, no record and no memory entry changes.
  pub discard-IsDiscarded :
      str_eq e.config.kv_storage_backend "disk" ≡ true
      → str_eq namespace "" ≡ false
      → IsDiscarded (discard_unpublished_capture e replies request_id namespace w)
  unfolding discard_unpublished_capture
  discard-IsDiscarded disk named =
      Keeps-if_eq IsDiscarded
        (str_eq namespace "" || not (str_eq e.config.kv_storage_backend "disk")) _ _
        (λ off. absurd (true≢false (sym off ∙ rw (named, disk) refl)))
        (λ on.
          Keeps-if_eq IsDiscarded (has_stored_donor e request_id namespace w) _ _
            (λ stored. rw stored ((refl, refl, refl), refl)) (by_dir (get key w.disk) refl))
