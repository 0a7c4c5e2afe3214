-- ===== src/Registration/Keeps.antt =====
-- What registration leaves alone.
use semblend_vllm_connector.Prelude.{
  String, ◌≡◌, ◌∙◌, ◌&&◌, [], ◌∷◌, Keeps-if, refl, Bool, true, false, not, Option, none, some, List,
  Dict, if◌then◌else◌, ltb, leb, get, length,
}
use semblend_vllm_connector.Types.{DonorRegistration}
use semblend_vllm_connector.Journal.{Journal}
use semblend_vllm_connector.Scheduler.{PendingDonorRegistration, Scheduler, Request, Engine}
use semblend_vllm_connector.Registration.{
  is_declined, register_pending_donor, decline_undurable_donor, defer_donor_registration,
  pending_registration, awaits_record, skip_registration, offer_donor, offer_captured,
  register_donor_on_finish, is_durable, waited, retry_one, retry_all, retry_deferred_registrations,
}

abbrev pub Only : Scheduler → Scheduler → Type 0
Only s s' =
    (j : Journal) × (donors : List DonorRegistration) × (held : Dict PendingDonorRegistration) × (s'
      ≡ record s { journal = j; offered = donors; deferred_registrations = held })

module _ (e : Engine) (r : Request) (s : Scheduler) where
  Only-if : (test : Bool) (x y : Scheduler) → Only s x → Only s y → Only s (if test then x else y)
  Only-if true x y hx hy = hx
  Only-if false x y hx hy = hy

  register-Only : (pending : PendingDonorRegistration) → Only s (register_pending_donor e pending s)
  unfolding register_pending_donor
  register-Only pending =
      Only-if (e.register_raises pending.donor) _ _ (_, _, _, refl) (_, _, _, refl)

  defer-Only : (pending : PendingDonorRegistration) → Only s (defer_donor_registration e pending s)
  unfolding defer_donor_registration decline_undurable_donor
  defer-Only pending =
      Only-if (leb e.config.donor_registration_retry_steps 0) _ _ (_, _, _, refl) (_, _, _, refl)

  offer-Only : (reason : Option String) → Only s (offer_captured reason e r s)
  unfolding offer_captured offer_donor skip_registration
  offer-Only none =
      Only-if (awaits_record e r.request_id (get r.request_id s.captures_opened)) _ _
        (defer-Only (pending_registration e r (get r.request_id s.captures_opened) s))
        (register-Only (pending_registration e r (get r.request_id s.captures_opened) s))
  offer-Only (some reason) = (_, _, _, refl)

  pub register_donor_on_finish-Only : Only s (register_donor_on_finish e r s)
  unfolding register_donor_on_finish skip_registration
  register_donor_on_finish-Only =
      Only-if (is_declined e.compat_decline) _ _ (_, _, _, refl)
        (Only-if (not e.config.register_donors) _ _ (_, _, _, refl)
          (Only-if (not e.has_provider) _ _ (_, _, _, refl)
            (Only-if (ltb (length r.token_ids) e.config.min_prompt_tokens) _ _ (_, _, _, refl)
              (offer-Only (get r.request_id s.capture_skipped_reasons)))))

-- What is kept for the worker's next step: the loads, the records to publish and the requests served.
abbrev pub Awaits : Scheduler → Scheduler → Type 0
Awaits s s' =
    (s'.pending_loads ≡ s.pending_loads)
    × (s'.pending_finalize ≡ s.pending_finalize)
    × (s'.served_request_ids ≡ s.served_request_ids)

retry_one-Awaits :
    (e : Engine) (final : Bool) (held : String × PendingDonorRegistration) (s : Scheduler)
    → Awaits s (retry_one e final held s)
unfolding retry_one register_pending_donor decline_undurable_donor
retry_one-Awaits e final (request_id, pending) s =
    Keeps-if (Awaits s) (is_durable e request_id pending) _ _
      (Keeps-if (Awaits s) (e.register_raises pending.donor) _ _ (refl, refl, refl)
        (refl, refl, refl))
      (Keeps-if (Awaits s)
        (ltb (waited pending s) e.config.donor_registration_retry_steps && not final) _ _
        (refl, refl, refl) (refl, refl, refl))

retry_all-Awaits :
    (e : Engine) (final : Bool) (held : Dict PendingDonorRegistration) (s : Scheduler)
    → Awaits s (retry_all e final held s)
unfolding retry_all
retry_all-Awaits e final [] s = (refl, refl, refl)
retry_all-Awaits e final (held ∷ rest) s =
    let (loads, finalize, served) = retry_one-Awaits e final held s in
    let (loads', finalize', served') = retry_all-Awaits e final rest (retry_one e final held s) in
    (loads' ∙ loads, finalize' ∙ finalize, served' ∙ served)

pub retry_deferred_registrations-Awaits :
    (e : Engine) (final : Bool) (s : Scheduler) → Awaits s (retry_deferred_registrations e final s)
unfolding retry_deferred_registrations
retry_deferred_registrations-Awaits e final s = retry_all-Awaits e final s.deferred_registrations s
