-- ===== src/Registration.antt =====
-- connector.py: what a finished request's donor goes through before the provider may index it. A donor
-- whose capture has no record yet is held, retried by every hook that recurs, and at last declined.
-- Whether a record is there is the store's answer at the time of the call.
pub mod Durable
pub mod Finish
pub mod Keeps
use semblend_vllm_connector.Prelude.{
  ℕ, ◌-◌, String, Bool, true, false, not, ◌&&◌, Option, none, some, List, [], ◌∷◌, Dict, ltb, leb,
  if◌then◌else◌, get, put, remove, length,
}
use semblend_vllm_connector.Types.{DonorRegistration}
use semblend_vllm_connector.Journal.{count, audit, or_zero}
use semblend_vllm_connector.Scheduler.{PendingDonorRegistration, Scheduler, note, Request, Engine}

unfoldable pub decline_undurable_donor : PendingDonorRegistration → Scheduler → Scheduler
decline_undurable_donor pending s =
    note
      (λ j.
        audit "donor_registration_skipped" pending.donor.donor_id
          (count "donor_registration_skipped_not_durable" j))
      s

-- An exception of the provider is counted and goes no further.
unfoldable pub register_pending_donor : Engine → PendingDonorRegistration → Scheduler → Scheduler
register_pending_donor e pending s =
    if e.register_raises pending.donor
    then note
        (λ j.
          audit "donor_registration_failed" pending.donor.donor_id
            (count "donor_registration_errors_total" j))
        s
    else note
        (λ j. audit "donor_registered" pending.donor.donor_id (count "donors_registered_total" j))
        (record s { offered = pending.donor ∷ s.offered })

abbrev pub waited : PendingDonorRegistration → Scheduler → ℕ
waited pending s = s.scheduler_step - pending.opened_at_step

abbrev pub is_durable : Engine → String → PendingDonorRegistration → Bool
is_durable e request_id pending = e.has_stored_donor request_id pending.capture_namespace

-- The loop's body for one held donor.
unfoldable pub retry_one : Engine → Bool → String × PendingDonorRegistration → Scheduler → Scheduler
unfolding register_pending_donor decline_undurable_donor
retry_one e final (request_id, pending) s =
    let s' = record s { deferred_registrations = remove request_id s.deferred_registrations } in
    if is_durable e request_id pending
    then register_pending_donor e pending s'
    else if ltb (waited pending s) e.config.donor_registration_retry_steps && not final
    then s
    else decline_undurable_donor pending s'

retry_all : Engine → Bool → Dict PendingDonorRegistration → Scheduler → Scheduler
unfolding retry_one
retry_all e final [] s = s
retry_all e final (held ∷ rest) s = retry_all e final rest (retry_one e final held s)

unfoldable pub retry_deferred_registrations : Engine → Bool → Scheduler → Scheduler
unfolding retry_all
retry_deferred_registrations e final s = retry_all e final s.deferred_registrations s

unfoldable pub defer_donor_registration : Engine → PendingDonorRegistration → Scheduler → Scheduler
unfolding decline_undurable_donor
defer_donor_registration e pending s =
    if leb e.config.donor_registration_retry_steps 0
    then decline_undurable_donor pending s
    else note
        (λ j.
          audit "donor_registration_deferred" pending.donor.donor_id
            (count "donor_registration_deferred_total" j))
        (record s {
          deferred_registrations =
              put pending.donor.donor_id (record pending { opened_at_step = s.scheduler_step })
                s.deferred_registrations;
        })

skip_registration : String → String → Scheduler → Scheduler
skip_registration counter request_id s =
    note (λ j. audit "donor_registration_skipped" request_id (count counter j)) s

-- `capture_namespace or ""`
or_blank : Option String → String
or_blank none = ""
or_blank (some namespace) = namespace

pub pending_registration : Engine → Request → Option String → Scheduler → PendingDonorRegistration
unfolding or_blank
pending_registration e r capture_namespace s = record {
  donor = record {
    donor_id = r.request_id;
    token_ids = r.token_ids;
    prompt_text = e.donor_text r (or_zero (get r.request_id s.capture_boundaries));
    model_id = r.model_id;
    namespace = r.namespace;
    cache_salt = r.cache_salt;
    has_captured_kv = true;
  };
  capture_namespace = or_blank capture_namespace;
  opened_at_step = 0;
}

-- `capture_namespace is not None and not self._has_stored_donor(...)`
awaits_record : Engine → String → Option String → Bool
awaits_record e request_id none = false
awaits_record e request_id (some namespace) = not (e.has_stored_donor request_id namespace)

offer_donor : Engine → Request → Option String → Scheduler → Scheduler
unfolding pending_registration awaits_record register_pending_donor defer_donor_registration
offer_donor e r capture_namespace s =
    if awaits_record e r.request_id capture_namespace
    then defer_donor_registration e (pending_registration e r capture_namespace s) s
    else register_pending_donor e (pending_registration e r capture_namespace s) s

-- From the capture's skip reason on.
offer_captured : Option String → Engine → Request → Scheduler → Scheduler
unfolding offer_donor skip_registration
offer_captured none e r s = offer_donor e r (get r.request_id s.captures_opened) s
offer_captured (some reason) e r s =
    skip_registration "donor_registration_skipped_no_captured_kv" r.request_id s

abbrev pub is_declined : Option String → Bool
is_declined none = false
is_declined (some reason) = true

unfoldable pub register_donor_on_finish : Engine → Request → Scheduler → Scheduler
unfolding offer_captured skip_registration
register_donor_on_finish e r s =
    if is_declined e.compat_decline
    then skip_registration "donor_registration_skipped_incompatible" r.request_id s
    else if not e.config.register_donors
    then skip_registration "donor_registration_skipped_disabled" r.request_id s
    else if not e.has_provider
    then skip_registration "donor_registration_skipped_no_provider" r.request_id s
    else if ltb (length r.token_ids) e.config.min_prompt_tokens
    then skip_registration "donor_registration_skipped_short_prompt" r.request_id s
    else offer_captured (get r.request_id s.capture_skipped_reasons) e r s
