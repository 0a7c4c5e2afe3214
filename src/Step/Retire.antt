-- ===== src/Step/Retire.antt =====
-- What the scheduler forgets of a request when it finishes.
use semblend_vllm_connector.Prelude.{
  ◌≡◌, String, false, none, get, get-remove_self, contains, contains-discard_self,
}
use semblend_vllm_connector.Scheduler.{Scheduler, Request, Engine}
use semblend_vllm_connector.Journal.{forget_request_join_key}
use semblend_vllm_connector.Registration.{retry_deferred_registrations}
use semblend_vllm_connector.Registration.Keeps.{
  Awaits, register_donor_on_finish-Only, retry_deferred_registrations-Awaits,
}
use semblend_vllm_connector.Step.{forget_plan, forget_capture, request_finished}

abbrev pub IsForgotten : String → Scheduler → Type 0
IsForgotten request_id s =
    (get request_id s.lookup_cache ≡ none)
    × (contains request_id s.stage_requests ≡ false)
    × (get request_id s.segment_namespaces ≡ none)
    × (get request_id s.load_plans ≡ none)
    × (get request_id s.attempts ≡ none)
    × (get request_id s.no_safe_plan_reasons ≡ none)
    × (get request_id s.capture_state ≡ none)
    × (get request_id s.filled_blocks ≡ none)
    × (get request_id s.reported_fill_blocks ≡ none)
    × (get request_id s.capture_skipped_reasons ≡ none)
    × (get request_id s.capture_boundaries ≡ none)
    × (get request_id s.captures_opened ≡ none)
    × (get request_id s.journal.request_seqs ≡ none)
    × (get request_id s.journal.request_event_seqs ≡ none)

module _ (e : Engine) (r : Request) (s : Scheduler) where
  -- Once `request_finished` returns, whatever the registration did, the request has no memoized lookup,
  -- namespace of one or load plan, is no stage of a staged prefill, and has no attempt count, no reason
  -- for a missing plan, no capture, no opened capture, capture boundary or skip reason, no filled or
  -- reported blocks and no join key. The pending loads, the requests served and the records to publish
  -- are what they were.
  pub request_finished-IsForgotten :
      IsForgotten r.request_id (request_finished e r s) × Awaits s (request_finished e r s)
  unfolding request_finished forget_capture forget_plan forget_request_join_key
  request_finished-IsForgotten =
      let (j, donors, held, eq) =
        register_donor_on_finish-Only e r
          (forget_plan r.request_id (retry_deferred_registrations e false s)) in
      rw eq (
        (
          get-remove_self r.request_id _,
          contains-discard_self r.request_id _,
          get-remove_self r.request_id _,
          get-remove_self r.request_id _,
          get-remove_self r.request_id _,
          get-remove_self r.request_id _,
          get-remove_self r.request_id _,
          get-remove_self r.request_id _,
          get-remove_self r.request_id _,
          get-remove_self r.request_id _,
          get-remove_self r.request_id _,
          get-remove_self r.request_id _,
          get-remove_self r.request_id _,
          get-remove_self r.request_id _,
        ),
        retry_deferred_registrations-Awaits e false s,
      )
