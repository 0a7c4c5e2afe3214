-- ===== src/Registration/Finish.antt =====
-- Which finishing requests become donors.
use semblend_vllm_connector.Prelude.{
  ◌≤◌, ◌≡◌, refl, sym, ◌∙◌, ◌⊎◌, inl, inr, String, Bool, true, false, not, Option, none, some, ◌∷◌,
  arith, Bool-cases, if◌then◌else◌, ltb, get, length,
}
use semblend_vllm_connector.Types.{DonorRegistration}
use semblend_vllm_connector.Scheduler.{PendingDonorRegistration, Scheduler, Request, Engine}
use semblend_vllm_connector.Registration.{
  is_declined, register_pending_donor, decline_undurable_donor, defer_donor_registration,
  pending_registration, awaits_record, offer_donor, offer_captured, register_donor_on_finish,
}

-- The capture that the request opened, if it opened one, has its record.
abbrev pub HasRecord : Engine → String → Option String → Type 0
HasRecord e request_id opened =
    (namespace : String) → opened ≡ some namespace → e.has_stored_donor request_id namespace ≡ true

module _ (e : Engine) (r : Request) (s : Scheduler) where
  -- Nothing was indexed, or this request alone, and then: registration is on, the prompt is long
  -- enough, its capture was not skipped and what it captured is readable.
  abbrev pub IsFinished : Scheduler → Type 0
  IsFinished s' =
      (s'.offered ≡ s.offered)
      ⊎ ((donor : DonorRegistration) × (s'.offered ≡ donor ∷ s.offered)
          × (donor.donor_id ≡ r.request_id)
          × (donor.token_ids ≡ r.token_ids)
          × (e.config.register_donors ≡ true)
          × (e.config.min_prompt_tokens ≤ length r.token_ids)
          × (get r.request_id s.capture_skipped_reasons ≡ none)
          × HasRecord e r.request_id (get r.request_id s.captures_opened))

  IsFinished-if :
      (test : Bool) (x y : Scheduler)
      → IsFinished x
      → (test ≡ false → IsFinished y)
      → IsFinished (if test then x else y)
  IsFinished-if true x y hx hy = hx
  IsFinished-if false x y hx hy = hy refl

  recorded :
      (opened : Option String)
      → awaits_record e r.request_id opened ≡ false
      → HasRecord e r.request_id opened
  unfolding awaits_record
  recorded none h namespace same = grind (arith, same)
  recorded (some opened) h namespace same = grind (arith, h, same)

  deferred-offered :
      (pending : PendingDonorRegistration)
      → (defer_donor_registration e pending s).offered ≡ s.offered
  unfolding defer_donor_registration decline_undurable_donor
  deferred-offered pending = ground arith

  module _ (on : e.config.register_donors ≡ true)
      (long : e.config.min_prompt_tokens ≤ length r.token_ids)
      (captured : get r.request_id s.capture_skipped_reasons ≡ none) where
    offer-IsFinished :
        (opened : Option String)
        → get r.request_id s.captures_opened ≡ opened
        → IsFinished (offer_donor e r opened s)
    unfolding offer_donor register_pending_donor pending_registration
    offer-IsFinished opened at = elim (Bool-cases (awaits_record e r.request_id opened)) [
      | inl waits ↦ rw waits (inl (deferred-offered (pending_registration e r opened s)))
      | inr ready ↦
          rw ready
            (elim (Bool-cases (e.register_raises (pending_registration e r opened s).donor)) [
              | inl raises ↦ rw raises (inl refl)
              | inr accepts ↦ rw accepts (
                  inr (
                    (pending_registration e r opened s).donor,
                    refl,
                    refl,
                    refl,
                    on,
                    long,
                    captured,
                    λ namespace same. recorded opened ready namespace (sym at ∙ same),
                  ))
            ])
    ]

  captured-IsFinished :
      (reason : Option String)
      → e.config.register_donors ≡ true
      → e.config.min_prompt_tokens ≤ length r.token_ids
      → get r.request_id s.capture_skipped_reasons ≡ reason
      → IsFinished (offer_captured reason e r s)
  unfolding offer_captured
  captured-IsFinished none on long at = offer-IsFinished on long at _ refl
  captured-IsFinished (some reason) on long at = inl refl

  -- A finished request is indexed at most once by its own finish, under its own id and tokens, and
  -- only if registration is on, its prompt is long enough, its capture was not skipped and, where it
  -- opened a capture, the record of that capture is in the store. In every other case the provider is
  -- offered nothing.
  pub register_donor_on_finish-IsFinished : IsFinished (register_donor_on_finish e r s)
  unfolding register_donor_on_finish
  register_donor_on_finish-IsFinished =
      IsFinished-if (is_declined e.compat_decline) _ _ (inl refl) (λ _.
        IsFinished-if (not e.config.register_donors) _ _ (inl refl) (λ on.
          IsFinished-if (not e.has_provider) _ _ (inl refl) (λ _.
            IsFinished-if (ltb (length r.token_ids) e.config.min_prompt_tokens) _ _ (inl refl)
              (λ long.
                captured-IsFinished (get r.request_id s.capture_skipped_reasons)
                  (ground (arith, on)) (ground (arith, long)) refl))))
