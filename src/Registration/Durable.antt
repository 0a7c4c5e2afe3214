-- ===== src/Registration/Durable.antt =====
-- Which donors a retry indexes, and which stay held.
use semblend_vllm_connector.Prelude.{
  ℕ, ◌-◌, ◌<◌, ◌≡◌, refl, sym, ap, subst, ◌∙◌, ◌⊎◌, inl, inr, String, Bool, true, false, not, ◌&&◌,
  List, [], ◌∷◌, ◌++◌, arith, Memᴰ, Dict, All, Bool-cases, ltb, str_eq, eq_iff, remove,
}
use mathlib.Core.List.{append_assoc}
use mathlib.Core.Bool.{true≢false}
use semblend_vllm_connector.Types.{DonorRegistration}
use semblend_vllm_connector.Scheduler.{PendingDonorRegistration, Scheduler, Engine}
use semblend_vllm_connector.Registration.{
  waited, is_durable, retry_one, retry_all, retry_deferred_registrations, register_pending_donor,
  decline_undurable_donor,
}

-- The capture of a donor is readable under its capture's namespace.
abbrev pub IsDurable : Engine → Dict PendingDonorRegistration → DonorRegistration → Type 0
IsDurable e held donor =
    (key : String) × (pending : PendingDonorRegistration) × Memᴰ (key, pending) held
    × (pending.donor ≡ donor)
    × (is_durable e key pending ≡ true)

-- A held donor has no record yet and steps left to wait, and this is not the last pass.
abbrev pub IsWaiting : Engine → Bool → ℕ → String × PendingDonorRegistration → Type 0
IsWaiting e final step (key, pending) =
    (is_durable e key pending ≡ false)
    × (step - pending.opened_at_step < e.config.donor_registration_retry_steps)
    × (final ≡ false)

-- Every indexed donor is one of `old`, or is durable.
abbrev pub AllIndexed :
    Engine
    → Dict PendingDonorRegistration
    → List DonorRegistration
    → List DonorRegistration
    → Type 0
AllIndexed e held old offered =
    (new : List DonorRegistration) × (offered ≡ new ++ old) × All (IsDurable e held) new

module _ (e : Engine) (final : Bool) where
  retry_one-offered :
      (held : Dict PendingDonorRegistration) (key : String) (pending : PendingDonorRegistration)
      (s : Scheduler)
      → Memᴰ (key, pending) held
      → AllIndexed e held s.offered (retry_one e final (key, pending) s).offered
  unfolding retry_one register_pending_donor decline_undurable_donor
  retry_one-offered held key pending s at = elim (Bool-cases (is_durable e key pending)) [
    | inl durable ↦ rw durable (elim (Bool-cases (e.register_raises pending.donor)) [
      | inl raises ↦ rw raises ([], refl, tt)
      | inr accepts ↦ rw accepts (pending.donor ∷ [], refl, ((key, pending, at, refl, durable), tt))
    ])
    | inr missing ↦
        rw missing
          (elim (Bool-cases
            (ltb (waited pending s) e.config.donor_registration_retry_steps && not final)) [
              | inl held_on ↦ rw held_on ([], refl, tt)
              | inr given_up ↦ rw given_up ([], refl, tt)
            ])
  ]

  All-append {ℓ κ} :
      {A : Type ℓ} (P : A → Type κ) (xs ys : List A) → All P xs → All P ys → All P (xs ++ ys)
  All-append P [] ys h k = k
  All-append P (x ∷ xs) ys h k = (h.0, All-append P xs ys h.1 k)

  AllIndexed-trans :
      (held : Dict PendingDonorRegistration) (a b c : List DonorRegistration)
      → AllIndexed e held a b
      → AllIndexed e held b c
      → AllIndexed e held a c
  AllIndexed-trans held a b c (new, eq, h) (new', eq', h') = (
    new' ++ new,
    eq' ∙ ap (new' ++◌) eq ∙ sym (append_assoc new' new a),
    All-append (IsDurable e held) new' new h' h,
  )

  retry_all-offered :
      (held todo : Dict PendingDonorRegistration) (s : Scheduler)
      → All (λ entry. Memᴰ entry held) todo
      → AllIndexed e held s.offered (retry_all e final todo s).offered
  unfolding retry_all
  retry_all-offered held [] s sub = ([], refl, tt)
  retry_all-offered held ((key, pending) ∷ rest) s sub =
      AllIndexed-trans held s.offered (retry_one e final (key, pending) s).offered _
        (retry_one-offered held key pending s sub.0)
        (retry_all-offered held rest (retry_one e final (key, pending) s) sub.1)

  module _ (step : ℕ) where
    abbrev Met : Dict PendingDonorRegistration → String × PendingDonorRegistration → Type 0
    Met todo entry = IsWaiting e final step entry ⊎ Memᴰ entry todo

    stays_other :
        (key : String) (pending : PendingDonorRegistration) (rest : Dict PendingDonorRegistration)
        (j : String) (w : PendingDonorRegistration)
        → str_eq j key ≡ false
        → Met ((key, pending) ∷ rest) (j, w)
        → Met rest (j, w)
    stays_other key pending rest j w apart (inl h) = inl h
    stays_other key pending rest j w apart (inr (Memᴰ.head same)) =
        elim (true≢false (sym ((eq_iff j key).1 (ap (λ entry. entry.0) same)) ∙ apart)) [ ]
    stays_other key pending rest j w apart (inr (Memᴰ.tail m)) = inr m

    stays_removed :
        (key : String) (pending : PendingDonorRegistration) (rest d : Dict PendingDonorRegistration)
        → All (Met ((key, pending) ∷ rest)) d
        → All (Met rest) (remove key d)
    unfolding remove
    stays_removed key pending rest [] h = tt
    stays_removed key pending rest ((j, w) ∷ d) h = elim (Bool-cases (str_eq j key)) [
      | inl same ↦ rw same (stays_removed key pending rest d h.1)
      | inr apart ↦
          rw apart
            (stays_other key pending rest j w apart h.0, stays_removed key pending rest d h.1)
    ]

    stays_self :
        (key : String) (pending : PendingDonorRegistration) (rest : Dict PendingDonorRegistration)
        (entry : String × PendingDonorRegistration)
        → IsWaiting e final step (key, pending)
        → Met ((key, pending) ∷ rest) entry
        → Met rest entry
    stays_self key pending rest entry w (inl h) = inl h
    stays_self key pending rest entry w (inr (Memᴰ.head same)) =
        inl (subst (IsWaiting e final step) (sym same) w)
    stays_self key pending rest entry w (inr (Memᴰ.tail m)) = inr m

    stays_kept :
        (key : String) (pending : PendingDonorRegistration) (rest d : Dict PendingDonorRegistration)
        → IsWaiting e final step (key, pending)
        → All (Met ((key, pending) ∷ rest)) d
        → All (Met rest) d
    stays_kept key pending rest [] w h = tt
    stays_kept key pending rest (entry ∷ d) w h =
        (stays_self key pending rest entry w h.0, stays_kept key pending rest d w h.1)

    stays_done :
        (d : Dict PendingDonorRegistration) → All (Met []) d → All (IsWaiting e final step) d
    stays_done [] h = tt
    stays_done (entry ∷ d) h = (elim h.0 [ inl w ↦ w | inr m ↦ elim m [ ] ], stays_done d h.1)

    retry_one-step :
        (held : String × PendingDonorRegistration) (s : Scheduler)
        → (retry_one e final held s).scheduler_step ≡ s.scheduler_step
    unfolding retry_one register_pending_donor decline_undurable_donor
    retry_one-step (key, pending) s = ground arith

    early :
        (pending : PendingDonorRegistration) (s : Scheduler)
        → s.scheduler_step ≡ step
        → waited pending s < e.config.donor_registration_retry_steps
        → step - pending.opened_at_step < e.config.donor_registration_retry_steps
    early pending s now h =
        subst (λ n. n - pending.opened_at_step < e.config.donor_registration_retry_steps) now h

    stays_round :
        (key : String) (pending : PendingDonorRegistration) (rest : Dict PendingDonorRegistration)
        (s : Scheduler)
        → s.scheduler_step ≡ step
        → All (Met ((key, pending) ∷ rest)) s.deferred_registrations
        → All (Met rest) (retry_one e final (key, pending) s).deferred_registrations
    unfolding retry_one register_pending_donor decline_undurable_donor
    stays_round key pending rest s now met = elim (Bool-cases (is_durable e key pending)) [
      | inl durable ↦ rw durable (elim (Bool-cases (e.register_raises pending.donor)) [
        | inl raises ↦ rw raises (stays_removed key pending rest s.deferred_registrations met)
        | inr accepts ↦ rw accepts (stays_removed key pending rest s.deferred_registrations met)
      ])
      | inr missing ↦
          rw missing
            (elim (Bool-cases
              (ltb (waited pending s) e.config.donor_registration_retry_steps && not final)) [
                | inl held_on ↦ rw held_on (
                    stays_kept key pending rest s.deferred_registrations
                      (missing, early pending s now (ground arith), ground arith) met)
                | inr given_up ↦
                    rw given_up (stays_removed key pending rest s.deferred_registrations met)
              ])
    ]

    stays_loop :
        (todo : Dict PendingDonorRegistration) (s : Scheduler)
        → s.scheduler_step ≡ step
        → All (Met todo) s.deferred_registrations
        → All (IsWaiting e final step) (retry_all e final todo s).deferred_registrations
    unfolding retry_all
    stays_loop [] s now met = stays_done s.deferred_registrations met
    stays_loop ((key, pending) ∷ rest) s now met =
        stays_loop rest (retry_one e final (key, pending) s) (retry_one-step (key, pending) s ∙ now)
          (stays_round key pending rest s now met)

All-map {ℓ κ μ} :
    {A : Type ℓ} (P : A → Type κ) (Q : A → Type μ) (xs : List A)
    → ((x : A) → P x → Q x)
    → All P xs
    → All Q xs
All-map P Q [] f h = tt
All-map P Q (x ∷ xs) f h = (f x h.0, All-map P Q xs f h.1)

All-self {ℓ} : {A : Type ℓ} (xs : List A) → All (λ x. Memᴰ x xs) xs
All-self [] = tt
All-self (x ∷ xs) = (
  Memᴰ.head refl,
  All-map (λ y. Memᴰ y xs) (λ y. Memᴰ y (x ∷ xs)) xs (λ y m. Memᴰ.tail m) (All-self xs),
)

module _ (e : Engine) (final : Bool) (s : Scheduler) where
  -- Every donor that a retry indexes was held, and the store has its record at that time, under the
  -- namespace of its capture. Whoever is still held has no record and has waited fewer steps than the
  -- budget, and the pass was not the last one.
  pub retry_deferred_registrations-Durable :
      AllIndexed e s.deferred_registrations s.offered
        (retry_deferred_registrations e final s).offered
      × All
          (IsWaiting e final s.scheduler_step)
          (retry_deferred_registrations e final s).deferred_registrations
  unfolding retry_deferred_registrations
  retry_deferred_registrations-Durable = (
    retry_all-offered e final s.deferred_registrations s.deferred_registrations s
        (All-self s.deferred_registrations),
    stays_loop e final s.scheduler_step s.deferred_registrations s refl (
        All-map (λ entry. Memᴰ entry s.deferred_registrations) _ s.deferred_registrations
          (λ entry m. inr m) (All-self s.deferred_registrations)),
  )
