-- ===== src/Scheduler/Results.antt =====
-- The results that UpdateScheduler.execute records (tcu/update_scheduler.py), one for each ECU it looks at.
use virtual_automotive_ota_d.Prelude.{
  ℕ, ◌≡◌, refl, sym, ap, ◌∙◌, ◌⊎◌, inl, inr, Bool, true, false, List, [], ◌∷◌, ◌++◌, arith,
  contains, contains-append, contains-cons, contains-here, Bool-cases,
}
use virtual_automotive_ota_d.Scheduler.{
  Campaign, Status, skipped, aborted, satisfied, failed, flashed, Progress, Step, go_on, stop,
  refuse, step, Outcome, update_ecu, is_blocked, send_with_retries, run_campaign,
  dependency_failure_aborts_campaign, unavailable_aborts_campaign,
}
use virtual_automotive_ota_d.Scheduler.Safety.{
  flashed_names, flashed_names-append, progress_of, Step-cases,
}

refuse-results :
    (s : Progress) (n : ℕ) (b : Bool)
    → (status : Status) × ((progress_of (refuse s n b)).results ≡ s.results ++ ((n, status) ∷ []))
refuse-results s n true = (aborted, refl)
refuse-results s n false = (skipped, refl)

-- A step adds one result, for the ECU it looks at.
step-results :
    (c : Campaign) (s : Progress) (n : ℕ)
    → (status : Status) × ((progress_of (step c s n)).results ≡ s.results ++ ((n, status) ∷ []))
unfolding step update_ecu
step-results c s n = elim (Bool-cases (is_blocked c s n)) [
  | inl blocked ↦ rw blocked (refuse-results s n (dependency_failure_aborts_campaign (c.policy n)))
  | inr free ↦ elim (Bool-cases (contains c.eligible n)) [
    | inl here ↦ elim (Bool-cases (send_with_retries c n 1 c.flash_retry_count)) [
      | inl sent ↦ (flashed, rw (free, here, sent))
      | inr unsent ↦ (failed, rw (free, here, unsent))
    ]
    | inr other ↦ elim (Bool-cases (contains s.completed_or_satisfied n)) [
      | inl done ↦ (satisfied, rw (free, other, done))
      | inr missing ↦
          rw (free, other, missing) (refuse-results s n (unavailable_aborts_campaign (c.policy n)))
    ]
  ]
]

flashed_names-one :
    (n : ℕ) (status : Status) (x : ℕ) → contains (flashed_names ((n, status) ∷ [])) x ≡ true → n ≡ x
flashed_names-one n skipped x h = cc
flashed_names-one n aborted x h = cc
flashed_names-one n satisfied x h = cc
flashed_names-one n failed x h = cc
flashed_names-one n flashed x h = ground arith

step-flashed :
    (c : Campaign) (s : Progress) (n x : ℕ)
    → contains (flashed_names (progress_of (step c s n)).results) x ≡ true
    → (contains (flashed_names s.results) x ≡ true) ⊎ (n ≡ x)
step-flashed c s n x h =
    let (status, e) = step-results c s n in
    let both = contains-append (flashed_names s.results) (flashed_names ((n, status) ∷ [])) x in
    let all : contains (flashed_names s.results ++ flashed_names ((n, status) ∷ [])) x ≡ true =
      rw⁻¹ (flashed_names-append s.results ((n, status) ∷ [])) (rw⁻¹ e h) in
    elim (Bool-cases (contains (flashed_names s.results) x)) [
      | inl old ↦ inl old
      | inr new ↦ inr (flashed_names-one n status x (ground arith))
    ]

-- What was flashed after a step was flashed before it, or is the ECU it looks at.
looked :
    (c : Campaign) (s : Progress) (n : ℕ) (ns : List ℕ) (x : ℕ) (s' : Progress)
    → progress_of (step c s n) ≡ s'
    → contains (flashed_names s'.results) x ≡ true
    → (contains (flashed_names s.results) x ≡ true) ⊎ (contains (n ∷ ns) x ≡ true)
looked c s n ns x s' e old = elim (step-flashed c s n x (rw e old)) [
  | inl k ↦ inl k
  | inr same ↦ inr (rw same (contains-here x ns))
]

abbrev outcome_of : Campaign → List ℕ → Step → Outcome
outcome_of c ns (go_on s) = run_campaign c s ns
outcome_of c ns (stop s) = record { progress = s; returned = false }

run_campaign-cons :
    (c : Campaign) (s : Progress) (n : ℕ) (ns : List ℕ) (t : Step)
    → step c s n ≡ t
    → run_campaign c s (n ∷ ns) ≡ outcome_of c ns t
unfolding run_campaign
run_campaign-cons c s n ns (go_on s') e = rw (run_campaign, e)
run_campaign-cons c s n ns (stop s') e = rw (run_campaign, e)

pub run_campaign-scheduled :
    (c : Campaign) (s : Progress) (ns : List ℕ) (x : ℕ)
    → contains (flashed_names (run_campaign c s ns).progress.results) x ≡ true
    → (contains (flashed_names s.results) x ≡ true) ⊎ (contains ns x ≡ true)
unfolding run_campaign
run_campaign-scheduled c s [] x h = inl h
run_campaign-scheduled c s (n ∷ ns) x h = elim (Step-cases (step c s n)) [
  | inl (s', e) ↦
      elim (run_campaign-scheduled c s' ns x (rw⁻¹ (run_campaign-cons c s n ns (go_on s') e) h)) [
        | inl old ↦ looked c s n ns x s' (ap progress_of e) old
        | inr i ↦ inr (contains-cons n ns x i)
      ]
  | inr (s', e) ↦ looked c s n ns x s' (ap progress_of e) (
      sym (
        ap (λ o. contains (flashed_names o.progress.results) x)
          (run_campaign-cons c s n ns (stop s') e))
      ∙ h)
]
