-- ===== src/Scheduler/Returns.antt =====
-- What `execute` returns, against the results that it records.
use virtual_automotive_ota_d.Prelude.{
  contains, ℕ, ◌≡◌, inl, inr, refl, sym, ◌∙◌, Bool, true, false, ◌&&◌, Bool-cases, List, [], ◌∷◌,
  ◌++◌, leb, length, arith,
}
use virtual_automotive_ota_d.Scheduler.{
  Campaign, Status, skipped, aborted, satisfied, failed, flashed, Progress, start, is_blocked, Step,
  go_on, stop, refuse, update_ecu, step, run_campaign, is_skipped, is_aborted, is_failed, is_done,
  any_status, all_statuses, campaign_result, campaign_failed, dependency_failure_aborts_campaign,
  unavailable_aborts_campaign,
}
use virtual_automotive_ota_d.Scheduler.Safety.{Step-cases}
use mathlib.Core.Path.{subst}

-- No result is FAILED or ABORTED.
abbrev pub all_good : List (ℕ × Status) → Bool
all_good [] = true
all_good ((n, skipped) ∷ rs) = all_good rs
all_good ((n, aborted) ∷ rs) = false
all_good ((n, satisfied) ∷ rs) = all_good rs
all_good ((n, failed) ∷ rs) = false
all_good ((n, flashed) ∷ rs) = all_good rs

all_good-append : (rs qs : List (ℕ × Status)) → all_good (rs ++ qs) ≡ (all_good rs && all_good qs)
all_good-append [] qs = refl
all_good-append ((n, skipped) ∷ rs) qs = all_good-append rs qs
all_good-append ((n, aborted) ∷ rs) qs = refl
all_good-append ((n, satisfied) ∷ rs) qs = all_good-append rs qs
all_good-append ((n, failed) ∷ rs) qs = refl
all_good-append ((n, flashed) ∷ rs) qs = all_good-append rs qs

-- While the campaign runs, the failed ECUs are those of the results.
record Tally (s : Progress) : Type 0 where
  good : all_good s.results ≡ leb (length s.failed_ecus) 0
  fatal : s.fatal_policy_abort ≡ true → leb (length s.failed_ecus) 0 ≡ false

-- A step that goes on keeps the tally, one that stops has recorded an ABORTED.
abbrev Tallied : Step → Type 0
Tallied (go_on s) = Tally s
Tallied (stop s) = all_good s.results ≡ false

module _ (c : Campaign) (s : Progress) (n : ℕ) (t : Tally s) where
  refuse-Tallied : (b : Bool) → Tallied (refuse s n b)
  refuse-Tallied true = ground (arith, all_good-append s.results ((n, aborted) ∷ []))
  refuse-Tallied false = ground (arith, all_good-append s.results ((n, skipped) ∷ []))

  update_ecu-Tally : Tally (update_ecu c s n)
  unfolding update_ecu
  update_ecu-Tally = ground (
    arith,
    all_good-append s.results ((n, flashed) ∷ []),
    all_good-append s.results ((n, failed) ∷ []),
  )

  satisfied-Tally : Tally (record s { results = s.results ++ ((n, satisfied) ∷ []) })
  satisfied-Tally = ground (arith, all_good-append s.results ((n, satisfied) ∷ []))

  step-Tallied : Tallied (step c s n)
  unfolding step
  step-Tallied = elim (Bool-cases (is_blocked c s n)) [
    | inl blocked ↦ rw blocked (refuse-Tallied (dependency_failure_aborts_campaign (c.policy n)))
    | inr free ↦ elim (Bool-cases (contains c.eligible n)) [
      | inl eligible ↦ rw (free, eligible) update_ecu-Tally
      | inr other ↦ elim (Bool-cases (contains s.completed_or_satisfied n)) [
        | inl done ↦ rw (free, other, done) satisfied-Tally
        | inr missing ↦
            rw (free, other, missing) (refuse-Tallied (unavailable_aborts_campaign (c.policy n)))
      ]
    ]
  ]

run_campaign-Tally :
    (c : Campaign) (s : Progress) (ns : List ℕ)
    → Tally s
    → (run_campaign c s ns).returned ≡ all_good (run_campaign c s ns).progress.results
unfolding run_campaign
run_campaign-Tally c s [] t = ground (arith, t.good, t.fatal)
run_campaign-Tally c s (n ∷ ns) t = elim (Step-cases (step c s n)) [
  | inl (s', e) ↦
      rw (e, run_campaign) (run_campaign-Tally c s' ns (subst Tallied e (step-Tallied c s n t)))
  | inr (s', e) ↦ rw (e, run_campaign) (sym (subst Tallied e (step-Tallied c s n t)))
]

-- A campaign returns true exactly if no ECU's result is FAILED or ABORTED.
pub run_campaign-returned :
    (c : Campaign)
    → (run_campaign c (start c) c.update_order).returned
      ≡ all_good (run_campaign c (start c) c.update_order).progress.results
run_campaign-returned c =
    run_campaign-Tally c (start c) c.update_order (record { good = refl; fatal = λ e. cc })

all_good-no_aborted :
    (rs : List (ℕ × Status)) → all_good rs ≡ true → any_status is_aborted rs ≡ false
all_good-no_aborted [] h = refl
all_good-no_aborted ((n, skipped) ∷ rs) h = all_good-no_aborted rs h
all_good-no_aborted ((n, aborted) ∷ rs) h = cc
all_good-no_aborted ((n, satisfied) ∷ rs) h = all_good-no_aborted rs h
all_good-no_aborted ((n, failed) ∷ rs) h = cc
all_good-no_aborted ((n, flashed) ∷ rs) h = all_good-no_aborted rs h

all_good-no_failed : (rs : List (ℕ × Status)) → all_good rs ≡ true → any_status is_failed rs ≡ false
all_good-no_failed [] h = refl
all_good-no_failed ((n, skipped) ∷ rs) h = all_good-no_failed rs h
all_good-no_failed ((n, aborted) ∷ rs) h = cc
all_good-no_failed ((n, satisfied) ∷ rs) h = all_good-no_failed rs h
all_good-no_failed ((n, failed) ∷ rs) h = cc
all_good-no_failed ((n, flashed) ∷ rs) h = all_good-no_failed rs h

skipped-not_done :
    (rs : List (ℕ × Status)) → any_status is_skipped rs ≡ true → all_statuses is_done rs ≡ false
skipped-not_done [] h = cc
skipped-not_done ((n, skipped) ∷ rs) h = refl
skipped-not_done ((n, aborted) ∷ rs) h = refl
skipped-not_done ((n, satisfied) ∷ rs) h = skipped-not_done rs h
skipped-not_done ((n, failed) ∷ rs) h = refl
skipped-not_done ((n, flashed) ∷ rs) h = skipped-not_done rs h

campaign_result-good :
    (rs : List (ℕ × Status))
    → all_good rs ≡ true
    → any_status is_skipped rs ≡ true
    → all_statuses is_skipped rs ≡ false
    → campaign_result rs ≡ campaign_failed
unfolding campaign_result
campaign_result-good [] g s a = cc
campaign_result-good (x ∷ rs) g s a =
    let nonempty : leb (length (x ∷ rs)) 0 ≡ false = ground arith in
    rw (
      nonempty,
      all_good-no_aborted (x ∷ rs) g,
      a,
      skipped-not_done (x ∷ rs) s,
      all_good-no_failed (x ∷ rs) g,
    )

-- A campaign that returns true, and in which some ECU was skipped but not every one, reports FAILED.
pub campaign_result-skipped :
    (c : Campaign)
    → (run_campaign c (start c) c.update_order).returned ≡ true
    → any_status is_skipped (run_campaign c (start c) c.update_order).progress.results ≡ true
    → all_statuses is_skipped (run_campaign c (start c) c.update_order).progress.results ≡ false
    → campaign_result (run_campaign c (start c) c.update_order).progress.results ≡ campaign_failed
campaign_result-skipped c r some_skipped some_not =
    let rs = (run_campaign c (start c) c.update_order).progress.results in
    let good : all_good rs ≡ true = sym (run_campaign-returned c) ∙ r in
    campaign_result-good rs good some_skipped some_not
