-- ===== src/Scheduler/Safety.antt =====
-- Which ECUs a campaign flashes, and when it returns true.
use virtual_automotive_ota_d.Prelude.{
  ℕ, ◌≡◌, ◌⊎◌, inl, inr, refl, sym, ap, ◌∙◌, Bool, true, false, not, ◌&&◌, ◌||◌, Bool-cases, List,
  [], ◌∷◌, ◌++◌, ℕ_discrete, append-nil, arith, contains, contains-append, contains-cons,
  contains-here, uncons,
}
use virtual_automotive_ota_d.Scheduler.{
  Campaign, Status, skipped, aborted, satisfied, failed, flashed, any, without, dependencies_of,
  Progress, start, is_blocked, Step, go_on, stop, skip, refuse, update_ecu, step, run_campaign,
  send_with_retries, dependency_failure_aborts_campaign, unavailable_aborts_campaign,
}

-- The names with the result FLASHED.
abbrev pub flashed_names : List (ℕ × Status) → List ℕ
flashed_names [] = []
flashed_names ((n, skipped) ∷ rs) = flashed_names rs
flashed_names ((n, aborted) ∷ rs) = flashed_names rs
flashed_names ((n, satisfied) ∷ rs) = flashed_names rs
flashed_names ((n, failed) ∷ rs) = flashed_names rs
flashed_names ((n, flashed) ∷ rs) = n ∷ flashed_names rs

pub flashed_names-append :
    (rs qs : List (ℕ × Status)) → flashed_names (rs ++ qs) ≡ flashed_names rs ++ flashed_names qs
flashed_names-append [] qs = refl
flashed_names-append ((n, skipped) ∷ rs) qs = flashed_names-append rs qs
flashed_names-append ((n, aborted) ∷ rs) qs = flashed_names-append rs qs
flashed_names-append ((n, satisfied) ∷ rs) qs = flashed_names-append rs qs
flashed_names-append ((n, failed) ∷ rs) qs = flashed_names-append rs qs
flashed_names-append ((n, flashed) ∷ rs) qs = ap (λ xs. n ∷ xs) (flashed_names-append rs qs)

-- A test that no member passes.
any-false :
    (p : ℕ → Bool) (xs : List ℕ) (n : ℕ) → any p xs ≡ false → contains xs n ≡ true → p n ≡ false
any-false p [] n h i = cc
any-false p (x ∷ xs) n h i = elim (ℕ_discrete x n) [
  | yes same ↦ rw⁻¹ same (ground arith)
  | no other ↦ any-false p xs n (ground arith) (ground arith)
]

-- Each ECU of `ns` stands after those of its dependencies that are scheduled, when `seen` have gone
-- before.
abbrev pub IsOrdered : Campaign → List ℕ → List ℕ → Type 0
IsOrdered c seen [] = Unit {0}
IsOrdered c seen (n ∷ ns) =
    ((d : ℕ)
      → contains (dependencies_of c n) d ≡ true
      → contains c.update_order d ≡ true
      → contains seen d ≡ true)
    × IsOrdered c (n ∷ seen) ns

-- After `seen` have been looked at.
record Inv (c : Campaign) (seen : List ℕ) (s : Progress) : Type 0 where
  covered :
      (d : ℕ)
      → contains seen d ≡ true
      → (contains s.failed_ecus d ≡ true)
        ⊎ ((contains s.skipped_ecus d ≡ true) ⊎ (contains s.completed_or_satisfied d ≡ true))
  sound :
      (n : ℕ)
      → contains (flashed_names s.results) n ≡ true
      → (d : ℕ) → contains (dependencies_of c n) d ≡ true
      → contains s.completed_or_satisfied d ≡ true
  known :
      (d : ℕ)
      → contains s.completed_or_satisfied d ≡ true
      → (contains (without c.discovered c.eligible) d ≡ true)
        ⊎ (contains (flashed_names s.results) d ≡ true)

-- The flashed names after one more result that is not FLASHED, and after one that is.
flashed_names-other :
    (rs : List (ℕ × Status)) (n : ℕ) (status : Status)
    → flashed_names ((n, status) ∷ []) ≡ []
    → flashed_names (rs ++ ((n, status) ∷ [])) ≡ flashed_names rs
flashed_names-other rs n status h =
    flashed_names-append rs ((n, status) ∷ [])
    ∙ ap (λ xs. flashed_names rs ++ xs) h
    ∙ append-nil (flashed_names rs)

abbrev pub progress_of : Step → Progress
progress_of (go_on s) = s
progress_of (stop s) = s

module _ (c : Campaign) (seen : List ℕ) (s : Progress) (n : ℕ) (i : Inv c seen s) where
  skip-Inv :
      (status : Status) → flashed_names ((n, status) ∷ []) ≡ [] → Inv c (n ∷ seen) (skip s n status)
  skip-Inv status h =
      let same = flashed_names-other s.results n status h in
      record {
        covered = λ d m. elim (uncons n seen d m) [
          | inl e ↦ inr (inl (rw⁻¹ e (contains-here n s.skipped_ecus)))
          | inr m' ↦ ground (arith, i.covered d m')
        ];
        sound = rw same i.sound;
        known = rw same i.known;
      }

  refuse-Inv : (b : Bool) → Inv c (n ∷ seen) (progress_of (refuse s n b))
  refuse-Inv true = skip-Inv aborted refl
  refuse-Inv false = skip-Inv skipped refl

  satisfied-Inv :
      contains s.completed_or_satisfied n ≡ true
      → Inv c (n ∷ seen) (record s { results = s.results ++ ((n, satisfied) ∷ []) })
  satisfied-Inv done =
      let same = flashed_names-other s.results n satisfied refl in
      record {
        covered = λ d m. elim (uncons n seen d m) [
          | inl e ↦ inr (inr (rw⁻¹ e done))
          | inr m' ↦ i.covered d m'
        ];
        sound = rw same i.sound;
        known = rw same i.known;
      }

  failed-Inv :
      (fatal : Bool)
      → Inv c (n ∷ seen) (record s {
        results = s.results ++ ((n, failed) ∷ []);
        failed_ecus = n ∷ s.failed_ecus;
        fatal_policy_abort = fatal;
      })
  failed-Inv fatal =
      let same = flashed_names-other s.results n failed refl in
      record {
        covered = λ d m. elim (uncons n seen d m) [
          | inl e ↦ inl (rw⁻¹ e (contains-here n s.failed_ecus))
          | inr m' ↦ ground (arith, i.covered d m')
        ];
        sound = rw same i.sound;
        known = rw same i.known;
      }

  -- What a scheduled dependency of an ECU that is not blocked has become.
  dependency-satisfied :
      is_blocked c s n ≡ false
      → ((d : ℕ)
          → contains (dependencies_of c n) d ≡ true
          → contains c.update_order d ≡ true
          → contains seen d ≡ true)
      → (d : ℕ) → contains (dependencies_of c n) d ≡ true
      → contains s.completed_or_satisfied d ≡ true
  unfolding is_blocked
  dependency-satisfied free before d m =
      let deps = dependencies_of c n in
      let not_failed : contains s.failed_ecus d ≡ false =
        any-false (λ x. contains s.failed_ecus x) deps d (ground arith) m in
      let not_skipped : contains s.skipped_ecus d ≡ false =
        any-false (λ x. contains s.skipped_ecus x) deps d (ground arith) m in
      let not_missing : (not (contains c.update_order d)
            && not (contains s.completed_or_satisfied d))
          ≡ false =
        any-false
          (λ x. not (contains c.update_order x) && not (contains s.completed_or_satisfied x)) deps d
          (ground arith) m in
      elim (Bool-cases (contains c.update_order d)) [
        | inl scheduled ↦ ground (arith, i.covered d (before d m scheduled))
        | inr not_scheduled ↦ ground arith
      ]

  flashed-Inv :
      ((d : ℕ)
        → contains (dependencies_of c n) d ≡ true
        → contains s.completed_or_satisfied d ≡ true)
      → Inv c (n ∷ seen) (record s {
        results = s.results ++ ((n, flashed) ∷ []);
        completed_or_satisfied = n ∷ s.completed_or_satisfied;
      })
  flashed-Inv ready =
      let more : (x : ℕ)
          → contains (flashed_names (s.results ++ ((n, flashed) ∷ []))) x
            ≡ (contains (flashed_names s.results) x || contains (n ∷ []) x) =
        λ x.
          ap (λ xs. contains xs x) (flashed_names-append s.results ((n, flashed) ∷ []))
          ∙ contains-append (flashed_names s.results) (n ∷ []) x in
      record {
        covered = λ d m. elim (uncons n seen d m) [
          | inl e ↦ inr (inr (rw⁻¹ e (contains-here n s.completed_or_satisfied)))
          | inr m' ↦ ground (arith, i.covered d m')
        ];
        sound = λ x m d k. elim (Bool-cases (contains (flashed_names s.results) x)) [
          | inl old ↦ contains-cons n s.completed_or_satisfied d (i.sound x old d k)
          | inr new ↦
              let either : (contains (flashed_names s.results) x || contains (n ∷ []) x) ≡ true =
                sym (more x) ∙ m in
              let e : n ≡ x = ground arith in
              contains-cons n s.completed_or_satisfied d (ready d (rw e k))
        ];
        known = λ d m. elim (uncons n s.completed_or_satisfied d m) [
          | inl e ↦ inr (rw (more d) (ground arith))
          | inr m' ↦ elim (i.known d m') [ inl k ↦ inl k | inr k ↦ inr (rw (more d, k)) ]
        ];
      }

  step-Inv :
      ((d : ℕ)
        → contains (dependencies_of c n) d ≡ true
        → contains c.update_order d ≡ true
        → contains seen d ≡ true)
      → Inv c (n ∷ seen) (progress_of (step c s n))
  unfolding step update_ecu
  step-Inv before = elim (Bool-cases (is_blocked c s n)) [
    | inl blocked ↦ rw blocked (refuse-Inv (dependency_failure_aborts_campaign (c.policy n)))
    | inr free ↦ elim (Bool-cases (contains c.eligible n)) [
      | inl eligible ↦ elim (Bool-cases (send_with_retries c n 1 c.flash_retry_count)) [
        | inl sent ↦ rw (free, eligible, sent) (flashed-Inv (dependency-satisfied free before))
        | inr unsent ↦
            rw (free, eligible, unsent)
              (failed-Inv (s.fatal_policy_abort || (c.policy n).is_critical))
      ]
      | inr other ↦ elim (Bool-cases (contains s.completed_or_satisfied n)) [
        | inl done ↦ rw (free, other, done) (satisfied-Inv done)
        | inr missing ↦
            rw (free, other, missing) (refuse-Inv (unavailable_aborts_campaign (c.policy n)))
      ]
    ]
  ]

pub Step-cases : (t : Step) → ((s : Progress) × (t ≡ go_on s)) ⊎ ((s : Progress) × (t ≡ stop s))
Step-cases (go_on s) = inl (s, refl)
Step-cases (stop s) = inr (s, refl)

run_campaign-Inv :
    (c : Campaign) (seen : List ℕ) (s : Progress) (ns : List ℕ)
    → Inv c seen s
    → IsOrdered c seen ns
    → (seen' : List ℕ) × Inv c seen' (run_campaign c s ns).progress
unfolding run_campaign
run_campaign-Inv c seen s [] i o = (seen, i)
run_campaign-Inv c seen s (n ∷ ns) i (before, o) =
    let next : Inv c (n ∷ seen) (progress_of (step c s n)) = step-Inv c seen s n i before in
    elim (Step-cases (step c s n)) [
      | inl (s', e) ↦
          rw (e, run_campaign)
            (run_campaign-Inv c (n ∷ seen) s' ns (rw⁻¹ (ap progress_of e) next) o)
      | inr (s', e) ↦ rw (e, run_campaign) (n ∷ seen, rw⁻¹ (ap progress_of e) next)
    ]

start-Inv : (c : Campaign) → Inv c [] (start c)
start-Inv c = record { covered = λ d m. cc; sound = λ n m d k. cc; known = λ d m. inl m }

contains-without :
    (xs ys : List ℕ) (d : ℕ)
    → contains (without xs ys) d ≡ true
    → (contains xs d ≡ true) × (contains ys d ≡ false)
contains-without [] ys d h = cc
contains-without (x ∷ xs) ys d h = elim (Bool-cases (contains ys x)) [
  | inl out ↦ ground (arith, contains-without xs ys d)
  | inr kept ↦
      let h' : contains (x ∷ without xs ys) d ≡ true =
        sym (ap (λ zs. contains zs d) (without-kept kept)) ∙ h in
      elim (uncons x (without xs ys) d h') [
        | inl e ↦ rw⁻¹ e (contains-here x xs, kept)
        | inr later ↦ ground (arith, contains-without xs ys d later)
      ]
]
  where
    without-kept : contains ys x ≡ false → without (x ∷ xs) ys ≡ x ∷ without xs ys
    without-kept k = rw k

-- In a campaign whose order puts each ECU after its scheduled dependencies, whatever is sent and
-- wherever the campaign stops: each dependency of an ECU that was flashed was itself flashed, or it was
-- discovered and is not one of the eligible updates.
pub run_campaign-flashed :
    (c : Campaign)
    → IsOrdered c [] c.update_order
    → (n d : ℕ)
    → contains (flashed_names (run_campaign c (start c) c.update_order).progress.results) n ≡ true
    → contains (dependencies_of c n) d ≡ true
    → ((contains c.discovered d ≡ true) × (contains c.eligible d ≡ false))
      ⊎ (contains (flashed_names (run_campaign c (start c) c.update_order).progress.results) d
          ≡ true)
run_campaign-flashed c ordered n d m k =
    let (seen, i) = run_campaign-Inv c [] (start c) c.update_order (start-Inv c) ordered in
    elim (i.known d (i.sound n m d k)) [
      | inl h ↦ inl (contains-without c.discovered c.eligible d h)
      | inr h ↦ inr h
    ]
