-- ===== src/Scheduler.antt =====
-- UpdateScheduler.execute (tcu/update_scheduler.py) over the policies of tcu/dependency_policy.py. An
-- ECU's name is a number: the scheduler only compares names. Reports and prints are left out.
pub mod Safety
pub mod Results
pub mod Returns
pub mod Examples
use virtual_automotive_ota_d.Prelude.{
  ℕ, zero, suc, ◌+◌, Bool, true, false, not, ◌&&◌, ◌||◌, Option, none, some, List, [], ◌∷◌, ◌++◌,
  ◌==◌, leb, length, contains, if◌then◌else◌, Result, ok, err, runtime_error,
}

-- ECUDependencyPolicy, its texts compared as the two properties do
pub record Policy : Type 0 where
  pub dependencies : List ℕ
  pub is_critical : Bool
  pub aborts_if_unavailable : Bool
  pub aborts_if_dependency_failed : Bool

abbrev pub unavailable_aborts_campaign : Policy → Bool
unavailable_aborts_campaign p = p.is_critical || p.aborts_if_unavailable

abbrev pub dependency_failure_aborts_campaign : Policy → Bool
dependency_failure_aborts_campaign p = p.is_critical || p.aborts_if_dependency_failed

pub data Status : Type 0 where
  skipped aborted satisfied failed flashed : Status

-- What one campaign is given: the policies, the names of `eligible_updates` and of the vehicle's ECUs,
-- the map of dependencies if there is one, the order, the number of attempts, and the transport, which
-- tells for an ECU and an attempt whether the firmware was sent.
pub record Campaign : Type 0 where
  pub policy : ℕ → Policy
  pub eligible : List ℕ
  pub discovered : List ℕ
  pub dependency_map : Option (ℕ → List ℕ)
  pub update_order : List ℕ
  pub flash_retry_count : ℕ
  pub send_firmware : ℕ → ℕ → Bool

abbrev pub any : (ℕ → Bool) → List ℕ → Bool
any p [] = false
any p (x ∷ xs) = p x || any p xs

abbrev pub without : List ℕ → List ℕ → List ℕ
without [] ys = []
without (x ∷ xs) ys = if contains ys x then without xs ys else (x ∷ without xs ys)

-- dependency_lookup.get(ecu_name, set())
unfoldable pub dependencies_of : Campaign → ℕ → List ℕ
dependencies_of c n = elim c.dependency_map [
  | none ↦ (c.policy n).dependencies
  | some lookup ↦ lookup n
]

pub record Progress : Type 0 where
  pub results : List (ℕ × Status)
  pub failed_ecus : List ℕ
  pub skipped_ecus : List ℕ
  pub completed_or_satisfied : List ℕ
  pub fatal_policy_abort : Bool

abbrev pub start : Campaign → Progress
start c = record {
  results = [];
  failed_ecus = [];
  skipped_ecus = [];
  completed_or_satisfied = without c.discovered c.eligible;
  fatal_policy_abort = false;
}

-- A dependency failed, was skipped, or is neither scheduled nor satisfied.
unfoldable pub is_blocked : Campaign → Progress → ℕ → Bool
is_blocked c s n =
    any (λ d. contains s.failed_ecus d) (dependencies_of c n)
    || (any (λ d. contains s.skipped_ecus d) (dependencies_of c n)
        || any (λ d. not (contains c.update_order d) && not (contains s.completed_or_satisfied d))
            (dependencies_of c n))

-- `for attempt in range(1, self.flash_retry_count + 1)`, with the attempts that are left
unfoldable pub send_with_retries : Campaign → ℕ → ℕ → ℕ → Bool
send_with_retries c n attempt zero = false
send_with_retries c n attempt (suc left) =
    let later = send_with_retries c n (attempt + 1) left in
    if c.send_firmware n attempt then true else later

-- What one ECU makes of the campaign: it goes on, or ends here.
pub data Step : Type 0 where
  go_on : Progress → Step
  stop : Progress → Step

abbrev pub skip : Progress → ℕ → Status → Progress
skip s n status = record s {
  results = s.results ++ ((n, status) ∷ []);
  skipped_ecus = n ∷ s.skipped_ecus;
}

abbrev pub refuse : Progress → ℕ → Bool → Step
refuse s n true = stop (skip s n aborted)
refuse s n false = go_on (skip s n skipped)

unfoldable pub update_ecu : Campaign → Progress → ℕ → Progress
update_ecu c s n =
    if send_with_retries c n 1 c.flash_retry_count
    then record s {
      results = s.results ++ ((n, flashed) ∷ []);
      completed_or_satisfied = n ∷ s.completed_or_satisfied;
    }
    else record s {
      results = s.results ++ ((n, failed) ∷ []);
      failed_ecus = n ∷ s.failed_ecus;
      fatal_policy_abort = s.fatal_policy_abort || (c.policy n).is_critical;
    }

unfoldable pub step : Campaign → Progress → ℕ → Step
step c s n =
    if is_blocked c s n
    then refuse s n (dependency_failure_aborts_campaign (c.policy n))
    else if contains c.eligible n
    then go_on (update_ecu c s n)
    else if contains s.completed_or_satisfied n
    then go_on (record s { results = s.results ++ ((n, satisfied) ∷ []) })
    else refuse s n (unavailable_aborts_campaign (c.policy n))

pub record Outcome : Type 0 where
  pub progress : Progress
  pub returned : Bool

-- The loop ended: `not fatal_policy_abort and not failed_ecus`.
abbrev pub finished : Progress → Outcome
finished s = record {
  progress = s;
  returned = not s.fatal_policy_abort && leb (length s.failed_ecus) 0;
}

unfoldable pub run_campaign : Campaign → Progress → List ℕ → Outcome
run_campaign c s [] = finished s
run_campaign c s (n ∷ ns) = elim (step c s n) [
  | go_on s' ↦ run_campaign c s' ns
  | stop s' ↦ record { progress = s'; returned = false }
]

-- `verified` is what `verify_repository` tells.
unfoldable pub execute : Bool → Campaign → Result Outcome
execute verified c =
    if not verified
    then err (runtime_error "Firmware repository verification failed.")
    else ok (run_campaign c (start c) c.update_order)

pub data CampaignResult : Type 0 where
  no_applicable_updates aborted_by_policy flashing_complete partial_success campaign_failed :
      CampaignResult

abbrev pub is_skipped : Status → Bool
is_skipped skipped = true
is_skipped aborted = false
is_skipped satisfied = false
is_skipped failed = false
is_skipped flashed = false

abbrev pub is_aborted : Status → Bool
is_aborted skipped = false
is_aborted aborted = true
is_aborted satisfied = false
is_aborted failed = false
is_aborted flashed = false

abbrev pub is_failed : Status → Bool
is_failed skipped = false
is_failed aborted = false
is_failed satisfied = false
is_failed failed = true
is_failed flashed = false

-- The status "PASS" of the source is never recorded.
abbrev pub is_done : Status → Bool
is_done skipped = false
is_done aborted = false
is_done satisfied = true
is_done failed = false
is_done flashed = true

abbrev pub is_flashed_or_skipped : Status → Bool
is_flashed_or_skipped skipped = true
is_flashed_or_skipped aborted = false
is_flashed_or_skipped satisfied = false
is_flashed_or_skipped failed = false
is_flashed_or_skipped flashed = true

abbrev pub any_status : (Status → Bool) → List (ℕ × Status) → Bool
any_status p [] = false
any_status p ((n, status) ∷ rs) = p status || any_status p rs

abbrev pub all_statuses : (Status → Bool) → List (ℕ × Status) → Bool
all_statuses p [] = true
all_statuses p ((n, status) ∷ rs) = p status && all_statuses p rs

-- `_campaign_result`
unfoldable pub campaign_result : List (ℕ × Status) → CampaignResult
campaign_result results =
    if leb (length results) 0
    then no_applicable_updates
    else if any_status is_aborted results
    then aborted_by_policy
    else if all_statuses is_skipped results
    then no_applicable_updates
    else if all_statuses is_done results
    then flashing_complete
    else if any_status is_failed results && any_status is_flashed_or_skipped results
    then partial_success
    else campaign_failed
