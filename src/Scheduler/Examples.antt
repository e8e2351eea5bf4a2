-- ===== src/Scheduler/Examples.antt =====
-- A campaign over a gateway (1), a body controller (2) behind it, and a cluster (3) behind that one,
-- whose transfer fails.
use virtual_automotive_ota_d.Prelude.{
  contains, ℕ, ◌≡◌, ◌⊎◌, refl, true, false, not, none, some, List, [], ◌∷◌, ◌==◌, if◌then◌else◌,
  arith,
}
use virtual_automotive_ota_d.Scheduler.{
  Campaign, failed, flashed, skipped, campaign_result, campaign_failed, dependencies_of, start,
  is_blocked, update_ecu, send_with_retries, step, run_campaign,
}
use virtual_automotive_ota_d.Scheduler.Safety.{flashed_names, IsOrdered, run_campaign-flashed}
use virtual_automotive_ota_d.Scheduler.Returns.{
  all_good, run_campaign-returned, campaign_result-skipped,
}

abbrev behind : ℕ → List ℕ
behind n = if n == 2 then 1 ∷ [] else if n == 3 then 2 ∷ [] else []

abbrev campaign : Campaign
campaign = record {
  policy = λ n. record {
    dependencies = behind n;
    is_critical = false;
    aborts_if_unavailable = false;
    aborts_if_dependency_failed = false;
  };
  eligible = 1 ∷ 2 ∷ 3 ∷ [];
  discovered = 1 ∷ 2 ∷ 3 ∷ [];
  dependency_map = none;
  update_order = 1 ∷ 2 ∷ 3 ∷ [];
  flash_retry_count = 2;
  send_firmware = λ n attempt. not (n == 3);
}

campaign-results :
    (run_campaign campaign (start campaign) campaign.update_order).progress.results
    ≡ (1, flashed) ∷ (2, flashed) ∷ (3, failed) ∷ []
unfolding run_campaign step is_blocked update_ecu send_with_retries dependencies_of
campaign-results = refl

ordered : IsOrdered campaign [] campaign.update_order
unfolding dependencies_of
ordered = (λ d h. cc, (λ d h k. ground arith, (λ d h k. ground arith, tt)))

two-flashed :
    contains
      (flashed_names
        (run_campaign campaign (start campaign) campaign.update_order).progress.results)
      2
    ≡ true
two-flashed = rw campaign-results

two-behind_one : contains (dependencies_of campaign 2) 1 ≡ true
unfolding dependencies_of
two-behind_one = refl

run_campaign-flashed_example :
    ((contains campaign.discovered 1 ≡ true) × (contains campaign.eligible 1 ≡ false))
    ⊎ (contains
          (flashed_names
            (run_campaign campaign (start campaign) campaign.update_order).progress.results)
          1
        ≡ true)
run_campaign-flashed_example = run_campaign-flashed campaign ordered 2 1 two-flashed two-behind_one

run_campaign-returned_example :
    (run_campaign campaign (start campaign) campaign.update_order).returned
    ≡ all_good (run_campaign campaign (start campaign) campaign.update_order).progress.results
run_campaign-returned_example = run_campaign-returned campaign

-- An ECU 2 that is skipped since its dependency 9 is nowhere to be found.
abbrev with_orphan : Campaign
with_orphan = record campaign {
  dependency_map = some (λ n. if n == 2 then 9 ∷ [] else []);
  eligible = 1 ∷ 2 ∷ [];
  discovered = 1 ∷ 2 ∷ [];
  update_order = 1 ∷ 2 ∷ [];
}

with_orphan-results :
    (run_campaign with_orphan (start with_orphan) with_orphan.update_order).progress.results
    ≡ (1, flashed) ∷ (2, skipped) ∷ []
unfolding run_campaign step is_blocked update_ecu send_with_retries dependencies_of
with_orphan-results = refl

with_orphan-returned :
    (run_campaign with_orphan (start with_orphan) with_orphan.update_order).returned ≡ true
unfolding run_campaign step is_blocked update_ecu send_with_retries dependencies_of
with_orphan-returned = refl

campaign_result-skipped_example :
    campaign_result
      (run_campaign with_orphan (start with_orphan) with_orphan.update_order).progress.results
    ≡ campaign_failed
campaign_result-skipped_example =
    campaign_result-skipped with_orphan with_orphan-returned (rw with_orphan-results)
      (rw with_orphan-results)
