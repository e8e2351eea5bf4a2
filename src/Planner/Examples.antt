-- ===== src/Planner/Examples.antt =====
-- A campaign for a gateway (1), a body controller (2) behind it, and a cluster (3) behind both; and a
-- graph with a cycle.
use virtual_automotive_ota_d.Prelude.{
  ℕ, ◌<◌, ◌≡◌, refl, ◌↔◌, ◌⊎◌, true, false, none, some, List, [], ◌∷◌, contains, count, ◌==◌,
  if◌then◌else◌, Result, ok, err, runtime_error,
}
use virtual_automotive_ota_d.Scheduler
use virtual_automotive_ota_d.Scheduler.{
  Policy, run_campaign, step, is_blocked, update_ecu, send_with_retries, start, dependencies_of,
}
use virtual_automotive_ota_d.Scheduler.Safety.{flashed_names}
use virtual_automotive_ota_d.Planner.{
  Graph, children, plan, build, Sources, build_dependencies, add_name,
}
use virtual_automotive_ota_d.Planner.Order.{IsTopological, plan-returns}
use virtual_automotive_ota_d.Planner.Cycles.{plan-IsTopological, plan-acyclic}
use virtual_automotive_ota_d.Planner.Narrowing.{IsSupported}
use virtual_automotive_ota_d.Planner.Resolve.{build-IsGraph}
use virtual_automotive_ota_d.Planner.Campaign.{plan_update-returns}
use virtual_automotive_ota_d.Planner.Executable.{
  eligible_targets, plan_update-greatest, plan_update-flashed, Executes,
}
use virtual_automotive_ota_d.Planner.Dynamic.{
  Request, Target, DynamicUpdatePlan, skipped_not_eligible, eligible, already_satisfied,
  blocked_skipped, blocking_dependencies, plan_update, dependency_map, dependencies_for, classify,
  classified, dependency_errors, missing, block, order_of, graph_of, satisfied_names,
}

abbrev behind : ℕ → List ℕ
behind n = if n == 2 then 1 ∷ [] else if n == 3 then 1 ∷ 2 ∷ [] else []

abbrev sources : Sources
sources = record { overrides = λ n. none; policies = behind; reported = λ n. [] }

abbrev graph : Graph
graph = build sources (3 ∷ 2 ∷ 1 ∷ [])

abbrev no_priority : ℕ → ℕ
no_priority n = 9999

graph-planned : plan graph no_priority ≡ some (ok (1 ∷ 2 ∷ 3 ∷ []))
unfolding plan build build_dependencies add_name
graph-planned = refl

abbrev circle : Graph
circle = build (record sources { policies = λ n. if n == 1 then 2 ∷ [] else 1 ∷ [] }) (1 ∷ 2 ∷ [])

circle-planned :
    plan circle no_priority
    ≡ some (err (runtime_error "Dependency cycle detected. Update plan cannot be generated."))
unfolding plan build build_dependencies add_name
circle-planned = refl

plan-returns_example : (r : Result (List ℕ)) × (plan circle no_priority ≡ some r)
plan-returns_example = plan-returns circle no_priority (
    build-IsGraph (record sources { policies = λ n. if n == 1 then 2 ∷ [] else 1 ∷ [] })
      (1 ∷ 2 ∷ []))

plan-IsTopological_example :
    IsTopological graph [] (1 ∷ 2 ∷ 3 ∷ [])
    × ((n : ℕ) → count n (1 ∷ 2 ∷ 3 ∷ []) ≡ count n graph.nodes)
plan-IsTopological_example =
    plan-IsTopological graph no_priority (build-IsGraph sources (3 ∷ 2 ∷ 1 ∷ [])) (1 ∷ 2 ∷ 3 ∷ [])
      graph-planned

plan-acyclic_example :
    ((order : List ℕ) × (plan graph no_priority ≡ some (ok order)))
    ↔ ((rank : ℕ → ℕ) × ((m n : ℕ) → contains (children graph m) n ≡ true → rank m < rank n))
plan-acyclic_example = plan-acyclic graph no_priority (build-IsGraph sources (3 ∷ 2 ∷ 1 ∷ []))

abbrev target : ℕ → Target
target n = record {
  ecu_name = n;
  mandatory = false;
  skip_if_unavailable = false;
  skip_if_incompatible = false;
}

-- The gateway has its version already; ECU 4 is not eligible, and ECU 5 is behind it.
abbrev request : Request
request = record {
  targets = target 1 ∷ target 2 ∷ target 3 ∷ target 4 ∷ target 5 ∷ [];
  skipped_targets = [];
  dependency_overrides = λ n. if n == 5 then some (4 ∷ []) else none;
  priority = λ n. n;
  eligible_names = 2 ∷ 3 ∷ 5 ∷ [];
  discovered = 1 ∷ 2 ∷ 3 ∷ 4 ∷ 5 ∷ [];
  version_matches = λ n. n == 1;
  policy = λ n. record {
    dependencies = behind n;
    is_critical = false;
    aborts_if_unavailable = false;
    aborts_if_dependency_failed = n == 5;
  };
  registry = 1 ∷ 2 ∷ 3 ∷ 4 ∷ 5 ∷ [];
}

abbrev planned : DynamicUpdatePlan
planned = record {
  update_order = 2 ∷ 3 ∷ [];
  classifications =
      (1, already_satisfied)
      ∷ (2, eligible)
      ∷ (3, eligible)
      ∷ (4, skipped_not_eligible)
      ∷ (5, blocked_skipped)
      ∷ [];
  blocking_errors = blocking_dependencies 5 ∷ [];
}

request-planned : plan_update request ≡ some (ok planned)
unfolding plan_update dependency_map dependencies_for classify classified dependency_errors missing
    block order_of graph_of plan add_name
request-planned = refl

plan_update-returns_example : (res : Result DynamicUpdatePlan) × (plan_update request ≡ some res)
plan_update-returns_example = plan_update-returns request

plan_update-greatest_example :
    IsSupported (dependency_map request) (satisfied_names request) planned.update_order
    × ((n : ℕ)
        → contains planned.update_order n ≡ true
        → contains (eligible_targets request) n ≡ true)
    × ((names : List ℕ)
        → IsSupported (dependency_map request) (satisfied_names request) names
        → ((n : ℕ) → contains names n ≡ true → contains (eligible_targets request) n ≡ true)
        → (n : ℕ) → contains names n ≡ true
        → contains planned.update_order n ≡ true)
plan_update-greatest_example = plan_update-greatest request planned request-planned

abbrev executed : Scheduler.Campaign
executed = record {
  policy = request.policy;
  eligible = 2 ∷ 3 ∷ [];
  discovered = request.discovered;
  dependency_map = some (dependency_map request);
  update_order = 2 ∷ 3 ∷ [];
  flash_retry_count = 2;
  send_firmware = λ n attempt. attempt == 2;
}

executed-Executes : Executes request planned executed
executed-Executes = record { same_order = refl; same_dependencies = refl; selected = λ n. refl }

three-flashed :
    contains
      (flashed_names
        (run_campaign executed (start executed) executed.update_order).progress.results)
      3
    ≡ true
unfolding run_campaign step is_blocked update_ecu send_with_retries dependencies_of dependency_map
    dependencies_for
three-flashed = refl

three-behind_two : contains (dependency_map request 3) 2 ≡ true
unfolding dependency_map dependencies_for
three-behind_two = refl

plan_update-flashed_example :
    (contains (satisfied_names request) 2 ≡ true)
    ⊎ (contains
          (flashed_names
            (run_campaign executed (start executed) executed.update_order).progress.results)
          2
        ≡ true)
plan_update-flashed_example =
    plan_update-flashed request planned executed request-planned executed-Executes 3 2 three-flashed
      three-behind_two
