-- ===== src/Planner/Dynamic.antt =====
-- DynamicUpdatePlanner.plan (tcu/dynamic_update_planner.py): the classification of a campaign's targets,
-- the dependencies, the ECUs that stay executable, and their order. Names are numbers; a set of names is
-- a list. The texts of the errors and the report are left out.
use virtual_automotive_ota_d.Prelude.{
  ℕ, zero, suc, Bool, true, false, not, ◌&&◌, ◌||◌, Option, none, some, List, [], ◌∷◌, ◌++◌,
  contains, remove, length, ltb, leb, ◌==◌, if◌then◌else◌, Result, ok, err,
}
use virtual_automotive_ota_d.Scheduler.{
  Policy, unavailable_aborts_campaign, dependency_failure_aborts_campaign, any, without,
}
use virtual_automotive_ota_d.Planner.{
  Graph, empty_graph, add_nodes, add_all_dependencies, sort_nodes, plan,
}

pub data Classification : Type 0 where
  eligible already_satisfied : Classification
  skipped_by_policy skipped_not_found skipped_not_eligible : Classification
  abort_not_found abort_not_eligible : Classification
  blocked_unavailable blocked_skipped : Classification

pub data BlockingError : Type 0 where
  not_discovered required_not_eligible blocking_dependencies : ℕ → BlockingError
  unknown_dependency : ℕ → ℕ → BlockingError
  dependency_cycle : BlockingError

pub record Target : Type 0 where
  pub ecu_name : ℕ
  pub mandatory : Bool
  pub skip_if_unavailable : Bool
  pub skip_if_incompatible : Bool

-- What the planner is given: the campaign's targets, its skipped targets, its dependency overrides and
-- priorities; the names of the eligible updates and of the discovered ECUs, and for those whether
-- `_version_matches` holds of the current and the target version; the policies and the names in the
-- topology's registry.
pub record Request : Type 0 where
  pub targets : List Target
  pub skipped_targets : List ℕ
  pub dependency_overrides : ℕ → Option (List ℕ)
  pub priority : ℕ → ℕ
  pub eligible_names : List ℕ
  pub discovered : List ℕ
  pub version_matches : ℕ → Bool
  pub policy : ℕ → Policy
  pub registry : List ℕ

unfoldable pub classify : Request → Target → Classification
classify r t =
    if contains r.eligible_names t.ecu_name
    then eligible
    else if contains r.skipped_targets t.ecu_name
    then skipped_by_policy
    else if not (contains r.discovered t.ecu_name)
    then (if t.mandatory
          && (not t.skip_if_unavailable && unavailable_aborts_campaign (r.policy t.ecu_name))
        then abort_not_found
        else skipped_not_found)
    else if r.version_matches t.ecu_name
    then already_satisfied
    else if (t.mandatory && not t.skip_if_incompatible)
        || (unavailable_aborts_campaign (r.policy t.ecu_name) && not t.skip_if_incompatible)
    then abort_not_eligible
    else skipped_not_eligible

-- The error that a classification adds
abbrev pub error_of : ℕ → Classification → List BlockingError
error_of n abort_not_found = not_discovered n ∷ []
error_of n abort_not_eligible = required_not_eligible n ∷ []
error_of n _ = []

abbrev pub classify_all : Request → List Target → List (ℕ × Classification)
classify_all r [] = []
classify_all r (t ∷ ts) = (t.ecu_name, classify r t) ∷ classify_all r ts

abbrev pub classification_errors : List (ℕ × Classification) → List BlockingError
classification_errors [] = []
classification_errors ((n, c) ∷ cs) = error_of n c ++ classification_errors cs

abbrev pub is_eligible : Classification → Bool
is_eligible eligible = true
is_eligible _ = false

abbrev pub is_satisfied : Classification → Bool
is_satisfied already_satisfied = true
is_satisfied _ = false

-- The text starts with SKIPPED, BLOCKED_BY_DEPENDENCY or ABORT_REQUIRED.
abbrev pub is_skipped : Classification → Bool
is_skipped eligible = false
is_skipped already_satisfied = false
is_skipped _ = true

abbrev pub names_with : (Classification → Bool) → List (ℕ × Classification) → List ℕ
names_with p [] = []
names_with p ((n, c) ∷ cs) = if p c then (n ∷ names_with p cs) else names_with p cs

abbrev pub reclassify : ℕ → Classification → List (ℕ × Classification) → List (ℕ × Classification)
reclassify n c [] = []
reclassify n c ((m, old) ∷ cs) =
    if m == n then ((m, c) ∷ reclassify n c cs) else ((m, old) ∷ reclassify n c cs)

abbrev pub target_names : List Target → List ℕ
target_names [] = []
target_names (t ∷ ts) = t.ecu_name ∷ target_names ts

unfoldable pub dependencies_for : Request → ℕ → List ℕ
dependencies_for r n = elim (r.dependency_overrides n) [
  | some dependencies ↦ dependencies
  | none ↦ (r.policy n).dependencies
]

-- `dependency_map.get(name, set())`
unfoldable pub dependency_map : Request → ℕ → List ℕ
dependency_map r n = if contains (target_names r.targets) n then dependencies_for r n else []

abbrev pub unknown_dependencies : ℕ → List ℕ → List ℕ → List BlockingError
unknown_dependencies n known [] = []
unknown_dependencies n known (d ∷ ds) =
    if contains known d
    then unknown_dependencies n known ds
    else (unknown_dependency n d ∷ unknown_dependencies n known ds)

abbrev pub all_unknown : Request → List ℕ → List ℕ → List BlockingError
all_unknown r known [] = []
all_unknown r known (n ∷ ns) =
    unknown_dependencies n known (dependencies_for r n) ++ all_unknown r known ns

abbrev pub common : List ℕ → List ℕ → List ℕ
common [] ys = []
common (x ∷ xs) ys = if contains ys x then (x ∷ common xs ys) else common xs ys

-- The graph of `names` with the dependencies that are among them.
unfoldable pub graph_of : (ℕ → List ℕ) → List ℕ → Graph
graph_of dependencies names =
    add_all_dependencies (add_nodes empty_graph names) (λ n. common (dependencies n) names) names

-- `_validate_cycle`: whether the planner raises
abbrev pub cycle_errors : Option (Result (List ℕ)) → List BlockingError
cycle_errors (some (err raised)) = dependency_cycle ∷ []
cycle_errors _ = []

unfoldable pub dependency_errors : Request → List BlockingError
dependency_errors r =
    let names = target_names r.targets in
    let errors = all_unknown r (r.registry ++ names) names in
    if leb (length errors) 0
    then cycle_errors (plan (graph_of (dependency_map r) names) (λ n. 9999))
    else errors

pub record Narrowing : Type 0 where
  pub executable : List ℕ
  pub classifications : List (ℕ × Classification)
  pub blocking_errors : List BlockingError

-- `dependencies - executable_names - satisfied_names`
unfoldable pub missing : (ℕ → List ℕ) → List ℕ → List ℕ → ℕ → List ℕ
missing dependencies satisfied executable n =
    without (without (dependencies n) executable) satisfied

-- The first of the names that has a dependency missing
abbrev pub first_blocked : (ℕ → List ℕ) → List ℕ → List ℕ → List ℕ → Option ℕ
first_blocked dependencies satisfied executable [] = none
first_blocked dependencies satisfied executable (n ∷ ns) =
    if ltb 0 (length (missing dependencies satisfied executable n))
    then some n
    else first_blocked dependencies satisfied executable ns

unfoldable pub block : Request → List ℕ → Narrowing → ℕ → Narrowing
block r satisfied s n =
    let absent = missing (dependency_map r) satisfied s.executable n in
    let skipped = names_with is_skipped s.classifications in
    record {
      executable = remove n s.executable;
      classifications =
          reclassify n
            (if any (λ d. contains skipped d) absent then blocked_skipped else blocked_unavailable)
            s.classifications;
      blocking_errors =
          if dependency_failure_aborts_campaign (r.policy n)
          then s.blocking_errors ++ (blocking_dependencies n ∷ [])
          else s.blocking_errors;
    }

-- `while changed`, on fuel.
abbrev pub narrow : ℕ → Request → List ℕ → Narrowing → Option Narrowing
narrow zero r satisfied s = none
narrow (suc fuel) r satisfied s =
    elim (first_blocked (dependency_map r) satisfied s.executable
      (sort_nodes (λ n. 0) s.executable)) [
        | none ↦ some s
        | some n ↦ narrow fuel r satisfied (block r satisfied s n)
      ]

pub record DynamicUpdatePlan : Type 0 where
  pub update_order : List ℕ
  pub classifications : List (ℕ × Classification)
  pub blocking_errors : List BlockingError

unfoldable pub classified : Request → Narrowing
classified r =
    let classes = classify_all r r.targets in
    record {
      executable = names_with is_eligible classes;
      classifications = classes;
      blocking_errors = classification_errors classes ++ dependency_errors r;
    }

abbrev pub satisfied_names : Request → List ℕ
satisfied_names r = names_with is_satisfied (classify_all r r.targets)

-- The plan of what stays executable; a cycle among those raises.
unfoldable pub order_of : Request → Narrowing → Option (Result DynamicUpdatePlan)
order_of r s =
    elim (if leb (length s.executable) 0
      then some (ok [])
      else plan (graph_of (dependency_map r) s.executable) r.priority) [
        | none ↦ none
        | some (err raised) ↦ some (err raised)
        | some (ok order) ↦ some (
            ok (record {
              update_order = order;
              classifications = s.classifications;
              blocking_errors = s.blocking_errors;
            }))
      ]

-- One turn of the loop for each executable name and one that changes nothing.
unfoldable pub plan_update : Request → Option (Result DynamicUpdatePlan)
plan_update r =
    elim (narrow (suc (length (classified r).executable)) r (satisfied_names r) (classified r)) [
      | none ↦ none
      | some s ↦ order_of r s
    ]
