-- ===== src/Planner/Executable.antt =====
-- DynamicUpdatePlanner.plan and UpdateScheduler.execute together, as tcu/main.py calls them: the ECUs that
-- a plan contains, and those that its campaign flashes.
use virtual_automotive_ota_d.Prelude.{
  ℕ, ◌≡◌, ap, ◌∙◌, ◌⊎◌, inl, inr, true, some, List, [], ◌∷◌, arith, contains, contains-cons,
  contains-here, ok,
}
use virtual_automotive_ota_d.Scheduler
use virtual_automotive_ota_d.Scheduler.{dependencies_of, run_campaign, start}
use virtual_automotive_ota_d.Scheduler.Safety.{flashed_names, IsOrdered, run_campaign-flashed}
use virtual_automotive_ota_d.Scheduler.Results.{run_campaign-scheduled}
use virtual_automotive_ota_d.Planner.Order.{IsTopological}
use virtual_automotive_ota_d.Planner.Resolve.{contains-graph_of}
use virtual_automotive_ota_d.Planner.Narrowing.{IsSupported}
use virtual_automotive_ota_d.Planner.Campaign.{plan_update-Left}
use virtual_automotive_ota_d.Planner.Dynamic.{
  Request, DynamicUpdatePlan, is_eligible, classify_all, names_with, graph_of, dependency_map,
  classified, satisfied_names, plan_update,
}

-- The targets that are classified ELIGIBLE.
abbrev pub eligible_targets : Request → List ℕ
eligible_targets r = names_with is_eligible (classify_all r r.targets)

-- The order of a plan that is returned contains, of the targets classified ELIGIBLE, the greatest set in
-- which each ECU's dependencies are in the set or are targets classified ALREADY_SATISFIED: it is such
-- a set, and it contains every such set.
pub plan_update-greatest :
    (r : Request) (p : DynamicUpdatePlan)
    → plan_update r ≡ some (ok p)
    → IsSupported (dependency_map r) (satisfied_names r) p.update_order
      × ((n : ℕ) → contains p.update_order n ≡ true → contains (eligible_targets r) n ≡ true)
      × ((names : List ℕ)
          → IsSupported (dependency_map r) (satisfied_names r) names
          → ((n : ℕ) → contains names n ≡ true → contains (eligible_targets r) n ≡ true)
          → (n : ℕ) → contains names n ≡ true
          → contains p.update_order n ≡ true)
unfolding classified
plan_update-greatest r p h =
    let (s, (left, o)) = plan_update-Left r p h in
    (
      λ n d i k. ground (arith, left.supported n d (rw⁻¹ (o.members n) i) k, o.members d),
      λ n i. left.kept n (rw⁻¹ (o.members n) i),
      λ names supported inside n i. rw (o.members n) (left.greatest names supported inside n i),
    )

-- The campaign that tcu/main.py hands to the scheduler: the order and the dependencies of the plan, for
-- the ECUs that it selects.
pub record Executes (r : Request) (p : DynamicUpdatePlan) (c : Scheduler.Campaign) : Type 0 where
  pub same_order : c.update_order ≡ p.update_order
  pub same_dependencies : c.dependency_map ≡ some (dependency_map r)
  pub selected : (n : ℕ) → contains c.eligible n ≡ contains p.update_order n

dependencies-Executes :
    (r : Request) (p : DynamicUpdatePlan) (c : Scheduler.Campaign)
    → Executes r p c
    → (n : ℕ) → dependencies_of c n ≡ dependency_map r n
unfolding dependencies_of
dependencies-Executes r p c x n = rw (dependencies_of, x.same_dependencies)

plan-IsOrdered :
    (r : Request) (names : List ℕ) (c : Scheduler.Campaign) (seen ns : List ℕ)
    → ((n : ℕ) → dependencies_of c n ≡ dependency_map r n)
    → ((n : ℕ) → contains c.update_order n ≡ contains names n)
    → ((n : ℕ) → contains ns n ≡ true → contains names n ≡ true)
    → IsTopological (graph_of (dependency_map r) names) seen ns
    → IsOrdered c seen ns
plan-IsOrdered r names c seen [] same members inside t = tt
plan-IsOrdered r names c seen (n ∷ ns) same members inside (parents, t) = (
  λ d k i.
      let k' : contains (dependency_map r n) d ≡ true = rw⁻¹ (same n) k in
      let i' : contains names d ≡ true = rw⁻¹ (members d) i in
      let edge = contains-graph_of (dependency_map r) names d n in
      let i'' = inside n (contains-here n ns) in parents d (ground arith),
  plan-IsOrdered r names c (n ∷ seen) ns same members (λ m h. inside m (contains-cons n ns m h)) t,
)

-- When a campaign executes a plan that was returned, whatever is sent and wherever the campaign stops:
-- each dependency of an ECU that was flashed was itself flashed, or is a target classified
-- ALREADY_SATISFIED.
pub plan_update-flashed :
    (r : Request) (p : DynamicUpdatePlan) (c : Scheduler.Campaign)
    → plan_update r ≡ some (ok p)
    → Executes r p c
    → (n d : ℕ)
    → contains (flashed_names (run_campaign c (start c) c.update_order).progress.results) n ≡ true
    → contains (dependency_map r n) d ≡ true
    → (contains (satisfied_names r) d ≡ true)
      ⊎ (contains (flashed_names (run_campaign c (start c) c.update_order).progress.results) d
          ≡ true)
plan_update-flashed r p c h x n d flashed k =
    let (s, (left, o)) = plan_update-Left r p h in
    let same = dependencies-Executes r p c x in
    let members : (m : ℕ) → contains c.update_order m ≡ contains s.executable m =
      λ m. ap (λ xs. contains xs m) x.same_order ∙ o.members m in
    let ordered : IsOrdered c [] c.update_order =
      plan-IsOrdered r s.executable c [] c.update_order same members (λ m i. rw⁻¹ (members m) i)
        (rw x.same_order o.topological) in
    let scheduled : contains c.update_order n ≡ true =
      elim (run_campaign-scheduled c (start c) c.update_order n flashed) [
        | inl before ↦ absurd (ground arith)
        | inr i ↦ i
      ] in
    elim (run_campaign-flashed c ordered n d flashed (rw (same n) k)) [
      | inr done ↦ inr done
      | inl (discovered, other) ↦ elim (left.supported n d (rw⁻¹ (members n) scheduled) k) [
        | inl i ↦ absurd (ground (arith, x.selected d, o.members d))
        | inr i ↦ inl i
      ]
    ]
