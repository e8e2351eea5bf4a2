-- ===== src/Planner/Campaign.antt =====
-- DynamicUpdatePlanner.plan (tcu/dynamic_update_planner.py) as tcu/main.py uses it: what its plan says of
-- the order, and the campaign that UpdateScheduler.execute makes of it.
use virtual_automotive_ota_d.Prelude.{
  ℕ, suc, ◌≡◌, refl, sym, ap, ◌∙◌, ◌⊎◌, inl, inr, true, false, Option, some, List, [], ◌∷◌, arith,
  contains, count, count-zero, contains-count, count-contains, length, leb, Bool-cases, Result, ok,
  err, Result-cases,
}
use virtual_automotive_ota_d.Planner.{Graph, plan}
use virtual_automotive_ota_d.Planner.Order.{IsTopological, plan-returns}
use virtual_automotive_ota_d.Planner.Cycles.{plan-IsTopological}
use virtual_automotive_ota_d.Planner.Resolve.{graph_of-IsGraph, nodes-graph_of}
use virtual_automotive_ota_d.Planner.Narrowing.{Narrowed, narrow-Narrowed}
use virtual_automotive_ota_d.Planner.Dynamic.{
  Request, Narrowing, DynamicUpdatePlan, graph_of, dependency_map, classified, satisfied_names,
  order_of, plan_update,
}

empty-or : (xs : List ℕ) → (xs ≡ []) ⊎ (leb (length xs) 0 ≡ false)
empty-or [] = inl refl
empty-or (x ∷ xs) = inr (ground arith)

IsTopological-weaken :
    (g : Graph) (seen seen' order : List ℕ)
    → ((n : ℕ) → contains seen n ≡ true → contains seen' n ≡ true)
    → IsTopological g seen order
    → IsTopological g seen' order
IsTopological-weaken g seen seen' [] more t = tt
IsTopological-weaken g seen seen' (n ∷ ns) more (parents, t) = (
  λ d h. more d (parents d h),
  IsTopological-weaken g (n ∷ seen) (n ∷ seen') ns (λ m h. ground (arith, more m)) t,
)

-- What order_of gives
pub record Ordered (r : Request) (names order : List ℕ) : Type 0 where
  pub same : (n : ℕ) → count n order ≡ count n (graph_of (dependency_map r) names).nodes
  pub members : (n : ℕ) → contains order n ≡ contains names n
  pub topological : IsTopological (graph_of (dependency_map r) names) [] order

contains-by_count :
    (xs ys : List ℕ) (n : ℕ) → count n xs ≡ count n ys → contains xs n ≡ contains ys n
contains-by_count xs ys n e = elim (Bool-cases (contains xs n)) [
  | inl h ↦ ground (count-contains ys n (omega (arith, contains-count xs n h)), arith)
  | inr h ↦ elim (Bool-cases (contains ys n)) [
    | inl k ↦ absurd (omega (arith, count-zero n xs h, contains-count ys n k))
    | inr k ↦ ground arith
  ]
]

nothing-Ordered : (r : Request) → Ordered r [] []
unfolding graph_of
nothing-Ordered r = record { same = λ n. refl; members = λ n. refl; topological = tt }

planned-Ordered :
    (r : Request) (names order : List ℕ)
    → plan (graph_of (dependency_map r) names) r.priority ≡ some (ok order)
    → Ordered r names order
planned-Ordered r names order h =
    let g = graph_of (dependency_map r) names in
    let (t, same) =
      plan-IsTopological g r.priority (graph_of-IsGraph (dependency_map r) names) order h in
    record {
      same = same;
      members = λ n.
          contains-by_count order g.nodes n (same n) ∙ nodes-graph_of (dependency_map r) names n;
      topological = t;
    }

abbrev order_in : Option (Result DynamicUpdatePlan) → List ℕ
order_in (some (ok p)) = p.update_order
order_in _ = []

abbrev with_order : Narrowing → List ℕ → DynamicUpdatePlan
with_order s order = record {
  update_order = order;
  classifications = s.classifications;
  blocking_errors = s.blocking_errors;
}

order_of-nothing :
    (r : Request) (s : Narrowing) → s.executable ≡ [] → order_of r s ≡ some (ok (with_order s []))
unfolding order_of
order_of-nothing r s e = rw (order_of, e)

order_of-planned :
    (r : Request) (s : Narrowing) (res : Result (List ℕ))
    → leb (length s.executable) 0 ≡ false
    → plan (graph_of (dependency_map r) s.executable) r.priority ≡ some res
    → order_of r s
      ≡ elim res [ ok order ↦ some (ok (with_order s order)) | err raised ↦ some (err raised) ]
unfolding order_of
order_of-planned r s res e f = elim (Result-cases res) [
  | inl (order, k) ↦ rw (order_of, e, f, k)
  | inr (x, k) ↦ rw (order_of, e, f, k)
]

-- The graph of the executable names always has an outcome.
planned :
    (r : Request) (s : Narrowing)
    → (res : Result (List ℕ)) × (plan (graph_of (dependency_map r) s.executable) r.priority
        ≡ some res)
planned r s =
    plan-returns (graph_of (dependency_map r) s.executable) r.priority
      (graph_of-IsGraph (dependency_map r) s.executable)

order_of-returns :
    (r : Request) (s : Narrowing) → (res : Result DynamicUpdatePlan) × (order_of r s ≡ some res)
order_of-returns r s = elim (empty-or s.executable) [
  | inl e ↦ (ok (with_order s []), order_of-nothing r s e)
  | inr e ↦
      let (res, f) = planned r s in
      elim (Result-cases res) [
        | inl (order, k) ↦
            (ok (with_order s order), order_of-planned r s (ok order) e (f ∙ ap some k))
        | inr (x, k) ↦ (err x, order_of-planned r s (err x) e (f ∙ ap some k))
      ]
]

order_of-Ordered :
    (r : Request) (s : Narrowing) (p : DynamicUpdatePlan)
    → order_of r s ≡ some (ok p)
    → Ordered r s.executable p.update_order
order_of-Ordered r s p h = elim (empty-or s.executable) [
  | inl e ↦
      let same : [] ≡ p.update_order = ap order_in (sym (order_of-nothing r s e) ∙ h) in
      rw⁻¹ same (rw e (nothing-Ordered r))
  | inr e ↦
      let (res, f) = planned r s in
      elim (Result-cases res) [
        | inl (order, k) ↦
            let same : order ≡ p.update_order =
              ap order_in (sym (order_of-planned r s (ok order) e (f ∙ ap some k)) ∙ h) in
            rw⁻¹ same (planned-Ordered r s.executable order (f ∙ ap some k))
        | inr (x, k) ↦
            let raised = sym (order_of-planned r s (err x) e (f ∙ ap some k)) ∙ h in
            absurd (ground (arith, raised))
      ]
]

-- The planner returns for every request: its loop of blocked dependencies ends within one turn for each
-- executable name and one more, and the ordering of what is left within one turn for each node.
pub plan_update-returns :
    (r : Request) → (res : Result DynamicUpdatePlan) × (plan_update r ≡ some res)
unfolding plan_update
plan_update-returns r =
    let (s, e, n) =
      narrow-Narrowed r (satisfied_names r) (suc (length (classified r).executable)) (classified r)
        (omega arith) in
    let (res, f) = order_of-returns r s in (res, rw (plan_update, e) f)

-- What is left of the executable names, when a plan is returned
abbrev pub Left : Request → DynamicUpdatePlan → Narrowing → Type 0
Left r p s = Narrowed r (satisfied_names r) (classified r) s × Ordered r s.executable p.update_order

pub plan_update-Left :
    (r : Request) (p : DynamicUpdatePlan)
    → plan_update r ≡ some (ok p)
    → (s : Narrowing) × Left r p s
unfolding plan_update
plan_update-Left r p h =
    let (s, e, n) =
      narrow-Narrowed r (satisfied_names r) (suc (length (classified r).executable)) (classified r)
        (omega arith) in
    let f : plan_update r ≡ order_of r s = rw (plan_update, e) in
    (s, (n, order_of-Ordered r s p (sym f ∙ h)))
