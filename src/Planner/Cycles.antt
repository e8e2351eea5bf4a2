-- ===== src/Planner/Cycles.antt =====
-- TopologicalUpdatePlanner.plan (tcu/dependency_manager.py): planned orders, and the graphs that have one.
use virtual_automotive_ota_d.Prelude.{
  count-same, count-contains, ℕ, zero, suc, ◌≤◌, ◌<◌, ◌≡◌, ◌∙◌, ◌↔◌, ◌⊎◌, inl, inr, true, some,
  List, [], ◌∷◌, arith, contains, count, contains-count, count-same, length_le, contains_all,
  length, ◌==◌, if◌then◌else◌, Bool-cases, ok, ==_self,
}
use virtual_automotive_ota_d.Planner.{Graph, children, plan}
use virtual_automotive_ota_d.Planner.Visit.{pending, pending-visited}
use virtual_automotive_ota_d.Planner.Order.{
  IsTopological, IsGraph, visited_after, contains-visited_after, count-visited_after, start-Visited,
  plan-Visited, plan-order_lem,
}

-- The nodes visited when the loop ends: distinct, and all nodes.
module _ (g : Graph) (priority : ℕ → ℕ) (v : IsGraph g) where
  ended_once : (n : ℕ) → count n (start-Visited g priority v).order ≤ 1
  ended_once n =
      let s = start-Visited g priority v in
      omega (arith, s.final.once n, count-visited_after s.order [] n)

  ended_known :
      (n : ℕ) → contains (start-Visited g priority v).order n ≡ true → contains g.nodes n ≡ true
  ended_known n h =
      let s = start-Visited g priority v in
      s.final.visited_known n (rw (contains-visited_after s.order [] n) (ground arith))

  -- A node whose parents were all visited was visited.
  ended_found :
      (n : ℕ)
      → contains g.nodes n ≡ true
      → ((m : ℕ)
          → contains (children g m) n ≡ true
          → contains (start-Visited g priority v).order m ≡ true)
      → contains (start-Visited g priority v).order n ≡ true
  ended_found n k parents =
      let s = start-Visited g priority v in
      let none_left : pending (visited_after s.order []) g.edges n ≡ 0 =
        pending-visited (visited_after s.order []) g.edges n
          λ m h. rw (contains-visited_after s.order [] m) (ground (arith, parents m h)) in
      elim (s.final.found n k (ground (arith, s.final.counted n))) [
        | inl queued ↦ absurd (ground arith)
        | inr visited ↦ ground (arith, contains-visited_after s.order [] n)
      ]

  -- On a graph whose nodes are distinct and contain the ends of every edge, a planned order contains
  -- each node as often as the graph does, and every node stands after all its parents.
  pub plan-IsTopological :
      (order : List ℕ)
      → plan g priority ≡ some (ok order)
      → IsTopological g [] order × ((n : ℕ) → count n order ≡ count n g.nodes)
  plan-IsTopological order h =
      let s = start-Visited g priority v in
      let (e, all) = plan-order_lem g priority v order h in
      let once : (n : ℕ) → count n order ≤ 1 = rw⁻¹ e ended_once in
      let known : (n : ℕ) → contains order n ≡ true → contains g.nodes n ≡ true =
        rw⁻¹ e ended_known in
      let complete = contains_all order g.nodes once known all in
      (
        rw⁻¹ e s.topological,
        λ n. count-same order g.nodes n (once n) (v.once n) (known n) (complete n),
      )

  -- Every node is visited when the edges go up in rank.
  ranked_found :
      (rank : ℕ → ℕ)
      → ((m n : ℕ) → contains (children g m) n ≡ true → rank m < rank n)
      → (bound n : ℕ) → rank n < bound
      → contains g.nodes n ≡ true
      → contains (start-Visited g priority v).order n ≡ true
  ranked_found rank up zero n h k = absurd (omega arith)
  ranked_found rank up (suc bound) n h k =
      ended_found n k
        λ m c. ranked_found rank up bound m (omega (arith, up m n c)) (v.parents m n c)

  ranked-plan :
      (rank : ℕ → ℕ)
      → ((m n : ℕ) → contains (children g m) n ≡ true → rank m < rank n)
      → plan g priority ≡ some (ok (start-Visited g priority v).order)
  ranked-plan rank up =
      let order = (start-Visited g priority v).order in
      let all : length g.nodes ≤ length order =
        length_le g.nodes order v.once
          λ n k. ranked_found rank up (suc (rank n)) n (omega arith) k in
      let same : length order ≡ length g.nodes =
        omega (arith, length_le order g.nodes ended_once ended_known) in
      plan-Visited g priority v ∙ rw (same, ==_self (length g.nodes))

-- The place of a name in a list
abbrev pub index : ℕ → List ℕ → ℕ
index n [] = 0
index n (x ∷ xs) = if x == n then 0 else suc (index n xs)

IsTopological-index :
    (g : Graph) (seen order : List ℕ) (m n : ℕ)
    → IsTopological g seen order
    → contains order n ≡ true
    → contains (children g m) n ≡ true
    → (contains seen m ≡ true) ⊎ (index m order < index n order)
IsTopological-index g seen [] m n t h c = cc
IsTopological-index g seen (x ∷ order) m n (parents, t) h c = elim (Bool-cases (x == n)) [
  | inl same ↦ inl (let e : x ≡ n = ground arith in parents m (rw e c))
  | inr other ↦ ground (arith, IsTopological-index g (x ∷ seen) order m n t)
]

-- On a graph whose nodes are distinct and contain the ends of every edge, the planner gives an order
-- exactly when the graph has no cycle: when its nodes have ranks that every edge goes up in. In the
-- other graphs it gives no order, and `plan-returns` says that it returns.
pub plan-acyclic :
    (g : Graph) (priority : ℕ → ℕ)
    → IsGraph g
    → ((order : List ℕ) × (plan g priority ≡ some (ok order)))
      ↔ ((rank : ℕ → ℕ) × ((m n : ℕ) → contains (children g m) n ≡ true → rank m < rank n))
plan-acyclic g priority v = (
  λ p.
      let (order, h) = p in
      let (t, same) = plan-IsTopological g priority v order h in
      (
        λ n. index n order,
        λ m n c.
            let k = v.closed m n c in
            let i = count-contains order n (omega (arith, same n, contains-count g.nodes n k)) in
            elim (IsTopological-index g [] order m n t i c) [ inl seen ↦ cc | inr lt ↦ lt ],
      ),
  λ r. let (rank, up) = r in ((start-Visited g priority v).order, ranked-plan g priority v rank up),
)
