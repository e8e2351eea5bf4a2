-- ===== src/Planner/Order.antt =====
-- TopologicalUpdatePlanner.plan (tcu/dependency_manager.py): the order in which the loop visits the nodes.
use virtual_automotive_ota_d.Prelude.{
  ℕ, zero, suc, ◌+◌, ◌≤◌, ◌≡◌, refl, sym, ◌∙◌, inl, true, ◌||◌, some, List, [], ◌∷◌, arith,
  contains, count, length_le, length, ◌==◌, if◌then◌else◌, Result, ok, err, runtime_error,
}
use virtual_automotive_ota_d.Planner.{
  Graph, children, indegree_of, sort_nodes, roots, relax_node, visit, plan,
}
use virtual_automotive_ota_d.Planner.Visit.{
  pending-none, Inv, IsClosed, contains-sort, count-sort, relax_node-Inv, parents_visited,
}

-- Every node of `ns` stands after its parents, when `seen` have gone before.
abbrev pub IsTopological : Graph → List ℕ → List ℕ → Type 0
IsTopological g seen [] = Unit {0}
IsTopological g seen (n ∷ ns) =
    ((d : ℕ) → contains (children g d) n ≡ true → contains seen d ≡ true)
    × IsTopological g (n ∷ seen) ns

-- `order`, then `seen`, the last visited first
abbrev pub visited_after : List ℕ → List ℕ → List ℕ
visited_after [] seen = seen
visited_after (n ∷ ns) seen = visited_after ns (n ∷ seen)

pub length-visited_after :
    (ns seen : List ℕ) → length (visited_after ns seen) ≡ length ns + length seen
length-visited_after [] seen = omega arith
length-visited_after (n ∷ ns) seen = omega (arith, length-visited_after ns (n ∷ seen))

pub count-visited_after :
    (ns seen : List ℕ) (n : ℕ) → count n (visited_after ns seen) ≡ count n ns + count n seen
count-visited_after [] seen n = omega arith
count-visited_after (m ∷ ns) seen n = omega (arith, count-visited_after ns (m ∷ seen) n)

pub contains-visited_after :
    (ns seen : List ℕ) (n : ℕ)
    → contains (visited_after ns seen) n ≡ (contains ns n || contains seen n)
contains-visited_after [] seen n = refl
contains-visited_after (m ∷ ns) seen n = ground (arith, contains-visited_after ns (m ∷ seen) n)

-- What the loop gives when it starts after `visited`.
pub record Visited (g : Graph) (priority : ℕ → ℕ) (fuel : ℕ) (indegree : ℕ → ℕ)
    (queue visited : List ℕ) : Type 0 where
  pub order : List ℕ
  pub returned : visit fuel g priority indegree queue ≡ some order
  pub topological : IsTopological g visited order
  pub last : ℕ → ℕ
  pub final : Inv g (record { indegree = last; queue = [] }) [] (visited_after order visited)

visit-step :
    (fuel : ℕ) (g : Graph) (priority indegree : ℕ → ℕ) (m : ℕ) (rest order : List ℕ)
    → visit fuel g priority
        (relax_node g priority indegree m rest).indegree
        (relax_node g priority indegree m rest).queue
      ≡ some order
    → visit (suc fuel) g priority indegree (m ∷ rest) ≡ some (m ∷ order)
visit-step fuel g priority indegree m rest order h = rw (visit, h)

visit-Visited :
    (fuel : ℕ) (g : Graph) (priority indegree : ℕ → ℕ) (queue visited : List ℕ)
    → IsClosed g
    → length g.nodes ≤ length visited + fuel
    → Inv g (record { indegree = indegree; queue = queue }) [] visited
    → Visited g priority fuel indegree queue visited
visit-Visited fuel g priority indegree [] visited closed enough i = record {
  order = [];
  returned = elim fuel [ zero ↦ refl | suc f ↦ refl ];
  topological = tt;
  last = indegree;
  final = i;
}
visit-Visited zero g priority indegree (m ∷ rest) visited closed enough i =
    let more : suc (length visited) ≤ length g.nodes =
      length_le (m ∷ visited) g.nodes (λ n. ground (arith, i.once n))
        λ n h. ground (arith, i.visited_known n, i.queue_known n) in
    absurd (omega arith)
visit-Visited (suc fuel) g priority indegree (m ∷ rest) visited closed enough i =
    let later =
      visit-Visited fuel g priority (relax_node g priority indegree m rest).indegree
        (relax_node g priority indegree m rest).queue (m ∷ visited) closed (omega arith)
        (relax_node-Inv g indegree m rest visited i priority closed) in
    record {
      order = m ∷ later.order;
      returned = visit-step fuel g priority indegree m rest later.order later.returned;
      topological = (parents_visited g indegree m rest visited i, later.topological);
      last = later.last;
      final = later.final;
    }

roots_sound :
    (indegree : ℕ → ℕ) (ns : List ℕ) (n : ℕ)
    → contains (roots indegree ns) n ≡ true
    → (indegree n ≡ 0) × (contains ns n ≡ true)
roots_sound indegree [] n h = cc
roots_sound indegree (m ∷ ns) n h = ground (arith, roots_sound indegree ns n)

roots_found :
    (indegree : ℕ → ℕ) (ns : List ℕ) (n : ℕ)
    → contains ns n ≡ true
    → indegree n ≡ 0
    → contains (roots indegree ns) n ≡ true
roots_found indegree [] n h z = cc
roots_found indegree (m ∷ ns) n h z = ground (arith, roots_found indegree ns n)

count-roots : (indegree : ℕ → ℕ) (ns : List ℕ) (n : ℕ) → count n (roots indegree ns) ≤ count n ns
count-roots indegree [] n = omega arith
count-roots indegree (m ∷ ns) n = ground (arith, count-roots indegree ns n)

-- The nodes are a set, and the ends of every edge are among them.
pub record IsGraph (g : Graph) : Type 0 where
  pub once : (n : ℕ) → count n g.nodes ≤ 1
  pub closed : IsClosed g
  pub parents : (m n : ℕ) → contains (children g m) n ≡ true → contains g.nodes m ≡ true

start-Inv :
    (g : Graph) (priority : ℕ → ℕ)
    → IsGraph g
    → Inv g
        (record {
          indegree = indegree_of g.edges;
          queue = roots (indegree_of g.edges) (sort_nodes priority g.nodes);
        })
        []
        []
start-Inv g priority v =
    let indegree = indegree_of g.edges in
    let sorted = sort_nodes priority g.nodes in
    let same = contains-sort priority g.nodes in
    record {
      counted = λ n. ground (arith, pending-none g.edges n);
      queued = λ n h. (roots_sound indegree sorted n h).0;
      done = λ n h. cc;
      once = λ n.
          omega (arith, count-roots indegree sorted n, count-sort priority g.nodes n, v.once n);
      found = λ n k z. inl (roots_found indegree sorted n (rw (same n) k) z);
      queue_known = λ n h. rw⁻¹ (same n) (roots_sound indegree sorted n h).1;
      visited_known = λ n h. cc;
      children_known = λ n h. cc;
    }

pub start-Visited :
    (g : Graph) (priority : ℕ → ℕ)
    → IsGraph g
    → Visited g priority
        (length g.nodes)
        (indegree_of g.edges)
        (roots (indegree_of g.edges) (sort_nodes priority g.nodes))
        []
start-Visited g priority v =
    visit-Visited (length g.nodes) g priority (indegree_of g.edges)
      (roots (indegree_of g.edges) (sort_nodes priority g.nodes)) [] v.closed (omega arith)
      (start-Inv g priority v)

-- The message of a plan that does not reach every node
abbrev pub cycle_error : Result (List ℕ)
cycle_error = err (runtime_error "Dependency cycle detected. Update plan cannot be generated.")

pub plan-Visited :
    (g : Graph) (priority : ℕ → ℕ) (v : IsGraph g)
    → plan g priority
      ≡ some (
          if length (start-Visited g priority v).order == length g.nodes
          then ok (start-Visited g priority v).order
          else cycle_error)
unfolding plan
plan-Visited g priority v = rw (plan, (start-Visited g priority v).returned)

module _ (g : Graph) (priority : ℕ → ℕ) (v : IsGraph g) where
  -- On a graph whose nodes are distinct and contain the ends of every edge, the planner returns: one
  -- turn of its loop for each node is enough to empty the queue, whether the graph has a cycle or not.
  pub plan-returns : (r : Result (List ℕ)) × (plan g priority ≡ some r)
  plan-returns = (
    if length (start-Visited g priority v).order == length g.nodes
        then ok (start-Visited g priority v).order
        else cycle_error,
    plan-Visited g priority v,
  )

  -- A planned order is what the loop visits, all of the nodes.
  pub plan-order_lem :
      (order : List ℕ)
      → plan g priority ≡ some (ok order)
      → ((start-Visited g priority v).order ≡ order) × (length order ≡ length g.nodes)
  plan-order_lem order h = let e = sym (plan-Visited g priority v) ∙ h in ground (arith, e)
