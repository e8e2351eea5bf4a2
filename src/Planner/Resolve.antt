-- ===== src/Planner/Resolve.antt =====
-- The graphs that the builders make (tcu/dependency_manager.py DependencyGraphBuilder.build,
-- tcu/dynamic_update_planner.py): their nodes and edges.
use virtual_automotive_ota_d.Prelude.{
  ℕ, ◌≤◌, ◌≡◌, refl, ◌∙◌, inl, inr, true, ◌&&◌, ◌||◌, List, [], ◌∷◌, ◌++◌, arith, ℕ_discrete,
  contains, count, contains-append, contains-cons, contains-here, count-zero, ◌==◌, Bool-cases,
}
use virtual_automotive_ota_d.Planner.{
  Graph, Sources, build, build_dependencies, empty_graph, add_name, add_node, add_nodes,
  add_dependency, add_dependencies, add_all_dependencies, children, children_in,
}
use virtual_automotive_ota_d.Planner.Order.{IsGraph}
use virtual_automotive_ota_d.Planner.Dynamic.{common, graph_of}

contains-add_name :
    (n : ℕ) (ns : List ℕ) (m : ℕ) → contains (add_name n ns) m ≡ ((n == m) || contains ns m)
unfolding add_name
contains-add_name n ns m = elim (Bool-cases (contains ns n)) [
  | inl known ↦ rw known (ground arith)
  | inr new ↦ rw new
]

count-add_name : (n : ℕ) (ns : List ℕ) (m : ℕ) → count m ns ≤ 1 → count m (add_name n ns) ≤ 1
unfolding add_name
count-add_name n ns m h = elim (Bool-cases (contains ns n)) [
  | inl known ↦ rw known h
  | inr new ↦ rw new (ground (arith, count-zero n ns new))
]

children-append :
    (es fs : List (ℕ × ℕ)) (n : ℕ) → children_in (es ++ fs) n ≡ children_in es n ++ children_in fs n
children-append [] fs n = refl
children-append ((parent, child) ∷ es) fs n = ground (arith, children-append es fs n)

contains-children :
    (g : Graph) (parent child m n : ℕ)
    → contains (children (add_dependency g parent child) m) n
      ≡ (contains (children g m) n || ((parent == m) && (child == n)))
contains-children g parent child m n =
    rw
      (
        children-append g.edges ((parent, child) ∷ []) m,
        contains-append (children g m) (children_in ((parent, child) ∷ []) m) n,
      )
      (ground arith)

add_dependency-IsGraph :
    (g : Graph) (parent child : ℕ) → IsGraph g → IsGraph (add_dependency g parent child)
add_dependency-IsGraph g parent child v =
    let inner = add_name parent g.nodes in
    let known : (m : ℕ)
        → contains (add_name child inner) m
          ≡ ((child == m) || ((parent == m) || contains g.nodes m)) =
      λ m. contains-add_name child inner m ∙ rw (contains-add_name parent g.nodes m) in
    record {
      once = λ n. count-add_name child inner n (count-add_name parent g.nodes n (v.once n));
      closed = λ m n h. ground (arith, contains-children g parent child m n, known n, v.closed m n);
      parents =
          λ m n h. ground (arith, contains-children g parent child m n, known m, v.parents m n);
    }

-- What adding the edges `d → n` for `d` in `ds` does.
add_dependencies-IsGraph :
    (g : Graph) (ds : List ℕ) (n : ℕ) → IsGraph g → IsGraph (add_dependencies g ds n)
add_dependencies-IsGraph g [] n v = v
add_dependencies-IsGraph g (d ∷ ds) n v =
    add_dependencies-IsGraph (add_dependency g d n) ds n (add_dependency-IsGraph g d n v)

contains-add_dependencies :
    (g : Graph) (ds : List ℕ) (n a b : ℕ)
    → contains (children (add_dependencies g ds n) a) b
      ≡ (contains (children g a) b || (contains ds a && (n == b)))
contains-add_dependencies g [] n a b = ground arith
contains-add_dependencies g (d ∷ ds) n a b =
    contains-add_dependencies (add_dependency g d n) ds n a b
    ∙ rw (contains-children g d n a b) (ground arith)

nodes-add_dependencies :
    (g : Graph) (ds : List ℕ) (n b : ℕ)
    → ((d : ℕ) → contains ds d ≡ true → contains g.nodes d ≡ true)
    → contains g.nodes n ≡ true
    → contains (add_dependencies g ds n).nodes b ≡ contains g.nodes b
nodes-add_dependencies g [] n b known i = refl
nodes-add_dependencies g (d ∷ ds) n b known i =
    let same : (m : ℕ) → contains (add_dependency g d n).nodes m ≡ contains g.nodes m = λ m.
      contains-add_name n (add_name d g.nodes) m
      ∙ rw (contains-add_name d g.nodes m) (ground (arith, known d (contains-here d ds))) in
    nodes-add_dependencies (add_dependency g d n) ds n b
      (λ x h. rw (same x) (known x (contains-cons d ds x h))) (rw (same n) i)
    ∙ same b

-- The same for all names
module _ (dependencies : ℕ → List ℕ) where
  add_all-IsGraph :
      (g : Graph) (ns : List ℕ) → IsGraph g → IsGraph (add_all_dependencies g dependencies ns)
  add_all-IsGraph g [] v = v
  add_all-IsGraph g (n ∷ ns) v =
      add_all-IsGraph (add_dependencies g (dependencies n) n) ns
        (add_dependencies-IsGraph g (dependencies n) n v)

  contains-add_all :
      (g : Graph) (ns : List ℕ) (a b : ℕ)
      → contains (children (add_all_dependencies g dependencies ns) a) b
        ≡ (contains (children g a) b || (contains ns b && contains (dependencies b) a))
  contains-add_all g [] a b = ground arith
  contains-add_all g (n ∷ ns) a b =
      contains-add_all (add_dependencies g (dependencies n) n) ns a b
      ∙ rw (contains-add_dependencies g (dependencies n) n a b)
          (elim (ℕ_discrete n b) [ yes same ↦ rw same (ground arith) | no other ↦ ground arith ])

  nodes-add_all :
      (g : Graph) (ns : List ℕ) (b : ℕ)
      → ((n d : ℕ) → contains (dependencies n) d ≡ true → contains g.nodes d ≡ true)
      → ((n : ℕ) → contains ns n ≡ true → contains g.nodes n ≡ true)
      → contains (add_all_dependencies g dependencies ns).nodes b ≡ contains g.nodes b
  nodes-add_all g [] b known inside = refl
  nodes-add_all g (n ∷ ns) b known inside =
      let same : (x : ℕ)
          → contains (add_dependencies g (dependencies n) n).nodes x ≡ contains g.nodes x =
        λ x.
          nodes-add_dependencies g (dependencies n) n x (known n) (inside n (contains-here n ns)) in
      nodes-add_all (add_dependencies g (dependencies n) n) ns b
        (λ m d h. rw (same d) (known m d h))
        (λ m h. rw (same m) (inside m (contains-cons n ns m h)))
      ∙ same b

add_nodes-IsGraph : (g : Graph) (ns : List ℕ) → IsGraph g → IsGraph (add_nodes g ns)
add_nodes-IsGraph g [] v = v
add_nodes-IsGraph g (n ∷ ns) v = add_nodes-IsGraph (add_node g n) ns record {
  once = λ m. count-add_name n g.nodes m (v.once m);
  closed = λ m k h. ground (arith, contains-add_name n g.nodes k, v.closed m k h);
  parents = λ m k h. ground (arith, contains-add_name n g.nodes m, v.parents m k h);
}

nodes-add_nodes :
    (g : Graph) (ns : List ℕ) (n : ℕ)
    → contains (add_nodes g ns).nodes n ≡ (contains ns n || contains g.nodes n)
nodes-add_nodes g [] n = refl
nodes-add_nodes g (m ∷ ns) n =
    nodes-add_nodes (add_node g m) ns n ∙ rw (contains-add_name m g.nodes n) (ground arith)

children-add_nodes : (g : Graph) (ns : List ℕ) (m : ℕ) → children (add_nodes g ns) m ≡ children g m
children-add_nodes g [] m = refl
children-add_nodes g (n ∷ ns) m = children-add_nodes (add_node g n) ns m

empty-IsGraph : IsGraph empty_graph
empty-IsGraph = record { once = λ n. omega arith; closed = λ m n h. cc; parents = λ m n h. cc }

contains-common :
    (xs ys : List ℕ) (n : ℕ) → contains (common xs ys) n ≡ (contains xs n && contains ys n)
contains-common [] ys n = refl
contains-common (x ∷ xs) ys n = elim (ℕ_discrete x n) [
  | yes same ↦ rw same (ground (arith, contains-common xs ys n))
  | no other ↦ ground (arith, contains-common xs ys n)
]

-- The graph of some names and the dependencies among them
module _ (dependencies : ℕ → List ℕ) (names : List ℕ) where
  pub graph_of-IsGraph : IsGraph (graph_of dependencies names)
  unfolding graph_of
  graph_of-IsGraph =
      add_all-IsGraph (λ n. common (dependencies n) names) (add_nodes empty_graph names) names
        (add_nodes-IsGraph empty_graph names empty-IsGraph)

  pub contains-graph_of :
      (d n : ℕ)
      → contains (children (graph_of dependencies names) d) n
        ≡ (contains names n && (contains (dependencies n) d && contains names d))
  unfolding graph_of
  contains-graph_of d n =
      contains-add_all (λ x. common (dependencies x) names) (add_nodes empty_graph names) names d n
      ∙ rw (children-add_nodes empty_graph names d, contains-common (dependencies n) names d)

  pub nodes-graph_of : (n : ℕ) → contains (graph_of dependencies names).nodes n ≡ contains names n
  unfolding graph_of
  nodes-graph_of n =
      let base : (m : ℕ) → contains (add_nodes empty_graph names).nodes m ≡ contains names m =
        λ m. nodes-add_nodes empty_graph names m ∙ ground arith in
      nodes-add_all (λ x. common (dependencies x) names) (add_nodes empty_graph names) names n
        (λ m d h. rw (base d) (ground (arith, contains-common (dependencies m) names d)))
        (λ m h. rw (base m) h)
      ∙ base n

module _ (s : Sources) (ecus : List ℕ) where
  pub build-IsGraph : IsGraph (build s ecus)
  unfolding build
  build-IsGraph =
      add_all-IsGraph (build_dependencies s) (add_nodes empty_graph ecus) ecus
        (add_nodes-IsGraph empty_graph ecus empty-IsGraph)

  pub contains-build :
      (d n : ℕ)
      → contains (children (build s ecus) d) n
        ≡ (contains ecus n && contains (build_dependencies s n) d)
  unfolding build
  contains-build d n =
      contains-add_all (build_dependencies s) (add_nodes empty_graph ecus) ecus d n
      ∙ rw (children-add_nodes empty_graph ecus d)
