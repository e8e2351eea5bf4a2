-- ===== src/Planner.antt =====
-- The planning of an update order: DependencyGraph (tcu/models/dependency_graph.py) and the builder and
-- topological planner of tcu/dependency_manager.py. An ECU's name is a number, ordered as the names are.
-- The lists of `DependencyGraph.graph` are one list of (parent, child) pairs, in the order in which
-- add_dependency appends them.
pub mod Order
pub mod Visit
pub mod Cycles
pub mod Dynamic
pub mod Resolve
pub mod Narrowing
pub mod Campaign
pub mod Executable
pub mod Examples
use virtual_automotive_ota_d.Prelude.{
  ℕ, zero, suc, ◌+◌, ◌-◌, Bool, true, false, not, ◌&&◌, ◌||◌, Option, none, some, List, [], ◌∷◌,
  ◌++◌, ◌==◌, ltb, length, contains, if◌then◌else◌, Result, ok, err, runtime_error,
}

pub record Graph : Type 0 where
  pub nodes : List ℕ
  pub edges : List (ℕ × ℕ)

abbrev pub empty_graph : Graph
empty_graph = record { nodes = []; edges = [] }

-- `set.add`
unfoldable pub add_name : ℕ → List ℕ → List ℕ
add_name n ns = if contains ns n then ns else (n ∷ ns)

abbrev pub add_node : Graph → ℕ → Graph
add_node g n = record g { nodes = add_name n g.nodes }

abbrev pub add_dependency : Graph → ℕ → ℕ → Graph
add_dependency g parent child = record g {
  nodes = add_name child (add_name parent g.nodes);
  edges = g.edges ++ ((parent, child) ∷ []);
}

abbrev pub children_in : List (ℕ × ℕ) → ℕ → List ℕ
children_in [] n = []
children_in ((parent, child) ∷ es) n =
    if parent == n then (child ∷ children_in es n) else children_in es n

abbrev pub children : Graph → ℕ → List ℕ
children g n = children_in g.edges n

-- DependencyGraphBuilder.build, for ECUs given by their names. `overrides` is the campaign's
-- `dependency_overrides.get`, `policies` the dependencies that the topology's policy names, and
-- `reported` those that the ECU itself reported.
pub record Sources : Type 0 where
  pub overrides : ℕ → Option (List ℕ)
  pub policies : ℕ → List ℕ
  pub reported : ℕ → List ℕ

unfoldable pub build_dependencies : Sources → ℕ → List ℕ
build_dependencies s n = elim (s.overrides n) [
  | some dependencies ↦ dependencies
  | none ↦ if ltb 0 (length (s.policies n)) then s.policies n else s.reported n
]

abbrev pub add_nodes : Graph → List ℕ → Graph
add_nodes g [] = g
add_nodes g (n ∷ ns) = add_nodes (add_node g n) ns

abbrev pub add_dependencies : Graph → List ℕ → ℕ → Graph
add_dependencies g [] n = g
add_dependencies g (d ∷ ds) n = add_dependencies (add_dependency g d n) ds n

abbrev pub add_all_dependencies : Graph → (ℕ → List ℕ) → List ℕ → Graph
add_all_dependencies g dependencies [] = g
add_all_dependencies g dependencies (n ∷ ns) =
    add_all_dependencies (add_dependencies g (dependencies n) n) dependencies ns

unfoldable pub build : Sources → List ℕ → Graph
build s ecus = add_all_dependencies (add_nodes empty_graph ecus) (build_dependencies s) ecus

-- The number of edges into a node: the counts of `indegree` after its two loops.
abbrev pub indegree_of : List (ℕ × ℕ) → ℕ → ℕ
indegree_of [] n = 0
indegree_of ((parent, child) ∷ es) n = (if child == n then 1 else 0) + indegree_of es n

-- `priority.get(node, 9999)` is `priority node`: the sort is by (priority, name).
abbrev pub comes_before : (ℕ → ℕ) → ℕ → ℕ → Bool
comes_before priority a b = ltb (priority a) (priority b) || (priority a == priority b && ltb a b)

abbrev pub insert_node : (ℕ → ℕ) → ℕ → List ℕ → List ℕ
insert_node priority a [] = a ∷ []
insert_node priority a (b ∷ bs) =
    if comes_before priority b a then (b ∷ insert_node priority a bs) else (a ∷ b ∷ bs)

abbrev pub sort_nodes : (ℕ → ℕ) → List ℕ → List ℕ
sort_nodes priority [] = []
sort_nodes priority (a ∷ bs) = insert_node priority a (sort_nodes priority bs)

abbrev pub roots : (ℕ → ℕ) → List ℕ → List ℕ
roots indegree [] = []
roots indegree (n ∷ ns) = if indegree n == 0 then (n ∷ roots indegree ns) else roots indegree ns

pub record Work : Type 0 where
  pub indegree : ℕ → ℕ
  pub queue : List ℕ

-- `indegree[child] -= 1`, and the child is queued when that makes it 0. A count of 0, which would go
-- negative in the source, stays 0 and queues nothing either.
abbrev pub relax_child : Work → ℕ → Work
relax_child w child = record {
  indegree = λ n. if child == n then w.indegree n - 1 else w.indegree n;
  queue = if w.indegree child == 1 then (w.queue ++ (child ∷ [])) else w.queue;
}

abbrev pub relax : Work → List ℕ → Work
relax w [] = w
relax w (child ∷ cs) = relax (relax_child w child) cs

-- The children of a node taken from the queue
abbrev pub relax_node : Graph → (ℕ → ℕ) → (ℕ → ℕ) → ℕ → List ℕ → Work
relax_node g priority indegree n rest =
    relax (record { indegree = indegree; queue = rest }) (sort_nodes priority (children g n))

-- `while queue`, with what it appends to update_order: `none` when the fuel ends before the queue does.
abbrev pub visit : ℕ → Graph → (ℕ → ℕ) → (ℕ → ℕ) → List ℕ → Option (List ℕ)
visit fuel g priority indegree [] = some []
visit zero g priority indegree (n ∷ rest) = none
visit (suc fuel) g priority indegree (n ∷ rest) =
    elim (visit fuel g priority (relax_node g priority indegree n rest).indegree
      (relax_node g priority indegree n rest).queue) [ none ↦ none | some order ↦ some (n ∷ order) ]

-- TopologicalUpdatePlanner.plan, with one unit of fuel for each node.
unfoldable pub plan : Graph → (ℕ → ℕ) → Option (Result (List ℕ))
plan g priority =
    elim (visit (length g.nodes) g priority (indegree_of g.edges)
      (roots (indegree_of g.edges) (sort_nodes priority g.nodes))) [
        | none ↦ none
        | some order ↦ some (
            if length order == length g.nodes
            then ok order
            else err (runtime_error "Dependency cycle detected. Update plan cannot be generated."))
      ]
