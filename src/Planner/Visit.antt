-- ===== src/Planner/Visit.antt =====
-- The loop of TopologicalUpdatePlanner.plan (tcu/dependency_manager.py:116-128): what its counts, its
-- queue and the nodes already visited have to do with each other.
use virtual_automotive_ota_d.Prelude.{
  ℕ, ◌+◌, ◌≤◌, ◌≡◌, refl, ◌⊎◌, inl, inr, true, false, not, ◌&&◌, ◌||◌, List, [], ◌∷◌, arith,
  contains, count, contains-append, contains-cons, contains-here, count-append, count-zero,
  contains-count, ◌==◌, if◌then◌else◌, Bool-cases,
}
use virtual_automotive_ota_d.Planner.{
  Graph, Work, children_in, children, indegree_of, insert_node, sort_nodes, comes_before,
  relax_child, relax, relax_node,
}

-- The edges into `n` from nodes that are not visited.
abbrev pub pending : List ℕ → List (ℕ × ℕ) → ℕ → ℕ
pending visited [] n = 0
pending visited ((parent, child) ∷ es) n =
    (if child == n && not (contains visited parent) then 1 else 0) + pending visited es n

pub pending-none : (es : List (ℕ × ℕ)) (n : ℕ) → pending [] es n ≡ indegree_of es n
pending-none [] n = refl
pending-none ((parent, child) ∷ es) n = ground (arith, pending-none es n)

pending-cons :
    (visited : List ℕ) (es : List (ℕ × ℕ)) (m n : ℕ)
    → contains visited m ≡ false
    → pending visited es n ≡ pending (m ∷ visited) es n + count n (children_in es m)
pending-cons visited [] m n h = refl
pending-cons visited ((parent, child) ∷ es) m n h = ground (arith, pending-cons visited es m n h)

-- No edge is pending into a node exactly when its parents are all visited.
pub pending-zero :
    (visited : List ℕ) (es : List (ℕ × ℕ)) (n m : ℕ)
    → pending visited es n ≡ 0
    → contains (children_in es m) n ≡ true
    → contains visited m ≡ true
pending-zero visited [] n m h i = cc
pending-zero visited ((parent, child) ∷ es) n m h i = ground (arith, pending-zero visited es n m)

pub pending-visited :
    (visited : List ℕ) (es : List (ℕ × ℕ)) (n : ℕ)
    → ((m : ℕ) → contains (children_in es m) n ≡ true → contains visited m ≡ true)
    → pending visited es n ≡ 0
pending-visited visited [] n h = refl
pending-visited visited ((parent, child) ∷ es) n h =
    let rest : pending visited es n ≡ 0 = pending-visited visited es n λ m i. h m (ground arith) in
    ground (arith, h parent)

count-insert :
    (priority : ℕ → ℕ) (a : ℕ) (bs : List ℕ) (n : ℕ)
    → count n (insert_node priority a bs) ≡ count n (a ∷ bs)
count-insert priority a [] n = refl
count-insert priority a (b ∷ bs) n = elim (Bool-cases (comes_before priority b a)) [
  | inl before ↦ rw before (omega (arith, count-insert priority a bs n))
  | inr after ↦ rw after
]

pub count-sort :
    (priority : ℕ → ℕ) (bs : List ℕ) (n : ℕ) → count n (sort_nodes priority bs) ≡ count n bs
count-sort priority [] n = refl
count-sort priority (a ∷ bs) n =
    omega (arith, count-insert priority a (sort_nodes priority bs) n, count-sort priority bs n)

contains-insert :
    (priority : ℕ → ℕ) (a : ℕ) (bs : List ℕ) (n : ℕ)
    → contains (insert_node priority a bs) n ≡ contains (a ∷ bs) n
contains-insert priority a [] n = refl
contains-insert priority a (b ∷ bs) n = elim (Bool-cases (comes_before priority b a)) [
  | inl before ↦ rw before (ground (arith, contains-insert priority a bs n))
  | inr after ↦ rw after
]

pub contains-sort :
    (priority : ℕ → ℕ) (bs : List ℕ) (n : ℕ) → contains (sort_nodes priority bs) n ≡ contains bs n
contains-sort priority [] n = refl
contains-sort priority (a ∷ bs) n =
    ground
      (arith, contains-insert priority a (sort_nodes priority bs) n, contains-sort priority bs n)

-- What holds while the edges to `cs` are still to be counted down.
pub record Inv (g : Graph) (w : Work) (cs : List ℕ) (visited : List ℕ) : Type 0 where
  pub counted : (n : ℕ) → w.indegree n ≡ pending visited g.edges n + count n cs
  pub queued : (n : ℕ) → contains w.queue n ≡ true → w.indegree n ≡ 0
  pub done : (n : ℕ) → contains visited n ≡ true → w.indegree n ≡ 0
  pub once : (n : ℕ) → count n w.queue + count n visited ≤ 1
  pub found :
      (n : ℕ)
      → contains g.nodes n ≡ true
      → w.indegree n ≡ 0
      → (contains w.queue n ≡ true) ⊎ (contains visited n ≡ true)
  pub queue_known : (n : ℕ) → contains w.queue n ≡ true → contains g.nodes n ≡ true
  pub visited_known : (n : ℕ) → contains visited n ≡ true → contains g.nodes n ≡ true
  pub children_known : (n : ℕ) → contains cs n ≡ true → contains g.nodes n ≡ true

-- Every child that an edge names is a node.
abbrev pub IsClosed : Graph → Type 0
IsClosed g = (m n : ℕ) → contains (children g m) n ≡ true → contains g.nodes n ≡ true

contains-relax_child :
    (w : Work) (c n : ℕ)
    → contains (relax_child w c).queue n ≡ (contains w.queue n || ((w.indegree c == 1) && (c == n)))
contains-relax_child w c n = elim (Bool-cases (w.indegree c == 1)) [
  | inl last ↦ rw (last, contains-append w.queue (c ∷ []) n) (ground arith)
  | inr more ↦ rw more (ground arith)
]

count-relax_child :
    (w : Work) (c n : ℕ)
    → count n (relax_child w c).queue
      ≡ count n w.queue + (if (w.indegree c == 1) && (c == n) then 1 else 0)
count-relax_child w c n = elim (Bool-cases (w.indegree c == 1)) [
  | inl last ↦ rw (last, count-append n w.queue (c ∷ [])) (ground arith)
  | inr more ↦ rw more (ground arith)
]

module _ (g : Graph) (w : Work) (c : ℕ) (cs visited : List ℕ) (i : Inv g w (c ∷ cs) visited) where
  relax_child-Inv : Inv g (relax_child w c) cs visited
  relax_child-Inv =
      let known = i.children_known c (contains-here c cs) in
      let counted_c = i.counted c in
      record {
        counted = λ n. ground (arith, i.counted n);
        queued = λ n h. ground (arith, i.queued n, contains-relax_child w c n);
        done = λ n h. ground (arith, i.done n h);
        once = λ n. ground (
          arith,
          i.once n,
          i.counted n,
          count-relax_child w c n,
          i.queued n,
          i.done n,
          count-zero n w.queue,
          count-zero n visited,
        );
        found = λ n k z. ground (arith, i.found n k, contains-relax_child w c n, i.counted n);
        queue_known = λ n h. ground (arith, i.queue_known n, contains-relax_child w c n);
        visited_known = i.visited_known;
        children_known = λ n h. i.children_known n (contains-cons c cs n h);
      }

relax-Inv :
    (g : Graph) (w : Work) (cs visited : List ℕ)
    → Inv g w cs visited
    → Inv g (relax w cs) [] visited
relax-Inv g w [] visited i = i
relax-Inv g w (c ∷ cs) visited i =
    relax-Inv g (relax_child w c) cs visited (relax_child-Inv g w c cs visited i)

sort-Inv :
    (g : Graph) (w : Work) (priority : ℕ → ℕ) (cs visited : List ℕ)
    → Inv g w cs visited
    → Inv g w (sort_nodes priority cs) visited
sort-Inv g w priority cs visited i = record {
  counted = λ n. rw (count-sort priority cs n) (i.counted n);
  queued = i.queued;
  done = i.done;
  once = i.once;
  found = i.found;
  queue_known = i.queue_known;
  visited_known = i.visited_known;
  children_known = λ n h. i.children_known n (rw⁻¹ (contains-sort priority cs n) h);
}

-- A node taken from the queue, whose children are still to be counted down
module _ (g : Graph) (indegree : ℕ → ℕ) (m : ℕ) (rest visited : List ℕ)
    (i : Inv g (record { indegree = indegree; queue = m ∷ rest }) [] visited) where
  pub not_visited : contains visited m ≡ false
  not_visited = elim (Bool-cases (contains visited m)) [
    | inl again ↦ absurd (ground (arith, contains-count visited m again, i.once m))
    | inr fresh ↦ fresh
  ]

  take-Inv :
      IsClosed g → Inv g (record { indegree = indegree; queue = rest }) (children g m) (m ∷ visited)
  take-Inv closed = record {
    counted = λ n. ground (arith, i.counted n, pending-cons visited g.edges m n not_visited);
    queued = λ n h. i.queued n (contains-cons m rest n h);
    done = λ n h. ground (arith, i.done n, i.queued n);
    once = λ n. ground (arith, i.once n);
    found = λ n k z. ground (arith, i.found n k z);
    queue_known = λ n h. i.queue_known n (contains-cons m rest n h);
    visited_known = λ n h. ground (arith, i.visited_known n, i.queue_known n);
    children_known = closed m;
  }

  pub relax_node-Inv :
      (priority : ℕ → ℕ)
      → IsClosed g
      → Inv g (relax_node g priority indegree m rest) [] (m ∷ visited)
  relax_node-Inv priority closed =
      relax-Inv g (record { indegree = indegree; queue = rest })
        (sort_nodes priority (children g m)) (m ∷ visited)
        (sort-Inv g (record { indegree = indegree; queue = rest }) priority (children g m)
          (m ∷ visited) (take-Inv closed))

  -- Its parents are all visited.
  pub parents_visited : (d : ℕ) → contains (children g d) m ≡ true → contains visited d ≡ true
  parents_visited d =
      pending-zero visited g.edges m d
        (ground (arith, i.counted m, i.queued m (contains-here m rest)))
