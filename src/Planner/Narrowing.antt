-- ===== src/Planner/Narrowing.antt =====
-- The loop of DynamicUpdatePlanner.plan that blocks the ECUs with a dependency that is neither executable
-- nor satisfied (tcu/dynamic_update_planner.py:113-151).
use virtual_automotive_ota_d.Prelude.{
  ℕ, zero, suc, ◌<◌, ◌≡◌, refl, ◌∙◌, ◌⊎◌, inl, inr, true, false, not, ◌&&◌, none, some, List, [],
  ◌∷◌, arith, ℕ_discrete, contains, contains-cons, contains-here, uncons, remove, contains-remove,
  length-remove, length, ltb, Bool-cases, Option-cases,
}
use virtual_automotive_ota_d.Scheduler.{without}
use virtual_automotive_ota_d.Planner.{sort_nodes}
use virtual_automotive_ota_d.Planner.Visit.{contains-sort}
use virtual_automotive_ota_d.Planner.Dynamic.{
  Request, Narrowing, missing, first_blocked, block, narrow, dependency_map,
}

contains-without :
    (xs ys : List ℕ) (d : ℕ) → contains (without xs ys) d ≡ (contains xs d && not (contains ys d))
contains-without [] ys d = refl
contains-without (x ∷ xs) ys d = elim (ℕ_discrete x d) [
  | yes same ↦ rw same (ground (arith, contains-without xs ys d))
  | no other ↦ ground (arith, contains-without xs ys d)
]

-- Each dependency of a name in the list is in the list or satisfied.
abbrev pub IsSupported : (ℕ → List ℕ) → List ℕ → List ℕ → Type 0
IsSupported dependencies satisfied names =
    (n d : ℕ)
    → contains names n ≡ true
    → contains (dependencies n) d ≡ true
    → (contains names d ≡ true) ⊎ (contains satisfied d ≡ true)

length-contains : (xs : List ℕ) (d : ℕ) → contains xs d ≡ true → ltb 0 (length xs) ≡ true
length-contains [] d h = cc
length-contains (x ∷ xs) d h = ground arith

nonempty-contains : (xs : List ℕ) → ltb 0 (length xs) ≡ true → (d : ℕ) × (contains xs d ≡ true)
nonempty-contains [] h = absurd (ground arith)
nonempty-contains (x ∷ xs) h = (x, contains-here x xs)

module _ (dependencies : ℕ → List ℕ) (satisfied executable : List ℕ) where
  contains-missing :
      (n d : ℕ)
      → contains (missing dependencies satisfied executable n) d ≡ (
          (contains (dependencies n) d && not (contains executable d))
          && not (contains satisfied d))
  unfolding missing
  contains-missing n d =
      contains-without (without (dependencies n) executable) satisfied d
      ∙ rw (contains-without (dependencies n) executable d)

  none_blocked :
      (ns : List ℕ) (n d : ℕ)
      → first_blocked dependencies satisfied executable ns ≡ none
      → contains ns n ≡ true
      → contains (dependencies n) d ≡ true
      → (contains executable d ≡ true) ⊎ (contains satisfied d ≡ true)
  none_blocked [] n d h i k = cc
  none_blocked (m ∷ ns) n d h i k =
      elim (Bool-cases (ltb 0 (length (missing dependencies satisfied executable m)))) [
        | inl blocked ↦ absurd (ground arith)
        | inr free ↦ elim (uncons m ns n i) [
          | inl e ↦
              let nothing : contains (missing dependencies satisfied executable n) d ≡ false =
                elim (Bool-cases (contains (missing dependencies satisfied executable n) d)) [
                  | inl some_missing ↦ absurd (
                      ground (
                        arith,
                        length-contains (missing dependencies satisfied executable n) d
                            some_missing,
                        e,
                      ))
                  | inr nothing ↦ nothing
                ] in
              ground (arith, contains-missing n d)
          | inr later ↦ none_blocked ns n d (ground arith) later k
        ]
      ]

  one_blocked :
      (ns : List ℕ) (n : ℕ)
      → first_blocked dependencies satisfied executable ns ≡ some n
      → (contains ns n ≡ true)
        × ((d : ℕ) × (contains (dependencies n) d ≡ true)
            × (contains executable d ≡ false)
            × (contains satisfied d ≡ false))
  one_blocked [] n h = cc
  one_blocked (m ∷ ns) n h =
      elim (Bool-cases (ltb 0 (length (missing dependencies satisfied executable m)))) [
        | inl blocked ↦
            let e : m ≡ n = ground arith in
            let (d, k) = nonempty-contains (missing dependencies satisfied executable m) blocked in
            let all = contains-missing m d in
            (rw e (contains-here n ns), (d, rw⁻¹ e (ground arith), ground arith, ground arith))
        | inr free ↦
            let (i, rest) = one_blocked ns n (ground arith) in (contains-cons m ns n i, rest)
      ]

remove_sound : (n m : ℕ) (xs : List ℕ) → contains (remove n xs) m ≡ true → contains xs m ≡ true
remove_sound n m [] h = cc
remove_sound n m (x ∷ xs) h = ground (arith, remove_sound n m xs)

-- What the loop leaves of `s`.
pub record Narrowed (r : Request) (satisfied : List ℕ) (s t : Narrowing) : Type 0 where
  pub kept : (n : ℕ) → contains t.executable n ≡ true → contains s.executable n ≡ true
  pub supported : IsSupported (dependency_map r) satisfied t.executable
  pub greatest :
      (names : List ℕ)
      → IsSupported (dependency_map r) satisfied names
      → ((n : ℕ) → contains names n ≡ true → contains s.executable n ≡ true)
      → (n : ℕ) → contains names n ≡ true
      → contains t.executable n ≡ true

module _ (r : Request) (satisfied : List ℕ) where
  -- A name that was blocked is in no set of executable names whose dependencies are supported.
  not_supported :
      (executable : List ℕ) (n : ℕ)
      → (d : ℕ) × (contains (dependency_map r n) d ≡ true)
        × (contains executable d ≡ false)
        × (contains satisfied d ≡ false)
      → (names : List ℕ) → IsSupported (dependency_map r) satisfied names
      → ((m : ℕ) → contains names m ≡ true → contains executable m ≡ true)
      → contains names n ≡ false
  not_supported executable n (d, k, out, unsatisfied) names supported inside =
      elim (Bool-cases (contains names n)) [
        | inl i ↦ elim (supported n d i k) [
          | inl there ↦ absurd (ground (arith, inside d there))
          | inr there ↦ absurd (ground arith)
        ]
        | inr free ↦ free
      ]

  pub narrow-Narrowed :
      (fuel : ℕ) (s : Narrowing)
      → length s.executable < fuel
      → (t : Narrowing) × (narrow fuel r satisfied s ≡ some t) × Narrowed r satisfied s t
  unfolding block
  narrow-Narrowed zero s enough = absurd (omega arith)
  narrow-Narrowed (suc fuel) s enough =
      let sorted = sort_nodes (λ n. 0) s.executable in
      elim (Option-cases (first_blocked (dependency_map r) satisfied s.executable sorted)) [
        | inl nothing ↦ (
          s,
          rw (narrow, nothing),
          record {
            kept = λ n h. h;
            supported = λ n d i k.
                none_blocked (dependency_map r) satisfied s.executable sorted n d nothing
                  (rw (contains-sort (λ n. 0) s.executable n) i) k;
            greatest = λ names supported inside. inside;
          },
        )
        | inr (n, h) ↦
            let (i, why) = one_blocked (dependency_map r) satisfied s.executable sorted n h in
            let here : contains s.executable n ≡ true =
              rw⁻¹ (contains-sort (λ n. 0) s.executable n) i in
            let (t, e, later) = narrow-Narrowed fuel (block r satisfied s n) (fewer n here) in
            (
              t,
              rw (narrow, h) e,
              record {
                kept = λ m k. remove_sound n m s.executable (later.kept m k);
                supported = later.supported;
                greatest = λ names supported inside. later.greatest names supported λ m k.
                    let out = not_supported s.executable n why names supported inside in
                    contains-remove n m s.executable (ground arith) (inside m k);
              },
            )
      ]
    where
      fewer : (n : ℕ) → contains s.executable n ≡ true → length (remove n s.executable) < fuel
      fewer n here = omega (arith, length-remove n s.executable here)
