-- ===== src/Prelude/Members.antt =====
-- Membership and multiplicity of a number in a list: Python's `in` on a list or set of names.
use Prim.Native.Nat.{ℕ, suc, ◌+◌, ◌≤◌}
use mathlib.Core.Path.{◌≡◌, refl}
use mathlib.Core.Logic.{◌⊎◌, inl, inr}
use mathlib.Core.Bool.{Bool, true, false, ◌||◌}
use mathlib.Core.List.{List, [], ◌∷◌, ◌++◌}
use native.Mathlib.Omega.{arith}
use virtual_automotive_ota_d.Prelude.Tests.{◌==◌, if◌then◌else◌, Bool-cases}
use virtual_automotive_ota_d.Prelude.Lists.{length}

abbrev pub contains : List ℕ → ℕ → Bool
contains [] n = false
contains (x ∷ xs) n = x == n || contains xs n

abbrev pub count : ℕ → List ℕ → ℕ
count n [] = 0
count n (x ∷ xs) = (if x == n then 1 else 0) + count n xs

pub contains-append :
    (xs ys : List ℕ) (n : ℕ) → contains (xs ++ ys) n ≡ (contains xs n || contains ys n)
contains-append [] ys n = refl
contains-append (x ∷ xs) ys n = ground (arith, contains-append xs ys n)

pub contains-cons :
    (x : ℕ) (xs : List ℕ) (n : ℕ) → contains xs n ≡ true → contains (x ∷ xs) n ≡ true
contains-cons x xs n h = ground arith

pub contains-here : (x : ℕ) (xs : List ℕ) → contains (x ∷ xs) x ≡ true
contains-here x xs = ground arith

pub uncons :
    (x : ℕ) (xs : List ℕ) (n : ℕ) → contains (x ∷ xs) n ≡ true → (x ≡ n) ⊎ (contains xs n ≡ true)
uncons x xs n h = ground arith

pub count-append : (n : ℕ) (xs ys : List ℕ) → count n (xs ++ ys) ≡ count n xs + count n ys
count-append n [] ys = omega arith
count-append n (x ∷ xs) ys = ground (arith, count-append n xs ys)

pub count-zero : (n : ℕ) (xs : List ℕ) → contains xs n ≡ false → count n xs ≡ 0
count-zero n [] h = refl
count-zero n (x ∷ xs) h = ground (arith, count-zero n xs)

pub contains-count : (xs : List ℕ) (n : ℕ) → contains xs n ≡ true → 1 ≤ count n xs
contains-count [] n h = cc
contains-count (x ∷ xs) n h = ground (arith, contains-count xs n)

-- A list without its first `n`
abbrev pub remove : ℕ → List ℕ → List ℕ
remove n [] = []
remove n (x ∷ xs) = if x == n then xs else (x ∷ remove n xs)

pub length-remove :
    (n : ℕ) (xs : List ℕ) → contains xs n ≡ true → length xs ≡ suc (length (remove n xs))
length-remove n [] h = cc
length-remove n (x ∷ xs) h = ground (arith, length-remove n xs)

pub contains-remove :
    (n m : ℕ) (xs : List ℕ)
    → (m == n) ≡ false
    → contains xs m ≡ true
    → contains (remove n xs) m ≡ true
contains-remove n m [] other h = cc
contains-remove n m (x ∷ xs) other h = ground (arith, contains-remove n m xs other)

-- Numbers that do not repeat and are all in `ys` are at most as many.
pub length_le :
    (xs ys : List ℕ)
    → ((n : ℕ) → count n xs ≤ 1)
    → ((n : ℕ) → contains xs n ≡ true → contains ys n ≡ true)
    → length xs ≤ length ys
length_le [] ys once inside = omega arith
length_le (x ∷ xs) ys once inside =
    let fresh : contains xs x ≡ false = elim (Bool-cases (contains xs x)) [
      | inl again ↦ absurd (ground (arith, contains-count xs x again, once x))
      | inr fresh ↦ fresh
    ] in
    let rest : length xs ≤ length (remove x ys) =
      length_le xs (remove x ys) (λ n. ground (arith, once n))
        λ n i. elim (Bool-cases (n == x)) [
          | inl same ↦ absurd (ground arith)
          | inr other ↦ contains-remove x n ys other (inside n (contains-cons x xs n i))
        ] in
    ground (arith, length-remove x ys (inside x (contains-here x xs)))

-- When they are also as many, every number of `ys` is among them.
pub contains_all :
    (xs ys : List ℕ)
    → ((n : ℕ) → count n xs ≤ 1)
    → ((n : ℕ) → contains xs n ≡ true → contains ys n ≡ true)
    → length xs ≡ length ys
    → (n : ℕ) → contains ys n ≡ true
    → contains xs n ≡ true
contains_all xs ys once inside same n i = elim (Bool-cases (contains xs n)) [
  | inl h ↦ h
  | inr missing ↦
      let more : suc (length xs) ≤ length ys =
        length_le (n ∷ xs) ys (λ m. ground (arith, once m, count-zero n xs missing))
          λ m k. elim (uncons n xs m k) [ inl e ↦ rw⁻¹ e i | inr k' ↦ inside m k' ] in
      absurd (omega arith)
]

-- Two lists with the same members, neither with a repetition of `n`
pub count-same :
    (xs ys : List ℕ) (n : ℕ)
    → count n xs ≤ 1
    → count n ys ≤ 1
    → (contains xs n ≡ true → contains ys n ≡ true)
    → (contains ys n ≡ true → contains xs n ≡ true)
    → count n xs ≡ count n ys
count-same xs ys n a b there back = elim (Bool-cases (contains xs n)) [
  | inl h ↦ omega (arith, contains-count xs n h, contains-count ys n (there h))
  | inr h ↦ elim (Bool-cases (contains ys n)) [
    | inl k ↦ absurd (ground (arith, back k))
    | inr k ↦ omega (arith, count-zero n xs h, count-zero n ys k)
  ]
]

pub count-contains : (xs : List ℕ) (n : ℕ) → 1 ≤ count n xs → contains xs n ≡ true
count-contains [] n h = absurd (omega arith)
count-contains (x ∷ xs) n h = ground (arith, count-contains xs n)
