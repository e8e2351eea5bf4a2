-- ===== src/Flash/Erased.antt =====
-- Programming bytes that are erased (ecus/base/flash_memory.py).
use virtual_automotive_ota_d.Prelude.{
  ℕ, zero, suc, ◌+◌, ◌-◌, ◌<◌, bit_and, bit_or, ◌≡◌, refl, sym, ap, ◌∙◌, ◌⊎◌, inl, inr, Bool, true,
  ◌&&◌, [], ◌∷◌, ◌++◌, append-nil, arith, dec_le, length, take, drop, replicate, All, length-append,
  take-append-drop, length-take, length-replicate, ◌==◌, ok, Bytes, IsByte, take-append_length,
  drop-append_length, drop-drop, drop_all,
}
use virtual_automotive_ota_d.Flash.{write_at, program_bytes, program_page}

-- A test of all numbers below a bound
all_below : ℕ → (ℕ → Bool) → Bool
all_below zero p = true
all_below (suc n) p = p n && all_below n p

all_below_lem : (n : ℕ) (p : ℕ → Bool) (x : ℕ) → all_below n p ≡ true → x < n → p x ≡ true
unfolding all_below
all_below_lem zero p x h lt = absurd (omega arith)
all_below_lem (suc n) p x h lt = ground (arith, all_below_lem n p x)

erased_table : all_below 256 (λ b. (bit_or 255 b == 255) && (bit_and 255 b == b)) ≡ true
unfolding all_below
erased_table = refl

-- Bytes as an erase leaves them
abbrev pub erased : ℕ → Bytes
erased n = replicate n 255

-- An erased byte takes every byte.
erased_bits : (b : ℕ) → b < 256 → ((bit_or 255 b == 255) ≡ true) × (bit_and 255 b ≡ b)
erased_bits b h =
    let both =
      all_below_lem 256 (λ x. (bit_or 255 x == 255) && (bit_and 255 x == x)) b erased_table h in
    (ground (arith, both), ground (arith, both))

program_bytes-erased :
    (chunk : Bytes) → All IsByte chunk → program_bytes (erased (length chunk)) chunk ≡ ok chunk
unfolding program_bytes
program_bytes-erased [] h = refl
program_bytes-erased (b ∷ bs) (small, h) =
    let (free, same) = erased_bits b small in rw (free, program_bytes-erased bs h, same)

pub replicate-add : (m n b : ℕ) → replicate (m + n) b ≡ replicate m b ++ replicate n b
replicate-add zero n b = ap (λ k. replicate k b) (omega arith)
replicate-add (suc m) n b =
    let e : suc m + n ≡ suc (m + n) = omega arith in rw e (ap (λ xs. b ∷ xs) (replicate-add m n b))

take-replicate : (n b : ℕ) (xs : Bytes) → take n (replicate n b ++ xs) ≡ replicate n b
take-replicate zero b xs = refl
take-replicate (suc n) b xs = ap (λ ys. b ∷ ys) (take-replicate n b xs)

drop-replicate : (n b : ℕ) (xs : Bytes) → drop n (replicate n b ++ xs) ≡ xs
drop-replicate zero b xs = refl
drop-replicate (suc n) b xs = drop-replicate n b xs

pub write_at-inside :
    (pre chunk old rest : Bytes)
    → length old ≡ length chunk
    → write_at (length pre) chunk (pre ++ (old ++ rest)) ≡ pre ++ (chunk ++ rest)
write_at-inside pre [] [] rest same = refl
write_at-inside pre [] (o ∷ os) rest same = absurd (omega (arith, same))
write_at-inside pre (b ∷ bs) old rest same =
    let all = old ++ rest in
    let no_gap : length pre - length (pre ++ all) ≡ 0 = omega (arith, length-append pre all) in
    let behind : drop (length pre + length (b ∷ bs)) (pre ++ all) ≡ rest =
      drop-drop (length pre) (length (b ∷ bs)) (pre ++ all)
      ∙ ap (drop (length (b ∷ bs))) (drop-append_length pre all)
      ∙ ap (λ n. drop n all) (sym same)
      ∙ drop-append_length old rest in
    rw (no_gap, behind, take-append_length pre all, append-nil pre)

pub program_page-erased :
    (pre chunk rest : Bytes)
    → All IsByte chunk
    → program_page (length pre) chunk (pre ++ (erased (length chunk) ++ rest))
      ≡ ok (pre ++ (chunk ++ rest))
unfolding program_page
program_page-erased pre chunk rest h =
    let old : Bytes = erased (length chunk) in
    let old_length : length old ≡ length chunk = length-replicate (length chunk) 255 in
    rw (
      drop-append_length pre (old ++ rest),
      take-replicate (length chunk) 255 rest,
      program_bytes-erased chunk h,
      write_at-inside pre chunk old rest old_length,
    )

pub All-take : (n : ℕ) (bs : Bytes) → All IsByte bs → All IsByte (take n bs)
All-take zero bs h = tt
All-take (suc n) [] h = tt
All-take (suc n) (b ∷ bs) (small, h) = (small, All-take n bs h)

pub All-drop : (n : ℕ) (bs : Bytes) → All IsByte bs → All IsByte (drop n bs)
All-drop zero bs h = h
All-drop (suc n) [] h = tt
All-drop (suc n) (b ∷ bs) (small, h) = All-drop n bs h

-- The erased bytes before and behind a page
pub erased-split :
    (page : ℕ) (payload : Bytes)
    → erased (length payload)
      ≡ erased (length (take page payload)) ++ erased (length (drop page payload))
erased-split page payload =
    let whole : length payload ≡ length (take page payload) + length (drop page payload) =
      ap length (sym (take-append-drop page payload))
      ∙ length-append (take page payload) (drop page payload) in
    rw whole (replicate-add (length (take page payload)) (length (drop page payload)) 255)

-- The next page starts behind this one, or there is nothing left.
pub page-end :
    (page : ℕ) (pre payload : Bytes)
    → (length pre + page ≡ length (pre ++ take page payload)) ⊎ (drop page payload ≡ [])
page-end page pre payload = elim (dec_le page (length payload)) [
  | yes full ↦ inl (omega (arith, length-append pre (take page payload), length-take page payload))
  | no short ↦ inr (drop_all page payload (omega arith))
]
