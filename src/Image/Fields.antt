-- ===== src/Image/Fields.antt =====
-- firmware/image_format.py: the fields of a header, packed and taken apart, and texts in fields of a given size.
use virtual_automotive_ota_d.Prelude.{
  ℕ, zero, suc, ◌+◌, ◌-◌, ◌≤◌, ◌≡◌, refl, ap, ◌∙◌, List, [], ◌∷◌, ◌++◌, arith, length, drop,
  replicate, length-append, length-replicate, ltb_ge, Bytes, from_be, take-append_length,
  drop-append_length,
}
use virtual_automotive_ota_d.Image.{pad_text, unpad_text, pack, unpack}

abbrev pub lengths : List Bytes → List ℕ
lengths [] = []
lengths (f ∷ fs) = length f ∷ lengths fs

pub unpack-pack : (fs : List Bytes) → unpack (lengths fs) (pack fs) ≡ fs
unpack-pack [] = refl
unpack-pack (f ∷ fs) =
    ap (λ x. x ∷ unpack (lengths fs) (drop (length f) (f ++ pack fs)))
      (take-append_length f (pack fs))
    ∙ ap (λ x. f ∷ unpack (lengths fs) x) (drop-append_length f (pack fs))
    ∙ ap (λ x. f ∷ x) (unpack-pack fs)

unpad-replicate : (n : ℕ) → unpad_text (replicate n 0) ≡ []
unpad-replicate zero = refl
unpad-replicate (suc n) = rw (unpad-replicate n)

unpad-append : (t : Bytes) (n : ℕ) → unpad_text (t ++ replicate n 0) ≡ unpad_text t
unpad-append [] n = unpad-replicate n
unpad-append (b ∷ bs) n = rw (unpad-append bs n)

-- The text fits its field and does not end in a zero byte.
abbrev pub Fits : ℕ → Bytes → Type 0
Fits n t = (length t ≤ n) × (unpad_text t ≡ t)

pad-Fits : (n : ℕ) (t : Bytes) → Fits n t → pad_text t n ≡ t ++ replicate (n - length t) 0
pad-Fits n t h = rw (ltb_ge n (length t) h.0)

pub unpad-pad : (n : ℕ) (t : Bytes) → Fits n t → unpad_text (pad_text t n) ≡ t
unpad-pad n t h = ap unpad_text (pad-Fits n t h) ∙ unpad-append t (n - length t) ∙ h.1

pub length-pad : (n : ℕ) (t : Bytes) → Fits n t → length (pad_text t n) ≡ n
length-pad n t h =
    ap length (pad-Fits n t h)
    ∙ length-append t (replicate (n - length t) 0)
    ∙ ap (λ k. length t + k) (length-replicate {A = ℕ} (n - length t) 0)
    ∙ add_sub (length t) n h.0
  where
    add_sub : (m n : ℕ) → m ≤ n → m + (n - m) ≡ n
    add_sub m n h = omega arith

pub from_be-byte : (n : ℕ) → from_be (n ∷ []) ≡ n
from_be-byte n = omega arith

abbrev pub sum : List ℕ → ℕ
sum [] = 0
sum (n ∷ ns) = n + sum ns

pub length-pack : (fs : List Bytes) → length (pack fs) ≡ sum (lengths fs)
length-pack [] = refl
length-pack (f ∷ fs) = length-append f (pack fs) ∙ ap (λ k. length f + k) (length-pack fs)
