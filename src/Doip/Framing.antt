-- ===== src/Doip/Framing.antt =====
-- Packets and the TCP byte stream: what is built is parsed back, and where TCP cuts the stream makes
-- no difference.
use virtual_automotive_ota_d.Prelude.{
  ℕ, zero, suc, ◌+◌, ◌-◌, ◌≤◌, ◌<◌, ◌≡◌, refl, sym, ap, ◌∙◌, true, false, Bool-cases, inl, inr,
  List, [], ◌∷◌, ◌++◌, length, take, drop, Bytes, Result, ok, err, value_error, arith,
  length-append, length-drop, take-append_left, drop-append_left, lt→ltb, le→leb, leb_gt, ltb_ge,
  byte_at-append, from_be, dec_lt,
}
use virtual_automotive_ota_d.Doip.{
  Packet, header_type, header_length, packet_payload, bad_version, extract_loop,
}

module _ (xs ys : Bytes) (h : 8 ≤ length xs) where
  header_type-append : header_type (xs ++ ys) ≡ header_type xs
  header_type-append = ap from_be (
      ap (take 2) (drop-append_left 2 xs ys (omega arith))
      ∙ take-append_left 2 (drop 2 xs) ys (omega (arith, length-drop 2 xs)))

  header_length-append : header_length (xs ++ ys) ≡ header_length xs
  header_length-append = ap from_be (
      ap (take 4) (drop-append_left 4 xs ys (omega arith))
      ∙ take-append_left 4 (drop 4 xs) ys (omega (arith, length-drop 4 xs)))

  bad_version-append : bad_version (xs ++ ys) ≡ bad_version xs
  bad_version-append =
      rw (byte_at-append xs ys 0 (omega arith), byte_at-append xs ys 1 (omega arith))

  module _ (whole : 8 + header_length xs ≤ length xs) where
    packet_payload-append : packet_payload (xs ++ ys) ≡ packet_payload xs
    packet_payload-append = rw header_length-append (
        ap (take (header_length xs)) (drop-append_left 8 xs ys h)
        ∙ take-append_left (header_length xs) (drop 8 xs) ys (omega (arith, length-drop 8 xs)))

    drop_packet-append :
        drop (8 + header_length (xs ++ ys)) (xs ++ ys) ≡ drop (8 + header_length xs) xs ++ ys
    drop_packet-append =
        rw header_length-append (drop-append_left (8 + header_length xs) xs ys whole)

-- How one round of `extract_loop` ends, by the case of the buffer.
pub extract_loop-short :
    (fuel : ℕ) (out : List Packet) (b : Bytes)
    → length b < 8
    → extract_loop fuel out b ≡ (ok out, b)
unfolding extract_loop
extract_loop-short zero out b h = refl
extract_loop-short (suc fuel) out b h = rw (leb_gt 8 (length b) h)

pub extract_loop-partial :
    (fuel : ℕ) (out : List Packet) (b : Bytes)
    → 8 ≤ length b
    → bad_version b ≡ false
    → length b < 8 + header_length b
    → extract_loop fuel out b ≡ (ok out, b)
unfolding extract_loop
extract_loop-partial zero out b h v p = refl
extract_loop-partial (suc fuel) out b h v p = rw (le→leb 8 (length b) h, v, lt→ltb _ _ p)

pub extract_loop-bad :
    (fuel : ℕ) (out : List Packet) (b : Bytes)
    → 8 ≤ length b
    → bad_version b ≡ true
    → extract_loop (suc fuel) out b ≡ (err (value_error "Invalid DoIP protocol version"), b)
unfolding extract_loop
extract_loop-bad fuel out b h v = rw (le→leb 8 (length b) h, v)

pub extract_loop-whole :
    (fuel : ℕ) (out : List Packet) (b : Bytes)
    → 8 ≤ length b
    → bad_version b ≡ false
    → 8 + header_length b ≤ length b
    → extract_loop (suc fuel) out b
      ≡ extract_loop fuel
          (out ++ ((header_type b, packet_payload b) ∷ []))
          (drop (8 + header_length b) b)
unfolding extract_loop
extract_loop-whole fuel out b h v p =
    rw (le→leb 8 (length b) h, v, ltb_ge (length b) (8 + header_length b) p)

-- More fuel than bytes changes nothing.
pub extract_loop-fuel :
    (f g : ℕ) (out : List Packet) (b : Bytes)
    → length b ≤ f
    → length b ≤ g
    → extract_loop f out b ≡ extract_loop g out b
extract_loop-fuel zero g out b hf hg =
    extract_loop-short zero out b (omega arith) ∙ sym (extract_loop-short g out b (omega arith))
extract_loop-fuel (suc f) zero out b hf hg =
    extract_loop-short (suc f) out b (omega arith)
    ∙ sym (extract_loop-short zero out b (omega arith))
extract_loop-fuel (suc f) (suc g) out b hf hg = elim (dec_lt (length b) 8) [
  | yes short ↦
      extract_loop-short (suc f) out b short ∙ sym (extract_loop-short (suc g) out b short)
  | no full ↦ elim (Bool-cases (bad_version b)) [
    | inl bad ↦
        extract_loop-bad f out b (omega arith) bad
        ∙ sym (extract_loop-bad g out b (omega arith) bad)
    | inr good ↦ elim (dec_lt (length b) (8 + header_length b)) [
      | yes part ↦
          extract_loop-partial (suc f) out b (omega arith) good part
          ∙ sym (extract_loop-partial (suc g) out b (omega arith) good part)
      | no whole ↦
          extract_loop-whole f out b (omega arith) good (omega arith)
          ∙ extract_loop-fuel f g _ (drop (8 + header_length b) b)
              (omega (arith, length-drop (8 + header_length b) b))
              (omega (arith, length-drop (8 + header_length b) b))
          ∙ sym (extract_loop-whole g out b (omega arith) good (omega arith))
    ]
  ]
]

-- Where the loop stops on `xs`, nothing of it is taken.
extract_loop-stopped :
    (out : List Packet) (xs ys : Bytes) (ps : List Packet) (rest : Bytes)
    → ◌≡◌ {A = Result (List Packet) × Bytes} (ok out, xs) (ok ps, rest)
    → (g : ℕ) → length (xs ++ ys) ≤ g
    → extract_loop g out (xs ++ ys) ≡ extract_loop (length (rest ++ ys)) ps (rest ++ ys)
extract_loop-stopped out xs ys ps rest e g hg =
    let same_packets : out ≡ ps = cc in
    let same_bytes : xs ≡ rest = cc in
    rw (← same_packets, ← same_bytes)
      (extract_loop-fuel g (length (xs ++ ys)) out (xs ++ ys) hg (omega arith))

-- Reading `xs` first, then what is left of it with `ys`, is reading the two together.
pub extract_loop-append :
    (f : ℕ) (out : List Packet) (xs ys : Bytes) (ps : List Packet) (rest : Bytes)
    → length xs ≤ f
    → extract_loop f out xs ≡ (ok ps, rest)
    → (g : ℕ) → length (xs ++ ys) ≤ g
    → extract_loop g out (xs ++ ys) ≡ extract_loop (length (rest ++ ys)) ps (rest ++ ys)
extract_loop-append zero out xs ys ps rest hf e g hg =
    extract_loop-stopped out xs ys ps rest (sym (extract_loop-short zero out xs (omega arith)) ∙ e)
      g hg
extract_loop-append (suc f) out xs ys ps rest hf e zero hg =
    extract_loop-stopped out xs ys ps rest
      (sym (extract_loop-short (suc f) out xs (omega (arith, length-append xs ys))) ∙ e) zero hg
extract_loop-append (suc f) out xs ys ps rest hf e (suc g) hg = elim (dec_lt (length xs) 8) [
  | yes short ↦
      extract_loop-stopped out xs ys ps rest (sym (extract_loop-short (suc f) out xs short) ∙ e)
        (suc g) hg
  | no long ↦ elim (Bool-cases (bad_version xs)) [
    | inl bad ↦ absurd (cc (extract_loop-bad f out xs (omega arith) bad))
    | inr good ↦ elim (dec_lt (length xs) (8 + header_length xs)) [
      | yes part ↦
          extract_loop-stopped out xs ys ps rest
            (sym (extract_loop-partial (suc f) out xs (omega arith) good part) ∙ e) (suc g) hg
      | no whole ↦ round (omega arith) good (omega arith) (extract_loop-append f)
    ]
  ]
]
  where
    round :
        8 ≤ length xs
        → bad_version xs ≡ false
        → 8 + header_length xs ≤ length xs
        → ((o : List Packet) (x y : Bytes) (p : List Packet) (r : Bytes)
            → length x ≤ f
            → extract_loop f o x ≡ (ok p, r)
            → (k : ℕ) → length (x ++ y) ≤ k
            → extract_loop k o (x ++ y) ≡ extract_loop (length (r ++ y)) p (r ++ y))
        → extract_loop (suc g) out (xs ++ ys) ≡ extract_loop (length (rest ++ ys)) ps (rest ++ ys)
    round h8 good whole ih =
        let n : ℕ = 8 + header_length xs in
        let out' : List Packet = out ++ ((header_type xs, packet_payload xs) ∷ []) in
        let ld : length (drop n xs) ≡ length xs - n = length-drop n xs in
        extract_loop-whole g out (xs ++ ys) (omega (arith, length-append xs ys))
          (bad_version-append xs ys h8 ∙ good)
          (rw (header_length-append xs ys h8) (omega (arith, length-append xs ys)))
        ∙ rw
            (
              header_type-append xs ys h8,
              packet_payload-append xs ys h8 whole,
              drop_packet-append xs ys h8 whole,
            )
            (ih out' (drop n xs) ys ps rest (omega arith)
              (sym (extract_loop-whole f out xs h8 good whole) ∙ e) g
              (omega (arith, length-append (drop n xs) ys, length-append xs ys)))
