-- ===== src/Flash/Bounds.antt =====
-- FlashMemoryEmulator (ecus/base/flash_memory.py) keeps to its partition.
use virtual_automotive_ota_d.Prelude.{
  ℕ, zero, suc, ◌+◌, ◌-◌, ◌≤◌, bit_and, bit_or, ◌≡◌, refl, sym, ap, ◌∙◌, ◌⊎◌, inl, inr, true, List,
  [], ◌∷◌, ◌++◌, arith, length, take, drop, replicate, length-append, length-take, length-drop,
  length-replicate, ltb, ◌==◌, Bool-cases, Result, ok, err, ◌>>=◌, Result-cases, >>=-eq-ok, Bytes,
}
use virtual_automotive_ota_d.Flash.{
  Flash, initialize, write_at, offset_of, erase_region, sector_start, sector_end, program_bytes,
  program_page, program_pages, program, program_at, read,
}

-- The file has the partition's size.
abbrev pub IsSized : Flash → Type 0
IsSized f = length f.content ≡ f.partition_size

write_at-length :
    (offset : ℕ) (written content : Bytes)
    → (written ≡ []) ⊎ (offset + length written ≤ length content)
    → length (write_at offset written content) ≡ length content
write_at-length offset [] content h = refl
write_at-length offset (b ∷ bs) content (inl e) = absurd (ground (arith, e))
write_at-length offset (b ∷ bs) content (inr h) =
    let before = take offset content ++ replicate (offset - length content) 0 in
    let behind = drop (offset + length (b ∷ bs)) content in
    omega (
      arith,
      length-append before ((b ∷ bs) ++ behind),
      length-append (take offset content) (replicate (offset - length content) 0),
      length-append (b ∷ bs) behind,
      length-take offset content,
      length-replicate {A = ℕ} (offset - length content) 0,
      length-drop (offset + length (b ∷ bs)) content,
    )

program_bytes-free :
    (c : ℕ) (cs : Bytes) (b : ℕ) (bs : Bytes)
    → (bit_or c b == c) ≡ true
    → program_bytes (c ∷ cs) (b ∷ bs) ≡ (program_bytes cs bs >>= λ later. ok (bit_and c b ∷ later))
unfolding program_bytes
program_bytes-free c cs b bs free = rw (program_bytes, free)

-- What is shorter than the room behind an offset fits, or is nothing.
fits :
    (written : Bytes) (offset n : ℕ)
    → length written ≤ n - offset
    → (written ≡ []) ⊎ (offset + length written ≤ n)
fits [] offset n h = inl refl
fits (b ∷ bs) offset n h = inr (omega arith)

program_bytes-length :
    (old chunk programmed : Bytes)
    → program_bytes old chunk ≡ ok programmed
    → length programmed ≤ length old
unfolding program_bytes
program_bytes-length [] chunk programmed h = ground (arith, h)
program_bytes-length (c ∷ cs) [] programmed h = ground (arith, h)
program_bytes-length (c ∷ cs) (b ∷ bs) programmed h = elim (Bool-cases (bit_or c b == c)) [
  | inr set ↦ absurd (ground (arith, h))
  | inl free ↦
      let (later, e, done) =
        >>=-eq-ok (program_bytes cs bs) (λ later. ok (bit_and c b ∷ later))
          (sym (program_bytes-free c cs b bs free) ∙ h) in
      ground (arith, program_bytes-length cs bs later e, done)
]

program_page-length :
    (offset : ℕ) (chunk content content' : Bytes)
    → program_page offset chunk content ≡ ok content'
    → length content' ≡ length content
unfolding program_page
program_page-length offset chunk content content' h =
    let old = take (length chunk) (drop offset content) in
    let (programmed, e, done) =
      >>=-eq-ok (program_bytes old chunk) (λ p. ok (write_at offset p content)) h in
    let shorter = program_bytes-length old chunk programmed e in
    let room : length programmed ≤ length content - offset = omega (
      arith,
      shorter,
      length-take (length chunk) (drop offset content),
      length-drop offset content,
    ) in
    let same : write_at offset programmed content ≡ content' = ground (arith, done) in
    ap length (sym same)
    ∙ write_at-length offset programmed content (fits programmed offset (length content) room)

program_pages-length :
    (fuel page offset : ℕ) (payload content : Bytes)
    → length (program_pages fuel page offset payload content).0 ≡ length content
program_pages-length zero page offset [] content = refl
program_pages-length zero page offset (b ∷ bs) content = refl
program_pages-length (suc fuel) page offset [] content = refl
program_pages-length (suc fuel) page offset (b ∷ bs) content =
    elim (Result-cases (program_page offset (take page (b ∷ bs)) content)) [
      | inr (e, failed) ↦ rw (program_pages, failed)
      | inl (content', done) ↦
          rw (program_pages, done)
            (program_pages-length fuel page (offset + page) (drop page (b ∷ bs)) content'
              ∙ program_page-length offset (take page (b ∷ bs)) content content' done)
    ]

program_at-IsSized :
    (f : Flash) (payload : Bytes) (offset : Result ℕ)
    → IsSized f
    → IsSized (program_at f payload offset).0
program_at-IsSized f payload (err e) h = h
program_at-IsSized f payload (ok offset) h =
    elim (Bool-cases (ltb f.partition_size (offset + length payload))) [
      | inl beyond ↦ rw beyond h
      | inr inside ↦ elim (Bool-cases (f.page_size == 0)) [
        | inl none_there ↦ rw (inside, none_there) h
        | inr pages ↦
            rw (inside, pages)
              (program_pages-length (length payload) f.page_size offset payload f.content ∙ h)
      ]
    ]

erase_region-IsSized :
    (f f' : Flash) (address size : ℕ) → IsSized f → erase_region f address size ≡ ok f' → IsSized f'
unfolding erase_region
erase_region-IsSized f f' address size h e =
    let (start, a, later) = >>=-eq-ok (offset_of f address) _ e in
    let (last, b, done) = >>=-eq-ok (offset_of f (address + size)) _ later in
    let first = sector_start f start in
    let n = sector_end f last - first in
    let gone : Bytes = replicate n 255 in
    let same : record f { content = write_at first gone f.content } ≡ f' = ground (arith, done) in
    let room : length gone ≤ length f.content - first =
      omega (arith, h, length-replicate {A = ℕ} n 255) in
    let kept : length (write_at first gone f.content) ≡ f.partition_size =
      write_at-length first gone f.content (fits gone first (length f.content) room) ∙ h in
    rw⁻¹ same kept

-- Operations on the partition; one that raises may have programmed the pages before.
pub data Operation : Type 0 where
  erase : ℕ → ℕ → Operation
  write : ℕ → Bytes → Operation

abbrev erased_or : Flash → Result Flash → Flash
erased_or f (ok f') = f'
erased_or f (err e) = f

abbrev pub operate : Flash → Operation → Flash
operate f (erase address size) = erased_or f (erase_region f address size)
operate f (write address payload) = (program f address payload).0

abbrev pub operate_all : Flash → List Operation → Flash
operate_all f [] = f
operate_all f (o ∷ os) = operate_all (operate f o) os

operate-IsSized : (f : Flash) (o : Operation) → IsSized f → IsSized (operate f o)
unfolding program
operate-IsSized f (write address payload) h = program_at-IsSized f payload (offset_of f address) h
operate-IsSized f (erase address size) h = elim (Result-cases (erase_region f address size)) [
  | inl (f', e) ↦ rw e (erase_region-IsSized f f' address size h e)
  | inr (x, e) ↦ rw e h
]

operate_all-IsSized : (f : Flash) (os : List Operation) → IsSized f → IsSized (operate_all f os)
operate_all-IsSized f [] h = h
operate_all-IsSized f (o ∷ os) h = operate_all-IsSized (operate f o) os (operate-IsSized f o h)

read-length :
    (f : Flash) (address size : ℕ) (bs : Bytes)
    → IsSized f
    → read f address size ≡ ok bs
    → length bs ≡ size
unfolding read
read-length f address size bs h e =
    let (offset, a, done) = >>=-eq-ok (offset_of f address) _ e in
    ground (arith, done, h, length-take size (drop offset f.content), length-drop offset f.content)

-- After initialize and any run of erasing and programming, at whatever addresses and whether it raises or
-- not, the file has exactly the partition's size, and every read that returns gives as many bytes as it
-- was asked for.
pub operate_all-bounded :
    (f : Flash) (os : List Operation)
    → IsSized (operate_all (initialize f) os)
      × ((address size : ℕ) (bs : Bytes)
          → read (operate_all (initialize f) os) address size ≡ ok bs
          → length bs ≡ size)
unfolding initialize
operate_all-bounded f os =
    let sized =
      operate_all-IsSized (initialize f) os (length-replicate {A = ℕ} f.partition_size 255) in
    (
      sized,
      λ address size bs e. read-length (operate_all (initialize f) os) address size bs sized e,
    )
