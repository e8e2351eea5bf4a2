-- ===== src/Flash/Readback.antt =====
-- Programming an erased partition and reading it back (ecus/base/flash_memory.py, and the loop of
-- ecus/base/installer.py).
use virtual_automotive_ota_d.Prelude.{
  ℕ, zero, suc, ◌+◌, ◌-◌, ◌≤◌, ◌<◌, ◌≡◌, refl, sym, ap, ◌∙◌, ◌⊎◌, inl, inr, false, [], ◌∷◌, ◌++◌,
  append_assoc, arith, length, take, drop, All, length-append, take-append-drop, length-take,
  length-drop, ltb, ◌==◌, ok, Bytes, IsByte,
}
use virtual_automotive_ota_d.Flash.{
  Flash, offset_of, program_page, program_pages, program, program_payload,
}
use virtual_automotive_ota_d.Flash.Erased.{
  erased, program_page-erased, All-take, All-drop, erased-split, page-end,
}

-- An erased region between two others, one page of which is programmed
erased-page :
    (page : ℕ) (pre payload post : Bytes)
    → pre ++ (erased (length payload) ++ post)
      ≡ pre
        ++ (erased (length (take page payload)) ++ (erased (length (drop page payload)) ++ post))
erased-page page pre payload post =
    ap (λ xs. pre ++ (xs ++ post)) (erased-split page payload)
    ∙ ap (λ xs. pre ++ xs)
        (append_assoc (erased (length (take page payload))) (erased (length (drop page payload)))
          post)

programmed-page :
    (page : ℕ) (pre payload post : Bytes)
    → (pre ++ take page payload) ++ (drop page payload ++ post) ≡ pre ++ (payload ++ post)
programmed-page page pre payload post =
    append_assoc pre (take page payload) (drop page payload ++ post)
    ∙ ap (λ xs. pre ++ xs)
        (sym (append_assoc (take page payload) (drop page payload) post)
          ∙ ap (λ xs. xs ++ post) (take-append-drop page payload))

pages-nothing :
    (fuel page offset : ℕ) (content : Bytes)
    → program_pages fuel page offset [] content ≡ (content, ok tt)
pages-nothing zero page offset content = refl
pages-nothing (suc fuel) page offset content = refl

-- Where the next page starts, when it starts behind this one or there is none
pages-next :
    (fuel page a b : ℕ) (payload content : Bytes)
    → (a ≡ b) ⊎ (payload ≡ [])
    → program_pages fuel page a payload content ≡ program_pages fuel page b payload content
pages-next fuel page a b payload content (inl e) = rw e
pages-next fuel page a b payload content (inr e) =
    rw (e, pages-nothing fuel page a content, pages-nothing fuel page b content)

pages-step :
    (fuel page offset : ℕ) (payload content content' : Bytes)
    → 0 < length payload
    → program_page offset (take page payload) content ≡ ok content'
    → program_pages (suc fuel) page offset payload content
      ≡ program_pages fuel page (offset + page) (drop page payload) content'
pages-step fuel page offset [] content content' h e = absurd (omega arith)
pages-step fuel page offset (b ∷ bs) content content' h e = rw (program_pages, e)

program_pages-erased :
    (fuel page : ℕ) (pre payload post : Bytes)
    → 0 < page
    → length payload ≤ fuel
    → All IsByte payload
    → program_pages fuel page (length pre) payload (pre ++ (erased (length payload) ++ post))
      ≡ (pre ++ (payload ++ post), ok tt)
program_pages-erased fuel page pre [] post p enough h =
    pages-nothing fuel page (length pre) (pre ++ ([] ++ post))
program_pages-erased zero page pre (b ∷ bs) post p enough h = absurd (omega arith)
program_pages-erased (suc fuel) page pre (b ∷ bs) post p enough h =
    let payload : Bytes = b ∷ bs in
    let chunk = take page payload in
    let rest = drop page payload in
    let behind = erased (length rest) ++ post in
    let written : program_page (length pre) chunk (pre ++ (erased (length payload) ++ post))
        ≡ ok ((pre ++ chunk) ++ behind) =
      ap (program_page (length pre) chunk) (erased-page page pre payload post)
      ∙ program_page-erased pre chunk behind (All-take page payload h)
      ∙ ap ok (sym (append_assoc pre chunk behind)) in
    pages-step fuel page (length pre) payload _ ((pre ++ chunk) ++ behind) (omega arith) written
    ∙ pages-next fuel page (length pre + page) (length (pre ++ chunk)) rest
        ((pre ++ chunk) ++ behind) (page-end page pre payload)
    ∙ program_pages-erased fuel page (pre ++ chunk) rest post p
        (omega (arith, length-drop page payload)) (All-drop page payload h)
    ∙ ap (λ xs. (xs, ok tt)) (programmed-page page pre payload post)

abbrev pub with_bytes : Flash → Bytes → Flash
with_bytes f content = record f { content = content }

program-erased :
    (f : Flash) (pre payload post : Bytes)
    → length pre + length payload ≤ f.partition_size
    → 0 < f.page_size
    → All IsByte payload
    → program
        (with_bytes f (pre ++ (erased (length payload) ++ post)))
        (f.base_address + length pre)
        payload
      ≡ (with_bytes f (pre ++ (payload ++ post)), ok tt)
unfolding program offset_of
program-erased f pre payload post fits p h =
    let at_or_above : ltb (f.base_address + length pre) f.base_address ≡ false = ground arith in
    let place : f.base_address + length pre - f.base_address ≡ length pre = omega arith in
    let inside : ltb f.partition_size (length pre + length payload) ≡ false = ground arith in
    let pages : (f.page_size == 0) ≡ false = ground arith in
    rw (
      program,
      offset_of,
      at_or_above,
      place,
      inside,
      pages,
      program_pages-erased (length payload) f.page_size pre payload post p (omega arith) h,
    )

payload-step :
    (fuel : ℕ) (f f' : Flash) (address : ℕ) (payload : Bytes)
    → 0 < length payload
    → program f address (take f.page_size payload) ≡ (f', ok tt)
    → program_payload (suc fuel) f address payload
      ≡ program_payload fuel f' (address + f.page_size) (drop f.page_size payload)
payload-step fuel f f' address [] h e = absurd (omega arith)
payload-step fuel f f' address (b ∷ bs) h e = rw (program_payload, e)

payload-nothing :
    (fuel : ℕ) (f : Flash) (address : ℕ) → program_payload fuel f address [] ≡ (f, ok tt)
payload-nothing zero f address = refl
payload-nothing (suc fuel) f address = refl

payload-next :
    (fuel : ℕ) (f : Flash) (a b : ℕ) (payload : Bytes)
    → (a ≡ b) ⊎ (payload ≡ [])
    → program_payload fuel f a payload ≡ program_payload fuel f b payload
payload-next fuel f a b payload (inl e) = rw e
payload-next fuel f a b payload (inr e) = rw (e, payload-nothing fuel f a, payload-nothing fuel f b)

pub program_payload-erased :
    (fuel : ℕ) (f : Flash) (pre payload post : Bytes)
    → length pre + length payload ≤ f.partition_size
    → 0 < f.page_size
    → length payload ≤ fuel
    → All IsByte payload
    → program_payload fuel
        (with_bytes f (pre ++ (erased (length payload) ++ post)))
        (f.base_address + length pre)
        payload
      ≡ (with_bytes f (pre ++ (payload ++ post)), ok tt)
program_payload-erased fuel f pre [] post fits p enough h =
    payload-nothing fuel (with_bytes f (pre ++ post)) (f.base_address + length pre)
program_payload-erased zero f pre (b ∷ bs) post fits p enough h = absurd (omega arith)
program_payload-erased (suc fuel) f pre (b ∷ bs) post fits p enough h =
    let payload : Bytes = b ∷ bs in
    let page = f.page_size in
    let chunk = take page payload in
    let rest = drop page payload in
    let behind = erased (length rest) ++ post in
    let shorter : length chunk ≤ length payload = omega (arith, length-take page payload) in
    let written : program (with_bytes f (pre ++ (erased (length payload) ++ post)))
          (f.base_address + length pre) chunk
        ≡ (with_bytes f ((pre ++ chunk) ++ behind), ok tt) =
      ap (λ xs. program (with_bytes f xs) (f.base_address + length pre) chunk)
        (erased-page page pre payload post)
      ∙ program-erased f pre chunk behind (omega arith) p (All-take page payload h)
      ∙ ap (λ xs. (with_bytes f xs, ok tt)) (sym (append_assoc pre chunk behind)) in
    let place : (f.base_address + length pre + page ≡ f.base_address + length (pre ++ chunk))
        ⊎ (rest ≡ []) =
      elim (page-end page pre payload) [ inl e ↦ inl (omega (arith, e)) | inr e ↦ inr e ] in
    payload-step fuel (with_bytes f (pre ++ (erased (length payload) ++ post)))
      (with_bytes f ((pre ++ chunk) ++ behind)) (f.base_address + length pre) payload (omega arith)
      written
    ∙ payload-next fuel (with_bytes f ((pre ++ chunk) ++ behind))
        (f.base_address + length pre + page) (f.base_address + length (pre ++ chunk)) rest place
    ∙ program_payload-erased fuel f (pre ++ chunk) rest post
        (omega (arith, length-append pre chunk, length-take page payload, length-drop page payload))
        p (omega (arith, length-drop page payload)) (All-drop page payload h)
    ∙ ap (λ xs. (with_bytes f xs, ok tt)) (programmed-page page pre payload post)
