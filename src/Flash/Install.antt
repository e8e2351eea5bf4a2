-- ===== src/Flash/Install.antt =====
-- The programming of an image by FirmwareInstaller.install (ecus/base/installer.py), from the partition that
-- it makes to the comparison that it does afterwards.
use virtual_automotive_ota_d.Prelude.{
  ℕ, ◌+◌, ◌-◌, ◌≤◌, ◌≡◌, refl, sym, ap, ◌∙◌, true, false, [], ◌∷◌, ◌++◌, arith, length, All, ltb,
  ok, Bytes, IsByte, take-append_length,
}
use virtual_automotive_ota_d.Flash.{
  Flash, initialize, write_at, offset_of, erase_region, sector_end, read, same_bytes, verify,
  program_payload, partition_for, flash_for, after_erase, flash_image,
}
use virtual_automotive_ota_d.Flash.Erased.{erased, write_at-inside, replicate-add}
use virtual_automotive_ota_d.Flash.Readback.{with_bytes, program_payload-erased}

partition_for-enough : (size : ℕ) → size ≤ partition_for size
unfolding partition_for
partition_for-enough size = omega arith

erased-part : (k n : ℕ) → k ≤ n → erased n ≡ erased k ++ erased (n - k)
erased-part k n h =
    let e : n ≡ k + (n - k) = omega arith in ap erased e ∙ replicate-add k (n - k) 255

-- Erasing what is erased
erase-erased : (k n : ℕ) → k ≤ n → write_at 0 (erased k) (erased n) ≡ erased n
erase-erased k n h =
    ap (write_at 0 (erased k)) (erased-part k n h)
    ∙ write_at-inside [] (erased k) (erased k) (erased (n - k)) refl
    ∙ sym (erased-part k n h)

-- The partition of an image, erased
abbrev made : ℕ → ℕ → Flash
made address size = with_bytes (flash_for address size) (erased (partition_for size))

module _ (address size : ℕ) where
  erase_region-made :
      erase_region (initialize (flash_for address size)) address size ≡ ok (made address size)
  unfolding erase_region offset_of initialize
  erase_region-made =
      let f = flash_for address size in
      let a : ltb address address ≡ false = ground arith in
      let b : ltb (address + size) address ≡ false = ground arith in
      let start : address - address ≡ 0 = omega arith in
      let last : ℕ = sector_end (initialize f) (address + size - address) - 0 in
      rw (erase_region, offset_of, a, b, start)
        (ap (λ xs. ok (with_bytes f xs)) (erase-erased last (partition_for size) (omega arith)))

same_bytes_self : (bs : Bytes) → same_bytes bs bs ≡ true
same_bytes_self [] = refl
same_bytes_self (b ∷ bs) = ground (arith, same_bytes_self bs)

-- After the image, the rest of the partition is still erased.
abbrev pub flashed : ℕ → Bytes → Flash
flashed address payload =
    with_bytes (flash_for address (length payload))
      (payload ++ erased (partition_for (length payload) - length payload))

flash_image-flashed :
    (address : ℕ) (payload : Bytes)
    → All IsByte payload
    → flash_image address payload ≡ (flashed address payload, ok tt)
unfolding flash_image
flash_image-flashed address payload h =
    let size = length payload in
    let enough = partition_for-enough size in
    let f = flash_for address size in
    let here : address ≡ address + length {A = ℕ} [] = omega arith in
    let split : erased (partition_for size) ≡ erased size ++ erased (partition_for size - size) =
      erased-part size (partition_for size) enough in
    ap (after_erase address payload) (erase_region-made address size)
    ∙ ap (λ xs. program_payload size (with_bytes f xs) address payload) split
    ∙ ap
        (λ a.
          program_payload size (with_bytes f (erased size ++ erased (partition_for size - size))) a
            payload)
        here
    ∙ program_payload-erased size f [] payload (erased (partition_for size - size)) (omega arith)
        (ground arith) (omega arith) h

verify-flashed :
    (address : ℕ) (payload : Bytes) → verify (flashed address payload) address payload ≡ ok true
unfolding verify read offset_of
verify-flashed address payload =
    let size = length payload in
    let enough = partition_for-enough size in
    let a : ltb address address ≡ false = ground arith in
    let start : address - address ≡ 0 = omega arith in
    let inside : ltb (partition_for size) (0 + size) ≡ false = ground arith in
    rw (
      verify,
      read,
      offset_of,
      a,
      start,
      inside,
      take-append_length payload (erased (partition_for size - size)),
      same_bytes_self payload,
    )

-- Whatever the flash address and the image of bytes: the partition that the installer makes is large
-- enough, erasing and programming it in pages raise nothing, and the comparison of what is read back
-- with the image passes.
pub flash_image-verifies :
    (address : ℕ) (payload : Bytes)
    → All IsByte payload
    → ((flash_image address payload).1 ≡ ok tt)
      × (verify (flash_image address payload).0 address payload ≡ ok true)
flash_image-verifies address payload h =
    let e = flash_image-flashed address payload h in
    (ap (λ d. d.1) e, ap (λ d. verify d.0 address payload) e ∙ verify-flashed address payload)
