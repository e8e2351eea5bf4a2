-- ===== src/Flash.antt =====
-- The bytes of FlashMemoryEmulator (ecus/base/flash_memory.py): a partition in a file, erased in sectors and
-- programmed in pages, where programming only clears bits; and the loop of FirmwareInstaller.install
-- (ecus/base/installer.py) that programs an image. The layout, journal and control block files are left
-- out.
pub mod Erased
pub mod Readback
pub mod Install
pub mod Bounds
pub mod Examples
use virtual_automotive_ota_d.Prelude.{
  ℕ, zero, suc, ◌+◌, ◌-◌, ◌*◌, ◌/◌, min, max, bit_and, bit_or, Bool, true, false, not, ◌&&◌, [],
  ◌∷◌, ◌++◌, length, take, drop, replicate, ltb, ◌==◌, if◌then◌else◌, Result, ok, err, value_error,
  ◌>>=◌, Bytes, zero_division_error,
}

pub record Flash : Type 0 where
  pub base_address : ℕ
  pub partition_size : ℕ
  pub page_size : ℕ
  pub sector_size : ℕ
  pub content : Bytes

abbrev pub erased_byte : ℕ
erased_byte = 0xFF

unfoldable pub initialize : Flash → Flash
initialize f = record f { content = replicate f.partition_size erased_byte }

-- `fp.seek(offset)`, then `fp.write(written)`: a gap before the offset is filled with zeros.
abbrev pub write_at : ℕ → Bytes → Bytes → Bytes
write_at offset [] content = content
write_at offset (b ∷ bs) content =
    (take offset content ++ replicate (offset - length content) 0)
    ++ ((b ∷ bs) ++ drop (offset + length (b ∷ bs)) content)

unfoldable pub offset_of : Flash → ℕ → Result ℕ
offset_of f address =
    if ltb address f.base_address
    then err (value_error "Flash address precedes emulated base address")
    else ok (address - f.base_address)

-- A multiple of the sector size at or below, and at or above, an offset. A sector size of 0 raises.
abbrev pub sector_start : Flash → ℕ → ℕ
sector_start f offset = offset / f.sector_size * f.sector_size

abbrev pub sector_end : Flash → ℕ → ℕ
sector_end f offset =
    min f.partition_size ((offset + f.sector_size - 1) / f.sector_size * f.sector_size)

unfoldable pub erase_region : Flash → ℕ → ℕ → Result Flash
erase_region f address size = offset_of f address >>= λ start_offset.
    offset_of f (address + size) >>= λ end_offset.
    if f.sector_size == 0
    then err zero_division_error
    else ok (record f {
      content =
          write_at (sector_start f start_offset)
            (replicate (sector_end f end_offset - sector_start f start_offset) erased_byte)
            f.content;
    })

-- One page: the bytes to write, from those that are there
unfoldable pub program_bytes : Bytes → Bytes → Result Bytes
program_bytes [] chunk = ok []
program_bytes (c ∷ cs) [] = ok []
program_bytes (c ∷ cs) (b ∷ bs) =
    if bit_or c b == c
    then (program_bytes cs bs >>= λ later. ok (bit_and c b ∷ later))
    else err (value_error "Flash programming attempted to set erased bits back to 1")

unfoldable pub program_page : ℕ → Bytes → Bytes → Result Bytes
program_page offset chunk content =
    program_bytes (take (length chunk) (drop offset content)) chunk >>= λ programmed.
    ok (write_at offset programmed content)

-- `for page_offset in range(0, len(payload), self.page_size)`: the pages before one that raises stay
-- programmed. The fuel is the length of the payload or more.
abbrev pub program_pages : ℕ → ℕ → ℕ → Bytes → Bytes → Bytes × Result (Unit {0})
program_pages fuel page_size offset [] content = (content, ok tt)
program_pages zero page_size offset (b ∷ bs) content = (content, ok tt)
program_pages (suc fuel) page_size offset (b ∷ bs) content =
    elim (program_page offset (take page_size (b ∷ bs)) content) [
      | err e ↦ (content, err e)
      | ok content' ↦
          program_pages fuel page_size (offset + page_size) (drop page_size (b ∷ bs)) content'
    ]

abbrev pub Done : Type 0
Done = Flash × Result (Unit {0})

abbrev pub with_content : Flash → Bytes × Result (Unit {0}) → Done
with_content f (content, r) = (record f { content = content }, r)

abbrev pub program_at : Flash → Bytes → Result ℕ → Done
program_at f payload (err e) = (f, err e)
program_at f payload (ok offset) =
    if ltb f.partition_size (offset + length payload)
    then (f, err (value_error "Flash write exceeds partition size"))
    else if f.page_size == 0
    then (f, err (value_error "range() arg 3 must not be zero"))
    else with_content f (program_pages (length payload) f.page_size offset payload f.content)

unfoldable pub program : Flash → ℕ → Bytes → Done
program f address payload = program_at f payload (offset_of f address)

unfoldable pub read : Flash → ℕ → ℕ → Result Bytes
read f address size = offset_of f address >>= λ offset.
    if ltb f.partition_size (offset + size)
    then err (value_error "Flash read exceeds partition size")
    else ok (take size (drop offset f.content))

abbrev pub same_bytes : Bytes → Bytes → Bool
same_bytes [] [] = true
same_bytes [] (y ∷ ys) = false
same_bytes (x ∷ xs) [] = false
same_bytes (x ∷ xs) (y ∷ ys) = x == y && same_bytes xs ys

unfoldable pub verify : Flash → ℕ → Bytes → Result Bool
verify f address payload =
    read f address (length payload) >>= λ stored. ok (same_bytes stored payload)

-- The rest of the loop, unless a page raised
abbrev pub next_page : Done → Done → Done
next_page later (f, err e) = (f, err e)
next_page later (f, ok done) = later

-- `for index in range(0, len(payload), flash.page_size)` of the installer, from the address that is next;
-- the fuel is the length of the payload or more.
abbrev pub program_payload : ℕ → Flash → ℕ → Bytes → Done
program_payload fuel f address [] = (f, ok tt)
program_payload zero f address (b ∷ bs) = (f, ok tt)
program_payload (suc fuel) f address (b ∷ bs) =
    next_page
      (program_payload fuel (program f address (take f.page_size (b ∷ bs))).0
        (address + f.page_size) (drop f.page_size (b ∷ bs)))
      (program f address (take f.page_size (b ∷ bs)))

-- The partition that the installer makes for a payload of some size
unfoldable pub partition_for : ℕ → ℕ
partition_for size = max 4096 ((size + 4096 - 1) / 4096 * 4096)

abbrev pub page_size_for : ℕ → ℕ
page_size_for size = if ltb 1000000 size then 65536 else 256

abbrev pub flash_for : ℕ → ℕ → Flash
flash_for address size = record {
  base_address = address;
  partition_size = partition_for size;
  page_size = page_size_for size;
  sector_size = 4096;
  content = [];
}

-- Up to the end of programming, when erasing does not raise
abbrev pub after_erase : ℕ → Bytes → Result Flash → Done
after_erase address payload (err e) = (flash_for address (length payload), err e)
after_erase address payload (ok f) = program_payload (length payload) f address payload

unfoldable pub flash_image : ℕ → Bytes → Done
flash_image address payload =
    after_erase address payload
      (erase_region (initialize (flash_for address (length payload))) address (length payload))
