-- ===== src/Flash/Examples.antt =====
-- A partition at 0x8000: an image is programmed and read back, and bits are not set without an erase.
use virtual_automotive_ota_d.Prelude.{
  ℕ, ◌≡◌, refl, true, List, [], ◌∷◌, arith, length, ok, err, value_error, Bytes,
}
use virtual_automotive_ota_d.Flash.{
  Flash, initialize, offset_of, erase_region, program_bytes, program_page, program, read, verify,
  flash_image,
}
use virtual_automotive_ota_d.Flash.Install.{flash_image-verifies}
use virtual_automotive_ota_d.Flash.Bounds.{
  IsSized, Operation, erase, write, operate_all, operate_all-bounded,
}

abbrev image : Bytes
image = 0x12 ∷ 0x00 ∷ 0xFF ∷ []

flash_image-verifies_example :
    ((flash_image 0x8000 image).1 ≡ ok tt)
    × (verify (flash_image 0x8000 image).0 0x8000 image ≡ ok true)
flash_image-verifies_example =
    flash_image-verifies 0x8000 image (omega arith, (omega arith, (omega arith, tt)))

abbrev small : Flash
small = record {
  base_address = 0x8000;
  partition_size = 8;
  page_size = 2;
  sector_size = 4;
  content = [];
}

abbrev operations : List Operation
operations =
    write 0x8001 image ∷ write 0x8001 (0xFF ∷ []) ∷ write 0x8006 image ∷ erase 0x8001 1 ∷ []

operations-content :
    (operate_all (initialize small) operations).content
    ≡ 0xFF ∷ 0xFF ∷ 0xFF ∷ 0xFF ∷ 0xFF ∷ 0xFF ∷ 0xFF ∷ 0xFF ∷ []
unfolding initialize erase_region offset_of program program_page program_bytes
operations-content = refl

refused :
    (program (operate_all (initialize small) (write 0x8001 image ∷ [])) 0x8001 (0xFF ∷ [])).1
    ≡ err (value_error "Flash programming attempted to set erased bits back to 1")
unfolding initialize offset_of program program_page program_bytes
refused = refl

operate_all-bounded_example :
    IsSized (operate_all (initialize small) operations)
    × ((address size : ℕ) (bs : Bytes)
        → read (operate_all (initialize small) operations) address size ≡ ok bs
        → length bs ≡ size)
operate_all-bounded_example = operate_all-bounded small operations
