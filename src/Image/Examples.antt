-- ===== src/Image/Examples.antt =====
-- firmware/image_format.py: an image of three bytes, and one whose payload was changed after it was built.
use virtual_automotive_ota_d.Prelude.{
  ℕ, ◌+◌, ◌≡◌, refl, true, some, [], ◌∷◌, ◌++◌, arith, length, replicate, ok, ◌>>=◌, Bytes,
}
use virtual_automotive_ota_d.Image.{
  Library, FirmwareImageSpec, magic, header_fields, build_firmware_image, parse_fields,
  extract_firmware_payload, looks_like_firmware_image,
}
use virtual_automotive_ota_d.Image.RoundTrip.{
  Fitting, described, extract_firmware_payload-build_firmware_image,
}

abbrev payload : Bytes
payload = 1 ∷ 2 ∷ 3 ∷ []

abbrev crc_sum : Bytes → ℕ
crc_sum [] = 0
crc_sum (b ∷ bs) = b + crc_sum bs

abbrev library : Library
library = record {
  crc32 = crc_sum;
  sha256 = λ bs. replicate 32 (length bs);
  randbytes = λ seed size. replicate size 5;
  decimal = λ n. 0x30 ∷ [];
}

abbrev spec : FirmwareImageSpec
spec = record {
  ecu_name = 0x42 ∷ 0x43 ∷ 0x4D ∷ [];
  ecu_id = 0x101;
  part_number = 0x50 ∷ 0x31 ∷ [];
  current_version = 0x31 ∷ 0x2E ∷ 0x30 ∷ [];
  target_version = 0x31 ∷ 0x2E ∷ 0x31 ∷ [];
  build_date = [];
  build_number = 7;
  flash_address = 0x8000;
  payload_size = 3;
  image_format = 0x52 ∷ 0x41 ∷ 0x57 ∷ [];
  payload_data = some payload;
}

abbrev spec-Fitting : Fitting library spec
spec-Fitting = record {
  sized = refl;
  digest = refl;
  name_fits = (omega arith, refl);
  part_fits = (omega arith, refl);
  current_fits = (omega arith, refl);
  target_fits = (omega arith, refl);
  date_fits = (omega arith, refl);
  format_fits = (omega arith, refl);
  build_fits = omega arith;
  address_fits = omega arith;
  image_fits = omega arith;
}

extract_firmware_payload-build_firmware_image_example :
    (build_firmware_image library spec >>= λ image. extract_firmware_payload library image)
    ≡ ok (described library spec, payload)
extract_firmware_payload-build_firmware_image_example =
    extract_firmware_payload-build_firmware_image library spec spec-Fitting

-- The payload's first byte is changed: the parser takes the image and gives the CRC of the changed payload.
parse-changed :
    (parse_fields library (replicate 160 0 ++ (9 ∷ 2 ∷ 3 ∷ [])) (header_fields library spec payload)
      >>= λ metadata. ok metadata.crc32)
    ≡ ok 14
unfolding parse_fields
parse-changed = refl

looks_like_firmware_image-magic : looks_like_firmware_image (magic ++ payload) ≡ true
unfolding looks_like_firmware_image
looks_like_firmware_image-magic = refl
