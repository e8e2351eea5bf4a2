-- ===== src/Image/RoundTrip.antt =====
-- firmware/image_format.py: what build_firmware_image writes, parse_firmware_image reads.
use virtual_automotive_ota_d.Prelude.{
  ℕ, ◌+◌, ◌^◌, ◌≤◌, ◌<◌, ◌≡◌, refl, sym, ap, ◌∙◌, true, false, Option, none, some, List, ◌++◌,
  arith, length, take, drop, length-append, take_all, ltb, ltb_ge, ◌==◌, if◌then◌else◌, ok, err,
  value_error, ◌>>=◌, ==_self, Bytes, low_bits, from_be, from_be-be32, take-append_length,
  drop-append_length,
}
use virtual_automotive_ota_d.Image.{
  Library, FirmwareImageSpec, FirmwareImageMetadata, header_size, field_sizes, pack, unpack, field,
  checksum, header_fields, build_image, deterministic_payload, build_firmware_image, payload_of,
  metadata_of, parse_fields, parse_firmware_image, extract_firmware_payload,
}
use virtual_automotive_ota_d.Image.Fields.{
  lengths, unpack-pack, Fits, unpad-pad, length-pad, from_be-byte, sum, length-pack,
}

-- The payload that the image gets
abbrev pub payload_for : Library → FirmwareImageSpec → Bytes
payload_for l s = elim s.payload_data [ none ↦ deterministic_payload l s | some payload ↦ payload ]

-- What the header can hold: texts that fit, numbers of four bytes, and SHA-256's 32 bytes
pub record Fitting (l : Library) (s : FirmwareImageSpec) : Type 0 where
  pub sized : length (payload_for l s) ≡ s.payload_size
  pub digest : length (l.sha256 (payload_for l s)) ≡ 32
  pub name_fits : Fits 16 s.ecu_name
  pub part_fits : Fits 16 s.part_number
  pub current_fits : Fits 16 s.current_version
  pub target_fits : Fits 16 s.target_version
  pub date_fits : Fits 8 s.build_date
  pub format_fits : Fits 8 s.image_format
  pub build_fits : s.build_number < 2 ^ 32
  pub address_fits : s.flash_address < 2 ^ 32
  pub image_fits : header_size + length (payload_for l s) < 2 ^ 32

lengths-header :
    (l : Library) (s : FirmwareImageSpec)
    → Fitting l s
    → lengths (header_fields l s (payload_for l s)) ≡ field_sizes
lengths-header l s f = rw (
  length-pad 16 s.ecu_name f.name_fits,
  length-pad 16 s.part_number f.part_fits,
  length-pad 16 s.current_version f.current_fits,
  length-pad 16 s.target_version f.target_fits,
  length-pad 8 s.build_date f.date_fits,
  length-pad 8 s.image_format f.format_fits,
  f.digest,
)

length-header :
    (l : Library) (s : FirmwareImageSpec)
    → Fitting l s
    → length (pack (header_fields l s (payload_for l s))) ≡ header_size
length-header l s f =
    length-pack (header_fields l s (payload_for l s)) ∙ ap sum (lengths-header l s f)

-- What a reader of the image of `s` is told
abbrev pub described : Library → FirmwareImageSpec → FirmwareImageMetadata
described l s = record {
  ecu_name = s.ecu_name;
  ecu_id = low_bits s.ecu_id 8;
  part_number = s.part_number;
  current_version = s.current_version;
  target_version = s.target_version;
  build_date = s.build_date;
  build_number = s.build_number;
  flash_address = s.flash_address;
  payload_size = s.payload_size;
  image_size = header_size + s.payload_size;
  crc32 = checksum l (payload_for l s);
  payload_sha256 = l.sha256 (payload_for l s);
  image_format = s.image_format;
}

header : Library → FirmwareImageSpec → Bytes
header l s = pack (header_fields l s (payload_for l s))

take-header :
    (l : Library) (s : FirmwareImageSpec)
    → Fitting l s
    → (rest : Bytes) → take header_size (header l s ++ rest) ≡ header l s
unfolding header
take-header l s f rest =
    ap (λ n. take n (header l s ++ rest)) (sym (length-header l s f))
    ∙ take-append_length (header l s) rest

drop-header :
    (l : Library) (s : FirmwareImageSpec)
    → Fitting l s
    → (rest : Bytes) → drop header_size (header l s ++ rest) ≡ rest
unfolding header
drop-header l s f rest =
    ap (λ n. drop n (header l s ++ rest)) (sym (length-header l s f))
    ∙ drop-append_length (header l s) rest

unpack-header :
    (l : Library) (s : FirmwareImageSpec)
    → Fitting l s
    → unpack field_sizes (header l s) ≡ header_fields l s (payload_for l s)
unfolding header
unpack-header l s f =
    ap (λ ns. unpack ns (header l s)) (sym (lengths-header l s f))
    ∙ unpack-pack (header_fields l s (payload_for l s))

module _ (l : Library) (s : FirmwareImageSpec) (f : Fitting l s) where
  image : Bytes
  image = header l s ++ payload_for l s

  fields : List Bytes
  fields = header_fields l s (payload_for l s)

  size_fits : length (payload_for l s) < 2 ^ 32
  size_fits = length_fits header_size (length (payload_for l s)) f.image_fits
    where
      length_fits : (m n : ℕ) → m + n < 2 ^ 32 → n < 2 ^ 32
      length_fits m n h = omega arith

  payload_of-header : payload_of image fields ≡ payload_for l s
  unfolding image fields
  payload_of-header =
      ap (λ n. take n (drop header_size image)) (from_be-be32 (length (payload_for l s)) size_fits)
      ∙ ap (λ bs. take (length (payload_for l s)) bs) (drop-header l s f (payload_for l s))
      ∙ take_all (length (payload_for l s)) (payload_for l s) omega arith

  checksum_fits : checksum l (payload_for l s) < 2 ^ 32
  checksum_fits = remainder (l.crc32 (payload_for l s))
    where
      remainder : (n : ℕ) → low_bits n 32 < 2 ^ 32
      remainder n = omega arith

  metadata_of-header : metadata_of l image fields ≡ described l s
  unfolding fields
  metadata_of-header = rw (
    payload_of-header,
    unpad-pad 16 s.ecu_name f.name_fits,
    unpad-pad 16 s.part_number f.part_fits,
    unpad-pad 16 s.current_version f.current_fits,
    unpad-pad 16 s.target_version f.target_fits,
    unpad-pad 8 s.build_date f.date_fits,
    unpad-pad 8 s.image_format f.format_fits,
    from_be-be32 s.build_number f.build_fits,
    from_be-be32 s.flash_address f.address_fits,
    from_be-be32 (length (payload_for l s)) size_fits,
    from_be-be32 (header_size + length (payload_for l s)) f.image_fits,
    from_be-be32 (checksum l (payload_for l s)) checksum_fits,
    ==_self (checksum l (payload_for l s)),
    f.sized,
    from_be-byte (low_bits s.ecu_id 8),
  )

  size_matches : (length (payload_of image fields) == from_be (field fields 11)) ≡ true
  unfolding fields
  size_matches = rw (
    payload_of-header,
    from_be-be32 (length (payload_for l s)) size_fits,
    ==_self (length (payload_for l s)),
  )

  parse_fields-header : parse_fields l image fields ≡ ok (described l s)
  unfolding fields parse_fields
  parse_fields-header = rw (parse_fields, size_matches) (ap ok metadata_of-header)

  image_is_long : ltb (length image) header_size ≡ false
  unfolding image header
  image_is_long =
      ltb_ge (length image) header_size
        (at_least (header l s) (payload_for l s) (length-header l s f))
    where
      at_least : (xs ys : Bytes) → length xs ≡ header_size → header_size ≤ length (xs ++ ys)
      at_least xs ys h = rw (length-append xs ys, h) (omega arith)

  parse-image : parse_firmware_image l image ≡ ok (described l s)
  unfolding image parse_firmware_image fields
  parse-image =
      rw
        (
          parse_firmware_image,
          image_is_long,
          take-header l s f (payload_for l s),
          unpack-header l s f,
        )
        parse_fields-header

  payload_slice : take s.payload_size (drop header_size image) ≡ payload_for l s
  unfolding image
  payload_slice =
      rw (drop-header l s f (payload_for l s))
        (take_all s.payload_size (payload_for l s) (omega arith))

  extract-image : extract_firmware_payload l image ≡ ok (described l s, payload_for l s)
  unfolding extract_firmware_payload
  extract-image = rw (extract_firmware_payload, parse-image, payload_slice)

  build_image-payload : build_image l s (payload_for l s) ≡ ok image
  unfolding build_image image header
  build_image-payload = rw (
    build_image,
    fits s.build_number f.build_fits,
    fits s.flash_address f.address_fits,
    fits (header_size + length (payload_for l s)) f.image_fits,
  )
    where
      fits : (n : ℕ) → n < 2 ^ 32 → ltb n (2 ^ 32) ≡ true
      fits n h = ground arith

  build-image : build_firmware_image l s ≡ ok image
  unfolding build_firmware_image
  build-image = build_with s.payload_data f.sized ∙ build_image-payload
    where
      build_with :
          (d : Option Bytes)
          → length (elim d [ none ↦ deterministic_payload l s | some payload ↦ payload ])
            ≡ s.payload_size
          → (elim d [
            | none ↦ build_image l s (deterministic_payload l s)
            | some payload ↦
                if s.payload_size == length payload
                then build_image l s payload
                else err (value_error "payload_size mismatch")
          ])
            ≡ build_image l s (elim d [ none ↦ deterministic_payload l s | some payload ↦ payload ])
      build_with none h = refl
      build_with (some payload) h = rw (sym h, ==_self (length payload))

-- Where the payload has the size that the spec states, the texts fit their fields and end in no zero byte, the
-- numbers fit four bytes and SHA-256 has 32 bytes, build_firmware_image succeeds, and from what it builds
-- extract_firmware_payload reads the metadata of the spec, with the low byte of the ECU's id, the CRC and
-- the digest of the payload, and the payload.
pub extract_firmware_payload-build_firmware_image :
    (l : Library) (s : FirmwareImageSpec)
    → Fitting l s
    → (build_firmware_image l s >>= λ image. extract_firmware_payload l image)
      ≡ ok (described l s, payload_for l s)
extract_firmware_payload-build_firmware_image l s f = rw (build-image l s f) (extract-image l s f)
