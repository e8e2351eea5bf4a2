-- ===== src/Image.antt =====
-- firmware/image_format.py: a header of 160 bytes and the payload. Texts are their ASCII bytes. CRC-32 and
-- SHA-256, the bytes of the seeded generator and the decimal text of a number, which Python's libraries
-- make, are given by `Library`.
pub mod Fields
pub mod RoundTrip
pub mod Examples
use virtual_automotive_ota_d.Prelude.{
  ℕ, zero, suc, ◌+◌, ◌-◌, ◌^◌, [], Bool, true, false, not, ◌&&◌, Option, none, some, List, ◌∷◌,
  ◌++◌, length, take, drop, replicate, ltb, leb, ◌==◌, if◌then◌else◌, Result, ok, err, value_error,
  struct_error, ◌>>=◌, Bytes, low_bits, be16, be32, from_be,
}

pub record Library : Type 0 where
  pub crc32 : Bytes → ℕ
  pub sha256 : Bytes → Bytes
  pub randbytes : Bytes → ℕ → Bytes
  pub decimal : ℕ → Bytes

-- b"VOTAIMG1"
abbrev pub magic : Bytes
magic = 0x56 ∷ 0x4F ∷ 0x54 ∷ 0x41 ∷ 0x49 ∷ 0x4D ∷ 0x47 ∷ 0x31 ∷ []

abbrev pub header_size : ℕ
header_size = 160

abbrev pub pad_text : Bytes → ℕ → Bytes
pad_text value size =
    if ltb size (length value)
    then take size value
    else (value ++ replicate (size - length value) 0)

-- value.rstrip(b"\x00")
abbrev pub unpad_text : Bytes → Bytes
unpad_text [] = []
unpad_text (b ∷ bs) = if b == 0 && leb (length (unpad_text bs)) 0 then [] else (b ∷ unpad_text bs)

abbrev pub same_bytes : Bytes → Bytes → Bool
same_bytes [] [] = true
same_bytes [] (y ∷ ys) = false
same_bytes (x ∷ xs) [] = false
same_bytes (x ∷ xs) (y ∷ ys) = x == y && same_bytes xs ys

unfoldable pub looks_like_firmware_image : Bytes → Bool
looks_like_firmware_image image = leb 8 (length image) && same_bytes (take 8 image) magic

pub record FirmwareImageSpec : Type 0 where
  pub ecu_name : Bytes
  pub ecu_id : ℕ
  pub part_number : Bytes
  pub current_version : Bytes
  pub target_version : Bytes
  pub build_date : Bytes
  pub build_number : ℕ
  pub flash_address : ℕ
  pub payload_size : ℕ
  pub image_format : Bytes
  pub payload_data : Option Bytes

pub record FirmwareImageMetadata : Type 0 where
  pub ecu_name : Bytes
  pub ecu_id : ℕ
  pub part_number : Bytes
  pub current_version : Bytes
  pub target_version : Bytes
  pub build_date : Bytes
  pub build_number : ℕ
  pub flash_address : ℕ
  pub payload_size : ℕ
  pub image_size : ℕ
  pub crc32 : ℕ
  pub payload_sha256 : Bytes
  pub image_format : Bytes

-- The sizes in ">8sBBH16s16s16s16s8sIIIII32s8s16s"
abbrev pub field_sizes : List ℕ
field_sizes = 8 ∷ 1 ∷ 1 ∷ 2 ∷ 16 ∷ 16 ∷ 16 ∷ 16 ∷ 8 ∷ 4 ∷ 4 ∷ 4 ∷ 4 ∷ 4 ∷ 32 ∷ 8 ∷ 16 ∷ []

abbrev pub pack : List Bytes → Bytes
pack [] = []
pack (f ∷ fs) = f ++ pack fs

abbrev pub unpack : List ℕ → Bytes → List Bytes
unpack [] bytes = []
unpack (n ∷ ns) bytes = take n bytes ∷ unpack ns (drop n bytes)

abbrev pub field : List Bytes → ℕ → Bytes
field [] i = []
field (f ∷ fs) zero = f
field (f ∷ fs) (suc i) = field fs i

-- `binascii.crc32(payload) & 0xFFFFFFFF`
abbrev pub checksum : Library → Bytes → ℕ
checksum l payload = low_bits (l.crc32 payload) 32

abbrev pub header_fields : Library → FirmwareImageSpec → Bytes → List Bytes
header_fields l s payload =
    magic
    ∷ (1 ∷ [])
    ∷ (low_bits s.ecu_id 8 ∷ [])
    ∷ be16 header_size
    ∷ pad_text s.ecu_name 16
    ∷ pad_text s.part_number 16
    ∷ pad_text s.current_version 16
    ∷ pad_text s.target_version 16
    ∷ pad_text s.build_date 8
    ∷ be32 s.build_number
    ∷ be32 s.flash_address
    ∷ be32 (length payload)
    ∷ be32 (header_size + length payload)
    ∷ be32 (checksum l payload)
    ∷ l.sha256 payload
    ∷ pad_text s.image_format 8
    ∷ replicate 16 0
    ∷ []

-- struct.pack raises for a number of more than four bytes.
unfoldable pub build_image : Library → FirmwareImageSpec → Bytes → Result Bytes
build_image l s payload =
    if ltb s.build_number (2 ^ 32)
      && (ltb s.flash_address (2 ^ 32) && ltb (header_size + length payload) (2 ^ 32))
    then ok (pack (header_fields l s payload) ++ payload)
    else err struct_error

-- The seed is f"{ecu_name}|{target_version}|{build_number}".
abbrev pub deterministic_payload : Library → FirmwareImageSpec → Bytes
deterministic_payload l s =
    l.randbytes (s.ecu_name ++ (0x7C ∷ s.target_version ++ (0x7C ∷ l.decimal s.build_number)))
      s.payload_size

unfoldable pub build_firmware_image : Library → FirmwareImageSpec → Result Bytes
build_firmware_image l s = elim s.payload_data [
  | none ↦ build_image l s (deterministic_payload l s)
  | some payload ↦
      if s.payload_size == length payload
      then build_image l s payload
      else err (value_error "payload_size mismatch")
]

-- The payload that the header announces
abbrev pub payload_of : Bytes → List Bytes → Bytes
payload_of image fs = take (from_be (field fs 11)) (drop header_size image)

-- The metadata, where each check has passed: the SHA-256 is its digest, not the hexadecimal text. The CRC is the stored one only if that is the calculated.
abbrev pub metadata_of : Library → Bytes → List Bytes → FirmwareImageMetadata
metadata_of l image fs =
    let calculated = checksum l (payload_of image fs) in
    record {
      ecu_name = unpad_text (field fs 4);
      ecu_id = from_be (field fs 2);
      part_number = unpad_text (field fs 5);
      current_version = unpad_text (field fs 6);
      target_version = unpad_text (field fs 7);
      build_date = unpad_text (field fs 8);
      build_number = from_be (field fs 9);
      flash_address = from_be (field fs 10);
      payload_size = from_be (field fs 11);
      image_size = from_be (field fs 12);
      crc32 = if from_be (field fs 13) == calculated then from_be (field fs 13) else calculated;
      payload_sha256 = l.sha256 (payload_of image fs);
      image_format = unpad_text (field fs 15);
    }

unfoldable pub parse_fields : Library → Bytes → List Bytes → Result FirmwareImageMetadata
parse_fields l image fs =
    if not (same_bytes (field fs 0) magic)
    then err (value_error "Invalid firmware image magic")
    else if not (from_be (field fs 1) == 1)
    then err (value_error "Unsupported firmware image version")
    else if not (from_be (field fs 3) == header_size)
    then err (value_error "Unexpected header size")
    else if not (length (payload_of image fs) == from_be (field fs 11))
    then err (value_error "Firmware image payload truncated")
    else ok (metadata_of l image fs)

unfoldable pub parse_firmware_image : Library → Bytes → Result FirmwareImageMetadata
parse_firmware_image l image =
    if ltb (length image) header_size
    then err (value_error "Firmware image too small to contain a header")
    else parse_fields l image (unpack field_sizes (take header_size image))

unfoldable pub extract_firmware_payload : Library → Bytes → Result (FirmwareImageMetadata × Bytes)
extract_firmware_payload l image = parse_firmware_image l image >>= λ metadata.
    ok (metadata, take metadata.payload_size (drop header_size image))
