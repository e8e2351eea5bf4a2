-- ===== src/Doip.antt =====
-- transport/doip/packet.py: DoIP framing. `Framing` and `Stream` have the proofs on the byte stream.
-- `struct.pack` of a number that does not fit raises; `struct.unpack` of eight bytes reads them.
pub mod Framing
pub mod Stream
pub mod Examples
use virtual_automotive_ota_d.Prelude.{
  ℕ, zero, suc, ◌+◌, ◌^◌, ◌&&◌, ◌||◌, not, Bool, List, [], ◌∷◌, ◌++◌, ltb, leb, ◌==◌, if◌then◌else◌,
  length, take, drop, Result, ok, err, value_error, struct_error, ◌>>=◌, Bytes, byte_at, be16, be32,
  from_be,
}

abbrev pub doip_version : ℕ
doip_version = 0x02

abbrev pub doip_inverse_version : ℕ
doip_inverse_version = 0xFD

abbrev pub doip_header_size : ℕ
doip_header_size = 8

-- A DoIP packet once parsed: payload type and payload.
abbrev pub Packet : Type 0
Packet = ℕ × Bytes

unfoldable pub build_packet : ℕ → Bytes → Result Bytes
build_packet payload_type payload =
    if ltb payload_type (2 ^ 16) && ltb (length payload) (2 ^ 32)
    then ok (
        (doip_version ∷ doip_inverse_version ∷ be16 payload_type ++ be32 (length payload))
        ++ payload)
    else err struct_error

unfoldable pub build_diagnostic_packet : ℕ → ℕ → Bytes → Result Bytes
build_diagnostic_packet source_address target_address payload =
    if ltb source_address (2 ^ 16) && ltb target_address (2 ^ 16)
    then build_packet 0x8001 ((be16 source_address ++ be16 target_address) ++ payload)
    else err struct_error

-- `struct.unpack("!BBHI", data[:8])`
abbrev pub header_version : Bytes → ℕ
header_version bytes = byte_at bytes 0

abbrev pub header_inverse : Bytes → ℕ
header_inverse bytes = byte_at bytes 1

abbrev pub header_type : Bytes → ℕ
header_type bytes = from_be (take 2 (drop 2 bytes))

abbrev pub header_length : Bytes → ℕ
header_length bytes = from_be (take 4 (drop 4 bytes))

abbrev pub bad_version : Bytes → Bool
bad_version bytes =
    not (header_version bytes == doip_version) || not (header_inverse bytes == doip_inverse_version)

-- `data[DOIP_HEADER_SIZE:packet_length]`
abbrev pub packet_payload : Bytes → Bytes
packet_payload bytes = take (header_length bytes) (drop doip_header_size bytes)

unfoldable pub parse_packet : Bytes → Result Packet
parse_packet bytes =
    if ltb (length bytes) doip_header_size
    then err (value_error "Incomplete DoIP header")
    else if bad_version bytes
    then err (value_error "Invalid DoIP protocol version")
    else if ltb (length bytes) (doip_header_size + header_length bytes)
    then err (value_error "Incomplete DoIP payload")
    else ok (header_type bytes, packet_payload bytes)

-- `while len(buffer) >= DOIP_HEADER_SIZE`: the packets, or the exception, and the buffer that is
-- left. An exception leaves the packets before it deleted from the buffer.
unfoldable pub extract_loop : ℕ → List Packet → Bytes → Result (List Packet) × Bytes
extract_loop zero packets buffer = (ok packets, buffer)
extract_loop (suc fuel) packets buffer =
    let rest =
      extract_loop fuel (packets ++ ((header_type buffer, packet_payload buffer) ∷ []))
        (drop (doip_header_size + header_length buffer) buffer) in
    if leb doip_header_size (length buffer)
    then (if bad_version buffer
        then (err (value_error "Invalid DoIP protocol version"), buffer)
        else if ltb (length buffer) (doip_header_size + header_length buffer)
        then (ok packets, buffer)
        else rest)
    else (ok packets, buffer)

-- Each round takes eight bytes or more, so `length buffer` rounds are enough.
unfoldable pub extract_packets : Bytes → Result (List Packet) × Bytes
extract_packets buffer = extract_loop (length buffer) [] buffer

unfoldable pub parse_diagnostic_payload : Bytes → Result (ℕ × ℕ × Bytes)
parse_diagnostic_payload payload =
    if ltb (length payload) 4
    then err struct_error
    else ok (from_be (take 2 payload), from_be (take 2 (drop 2 payload)), drop 4 payload)
