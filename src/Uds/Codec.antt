-- ===== src/Uds/Codec.antt =====
-- transport/uds/codec.py without the udsoncan library (UDSCAN_AVAILABLE is False): the requests that
-- the client builds, and what it reads in a response. `n.to_bytes` of a number that does not fit
-- raises; a one-byte argument is masked.
use virtual_automotive_ota_d.Prelude.{
  ℕ, ◌+◌, ◌-◌, ◌^◌, Bool, not, ◌&&◌, ◌||◌, Option, none, some, [], ◌∷◌, ◌++◌, ltb, leb, ◌==◌,
  if◌then◌else◌, length, drop, Result, ok, err, overflow_error, Bytes, byte_at, low_bits, be16,
  be32, from_be,
}
use virtual_automotive_ota_d.Uds.Codes.{
  sid_diagnostic_session_control, sid_ecu_reset, sid_read_data_by_identifier, sid_security_access,
  sid_routine_control, sid_request_download, sid_transfer_data, sid_request_transfer_exit,
  sid_tester_present, sid_negative_response, nrc_response_pending, security_access_request_seed,
  routine_control_start,
}

unfoldable pub build_diagnostic_session_control : ℕ → Bytes
build_diagnostic_session_control session = sid_diagnostic_session_control ∷ low_bits session 8 ∷ []

unfoldable pub build_tester_present : Bool → Bytes
build_tester_present suppress_response =
    sid_tester_present ∷ (if suppress_response then 0x80 else 0x00) ∷ []

unfoldable pub build_read_data_by_identifier : ℕ → Result Bytes
build_read_data_by_identifier did =
    if ltb did (2 ^ 16)
    then ok ((sid_read_data_by_identifier ∷ []) ++ be16 did)
    else err overflow_error

unfoldable pub build_security_access_request_seed : ℕ → Bytes
build_security_access_request_seed level = sid_security_access ∷ low_bits level 8 ∷ []

unfoldable pub build_security_access_send_key : ℕ → Bytes → Bytes
build_security_access_send_key level key = (sid_security_access ∷ low_bits level 8 ∷ []) ++ key

unfoldable pub build_routine_control_start : ℕ → Bytes → Result Bytes
build_routine_control_start routine_id routine_data =
    if ltb routine_id (2 ^ 16)
    then ok ((sid_routine_control ∷ routine_control_start ∷ be16 routine_id) ++ routine_data)
    else err overflow_error

unfoldable pub build_request_download : ℕ → ℕ → Result Bytes
build_request_download memory_size memory_address =
    if ltb memory_address (2 ^ 32) && ltb memory_size (2 ^ 32)
    then ok ((sid_request_download ∷ 0x00 ∷ 0x44 ∷ be32 memory_address) ++ be32 memory_size)
    else err overflow_error

unfoldable pub build_transfer_data : ℕ → Bytes → Bytes
build_transfer_data sequence_number payload =
    (sid_transfer_data ∷ low_bits sequence_number 8 ∷ []) ++ payload

unfoldable pub build_request_transfer_exit : Bytes
build_request_transfer_exit = sid_request_transfer_exit ∷ []

unfoldable pub build_ecu_reset : ℕ → Bytes
build_ecu_reset reset_type = sid_ecu_reset ∷ low_bits reset_type 8 ∷ []

unfoldable pub positive_response_sid : ℕ → ℕ
positive_response_sid request_sid = low_bits (request_sid + 0x40) 8

unfoldable pub is_negative_response : Bytes → Bool
is_negative_response payload = leb 3 (length payload) && byte_at payload 0 == sid_negative_response

unfoldable pub is_response_pending : Bytes → Option ℕ → Bool
unfolding is_negative_response
is_response_pending payload none =
    is_negative_response payload && byte_at payload 2 == nrc_response_pending
is_response_pending payload (some request_sid) =
    is_negative_response payload
    && (byte_at payload 1 == request_sid && byte_at payload 2 == nrc_response_pending)

unfoldable pub parse_request_download_max_block_length : Bytes → Option ℕ
unfolding positive_response_sid
parse_request_download_max_block_length payload =
    if leb (length payload) 0
    then none
    else if not (byte_at payload 0 == positive_response_sid sid_request_download)
    then none
    else if ltb (length payload) 5
    then none
    else let max_block_length = from_be (drop (length payload - 2) payload) in
      if ltb 0 max_block_length then some max_block_length else none

unfoldable pub parse_security_access_seed : Bytes → Option Bytes
unfolding positive_response_sid
parse_security_access_seed payload =
    if ltb (length payload) 3
      || not (byte_at payload 0 == positive_response_sid sid_security_access)
    then none
    else if not (byte_at payload 1 == security_access_request_seed)
    then none
    else some (drop 2 payload)
