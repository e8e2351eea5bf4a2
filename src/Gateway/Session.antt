-- ===== src/Gateway/Session.antt =====
-- The session, identification and security services of DoIPServer._handle_raw_uds_message
-- (transport/doip/server.py).
use virtual_automotive_ota_d.Prelude.{
  ℕ, ◌+◌, true, false, some, [], ◌∷◌, ◌++◌, length, take, drop, ltb, leb, ◌==◌, if◌then◌else◌, ok,
  err, Bytes, byte_at, low_bits, be32, from_be,
}
use virtual_automotive_ota_d.Uds.Codes.{
  sid_diagnostic_session_control, sid_read_data_by_identifier, sid_security_access,
  sid_tester_present, nrc_incorrect_length_or_format, nrc_request_sequence_error, nrc_invalid_key,
  nrc_exceed_number_of_attempts, did_software_version, default_session_programming,
  security_access_request_seed, security_access_send_key,
}
use virtual_automotive_ota_d.Uds.Codec.{positive_response_sid}
use virtual_automotive_ota_d.Programmer.Session.{subfunction, seed_number, same_bytes}
use virtual_automotive_ota_d.Gateway.Context.{
  Context, Env, Handled, respond, negative, reset_programming_state, touch_session,
  expire_session_if_needed, require_programming_session,
}

unfoldable pub diagnostic_session_control : Env → Context → Bytes → Handled
unfolding reset_programming_state touch_session positive_response_sid
diagnostic_session_control env ecu payload =
    respond
      (touch_session env
        (reset_programming_state (record ecu { current_session = subfunction payload })))
      (positive_response_sid sid_diagnostic_session_control ∷ subfunction payload ∷ [])

unfoldable pub tester_present : Env → Context → Bytes → Handled
unfolding expire_session_if_needed touch_session positive_response_sid
tester_present env ecu payload =
    let q = expire_session_if_needed env ecu in
    respond (if q.current_session == default_session_programming then touch_session env q else q)
      (positive_response_sid sid_tester_present ∷ subfunction payload ∷ [])

unfoldable pub read_data_by_identifier : Env → Context → Bytes → Handled
unfolding positive_response_sid
read_data_by_identifier env ecu payload =
    if ltb (length payload) 3
    then negative ecu sid_read_data_by_identifier 0x13
    else if from_be (take 2 (drop 1 payload)) == did_software_version
    then respond ecu (
        (positive_response_sid sid_read_data_by_identifier ∷ [])
        ++ (take 2 (drop 1 payload) ++ env.version))
    else negative ecu sid_read_data_by_identifier 0x31

abbrev pub security_attempt_limit : ℕ
security_attempt_limit = 3

abbrev pub security_lockout : ℕ
security_lockout = 30000

-- (ecu.seed_counter + 1) & 0xFFFFFFFF
abbrev pub next_seed_counter : Context → ℕ
next_seed_counter ecu = low_bits (ecu.seed_counter + 1) 32

unfoldable pub request_seed : Env → Context → Handled
unfolding positive_response_sid seed_number
request_seed env ecu =
    if ltb env.security_clock ecu.security_locked_until
    then negative ecu sid_security_access 0x37
    else let seed = be32 (seed_number ecu.logical_address (next_seed_counter ecu)) in
      respond
        (record ecu {
          seed_counter = next_seed_counter ecu;
          pending_seed = seed;
          security_unlocked = false;
        })
        ((positive_response_sid sid_security_access ∷ security_access_request_seed ∷ []) ++ seed)

-- The key is wrong: one more failure, and at the limit the lockout.
unfoldable pub reject_key : Env → Context → Handled
reject_key env ecu =
    let failed : Context = record ecu {
      security_unlocked = false;
      security_failures = ecu.security_failures + 1;
      pending_seed = [];
    } in
    if leb security_attempt_limit (ecu.security_failures + 1)
    then negative (record failed { security_locked_until = env.security_clock + security_lockout })
        sid_security_access nrc_exceed_number_of_attempts
    else negative failed sid_security_access nrc_invalid_key

unfoldable pub accept_key : Context → Handled
unfolding positive_response_sid
accept_key ecu =
    respond (record ecu { security_unlocked = true; security_failures = 0; pending_seed = [] })
      (positive_response_sid sid_security_access ∷ security_access_send_key ∷ [])

unfoldable pub send_key : Env → Context → Bytes → Handled
send_key env ecu key =
    if leb (length ecu.pending_seed) 0
    then negative ecu sid_security_access nrc_request_sequence_error
    else elim (env.derive_key ecu.pending_seed) [
      | err e ↦ record { state = ecu; events = []; raised = some e }
      | ok expected_key ↦ if same_bytes key expected_key then accept_key ecu else reject_key env ecu
    ]

unfoldable pub security_access : Env → Context → Bytes → Handled
security_access env ecu payload = require_programming_session env sid_security_access ecu (λ q.
    if ltb (length payload) 2
    then negative q sid_security_access nrc_incorrect_length_or_format
    else if byte_at payload 1 == security_access_request_seed
    then request_seed env q
    else if byte_at payload 1 == security_access_send_key
    then send_key env q (drop 2 payload)
    else negative q sid_security_access 0x12)
