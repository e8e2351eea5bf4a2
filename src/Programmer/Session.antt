-- ===== src/Programmer/Session.antt =====
-- The session, identification and security services of `_handle_uds`.
use virtual_automotive_ota_d.Prelude.{
  ℕ, ◌+◌, Bool, true, false, not, ◌&&◌, bit_or, [], ◌∷◌, ◌++◌, ltb, leb, ◌==◌, if◌then◌else◌,
  length, take, drop, ok, err, Bytes, byte_at, be32, from_be, join, low_bits,
}
use virtual_automotive_ota_d.Uds.Codes.{
  sid_diagnostic_session_control, sid_read_data_by_identifier, sid_security_access,
  sid_tester_present, nrc_incorrect_length_or_format, nrc_request_sequence_error, nrc_invalid_key,
  nrc_exceed_number_of_attempts, did_software_version, default_session_programming,
  security_access_request_seed, security_access_send_key,
}
use virtual_automotive_ota_d.Uds.Codec.{positive_response_sid}
use virtual_automotive_ota_d.Programmer.State.{
  Programmer, Env, Handled, respond, negative, raise, reset_programming_state, touch_session,
  expire_session_if_needed, require_programming_session,
}

-- payload[1] if len(payload) > 1 else 0x00
abbrev pub subfunction : Bytes → ℕ
subfunction payload = byte_at payload 1

unfoldable pub diagnostic_session_control : Env → Programmer → Bytes → Handled
unfolding reset_programming_state touch_session positive_response_sid
diagnostic_session_control env p payload =
    respond
      (touch_session env
        (reset_programming_state (record p { current_session = subfunction payload })))
      (positive_response_sid sid_diagnostic_session_control ∷ subfunction payload ∷ [])

unfoldable pub tester_present : Env → Programmer → Bytes → Handled
unfolding expire_session_if_needed touch_session positive_response_sid
tester_present env p payload =
    let q = expire_session_if_needed env p in
    respond (if q.current_session == default_session_programming then touch_session env q else q)
      (positive_response_sid sid_tester_present ∷ subfunction payload ∷ [])

unfoldable pub read_data_by_identifier : Env → Programmer → Bytes → Handled
unfolding positive_response_sid
read_data_by_identifier env p payload =
    if ltb (length payload) 3
    then negative p sid_read_data_by_identifier 0x13
    else if not (from_be (take 2 (drop 1 payload)) == did_software_version)
    then negative p sid_read_data_by_identifier 0x31
    else respond p (
        (positive_response_sid sid_read_data_by_identifier ∷ [])
        ++ (take 2 (drop 1 payload) ++ env.version))

abbrev pub security_attempt_limit : ℕ
security_attempt_limit = 3

abbrev pub security_lockout : ℕ
security_lockout = 30000

-- (self.seed_counter + 1) & 0xFFFFFFFF
abbrev pub next_seed_counter : Programmer → ℕ
next_seed_counter p = low_bits (p.seed_counter + 1) 32

-- ((ecu_id & 0xFFFF) << 16) | seed_counter: `or` of numbers whose bits overlap once the counter
-- passes 2^16
unfoldable pub seed_number : ℕ → ℕ → ℕ
seed_number ecu_id counter = bit_or (join (low_bits ecu_id 16) 16 0) counter

unfoldable pub request_seed : Env → Programmer → Handled
unfolding positive_response_sid seed_number
request_seed env p =
    if ltb env.security_clock p.security_locked_until
    then negative p sid_security_access 0x37
    else let seed = be32 (seed_number p.ecu_id (next_seed_counter p)) in
      respond
        (record p {
          seed_counter = next_seed_counter p;
          pending_seed = seed;
          security_unlocked = false;
        })
        ((positive_response_sid sid_security_access ∷ security_access_request_seed ∷ []) ++ seed)

-- payload[2:] != expected_key
abbrev pub same_bytes : Bytes → Bytes → Bool
same_bytes [] [] = true
same_bytes [] (y ∷ ys) = false
same_bytes (x ∷ xs) [] = false
same_bytes (x ∷ xs) (y ∷ ys) = x == y && same_bytes xs ys

-- The key is wrong: one more failure, and at the limit the lockout.
unfoldable pub reject_key : Env → Programmer → Handled
reject_key env p =
    let failed : Programmer = record p {
      security_unlocked = false;
      security_failures = p.security_failures + 1;
      pending_seed = [];
    } in
    if leb security_attempt_limit (p.security_failures + 1)
    then negative (record failed { security_locked_until = env.security_clock + security_lockout })
        sid_security_access nrc_exceed_number_of_attempts
    else negative failed sid_security_access nrc_invalid_key

unfoldable pub accept_key : Programmer → Handled
unfolding positive_response_sid
accept_key p =
    respond (record p { security_unlocked = true; security_failures = 0; pending_seed = [] })
      (positive_response_sid sid_security_access ∷ security_access_send_key ∷ [])

unfoldable pub send_key : Env → Programmer → Bytes → Handled
send_key env p key =
    if leb (length p.pending_seed) 0
    then negative p sid_security_access nrc_request_sequence_error
    else elim (env.derive_key p.pending_seed) [
      | err e ↦ raise p e
      | ok expected_key ↦ if same_bytes key expected_key then accept_key p else reject_key env p
    ]

unfoldable pub security_access : Env → Programmer → Bytes → Handled
security_access env p payload = require_programming_session env sid_security_access p (λ q.
    if ltb (length payload) 2
    then negative q sid_security_access nrc_incorrect_length_or_format
    else if byte_at payload 1 == security_access_request_seed
    then request_seed env q
    else if byte_at payload 1 == security_access_send_key
    then send_key env q (drop 2 payload)
    else negative q sid_security_access 0x12)
