-- ===== src/Programmer/Flashing.antt =====
-- The services of `_handle_uds` that erase, download, verify, activate and reset.
use virtual_automotive_ota_d.Prelude.{
  ℕ, ◌+◌, ◌-◌, Bool, true, false, not, ◌&&◌, ◌||◌, none, some, List, [], ◌∷◌, ◌++◌, ltb, leb, ◌==◌,
  if◌then◌else◌, length, take, drop, ok, err, Bytes, byte_at, from_be, low_bits,
}
use virtual_automotive_ota_d.Uds.Codes.{
  sid_ecu_reset, sid_routine_control, sid_request_download, sid_transfer_data,
  sid_request_transfer_exit, nrc_incorrect_length_or_format, nrc_conditions_not_correct,
  nrc_request_sequence_error, nrc_request_out_of_range, nrc_security_access_denied,
  nrc_wrong_block_sequence_counter, routine_control_start, routine_erase_memory,
  routine_verify_image, routine_activate_image,
}
use virtual_automotive_ota_d.Uds.Codec.{positive_response_sid}
use virtual_automotive_ota_d.Programmer.State.{
  clear, firmware_data, Programmer, Env, Event, response, saved, install, Handled, respond,
  negative, after_pending, reset_programming_state, require_programming_session,
}

-- bytes([positive, control_type]) + payload[2:4]
unfoldable pub routine_done : Programmer → Bytes → Handled
unfolding positive_response_sid
routine_done p payload = respond p (
    (positive_response_sid sid_routine_control ∷ byte_at payload 1 ∷ []) ++ take 2 (drop 2 payload))

-- The size in the erase request, 0 where it is left out.
abbrev pub erase_size : Bytes → ℕ
erase_size routine_data = if leb 4 (length routine_data) then from_be (take 4 routine_data) else 0

unfoldable pub erase_memory : Programmer → Bytes → Handled
unfolding routine_done
erase_memory p payload =
    let size = erase_size (drop 4 payload) in
    after_pending sid_routine_control (
      routine_done
        (record p {
          receiver = record clear { expected_size = some size };
          expected_size = size;
          received_size = 0;
          install_pending = false;
          erase_completed = true;
          activation_marked = false;
          expected_transfer_sequence = 1;
        })
        payload)

unfoldable pub verify_image : Programmer → Bytes → Handled
unfolding routine_done
verify_image p payload =
    if not p.install_pending
    then negative p sid_routine_control 0x72
    else after_pending sid_routine_control (routine_done p payload)

unfoldable pub activate_image : Programmer → Bytes → Handled
unfolding routine_done
activate_image p payload =
    if not p.install_pending
    then negative p sid_routine_control 0x72
    else after_pending sid_routine_control
        (routine_done (record p { activation_marked = true }) payload)

abbrev pub routine_id : Bytes → ℕ
routine_id payload = from_be (take 2 (drop 2 payload))

unfoldable pub routine_control : Env → Programmer → Bytes → Handled
routine_control env p payload = require_programming_session env sid_routine_control p (λ q.
    if ltb (length payload) 4
    then negative q sid_routine_control nrc_incorrect_length_or_format
    else if not q.security_unlocked
    then negative q sid_routine_control nrc_security_access_denied
    else if not (byte_at payload 1 == routine_control_start)
    then negative q sid_routine_control 0x12
    else if routine_id payload == routine_erase_memory
    then erase_memory q payload
    else if routine_id payload == routine_verify_image
    then verify_image q payload
    else if routine_id payload == routine_activate_image
    then activate_image q payload
    else negative q sid_routine_control 0x31)

-- The request is accepted: int.from_bytes(payload[-4:], "big") is the size.
unfoldable pub start_download : Programmer → Bytes → Handled
unfolding positive_response_sid
start_download p payload =
    let size = from_be (drop (length payload - 4) payload) in
    respond
      (record p {
        receiver = record clear { expected_size = some size };
        expected_size = size;
        received_size = 0;
        install_pending = false;
        install_started = false;
        download_requested = true;
        expected_transfer_sequence = 1;
      })
      (positive_response_sid sid_request_download ∷ 0x00 ∷ 0x44 ∷ 0x00 ∷ 0x40 ∷ [])

unfoldable pub request_download : Env → Programmer → Bytes → Handled
request_download env p payload = require_programming_session env sid_request_download p (λ q.
    if not q.security_unlocked || not q.erase_completed
    then negative q sid_request_download nrc_conditions_not_correct
    else if ltb (length payload) 11
    then negative q sid_request_download nrc_incorrect_length_or_format
    else if not (byte_at payload 1 == 0x00) || not (byte_at payload 2 == 0x44)
    then negative q sid_request_download nrc_request_out_of_range
    else start_download q payload)

-- The block is in sequence: data[:remaining] is kept.
unfoldable pub accept_block : Programmer → Bytes → Handled
unfolding positive_response_sid
accept_block p payload =
    let chunk = take (p.expected_size - p.received_size) (drop 2 payload) in
    if leb (length chunk) 0 && not (p.expected_size == 0)
    then negative p sid_transfer_data nrc_request_out_of_range
    else respond
        (record p {
          receiver = record (p.receiver) {
            buffer = p.receiver.buffer ++ chunk;
            chunk_count = p.receiver.chunk_count + 1;
          };
          received_size = p.received_size + length chunk;
          expected_transfer_sequence = low_bits (p.expected_transfer_sequence + 1) 8;
        })
        (positive_response_sid sid_transfer_data ∷ byte_at payload 1 ∷ [])

unfoldable pub transfer_data : Env → Programmer → Bytes → Handled
transfer_data env p payload = require_programming_session env sid_transfer_data p (λ q.
    if ltb (length payload) 2
    then negative q sid_transfer_data nrc_incorrect_length_or_format
    else if not q.security_unlocked
    then negative q sid_transfer_data nrc_security_access_denied
    else if not q.download_requested
    then negative q sid_transfer_data nrc_request_sequence_error
    else if not (byte_at payload 1 == low_bits q.expected_transfer_sequence 8)
    then negative q sid_transfer_data nrc_wrong_block_sequence_counter
    else accept_block q payload)

-- `receiver.verify(original_path)` has compared the two digests.
unfoldable pub exit_verified : Bool → Programmer → Handled
unfolding positive_response_sid
exit_verified true p =
    respond (record p { install_pending = true; download_requested = false })
      (positive_response_sid sid_request_transfer_exit ∷ [])
exit_verified false p =
    negative (record p { install_pending = false }) sid_request_transfer_exit 0x72

-- `receiver.save`, then `receiver.verify`, which raises if the original cannot be read.
unfoldable pub save_and_verify : Env → Programmer → Handled
unfolding firmware_data exit_verified
save_and_verify env p =
    let stored = firmware_data p.receiver in
    let checked : Handled = elim env.original [
      | err e ↦ record { state = p; events = []; raised = some e }
      | ok original ↦ exit_verified (env.sha256 original == env.sha256 stored) p
    ] in
    record checked { events = saved stored ∷ checked.events }

unfoldable pub request_transfer_exit : Env → Programmer → Handled
request_transfer_exit env p = require_programming_session env sid_request_transfer_exit p (λ q.
    if not q.security_unlocked
    then negative q sid_request_transfer_exit nrc_security_access_denied
    else if not q.download_requested
    then negative q sid_request_transfer_exit nrc_request_sequence_error
    else if not (q.expected_size == 0) && not (q.received_size == q.expected_size)
    then negative q sid_request_transfer_exit nrc_incorrect_length_or_format
    else after_pending sid_request_transfer_exit (save_and_verify env q))

-- payload[1] if len(payload) > 1 else 0x01
abbrev pub reset_type : Bytes → ℕ
reset_type payload = if ltb 1 (length payload) then byte_at payload 1 else 0x01

-- `install_started = True` is written just before the reset clears it, so the event is all that
-- stays of it.
abbrev pub start_install : Programmer → List Event
start_install p =
    if p.install_pending && (p.activation_marked && not p.install_started) then install ∷ [] else []

unfoldable pub ecu_reset : Env → Programmer → Bytes → Handled
unfolding reset_programming_state positive_response_sid
ecu_reset env p payload = require_programming_session env sid_ecu_reset p (λ q. record {
  state = reset_programming_state (record q { current_session = 0x00 });
  events =
      response (positive_response_sid sid_ecu_reset ∷ reset_type payload ∷ []) ∷ start_install q;
  raised = none;
})
