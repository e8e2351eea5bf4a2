-- ===== src/Gateway/Flashing.antt =====
-- The services of DoIPServer._handle_raw_uds_message (transport/doip/server.py) that erase, download,
-- verify, activate and reset. Logging and its chunk counters are left out.
use virtual_automotive_ota_d.Prelude.{
  ◌+◌, ◌-◌, Bool, true, false, not, ◌&&◌, ◌||◌, none, some, [], ◌∷◌, ◌++◌, length, take, drop, ltb,
  leb, ◌==◌, if◌then◌else◌, ok, err, Bytes, byte_at, low_bits, be16, from_be,
}
use virtual_automotive_ota_d.Uds.Codes.{
  sid_ecu_reset, sid_routine_control, sid_request_download, sid_transfer_data,
  sid_request_transfer_exit, nrc_incorrect_length_or_format, nrc_conditions_not_correct,
  nrc_request_out_of_range, nrc_security_access_denied, nrc_wrong_block_sequence_counter,
  routine_control_start, routine_erase_memory, routine_verify_image, routine_activate_image,
}
use virtual_automotive_ota_d.Uds.Codec.{positive_response_sid}
use virtual_automotive_ota_d.Programmer.State.{clear, firmware_data}
use virtual_automotive_ota_d.Programmer.Flashing.{erase_size, routine_id, reset_type}
use virtual_automotive_ota_d.Gateway.Context.{
  Context, Env, response, saved, install, Handled, respond, negative, after_pending,
  reset_programming_state, require_programming_session,
}

-- bytes([positive, control_type]) + payload[2:4]
unfoldable pub routine_done : Context → Bytes → Handled
unfolding positive_response_sid
routine_done ecu payload = respond ecu (
    (positive_response_sid sid_routine_control ∷ byte_at payload 1 ∷ []) ++ take 2 (drop 2 payload))

unfoldable pub erase_memory : Context → Bytes → Handled
unfolding routine_done
erase_memory ecu payload = after_pending sid_routine_control (
    routine_done
      (record ecu {
        receiver = clear;
        expected_download_size = erase_size (drop 4 payload);
        download_received_size = 0;
        download_verified = false;
        install_pending = false;
        install_started = false;
        erase_completed = true;
        activation_marked = false;
        expected_transfer_sequence = 1;
      })
      payload)

unfoldable pub verify_image : Context → Bytes → Handled
unfolding routine_done
verify_image ecu payload =
    if not ecu.install_pending
    then negative ecu sid_routine_control 0x72
    else after_pending sid_routine_control (routine_done ecu payload)

unfoldable pub activate_image : Context → Bytes → Handled
unfolding routine_done
activate_image ecu payload =
    if not ecu.install_pending
    then negative ecu sid_routine_control 0x72
    else after_pending sid_routine_control
        (routine_done (record ecu { activation_marked = true }) payload)

unfoldable pub routine_control : Env → Context → Bytes → Handled
routine_control env ecu payload = require_programming_session env sid_routine_control ecu (λ q.
    if ltb (length payload) 4
    then negative q sid_routine_control nrc_incorrect_length_or_format
    else if not q.security_unlocked
    then negative q sid_routine_control nrc_security_access_denied
    else if not (byte_at payload 1 == routine_control_start)
    then negative q sid_routine_control 0x12
    else if routine_id payload == routine_erase_memory
    then erase_memory q payload
    else if routine_id payload == routine_verify_image
    then verify_image q payload
    else if routine_id payload == routine_activate_image
    then activate_image q payload
    else negative q sid_routine_control 0x31)

-- int.from_bytes(payload[-4:], "big") is the size, whatever the payload's length.
unfoldable pub start_download : Env → Context → Bytes → Handled
unfolding positive_response_sid
start_download env ecu payload =
    respond
      (record ecu {
        receiver = clear;
        expected_download_size = from_be (drop (length payload - 4) payload);
        download_received_size = 0;
        download_verified = false;
        install_pending = false;
        install_started = false;
        expected_transfer_sequence = 1;
      })
      ((positive_response_sid sid_request_download ∷ 0x00 ∷ 0x44 ∷ []) ++ be16 env.block_length)

unfoldable pub request_download : Env → Context → Bytes → Handled
request_download env ecu payload = require_programming_session env sid_request_download ecu (λ q.
    if not q.security_unlocked || not q.erase_completed
    then negative q sid_request_download nrc_conditions_not_correct
    else start_download env q payload)

-- The block is in sequence: data[:remaining] is kept.
unfoldable pub accept_block : Context → Bytes → Handled
unfolding positive_response_sid
accept_block ecu payload =
    let chunk = take (ecu.expected_download_size - ecu.download_received_size) (drop 2 payload) in
    if leb (length chunk) 0 && not (ecu.expected_download_size == 0)
    then negative ecu sid_transfer_data nrc_request_out_of_range
    else respond
        (record ecu {
          receiver = record (ecu.receiver) {
            buffer = ecu.receiver.buffer ++ chunk;
            chunk_count = ecu.receiver.chunk_count + 1;
          };
          download_received_size = ecu.download_received_size + length chunk;
          expected_transfer_sequence = low_bits (ecu.expected_transfer_sequence + 1) 8;
        })
        (positive_response_sid sid_transfer_data ∷ byte_at payload 1 ∷ [])

unfoldable pub transfer_data : Env → Context → Bytes → Handled
transfer_data env ecu payload = require_programming_session env sid_transfer_data ecu (λ q.
    if ltb (length payload) 2
    then negative q sid_transfer_data nrc_incorrect_length_or_format
    else if not q.security_unlocked
    then negative q sid_transfer_data nrc_security_access_denied
    else if not (byte_at payload 1 == low_bits q.expected_transfer_sequence 8)
    then negative q sid_transfer_data nrc_wrong_block_sequence_counter
    else accept_block q payload)

-- `receiver.verify(original_path)` has compared the two digests.
unfoldable pub exit_verified : Bool → Context → Handled
unfolding positive_response_sid
exit_verified true ecu =
    respond
      (record ecu { download_verified = true; install_pending = true; install_started = false })
      (positive_response_sid sid_request_transfer_exit ∷ [])
exit_verified false ecu =
    negative
      (record ecu { download_verified = false; install_pending = false; install_started = false })
      sid_request_transfer_exit 0x72

-- `receiver.save`, then `receiver.verify`, which raises if the original cannot be read.
unfoldable pub save_and_verify : Env → Context → Handled
unfolding firmware_data exit_verified
save_and_verify env ecu =
    let stored = firmware_data ecu.receiver in
    let checked : Handled = elim env.original [
      | err e ↦ record { state = ecu; events = []; raised = some e }
      | ok original ↦ exit_verified (env.sha256 original == env.sha256 stored) ecu
    ] in
    record checked { events = saved stored ∷ checked.events }

unfoldable pub request_transfer_exit : Env → Context → Handled
request_transfer_exit env ecu = require_programming_session env sid_request_transfer_exit ecu (λ q.
    if not q.security_unlocked
    then negative q sid_request_transfer_exit nrc_security_access_denied
    else if not (q.expected_download_size == 0)
        && not (q.download_received_size == q.expected_download_size)
    then negative q sid_request_transfer_exit nrc_incorrect_length_or_format
    else after_pending sid_request_transfer_exit (save_and_verify env q))

-- Whether the installation thread is started
abbrev pub starts_install : Context → Bool
starts_install ecu = ecu.install_pending && (ecu.activation_marked && not ecu.install_started)

-- The reset keeps install_started.
unfoldable pub ecu_reset : Env → Context → Bytes → Handled
unfolding reset_programming_state positive_response_sid
ecu_reset env ecu payload = require_programming_session env sid_ecu_reset ecu (λ q. record {
  state = reset_programming_state (record q {
    install_started = if starts_install q then true else q.install_started;
    current_session = 0x00;
  });
  events =
      response (positive_response_sid sid_ecu_reset ∷ reset_type payload ∷ [])
      ∷ (if starts_install q then install ∷ [] else []);
  raised = none;
})
