-- ===== src/Client/CanSender.antt =====
-- The UDS services of CANSender (transport/can/can_sender.py) over the zone transport: one exchange
-- hands a request over and brings the list of its responses.
use virtual_automotive_ota_d.Prelude.{
  ℕ, zero, suc, ◌^◌, Bool, true, false, not, ◌||◌, some, List, [], ◌∷◌, leb, ltb, ◌==◌,
  if◌then◌else◌, length, drop, be32, Bytes, byte_at, Result, ok, err, runtime_error, timeout_error,
  overflow_error,
}
use virtual_automotive_ota_d.Uds.Codes.{
  sid_diagnostic_session_control, sid_ecu_reset, sid_security_access, sid_routine_control,
  sid_request_download, sid_transfer_data, sid_request_transfer_exit, sid_tester_present,
  default_session_programming, security_access_request_seed, security_access_send_key,
  routine_erase_memory, routine_verify_image, routine_activate_image,
}
use virtual_automotive_ota_d.Uds.Codec.{
  positive_response_sid, is_negative_response, is_response_pending,
  build_diagnostic_session_control, build_tester_present, build_security_access_request_seed,
  build_security_access_send_key, build_routine_control_start, build_request_download,
  build_transfer_data, build_request_transfer_exit, build_ecu_reset,
}
use virtual_automotive_ota_d.Client.Exec.{Exec, pure, lift, ◌>>=◌, ◌>>◌}
use virtual_automotive_ota_d.Client.FlashManager.{Transport}

-- `while time.time() < deadline`: the fuel is the number of times that the test passes.
unfoldable pub expect_positive_response : ℕ → ℕ → List Bytes → Result Bytes
expect_positive_response zero request_sid responses =
    err (timeout_error "Timed out waiting for final UDS response")
expect_positive_response (suc rounds) request_sid [] =
    err (timeout_error "Timed out waiting for zonal UDS response")
expect_positive_response (suc rounds) request_sid (response ∷ rest) =
    let later = expect_positive_response rounds request_sid rest in
    if is_response_pending response (some request_sid)
    then later
    else if is_negative_response response
    then err (runtime_error "UDS request rejected with NRC")
    else if leb (length response) 0 || not (byte_at response 0 == positive_response_sid request_sid)
    then err (runtime_error "Unexpected UDS response")
    else ok response

-- The link to one ECU, what it takes from outside: the exchange of a request for its responses (the
-- availability guard and the zone client, which may raise), the rounds before a deadline, the key of a
-- seed, and the confirmation of the boot.
pub record Link (W : Type 0) : Type 0 where
  pub exchange : Bytes → Exec W (List Bytes)
  pub rounds : ℕ
  pub derive_security_key : Bytes → Result Bytes
  pub max_transfer_payload : ℕ
  pub wait_for_boot : Exec W Bool
  pub same_version : Exec W Bool

module _ {W : Type 0} (l : Link W) where
  -- `_send_uds_request`, then `_expect_positive_response`
  unfoldable pub request : ℕ → Bytes → Exec W Bytes
  request sid payload = do
    responses ← l.exchange payload
    lift (expect_positive_response l.rounds sid responses)

  unfoldable pub confirm : ℕ → Result Bytes → Exec W Bool
  unfolding request
  confirm sid payload = do bytes ← lift payload; request sid bytes; pure true

  unfoldable pub request_seed : Exec W Bytes
  request_seed = do
    response ←
        request sid_security_access
          (build_security_access_request_seed security_access_request_seed)
    pure (drop 2 response)

  unfoldable pub send_key : Bytes → Exec W Bool
  send_key seed = do
    key ← lift (l.derive_security_key seed)
    confirm sid_security_access (ok (build_security_access_send_key security_access_send_key key))

  -- size.to_bytes(4, "big")
  unfoldable pub erase_memory : ℕ → Exec W Bool
  erase_memory size =
      if ltb size (2 ^ 32)
      then confirm sid_routine_control
          (build_routine_control_start routine_erase_memory (be32 size))
      else lift (err overflow_error)

  abbrev pub can_sender : Transport W
  can_sender = record {
    max_transfer_payload = l.max_transfer_payload;
    diagnostic_session_control =
        confirm sid_diagnostic_session_control
          (ok (build_diagnostic_session_control default_session_programming));
    tester_present = confirm sid_tester_present (ok (build_tester_present false));
    request_seed = request_seed;
    send_key = send_key;
    erase_memory = erase_memory;
    request_download = λ size. confirm sid_request_download (build_request_download size 0);
    transfer_data = λ seq block. confirm sid_transfer_data (ok (build_transfer_data seq block));
    request_transfer_exit = confirm sid_request_transfer_exit (ok build_request_transfer_exit);
    verify_programming =
        confirm sid_routine_control (build_routine_control_start routine_verify_image []);
    activate_image =
        confirm sid_routine_control (build_routine_control_start routine_activate_image []);
    ecu_reset = confirm sid_ecu_reset (ok (build_ecu_reset 0x01));
    wait_for_boot = l.wait_for_boot;
    same_version = l.same_version;
  }
