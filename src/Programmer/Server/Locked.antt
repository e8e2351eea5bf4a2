-- ===== src/Programmer/Server/Locked.antt =====
-- What a locked server refuses.
use virtual_automotive_ota_d.Prelude.{◌≡◌, true, false, [], ◌∷◌, Bytes, arith}
use virtual_automotive_ota_d.Programmer.State.{
  Programmer, Env, Handled, require_programming_session,
}
use virtual_automotive_ota_d.Programmer.Session.{
  diagnostic_session_control, tester_present, read_data_by_identifier, request_seed, reject_key,
  accept_key, send_key, security_access,
}
use virtual_automotive_ota_d.Programmer.Flashing.{
  routine_control, request_download, transfer_data, request_transfer_exit, ecu_reset,
}
use virtual_automotive_ota_d.Programmer.Server.{handle_uds, dispatch}

-- The receiver is as it was, and no step of the programming sequence was gained.
pub record NoProgress (p : Programmer) (h : Handled) : Type 0 where
  pub same_receiver : h.state.receiver ≡ p.receiver
  pub erased : h.state.erase_completed ≡ true → p.erase_completed ≡ true
  pub downloading : h.state.download_requested ≡ true → p.download_requested ≡ true
  pub pending : h.state.install_pending ≡ true → p.install_pending ≡ true
  pub activated : h.state.activation_marked ≡ true → p.activation_marked ≡ true

module _ (env : Env) (p : Programmer) (payload : Bytes) where
  security_access-NoProgress : NoProgress p (security_access env p payload)
  unfolding security_access require_programming_session request_seed send_key reject_key accept_key
  security_access-NoProgress = ground arith

  routine_control-NoProgress :
      p.security_unlocked ≡ false → NoProgress p (routine_control env p payload)
  unfolding routine_control require_programming_session
  routine_control-NoProgress locked = ground arith

  request_download-NoProgress :
      p.security_unlocked ≡ false → NoProgress p (request_download env p payload)
  unfolding request_download require_programming_session
  request_download-NoProgress locked = ground arith

  transfer_data-NoProgress :
      p.security_unlocked ≡ false → NoProgress p (transfer_data env p payload)
  unfolding transfer_data require_programming_session
  transfer_data-NoProgress locked = ground arith

  request_transfer_exit-NoProgress :
      p.security_unlocked ≡ false → NoProgress p (request_transfer_exit env p)
  unfolding request_transfer_exit require_programming_session
  request_transfer_exit-NoProgress locked = ground arith

  ecu_reset-NoProgress : NoProgress p (ecu_reset env p payload)
  unfolding ecu_reset require_programming_session
  ecu_reset-NoProgress = ground arith

  diagnostic_session_control-NoProgress : NoProgress p (diagnostic_session_control env p payload)
  unfolding diagnostic_session_control
  diagnostic_session_control-NoProgress = ground arith

  tester_present-NoProgress : NoProgress p (tester_present env p payload)
  unfolding tester_present
  tester_present-NoProgress = ground arith

  read_data_by_identifier-NoProgress : NoProgress p (read_data_by_identifier env p payload)
  unfolding read_data_by_identifier
  read_data_by_identifier-NoProgress = ground arith

  dispatch-NoProgress : p.security_unlocked ≡ false → NoProgress p (dispatch env p payload)
  unfolding dispatch
  dispatch-NoProgress locked = ground (
    arith,
    diagnostic_session_control-NoProgress,
    tester_present-NoProgress,
    read_data_by_identifier-NoProgress,
    security_access-NoProgress,
    routine_control-NoProgress locked,
    request_download-NoProgress locked,
    transfer_data-NoProgress locked,
    request_transfer_exit-NoProgress locked,
    ecu_reset-NoProgress,
  )

-- While the server is locked, no request of any service changes the receiver, completes an erase, a
-- download request or a verification, or marks the activation.
pub handle_uds-NoProgress :
    (env : Env) (p : Programmer) (payload : Bytes)
    → p.security_unlocked ≡ false
    → NoProgress p (handle_uds env p payload)
unfolding handle_uds
handle_uds-NoProgress env p [] locked = ground arith
handle_uds-NoProgress env p (b ∷ bs) locked =
    ground (arith, dispatch-NoProgress env p (b ∷ bs) locked)
