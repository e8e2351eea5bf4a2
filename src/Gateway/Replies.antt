-- ===== src/Gateway/Replies.antt =====
-- The responses to one request, of DoIPServer._handle_raw_uds_message (transport/doip/server.py) and of
-- what it forwards: the response-pending messages and the response that ends them.
use virtual_automotive_ota_d.Prelude.{ℕ, ◌≡◌, true, none, some, arith, drop, ok, Bytes, byte_at}
use virtual_automotive_ota_d.Exchange.{ends_pending}
use virtual_automotive_ota_d.Gateway.Context.{
  Context, Env, Handled, require_programming_session, touch_session, expire_session_if_needed,
}
use virtual_automotive_ota_d.Gateway.Session.{
  diagnostic_session_control, tester_present, read_data_by_identifier, request_seed, reject_key,
  accept_key, send_key, security_access,
}
use virtual_automotive_ota_d.Gateway.Flashing.{
  erase_memory, verify_image, activate_image, routine_control, start_download, request_download,
  accept_block, transfer_data, save_and_verify, request_transfer_exit, ecu_reset,
}
use virtual_automotive_ota_d.Gateway.Handler.{handle_raw_uds_message}
use virtual_automotive_ota_d.Gateway.Services.{handle-OfServices}
use virtual_automotive_ota_d.Gateway.Server.{responses}

-- The handler did not raise, and what it sent answers the request.
pub record IsAnswered (request_sid : ℕ) (h : Handled) : Type 0 where
  pub not_raised : h.raised ≡ none
  pub ended : ends_pending request_sid (responses h.events) ≡ true

-- A key is derived from every seed, and the original can be read.
pub record IsReadable (env : Env) : Type 0 where
  pub derives : (seed : Bytes) → (key : Bytes) × (env.derive_key seed ≡ ok key)
  pub original : Bytes
  pub opens : env.original ≡ ok original

module _ (env : Env) (ecu : Context) (payload : Bytes) where
  send_key-IsAnswered :
      (key expected : Bytes)
      → env.derive_key ecu.pending_seed ≡ ok expected
      → IsAnswered 0x27 (send_key env ecu key)
  unfolding send_key reject_key accept_key ends_pending
  send_key-IsAnswered key expected d = ground arith

  request_seed-IsAnswered : IsAnswered 0x27 (request_seed env ecu)
  unfolding request_seed ends_pending
  request_seed-IsAnswered = ground arith

  save_and_verify-IsAnswered :
      (original : Bytes) → env.original ≡ ok original → IsAnswered 0x37 (save_and_verify env ecu)
  unfolding save_and_verify ends_pending
  save_and_verify-IsAnswered original opens = ground arith

  routine_control-IsAnswered : IsAnswered 0x31 (routine_control env ecu payload)
  unfolding routine_control require_programming_session erase_memory verify_image activate_image
      ends_pending
  routine_control-IsAnswered = ground arith

  request_download-IsAnswered : IsAnswered 0x34 (request_download env ecu payload)
  unfolding request_download require_programming_session start_download ends_pending
  request_download-IsAnswered = ground arith

  transfer_data-IsAnswered : IsAnswered 0x36 (transfer_data env ecu payload)
  unfolding transfer_data require_programming_session accept_block ends_pending
  transfer_data-IsAnswered = ground arith

  ecu_reset-IsAnswered : IsAnswered 0x11 (ecu_reset env ecu payload)
  unfolding ecu_reset require_programming_session ends_pending
  ecu_reset-IsAnswered = ground arith

  diagnostic_session_control-IsAnswered :
      IsAnswered 0x10 (diagnostic_session_control env ecu payload)
  unfolding diagnostic_session_control ends_pending
  diagnostic_session_control-IsAnswered = ground arith

  tester_present-IsAnswered : IsAnswered 0x3E (tester_present env ecu payload)
  unfolding tester_present ends_pending
  tester_present-IsAnswered = ground arith

  read_data_by_identifier-IsAnswered : IsAnswered 0x22 (read_data_by_identifier env ecu payload)
  unfolding read_data_by_identifier ends_pending
  read_data_by_identifier-IsAnswered = ground arith

-- With the session's state that the services behind the session test work on
security_access-IsAnswered :
    (env : Env) (ecu : Context) (payload : Bytes)
    → IsReadable env
    → IsAnswered 0x27 (security_access env ecu payload)
unfolding security_access require_programming_session ends_pending
security_access-IsAnswered env ecu payload readable =
    let q = touch_session env (expire_session_if_needed env ecu) in
    let (key, d) = readable.derives q.pending_seed in
    ground (
      arith,
      request_seed-IsAnswered env q payload,
      send_key-IsAnswered env q payload (drop 2 payload) key d,
    )

request_transfer_exit-IsAnswered :
    (env : Env) (ecu : Context) (payload : Bytes)
    → IsReadable env
    → IsAnswered 0x37 (request_transfer_exit env ecu)
unfolding request_transfer_exit require_programming_session ends_pending
request_transfer_exit-IsAnswered env ecu payload readable =
    let q = touch_session env (expire_session_if_needed env ecu) in
    ground (arith, save_and_verify-IsAnswered env q payload readable.original readable.opens)

-- When a key is derived from every seed and the original can be read, a request that the handler takes
-- raises nothing, and it is answered by one response or more to that service, of which the last and no
-- other is not response-pending.
pub handle-IsAnswered :
    (env : Env) (ecu : Context) (payload : Bytes) (h : Handled)
    → IsReadable env
    → handle_raw_uds_message env ecu payload ≡ some h
    → IsAnswered (byte_at payload 0) h
handle-IsAnswered env ecu payload h readable e =
    handle-OfServices (IsAnswered (byte_at payload 0)) env ecu payload h
      (record {
        session = λ s. rw s (diagnostic_session_control-IsAnswered env ecu payload);
        present = λ s. rw s (tester_present-IsAnswered env ecu payload);
        identifier = λ s. rw s (read_data_by_identifier-IsAnswered env ecu payload);
        access = λ s. rw s (security_access-IsAnswered env ecu payload readable);
        routine = λ s. rw s (routine_control-IsAnswered env ecu payload);
        download = λ s. rw s (request_download-IsAnswered env ecu payload);
        transfer = λ s. rw s (transfer_data-IsAnswered env ecu payload);
        exit = λ s. rw s (request_transfer_exit-IsAnswered env ecu payload readable);
        restart = λ s. rw s (ecu_reset-IsAnswered env ecu payload);
      })
      e
