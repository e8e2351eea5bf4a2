-- ===== src/Programmer/Server/Invariant.antt =====
-- What holds of the programming server between requests.
use virtual_automotive_ota_d.Prelude.{
  ℕ, ◌-◌, ◌≤◌, ◌<◌, ◌≡◌, ◌⊎◌, true, false, some, List, [], ◌∷◌, Bool-cases, inl, inr, ◌==◌, ==_iff,
  length, take, drop, length-append, length-take, Bytes, arith,
}
use virtual_automotive_ota_d.Programmer.State.{
  Programmer, Env, Handled, new, touch_session, expire_session_if_needed,
  require_programming_session,
}
use virtual_automotive_ota_d.Programmer.Session.{
  diagnostic_session_control, tester_present, read_data_by_identifier, request_seed, reject_key,
  accept_key, send_key, security_access,
}
use virtual_automotive_ota_d.Programmer.Flashing.{
  erase_memory, verify_image, activate_image, routine_control, start_download, request_download,
  accept_block, transfer_data, save_and_verify, request_transfer_exit, ecu_reset,
}
use virtual_automotive_ota_d.Programmer.Server.{handle_uds, dispatch, run}

-- Every flag belongs to a programming session in which the memory was erased, the counters agree with
-- the bytes in the receiver, and an image that waits for its installation is complete.
pub record IsValid (p : Programmer) : Type 0 where
  pub unlocked_in_session : p.security_unlocked ≡ true → p.current_session ≡ 2
  pub erased_in_session : p.erase_completed ≡ true → p.current_session ≡ 2
  pub download_after_erase : p.download_requested ≡ true → p.erase_completed ≡ true
  pub pending_after_erase : p.install_pending ≡ true → p.erase_completed ≡ true
  pub activated_after_erase : p.activation_marked ≡ true → p.erase_completed ≡ true
  pub pending_ends_download : p.install_pending ≡ true → p.download_requested ≡ false
  pub pending_is_complete : p.install_pending ≡ true → p.received_size ≡ p.expected_size
  pub counted : p.erase_completed ≡ true → p.received_size ≡ length p.receiver.buffer
  pub announced : p.erase_completed ≡ true → p.receiver.expected_size ≡ some p.expected_size
  pub within : p.received_size ≤ p.expected_size
  pub sequence : p.expected_transfer_sequence < 256

module _ (env : Env) (p : Programmer) where
  touch_session-IsValid : IsValid p → IsValid (touch_session env p)
  unfolding touch_session
  touch_session-IsValid v = ground arith

  expire_session-IsValid : IsValid p → IsValid (expire_session_if_needed env p)
  unfolding expire_session_if_needed
  expire_session-IsValid v = ground arith

  request_seed-IsValid : IsValid p → IsValid (request_seed env p).state
  unfolding request_seed
  request_seed-IsValid v = ground arith

  reject_key-IsValid : IsValid p → IsValid (reject_key env p).state
  unfolding reject_key
  reject_key-IsValid v = ground arith

  accept_key-IsValid : p.current_session ≡ 2 → IsValid p → IsValid (accept_key p).state
  unfolding accept_key
  accept_key-IsValid s v = ground arith

  send_key-IsValid :
      (key : Bytes) → p.current_session ≡ 2 → IsValid p → IsValid (send_key env p key).state
  unfolding send_key
  send_key-IsValid key s v = ground (arith, reject_key-IsValid v, accept_key-IsValid s v)

module _ (p : Programmer) (payload : Bytes) where
  erase_memory-IsValid : p.current_session ≡ 2 → IsValid p → IsValid (erase_memory p payload).state
  unfolding erase_memory
  erase_memory-IsValid s v = ground arith

  verify_image-IsValid : IsValid p → IsValid (verify_image p payload).state
  unfolding verify_image
  verify_image-IsValid v = ground arith

  activate_image-IsValid : IsValid p → IsValid (activate_image p payload).state
  unfolding activate_image
  activate_image-IsValid v = ground arith

  start_download-IsValid :
      p.erase_completed ≡ true → IsValid p → IsValid (start_download p payload).state
  unfolding start_download
  start_download-IsValid e v = ground arith

  accept_block-IsValid :
      p.download_requested ≡ true → IsValid p → IsValid (accept_block p payload).state
  unfolding accept_block
  accept_block-IsValid d v =
      let chunk = take (p.expected_size - p.received_size) (drop 2 payload) in
      ground (
        arith,
        length-append p.receiver.buffer chunk,
        length-take (p.expected_size - p.received_size) (drop 2 payload),
      )

save_and_verify-IsValid :
    (env : Env) (p : Programmer)
    → p.download_requested ≡ true
    → (p.expected_size ≡ 0) ⊎ (p.received_size ≡ p.expected_size)
    → IsValid p
    → IsValid (save_and_verify env p).state
unfolding save_and_verify
save_and_verify-IsValid env p d c v = ground arith

require-IsValid :
    (env : Env) (sid : ℕ) (p : Programmer) (rest : Programmer → Handled)
    → IsValid p
    → ((q : Programmer) → q.current_session ≡ 2 → IsValid q → IsValid (rest q).state)
    → IsValid (require_programming_session env sid p rest).state
require-IsValid env sid p rest v h =
    elim (Bool-cases ((expire_session_if_needed env p).current_session == 2)) [
      | inl inside ↦
          unfold require_programming_session in
          rw inside (
            h _ ((==_iff _ 2).0 inside)
              (touch_session-IsValid env _ (expire_session-IsValid env p v)))
      | inr outside ↦
          unfold require_programming_session in rw outside (expire_session-IsValid env p v)
    ]

module _ (env : Env) (p : Programmer) (payload : Bytes) (v : IsValid p) where
  security_access-IsValid : IsValid (security_access env p payload).state
  unfolding security_access
  security_access-IsValid = require-IsValid env _ p _ v (λ q s w.
      ground (arith, request_seed-IsValid env q w, send_key-IsValid env q (drop 2 payload) s w))

  routine_control-IsValid : IsValid (routine_control env p payload).state
  unfolding routine_control
  routine_control-IsValid = require-IsValid env _ p _ v (λ q s w. ground (
    arith,
    erase_memory-IsValid q payload s w,
    verify_image-IsValid q payload w,
    activate_image-IsValid q payload w,
  ))

  request_download-IsValid : IsValid (request_download env p payload).state
  unfolding request_download
  request_download-IsValid = require-IsValid env _ p _ v (λ q s w.
      ground (arith, λ (e : q.erase_completed ≡ true). start_download-IsValid q payload e w))

  transfer_data-IsValid : IsValid (transfer_data env p payload).state
  unfolding transfer_data
  transfer_data-IsValid = require-IsValid env _ p _ v (λ q s w.
      ground (arith, λ (d : q.download_requested ≡ true). accept_block-IsValid q payload d w))

  request_transfer_exit-IsValid : IsValid (request_transfer_exit env p).state
  unfolding request_transfer_exit
  request_transfer_exit-IsValid =
      require-IsValid env _ p _ v (λ q s w. ground (arith, save_and_verify-IsValid env q))

  diagnostic_session_control-IsValid : IsValid (diagnostic_session_control env p payload).state
  unfolding diagnostic_session_control
  diagnostic_session_control-IsValid = ground arith

  tester_present-IsValid : IsValid (tester_present env p payload).state
  unfolding tester_present
  tester_present-IsValid = ground arith

  read_data_by_identifier-IsValid : IsValid (read_data_by_identifier env p payload).state
  unfolding read_data_by_identifier
  read_data_by_identifier-IsValid = ground arith

  ecu_reset-IsValid : IsValid (ecu_reset env p payload).state
  unfolding ecu_reset
  ecu_reset-IsValid = require-IsValid env _ p _ v (λ q s w. ground arith)

  dispatch-IsValid : IsValid (dispatch env p payload).state
  unfolding dispatch
  dispatch-IsValid = ground (
    arith, diagnostic_session_control-IsValid, tester_present-IsValid,
    read_data_by_identifier-IsValid, security_access-IsValid, routine_control-IsValid,
    request_download-IsValid, transfer_data-IsValid, request_transfer_exit-IsValid,
    ecu_reset-IsValid,
  )

handle_uds-IsValid :
    (env : Env) (p : Programmer) (payload : Bytes)
    → IsValid p
    → IsValid (handle_uds env p payload).state
unfolding handle_uds
handle_uds-IsValid env p [] v = v
handle_uds-IsValid env p (b ∷ bs) v = ground (arith, dispatch-IsValid env p (b ∷ bs) v)

-- Whatever requests come, whatever the clocks, the files and the runtime control say and wherever the
-- run ends, it ends in a valid state if it began in one.
pub run-IsValid :
    (p : Programmer) (requests : List (Env × Bytes)) → IsValid p → IsValid (run p requests).state
unfolding run
run-IsValid p [] v = v
run-IsValid p ((env, payload) ∷ rest) v = ground (
  arith,
  handle_uds-IsValid env p payload v,
  run-IsValid (handle_uds env p payload).state rest (handle_uds-IsValid env p payload v),
)

pub new-IsValid : (ecu_id : ℕ) → IsValid (new ecu_id)
new-IsValid ecu_id = ground arith
