-- ===== src/Programmer/Server/Access.antt =====
-- Who may program: the key that unlocks, the lockout, and what a locked server refuses.
use virtual_automotive_ota_d.Prelude.{
  ◌≡◌, ◌≢◌, ◌⊎◌, inl, inr, refl, true, [], ◌∷◌, Bytes, byte_at, drop, Result-cases, ok, arith,
}
use virtual_automotive_ota_d.Programmer.State.{
  Programmer, Env, Handled, touch_session, expire_session_if_needed, require_programming_session,
}
use virtual_automotive_ota_d.Programmer.Session.{
  diagnostic_session_control, tester_present, read_data_by_identifier, request_seed, reject_key,
  accept_key, send_key, security_access, same_bytes,
}
use virtual_automotive_ota_d.Programmer.Flashing.{
  erase_memory, verify_image, activate_image, routine_control, start_download, request_download,
  accept_block, transfer_data, save_and_verify, request_transfer_exit, ecu_reset,
}
use virtual_automotive_ota_d.Programmer.Server.{handle_uds, dispatch}

same_bytes→eq : (xs ys : Bytes) → same_bytes xs ys ≡ true → xs ≡ ys
same_bytes→eq [] [] h = refl
same_bytes→eq [] (y ∷ ys) h = cc
same_bytes→eq (x ∷ xs) [] h = cc
same_bytes→eq (x ∷ xs) (y ∷ ys) h = ground (arith, same_bytes→eq xs ys)

-- What a request needs to leave the server unlocked: that it was, or the key of the pending seed.
pub record SentKey (env : Env) (p : Programmer) (payload : Bytes) : Type 0 where
  pub service : byte_at payload 0 ≡ 0x27
  pub asks : byte_at payload 1 ≡ 0x02
  pub seeded : p.pending_seed ≢ []
  pub key : env.derive_key p.pending_seed ≡ ok (drop 2 payload)
  pub in_session : p.current_session ≡ 2

abbrev Unlocks : Env → Programmer → Bytes → Handled → Type 0
Unlocks env p payload h =
    h.state.security_unlocked ≡ true → (p.security_unlocked ≡ true) ⊎ SentKey env p payload

module _ (env : Env) (p : Programmer) (payload : Bytes) where
  routine_control-Unlocks : Unlocks env p payload (routine_control env p payload)
  unfolding routine_control require_programming_session erase_memory verify_image activate_image
  routine_control-Unlocks h = ground arith

  request_download-Unlocks : Unlocks env p payload (request_download env p payload)
  unfolding request_download require_programming_session start_download
  request_download-Unlocks h = ground arith

  transfer_data-Unlocks : Unlocks env p payload (transfer_data env p payload)
  unfolding transfer_data require_programming_session accept_block
  transfer_data-Unlocks h = ground arith

  request_transfer_exit-Unlocks : Unlocks env p payload (request_transfer_exit env p)
  unfolding request_transfer_exit require_programming_session save_and_verify
  request_transfer_exit-Unlocks h = ground arith

  ecu_reset-Unlocks : Unlocks env p payload (ecu_reset env p payload)
  unfolding ecu_reset require_programming_session
  ecu_reset-Unlocks h = ground arith

  diagnostic_session_control-Unlocks :
      Unlocks env p payload (diagnostic_session_control env p payload)
  unfolding diagnostic_session_control
  diagnostic_session_control-Unlocks h = ground arith

  tester_present-Unlocks : Unlocks env p payload (tester_present env p payload)
  unfolding tester_present
  tester_present-Unlocks h = ground arith

  read_data_by_identifier-Unlocks : Unlocks env p payload (read_data_by_identifier env p payload)
  unfolding read_data_by_identifier
  read_data_by_identifier-Unlocks h = ground arith

request_seed-Locks :
    (env : Env) (p : Programmer)
    → (request_seed env p).state.security_unlocked ≡ true
    → p.security_unlocked ≡ true
unfolding request_seed
request_seed-Locks env p h = ground arith

send_key-unlocks :
    (env : Env) (p : Programmer) (key : Bytes)
    → (send_key env p key).state.security_unlocked ≡ true
    → (p.security_unlocked ≡ true)
      ⊎ ((p.pending_seed ≢ []) × (env.derive_key p.pending_seed ≡ ok key))
unfolding send_key reject_key accept_key
send_key-unlocks env p key h = elim (Result-cases (env.derive_key p.pending_seed)) [
  | inl (expected, derived) ↦ ground (arith, same_bytes→eq key expected)
  | inr (e, failed) ↦ ground arith
]

module _ (env : Env) (p : Programmer) (payload : Bytes) where
  security_access-Unlocks :
      byte_at payload 0 ≡ 0x27 → Unlocks env p payload (security_access env p payload)
  unfolding security_access require_programming_session
  security_access-Unlocks sid h =
      let q = touch_session env (expire_session_if_needed env p) in
      ground (arith, request_seed-Locks env q, send_key-unlocks env q (drop 2 payload))

  dispatch-Unlocks : Unlocks env p payload (dispatch env p payload)
  unfolding dispatch
  dispatch-Unlocks h = ground (
    arith,
    diagnostic_session_control-Unlocks env p payload,
    tester_present-Unlocks env p payload,
    read_data_by_identifier-Unlocks env p payload,
    security_access-Unlocks,
    routine_control-Unlocks env p payload,
    request_download-Unlocks env p payload,
    transfer_data-Unlocks env p payload,
    request_transfer_exit-Unlocks env p payload,
    ecu_reset-Unlocks env p payload,
  )

-- If a request leaves the server unlocked, either the server was unlocked before, or the request is
-- the SendKey of a programming session and its key is the one derived from the seed that was pending.
pub handle_uds-Unlocks :
    (env : Env) (p : Programmer) (payload : Bytes)
    → (handle_uds env p payload).state.security_unlocked ≡ true
    → (p.security_unlocked ≡ true) ⊎ SentKey env p payload
unfolding handle_uds
handle_uds-Unlocks env p [] h = inl h
handle_uds-Unlocks env p (b ∷ bs) h = ground (arith, dispatch-Unlocks env p (b ∷ bs))
