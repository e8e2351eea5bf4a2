-- ===== src/Programmer/Server/Lockout.antt =====
-- The lockout after SECURITY_ATTEMPT_LIMIT wrong keys.
use virtual_automotive_ota_d.Prelude.{
  ℕ, ◌+◌, ◌≤◌, ◌<◌, ◌≡◌, false, Option, none, some, Exception, List, [], ◌∷◌, All, Bytes, drop,
  arith,
}
use virtual_automotive_ota_d.Programmer.State.{
  Programmer, Env, response, Handled, touch_session, expire_session_if_needed,
  require_programming_session,
}
use virtual_automotive_ota_d.Programmer.Session.{
  diagnostic_session_control, tester_present, read_data_by_identifier, request_seed, reject_key,
  accept_key, send_key, security_access, security_lockout,
}
use virtual_automotive_ota_d.Programmer.Flashing.{
  routine_control, request_download, transfer_data, request_transfer_exit, ecu_reset,
}
use virtual_automotive_ota_d.Programmer.Server.{Run, then_run, handle_uds, dispatch, run}

-- No seed is pending, the server is locked, and no seed is given before `until`.
pub record IsLockedOut (until : ℕ) (p : Programmer) : Type 0 where
  pub no_seed : p.pending_seed ≡ []
  pub locked : p.security_unlocked ≡ false
  pub delayed : until ≤ p.security_locked_until

module _ (until : ℕ) (env : Env) (p : Programmer) (payload : Bytes)
    (early : env.security_clock < until) (l : IsLockedOut until p) where
  security_access-IsLockedOut : IsLockedOut until (security_access env p payload).state
  unfolding security_access require_programming_session request_seed send_key
  security_access-IsLockedOut = ground arith

  routine_control-IsLockedOut : IsLockedOut until (routine_control env p payload).state
  unfolding routine_control require_programming_session
  routine_control-IsLockedOut = ground arith

  request_download-IsLockedOut : IsLockedOut until (request_download env p payload).state
  unfolding request_download require_programming_session
  request_download-IsLockedOut = ground arith

  transfer_data-IsLockedOut : IsLockedOut until (transfer_data env p payload).state
  unfolding transfer_data require_programming_session
  transfer_data-IsLockedOut = ground arith

  request_transfer_exit-IsLockedOut : IsLockedOut until (request_transfer_exit env p).state
  unfolding request_transfer_exit require_programming_session
  request_transfer_exit-IsLockedOut = ground arith

  ecu_reset-IsLockedOut : IsLockedOut until (ecu_reset env p payload).state
  unfolding ecu_reset require_programming_session
  ecu_reset-IsLockedOut = ground arith

  diagnostic_session_control-IsLockedOut :
      IsLockedOut until (diagnostic_session_control env p payload).state
  unfolding diagnostic_session_control
  diagnostic_session_control-IsLockedOut = ground arith

  tester_present-IsLockedOut : IsLockedOut until (tester_present env p payload).state
  unfolding tester_present
  tester_present-IsLockedOut = ground arith

  read_data_by_identifier-IsLockedOut :
      IsLockedOut until (read_data_by_identifier env p payload).state
  unfolding read_data_by_identifier
  read_data_by_identifier-IsLockedOut = ground arith

  dispatch-IsLockedOut : IsLockedOut until (dispatch env p payload).state
  unfolding dispatch
  dispatch-IsLockedOut = ground (
    arith, diagnostic_session_control-IsLockedOut, tester_present-IsLockedOut,
    read_data_by_identifier-IsLockedOut, security_access-IsLockedOut, routine_control-IsLockedOut,
    request_download-IsLockedOut, transfer_data-IsLockedOut, request_transfer_exit-IsLockedOut,
    ecu_reset-IsLockedOut,
  )

handle_uds-IsLockedOut :
    (until : ℕ) (env : Env) (p : Programmer) (payload : Bytes)
    → env.security_clock < until
    → IsLockedOut until p
    → IsLockedOut until (handle_uds env p payload).state
unfolding handle_uds
handle_uds-IsLockedOut until env p [] early l = l
handle_uds-IsLockedOut until env p (b ∷ bs) early l =
    ground (arith, dispatch-IsLockedOut until env p (b ∷ bs) early l)

then_run-IsLockedOut :
    (until : ℕ) (h : Handled) (later : Run) (raised : Option Exception)
    → IsLockedOut until h.state
    → IsLockedOut until later.state
    → IsLockedOut until (then_run h later raised).state
then_run-IsLockedOut until h later none a b = b
then_run-IsLockedOut until h later (some e) a b = a

run-IsLockedOut :
    (until : ℕ) (p : Programmer) (requests : List (Env × Bytes))
    → All (λ request. request.0.security_clock < until) requests
    → IsLockedOut until p
    → IsLockedOut until (run p requests).state
unfolding run
run-IsLockedOut until p [] early l = l
run-IsLockedOut until p ((env, payload) ∷ rest) early l =
    let l' = handle_uds-IsLockedOut until env p payload early.0 l in
    then_run-IsLockedOut until (handle_uds env p payload) _ _ l'
      (run-IsLockedOut until (handle_uds env p payload).state rest early.1 l')

send_key-lockout :
    (env : Env) (p : Programmer) (key : Bytes)
    → (send_key env p key).events ≡ response (0x7F ∷ 0x27 ∷ 0x36 ∷ []) ∷ []
    → IsLockedOut (env.security_clock + security_lockout) (send_key env p key).state
unfolding send_key reject_key accept_key
send_key-lockout env p key e = ground arith

request_seed-no_lockout :
    (env : Env) (p : Programmer)
    → (request_seed env p).events ≡ response (0x7F ∷ 0x27 ∷ 0x36 ∷ []) ∷ []
    → ⊥
unfolding request_seed
request_seed-no_lockout env p e = ground arith

lockout_begins :
    (env : Env) (p : Programmer) (rest : Bytes)
    → (handle_uds env p (0x27 ∷ rest)).events ≡ response (0x7F ∷ 0x27 ∷ 0x36 ∷ []) ∷ []
    → IsLockedOut (env.security_clock + security_lockout) (handle_uds env p (0x27 ∷ rest)).state
unfolding handle_uds dispatch security_access require_programming_session
lockout_begins env p rest e =
    let q = touch_session env (expire_session_if_needed env p) in
    ground (arith, request_seed-no_lockout env q, send_key-lockout env q (drop 2 (0x27 ∷ rest)))

-- Once a SecurityAccess request was answered by exceedNumberOfAttempts, no run of requests within the
-- next 30 seconds leaves the server unlocked or with a seed pending.
pub lockout_holds :
    (env : Env) (p : Programmer) (rest : Bytes) (requests : List (Env × Bytes))
    → (handle_uds env p (0x27 ∷ rest)).events ≡ response (0x7F ∷ 0x27 ∷ 0x36 ∷ []) ∷ []
    → All (λ request. request.0.security_clock < env.security_clock + 30000) requests
    → ((run (handle_uds env p (0x27 ∷ rest)).state requests).state.security_unlocked ≡ false)
      × ((run (handle_uds env p (0x27 ∷ rest)).state requests).state.pending_seed ≡ [])
lockout_holds env p rest requests e early =
    let l =
      run-IsLockedOut (env.security_clock + 30000) (handle_uds env p (0x27 ∷ rest)).state requests
        early (lockout_begins env p rest e) in
    (l.locked, l.no_seed)
