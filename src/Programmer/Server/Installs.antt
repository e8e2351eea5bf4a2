-- ===== src/Programmer/Server/Installs.antt =====
-- What an installation thread finds in the download file.
use virtual_automotive_ota_d.Prelude.{
  ℕ, ◌≡◌, true, Exception, Option, none, some, List, [], ◌∷◌, ◌++◌, All, Bytes, ok, arith, drop,
}
use virtual_automotive_ota_d.Programmer.State.{
  Programmer, Env, Event, response, saved, install, Handled, new, firmware_data, touch_session,
  expire_session_if_needed, require_programming_session,
}
use virtual_automotive_ota_d.Programmer.Session.{
  diagnostic_session_control, tester_present, read_data_by_identifier, request_seed, reject_key,
  accept_key, send_key, security_access,
}
use virtual_automotive_ota_d.Programmer.Flashing.{
  erase_memory, verify_image, activate_image, routine_control, start_download, request_download,
  accept_block, transfer_data, save_and_verify, request_transfer_exit, ecu_reset,
}
use virtual_automotive_ota_d.Programmer.Server.{Run, then_run, handle_uds, dispatch, run}

-- The original that the ECU verifies against, and the digest.
module _ (sha256 : Bytes → ℕ) (original : Bytes) where
  -- The request reads this original, and hashes by this digest.
  pub record Reads (env : Env) : Type 0 where
    pub hashes : (b : Bytes) → env.sha256 b ≡ sha256 b
    pub opens : env.original ≡ ok original

  -- The download file was written, and its digest is the original's.
  abbrev pub Matches : Option Bytes → Type 0
  Matches none = ⊥
  Matches (some b) = sha256 b ≡ sha256 original

  -- The content of the download file after some events.
  abbrev pub file_after : Option Bytes → List Event → Option Bytes
  file_after file [] = file
  file_after file (response r ∷ es) = file_after file es
  file_after file (saved b ∷ es) = file_after (some b) es
  file_after file (install ∷ es) = file_after file es

  -- Whenever an installation starts, the download file matches the original.
  abbrev pub InstallsMatch : Option Bytes → List Event → Type 0
  InstallsMatch file [] = Unit {0}
  InstallsMatch file (response r ∷ es) = InstallsMatch file es
  InstallsMatch file (saved b ∷ es) = InstallsMatch (some b) es
  InstallsMatch file (install ∷ es) = Matches file × InstallsMatch file es

  abbrev Ready : Option Bytes → Programmer → Type 0
  Ready file p = p.install_pending ≡ true → Matches file

  record IsSafe (file : Option Bytes) (h : Handled) : Type 0 where
    installs : InstallsMatch file h.events
    ready : Ready (file_after file h.events) h.state

  module _ (file : Option Bytes) (env : Env) (p : Programmer) where
    expire-Ready : Ready file p → Ready file (expire_session_if_needed env p)
    unfolding expire_session_if_needed
    expire-Ready r e = ground (arith, r)

    request_seed-IsSafe : Ready file p → IsSafe file (request_seed env p)
    unfolding request_seed
    request_seed-IsSafe r = ground arith

    send_key-IsSafe : (key : Bytes) → Ready file p → IsSafe file (send_key env p key)
    unfolding send_key reject_key accept_key
    send_key-IsSafe key r = ground arith

    require-IsSafe :
        (sid : ℕ) (rest : Programmer → Handled)
        → Ready file p
        → ((q : Programmer) → Ready file q → IsSafe file (rest q))
        → IsSafe file (require_programming_session env sid p rest)
    unfolding require_programming_session
    require-IsSafe sid rest r h = ground (
      arith,
      h (touch_session env (expire_session_if_needed env p)) (expire-Ready r),
      expire-Ready r,
    )

  module _ (file : Option Bytes) (p : Programmer) (payload : Bytes) (r : Ready file p) where
    erase_memory-IsSafe : IsSafe file (erase_memory p payload)
    unfolding erase_memory
    erase_memory-IsSafe = ground arith

    verify_image-IsSafe : IsSafe file (verify_image p payload)
    unfolding verify_image
    verify_image-IsSafe = ground arith

    activate_image-IsSafe : IsSafe file (activate_image p payload)
    unfolding activate_image
    activate_image-IsSafe = ground arith

    start_download-IsSafe : IsSafe file (start_download p payload)
    unfolding start_download
    start_download-IsSafe = ground arith

    accept_block-IsSafe : IsSafe file (accept_block p payload)
    unfolding accept_block
    accept_block-IsSafe = ground arith

    save_and_verify-IsSafe : (env : Env) → Reads env → IsSafe file (save_and_verify env p)
    unfolding save_and_verify
    save_and_verify-IsSafe env reads =
        ground (arith, reads.hashes (firmware_data p.receiver), reads.hashes original, reads.opens)

  module _ (file : Option Bytes) (env : Env) (p : Programmer) (payload : Bytes)
      (r : Ready file p) where
    diagnostic_session_control-IsSafe : IsSafe file (diagnostic_session_control env p payload)
    unfolding diagnostic_session_control
    diagnostic_session_control-IsSafe = ground arith

    tester_present-IsSafe : IsSafe file (tester_present env p payload)
    unfolding tester_present
    tester_present-IsSafe = ground (arith, expire-Ready file env p r)

    read_data_by_identifier-IsSafe : IsSafe file (read_data_by_identifier env p payload)
    unfolding read_data_by_identifier
    read_data_by_identifier-IsSafe = ground arith

    security_access-IsSafe : IsSafe file (security_access env p payload)
    unfolding security_access
    security_access-IsSafe = require-IsSafe file env p _ _ r (λ q s.
        ground
          (arith, request_seed-IsSafe file env q s, send_key-IsSafe file env q (drop 2 payload) s))

    routine_control-IsSafe : IsSafe file (routine_control env p payload)
    unfolding routine_control
    routine_control-IsSafe = require-IsSafe file env p _ _ r (λ q s. ground (
      arith,
      erase_memory-IsSafe file q payload s,
      verify_image-IsSafe file q payload s,
      activate_image-IsSafe file q payload s,
    ))

    request_download-IsSafe : IsSafe file (request_download env p payload)
    unfolding request_download
    request_download-IsSafe =
        require-IsSafe file env p _ _ r
          (λ q s. ground (arith, start_download-IsSafe file q payload s))

    transfer_data-IsSafe : IsSafe file (transfer_data env p payload)
    unfolding transfer_data
    transfer_data-IsSafe =
        require-IsSafe file env p _ _ r
          (λ q s. ground (arith, accept_block-IsSafe file q payload s))

    request_transfer_exit-IsSafe : Reads env → IsSafe file (request_transfer_exit env p)
    unfolding request_transfer_exit
    request_transfer_exit-IsSafe reads =
        require-IsSafe file env p _ _ r
          (λ q s. ground (arith, save_and_verify-IsSafe file q payload s env reads))

    ecu_reset-IsSafe : IsSafe file (ecu_reset env p payload)
    unfolding ecu_reset
    ecu_reset-IsSafe = require-IsSafe file env p _ _ r (λ q s. ground arith)

    dispatch-IsSafe : Reads env → IsSafe file (dispatch env p payload)
    unfolding dispatch
    dispatch-IsSafe reads = ground (
      arith,
      diagnostic_session_control-IsSafe,
      tester_present-IsSafe,
      read_data_by_identifier-IsSafe,
      security_access-IsSafe,
      routine_control-IsSafe,
      request_download-IsSafe,
      transfer_data-IsSafe,
      request_transfer_exit-IsSafe reads,
      ecu_reset-IsSafe,
    )

  handle_uds-IsSafe :
      (file : Option Bytes) (env : Env) (p : Programmer) (payload : Bytes)
      → Reads env
      → Ready file p
      → IsSafe file (handle_uds env p payload)
  unfolding handle_uds
  handle_uds-IsSafe file env p [] reads r = ground (arith, r)
  handle_uds-IsSafe file env p (b ∷ bs) reads r =
      ground (arith, dispatch-IsSafe file env p (b ∷ bs) r reads)

  InstallsMatch-append :
      (file : Option Bytes) (es fs : List Event)
      → InstallsMatch file es
      → InstallsMatch (file_after file es) fs
      → InstallsMatch file (es ++ fs)
  InstallsMatch-append file [] fs a b = b
  InstallsMatch-append file (response r ∷ es) fs a b = InstallsMatch-append file es fs a b
  InstallsMatch-append file (saved c ∷ es) fs a b = InstallsMatch-append (some c) es fs a b
  InstallsMatch-append file (install ∷ es) fs a b = (a.0, InstallsMatch-append file es fs a.1 b)

  InstallsMatch-then_run :
      (file : Option Bytes) (h : Handled) (later : Run) (raised : Option Exception)
      → InstallsMatch file h.events
      → InstallsMatch (file_after file h.events) later.events
      → InstallsMatch file (then_run h later raised).events
  InstallsMatch-then_run file h later none a b = InstallsMatch-append file h.events later.events a b
  InstallsMatch-then_run file h later (some e) a b = a

  run-InstallsMatch :
      (file : Option Bytes) (p : Programmer) (requests : List (Env × Bytes))
      → All (λ request. Reads request.0) requests
      → Ready file p
      → InstallsMatch file (run p requests).events
  unfolding run
  run-InstallsMatch file p [] reads r = tt
  run-InstallsMatch file p ((env, payload) ∷ rest) reads r =
      let safe = handle_uds-IsSafe file env p payload reads.0 r in
      InstallsMatch-then_run file (handle_uds env p payload) _ _ safe.installs (
        run-InstallsMatch (file_after file (handle_uds env p payload).events)
          (handle_uds env p payload).state rest reads.1 safe.ready)

  -- A server that starts afresh, whatever is in the download file: in every run of requests over one
  -- original and one digest, whenever an installation starts, the download file exists and its digest
  -- is the original's.
  pub new-InstallsMatch :
      (file : Option Bytes) (ecu_id : ℕ) (requests : List (Env × Bytes))
      → All (λ request. Reads request.0) requests
      → InstallsMatch file (run (new ecu_id) requests).events
  new-InstallsMatch file ecu_id requests reads =
      run-InstallsMatch file (new ecu_id) requests reads (λ e. cc)
