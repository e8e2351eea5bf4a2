-- ===== src/Gateway/Lockout.antt =====
-- The lockout of DoIPServer (transport/doip/server.py) after SECURITY_ATTEMPT_LIMIT wrong keys.
use virtual_automotive_ota_d.Prelude.{
  ℕ, ◌+◌, ◌≤◌, ◌<◌, ◌≡◌, sym, ◌∙◌, inl, inr, false, some, List, [], ◌∷◌, arith, All, Bytes,
}
use virtual_automotive_ota_d.Doip.{Packet}
use virtual_automotive_ota_d.Gateway.Context.{
  Context, Env, response, Handled, require_programming_session,
}
use virtual_automotive_ota_d.Gateway.Session.{
  diagnostic_session_control, tester_present, read_data_by_identifier, request_seed, reject_key,
  accept_key, send_key, security_access,
}
use virtual_automotive_ota_d.Gateway.Flashing.{
  erase_memory, verify_image, activate_image, routine_control, start_download, request_download,
  accept_block, transfer_data, request_transfer_exit, ecu_reset,
}
use virtual_automotive_ota_d.Gateway.Handler.{handle_raw_uds_message}
use virtual_automotive_ota_d.Gateway.Services.{handle-OfServices}
use virtual_automotive_ota_d.Gateway.Server.{Ecus, get, Outside, process, process_all}
use virtual_automotive_ota_d.Gateway.Routing.{events_at, process-at}

-- No seed is pending, the ECU is locked, and no seed is given before `until`.
pub record IsLockedOut (until : ℕ) (ecu : Context) : Type 0 where
  pub no_seed : ecu.pending_seed ≡ []
  pub locked : ecu.security_unlocked ≡ false
  pub delayed : until ≤ ecu.security_locked_until

module _ (until : ℕ) (env : Env) (ecu : Context) (payload : Bytes)
    (early : env.security_clock < until) (l : IsLockedOut until ecu) where
  security_access-IsLockedOut : IsLockedOut until (security_access env ecu payload).state
  unfolding security_access require_programming_session request_seed send_key
  security_access-IsLockedOut = ground arith

  routine_control-IsLockedOut : IsLockedOut until (routine_control env ecu payload).state
  unfolding routine_control require_programming_session
  routine_control-IsLockedOut = ground arith

  request_download-IsLockedOut : IsLockedOut until (request_download env ecu payload).state
  unfolding request_download require_programming_session
  request_download-IsLockedOut = ground arith

  transfer_data-IsLockedOut : IsLockedOut until (transfer_data env ecu payload).state
  unfolding transfer_data require_programming_session
  transfer_data-IsLockedOut = ground arith

  request_transfer_exit-IsLockedOut : IsLockedOut until (request_transfer_exit env ecu).state
  unfolding request_transfer_exit require_programming_session
  request_transfer_exit-IsLockedOut = ground arith

  ecu_reset-IsLockedOut : IsLockedOut until (ecu_reset env ecu payload).state
  unfolding ecu_reset require_programming_session
  ecu_reset-IsLockedOut = ground arith

  diagnostic_session_control-IsLockedOut :
      IsLockedOut until (diagnostic_session_control env ecu payload).state
  unfolding diagnostic_session_control
  diagnostic_session_control-IsLockedOut = ground arith

  tester_present-IsLockedOut : IsLockedOut until (tester_present env ecu payload).state
  unfolding tester_present
  tester_present-IsLockedOut = ground arith

  read_data_by_identifier-IsLockedOut :
      IsLockedOut until (read_data_by_identifier env ecu payload).state
  unfolding read_data_by_identifier
  read_data_by_identifier-IsLockedOut = ground arith

  handle-IsLockedOut :
      (h : Handled) → handle_raw_uds_message env ecu payload ≡ some h → IsLockedOut until h.state
  handle-IsLockedOut h e =
      handle-OfServices (λ x. IsLockedOut until x.state) env ecu payload h
        record {
          session = λ e. diagnostic_session_control-IsLockedOut;
          present = λ e. tester_present-IsLockedOut;
          identifier = λ e. read_data_by_identifier-IsLockedOut;
          access = λ e. security_access-IsLockedOut;
          routine = λ e. routine_control-IsLockedOut;
          download = λ e. request_download-IsLockedOut;
          transfer = λ e. transfer_data-IsLockedOut;
          exit = λ e. request_transfer_exit-IsLockedOut;
          restart = λ e. ecu_reset-IsLockedOut;
        }
        e

module _ (until : ℕ) (address : ℕ) where
  abbrev IsLockedOutAt : Ecus → Type 0
  IsLockedOutAt ecus = (ecu : Context) → get ecus address ≡ some ecu → IsLockedOut until ecu

  process-IsLockedOut :
      (o : Outside) (ecus : Ecus) (packet : Packet)
      → o.env.security_clock < until
      → IsLockedOutAt ecus
      → IsLockedOutAt (process o ecus packet).ecus
  process-IsLockedOut o ecus packet early l ecu found = elim (process-at o ecus packet address) [
    | inl u ↦ l ecu (sym u.same ∙ found)
    | inr h ↦
        let e : h.handled.state ≡ ecu = ground (arith, sym h.after ∙ found) in
        rw⁻¹ e (
          handle-IsLockedOut until o.env h.ecu h.request early (l h.ecu h.found) h.handled
            h.answered)
  ]

  process_all-IsLockedOut :
      (ecus : Ecus) (packets : List (Outside × Packet))
      → All (λ x. x.0.env.security_clock < until) packets
      → IsLockedOutAt ecus
      → IsLockedOutAt (process_all ecus packets).ecus
  unfolding process_all
  process_all-IsLockedOut ecus [] early l = l
  process_all-IsLockedOut ecus ((o, packet) ∷ rest) (now, later) l =
      process_all-IsLockedOut (process o ecus packet).ecus rest later
        (process-IsLockedOut o ecus packet now l)

-- The response of a key that was one too many
abbrev pub exceeded : Bytes
exceeded = 0x7F ∷ 0x27 ∷ 0x36 ∷ []

-- If the only response is that of a key that was one too many, the ECU is locked out.
record IsLocking (until : ℕ) (h : Handled) : Type 0 where
  locks : h.events ≡ response exceeded ∷ [] → IsLockedOut until h.state

module _ (env : Env) (ecu : Context) (payload : Bytes) where
  security_access-IsLocking :
      IsLocking (env.security_clock + 30000) (security_access env ecu payload)
  unfolding security_access require_programming_session request_seed send_key reject_key accept_key
  security_access-IsLocking = record { locks = λ e. ground arith }

  routine_control-IsLocking :
      IsLocking (env.security_clock + 30000) (routine_control env ecu payload)
  unfolding routine_control require_programming_session erase_memory verify_image activate_image
  routine_control-IsLocking = record { locks = λ e. ground arith }

  request_download-IsLocking :
      IsLocking (env.security_clock + 30000) (request_download env ecu payload)
  unfolding request_download require_programming_session start_download
  request_download-IsLocking = record { locks = λ e. ground arith }

  transfer_data-IsLocking : IsLocking (env.security_clock + 30000) (transfer_data env ecu payload)
  unfolding transfer_data require_programming_session accept_block
  transfer_data-IsLocking = record { locks = λ e. ground arith }

  request_transfer_exit-IsLocking :
      IsLocking (env.security_clock + 30000) (request_transfer_exit env ecu)
  unfolding request_transfer_exit require_programming_session
  request_transfer_exit-IsLocking = record { locks = λ e. ground arith }

  ecu_reset-IsLocking : IsLocking (env.security_clock + 30000) (ecu_reset env ecu payload)
  unfolding ecu_reset require_programming_session
  ecu_reset-IsLocking = record { locks = λ e. ground arith }

  diagnostic_session_control-IsLocking :
      IsLocking (env.security_clock + 30000) (diagnostic_session_control env ecu payload)
  unfolding diagnostic_session_control
  diagnostic_session_control-IsLocking = record { locks = λ e. ground arith }

  tester_present-IsLocking : IsLocking (env.security_clock + 30000) (tester_present env ecu payload)
  unfolding tester_present
  tester_present-IsLocking = record { locks = λ e. ground arith }

  read_data_by_identifier-IsLocking :
      IsLocking (env.security_clock + 30000) (read_data_by_identifier env ecu payload)
  unfolding read_data_by_identifier
  read_data_by_identifier-IsLocking = record { locks = λ e. ground arith }

  handle-IsLocking :
      (h : Handled)
      → handle_raw_uds_message env ecu payload ≡ some h
      → IsLocking (env.security_clock + 30000) h
  handle-IsLocking h e =
      handle-OfServices (IsLocking (env.security_clock + 30000)) env ecu payload h
        record {
          session = λ e. diagnostic_session_control-IsLocking;
          present = λ e. tester_present-IsLocking;
          identifier = λ e. read_data_by_identifier-IsLocking;
          access = λ e. security_access-IsLocking;
          routine = λ e. routine_control-IsLocking;
          download = λ e. request_download-IsLocking;
          transfer = λ e. transfer_data-IsLocking;
          exit = λ e. request_transfer_exit-IsLocking;
          restart = λ e. ecu_reset-IsLocking;
        }
        e

-- Once the gateway answered a packet for the ECU at an address by exceedNumberOfAttempts, no run of
-- packets of which each reads the clock within the next 30 seconds leaves that ECU unlocked or with a
-- seed pending, whichever ECUs and services the packets are for.
pub lockout_holds_at :
    (o : Outside) (ecus : Ecus) (packet : Packet) (address : ℕ) (packets : List (Outside × Packet))
    → events_at address (process o ecus packet).events ≡ response exceeded ∷ []
    → All (λ x. x.0.env.security_clock < o.env.security_clock + 30000) packets
    → (ecu : Context)
    → get (process_all (process o ecus packet).ecus packets).ecus address ≡ some ecu
    → (ecu.security_unlocked ≡ false) × (ecu.pending_seed ≡ [])
lockout_holds_at o ecus packet address packets x early ecu found =
    let until = o.env.security_clock + 30000 in
    let begun : IsLockedOutAt until address (process o ecus packet).ecus = λ c f.
      elim (process-at o ecus packet address) [
        | inl u ↦ absurd (ground (arith, sym u.quiet ∙ x))
        | inr h ↦
            let e : h.handled.state ≡ c = ground (arith, sym h.after ∙ f) in
            rw⁻¹ e (
              (handle-IsLocking o.env h.ecu h.request h.handled h.answered).locks
                (sym h.happened ∙ x))
      ] in
    let l =
      process_all-IsLockedOut until address (process o ecus packet).ecus packets early begun ecu
        found in
    (l.locked, l.no_seed)
