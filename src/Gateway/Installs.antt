-- ===== src/Gateway/Installs.antt =====
-- What an installation that DoIPServer starts finds in the ECU's download file.
use virtual_automotive_ota_d.Prelude.{
  ℕ, ◌≡◌, sym, ◌∙◌, inl, inr, true, Option, none, some, List, [], ◌∷◌, ◌++◌, arith, All, ok, Bytes,
}
use virtual_automotive_ota_d.Doip.{Packet, parse_diagnostic_payload}
use virtual_automotive_ota_d.Programmer.State.{firmware_data}
use virtual_automotive_ota_d.Gateway.Context.{
  Context, Env, Event, response, saved, install, Handled, touch_session, expire_session_if_needed,
  require_programming_session,
}
use virtual_automotive_ota_d.Gateway.Session.{
  diagnostic_session_control, tester_present, read_data_by_identifier, request_seed, reject_key,
  accept_key, send_key, security_access,
}
use virtual_automotive_ota_d.Gateway.Flashing.{
  erase_memory, verify_image, activate_image, routine_control, start_download, request_download,
  accept_block, transfer_data, save_and_verify, request_transfer_exit, ecu_reset,
}
use virtual_automotive_ota_d.Gateway.Services.{handle-OfServices}
use virtual_automotive_ota_d.Gateway.Server.{
  Ecus, get, Outside, process, process_all, init_ecus, diagnostic_message,
}
use virtual_automotive_ota_d.Gateway.Routing.{events_at, events_at-append, process-at}
use virtual_automotive_ota_d.Gateway.Handler.{handle_raw_uds_message}

-- The original that the ECU verifies against, and the digest.
module _ (sha256 : Bytes → ℕ) (original : Bytes) where
  -- A request reads this original, and hashes by this digest.
  pub record Reads (env : Env) : Type 0 where
    pub hashes : (b : Bytes) → env.sha256 b ≡ sha256 b
    pub opens : env.original ≡ ok original

  -- The download file was written, and its digest is the original's.
  abbrev pub Matches : Option Bytes → Type 0
  Matches none = ⊥
  Matches (some b) = sha256 b ≡ sha256 original

  abbrev pub file_after : Option Bytes → List Event → Option Bytes
  file_after file [] = file
  file_after file (response r ∷ es) = file_after file es
  file_after file (saved b ∷ es) = file_after (some b) es
  file_after file (install ∷ es) = file_after file es

  -- Whenever an installation starts, the download file matches the original.
  abbrev pub InstallsMatch : Option Bytes → List Event → Type 0
  InstallsMatch file [] = Unit {0}
  InstallsMatch file (response r ∷ es) = InstallsMatch file es
  InstallsMatch file (saved b ∷ es) = InstallsMatch (some b) es
  InstallsMatch file (install ∷ es) = Matches file × InstallsMatch file es

  abbrev pub Ready : Option Bytes → Context → Type 0
  Ready file ecu = ecu.install_pending ≡ true → Matches file

  pub record IsSafe (file : Option Bytes) (h : Handled) : Type 0 where
    pub installs : InstallsMatch file h.events
    pub ready : Ready (file_after file h.events) h.state

  save_and_verify-IsSafe :
      (file : Option Bytes) (env : Env) (ecu : Context)
      → Ready file ecu
      → Reads env
      → IsSafe file (save_and_verify env ecu)
  unfolding save_and_verify
  save_and_verify-IsSafe file env ecu r reads =
      ground (arith, reads.hashes (firmware_data ecu.receiver), reads.hashes original, reads.opens)

  module _ (file : Option Bytes) (env : Env) (ecu : Context) (payload : Bytes)
      (r : Ready file ecu) where
    security_access-IsSafe : IsSafe file (security_access env ecu payload)
    unfolding security_access require_programming_session request_seed send_key reject_key
        accept_key
    security_access-IsSafe = ground arith

    routine_control-IsSafe : IsSafe file (routine_control env ecu payload)
    unfolding routine_control require_programming_session erase_memory verify_image activate_image
    routine_control-IsSafe = ground arith

    request_download-IsSafe : IsSafe file (request_download env ecu payload)
    unfolding request_download require_programming_session start_download
    request_download-IsSafe = ground arith

    transfer_data-IsSafe : IsSafe file (transfer_data env ecu payload)
    unfolding transfer_data require_programming_session accept_block
    transfer_data-IsSafe = ground arith

    request_transfer_exit-IsSafe : Reads env → IsSafe file (request_transfer_exit env ecu)
    unfolding request_transfer_exit require_programming_session
    request_transfer_exit-IsSafe reads =
        let q = touch_session env (expire_session_if_needed env ecu) in
        ground (arith, λ (s : Ready file q). save_and_verify-IsSafe file env q s reads)

    ecu_reset-IsSafe : IsSafe file (ecu_reset env ecu payload)
    unfolding ecu_reset require_programming_session
    ecu_reset-IsSafe = ground arith

    diagnostic_session_control-IsSafe : IsSafe file (diagnostic_session_control env ecu payload)
    unfolding diagnostic_session_control
    diagnostic_session_control-IsSafe = ground arith

    tester_present-IsSafe : IsSafe file (tester_present env ecu payload)
    unfolding tester_present
    tester_present-IsSafe = ground arith

    read_data_by_identifier-IsSafe : IsSafe file (read_data_by_identifier env ecu payload)
    unfolding read_data_by_identifier
    read_data_by_identifier-IsSafe = ground arith

    pub handle-IsSafe :
        Reads env → (h : Handled) → handle_raw_uds_message env ecu payload ≡ some h → IsSafe file h
    handle-IsSafe reads h e =
        handle-OfServices (IsSafe file) env ecu payload h
          record {
            session = λ e. diagnostic_session_control-IsSafe;
            present = λ e. tester_present-IsSafe;
            identifier = λ e. read_data_by_identifier-IsSafe;
            access = λ e. security_access-IsSafe;
            routine = λ e. routine_control-IsSafe;
            download = λ e. request_download-IsSafe;
            transfer = λ e. transfer_data-IsSafe;
            exit = λ e. request_transfer_exit-IsSafe reads;
            restart = λ e. ecu_reset-IsSafe;
          }
          e

  InstallsMatch-append :
      (file : Option Bytes) (es fs : List Event)
      → InstallsMatch file es
      → InstallsMatch (file_after file es) fs
      → InstallsMatch file (es ++ fs)
  InstallsMatch-append file [] fs a b = b
  InstallsMatch-append file (response r ∷ es) fs a b = InstallsMatch-append file es fs a b
  InstallsMatch-append file (saved c ∷ es) fs a b = InstallsMatch-append (some c) es fs a b
  InstallsMatch-append file (install ∷ es) fs a b = (a.0, InstallsMatch-append file es fs a.1 b)

  module _ (address : ℕ) where
    -- If the packet is a diagnostic message to the address, what it reads is this original.
    abbrev pub ReadsAt : Outside × Packet → Type 0
    ReadsAt (o, packet) =
        (source : ℕ) (request : Bytes)
        → packet.0 ≡ diagnostic_message
        → parse_diagnostic_payload packet.1 ≡ ok (source, address, request)
        → Reads o.env

    abbrev ReadyAt : Option Bytes → Ecus → Type 0
    ReadyAt file ecus = (ecu : Context) → get ecus address ≡ some ecu → Ready file ecu

    process-safe :
        (file : Option Bytes) (o : Outside) (ecus : Ecus) (packet : Packet)
        → ReadsAt (o, packet)
        → ReadyAt file ecus
        → InstallsMatch file (events_at address (process o ecus packet).events)
          × ReadyAt
              (file_after file (events_at address (process o ecus packet).events))
              (process o ecus packet).ecus
    process-safe file o ecus packet reads r = elim (process-at o ecus packet address) [
      | inl u ↦ rw u.quiet (tt, λ ecu found. r ecu (sym u.same ∙ found))
      | inr h ↦
          let safe =
            handle-IsSafe file o.env h.ecu h.request (r h.ecu h.found)
              (reads h.source h.request h.type_is h.parsed) h.handled h.answered in
          rw h.happened (
            safe.installs,
            λ ecu found.
                let e : h.handled.state ≡ ecu = ground (arith, sym h.after ∙ found) in
                rw⁻¹ e safe.ready,
          )
    ]

    process_all-InstallsMatch :
        (file : Option Bytes) (ecus : Ecus) (packets : List (Outside × Packet))
        → All ReadsAt packets
        → ReadyAt file ecus
        → InstallsMatch file (events_at address (process_all ecus packets).events)
    unfolding process_all
    process_all-InstallsMatch file ecus [] reads r = tt
    process_all-InstallsMatch file ecus ((o, packet) ∷ rest) (now, later) r =
        let first = process o ecus packet in
        let (safe, ready) = process-safe file o ecus packet now r in
        rw (events_at-append address first.events (process_all first.ecus rest).events) (
          InstallsMatch-append file (events_at address first.events) _ safe (
            process_all-InstallsMatch (file_after file (events_at address first.events)) first.ecus
              rest later ready))

    init-Ready : (file : Option Bytes) → ReadyAt file init_ecus
    init-Ready file ecu found pending = ground (arith, found, pending)

    -- A gateway that starts afresh, whatever is in the download file of the ECU at an address: in every
    -- run of packets from testers in which the messages to that address read one original and one
    -- digest, whenever the gateway starts an installation at that ECU, the ECU's download file exists
    -- and its digest is the original's.
    pub init_ecus-InstallsMatch :
        (file : Option Bytes) (packets : List (Outside × Packet))
        → All ReadsAt packets
        → InstallsMatch file (events_at address (process_all init_ecus packets).events)
    init_ecus-InstallsMatch file packets reads =
        process_all-InstallsMatch file init_ecus packets reads (init-Ready file)
