-- ===== src/Programmer/Server.antt =====
-- `_handle_uds`: the gates of the runtime control, and the dispatch on the service.
pub mod Invariant
pub mod Installs
pub mod Access
pub mod Activation
pub mod Lockout
pub mod Locked
use virtual_automotive_ota_d.Prelude.{
  ℕ, Bool, not, ◌&&◌, ◌||◌, Option, none, some, Exception, List, [], ◌∷◌, ◌++◌, ◌==◌, if◌then◌else◌,
  Bytes, byte_at,
}
use virtual_automotive_ota_d.Uds.Codes.{
  sid_diagnostic_session_control, sid_ecu_reset, sid_read_data_by_identifier, sid_security_access,
  sid_routine_control, sid_request_download, sid_transfer_data, sid_request_transfer_exit,
  sid_tester_present, nrc_conditions_not_correct,
}
use virtual_automotive_ota_d.Programmer.State.{Programmer, Env, Event, Handled, negative}
use virtual_automotive_ota_d.Programmer.Session.{
  diagnostic_session_control, tester_present, read_data_by_identifier, security_access,
}
use virtual_automotive_ota_d.Programmer.Flashing.{
  routine_control, request_download, transfer_data, request_transfer_exit, ecu_reset,
}

unfoldable pub is_programming_service : ℕ → Bool
is_programming_service service_id =
    service_id == sid_security_access
    || (service_id == sid_routine_control
        || (service_id == sid_request_download
            || (service_id == sid_transfer_data
                || (service_id == sid_request_transfer_exit || service_id == sid_ecu_reset))))

unfoldable pub dispatch : Env → Programmer → Bytes → Handled
dispatch env p payload =
    let service_id = byte_at payload 0 in
    if service_id == sid_diagnostic_session_control
    then diagnostic_session_control env p payload
    else if service_id == sid_tester_present
    then tester_present env p payload
    else if service_id == sid_read_data_by_identifier
    then read_data_by_identifier env p payload
    else if service_id == sid_security_access
    then security_access env p payload
    else if service_id == sid_routine_control
    then routine_control env p payload
    else if service_id == sid_request_download
    then request_download env p payload
    else if service_id == sid_transfer_data
    then transfer_data env p payload
    else if service_id == sid_request_transfer_exit
    then request_transfer_exit env p
    else if service_id == sid_ecu_reset
    then ecu_reset env p payload
    else negative p service_id 0x11

unfoldable pub handle_uds : Env → Programmer → Bytes → Handled
unfolding is_programming_service
handle_uds env p [] = record { state = p; events = []; raised = none }
handle_uds env p (b ∷ bs) =
    if not env.diagnostics_enabled
    then negative p b nrc_conditions_not_correct
    else if is_programming_service b && not env.programming_enabled
    then negative p b nrc_conditions_not_correct
    else dispatch env p (b ∷ bs)

-- A run of requests, each with what it read from outside. The receive loops of the ECUs catch no
-- exception of `feed`: it ends the run.
pub record Run : Type 0 where
  pub state : Programmer
  pub events : List Event
  pub raised : Option Exception

-- The request `h`, then the rest of the run, unless it raised.
abbrev pub then_run : Handled → Run → Option Exception → Run
then_run h later none = record later { events = h.events ++ later.events }
then_run h later (some e) = record { state = h.state; events = h.events; raised = some e }

unfoldable pub run : Programmer → List (Env × Bytes) → Run
run p [] = record { state = p; events = []; raised = none }
run p ((env, payload) ∷ rest) =
    let h = handle_uds env p payload in then_run h (run h.state rest) h.raised
