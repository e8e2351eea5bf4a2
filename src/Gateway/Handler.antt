-- ===== src/Gateway/Handler.antt =====
-- DoIPServer._handle_raw_uds_message (transport/doip/server.py): the dispatch on the service.
use virtual_automotive_ota_d.Prelude.{
  Bool, not, ◌&&◌, ◌||◌, Option, none, some, length, leb, ◌==◌, if◌then◌else◌, Bytes, byte_at,
}
use virtual_automotive_ota_d.Uds.Codes.{
  sid_diagnostic_session_control, sid_ecu_reset, sid_read_data_by_identifier, sid_security_access,
  sid_routine_control, sid_request_download, sid_transfer_data, sid_request_transfer_exit,
  sid_tester_present,
}
use virtual_automotive_ota_d.Gateway.Context.{Context, Env, Handled}
use virtual_automotive_ota_d.Gateway.Session.{
  diagnostic_session_control, tester_present, read_data_by_identifier, security_access,
}
use virtual_automotive_ota_d.Gateway.Flashing.{
  routine_control, request_download, transfer_data, request_transfer_exit, ecu_reset,
}

-- `none` where the source returns False.
unfoldable pub handle_raw_uds_message : Env → Context → Bytes → Option Handled
handle_raw_uds_message env ecu payload =
    let service_id = byte_at payload 0 in
    if leb (length payload) 0
    then none
    else if service_id == sid_diagnostic_session_control
    then some (diagnostic_session_control env ecu payload)
    else if service_id == sid_tester_present
    then some (tester_present env ecu payload)
    else if service_id == sid_read_data_by_identifier
    then some (read_data_by_identifier env ecu payload)
    else if service_id == sid_security_access
    then some (security_access env ecu payload)
    else if service_id == sid_routine_control
    then some (routine_control env ecu payload)
    else if service_id == sid_request_download
    then some (request_download env ecu payload)
    else if service_id == sid_transfer_data
    then some (transfer_data env ecu payload)
    else if service_id == sid_request_transfer_exit
    then some (request_transfer_exit env ecu)
    else if service_id == sid_ecu_reset
    then some (ecu_reset env ecu payload)
    else none

-- `_is_raw_uds_payload`
unfoldable pub is_raw_uds_payload : Bytes → Bool
is_raw_uds_payload payload =
    let service_id = byte_at payload 0 in
    not (leb (length payload) 0)
    && (service_id == sid_diagnostic_session_control
        || (service_id == sid_ecu_reset
            || (service_id == sid_read_data_by_identifier
                || (service_id == sid_routine_control
                    || (service_id == sid_security_access
                        || (service_id == sid_request_download
                            || (service_id == sid_request_transfer_exit
                                || (service_id == sid_transfer_data
                                    || service_id == sid_tester_present))))))))
