-- ===== src/Uds/Codes.antt =====
-- The constants of transport/uds/codec.py.
use virtual_automotive_ota_d.Prelude.{ℕ}

abbrev pub sid_diagnostic_session_control : ℕ
sid_diagnostic_session_control = 0x10

abbrev pub sid_ecu_reset : ℕ
sid_ecu_reset = 0x11

abbrev pub sid_read_data_by_identifier : ℕ
sid_read_data_by_identifier = 0x22

abbrev pub sid_security_access : ℕ
sid_security_access = 0x27

abbrev pub sid_routine_control : ℕ
sid_routine_control = 0x31

abbrev pub sid_request_download : ℕ
sid_request_download = 0x34

abbrev pub sid_transfer_data : ℕ
sid_transfer_data = 0x36

abbrev pub sid_request_transfer_exit : ℕ
sid_request_transfer_exit = 0x37

abbrev pub sid_tester_present : ℕ
sid_tester_present = 0x3E

abbrev pub sid_negative_response : ℕ
sid_negative_response = 0x7F

abbrev pub nrc_response_pending : ℕ
nrc_response_pending = 0x78

abbrev pub nrc_incorrect_length_or_format : ℕ
nrc_incorrect_length_or_format = 0x13

abbrev pub nrc_conditions_not_correct : ℕ
nrc_conditions_not_correct = 0x22

abbrev pub nrc_request_sequence_error : ℕ
nrc_request_sequence_error = 0x24

abbrev pub nrc_request_out_of_range : ℕ
nrc_request_out_of_range = 0x31

abbrev pub nrc_security_access_denied : ℕ
nrc_security_access_denied = 0x33

abbrev pub nrc_invalid_key : ℕ
nrc_invalid_key = 0x35

abbrev pub nrc_exceed_number_of_attempts : ℕ
nrc_exceed_number_of_attempts = 0x36

abbrev pub nrc_wrong_block_sequence_counter : ℕ
nrc_wrong_block_sequence_counter = 0x73

abbrev pub nrc_service_not_supported_in_active_session : ℕ
nrc_service_not_supported_in_active_session = 0x7F

abbrev pub did_software_version : ℕ
did_software_version = 0xF188

abbrev pub default_session_programming : ℕ
default_session_programming = 0x02

abbrev pub security_access_request_seed : ℕ
security_access_request_seed = 0x01

abbrev pub security_access_send_key : ℕ
security_access_send_key = 0x02

abbrev pub routine_control_start : ℕ
routine_control_start = 0x01

abbrev pub routine_erase_memory : ℕ
routine_erase_memory = 0xFF00

abbrev pub routine_verify_image : ℕ
routine_verify_image = 0xFF01

abbrev pub routine_activate_image : ℕ
routine_activate_image = 0xFF02
