-- ===== src/Gateway/Context.antt =====
-- ECUContext (ecus/gateway/ecu_context.py), and what DoIPServer (transport/doip/server.py) reads from
-- outside for one request and leaves behind. `target_version` is left out: it keeps the profile's value.
use virtual_automotive_ota_d.Prelude.{
  ℕ, ◌-◌, Bool, false, not, Option, none, List, [], ◌∷◌, leb, ◌==◌, if◌then◌else◌, Result,
  Exception, Bytes,
}
use virtual_automotive_ota_d.Uds.Codes.{
  sid_negative_response, nrc_response_pending, default_session_programming,
  nrc_service_not_supported_in_active_session,
}
use virtual_automotive_ota_d.Programmer.State.{Store, clear}

pub record Context : Type 0 where
  pub logical_address : ℕ
  pub receiver : Store
  pub expected_download_size : ℕ
  pub download_received_size : ℕ
  pub install_pending : Bool
  pub install_started : Bool
  pub download_verified : Bool
  pub security_unlocked : Bool
  pub pending_seed : Bytes
  pub seed_counter : ℕ
  pub erase_completed : Bool
  pub activation_marked : Bool
  pub current_session : ℕ
  pub session_started_at : ℕ
  pub security_failures : ℕ
  pub security_locked_until : ℕ
  pub expected_transfer_sequence : ℕ

-- ECUContext(...)
abbrev pub new_context : ℕ → Context
new_context logical_address = record {
  logical_address = logical_address;
  receiver = clear;
  expected_download_size = 0;
  download_received_size = 0;
  install_pending = false;
  install_started = false;
  download_verified = false;
  security_unlocked = false;
  pending_seed = [];
  seed_counter = 0;
  erase_completed = false;
  activation_marked = false;
  current_session = 0x00;
  session_started_at = 0;
  security_failures = 0;
  security_locked_until = 0;
  expected_transfer_sequence = 1;
}

-- `time.monotonic()` in milliseconds where the session's age is tested, where it is touched and where
-- the lockout is tested or set, the version in UTF-8, the key of a seed, the content of
-- `original_path`, SHA-256 as a number, and GATEWAY_REQUEST_DOWNLOAD_BLOCK_LENGTH.
pub record Env : Type 0 where
  pub expiry_clock : ℕ
  pub touch_clock : ℕ
  pub security_clock : ℕ
  pub version : Bytes
  pub derive_key : Bytes → Result Bytes
  pub original : Result Bytes
  pub sha256 : Bytes → ℕ
  pub block_length : ℕ

-- `_send_raw_uds_response`, the download file written, the installation thread started.
pub data Event : Type 0 where
  response : Bytes → Event
  saved : Bytes → Event
  install : Event

pub record Handled : Type 0 where
  pub state : Context
  pub events : List Event
  pub raised : Option Exception

abbrev pub respond : Context → Bytes → Handled
respond ecu payload = record { state = ecu; events = response payload ∷ []; raised = none }

abbrev pub negative : Context → ℕ → ℕ → Handled
negative ecu service_id code = respond ecu (sid_negative_response ∷ service_id ∷ code ∷ [])

-- `_send_response_pending`, then the rest
abbrev pub after_pending : ℕ → Handled → Handled
after_pending service_id h = record h {
  events = response (sid_negative_response ∷ service_id ∷ nrc_response_pending ∷ []) ∷ h.events;
}

unfoldable pub reset_programming_state : Context → Context
reset_programming_state ecu = record ecu {
  security_unlocked = false;
  pending_seed = [];
  erase_completed = false;
  activation_marked = false;
  install_pending = false;
  expected_download_size = 0;
  download_received_size = 0;
  expected_transfer_sequence = 1;
}

unfoldable pub touch_session : Env → Context → Context
touch_session env ecu = record ecu { session_started_at = env.touch_clock }

abbrev pub session_timeout : ℕ
session_timeout = 120000

unfoldable pub expire_session_if_needed : Env → Context → Context
unfolding reset_programming_state
expire_session_if_needed env ecu =
    if not (ecu.current_session == default_session_programming)
    then ecu
    else if ecu.session_started_at == 0
    then ecu
    else if leb (env.expiry_clock - ecu.session_started_at) session_timeout
    then ecu
    else reset_programming_state (record ecu { current_session = 0x00 })

-- `if not self._require_programming_session(...): return True`, then the rest of the handler
unfoldable pub require_programming_session : Env → ℕ → Context → (Context → Handled) → Handled
unfolding expire_session_if_needed touch_session
require_programming_session env service_id ecu rest =
    let q = expire_session_if_needed env ecu in
    if not (q.current_session == default_session_programming)
    then negative q service_id nrc_service_not_supported_in_active_session
    else rest (touch_session env q)
