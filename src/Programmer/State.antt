-- ===== src/Programmer/State.antt =====
-- The state of UDSCanProgrammer and of its FirmwareReceiver, what one request reads from outside, and
-- what it leaves behind.
use virtual_automotive_ota_d.Prelude.{
  ℕ, ◌-◌, Bool, false, not, Option, none, some, List, [], ◌∷◌, leb, ◌==◌, if◌then◌else◌, take,
  Result, Exception, Bytes,
}
use virtual_automotive_ota_d.Uds.Codes.{
  sid_negative_response, nrc_response_pending, default_session_programming,
  nrc_service_not_supported_in_active_session,
}

-- FirmwareReceiver
pub record Store : Type 0 where
  pub buffer : Bytes
  pub chunk_count : ℕ
  pub expected_size : Option ℕ

abbrev pub clear : Store
clear = record { buffer = []; chunk_count = 0; expected_size = none }

-- `_firmware_data`
unfoldable pub firmware_data : Store → Bytes
firmware_data s = elim s.expected_size [ none ↦ s.buffer | some n ↦ take n s.buffer ]

pub record Programmer : Type 0 where
  pub ecu_id : ℕ
  pub receiver : Store
  pub expected_size : ℕ
  pub received_size : ℕ
  pub install_pending : Bool
  pub install_started : Bool
  pub download_requested : Bool
  pub security_unlocked : Bool
  pub pending_seed : Bytes
  pub seed_counter : ℕ
  pub erase_completed : Bool
  pub activation_marked : Bool
  pub current_session : ℕ
  pub session_started_at : ℕ
  pub security_failures : ℕ
  pub security_locked_until : ℕ
  pub expected_transfer_sequence : ℕ

-- UDSCanProgrammer(...); `reassembler` is kept beside the object, in `Feed`
abbrev pub new : ℕ → Programmer
new ecu_id = record {
  ecu_id = ecu_id;
  receiver = clear;
  expected_size = 0;
  received_size = 0;
  install_pending = false;
  install_started = false;
  download_requested = false;
  security_unlocked = false;
  pending_seed = [];
  seed_counter = 0;
  erase_completed = false;
  activation_marked = false;
  current_session = 0x00;
  session_started_at = 0;
  security_failures = 0;
  security_locked_until = 0;
  expected_transfer_sequence = 1;
}

-- What one request reads from outside: the runtime control file, `time.monotonic()` in milliseconds
-- where the session's age is tested, where it is touched and where the lockout is tested or set, the
-- version in UTF-8, the key of a seed, the content of `original_path`, and SHA-256 as a number.
pub record Env : Type 0 where
  pub diagnostics_enabled : Bool
  pub programming_enabled : Bool
  pub expiry_clock : ℕ
  pub touch_clock : ℕ
  pub security_clock : ℕ
  pub version : Bytes
  pub derive_key : Bytes → Result Bytes
  pub original : Result Bytes
  pub sha256 : Bytes → ℕ

-- A response handed to the ISO-TP adapter, the download file written, the install thread started.
pub data Event : Type 0 where
  response : Bytes → Event
  saved : Bytes → Event
  install : Event

pub record Handled : Type 0 where
  pub state : Programmer
  pub events : List Event
  pub raised : Option Exception

abbrev pub respond : Programmer → Bytes → Handled
respond p payload = record { state = p; events = response payload ∷ []; raised = none }

abbrev pub negative : Programmer → ℕ → ℕ → Handled
negative p service_id code = respond p (sid_negative_response ∷ service_id ∷ code ∷ [])

-- `_response_pending`, then the rest
abbrev pub after_pending : ℕ → Handled → Handled
after_pending service_id h = record h {
  events = response (sid_negative_response ∷ service_id ∷ nrc_response_pending ∷ []) ∷ h.events;
}

abbrev pub raise : Programmer → Exception → Handled
raise p e = record { state = p; events = []; raised = some e }

unfoldable pub reset_programming_state : Programmer → Programmer
reset_programming_state p = record p {
  security_unlocked = false;
  pending_seed = [];
  erase_completed = false;
  activation_marked = false;
  install_pending = false;
  install_started = false;
  download_requested = false;
  expected_size = 0;
  received_size = 0;
  expected_transfer_sequence = 1;
}

abbrev pub session_timeout : ℕ
session_timeout = 120000

unfoldable pub touch_session : Env → Programmer → Programmer
touch_session env p = record p { session_started_at = env.touch_clock }

unfoldable pub expire_session_if_needed : Env → Programmer → Programmer
unfolding reset_programming_state
expire_session_if_needed env p =
    if not (p.current_session == default_session_programming)
    then p
    else if p.session_started_at == 0
    then p
    else if leb (env.expiry_clock - p.session_started_at) session_timeout
    then p
    else reset_programming_state (record p { current_session = 0x00 })

-- `if not self._require_programming_session(service_id): return`, then the rest of the handler
unfoldable pub require_programming_session : Env → ℕ → Programmer → (Programmer → Handled) → Handled
unfolding expire_session_if_needed touch_session
require_programming_session env service_id p rest =
    let q = expire_session_if_needed env p in
    if not (q.current_session == default_session_programming)
    then negative q service_id nrc_service_not_supported_in_active_session
    else rest (touch_session env q)
