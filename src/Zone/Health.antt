-- ===== src/Zone/Health.antt =====
-- The state of a ZoneController (zones/base/zone_controller.py), and the health of the zone and its ECUs
-- from their heartbeats.
use virtual_automotive_ota_d.Prelude.{
  ℕ, ◌+◌, ◌-◌, Bool, true, false, not, ◌&&◌, ◌||◌, Option, none, some, List, [], ◌∷◌, length, ltb,
  leb, ◌==◌, if◌then◌else◌, byte_at,
}
use virtual_automotive_ota_d.IsoTp.Frames.{CanMessage}

pub data HealthState : Type 0 where
  online degraded starting offline bus_off security_locked : HealthState
  unknown_state : HealthState

-- An ECU's logical address and CAN identifier
pub record Ecu : Type 0 where
  pub logical_address : ℕ
  pub can_id : ℕ

-- `health_override` is `none` where the variable is unset, empty or AUTO, and `default_health` where the
-- configured one is AUTO.
pub record Config : Type 0 where
  pub ecus : List Ecu
  pub health_override : Option HealthState
  pub default_health : Option HealthState
  pub allowed_services : List ℕ
  pub programming_allowed : Bool
  pub monitor_enabled : Bool
  pub heartbeat_timeout : ℕ
  pub heartbeat_grace : ℕ

pub data Rejection : Type 0 where
  not_owned zone_offline zone_bus_off zone_security_locked unknown_health : Rejection
  heartbeat_timeout_of empty_payload service_blocked programming_blocked : Rejection

pub data LastError : Type 0 where
  nothing response_timeout : LastError
  rejection : Rejection → LastError

-- The counters of `metrics`, with its last error; the last service and latency are left out.
pub record Metrics : Type 0 where
  pub requests : ℕ
  pub forwarded : ℕ
  pub rejected : ℕ
  pub timeouts : ℕ
  pub heartbeat_frames : ℕ
  pub last_error : LastError

-- `heartbeat_last_seen` maps CAN identifiers to times.
pub record Zone : Type 0 where
  pub started_at : ℕ
  pub heartbeat_last_seen : List (ℕ × ℕ)
  pub metrics : Metrics

-- ZoneController(...)
abbrev pub new_zone : ℕ → Zone
new_zone started_at = record {
  started_at = started_at;
  heartbeat_last_seen = [];
  metrics = record {
    requests = 0;
    forwarded = 0;
    rejected = 0;
    timeouts = 0;
    heartbeat_frames = 0;
    last_error = nothing;
  };
}

abbrev pub last_seen : List (ℕ × ℕ) → ℕ → Option ℕ
last_seen [] can_id = none
last_seen ((id, seen) ∷ rest) can_id = if id == can_id then some seen else last_seen rest can_id

abbrev pub find_ecu : List Ecu → ℕ → Option Ecu
find_ecu [] address = none
find_ecu (e ∷ es) address = if e.logical_address == address then some e else find_ecu es address

abbrev pub owns_id : List Ecu → ℕ → Bool
owns_id [] can_id = false
owns_id (e ∷ es) can_id = e.can_id == can_id || owns_id es can_id

abbrev pub heartbeat : ℕ
heartbeat = 0x40

-- One message that `_monitor_heartbeats` receives
unfoldable pub on_heartbeat : Config → ℕ → Zone → Option CanMessage → Zone
on_heartbeat c now z none = z
on_heartbeat c now z (some message) =
    if not (owns_id c.ecus message.arbitration_id)
    then z
    else if leb (length message.content) 0
    then z
    else if not (byte_at message.content 0 == heartbeat)
    then z
    else record z {
      heartbeat_last_seen = (message.arbitration_id, now) ∷ z.heartbeat_last_seen;
      metrics = record (z.metrics) { heartbeat_frames = z.metrics.heartbeat_frames + 1 };
    }

pub data Availability : Type 0 where
  unmonitored ecu_starting ecu_online ecu_offline : Availability

unfoldable pub ecu_availability : Config → Zone → ℕ → Ecu → Availability
ecu_availability c z now ecu =
    if not c.monitor_enabled
    then unmonitored
    else elim (last_seen z.heartbeat_last_seen ecu.can_id) [
      | none ↦ if ltb (now - z.started_at) c.heartbeat_grace then ecu_starting else ecu_offline
      | some seen ↦ if leb (now - seen) c.heartbeat_timeout then ecu_online else ecu_offline
    ]

abbrev pub is_starting : Availability → Bool
is_starting ecu_starting = true
is_starting _ = false

abbrev pub is_offline : Availability → Bool
is_offline ecu_offline = true
is_offline _ = false

-- ONLINE or STARTING, of the states of monitored ECUs
abbrev pub is_online : Availability → Bool
is_online ecu_online = true
is_online ecu_starting = true
is_online _ = false

abbrev pub any_ecu : (Availability → Bool) → Config → Zone → ℕ → List Ecu → Bool
any_ecu p c z now [] = false
any_ecu p c z now (e ∷ es) = p (ecu_availability c z now e) || any_ecu p c z now es

-- The state that the heartbeats give the zone
unfoldable pub heartbeat_state : Config → Zone → ℕ → HealthState
heartbeat_state c z now =
    if not c.monitor_enabled
    then online
    else if any_ecu is_online c z now c.ecus && any_ecu is_starting c z now c.ecus
    then starting
    else if any_ecu is_offline c z now c.ecus
    then (if any_ecu is_online c z now c.ecus then degraded else offline)
    else online

unfoldable pub configured_state : Config → Zone → ℕ → HealthState
configured_state c z now = elim c.default_health [
  | none ↦ heartbeat_state c z now
  | some configured ↦ if not c.monitor_enabled then configured else heartbeat_state c z now
]

unfoldable pub health_state : Config → Zone → ℕ → HealthState
health_state c z now = elim c.health_override [
  | some state ↦ state
  | none ↦ configured_state c z now
]
