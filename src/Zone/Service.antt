-- ===== src/Zone/Service.antt =====
-- ZoneController.forward_uds (zones/base/zone_controller.py): its guards, the exchange with the ECU and the
-- metrics.
use virtual_automotive_ota_d.Prelude.{
  ℕ, ◌+◌, Bool, not, ◌&&◌, ◌||◌, Option, none, some, List, [], ◌∷◌, contains, ◌==◌, if◌then◌else◌,
  Result, Exception, ok, err, runtime_error, timeout_error, key_error, Bytes, byte_at,
}
use virtual_automotive_ota_d.IsoTp.Frames.{CanMessage}
use virtual_automotive_ota_d.IsoTp.Sender.{Received, send}
use virtual_automotive_ota_d.IsoTp.Receiver.{new}
use virtual_automotive_ota_d.Exchange.{collect}
use virtual_automotive_ota_d.Zone.Health.{
  Availability, Config, Ecu, HealthState, Rejection, Zone, bus_off, degraded, ecu_availability,
  ecu_offline, empty_payload, find_ecu, health_state, heartbeat_timeout_of, not_owned, nothing,
  offline, on_heartbeat, online, programming_blocked, rejection, response_timeout, security_locked,
  service_blocked, starting, unknown_health, unknown_state, zone_bus_off, zone_offline,
  zone_security_locked,
}

-- `_enforce_health`: the rejection, if there is one
abbrev pub health_rejection : HealthState → Option Rejection
health_rejection online = none
health_rejection degraded = none
health_rejection starting = none
health_rejection offline = some zone_offline
health_rejection bus_off = some zone_bus_off
health_rejection security_locked = some zone_security_locked
health_rejection unknown_state = some unknown_health

-- `_enforce_target_online`
abbrev pub target_rejection : Availability → Option Rejection
target_rejection ecu_offline = some heartbeat_timeout_of
target_rejection _ = none

abbrev pub is_programming_service : ℕ → Bool
is_programming_service s = s == 0x27 || (s == 0x31 || (s == 0x34 || (s == 0x36 || s == 0x37)))

-- `_enforce_policy`
unfoldable pub policy_rejection : Config → Bytes → Option Rejection
policy_rejection c [] = some empty_payload
policy_rejection c (service_id ∷ rest) =
    if not (contains c.allowed_services service_id)
    then some service_blocked
    else if is_programming_service service_id && not c.programming_allowed
    then some programming_blocked
    else none

abbrev pub or_else : Option Rejection → Option Rejection → Option Rejection
or_else (some r) later = some r
or_else none later = later

-- What one call of forward_uds reads from outside: the clock where the zone's and the ECU's health are
-- tested, what the bus receives in the waits of IsoTpAdapter.send, and what it receives afterwards.
pub record Outside : Type 0 where
  pub health_clock : ℕ
  pub target_clock : ℕ
  pub waits : List Received
  pub received : Received

pub record Forwarded : Type 0 where
  pub zone : Zone
  pub bus : List CanMessage
  pub result : Result (List Bytes)

abbrev pub with_request : Zone → Zone
with_request z = record z { metrics = record (z.metrics) { requests = z.metrics.requests + 1 } }

-- `_record_rejection`, then the exception
unfoldable pub reject : Zone → Rejection → Exception → Forwarded
reject z r e = record {
  zone = record z {
    metrics = record (z.metrics) { rejected = z.metrics.rejected + 1; last_error = rejection r };
  };
  bus = [];
  result = err e;
}

-- What the loop over the bus makes of the metrics and the call
unfoldable pub conclude : Zone → List CanMessage → Option (List Bytes) → Forwarded
conclude z bus none = record {
  zone = record z {
    metrics = record (z.metrics) {
      timeouts = z.metrics.timeouts + 1;
      last_error = response_timeout;
    };
  };
  bus = bus;
  result = err (timeout_error "Timed out waiting for zone response");
}
conclude z bus (some responses) = record {
  zone = record z {
    metrics = record (z.metrics) { forwarded = z.metrics.forwarded + 1; last_error = nothing };
  };
  bus = bus;
  result = ok responses;
}

-- The request is sent, unless sending raises, and its responses are collected.
unfoldable pub exchange : Outside → Zone → Ecu → Bytes → Forwarded
exchange o z ecu payload = elim (send ecu.can_id o.waits payload).result [
  | err e ↦ record { zone = z; bus = (send ecu.can_id o.waits payload).messages; result = err e }
  | ok done ↦
      conclude z (send ecu.can_id o.waits payload).messages
        (collect ecu.can_id (byte_at payload 0) (new 0 0) [] o.received)
]

-- The guards, in their order; they do not read the metrics.
unfoldable pub guards : Config → Outside → Zone → Ecu → Bytes → Option Rejection
guards c o z ecu payload = or_else (health_rejection (health_state c z o.health_clock)) (
    or_else (target_rejection (ecu_availability c z o.target_clock ecu))
      (policy_rejection c payload))

-- The target is owned and no guard rejects the request.
abbrev pub admitted : Outside → Zone → Ecu → Bytes → Option Rejection → Forwarded
admitted o z ecu payload (some r) = reject z r (runtime_error "rejected by zone")
admitted o z ecu payload none = exchange o z ecu payload

unfoldable pub forward_uds : Config → Outside → Zone → ℕ → Bytes → Forwarded
forward_uds c o z address payload = elim (find_ecu c.ecus address) [
  | none ↦ reject (with_request z) not_owned (key_error "not owned by zone")
  | some ecu ↦ admitted o (with_request z) ecu payload (guards c o z ecu payload)
]

-- The zone's requests and the messages of its heartbeat monitor, in order
pub data Input : Type 0 where
  request : Outside → ℕ → Bytes → Input
  monitored : ℕ → Option CanMessage → Input

pub record Run : Type 0 where
  pub zone : Zone
  pub results : List (Result (List Bytes))

abbrev pub run : Config → Zone → List Input → Run
run c z [] = record { zone = z; results = [] }
run c z (request o address payload ∷ is) =
    let f = forward_uds c o z address payload in
    let later = run c f.zone is in record later { results = f.result ∷ later.results }
run c z (monitored now message ∷ is) = run c (on_heartbeat c now z message) is
