-- ===== src/Client/Examples.antt =====
-- The programming sequence on a concrete image, by a cooperative environment.
use virtual_automotive_ota_d.Prelude.{
  ℕ, ◌+◌, ◌≡◌, refl, true, false, none, some, map, take, length-take, contains, Bool-cases, inl,
  inr, [], ◌∷◌, Bytes, ok, arith, from_be,
}
use virtual_automotive_ota_d.Programmer.State.{Env}
use virtual_automotive_ota_d.Programmer.State
use virtual_automotive_ota_d.IsoTp.Receiver.{new}
use virtual_automotive_ota_d.IsoTp.Frames.{parse_flow_control}
use virtual_automotive_ota_d.IsoTp.Sender.{wait_for_flow_control, on_message}
use virtual_automotive_ota_d.Zone.Health.{online, new_zone, health_state, ecu_availability}
use virtual_automotive_ota_d.Zone.Service.{guards, policy_rejection, is_programming_service}
use virtual_automotive_ota_d.Client.FlashManager.{flash_firmware}
use virtual_automotive_ota_d.Client.CanSender.{can_sender}
use virtual_automotive_ota_d.Client.Vehicle.{Bench, Vehicle}
use virtual_automotive_ota_d.Client.Vehicle.Exchanges.{IsLossless, services}
use virtual_automotive_ota_d.Client.EndToEnd.{
  IsCooperative, Ends, EndsInInstall, bench_link, flash_firmware-installs,
}

abbrev image : Bytes
image = 0xCA ∷ 0xFE ∷ 0xBA ∷ 0xBE ∷ 0x00 ∷ []

-- A request every millisecond.
abbrev envs : ℕ → Env
envs n = record {
  diagnostics_enabled = true;
  programming_enabled = true;
  expiry_clock = 1000 + n;
  touch_clock = 1000 + n;
  security_clock = 1000 + n;
  version = [];
  derive_key = λ seed. ok (0x5A ∷ take 4 seed);
  original = ok image;
  sha256 = from_be;
}

-- A zone with the ECU 5, which monitors no heartbeats, and a bus on which each wait starts with a timeout
-- and a heartbeat of the ECU.
abbrev vehicle : Vehicle
vehicle = record {
  envs = envs;
  config = record {
    ecus = record { logical_address = 0x1002; can_id = 5 } ∷ [];
    health_override = some online;
    default_health = some online;
    allowed_services = services;
    programming_allowed = true;
    monitor_enabled = false;
    heartbeat_timeout = 3000;
    heartbeat_grace = 5000;
  };
  address = 0x1002;
  zone_at = λ n. new_zone 0;
  health_clock = λ n. 1000 + n;
  target_clock = λ n. 1000 + n;
  bus = λ n ms.
      none ∷ (some (record { arbitration_id = 5; content = 0x40 ∷ 0x00 ∷ [] }) ∷ map some ms);
}

abbrev start : Bench
start = record {
  server = State.new 5;
  reassembler = new 0 0;
  events = [];
  requests = 0;
  metrics = (new_zone 0).metrics;
}

admitted :
    (sid : ℕ) (rest : Bytes)
    → contains services sid ≡ true
    → policy_rejection vehicle.config (sid ∷ rest) ≡ none
unfolding policy_rejection
admitted sid rest h = elim (Bool-cases (is_programming_service sid)) [
  | inl programs ↦ rw (policy_rejection, h, programs)
  | inr plain ↦ rw (policy_rejection, h, plain)
]

abbrev lossless : IsLossless vehicle 5
unfolding guards health_state ecu_availability wait_for_flow_control on_message parse_flow_control
lossless = record {
  ecu = record { logical_address = 0x1002; can_id = 5 };
  found = refl;
  named = refl;
  admits = λ n m ws ms sid rest h. admitted sid rest h;
  carries = λ n ms. refl;
  controls = λ n ms. refl;
}

cooperative : IsCooperative start.server image (λ seed. 0x5A ∷ take 4 seed) vehicle
cooperative = record {
  enabled = λ n. record { diagnostics = refl; programming = refl };
  prompt = λ n. omega arith;
  not_delayed = λ n. omega arith;
  opens = λ n. refl;
  derives = λ n seed. refl;
  short_keys = λ seed. omega (arith, length-take 4 seed);
  lossless = lossless;
}

flash_firmware-installs_example :
    Ends
      (flash_firmware (can_sender (bench_link vehicle 0 (λ seed. 0x5A ∷ take 4 seed) 2)) image)
      start
      true
      (λ w. (w.server.receiver.buffer ≡ image) × EndsInInstall w.events)
flash_firmware-installs_example =
    flash_firmware-installs vehicle 0 (λ seed. 0x5A ∷ take 4 seed) 2 start image cooperative
      (record { nothing_pending = refl; unpaced = refl }) (omega arith) (omega arith) (omega arith)
