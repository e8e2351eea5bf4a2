-- ===== src/Zone/Examples.antt =====
-- A zone with one ECU (0x1002 at 0x202) that sends heartbeats and answers TesterPresent.
use virtual_automotive_ota_d.Prelude.{
  ◌+◌, ◌≤◌, ◌≡◌, refl, sym, ◌∙◌, ◌≢◌, true, false, none, some, List, [], ◌∷◌, arith, ok, err,
  runtime_error, key_error, Bytes,
}
use virtual_automotive_ota_d.IsoTp.Frames.{CanMessage, single_frame, wrap_frame}
use virtual_automotive_ota_d.IsoTp.Sender.{send, then_send}
use virtual_automotive_ota_d.IsoTp.Receiver.{feed, receive_single_frame}
use virtual_automotive_ota_d.Uds.Codec.{is_response_pending}
use virtual_automotive_ota_d.Exchange.{
  collect, ends_pending, on_message, on_assembled, is_response_for_request,
}
use virtual_automotive_ota_d.Zone.Health.{
  Config, new_zone, on_heartbeat, health_state, configured_state, heartbeat_state, ecu_availability,
}
use virtual_automotive_ota_d.Zone.Service.{
  Outside, Input, request, monitored, run, policy_rejection, guards, reject, conclude, exchange,
  forward_uds,
}
use virtual_automotive_ota_d.Zone.Guards.{
  IsAllowed, forward_uds-IsAllowed, forward_uds-ends_pending,
}
use virtual_automotive_ota_d.Zone.Counts.{concluded, successes, requests_in, run-counts}

abbrev config : Config
config = record {
  ecus = record { logical_address = 0x1002; can_id = 0x202 } ∷ [];
  health_override = none;
  default_health = none;
  allowed_services = 0x3E ∷ 0x22 ∷ 0x34 ∷ [];
  programming_allowed = false;
  monitor_enabled = true;
  heartbeat_timeout = 3000;
  heartbeat_grace = 5000;
}

abbrev alive : CanMessage
alive = record { arbitration_id = 0x202; content = 0x40 ∷ [] }

abbrev outside : Outside
outside = record {
  health_clock = 2000;
  target_clock = 2000;
  waits = [];
  received = some (record { arbitration_id = 0x202; content = 0x02 ∷ 0x7E ∷ 0x00 ∷ [] }) ∷ [];
}

abbrev presence : Bytes
presence = 0x3E ∷ 0x00 ∷ []

-- A heartbeat, an answered request, a programming request, and one to an address of another zone
abbrev inputs : List Input
inputs =
    monitored 1000 (some alive)
    ∷ request outside 0x1002 presence
    ∷ request outside 0x1002 (0x34 ∷ [])
    ∷ request outside 0x1003 presence
    ∷ []

inputs-results :
    (run config (new_zone 0) inputs).results
    ≡ ok ((0x7E ∷ 0x00 ∷ []) ∷ [])
      ∷ err (runtime_error "rejected by zone")
      ∷ err (key_error "not owned by zone")
      ∷ []
unfolding on_heartbeat health_state configured_state heartbeat_state ecu_availability
    policy_rejection guards reject conclude exchange forward_uds send then_send single_frame
    wrap_frame collect on_message on_assembled is_response_for_request is_response_pending feed
    receive_single_frame
inputs-results = refl

run-counts_example :
    ((run config (new_zone 0) inputs).zone.metrics.requests
      ≡ (new_zone 0).metrics.requests + requests_in inputs)
    × ((run config (new_zone 0) inputs).zone.metrics.forwarded
        ≡ (new_zone 0).metrics.forwarded + successes (run config (new_zone 0) inputs).results)
    × (concluded (run config (new_zone 0) inputs).zone.metrics
        ≤ concluded (new_zone 0).metrics + requests_in inputs)
run-counts_example = run-counts config (new_zone 0) inputs

answered :
    (forward_uds config outside (new_zone 0) 0x1002 presence).result ≡ ok ((0x7E ∷ 0x00 ∷ []) ∷ [])
unfolding health_state configured_state heartbeat_state ecu_availability policy_rejection guards
    reject conclude exchange forward_uds send then_send single_frame wrap_frame collect on_message
    on_assembled is_response_for_request is_response_pending feed receive_single_frame
answered = refl

forward_uds-ends_pending_example : ends_pending 0x3E ((0x7E ∷ 0x00 ∷ []) ∷ []) ≡ true
forward_uds-ends_pending_example =
    forward_uds-ends_pending config outside (new_zone 0) 0x1002 presence ((0x7E ∷ 0x00 ∷ []) ∷ [])
      answered

sent :
    (forward_uds config outside (new_zone 0) 0x1002 presence).bus
    ≡ record { arbitration_id = 0x202; content = 0x02 ∷ 0x3E ∷ 0x00 ∷ [] } ∷ []
unfolding health_state configured_state heartbeat_state ecu_availability policy_rejection guards
    reject conclude exchange forward_uds send then_send single_frame wrap_frame collect on_message
    on_assembled is_response_for_request is_response_pending feed receive_single_frame
sent = refl

sent_something : (forward_uds config outside (new_zone 0) 0x1002 presence).bus ≢ []
sent_something e = ground (arith, sym sent ∙ e)

forward_uds-IsAllowed_example : IsAllowed config outside (new_zone 0) 0x1002 presence
forward_uds-IsAllowed_example =
    forward_uds-IsAllowed config outside (new_zone 0) 0x1002 presence sent_something
