-- ===== src/Client/Vehicle.antt =====
-- An exchange between the client and an ECU: ZoneController.forward_uds (zones/base/zone_controller.py)
-- sends the request by IsoTpAdapter.send, UDSCanProgrammer.feed (ecus/base/uds_can_programmer.py) takes its
-- frames, and the responses come back by IsoTpAdapter.send. The zone client hands a request and the list of
-- its responses over as they are; which exception the zone raised is not told apart from what the client
-- makes of it.
pub mod Exchanges
use virtual_automotive_ota_d.Prelude.{ℕ, ◌+◌, some, List, [], ◌∷◌, ◌++◌, map, Bytes, ◌≡◌}
use virtual_automotive_ota_d.IsoTp.Frames.{CanMessage}
use virtual_automotive_ota_d.IsoTp.Sender.{Received, send, wait_for_flow_control}
use virtual_automotive_ota_d.IsoTp.Receiver.{Reassembler}
use virtual_automotive_ota_d.Exchange.Delivers.{frames_from, send_all}
use virtual_automotive_ota_d.Zone.Health.{Zone, Config, Metrics}
use virtual_automotive_ota_d.Zone.Service.{Outside, Forwarded, forward_uds}
use virtual_automotive_ota_d.Programmer.State.{Programmer, Env, Event, response, saved, install}
use virtual_automotive_ota_d.Programmer.Feed.{Node, Fed, feed_frames}
use virtual_automotive_ota_d.Client.Exec.{Exec}

-- The server with its reassembler, all that it has done, the number of requests so far, and the metrics of
-- the zone controller.
pub record Bench : Type 0 where
  pub server : Programmer
  pub reassembler : Reassembler
  pub events : List Event
  pub requests : ℕ
  pub metrics : Metrics

abbrev pub responses : List Event → List Bytes
responses [] = []
responses (response r ∷ es) = r ∷ responses es
responses (saved b ∷ es) = responses es
responses (install ∷ es) = responses es

-- What surrounds the exchange of request number `n`: what the ECU reads from outside, the zone with the
-- heartbeats seen so far, its two clocks, and the bus, which carries some messages among other traffic.
pub record Vehicle : Type 0 where
  pub envs : ℕ → Env
  pub config : Config
  pub address : ℕ
  pub zone_at : ℕ → Zone
  pub health_clock : ℕ → ℕ
  pub target_clock : ℕ → ℕ
  pub bus : ℕ → List CanMessage → Received

abbrev pub contents : List CanMessage → List Bytes
contents ms = map (λ m. m.content) ms

module _ (v : Vehicle) where
  -- What the ECU does with the messages that are on the bus
  abbrev pub ecu_takes : Bench → List CanMessage → Fed
  ecu_takes w ms =
      feed_frames (v.envs w.requests)
        (record { programmer = w.server; reassembler = w.reassembler }) (contents ms)

  -- What the sender receives in its wait: the flow control with which the ECU answers what is sent
  -- until then.
  abbrev pub first_wait : Bytes → Bench → Received
  first_wait payload w =
      v.bus w.requests (ecu_takes w (send w.server.ecu_id [] payload).messages).flow_control

  -- What the zone receives after it has sent the request: the ECU's responses
  abbrev pub answers : Bytes → Bench → Received
  answers payload w =
      let sent = (send w.server.ecu_id (first_wait payload w ∷ []) payload).messages in
      v.bus w.requests (send_all w.server.ecu_id [] (responses (ecu_takes w sent).events))

  abbrev pub forwarded : Bytes → Bench → Forwarded
  forwarded payload w =
      forward_uds v.config
        (record {
          health_clock = v.health_clock w.requests;
          target_clock = v.target_clock w.requests;
          waits = first_wait payload w ∷ [];
          received = answers payload w;
        })
        (record (v.zone_at w.requests) { metrics = w.metrics }) v.address payload

  abbrev pub exchange : Bytes → Exec Bench (List Bytes)
  exchange payload w =
      let f = forwarded payload w in
      let a = ecu_takes w f.bus in
      (
        f.result,
        record {
          server = a.node.programmer;
          reassembler = a.node.reassembler;
          events = w.events ++ a.events;
          requests = w.requests + 1;
          metrics = f.zone.metrics;
        },
      )
