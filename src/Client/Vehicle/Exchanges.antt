-- ===== src/Client/Vehicle/Exchanges.antt =====
-- An exchange with a server that is ready, over a bus that loses nothing, is what the handler of requests does.
use virtual_automotive_ota_d.Prelude.{
  ℕ, ◌+◌, ◌%◌, ◌≤◌, ◌<◌, ◌≡◌, refl, sym, ap, ◌∙◌, true, none, some, List, [], ◌∷◌, ◌++◌, map, Bytes,
  ok, arith, length, take, drop, length-take, dec_le, All, contains, byte_at, ==_self,
}
use virtual_automotive_ota_d.IsoTp.Frames.{
  CanMessage, FlowControl, parse_flow_control, build_flow_control, stmin_units,
}
use virtual_automotive_ota_d.IsoTp.Sender.{
  Received, send, segment, consecutive_frames, wait_for_flow_control, on_message, on_flow_control,
}
use virtual_automotive_ota_d.IsoTp.Sender.Refines.{carry, first_frame-ok, segment_long}
use virtual_automotive_ota_d.IsoTp.Sender.Unpaced.{
  all_sent, send_short-all, send_long-first, send_long-all,
}
use virtual_automotive_ota_d.IsoTp.Receiver.{Reassembler, flow_control_of, new}
use virtual_automotive_ota_d.Exchange.{collect, ends_pending}
use virtual_automotive_ota_d.Exchange.Delivers.{frames_from, send_all, IsSendable, collect-send_all}
use virtual_automotive_ota_d.Zone.Health.{Zone, Config, Ecu, Metrics, find_ecu}
use virtual_automotive_ota_d.Zone.Service.{Outside, Forwarded, forward_uds, guards, conclude}
use virtual_automotive_ota_d.Zone.Service
use virtual_automotive_ota_d.Programmer.State.{Handled}
use virtual_automotive_ota_d.Programmer.Server.{handle_uds}
use virtual_automotive_ota_d.Programmer.Feed.{Node}
use virtual_automotive_ota_d.Programmer.Feed.Taken.{IsIdle, Requested}
use virtual_automotive_ota_d.Programmer.Feed.Requests.{
  feed_frames-segment, flow_control_for, flow_control_first,
}
use virtual_automotive_ota_d.Client.Vehicle.{
  Bench, responses, Vehicle, contents, ecu_takes, first_wait, answers, forwarded, exchange,
}

-- The services of the programming sequence
abbrev pub services : List ℕ
services = 0x10 ∷ 0x11 ∷ 0x27 ∷ 0x31 ∷ 0x34 ∷ 0x36 ∷ 0x37 ∷ 0x3E ∷ []

-- The zone has the ECU and lets the services of the programming sequence pass, and the rest of the traffic
-- neither hides nor imitates the ECU's data frames and flow control.
pub record IsLossless (v : Vehicle) (can_id : ℕ) : Type 0 where
  pub ecu : Ecu
  pub found : find_ecu v.config.ecus v.address ≡ some ecu
  pub named : ecu.can_id ≡ can_id
  pub admits :
      (n : ℕ) (m : Metrics) (ws : List Received) (ms : Received) (sid : ℕ) (rest : Bytes)
      → contains services sid ≡ true
      → guards v.config
          (record {
            health_clock = v.health_clock n;
            target_clock = v.target_clock n;
            waits = ws;
            received = ms;
          })
          (record (v.zone_at n) { metrics = m })
          ecu
          (sid ∷ rest)
        ≡ none
  pub carries :
      (n : ℕ) (ms : List CanMessage)
      → frames_from can_id (v.bus n ms) ≡ frames_from can_id (map some ms)
  pub controls :
      (n : ℕ) (ms : List CanMessage)
      → wait_for_flow_control can_id 0 (v.bus n ms) ≡ wait_for_flow_control can_id 0 (map some ms)

granted :
    (id : ℕ) (r : Reassembler)
    → r.block_size ≡ 0
    → (g : FlowControl) × (wait_for_flow_control id 0 (some (carry id (flow_control_of r)) ∷ [])
        ≡ ok g)
      × (g.block_size ≡ 0)
unfolding flow_control_of build_flow_control wait_for_flow_control on_message parse_flow_control
    on_flow_control
granted id r h = (
  record { flow_status = 0; block_size = 0; stmin = stmin_units (r.stmin % 256) },
  ground (arith, ==_self id),
  refl,
)

contents-carry : (id : ℕ) (frames : List Bytes) → contents (map (carry id) frames) ≡ frames
contents-carry id [] = refl
contents-carry id (f ∷ fs) = ap (λ x. f ∷ x) (contents-carry id fs)

module _ (v : Vehicle) (w : Bench) (payload : Bytes) where
  abbrev node : Node
  node = record { programmer = w.server; reassembler = w.reassembler }

  abbrev id : ℕ
  id = w.server.ecu_id

  abbrev pub handled : Handled
  handled = handle_uds (v.envs w.requests) w.server payload

  module _ (lossless : IsLossless v id) (idle : IsIdle w.reassembler)
      (positive : 0 < length payload) (bounded : length payload ≤ 0xFFF) where
    -- All frames of the request are sent.
    request-sent :
        (frames : List Bytes) × (segment payload ≡ ok frames)
        × (send id (first_wait v payload w ∷ []) payload ≡ all_sent id frames)
    request-sent = elim (dec_le (length payload) 62) [
      | yes short ↦
          let (f, made, sent) = send_short-all id (first_wait v payload w ∷ []) payload short in
          (f ∷ [], made, sent)
      | no more ↦
          let long : 62 < length payload = omega arith in
          let (f, made, fits) =
            first_frame-ok (length payload) (take 62 payload)
              (omega (arith, length-take 62 payload)) bounded in
          let (g, wait, unpaced) = granted id w.reassembler idle.unpaced in
          let first = send_long-first id payload f long fits made in
          let answer : first_wait v payload w
              ≡ v.bus w.requests (carry id (flow_control_of w.reassembler) ∷ []) =
            ap (v.bus w.requests) (
              ap (λ ms. (ecu_takes v w ms).flow_control) first
              ∙ flow_control_first (v.envs w.requests) node payload f idle long bounded made) in
          let waited : wait_for_flow_control id 0 (first_wait v payload w) ≡ ok g =
            ap (wait_for_flow_control id 0) answer
            ∙ lossless.controls w.requests (carry id (flow_control_of w.reassembler) ∷ [])
            ∙ wait in
          (
            f ∷ consecutive_frames (length payload) 1 (drop 62 payload),
            segment_long payload f long made,
            send_long-all id (first_wait v payload w) payload f g long fits made waited unpaced,
          )
    ]

    -- The ECU takes what is sent, and does what the handler does.
    request-taken :
        (frames : List Bytes) × (send id (first_wait v payload w ∷ []) payload ≡ all_sent id frames)
        × Requested
            (v.envs w.requests)
            node
            (contents (map (carry id) frames))
            payload
            (flow_control_for node payload)
    request-taken =
        let (frames, made, sent) = request-sent in
        let (frames', made', r) =
          feed_frames-segment (v.envs w.requests) node payload idle positive bounded in
        let same : frames' ≡ frames = ok-same frames' frames (sym made' ∙ made) in
        let back : frames' ≡ contents (map (carry id) frames) =
          same ∙ sym (contents-carry id frames) in
        (frames, sent, rw (sym back) r)
      where
        ok-same : (x y : List Bytes) → (ok x ≡ ok y) → x ≡ y
        ok-same x y e = cc

-- The zone's part: the request is admitted and sent, and its responses are collected.
module _ (c : Config) (o : Outside) (z : Zone) (ecu : Ecu) (address : ℕ) (payload : Bytes)
    (frames rs : List Bytes) where
  exchange-answered :
      (z : Zone)
      → send ecu.can_id o.waits payload ≡ all_sent ecu.can_id frames
      → collect ecu.can_id (byte_at payload 0) (new 0 0) [] o.received ≡ some rs
      → Service.exchange o z ecu payload ≡ conclude z (map (carry ecu.can_id) frames) (some rs)
  unfolding Service.exchange
  exchange-answered z sent got =
      rw (Service.exchange, sent, got) (ap (λ s. conclude z s.messages (some rs)) sent)

  forward_uds-answered :
      find_ecu c.ecus address ≡ some ecu
      → guards c o z ecu payload ≡ none
      → send ecu.can_id o.waits payload ≡ all_sent ecu.can_id frames
      → collect ecu.can_id (byte_at payload 0) (new 0 0) [] o.received ≡ some rs
      → ((forward_uds c o z address payload).bus ≡ map (carry ecu.can_id) frames)
        × ((forward_uds c o z address payload).result ≡ ok rs)
  unfolding forward_uds conclude
  forward_uds-answered found free sent got =
      let e : forward_uds c o z address payload
          ≡ conclude (Service.with_request z) (map (carry ecu.can_id) frames) (some rs) =
        rw (forward_uds, found, free) (exchange-answered (Service.with_request z) sent got) in
      (ap (λ f. f.bus) e, ap (λ f. f.result) e)

-- The world after a request that the handler answers; the reassembler and the metrics are those that the
-- exchange leaves.
abbrev pub after : Vehicle → Bytes → Bench → Bench
after v payload w = record {
  server = (handled v w payload).state;
  reassembler = (exchange v payload w).1.reassembler;
  events = w.events ++ (handled v w payload).events;
  requests = w.requests + 1;
  metrics = (exchange v payload w).1.metrics;
}

exchange-pair :
    (v : Vehicle) (w : Bench) (payload : Bytes) {rs : List Bytes}
    → (forwarded v payload w).result ≡ ok rs
    → (ecu_takes v w (forwarded v payload w).bus).node.programmer ≡ (handled v w payload).state
    → (ecu_takes v w (forwarded v payload w).bus).events ≡ (handled v w payload).events
    → exchange v payload w ≡ (ok rs, after v payload w)
exchange-pair v w payload result state events = rw (result, state, events)

-- The server's responses to a request of 1 to 4095 bytes come back, and it is ready for the next request.
pub exchange_lem :
    (v : Vehicle) (w : Bench) (sid : ℕ) (rest : Bytes)
    → IsLossless v w.server.ecu_id
    → IsIdle w.reassembler
    → contains services sid ≡ true
    → length (sid ∷ rest) ≤ 0xFFF
    → All IsSendable (responses (handled v w (sid ∷ rest)).events)
    → ends_pending sid (responses (handled v w (sid ∷ rest)).events) ≡ true
    → (exchange v (sid ∷ rest) w
        ≡ (ok (responses (handled v w (sid ∷ rest)).events), after v (sid ∷ rest) w))
      × IsIdle (after v (sid ∷ rest) w).reassembler
exchange_lem v w sid rest l idle service bounded short ends =
    let payload = sid ∷ rest in
    let id = w.server.ecu_id in
    let rs = responses (handled v w payload).events in
    let (frames, sent, r) = request-taken v w payload l idle (omega arith) bounded in
    let wait = first_wait v payload w ∷ [] in
    let replies =
      send_all id [] (responses (ecu_takes v w (send id wait payload).messages).events) in
    let replied : replies ≡ send_all id [] rs =
      ap (λ s. send_all id [] (responses (ecu_takes v w s.messages).events)) sent
      ∙ ap (λ es. send_all id [] (responses es)) r.events in
    let kept : frames_from id (answers v payload w)
        ≡ frames_from id (map some (send_all id [] rs)) =
      l.carries w.requests replies ∙ ap (λ ms. frames_from id (map some ms)) replied in
    let got = collect-send_all id sid [] (new 0 0) rs (answers v payload w) short ends kept in
    let o : Outside = record {
      health_clock = v.health_clock w.requests;
      target_clock = v.target_clock w.requests;
      waits = wait;
      received = answers v payload w;
    } in
    let (bus, result) =
      forward_uds-answered v.config o (record (v.zone_at w.requests) { metrics = w.metrics }) l.ecu
        v.address payload frames rs l.found
        (l.admits w.requests w.metrics wait (answers v payload w) sid rest service)
        (rw l.named sent) (rw l.named got) in
    let on_bus : (forwarded v payload w).bus ≡ map (carry id) frames =
      bus ∙ ap (λ i. map (carry i) frames) l.named in
    let state : (ecu_takes v w (forwarded v payload w).bus).node.programmer
        ≡ (handled v w payload).state =
      ap (λ ms. (ecu_takes v w ms).node.programmer) on_bus ∙ r.state in
    let events : (ecu_takes v w (forwarded v payload w).bus).events ≡ (handled v w payload).events =
      ap (λ ms. (ecu_takes v w ms).events) on_bus ∙ r.events in
    let left : IsIdle (ecu_takes v w (forwarded v payload w).bus).node.reassembler =
      rw on_bus r.idle in
    (exchange-pair v w payload result state events, left)
