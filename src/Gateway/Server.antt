-- ===== src/Gateway/Server.antt =====
-- DoIPServer.process (transport/doip/server.py): the packets of testers, the ECU contexts and the packets
-- sent back. The legacy messages in JSON, which are off unless OTA_DOIP_ALLOW_LEGACY_JSON is set, are
-- left out: their payloads are rejected. `_routes` has the addresses of `ecus`.
use virtual_automotive_ota_d.Prelude.{
  ℕ, ◌^◌, Bool, not, ◌&&◌, Option, none, some, List, [], ◌∷◌, ◌++◌, length, take, replicate, ltb,
  leb, ◌==◌, if◌then◌else◌, Result, Exception, ok, err, struct_error, ◌>>=◌, Bytes, byte_at, be16,
  be32, from_be,
}
use virtual_automotive_ota_d.Doip.{
  Packet, build_packet, build_diagnostic_packet, parse_diagnostic_payload,
}
use virtual_automotive_ota_d.Uds.Codes.{sid_request_download}
use virtual_automotive_ota_d.Uds.Codec.{positive_response_sid}
use virtual_automotive_ota_d.Gateway.Context.{
  Context, Env, Event, response, saved, install, Handled, new_context,
}
use virtual_automotive_ota_d.Gateway.Handler.{handle_raw_uds_message, is_raw_uds_payload}

abbrev pub vehicle_ident_request : ℕ
vehicle_ident_request = 0x0001

abbrev pub vehicle_ident_response : ℕ
vehicle_ident_response = 0x0004

abbrev pub routing_activation_request : ℕ
routing_activation_request = 0x0005

abbrev pub routing_activation_response : ℕ
routing_activation_response = 0x0006

abbrev pub alive_check_request : ℕ
alive_check_request = 0x0007

abbrev pub alive_check_response : ℕ
alive_check_response = 0x0008

abbrev pub diagnostic_message : ℕ
diagnostic_message = 0x8001

abbrev pub gateway_address : ℕ
gateway_address = 0x1001

abbrev pub bcm_address : ℕ
bcm_address = 0x1002

abbrev pub cluster_address : ℕ
cluster_address = 0x1003

abbrev pub Ecus : Type 0
Ecus = List (ℕ × Context)

abbrev pub init_ecus : Ecus
init_ecus =
    (gateway_address, new_context gateway_address)
    ∷ (bcm_address, new_context bcm_address)
    ∷ (cluster_address, new_context cluster_address)
    ∷ []

abbrev pub get : Ecus → ℕ → Option Context
get [] address = none
get ((a, ecu) ∷ ecus) address = if a == address then some ecu else get ecus address

abbrev pub put : Ecus → ℕ → Context → Ecus
put [] address ecu = []
put ((a, old) ∷ ecus) address ecu =
    if a == address then ((a, ecu) ∷ ecus) else ((a, old) ∷ put ecus address ecu)

-- What one packet reads from outside: `Env` for the handler, whether GATEWAY_PROXY_FLASH_ENABLED, and what
-- the zone router or `_forward_uds_over_can` returns or raises for it.
pub record Outside : Type 0 where
  pub env : Env
  pub proxy_flash_enabled : Bool
  pub forwarded : Result (List Bytes)

-- What is sent to the client, and the events at each ECU.
pub record Processed : Type 0 where
  pub ecus : Ecus
  pub sent : List Bytes
  pub events : List (ℕ × Event)
  pub raised : Option Exception

abbrev pub idle : Ecus → Processed
idle ecus = record { ecus = ecus; sent = []; events = []; raised = none }

-- `client.sendall` of what was built, or the exception of building it.
abbrev pub answer : Ecus → List (ℕ × Event) → Option Exception → Result (List Bytes) → Processed
answer ecus events raised (ok sent) = record {
  ecus = ecus;
  sent = sent;
  events = events;
  raised = raised;
}
answer ecus events raised (err e) = record {
  ecus = ecus;
  sent = [];
  events = events;
  raised = some e;
}

abbrev pub one : Result Bytes → Result (List Bytes)
one (ok packet) = ok (packet ∷ [])
one (err e) = err e

-- VIN, logical address, EID, GID and further action
abbrev pub vehicle_identification : Bytes
vehicle_identification =
    (0x54 ∷ 0x45 ∷ 0x53 ∷ 0x54 ∷ 0x56 ∷ 0x49 ∷ 0x4E ∷ 0x31 ∷ 0x32 ∷ 0x33 ∷ 0x34 ∷ 0x35 ∷ 0x36 ∷ 0x37
      ∷ 0x38 ∷ 0x39 ∷ 0x30 ∷ [])
    ++ (be16 gateway_address ++ (replicate 6 0 ++ (replicate 6 0 ++ (0 ∷ []))))

unfoldable pub build_vehicle_identification_response : Result Bytes
build_vehicle_identification_response = build_packet vehicle_ident_response vehicle_identification

unfoldable pub routing_activation : Bytes → Result Bytes
routing_activation payload =
    if ltb (length payload) 2
    then err struct_error
    else build_packet routing_activation_response
        (be16 (from_be (take 2 payload)) ++ (be16 gateway_address ++ (0x10 ∷ be32 0)))

-- `struct.pack("!HHB", source, tester, 0)`
abbrev pub ack_payload : ℕ → ℕ → Result Bytes
ack_payload source tester =
    if ltb source (2 ^ 16) && ltb tester (2 ^ 16)
    then ok (be16 source ++ (be16 tester ++ (0x00 ∷ [])))
    else err struct_error

-- `_send_raw_uds_response` and `_send_forwarded_uds_response`: the acknowledgement, then the response. A
-- client that is gone is only reported.
unfoldable pub send_uds_response : ℕ → ℕ → Bytes → Result (List Bytes)
send_uds_response source tester payload = ack_payload source tester >>= λ ack_bytes.
    build_packet 0x8002 ack_bytes >>= λ ack.
    build_diagnostic_packet source tester payload >>= λ packet. ok (ack ∷ packet ∷ [])

abbrev pub both : Result (List Bytes) → Result (List Bytes) → Result (List Bytes)
both (ok first) (ok later) = ok (first ++ later)
both (ok first) (err e) = err e
both (err e) later = err e

unfoldable pub send_all : ℕ → ℕ → List Bytes → Result (List Bytes)
send_all source tester [] = ok []
send_all source tester (r ∷ rs) =
    both (send_uds_response source tester r) (send_all source tester rs)

abbrev pub responses : List Event → List Bytes
responses [] = []
responses (response r ∷ es) = r ∷ responses es
responses (saved b ∷ es) = responses es
responses (install ∷ es) = responses es

abbrev pub tagged : ℕ → List Event → List (ℕ × Event)
tagged address [] = []
tagged address (e ∷ es) = (address, e) ∷ tagged address es

-- `_rewrite_request_download_response`, of a block length that fits in two bytes
unfoldable pub rewrite_request_download_response : ℕ → Bytes → Bytes
unfolding positive_response_sid
rewrite_request_download_response block_length payload =
    if leb (length payload) 0
    then payload
    else if not (byte_at payload 0 == positive_response_sid sid_request_download)
    then payload
    else if ltb (length payload) 5
    then payload
    else ((byte_at payload 0 ∷ byte_at payload 1 ∷ byte_at payload 2 ∷ []) ++ be16 block_length)

abbrev pub rewrite_all : ℕ → List Bytes → List Bytes
rewrite_all block_length [] = []
rewrite_all block_length (r ∷ rs) =
    rewrite_request_download_response block_length r ∷ rewrite_all block_length rs

-- The responses of the ECU behind the gateway, or nothing when forwarding failed
unfoldable pub forward : Outside → Ecus → ℕ → ℕ → Bytes → Processed
forward o ecus source target request = elim o.forwarded [
  | err e ↦ idle ecus
  | ok rs ↦ answer ecus [] none (
      send_all target source (
        if byte_at request 0 == sid_request_download
        then rewrite_all o.env.block_length rs
        else rs))
]

-- What `_handle_raw_uds_message` did, if it handled the request
unfoldable pub proxy : Outside → Ecus → ℕ → ℕ → Bytes → Option Handled → Processed
proxy o ecus source target request none = forward o ecus source target request
proxy o ecus source target request (some h) =
    answer (put ecus target h.state) (tagged target h.events) h.raised
      (send_all h.state.logical_address source (responses h.events))

unfoldable pub diagnostic : Outside → Ecus → ℕ → ℕ → Bytes → Processed
diagnostic o ecus source target request = elim (get ecus target) [
  | none ↦ idle ecus
  | some ecu ↦
      if not (is_raw_uds_payload request)
      then idle ecus
      else proxy o ecus source target request
          (if o.proxy_flash_enabled then handle_raw_uds_message o.env ecu request else none)
]

abbrev pub on_diagnostic : Outside → Ecus → Result (ℕ × ℕ × Bytes) → Processed
on_diagnostic o ecus (err e) = record (idle ecus) { raised = some e }
on_diagnostic o ecus (ok (source, target, request)) = diagnostic o ecus source target request

unfoldable pub process : Outside → Ecus → Packet → Processed
process o ecus (payload_type, payload) =
    if payload_type == vehicle_ident_request
    then answer ecus [] none (one build_vehicle_identification_response)
    else if payload_type == routing_activation_request
    then answer ecus [] none (one (routing_activation payload))
    else if payload_type == alive_check_request
    then answer ecus [] none (one (build_packet alive_check_response (0x00 ∷ [])))
    else if payload_type == diagnostic_message
    then on_diagnostic o ecus (parse_diagnostic_payload payload)
    else idle ecus

-- The packets that the clients' threads process, in order. An exception ends its client's thread, and
-- the others go on.
unfoldable pub process_all : Ecus → List (Outside × Packet) → Processed
process_all ecus [] = idle ecus
process_all ecus ((o, packet) ∷ rest) =
    let first = process o ecus packet in
    let later = process_all first.ecus rest in
    record later { sent = first.sent ++ later.sent; events = first.events ++ later.events }
