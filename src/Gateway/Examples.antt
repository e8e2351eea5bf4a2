-- ===== src/Gateway/Examples.antt =====
-- A tester (0x0E80) that programs the body controller (0x1002) through the gateway, and one that tries a
-- wrong key too often.
use virtual_automotive_ota_d.Prelude.{
  ℕ, ◌≡◌, refl, ◌⊎◌, true, false, none, some, List, [], ◌∷◌, ◌++◌, arith, ok, Bytes, from_be, map,
}
use virtual_automotive_ota_d.Doip.{
  Packet, parse_diagnostic_payload, build_packet, build_diagnostic_packet,
}
use virtual_automotive_ota_d.IsoTp.Frames.{single_frame, wrap_frame}
use virtual_automotive_ota_d.IsoTp.Sender.{Received, send, then_send}
use virtual_automotive_ota_d.IsoTp.Receiver.{new, feed, receive_single_frame}
use virtual_automotive_ota_d.Uds.Codec.{
  parse_request_download_max_block_length, is_response_pending,
}
use virtual_automotive_ota_d.Exchange.{
  collect, ends_pending, on_message, on_assembled, is_response_for_request,
}
use virtual_automotive_ota_d.Exchange.Delivers.{
  frames_from, send_all as responses_sent, collect-send_all,
}
use virtual_automotive_ota_d.Gateway.Context.{
  Context, Env, Event, response, saved, install, Handled, new_context, require_programming_session,
}
use virtual_automotive_ota_d.Gateway.Session.{
  security_access, send_key, reject_key, diagnostic_session_control, request_seed, accept_key,
  tester_present,
}
use virtual_automotive_ota_d.Gateway.Flashing.{
  erase_memory, activate_image, routine_control, start_download, request_download, accept_block,
  transfer_data, save_and_verify, request_transfer_exit, ecu_reset,
}
use virtual_automotive_ota_d.Gateway.Handler.{handle_raw_uds_message, is_raw_uds_payload}
use virtual_automotive_ota_d.Gateway.Server.{
  Ecus, get, Outside, process, process_all, proxy, diagnostic, init_ecus, bcm_address, send_all,
  send_uds_response, rewrite_request_download_response,
}
use virtual_automotive_ota_d.Gateway.Routing.{events_at, process-at, IsUntouched, IsHandled}
use virtual_automotive_ota_d.Gateway.Installs.{Reads, InstallsMatch, init_ecus-InstallsMatch}
use virtual_automotive_ota_d.Gateway.Lockout.{lockout_holds_at, exceeded}
use virtual_automotive_ota_d.Gateway.Replies.{IsAnswered, IsReadable, handle-IsAnswered}
use virtual_automotive_ota_d.Gateway.Forwarding.{
  forward_uds_over_can, forwarded_responses, forwarded-ends_pending, parse-rewrite,
}

abbrev image : Bytes
image = 0xAA ∷ 0xBB ∷ []

abbrev digest : Bytes → ℕ
digest b = from_be b

abbrev env : Env
env = record {
  expiry_clock = 1000;
  touch_clock = 1000;
  security_clock = 1000;
  version = 0x31 ∷ [];
  derive_key = λ seed. ok (0x55 ∷ []);
  original = ok image;
  sha256 = digest;
  block_length = 8192;
}

abbrev outside : Outside
outside = record { env = env; proxy_flash_enabled = true; forwarded = ok [] }

-- A diagnostic message from the tester to the body controller
abbrev to_bcm : Bytes → Outside × Packet
to_bcm request = (outside, (0x8001, (0x0E ∷ 0x80 ∷ 0x10 ∷ 0x02 ∷ []) ++ request))

abbrev programming : List (Outside × Packet)
programming =
    to_bcm (0x10 ∷ 0x02 ∷ [])
    ∷ to_bcm (0x27 ∷ 0x01 ∷ [])
    ∷ to_bcm (0x27 ∷ 0x02 ∷ 0x55 ∷ [])
    ∷ to_bcm (0x31 ∷ 0x01 ∷ 0xFF ∷ 0x00 ∷ 0x00 ∷ 0x00 ∷ 0x00 ∷ 0x02 ∷ [])
    ∷ to_bcm (0x34 ∷ 0x00 ∷ 0x44 ∷ 0x00 ∷ 0x00 ∷ 0x00 ∷ 0x00 ∷ 0x00 ∷ 0x00 ∷ 0x00 ∷ 0x02 ∷ [])
    ∷ to_bcm (0x36 ∷ 0x01 ∷ image)
    ∷ to_bcm (0x37 ∷ [])
    ∷ to_bcm (0x31 ∷ 0x01 ∷ 0xFF ∷ 0x02 ∷ [])
    ∷ to_bcm (0x11 ∷ 0x01 ∷ [])
    ∷ []

abbrev installs : List Event → List Event
installs [] = []
installs (response r ∷ es) = installs es
installs (saved b ∷ es) = saved b ∷ installs es
installs (install ∷ es) = install ∷ installs es

programming-installs :
    installs (events_at bcm_address (process_all init_ecus programming).events)
    ≡ saved image ∷ install ∷ []
unfolding process_all process diagnostic proxy parse_diagnostic_payload is_raw_uds_payload
    handle_raw_uds_message diagnostic_session_control security_access request_seed send_key
    accept_key routine_control erase_memory activate_image request_download start_download
    transfer_data accept_block request_transfer_exit save_and_verify ecu_reset
    require_programming_session send_all send_uds_response build_packet build_diagnostic_packet
programming-installs = refl

image-Reads : Reads digest image env
image-Reads = record { hashes = λ b. refl; opens = refl }

init_ecus-InstallsMatch_example :
    InstallsMatch digest image none
      (events_at bcm_address (process_all init_ecus programming).events)
init_ecus-InstallsMatch_example =
    init_ecus-InstallsMatch digest image bcm_address none programming (
      λ s r t p. image-Reads,
      (
        λ s r t p. image-Reads,
        (
          λ s r t p. image-Reads,
          (
            λ s r t p. image-Reads,
            (
              λ s r t p. image-Reads,
              (
                λ s r t p. image-Reads,
                (λ s r t p. image-Reads, (λ s r t p. image-Reads, (λ s r t p. image-Reads, tt))),
              ),
            ),
          ),
        ),
      ),
    )

process-at_example :
    IsUntouched init_ecus 0x1001 (process outside init_ecus (to_bcm (0x10 ∷ 0x02 ∷ [])).1)
    ⊎ IsHandled outside init_ecus
        (to_bcm (0x10 ∷ 0x02 ∷ [])).1
        0x1001
        (process outside init_ecus (to_bcm (0x10 ∷ 0x02 ∷ [])).1)
process-at_example = process-at outside init_ecus (to_bcm (0x10 ∷ 0x02 ∷ [])).1 0x1001

-- After two wrong keys, with a seed given
abbrev suspect : Ecus
suspect =
    (
      0x1002,
      record (new_context 0x1002) {
        current_session = 2;
        security_failures = 2;
        pending_seed = 0x10 ∷ 0x02 ∷ 0x00 ∷ 0x03 ∷ [];
      },
    )
    ∷ []

abbrev wrong_key : Packet
wrong_key = (to_bcm (0x27 ∷ 0x02 ∷ 0x99 ∷ [])).1

wrong_key-exceeded :
    events_at 0x1002 (process outside suspect wrong_key).events ≡ response exceeded ∷ []
unfolding process diagnostic proxy parse_diagnostic_payload is_raw_uds_payload
    handle_raw_uds_message security_access send_key reject_key require_programming_session send_all
    send_uds_response build_packet build_diagnostic_packet
wrong_key-exceeded = refl

abbrev retries : List (Outside × Packet)
retries = to_bcm (0x27 ∷ 0x01 ∷ []) ∷ to_bcm (0x27 ∷ 0x02 ∷ 0x55 ∷ []) ∷ []

abbrev locked_out : Context
locked_out = record (new_context 0x1002) {
  current_session = 2;
  session_started_at = 1000;
  security_failures = 3;
  security_locked_until = 31000;
}

retries-end :
    get (process_all (process outside suspect wrong_key).ecus retries).ecus 0x1002 ≡ some locked_out
unfolding process_all process diagnostic proxy parse_diagnostic_payload is_raw_uds_payload
    handle_raw_uds_message security_access request_seed send_key reject_key
    require_programming_session send_all send_uds_response build_packet build_diagnostic_packet
retries-end = refl

lockout_holds_at_example : (locked_out.security_unlocked ≡ false) × (locked_out.pending_seed ≡ [])
lockout_holds_at_example =
    lockout_holds_at outside suspect wrong_key 0x1002 retries wrong_key-exceeded
      (omega arith, (omega arith, tt)) locked_out retries-end

env-IsReadable : IsReadable env
env-IsReadable = record { derives = λ seed. (0x55 ∷ [], refl); original = image; opens = refl }

abbrev presence : Handled
presence = record {
  state = new_context 0x1002;
  events = response (0x7E ∷ 0x00 ∷ []) ∷ [];
  raised = none;
}

presence-handled :
    handle_raw_uds_message env (new_context 0x1002) (0x3E ∷ 0x00 ∷ []) ≡ some presence
unfolding handle_raw_uds_message tester_present
presence-handled = refl

handle-IsAnswered_example : IsAnswered 0x3E presence
handle-IsAnswered_example =
    handle-IsAnswered env (new_context 0x1002) (0x3E ∷ 0x00 ∷ []) presence env-IsReadable
      presence-handled

-- The ECU behind the gateway answers by one frame.
abbrev on_bus : Received
on_bus = none ∷ some (record { arbitration_id = 0x202; content = 0x02 ∷ 0x7E ∷ 0x00 ∷ [] }) ∷ []

over_can : forward_uds_over_can 0x202 [] on_bus (0x3E ∷ 0x00 ∷ []) ≡ ok ((0x7E ∷ 0x00 ∷ []) ∷ [])
unfolding forward_uds_over_can send then_send single_frame wrap_frame collect on_message
    on_assembled is_response_for_request is_response_pending feed receive_single_frame
over_can = refl

forwarded-ends_pending_example :
    ends_pending 0x3E (forwarded_responses 8192 (0x3E ∷ 0x00 ∷ []) ((0x7E ∷ 0x00 ∷ []) ∷ [])) ≡ true
forwarded-ends_pending_example =
    forwarded-ends_pending 0x202 [] on_bus (0x3E ∷ 0x00 ∷ []) 8192 ((0x7E ∷ 0x00 ∷ []) ∷ [])
      over_can

parse-rewrite_example :
    parse_request_download_max_block_length
      (rewrite_request_download_response 8192 (0x74 ∷ 0x00 ∷ 0x44 ∷ 0x00 ∷ 0x40 ∷ []))
    ≡ some 8192
parse-rewrite_example = parse-rewrite 8192 0x00 0x44 0x00 0x40 [] (omega arith) (omega arith)

-- The ECU asks for more time and then answers, between a heartbeat of its own and another ECU's frame.
abbrev late_answers : List Bytes
late_answers = (0x7F ∷ 0x3E ∷ 0x78 ∷ []) ∷ (0x7E ∷ 0x00 ∷ []) ∷ []

abbrev busy_bus : Received
busy_bus =
    some (record { arbitration_id = 0x202; content = 0x03 ∷ 0x7F ∷ 0x3E ∷ 0x78 ∷ [] })
    ∷ none
    ∷ some (record { arbitration_id = 0x202; content = 0x40 ∷ 0x07 ∷ [] })
    ∷ some (record { arbitration_id = 0x203; content = 0x02 ∷ 0x7E ∷ 0x00 ∷ [] })
    ∷ some (record { arbitration_id = 0x202; content = 0x02 ∷ 0x7E ∷ 0x00 ∷ [] })
    ∷ []

late_answers-end : ends_pending 0x3E late_answers ≡ true
unfolding ends_pending is_response_for_request is_response_pending
late_answers-end = refl

busy_bus-carries :
    frames_from 0x202 busy_bus ≡ frames_from 0x202 (map some (responses_sent 0x202 [] late_answers))
unfolding send then_send single_frame wrap_frame
busy_bus-carries = refl

collect-send_all_example : collect 0x202 0x3E (new 0 0) [] busy_bus ≡ some late_answers
collect-send_all_example =
    collect-send_all 0x202 0x3E [] (new 0 0) late_answers busy_bus
      ((omega arith, omega arith), ((omega arith, omega arith), tt)) late_answers-end
      busy_bus-carries
