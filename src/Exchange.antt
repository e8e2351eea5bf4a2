-- ===== src/Exchange.antt =====
-- One UDS request over CAN and the responses to it, as ZoneController.forward_uds
-- (zones/base/zone_controller.py) and DoIPServer._forward_uds_over_can (transport/doip/server.py) wait for
-- them. The bus is a script of what its receive calls return before the deadline, `none` for a call that
-- timed out. The request is not empty, so that it has a service.
pub mod Collects
pub mod Delivers
use virtual_automotive_ota_d.Prelude.{
  ℕ, Bool, false, not, ◌&&◌, ◌||◌, Option, none, some, List, [], ◌∷◌, ◌++◌, length, leb, ◌==◌,
  if◌then◌else◌, Bytes, byte_at,
}
use virtual_automotive_ota_d.IsoTp.Frames.{CanMessage}
use virtual_automotive_ota_d.IsoTp.Sender.{Received}
use virtual_automotive_ota_d.IsoTp.Receiver.{Reassembler, feed}
use virtual_automotive_ota_d.Uds.Codec.{
  positive_response_sid, is_negative_response, is_response_pending,
}

-- `_is_response_for_request`
unfoldable pub is_response_for_request : Bytes → ℕ → Bool
unfolding positive_response_sid is_negative_response
is_response_for_request payload request_sid =
    not (leb (length payload) 0)
    && (byte_at payload 0 == positive_response_sid request_sid
        || (is_negative_response payload
            && (leb 3 (length payload) && byte_at payload 1 == request_sid)))

-- What the loop does after one receive call
pub data Turn : Type 0 where
  go_on : Reassembler → List Bytes → Turn
  finish : List Bytes → Turn

unfoldable pub on_assembled : ℕ → Reassembler → List Bytes → Option Bytes → Turn
on_assembled request_sid r responses none = go_on r responses
on_assembled request_sid r responses (some assembled) =
    if not (is_response_for_request assembled request_sid)
    then go_on r responses
    else if is_response_pending assembled (some request_sid)
    then go_on r (responses ++ (assembled ∷ []))
    else finish (responses ++ (assembled ∷ []))

unfoldable pub on_message : ℕ → ℕ → Reassembler → List Bytes → Option CanMessage → Turn
unfolding on_assembled
on_message can_id request_sid r responses none = go_on r responses
on_message can_id request_sid r responses (some message) =
    if not (message.arbitration_id == can_id)
    then go_on r responses
    else on_assembled request_sid (feed r message.content).1 responses (feed r message.content).0

-- `none` when the deadline passes.
unfoldable pub collect : ℕ → ℕ → Reassembler → List Bytes → Received → Option (List Bytes)
collect can_id request_sid r responses [] = none
collect can_id request_sid r responses (m ∷ ms) =
    elim (on_message can_id request_sid r responses m) [
      | go_on r' responses' ↦ collect can_id request_sid r' responses' ms
      | finish responses' ↦ some responses'
    ]

-- One response or more to the request, of which the last and no other is not pending.
unfoldable pub ends_pending : ℕ → List Bytes → Bool
unfolding is_response_for_request is_response_pending
ends_pending request_sid [] = false
ends_pending request_sid (r ∷ []) =
    is_response_for_request r request_sid && not (is_response_pending r (some request_sid))
ends_pending request_sid (r ∷ s ∷ rs) =
    (is_response_for_request r request_sid && is_response_pending r (some request_sid))
    && ends_pending request_sid (s ∷ rs)
