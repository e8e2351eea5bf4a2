-- ===== src/Programmer/Feed.antt =====
-- UDSCanProgrammer.feed: CAN frames through the reassembler to `_handle_uds`.
pub mod Taken
pub mod Requests
use virtual_automotive_ota_d.Prelude.{
  ℕ, ◌+◌, Bool, true, false, not, ◌||◌, ◌&&◌, Option, none, some, Exception, List, [], ◌∷◌, ◌++◌,
  leb, ◌==◌, if◌then◌else◌, length, Result, ok, err, ◌>>=◌, Bytes, shr, low_bits, byte_at,
}
use virtual_automotive_ota_d.IsoTp.Frames.{CanMessage, wrap_frame}
use virtual_automotive_ota_d.IsoTp.Receiver.{Reassembler, pop_flow_control_frame}
use virtual_automotive_ota_d.IsoTp.Receiver
use virtual_automotive_ota_d.Programmer.State.{Programmer, Env, Event, Handled}
use virtual_automotive_ota_d.Programmer.Server.{handle_uds}

-- The object with its reassembler.
pub record Node : Type 0 where
  pub programmer : Programmer
  pub reassembler : Reassembler

unfoldable pub is_isotp_candidate : Bytes → Bool
is_isotp_candidate [] = false
is_isotp_candidate (b ∷ bs) =
    let len = low_bits b 4 in
    if shr b 4 == 0x0
    then (if len == 0
        then leb 2 (length (b ∷ bs)) && leb (2 + byte_at (b ∷ bs) 1) (length (b ∷ bs))
        else leb (1 + len) (length (b ∷ bs)))
    else shr b 4 == 0x1 || shr b 4 == 0x2

-- What one frame leaves: whether it was taken, the flow control put on the bus, and what the request
-- that it completed did.
pub record Fed : Type 0 where
  pub accepted : Bool
  pub node : Node
  pub flow_control : List CanMessage
  pub events : List Event
  pub raised : Option Exception

-- `self.can.send(IsoTpAdapter._wrap_frame(self.ecu_id, flow_control))`, if there is one
unfoldable pub send_flow_control : ℕ → Option Bytes → Result (List CanMessage)
send_flow_control ecu_id none = ok []
send_flow_control ecu_id (some frame) = wrap_frame ecu_id frame >>= λ m. ok (m ∷ [])

unfoldable pub handle_payload : Env → Programmer → Option Bytes → Handled
handle_payload env p none = record { state = p; events = []; raised = none }
handle_payload env p (some payload) = handle_uds env p payload

unfoldable pub feed : Env → Node → Bytes → Fed
feed env n frame =
    let (payload, fed) = Receiver.feed n.reassembler frame in
    let (pending, popped) = pop_flow_control_frame fed in
    let h = handle_payload env n.programmer payload in
    if not (is_isotp_candidate frame)
    then record { accepted = false; node = n; flow_control = []; events = []; raised = none }
    else elim (send_flow_control n.programmer.ecu_id pending) [
      | err e ↦ record {
        accepted = true;
        node = record { programmer = n.programmer; reassembler = popped };
        flow_control = [];
        events = [];
        raised = some e;
      }
      | ok sent ↦ record {
        accepted = true;
        node = record { programmer = h.state; reassembler = popped };
        flow_control = sent;
        events = h.events;
        raised = h.raised;
      }
    ]

-- A frame and the frames after it, which are left unread when it raised
unfoldable pub then_feed : Fed → Fed → Fed
then_feed a rest = elim a.raised [
  | some e ↦ a
  | none ↦ record {
    accepted = a.accepted && rest.accepted;
    node = rest.node;
    flow_control = a.flow_control ++ rest.flow_control;
    events = a.events ++ rest.events;
    raised = rest.raised;
  }
]

-- No frame is left.
abbrev pub fed_all : Node → Fed
fed_all n = record { accepted = true; node = n; flow_control = []; events = []; raised = none }

-- One frame after the other; `accepted` tells whether all were taken.
unfoldable pub feed_frames : Env → Node → List Bytes → Fed
feed_frames env n [] = fed_all n
feed_frames env n (f ∷ fs) = then_feed (feed env n f) (feed_frames env (feed env n f).node fs)
