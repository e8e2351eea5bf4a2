-- ===== src/IsoTp/Receiver.antt =====
-- IsoTpReassembler (transport/can/isotp_adapter.py). A method returns its result and the new state.
-- `frames_until_next_flow_control` is a natural number, so that taking one away stops at 0.
pub mod Invariant
pub mod RoundTrip
use virtual_automotive_ota_d.Prelude.{
  ℕ, ◌+◌, ◌-◌, not, Option, none, some, List, [], ◌∷◌, ◌++◌, ltb, leb, ◌==◌, if◌then◌else◌, ◌&&◌,
  length, take, drop, Bytes, shr, low_bits, join, byte_at,
}
use virtual_automotive_ota_d.IsoTp.Frames.{build_flow_control, flow_status_continue}

pub record Reassembler : Type 0 where
  pub expected_length : Option ℕ
  pub buffer : Bytes
  pub next_sequence : ℕ
  pub block_size : ℕ
  pub stmin : ℕ
  pub frames_until_next_flow_control : ℕ
  pub pending_flow_control : Option Bytes

-- IsoTpReassembler(block_size, stmin)
abbrev pub new : ℕ → ℕ → Reassembler
new block_size stmin = record {
  expected_length = none;
  buffer = [];
  next_sequence = 1;
  block_size = block_size;
  stmin = stmin;
  frames_until_next_flow_control = 0;
  pending_flow_control = none;
}

unfoldable pub reset : Reassembler → Reassembler
reset r = record r {
  expected_length = none;
  buffer = [];
  next_sequence = 1;
  frames_until_next_flow_control = 0;
  pending_flow_control = none;
}

unfoldable pub pop_flow_control_frame : Reassembler → Option Bytes × Reassembler
pop_flow_control_frame r = (r.pending_flow_control, record r { pending_flow_control = none })

-- `IsoTpAdapter.build_flow_control(block_size=self.block_size, stmin=self.stmin)`
unfoldable pub flow_control_of : Reassembler → Bytes
flow_control_of r = build_flow_control flow_status_continue r.block_size r.stmin

-- The end of `_single_frame`, once the length and the start of the data are read.
single_frame_data : Reassembler → Bytes → ℕ → ℕ → Option Bytes × Reassembler
unfolding reset
single_frame_data r frame start len =
    if ltb (length frame) (start + len)
    then (none, r)
    else (some (take len (drop start frame)), reset r)

unfoldable pub receive_single_frame : Reassembler → Bytes → Option Bytes × Reassembler
unfolding single_frame_data
receive_single_frame r frame =
    let len = low_bits (byte_at frame 0) 4 in
    if len == 0
    then if ltb (length frame) 2 then (none, r) else single_frame_data r frame 2 (byte_at frame 1)
    else single_frame_data r frame 1 len

unfoldable pub receive_first_frame : Reassembler → Bytes → Option Bytes × Reassembler
unfolding reset flow_control_of
receive_first_frame r frame =
    if ltb (length frame) 2
    then (none, r)
    else let expected = join (low_bits (byte_at frame 0) 4) 8 (byte_at frame 1) in
      if expected == 0
      then (none, reset r)
      else let started : Reassembler = record r {
        expected_length = some expected;
        buffer = drop 2 frame;
        next_sequence = 1;
        frames_until_next_flow_control = r.block_size;
        pending_flow_control = some (flow_control_of r);
      } in
        if leb expected (length (drop 2 frame))
        then (some (take expected (drop 2 frame)), reset started)
        else (none, started)

-- The end of `_consecutive_frame`: the frame is in sequence and has data.
consecutive_data : Reassembler → ℕ → Bytes → Option Bytes × Reassembler
unfolding reset flow_control_of
consecutive_data r expected frame =
    let buffer' = r.buffer ++ drop 1 frame in
    let left =
      if r.block_size == 0
      then r.frames_until_next_flow_control
      else r.frames_until_next_flow_control - 1 in
    let extended : Reassembler = record r {
      buffer = buffer';
      next_sequence = low_bits (r.next_sequence + 1) 4;
      frames_until_next_flow_control = left;
    } in
    if ltb (length buffer') expected
    then (if not (r.block_size == 0) && left == 0
        then (
          none,
          record extended {
            pending_flow_control = some (flow_control_of r);
            frames_until_next_flow_control = r.block_size;
          },
        )
        else (none, extended))
    else (some (take expected buffer'), reset extended)

unfoldable pub receive_consecutive_frame : Reassembler → Bytes → Option Bytes × Reassembler
unfolding reset consecutive_data
receive_consecutive_frame r frame = elim r.expected_length [
  | none ↦ (none, r)
  | some expected ↦
      if not (low_bits (byte_at frame 0) 4 == r.next_sequence)
      then (none, reset r)
      else if ltb (length frame) 2
      then (none, reset r)
      else consecutive_data r expected frame
]

unfoldable pub feed : Reassembler → Bytes → Option Bytes × Reassembler
feed r [] = (none, r)
feed r (b ∷ bs) =
    let frame_type = shr b 4 in
    let frame = b ∷ bs in
    if frame_type == 0x0
    then receive_single_frame r frame
    else if frame_type == 0x1
    then receive_first_frame r frame
    else if frame_type == 0x2
    then receive_consecutive_frame r frame
    else (none, r)

-- The payloads that a run of frames delivers, in order, with the state that it leaves.
abbrev pub deliver : Option Bytes → List Bytes → List Bytes
deliver none ps = ps
deliver (some p) ps = p ∷ ps

unfoldable pub feed_all : Reassembler → List Bytes → List Bytes × Reassembler
feed_all r [] = ([], r)
feed_all r (f ∷ fs) =
    let (o, r') = feed r f in let (ps, r'') = feed_all r' fs in (deliver o ps, r'')
