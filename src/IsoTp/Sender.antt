-- ===== src/IsoTp/Sender.antt =====
-- IsoTpAdapter.segment, send and _wait_for_flow_control (transport/can/isotp_adapter.py).
-- The bus answers by a script: for each wait the list of what its calls of `bus.recv` return before
-- the deadline, `none` for a call that timed out. Where the list ends the deadline has passed.
-- `time.sleep(stmin_seconds)` has no effect on what is sent and is left out.
pub mod Refines
pub mod Unpaced
use virtual_automotive_ota_d.Prelude.{
  ℕ, zero, suc, ◌+◌, ◌%◌, not, Option, none, some, List, [], ◌∷◌, ltb, leb, ◌==◌, if◌then◌else◌,
  ◌&&◌, length, take, drop, Bytes, Result, ok, err, Exception, runtime_error, timeout_error, ◌>>=◌,
}
use virtual_automotive_ota_d.IsoTp.Frames.{
  CanMessage, FlowControl, single_frame, first_frame, consecutive_frame, parse_flow_control,
  wrap_frame, sf_max_payload, ff_max_payload, cf_max_payload, flow_status_wait,
  flow_status_overflow, flow_status_continue,
}

-- `while remaining:` of `segment`; the fuel is the length of `remaining` or more.
unfoldable pub consecutive_frames : ℕ → ℕ → Bytes → List Bytes
consecutive_frames fuel sequence [] = []
consecutive_frames zero sequence (b ∷ bs) = []
consecutive_frames (suc fuel) sequence (b ∷ bs) =
    consecutive_frame sequence (take cf_max_payload (b ∷ bs))
    ∷ consecutive_frames fuel ((sequence + 1) % 16) (drop cf_max_payload (b ∷ bs))

-- The frames that the generator yields; the exception is raised before the first of them.
unfoldable pub segment : Bytes → Result (List Bytes)
segment payload =
    if leb (length payload) sf_max_payload
    then (do frame ← single_frame payload; ok (frame ∷ []))
    else do
      first ← first_frame (length payload) (take ff_max_payload payload)
      ok (first ∷ consecutive_frames (length payload) 1 (drop ff_max_payload payload))

abbrev pub max_wait_frames : ℕ
max_wait_frames = 8

abbrev pub Received : Type 0
Received = List (Option CanMessage)

-- What the status of one flow control frame makes of the wait: go on, or end it.
pub data Wait : Type 0 where
  again : ℕ → Wait
  end : Result FlowControl → Wait

unfoldable pub on_flow_control : ℕ → FlowControl → Wait
on_flow_control wait_count fc =
    if fc.flow_status == flow_status_wait
    then (if ltb max_wait_frames (wait_count + 1)
        then end (err (timeout_error "ISO-TP receiver stayed in WAIT too long"))
        else again (wait_count + 1))
    else if fc.flow_status == flow_status_overflow
    then end (err (runtime_error "ISO-TP receiver reported overflow"))
    else if not (fc.flow_status == flow_status_continue)
    then end (err (runtime_error "Unsupported ISO-TP flow status"))
    else end (ok fc)

unfoldable pub on_message : ℕ → ℕ → Option CanMessage → Wait
unfolding on_flow_control
on_message arbitration_id wait_count none = again wait_count
on_message arbitration_id wait_count (some message) =
    if not (message.arbitration_id == arbitration_id)
    then again wait_count
    else elim (parse_flow_control message.content) [
      | none ↦ again wait_count
      | some fc ↦ on_flow_control wait_count fc
    ]

unfoldable pub wait_for_flow_control : ℕ → ℕ → Received → Result FlowControl
unfolding on_message
wait_for_flow_control arbitration_id wait_count [] =
    err (timeout_error "Timed out waiting for ISO-TP FlowControl")
wait_for_flow_control arbitration_id wait_count (m ∷ ms) =
    elim (on_message arbitration_id wait_count m) [
      | again wait_count' ↦ wait_for_flow_control arbitration_id wait_count' ms
      | end r ↦ r
    ]

-- What `send` has put on the bus, and how it ended.
pub record Sent : Type 0 where
  pub messages : List CanMessage
  pub result : Result (Unit {0})

abbrev pub fail : Exception → Sent
fail e = record { messages = []; result = err e }

-- `self.bus.send(self._wrap_frame(arbitration_id, frame))`, then the rest.
unfoldable pub then_send : ℕ → Result Bytes → Sent → Sent
then_send arbitration_id frame rest = elim (frame >>= wrap_frame arbitration_id) [
  | ok m ↦ record { messages = m ∷ rest.messages; result = rest.result }
  | err e ↦ fail e
]

-- `block_size, stmin_seconds = self._wait_for_flow_control(arbitration_id)`, then the rest.
unfoldable pub after_wait : Result FlowControl → (FlowControl → Sent) → Sent
after_wait (ok fc) rest = rest fc
after_wait (err e) rest = fail e

-- The script of the next wait; a wait that has no script times out.
abbrev pub next_wait : List Received → Received
next_wait [] = []
next_wait (w ∷ ws) = w

abbrev pub later_waits : List Received → List Received
later_waits [] = []
later_waits (w ∷ ws) = ws

-- `while remaining:` of `send`.
unfoldable pub send_loop : ℕ → ℕ → List Received → ℕ → ℕ → ℕ → Bytes → Sent
send_loop fuel arbitration_id waits block_size block_counter sequence [] = record {
  messages = [];
  result = ok tt;
}
send_loop zero arbitration_id waits block_size block_counter sequence (b ∷ bs) = record {
  messages = [];
  result = ok tt;
}
send_loop (suc fuel) arbitration_id waits block_size block_counter sequence (b ∷ bs) =
    let chunk = consecutive_frame sequence (take cf_max_payload (b ∷ bs)) in
    let remaining = drop cf_max_payload (b ∷ bs) in
    let sequence' = (sequence + 1) % 16 in
    if not (block_size == 0) && leb block_size block_counter
    then after_wait (wait_for_flow_control arbitration_id 0 (next_wait waits)) (λ fc.
      then_send arbitration_id (ok chunk)
        (send_loop fuel arbitration_id (later_waits waits) fc.block_size 1 sequence' remaining))
    else then_send arbitration_id (ok chunk)
        (send_loop fuel arbitration_id waits block_size (block_counter + 1) sequence' remaining)

unfoldable pub send : ℕ → List Received → Bytes → Sent
send arbitration_id waits payload =
    if leb (length payload) sf_max_payload
    then then_send arbitration_id (single_frame payload) (record { messages = []; result = ok tt })
    else then_send arbitration_id (first_frame (length payload) (take ff_max_payload payload)) (
        after_wait (wait_for_flow_control arbitration_id 0 (next_wait waits)) (λ fc.
          send_loop (length payload) arbitration_id (later_waits waits) fc.block_size 0 1
            (drop ff_max_payload payload)))
