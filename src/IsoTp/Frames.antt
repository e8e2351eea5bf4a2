-- ===== src/IsoTp/Frames.antt =====
-- The frames of IsoTpAdapter (transport/can/isotp_adapter.py): single, first, consecutive, flow
-- control, and the CAN message that carries one.
use virtual_automotive_ota_d.Prelude.{
  ℕ, ◌-◌, ◌*◌, ◌&&◌, ◌||◌, not, Option, none, some, [], ◌∷◌, ◌++◌, ltb, leb, ◌==◌, if◌then◌else◌,
  length, Result, ok, err, value_error, Bytes, shr, low_bits, join, byte_at,
}

abbrev pub max_can_fd_data : ℕ
max_can_fd_data = 64

abbrev pub sf_max_payload : ℕ
sf_max_payload = 62

abbrev pub ff_max_payload : ℕ
ff_max_payload = 62

abbrev pub cf_max_payload : ℕ
cf_max_payload = 63

abbrev pub flow_status_continue : ℕ
flow_status_continue = 0

abbrev pub flow_status_wait : ℕ
flow_status_wait = 1

abbrev pub flow_status_overflow : ℕ
flow_status_overflow = 2

-- can.Message, as far as the transport reads it
pub record CanMessage : Type 0 where
  pub arbitration_id : ℕ
  pub content : Bytes

unfoldable pub single_frame : Bytes → Result Bytes
single_frame payload =
    if ltb sf_max_payload (length payload)
    then err (value_error "Single frame payload too large")
    else if leb (length payload) 0x0F
    then ok ((join 0 4 (length payload) ∷ []) ++ payload)
    else ok ((0x00 ∷ length payload ∷ []) ++ payload)

unfoldable pub first_frame : ℕ → Bytes → Result Bytes
first_frame total_length payload =
    if ltb 0xFFF total_length
    then err (value_error "ISO-TP payload too large for simple adapter")
    else ok ((join 1 4 (low_bits (shr total_length 8) 4) ∷ low_bits total_length 8 ∷ []) ++ payload)

unfoldable pub consecutive_frame : ℕ → Bytes → Bytes
consecutive_frame sequence payload = (join 2 4 (low_bits sequence 4) ∷ []) ++ payload

unfoldable pub build_flow_control : ℕ → ℕ → ℕ → Bytes
build_flow_control flow_status block_size stmin =
    join 3 4 (low_bits flow_status 4) ∷ low_bits block_size 8 ∷ low_bits stmin 8 ∷ []

-- What a flow control frame says; `stmin` is in units of 100 microseconds.
pub record FlowControl : Type 0 where
  pub flow_status : ℕ
  pub block_size : ℕ
  pub stmin : ℕ

unfoldable pub stmin_units : ℕ → ℕ
stmin_units stmin_byte =
    if leb stmin_byte 0x7F
    then stmin_byte * 10
    else if leb 0xF1 stmin_byte && leb stmin_byte 0xF9
    then stmin_byte - 0xF0
    else 0

unfoldable pub parse_flow_control : Bytes → Option FlowControl
unfolding stmin_units
parse_flow_control frame =
    if ltb (length frame) 3 || not (shr (byte_at frame 0) 4 == 0x3)
    then none
    else some (record {
      flow_status = low_bits (byte_at frame 0) 4;
      block_size = byte_at frame 1;
      stmin = stmin_units (byte_at frame 2);
    })

unfoldable pub wrap_frame : ℕ → Bytes → Result CanMessage
wrap_frame arbitration_id payload =
    if ltb max_can_fd_data (length payload)
    then err (value_error "Frame exceeds CAN FD max length")
    else ok (record { arbitration_id = arbitration_id; content = payload })
