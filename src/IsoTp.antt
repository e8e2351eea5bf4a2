-- ===== src/IsoTp.antt =====
-- transport/can/isotp_adapter.py: ISO-TP over CAN FD. `Frames` has the frame formats and the flow
-- control frame, `Sender` the adapter, `Receiver` the reassembler.
pub mod Frames
pub mod Sender
pub mod Receiver
pub mod Examples
