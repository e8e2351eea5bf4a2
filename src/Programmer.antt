-- ===== src/Programmer.antt =====
-- ecus/base/uds_can_programmer.py: the UDS programming server of an ECU, over its firmware receiver
-- (ecus/*/firmware_receiver.py, the same class for each ECU) and its ISO-TP reassembler.
-- `State` has the object, `Session` the session and security services, `Flashing` the services that
-- write an image, `Server` the dispatch, `Feed` the CAN frames.
pub mod State
pub mod Session
pub mod Flashing
pub mod Server
pub mod Feed
pub mod Examples
