-- ===== src/Client.antt =====
-- The client side of programming: `Exec` has methods that may raise, `FlashManager` is
-- transport/uds/flash_manager.py with transport/uds/client.py over any transport, `CanSender` the UDS
-- services of transport/can/can_sender.py, `Vehicle` the way to the ECU and back, and `EndToEnd` runs them all
-- against the ECU's server.
pub mod Exec
pub mod FlashManager
pub mod CanSender
pub mod Vehicle
pub mod Bench
pub mod EndToEnd
pub mod Examples
