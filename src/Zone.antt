-- ===== src/Zone.antt =====
-- ZoneController (zones/base/zone_controller.py): the health of a zone and its ECUs from their heartbeats,
-- the guards of forward_uds, the exchange with the ECU and the metrics. Times are milliseconds; the
-- configuration, which the environment's variables may override, is `Config`.
pub mod Health
pub mod Service
pub mod Guards
pub mod Counts
pub mod Examples
