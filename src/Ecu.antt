-- ===== src/Ecu.antt =====
-- ecus/base: the two firmware slots of an ECU, its versions, and what a reboot makes of them.
pub mod Slots
pub mod Versions
pub mod Reboot
pub mod Install
pub mod Examples
