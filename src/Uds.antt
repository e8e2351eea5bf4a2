-- ===== src/Uds.antt =====
-- transport/uds: the service codes and the codec (codec.py), and the demo key (security.py).
pub mod Codes
pub mod Codec
pub mod Security
