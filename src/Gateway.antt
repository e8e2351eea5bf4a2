-- ===== src/Gateway.antt =====
-- DoIPServer (transport/doip/server.py): the gateway that answers testers over DoIP.
pub mod Context
pub mod Session
pub mod Flashing
pub mod Handler
pub mod Server
pub mod Routing
pub mod Services
pub mod Installs
pub mod Lockout
pub mod Replies
pub mod Forwarding
pub mod Examples
