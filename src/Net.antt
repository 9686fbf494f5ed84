-- ===== src/Net.antt =====
-- reactor/net.
pub mod Buffer
pub mod Channel
pub mod Connection
pub mod Connector
pub mod Server
pub mod Timers
