-- ===== src/Fortinet.antt =====
-- internal/fortinet: the FortiGate SSL-VPN client.
pub mod Frame
pub mod Settings
pub mod Client
pub mod Open
