-- ===== src/Ipsec.antt =====
-- internal/ipsec: the IKEv2 backend, which drives a dedicated strongSwan daemon over VICI.
pub mod Options
pub mod Vici
pub mod Negotiated
pub mod Backend
pub mod Monitor
