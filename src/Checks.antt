-- ===== src/Checks.antt =====
-- The checks of internal/: each turns records or probe results into findings.
pub mod Addrs
pub mod AuthServer
pub mod Axfr
pub mod Caa
pub mod Cname
pub mod Delegation
pub mod Nsec
pub mod Probes
pub mod Soa
pub mod Ttl
