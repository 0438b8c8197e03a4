-- ===== src/Net.antt =====
-- recon/net and recon/orchestrator/killswitch.py: what stands between a module and the network.
pub mod KillSwitch
pub mod Backoff
pub mod RateLimit
pub mod Client
pub mod Refusals
pub mod Gate
pub mod Hops
mod Tests
