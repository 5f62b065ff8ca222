-- ===== src/NetGuard.antt =====
-- src/net-guard.js and src/net-guard-node.js: the egress guard, a module for each of its parts.
pub mod Ipv4
pub mod Ipv6
pub mod Policy
pub mod Fetch
mod Examples
