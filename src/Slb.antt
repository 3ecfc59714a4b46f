-- ===== src/Slb.antt =====
-- bfe_balance/bal_slb: balancing inside a sub-cluster.
pub mod Backends
pub mod Balancer
pub mod Update
pub mod Reset
pub mod Smooth
pub mod LeastConns
pub mod Simple
pub mod Sticky
pub mod SlowStart
pub mod Balance
pub mod Examples
