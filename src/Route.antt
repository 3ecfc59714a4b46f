-- ===== src/Route.antt =====
-- bfe_route: from a request to its product and its cluster.
pub mod Trie
pub mod Host
pub mod HostTable
pub mod BasicRule
pub mod Examples
