-- ===== src/Node.antt =====
-- pkg/node: node labels and provider identifiers.
pub mod Sanitize
pub mod Labels
pub mod Update
pub mod Provider
