-- ===== src/Node.antt =====
-- node: the parts of a peer-to-peer node that keep their own state.
pub mod Seen
pub mod Ban
pub mod Orphan
pub mod TxRelay
pub mod Tests
