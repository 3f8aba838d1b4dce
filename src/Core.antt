-- ===== src/Core.antt =====
-- The ledger core: consensus parameters, transactions, accounts and their application.
pub mod Params
pub mod Tx
pub mod Env
pub mod Block
pub mod Ledger
pub mod Merkle
pub mod Fee
pub mod Supply
pub mod Versionbits
pub mod Mmr
pub mod Target
pub mod Header
pub mod Chain
pub mod Script
pub mod Valcache
pub mod Mempool
pub mod Tests
