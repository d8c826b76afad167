-- ===== src/Blockchain.antt =====
-- The clients of blockchain nodes: runtime/plaid/src/apis/blockchain/common, which the EVM and the
-- Solana clients share.
pub mod NodeSelection
pub mod Rpc
pub mod Rotation
pub mod Retry
mod Tests
