-- ===== src/Inclusion.antt =====
-- scripts/forensic/ethereum_receipt_inclusion.py: one transaction and its receipt are checked
-- against a block header that a pinned context vouches for.
pub mod Bytes
pub mod Libraries
pub mod Trie
pub mod Receipt
pub mod Header
pub mod Transaction
pub mod Context
pub mod Case
mod Toy
mod Examples
