-- ===== src/Quota.antt =====
-- src/quota.rs: settings, the pricing engine, the accounts and their ledger.
pub mod Rate
pub mod Settings
pub mod Pricing
pub mod LedgerMeta
pub mod Accounts
