-- ===== src/Tests.antt =====
-- Runs of the market on a small database, and an instance of each result.
pub mod Market
pub mod Auctions
pub mod Pouches
pub mod Shop
pub mod Opening
pub mod Prices
pub mod Api
pub mod Ledger
pub mod Settling
