-- ===== src/Repository.antt =====
-- The database: internal/repository and the schema of migrations/. A table is the list of its
-- rows in the order of their ids; each repository method is the meaning of its SQL statement.
pub mod Tables
pub mod Keys
pub mod Rows
pub mod Db
pub mod GoldPouches
pub mod TransactionLogs
pub mod Bids
pub mod Auctions
pub mod Inventories
pub mod Listings
pub mod Items
pub mod Characters
pub mod Guilds
