-- ===== src/Invariant/Side.antt =====
-- The tables that the invariant leaves aside: items, inventories, listings and the log.
use dragon_market.Base.{ℕ, List}
use dragon_market.Repository.Rows.{Item, Inventory, Listing, TransactionLog}
use dragon_market.Repository.Db.{Db}
use dragon_market.Invariant.{IsSound}

abbrev pub beside :
    List Item → List Inventory → List Listing → List TransactionLog → ℕ → ℕ → ℕ → ℕ → Db → Db
beside items inventories listings logs i v l k d = record d {
  items = items;
  inventories = inventories;
  listings = listings;
  transaction_logs = logs;
  next = record (d.next) { items = i; inventories = v; listings = l; transaction_logs = k };
}

pub beside-IsSound :
    (items : List Item) (inventories : List Inventory) (listings : List Listing)
    (logs : List TransactionLog) (i v l k : ℕ) (d : Db)
    → IsSound d
    → IsSound (beside items inventories listings logs i v l k d)
beside-IsSound items inventories listings logs i v l k d s = record {
  pouches = s.pouches;
  members = s.members;
  pouches_distinct = s.pouches_distinct;
  bids_distinct = s.bids_distinct;
  bids_below = s.bids_below;
  bids = s.bids;
  auctions_below = s.auctions_below;
  auctions_distinct = s.auctions_distinct;
  auctions = s.auctions;
  balanced = s.balanced;
}
