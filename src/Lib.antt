-- ===== src/Lib.antt =====
-- DragonMarket: guilds buy listed items and bid for legendary ones at auction, with gold that each
-- guild keeps in one pouch. A bid holds its amount in reserve; a settlement pays the highest bid
-- and frees the others.
--
-- The parts and where they are modelled:
--   Clock                 the calendar functions of internal/service/goldpouch_service.go, and time
--                         as a number of nanoseconds since 1970
--   Repository/Rows       the structs and enums of internal/repository, one record per table
--   Repository/Db         the tables and their sequences, the error values, and a transaction: `Tx`
--                         passes the database on explicitly, `run_tx` is Begin, the body and Commit
--                         or the deferred Rollback
--   Repository/Tables     SELECT, UPDATE and DELETE on a table as a list in the order of its ids
--   Repository/Keys       keys, sums over a table and what each statement does to them
--   Repository/*          one module per file of internal/repository: a statement with the CHECKs,
--                         unique indexes, triggers and foreign keys of its table (migrations/*.sql)
--   GoldPouch             GoldPouchService: Reserve, Release, Settle, Credit
--   Auction               AuctionService: PlaceBid and CancelBid
--   Auction/Opening       AuctionService: CreateAuction, GetAuction and ListActiveAuctions
--   ItemService           ItemService: CreateItem, GetItem, ListItems and PurchaseItem
--   Wallet                WalletService: GetWallet
--   Ledger                an abstract ledger of accounts, and GoldPouchService beside it
--   Oracle                internal/oracle: the updater, the cache over a store that is a parameter,
--                         and the mock
--   Settlement            Settler: Tick and SettleAuction
--   Strconv               ParseInt, Atoi and FormatInt of Go's strconv, as the program uses them
--   Config                internal/config
--   Api                   internal/api: the handlers, the middleware, the errors and the routes, over
--                         interfaces that the services fill
--   System                the program as a whole (cmd/server/main.go): requests, settlements and
--                         rounds of the updater in any order
--   Invariant             the soundness of a database: the schema's rules, and that what a
--                         guild's pouch holds in reserve is the sum of its ACTIVE bids
--   Invariant/History     how the rows of auctions and bids may change
--   Atomic                how a transaction's body ends, and what that makes of the transaction
--   Tests                 a small market, its runs, and an instance of each result
--
-- A service method takes the readings of time.Now() that its code makes as arguments, and the
-- behaviour of its connection (`Connection`: whether Begin and Commit succeed). A statement in
-- between fails for the reasons that the schema gives. Each method runs in one transaction whose
-- row locks are held to its end, so concurrent calls are modelled as calls in some order; a sweep
-- is a list of transactions, each of which may fail.
--
-- Numbers: an id is only compared. A column with a CHECK (… >= 0) is a natural number, an amount
-- from a request an integer. INTEGER columns hold up to 2 ^ 31 - 1: a larger value is refused as an
-- error of the driver. Amounts are below 2 ^ 31 wherever they are multiplied or added, so the int
-- of the source, of 64 bits, does not wrap around. There is no fuel: every loop is over a list.
--
-- Requests: gin finds the route and decodes the JSON body, so a request comes with its route, its
-- parameters as texts and, for each type of body, what the decoder makes of it. The ids in it are
-- int64; a negative one is taken by its bits, which are past every id that a sequence hands out.
--
-- Not modelled: start-up (but for the mock oracle that the server configures), the migration runner,
-- logging, the text of errors, and a connection that breaks between Begin and Commit. The package
-- go-cache is a parameter with the behaviour that it documents.
pub mod Base
pub mod Clock
pub mod Config
pub mod Strconv
pub mod Repository
pub mod GoldPouch
pub mod Auction
pub mod ItemService
pub mod Wallet
pub mod Ledger
pub mod Oracle
pub mod Settlement
pub mod Api
pub mod System
pub mod Atomic
pub mod Invariant
pub mod Tests
