-- ===== src/Lib.antt =====
-- Indexers of the Autonolas contracts: seven of the squids under squids/, each a program that reads
-- the decoded logs of a chain, in order, and keeps rows of a database.
--
-- The parts, and where they are modelled:
--   * Tokenomics: squids/tokenomics/src/handlers.ts. `handle_transfer` is `handleTransfer`, split
--     where the code splits: `move_supply`, `debit` (the sender, which can throw) and `credit` (the
--     recipient, whose row is loaded after the sender's is saved). An error is a value of `Result`.
--     Tokenomics/Overdraft: what stops a batch.
--   * Pearl: squids/pearl-transactions/src, the ledger of the Pearl wallets.
--     - Pearl/Model and Pearl/State: constants.ts, the rows of model/generated, and `Ctx`.
--     - Pearl/Classify, Pearl/BondQueue: `classifyTransfer` and `BondQueue` of logic.ts.
--     - Pearl/Ledger, Pearl/Transfer: token rows, balances, funding events and `handleTransfer`.
--     - Pearl/Safes: services, Master Safes, Agent Safes, and `upsertTracked` of entityCache.ts.
--     - Pearl/Bonds, Pearl/Registry, Pearl/Staking, Pearl/Execution: the other handlers of
--       handlers.ts, by the contract that emits the log.
--     - Pearl/MultiSend: `unpackMultiSend` of logic.ts, and a packing to compare with.
--       Running out of fuel is an outcome of the loop apart from bad input.
--     - Pearl/Events: the dispatch and the loop of main.ts, an `Event` for each decoded log.
--   * Polymarket: squids/predict-polymarket/src, the bets of trader agents and what they earn.
--     - Polymarket/State: the rows of model/generated, `getGlobal` and the day's statistic.
--     - Polymarket/Brier: brier.ts. Polymarket/Trade, Resolution and Redemption:
--       `processTradeActivity`, `processMarketResolution` and `processRedemption` of logic.ts.
--     - Polymarket/Registry, Fills and Results: handlers.ts, with resolution.ts.
--     - Polymarket/PositionId: positionId.ts, on texts of hex digits; the key of a row is the number
--       that its text is read as.
--     - Polymarket/Decode: decode.ts. Polymarket/Events: the dispatch and the loop of main.ts.
--     - Polymarket/Events/Kept: from what the steps that write to the accounts keep to what a batch
--       of logs keeps; Ledger, Days, Scores and Finality use it, and Polymarket/Cases before it.
--   * Staking: squids/staking/src. Staking/State: the rows. Staking/History: histories, snapshots and
--     the median. Staking/Handlers and Staking/Checkpoint: handlers.ts. Staking/Events: dispatch.ts and
--     the loop of main.ts. Staking/Books: what the totals of the squid say of the services.
--   * Services: squids/service-registry/src, the services, their multisigs and what they execute.
--     - Services/Recent: `mostRecentAgentId` of logic.ts. Services/Registry and Activity: handlers.ts.
--     - Services/Events: safeLogs.ts and the loop of main.ts, by blocks. Services/Templates: what
--       graph-node does with one template for each Safe, which the loop is compared with.
--     - Services/Counts: the counts of the squid and the rows that they count.
--   * Liquidity: squids/liquidity/src, the fees, supply and reserves of the pools. Liquidity/State: the
--     rows and logic.ts. Liquidity/Metrics, Transfers and Swaps: handlers.ts. Liquidity/Events: the
--     loop of main.ts. Liquidity/Books: the fees by day and the supply.
--   * Marketplace: squids/marketplace/src, the requests to mechs, their deliveries and the fees.
--     - Marketplace/Fees: fee.ts. Marketplace/Books: what each handler adds to the row of the totals
--       and of the sender. Marketplace/Mechs, Registry, Requests, Deliveries, Signed, MechRequests and
--       Direct: handlers.ts, by what the log is about and how it comes.
--     - Marketplace/Events: the dispatch and the loop of main.ts.
--     - Marketplace/Tally: the totals of the squid and the rows of the senders. Marketplace/Finality:
--       what writes the row of a request. Marketplace/Links: the mechs and the rows of their services.
--   * Shared: squids/_shared/src. Shared/Cache: the cache of entityCache.ts, with the database as the
--     interface `StoreLike`; Shared/Cache/View: the cache as one map, which is what the other parts
--     take a cache for.
--   * Prelude: numbers, lists, integers, results, keyed tables, and rows that stand for a group of the
--     rows of another table (Prelude/Groups).
--
-- How the state corresponds: the cache is one `Table` for each entity class, read and written by
-- key, and a handler is a function from the state before to the state after. A relation is the key
-- of the row it names. Addresses, hashes, service ids, days and token symbols are numbers, since
-- the code only compares them, and the zero address is 0; a composed text id is the tuple of the
-- numbers that the text joins, with a tag where one class has several kinds of id. Amounts of
-- events are natural numbers (a uint256 is never negative), balances are integers, and nothing
-- wraps, as with a bigint. Every loop is over a list of the event or the state,
-- but for `unpackMultiSend`, whose fuel is the number of digits of its text: each round takes 170 of them
-- or more; and for the printing of a number in hex digits, whose fuel is the number, which has no more
-- digits than that.
--
-- What comes from outside the program is a parameter: the configuration of the chain and the
-- owners and threshold of a Safe at a block (`Chain`; `none` where the call reverts), the address
-- of the MultiSend deployment, and the decoded call of a transaction (`Tx.call`), with the native
-- legs of a batch that unpacks.
--
-- In the Polymarket part, so are the addresses that a handler compares with, the token of an outcome
-- and the condition that a market was migrated from (`Chain`), and what ancillary.ts finds in a text
-- (`MarketText`). A trader service is the address of its multisig, once there is one.
--
-- In the Staking part, so are a contract's configuration and the OLAS that is locked for a service.
--
-- In the Services part, so are the texts that a handler compares with and the reading of a text as a
-- number (`Texts`); the Safes that are known before the batch are part of its state.
--
-- In the Liquidity part, so are the readers of the pools, each `none` where a call reverts, and the price
-- of the native token (`Ctx`). A pool id is a number, whose first 20 bytes are the address. A row that
-- is changed in place is read so by the rest of the batch; an id that is set in place on a row which the
-- batch never saves is lost at the flush, which `run` ends with.
--
-- In the Marketplace part, so are decimal numbers, with the operations of the library that fee.ts calls
-- (`Decimals`), and the answers of the chain. The rows of events that nothing reads again are in one
-- table, by the id of the log.
--
-- Left out: logging, the columns that are constant (the network, the source of a bond row) or
-- repeat the key, `writeIndexerStatus`, the database
-- behind the cache with its flush order, routing of raw logs by address and topic, failures of an
-- RPC node (they end the batch), the decoding of ABI arguments, the other squids (mech-fees, whose
-- sums are decimal numbers, and babydegen), and the subgraphs.
pub mod Prelude
pub mod Tokenomics
pub mod Pearl
pub mod Polymarket
pub mod Services
pub mod Liquidity
pub mod Marketplace
pub mod Staking
pub mod Shared
