-- ===== src/Lib.antt =====
-- The client libraries of the thUSD stability protocol and the rules of its front end: how amounts
-- are computed, read and printed, how Troves (vaults) and deposits change, which changes the front end
-- lets through, what the store of a client keeps, which view the front end shows, which transactions are populated, and
-- what is read of the chain.
--
-- Parts, bottom up. Every part uses those above it; `Base` holds what all share: Base.Lists the lists,
-- Base.Int the integers, Base.Maps the maps of entities.
--   Decimal: `class Decimal` of packages/lib-base/src/Decimal.ts. The arithmetic stands in Decimal,
--     `_fromString`, `from` and `toString` in Decimal.Text, `prettify` and `shorten` in
--     Decimal.Text.Pretty, and `class Difference` in Decimal.Difference; Decimal.Rounding, Decimal.Power and the other
--     modules below Decimal.Text hold the proofs.
--   Constants: packages/lib-base/src/constants.ts.
--   Fees: packages/lib-base/src/Fees.ts, with the bounds of the rates in Fees.Rates.
--   Trove: packages/lib-base/src/Trove.ts. Trove has the arithmetic and the ratios, Trove.Change
--     `whatChanged` and `apply`, Trove.Params the normalisation of parameters with `create`, `recreate`,
--     `adjust` and `adjustTo`, and Trove.User the user's Troves and `applyRedistribution`.
--   Deposit: packages/lib-base/src/StabilityDeposit.ts and BammDeposit.ts.
--   View: VaultViewProvider.tsx and StabilityViewProvider.tsx in packages/dev-frontend/src/components.
--     View.Dispatch has the `dispatchEvent` that the two share, View.Vault and View.Stability their
--     transition tables and effects.
--   Validation: validateVaultChange.tsx and validateStabilityDepositChange.tsx, in the same place. They
--     call `whatChanged` and `apply` of the parts above.
--   Store: `class LiquityStore` of packages/lib-base/src/LiquityStore.ts. Store.State has the state, the
--     merging of an update and the derived state, Store.Lifecycle the loading, the updates and the timer,
--     Store.Listeners the listeners and whom a change is told; its other modules hold proofs.
--   Subgraph: the event handlers of packages/subgraph/src. Subgraph.Entities has the entities of
--     schema.graphql, Subgraph.Graph the store with `Global`, users and transactions, Subgraph.Changes the
--     system state and the changes, Subgraph.Closings liquidations and redemptions, Subgraph.Counters and
--     Subgraph.Troves the Troves, Subgraph.Deposits the stability deposits and the collateral surplus,
--     Subgraph.Tokens the tokens, and Subgraph.Handlers the handler of each event. Subgraph.Frame has what
--     the operations leave alone; Subgraph.Census, Subgraph.Tokens.Transfers and Subgraph.Deposits.Order hold the
--     proofs.
--   Providers: the batching of calls in packages/providers/src/BatchedProvider.ts, with what its promises are
--     resolved with in Providers.Answers and Providers.Run, and the timer of a batch in Providers.Waiting.
--   Ethers: the transactions of packages/lib-ethers/src/PopulatableEthersLiquity.ts. Ethers.Gas and Ethers.Trials have
--     the gas that is added to estimates and the chunks of trials, Ethers.Hints the search for hints, Ethers.Transaction
--     what a transaction is and `estimateAndPopulate` of contracts.ts, Ethers.Chain what the operations read,
--     Ethers.Borrowing `openTrove`, Ethers.Adjusting `adjustTrove` and its aliases, Ethers.Redemption `redeemTHUSD`,
--     Ethers.Operations the other operations, Ethers.Receipts what becomes of a sent transaction, and Ethers.Details
--     what its logs report; the other modules hold proofs.
--   Reader: packages/lib-ethers/src/ReadableEthersLiquity.ts, with the reads in Reader, `getTroves` in Reader.Listing and
--     `getBammDeposit` in Reader.Bamm; Reader.Polled is BlockPolledLiquityStore.ts, in the same place, and Reader.Stored the
--     reader that answers from its store. Reader.Agree and Reader.Loaded hold the proofs. The store is that of Store.
--   The modules called Tests hold runs on concrete values.
--
-- Names are those of the source in the spelling of the language (`whatChanged` is `what_changed`,
-- `_divCeil` is `div_ceil`); a class is a record with its methods as functions of it.
--
-- How values are modelled.
--   A decimal is the natural number of its units of 10 ^ -18. BigNumber, of the package ethers, is taken as
--   the integers without a bound that it documents; a difference that would be negative is the error of
--   the constructor. Where the model takes a decimal for a `Decimalish`, `Decimal.from` has been applied.
--   A text that is read or printed is the list of its code points. A date is its milliseconds since 1970.
--   A call that may throw returns a `Result`; a missing property is `none`. Where the store throws in the
--   middle of an operation, what it has written stays, so its operations return the store beside the error.
--   The totals of a deposit in the B.AMM are objects, which are compared by identity.
--   The runtime's timers, React's state and the subclass's extra state of the store are parameters or
--   explicit values: `setTimeout` gives a fresh number, an updater is a function of the previous views.
--
--   The subgraph's store is a record of maps. A handler is a function of the store that gives no store
--   where the source aborts (`x!` of a null, a field that is not set, an entity that does not exist, an
--   order of a null), and the store before it is then kept. An address, a hash and a sequence number stand
--   for the identifier that their text is. An `i32` is its residue modulo 2 ^ 32. `BigInt` and `BigDecimal`
--   are taken as exact: `BigDecimal` keeps 34 significant digits, and the amounts here are whole numbers of
--   10 ^ -18, which need more only from 10 ^ 16 on. Their division cuts toward zero.
--
--   The node's answers to calls, and those of the Multicall contract, which sends the calls of a batch itself, are
--   parameters of Providers; a call is taken at the moment when its request and its block tag are resolved, and its
--   promise is the number of the call.
--
--   The contracts' answers to the operations of Ethers and to the reads of Reader, and the node's estimates of gas, are
--   parameters: Ethers reads one block, and Reader a block for each tag, `none` for the latest; a call that fails rejects the
--   promise of the operation, and is modelled for the estimates only. What `SortedTroves` and `HintHelpers` document is a
--   record of laws, which a list of two Troves meets. The seed of the random numbers is an argument. `Math.log2` and
--   `Math.sqrt` are taken exactly, and a time in minutes and a page of Troves are whole numbers. A populated
--   transaction is the method with its arguments, the value and the overrides: Ethers encodes it. An event is what the interface of
--   its contract parses of a log. The function that a truncated redemption keeps is the record of what it closes over. In
--   Ethers an address is a number and `AddressZero` is 0; in Reader it is a text.
--
-- Bounds and fuel. The loop of `pow` halves an exponent of at most 32 bits, so 32 rounds are enough.
-- Printing a number gives up one digit in each
-- round, and has one round more than the number. The loop of the trials takes off at least one
-- trial in each round, so their number is enough; the searches for a rounded logarithm and a rounded root try the numbers
-- up to one that passes.
--
-- Not modelled: the reads through `_CachedReadableLiquity`, which ask a cache before a reader; `Percent`, and `prettify` of
-- a `Difference`; texts for debugging and logging; `getBalance` of the batching provider and the providers over web
-- sockets; `getBammAllowance` and the connection of the reader, and the classes that only hand a call on; markup; the
-- client of the subgraph, and the contracts.
pub mod Base
pub mod Decimal
pub mod Constants
pub mod Fees
pub mod Trove
pub mod Deposit
pub mod View
pub mod Validation
pub mod Store
pub mod Subgraph
pub mod Providers
pub mod Ethers
pub mod Reader
