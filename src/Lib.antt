-- ===== src/Lib.antt =====
-- withdraw-bot watches a position in a Morpho vault and, when a monitor reports an urgent finding,
-- withdraws all of it by one transaction. This library models the core of the program, the Go code
-- under internal/, and proves what it promises.
--
-- The parts, and how they interact. The monitor service (internal/monitor/service.go) runs its
-- modules (internal/monitor/modules/morpho) round by round, stores their results and hands them to
-- the alerts (internal/app/alerts.go). For each urgent finding the alerts send a message and call
-- the withdrawal service (internal/withdraw/service.go), which asks its adapter
-- (internal/withdraw/morpho_adapter.go) for the position, for a simulation and for the transaction
-- of the full exit, prices it by the gas policy (internal/withdraw/gas.go), has it signed, and
-- sends it. Modules and adapter read the vault by internal/morpho (abi.go, vault_client.go and the
-- vaultReader of factory.go), over the client of internal/ethereum/client.go, which falls back from
-- one node to the next. The values that they exchange are those of internal/core.
--
-- The files.
--   Prelude   Boolean tests, native lists, the integers (`*big.Int`, and int64 with its
--             wrap-around), texts, and the library names that the other files share.
--   Errors    Go's errors: `errors.New`, `%w`, `errors.Join`, `errors.Is`, the sentinels, and
--             results `(value, error)`.
--   Core      internal/core: ids.go, status.go, types.go. Core/Status has the proofs.
--   Ethereum  internal/ethereum/client.go: MultiClient, DialMulti. Proofs in Failover and Dial.
--   Vault     Client: VaultClient and PackRedeem. Reader: vaultReader of internal/morpho/factory.go.
--   Gas       internal/withdraw/gas.go: FeeCaps, GasPolicy, BumpChecked. Proofs in Bump.
--   Withdraw  internal/withdraw/service.go. Types: its data and interfaces. Fees: nonceAndFeeCaps,
--             initialFeeCaps, bufferedGas, buildDynamicFeeTx. Attempts: recordAttempt. Submission:
--             validateExecuteConfig, and building, signing and sending. Execute: ExecuteFullExit
--             and DryRunFullExit. Proofs: Pricing (fees), Outcomes and Runs (all that one execution
--             can do), Preparation, Safety, Budget, Sequences (many executions), Liveness, DryRuns.
--   Adapter   internal/withdraw/morpho_adapter.go. Proofs in Requests and Exits.
--   Signer    internal/signer/signer.go: PrivateKeyService. Proofs in Keys.
--   Config    internal/config/units.go: ParseDecimalUnits, ParseGwei, ValidateBPS. Values: the
--             readers of module_helpers.go. Settings: config.go and env.go. Proofs in Digits and
--             Decimals (amounts) and Validation.
--   Modules   SharePrice, Liquidity, VaultState: the three modules. Proofs in LossBps, Prices,
--             Exits, Comparisons, Drift.
--   Monitor   internal/monitor/service.go: RunOnce, Snapshot, RunLoop. Proofs: Turns (what a run
--             reports), Latest, Foreign, Failures and Owned (what its error holds), Handling (the
--             result handler), Loop.
--   Alerts    internal/app/alerts.go: HandleMonitorResults, HandleUrgent. Proofs in Urgency. Exits:
--             the handler over the withdrawal service, with its proof.
--   Storage   internal/storage/repositories.go: InsertPendingConfirmation and
--             consumePendingConfirmation. Thresholds: UpsertThresholdOverride and
--             ListThresholdOverrides. Events: InsertEvent and ListRecentEvents. Records:
--             InsertMonitorResult and InsertWithdrawalAttempt. Proofs in Confirmations,
--             OverrideRows and RecentEvents.
--   Factory   internal/morpho/factory.go: BuildModules and the builders of the modules. Proof in
--             Slots.
--   Overrides internal/morpho/overrides.go. Values: the parsers. Apply: ApplyOverrides. Change:
--             ValidateThresholdChange. Proofs in Commutation, Validity and
--             Accepted.
--   Telegram  internal/interactions/telegram. Commands: commands.go and thresholds.go. Types,
--             Dispatch and Service: service.go. Formatter: formatter.go. Proofs: Bounds (responses),
--             Privacy (who is refused), Polling (the offsets).
--   Providers internal/app/providers.go and overrides.go. Database: the state and the wrapper of a
--             module. Thresholds: BuildSetConfirmation and Confirm. Listing: List. Logs: Recent.
--             Proofs in Requesting and Confirming.
--   Reports   internal/reports/report.go: RenderStats. Proof in Determinism.
--   App       internal/app and cmd/withdraw-bot. Mode: mode.go, config_check.go, bootstrap.go.
--             Runtime and Services: runtime.go. Run: app.go and main.go. Proofs: Opening and
--             Released (resources), Checking, Budget (fee caps of the configuration), Mistakes.
--   Tests     a small world of nodes, a vault and a signer, and the theorems at concrete inputs.
--
-- How the code is modelled. An operation that changes state is a function from state to state. The
-- state of the withdrawal service is its pending withdrawal, together with two lists that only the
-- model keeps: the transactions handed to `SendTransaction`, also where it answers an error, and the
-- attempts that were stored. The service's mutex makes an execution one step. The environment of an
-- operation (clock, nodes, repository, signer, modules) is a record of what it answers in one call,
-- so a sequence of calls takes one such record for each, and nothing ties their answers together.
-- Values are immutable, so `Clone` is the identity. A nil pointer is `none`. Context cancellation
-- shows as the errors that the environment may answer. An address, a hash and a time are numbers;
-- a time is in nanoseconds, and `Time.Sub` saturates at the bounds of int64.
--
-- Each table of the database is a list of rows and the state of its operations. A transaction is one
-- step, as SQLite runs one writer at a time, and one that is not committed changes nothing; the
-- errors of the driver are parameters. The times of confirmations and overrides, which are stored as
-- texts, are the numbers that they spell; the times of events are kept as texts, because the code
-- orders the events by these texts.
--
-- The Telegram service changes nothing of its own: its state `W` is that of the services that it
-- calls, which every operation takes and returns. A loop over updates runs over the list of what it
-- will find, and says how it ended, or that it is still running at the end of the list.
--
-- Bounds and fuel. Integers are unbounded where the code has `*big.Int`; where it converts to int64
-- or uint64 the wrap-around is written out. Loops are structural recursion, over lists or over the
-- number of their rounds; only the decimal print runs on fuel, the number itself, which is at
-- least the number of its digits.
--
-- Parameters. Of go-ethereum: the answers of a node, ABI packing and unpacking, the hexadecimal
-- texts of addresses and bytes, and `types.SignTx` (where a property needs it, a hypothesis says that
-- it keeps the transaction that it signs). Of Go's standard library: the layout of times
-- and their texts, the texts of errors, `time.ParseDuration`, and JSON. Of the YAML library: the value
-- that a file holds. Of Telegram: the updates that it answers with, and whether a message is sent.
--
-- A run of the program keeps, in the model, how many clients, logs and databases it has open. Its
-- two goroutines are modelled by how the one that ends first ends.
--
-- Not modelled: the two loops of a run side by side, the wiring of the monitor service to its storage
-- and alerts, the opening of the database file and its migrations, and the JSON logger.
pub mod Prelude
pub mod Errors
pub mod Core
pub mod Ethereum
pub mod Vault
pub mod Gas
pub mod Withdraw
pub mod Adapter
pub mod Signer
pub mod Modules
pub mod Monitor
pub mod Alerts
pub mod Tests
pub mod Config
pub mod Storage
pub mod Overrides
pub mod Factory
pub mod Telegram
pub mod Providers
pub mod Reports
pub mod App
