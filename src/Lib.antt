-- ===== src/Lib.antt =====
-- The core of coin_manage, a custody service for KORI tokens: the ledger that it keeps for its users,
-- how deposits, transfers and withdrawals change it, and the services around it that issue wallets,
-- guard withdrawals and deliver events.
--
-- Parts. The in-memory ledger (src/ledger/in-memory-ledger.ts) keeps accounts, wallet bindings,
-- transactions, deposits, external credits, withdrawals with their approvals, jobs, audit logs, sweep
-- records, network fees, outbox events and the state of event consumers. Each change of a deposit or a
-- withdrawal is announced by a signed contract (src/contracts/ledger-contracts.ts), which goes into the
-- outbox in the same call. Amounts are whole numbers of millionths of KORI (src/core/money.ts).
-- Virtual wallets (src/infrastructure/persistence/in-memory-virtual-wallet-repository.ts) are issued to
-- users and bound to them in the ledger. The outbox publisher and the event consumer runner
-- (src/application/services) read and write the ledger's outbox and checkpoints. The withdraw guard decides
-- on policies of addresses and on the state of the hot wallet, before the ledger is asked.
--
-- Files.
--   Base and its children: tests on numbers, lists, texts, integers (bigint), the JavaScript Map, and
--     `Action`, a computation on a state that returns a value or throws: a throw keeps what was written.
--   Money: src/core/money.ts. Contracts: src/contracts/ledger-contracts.ts.
--   Ledger.Types: src/ledger/types.ts. Ledger.State: the fields and the private helpers of
--     `InMemoryLedger`. Ledger.Accounts, Deposits, Transfers, Requests, Withdrawals, Fees, Sweeps, Jobs,
--     Audit, Outbox, Consumers, Summary: its methods, under their names in snake case.
--   Ledger.Calls: the 36 methods that can change the state as a data type, one call and a sequence of calls.
--   Ledger.Frames: what the helpers that move money leave alone. Ledger.Solvency: balances and what
--     backs them. Ledger.Lifecycle: withdrawals as a step relation, approvals and limits.
--   Ledger.Repeats: calls made again. Ledger.Accounts.Bindings, BindingRuns: the maps of wallet bindings.
--   Ledger.Conservation: what is owed, what came in and what was paid. Ledger.Outbox.Counts: the outbox
--     summary.
--   VirtualWallets.Types, Store, Repository (with Marks): the repository of virtual wallets; Calls: its
--     calls; Heaps, Creation, Keeps, Run: its invariant; Issues: repeated and failed issues; Policy and
--     Service: src/application/services/virtual-wallet-lifecycle-policy-service.ts, virtual-wallet-service.ts.
--   Workers.Breakers, OfflineBreaker: src/application/services/simple-circuit-breaker.ts,
--     offline-pay-settlement-circuit-breaker.ts. Workers.Consumer, ConsumerRuns, ConsumerFrames:
--     event-consumer-runner.ts.
--     Workers.Publisher, PublisherCycles: outbox-publisher-worker.ts.
--   Withdraw.Policy: policies of addresses. Withdraw.Guard, GuardLaws: withdraw-guard-service.ts.
--     Withdraw.Queue: src/infrastructure/queue/in-memory-withdraw-job-queue.ts. Withdraw.Status: the status
--     that others are shown (src/domain/ledger). Withdraw.Sync, SyncFrames, Service, Broadcasts:
--     withdraw-service.ts, with the event bus (src/events/event-bus.ts) and the consumer of withdrawals
--     that src/container/create-app-dependencies.ts subscribes to it. Withdraw.Approval, Approvals,
--     Reconcile: approvals and reconciliation, with the job that reconciles. Withdraw.Dispatch,
--     Dispatches: withdraw-dispatch-worker.ts.
--   The Tests modules run the model on a small ledger.
--
-- Correspondence. A method is a function to `Method`, a state passing computation that may throw. The
-- code changes objects in place; the model writes the changed record back under its key, at the
-- point where the code changes it, so that an exception leaves the same state behind. A method
-- that copies an object before it returns it returns the record. Times that default to the clock are an
-- argument of each method. The lock of `withLock` runs one method at a time, hence a run is a list
-- of calls with their times. The objects that the maps of the virtual wallets share are references into
-- a heap. An asynchronous cycle or run of a worker is one function: nothing else runs meanwhile.
--
-- Parameters. `Host` in Contracts stands for what is not in the repository: `randomUUID` (its n-th
-- result), `toUpperCase`, `Date`, the HMAC, the identity of the system, the limits of the configuration,
-- and the schemas of zod, as tests on a payload. Where a theorem needs it, its ids differ or are not
-- empty. Handlers, the publisher of the outbox, clocks, the blockchain gateway, and the cipher and the client of virtual
-- wallets are arguments of the definitions that use them.
--
-- Fuel. The drain of the job queue takes one unit for each job. The attempts of an event consumer count
-- down from the configured maximum. `to_text` in Money writes a number with fuel n + 1, and a number n
-- has no more digits. Every other recursion is on the structure of a list or a text.
--
-- Not modelled: parseKoriAmount (floating point), journal entry contracts, order by locale (texts are
-- compared by code points, as timestamps allow), timers, overlapping drains of the job queue, the
-- details that errors carry, requests in the withdraw service (their risk is a number with a fraction),
-- the event bus with other subscribers, the other services, HTTP routes, the PostgreSQL repositories
-- and the adapters to blockchains and other systems.
pub mod Base
pub mod Money
pub mod Contracts
pub mod Ledger
pub mod VirtualWallets
pub mod Workers
pub mod Withdraw
