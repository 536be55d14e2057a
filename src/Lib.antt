-- ===== src/Lib.antt =====
-- The durable job mechanism of packages/durable-work: one row per job in Postgres, workers that run
-- a job slice by slice under a lease, a reconciler that repairs what nobody drives, and a service
-- that starts, cancels and re-drives; and the data sync of packages/data-sync-durable on top of it.
-- Paths below are under packages/durable-work/src/core, unless they name another folder.
--
-- What is modelled, and where:
--   Types, Errors     types.ts, errors.ts: the row `DurableJob`, settings, thrown values.
--   Store             store.ts: each `update … where id = $1 … returning` is a `Statement`, a guard
--                     and a new row (Store/Lease, Settle, Redrive), run by `Store.Table.update`;
--                     insert and the unique indexes of schema.ts (Store/Create); the reconciler's
--                     selections and the list (Store/Select).
--   Protocol          the database as a transition system: `Step` runs one statement of store.ts or
--                     lets time pass, `Reach` is any sequence of them.
--   Registry          registry.ts: kinds, settings, delays. A step of a kind is a `Script`, a tree
--                     of the calls that it makes on its `SliceContext`, with both ways on after a
--                     call that may throw.
--   World             what asynchronous code runs in. Before each statement or transaction
--                     `pause` lets time pass and lets the others act (`Environment.others`).
--   Terminal          terminal.ts: `runTerminalTransition` and `runAfterTransition`.
--   Slice             run-slice.ts: `runSlice`, `makeContext` and the ends of a slice.
--   Queue, Worker     worker.ts: `enqueueJob`, `loadJob`, the handler of a delivery and the queues
--                     that `startWorker` binds.
--   Reconciler        reconciler.ts: `reconcileOnce` and the repairs.
--   Service           service.ts: `start`, `startAndEnqueue`, `cancel`, `redrive`.
--   Ids               ids.ts: delivery identities and their parser, queue names, idempotency keys.
--   Transport         src/transport/memory.ts: the in-process transport as a state and its events;
--                     pgboss.ts and bullmq.ts: the adapters as what they call of their brokers, and
--                     what becomes of a delivery when its handler ends.
--   Host              src/om/in-process-worker.ts: the start of a worker in the host's process, its
--                     retries and its shutdown; src/om/sql-executor-mikro.ts: `toPositional`;
--                     src/modules/durable_work/lib/route-helpers.ts: what the screen derives;
--                     src/modules/durable_work/api/jobs/[id]: the operator's routes of a job;
--                     src/om/config.ts: the configuration and the transport that comes of it.
--   DataSync          packages/data-sync-durable/src, engine/durable-run.ts and
--                     kinds/data-sync-run.ts: the host's engine is a tree of the calls that it makes
--                     on its services (`Engine`), which `decorate` turns into a step of the slice
--                     runner; the mirror of a run's status, the re-open, the replay after the end;
--                     modules/data_sync/lib: the start of a run and the adoption of a delivery;
--                     modules/data_sync/api: the wrapped run and cancel routes.
--   System            a process as a sequence of deliveries, passes and calls.
--   Tests             concrete inputs.
--
-- Conventions. Ids, texts, owners and times are natural numbers; times are milliseconds of the
-- database's clock. An empty text is 0. A transaction's first statement locks its row, so a
-- transaction is one step of the model and its rollback restores the table and the host's domain
-- state, which is the parameter `D`; the callbacks of a kind are parameters too. A deletion of rows
-- is not in the code and not in the model. Scripts are finite trees and every other recursion is on
-- a list, but for the decimal numeral of a number n, which takes fuel: n + 1 is enough
-- (Ids.Decimal.decimal-IsNumeral). The screen reads the process's clock, which need not agree with
-- the database's.
--
-- Not modelled: logging; the code of the brokers (what an adapter calls of them is recorded, what they
-- answer is a parameter), the start of a pg-boss instance and calls of a broker that fail; between
-- the mechanism and a transport, where `World` records what is published, the delay and the retry
-- settings; the decoding of a driver's rows; the stop of a worker; the timers and handlers of the
-- in-process transport, which appear as events; what a Redis URL says; the mirror of progress to the
-- host's service; a kind's `classify` that throws, and a signal that is aborted before the slice
-- listens to it; numbers of 2 ^ 53 and more; the host's services and its own routes, which are the
-- records `Core`, `StartServices` and `RouteServices`; the list route, the screens and the wiring
-- of both packages; apps/sandbox, harness and scripts.
pub mod Common
pub mod Types
pub mod Errors
pub mod Store
pub mod Protocol
pub mod Registry
pub mod World
pub mod Terminal
pub mod Slice
pub mod Queue
pub mod Reconciler
pub mod Service
pub mod Worker
pub mod System
pub mod Tests
pub mod DataSync
pub mod Ids
pub mod Transport
pub mod Host
