-- ===== src/Lib.antt =====
-- devnet.deftrack watches a DeFCoN devnet and injects faults into its lab: a server indexes the chain,
-- records the rounds in which masternode quorums form, and drives live simulation runs, in which a
-- fault is applied to nodes under a lease, observed and undone. This library models the parts of the
-- server that decide whether the lab recovers and whether the record can be trusted.
--
-- How the parts interact. A run is created and moved by events; only one run at a time may hold the
-- lock of the lab. The executor of a run asks the fault wrapper on the lab host to apply a fault and
-- to undo it; the wrapper stores every fault before it applies it, undoes those whose lease has run
-- out, and undoes all of them when it starts. Meanwhile the block sync follows the node and, when the
-- node leaves the indexed chain, rewinds the index to the fork point.
--
-- RunState models server/src/domain/simulationRunState.ts: the record of a run with its status,
-- deadlines, leases and last transition, the transitions by event (Transition), the reconciliation of
-- runs whose deadline has passed (Reconcile), the filter of server/src/domain/reconcileSweep.ts and one
-- pass of server/src/services/simulationReconcile.service.ts (Sweep), over the two hundred runs at most that
-- findReconcilableRunKeys of server/src/services/simulationMongo.repository.ts gives it. WellFormed, Laws,
-- Accepts, Overdue, OnTime and Reach prove.
--
-- RunLock models server/src/domain/liveRunLock.ts (acquire, renew and release of the one lock,
-- as functions on the stored document) and its service, whose compare-and-swap loop (Service) runs
-- against a store that other processes change between a read and a swap. Laws, Linear and Exclusion
-- prove. The loop has the bound of the source, which ends in an error that the model has too.
--
-- Netem models server/src/simulator/netemLease.ts (Netem for the jobs and actions, Args for the checks
-- of arguments and the tc vectors, Plans for planApply, planServiceStop, planDslSet, planClear,
-- planSweep, sweepExpired and planBootRecovery) and server/src/simulator/netemRunner.ts (Runner: the
-- *Locked methods, runActions, runUndos, serialise). docker and tc are the record LabHost with the laws
-- that the wrapper relies on. An operation yields every world that it passes through, so that the
-- process may die at any of them; a script says whether the record can be read, which actions land, fail
-- or throw after they landed, and which saves succeed. A boot that cannot read its record saves an empty
-- one over whatever is on, so what is said of the cover of the lab is said of boots that can read it. Faults of the daemon (class dsl) leave no mark outside it and retire by
-- the node's own height, so what is said of faults that are on is said of the other two classes. A
-- start is modelled to undo only a stop. Superset, PlanSafety, Undo, Sorting, Recovery, Boot and Life
-- prove that the record covers the lab, Restores, Repeats and Vectors the rest. State models
-- parseWrapperState and Commands parseWrapperCommand, assertLeaseInstant and dispatchWrapperCommand, over
-- the values that JSON.parse gives (Json); RoundTrips, Sendable, Ceiling, Leases and Hour prove.
--
-- Reorg models server/src/domain/reorg.ts (Reorg for reorgVerdict and rewindStep, Search for
-- findForkPoint, Index for quorumReorgReset) and of server/src/services/sync.service.ts rewindTo
-- (Index, as a list of writes between which the process may die), rollbackIfReorged, inspectRewind
-- and confirmRewind (Rollback). The node is a function of the number of the call and the height, so
-- that it may answer differently each time. The bisection has a probe for every indexed height as
-- fuel, which is shown to be enough. Bisection, Walk, Cut, Survivors and Operator prove.
--
-- Dkg models server/src/domain/dkgSchedule.ts (when a quorum round is due and what its absence means) and
-- server/src/domain/dkgWindows.ts (Windows: how an outage relates to the contribution windows of a
-- profile). Heights are at or above the quorum index; a loop over cycles that may start at -1 counts
-- one cycle ahead, and two cycles are fuel enough for the search for an anchor. Anchor, Missed and
-- Touched prove.
--
-- Actions models the steps that a plan schedules after its fault began: server/src/domain/actionLease.ts
-- (Actions, the filters and updates), server/src/services/simulationAction.repository.ts (Queue, the
-- calls on the collection, each one step, as the database performs it) and
-- server/src/services/simulationDispatcher.service.ts (Rows for scheduledActionRowsFor, Dispatcher for
-- one pass: tick, perform and settle). A pass asks for runs of the kind that RunState models. Histories
-- of calls by any workers are lists of calls (History). What the server answers and what the clock
-- shows may differ from moment to moment, and every call of a pass is answered at a moment of its own. Sound, Exclusive, Claims, Attempts, Schedule, Dispatch,
-- Passes and Held prove.
--
-- Live models server/src/simulator/liveExecutorPlan.ts: what a plan asks of the fault wrapper (Faults for
-- composeNetemArgs and labFaultsForPlan, Scheduled for scheduledLabActionsForPlan and
-- assertSingleFaultClass) and what recovery clears (Recovery for faultRecoveryTargetsForPlan). Its
-- commands are those that Netem.Commands parses, its job ids those of Netem.Plans. Covered, Deferred,
-- Services, Cleared, Stops and Accepted prove.
--
-- Dsl models server/src/domain/dslSchedule.ts and dslEnforcement.ts (Dsl, when a service commitment of the
-- Sentinel Layer may be mined and whether its verdict acts) and dslCanonicalOrder.ts (Order, whom the
-- indices of a commitment name). Boundaries, Texts and Naming prove.
--
-- Masternodes models server/src/domain/mnListDiff.ts (classifyListDiff and penaltiesAfter) and of
-- server/src/services/mnListDiff.service.ts reset, seed and the loop of walk (Walk), with the resets that
-- the block sync may make wherever the walk waits. Follow says what protx listdiff promises of the
-- penalties in two lists; it is a function of the two heights. Track, Rises, Seeded and Unseen prove.
--
-- Common has what all parts share: lists and options with native numbers, the result type with its
-- binds, texts. Instants are milliseconds in native numbers; nothing wraps, since the source checks
-- for safe integers where it reads them. SHA-256 in job ids, the random ids and the clock are
-- parameters.
--
-- Not modelled: the client, the HTTP routes and their middleware, the database models and repositories
-- beyond what is named above, the RPC and ZMQ connections, scripts and deployment, which are input
-- and output; and for now the executor of live runs and the measurement, which are logic.
mod Common
pub mod RunState
pub mod RunLock
pub mod Netem
pub mod Reorg
pub mod Dkg
pub mod Actions
pub mod Live
pub mod Dsl
pub mod Masternodes
