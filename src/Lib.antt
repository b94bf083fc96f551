-- ===== src/Lib.antt =====
-- Verification of the news agent of `src`: a service that researches news, drafts articles with AI
-- providers, has them reviewed in Telegram or approved automatically, and publishes them to a
-- channel. Its TypeScript parts are use cases that talk to PostgreSQL, to Telegram and to AI
-- providers through injected ports.
--
-- How the parts interact. The scheduler's loop (`src/scheduler/news-scheduler-worker.ts`) runs one
-- occurrence after another; an occurrence (`src/scheduler/application/run-scheduled-news-once.use-case.ts`)
-- claims a due schedule, runs the research under a pipeline lease, saves the draft as a checkpoint,
-- and delivers it for review or has the editorial workflow publish it. The job worker
-- (`src/telegram/telegram-news-job-worker.ts`) does the same for jobs that an operator asked for. The
-- editorial use cases (`src/editorial/application`) create review drafts, publish approved ones behind
-- the excluded-topic policy, and reconcile publications that an operator looked up. Evidence is
-- corroborated first (`src/editorial/corroboration`). All AI calls go through the fallback cascade
-- (`src/ai/ai-provider-composition.ts`). The poller (`src/telegram/telegram-polling-worker.ts`) takes
-- Telegram's updates in order and hands them to the application, where an administrator's review
-- (`src/telegram/application`) decides what the editorial workflow publishes. Each publication may have
-- a milestone message (`src/publication-milestones`). The coordinator
-- (`src/runtime/runtime-coordinator.ts`) starts the workers and shuts them down.
--
-- Files:
--   Prelude, Prelude/Tests, Prelude/Lists, Prelude/Text, Prelude/Dict: shared names and lemmas.
--   Effects, Effects/Rules: asynchronous methods as actions that return or throw, with a trace of
--     the calls of the ports, and the rules for what holds of their results.
--   Editorial: the rows, ports and errors of the editorial use cases.
--   Editorial/Identifier: `safeIdentifier`.
--   Editorial/Publish: `PublishApprovedDraftUseCase.execute`; a round of its loop is `round`, the loop
--     `rounds`, the delivery `deliver` and `finish`. Below it: Gate (what claims and what does not),
--     Safety, FailClosed, Settlement.
--   Editorial/Review: `GenerateReviewDraftUseCase.execute` as `generate`,
--     `ReconcilePublicationUseCase.execute` as `reconcile`; Contracts has the proofs.
--   Editorial/Corroboration: `EvidenceCorroborationService.corroborate`; below it: Independence (the
--     searches), Publishers, Verdicts, and SafeCode (`errorCodeOf`).
--   Telegram/NewsJobs: `TelegramNewsJobWorker.runOnce`, `execute`, `deliver` and the heartbeat; below
--     it: Outcomes and Heartbeat.
--   Telegram/Updates: `classifyTelegramUpdate`; Terminal has the proofs.
--   Telegram/Polling: errors, ports and state of the poller, `classifyUpdateError` and `retryDelay`;
--     Telegram/Polling/Batch is the body of its loop over a batch, Telegram/Polling/Loop the wait for
--     the lease, the poll loop and the release. Below them: Relations (rules for what a batch or the
--     loop keeps), Cursor, Requests and Leases, and Asks, Lease and Waiting.
--   Telegram/Reviews: the contracts of a review; Callback: `reviewMarkup` and `REVIEW_CALLBACK`; Decide:
--     `DecideTelegramReviewUseCase`; Deliver: `DeliverTelegramReviewUseCase`. Below them: Authority and
--     Controls.
--   Telegram/Control: `HandleTelegramControlUpdateUseCase` with its audit; Guards and Durable have the
--     proofs.
--   Ai/Breaker: the circuit breaker; Ai/Delay: `retryDelayMs`; Ai/Deadlines: the tables of deadlines;
--     Ai/Cascade: the cascade's `execute` and `runAttempt`; below them: Streaks, Tables, Spending,
--     Requests, Later, Failover and Single (`executeOnce`). The cascade takes the deadlines as a function, which
--     `deadline_for_provider_ms` is.
--   Scheduler/Backoff, Scheduler/Worker: `newsSchedulerBackoffDelay` and `runNewsSchedulerLoop`; Pace
--     has the proofs.
--   Scheduler/Errors, Scheduler/Contracts, Scheduler/Ownership, Scheduler/Audit, Scheduler/RunOnce:
--     `errorCode`, the claim and its checks, `OwnershipHeartbeat`, `LegacySchedulerAuditAdapter` and
--     `RunScheduledNewsOnceUseCase`; below them: Counting and Stopping (what
--     actions do to the calls and to the heartbeat), Kept, Lease, Silent, Publishing,
--     Steps, Timers, Unresolved.
--   Runtime/Coordinator: `RuntimeCoordinator`, each method up to its first `await`, and what it does
--     when a promise settles; Ending: `stopAll` after its first `await`; Steps: the order in which these
--     can happen, as a relation; Phases, Startups and Deadline have the proofs.
--   Milestones: `PublicationMilestonesService`; Settlement has the proofs.
--   The modules named Tests: concrete ports and inputs.
--
-- The state. An action takes the world outside, with the calls made so far, and gives both back when
-- it returns or throws. A port is a function of the world, so a statement over all ports covers every
-- answer, failure and delay of the database, of Telegram and of the providers. Code that the abort
-- signal interrupts sees it in the world, at each place where the code looks at it.
--
-- Bounds. The publication's loop runs at most twice and the cascade asks a provider at most three
-- times, as in the code: both are recursions on those numbers. The scheduler's loop runs until it is
-- aborted, so `loop` takes the number of iterations to look at, and the theorems hold for each number.
-- The two loops of the poller do so too; for its wait the number that is enough follows from the
-- timeout. The coordinator's steps come in any number. All other loops go through lists. Instants
-- and durations are natural numbers of milliseconds; `Math.random()` is a multiple of 2 ^ -53.
--
-- Concurrency. The promises of the coordinator settle in any order: each is a step. In the poller the
-- loss of the lease, which a heartbeat notices, is an error that any raced call may throw, and an abort
-- is seen wherever the code looks at the signal.
--
-- Not modelled: PostgreSQL and its functions, the HTTP adapters and the texts of log lines, the parsers
-- of URLs, dates and JSON, the legacy JavaScript runtime, dependency injection and process start; of
-- the occurrence the validation of the claimed settings, which is a port; of the cascade the
-- sequential fact search and the classification of errors; of the poller the worker that starts and
-- stops it; of the control updates the parser of commands and the features that are not reviews.
pub mod Prelude
pub mod Effects
pub mod Editorial
pub mod Telegram
pub mod Ai
pub mod Scheduler
pub mod Runtime
pub mod Milestones
