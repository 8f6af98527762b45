-- ===== src/Lib.antt =====
-- Models and proofs for the core of market-memory, a research lab that moves investment theses
-- through gates, sizes paper trades, and publishes desk packs.
--
-- The parts and how they interact. A thesis lives in a workspace of markdown files. The research
-- kit (packages/research_kit) owns its status: the state machine decides which move is legal, the
-- lifecycle checks the files of the workspace and writes the new status, the skeptic review
-- records a verdict and moves the thesis. The risk engine (packages/risk) answers an intent with
-- allow or block. The desks (packages/desks) run a day: they log transitions and apply them to the
-- workspace, stamp theses at the skeptic gate, keep envelopes of results, and claim work from the
-- improvement queue. The paper ledger (packages/paper) opens a trade in a workspace and advances
-- its thesis. The delivery (packages/delivery) posts packs to Telegram behind its gates. The
-- scheduler of the desks stamps the fires of routines with their anchors, and its sweep reports
-- the windows that nothing answered. The backtest (packages/backtest) replays bars at the instants
-- at which they became known. The http helpers (packages/common) retry what may be retried. A fire
-- that the command line records is stamped and leaves a file, which the sweep reads, and a row of
-- the heartbeat table; a delivered anchor leaves a receipt, which stops a second delivery. The
-- memory (packages/memory) keeps one observation of a claim and links the ones that contradict
-- each other, and the ingest (packages/ingest) says which values a licence lets the lab publish.
--
-- Which file models which part:
--   Prelude: names of the libraries, tests on numbers and texts, the results of calls that may
--     raise, dicts, integers, and the text functions strip, lower and upper.
--   Research/Enums, Research/Errors, Research/StateMachine: packages/common enums.py, errors.py
--     and state_machine.py. validate_transition reads its texts, and check_transition is its body
--     on the values. StateMachine/Traces has histories of accepted transitions.
--   Research/Markdown, Research/Workspace, Research/Lifecycle, Research/Skeptic: markdown.py,
--     evidence.py, lifecycle.py and skeptic.py of the research kit. A document is its field lines,
--     a workspace a record of its documents and files; a call that writes returns the workspace
--     that it leaves, also where it raises.
--   Risk/Config, Risk/Drawdown, Risk/Clusters, Risk/Engine: the engine of packages/risk.
--   Desks/Lifecycle, Desks/SkepticGate, Desks/Queue, Desks/Store: lifecycle.py, skeptic.py with
--     invalidation.py, queue.py and the store of bus.py in packages/desks.
--   Desks/Scheduler: scheduler.py of packages/desks. Fire has the stamps, Anchors the days and the
--     windows, Index the completions by window, Sweep the sweep with Report's lists, Baseline the
--     known missed windows, Routines the rows of the catalog and Rows those of completions.
--   Backtest/Views, Backtest/Replay, Backtest/Run, Backtest/Strategies: bars.py with pit.py, the
--     clock and the loop of harness.py, run_backtest as a whole, and strategy.py, of
--     packages/backtest.
--   Common/Http: http.py of packages/common, its retry loop by the number of attempts left.
--   Delivery/Config, Delivery/Dedupe, Delivery/Gates, Delivery/Inbound, Delivery/Format,
--     Delivery/Payload, Delivery/Telegram, Delivery/Deliver: the modules of packages/delivery with
--     these names; Dedupe is idempotency.py with rate_limit.py, and Telegram has the send loop of
--     deliver.py. The world of a delivery has the dedupe store, the budget, the posts, the rows of
--     failures, if it has a sink for them, and the files that were written. Deliver/Sending has
--     what a delivery guarantees.
--   Paper/Ledger, Paper/Trades, Paper/Close: models.py, gates.py, artifacts.py and ledger.py of
--     packages/paper: the opening of a trade in a workspace, and the close of one among the trades
--     of a workspace.
--   Memory/Rows, Memory/Observations: schemas.py of packages/common/src/mm_common and
--     repository.py of packages/memory/src/mm_memory: the envelope of an observation, its dedupe
--     by claim hash (put_observation) and the links and qualities of observations that contradict
--     each other. The database is the rows of its tables; what other sessions commit is an
--     argument.
--   Memory/Heartbeat: heartbeat_repository.py of packages/memory/src/mm_memory: one row for a
--     window of the scheduler, in which a status of a higher rank wins (persist_heartbeat,
--     persist_many).
--   Desks/Completions: completions.py of packages/desks/src/mm_desks: the files of completions
--     that the sweep reads. record_cli_completion stamps a fire (Desks/Scheduler/Fire), writes its
--     file, and persists its row (Memory/Heartbeat); load_disk_completions reads the files for
--     miss_sweep.
--   Desks/Receipts: deliver_receipt.py of packages/desks/src/mm_desks: the receipts by which an
--     anchor is delivered once. Receipts/Names has the file names, Receipts/Paths the scope of a
--     commit, Receipts/Attempt the delivery that writes one.
--   Ingest/Licence: licence.py of packages/ingest/src/mm_ingest: the licence verdicts of adapters
--     and the filter of values that may not be published.
-- Each Laws file has the theorems of its parent, and each Tests or Examples file runs the model on
-- small inputs.
--
-- Conventions. Texts are ASCII where they are compared, stripped or changed in case. Floats and
-- decimals are integers of a fixed unit (percentages in hundredths, waits in milliseconds).
-- Instants of the scheduler, the heartbeat and the receipts are whole microseconds since the
-- epoch, instants of other parts are seconds, or texts in one format where they are only compared
-- for equality. Every loop is structural but the split of a message, which has the length of the
-- text as fuel: every piece takes a character, so nothing of the text is left when it ends.
-- Messages and notes of errors and results are constructors or left out.
--
-- What stands for code elsewhere is an argument: the digests and the transport
-- (Delivery.Payload.Services), the search of a number and the decimals (Paper.Ledger.Numbers), the
-- time zone (Delivery.Config.QuietHours and Desks.Scheduler.Clock), strftime, what datetime and
-- json do with the texts of a receipt (Desks.Receipts.Platform), the digest of a claim, the files
-- and rows that other processes write in the course of an operation, the path of a receipt as
-- pathlib resolves it, what the hook of a status change does
-- (Research.StateMachine.TransitionHook), the transport and the random draws (Common.Http), the
-- operations of Decimal (Prelude.Decimals), its reading of texts (Paper.Trades.Platform) and the
-- strategy of a run (Backtest.Replay).
--
-- Not modelled: the loading of YAML, the discovery of files and the templates, the digests, the
-- correlation clusters, the findings of a review, the artifacts of the desks, the sorting and the
-- texts of the scheduler's files, the parsing of bars, the renderings of rows as completions, the
-- other repositories of the database, and the packages that fetch or render (the rest of ingest,
-- flow, macro, listings, quant, briefing, source health), whose logic is input and output or
-- floating-point statistics.
pub mod Prelude
pub mod Research
pub mod Risk
pub mod Desks
pub mod Common
pub mod Memory
pub mod Ingest
pub mod Delivery
pub mod Backtest
pub mod Paper
