-- ===== src/Lib.antt =====
-- agentapi-doctor: a checker of agent APIs. It records the traffic of a target as server-sent events,
-- judges the stream of response events, drives clients through a session protocol, pays for all of it
-- from a budget, and keeps the published observations, their ownership and their disputes in a
-- registry. These files model the parts that decide; each is a library module of its own.
--
-- The parts, and the code that each file is about:
--   Sse           internal/recorder/sse.go: `Feed`, `Finish`, `consumeLine`, `dispatch`. A recorded
--                 stream arrives as read chunks and leaves as logical events. Sse.Feed has the loop of
--                 `Feed`, Sse.Lines an independent description, byte by byte and with no chunks.
--   StateMachine  internal/statemachine/response.go: `Apply`, `Finish`, `ReconstructedArguments`, and
--                 the loop of the oracle in internal/oracle/state_machine.go. It takes the events that
--                 the assembler's events decode to.
--   Driver        pkg/driverprotocol/state.go: the session machine, and from protocol.go the kinds of
--                 frames and the checks of parameters. Driver.Messages has `Kind` and `Apply`.
--   Budget        internal/budget/ledger.go: `Reserve`, `Commit`, `Cancel`, `ConsumeCleanup`,
--                 `Snapshot`; the budget records of pkg/schema/plan.go. Every request or process of a
--                 run is paid from a ledger.
--   Oracle        internal/oracle: `EvaluateRelations` and `EvaluateStateMachine`, which turn evidence
--                 into a verdict, with `preflight`; the items and references of pkg/schema/evidence.go
--                 and common.go. Oracle.Streams runs the machine of StateMachine.
--   Planner       internal/planner/planner.go: `BuildIntent` up to its branches (Planner.Branches),
--                 `Resolve` up to its decisions (Planner.Resolution); pkg/schema/plan.go:
--                 `validateIntentBranches` and `validateScenarioDAG` (Planner.Checks).
--   Minimizer     internal/minimizer/minimizer.go: `DDMin` and `RemoveJSONObjectKeys`, which shorten
--                 the input of a finding.
--   Report        internal/report/baseline.go: `Validate` and `Compare`, which tell what changed since a
--                 baseline.
--   Journal       internal/provenance/journal.go: `Append`, `Verify` and the transitions of a run. A run
--                 writes its events to a journal, a chain of digests.
--   Registry      internal/registry/auth.go: principals and scopes; Registry.Ownership is ownership.go
--                 and Registry.Dispute is dispute.go. A dispute asks the ownership of its subject who
--                 may answer. Registry.Ingest is ingest.go, the upload of an observation, and
--                 Registry.Purge is purge.go, its removal from every place that serves it;
--                 Registry.Store and Registry.Memory are store/memory.go, the store of the registry.
--   Schema        pkg/schema/digest.go: `ParseDigest`, which the pages of the registry's store ask of
--                 the cursors that they are given. Parts that only ask whether a text is a digest
--                 take that check as a parameter.
--   Common        names and lemmas that the others share: tests on native numbers, int64 as bit
--                 patterns, association lists for maps, results with errors.
--
-- How the state corresponds to the code. A struct is a record with the fields of the source, a map an
-- association list, a slice a list, an enum a data type (with a constructor for other texts where the
-- code can see one). A method that changes its receiver returns the new value with its error; methods
-- that run under a lock are one step, and concurrent use is a history of such steps. Errors are values,
-- without their messages. int64 and uint64 values of the ledger, the assembler, the journal and the
-- machines are numbers below 2 ^ 64 with the wrap-around written out. Times are numbers, 0 for Go's
-- zero time.
--
-- Parameters. What comes from Go's library or from packages outside the parts is an argument:
-- `strconv.ParseInt` (Sse), the JSON decoder and the checks of ids, digests and nested parameters
-- (`Wire` of Driver), `strings.TrimSpace`, `len`, `unicode.IsControl` and the checks of ids, digests
-- and subject names (`Checks` of Registry), the digest of an event (`Hash` of Journal), the patterns
-- of kinds, names and ids and `json.Valid` (`Checks` of Oracle, arguments of Planner.Checks), the
-- sorting of names and ids (Planner, Report), the checks of names and digests (`Checks` of Report),
-- what the store reads of observations and through pointers, the order of ids and the base64 of
-- cursors (Registry.Store, Registry.Memory), and the predicate and the context of a minimization.
-- Nothing is assumed of them but what a theorem lists.
--
-- Fuel. The loop of `Feed` runs on fuel, one more than the bytes of the buffer; each turn takes a
-- line and its newline from the buffer, so that is enough. The loop of `DDMin` over the chunks moves
-- on by a chunk, which is not empty, each time, so the length of the list and one more is enough;
-- its outer loop has two bounds, one on how often the list gets shorter and one on the rounds
-- between, in which the granularity doubles up to the length. A client that walks through pages
-- (Registry.Pages) has one step more than there are observations, and each full page has one at
-- least. All other loops are over lists.
--
-- Not modelled: the HTTP API and the SQL store of the registry and the plain look-ups of the one in
-- memory, attribution, the structural schema oracle, the rendering of reports, executor, command
-- line, configuration, transport, the sealing of plans and the JSON codecs, which are I/O, glue or
-- still to come.
pub mod Budget
pub mod Common
pub mod Driver
pub mod Journal
pub mod Minimizer
pub mod Oracle
pub mod Planner
pub mod Registry
pub mod Report
pub mod Schema
pub mod Sse
pub mod StateMachine
