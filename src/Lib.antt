-- ===== src/Lib.antt =====
-- OperMind: the backend of an operations assistant. A run either goes through the bounded main agent
-- or through the legacy diagnosis graph, under the run service, which accepts it, claims it and ends it;
-- a diagnosis may yield a controlled action, a fixed repair
-- that a person approves and a fixed executor carries out.
--
-- Base holds what the other modules share: Boolean tests on the native numbers, lists measured by
-- them, tables of rows (lookup, update, insertion), the characters of texts, and Outcomes: the result
-- of a call that may raise, with what holds of its value (Post), of its error (Fails), and a
-- transaction that commits or rolls back (settle, in_transaction).
--
-- Actions models backend/src/domain/actions.py, backend/src/application/action_services.py and
-- backend/src/infrastructure/persistence/action_repositories.py.
--   Records   the records of the domain; identifiers are numbers, times are microseconds
--   Store     the repositories: one table each, with their unique constraints as errors and the
--             compare-and-set of transition_status
--   Events    the audit event with its reserved number, the detail view, the transaction wrapper
--             (_in_transaction), maybe_create_proposal_in_transaction
--   Approval  decide and its replay; Claim: request_execution and its replay; Execution: the
--             transactions around the executor; Execute: the background call execute
--   View      what each repository call does to one proposal and its execution
--   Diagram   the status diagram and the consistency of the two rows
--   Sound     the transactions against the diagram; Schedule: any sequence of transactions
--   Guards    the conditions of a claim, and the path without an executor; Replay: idempotency keys
-- The executor, the clock, the fresh identifiers and the SHA-256 fingerprints are arguments. A
-- transaction is atomic: it commits its writes or drops them, and transactions follow one another in
-- any order. The compare-and-set of a real database is taken to be as isolated as that.
--
-- Agent models backend/src/core/main_agent_react.py with its budget, decisions, observations,
-- the registry of backend/src/capabilities and the tool bindings of backend/src/core.
--   Budget    main_agent_budget.py, with times in milliseconds and the clock's readings as arguments
--   Records, Comparison   declarations, decisions, deliveries and the state of the graph;
--             Validation: the checks of TextComparisonV1 of backend/src/domain/main_agent.py
--   Registry  registry.py; Bindings: capability_tools.py
--   Kernel    what a run is given, and the helpers of its nodes; Nodes, Skill, Invoke: the five nodes
--   Graph     the edges and the run
--   Rules, Finish   what each node can answer; Steady: what every node keeps
--   Keys      when a grounding accepts a loaded skill; Wording: the texts of a question
--   Ending, Limits, Grants, Grounding, Delivered, Lookup   the properties
-- The model, the skill source, the tool gateway, the clock and the cancellation flag are a Round for
-- each decision, so their answers may change from round to round. One unit of fuel is one node; the
-- fuel of a run is langgraph's recursion limit, 50, and a run visits at most two nodes for each
-- decision and one more. An exception that leaves a node, and a run out of fuel, are none: such an
-- exception is the ValidationError of a knowledge grounding, whose identifiers have at most 64 code
-- points. A message of the prompt is kept as its template and the arguments of the template. The
-- pydantic checks of a model decision happen before the decision arrives. ToolBinding.parse_result is
-- taken not to raise, as its protocol says that it answers None.
--
-- Stream models the guard of executor streams, backend/src/application/runtime_safety.py: Guard for
-- any protocol, Run for the typed signals of a run, Runtime for those of the diagnosis runtime. A
-- stream is the finite list of what next answers.
--
-- Runs models backend/src/application/services.py with backend/src/application/run_execution.py,
-- message_routing.py and contracts.py beside it, the records of backend/src/domain/diagnosis.py and
-- backend/src/domain/records.py, the snapshots of backend/src/domain/main_agent.py, and the
-- repositories of backend/src/infrastructure/persistence/repositories.py and
-- run_delivery_repository.py.
--   Records   the records of the domain; Inputs: the materials and the input snapshots, how they are
--             built, copied and checked
--   Store     the repositories: a table each, with the unique constraints as integrity errors, the
--             compare-and-set of transition_status and the two reservations of an event number
--   Routing, Sessions   requires_database_context; create_session, update_session, archive_session
--   Lifecycle, Complete   events, cancel_run, _complete_failure; the two successful ends, with the
--             proposal that a diagnosis may yield
--   Context, Accept, Rerun   _select_main_context; accept_run and accept_main_agent_run with the
--             replay of a key and the reload after a conflict; rerun_run
--   Claim, EventData, Execute   _claim_run; _safe_event_data; execute_run with both loops and the
--             handlers
--   View, Writes, Recorded   what each repository call does to one run, its rows and its events
--   Journal, Steps, Transition   the abstract machine of one run with its event log, and the moves of
--             every transaction (Steps has a child for each group of transactions)
--   Schedule, Refinement   any sequence of transactions, and the trace that it makes of a run
--   Returns, Stage, Settles, Liveness   what an execution returns, and that it ends its run
--   Reread, Replay   a request that is sent again; RoundTrip: a conversation that is archived and
--             restored; ContextBounds: the size of a context; Whitelist: what an event may store;
--             Facts: the normal form of materials
-- Identifiers are numbers, times are microseconds, and new identifiers are arguments. Parameters:
-- Rules has lower-casing, the SHA-256 digest and the tests for sensitive content; Ports has the
-- assembler of a diagnosis, the test whether a diagnosis yields a proposal, the validation and the
-- text of a delivery, and the fingerprint; Setting has the executors, which answer any finite stream,
-- and the clock. Each transaction of an execution comes after the transactions `others k` of other
-- requests, any list of them. Transactions are atomic, as in Actions. The length checks of the
-- commands are made by pydantic before a command arrives. The loops of an execution recur on the
-- stream, so they need no fuel.
--
-- Not modelled: the HTTP interface, pages and lists of the repositories, the edit and removal of
-- messages, the model providers, the legacy diagnosis graph, the tool gateway, monitoring, audit
-- export, the matching of facts to an action, the text comparison itself, the validation of
-- declarations and of deliveries, and the user interface.
pub mod Actions
pub mod Agent
pub mod Base
pub mod Runs
pub mod Stream
