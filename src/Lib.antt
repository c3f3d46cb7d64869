-- ===== src/Lib.antt =====
-- Models of the deterministic incident simulators of the benchmark platform under apps/api: the
-- state machines that answer a candidate model's tool calls while it repairs a simulated outage;
-- of the run engine around them, with its guards, its budget, its scripted faults, its message
-- history and the record of the investigation; and of two functions that read a run afterwards.
--
-- The runner (apps/api/app/runner/engine.py) holds one director per run. On each tool call it
-- calls `execute` of the director, with the evidence keys recorded so far, and after each tool
-- attempt `advance`, which moves the logical clock by one tick. At the end it asks
-- `completion_gaps` whether the contract of the scenario is met. For a director a run is thus a
-- sequence of calls and ticks: the data type `Event`, its step `step` and the sequence `run` in
-- Incident/Execute and Release/Execute.
--
-- Files:
-- + Prelude and its children: shared names; lists, sets, dicts, texts, ordered embeddings.
-- + Protocol: `ToolCall` and `ToolResult` of apps/api/app/runner/protocol.py, and JSON values.
-- + Timeline: phases and the text of the clock, which both directors compute alike.
-- + Completion: the gaps that both `completion_gaps` report alike.
-- + Incident: `IncidentDirector` of apps/api/app/scenario/incident.py. State is the object,
--   Clock `__init__`, `advance` and the checkpoint, Readings and Observe the handlers that read,
--   Snapshots, Actions and Rollback `_snapshot`, `_action` and `_rollback`, Verify `_verify`,
--   Execute `_decision` and `execute`, Gaps `completion_gaps`, Probes `_observability`, Audit
--   `audit`. The other files are proofs: Admission is the guards of the handlers, Relation the
--   step relation, Handled and Transitions relate the handlers to both.
-- + Release: `ReleaseDirector` of apps/api/app/scenario/release.py, in the same way. Inspect,
--   Attest and Probe are the handlers that read, Snapshot, Policy, Rebuild and Actions those
--   that change the release, Audit `completion_gaps` and `audit`. Admission is the guards of the
--   handlers, Transitions the step relation, Handled, Acting and Outcomes relate the handlers to
--   both, Frame says what an action leaves as it was.
-- + TruthGraph: apps/api/app/scenario/truth_graph.py, which grades a repair. Graph is
--   `TruthGraph` and its validator, Evaluate `evaluate_truth_graph`.
-- + AgentGraph: apps/api/app/scenario/agent_graph.py. Derive is `derive_agent_graph`.
-- + Context: the compaction of the message history in apps/api/app/runner/engine.py. Codec has
--   the UTF-8 sizes, Shorten `bounded_text` and `compact_tool_result_content`, Messages the
--   messages and `compact_history_message`, Blocks `protocol_message_blocks`, Compact
--   `compact_message_history`.
-- + Faults: the scripted tool faults, apps/api/app/runner/faults.py. Rules is `FaultRule`,
--   Controller `FaultController`; Schedule and Session are proofs.
-- + Investigation: the tables that a run's hypotheses and evidence are written to,
--   apps/api/app/investigation.py. Store is the tables and `record_hypothesis`,
--   `record_evidence` and `link_evidence`; Numbering and History are proofs.
-- + Engine: `AgentEngine` of apps/api/app/runner/engine.py. Guards is the checks on commands and
--   paths at the end of that file, State the engine's own state, Sandboxed and Handlers the
--   branches of `_execute`, Execute `_execute`, Process `_process_tool_result` and the loop over
--   the tool calls of a turn, Milestones `completion_actions_from_events` and
--   `substantive_tool_call_count`, Gaps `_completion_gaps`, Budget `BudgetSpec` of
--   apps/api/app/challenge/spec.py and `_apply_budget_overrides`, Limits the warnings and
--   limits, Visible `_model_visible_result` and `_truncate_output`, Session and Loop the main
--   loop of `run`. Directed says what the engine does to the directors; Driven and Batches show
--   it of each step, Commands and Contained are about the guards, Shown is about Visible,
--   Counting, Overrides, Keeping, Rounds and Ends bound the loop, Finish is about the contract.
--
-- How the code is rendered:
-- + A method takes the director and returns the new director with its answer. A handler of the
--   release director may also end in `key_error`, where the source raises KeyError.
-- + `Host` stands for what the standard library computes: the hex digest of a text, `casefold`,
--   and `json.dumps`. Nothing is assumed of them.
-- + Integers that the source keeps at or above 0 are natural numbers. Floats are whole numbers
--   of hundredths or of millionths. A tool argument is the text that `str` makes of it.
-- + A plan is a record; a key that `get` may miss is an option. Its other keys are taken to be
--   there. A set is a list without repetition.
-- + `Codec` and `Tools` stand for further functions of the standard library: other ways of
--   `json.dumps`, `json.loads`, `fnmatch`, and a rounded float product. Only the last has a
--   hypothesis, `IsRounding`: seven tenths of a number round to no more than the number.
-- + Loops are structural, but for three on fuel: decimal printing, with one more than the
--   number, the blocks of a history, with the number of its messages, and the main loop of the
--   engine. For the last the rounds left are enough: the bound on tool calls less those made,
--   and what is left of eight rejected finishes and of eight invalid batches, since every round
--   that goes on spends one of them.
-- + `Outside` stands for what is around the engine: the sandbox, the offline browser, the wait
--   while a run is paused. `Lexer` and `Config` stand for `re`, `shlex` and the canonical JSON
--   of a call, `Driver` for the model's provider, the clock and the overrides in the database. A
--   provider answers from the whole engine. Calls that may run at once run in the order in which
--   they were submitted.
--
-- Not modelled: `from_prepared_state`; the rounded numbers of an evaluation and of an audit; the
-- rest of the runner, its sandbox and providers; the generators, the web API and its database.
pub mod Prelude
pub mod Protocol
pub mod Timeline
pub mod Completion
pub mod Incident
pub mod Release
pub mod TruthGraph
pub mod AgentGraph
pub mod Context
pub mod Faults
pub mod Investigation
pub mod Engine
