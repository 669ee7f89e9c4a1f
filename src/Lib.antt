-- ===== src/Lib.antt =====
-- 5G_PCAP reads packet captures of a 5G core, decodes them, groups and pairs the signaling, and
-- hands the result to two assistants: triage, which explains incidents by a tree search whose steps
-- call language models, and dispatch, which gathers evidence for an incident, explains it, proposes a
-- remedy, and runs it once a human approves. This library models the capture analyzer,
-- 5gcap/fivegcap, and the parts of triage and dispatch that decide: the search, the grounding of what
-- it finds, the stores of past incidents, the runbooks, the proposal, the executor and the approval.
--
-- The parts of the analyzer, in the order in which cli.py runs them, and the files that model them:
--
--   5gcap/fivegcap/capture.py    Analyzer/Capture.antt
--   5gcap/fivegcap/nas.py        Analyzer/Nas.antt
--   5gcap/fivegcap/ngap.py       Analyzer/Ngap.antt (the message record), Analyzer/Ngap/Decode.antt
--                                (decode), Analyzer/Octets.antt (_to_bytes, _ip_str)
--   5gcap/fivegcap/flow.py       Analyzer/Flow.antt
--   5gcap/fivegcap/pfcp.py       Analyzer/Pfcp.antt (types), Analyzer/Pfcp/Decode.antt (decode),
--                                Analyzer/Pfcp/Pairing.antt (pair_procedures)
--   5gcap/fivegcap/sbi.py        Analyzer/Sbi.antt (types), Analyzer/Sbi/Pairing.antt (pairing)
--   5gcap/fivegcap/correlate.py  Analyzer/Correlate.antt
--   5gcap/fivegcap/kpi.py        Analyzer/Kpi.antt (compute)
--
-- The parts of triage:
--
--   triage/triage/search.py      Triage/Search/Node.antt, Triage/Search/Rollout.antt and
--                                Triage/Search/Run.antt (Tree), Triage/Search/Action.antt
--                                (parse_action), Triage/Tools.antt (execute_action and the grounding),
--                                Triage/Objective.antt (objective_text, memory_context)
--   triage/triage/incidents.py   Triage/Incidents.antt, over the export of Triage/Export.antt
--   triage/triage/memory.py      Triage/Memory.antt
--
-- The parts of dispatch:
--
--   dispatch/dispatch/correlation.py  Dispatch/Correlation.antt
--   dispatch/dispatch/evidence.py     Dispatch/Record.antt (the records)
--   dispatch/dispatch/executor.py     Dispatch/Executor.antt
--   dispatch/dispatch/runbook.py      Dispatch/Runbook.antt, Dispatch/Runbook/Parse.antt
--   dispatch/dispatch/proposal.py     Dispatch/Proposal.antt
--   dispatch/dispatch/record.py       Dispatch/Record.antt
--   dispatch/dispatch/memory.py       Dispatch/Memory.antt
--   dispatch/dispatch/learning.py     Dispatch/Learning.antt
--   dispatch/dispatch/root_cause.py   Dispatch/RootCause.antt
--   dispatch/dispatch/graph.py        Dispatch/Graph.antt
--
-- Both stores of past incidents write and read one JSON record a line, as Jsonl.antt. dispatch's
-- root-cause search is triage's tree with another execute step: dispatch_steps in
-- Dispatch/RootCause.antt and lats_steps in Triage/Tools.antt give the two their steps.
--
-- The other child modules of these files hold the proofs; Tests/ runs the code on small inputs.
-- Prelude holds what Python provides: dicts in insertion order (Prelude/Dict), sets (Prelude/Sets), the
-- stable sorts (Prelude/Sort by a number, Prelude/Order by a Boolean order), texts (Prelude/Text,
-- Prelude/Chars, Prelude/Lines), and the equality of keys (Prelude/Keys).
--
-- How the source is rendered:
--   - A loop with local variables is a recursion over its list that passes them in a record: Reader
--     for read_capture, Pairing for pair_procedures, Builder for build_flows, Links for the joins.
--     Each loop's body is a function of its own (read_chunk, step, build_step). The number of rollouts
--     of a search is bounded by max_rollouts, on which its loop recurs; no other fuel is needed.
--   - An operation that raises or gives None returns an Option, or a Checked with one constructor for
--     each message of a ValueError. A name or an outcome that the source spells as a text is a
--     constructor where the source compares it only.
--   - Objects that the source shares are passed on explicitly. The flows that build_flows keeps
--     both in a dict and in a list stand in one dict, from which nothing is removed. A node of the
--     search tree holds its children and not its parent: the rewards that go up to it are returned. A
--     node that the source keeps a reference to is found again by its trajectory, which is its own.
--   - What a step changes outside its arguments is a state of the world that it is given and returns;
--     in dispatch's graph that is a Disk: the record's file, the commands that the runner got, the
--     Episode store's file, and the rest.
--   - A frozenset of two members is the pair in one fixed order.
--   - Times are whole microseconds. A latency is their difference (Prelude/Integers), which may be
--     negative; the source's factor to milliseconds is left out. A time that is printed stands beside
--     its text (Dispatch/Record.antt). Rewards of the search are of any type with Floats' operations.
--   - An address that _ip_str renders stands as its bytes.
--   - A 5G-GUTI is kept as its PLMN digits and its four parts, which the source joins in a text.
--   - A value of an evidence item's key is any hashable object in Dispatch/Correlation.antt, where its
--     type is a parameter, and one of json's in the rest of dispatch.
--
-- What scapy and pycrate do is not in the repository. A packet is a record of the fields that the
-- source reads from scapy's layers. pycrate's NAS parser and its cause tables are the parameter
-- NasLibrary, its NGAP decoder is NgapLibrary, and its PFCP parser and names are PfcpLibrary; a
-- message that it parsed is a tree of elements with the values that they hold
-- (Analyzer/Value.antt). A SecurityModeCommand's algorithms that are no numbers count as none, and
-- a value that is no list has none, where the source's index raises. The language models are the
-- parameters Steps and Proposer, whose calls may fail; execute is taken not to raise, as its
-- functions do not. pydantic's printing and reading is Codec, its other checks are Libraries and
-- Tools. The regular expressions of core_services, pathlib, sha256, json's and YAML's texts and
-- Python's character classes are fields of Sandbox, Digest, Reading, Printing and Casing. The graph
-- library is taken to run the steps in the order in which build_graph joins them and to keep the
-- state between propose and execute (Checkpoint). Where a step raises, the state stays as it was
-- before the step: a resume runs that step again, and reads a decision only at the approval. A
-- command that the runner is given counts as run: what the shell does with it is not modelled.
--
-- Not modelled: the decoding of SBI payloads into message records, the means of the KPIs and those
-- across planes, printing and JSON writing (output.py), and the command lines; in dispatch, the
-- specialists that call subprocesses (kpi.py, pcap.py, log.py); in triage, the rendering of
-- evidence and topology, the reports, the specification graph and tracing.
pub mod Prelude
pub mod Analyzer
pub mod Dispatch
pub mod Triage
pub mod Jsonl
pub mod Tests
