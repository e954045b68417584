-- ===== src/Lib.antt =====
-- Runi is a local agent runtime in C++: a loop that asks a model for actions and carries them out with
-- tools, a service that runs requests in the background, and the stores they share. This library
-- models the parts that share state between threads or survive a crash, and proves what they promise.
--
-- Error (src/core/error.cpp, include/runi/core/error.hpp, include/runi/core/result.hpp):
-- errors and results as values; every other part returns them.
-- Text (src/core/text.cpp): trimming, clipping by UTF-8 characters and splitting of texts. A text is a list of
-- bytes.
-- Json (src/core/json_value.cpp, src/core/json_codec.cpp): `JsonValue`, a mutual data type with an
-- object as its fields in the order of the keys; `Parser` as recursive descent over the bytes that are
-- left (Json/Reader.antt, Json/Parser.antt), `append_json` as the text that it appends
-- (Json/Printer.antt). `double` is a type parameter, with `std::strtod` and `std::to_chars` as
-- functions. Json/RoundTrip proves what the parser makes of a printed text; in
-- Json/RoundTrip/Mapped.antt the fields of an object stand in any order, as in a text.
-- TaskState (src/state/task_state.cpp): the record of a task, its changes and its JSON.
-- ActionParser (src/agent/action_parser.cpp): `ModelActionParser`. The two regular expressions are the
-- functions `search_tool` and `match_attr`; a map of attributes is the fields that hold them as strings.
-- AgentLoop (src/agent/agent_loop.cpp): `AgentLoop::run`, on the actions of ActionParser. The records
-- `Session` and `Turn` say what the calls of a run and of each attempt return and where a stop is
-- requested; the loop is a function to its result and a log of its effects.
-- ToolExecutor (src/tool/tool_executor.cpp): `ToolExecutor::execute`. The records `Tool` and `Host` say
-- what a tool and the host answer; a call returns its result with a log of what it asked of them. The
-- exception of `std::stoi` on an exit code beyond `int` is a result of its own.
-- Sha256 (src/core/sha256.cpp): `sha256`, with the state as a record of eight words and the schedule of a
-- block as a list of words, the latest first while it grows. The padding runs on fuel 64, of which
-- fewer passes are needed.
-- Executor (src/orchestration/execution.cpp): `BoundedExecutor`. Each critical section is a function
-- (`enqueue`, `wake` and `finish` of `worker_loop`, `close` and `signal` of `request_stop`,
-- `shutdown`), a task is a number, and Executor/Steps.antt is the relation of their interleavings.
-- Registry (src/orchestration/multi_agent.cpp): `AgentRegistry` and `AgentLease`. `try_acquire` is one
-- pass of the loop of `acquire`, at a time and a stop token that are arguments; `acquire` goes over the
-- wake-ups of the condition variable, which is a list. Registry/Invariant.antt runs the calls of any
-- number of clients in any order, and Registry/Totals.antt is about the sums of the snapshot.
-- Committer (the same file): `WorkspaceCommitter::commit`, over a store of files by path. What
-- `WorkspaceGuard::resolve`, the digest and the operating system do is a parameter: the record `Disk`
-- says which write, rename or removal fails.
-- Cache (src/state/context_cache.cpp): `ContextCache`. `get_or_compute` is `begin_get` and
-- `finish_get`, its two critical sections, and the computation runs between them; Cache/Flights.antt
-- interleaves the calls.
-- Store (src/state/state_store.cpp): the states of a run and the tables `sessions`, `runs` and
-- `run_events` of `SqliteStateStore`. Store/Runs/History.antt and Store/Sessions/History.antt follow a
-- row through any calls, Store/Runs/Recovery.antt is about the recovery. A table is the list of its
-- rows; the record `Engine` says which statement of a call fails, and how. The operations on runs and
-- events read of the other tables the ids only. The JSON functions are parameters.
-- Examples: runs at concrete inputs.
--
-- Numbers are natural numbers: sizes, counters and time points, none of which the modelled code
-- subtracts below zero; counters are taken not to reach the width of `std::size_t`, but the sums of
-- `AgentRegistry::snapshot` wrap. The loop of the eviction runs on fuel, the number of entries, of which each pass removes one; the loop of
-- `split_lines` has the number of bytes, of which each pass takes one or more; the loop that prints a
-- number has one more than the number itself, which is above its digits. The parser of JSON spends a unit
-- of fuel at every call and every pass of a loop, of which each byte of the text accounts for at most
-- four; it starts with four for each byte and four more, which Json/Terminates.antt shows to be
-- enough. The loop of the agent starts with one unit more than `max_attempts`.
--
-- Not modelled: the service, the tools themselves, the context manager, and of
-- the parts above `run_parallel` and memory records. Processes, sockets, HTTP and the programs are input
-- and output only.
pub mod Prelude
pub mod Error
pub mod Text
pub mod Json
pub mod TaskState
pub mod ActionParser
pub mod AgentLoop
pub mod ToolExecutor
pub mod Sha256
pub mod Executor
pub mod Registry
pub mod Committer
pub mod Cache
pub mod Store
pub mod Examples
