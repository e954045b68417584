-- ===== src/Examples.antt =====
-- Runs of the definitions at concrete inputs.
mod Commits
mod Threads
mod Agents
mod Caching
mod Texts
mod Persistence
mod Events
mod Sessions
mod Documents
mod Tasks
mod Answers
mod Loops
mod ToolCalls
mod Digests
