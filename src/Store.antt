-- ===== src/Store.antt =====
-- include/runi/state/state_store.hpp and src/state/state_store.cpp: the tables of the runtime and
-- the SQL statements on them. A table is the list of its rows. The statements mean what SQL says;
-- whether SQLite carries one out is up to the engine.
pub mod Status
pub mod Engine
pub mod Runs
pub mod Events
pub mod Sessions
