-- ===== src/Postgres/Refinement.antt =====
-- The PostgreSQL store takes the same steps as the SQLite store.
pub mod Submit
pub mod Claim
pub mod Calls
pub mod Registry
